-- ===== src/Updater/Tests.antt =====
-- The updater of src/pz_updater/core.py on a concrete machine.
use pz_server.Prelude.{ℕ, true, false, none, some, [], ◌≡◌, refl, str_eq, if◌then◌else◌}
use pz_server.Updater.Exec.{Result, ok}
use pz_server.Updater.State.{
  UpdateState, StateName, fresh, pending_readiness, starting_candidate, runtime_ready, null, int,
  bool, release,
}
use pz_server.Updater.Machine.{
  Fate, works, directory, PointerFile, missing, names, no_state, broken, holds, World,
  SteamBuildMetadata, Environment,
}
use pz_server.Updater.Update.{Configuration, stable_on_start}
use pz_server.Updater.Lifecycle.{mark_world_opened, mark_runtime_ready, accept, fail_readiness}
use pz_server.Updater.Start.{prepare_start, explicit_update}
use pz_server.Updater.Acceptance.{Returned, Raised, accept-Accepts}
use pz_server.Updater.Committed.{Kept, prepare_start-Kept, explicit_update-Kept}
use pz_server.Updater.Soundness.Rules.{Meets}
use pz_server.Updater.Soundness.Invariant.{IsSound}
use pz_server.Updater.Soundness.Operations.{
  mark_world_opened-IsSound, mark_runtime_ready-IsSound, fail_readiness-IsSound,
}
use pz_server.Updater.Soundness.Launch.{prepare_start-IsSound, explicit_update-IsSound}

-- A tree is its build number; Steam installs build 12.
abbrev metadata : ℕ → SteamBuildMetadata
metadata b = record { build_id = b; size_on_disk = some 1000 }

abbrev pub environment : (ℕ → Fate) → Environment ℕ
environment fate = record {
  fate = fate;
  torn = λ _ b. b;
  empty_tree = 0;
  lock_free = λ _. true;
  now = λ _. "2026-01-01T00:00:00+00:00";
  candidate_name = λ _ _. "candidate-12";
  final_name = λ _ _. "release-12";
  alternative_name = λ _ _. "release-12-again";
  latest_build = λ _. ok 12;
  install = λ _ _. (ok tt, 12);
  prepare = λ _ b. (ok (metadata b), b);
  read_metadata = λ _ b. ok (metadata b);
  create_backup = λ _. ok "backup.tar";
  server_running = λ _. false;
  deployment_pending = λ _. false;
  free_space = λ _. some 100000000000;
  data_directories = λ _. [];
}

abbrev pub reliable : Environment ℕ
reliable = environment (λ _. works)

abbrev pub configuration : Configuration
configuration = record {
  policy = stable_on_start;
  steam_branch = "public";
  mods_configured = false;
  allow_auto_update_with_mods = false;
  deployment_environment = "aws";
}

-- Release 11 is installed and active.
abbrev pub installed : World ℕ
installed = record {
  step = 0;
  store = no_state;
  active = names "release-11";
  previous = missing;
  entries = λ n. if str_eq n "release-11" then some (directory 11) else none;
}

pub installed-IsSound : IsSound installed
installed-IsSound = record { live = tt; fits = tt }

prepare_start-IsSound_example : IsSound (prepare_start reliable configuration installed).1
prepare_start-IsSound_example =
    prepare_start-IsSound reliable configuration installed (λ _ _. refl) installed-IsSound

explicit_update-IsSound_example : IsSound (explicit_update reliable configuration false installed).1
explicit_update-IsSound_example =
    explicit_update-IsSound reliable configuration false installed (λ _ _. refl) installed-IsSound

-- A candidate of build 12 is active, in the given state.
abbrev candidate_state : StateName → UpdateState
candidate_state name = record fresh {
  state = name;
  current_build = int 12;
  previous_build = int 11;
  candidate_build = int 12;
  candidate_release = release "release-12";
  previous_release = release "release-11";
  promoted_release = null;
  world_opened = bool true;
}

abbrev pub candidate : StateName → World ℕ
candidate name = record {
  step = 0;
  store = holds (candidate_state name);
  active = names "release-12";
  previous = names "release-11";
  entries = λ n. if str_eq n "release-12" then some (directory 12) else none;
}

mark_world_opened-IsSound_example :
    IsSound (mark_world_opened reliable (candidate pending_readiness)).1
mark_world_opened-IsSound_example =
    mark_world_opened-IsSound reliable (candidate pending_readiness)
      (record { live = tt; fits = (refl, refl) })

mark_runtime_ready-IsSound_example :
    IsSound
      (mark_runtime_ready reliable configuration
        (some "42.1")
        none
        (candidate starting_candidate)).1
mark_runtime_ready-IsSound_example =
    mark_runtime_ready-IsSound reliable configuration (some "42.1") none
      (candidate starting_candidate) (record { live = tt; fits = (refl, refl) })

accept-Accepts_example :
    Meets
      (Returned reliable
        (candidate_state runtime_ready)
        (names "release-12")
        (names "release-11")
        (candidate runtime_ready).entries)
      (Raised reliable
        (candidate_state runtime_ready)
        (names "release-12")
        (names "release-11")
        (candidate runtime_ready).entries)
      (accept reliable (candidate runtime_ready))
accept-Accepts_example =
    accept-Accepts reliable (candidate_state runtime_ready) (candidate runtime_ready) refl

fail_readiness-IsSound_example :
    IsSound (fail_readiness reliable "no port" (candidate starting_candidate)).1
fail_readiness-IsSound_example =
    fail_readiness-IsSound reliable "no port" (candidate starting_candidate)
      (record { live = tt; fits = (refl, refl) })

-- What a start leaves: the pointer, and the recorded state.
abbrev outcome : {A : Type 0} → Result A × World ℕ → PointerFile × StateName
outcome (_, w) = (
  w.active,
  elim w.store [ no_state ↦ fresh.state | (broken _) ↦ fresh.state | holds s ↦ s.state ],
)

updates :
    outcome (prepare_start reliable configuration installed)
    ≡ (names "release-12", pending_readiness)
unfolding prepare_start
updates = refl

accepts :
    outcome (accept reliable (candidate runtime_ready)) ≡ (names "release-12", StateName.current)
unfolding accept
accepts = refl

prepare_start-Kept_example :
    Meets
      (λ r v.
        (r ≡ candidate_state starting_candidate)
        × Kept reliable
            (candidate_state starting_candidate)
            (names "release-12")
            (names "release-11")
            v)
      (Kept reliable (candidate_state starting_candidate) (names "release-12") (names "release-11"))
      (prepare_start reliable configuration (candidate starting_candidate))
prepare_start-Kept_example =
    prepare_start-Kept reliable configuration (candidate_state starting_candidate)
      (candidate starting_candidate) refl refl

explicit_update-Kept_example :
    Meets
      (λ _ _. ⊥)
      (Kept reliable (candidate_state runtime_ready) (names "release-12") (names "release-11"))
      (explicit_update reliable configuration true (candidate runtime_ready))
explicit_update-Kept_example =
    explicit_update-Kept reliable configuration true (candidate_state runtime_ready)
      (candidate runtime_ready) refl refl
