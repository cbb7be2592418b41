-- ===== src/Updater/Update/Plan.antt =====
-- What the steps of one update share (src/pz_updater/core.py): the configuration, the checks of the
-- disk, and the states that an update records.
use pz_server.Prelude.{
  ℕ, ◌+◌, ◌*◌, ◌/◌, ◌^◌, String, Bool, true, false, Option, none, some, any, ltb, ◌==◌,
  if◌then◌else◌,
}
use pz_server.Updater.Exec.{update_error, Result, ok, raised, Exec, pure}
use pz_server.Updater.State.{
  UpdateState, Value, null, bool, int, str, activating, downloading_candidate, promoting_candidate,
  pending_readiness, str_or_null,
}
use pz_server.Updater.Machine.{
  World, Environment, SteamBuildMetadata, DataDirectory, not_directory, no_members, has_members,
  unreadable, advance, consult,
}
use pz_server.Updater.Recovery.{build_or_null}

pub data UpdatePolicy : Type 0 where
  stable_on_start manual : UpdatePolicy

abbrev pub policy_value : UpdatePolicy → String
policy_value stable_on_start = "stable-on-start"
policy_value manual = "manual"

-- What `GameUpdater` reads of its `UpdateConfiguration`.
pub record Configuration : Type 0 where
  pub policy : UpdatePolicy
  pub steam_branch : String
  pub mods_configured : Bool
  pub allow_auto_update_with_mods : Bool
  pub deployment_environment : String

-- `current.build_id if current else None`
abbrev pub current_build_id : Option SteamBuildMetadata → Option ℕ
current_build_id none = none
current_build_id (some m) = some m.build_id

-- One round of `_world_has_state`
abbrev pub may_hold_world : DataDirectory → Bool
may_hold_world not_directory = false
may_hold_world no_members = false
may_hold_world has_members = true
may_hold_world unreadable = true

-- `_require_candidate_space`: the size of the current release, if it is known and not zero.
unfoldable pub estimated_size : Option SteamBuildMetadata → ℕ
estimated_size none = 7 * 1024 ^ 3
estimated_size (some m) = elim m.size_on_disk [
  | none ↦ 7 * 1024 ^ 3
  | some size ↦ if size == 0 then 7 * 1024 ^ 3 else size
]

-- The source's `int(estimated_size * 1.35)` is a product of floats; here it is exact.
unfoldable pub required_space : Option SteamBuildMetadata → ℕ
unfolding estimated_size
required_space installed = estimated_size installed * 135 / 100 + 2 * 1024 ^ 3

module _ {T : Type 0} (env : Environment T) where
  unfoldable pub require_candidate_space : Option SteamBuildMetadata → Exec (World T) (Unit {0})
  unfolding required_space
  require_candidate_space installed w = elim (env.free_space w.step) [
    | none ↦ (
      raised (update_error "Could not determine free space for the candidate release"),
      advance w,
    )
    | some free ↦
        if ltb free (required_space installed)
        then (raised (update_error "Insufficient free space for isolated candidate"), advance w)
        else (ok tt, advance w)
  ]

  -- `_world_has_state`
  unfoldable pub world_has_state : Exec (World T) Bool
  world_has_state = consult env (λ n. any may_hold_world (env.data_directories n))

-- `None` where there is no active release: then no old release is discarded.
abbrev pub when_some :
    {S A : Type 0} → Option A → (A → S → Result (Unit {0}) × S) → S → Result (Unit {0}) × S
when_some none f = pure tt
when_some (some a) f = f a

-- The arguments that the steps of one update share.
pub record Attempt : Type 0 where
  pub active : Option String
  pub current : Option SteamBuildMetadata
  pub latest : ℕ
  pub state : UpdateState

-- The states that one update records, in their order.
abbrev pub downloading : Configuration → Attempt → Value → String → UpdateState
downloading c a path now = record a.state {
  state = downloading_candidate;
  current_build = build_or_null a.current;
  candidate_build = int a.latest;
  candidate_release = path;
  last_check_at = str now;
  update_policy = str (policy_value c.policy);
  steam_branch = str c.steam_branch;
  updated_at = str now;
}

abbrev pub promoted :
    Configuration → Attempt → Value → Value → Value → Option String → String → UpdateState
promoted c a previous staged promoted_to backup now = record a.state {
  state = promoting_candidate;
  current_build = build_or_null a.current;
  previous_build = build_or_null a.current;
  candidate_build = int a.latest;
  previous_release = previous;
  candidate_release = staged;
  promoted_release = promoted_to;
  pre_update_backup = str_or_null backup;
  world_opened = bool false;
  updated_at = str now;
}

abbrev pub activated : Value → String → UpdateState → UpdateState
activated path now s = record s {
  state = activating;
  candidate_release = path;
  promoted_release = null;
  updated_at = str now;
}

abbrev pub pending : Attempt → String → UpdateState → UpdateState
pending a now s = record s {
  state = pending_readiness;
  current_build = int a.latest;
  last_result = str "candidate-activated";
  updated_at = str now;
}

abbrev pub server_active : String
server_active = "A Project Zomboid GameServer process is active; update refused"
