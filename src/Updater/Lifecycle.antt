-- ===== src/Updater/Lifecycle.antt =====
-- The operations of `GameUpdater` in src/pz_updater/core.py behind the activation of a candidate:
-- `mark_world_opened`, `mark_runtime_ready`, `accept`, `fail_readiness`, `active_release` and
-- `status`, with `_verify_candidate_active` and `_complete_acceptance`.
use pz_server.Prelude.{
  ℕ, String, Bool, true, false, not, ◌&&◌, Option, none, some, str_eq, ◌==◌, if◌then◌else◌,
}
use pz_server.Updater.Exec.{
  Failure, update_error, other_error, Exec, ◌>>=◌, ◌>>◌, pure, raise, try_except, is_update_error,
}
use pz_server.Updater.State.{
  UpdateState, StateName, Value, absent, null, container, float, bool, int, str, release,
  pending_readiness, starting_candidate, runtime_ready, failed_after_world_open, unknown,
  is_unhashable, is_none, as_int, is_true, str_or_null, shorten,
}
use pz_server.Updater.Machine.{
  World, Environment, SteamBuildMetadata, on_tree, read_installed_metadata,
}
use pz_server.Updater.Layout.{load, write, read_active, with_lock}
use pz_server.Updater.Recovery.{is_release}
use pz_server.Updater.Update.{Configuration}

-- `state in {"pending-readiness", "starting-candidate"}`
abbrev pub awaits_world : StateName → Bool
awaits_world pending_readiness = true
awaits_world starting_candidate = true
awaits_world _ = false

-- `state in {"pending-readiness", "starting-candidate", "runtime-ready"}`
abbrev pub awaits_acceptance : StateName → Bool
awaits_acceptance pending_readiness = true
awaits_acceptance starting_candidate = true
awaits_acceptance runtime_ready = true
awaits_acceptance _ = false

abbrev pub is_current : StateName → Bool
is_current StateName.current = true
is_current _ = false

abbrev pub is_runtime_ready : StateName → Bool
is_runtime_ready runtime_ready = true
is_runtime_ready _ = false

-- `v or utc_now()`
abbrev pub or_now : Value → String → Value
or_now absent t = str t
or_now null t = str t
or_now (bool false) t = str t
or_now (bool true) t = bool true
or_now (int n) t = if n == 0 then str t else int n
or_now (str s) t = if str_eq s "" then str t else str s
or_now (release n) t = release n
or_now (container filled) t = if filled then container filled else str t
or_now (float filled) t = if filled then float filled else str t

-- The states that the operations below record.
abbrev pub opened : String → UpdateState → UpdateState
opened now s = record s {
  state = starting_candidate;
  world_opened = bool true;
  world_opened_at = or_now s.world_opened_at now;
  updated_at = str now;
}

abbrev pub described : Option String → Option String → String → UpdateState → UpdateState
described version revision now s = record s {
  pz_version = str_or_null version;
  pz_revision = str_or_null revision;
  runtime_ready_at = str now;
  updated_at = str now;
}

abbrev pub ready_state : Option String → Option String → String → UpdateState → UpdateState
ready_state version revision now s = record s {
  state = runtime_ready;
  pz_version = str_or_null version;
  pz_revision = str_or_null revision;
  runtime_ready_at = str now;
  updated_at = str now;
}

abbrev pub accepted : String → UpdateState → UpdateState
accepted now s = record s {
  state = StateName.current;
  current_build = s.candidate_build;
  candidate_build = null;
  candidate_release = null;
  promoted_release = null;
  last_result = str (if is_none s.previous_build then "installed" else "updated");
  last_update_from_build = if is_none s.previous_build then null else s.previous_build;
  last_update_to_build = s.candidate_build;
  last_successful_update_at = str now;
  world_opened = bool true;
  detail = null;
  blocked_build = null;
  updated_at = str now;
}

abbrev pub unready : String → String → UpdateState → UpdateState
unready detail now s = record s {
  state = failed_after_world_open;
  last_result = str "readiness-failed";
  detail = str (shorten 500 detail);
  updated_at = str now;
}

module _ {T : Type 0} (env : Environment T) where
  unfoldable pub verify_build : ℕ → SteamBuildMetadata → Exec (World T) (Unit {0})
  verify_build expected m =
      if m.build_id == expected
      then pure tt
      else raise (update_error "Candidate state does not match the active Steam manifest")

  unfoldable pub verify_release : UpdateState → Option String → Exec (World T) (Unit {0})
  unfolding verify_build on_tree
  verify_release s none =
      raise (update_error "Candidate state does not match the active release pointer")
  verify_release s (some n) = elim (as_int s.candidate_build) [
    | none ↦ raise (update_error "Candidate state does not match the active release pointer")
    | some expected ↦
        if is_release s.candidate_release n
        then read_installed_metadata env n >>= verify_build expected
        else raise (update_error "Candidate state does not match the active release pointer")
  ]

  -- `_verify_candidate_active`. `relative(active)` cannot raise, since `active()` has called it.
  unfoldable pub verify_candidate_active : UpdateState → Exec (World T) (Unit {0})
  unfolding read_active verify_release
  verify_candidate_active s = read_active env >>= verify_release s

  -- `_complete_acceptance`, for builds that are whole numbers
  unfoldable pub write_acceptance : UpdateState → Exec (World T) UpdateState
  unfolding write
  write_acceptance s w = write env (accepted (env.now w.step) s) w

  abbrev pub is_int : Value → Bool
  is_int v = elim (as_int v) [ none ↦ false | some _ ↦ true ]

  unfoldable pub complete_acceptance : UpdateState → Exec (World T) UpdateState
  unfolding write_acceptance
  complete_acceptance s =
      if not (is_none s.previous_build) && not (is_int s.previous_build)
      then raise (update_error "Candidate state contains an invalid previous Steam build")
      else if not (is_int s.candidate_build)
      then raise (update_error "Candidate state contains an invalid candidate Steam build")
      else write_acceptance s

  unfoldable pub mark_opened : UpdateState → Exec (World T) Bool
  unfolding verify_candidate_active write
  mark_opened s =
      if is_unhashable s.state
      then raise (other_error "TypeError")
      else if not (awaits_world s.state)
      then pure false
      else do verify_candidate_active s; (λ w. write env (opened (env.now w.step) s) w); pure true

  unfoldable pub mark_world_opened : Exec (World T) Bool
  unfolding with_lock load mark_opened
  mark_world_opened = with_lock env (load env >>= mark_opened)

  -- A local server accepts the candidate at once.
  unfoldable pub become_ready :
      Configuration → Option String → Option String → UpdateState → Exec (World T) UpdateState
  unfolding complete_acceptance write
  become_ready c version revision s w =
      let value = ready_state version revision (env.now w.step) s in
      if str_eq c.deployment_environment "local"
      then complete_acceptance value w
      else write env value w

  unfoldable pub mark_ready :
      Configuration → Option String → Option String → UpdateState → Exec (World T) (Unit {0})
  unfolding verify_candidate_active write become_ready
  mark_ready c version revision s =
      if is_current s.state
      then (λ w. write env (described version revision (env.now w.step) s) w) >> pure tt
      else if is_unhashable s.state
      then raise (other_error "TypeError")
      else if not (awaits_acceptance s.state)
      then pure tt
      else if not (is_true s.world_opened)
      then raise
          (update_error "Candidate readiness cannot be recorded before the world-open boundary")
      else do verify_candidate_active s; become_ready c version revision s; pure tt

  unfoldable pub mark_runtime_ready :
      Configuration → Option String → Option String → Exec (World T) (Unit {0})
  unfolding with_lock load mark_ready
  mark_runtime_ready c version revision = with_lock env (load env >>= mark_ready c version revision)

  unfoldable pub accept_state : UpdateState → Exec (World T) UpdateState
  unfolding verify_candidate_active complete_acceptance
  accept_state s =
      if not (is_runtime_ready s.state)
      then pure s
      else if not (is_true s.world_opened)
      then raise (update_error "Candidate acceptance requires a recorded world-open boundary")
      else verify_candidate_active s >> complete_acceptance s

  unfoldable pub accept : Exec (World T) UpdateState
  unfolding with_lock load accept_state
  accept = with_lock env (load env >>= accept_state)

  unfoldable pub fail_state : String → UpdateState → Exec (World T) (Unit {0})
  unfolding verify_candidate_active write
  fail_state detail s =
      if is_unhashable s.state
      then raise (other_error "TypeError")
      else if not (awaits_acceptance s.state)
      then pure tt
      else if not (is_true s.world_opened)
      then raise (update_error "Readiness failure cannot cross the world-open boundary implicitly")
      else do
        verify_candidate_active s
        (λ w. write env (unready detail (env.now w.step) s) w)
        pure tt

  unfoldable pub fail_readiness : String → Exec (World T) (Unit {0})
  unfolding with_lock load fail_state
  fail_readiness detail = with_lock env (load env >>= fail_state detail)

  unfoldable pub active_release : Exec (World T) String
  unfolding read_active
  active_release = read_active env >>= λ active. elim active [
    | none ↦ raise (update_error "No active Project Zomboid release is selected")
    | some n ↦ pure n
  ]

  abbrev pub with_build : UpdateState → SteamBuildMetadata → Exec (World T) UpdateState
  with_build s m = pure (record s { current_build = int m.build_id })

  -- Its handler, `except UpdateError`
  abbrev pub unobserved : UpdateState → Failure → Exec (World T) UpdateState
  unobserved s e =
      if is_update_error e
      then pure (record s { current_build = null; state = unknown })
      else raise e

  -- The `try` block of `status`: the build of the active release, or an unknown state.
  unfoldable pub observe : UpdateState → Option String → Exec (World T) UpdateState
  unfolding on_tree
  observe s none = pure s
  observe s (some n) = try_except (read_installed_metadata env n >>= with_build s) (unobserved s)

  -- `status`, which returns fields of this state beside the policy and the branch.
  unfoldable pub status : Exec (World T) UpdateState
  unfolding load read_active observe
  status = load env >>= λ s. read_active env >>= observe s
