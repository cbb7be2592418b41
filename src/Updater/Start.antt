-- ===== src/Updater/Start.antt =====
-- `prepare_start` and `explicit_update` of `GameUpdater` in src/pz_updater/core.py, and
-- `_check_and_update`, which they share.
mod States
use pz_server.Prelude.{
  ℕ, String, Bool, true, false, not, ◌&&◌, Option, none, some, str_eq, ltb, ◌==◌, if◌then◌else◌,
}
use pz_server.Updater.Exec.{
  Failure, update_error, Exec, ◌>>=◌, ◌>>◌, pure, raise, try_except, is_update_error, detail_of,
}
use pz_server.Updater.State.{
  UpdateState, StateName, Value, null, str, uninitialized, downloading_candidate,
  promoting_candidate, activating, pending_readiness, starting_candidate, runtime_ready,
  failed_before_world_open, failed_after_world_open, as_int,
}
use pz_server.Updater.Machine.{
  World, Environment, SteamBuildMetadata, on_tree, prepare_launcher, read_installed_metadata,
  consult, request,
}
use pz_server.Updater.Layout.{load, write, read_active, ensure, with_lock}
use pz_server.Updater.Recovery.{
  build_or_null, is_staging, record_pre_world_failure, recover_interrupted,
}
use pz_server.Updater.Update.{
  UpdatePolicy, stable_on_start, manual, policy_value, Configuration, current_build_id,
  stage_and_activate,
}
pub use States.{
  is_committed, is_candidate_state, is_failed_before, is_beyond_fallback, equals_build, is_build,
  is_older, is_manual, is_present, observed, up_to_date,
}

module _ {T : Type 0} (env : Environment T) (c : Configuration) where
  -- `_write_observation`
  unfoldable pub write_observation :
      UpdateState → Option SteamBuildMetadata → String → Exec (World T) UpdateState
  unfolding write
  write_observation s installed result w =
      write env (observed c s installed result (env.now w.step)) w

  unfoldable pub write_no_update :
      UpdateState → Option SteamBuildMetadata → Exec (World T) UpdateState
  unfolding write
  write_no_update s installed w = write env (up_to_date c s installed (env.now w.step)) w

  -- The handler of `latest_build`, `except UpdateError`.
  unfoldable pub query_failed :
      {A : Type 0} → UpdateState → Option SteamBuildMetadata → Failure → Exec (World T) A
  unfolding record_pre_world_failure
  query_failed s installed e =
      if is_update_error e
      then record_pre_world_failure env s installed none "metadata-query-failed" (detail_of e) false
        >> raise e
      else raise e

  -- `_check_and_update` behind the query.
  unfoldable pub apply_latest :
      Option String
      → Option SteamBuildMetadata
      → UpdateState
      → Bool
      → Bool
      → ℕ
      → Exec (World T) UpdateState
  unfolding write_no_update record_pre_world_failure stage_and_activate
  apply_latest active installed s validate allow_blocked latest =
      let build = current_build_id installed in
      if is_build build latest && not validate
      then write_no_update s installed
      else if is_older latest build
      then record_pre_world_failure env s installed (some latest) "downgrade-blocked"
          "Steam branch build is older than the active build; automatic downgrade refused" false
        >> raise (
            update_error
              "Steam branch build is older than the active build; automatic downgrade refused")
      else if is_present build && equals_build s.blocked_build latest && not allow_blocked
      then raise (
          update_error
            "Steam build was previously rejected before world open; use manual policy or a reviewed repair")
      else stage_and_activate env c
          (record { active = active; current = installed; latest = latest; state = s })

  unfoldable pub check_and_update :
      Option String
      → Option SteamBuildMetadata
      → UpdateState
      → Bool
      → Bool
      → Exec (World T) UpdateState
  unfolding query_failed apply_latest
  check_and_update active installed s validate allow_blocked =
      try_except (request env env.latest_build) (query_failed s installed)
      >>= apply_latest active installed s validate allow_blocked

  -- `self.launcher.prepare(active, …) if active is not None else None`
  unfoldable pub prepare_active : Option String → Exec (World T) (Option SteamBuildMetadata)
  unfolding on_tree
  prepare_active none = pure none
  prepare_active (some n) = prepare_launcher env n >>= λ m. pure (some m)

  -- `prepare_start`, where a candidate awaits the world or has touched it.
  unfoldable pub resume : UpdateState → Option String → Exec (World T) UpdateState
  unfolding on_tree
  resume s none = raise (update_error "Candidate update state has no active release")
  resume s (some n) = prepare_launcher env n >> pure s

  -- `prepare_start`, where a repository deployment is pending.
  unfoldable pub suppress : UpdateState → Option String → Exec (World T) UpdateState
  unfolding on_tree write_observation
  suppress s none =
      raise (update_error "Repository deployment suppressed updates but no game release exists")
  suppress s (some n) = read_installed_metadata env n >>= λ m.
      write_observation s (some m) "repository-deploy-suppressed"

  -- The inner `try` block of the fallback.
  unfoldable pub settle : UpdateState → Exec (World T) UpdateState
  unfolding recover_interrupted
  settle s =
      if is_staging s.state
      then try_except (recover_interrupted env s)
          (λ e. if is_update_error e then pure s else raise e)
      else pure s

  abbrev pub is_same : Option String → Option String → Bool
  is_same none m = false
  is_same (some n) none = false
  is_same (some n) (some m) = str_eq m n

  -- The handler of `_check_and_update`, `except UpdateError`: the known-good release is started
  -- if it is still selected and no candidate is committed.
  unfoldable pub fall_back : Option String → Failure → Exec (World T) UpdateState
  unfolding load read_active settle
  fall_back active e = if not (is_update_error e) then raise e else do
    stored ← load env
    selected ← read_active env
    failed ← settle stored
    (if is_same active selected && not (is_beyond_fallback failed.state)
        then pure failed
        else raise e)

  -- `prepare_start` behind the launcher.
  unfoldable pub update_on_start :
      Option String → Option SteamBuildMetadata → UpdateState → Exec (World T) UpdateState
  unfolding write_observation check_and_update fall_back
  update_on_start active installed s =
      if is_present active && is_manual c.policy
      then (if is_failed_before s.state
          then pure s
          else write_observation s installed "manual-policy")
      else if is_present active && c.mods_configured && not c.allow_auto_update_with_mods
      then write_observation s installed "blocked-mods"
      else try_except (check_and_update active installed s false false) (fall_back active)

  -- `self.layout.active() or active`
  abbrev pub or_else : {A : Type 0} → Option A → Option A → Option A
  or_else none o = o
  or_else (some a) o = some a

  unfoldable pub start_fresh : Exec (World T) UpdateState
  unfolding ensure load read_active prepare_active update_on_start
  start_fresh = do
    ensured ← ensure env
    s ← load env
    selected ← read_active env
    installed ← prepare_active (or_else selected ensured)
    update_on_start (or_else selected ensured) installed s

  -- `prepare_start` behind the recovery.
  unfoldable pub start_or_suppress : UpdateState → Option String → Bool → Exec (World T) UpdateState
  unfolding suppress start_fresh
  start_or_suppress s active pending = if pending then suppress s active else start_fresh

  unfoldable pub start_selected : UpdateState → Option String → Exec (World T) UpdateState
  unfolding resume start_or_suppress
  start_selected s active =
      if is_committed s.state
      then resume s active
      else consult env env.deployment_pending >>= start_or_suppress s active

  unfoldable pub start_recovered : UpdateState → Exec (World T) UpdateState
  unfolding read_active start_selected
  start_recovered s = read_active env >>= start_selected s

  unfoldable pub prepare_start : Exec (World T) UpdateState
  unfolding with_lock load recover_interrupted start_recovered
  prepare_start =
      with_lock env (load env >>= λ stored. recover_interrupted env stored >>= start_recovered)

  -- The guards of `explicit_update`.
  abbrev pub refuse_pending : Bool → Exec (World T) (Unit {0})
  refuse_pending pending =
      if pending
      then raise (update_error "Repository deployment is pending; explicit game update refused")
      else pure tt

  abbrev pub refuse_candidate : UpdateState → Exec (World T) (Unit {0})
  refuse_candidate s =
      if is_candidate_state s.state
      then raise (
          update_error
            "A candidate has already touched or is awaiting the real world; another update is prohibited")
      else pure tt

  -- `explicit_update` behind its second guard, behind its first, and behind the recovery.
  unfoldable pub update_active : Bool → Option String → UpdateState → Exec (World T) UpdateState
  unfolding prepare_active check_and_update
  update_active validate active s =
      prepare_active active >>= λ installed. check_and_update active installed s validate true

  unfoldable pub update_allowed : Bool → Exec (World T) UpdateState
  unfolding ensure load update_active
  update_allowed validate = ensure env >>= λ active.
      load env >>= λ s. refuse_candidate s >> update_active validate active s

  unfoldable pub update_recovered : Bool → Exec (World T) UpdateState
  unfolding update_allowed
  update_recovered validate = consult env env.deployment_pending >>= λ pending.
      refuse_pending pending >> update_allowed validate

  unfoldable pub explicit_update : Bool → Exec (World T) UpdateState
  unfolding with_lock load recover_interrupted update_recovered
  explicit_update validate =
      with_lock env
        (load env >>= λ stored. recover_interrupted env stored >>= λ _. update_recovered validate)
