-- ===== src/Updater/Update.antt =====
-- `_check_and_update`, `_stage_and_activate` and their helpers of `GameUpdater` in
-- src/pz_updater/core.py.
mod Plan
use pz_server.Prelude.{
  ℕ, ◌+◌, ◌*◌, ◌/◌, ◌^◌, String, Bool, true, false, not, ◌&&◌, Option, none, some, any, ltb, ◌==◌,
  if◌then◌else◌,
}
use pz_server.Updater.Exec.{
  Failure, update_error, incompatible, os_error, other_error, killed, Result, ok, raised, Exec,
  ◌>>=◌, ◌>>◌, pure, raise, try_except,
}
use pz_server.Updater.State.{
  UpdateState, StateName, Value, null, bool, int, str, activating, downloading_candidate,
  promoting_candidate, pending_readiness, str_or_null,
}
use pz_server.Updater.Machine.{
  World, Environment, SteamBuildMetadata, DataDirectory, not_directory, no_members, has_members,
  unreadable, advance, remove_tree_quietly, on_tree, prepare_launcher, consult, request,
}
use pz_server.Updater.Layout.{
  relative, exists, is_symlink, write, write_active, write_previous, promote_candidate,
  final_release, discard_old_previous, make_directory,
}
use pz_server.Updater.Recovery.{build_or_null, record_pre_world_failure, recover_activation}
pub use Plan.{
  UpdatePolicy, policy_value, Configuration, current_build_id, may_hold_world, when_some, Attempt,
  downloading, promoted, activated, pending, stable_on_start, manual, server_active,
}
unfoldable pub use Plan.{estimated_size, required_space, require_candidate_space, world_has_state}

module _ {T : Type 0} (env : Environment T) (c : Configuration) (a : Attempt) where
  abbrev pub fail : String → String → Bool → Exec (World T) UpdateState
  fail = record_pre_world_failure env a.state a.current (some a.latest)

  -- The candidate goes, the failure is recorded, and an exception is raised.
  unfoldable pub give_up :
      {A : Type 0} → String → String → String → Bool → Failure → Exec (World T) A
  unfolding remove_tree_quietly record_pre_world_failure
  give_up candidate result detail block e =
      remove_tree_quietly env candidate >> (fail result detail block >> raise e)

  -- The handlers of `except Exception`: an `UpdateError` is raised again, any other exception as
  -- an `UpdateError` with its type's name. A process that has ended runs no handler.
  unfoldable pub abandon : {A : Type 0} → String → String → Failure → Exec (World T) A
  unfolding give_up
  abandon candidate result killed = raise killed
  abandon candidate result (update_error d) = give_up candidate result d false (update_error d)
  abandon candidate result (incompatible d) = give_up candidate result d false (incompatible d)
  abandon candidate result (os_error name) = give_up candidate result name false (update_error name)
  abandon candidate result (other_error name) =
      give_up candidate result name false (update_error name)

  -- The first `try` block: the old previous release goes, and the space is checked.
  unfoldable pub check_preconditions : Exec (World T) (Unit {0})
  unfolding discard_old_previous require_candidate_space
  check_preconditions =
      when_some a.active (discard_old_previous env) >> require_candidate_space env a.current

  -- Its handler, `except (OSError, UpdateError)`.
  unfoldable pub precondition_failed : {A : Type 0} → Failure → Exec (World T) A
  unfolding record_pre_world_failure
  precondition_failed killed = raise killed
  precondition_failed (other_error name) = raise (other_error name)
  precondition_failed (update_error d) =
      fail "update-precondition-failed" d false >> raise (update_error d)
  precondition_failed (incompatible d) =
      fail "update-precondition-failed" d false >> raise (incompatible d)
  precondition_failed (os_error name) =
      fail "update-precondition-failed" name false >> raise (update_error name)

  -- The handler of `candidate.mkdir`, `except OSError`.
  unfoldable pub mkdir_failed : {A : Type 0} → Failure → Exec (World T) A
  unfolding record_pre_world_failure
  mkdir_failed (os_error name) =
      fail "update-precondition-failed" name false
      >> raise (update_error "Could not create the isolated candidate directory")
  mkdir_failed (update_error d) = raise (update_error d)
  mkdir_failed (incompatible d) = raise (incompatible d)
  mkdir_failed (other_error name) = raise (other_error name)
  mkdir_failed killed = raise killed

  -- The handler of the write of `downloading-candidate`, `except UpdateError`.
  unfoldable pub unrecorded : {A : Type 0} → String → Failure → Exec (World T) A
  unfolding remove_tree_quietly
  unrecorded candidate (update_error d) =
      remove_tree_quietly env candidate >> raise (update_error d)
  unrecorded candidate (incompatible d) =
      remove_tree_quietly env candidate >> raise (incompatible d)
  unrecorded candidate (os_error name) = raise (os_error name)
  unrecorded candidate (other_error name) = raise (other_error name)
  unrecorded candidate killed = raise killed

  unfoldable pub record_download : String → Exec (World T) UpdateState
  unfolding relative write
  record_download candidate =
      relative candidate >>= λ path w. write env (downloading c a path (env.now w.step)) w

  -- `steam.install`
  abbrev pub install_candidate : String → Exec (World T) (Unit {0})
  install_candidate candidate w = on_tree env candidate (env.install w.step) w

  unfoldable pub validate_candidate : String → Exec (World T) (Unit {0})
  unfolding on_tree
  validate_candidate candidate = prepare_launcher env candidate >>= λ metadata.
      if metadata.build_id == a.latest
      then pure tt
      else raise (incompatible "Candidate manifest build does not match expected")

  -- Its handlers: an incompatible candidate blocks the build.
  unfoldable pub validation_failed : {A : Type 0} → String → Failure → Exec (World T) A
  unfolding abandon give_up
  validation_failed candidate (incompatible d) =
      give_up candidate "candidate-incompatible" d true (incompatible d)
  validation_failed candidate (update_error d) =
      abandon candidate "candidate-validation-failed" (update_error d)
  validation_failed candidate (os_error name) =
      abandon candidate "candidate-validation-failed" (os_error name)
  validation_failed candidate (other_error name) =
      abandon candidate "candidate-validation-failed" (other_error name)
  validation_failed candidate killed = raise killed

  abbrev pub is_some_release : Option String → Bool
  is_some_release none = false
  is_some_release (some _) = true

  -- The backup, where there is a release or a world.
  unfoldable pub is_backup_needed : Exec (World T) Bool
  unfolding world_has_state
  is_backup_needed = if is_some_release a.active then pure true else world_has_state env

  unfoldable pub create_backup : Exec (World T) (Option String)
  create_backup = request env env.create_backup >>= λ path. pure (some path)

  unfoldable pub make_backup : String → Bool → Exec (World T) (Option String)
  unfolding create_backup abandon
  make_backup candidate needed =
      if needed then try_except create_backup (abandon candidate "backup-failed") else pure none

  unfoldable pub back_up : String → Exec (World T) (Option String)
  unfolding is_backup_needed make_backup
  back_up candidate = is_backup_needed >>= make_backup candidate

  -- `self.layout.relative(active) if active else None`
  unfoldable pub previous_value : Exec (World T) Value
  unfolding relative
  previous_value = elim a.active [ none ↦ pure null | some n ↦ relative n ]

  unfoldable pub record_promotion : String → String → Option String → Exec (World T) UpdateState
  unfolding previous_value relative write
  record_promotion candidate final backup = do
    previous ← previous_value
    staged ← relative candidate
    promoted_to ← relative final
    λ w. write env (promoted c a previous staged promoted_to backup (env.now w.step)) w

  unfoldable pub promote : String → String → UpdateState → Exec (World T) UpdateState
  unfolding promote_candidate relative write
  promote candidate final promoting = do
    promote_candidate env candidate final
    path ← relative final
    λ w. write env (activated path (env.now w.step) promoting) w

  -- One round of the cleanup in its handler.
  unfoldable pub remove_if_there : String → Exec (World T) (Unit {0})
  unfolding remove_tree_quietly
  remove_if_there n w =
      if exists n w && not (is_symlink n w) then remove_tree_quietly env n w else (ok tt, w)

  unfoldable pub clean_up : {A : Type 0} → String → String → String → Failure → Exec (World T) A
  unfolding remove_if_there record_pre_world_failure
  clean_up candidate final detail e =
      remove_if_there candidate
      >> (remove_if_there final >> (fail "promotion-failed" detail false >> raise e))

  -- Its handler, `except (OSError, UpdateError)`, with the names of the exceptions' types.
  unfoldable pub promotion_failed : {A : Type 0} → String → String → Failure → Exec (World T) A
  unfolding clean_up
  promotion_failed candidate final (update_error d) =
      clean_up candidate final "UpdateError" (update_error d)
  promotion_failed candidate final (incompatible d) =
      clean_up candidate final "CandidateIncompatibility" (incompatible d)
  promotion_failed candidate final (os_error name) =
      clean_up candidate final name (update_error "Candidate promotion failed before activation")
  promotion_failed candidate final (other_error name) = raise (other_error name)
  promotion_failed candidate final killed = raise killed

  abbrev pub is_pending : StateName → Bool
  is_pending pending_readiness = true
  is_pending _ = false

  -- The handler of the two pointer writes, `except OSError`: it goes on where the candidate has
  -- become active after all.
  unfoldable pub activation_failed : UpdateState → Failure → Exec (World T) (Unit {0})
  unfolding recover_activation
  activation_failed s (os_error name) = recover_activation env s >>= λ recovered.
      if is_pending recovered.state
      then pure tt
      else raise
          (update_error "Atomic candidate activation failed; the previous release remains selected")
  activation_failed s (update_error d) = raise (update_error d)
  activation_failed s (incompatible d) = raise (incompatible d)
  activation_failed s (other_error name) = raise (other_error name)
  activation_failed s killed = raise killed

  unfoldable pub switch_pointers : String → Exec (World T) (Unit {0})
  unfolding write_previous write_active
  switch_pointers final = write_previous env a.active >> write_active env final

  unfoldable pub activate : String → UpdateState → Exec (World T) UpdateState
  unfolding switch_pointers activation_failed write
  activate final s = do
    try_except (switch_pointers final) (activation_failed s)
    λ w. write env (pending a (env.now w.step) s) w

  -- From the backup on.
  unfoldable pub promote_and_activate : String → Exec (World T) UpdateState
  unfolding back_up final_release record_promotion promote promotion_failed activate
  promote_and_activate candidate = do
    backup ← back_up candidate
    final ← final_release env a.latest
    promoting ← record_promotion candidate final backup
    s ← try_except (promote candidate final promoting) (promotion_failed candidate final)
    activate final s

  unfoldable pub require_stopped : Bool → Exec (World T) (Unit {0})
  unfolding record_pre_world_failure
  require_stopped running =
      if running
      then fail "update-precondition-failed" server_active false
        >> raise (update_error server_active)
      else pure tt

  unfoldable pub stage_and_activate : Exec (World T) UpdateState
  unfolding require_stopped check_preconditions precondition_failed make_directory mkdir_failed
      record_download unrecorded on_tree abandon validate_candidate validation_failed
      promote_and_activate record_pre_world_failure
  stage_and_activate = do
    running ← consult env env.server_running
    require_stopped running
    try_except check_preconditions precondition_failed
    candidate ← consult env (λ n. env.candidate_name n a.latest)
    try_except (make_directory env candidate) mkdir_failed
    try_except (record_download candidate) (unrecorded candidate)
    try_except (install_candidate candidate) (abandon candidate "candidate-download-failed")
    try_except (validate_candidate candidate) (validation_failed candidate)
    promote_and_activate candidate
