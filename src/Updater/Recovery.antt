-- ===== src/Updater/Recovery.antt =====
-- `_recover_interrupted`, `_recover_activation` and `_record_pre_world_failure` of `GameUpdater` in
-- src/pz_updater/core.py: what a start does about a process that ended in the middle.
use pz_server.Prelude.{
  ℕ, String, Bool, true, false, not, ◌&&◌, ◌||◌, Option, none, some, str_eq, if◌then◌else◌,
}
use pz_server.Updater.Exec.{
  update_error, other_error, ok, raised, Exec, ◌>>=◌, ◌>>◌, pure, raise, try_except,
}
use pz_server.Updater.State.{
  UpdateState, is_unhashable, StateName, Value, absent, null, container, float, bool, int, str,
  release, activating, downloading_candidate, promoting_candidate, pending_readiness,
  failed_before_world_open, is_none, int_or_null, shorten,
}
use pz_server.Updater.Machine.{World, Environment, SteamBuildMetadata, remove_tree}
use pz_server.Updater.Layout.{wrap_os_error, relative, exists, is_symlink, write, read_active}

-- `value == relative(release)`, for the text of a release
abbrev pub is_release : Value → String → Bool
is_release (release m) n = str_eq m n
is_release absent n = false
is_release null n = false
is_release (container _) n = false
is_release (float _) n = false
is_release (bool _) n = false
is_release (int _) n = false
is_release (str _) n = false

abbrev pub build_or_null : Option SteamBuildMetadata → Value
build_or_null none = null
build_or_null (some m) = int m.build_id

-- `state.get("state") in {"downloading-candidate", "promoting-candidate"}`
abbrev pub is_staging : StateName → Bool
is_staging downloading_candidate = true
is_staging promoting_candidate = true
is_staging _ = false

abbrev pub is_activating : StateName → Bool
is_activating activating = true
is_activating _ = false

-- The states that recovery records: an interrupted staging, an activation that had taken place,
-- and one that had not.
abbrev pub cleaned : String → UpdateState → UpdateState
cleaned now s = record s {
  state = failed_before_world_open;
  candidate_release = null;
  promoted_release = null;
  blocked_build = null;
  last_result = str "candidate-interrupted";
  detail = str "Candidate preparation was interrupted before activation";
  updated_at = str now;
}

abbrev pub resumed : String → UpdateState → UpdateState
resumed now s = record s {
  state = pending_readiness;
  current_build = s.candidate_build;
  updated_at = str now;
}

abbrev pub rolled_back : String → UpdateState → UpdateState
rolled_back now s = record s {
  state = failed_before_world_open;
  candidate_release = null;
  last_result = str "activation-failed";
  blocked_build = null;
  detail = str "Activation was interrupted before the candidate became active";
  updated_at = str now;
}

module _ {T : Type 0} (env : Environment T) where
  unfoldable pub record_pre_world_failure :
      UpdateState
      → Option SteamBuildMetadata
      → Option ℕ
      → String
      → String
      → Bool
      → Exec (World T) UpdateState
  unfolding write
  record_pre_world_failure s current candidate result detail block w =
      let build : Value = int_or_null candidate in
      write env
        (record s {
          state = failed_before_world_open;
          current_build = build_or_null current;
          candidate_build = build;
          candidate_release = null;
          promoted_release = null;
          blocked_build = if block then build else null;
          last_result = str result;
          detail = str (shorten 500 detail);
          last_check_at = str (env.now w.step);
          updated_at = str (env.now w.step);
        })
        w

  -- One round of the loop that collects the paths of an interrupted candidate.
  unfoldable pub staged_path : Value → Exec (World T) (Option String)
  unfolding relative
  staged_path (release n) = relative n >>= λ _. pure (some n)
  staged_path absent = pure none
  staged_path null = pure none
  staged_path (container _) =
      raise (update_error "Interrupted candidate state contains an invalid release path")
  staged_path (float _) =
      raise (update_error "Interrupted candidate state contains an invalid release path")
  staged_path (bool _) =
      raise (update_error "Interrupted candidate state contains an invalid release path")
  staged_path (int _) =
      raise (update_error "Interrupted candidate state contains an invalid release path")
  staged_path (str _) =
      raise (update_error "Interrupted candidate state contains an invalid release path")

  -- One round of the loop that removes them.
  unfoldable pub clean_path : Option String → Exec (World T) (Unit {0})
  unfolding remove_tree
  clean_path none w = (ok tt, w)
  clean_path (some n) w =
      if is_symlink n w
      then (
        raised (update_error "Interrupted candidate path is a symbolic link; cleanup refused"),
        w,
      )
      else if exists n w
      then try_except (remove_tree env n)
          (wrap_os_error "Could not clean an interrupted candidate release") w
      else (ok tt, w)

  abbrev pub has_path : Option String → Bool
  has_path none = false
  has_path (some _) = true

  unfoldable pub require_path : Option String → Option String → Exec (World T) (Unit {0})
  require_path candidate promoted =
      if has_path candidate || has_path promoted
      then pure tt
      else raise (update_error "Interrupted candidate state does not identify its staged release")

  unfoldable pub clean_staging : UpdateState → Exec (World T) UpdateState
  unfolding staged_path require_path clean_path write
  clean_staging s = do
    candidate ← staged_path s.candidate_release
    promoted ← staged_path s.promoted_release
    require_path candidate promoted
    clean_path candidate
    clean_path promoted
    λ w. write env (cleaned (env.now w.step) s) w

  -- `active is not None and isinstance(candidate_relative, str)` and the two are the same release
  abbrev pub is_active : Option String → Value → Bool
  is_active none v = false
  is_active (some n) v = is_release v n

  -- `(active is None and previous is None) or (both are there and are the same release)`
  abbrev pub is_still_previous : Option String → Value → Bool
  is_still_previous none v = is_none v
  is_still_previous (some n) v = is_release v n

  unfoldable pub drop_candidate : Value → Exec (World T) (Unit {0})
  unfolding relative remove_tree
  drop_candidate (release n) = relative n >>= λ _ w.
      if exists n w && not (is_symlink n w) then remove_tree env n w else (ok tt, w)
  drop_candidate absent = pure tt
  drop_candidate null = pure tt
  drop_candidate (container _) = pure tt
  drop_candidate (float _) = pure tt
  drop_candidate (bool _) = pure tt
  drop_candidate (int _) = pure tt
  drop_candidate (str _) = pure tt

  -- `_recover_activation`, for a state that is `activating`. `relative(active)` cannot raise here,
  -- since `active()` has just called it.
  unfoldable pub resolve_activation : UpdateState → Option String → Exec (World T) UpdateState
  unfolding drop_candidate write
  resolve_activation s active =
      if is_active active s.candidate_release
      then (λ w. write env (resumed (env.now w.step) s) w)
      else if is_still_previous active s.previous_release
      then drop_candidate s.candidate_release >> (λ w. write env (rolled_back (env.now w.step) s) w)
      else raise (update_error "Interrupted activation left an ambiguous active release pointer")

  unfoldable pub recover_activation : UpdateState → Exec (World T) UpdateState
  unfolding read_active resolve_activation
  recover_activation s =
      if is_activating s.state then read_active env >>= resolve_activation s else pure s

  unfoldable pub recover_interrupted : UpdateState → Exec (World T) UpdateState
  unfolding recover_activation clean_staging
  recover_interrupted s =
      if is_unhashable s.state
      then raise (other_error "TypeError")
      else if is_staging s.state
      then clean_staging s
      else recover_activation s
