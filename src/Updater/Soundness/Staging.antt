-- ===== src/Updater/Soundness/Staging.antt =====
-- The staging of a candidate (src/pz_updater/core.py), up to its promotion, keeps the invariant.
use mathlib.Core.Path.{subst}
use pz_server.Prelude.{
  ℕ, String, ◌≡◌, Bool, true, false, Option, none, some, arith, if_intro, ap, ◌∙◌, sym, ◌==◌,
}
use pz_server.Updater.Exec.{incompatible, pure, raise, try_except}
use pz_server.Updater.State.{release}
use pz_server.Updater.Machine.{
  Entry, PointerFile, World, Environment, advance, SteamBuildMetadata, prepare_launcher, request,
}
use pz_server.Updater.Layout.{relative, exists, write, final_release, discard_old_previous}
use pz_server.Updater.Update.{
  Configuration, Attempt, require_candidate_space, world_has_state, when_some, abandon,
  check_preconditions, record_download, downloading, validate_candidate, back_up, is_backup_needed,
  create_backup, make_backup, is_some_release,
}
use pz_server.Updater.Soundness.Rules.{
  Meets, bind-Meets, try-Meets, Meets-mono, branch-Meets, both-Meets,
}
use pz_server.Updater.Soundness.Invariant.{IsDirectory, selects}
use pz_server.Updater.Soundness.Steps.{
  Good, Same, Reads, Apart, relative-Good, write-Good, on_tree-Good,
}
use pz_server.Updater.Soundness.Pointers.{Apart-of_new, discard_old_previous-Good}
use pz_server.Updater.Soundness.Handlers.{U, selects_of_Apart, abandon-Good}

module _ {T : Type 0} (env : Environment T) (c : Configuration) (a : Attempt)
    (p : PointerFile) where
  -- Sound, and the candidate is there.
  abbrev pub Staged : String → World T → Type 0
  Staged n w = Good p w × IsDirectory (w.entries n)

  pub Staged-of_Same :
      (n : String) (w v : World T) → IsDirectory (w.entries n) → Same p w v → Staged n v
  Staged-of_Same n w v d k =
      (k.1, subst (λ (f : String → Option (Entry T)). IsDirectory (f n)) (sym k.0) d)

  advance-Staged : (n : String) (w : World T) → Staged n w → Staged n (advance w)
  advance-Staged n w h = (record { same = h.0.same; live = h.0.live; fits = h.0.fits }, h.1)

  pub advance-Good : (w : World T) → Good p w → Good p (advance w)
  advance-Good w h = record { same = h.same; live = h.live; fits = h.fits }

  require_candidate_space-Good :
      (m : Option SteamBuildMetadata) (w : World T)
      → Good p w
      → Meets (U env c a p) (Good p) (require_candidate_space env m w)
  unfolding require_candidate_space
  require_candidate_space-Good m w h = ground arith

  pub check_preconditions-Good :
      (w : World T)
      → Reads p a.active
      → Good p w
      → Meets (U env c a p) (Good p) (check_preconditions env c a w)
  unfolding check_preconditions
  check_preconditions-Good w r h =
      bind-Meets (U env c a p) (U env c a p) (Good p)
        (when_some a.active (discard_old_previous env)) (λ _. require_candidate_space env a.current)
        w (go a.active r) (λ _ v k. require_candidate_space-Good a.current v k)
    where
      go :
          (o : Option String)
          → Reads p o
          → Meets (U env c a p) (Good p) (when_some o (discard_old_previous env) w)
      go none r = h
      go (some n) r = discard_old_previous-Good env p n w r h

  pub record_download-Staged :
      (n : String) (w : World T)
      → Apart p n
      → selects p a.state.promoted_release ≡ false
      → Staged n w
      → Meets (λ _ v. Staged n v) (Good p) (record_download env c a n w)
  unfolding record_download
  record_download-Staged n w apart u h =
      bind-Meets (λ v x. (v ≡ release n) × Same p w x) (λ _ v. Staged n v) (Good p) (relative n)
        (λ path v. write env (downloading c a path (env.now v.step)) v) w (relative-Good p n w h.0)
        (λ path v k.
          Meets-mono (λ r x. (r ≡ downloading c a path (env.now v.step)) × Same p v x)
            (λ _ x. Staged n x) (Good p) (Good p)
            (write env (downloading c a path (env.now v.step)) v)
            (write-Good env p (downloading c a path (env.now v.step)) v
              (ap (selects p) k.0 ∙ selects_of_Apart p n apart, u) k.1.1)
            (λ _ x m. Staged-of_Same n w x h.1 (m.1.0 ∙ k.1.0, m.1.1)) (λ x m. m))

  pub validate_candidate-Staged :
      (n : String) (w : World T)
      → Good p w
      → Meets (λ _ v. Staged n v) (Good p) (validate_candidate env c a n w)
  unfolding validate_candidate
  validate_candidate-Staged n w h =
      bind-Meets (λ _ v. Staged n v) (λ _ v. Staged n v) (Good p) (prepare_launcher env n) _ w
        (on_tree-Good env p n (env.prepare w.step) w h)
        (λ m v k.
          branch-Meets (λ _ v. Staged n v) (Good p) (m.build_id == a.latest) (pure tt)
            (raise (incompatible "Candidate manifest build does not match expected")) v (λ _. k)
            (λ _. k.0))

  pub back_up-Staged :
      (n : String) (w : World T)
      → Apart p n
      → Staged n w
      → Meets (λ _ v. Staged n v) (Good p) (back_up env c a n w)
  unfolding back_up world_has_state
  back_up-Staged n w apart h =
      let S = λ (_ : Option String) (v : World T). Staged n v in
      bind-Meets (λ (_ : Bool) v. Staged n v) S (Good p) (is_backup_needed env c a)
        (make_backup env c a n) w
        (branch-Meets (λ (_ : Bool) v. Staged n v) (Good p) (is_some_release env c a a.active)
          (pure true) (world_has_state env) w (λ _. h) (λ _. advance-Staged n w h))
        (λ needed v k.
          branch-Meets S (Good p) needed
            (try_except (create_backup env c a) (abandon env c a n "backup-failed")) (pure none) v
            (λ _.
              try-Meets S (Good p) (Good p) (create_backup env c a)
                (abandon env c a n "backup-failed") v
                (bind-Meets (λ (_ : String) x. Staged n x) S (Good p)
                  (request env env.create_backup) (λ path. pure (some path)) v
                  (both-Meets (λ (_ : String) x. Staged n x) (λ _ _. Unit) (Good p) (Good p)
                    (env.create_backup v.step) (advance v) (λ _. advance-Staged n v k)
                    (advance-Good v k.0))
                  (λ _ x m. m))
                (λ e x m. abandon-Good env c a p S n "backup-failed" e x apart m))
            (λ _. k))

  -- The new name of the release is not the active release's.
  pub final_release-Staged :
      (n : String) (w : World T)
      → ((k b : ℕ) → Apart p (env.alternative_name k b))
      → Staged n w
      → Meets (λ final v. Apart p final × Staged n v) (Good p) (final_release env a.latest w)
  unfolding final_release
  final_release-Staged n w fresh h = (
    if_intro (Apart p) (exists (env.final_name w.step a.latest) w) (λ _. fresh w.step a.latest)
        (λ new. Apart-of_new p (env.final_name w.step a.latest) w h.0.live new),
    advance-Staged n w h,
  )
