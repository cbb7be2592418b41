-- ===== src/Updater/Soundness/Install.antt =====
-- A whole update (src/pz_updater/core.py, `_stage_and_activate`) keeps the invariant.
use pz_server.Prelude.{ℕ, String, ◌≡◌, true, false}
use pz_server.Updater.Exec.{Result, Exec, ◌>>=◌, ◌>>◌, try_except}
use pz_server.Updater.State.{UpdateState}
use pz_server.Updater.Machine.{PointerFile, World, Environment, consult}
use pz_server.Updater.Layout.{final_release, make_directory}
use pz_server.Updater.Update.{
  Configuration, Attempt, abandon, check_preconditions, precondition_failed, mkdir_failed,
  unrecorded, record_download, install_candidate, validate_candidate, validation_failed, back_up,
  record_promotion, promote, promotion_failed, activate, promote_and_activate, require_stopped,
  stage_and_activate,
}
use pz_server.Updater.Soundness.Rules.{Meets, bind-Meets, try-Meets, Meets-mono}
use pz_server.Updater.Soundness.Invariant.{
  IsDirectory, IsSound, IsSoundAt-IsSound, selects, keeps_previous,
}
use pz_server.Updater.Soundness.Steps.{Good, Reads, Apart, on_tree-Good}
use pz_server.Updater.Soundness.Pointers.{make_directory-Good}
use pz_server.Updater.Soundness.Handlers.{
  U, abandon-Good, validation_failed-Good, precondition_failed-Good, mkdir_failed-Good,
  unrecorded-Good, promotion_failed-Good, require_stopped-Good,
}
use pz_server.Updater.Soundness.Staging.{
  Staged, advance-Good, check_preconditions-Good, record_download-Staged, validate_candidate-Staged,
  back_up-Staged, final_release-Staged,
}
use pz_server.Updater.Soundness.Activation.{
  Ready, record_promotion-Staged, promote-Ready, activate-Sound,
}

module _ {T : Type 0} (env : Environment T) (c : Configuration) (a : Attempt)
    (p : PointerFile) where
  abbrev Sound : World T → Type 0
  Sound v = IsSound v

  abbrev Ends : {A : Type 0} → Result A × World T → Type 0
  Ends r = Meets (λ _ v. Sound v) Sound r

  sound : (v : World T) → Good p v → Sound v
  sound v h = IsSoundAt-IsSound p v h

  -- A step that keeps `p`, before code that may switch the pointer.
  then_Sound :
      {A B : Type 0} (Q : A → World T → Type 0) (m : Exec (World T) A) (f : A → Exec (World T) B)
      (w : World T)
      → Meets Q (Good p) (m w)
      → ((x : A) (v : World T) → Q x v → Ends (f x v))
      → Ends ((m >>= f) w)
  then_Sound Q m f w h k =
      bind-Meets Q (λ _ v. Sound v) Sound m f w
        (Meets-mono Q Q (Good p) Sound (m w) h (λ _ _ q. q) sound) k

  promote_and_activate-Sound :
      (n : String) (w : World T)
      → Reads p a.active
      → Apart p n
      → ((k b : ℕ) → Apart p (env.alternative_name k b))
      → Staged env c a p n w
      → Ends (promote_and_activate env c a n w)
  unfolding promote_and_activate
  promote_and_activate-Sound n w r an fresh h =
      then_Sound (λ _ v. Staged env c a p n v) (back_up env c a n) _ w
        (back_up-Staged env c a p n w an h)
        (λ backup v k.
          then_Sound (λ final u. Apart p final × Staged env c a p n u) (final_release env a.latest)
            _ v (final_release-Staged env c a p n v fresh k)
            (λ final u m.
              then_Sound
                (λ s x. (keeps_previous p s.previous_release ≡ true) × Staged env c a p n x)
                (record_promotion env c a n final backup) _ u
                (record_promotion-Staged env c a p n final backup u r an m.0 m.1)
                (λ s x q.
                  then_Sound (Ready env c a p final)
                    (try_except (promote env c a n final s) (promotion_failed env c a n final))
                    (activate env c a final) x
                    (try-Meets (Ready env c a p final) (Good p) (Good p) (promote env c a n final s)
                      (promotion_failed env c a n final) x
                      (promote-Ready env c a p n final s x q.0 an m.0 q.1)
                      (λ e y z.
                        promotion_failed-Good env c a p (Ready env c a p final) n final e y an m.0
                          z))
                    (λ t y z. activate-Sound env c a p final t y z))))

  pub stage_and_activate-Sound :
      (w : World T)
      → Reads p a.active
      → selects p a.state.promoted_release ≡ false
      → ((k b : ℕ) → Apart p (env.alternative_name k b))
      → Good p w
      → Ends (stage_and_activate env c a w)
  unfolding stage_and_activate
  stage_and_activate-Sound w r u fresh h =
      then_Sound (λ _ v. Good p v) (consult env env.server_running) _ w (advance-Good env c a p w h)
        (λ running v1 h1.
          then_Sound (U env c a p) (require_stopped env c a running) _ v1
            (require_stopped-Good env c a p running v1 h1)
            (λ _ v2 h2.
              then_Sound (U env c a p)
                (try_except (check_preconditions env c a) (precondition_failed env c a)) _ v2
                (try-Meets (U env c a p) (Good p) (Good p) (check_preconditions env c a)
                  (precondition_failed env c a) v2 (check_preconditions-Good env c a p v2 r h2)
                  (λ e v m. precondition_failed-Good env c a p (U env c a p) e v m))
                (λ _ v3 h3. staged v3 h3)))
    where
      downloaded :
          (n : String) (v : World T)
          → Apart p n
          → Staged env c a p n v
          → Ends (
              (try_except
                    (install_candidate env c a n)
                    (abandon env c a n "candidate-download-failed")
                  >> (try_except (validate_candidate env c a n) (validation_failed env c a n)
                      >> promote_and_activate env c a n))
                v)
      downloaded n v an h =
          then_Sound (λ _ x. Staged env c a p n x)
            (try_except (install_candidate env c a n)
              (abandon env c a n "candidate-download-failed"))
            _ v
            (try-Meets (λ _ x. Staged env c a p n x) (Good p) (Good p) (install_candidate env c a n)
              (abandon env c a n "candidate-download-failed") v
              (on_tree-Good env p n (env.install v.step) v h.0)
              (λ e x m. abandon-Good env c a p _ n "candidate-download-failed" e x an m))
            (λ _ x m.
              then_Sound (λ _ y. Staged env c a p n y)
                (try_except (validate_candidate env c a n) (validation_failed env c a n)) _ x
                (try-Meets (λ _ y. Staged env c a p n y) (Good p) (Good p)
                  (validate_candidate env c a n) (validation_failed env c a n) x
                  (validate_candidate-Staged env c a p n x m.0)
                  (λ e y z. validation_failed-Good env c a p _ n e y an z))
                (λ _ y z. promote_and_activate-Sound n y r an fresh z))

      staged :
          (v : World T)
          → Good p v
          → Ends (
              (consult env (λ n. env.candidate_name n a.latest) >>= λ n.
              try_except (make_directory env n) (mkdir_failed env c a)
              >> (try_except (record_download env c a n) (unrecorded env c a n)
                  >> (try_except
                        (install_candidate env c a n)
                        (abandon env c a n "candidate-download-failed")
                      >> (try_except (validate_candidate env c a n) (validation_failed env c a n)
                          >> promote_and_activate env c a n))))
                v)
      staged v h =
          then_Sound (λ _ x. Good p x) (consult env (λ n. env.candidate_name n a.latest)) _ v
            (advance-Good env c a p v h)
            (λ n x hx.
              let Q =
                λ (_ : Unit {0}) (y : World T). Good p y × IsDirectory (y.entries n) × Apart p n in
              then_Sound Q (try_except (make_directory env n) (mkdir_failed env c a)) _ x
                (try-Meets Q (Good p) (Good p) (make_directory env n) (mkdir_failed env c a) x
                  (make_directory-Good env p n x hx) (λ e y z. mkdir_failed-Good env c a p Q e y z))
                (λ _ y q.
                  let S = λ (_ : UpdateState) (z : World T). Staged env c a p n z in
                  then_Sound S (try_except (record_download env c a n) (unrecorded env c a n)) _ y
                    (try-Meets S (Good p) (Good p) (record_download env c a n)
                      (unrecorded env c a n) y
                      (record_download-Staged env c a p n y q.2 u (q.0, q.1))
                      (λ e z m. unrecorded-Good env c a p S n e z q.2 m))
                    (λ _ z m. downloaded n z q.2 m)))
