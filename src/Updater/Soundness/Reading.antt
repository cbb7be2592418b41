-- ===== src/Updater/Soundness/Reading.antt =====
-- The operations of src/pz_updater/core.py that only read keep the invariant.
use pz_server.Prelude.{String, Option, none, some, if_intro}
use pz_server.Updater.Exec.{Exec, ◌>>=◌, pure, raise, is_update_error, update_error}
use pz_server.Updater.State.{UpdateState}
use pz_server.Updater.Machine.{World, Environment, PointerFile, read_installed_metadata}
use pz_server.Updater.Layout.{load, read_active}
use pz_server.Updater.Lifecycle.{active_release, with_build, unobserved, observe, status}
use pz_server.Updater.Soundness.Rules.{bind-Meets, try-Meets, Meets-mono}
use pz_server.Updater.Soundness.Invariant.{IsSound, IsSound-IsSoundAt}
use pz_server.Updater.Soundness.Steps.{Good, load-Good, read_active-Good, on_tree-Good}
use pz_server.Updater.Soundness.Operations.{Ends-IsSound, Goes, Goes-Ends}

module _ {T : Type 0} (env : Environment T) where
  active_release-Goes :
      (p : PointerFile) (w : World T) → Good p w → Goes env p (active_release env w)
  unfolding active_release
  active_release-Goes p w h =
      bind-Meets (λ _ v. Good p v) (λ _ v. Good p v) (Good p) (read_active env) _ w
        (Meets-mono _ (λ _ v. Good p v) (Good p) (Good p) (read_active env w)
          (read_active-Good env p w h) (λ _ _ k. k.1.1) (λ _ k. k))
        (λ o v k. go o v k)
    where
      go :
          (o : Option String) (v : World T)
          → Good p v
          → Goes env p (
              (elim o as (λ _. Exec (World T) String) [
                | none ↦ raise (update_error "No active Project Zomboid release is selected")
                | some n ↦ pure n
              ])
                v)
      go none v k = k
      go (some n) v k = k

  observe-Goes :
      (p : PointerFile) (s : UpdateState) (o : Option String) (w : World T)
      → Good p w
      → Goes env p (observe env s o w)
  unfolding observe
  observe-Goes p s none w h = h
  observe-Goes p s (some n) w h =
      try-Meets (λ _ v. Good p v) (Good p) (Good p)
        (read_installed_metadata env n >>= with_build env s) (unobserved env s) w
        (bind-Meets (λ _ v. Good p v) (λ _ v. Good p v) (Good p) (read_installed_metadata env n)
          (with_build env s) w
          (Meets-mono _ (λ _ v. Good p v) (Good p) (Good p) (read_installed_metadata env n w)
            (on_tree-Good env p n _ w h) (λ _ _ k. k.0) (λ _ k. k))
          (λ m v k. k))
        (λ e v k.
          if_intro (λ (m : Exec (World T) UpdateState). Goes env p (m v)) (is_update_error e)
            (λ _. k) (λ _. k))

  status-Goes : (p : PointerFile) (w : World T) → Good p w → Goes env p (status env w)
  unfolding status
  status-Goes p w h =
      bind-Meets (λ _ v. Good p v) (λ _ v. Good p v) (Good p) (load env) _ w
        (Meets-mono _ (λ _ v. Good p v) (Good p) (Good p) (load env w) (load-Good env p w h)
          (λ _ _ k. k.1.1) (λ _ k. k))
        (λ s v k.
          bind-Meets (λ _ v. Good p v) (λ _ v. Good p v) (Good p) (read_active env) (observe env s)
            v
            (Meets-mono _ (λ _ v. Good p v) (Good p) (Good p) (read_active env v)
              (read_active-Good env p v k) (λ _ _ m. m.1.1) (λ _ m. m))
            (λ o u m. observe-Goes p s o u m))

  pub active_release-IsSound : (w : World T) → IsSound w → IsSound (active_release env w).1
  active_release-IsSound w h = Ends-IsSound env (active_release env w) (
      Goes-Ends env w.active (active_release env w)
        (active_release-Goes w.active w (IsSound-IsSoundAt w h)))

  pub status-IsSound : (w : World T) → IsSound w → IsSound (status env w).1
  status-IsSound w h =
      Ends-IsSound env (status env w)
        (Goes-Ends env w.active (status env w) (status-Goes w.active w (IsSound-IsSoundAt w h)))
