-- ===== src/Updater/Soundness/Launch.antt =====
-- The start of the server and the explicit update (src/pz_updater/core.py) keep the invariant.
use mathlib.Core.Path.{subst}
use pz_server.Prelude.{
  ℕ, String, ◌≡◌, refl, Bool, true, false, not, ◌&&◌, Option, none, some, inl, inr, ◌⊎◌, sym,
}
use pz_server.Updater.Exec.{Exec, ◌>>=◌, ◌>>◌}
use pz_server.Updater.State.{UpdateState}
use pz_server.Updater.Machine.{PointerFile, World, Environment, SteamBuildMetadata, consult}
use pz_server.Updater.Layout.{load, read_active, ensure, with_lock}
use pz_server.Updater.Recovery.{is_staging, is_activating, recover_interrupted}
use pz_server.Updater.Update.{Configuration}
use pz_server.Updater.Start.{
  is_committed, is_candidate_state, is_failed_before, is_manual, is_present, write_observation,
  check_and_update, prepare_active, resume, suppress, fall_back, update_on_start, or_else,
  start_fresh, start_or_suppress, start_selected, start_recovered, prepare_start, refuse_pending,
  refuse_candidate, update_active, update_allowed, update_recovered, explicit_update,
}
use pz_server.Updater.Soundness.Rules.{Meets, bind-Meets, try-Meets, Meets-mono, branch-Meets}
use pz_server.Updater.Soundness.Invariant.{
  IsSound, IsSoundAt-IsSound, IsSound-IsSoundAt, Fits, selects,
}
use pz_server.Updater.Soundness.Steps.{Good, Same, Reads, Apart, load-Good, read_active-Good}
use pz_server.Updater.Soundness.Pointers.{ensure-Good}
use pz_server.Updater.Soundness.Recover.{recover_interrupted-Good, Recovered}
use pz_server.Updater.Soundness.Operations.{Ends, Ends-IsSound, with_lock-Ends, Goes-Ends}
use pz_server.Updater.Soundness.Query.{
  write_observation-Good, resume-Good, suppress-Good, fall_back-Good, prepare_active-Good,
  check_and_update-Ends,
}

module _ {T : Type 0} (env : Environment T) (c : Configuration) where
  update_on_start-Ends :
      (p : PointerFile) (active : Option String) (m : Option SteamBuildMetadata) (s : UpdateState)
      (w : World T)
      → Reads p active
      → Fits p s
      → ((k b : ℕ) → Apart p (env.alternative_name k b))
      → Good p w
      → Ends env (update_on_start env c active m s w)
  unfolding update_on_start
  update_on_start-Ends p active m s w r f fresh h =
      let Q = λ (_ : UpdateState) (v : World T). IsSound v in
      let E = λ (v : World T). IsSound v in
      let keep = λ (result : String).
        Goes-Ends env p (write_observation env c s m result w)
          (write_observation-Good env c p s m result w f.1 h) in
      branch-Meets Q E (is_present active && is_manual c.policy) _ _ w
        (λ _.
          branch-Meets Q E (is_failed_before s.state) _ _ w (λ _. IsSoundAt-IsSound p w h)
            (λ _. keep "manual-policy"))
        (λ _.
          branch-Meets Q E
            (is_present active && c.mods_configured && not c.allow_auto_update_with_mods) _ _ w
            (λ _. keep "blocked-mods")
            (λ _.
              try-Meets Q E E (check_and_update env c active m s false false)
                (fall_back env c active) w
                (check_and_update-Ends env c p active m s false false w r f.1 fresh h)
                (λ e v k.
                  Goes-Ends env v.active (fall_back env c active e v)
                    (fall_back-Good env c v.active active e v (IsSound-IsSoundAt v k)))))

  -- Code that keeps the pointer, before code that may switch it.
  before :
      {A B : Type 0} (p : PointerFile) (Q : A → World T → Type 0) (m : Exec (World T) A)
      (f : A → Exec (World T) B) (w : World T)
      → Meets Q (Good p) (m w)
      → ((x : A) (v : World T) → Q x v → Ends env (f x v))
      → Ends env ((m >>= f) w)
  before p Q m f w h k =
      bind-Meets Q (λ _ v. IsSound v) (λ v. IsSound v) m f w
        (Meets-mono Q Q (Good p) (λ v. IsSound v) (m w) h (λ _ _ q. q)
          (λ v q. IsSoundAt-IsSound p v q))
        k

  Reads-or_else :
      (p : PointerFile) (o1 o2 : Option String)
      → Reads p o1
      → Reads p o2
      → Reads p (or_else env c o1 o2)
  Reads-or_else p none o2 h k = k
  Reads-or_else p (some n) o2 h k = h

  start_fresh-Ends :
      (p : PointerFile) (w : World T)
      → ((k b : ℕ) → Apart p (env.alternative_name k b))
      → Good p w
      → Ends env (start_fresh env c w)
  unfolding start_fresh
  start_fresh-Ends p w fresh h =
      before p (λ o v. Reads p o × Same p w v) (ensure env) _ w (ensure-Good env p w h)
        (λ ensured v k.
          before p (λ s x. Fits p s × Same p v x) (load env) _ v (load-Good env p v k.1.1)
            (λ s x m.
              before p (λ o y. Reads p o × Same p x y) (read_active env) _ x
                (read_active-Good env p x m.1.1)
                (λ selected y q.
                  let active = or_else env c selected ensured in
                  let reads = Reads-or_else p selected ensured q.0 k.0 in
                  before p (λ _ z. Good p z) (prepare_active env c active)
                    (λ installed. update_on_start env c active installed s) y
                    (prepare_active-Good env c p active y q.1.1)
                    (λ installed z g.
                      update_on_start-Ends p active installed s z reads m.0 fresh g))))

  -- The start of a transaction: the state is loaded and an interrupted update is recovered.
  recovered_before :
      {B : Type 0} (p : PointerFile) (f : UpdateState → Exec (World T) B) (w : World T)
      → Good p w
      → ((s : UpdateState) (v : World T)
          → selects p s.promoted_release ≡ false
          → Good p v
          → Ends env (f s v))
      → Ends env ((load env >>= λ stored. recover_interrupted env stored >>= f) w)
  recovered_before p f w h k =
      before p (λ s v. Fits p s × Same p w v) (load env) _ w (load-Good env p w h)
        (λ s v m.
          before p
            (λ r x.
              (((is_activating s.state ≡ false) × (is_staging s.state ≡ false) × (r ≡ s))
                ⊎ Recovered env p s r)
              × Good p x)
            (recover_interrupted env s) f v (recover_interrupted-Good env p s v m.0 m.1.1)
            (λ r x q.
              k r x
                (elim q.0 [
                  | inl e ↦ subst (λ t. selects p t.promoted_release ≡ false) (sym e.2) m.0.1
                  | inr e ↦ e.1.1
                ])
                q.1))

  start_selected-Ends :
      (p : PointerFile) (s : UpdateState) (active : Option String) (w : World T)
      → ((k b : ℕ) → Apart p (env.alternative_name k b))
      → selects p s.promoted_release ≡ false
      → Good p w
      → Ends env (start_selected env c s active w)
  unfolding start_selected start_or_suppress
  start_selected-Ends p s active w fresh u h =
      let Q = λ (_ : UpdateState) (v : World T). IsSound v in
      let E = λ (v : World T). IsSound v in
      branch-Meets Q E (is_committed s.state) _ _ w
        (λ _. Goes-Ends env p (resume env c s active w) (resume-Good env c p s active w h))
        (λ _.
          before p (λ _ z. Good p z) (consult env env.deployment_pending) _ w
            (record { same = h.same; live = h.live; fits = h.fits })
            (λ pending z q.
              branch-Meets Q E pending (suppress env c s active) (start_fresh env c) z
                (λ _.
                  Goes-Ends env p (suppress env c s active z)
                    (suppress-Good env c p s active z u q))
                (λ _. start_fresh-Ends p z fresh q)))

  start_recovered-Ends :
      (p : PointerFile) (s : UpdateState) (w : World T)
      → ((k b : ℕ) → Apart p (env.alternative_name k b))
      → selects p s.promoted_release ≡ false
      → Good p w
      → Ends env (start_recovered env c s w)
  unfolding start_recovered
  start_recovered-Ends p s w fresh u h =
      before p (λ o y. Reads p o × Same p w y) (read_active env) (start_selected env c s) w
        (read_active-Good env p w h) (λ active y m. start_selected-Ends p s active y fresh u m.1.1)

  -- A guard that raises, and what follows.
  refuse_pending-Ends :
      (p : PointerFile) (b : Bool) (m : Exec (World T) UpdateState) (w : World T)
      → Good p w
      → Ends env (m w)
      → Ends env ((refuse_pending env c b >> m) w)
  refuse_pending-Ends p true m w h k = IsSoundAt-IsSound p w h
  refuse_pending-Ends p false m w h k = k

  refuse_candidate-Ends :
      (p : PointerFile) (s : UpdateState) (m : Exec (World T) UpdateState) (w : World T)
      → Good p w
      → Ends env (m w)
      → Ends env ((refuse_candidate env c s >> m) w)
  refuse_candidate-Ends p s m w h k =
      bind-Meets (λ (_ : Unit {0}) v. v ≡ w) (λ _ v. IsSound v) (λ v. IsSound v)
        (refuse_candidate env c s) (λ _. m) w
        (branch-Meets (λ (_ : Unit {0}) v. v ≡ w) (λ v. IsSound v) (is_candidate_state s.state) _ _
          w (λ _. IsSoundAt-IsSound p w h) (λ _. refl))
        (λ _ v e. subst (λ u. Ends env (m u)) (sym e) k)

  update_active-Ends :
      (p : PointerFile) (validate : Bool) (active : Option String) (s : UpdateState) (w : World T)
      → Reads p active
      → selects p s.promoted_release ≡ false
      → ((k b : ℕ) → Apart p (env.alternative_name k b))
      → Good p w
      → Ends env (update_active env c validate active s w)
  unfolding update_active
  update_active-Ends p validate active s w r u fresh h =
      before p (λ _ v. Good p v) (prepare_active env c active)
        (λ installed. check_and_update env c active installed s validate true) w
        (prepare_active-Good env c p active w h)
        (λ installed v g.
          check_and_update-Ends env c p active installed s validate true v r u fresh g)

  update_allowed-Ends :
      (p : PointerFile) (validate : Bool) (w : World T)
      → ((k b : ℕ) → Apart p (env.alternative_name k b))
      → Good p w
      → Ends env (update_allowed env c validate w)
  unfolding update_allowed
  update_allowed-Ends p validate w fresh h =
      before p (λ o v. Reads p o × Same p w v) (ensure env) _ w (ensure-Good env p w h)
        (λ active v r.
          before p (λ s z. Fits p s × Same p v z) (load env)
            (λ s. refuse_candidate env c s >> update_active env c validate active s) v
            (load-Good env p v r.1.1)
            (λ s z m.
              refuse_candidate-Ends p s (update_active env c validate active s) z m.1.1
                (update_active-Ends p validate active s z r.0 m.0.1 fresh m.1.1)))

  update_recovered-Ends :
      (p : PointerFile) (validate : Bool) (w : World T)
      → ((k b : ℕ) → Apart p (env.alternative_name k b))
      → Good p w
      → Ends env (update_recovered env c validate w)
  unfolding update_recovered
  update_recovered-Ends p validate w fresh h =
      before p (λ _ z. Good p z) (consult env env.deployment_pending)
        (λ pending. refuse_pending env c pending >> update_allowed env c validate) w
        (record { same = h.same; live = h.live; fits = h.fits })
        (λ pending y q.
          refuse_pending-Ends p pending (update_allowed env c validate) y q
            (update_allowed-Ends p validate y fresh q))

  launch-IsSound :
      {A : Type 0} (f : UpdateState → Exec (World T) A) (w : World T)
      → ((s : UpdateState) (v : World T)
          → selects w.active s.promoted_release ≡ false
          → Good w.active v
          → Ends env (f s v))
      → IsSound w
      → IsSound (with_lock env (load env >>= λ stored. recover_interrupted env stored >>= f) w).1
  launch-IsSound f w k h = Ends-IsSound env _ (
      with_lock-Ends env (load env >>= λ stored. recover_interrupted env stored >>= f) w h
        (λ v start. recovered_before w.active f v start k))

  -- `prepare_start` leaves a sound machine sound, whatever its steps meet: a failure before or after
  -- its effect, an answer that raises, or the end of the process. The name that is made where the
  -- name of the new release is taken must not be the active release's.
  pub prepare_start-IsSound :
      (w : World T)
      → ((k b : ℕ) → Apart w.active (env.alternative_name k b))
      → IsSound w
      → IsSound (prepare_start env c w).1
  unfolding prepare_start
  prepare_start-IsSound w fresh h =
      launch-IsSound (start_recovered env c) w
        (λ s v u k. start_recovered-Ends w.active s v fresh u k) h

  -- `explicit_update` leaves a sound machine sound, with and without `validate`, whatever its steps
  -- meet. The name that is made where the name of the new release is taken must not be the active
  -- release's.
  pub explicit_update-IsSound :
      (validate : Bool) (w : World T)
      → ((k b : ℕ) → Apart w.active (env.alternative_name k b))
      → IsSound w
      → IsSound (explicit_update env c validate w).1
  unfolding explicit_update
  explicit_update-IsSound validate w fresh h =
      launch-IsSound (λ _. update_recovered env c validate) w
        (λ _ v _ k. update_recovered-Ends w.active validate v fresh k) h
