-- ===== src/Updater/Soundness/Activation.antt =====
-- The promotion and activation of a candidate (src/pz_updater/core.py) keep the invariant: the
-- pointer moves only to a release that is there, under a recorded state that fits both ends.
use mathlib.Core.Path.{subst}
use text.Mathlib.TextPositions.{eq_refl}
use pz_server.Prelude.{
  String, ◌≡◌, refl, ◌⊎◌, inl, inr, true, false, Option, none, some, str_eq, ap, ◌∙◌, sym,
}
use pz_server.Updater.Exec.{
  Failure, update_error, incompatible, os_error, other_error, killed, ◌>>=◌, try_except,
}
use pz_server.Updater.State.{UpdateState, null, release, activating, failed_before_world_open}
use pz_server.Updater.Machine.{
  Entry, PointerFile, missing, unsafe, names, holds, World, Environment,
}
use pz_server.Updater.Layout.{relative, write, write_active, write_previous, promote_candidate}
use pz_server.Updater.Recovery.{is_activating, recover_activation}
use pz_server.Updater.Update.{
  Configuration, Attempt, promoted, activated, pending, previous_value, record_promotion, promote,
  is_pending, activation_failed, switch_pointers, activate,
}
use pz_server.Updater.Soundness.Rules.{Meets, bind-Meets, try-Meets, Meets-mono, branch-Meets}
use pz_server.Updater.Soundness.Invariant.{
  IsDirectory, Fits, FitsName, FitsStore, IsSound, IsSoundAt, IsSoundAt-IsSound, IsSound-IsSoundAt,
  selects, keeps_previous,
}
use pz_server.Updater.Soundness.Steps.{
  Good, Same, Reads, Apart, relative-Good, write-Good, write_stored-Good,
}
use pz_server.Updater.Soundness.Pointers.{
  Kept, promote_candidate-Good, write_previous-Good, write_active-Good,
}
use pz_server.Updater.Soundness.Recover.{selects_null, recover_activation-Good, Recovered}
use pz_server.Updater.Soundness.Handlers.{selects_of_Apart}
use pz_server.Updater.Soundness.Staging.{Staged, Staged-of_Same}

module _ {T : Type 0} (env : Environment T) (c : Configuration) (a : Attempt)
    (p : PointerFile) where
  -- The recorded predecessor is what the pointer names.
  previous_value-Good :
      (w : World T)
      → Reads p a.active
      → Good p w
      → Meets (λ v x. (keeps_previous p v ≡ true) × Same p w x) (Good p) (previous_value env c a w)
  unfolding previous_value
  previous_value-Good w r h = go p a.active r h
    where
      go :
          (q : PointerFile) (o : Option String)
          → Reads q o
          → Good p w
          → Meets
              (λ v x. (keeps_previous q v ≡ true) × Same p w x)
              (Good p)
              (previous_value env c (record a { active = o }) w)
      go missing none r h = (refl, (refl, h))
      go missing (some _) r h = absurd r
      go (unsafe _) _ r h = absurd r
      go (names n) none r h = absurd r
      go (names n) (some m) r h =
          Meets-mono (λ v x. (v ≡ release m) × Same p w x)
            (λ v x. (keeps_previous (names n) v ≡ true) × Same p w x) (Good p) (Good p)
            (relative m w) (relative-Good p m w h)
            (λ v x k. (ap (keeps_previous (names n)) k.0 ∙ ap (λ j. str_eq j n) r ∙ eq_refl n, k.1))
            (λ x k. k)

  pub record_promotion-Staged :
      (n final : String) (backup : Option String) (w : World T)
      → Reads p a.active
      → Apart p n
      → Apart p final
      → Staged env c a p n w
      → Meets
          (λ r v. (keeps_previous p r.previous_release ≡ true) × Staged env c a p n v)
          (Good p)
          (record_promotion env c a n final backup w)
  unfolding record_promotion
  record_promotion-Staged n final backup w r an af h =
      let R = λ (s : UpdateState) (v : World T).
        (keeps_previous p s.previous_release ≡ true) × Staged env c a p n v in
      bind-Meets (λ v x. (keeps_previous p v ≡ true) × Same p w x) R (Good p)
        (previous_value env c a)
        (λ previous. relative n >>= λ staged. relative final >>= λ to.
          λ u. write env (promoted c a previous staged to backup (env.now u.step)) u)
        w (previous_value-Good w r h.0)
        (λ previous v k.
          bind-Meets (λ x u. (x ≡ release n) × Same p v u) R (Good p) (relative n)
            (λ staged. relative final >>= λ to.
              λ u. write env (promoted c a previous staged to backup (env.now u.step)) u)
            v (relative-Good p n v k.1.1)
            (λ staged u m.
              bind-Meets (λ x y. (x ≡ release final) × Same p u y) R (Good p) (relative final)
                (λ to y. write env (promoted c a previous staged to backup (env.now y.step)) y) u
                (relative-Good p final u m.1.1)
                (λ to y q.
                  let s = promoted c a previous staged to backup (env.now y.step) in
                  Meets-mono (λ r x. (r ≡ s) × Same p y x) R (Good p) (Good p) (write env s y)
                    (write-Good env p s y
                      (
                        ap (selects p) m.0 ∙ selects_of_Apart p n an,
                        ap (selects p) q.0 ∙ selects_of_Apart p final af,
                      )
                      q.1.1)
                    (λ r x z. (
                      subst (λ t. keeps_previous p t.previous_release ≡ true) (sym z.0) k.0,
                      Staged-of_Same env c a p n w x h.1 (z.1.0 ∙ q.1.0 ∙ m.1.0 ∙ k.1.0, z.1.1),
                    ))
                    (λ x z. z))))

  -- What holds between the record of the activation and the switch of the pointers.
  abbrev pub Ready : String → UpdateState → World T → Type 0
  Ready final s v =
      (s.state ≡ activating)
      × (s.candidate_release ≡ release final)
      × (s.promoted_release ≡ null)
      × (keeps_previous p s.previous_release ≡ true)
      × (v.store ≡ holds s)
      × Staged env c a p final v

  pub promote-Ready :
      (n final : String) (s : UpdateState) (w : World T)
      → keeps_previous p s.previous_release ≡ true
      → Apart p n
      → Apart p final
      → Staged env c a p n w
      → Meets (Ready final) (Good p) (promote env c a n final s w)
  unfolding promote
  promote-Ready n final s w k an af h =
      let D = λ (v : World T). Good p v × IsDirectory (v.entries final) in
      bind-Meets (λ _ v. D v) (Ready final) (Good p) (promote_candidate env n final)
        (λ _. relative final >>= λ path u. write env (activated path (env.now u.step) s) u) w
        (promote_candidate-Good env p n final w an af h.1 h.0)
        (λ _ v m.
          bind-Meets (λ x u. (x ≡ release final) × Same p v u) (Ready final) (Good p)
            (relative final) (λ path u. write env (activated path (env.now u.step) s) u) v
            (relative-Good p final v m.0)
            (λ path u q.
              let t = activated path (env.now u.step) s in
              Meets-mono (λ r x. (r ≡ t) × (x.store ≡ holds t) × Same p u x) (Ready final) (Good p)
                (Good p) (write env t u) (write_stored-Good env p t u (inr k, selects_null p) q.1.1)
                (λ r x z. (
                  ap (λ y. y.state) z.0,
                  ap (λ y. y.candidate_release) z.0 ∙ q.0,
                  ap (λ y. y.promoted_release) z.0,
                  subst (λ y. keeps_previous p y.previous_release ≡ true) (sym z.0) k,
                  z.1 ∙ ap holds (sym z.0),
                  Staged-of_Same env c a p final v x m.1 (z.2.0 ∙ q.1.0, z.2.1),
                ))
                (λ x z. z)))

  abbrev Sound : World T → Type 0
  Sound v = IsSound v

  -- The candidate is selected.
  abbrev Switched : UpdateState → Unit {0} → World T → Type 0
  Switched s _ v = (selects v.active s.candidate_release ≡ true) × Sound v

  -- A state that is being activated fits a pointer that selects it, or its predecessor.
  activating-Fits :
      (q : PointerFile) (s : UpdateState)
      → s.state ≡ activating
      → s.promoted_release ≡ null
      → ((selects q s.candidate_release ≡ true) ⊎ (keeps_previous q s.previous_release ≡ true))
      → Fits q s
  activating-Fits q s e u h = (subst (FitsName q s) (sym e) h, ap (selects q) u ∙ selects_null q)

  not_both :
      (s r : UpdateState)
      → s.state ≡ activating
      → is_activating s.state ≡ false
      → is_pending env c a r.state ≡ true
      → ⊥
  not_both s r e i h = cc

  not_pending :
      (r : UpdateState) → r.state ≡ failed_before_world_open → is_pending env c a r.state ≡ true → ⊥
  not_pending r e h = cc

  -- After a failure, the switch counts as made only where the candidate is selected.
  activation_failed-Good :
      (s : UpdateState) (e : Failure) (w : World T)
      → s.state ≡ activating
      → Sound w × Fits w.active s
      → Meets (Switched s) Sound (activation_failed env c a s e w)
  unfolding activation_failed
  activation_failed-Good s (os_error d) w e h =
      let q = w.active in
      let R = λ (r : UpdateState) (v : World T).
        (((is_activating s.state ≡ false) × (r ≡ s)) ⊎ Recovered env q s r) × Good q v in
      bind-Meets R (Switched s) Sound (recover_activation env s) _ w
        (Meets-mono R R (Good q) Sound (recover_activation env s w)
          (recover_activation-Good env q s w h.1 (IsSound-IsSoundAt w h.0)) (λ _ _ k. k)
          (λ v k. IsSoundAt-IsSound q v k))
        (λ r v k.
          branch-Meets (Switched s) Sound (is_pending env c a r.state) _ _ v
            (λ t. (
              elim k.0 [
                | inl m ↦ absurd (not_both s r e m.0 t)
                | inr m ↦ elim m.0 [
                  | inl n ↦ absurd (not_pending r n t)
                  | inr n ↦ subst (λ y. selects y s.candidate_release ≡ true) (sym k.1.same) n.1
                ]
              ],
              IsSoundAt-IsSound q v k.1,
            ))
            (λ _. IsSoundAt-IsSound q v k.1))
  activation_failed-Good s (update_error d) w e h = h.0
  activation_failed-Good s (incompatible d) w e h = h.0
  activation_failed-Good s (other_error d) w e h = h.0
  activation_failed-Good s killed w e h = h.0

  switch_pointers-Good :
      (final : String) (s : UpdateState) (w : World T)
      → Ready final s w
      → Meets (Switched s) (λ v. Sound v × Fits v.active s) (switch_pointers env c a final w)
  unfolding switch_pointers
  switch_pointers-Good final s w h =
      let E = λ (v : World T). Sound v × Fits v.active s in
      let old = activating-Fits p s h.0 h.2 (inr h.3) in
      let chosen = ap (selects (names final)) h.1 ∙ eq_refl final in
      let new = activating-Fits (names final) s h.0 h.2 (inl chosen) in
      bind-Meets (λ _ v. Kept env p w v) (Switched s) E (write_previous env a.active)
        (λ _. write_active env final) w
        (Meets-mono (λ _ v. Kept env p w v) (λ _ v. Kept env p w v) (Good p) E
          (write_previous env a.active w) (write_previous-Good env p a.active w h.5.0) (λ _ _ k. k)
          (λ v k. (IsSoundAt-IsSound p v k, subst (λ q. Fits q s) (sym k.same) old)))
        (λ _ v k.
          Meets-mono (λ _ x. IsSoundAt (names final) x) (Switched s) E E (write_active env final v)
            (write_active-Good env p final s v
              (subst (λ (f : String → Option (Entry T)). IsDirectory (f final)) (sym k.1.0) h.5.1)
              (subst (FitsStore (names final)) (sym (k.0 ∙ h.4)) new) old new k.1.1)
            (λ _ x m. (
              subst (λ q. selects q s.candidate_release ≡ true) (sym m.same) chosen,
              IsSoundAt-IsSound (names final) x m,
            ))
            (λ _ m. m))

  pub activate-Sound :
      (final : String) (s : UpdateState) (w : World T)
      → Ready final s w
      → Meets (λ _ v. Sound v) Sound (activate env c a final s w)
  unfolding activate
  activate-Sound final s w h =
      bind-Meets (Switched s) (λ _ v. Sound v) Sound
        (try_except (switch_pointers env c a final) (activation_failed env c a s))
        (λ _ v. write env (pending a (env.now v.step) s) v) w
        (try-Meets (Switched s) (λ v. Sound v × Fits v.active s) Sound
          (switch_pointers env c a final) (activation_failed env c a s) w
          (switch_pointers-Good final s w h) (λ e v k. activation_failed-Good s e v h.0 k))
        (λ _ v k.
          let q = v.active in
          let t = pending a (env.now v.step) s in
          Meets-mono (λ r x. (r ≡ t) × Same q v x) (λ _ x. Sound x) (Good q) Sound (write env t v)
            (write-Good env q t v (k.0, ap (selects q) h.2 ∙ selects_null q)
              (IsSound-IsSoundAt v k.1))
            (λ _ x m. IsSoundAt-IsSound q x m.1.1) (λ x m. IsSoundAt-IsSound q x m))
