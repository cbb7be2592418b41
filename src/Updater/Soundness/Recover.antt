-- ===== src/Updater/Soundness/Recover.antt =====
-- Recovery (src/pz_updater/core.py) keeps the invariant, and never removes the active release.
use mathlib.Core.Path.{subst}
use pz_server.Prelude.{
  ℕ, String, ◌≡◌, refl, ◌⊎◌, inl, inr, Bool, true, false, not, ◌&&◌, ◌||◌, Option, none, some,
  arith, if_intro, ap, ◌∙◌, sym,
}
use pz_server.Updater.Exec.{update_error, pure, raise}
use pz_server.Updater.State.{
  UpdateState, is_unhashable, StateName, Value, absent, null, release, pending_readiness,
  failed_before_world_open,
}
use pz_server.Updater.State.{downloading_candidate, promoting_candidate}
use pz_server.Updater.Machine.{
  PointerFile, missing, unsafe, names, World, Environment, SteamBuildMetadata, remove_tree,
}
use pz_server.Updater.Layout.{relative, exists, is_symlink, write, read_active, wrap_os_error}
use pz_server.Updater.Recovery.{
  cleaned, resumed, rolled_back, is_release, is_staging, is_activating, is_active,
  is_still_previous, has_path, record_pre_world_failure, staged_path, clean_path, require_path,
  clean_staging, drop_candidate, resolve_activation, recover_activation, recover_interrupted,
}
use pz_server.Updater.Soundness.Rules.{Meets, bind-Meets, try-Meets, Meets-mono, branch-Meets}
use pz_server.Updater.Soundness.Invariant.{Fits, FitsName, selects}
use pz_server.Updater.Soundness.Steps.{
  Good, Same, Reads, Apart, relative-Good, remove_tree-Good, write-Good, read_active-Good,
  raise_wrapped-Good,
}

-- A release that is not selected is not the active one.
pub Apart-of_unselected : (p : PointerFile) (n : String) → selects p (release n) ≡ false → Apart p n
Apart-of_unselected missing n h = tt
Apart-of_unselected (unsafe _) n h = tt
Apart-of_unselected (names m) n h = h

pub selects_null : (p : PointerFile) → selects p null ≡ false
selects_null missing = refl
selects_null (unsafe _) = refl
selects_null (names n) = refl

module _ {T : Type 0} (env : Environment T) (p : PointerFile) where
  -- A recorded failure before the world is opened fits every pointer.
  pub record_pre_world_failure-Good :
      (s : UpdateState) (current : Option SteamBuildMetadata) (candidate : Option ℕ)
      (result detail : String) (block : Bool) (w : World T)
      → Good p w
      → Meets
          (λ _ v. Good p v)
          (Good p)
          (record_pre_world_failure env s current candidate result detail block w)
  unfolding record_pre_world_failure
  record_pre_world_failure-Good s current candidate result detail block w h =
      Meets-mono (λ r v. (r ≡ _) × Same p w v) (λ _ v. Good p v) (Good p) (Good p) _
        (write-Good env p _ w (tt, selects_null p) h) (λ _ v k. k.1.1) (λ v k. k)

  abbrev Cleanable : Option String → Type 0
  Cleanable none = Unit
  Cleanable (some n) = Apart p n

  staged_path-Good :
      (v : Value) (w : World T)
      → selects p v ≡ false
      → Good p w
      → Meets (λ o u. Cleanable o × Good p u) (Good p) (staged_path env v w)
  unfolding staged_path
  staged_path-Good (release n) w u h =
      bind-Meets (λ v x. (v ≡ release n) × Same p w x) (λ o x. Cleanable o × Good p x) (Good p)
        (relative n) (λ _. pure (some n)) w (relative-Good p n w h)
        (λ _ x k. (Apart-of_unselected p n u, k.1.1))
  staged_path-Good absent w u h = ground arith
  staged_path-Good null w u h = ground arith
  staged_path-Good _ w u h = h

  clean_path-Good :
      (o : Option String) (w : World T)
      → Cleanable o
      → Good p w
      → Meets (λ _ u. Good p u) (Good p) (clean_path env o w)
  unfolding clean_path
  clean_path-Good none w a h = h
  clean_path-Good (some n) w a h =
      let Q = λ (_ : Unit {0}) (v : World T). Good p v in
      if_intro (Meets Q (Good p)) (is_symlink n w) (λ _. h)
        (λ _.
          if_intro (Meets Q (Good p)) (exists n w)
            (λ _.
              try-Meets Q (Good p) (Good p) (remove_tree env n)
                (wrap_os_error "Could not clean an interrupted candidate release") w
                (remove_tree-Good env p n w a h)
                (raise_wrapped-Good p Q "Could not clean an interrupted candidate release"))
            (λ _. h))

  -- A state that fits may be written.
  pub write_value-Good :
      (P : UpdateState → Type 0) (s : UpdateState) (w : World T)
      → P s
      → Fits p s
      → Good p w
      → Meets (λ r v. P r × Good p v) (Good p) (write env s w)
  write_value-Good P s w q f h =
      Meets-mono (λ r v. (r ≡ s) × Same p w v) (λ r v. P r × Good p v) (Good p) (Good p)
        (write env s w) (write-Good env p s w f h) (λ _ v k. (subst P (sym k.0) q, k.1.1))
        (λ v k. k)

  -- What recovery returns, if it does not return the state that it was given: a failure before
  -- the world was opened, or a candidate that awaits it and is selected.
  abbrev pub Recovered : UpdateState → UpdateState → Type 0
  Recovered s r =
      ((r.state ≡ failed_before_world_open)
        ⊎ ((r.state ≡ pending_readiness) × (selects p s.candidate_release ≡ true)))
      × Fits p r

  require_path-Good :
      (o1 o2 : Option String) (w : World T)
      → Good p w
      → Meets (λ _ v. Good p v) (Good p) (require_path env o1 o2 w)
  unfolding require_path
  require_path-Good o1 o2 w h =
      branch-Meets (λ _ v. Good p v) (Good p) (has_path env o1 || has_path env o2) (pure tt)
        (raise (update_error "Interrupted candidate state does not identify its staged release")) w
        (λ _. h) (λ _. h)

  pub clean_staging-Good :
      (s : UpdateState) (w : World T)
      → selects p s.candidate_release ≡ false
      → selects p s.promoted_release ≡ false
      → Good p w
      → Meets (λ r v. Recovered s r × Good p v) (Good p) (clean_staging env s w)
  unfolding clean_staging
  clean_staging-Good s w c u h =
      let R = λ (r : UpdateState) (v : World T). Recovered s r × Good p v in
      let Q = λ (o : Option String) (v : World T). Cleanable o × Good p v in
      let U = λ (_ : Unit {0}) (v : World T). Good p v in
      bind-Meets Q R (Good p) (staged_path env s.candidate_release) _ w
        (staged_path-Good s.candidate_release w c h)
        (λ o1 w1 k1.
          bind-Meets Q R (Good p) (staged_path env s.promoted_release) _ w1
            (staged_path-Good s.promoted_release w1 u k1.1)
            (λ o2 w2 k2.
              bind-Meets U R (Good p) (require_path env o1 o2) _ w2
                (require_path-Good o1 o2 w2 k2.1)
                (λ _ w3 k3.
                  bind-Meets U R (Good p) (clean_path env o1) _ w3 (clean_path-Good o1 w3 k1.0 k3)
                    (λ _ w4 k4.
                      bind-Meets U R (Good p) (clean_path env o2) _ w4
                        (clean_path-Good o2 w4 k2.0 k4)
                        (λ _ w5 k5.
                          write_value-Good (Recovered s) (cleaned (env.now w5.step) s) w5
                            (inl refl, (tt, selects_null p)) (tt, selects_null p) k5)))))

  drop_candidate-Good :
      (v : Value) (w : World T)
      → selects p v ≡ false
      → Good p w
      → Meets (λ _ u. Good p u) (Good p) (drop_candidate env v w)
  unfolding drop_candidate
  drop_candidate-Good (release n) w u h =
      let Q = λ (_ : Unit {0}) (v : World T). Good p v in
      bind-Meets (λ v x. (v ≡ release n) × Same p w x) Q (Good p) (relative n) _ w
        (relative-Good p n w h)
        (λ _ x k.
          if_intro (Meets Q (Good p)) (exists n x && not (is_symlink n x))
            (λ _. remove_tree-Good env p n x (Apart-of_unselected p n u) k.1.1) (λ _. k.1.1))
  drop_candidate-Good absent w u h = h
  drop_candidate-Good null w u h = h
  drop_candidate-Good _ w u h = h

  -- What `active()` gives says which release is selected.
  selects_of_read : (o : Option String) (v : Value) → Reads p o → is_active env o v ≡ selects p v
  selects_of_read o v r = go p o r
    where
      go : (q : PointerFile) (o : Option String) → Reads q o → is_active env o v ≡ selects q v
      go missing none r = refl
      go missing (some _) r = absurd r
      go (unsafe _) _ r = absurd r
      go (names n) none r = absurd r
      go (names n) (some m) r = ap (is_release v) r

  resolve_activation-Good :
      (s : UpdateState) (o : Option String) (w : World T)
      → selects p s.promoted_release ≡ false
      → Reads p o
      → Good p w
      → Meets (λ r v. Recovered s r × Good p v) (Good p) (resolve_activation env s o w)
  unfolding resolve_activation
  resolve_activation-Good s o w u r h =
      let R = λ (x : UpdateState) (v : World T). Recovered s x × Good p v in
      let seen = selects_of_read o s.candidate_release r in
      branch-Meets R (Good p) (is_active env o s.candidate_release) _ _ w
        (λ t.
          let chosen = sym seen ∙ t in
          write_value-Good (Recovered s) (resumed (env.now w.step) s) w
            (inr (refl, chosen), (chosen, u)) (chosen, u) h)
        (λ f.
          branch-Meets R (Good p) (is_still_previous env o s.previous_release) _ _ w
            (λ _.
              bind-Meets (λ _ v. Good p v) R (Good p) (drop_candidate env s.candidate_release) _ w
                (drop_candidate-Good s.candidate_release w (sym seen ∙ f) h)
                (λ _ v k.
                  write_value-Good (Recovered s) (rolled_back (env.now v.step) s) v
                    (inl refl, (tt, u)) (tt, u) k))
            (λ _. h))

  pub recover_activation-Good :
      (s : UpdateState) (w : World T)
      → Fits p s
      → Good p w
      → Meets
          (λ r v. (((is_activating s.state ≡ false) × (r ≡ s)) ⊎ Recovered s r) × Good p v)
          (Good p)
          (recover_activation env s w)
  unfolding recover_activation
  recover_activation-Good s w f h =
      let R = λ (r : UpdateState) (v : World T).
        (((is_activating s.state ≡ false) × (r ≡ s)) ⊎ Recovered s r) × Good p v in
      branch-Meets R (Good p) (is_activating s.state) _ _ w
        (λ _.
          bind-Meets (λ o v. Reads p o × Same p w v) R (Good p) (read_active env)
            (resolve_activation env s) w (read_active-Good env p w h)
            (λ o v k.
              Meets-mono (λ r x. Recovered s r × Good p x) R (Good p) (Good p)
                (resolve_activation env s o v) (resolve_activation-Good s o v f.1 k.0 k.1.1)
                (λ r x m. (inr m.0, m.1)) (λ x m. m)))
        (λ idle. (inl (idle, refl), h))

  staged_unselected :
      (s : UpdateState)
      → Fits p s
      → is_staging s.state ≡ true
      → selects p s.candidate_release ≡ false
  staged_unselected s f h = go s.state f.0 h
    where
      go :
          (n : StateName)
          → FitsName p s n
          → is_staging n ≡ true
          → selects p s.candidate_release ≡ false
      go downloading_candidate f h = f
      go promoting_candidate f h = f
      go _ f h = cc

  pub recover_interrupted-Good :
      (s : UpdateState) (w : World T)
      → Fits p s
      → Good p w
      → Meets
          (λ r v.
            (((is_activating s.state ≡ false) × (is_staging s.state ≡ false) × (r ≡ s))
              ⊎ Recovered s r)
            × Good p v)
          (Good p)
          (recover_interrupted env s w)
  unfolding recover_interrupted
  recover_interrupted-Good s w f h =
      let R = λ (r : UpdateState) (v : World T).
        (((is_activating s.state ≡ false) × (is_staging s.state ≡ false) × (r ≡ s)) ⊎ Recovered s r)
        × Good p v in
      branch-Meets R (Good p) (is_unhashable s.state) _ _ w (λ _. h)
        (λ _.
          branch-Meets R (Good p) (is_staging s.state) _ _ w
            (λ t.
              Meets-mono (λ r x. Recovered s r × Good p x) R (Good p) (Good p)
                (clean_staging env s w) (clean_staging-Good s w (staged_unselected s f t) f.1 h)
                (λ r x m. (inr m.0, m.1)) (λ x m. m))
            (λ o.
              Meets-mono _ R (Good p) (Good p) (recover_activation env s w)
                (recover_activation-Good s w f h)
                (λ r x m. (elim m.0 [ inl k ↦ inl (k.0, o, k.1) | inr k ↦ inr k ], m.1))
                (λ x m. m)))
