-- ===== src/Updater/Soundness/Pointers.antt =====
-- The operations of `ReleaseLayout` (src/pz_updater/core.py) keep the invariant.
use text.Mathlib.TextPositions.{eq_refl}
use mathlib.Core.Path.{subst}
use pz_server.Prelude.{
  String, ◌≡◌, refl, ◌⊎◌, inl, inr, true, false, Option, none, some, arith, str_eq, eq_iff,
  if_intro, ◌∙◌, sym, Bool-cases,
}
use pz_server.Updater.Exec.{os_error, raised, Exec, ◌>>=◌, ◌>>◌, pure}
use pz_server.Updater.State.{UpdateState, release}
use pz_server.Updater.Machine.{
  Entry, directory, PointerFile, missing, unsafe, names, World, Environment, advance, set_entry,
  attempt, remove_tree,
}
use pz_server.Updater.Layout.{
  relative, exists, read_active, read_previous, write_active, write_previous, ensure, rename,
  rename_entry, promote_candidate, discard, discard_old_previous, make_directory,
}
use pz_server.Updater.Soundness.Rules.{Meets, bind-Meets, Meets-mono, branch-Meets}
use pz_server.Updater.Soundness.Invariant.{
  IsDirectory, IsLive, Fits, FitsStore, IsSound, IsSoundAt, IsSoundAt-IsSound,
}
use pz_server.Updater.Soundness.Steps.{
  Good, Same, Reads, Apart, relative-Good, relative_frame, set_entry-Good, remove_tree-Good,
  read_active-Good, read_previous-Good,
}

module _ {T : Type 0} where
  not_same :
      (m n : String) (w : World T)
      → IsDirectory (w.entries m)
      → exists n w ≡ false
      → (str_eq n m ≡ true) ⊎ (str_eq n m ≡ false)
      → str_eq n m ≡ false
  not_same m n w live new (inr apart) = apart
  not_same m n w live new (inl same) = absurd (
      there (w.entries n) new
        (subst (λ k. IsDirectory (w.entries k)) (sym ((eq_iff n m).0 same)) live))
    where
      there :
          (e : Option (Entry T))
          → (elim e [ none ↦ false | some _ ↦ true ]) ≡ false
          → IsDirectory e
          → ⊥
      there none h d = d
      there (some _) h d = cc

  -- A name that is not taken is not the active release's.
  pub Apart-of_new :
      (q : PointerFile) (n : String) (w : World T)
      → IsLive q w.entries
      → exists n w ≡ false
      → Apart q n
  Apart-of_new missing n w live new = tt
  Apart-of_new (unsafe _) n w live new = tt
  Apart-of_new (names m) n w live new = not_same m n w live new (Bool-cases (str_eq n m))

module _ {T : Type 0} (env : Environment T) (p : PointerFile) where
  -- A write that keeps the invariant where it takes effect.
  pub attempt-Good :
      (Q : World T → Type 0) (f : World T → World T) (w : World T)
      → Good p w
      → Q (f (advance w))
      → Good p (f (advance w))
      → Meets (λ _ v. Q v) (Good p) (attempt env f w)
  unfolding attempt
  attempt-Good Q f w h q g = ground arith

  pub make_directory-Good :
      (n : String) (w : World T)
      → Good p w
      → Meets
          (λ _ v. Good p v × IsDirectory (v.entries n) × Apart p n)
          (Good p)
          (make_directory env n w)
  unfolding make_directory
  make_directory-Good n w h =
      let Q : World T → Type 0 = λ v. Good p v × IsDirectory (v.entries n) × Apart p n in
      let made = set_entry n (some (directory env.empty_tree)) (advance w) in
      if_intro (Meets (λ _ v. Q v) (Good p)) (exists n w)
        (λ _. record { same = h.same; live = h.live; fits = h.fits })
        (λ new.
          let apart = Apart-of_new p n w h.live new in
          let good =
            set_entry-Good p n (some (directory env.empty_tree)) (advance w) apart
              (record { same = h.same; live = h.live; fits = h.fits }) in
          attempt-Good Q (λ v. set_entry n (some (directory env.empty_tree)) v) w h
            (good, rw (eq_refl n) tt, apart) good)

  -- Sound, with the releases and the recorded state of `w`.
  abbrev pub Kept : World T → World T → Type 0
  Kept w v = (v.store ≡ w.store) × Same p w v

  relative-Kept :
      (n : String) (w : World T)
      → Good p w
      → Meets (λ v u. (v ≡ release n) × Kept w u) (Good p) (relative n w)
  unfolding relative
  relative-Kept n w h = ground arith

  pub write_previous-Good :
      (o : Option String) (w : World T)
      → Good p w
      → Meets (λ _ v. Kept w v) (Good p) (write_previous env o w)
  unfolding write_previous
  write_previous-Good none w h = ground arith
  write_previous-Good (some n) w h =
      bind-Meets (λ v u. (v ≡ release n) × Kept w u) (λ _ v. Kept w v) (Good p) (relative n)
        (λ _. attempt env (λ v. record v { previous = names n })) w (relative-Kept n w h)
        (λ _ u k.
          let good : Good p (record (advance u) { previous = names n }) = record {
            same = k.1.1.1.same;
            live = k.1.1.1.live;
            fits = k.1.1.1.fits;
          } in
          attempt-Good (Kept w) (λ v. record v { previous = names n }) u k.1.1.1
            (k.1.0, (k.1.1.0, good)) good)

  abbrev touch : Exec (World T) (Unit {0})
  touch = attempt env (λ v. v)

  touch-Good : (w v : World T) → Same p w v → Meets (λ _ u. Same p w u) (Good p) (touch v)
  touch-Good w v k =
      attempt-Good (Same p w) (λ u. u) v k.1
        (k.0, record { same = k.1.same; live = k.1.live; fits = k.1.fits })
        (record { same = k.1.same; live = k.1.live; fits = k.1.fits })

  pub ensure-Good :
      (w : World T) → Good p w → Meets (λ o v. Reads p o × Same p w v) (Good p) (ensure env w)
  unfolding ensure
  ensure-Good w h =
      bind-Meets (λ _ v. Same p w v) (λ o v. Reads p o × Same p w v) (Good p) touch
        (λ _. touch >> read_active env) w (touch-Good w w (refl, h))
        (λ _ v k.
          bind-Meets (λ _ u. Same p w u) (λ o u. Reads p o × Same p w u) (Good p) touch
            (λ _. read_active env) v (touch-Good w v k)
            (λ _ u m.
              Meets-mono (λ o x. Reads p o × Same p u x) (λ o x. Reads p o × Same p w x) (Good p)
                (Good p) (read_active env u) (read_active-Good env p u m.1)
                (λ o x q. (q.0, (q.1.0 ∙ m.0, q.1.1))) (λ x q. q)))

  Apart-of_read :
      (q : PointerFile) (active n : String)
      → Reads q (some active)
      → str_eq n active ≡ false
      → Apart q n
  Apart-of_read missing active n r h = tt
  Apart-of_read (unsafe _) active n r h = tt
  Apart-of_read (names m) active n r h = subst (λ k. str_eq n k ≡ false) r h

  discard-Good :
      (active : String) (o : Option String) (w : World T)
      → Reads p (some active)
      → Good p w
      → Meets (λ _ v. Good p v) (Good p) (discard env active o w)
  unfolding discard
  discard-Good active none w r h = h
  discard-Good active (some q) w r h =
      branch-Meets (λ _ v. Good p v) (Good p) (str_eq q active) (pure tt) (remove_tree env q) w
        (λ _. h) (λ other. remove_tree-Good env p q w (Apart-of_read p active q r other) h)

  pub discard_old_previous-Good :
      (active : String) (w : World T)
      → Reads p (some active)
      → Good p w
      → Meets (λ _ v. Good p v) (Good p) (discard_old_previous env active w)
  unfolding discard_old_previous
  discard_old_previous-Good active w r h =
      bind-Meets (λ _ v. Same p w v) (λ _ v. Good p v) (Good p) (read_previous env)
        (λ o. discard env active o >>= λ _. write_previous env none) w
        (read_previous-Good env p w h)
        (λ o v k.
          bind-Meets (λ _ u. Good p u) (λ _ u. Good p u) (Good p) (discard env active o)
            (λ _. write_previous env none) v (discard-Good active o v r k.1)
            (λ _ u m.
              Meets-mono (λ _ x. Kept u x) (λ _ x. Good p x) (Good p) (Good p)
                (write_previous env none u) (write_previous-Good none u m) (λ _ x q. q.1.1)
                (λ x q. q)))

  -- The renaming of a candidate to a name that is not the active release's.
  rename-Good :
      (from to : String) (w : World T)
      → Apart p from
      → Apart p to
      → IsDirectory (w.entries from)
      → Good p w
      → Meets (λ _ v. Good p v × IsDirectory (v.entries to)) (Good p) (rename env from to w)
  unfolding rename
  rename-Good from to w af at d h = go (w.entries from) d
    where
      go :
          (e : Option (Entry T))
          → IsDirectory e
          → Meets
              (λ _ v. Good p v × IsDirectory (v.entries to))
              (Good p)
              (rename_entry env e from to w)
      go none d = absurd d
      go (some x) d =
          branch-Meets (λ _ v. Good p v × IsDirectory (v.entries to)) (Good p) (exists to w)
            (λ v. (raised (os_error "OSError"), advance v))
            (attempt env (λ v. set_entry to (some x) (set_entry from none v))) w
            (λ _. record { same = h.same; live = h.live; fits = h.fits })
            (λ _.
              let w' = advance w in
              let h' : Good p w' = record { same = h.same; live = h.live; fits = h.fits } in
              let good =
                set_entry-Good p to (some x) (set_entry from none w') at
                  (set_entry-Good p from none w' af h') in
              attempt-Good (λ v. Good p v × IsDirectory (v.entries to))
                (λ v. set_entry to (some x) (set_entry from none v)) w h (good, rw (eq_refl to) d)
                good)

  pub promote_candidate-Good :
      (from to : String) (w : World T)
      → Apart p from
      → Apart p to
      → IsDirectory (w.entries from)
      → Good p w
      → Meets
          (λ _ v. Good p v × IsDirectory (v.entries to))
          (Good p)
          (promote_candidate env from to w)
  unfolding promote_candidate
  promote_candidate-Good from to w af at d h =
      let Q : World T → Type 0 = λ v. Good p v × IsDirectory (v.entries to) in
      bind-Meets (λ v u. (v ≡ release from) × Same p w u) (λ _ v. Q v) (Good p) (relative from)
        (λ _. relative to >>= λ _. rename env from to) w (relative-Good p from w h)
        (λ _ v k.
          bind-Meets (λ x u. (x ≡ release to) × Same p v u) (λ _ u. Q u) (Good p) (relative to)
            (λ _. rename env from to) v (relative-Good p to v k.1.1)
            (λ _ u m.
              rename-Good from to u af at
                (subst (λ (f : String → Option (Entry T)). IsDirectory (f from))
                  (sym (m.1.0 ∙ k.1.0)) d)
                m.1.1))

  attempt-Meets :
      (Q E : World T → Type 0) (f : World T → World T) (w : World T)
      → Q (f (advance w))
      → E (f (advance w))
      → E (advance w)
      → Meets (λ _ v. Q v) E (attempt env f w)
  unfolding attempt
  attempt-Meets Q E f w q e e' = ground arith

  -- The new pointer names a release that is there, and the recorded state fits it. A state that
  -- fits both pointers fits the one that is left by a failure.
  pub write_active-Good :
      (n : String) (s : UpdateState) (w : World T)
      → IsDirectory (w.entries n)
      → FitsStore (names n) w.store
      → Fits p s
      → Fits (names n) s
      → Good p w
      → Meets
          (λ _ v. IsSoundAt (names n) v)
          (λ v. IsSound v × Fits v.active s)
          (write_active env n w)
  unfolding write_active
  write_active-Good n s w d f old new h =
      let E : World T → Type 0 = λ v. IsSound v × Fits v.active s in
      bind-Meets (λ v u. (v ≡ release n) × (u ≡ w)) (λ _ v. IsSoundAt (names n) v) E (relative n)
        (λ _. attempt env (λ v. record v { active = names n })) w
        (Meets-mono (λ v u. (v ≡ release n) × (u ≡ w)) (λ v u. (v ≡ release n) × (u ≡ w))
          (λ u. u ≡ w) E (relative n w) (relative_frame p n w) (λ _ _ k. k)
          (λ u k. subst E (sym k) (sound, kept)))
        (λ _ u k.
          subst
            (λ v.
              Meets (λ _ x. IsSoundAt (names n) x) E
                (attempt env (λ x. record x { active = names n }) v))
            (sym k.1)
            (attempt-Meets (λ x. IsSoundAt (names n) x) E (λ x. record x { active = names n }) w
              (record { same = refl; live = d; fits = f }) (record { live = d; fits = f }, new)
              (record { live = sound.live; fits = sound.fits }, kept)))
    where
      sound : IsSound w
      sound = IsSoundAt-IsSound p w h

      kept : Fits w.active s
      kept = subst (λ q. Fits q s) (sym h.same) old
