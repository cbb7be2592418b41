-- ===== src/Updater/Soundness/Steps.antt =====
-- Each primitive of the machine keeps the invariant, wherever the environment lets it fail.
use mathlib.Core.Path.{subst}
use text.Mathlib.TextPositions.{eq_refl}
use pz_server.Prelude.{String, ◌≡◌, refl, false, Option, none, some, arith, str_eq, if_intro, ◌∙◌}
use pz_server.Updater.Exec.{Failure, update_error, Result, killed, try_except}
use pz_server.Updater.State.{UpdateState, release}
use pz_server.Updater.Machine.{
  Entry, directory, symlink, file, PointerFile, missing, unsafe, names, StateFile, no_state, broken,
  holds, World, Environment, advance, set_entry, attempt_read, remove_directory, remove_entry,
  ignore_errors, on_entry, remove_tree, remove_tree_quietly, on_tree,
}
use pz_server.Updater.Layout.{
  wrap_os_error, parse_store, resolve, relative, load, write, read_active, read_previous,
}
use pz_server.Updater.Soundness.Rules.{Meets, bind-Meets, try-Meets, Meets-mono, both-Meets}
use pz_server.Updater.Soundness.Invariant.{IsDirectory, IsLive, Fits, FitsStore, IsSoundAt}

-- What reading the pointer gives.
abbrev pub Reads : PointerFile → Option String → Type 0
Reads missing none = Unit
Reads missing (some _) = ⊥
Reads (unsafe _) o = ⊥
Reads (names n) none = ⊥
Reads (names n) (some m) = m ≡ n

-- A pointer that does not name `n`.
abbrev pub Apart : PointerFile → String → Type 0
Apart missing n = Unit
Apart (unsafe _) n = Unit
Apart (names m) n = str_eq n m ≡ false

module _ {T : Type 0} (p : PointerFile) where
  abbrev pub Good : World T → Type 0
  Good w = IsSoundAt p w

  -- Sound, with the same releases as `w`.
  abbrev pub Same : World T → World T → Type 0
  Same w v = (v.entries ≡ w.entries) × IsSoundAt p v

  pub raise_wrapped-Good :
      {A : Type 0} (Q : A → World T → Type 0) (message : String) (e : Failure) (w : World T)
      → Good w
      → Meets Q Good (wrap_os_error message e w)
  raise_wrapped-Good Q message (update_error _) w h = h
  raise_wrapped-Good Q message _ w h = h

  parse_store-Good :
      (st : StateFile) (w : World T)
      → FitsStore p st
      → Good w
      → Meets (λ s v. Fits p s × Same w v) Good (parse_store st w)
  unfolding parse_store
  parse_store-Good no_state w f h = ground arith
  parse_store-Good (broken _) w f h = h
  parse_store-Good (holds s) w f h = (f, (refl, h))

  pub relative-Good :
      (n : String) (w : World T)
      → Good w
      → Meets (λ v u. (v ≡ release n) × Same w u) Good (relative n w)
  unfolding relative
  relative-Good n w h = ground arith

  pub IsLive-Apart :
      (q : PointerFile) (n : String) (e : Option (Entry T)) (w : World T)
      → Apart q n
      → IsLive q w.entries
      → IsLive q (set_entry n e w).entries
  IsLive-Apart missing n e w apart h = tt
  IsLive-Apart (unsafe _) n e w apart h = tt
  IsLive-Apart (names m) n e w apart h = rw apart h

  pub relative_frame :
      (n : String) (w : World T)
      → Meets (λ v u. (v ≡ release n) × (u ≡ w)) (λ u. u ≡ w) (relative n w)
  unfolding relative
  relative_frame n w = ground arith

  IsLive-directory :
      (q : PointerFile) (n : String) (t : T) (w : World T)
      → IsLive q w.entries
      → IsLive q (set_entry n (some (directory t)) w).entries
  IsLive-directory missing n t w h = tt
  IsLive-directory (unsafe _) n t w h = tt
  IsLive-directory (names m) n t w h = if_intro IsDirectory (str_eq n m) (λ _. tt) (λ _. h)

  -- A release that is there stays there under a write of a directory.
  pub set_entry-Good :
      (n : String) (e : Option (Entry T)) (w : World T)
      → Apart p n
      → Good w
      → Good (set_entry n e w)
  set_entry-Good n e w apart h = record {
    same = h.same;
    live = IsLive-Apart p n e w apart h.live;
    fits = h.fits;
  }

module _ {T : Type 0} (env : Environment T) (p : PointerFile) where
  attempt_read-Good :
      (w : World T) → Good p w → Meets (λ _ v. Same p w v) (Good p) (attempt_read env w)
  unfolding attempt_read
  attempt_read-Good w h = ground arith

  pub write-Good :
      (s : UpdateState) (w : World T)
      → Fits p s
      → Good p w
      → Meets (λ r v. (r ≡ s) × Same p w v) (Good p) (write env s w)
  unfolding write
  write-Good s w f h = ground arith

  pub write_stored-Good :
      (s : UpdateState) (w : World T)
      → Fits p s
      → Good p w
      → Meets (λ r v. (r ≡ s) × (v.store ≡ holds s) × Same p w v) (Good p) (write env s w)
  unfolding write
  write_stored-Good s w f h = ground arith

  pub load-Good :
      (w : World T) → Good p w → Meets (λ s v. Fits p s × Same p w v) (Good p) (load env w)
  unfolding load
  load-Good w h =
      bind-Meets (λ _ v. Same p w v) (λ s v. Fits p s × Same p w v) (Good p)
        (try_except (attempt_read env) (wrap_os_error "Update state is unreadable"))
        (λ _ v. parse_store v.store v) w
        (try-Meets (λ _ v. Same p w v) (Good p) (Good p) (attempt_read env)
          (wrap_os_error "Update state is unreadable") w (attempt_read-Good w h)
          (raise_wrapped-Good p _ "Update state is unreadable"))
        (λ _ v g.
          Meets-mono (λ s u. Fits p s × Same p v u) (λ s u. Fits p s × Same p w u) (Good p) (Good p)
            (parse_store v.store v) (parse_store-Good p v.store v g.1.fits g.1)
            (λ s u k. (k.0, (k.1.0 ∙ g.0, k.1.1))) (λ u k. k))

  resolve-Good :
      (q : PointerFile) (w : World T)
      → Good p w
      → Meets (λ o v. Reads q o × Same p w v) (Good p) (resolve q w)
  unfolding resolve relative
  resolve-Good missing w h = ground arith
  resolve-Good (unsafe _) w h = ground arith
  resolve-Good (names n) w h = ground arith

  remove_directory-Good :
      (n : String) (t : T) (w : World T)
      → Apart p n
      → Good p w
      → Meets (λ _ v. Good p v) (Good p) (remove_directory env n t w)
  unfolding remove_directory
  remove_directory-Good n t w apart h = ground (
    arith,
    set_entry-Good p n none (advance w) apart,
    set_entry-Good p n (some (directory (env.torn w.step t))) (advance w) apart,
  )

  remove_entry-Good :
      (e : Option (Entry T)) (n : String) (w : World T)
      → Apart p n
      → Good p w
      → Meets (λ _ v. Good p v) (Good p) (remove_entry env e n w)
  unfolding remove_entry
  remove_entry-Good none n w apart h = ground arith
  remove_entry-Good (some (directory t)) n w apart h = remove_directory-Good n t w apart h
  remove_entry-Good (some symlink) n w apart h = ground arith
  remove_entry-Good (some file) n w apart h = ground arith

  pub remove_tree-Good :
      (n : String) (w : World T)
      → Apart p n
      → Good p w
      → Meets (λ _ v. Good p v) (Good p) (remove_tree env n w)
  unfolding remove_tree
  remove_tree-Good n w apart h = remove_entry-Good (w.entries n) n w apart h

  ignore_errors-Good :
      (e : Failure) (w : World T)
      → Good p w
      → Meets (λ _ v. Good p v) (Good p) (ignore_errors env e w)
  ignore_errors-Good killed w h = h
  ignore_errors-Good _ w h = h

  pub remove_tree_quietly-Good :
      (n : String) (w : World T)
      → Apart p n
      → Good p w
      → Meets (λ _ v. Good p v) (Good p) (remove_tree_quietly env n w)
  unfolding remove_tree_quietly
  remove_tree_quietly-Good n w apart h =
      try-Meets (λ _ v. Good p v) (Good p) (Good p) (remove_tree env n) (ignore_errors env) w
        (remove_tree-Good n w apart h) ignore_errors-Good

  on_entry-Good :
      {A : Type 0} (e : Option (Entry T)) (n : String) (call : T → Result A × T) (w : World T)
      → Good p w
      → Meets (λ _ v. Good p v × IsDirectory (v.entries n)) (Good p) (on_entry env e n call w)
  unfolding on_entry
  on_entry-Good none n call w h = ground arith
  on_entry-Good (some (directory t)) n call w h =
      let (r, t') = call t in
      let v = set_entry n (some (directory t')) (advance w) in
      let good : Good p v = record {
        same = h.same;
        live = IsLive-directory p p n t' w h.live;
        fits = h.fits;
      } in
      both-Meets (λ _ u. Good p u × IsDirectory (u.entries n)) (λ _ _. Unit) (Good p) (Good p) r v
        (λ _. (good, rw (eq_refl n) tt)) good
  on_entry-Good (some symlink) n call w h = ground arith
  on_entry-Good (some file) n call w h = ground arith

  pub on_tree-Good :
      {A : Type 0} (n : String) (call : T → Result A × T) (w : World T)
      → Good p w
      → Meets (λ _ v. Good p v × IsDirectory (v.entries n)) (Good p) (on_tree env n call w)
  unfolding on_tree
  on_tree-Good n call w h = on_entry-Good (w.entries n) n call w h

  pub read_active-Good :
      (w : World T) → Good p w → Meets (λ o v. Reads p o × Same p w v) (Good p) (read_active env w)
  unfolding read_active
  read_active-Good w h =
      bind-Meets (λ _ v. Same p w v) (λ o v. Reads p o × Same p w v) (Good p)
        (try_except (attempt_read env) (wrap_os_error "Could not read active-release"))
        (λ _ v. resolve v.active v) w
        (try-Meets (λ _ v. Same p w v) (Good p) (Good p) (attempt_read env)
          (wrap_os_error "Could not read active-release") w (attempt_read-Good w h)
          (raise_wrapped-Good p _ "Could not read active-release"))
        (λ _ v g.
          Meets-mono (λ o u. Reads v.active o × Same p v u) (λ o u. Reads p o × Same p w u) (Good p)
            (Good p) (resolve v.active v) (resolve-Good v.active v g.1)
            (λ o u k. (subst (λ q. Reads q o) g.1.same k.0, (k.1.0 ∙ g.0, k.1.1))) (λ u k. k))

  pub read_previous-Good :
      (w : World T) → Good p w → Meets (λ _ v. Same p w v) (Good p) (read_previous env w)
  unfolding read_previous
  read_previous-Good w h =
      bind-Meets (λ _ v. Same p w v) (λ o v. Same p w v) (Good p)
        (try_except (attempt_read env) (wrap_os_error "Could not read previous-release"))
        (λ _ v. resolve v.previous v) w
        (try-Meets (λ _ v. Same p w v) (Good p) (Good p) (attempt_read env)
          (wrap_os_error "Could not read previous-release") w (attempt_read-Good w h)
          (raise_wrapped-Good p _ "Could not read previous-release"))
        (λ _ v g.
          Meets-mono (λ o u. Reads v.previous o × Same p v u) (λ o u. Same p w u) (Good p) (Good p)
            (resolve v.previous v) (resolve-Good v.previous v g.1) (λ o u k. (k.1.0 ∙ g.0, k.1.1))
            (λ u k. k))
