-- ===== src/Updater/Acceptance/Verified.antt =====
-- The reads of src/pz_updater/core.py that come before an acceptance: they change nothing, and
-- `_verify_candidate_active` shows which release is selected.
use mathlib.Core.Path.{subst}
use pz_server.Prelude.{
  ℕ, String, ◌≡◌, refl, true, Option, none, some, arith, sym, eq_iff, ◌==◌, ap, if◌then◌else◌,
}
use pz_server.Updater.Exec.{
  Failure, update_error, Result, ok, raised, Exec, ◌>>=◌, raise, try_except,
}
use pz_server.Updater.State.{UpdateState, Value, release, as_int}
use pz_server.Updater.Machine.{
  Entry, directory, symlink, file, PointerFile, missing, unsafe, names, holds, World, Environment,
  SteamBuildMetadata, attempt, attempt_read, on_entry, on_tree, read_installed_metadata,
}
use pz_server.Updater.Layout.{
  acquire, wrap_os_error, relative, resolve, parse_store, load, read_active,
}
use pz_server.Updater.Recovery.{is_release}
use pz_server.Updater.Lifecycle.{verify_build, verify_release, verify_candidate_active}
use pz_server.Updater.Soundness.Rules.{Meets, bind-Meets, try-Meets, Meets-mono, branch-Meets}

-- What a pointer that can be read gives.
abbrev Reads : PointerFile → Option String → Type 0
Reads p none = Unit
Reads p (some n) = p ≡ names n

module _ {T : Type 0} (env : Environment T) (s : UpdateState) (p q : PointerFile)
    (f : String → Option (Entry T)) where
  -- The state and the pointers are as they were, and so are the releases.
  abbrev pub Kept : World T → Type 0
  Kept v = (v.store ≡ holds s) × (v.active ≡ p) × (v.previous ≡ q)

  abbrev pub Untouched : World T → Type 0
  Untouched v = (v.store ≡ holds s) × (v.active ≡ p) × (v.previous ≡ q) × (v.entries ≡ f)

  -- The active release is the candidate's, is there, and holds a manifest with its build.
  abbrev pub IsSelected : Type 0
  IsSelected =
      (n : String) × (t : T) × (k : ℕ) × (m : SteamBuildMetadata) × (p ≡ names n)
      × (f n ≡ some (directory t))
      × (s.candidate_release ≡ release n)
      × (as_int s.candidate_build ≡ some m.build_id)
      × (env.read_metadata k t ≡ ok m)

  attempt_read-Untouched :
      (w : World T) → Untouched w → Meets (λ _ v. Untouched v) Untouched (attempt_read env w)
  unfolding attempt_read
  attempt_read-Untouched w h = ground arith

  wrapped-Untouched :
      {A : Type 0} (Q : A → World T → Type 0) (message : String) (e : Failure) (w : World T)
      → Untouched w
      → Meets Q Untouched (wrap_os_error message e w)
  wrapped-Untouched Q message (update_error _) w h = h
  wrapped-Untouched Q message _ w h = h

  read-Untouched :
      {A : Type 0} (Q : A → World T → Type 0) (message : String) (g : World T → Result A × World T)
      (w : World T)
      → Untouched w
      → ((v : World T) → Untouched v → Meets Q Untouched (g v))
      → Meets Q Untouched ((try_except (attempt_read env) (wrap_os_error message) >>= λ _ v. g v) w)
  read-Untouched Q message g w h k =
      bind-Meets (λ _ v. Untouched v) Q Untouched
        (try_except (attempt_read env) (wrap_os_error message)) (λ _ v. g v) w
        (try-Meets (λ _ v. Untouched v) Untouched Untouched (attempt_read env)
          (wrap_os_error message) w (attempt_read-Untouched w h)
          (wrapped-Untouched (λ _ v. Untouched v) message))
        (λ _ v m. k v m)

  pub load-Untouched :
      (w : World T) → Untouched w → Meets (λ r v. (r ≡ s) × Untouched v) Untouched (load env w)
  unfolding load parse_store
  load-Untouched w h =
      read-Untouched (λ r v. (r ≡ s) × Untouched v) "Update state is unreadable"
        (λ v. parse_store v.store v) w h
        (λ v k.
          subst (λ t. Meets (λ r v. (r ≡ s) × Untouched v) Untouched (parse_store t v)) (sym k.0)
            (refl, k))

  resolve-Untouched :
      (o : PointerFile) (w : World T)
      → Untouched w
      → Meets (λ a v. Reads o a × Untouched v) Untouched (resolve o w)
  unfolding resolve relative
  resolve-Untouched missing w h = ground arith
  resolve-Untouched (unsafe _) w h = ground arith
  resolve-Untouched (names n) w h = ground arith

  read_active-Untouched :
      (w : World T)
      → Untouched w
      → Meets (λ a v. Reads p a × Untouched v) Untouched (read_active env w)
  unfolding read_active
  read_active-Untouched w h =
      read-Untouched (λ a v. Reads p a × Untouched v) "Could not read active-release"
        (λ v. resolve v.active v) w h
        (λ v k.
          subst (λ o. Meets (λ a v. Reads p a × Untouched v) Untouched (resolve o v)) (sym k.1)
            (resolve-Untouched p v k))

  pub acquire-Untouched :
      (w : World T) → Untouched w → Meets (λ _ v. Untouched v) Untouched (acquire env w)
  unfolding acquire attempt
  acquire-Untouched w h = ground arith

  -- The manifest of the release, where it is read, is that of its tree.
  read_metadata-Kept :
      (n : String) (e : Option (Entry T)) (w : World T)
      → Untouched w
      → Meets
          (λ m v.
            ((t : T) × (e ≡ some (directory t)) × (env.read_metadata w.step t ≡ ok m)) × Kept v)
          Kept
          (on_entry env e n (λ t. (env.read_metadata w.step t, t)) w)
  unfolding on_entry
  read_metadata-Kept n none w h = (h.0, h.1, h.2)
  read_metadata-Kept n (some symlink) w h = (h.0, h.1, h.2)
  read_metadata-Kept n (some file) w h = (h.0, h.1, h.2)
  read_metadata-Kept n (some (directory t)) w h = go (env.read_metadata w.step t) refl
    where
      go :
          (r : Result SteamBuildMetadata)
          → env.read_metadata w.step t ≡ r
          → Meets
              (λ m (v : World T).
                ((u : T) × (some (directory t) ≡ some (directory u))
                  × (env.read_metadata w.step u ≡ ok m))
                × Kept v)
              Kept
              (r, (on_entry env (some (directory t)) n (λ t. (env.read_metadata w.step t, t)) w).1)
      go (ok m) e = ((t, refl, e), (h.0, h.1, h.2))
      go (raised x) e = (h.0, h.1, h.2)

  release_of : (v : Value) (n : String) → is_release v n ≡ true → v ≡ release n
  release_of (release m) n h = ap release ((eq_iff m n).0 h)
  release_of _ n h = cc

  verify_release-Kept :
      (o : Option String) (w : World T)
      → Reads p o
      → Untouched w
      → Meets (λ _ v. IsSelected × Kept v) Kept (verify_release env s o w)
  unfolding verify_release verify_build on_tree
  verify_release-Kept none w r h = (h.0, h.1, h.2)
  verify_release-Kept (some n) w r h = go (as_int s.candidate_build) refl
    where
      Q : Unit {0} → World T → Type 0
      Q _ v = IsSelected × Kept v

      go :
          (o : Option ℕ)
          → as_int s.candidate_build ≡ o
          → Meets
              (λ _ v. IsSelected × Kept v)
              Kept
              ((elim o as (λ _. Exec (World T) (Unit {0})) [
                | none ↦
                    raise (update_error "Candidate state does not match the active release pointer")
                | some expected ↦
                    if is_release s.candidate_release n
                    then read_installed_metadata env n >>= verify_build env expected
                    else raise
                        (update_error "Candidate state does not match the active release pointer")
              ])
                w)
      go none e = (h.0, h.1, h.2)
      go (some b) e =
          branch-Meets (λ _ v. IsSelected × Kept v) Kept (is_release s.candidate_release n) _ _ w
            (λ c.
              bind-Meets
                (λ m v.
                  ((t : T) × (w.entries n ≡ some (directory t))
                    × (env.read_metadata w.step t ≡ ok m))
                  × Kept v)
                (λ _ v. IsSelected × Kept v) Kept (read_installed_metadata env n)
                (verify_build env b) w (read_metadata-Kept n (w.entries n) w h)
                (λ m v ((t, there, read), k).
                  branch-Meets (λ _ v. IsSelected × Kept v) Kept (m.build_id == b) _ _ v
                    (λ same. (
                      (
                        n,
                        t,
                        w.step,
                        m,
                        r,
                        subst (λ g. g n ≡ some (directory t)) h.3 there,
                        release_of s.candidate_release n c,
                        grind arith,
                        read,
                      ),
                      k,
                    ))
                    (λ _. k)))
            (λ _. (h.0, h.1, h.2))

  pub verify_candidate_active-Kept :
      (w : World T)
      → Untouched w
      → Meets (λ _ v. IsSelected × Kept v) Kept (verify_candidate_active env s w)
  unfolding verify_candidate_active
  verify_candidate_active-Kept w h =
      bind-Meets (λ a v. Reads p a × Untouched v) (λ _ v. IsSelected × Kept v) Kept
        (read_active env) (verify_release env s) w
        (Meets-mono (λ a v. Reads p a × Untouched v) (λ a v. Reads p a × Untouched v) Untouched Kept
          (read_active env w) (read_active-Untouched w h) (λ _ _ k. k) (λ v k. (k.0, k.1, k.2)))
        (λ o v k. verify_release-Kept o v k.0 k.1)
