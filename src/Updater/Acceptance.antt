-- ===== src/Updater/Acceptance.antt =====
-- When `accept` of src/pz_updater/core.py records a candidate as the current release, and what it
-- leaves alone.
pub mod Verified
use mathlib.Core.Path.{subst}
use pz_server.Prelude.{
  ℕ, String, ◌≡◌, refl, ◌⊎◌, inl, inr, Bool, true, false, not, ◌&&◌, Option, none, some, arith,
  if_intro, sym, eq_iff, ◌==◌, ◌+◌, ap, if◌then◌else◌,
}
use pz_server.Updater.Exec.{
  Failure, update_error, os_error, killed, Result, ok, raised, Exec, ◌>>=◌, ◌>>◌, pure, raise,
  try_except,
}
use pz_server.Updater.State.{
  UpdateState, StateName, Value, null, bool, release, runtime_ready, as_int, is_none, is_true,
}
use pz_server.Updater.Machine.{
  Fate, works, fails, fails_late, dies, Entry, directory, symlink, file, PointerFile, missing,
  unsafe, names, StateFile, holds, World, Environment, SteamBuildMetadata, attempt, attempt_read,
  on_entry, on_tree, read_installed_metadata,
}
use pz_server.Updater.Layout.{
  acquire, wrap_os_error, relative, resolve, parse_store, load, write, read_active, with_lock,
}
use pz_server.Updater.Recovery.{is_release}
use pz_server.Updater.Lifecycle.{
  accepted, is_runtime_ready, is_int, verify_build, verify_release, verify_candidate_active,
  write_acceptance, complete_acceptance, accept_state, accept,
}
use pz_server.Updater.Soundness.Rules.{Meets, bind-Meets, try-Meets, Meets-mono, branch-Meets}
use pz_server.Updater.Acceptance.Verified.{
  IsSelected, Kept, Untouched, verify_candidate_active-Kept, load-Untouched, acquire-Untouched,
}

-- `r` records the candidate of `s` as the current release.
abbrev pub Accepts : UpdateState → UpdateState → Type 0
Accepts s r =
    (r.state ≡ StateName.current)
    × (r.current_build ≡ s.candidate_build)
    × (r.candidate_build ≡ null)
    × (r.candidate_release ≡ null)
    × (r.promoted_release ≡ null)
    × (r.blocked_build ≡ null)
    × (r.world_opened ≡ bool true)
    × (r.previous_release ≡ s.previous_release)
    × (r.previous_build ≡ s.previous_build)

module _ {T : Type 0} (env : Environment T) (s : UpdateState) (p q : PointerFile)
    (f : String → Option (Entry T)) where
  -- The candidate has been run, and its release is the active one, with the manifest of its build.
  abbrev pub IsReady : Type 0
  IsReady = (s.state ≡ runtime_ready) × (s.world_opened ≡ bool true) × (IsSelected env s p q f)

  -- What `accept` has done where it returns `r`, and where it raises.
  abbrev pub Returned : UpdateState → World T → Type 0
  Returned r v =
      (v.active ≡ p)
      × (v.previous ≡ q)
      × (v.store ≡ holds r)
      × (((r ≡ s) × (s.state ≡ runtime_ready → ⊥)) ⊎ (IsReady × Accepts s r))

  abbrev pub Raised : World T → Type 0
  Raised v =
      (v.active ≡ p)
      × (v.previous ≡ q)
      × ((v.store ≡ holds s) ⊎ ((r : UpdateState) × (v.store ≡ holds r) × IsReady × Accepts s r))

  Untouched-Raised : (v : World T) → (Untouched env s p q f) v → Raised v
  Untouched-Raised v h = (h.1, h.2, inl h.0)

  Kept-Raised : (v : World T) → (Kept env s p q f) v → Raised v
  Kept-Raised v h = (h.1, h.2, inl h.0)

  wrapped-Raised :
      {A : Type 0} (Q : A → World T → Type 0) (message : String) (e : Failure) (w : World T)
      → Raised w
      → Meets Q Raised (wrap_os_error message e w)
  wrapped-Raised Q message (update_error _) w h = h
  wrapped-Raised Q message _ w h = h

  abbrev Wrote : UpdateState → World T → Type 0
  Wrote r v = (v.store ≡ holds r) × (v.active ≡ p) × (v.previous ≡ q)

  attempt-Wrote :
      (r : UpdateState) (w : World T)
      → IsReady
      → Accepts s r
      → (Kept env s p q f) w
      → Meets
          (λ (_ : Unit {0}) v. Wrote r v)
          Raised
          (attempt env (λ w. record w { store = holds r }) w)
  unfolding attempt
  attempt-Wrote r w h a k = go (env.fate w.step)
    where
      v : World T
      v = record w { step = w.step + 1; store = holds r }

      go :
          (fate : Fate)
          → Meets
              (λ (_ : Unit {0}) v. Wrote r v)
              Raised
              (elim fate as (λ _. Result (Unit {0}) × World T) [
                | works ↦ (ok tt, v)
                | fails ↦ (raised (os_error "OSError"), record w { step = w.step + 1 })
                | fails_late ↦ (raised (os_error "OSError"), v)
                | dies ↦ (raised killed, record w { step = w.step + 1 })
              ])
      go works = (refl, k.1, k.2)
      go fails = (k.1, k.2, inl k.0)
      go fails_late = (k.1, k.2, inr (r, refl, h, a))
      go dies = (k.1, k.2, inl k.0)

  write-Returned :
      (r : UpdateState) (w : World T)
      → IsReady
      → Accepts s r
      → (Kept env s p q f) w
      → Meets Returned Raised (write env r w)
  unfolding write
  write-Returned r w h a k =
      let call = attempt env (λ w. record w { store = holds r }) in
      bind-Meets (λ _ v. Wrote r v) Returned Raised
        (try_except call (wrap_os_error "Could not persist update state")) (λ _. pure r) w
        (try-Meets (λ _ v. Wrote r v) Raised Raised call
          (wrap_os_error "Could not persist update state") w (attempt-Wrote r w h a k)
          (wrapped-Raised (λ _ v. Wrote r v) "Could not persist update state"))
        (λ _ v m. (m.1, m.2, m.0, inr (h, a)))

  write_acceptance-Returned :
      (w : World T)
      → IsReady
      → (Kept env s p q f) w
      → Meets Returned Raised (write_acceptance env s w)
  unfolding write_acceptance
  write_acceptance-Returned w h k =
      write-Returned (accepted (env.now w.step) s) w h
        (refl, refl, refl, refl, refl, refl, refl, refl, refl) k

  complete_acceptance-Returned :
      (w : World T)
      → IsReady
      → (Kept env s p q f) w
      → Meets Returned Raised (complete_acceptance env s w)
  unfolding complete_acceptance
  complete_acceptance-Returned w h k =
      branch-Meets Returned Raised
        (not (is_none s.previous_build) && not (is_int env s.previous_build)) _ _ w
        (λ _. Kept-Raised w k)
        (λ _.
          branch-Meets Returned Raised (not (is_int env s.candidate_build)) _ _ w
            (λ _. Kept-Raised w k) (λ _. write_acceptance-Returned w h k))

  is_ready : (n : StateName) → is_runtime_ready n ≡ true → n ≡ runtime_ready
  is_ready runtime_ready h = refl
  is_ready _ h = cc

  is_opened : (v : Value) → is_true v ≡ true → v ≡ bool true
  is_opened (bool b) h = ap bool h
  is_opened _ h = cc

  accept_state-Returned :
      (w : World T) → (Untouched env s p q f) w → Meets Returned Raised (accept_state env s w)
  unfolding accept_state
  accept_state-Returned w h =
      branch-Meets Returned Raised (not (is_runtime_ready s.state)) _ _ w
        (λ t. (h.1, h.2, h.0, inl (refl, λ e. ground arith)))
        (λ t.
          branch-Meets Returned Raised (not (is_true s.world_opened)) _ _ w
            (λ _. Untouched-Raised w h)
            (λ o.
              bind-Meets (λ _ v. (IsSelected env s p q f) × (Kept env s p q f) v) Returned Raised
                (verify_candidate_active env s) (λ _. complete_acceptance env s) w
                (Meets-mono (λ _ v. (IsSelected env s p q f) × (Kept env s p q f) v)
                  (λ _ v. (IsSelected env s p q f) × (Kept env s p q f) v) (Kept env s p q f) Raised
                  (verify_candidate_active env s w) ((verify_candidate_active-Kept env s p q f) w h)
                  (λ _ _ k. k) Kept-Raised)
                (λ _ v k.
                  complete_acceptance-Returned v
                    (is_ready s.state (ground arith), is_opened s.world_opened (ground arith), k.0)
                    k.1)))

  transaction-Returned :
      (w : World T) → (Untouched env s p q f) w → Meets Returned Raised (accept env w)
  unfolding accept with_lock
  transaction-Returned w h =
      bind-Meets (λ _ v. (Untouched env s p q f) v) Returned Raised (acquire env)
        (λ _. load env >>= accept_state env) w
        (Meets-mono (λ _ v. (Untouched env s p q f) v) (λ _ v. (Untouched env s p q f) v)
          (Untouched env s p q f) Raised (acquire env w) ((acquire-Untouched env s p q f) w h)
          (λ _ _ k. k) Untouched-Raised)
        (λ _ v k.
          bind-Meets (λ r u. (r ≡ s) × (Untouched env s p q f) u) Returned Raised (load env)
            (accept_state env) v
            (Meets-mono (λ r u. (r ≡ s) × (Untouched env s p q f) u)
              (λ r u. (r ≡ s) × (Untouched env s p q f) u) (Untouched env s p q f) Raised
              (load env v) ((load-Untouched env s p q f) v k) (λ _ _ m. m) Untouched-Raised)
            (λ r u m.
              subst (λ x. Meets Returned Raised (accept_state env x u)) (sym m.0)
                (accept_state-Returned u m.1)))

-- `accept` of a recorded state, whatever its steps meet, leaves both pointers alone. Where it
-- returns, the state that it returns is recorded: it is the recorded one, which was not
-- runtime-ready, or it is that of a candidate that has become the current release. Where it raises,
-- or the process ends, the recorded state is as it was, or has become such a state. A candidate
-- becomes the current release only if its state was runtime-ready, with the world opened, and the
-- active release is its own, is there, and holds a manifest with the candidate's build.
pub accept-Accepts :
    {T : Type 0} (env : Environment T) (s : UpdateState) (w : World T)
    → w.store ≡ holds s
    → Meets
        (Returned env s w.active w.previous w.entries)
        (Raised env s w.active w.previous w.entries)
        (accept env w)
accept-Accepts env s w h =
    transaction-Returned env s w.active w.previous w.entries w (h, refl, refl, refl)
