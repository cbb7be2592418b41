-- ===== src/Updater/Committed.antt =====
-- A committed candidate (src/pz_updater/core.py), one that awaits the world or has touched it, is
-- kept: the updater neither returns to the previous release nor installs another one.
use mathlib.Core.Path.{subst}
use pz_server.Prelude.{
  String, ◌≡◌, refl, Bool, true, false, Option, none, some, arith, if_intro, sym,
}
use pz_server.Updater.Exec.{Failure, update_error, Result, Exec, ◌>>=◌, ◌>>◌, pure, try_except}
use pz_server.Updater.State.{UpdateState, StateName, is_unhashable}
use pz_server.Updater.Machine.{
  Entry, directory, symlink, file, PointerFile, missing, unsafe, names, holds, World, Environment,
  advance, set_entry, attempt, attempt_read, on_entry, on_tree, consult, prepare_launcher,
}
use pz_server.Updater.Layout.{
  acquire, wrap_os_error, relative, resolve, parse_store, load, read_active, ensure, with_lock,
}
use pz_server.Updater.Recovery.{is_staging, is_activating, recover_activation, recover_interrupted}
use pz_server.Updater.Update.{Configuration}
use pz_server.Updater.Start.{
  is_committed, is_candidate_state, resume, start_selected, start_recovered, prepare_start,
  refuse_pending, refuse_candidate, update_active, update_allowed, update_recovered,
  explicit_update,
}
use pz_server.Updater.Soundness.Rules.{Meets, bind-Meets, try-Meets, both-Meets, branch-Meets}

module _ {T : Type 0} (env : Environment T) (s : UpdateState) (p q : PointerFile) where
  -- The state is recorded, and the pointers are as they were.
  abbrev pub Kept : World T → Type 0
  Kept v = (v.store ≡ holds s) × (v.active ≡ p) × (v.previous ≡ q)

  abbrev Keeps : {A : Type 0} → Result A × World T → Type 0
  Keeps r = Meets (λ _ v. Kept v) Kept r

  attempt_read-Keeps : (w : World T) → Kept w → Keeps (attempt_read env w)
  unfolding attempt_read
  attempt_read-Keeps w h = ground arith

  attempt-Keeps : (w : World T) → Kept w → Keeps (attempt env (λ v. v) w)
  unfolding attempt
  attempt-Keeps w h = ground arith

  raise_wrapped-Keeps :
      {A : Type 0} (Q : A → World T → Type 0) (message : String) (e : Failure) (w : World T)
      → Kept w
      → Meets Q Kept (wrap_os_error message e w)
  raise_wrapped-Keeps Q message (update_error _) w h = h
  raise_wrapped-Keeps Q message _ w h = h

  read-Keeps :
      {A : Type 0} (Q : A → World T → Type 0) (message : String) (f : World T → Result A × World T)
      (w : World T)
      → Kept w
      → ((v : World T) → Kept v → Meets Q Kept (f v))
      → Meets Q Kept ((try_except (attempt_read env) (wrap_os_error message) >>= λ _ v. f v) w)
  read-Keeps Q message f w h k =
      bind-Meets (λ _ v. Kept v) Q Kept (try_except (attempt_read env) (wrap_os_error message))
        (λ _ v. f v) w
        (try-Meets (λ _ v. Kept v) Kept Kept (attempt_read env) (wrap_os_error message) w
          (attempt_read-Keeps w h) (raise_wrapped-Keeps (λ _ v. Kept v) message))
        (λ _ v m. k v m)

  load-Keeps : (w : World T) → Kept w → Meets (λ r v. (r ≡ s) × Kept v) Kept (load env w)
  unfolding load parse_store
  load-Keeps w h =
      read-Keeps (λ r v. (r ≡ s) × Kept v) "Update state is unreadable" (λ v. parse_store v.store v)
        w h
        (λ v k.
          subst (λ t. Meets (λ r v. (r ≡ s) × Kept v) Kept (parse_store t v)) (sym k.0) (refl, k))

  resolve-Keeps : (o : PointerFile) (w : World T) → Kept w → Keeps (resolve o w)
  unfolding resolve relative
  resolve-Keeps missing w h = ground arith
  resolve-Keeps (unsafe _) w h = ground arith
  resolve-Keeps (names n) w h = ground arith

  read_active-Keeps : (w : World T) → Kept w → Keeps (read_active env w)
  unfolding read_active
  read_active-Keeps w h =
      read-Keeps (λ _ v. Kept v) "Could not read active-release" (λ v. resolve v.active v) w h
        (λ v k. resolve-Keeps v.active v k)

  ensure-Keeps : (w : World T) → Kept w → Keeps (ensure env w)
  unfolding ensure
  ensure-Keeps w h =
      let K = λ (_ : Unit {0}) (v : World T). Kept v in
      bind-Meets K (λ _ v. Kept v) Kept (attempt env (λ v. v)) _ w (attempt-Keeps w h)
        (λ _ v k.
          bind-Meets K (λ _ u. Kept u) Kept (attempt env (λ u. u)) _ v (attempt-Keeps v k)
            (λ _ u m. read_active-Keeps u m))

  on_entry-Keeps :
      {A : Type 0} (e : Option (Entry T)) (n : String) (call : T → Result A × T) (w : World T)
      → Kept w
      → Keeps (on_entry env e n call w)
  unfolding on_entry
  on_entry-Keeps none n call w h = h
  on_entry-Keeps (some (directory t)) n call w h =
      let (r, t') = call t in
      both-Meets (λ _ v. Kept v) (λ _ _. Unit) Kept Kept r
        (set_entry n (some (directory t')) (advance w)) (λ _. h) h
  on_entry-Keeps (some symlink) n call w h = h
  on_entry-Keeps (some file) n call w h = h

  -- Recovery has nothing to do for a committed candidate.
  recover_interrupted-Keeps :
      (w : World T)
      → is_committed s.state ≡ true
      → Kept w
      → Meets (λ r v. (r ≡ s) × Kept v) Kept (recover_interrupted env s w)
  unfolding recover_interrupted recover_activation
  recover_interrupted-Keeps w c h =
      branch-Meets (λ r v. (r ≡ s) × Kept v) Kept (is_unhashable s.state) _ _ w (λ _. h)
        (λ _.
          branch-Meets (λ r v. (r ≡ s) × Kept v) Kept (is_staging s.state) _ _ w
            (λ t. absurd (not_staging s.state c t))
            (λ _.
              branch-Meets (λ r v. (r ≡ s) × Kept v) Kept (is_activating s.state) _ _ w
                (λ t. absurd (not_activating s.state c t)) (λ _. (refl, h))))
    where
      not_staging : (n : StateName) → is_committed n ≡ true → is_staging n ≡ true → ⊥
      not_staging n c t = ground arith

      not_activating : (n : StateName) → is_committed n ≡ true → is_activating n ≡ true → ⊥
      not_activating n c t = ground arith

  resume-Keeps :
      (c : Configuration) (o : Option String) (w : World T)
      → Kept w
      → Meets (λ r v. (r ≡ s) × Kept v) Kept (resume env c s o w)
  unfolding resume on_tree
  resume-Keeps c none w h = h
  resume-Keeps c (some n) w h =
      bind-Meets (λ _ v. Kept v) (λ r v. (r ≡ s) × Kept v) Kept (prepare_launcher env n)
        (λ _. pure s) w (on_entry-Keeps (w.entries n) n (env.prepare w.step) w h)
        (λ _ _ k. (refl, k))

  start_recovered-Keeps :
      (c : Configuration) (w : World T)
      → is_committed s.state ≡ true
      → Kept w
      → Meets (λ r v. (r ≡ s) × Kept v) Kept (start_recovered env c s w)
  unfolding start_recovered start_selected
  start_recovered-Keeps c w d h =
      bind-Meets (λ _ v. Kept v) (λ r v. (r ≡ s) × Kept v) Kept (read_active env)
        (start_selected env c s) w (read_active-Keeps w h)
        (λ o v k.
          branch-Meets (λ r v. (r ≡ s) × Kept v) Kept (is_committed s.state) (resume env c s o) _ v
            (λ _. resume-Keeps c o v k) (λ n. absurd (cc (d, n))))

  acquire-Keeps : (w : World T) → Kept w → Keeps (acquire env w)
  unfolding acquire
  acquire-Keeps w h =
      bind-Meets (λ (_ : Unit {0}) v. Kept v) (λ _ v. Kept v) Kept (attempt env (λ v. v)) _ w
        (attempt-Keeps w h)
        (λ _ v k.
          if_intro (Meets (λ (_ : Unit {0}) u. Kept u) Kept) (env.lock_free v.step) (λ _. k)
            (λ _. k))

  -- A transaction begins with the recovery.
  transaction-Keeps :
      {A : Type 0} (Q : A → World T → Type 0) (f : UpdateState → Exec (World T) A) (w : World T)
      → is_committed s.state ≡ true
      → Kept w
      → ((v : World T) → Kept v → Meets Q Kept (f s v))
      → Meets Q Kept (with_lock env (load env >>= λ stored. recover_interrupted env stored >>= f) w)
  unfolding with_lock
  transaction-Keeps Q f w c h k =
      bind-Meets (λ (_ : Unit {0}) v. Kept v) Q Kept (acquire env)
        (λ _. load env >>= λ stored. recover_interrupted env stored >>= f) w (acquire-Keeps w h)
        (λ _ u g.
          bind-Meets (λ r v. (r ≡ s) × Kept v) Q Kept (load env)
            (λ stored. recover_interrupted env stored >>= f) u (load-Keeps u g)
            (λ r v m.
              subst (λ t. Meets Q Kept ((recover_interrupted env t >>= f) v)) (sym m.0)
                (bind-Meets (λ r v. (r ≡ s) × Kept v) Q Kept (recover_interrupted env s) f v
                  (recover_interrupted-Keeps v c m.1)
                  (λ t u n. subst (λ t. Meets Q Kept (f t u)) (sym n.0) (k u n.1)))))

  update_allowed-Keeps :
      (c : Configuration) (validate : Bool) (w : World T)
      → is_committed s.state ≡ true
      → Kept w
      → Meets (λ _ _. ⊥) Kept (update_allowed env c validate w)
  unfolding update_allowed
  update_allowed-Keeps c validate w d h =
      bind-Meets (λ _ v. Kept v) (λ _ _. ⊥) Kept (ensure env)
        (λ active.
          load env >>= λ r. refuse_candidate env c r >> update_active env c validate active r)
        w (ensure-Keeps w h)
        (λ active v k.
          bind-Meets (λ r v. (r ≡ s) × Kept v) (λ _ _. ⊥) Kept (load env)
            (λ r. refuse_candidate env c r >> update_active env c validate active r) v
            (load-Keeps v k)
            (λ r u m.
              bind-Meets (λ _ _. ⊥) (λ _ _. ⊥) Kept (refuse_candidate env c r)
                (λ _. update_active env c validate active r) u
                (branch-Meets (λ _ _. ⊥) Kept (is_candidate_state r.state) _ _ u (λ _. m.1)
                  (λ n.
                    no_candidate r.state (subst (λ t. is_committed t.state ≡ true) (sym m.0) d) n))
                (λ _ _ n. absurd n)))
    where
      no_candidate : (n : StateName) → is_committed n ≡ true → is_candidate_state n ≡ false → ⊥
      no_candidate n c t = ground arith

  update_recovered-Keeps :
      (c : Configuration) (validate : Bool) (w : World T)
      → is_committed s.state ≡ true
      → Kept w
      → Meets (λ _ _. ⊥) Kept (update_recovered env c validate w)
  unfolding update_recovered
  update_recovered-Keeps c validate w d h =
      bind-Meets (λ (_ : Bool) v. Kept v) (λ _ _. ⊥) Kept (consult env env.deployment_pending)
        (λ pending. refuse_pending env c pending >> update_allowed env c validate) w h
        (λ pending v k.
          bind-Meets (λ _ u. Kept u) (λ _ _. ⊥) Kept (refuse_pending env c pending)
            (λ _. update_allowed env c validate) v
            (branch-Meets (λ _ u. Kept u) Kept pending _ _ v (λ _. k) (λ _. k))
            (λ _ u m. update_allowed-Keeps c validate u d m))

module _ {T : Type 0} (env : Environment T) (c : Configuration) where
  -- While the recorded state is committed, `prepare_start` never falls back and never installs:
  -- where it returns, it returns the recorded state, and then as after every exception and every
  -- end of the process the recorded state and both pointers are as they were.
  pub prepare_start-Kept :
      (s : UpdateState) (w : World T)
      → w.store ≡ holds s
      → is_committed s.state ≡ true
      → Meets
          (λ r v. (r ≡ s) × Kept env s w.active w.previous v)
          (Kept env s w.active w.previous)
          (prepare_start env c w)
  unfolding prepare_start
  prepare_start-Kept s w e d =
      let K = Kept env s w.active w.previous in
      transaction-Keeps env s w.active w.previous (λ r v. (r ≡ s) × K v) (start_recovered env c) w d
        (e, refl, refl) (λ v k. start_recovered-Keeps env s w.active w.previous c v d k)

  -- While the recorded state is committed, `explicit_update` raises an exception, or the process
  -- ends, and the recorded state and both pointers are as they were.
  pub explicit_update-Kept :
      (validate : Bool) (s : UpdateState) (w : World T)
      → w.store ≡ holds s
      → is_committed s.state ≡ true
      → Meets (λ _ _. ⊥) (Kept env s w.active w.previous) (explicit_update env c validate w)
  unfolding explicit_update
  explicit_update-Kept validate s w e d =
      transaction-Keeps env s w.active w.previous (λ _ _. ⊥) (λ _. update_recovered env c validate)
        w d (e, refl, refl)
        (λ v k. update_recovered-Keeps env s w.active w.previous c validate v d k)
