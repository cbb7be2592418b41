-- ===== src/Updater/Soundness/Operations.antt =====
-- The operations of a candidate's life (src/pz_updater/core.py) keep the invariant, whatever the
-- environment does: each of their steps may fail, and the process may end at it.
use pz_server.Prelude.{
  ℕ, String, ◌≡◌, refl, Bool, true, false, not, ◌&&◌, Option, none, some, arith, str_eq, if_intro,
  if◌then◌else◌, ◌==◌,
}
use pz_server.Updater.Exec.{update_error, Result, ok, raised, Exec, ◌>>=◌, ◌>>◌, pure, raise}
use pz_server.Updater.State.{
  UpdateState, StateName, is_unhashable, as_int, is_none, is_true, pending_readiness,
  starting_candidate, runtime_ready,
}
use pz_server.Updater.Machine.{
  attempt, PointerFile, World, Environment, SteamBuildMetadata, read_installed_metadata,
}
use pz_server.Updater.Layout.{acquire, load, write, read_active, with_lock}
use pz_server.Updater.Recovery.{is_release}
use pz_server.Updater.Update.{Configuration}
use pz_server.Updater.Lifecycle.{
  awaits_world, awaits_acceptance, is_current, is_runtime_ready, is_int, opened, described,
  ready_state, unready, become_ready, verify_build, verify_release, verify_candidate_active,
  write_acceptance, complete_acceptance, mark_opened, mark_world_opened, mark_ready,
  mark_runtime_ready, accept_state, accept, fail_state, fail_readiness,
}
use pz_server.Updater.Soundness.Rules.{Meets, bind-Meets, Meets-mono, branch-Meets}
use pz_server.Updater.Soundness.Invariant.{
  IsSound, IsSoundAt-IsSound, IsSound-IsSoundAt, Fits, FitsName, IsDirectory, selects,
}
use pz_server.Updater.Soundness.Steps.{
  Good, Same, write-Good, load-Good, on_tree-Good, read_active-Good, Reads,
}
use pz_server.Updater.Soundness.Pointers.{attempt-Good}
use pz_server.Updater.Soundness.Recover.{selects_null}

module _ {T : Type 0} (env : Environment T) where
  -- Sound after a return, and after an exception.
  abbrev pub Ends : {A : Type 0} → Result A × World T → Type 0
  Ends r = Meets (λ _ v. IsSound v) (λ v. IsSound v) r

  pub Ends-IsSound : {A : Type 0} (r : Result A × World T) → Ends r → IsSound r.1
  Ends-IsSound (ok _, v) h = h
  Ends-IsSound (raised _, v) h = h

  acquire-Good :
      (p : PointerFile) (w : World T) → Good p w → Meets (λ _ v. Good p v) (Good p) (acquire env w)
  unfolding acquire
  acquire-Good p w h =
      bind-Meets (λ _ v. Good p v) (λ _ v. Good p v) (Good p) (attempt env (λ v. v)) _ w
        (attempt-Good env p (Good p) (λ v. v) w h
          (record { same = h.same; live = h.live; fits = h.fits })
          (record { same = h.same; live = h.live; fits = h.fits }))
        (λ _ v k.
          if_intro (Meets (λ _ u. Good p u) (Good p)) (env.lock_free v.step)
            (λ _. record { same = k.same; live = k.live; fits = k.fits })
            (λ _. record { same = k.same; live = k.live; fits = k.fits }))

  pub with_lock-Ends :
      {A : Type 0} (m : Exec (World T) A) (w : World T)
      → IsSound w
      → ((v : World T) → Good w.active v → Ends (m v))
      → Ends (with_lock env m w)
  unfolding with_lock
  with_lock-Ends m w h k =
      let p = w.active in
      bind-Meets (λ _ v. Good p v) (λ _ v. IsSound v) (λ v. IsSound v) (acquire env) (λ _. m) w
        (Meets-mono (λ _ v. Good p v) (λ _ v. Good p v) (Good p) (λ v. IsSound v) (acquire env w)
          (acquire-Good p w (IsSound-IsSoundAt w h)) (λ _ _ q. q) (λ v q. IsSoundAt-IsSound p v q))
        (λ _ v q. k v q)

  module _ (p : PointerFile) where
    abbrev pub Goes : {A : Type 0} → Result A × World T → Type 0
    Goes r = Meets (λ _ v. Good p v) (Good p) r

    pub Goes-Ends : {A : Type 0} (r : Result A × World T) → Goes r → Ends r
    Goes-Ends r h =
        Meets-mono (λ _ v. Good p v) (λ _ v. IsSound v) (Good p) (λ v. IsSound v) r h
          (λ _ v k. IsSoundAt-IsSound p v k) (λ v k. IsSoundAt-IsSound p v k)

    pub read_metadata-Good :
        {A : Type 0} (n : String) (f : SteamBuildMetadata → Exec (World T) A) (w : World T)
        → Good p w
        → ((m : SteamBuildMetadata) (v : World T) → Good p v → Goes (f m v))
        → Goes ((read_installed_metadata env n >>= f) w)
    read_metadata-Good n f w h k =
        bind-Meets (λ _ v. Good p v × IsDirectory (v.entries n)) (λ _ v. Good p v) (Good p)
          (read_installed_metadata env n) f w
          (on_tree-Good env p n (λ t. (env.read_metadata w.step t, t)) w h) (λ m v q. k m v q.0)

    verify_release-Good :
        (s : UpdateState) (o : Option String) (w : World T)
        → Good p w
        → Goes (verify_release env s o w)
    unfolding verify_release verify_build
    verify_release-Good s none w h = h
    verify_release-Good s (some n) w h = go (as_int s.candidate_build)
      where
        go :
            (o : Option ℕ)
            → Goes (
                (elim o as (λ _. Exec (World T) (Unit {0})) [
                  | none ↦
                      raise
                        (update_error "Candidate state does not match the active release pointer")
                  | some expected ↦
                      if is_release s.candidate_release n
                      then read_installed_metadata env n >>= verify_build env expected
                      else raise
                          (update_error "Candidate state does not match the active release pointer")
                ])
                  w)
        go none = h
        go (some b) =
            branch-Meets (λ _ v. Good p v) (Good p) (is_release s.candidate_release n) _ _ w
              (λ _. read_metadata-Good n (verify_build env b) w h (λ m v k.
                branch-Meets (λ _ v. Good p v) (Good p) (m.build_id == b) _ _ v (λ _. k) (λ _. k)))
              (λ _. h)

    verify_candidate_active-Good :
        (s : UpdateState) (w : World T) → Good p w → Goes (verify_candidate_active env s w)
    unfolding verify_candidate_active
    verify_candidate_active-Good s w h =
        bind-Meets (λ o v. Reads p o × Same p w v) (λ _ v. Good p v) (Good p) (read_active env)
          (verify_release env s) w (read_active-Good env p w h)
          (λ o v k. verify_release-Good s o v k.1.1)

    -- A candidate that awaits the world, or has touched it, is selected.
    chosen :
        (s : UpdateState)
        → Fits p s
        → awaits_acceptance s.state ≡ true
        → selects p s.candidate_release ≡ true
    chosen s f h = go s.state f.0 h
      where
        go :
            (n : StateName)
            → FitsName p s n
            → awaits_acceptance n ≡ true
            → selects p s.candidate_release ≡ true
        go pending_readiness f h = f
        go starting_candidate f h = f
        go runtime_ready f h = f
        go _ f h = cc

    pub store-Goes : (s : UpdateState) (w : World T) → Fits p s → Good p w → Goes (write env s w)
    store-Goes s w f h =
        Meets-mono (λ r v. (r ≡ s) × Same p w v) (λ _ v. Good p v) (Good p) (Good p) (write env s w)
          (write-Good env p s w f h) (λ _ _ k. k.1.1) (λ _ k. k)

    complete_acceptance-Good :
        (s : UpdateState) (w : World T) → Good p w → Goes (complete_acceptance env s w)
    unfolding complete_acceptance write_acceptance
    complete_acceptance-Good s w h =
        branch-Meets (λ _ v. Good p v) (Good p)
          (not (is_none s.previous_build) && not (is_int env s.previous_build)) _ _ w (λ _. h)
          (λ _.
            branch-Meets (λ _ v. Good p v) (Good p) (not (is_int env s.candidate_build)) _ _ w
              (λ _. h) (λ _. store-Goes _ w (tt, selects_null p) h))

    -- The state that is written at the present time, and what follows.
    save-Goes :
        {A : Type 0} (g : String → UpdateState) (m : Exec (World T) A) (w : World T)
        → Fits p (g (env.now w.step))
        → Good p w
        → ((v : World T) → Good p v → Goes (m v))
        → Goes (((λ v. write env (g (env.now v.step)) v) >> m) w)
    save-Goes g m w f h k =
        bind-Meets (λ _ u. Good p u) (λ _ u. Good p u) (Good p)
          (λ v. write env (g (env.now v.step)) v) (λ _. m) w (store-Goes (g (env.now w.step)) w f h)
          (λ _ v q. k v q)

    -- A verified candidate, and what follows.
    verified-Goes :
        {A : Type 0} (s : UpdateState) (m : Exec (World T) A) (w : World T)
        → Good p w
        → ((v : World T) → Good p v → Goes (m v))
        → Goes ((verify_candidate_active env s >> m) w)
    verified-Goes s m w h k =
        bind-Meets (λ _ v. Good p v) (λ _ v. Good p v) (Good p) (verify_candidate_active env s)
          (λ _. m) w (verify_candidate_active-Good s w h) (λ _ v q. k v q)

    -- A guard that raises, or returns, without a change.
    guard-Goes :
        {A : Type 0} (b : Bool) (r : Result A) (m : Exec (World T) A) (w : World T)
        → Good p w
        → (b ≡ false → Goes (m w))
        → Goes ((if b then (λ v. (r, v)) else m) w)
    guard-Goes true (ok _) m w h k = h
    guard-Goes true (raised _) m w h k = h
    guard-Goes false r m w h k = k refl

    pub mark_opened-Good :
        (s : UpdateState) (w : World T) → Fits p s → Good p w → Goes (mark_opened env s w)
    unfolding mark_opened
    mark_opened-Good s w f h = guard-Goes (is_unhashable s.state) (raised _) _ w h (λ _.
        guard-Goes (not (awaits_world s.state)) (ok false) _ w h (λ t. verified-Goes s _ w h (λ v k.
          save-Goes (λ now. opened now s) (pure true) v (chosen s f (early s.state t), f.1) k
            (λ _ m. m))))
      where
        early : (n : StateName) → not (awaits_world n) ≡ false → awaits_acceptance n ≡ true
        early n t = ground arith

    -- What a candidate that awaits its acceptance is.
    awaited :
        (s : UpdateState)
        → Fits p s
        → not (awaits_acceptance s.state) ≡ false
        → selects p s.candidate_release ≡ true
    awaited s f t = chosen s f (go s.state t)
      where
        go : (n : StateName) → not (awaits_acceptance n) ≡ false → awaits_acceptance n ≡ true
        go n t = ground arith

    become_ready-Good :
        (c : Configuration) (version revision : Option String) (s : UpdateState) (w : World T)
        → selects p s.candidate_release ≡ true
        → Fits p s
        → Good p w
        → Goes (become_ready env c version revision s w)
    unfolding become_ready
    become_ready-Good c version revision s w q f h =
        let value = ready_state version revision (env.now w.step) s in
        if_intro Goes (str_eq c.deployment_environment "local")
          (λ _. complete_acceptance-Good value w h) (λ _. store-Goes value w (q, f.1) h)

    pub mark_ready-Good :
        (c : Configuration) (version revision : Option String) (s : UpdateState) (w : World T)
        → Fits p s
        → Good p w
        → Goes (mark_ready env c version revision s w)
    unfolding mark_ready
    mark_ready-Good c version revision s w f h =
        branch-Meets (λ _ v. Good p v) (Good p) (is_current s.state) _ _ w
          (λ t.
            save-Goes (λ now. described version revision now s) (pure tt) w
              (settled s.state (described version revision (env.now w.step) s) t, f.1) h (λ _ m. m))
          (λ _. guard-Goes (is_unhashable s.state) (raised _) _ w h (λ _.
            guard-Goes (not (awaits_acceptance s.state)) (ok tt) _ w h (λ t.
              guard-Goes (not (is_true s.world_opened)) (raised _) _ w h (λ _.
                verified-Goes s _ w h (λ v k.
                  bind-Meets (λ _ u. Good p u) (λ _ u. Good p u) (Good p)
                    (become_ready env c version revision s) (λ _. pure tt) v
                    (become_ready-Good c version revision s v (awaited s f t) f k) (λ _ _ m. m))))))
      where
        settled : (n : StateName) (t : UpdateState) → is_current n ≡ true → FitsName p t n
        settled StateName.current t e = tt
        settled _ t e = cc

    pub accept_state-Good : (s : UpdateState) (w : World T) → Good p w → Goes (accept_state env s w)
    unfolding accept_state
    accept_state-Good s w h = guard-Goes (not (is_runtime_ready s.state)) (ok s) _ w h (λ _.
        guard-Goes (not (is_true s.world_opened)) (raised _) _ w h
          (λ _. verified-Goes s _ w h (λ v k. complete_acceptance-Good s v k)))

    pub fail_state-Good :
        (detail : String) (s : UpdateState) (w : World T)
        → Fits p s
        → Good p w
        → Goes (fail_state env detail s w)
    unfolding fail_state
    fail_state-Good detail s w f h = guard-Goes (is_unhashable s.state) (raised _) _ w h (λ _.
        guard-Goes (not (awaits_acceptance s.state)) (ok tt) _ w h (λ t.
          guard-Goes (not (is_true s.world_opened)) (raised _) _ w h (λ _.
            verified-Goes s _ w h (λ v k.
              save-Goes (λ now. unready detail now s) (pure tt) v (awaited s f t, f.1) k
                (λ _ m. m)))))

    -- A transaction loads the state first.
    pub loaded-Goes :
        {A : Type 0} (f : UpdateState → Exec (World T) A) (w : World T)
        → Good p w
        → ((s : UpdateState) (v : World T) → Fits p s → Good p v → Goes (f s v))
        → Goes ((load env >>= f) w)
    loaded-Goes f w h k =
        bind-Meets (λ s v. Fits p s × Same p w v) (λ _ v. Good p v) (Good p) (load env) f w
          (load-Good env p w h) (λ s v q. k s v q.0 q.1.1)

  transaction-IsSound :
      {A : Type 0} (f : UpdateState → Exec (World T) A) (w : World T)
      → IsSound w
      → ((p : PointerFile) (s : UpdateState) (v : World T) → Fits p s → Good p v → Goes p (f s v))
      → IsSound (with_lock env (load env >>= f) w).1
  transaction-IsSound f w h k = Ends-IsSound _ (
      with_lock-Ends (load env >>= f) w h
        (λ v start. Goes-Ends w.active _ (loaded-Goes w.active f v start (k w.active))))

  -- `mark_world_opened` leaves a sound machine sound, whatever its steps meet: a failure before or
  -- after its effect, an answer that raises, or the end of the process.
  pub mark_world_opened-IsSound : (w : World T) → IsSound w → IsSound (mark_world_opened env w).1
  unfolding mark_world_opened
  mark_world_opened-IsSound w h = transaction-IsSound (mark_opened env) w h mark_opened-Good

  -- `mark_runtime_ready` leaves a sound machine sound, whatever its steps meet, both where it
  -- records the readiness and where it accepts the candidate at once.
  pub mark_runtime_ready-IsSound :
      (c : Configuration) (version revision : Option String) (w : World T)
      → IsSound w
      → IsSound (mark_runtime_ready env c version revision w).1
  unfolding mark_runtime_ready
  mark_runtime_ready-IsSound c version revision w h =
      transaction-IsSound (mark_ready env c version revision) w h
        (λ p s v f k. mark_ready-Good p c version revision s v f k)

  pub accept-IsSound : (w : World T) → IsSound w → IsSound (accept env w).1
  unfolding accept
  accept-IsSound w h =
      transaction-IsSound (accept_state env) w h (λ p s v _ k. accept_state-Good p s v k)

  -- `fail_readiness` leaves a sound machine sound, whatever its steps meet.
  pub fail_readiness-IsSound :
      (detail : String) (w : World T) → IsSound w → IsSound (fail_readiness env detail w).1
  unfolding fail_readiness
  fail_readiness-IsSound detail w h =
      transaction-IsSound (fail_state env detail) w h (λ p. fail_state-Good p detail)
