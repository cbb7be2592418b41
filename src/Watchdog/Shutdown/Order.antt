-- ===== src/Watchdog/Shutdown/Order.antt =====
-- The order of the shutdown: every call of `execute` in src/pz_watchdog/shutdown.py, on each of its
-- ways out.
use pz_server.Prelude.{
  ℕ, zero, suc, ◌≡◌, refl, ◌⊎◌, inl, inr, Bool, true, false, not, Option, none, some, if_intro,
  List, ◌∷◌, arith,
}
use pz_server.Watchdog.Models.{PlayerObservation, ShutdownOutcome, completed, dry_run, aborted}
use pz_server.Watchdog.Shutdown.{
  Act, checked_eligible, counted, saved, slept, stop_requested, stop_verified, powered_off, started,
  Session, ShutdownCoordinator, allows, ask, count, sleep, finish, stop_service,
  players_allow_shutdown, execute,
}

-- The players are known, and none is connected unless that is allowed.
abbrev pub Permits : Bool → PlayerObservation → Type 0
Permits allow o = (n : ℕ) × (o.count ≡ some n) × ((n ≡ 0) ⊎ (allow ≡ true))

allows-Permits : (allow : Bool) (o : PlayerObservation) → allows allow o ≡ true → Permits allow o
allows-Permits allow o h = go allow o.count h
  where
    go :
        (b : Bool) (count : Option ℕ)
        → allows b (record { count = count; detail = o.detail }) ≡ true
        → Permits b (record { count = count; detail = o.detail })
    go b none h = cc
    go b (some zero) h = (zero, refl, inl refl)
    go true (some (suc n)) h = (suc n, refl, inr refl)
    go false (some (suc n)) h = absurd (ground arith)

refuses-Permits :
    (allow : Bool) (o : PlayerObservation) → allows allow o ≡ false → ¬ Permits allow o
refuses-Permits allow o h = go allow o.count h
  where
    go :
        (b : Bool) (count : Option ℕ)
        → allows b (record { count = count; detail = o.detail }) ≡ false
        → ¬ Permits b (record { count = count; detail = o.detail })
    go b none h (n, e, p) = cc
    go b (some zero) h (n, e, p) = ground arith
    go true (some (suc k)) h (n, e, p) = ground arith
    go false (some (suc k)) h (n, e, inl p) = absurd (grind arith)
    go false (some (suc k)) h (n, e, inr p) = cc

module _ {W : Type 0} (c : ShutdownCoordinator W) where
  -- The calls up to the second count, and up to a verified stop, latest first.
  abbrev pub counted_twice : PlayerObservation → PlayerObservation → List Act → List Act
  counted_twice first second l =
      counted second
      ∷ slept c.save_settle_seconds
      ∷ saved true
      ∷ counted first
      ∷ checked_eligible true
      ∷ l

  abbrev pub confirmed : PlayerObservation → PlayerObservation → List Act → List Act
  confirmed first second l =
      stop_verified true
      ∷ stop_requested c.service_stop_timeout_seconds true
      ∷ counted_twice first second l

  -- The calls of an aborted run, by the answer that ended it.
  pub data Aborts (allow : Bool) (l acts : List Act) : Type 0 where
    not_eligible : acts ≡ checked_eligible false ∷ l → Aborts allow l acts
    not_permitted :
        (o : PlayerObservation)
        → ¬ Permits allow o
        → acts ≡ counted o ∷ checked_eligible true ∷ l
        → Aborts allow l acts
    not_saved :
        (o : PlayerObservation)
        → Permits allow o
        → acts ≡ saved false ∷ counted o ∷ checked_eligible true ∷ l
        → Aborts allow l acts
    not_permitted_later :
        (first second : PlayerObservation)
        → Permits allow first
        → ¬ Permits allow second
        → acts ≡ counted_twice first second l
        → Aborts allow l acts
    not_stopped :
        (first second : PlayerObservation)
        → Permits allow first
        → Permits allow second
        → acts ≡ stop_requested c.service_stop_timeout_seconds false ∷ counted_twice first second l
        → Aborts allow l acts
    not_verified :
        (first second : PlayerObservation)
        → Permits allow first
        → Permits allow second
        → acts
          ≡ stop_verified false
            ∷ stop_requested c.service_stop_timeout_seconds true
            ∷ counted_twice first second l
        → Aborts allow l acts
    not_powered_off :
        (first second : PlayerObservation) (restarted : Bool)
        → Permits allow first
        → Permits allow second
        → acts ≡ started restarted ∷ powered_off false ∷ confirmed first second l
        → Aborts allow l acts

  -- How a run of the coordinator that began after the calls `l` may end.
  abbrev pub Ends : Bool → Bool → List Act → ShutdownOutcome × Session W → Type 0
  Ends dry allow l (dry_run, s) = (dry ≡ true) × (s.acts ≡ l)
  Ends dry allow l (completed, s) =
      (dry ≡ false)
      × ((first second : PlayerObservation) × Permits allow first
          × Permits allow second
          × (s.acts ≡ powered_off true ∷ confirmed first second l))
  Ends dry allow l (aborted, s) = (dry ≡ false) × Aborts allow l s.acts

  module _ (allow : Bool) (first second : PlayerObservation) (l : List Act)
      (p : Permits allow first) (q : Permits allow second) where
    finish-Ends :
        (s : Session W) → s.acts ≡ confirmed first second l → Ends false allow l (finish c s)
    unfolding finish
    finish-Ends s e =
        let (off, s') = ask c.host.shutdown powered_off s in
        if_intro (Ends false allow l) off (λ h. (refl, (first, second, p, q, cc (h, e))))
          (λ h.
            (refl, not_powered_off first second (ask c.service.start started s').0 p q (cc (h, e))))

    stop_service-Ends :
        (s : Session W)
        → s.acts ≡ counted_twice first second l
        → Ends false allow l (stop_service c s)
    unfolding stop_service
    stop_service-Ends s e =
        let timeout = c.service_stop_timeout_seconds in
        let (clean, s') = ask (c.service.graceful_stop timeout) (stop_requested timeout) s in
        let (verified, s'') = ask c.service.is_stopped stop_verified s' in
        if_intro (Ends false allow l) (not clean)
          (λ h. (refl, not_stopped first second p q (ground arith)))
          (λ h.
            if_intro (Ends false allow l) (not verified)
              (λ k. (refl, not_verified first second p q (ground arith)))
              (λ k. finish-Ends s'' (ground arith)))

  -- A run makes these calls, in this order and no other. A dry run makes none, and only it ends as
  -- one. A completed run has found the host eligible, has found the players to permit the shutdown
  -- both before the save and after it had settled, has saved, stopped and verified, and has powered
  -- the host off. An aborted run has made the same calls up to the first answer that is against the
  -- shutdown, and no further one, save that after a refused power-off it has tried once to start the
  -- service again.
  pub execute-Ends :
      (dry allow : Bool) (s : Session W) → Ends dry allow s.acts (execute c dry allow s)
  unfolding execute players_allow_shutdown
  execute-Ends true allow s = (refl, refl)
  execute-Ends false allow s =
      let P = Ends false allow s.acts in
      let (fit, s1) = ask c.host.eligible checked_eligible s in
      let (before, s2) = count c s1 in
      let (kept, s3) = ask c.admin.save saved s2 in
      let (after, s5) = count c (sleep c s3) in
      if_intro P (not fit) (λ h. (refl, not_eligible (ground arith)))
        (λ h1.
          if_intro P (not (allows allow before))
            (λ h. (
              refl,
              not_permitted before (refuses-Permits allow before (ground arith)) (ground arith),
            ))
            (λ h2.
              let p = allows-Permits allow before (ground arith) in
              if_intro P (not kept) (λ h. (refl, not_saved before p (ground arith)))
                (λ h3.
                  if_intro P (not (allows allow after))
                    (λ h. (
                      refl,
                      not_permitted_later before after p
                          (refuses-Permits allow after (ground arith)) (ground arith),
                    ))
                    (λ h4.
                      stop_service-Ends allow before after s.acts p
                        (allows-Permits allow after (ground arith)) s5 (ground arith)))))
