-- ===== src/Watchdog/Service/Stop.antt =====
-- What a graceful stop of the Docker service has seen before it reports success.
use mathlib.Core.Path.{subst}
use pz_server.Prelude.{
  ◌≡◌, refl, sym, ap, ◌∙◌, ℕ, ◌+◌, String, Bool, true, false, not, Option, none, some, List, ◌∷◌,
  ◌++◌, if_intro, str_eq, eq_iff, arith,
}
use pz_server.Prelude.Integers.{equals}
use pz_server.Prelude.Json.{Fields}
use pz_server.Watchdog.Processes.{Process, Machine, Call, ran, run}
use pz_server.Watchdog.Service.{
  DockerComposeService, Inspection, established, inspection_error, Docker, completed, ps_arguments,
  identify, inspect_command, read_state, is_clean_exit, compose_command, run_compose, container_id,
  inspect_container_state, equals_identifier,
}
use pz_server.Watchdog.Service.Control.{
  confirm, verify_exit, stop_arguments, stop_container, stop_found, graceful_stop, is_clean,
  inspect_stopped, judge_stopped, is_stopped,
}

module _ {W : Type 0} (machine : Machine W) (c : DockerComposeService) where
  abbrev State : Type 0
  State = Docker machine c

  -- The answer of a lookup names one container.
  abbrev pub Identifies : Option Process → String → Type 0
  Identifies p identifier = identify (completed p) ≡ established (some identifier)

  -- The answer of an inspection shows a clean exit.
  abbrev pub ShowsCleanExit : Option Process → Type 0
  ShowsCleanExit p =
      (state : Fields) × (read_state c p ≡ established state) × (is_clean_exit state ≡ true)

  abbrev pub lookup : Option Process → Call
  lookup p = ran (compose_command c ++ ps_arguments true c.service) 60 p

  abbrev pub inspection : String → Option Process → Call
  inspection identifier p = ran (inspect_command identifier) 30 p

  abbrev pub stop_call : ℕ → Option Process → Call
  stop_call timeout p = ran (compose_command c ++ stop_arguments machine c timeout) (timeout + 30) p

  -- From the calls `before`: the container was found, it was stopped with success, it has exited
  -- cleanly, and the same container was found again and is remembered.
  abbrev pub IsVerified : ℕ → String → List Call → State → Type 0
  IsVerified timeout identifier before s =
      (p r i q : Option Process) × Identifies p identifier
      × (equals (completed r).returncode 0 ≡ true)
      × ShowsCleanExit i
      × Identifies q identifier
      × (s.memory ≡ some identifier)
      × (s.calls ≡ lookup q ∷ inspection identifier i ∷ stop_call timeout r ∷ lookup p ∷ before)

  abbrev pub Stops : ℕ → List Call → Bool × State → Type 0
  Stops timeout before (true, s) = (identifier : String) × IsVerified timeout identifier before s
  Stops timeout before (false, s) = s.memory ≡ none

  equals_identifier-true :
      (o : Option String) (i : String) → equals_identifier o i ≡ true → o ≡ some i
  equals_identifier-true none i h = cc
  equals_identifier-true (some j) i h = ap some ((eq_iff j i).0 h)

  confirm-Stops :
      (timeout : ℕ) (identifier : String) (before : List Call) (p r i q : Option Process)
      (o : Inspection (Option String)) (s : State)
      → identify (completed q) ≡ o
      → s.memory ≡ none
      → Identifies p identifier
      → equals (completed r).returncode 0 ≡ true
      → ShowsCleanExit i
      → s.calls ≡ lookup q ∷ inspection identifier i ∷ stop_call timeout r ∷ lookup p ∷ before
      → Stops timeout before (confirm machine c identifier o s)
  confirm-Stops timeout identifier before p r i q (inspection_error m) s e n hp hr hi hc = n
  confirm-Stops timeout identifier before p r i q (established current) s e n hp hr hi hc =
      if_intro (Stops timeout before) (not (equals_identifier current identifier)) (λ _. n)
        (λ h.
          let same = equals_identifier-true current identifier (ground arith) in
          (identifier, (p, r, i, q, hp, hr, hi, e ∙ ap established same, refl, hc)))

  verify_exit-Stops :
      (timeout : ℕ) (identifier : String) (before : List Call) (p r i : Option Process)
      (o : Inspection Fields) (s : State)
      → read_state c i ≡ o
      → s.memory ≡ none
      → Identifies p identifier
      → equals (completed r).returncode 0 ≡ true
      → s.calls ≡ inspection identifier i ∷ stop_call timeout r ∷ lookup p ∷ before
      → Stops timeout before (verify_exit machine c identifier o s)
  unfolding verify_exit container_id run_compose
  verify_exit-Stops timeout identifier before p r i (inspection_error m) s e n hp hr hc = n
  verify_exit-Stops timeout identifier before p r i (established state) s e n hp hr hc =
      if_intro (Stops timeout before) (not (is_clean_exit state)) (λ _. n)
        (λ h.
          let (found, s') = container_id machine c true s in
          let q = (machine.run (compose_command c ++ ps_arguments true c.service) 60 s.world).0 in
          confirm-Stops timeout identifier before p r i q found s' refl n hp hr
            (state, e, ground arith) (ap (λ l. lookup q ∷ l) hc))

  stop_found-Stops :
      (timeout : ℕ) (before : List Call) (p : Option Process) (o : Inspection (Option String))
      (s : State)
      → identify (completed p) ≡ o
      → s.memory ≡ none
      → s.calls ≡ lookup p ∷ before
      → Stops timeout before (stop_found machine c timeout o s)
  unfolding stop_container run_compose inspect_container_state
  stop_found-Stops timeout before p (inspection_error m) s e n hc = n
  stop_found-Stops timeout before p (established none) s e n hc = n
  stop_found-Stops timeout before p (established (some identifier)) s e n hc =
      let stop = compose_command c ++ stop_arguments machine c timeout in
      let (r, s1) = run machine stop (timeout + 30) s in
      let (i, s2) = run machine (inspect_command identifier) 30 s1 in
      if_intro (Stops timeout before) (not (equals (completed r).returncode 0)) (λ _. n)
        (λ h.
          verify_exit-Stops timeout identifier before p r i (read_state c i) s2 refl n e
            (ground arith) (ap (λ l. inspection identifier i ∷ stop_call timeout r ∷ l) hc))

  -- A graceful stop that succeeds has found one container, has stopped the service with success,
  -- has inspected this container, which exited cleanly, and has found the same container again,
  -- with these four calls and no other, and it remembers the container. One that fails remembers
  -- none.
  pub graceful_stop-Stops :
      (timeout : ℕ) (s : State) → Stops timeout s.calls (graceful_stop machine c timeout s)
  unfolding graceful_stop container_id run_compose
  graceful_stop-Stops timeout s =
      let (found, s') = container_id machine c true (record s { memory = none }) in
      let p = (machine.run (compose_command c ++ ps_arguments true c.service) 60 s.world).0 in
      stop_found-Stops timeout s.calls p found s' refl refl refl

  -- The container `identifier` was found, and it has exited cleanly.
  abbrev pub IsInspected : String → List Call → State → Type 0
  IsInspected identifier before s =
      (q i : Option Process) × Identifies q identifier
      × ShowsCleanExit i
      × (s.calls ≡ inspection identifier i ∷ lookup q ∷ before)

  is_clean-ShowsCleanExit :
      (i : Option Process) (o : Inspection Fields)
      → read_state c i ≡ o
      → is_clean machine c o ≡ true
      → ShowsCleanExit i
  is_clean-ShowsCleanExit i (inspection_error m) e h = cc
  is_clean-ShowsCleanExit i (established state) e h = (state, e, h)

  -- What an `is_stopped` that gives `true` has seen, with the verified container.
  abbrev pub Confirms : String → List Call → Bool × State → Type 0
  Confirms verified before (true, s) = IsInspected verified before s
  Confirms verified before (false, s) = Unit

  inspect_stopped-Confirms :
      (identifier : String) (before : List Call) (q : Option Process) (s : State)
      → Identifies q identifier
      → s.calls ≡ lookup q ∷ before
      → Confirms identifier before (inspect_stopped machine c identifier s)
  unfolding inspect_stopped inspect_container_state
  inspect_stopped-Confirms identifier before q s hq hc =
      let (i, s') = run machine (inspect_command identifier) 30 s in
      go (is_clean machine c (read_state c i)) refl
    where
      i : Option Process
      i = (machine.run (inspect_command identifier) 30 s.world).0

      go :
          (b : Bool)
          → is_clean machine c (read_state c i) ≡ b
          → Confirms identifier before (b, (run machine (inspect_command identifier) 30 s).1)
      go true h = (
        q,
        i,
        hq,
        is_clean-ShowsCleanExit i (read_state c i) refl h,
        ap (λ l. inspection identifier i ∷ l) hc,
      )
      go false h = tt

  judge_stopped-Confirms :
      (verified : String) (before : List Call) (q : Option Process) (o : Inspection (Option String))
      (s : State)
      → identify (completed q) ≡ o
      → s.calls ≡ lookup q ∷ before
      → Confirms verified before (judge_stopped machine c (some verified) o s)
  unfolding judge_stopped
  judge_stopped-Confirms verified before q (inspection_error m) s e hc = tt
  judge_stopped-Confirms verified before q (established none) s e hc = tt
  judge_stopped-Confirms verified before q (established (some identifier)) s e hc =
      if_intro (Confirms verified before) (not (str_eq identifier verified)) (λ _. tt)
        (λ h.
          let same = (eq_iff identifier verified).0 (ground arith) in
          subst (λ j. Confirms j before (inspect_stopped machine c identifier s)) same
            (inspect_stopped-Confirms identifier before q s e hc))

  -- Where a verified container is remembered, an `is_stopped` that gives `true` has found this
  -- very container and has inspected it, and it has exited cleanly.
  pub is_stopped-Confirms :
      (verified : String) (s : State)
      → s.memory ≡ some verified
      → Confirms verified s.calls (is_stopped machine c s)
  unfolding is_stopped container_id run_compose
  is_stopped-Confirms verified s h =
      let (found, s') = container_id machine c true s in
      let p = (machine.run (compose_command c ++ ps_arguments true c.service) 60 s.world).0 in
      subst (λ m. Confirms verified s.calls (judge_stopped machine c m found s')) (sym h)
        (judge_stopped-Confirms verified s.calls p found s' refl refl)
