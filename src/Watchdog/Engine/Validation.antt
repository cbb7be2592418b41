-- ===== src/Watchdog/Engine/Validation.antt =====
-- The final validation: the delayed checks that stand between the idle timer and the shutdown.
use mathlib.Core.Option.{some-injective}
use mathlib.Core.Path.{subst}
use pz_server.Prelude.{
  ℕ, zero, suc, ◌+◌, ◌-◌, ◌≤◌, ◌≡◌, refl, inl, inr, true, false, ◌||◌, Option, none, some, List, [],
  ◌∷◌, arith, ltb, if_intro, Option-cases, sym, ◌∙◌,
}
use pz_server.Watchdog.Models.{PlayerObservation, is_unknown, has_players}
use pz_server.Watchdog.Engine.{
  Call, ticked, queried, health_checked, restarted, slept, executed, Session, Engine, query, sleep,
  set_failure, final_checks, run_shutdown, final_shutdown_validation, note_progress, continue_empty,
  handle_empty, continue_outage, handle_down, handle_unknown, tick,
}
use pz_server.Watchdog.Engine.History.{Confirmed}
use pz_server.Watchdog.Engine.Timers.{handle_empty-eq, no_players}

-- The calls before the latest one, if that one is an execution of the shutdown.
abbrev pub before_execution : List Call → Option (List Call)
before_execution (executed _ _ ∷ l) = some l
before_execution (ticked _ ∷ l) = none
before_execution (queried _ ∷ l) = none
before_execution (health_checked _ ∷ l) = none
before_execution (restarted _ ∷ l) = none
before_execution (slept _ ∷ l) = none
before_execution [] = none

module _ {W : Type 0} (e : Engine W) where
  abbrev checks : ℕ
  checks = e.policy.final_check_count - 1

  -- A round that did not return saw an empty server, and the loop went on.
  final_checks_step :
      (n : ℕ) (s : Session W)
      → (final_checks e (suc n) s).0 ≡ true
      → ((query e (sleep e s)).0.count ≡ some 0)
        × (final_checks e (suc n) s ≡ final_checks e n (query e (sleep e s)).1)
  unfolding final_checks
  final_checks_step n s h = ground arith

  final_checks_confirm :
      (n : ℕ) (s : Session W)
      → (final_checks e n s).0 ≡ true
      → Confirmed e.policy.final_check_delay_seconds n s.calls (final_checks e n s).1.calls
  final_checks_confirm zero s h = unfold final_checks in refl
  final_checks_confirm (suc n) s h =
      let (seen, same) = final_checks_step n s h in
      (
        (query e (sleep e s)).0,
        seen,
        rw same (final_checks_confirm n (query e (sleep e s)).1 (rw same at h)),
      )

  final_checks_failed :
      (n : ℕ) (s : Session W)
      → (final_checks e n s).0 ≡ false
      → before_execution (final_checks e n s).1.calls ≡ none
  unfolding final_checks
  final_checks_failed zero s h = cc
  final_checks_failed (suc n) s h = ground (arith, final_checks_failed n (query e (sleep e s)).1)

  before_execution-run_shutdown :
      (s : Session W) → before_execution (run_shutdown e s).calls ≡ some s.calls
  unfolding run_shutdown
  before_execution-run_shutdown s = ground arith

  -- If a session ends with an execution, the final checks that follow `before` precede it.
  abbrev Validated : List Call → Session W → Type 0
  Validated before s =
      (rest : List Call)
      → before_execution s.calls ≡ some rest
      → Confirmed e.policy.final_check_delay_seconds checks before rest

  not-Validated :
      (before : List Call) (s : Session W) → before_execution s.calls ≡ none → Validated before s
  not-Validated before s h rest p = cc

  final_shutdown_validation-Validated :
      (s : Session W) → Validated s.calls (final_shutdown_validation e s)
  unfolding final_shutdown_validation
  final_shutdown_validation-Validated s =
      let s' = (final_checks e checks s).1 in
      if_intro (Validated s.calls) (final_checks e checks s).0
        (λ passed rest h.
          let same = some-injective _ _ (sym (before_execution-run_shutdown s') ∙ h) in
          subst (Confirmed e.policy.final_check_delay_seconds checks s.calls) same
            (final_checks_confirm checks s passed))
        (λ failed. not-Validated s.calls s' (final_checks_failed checks s failed))

  calls-note_progress : (now : ℕ) (s : Session W) → (note_progress e now s).calls ≡ s.calls
  unfolding note_progress
  calls-note_progress now s = ground arith

  continue_empty-Validated :
      (now t : ℕ) (s : Session W)
      → before_execution s.calls ≡ none
      → Validated s.calls (continue_empty e now t s)
  unfolding continue_empty
  continue_empty-Validated now t s h =
      let s' = note_progress e now s in
      let same = calls-note_progress now s in
      if_intro (Validated s.calls)
        (ltb (now - t) e.policy.idle_timeout_seconds || s'.state.dry_run_reported)
        (λ _. not-Validated s.calls s' (rw same h))
        (λ _.
          subst (λ c. Validated c (final_shutdown_validation e s')) same
            (final_shutdown_validation-Validated s'))

  handle_empty-Validated :
      (now : ℕ) (s : Session W)
      → before_execution s.calls ≡ none
      → Validated s.calls (handle_empty e now s)
  handle_empty-Validated now s h = elim (Option-cases s.state.empty_since) [
    | inl idle ↦ not-Validated s.calls (handle_empty e now s) (unfold handle_empty in ground arith)
    | inr (t, since) ↦
        subst (Validated s.calls) (sym (handle_empty-eq e now t s since))
          (continue_empty-Validated now t s h)
  ]

  calls-handle_unknown :
      (now : ℕ) (s : Session W) → before_execution (handle_unknown e now s).calls ≡ none
  unfolding handle_unknown handle_down continue_outage
  calls-handle_unknown now s = ground arith

  abbrev pub first_query : ℕ → Session W → PlayerObservation × Session W
  first_query now s = query e (record s { calls = ticked now ∷ s.calls })

  -- If a tick ends by executing the shutdown, its first query saw an empty server, and so did the
  -- `final_check_count - 1` queries that followed, each after the delay; the tick called nothing
  -- else.
  pub tick_validated :
      (now : ℕ) (s : Session W) (rest : List Call)
      → before_execution (tick e now s).calls ≡ some rest
      → ((first_query now s).0.count ≡ some 0)
        × Confirmed e.policy.final_check_delay_seconds
            (e.policy.final_check_count - 1)
            (first_query now s).1.calls
            rest
  unfolding tick
  tick_validated now s rest =
      let (o, s') = first_query now s in
      let P : Session W → Type 0 = λ x.
        before_execution x.calls ≡ some rest
        → (o.count ≡ some 0) × Confirmed e.policy.final_check_delay_seconds checks s'.calls rest in
      if_intro P (is_unknown o) (λ _ h. cc (h, calls-handle_unknown now s'))
        (λ seen.
          if_intro P (has_players o) (λ _ h. cc h)
            (λ nobody h. (
              no_players o seen nobody,
              handle_empty-Validated now (set_failure none s') refl rest h,
            )))

  -- The loop passes if every query sees an empty server.
  final_checks_pass :
      ((w : W) → (e.players.query w).0.count ≡ some 0)
      → (n : ℕ) (s : Session W)
      → ((final_checks e n s).0 ≡ true) × ((final_checks e n s).1.state ≡ s.state)
  unfolding final_checks
  final_checks_pass empty zero s = (refl, refl)
  final_checks_pass empty (suc n) s =
      ground (arith, empty (sleep e s).world, final_checks_pass empty n (query e (sleep e s)).1)

  note_progress-dry_run_reported :
      (now : ℕ) (s : Session W)
      → (note_progress e now s).state.dry_run_reported ≡ s.state.dry_run_reported
  unfolding note_progress
  note_progress-dry_run_reported now s = ground arith

  continue_empty_executes :
      (now t : ℕ) (s : Session W)
      → ((w : W) → (e.players.query w).0.count ≡ some 0)
      → s.state.dry_run_reported ≡ false
      → t + e.policy.idle_timeout_seconds ≤ now
      → before_execution (continue_empty e now t s).calls
        ≡ some (final_checks e checks (note_progress e now s)).1.calls
  unfolding continue_empty final_shutdown_validation
  continue_empty_executes now t s empty fresh due = ground (
    arith,
    note_progress-dry_run_reported now s,
    final_checks_pass empty checks (note_progress e now s),
    before_execution-run_shutdown (final_checks e checks (note_progress e now s)).1,
  )

  -- Once the idle timer has run out, a tick executes the shutdown if every query finds the server
  -- empty and no dry run has been reported.
  pub tick_executes :
      (now t : ℕ) (s : Session W)
      → ((w : W) → (e.players.query w).0.count ≡ some 0)
      → s.state.empty_since ≡ some t
      → s.state.dry_run_reported ≡ false
      → t + e.policy.idle_timeout_seconds ≤ now
      → (rest : List Call) × (before_execution (tick e now s).calls ≡ some rest)
  unfolding tick
  tick_executes now t s empty since fresh due =
      let s' = set_failure none (first_query now s).1 in
      (
        (final_checks e checks (note_progress e now s')).1.calls,
        ground (
          arith,
          empty s.world,
          handle_empty-eq e now t s',
          continue_empty_executes now t s' empty,
        ),
      )
