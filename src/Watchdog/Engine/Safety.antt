-- ===== src/Watchdog/Engine/Safety.antt =====
-- The engine acts only on what it has observed for long enough.
use mathlib.Core.Path.{subst}
use pz_server.Prelude.{
  ℕ, zero, suc, ◌+◌, ◌-◌, ◌≤◌, ◌≡◌, refl, ◌⊎◌, inl, inr, Bool, true, false, Option, none, some,
  List, [], ◌∷◌, arith, ltb, Option-cases, if_intro, ap, sym, ◌∙◌, ◌||◌,
}
use pz_server.Watchdog.Models.{is_unknown, has_players}
use pz_server.Watchdog.Engine.{
  ticked, Session, Engine, initial, WatchdogPolicy, WatchdogState, accepts, query, sleep, execute,
  check_health, is_down, set_failure, handle_down, reset_empty, final_checks, run_shutdown,
  final_shutdown_validation, note_progress, continue_empty, handle_empty, continue_outage,
  handle_unknown, tick, run,
}
use pz_server.Watchdog.Engine.Timers.{handle_empty-eq, no_players}
use pz_server.Watchdog.Engine.History.{
  EmptySince, OutageSince, latest, Justified, At, At-none, At-some, At_apply,
}

-- The invariant between ticks.
pub record IsTimed {W : Type 0} (p : WatchdogPolicy) (s : Session W) : Type 0 where
  pub empty : At (λ t. EmptySince t s.calls) s.state.empty_since
  pub outage : At (λ t. OutageSince t s.calls) s.state.management_failure_since
  pub justified : Justified p s.calls

module _ {W : Type 0} (e : Engine W) where
  -- The loop changes only the idle timer, and only where a check fails.
  final_checks_frame :
      (n : ℕ) (s : Session W)
      → ((final_checks e n s).1.state.management_failure_since ≡ s.state.management_failure_since)
        × (latest (final_checks e n s).1.calls ≡ latest s.calls)
        × (Justified e.policy s.calls → Justified e.policy (final_checks e n s).1.calls)
        × ((final_checks e n s).0 ≡ false → (final_checks e n s).1.state.empty_since ≡ none)
        × ((final_checks e n s).0 ≡ true → (final_checks e n s).1.state ≡ s.state)
  unfolding final_checks
  final_checks_frame zero s = ground arith
  final_checks_frame (suc n) s = ground (arith, final_checks_frame n (query e (sleep e s)).1)

  final_checks-EmptySince :
      (n t : ℕ) (s : Session W)
      → EmptySince t s.calls
      → (final_checks e n s).0 ≡ true
      → EmptySince t (final_checks e n s).1.calls
  unfolding final_checks
  final_checks-EmptySince zero t s h p = h
  final_checks-EmptySince (suc n) t s h p =
      ground (arith, final_checks-EmptySince n t (query e (sleep e s)).1)

  abbrev Good : Session W → Type 0
  Good s = IsTimed e.policy s

  -- Both timers are off.
  IsTimed-idle :
      (s : Session W)
      → s.state.empty_since ≡ none
      → s.state.management_failure_since ≡ none
      → Justified e.policy s.calls
      → Good s
  IsTimed-idle s i f h = record {
    empty = At-none (λ t. EmptySince t s.calls) s.state.empty_since i;
    outage = At-none (λ t. OutageSince t s.calls) s.state.management_failure_since f;
    justified = h;
  }

  -- The idle timer runs.
  IsTimed-empty :
      (t : ℕ) (s : Session W)
      → s.state.empty_since ≡ some t
      → s.state.management_failure_since ≡ none
      → EmptySince t s.calls
      → Justified e.policy s.calls
      → Good s
  IsTimed-empty t s i f p h = record {
    empty = At-some (λ t. EmptySince t s.calls) s.state.empty_since t i p;
    outage = At-none (λ t. OutageSince t s.calls) s.state.management_failure_since f;
    justified = h;
  }

  -- The outage timer runs.
  IsTimed-outage :
      (t : ℕ) (s : Session W)
      → s.state.empty_since ≡ none
      → s.state.management_failure_since ≡ some t
      → OutageSince t s.calls
      → Justified e.policy s.calls
      → Good s
  IsTimed-outage t s i f p h = record {
    empty = At-none (λ t. EmptySince t s.calls) s.state.empty_since i;
    outage = At-some (λ t. OutageSince t s.calls) s.state.management_failure_since t f p;
    justified = h;
  }

  -- The shutdown keeps the idle timer or turns it off.
  run_shutdown_frame :
      (s : Session W)
      → ((run_shutdown e s).calls ≡ (execute e s).1.calls)
        × ((run_shutdown e s).state.management_failure_since ≡ s.state.management_failure_since)
        × (((run_shutdown e s).state.empty_since ≡ none)
            ⊎ ((run_shutdown e s).state.empty_since ≡ s.state.empty_since))
  unfolding run_shutdown
  run_shutdown_frame s = ground arith

  run_shutdown-IsTimed :
      (t : ℕ) (s : Session W)
      → s.state.empty_since ≡ some t
      → s.state.management_failure_since ≡ none
      → t + e.policy.idle_timeout_seconds ≤ latest s.calls
      → EmptySince t s.calls
      → Justified e.policy s.calls
      → Good (run_shutdown e s)
  run_shutdown-IsTimed t s since fine due empty h =
      let s' = run_shutdown e s in
      let (calls, same_fine, timer) = run_shutdown_frame s in
      let j : Justified e.policy s'.calls = rw calls ((t, empty, due), h) in
      elim timer [
        | inl off ↦ IsTimed-idle s' off (same_fine ∙ fine) j
        | inr kept ↦ IsTimed-empty t s' (kept ∙ since) (same_fine ∙ fine) (rw calls empty) j
      ]

  final_shutdown_validation-IsTimed :
      (t : ℕ) (s : Session W)
      → s.state.empty_since ≡ some t
      → s.state.management_failure_since ≡ none
      → t + e.policy.idle_timeout_seconds ≤ latest s.calls
      → EmptySince t s.calls
      → Justified e.policy s.calls
      → Good (final_shutdown_validation e s)
  unfolding final_shutdown_validation
  final_shutdown_validation-IsTimed t s since fine due empty h =
      let n = e.policy.final_check_count - 1 in
      let s' = (final_checks e n s).1 in
      let (same_fine, same_latest, keeps, failed, passed) = final_checks_frame n s in
      if_intro Good (final_checks e n s).0
        (λ p.
          run_shutdown-IsTimed t s' (ap (λ (c : WatchdogState). c.empty_since) (passed p) ∙ since)
            (same_fine ∙ fine) (omega arith) (final_checks-EmptySince n t s empty p) (keeps h))
        (λ p. IsTimed-idle s' (failed p) (same_fine ∙ fine) (keeps h))

  note_progress_frame :
      (now : ℕ) (s : Session W)
      → ((note_progress e now s).state.empty_since ≡ s.state.empty_since)
        × ((note_progress e now s).state.management_failure_since
            ≡ s.state.management_failure_since)
        × ((note_progress e now s).calls ≡ s.calls)
  unfolding note_progress
  note_progress_frame now s = ground arith

  -- With a positive timeout the truncated difference is the elapsed time.
  timer_due :
      (now t : ℕ) (b : Bool)
      → accepts e.policy ≡ true
      → (ltb (now - t) e.policy.idle_timeout_seconds || b) ≡ false
      → t + e.policy.idle_timeout_seconds ≤ now
  unfolding accepts
  timer_due now t b good h = ground arith

  continue_empty-IsTimed :
      (now t : ℕ) (s : Session W)
      → accepts e.policy ≡ true
      → latest s.calls ≡ now
      → s.state.empty_since ≡ some t
      → s.state.management_failure_since ≡ none
      → EmptySince t s.calls
      → Justified e.policy s.calls
      → Good (continue_empty e now t s)
  unfolding continue_empty
  continue_empty-IsTimed now t s good at_now since fine empty h =
      let s' = note_progress e now s in
      let (same_since, same_fine, same) = note_progress_frame now s in
      let empty' : EmptySince t s'.calls = rw same empty in
      let h' : Justified e.policy s'.calls = rw same h in
      let at_now' : latest s'.calls ≡ now = ap latest same ∙ at_now in
      if_intro Good (ltb (now - t) e.policy.idle_timeout_seconds || s'.state.dry_run_reported)
        (λ _. IsTimed-empty t s' (same_since ∙ since) (same_fine ∙ fine) empty' h')
        (λ due.
          final_shutdown_validation-IsTimed t s' (same_since ∙ since) (same_fine ∙ fine)
            (omega (arith, timer_due now t s'.state.dry_run_reported good due)) empty' h')

  handle_empty_frame :
      (now : ℕ) (s : Session W)
      → s.state.empty_since ≡ none
      → ((handle_empty e now s).calls ≡ s.calls)
        × ((handle_empty e now s).state.empty_since ≡ some now)
        × ((handle_empty e now s).state.management_failure_since ≡ s.state.management_failure_since)
  unfolding handle_empty
  handle_empty_frame now s h = ground arith

  handle_empty-IsTimed :
      (now : ℕ) (s : Session W)
      → accepts e.policy ≡ true
      → latest s.calls ≡ now
      → EmptySince now s.calls
      → s.state.management_failure_since ≡ none
      → At (λ t. EmptySince t s.calls) s.state.empty_since
      → Justified e.policy s.calls
      → Good (handle_empty e now s)
  handle_empty-IsTimed now s good at_now empty fine timed h =
      elim (Option-cases s.state.empty_since) [
        | inl idle ↦
            let (same, since, same_fine) = handle_empty_frame now s idle in
            IsTimed-empty now _ since (same_fine ∙ fine) (rw same empty) (rw same h)
        | inr (t, since) ↦
            let counted = At_apply (λ t. EmptySince t s.calls) s.state.empty_since t since timed in
            subst Good (sym (handle_empty-eq e now t s since))
              (continue_empty-IsTimed now t s good at_now since fine counted h)
      ]

  continue_outage-IsTimed :
      (now t : ℕ) (s : Session W)
      → latest s.calls ≡ now
      → s.state.empty_since ≡ none
      → s.state.management_failure_since ≡ some t
      → OutageSince t s.calls
      → Justified e.policy s.calls
      → Good (continue_outage e now t s)
  unfolding continue_outage
  continue_outage-IsTimed now t s at_now idle since out h =
      if_intro Good (ltb now (t + e.policy.health_failure_timeout_seconds))
        (λ _. IsTimed-outage t s idle since out h)
        (λ due. record { empty = tt; outage = tt; justified = ((t, out, ground arith), h) })

  handle_down-eq :
      (now t : ℕ) (s : Session W)
      → s.state.management_failure_since ≡ some t
      → handle_down e now s ≡ continue_outage e now t s
  unfolding handle_down
  handle_down-eq now t s h = ground arith

  handle_down_start :
      (now : ℕ) (s : Session W)
      → s.state.management_failure_since ≡ none
      → handle_down e now s ≡ set_failure (some now) s
  unfolding handle_down
  handle_down_start now s h = ground arith

  handle_down-IsTimed :
      (now : ℕ) (s : Session W)
      → latest s.calls ≡ now
      → s.state.empty_since ≡ none
      → OutageSince now s.calls
      → At (λ t. OutageSince t s.calls) s.state.management_failure_since
      → Justified e.policy s.calls
      → Good (handle_down e now s)
  handle_down-IsTimed now s at_now idle out timed h =
      elim (Option-cases s.state.management_failure_since) [
        | inl fine ↦
            subst Good (sym (handle_down_start now s fine))
              (IsTimed-outage now (set_failure (some now) s) idle refl out h)
        | inr (t, since) ↦
            let counted =
              At_apply (λ t. OutageSince t s.calls) s.state.management_failure_since t since
                timed in
            subst Good (sym (handle_down-eq now t s since))
              (continue_outage-IsTimed now t s at_now idle since counted h)
      ]

  At-map : (P Q : ℕ → Type 0) (o : Option ℕ) → ((t : ℕ) → P t → Q t) → At P o → At Q o
  At-map P Q none f h = tt
  At-map P Q (some t) f h = f t h

  -- Every tick keeps the invariant.
  pub tick-IsTimed :
      (now : ℕ) (s : Session W) → accepts e.policy ≡ true → Good s → Good (tick e now s)
  unfolding tick handle_unknown
  tick-IsTimed now s good h =
      let started : Session W = record s { calls = ticked now ∷ s.calls } in
      let (o, s') = query e started in
      if_intro Good (is_unknown o)
        (λ blind.
          let (health, s'') = check_health e (reset_empty s') in
          if_intro Good (is_down health)
            (λ down.
              handle_down-IsTimed now s'' refl refl (down, (blind, inl refl))
                (At-map (λ t. OutageSince t s.calls) (λ t. OutageSince t s''.calls)
                  s.state.management_failure_since (λ t p. (down, (blind, inr p))) h.outage)
                h.justified)
            (λ _. IsTimed-idle (set_failure none s'') refl refl h.justified))
        (λ seen.
          if_intro Good (has_players o)
            (λ _. IsTimed-idle (reset_empty (set_failure none s')) refl refl h.justified)
            (λ nobody.
              let zero_count : o.count ≡ some 0 = no_players o seen nobody in
              handle_empty-IsTimed now (set_failure none s') good refl (zero_count, inl refl) refl
                (At-map (λ t. EmptySince t s.calls) (λ t. EmptySince t s'.calls) s.state.empty_since
                  (λ t p. (zero_count, inr p)) h.empty)
                h.justified))

  pub run-IsTimed :
      (times : List ℕ) (s : Session W) → accepts e.policy ≡ true → Good s → Good (run e times s)
  unfolding run
  run-IsTimed [] s good h = h
  run-IsTimed (now ∷ times) s good h =
      run-IsTimed times (tick e now s) good (tick-IsTimed now s good h)

  -- In every run of the watchdog that starts afresh with an accepted policy, at whatever times it
  -- ticks and whatever its collaborators answer, each execution of the shutdown comes at least
  -- the idle timeout after the start of a tick since which every player count was zero, and each
  -- restart at least the outage timeout after the start of a tick since which every player count
  -- was unknown and every health check found the service down.
  pub run-Justified :
      (times : List ℕ) (w : W)
      → accepts e.policy ≡ true
      → Justified e.policy (run e times (record { state = initial; world = w; calls = [] })).calls
  run-Justified times w good =
      (run-IsTimed times (record { state = initial; world = w; calls = [] }) good
        (record { empty = tt; outage = tt; justified = tt })).justified
