-- ===== src/Watchdog/Cli/Running.antt =====
-- The watchdog as src/pz_watchdog/cli.py runs it, from its configuration on.
use pz_server.Prelude.{◌≡◌, refl, ℕ, zero, suc, Bool, true, not, if_intro, arith}
use pz_server.Prelude.Checked.{Checked, valid}
use pz_server.Prelude.Environment.{Environment}
use pz_server.Watchdog.Config.{Settings, Platform}
use pz_server.Watchdog.Config.Build.{from_environment}
use pz_server.Watchdog.Config.Bounds.{IsBounded, from_environment-IsPermitted}
use pz_server.Watchdog.Engine as Eng
use pz_server.Watchdog.Engine.{accepts, tick, initial}
use pz_server.Watchdog.Engine.History.{Justified}
use pz_server.Watchdog.Engine.Safety.{IsTimed, tick-IsTimed}
use pz_server.Watchdog.Processes.{monotonic, sleep}
use pz_server.Watchdog.Cli.{Outside, World, engine, policy_of, rounds, first_session, run_watchdog}

-- The bounds of the settings are such that the engine's policy is accepted.
accepts-policy_of : (s : Settings) → IsBounded s → accepts (policy_of s) ≡ true
unfolding accepts
accepts-policy_of s (h0, h1, h2, h3, (h4, _), h5, (h6, _), (h7, _), (h8, _), h9) = ground arith

module _ {W : Type 0} (o : Outside W) (settings : Settings) where
  IsTimed-world :
      (s : Eng.Session (World o settings)) (w : World o settings)
      → IsTimed (policy_of settings) s
      → IsTimed (policy_of settings) (record s { world = w })
  IsTimed-world s w h = record { empty = h.empty; outage = h.outage; justified = h.justified }

  rounds-IsTimed :
      (n : ℕ) (s : Eng.Session (World o settings))
      → accepts (policy_of settings) ≡ true
      → IsTimed (policy_of settings) s
      → IsTimed (policy_of settings) (rounds o settings n s)
  unfolding rounds
  rounds-IsTimed zero s good h = h
  rounds-IsTimed (suc n) s good h =
      let (now, w) = monotonic o.machine s.world in
      let s' = tick (engine o settings) now (record s { world = w }) in
      let later = sleep o.machine settings.poll_interval_seconds s'.world in
      rounds-IsTimed n (record s' { world = later }) good
        (IsTimed-world s' later (
          tick-IsTimed (engine o settings) now (record s { world = w }) good (IsTimed-world s w h)))

  first-IsTimed : (w : World o settings) → IsTimed (policy_of settings) (first_session o settings w)
  first-IsTimed w = record { empty = tt; outage = tt; justified = tt }

  -- A session in which every execution and every restart is justified.
  abbrev pub RunsJustified : Checked (Eng.Session (World o settings)) → Type 0
  RunsJustified r =
      (s : Eng.Session (World o settings)) × (r ≡ valid s) × Justified (policy_of settings) s.calls

  run_watchdog-RunsJustified :
      (once : Bool) (n : ℕ) (w : World o settings)
      → accepts (policy_of settings) ≡ true
      → RunsJustified (run_watchdog o settings once n w)
  unfolding run_watchdog
  run_watchdog-RunsJustified once n w good =
      let (now, w') = monotonic o.machine w in
      if_intro RunsJustified (not (accepts (policy_of settings))) (λ e. absurd (ground arith))
        (λ _.
          if_intro RunsJustified once
            (λ _. (
              tick (engine o settings) now (first_session o settings w'),
              refl,
              (tick-IsTimed (engine o settings) now (first_session o settings w') good
                  (first-IsTimed w')).justified,
            ))
            (λ _. (
              rounds o settings n (first_session o settings w),
              refl,
              (rounds-IsTimed n (first_session o settings w) good (first-IsTimed w)).justified,
            )))

-- With settings that are accepted, the watchdog starts, and in every run of it, of one tick or of
-- any number of rounds, each execution of the shutdown comes at least the idle timeout after the
-- start of a tick since which every player count was zero, and each restart at least the outage
-- timeout after the start of a tick since which every player count was unknown and every health
-- check found the service down.
pub configured-RunsJustified :
    {W : Type 0} (o : Outside W) (p : Platform) (supplied : Environment) (settings : Settings)
    (once : Bool) (n : ℕ) (w : World o settings)
    → from_environment p supplied ≡ valid settings
    → RunsJustified o settings (run_watchdog o settings once n w)
configured-RunsJustified o p supplied settings once n w e =
    run_watchdog-RunsJustified o settings once n w
      (accepts-policy_of settings (from_environment-IsPermitted p supplied settings e).0)
