-- ===== src/Watchdog/Cli/Ready.antt =====
-- `wait_ready` of src/pz_watchdog/cli.py ends, and how.
use mathlib.Core.Path.{subst}
use pz_server.Prelude.{
  ◌≡◌, refl, ℕ, zero, suc, ◌+◌, ◌≤◌, ◌<◌, String, Bool, true, false, not, [], ltb, if_intro,
  if◌then◌else◌, arith,
}
use pz_server.Prelude.Integers.{ℤ, pos, negsuc}
use pz_server.Watchdog.Models.{is_unknown, healthy}
use pz_server.Watchdog.Config.{Settings}
use pz_server.Watchdog.Processes.{monotonic, sleep}
use pz_server.Watchdog.Rcon as Rcon
use pz_server.Watchdog.Rcon.{Response, Reading, got, refused, read_players, retry, pause}
use pz_server.Watchdog.Rcon.Client.{run_rcon}
use pz_server.Watchdog.Service.{
  is_healthy, Wait, became_healthy, timed_out, out_of_fuel, is_healthy_wait,
}
use pz_server.Watchdog.Service.Control.{docker_manager, tcp_manager}
use pz_server.Watchdog.Service.Deadline.{KeepsTime, health_passes, healthy_of_true}
use pz_server.Watchdog.Cli.{
  Outside, World, players, service, is_docker, docker_of, on_world, retrier,
}
use pz_server.Watchdog.Cli.Commands.{exit_of, deadline_after, seconds_of, ready_loop, wait_ready}

module _ {W : Type 0} (o : Outside W) (settings : Settings) (clock : W → ℕ)
    (k : KeepsTime o.machine clock)
    (connecting_passes : (host : String) (port : ℕ) (w : W)
      → clock w ≤ clock (o.connect host port w).1) where
  abbrev State : Type 0
  State = World o settings

  pause_passes :
      (n : ℕ) (s : Rcon.Session State)
      → clock s.world.world ≤ clock (pause (retrier o settings) n s).world.world
  unfolding pause
  pause_passes zero s = omega arith
  pause_passes (suc n) s =
      let passed = k.sleeping_passes settings.rcon_retry_delay_seconds s.world.world in omega arith

  retry_passes :
      (read : Response → Reading ℕ) (n : ℕ) (last : String) (s : Rcon.Session State)
      → clock s.world.world
        ≤ clock (retry (retrier o settings) "players" read n last s).1.world.world
  unfolding retry run_rcon
  retry_passes read zero last s = omega arith
  retry_passes read (suc n) last s =
      let s' = (Rcon.run (retrier o settings) "players" s).1 in
      let ran = k.running_passes _ settings.rcon_timeout_seconds s.world.world in
      let paused = pause_passes n s' in
      elim (read (Rcon.run (retrier o settings) "players" s).0)
        as (λ x.
          clock s.world.world
          ≤ clock
              (elim x as (λ _. Reading ℕ × Rcon.Session State) [
                | got a ↦ (got a, s')
                | refused m ↦
                    retry (retrier o settings) "players" read n m (pause (retrier o settings) n s')
              ]).1.world.world) [
                | got a ↦ ran
                | refused m ↦
                    let later = retry_passes read n m (pause (retrier o settings) n s') in
                    omega arith
              ]

  query_passes : (w : State) → clock w.world ≤ clock ((players o settings).query w).1.world
  unfolding Rcon.query
  query_passes w =
      retry_passes (read_players o.patterns) settings.rcon_retry_count "RCON query failed"
        (record { world = w; calls = [] })

  check_passes : (w : State) → clock w.world ≤ clock ((service o settings).health w).1.world
  check_passes w = go (is_docker o settings)
    where
      go :
          (docker : Bool)
          → clock w.world
            ≤ clock
                ((if docker
                    then docker_manager o.machine (docker_of o.loads settings)
                    else tcp_manager (
                        on_world o settings
                          (o.connect settings.rcon_host settings.rcon_port))).health
                  w).1.world
      go true = health_passes o.machine (docker_of o.loads settings) clock k w
      go false = connecting_passes settings.rcon_host settings.rcon_port w.world

  -- The states of one round: after the clock was read, the health was checked, and the players
  -- were counted.
  abbrev read_clock : State → State
  read_clock w = (monotonic o.machine w).1

  abbrev checked : State → State
  checked w = ((service o settings).health (read_clock w)).1

  abbrev counted : State → State
  counted w = ((players o settings).query (checked w)).1

  -- A round that began at `w`, before the deadline, and found the service healthy and the players
  -- known.
  abbrev pub IsReadyRound : ℕ → State → Type 0
  IsReadyRound deadline w =
      (clock w.world < deadline)
      × (((service o settings).health (read_clock w)).0 ≡ healthy)
      × (is_unknown ((players o settings).query (checked w)).0 ≡ false)

  abbrev WaitEnds : ℕ → Wait × State → Type 0
  WaitEnds deadline (became_healthy, w) =
      (begun : State) × IsReadyRound deadline begun × (w ≡ counted begun)
  WaitEnds deadline (timed_out, w) = deadline ≤ clock w.world
  WaitEnds deadline (out_of_fuel, w) = ⊥

  round-WaitEnds :
      (fuel deadline : ℕ) (w : State)
      → (clock w.world < deadline
          → (next : State) → clock w.world + 10 ≤ clock next.world
          → WaitEnds deadline (ready_loop o settings fuel deadline next))
      → WaitEnds deadline (ready_loop o settings (suc fuel) deadline w)
  unfolding ready_loop
  round-WaitEnds fuel deadline w later =
      let read = k.reads w.world in
      let first = k.reading_passes w.world in
      let second = check_passes (read_clock w) in
      let third = query_passes (checked w) in
      let Q = WaitEnds deadline in
      if_intro Q (not (ltb (monotonic o.machine w).0 deadline)) (λ h. ground arith)
        (λ h.
          let early : clock w.world < deadline = ground arith in
          if_intro Q (not (is_healthy ((service o settings).health (read_clock w)).0))
            (λ _.
              let slept = k.sleeping_passes 10 (checked w).world in
              later early (sleep o.machine 10 (checked w)) (omega arith))
            (λ e.
              if_intro Q (is_unknown ((players o settings).query (checked w)).0)
                (λ _.
                  let slept = k.sleeping_passes 10 (counted w).world in
                  later early (sleep o.machine 10 (counted w)) (omega arith))
                (λ f. (
                  w,
                  (
                    early,
                    healthy_of_true ((service o settings).health (read_clock w)).0 (ground arith),
                    f,
                  ),
                  refl,
                ))))

  loop-WaitEnds :
      (fuel deadline : ℕ) (w : State)
      → deadline ≤ clock w.world + fuel
      → WaitEnds deadline (ready_loop o settings (suc fuel) deadline w)
  loop-WaitEnds zero deadline w h =
      round-WaitEnds zero deadline w (λ early _ _. absurd (omega arith))
  loop-WaitEnds (suc fuel) deadline w h =
      round-WaitEnds (suc fuel) deadline w
        (λ early next passed. loop-WaitEnds fuel deadline next (omega arith))

  -- How `wait_ready` ends, by its exit code.
  abbrev pub Waited : ℕ → ℕ × State → Type 0
  Waited deadline (zero, w) = (begun : State) × IsReadyRound deadline begun × (w ≡ counted begun)
  Waited deadline (suc code, w) = (code ≡ 0) × (deadline ≤ clock w.world)

  WaitEnds-Waited :
      (deadline : ℕ) (ended : Wait) (w : State)
      → WaitEnds deadline (ended, w)
      → Waited deadline (exit_of (is_healthy_wait ended), w)
  WaitEnds-Waited deadline became_healthy w h = h
  WaitEnds-Waited deadline timed_out w h = (refl, h)
  WaitEnds-Waited deadline out_of_fuel w h = absurd h

  -- Where the clock never goes back, a sleep lasts as long as it is asked to, and an attempt to
  -- connect does not turn the clock back, wait-ready ends: with 0 right after a round that began
  -- before the deadline and found the service healthy and the players known, or with 1 once the
  -- deadline has passed.
  pub wait_ready-Waited :
      (timeout : ℤ) (w : State)
      → Waited (deadline_after (clock w.world) timeout) (wait_ready o settings timeout w)
  unfolding wait_ready
  wait_ready-Waited timeout w =
      let (now, w') = monotonic o.machine w in
      let read : now ≡ clock w.world = k.reads w.world in
      let deadline = deadline_after now timeout in
      let loop = ready_loop o settings (suc (seconds_of timeout)) deadline w' in
      subst (λ n. Waited (deadline_after n timeout) (wait_ready o settings timeout w)) read
        (WaitEnds-Waited deadline loop.0 loop.1
          (loop-WaitEnds (seconds_of timeout) deadline w' (enough timeout)))
    where
      enough :
          (t : ℤ)
          → deadline_after (monotonic o.machine w).0 t
            ≤ clock (monotonic o.machine w).1.world + seconds_of t
      enough (pos n) =
          let passed = k.reading_passes w.world in let read = k.reads w.world in omega arith
      enough (negsuc n) =
          let passed = k.reading_passes w.world in let read = k.reads w.world in omega arith
