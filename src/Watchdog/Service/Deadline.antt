-- ===== src/Watchdog/Service/Deadline.antt =====
-- `wait_until_healthy` of src/pz_watchdog/service.py ends, and how.
use mathlib.Core.Path.{subst}
use pz_server.Prelude.{
  ◌≡◌, refl, ap, ℕ, zero, suc, ◌+◌, ◌≤◌, ◌<◌, String, Bool, true, false, not, Option, none, some,
  List, ltb, if_intro, arith,
}
use pz_server.Prelude.Json.{Fields}
use pz_server.Watchdog.Models.{ServiceHealth, healthy, unhealthy, stopped, unknown}
use pz_server.Watchdog.Processes.{Machine, monotonic, sleep}
use pz_server.Watchdog.Service.{
  DockerComposeService, Inspection, established, inspection_error, Docker, inspect_command, present,
  container_id, run_compose, inspect_container_state, inspect_state, health, is_healthy, Wait,
  became_healthy, timed_out, out_of_fuel, is_healthy_wait, timeout_or, wait, wait_until_healthy,
}

-- What Python documents of `time.monotonic`, which never goes back, and of `time.sleep`, which
-- takes at least as long as it is asked to: `clock` is the time of a world.
pub record KeepsTime {W : Type 0} (machine : Machine W) (clock : W → ℕ) : Type 0 where
  pub reads : (w : W) → (machine.monotonic w).0 ≡ clock w
  pub reading_passes : (w : W) → clock w ≤ clock (machine.monotonic w).1
  pub running_passes :
      (command : List String) (timeout : ℕ) (w : W)
      → clock w ≤ clock (machine.run command timeout w).1
  pub sleeping_passes : (delay : ℕ) (w : W) → clock w + delay ≤ clock (machine.sleep delay w)

pub healthy_of_true : (h : ServiceHealth) → is_healthy h ≡ true → h ≡ healthy
healthy_of_true healthy e = refl
healthy_of_true unhealthy e = cc
healthy_of_true stopped e = cc
healthy_of_true unknown e = cc

module _ {W : Type 0} (machine : Machine W) (c : DockerComposeService) (clock : W → ℕ)
    (k : KeepsTime machine clock) where
  abbrev State : Type 0
  State = Docker machine c

  -- The loop ends with a health check that began before the deadline and finds the service
  -- healthy, or after the deadline; it never runs out of fuel.
  abbrev pub WaitEnds : ℕ → Wait × State → Type 0
  WaitEnds deadline (became_healthy, s) =
      (begun : State) × (clock begun.world < deadline)
      × (health machine c (monotonic machine begun).1 ≡ (healthy, s))
  WaitEnds deadline (timed_out, s) = deadline ≤ clock s.world
  WaitEnds deadline (out_of_fuel, s) = ⊥

  pub health_passes : (s : State) → clock s.world ≤ clock (health machine c s).1.world
  unfolding health inspect_state container_id run_compose inspect_container_state
  health_passes s = go (container_id machine c true s).0
    where
      s' : State
      s' = (container_id machine c true s).1

      first : clock s.world ≤ clock s'.world
      first = k.running_passes _ 60 s.world

      go :
          (found : Inspection (Option String))
          → clock s.world
            ≤ clock
                (elim found as (λ _. Inspection (Option Fields) × State) [
                  | inspection_error message ↦ (inspection_error message, s')
                  | established none ↦ (established none, s')
                  | established (some identifier) ↦
                      let (state, s'') = inspect_container_state machine c identifier s' in
                      (present machine c state, s'')
                ]).1.world
      go (inspection_error m) = first
      go (established none) = first
      go (established (some identifier)) =
          let second = k.running_passes (inspect_command identifier) 30 s'.world in omega arith

  -- The state in which the next round begins, if there is one.
  abbrev next : State → State
  next s = sleep machine 5 (health machine c (monotonic machine s).1).1

  round-WaitEnds :
      (fuel deadline : ℕ) (s : State)
      → (clock s.world < deadline
          → clock s.world + 5 ≤ clock (next s).world
          → WaitEnds deadline (wait machine c fuel deadline (next s)))
      → WaitEnds deadline (wait machine c (suc fuel) deadline s)
  unfolding wait
  round-WaitEnds fuel deadline s later =
      let (now, s1) = monotonic machine s in
      let (found, s2) = health machine c s1 in
      let read = k.reads s.world in
      let first = k.reading_passes s.world in
      let second = health_passes s1 in
      let third = k.sleeping_passes 5 s2.world in
      if_intro (WaitEnds deadline) (not (ltb now deadline)) (λ h. ground arith)
        (λ h.
          let early : clock s.world < deadline = ground arith in
          if_intro (WaitEnds deadline) (is_healthy found)
            (λ e. (s, early, ap (λ r. (r, s2)) (healthy_of_true found e)))
            (λ _. later early (omega arith)))

  wait-WaitEnds :
      (fuel deadline : ℕ) (s : State)
      → deadline ≤ clock s.world + fuel
      → WaitEnds deadline (wait machine c (suc fuel) deadline s)
  wait-WaitEnds zero deadline s h = round-WaitEnds zero deadline s (λ early _. absurd (omega arith))
  wait-WaitEnds (suc fuel) deadline s h =
      round-WaitEnds (suc fuel) deadline s
        (λ early passed. wait-WaitEnds fuel deadline (next s) (omega arith))

  -- How `wait_until_healthy` ends, by its result.
  abbrev pub Waited : ℕ → Bool × State → Type 0
  Waited deadline (true, s) =
      (begun : State) × (clock begun.world < deadline)
      × (health machine c (monotonic machine begun).1 ≡ (healthy, s))
  Waited deadline (false, s) = deadline ≤ clock s.world

  WaitEnds-Waited :
      (deadline : ℕ) (ended : Wait) (s : State)
      → WaitEnds deadline (ended, s)
      → Waited deadline (is_healthy_wait ended, s)
  WaitEnds-Waited deadline became_healthy s h = h
  WaitEnds-Waited deadline timed_out s h = h
  WaitEnds-Waited deadline out_of_fuel s h = absurd h

  -- Where the clock never goes back and a sleep lasts as long as it is asked to,
  -- `wait_until_healthy` ends: with `true` right after a health check that began before the
  -- deadline and found the service healthy, or with `false` once the deadline has passed.
  pub wait_until_healthy-Waited :
      (timeout : Option ℕ) (s : State)
      → Waited
          (clock s.world + timeout_or timeout c.ready_timeout_seconds)
          (wait_until_healthy machine c timeout s)
  unfolding wait_until_healthy
  wait_until_healthy-Waited timeout s =
      let seconds = timeout_or timeout c.ready_timeout_seconds in
      let (now, s') = monotonic machine s in
      let passed = k.reading_passes s.world in
      let read : now ≡ clock s.world = k.reads s.world in
      subst (λ n. Waited (n + seconds) (wait_until_healthy machine c timeout s)) read
        (WaitEnds-Waited (now + seconds) (wait machine c (suc seconds) (now + seconds) s').0
          (wait machine c (suc seconds) (now + seconds) s').1
          (wait-WaitEnds seconds (now + seconds) s' (omega arith)))
