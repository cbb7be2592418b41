-- ===== src/Updater/Cli/Waiting.antt =====
-- `_wait_runtime_ready` of src/pz_updater/cli.py ends.
use pz_server.Prelude.{
  ◌⊎◌, ℕ, zero, suc, ◌+◌, ◌-◌, ◌≤◌, ◌<◌, String, not, ◌&&◌, ltb, leb, if_intro, arith,
}
use pz_server.Prelude.Text.{is_empty}
use pz_server.Prelude.Integers.{ℤ, pos, negsuc}
use pz_server.Prelude.Environment.{get_or}
use pz_server.Watchdog.Processes.{monotonic}
use pz_server.Watchdog.Service.Deadline.{KeepsTime}
use pz_server.Updater.Cli.{
  Runtime, State, Awaited, is_ready, out_of_fuel, updater, of_checked, give, ask_rcon,
  environment_integer, query_players, become_ready, fail_with, pause_until, after_query, await,
  start_waiting, wait_runtime_ready, fresh_version, smaller,
}
use pz_server.Updater.Exec.{
  update_error, incompatible, os_error, other_error, killed, Result, ok, raised, Exec, ◌>>=◌, ◌>>◌,
  raise,
}
use pz_server.Updater.Lifecycle.{mark_runtime_ready, fail_readiness, status}
use pz_server.Updater.Machine.{Environment}
use pz_server.Updater.Update.{Configuration}
use pz_server.Updater.Soundness.Rules.{Meets, bind-Meets, both-Meets}

module _ {T W : Type 0} (env : Environment T) (rt : Runtime W) where
  abbrev Here : Type 0
  Here = State env rt

  -- The loop has returned or raised; its fuel has not run out.
  abbrev pub Returns : Result Awaited → Type 0
  Returns (ok (is_ready r)) = Unit
  Returns (ok out_of_fuel) = ⊥
  Returns (raised e) = Unit

  abbrev Done : Result Awaited × Here → Type 0
  Done r = Meets (λ a _. Returns (ok a)) (λ _. Unit {0}) r

  become_ready-Done :
      (c : Configuration) (log known : String) (players : ℕ) (s : Here)
      → Done (become_ready env rt c log known players s)
  unfolding become_ready
  become_ready-Done c log known players s =
      bind-Meets (λ _ _. Unit {0}) (λ a _. Returns (ok a)) (λ _. Unit {0})
        (fresh_version env rt log known) _ s (anything (fresh_version env rt log known s))
        (λ found s1 _.
          bind-Meets (λ _ _. Unit {0}) (λ a _. Returns (ok a)) (λ _. Unit {0})
            (updater env rt (mark_runtime_ready env c found.0 found.1)
              >> updater env rt (status env))
            _ s1 (anything _) (λ _ _ _. tt))
    where
      anything : {A : Type 0} (r : Result A × Here) → Meets (λ _ _. Unit {0}) (λ _. Unit {0}) r
      anything (ok a, t) = tt
      anything (raised e, t) = tt

  fail_with-Done : (detail : String) (s : Here) → Done (fail_with env rt detail s)
  unfolding fail_with
  fail_with-Done detail s =
      bind-Meets (λ _ _. Unit {0}) (λ a _. Returns (ok a)) (λ _. Unit {0})
        (updater env rt (fail_readiness env detail)) (λ _. raise (update_error detail)) s
        (both-Meets (λ _ _. Unit {0}) (λ _ _. Unit {0}) (λ _. Unit {0}) (λ _. Unit {0})
          (updater env rt (fail_readiness env detail) s).0
          (updater env rt (fail_readiness env detail) s).1 (λ _. tt) tt)
        (λ _ _ _. tt)

  after_query-Done :
      (r : Result ℕ) (ready : ℕ → Exec Here Awaited) (later : String → Exec Here Awaited) (s : Here)
      → ((n : ℕ) → Done (ready n s))
      → ((detail : String) → Done (later detail s))
      → Done (after_query env rt r ready later s)
  after_query-Done (ok players) ready later s k l = k players
  after_query-Done (raised (update_error detail)) ready later s k l = l detail
  after_query-Done (raised (incompatible detail)) ready later s k l = l detail
  after_query-Done (raised (os_error name)) ready later s k l = tt
  after_query-Done (raised (other_error name)) ready later s k l = tt
  after_query-Done (raised killed) ready later s k l = tt

  module _ (clock : W → ℕ) (k : KeepsTime rt.machine clock)
      (asking_passes : (pid : ℕ) (w : W) → clock w ≤ clock (rt.is_alive pid w).1) where
    Passed_query : (s : Here) → clock s.world ≤ clock (query_players env rt s).1.world
    unfolding query_players
    Passed_query s =
        if_intro (λ (m : Exec Here ℕ). clock s.world ≤ clock (m s).1.world)
          (is_empty (get_or rt.variables "RCON_PASSWORD" "")) (λ _. omega arith)
          (λ _.
            with_port (of_checked (environment_integer env rt "RCON_PORT" 27015 1024 65535))
              (of_checked (environment_integer env rt "RCON_TIMEOUT_SECONDS" 10 1 60)))
      where
        with_port :
            (port timeout : Result ℕ)
            → clock s.world
              ≤ clock
                  ((give env rt port >>= λ p. give env rt timeout >>= ask_rcon env rt p) s).1.world
        with_port (ok p) (ok t) = k.running_passes _ t s.world
        with_port (ok p) (raised e) = omega arith
        with_port (raised e) timeout = omega arith

    -- The pause is a second at least, or it reaches the deadline.
    pause_passes :
        (deadline : ℕ) (s : Here)
        → (clock s.world ≤ clock (pause_until env rt deadline s).world)
          × (deadline ≤ clock (pause_until env rt deadline s).world
              ⊎ (clock s.world < clock (pause_until env rt deadline s).world))
    pause_passes deadline s =
        let (now, s') = monotonic rt.machine s in
        let read = k.reads s.world in
        let first = k.reading_passes s.world in
        let second = k.sleeping_passes (smaller 5 (deadline - now)) s'.world in ground arith

    round-Done :
        (fuel : ℕ) (c : Configuration) (pid : ℕ) (log known : String) (deadline : ℕ)
        (detail : String) (s : Here)
        → (clock s.world < deadline
            → (why : String) (t : Here)
            → (deadline ≤ clock t.world) ⊎ (clock s.world < clock t.world)
            → Done (await env rt fuel c pid log known deadline why t))
        → Done (await env rt (suc fuel) c pid log known deadline detail s)
    unfolding await
    round-Done fuel c pid log known deadline detail s later =
        let (now, s1) = monotonic rt.machine s in
        let (alive, w) = rt.is_alive pid s1.world in
        let s2 : Here = record s1 { world = w } in
        let (found, s3) = query_players env rt s2 in
        let read = k.reads s.world in
        let first = k.reading_passes s.world in
        let second = asking_passes pid s1.world in
        let third = Passed_query s2 in
        let (kept, forward) = pause_passes deadline s3 in
        if_intro Done (not (ltb now deadline)) (λ _. fail_with-Done _ s1)
          (λ h.
            let early : clock s.world < deadline = ground arith in
            if_intro Done (not alive) (λ _. fail_with-Done _ s2)
              (λ _.
                after_query-Done found (become_ready env rt c log known) _ s3
                  (λ n. become_ready-Done c log known n s3)
                  (λ why. later early why (pause_until env rt deadline s3) (ground arith))))

    await-Done :
        (fuel : ℕ) (c : Configuration) (pid : ℕ) (log known : String) (deadline : ℕ)
        (detail : String) (s : Here)
        → deadline ≤ clock s.world + fuel
        → Done (await env rt (suc fuel) c pid log known deadline detail s)
    await-Done zero c pid log known deadline detail s h =
        round-Done zero c pid log known deadline detail s (λ early _ _ _. absurd (omega arith))
    await-Done (suc fuel) c pid log known deadline detail s h =
        round-Done (suc fuel) c pid log known deadline detail s
          (λ early why t forward. await-Done fuel c pid log known deadline why t (ground arith))

    start_waiting-Done :
        (c : Configuration) (pid : ℕ) (log known : String) (timeout : ℕ) (s : Here)
        → Done (start_waiting env rt c pid log known timeout s)
    unfolding start_waiting
    start_waiting-Done c pid log known timeout s =
        let (now, s1) = monotonic rt.machine s in
        let (next_progress, s2) = monotonic rt.machine s1 in
        let read = k.reads s.world in
        let first = k.reading_passes s.world in
        let second = k.reading_passes s1.world in
        await-Done timeout c pid log known (now + timeout) "RCON has not been queried" s2
          (omega arith)

    of_Done : (r : Result Awaited × Here) → Done r → Returns r.0
    of_Done (ok a, s) h = h
    of_Done (raised e, s) h = tt

    -- Where the clock never goes back, a sleep lasts as long as it is asked to, and the question
    -- whether a process lives does not turn the clock back, `_wait_runtime_ready` returns or raises,
    -- with whatever arguments: its loop does not run out of fuel.
    pub wait_runtime_ready-Returns :
        (c : Configuration) (pid : ℤ) (log known : String) (timeout : ℤ) (s : Here)
        → Returns (wait_runtime_ready env rt c pid log known timeout s).0
    unfolding wait_runtime_ready
    wait_runtime_ready-Returns c (negsuc n) log known timeout s = tt
    wait_runtime_ready-Returns c (pos zero) log known timeout s = tt
    wait_runtime_ready-Returns c (pos (suc n)) log known (negsuc m) s = tt
    wait_runtime_ready-Returns c (pos (suc n)) log known (pos timeout) s =
        if_intro (λ (m : Exec Here Awaited). Returns (m s).0) (leb 30 timeout && leb timeout 3600)
          (λ _.
            of_Done (start_waiting env rt c (suc n) log known timeout s)
              (start_waiting-Done c (suc n) log known timeout s))
          (λ _. tt)
