-- ===== src/Watchdog/Cli/Commands.antt =====
-- The commands of src/pz_watchdog/cli.py, with their exit codes.
use pz_server.Prelude.{
  ℕ, zero, suc, ◌+◌, ◌-◌, String, Bool, true, false, not, ◌&&◌, ◌||◌, Option, none, some, ltb, [],
  if◌then◌else◌,
}
use pz_server.Prelude.Integers.{ℤ, pos, negsuc}
use pz_server.Prelude.Checked.{Checked, valid, invalid, crashed, ◌>>=◌}
use pz_server.Prelude.Environment.{Environment}
use pz_server.Watchdog.Models.{
  PlayerObservation, is_unknown, has_players, ShutdownOutcome, completed, dry_run, aborted,
}
use pz_server.Watchdog.Config.{Settings, Platform}
use pz_server.Watchdog.Config.Build.{from_environment}
use pz_server.Watchdog.Processes.{monotonic, sleep}
use pz_server.Watchdog.Service.{
  is_healthy, Wait, became_healthy, timed_out, out_of_fuel, is_healthy_wait,
}
use pz_server.Watchdog.Cli.{
  Outside, World, players, admin, service, is_docker, shut_down, run_watchdog,
}

-- The subcommands, with their arguments.
pub data Command : Type 0 where
  run once players_command save_command : Command
  status_command restart_command graceful_stop_command shutdown_host : Bool → Command
  wait_ready_command : ℤ → Command

-- `accepted = {"completed", "dry-run"}`
abbrev pub is_accepted : ShutdownOutcome → Bool
is_accepted completed = true
is_accepted dry_run = true
is_accepted aborted = false

abbrev pub exit_of : Bool → ℕ
exit_of success = if success then 0 else 1

-- `observation.is_unknown or (observation.count and not allow_connected_players)`
abbrev pub forbids : Bool → PlayerObservation → Bool
forbids allow o = is_unknown o || (has_players o && not allow)

-- `now + timeout`, as a bound from above on later times: a bound below 0 is as good as 0.
abbrev pub deadline_after : ℕ → ℤ → ℕ
deadline_after now (pos n) = now + n
deadline_after now (negsuc n) = now - suc n

abbrev pub seconds_of : ℤ → ℕ
seconds_of (pos n) = n
seconds_of (negsuc n) = 0

module _ {W : Type 0} (o : Outside W) (settings : Settings) where
  abbrev State : Type 0
  State = World o settings

  -- `collect` and the printing, behind their exit code
  abbrev pub reported : Option String → State → Checked (ℕ × State)
  reported none w = valid (0, w)
  reported (some name) w = crashed name

  unfoldable pub status : Bool → State → Checked (ℕ × State)
  status as_json w =
      let (found, w') = (players o settings).query w in
      let (failure, world) = o.report as_json found w'.world in
      if not (is_docker o settings)
      then valid (2, w)
      else reported failure (record w' { world = world })

  -- `graceful_stop`, from the second query on.
  unfoldable pub stop_saved : Bool → State → ℕ × State
  stop_saved allow w =
      let (after, w1) = (players o settings).query w in
      if forbids allow after
      then (1, w1)
      else let (stopped, w2) =
          (service o settings).graceful_stop settings.service_stop_timeout_seconds w1 in
        (exit_of stopped, w2)

  unfoldable pub graceful_stop : Bool → State → ℕ × State
  unfolding stop_saved
  graceful_stop allow w =
      let (before, w1) = (players o settings).query w in
      if forbids allow before
      then (1, w1)
      else let (saved, w2) = (admin o settings).save w1 in
        if not saved then (1, w2) else stop_saved allow (sleep o.machine 10 w2)

  -- The loop of `wait_ready`, until the deadline.
  unfoldable pub ready_loop : ℕ → ℕ → State → Wait × State
  ready_loop zero deadline w = (out_of_fuel, w)
  ready_loop (suc fuel) deadline w =
      let (now, w1) = monotonic o.machine w in
      let (health, w2) = (service o settings).health w1 in
      let (found, w3) = (players o settings).query w2 in
      let unhealthy_later = ready_loop fuel deadline (sleep o.machine 10 w2) in
      let unknown_later = ready_loop fuel deadline (sleep o.machine 10 w3) in
      if not (ltb now deadline)
      then (timed_out, w1)
      else if not (is_healthy health)
      then unhealthy_later
      else if is_unknown found
      then unknown_later
      else (became_healthy, w3)

  -- `wait_ready`: with one second or more for each round, the fuel is enough.
  unfoldable pub wait_ready : ℤ → State → ℕ × State
  unfolding ready_loop
  wait_ready timeout w =
      let (now, w') = monotonic o.machine w in
      let (ended, w'') = ready_loop (suc (seconds_of timeout)) (deadline_after now timeout) w' in
      (exit_of (is_healthy_wait ended), w'')

  unfoldable pub restart : Bool → State → ℕ × State
  restart allow w =
      let (found, w1) = (players o settings).query w in
      if forbids allow found
      then (1, w1)
      else let (restarted, w2) = (service o settings).restart w1 in (exit_of restarted, w2)

  abbrev exit_with : ℕ × State → Checked (Option ℕ × State)
  exit_with (code, w) = valid (some code, w)

  -- `execute`, with the exit code; `run` has none, since its loop goes on after `n` rounds.
  unfoldable pub execute : ℕ → Command → State → Checked (Option ℕ × State)
  unfolding status graceful_stop wait_ready restart
  execute n run w = run_watchdog o settings false n w >>= λ s. valid (none, s.world)
  execute n once w = run_watchdog o settings true n w >>= λ s. valid (some 0, s.world)
  execute n (status_command as_json) w = status as_json w >>= exit_with
  execute n players_command w =
      let (found, w') = (players o settings).query w in
      exit_with (if is_unknown found then 2 else 0, w')
  execute n save_command w =
      let (saved, w') = (admin o settings).save w in exit_with (exit_of saved, w')
  execute n (restart_command allow) w = exit_with (restart allow w)
  execute n (graceful_stop_command allow) w = exit_with (graceful_stop allow w)
  execute n (shutdown_host allow) w =
      let (outcome, w') = shut_down o settings settings.dry_run allow w in
      exit_with (exit_of (is_accepted outcome), w')
  execute n (wait_ready_command timeout) w = exit_with (wait_ready timeout w)

-- What `main` gives: an exit code, or the name of an exception that it does not catch, or nothing
-- yet. A KeyboardInterrupt is not modelled.
pub data Ending : Type 0 where
  exits : ℕ → Ending
  fails : String → Ending
  goes_on : Ending

abbrev pub ending : {A : Type 0} → Checked (Option ℕ × A) → Ending
ending (valid (some code, w)) = exits code
ending (valid (none, w)) = goes_on
ending (invalid message) = exits 64
ending (crashed name) = fails name

-- `main`
unfoldable pub main : {W : Type 0} → Outside W → Platform → Environment → ℕ → Command → W → Ending
unfolding execute from_environment
main o p environment n command w = ending (
    from_environment p environment >>= λ settings.
    execute o settings n command (record { world = w; memory = none; calls = [] }))
