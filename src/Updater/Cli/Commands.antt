-- ===== src/Updater/Cli/Commands.antt =====
-- The commands of src/pz_updater/cli.py, and `main`.
use pz_server.Prelude.{ℕ, String, Bool, if◌then◌else◌}
use pz_server.Prelude.Integers.{ℤ}
use pz_server.Updater.Cli.{
  Runtime, State, updater, outside, of_checked, give, version_of, wait_runtime_ready,
}
use pz_server.Updater.Config as Config
use pz_server.Updater.Config.{UpdateConfiguration, configuration_of}
use pz_server.Updater.Exec.{Failure, is_update_error, Result, ok, raised, Exec, ◌>>=◌, ◌>>◌, pure}
use pz_server.Updater.Lifecycle.{
  mark_world_opened, mark_runtime_ready, accept, fail_readiness, active_release,
}
use pz_server.Updater.Lifecycle as Life
use pz_server.Updater.Machine as Installation
use pz_server.Updater.Machine.{World}
use pz_server.Updater.Start.{prepare_start, explicit_update}
use pz_server.Updater.Update.{Configuration}

-- The subcommands, with their arguments.
pub data Command : Type 0 where
  prepare_start_command active_release_command status_command : Command
  mark_world_opened_command accept_command : Command
  update_command : Bool → Command
  mark_runtime_ready_command fail_readiness_command log_fingerprint_command : String → Command
  -- The process, the log, its fingerprint and the timeout
  wait_runtime_ready_command : ℤ → String → String → ℤ → Command

-- What `main` gives: an exit code, or an exception that it does not catch.
pub data Ending : Type 0 where
  exits : ℕ → Ending
  fails : Failure → Ending

abbrev pub ending : {A : Type 0} → Result A → Ending
ending (ok a) = exits 0
ending (raised e) = if is_update_error e then exits 1 else fails e

module _ {T W : Type 0} (env : Installation.Environment T) (rt : Runtime W) where
  abbrev Session : Type 0
  Session = State env rt

  -- The command, whose value is printed.
  abbrev pub quietly : {A : Type 0} → Exec (World T) A → Exec Session (Unit {0})
  quietly call = updater env rt call >> pure tt

  -- The branches of `_run` behind the configuration.
  unfoldable pub run_command : Configuration → Command → Exec Session (Unit {0})
  unfolding prepare_start explicit_update active_release mark_world_opened mark_runtime_ready accept
      fail_readiness Life.status wait_runtime_ready
  run_command c prepare_start_command =
      updater env rt (prepare_start env c) >> quietly (active_release env)
  run_command c active_release_command = quietly (active_release env)
  run_command c status_command = quietly (Life.status env)
  run_command c (update_command validate) = quietly (explicit_update env c validate)
  run_command c mark_world_opened_command = quietly (mark_world_opened env)
  run_command c (mark_runtime_ready_command log) = outside env rt (rt.read_log log) >>= λ text.
      let (version, revision) = version_of rt.versions text in
      updater env rt (mark_runtime_ready env c version revision) >> quietly (Life.status env)
  run_command c accept_command = quietly (accept env)
  run_command c (fail_readiness_command detail) =
      updater env rt (fail_readiness env detail) >> quietly (Life.status env)
  run_command c (log_fingerprint_command log) = outside env rt (rt.inspect_log log) >> pure tt
  run_command c (wait_runtime_ready_command pid log known timeout) =
      wait_runtime_ready env rt c pid log known timeout >> pure tt

  abbrev pub configuration : Exec Session UpdateConfiguration
  configuration = give env rt (of_checked (Config.from_environment rt.unicode rt.variables))

  -- `_run`
  unfoldable pub run : Command → Exec Session (Unit {0})
  unfolding run_command Config.from_environment
  run (log_fingerprint_command log) = outside env rt (rt.inspect_log log) >> pure tt
  run command = configuration >>= λ cfg. run_command (configuration_of cfg) command

  -- `main`
  unfoldable pub main : Command → Session → Ending × Session
  unfolding run
  main command s = let (r, s') = run command s in (ending r, s')
