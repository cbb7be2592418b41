-- ===== src/Updater/Soundness/Commands.antt =====
-- Every command of src/pz_updater/cli.py keeps the invariant of the machine.
use pz_server.Prelude.{ℕ}
use pz_server.Updater.Cli.{Runtime, updater, of_checked, give, version_of, wait_runtime_ready}
use pz_server.Updater.Cli.Commands.{
  Command, prepare_start_command, active_release_command, status_command, mark_world_opened_command,
  accept_command, update_command, mark_runtime_ready_command, fail_readiness_command,
  log_fingerprint_command, wait_runtime_ready_command, quietly, run_command, run, main,
}
use pz_server.Updater.Config as Config
use pz_server.Updater.Config.{UpdateConfiguration, configuration_of}
use pz_server.Updater.Exec.{Result, ok, raised, ◌>>=◌, pure}
use pz_server.Updater.Lifecycle.{
  mark_world_opened, mark_runtime_ready, accept, fail_readiness, active_release, status,
}
use pz_server.Updater.Machine.{World, Environment}
use pz_server.Updater.Start.{prepare_start, explicit_update}
use pz_server.Updater.Update.{Configuration}
use pz_server.Updater.Soundness.Steps.{Apart}
use pz_server.Updater.Soundness.Invariant.{IsSound}
use pz_server.Updater.Soundness.Launch.{prepare_start-IsSound, explicit_update-IsSound}
use pz_server.Updater.Soundness.Operations.{
  accept-IsSound, mark_runtime_ready-IsSound, mark_world_opened-IsSound, fail_readiness-IsSound,
}
use pz_server.Updater.Soundness.Reading.{active_release-IsSound, status-IsSound}
use pz_server.Updater.Soundness.Waiting.{
  Here, HoldsIn, Ends, then-Ends, updater-Ends, quietly-Ends, wait_runtime_ready-Ends,
}

module _ {T W : Type 0} (env : Environment T) (rt : Runtime W) where
  -- The names that are made for taken names are not the active release's.
  abbrev pub MakesFreshNames : World T → Type 0
  MakesFreshNames w = (k b : ℕ) → Apart w.active (env.alternative_name k b)

  run_command-Ends :
      (c : Configuration) (command : Command) (s : Here env rt)
      → MakesFreshNames s.memory
      → HoldsIn env rt s
      → Ends env rt (run_command env rt c command s)
  unfolding run_command
  run_command-Ends c prepare_start_command s fresh h =
      then-Ends env rt (updater env rt (prepare_start env c))
        (λ _. quietly env rt (active_release env)) s
        (updater-Ends env rt (prepare_start env c) s (prepare_start-IsSound env c s.memory fresh h))
        (λ _ s' k.
          quietly-Ends env rt (active_release env) s' (active_release-IsSound env s'.memory k))
  run_command-Ends c active_release_command s fresh h =
      quietly-Ends env rt (active_release env) s (active_release-IsSound env s.memory h)
  run_command-Ends c status_command s fresh h =
      quietly-Ends env rt (status env) s (status-IsSound env s.memory h)
  run_command-Ends c mark_world_opened_command s fresh h =
      quietly-Ends env rt (mark_world_opened env) s (mark_world_opened-IsSound env s.memory h)
  run_command-Ends c accept_command s fresh h =
      quietly-Ends env rt (accept env) s (accept-IsSound env s.memory h)
  run_command-Ends c (update_command validate) s fresh h =
      quietly-Ends env rt (explicit_update env c validate) s
        (explicit_update-IsSound env c validate s.memory fresh h)
  run_command-Ends c (mark_runtime_ready_command log) s fresh h =
      let (text, w) = rt.read_log log s.world in
      let found = version_of rt.versions text in
      let s1 : Here env rt = record s { world = w } in
      then-Ends env rt (updater env rt (mark_runtime_ready env c found.0 found.1))
        (λ _. quietly env rt (status env)) s1
        (updater-Ends env rt (mark_runtime_ready env c found.0 found.1) s1
          (mark_runtime_ready-IsSound env c found.0 found.1 s1.memory h))
        (λ _ s' k. quietly-Ends env rt (status env) s' (status-IsSound env s'.memory k))
  run_command-Ends c (fail_readiness_command detail) s fresh h =
      then-Ends env rt (updater env rt (fail_readiness env detail))
        (λ _. quietly env rt (status env)) s
        (updater-Ends env rt (fail_readiness env detail) s
          (fail_readiness-IsSound env detail s.memory h))
        (λ _ s' k. quietly-Ends env rt (status env) s' (status-IsSound env s'.memory k))
  run_command-Ends c (log_fingerprint_command log) s fresh h = h
  run_command-Ends c (wait_runtime_ready_command pid log known timeout) s fresh h =
      then-Ends env rt (wait_runtime_ready env rt c pid log known timeout) (λ _. pure tt) s
        (wait_runtime_ready-Ends env rt c pid log known timeout s h) (λ _ _ k. k)

  -- The configuration is read, and the command follows.
  configured-Ends :
      (command : Command) (r : Result UpdateConfiguration) (s : Here env rt)
      → MakesFreshNames s.memory
      → HoldsIn env rt s
      → Ends env rt ((give env rt r >>= λ cfg. run_command env rt (configuration_of cfg) command) s)
  configured-Ends command (ok cfg) s fresh h =
      run_command-Ends (configuration_of cfg) command s fresh h
  configured-Ends command (raised e) s fresh h = h

  -- What was read as the configuration.
  abbrev read : Result UpdateConfiguration
  read = of_checked (Config.from_environment rt.unicode rt.variables)

  run-Ends :
      (command : Command) (s : Here env rt)
      → MakesFreshNames s.memory
      → HoldsIn env rt s
      → Ends env rt (run env rt command s)
  unfolding run
  run-Ends prepare_start_command s fresh h = configured-Ends prepare_start_command read s fresh h
  run-Ends active_release_command s fresh h = configured-Ends active_release_command read s fresh h
  run-Ends status_command s fresh h = configured-Ends status_command read s fresh h
  run-Ends mark_world_opened_command s fresh h =
      configured-Ends mark_world_opened_command read s fresh h
  run-Ends accept_command s fresh h = configured-Ends accept_command read s fresh h
  run-Ends (update_command validate) s fresh h =
      configured-Ends (update_command validate) read s fresh h
  run-Ends (mark_runtime_ready_command log) s fresh h =
      configured-Ends (mark_runtime_ready_command log) read s fresh h
  run-Ends (fail_readiness_command detail) s fresh h =
      configured-Ends (fail_readiness_command detail) read s fresh h
  run-Ends (wait_runtime_ready_command pid log known timeout) s fresh h =
      configured-Ends (wait_runtime_ready_command pid log known timeout) read s fresh h
  run-Ends (log_fingerprint_command log) s fresh h = h

  of_Ends : {A : Type 0} (r : Result A × Here env rt) → Ends env rt r → IsSound r.1.memory
  of_Ends (ok a, s) h = h
  of_Ends (raised e, s) h = h

  -- Every command leaves a sound machine sound, with whatever configuration, whatever the
  -- environment and the rest of the host answer, and also where it fails or the process ends at one
  -- of its steps. The names that are made for taken names must not be the active release's.
  pub main-IsSound :
      (command : Command) (s : Here env rt)
      → MakesFreshNames s.memory
      → IsSound s.memory
      → IsSound (main env rt command s).1.memory
  unfolding main
  main-IsSound command s fresh h = of_Ends (run env rt command s) (run-Ends command s fresh h)
