-- ===== src/Watchdog/Cli.antt =====
-- src/pz_watchdog/cli.py: the parts put together from the settings, and the commands. `Outside` is
-- what the commands take from outside the package. Log messages and the argument parser are not
-- modelled.
mod Tests
pub mod Commands
pub mod Ready
pub mod Exits
pub mod Running
use pz_server.Prelude.{
  ℕ, zero, suc, ◌+◌, String, Bool, true, false, not, ◌&&◌, ◌||◌, Option, none, some, List, [], ◌∷◌,
  ltb, str_eq, if◌then◌else◌,
}
use pz_server.Prelude.Checked.{Checked, valid, invalid, crashed}
use pz_server.Prelude.Environment.{Environment}
use pz_server.Prelude.Json.{Json}
use pz_server.Watchdog.Models.{
  PlayerObservation, is_unknown, has_players, ShutdownOutcome, completed, dry_run, aborted,
}
use pz_server.Watchdog.Ports.{
  PlayerCounter, ServiceManager, ShutdownAction, HostPowerController, Admin, Sleeper,
}
use pz_server.Watchdog.Config.{Settings, Platform}
use pz_server.Watchdog.Config.Build.{from_environment}
use pz_server.Watchdog.Engine.{Engine, WatchdogPolicy, accepts, initial, tick}
use pz_server.Watchdog.Engine as Eng
use pz_server.Watchdog.Processes.{Machine, Session, monotonic, sleep}
use pz_server.Watchdog.Rcon as Rcon
use pz_server.Watchdog.Rcon.{Patterns, Retrier}
use pz_server.Watchdog.Rcon.Client.{RconCliClient, run_rcon}
use pz_server.Watchdog.Service.{DockerComposeService, is_healthy}
use pz_server.Watchdog.Service.Control.{docker_manager, tcp_manager}
use pz_server.Watchdog.Shutdown.{Host, SystemdPowerController, systemd, ShutdownCoordinator}
use pz_server.Watchdog.Shutdown as Stop

-- The host, the regular expressions, `json.loads`, the power control, `socket.create_connection`
-- of a host and a port, and the collection and the printing of metrics, which give the name of the
-- exception that they raise, if any.
pub record Outside (W : Type 0) : Type 0 where
  pub machine : Machine W
  pub patterns : Patterns
  pub loads : String → Option Json
  pub host : Host W
  pub connect : String → ℕ → W → Bool × W
  pub report : Bool → PlayerObservation → W → Option String × W

-- `build_components` gives the client, the service and the power controller these settings.
abbrev pub client_of : Settings → RconCliClient
client_of s = record {
  command = s.rcon_cli_command;
  host = s.rcon_host;
  port = s.rcon_port;
  timeout_seconds = s.rcon_timeout_seconds;
}

abbrev pub docker_of : (String → Option Json) → Settings → DockerComposeService
docker_of loads s = record {
  project_directory = s.compose_project_directory;
  service = s.compose_service;
  env_file = s.compose_env_file;
  ready_timeout_seconds = 900;
  loads = loads;
}

abbrev pub controller_of : Settings → SystemdPowerController
controller_of s = record {
  deployment_environment = s.deployment_environment;
  enabled = s.host_shutdown_enabled;
}

abbrev pub policy_of : Settings → WatchdogPolicy
policy_of s = record {
  idle_timeout_seconds = s.idle_timeout_seconds;
  health_failure_timeout_seconds = s.health_failure_timeout_seconds;
  final_check_count = s.final_check_count;
  final_check_delay_seconds = s.final_check_delay_seconds;
  progress_interval_seconds = 300;
  dry_run = s.dry_run;
}

module _ {W : Type 0} (o : Outside W) (settings : Settings) where
  -- The world with the memory of the Docker service.
  abbrev pub World : Type 0
  World = Session W (Option String)

  abbrev pub on_world : {A : Type 0} → (W → A × W) → World → A × World
  on_world call s = let (a, w) = call s.world in (a, record s { world = w })

  abbrev pub retrier : Retrier World
  retrier = record {
    run = run_rcon o.machine (client_of settings);
    sleep = sleep o.machine;
    attempts = settings.rcon_retry_count;
    retry_delay_seconds = settings.rcon_retry_delay_seconds;
  }

  abbrev pub players : PlayerCounter World
  players = record {
    query = λ w.
        let (found, s) = Rcon.query retrier o.patterns (record { world = w; calls = [] }) in
        (found, s.world);
  }

  -- What `save` returns. The processes of `Machine` have outputs that can be decoded, so that
  -- `run_rcon` gives no ValueError, and `save` raises none.
  abbrev returned : Checked Bool → Bool
  returned (valid saved) = saved
  returned (invalid message) = false
  returned (crashed name) = false

  abbrev pub admin : Admin World
  admin = record {
    save = λ w.
        let (saved, s) = Rcon.save retrier o.patterns (record { world = w; calls = [] }) in
        (returned saved, s.world);
  }

  abbrev pub is_docker : Bool
  is_docker = str_eq settings.service_control_mode "docker"

  abbrev pub service : ServiceManager World
  service =
      if is_docker
      then docker_manager o.machine (docker_of o.loads settings)
      else tcp_manager (on_world (o.connect settings.rcon_host settings.rcon_port))

  abbrev pub power : HostPowerController World
  power =
      let controller = systemd o.host (controller_of settings) in
      record { eligible = on_world controller.eligible; shutdown = on_world controller.shutdown }

  abbrev pub coordinator : ShutdownCoordinator World
  coordinator = record {
    players = players;
    admin = admin;
    service = service;
    host = power;
    sleeper = record { sleep = sleep o.machine };
    service_stop_timeout_seconds = settings.service_stop_timeout_seconds;
    save_settle_seconds = 10;
  }

  -- The coordinator as `tick` and `shutdown-host` call it.
  unfoldable pub shut_down : Bool → Bool → World → ShutdownOutcome × World
  shut_down dry allow w =
      let (outcome, s) = Stop.execute coordinator dry allow (record { world = w; acts = [] }) in
      (outcome, s.world)

  abbrev pub engine : Engine World
  engine = record {
    players = players;
    service = service;
    shutdown = record { execute = λ dry. shut_down dry false };
    sleeper = record { sleep = sleep o.machine };
    policy = policy_of settings;
  }

  -- The loop of `run_watchdog`, for a number of rounds.
  unfoldable pub rounds : ℕ → Eng.Session World → Eng.Session World
  rounds zero s = s
  rounds (suc n) s =
      let (now, w) = monotonic o.machine s.world in
      let s' = tick engine now (record s { world = w }) in
      rounds n (record s' { world = sleep o.machine settings.poll_interval_seconds s'.world })

  abbrev pub first_session : World → Eng.Session World
  first_session w = record { state = initial; world = w; calls = [] }

  -- `run_watchdog`: the policy's constructor raises ValueError; with `once` there is one tick and
  -- no pause, and without it the loop has come to its end after any number of rounds.
  unfoldable pub run_watchdog : Bool → ℕ → World → Checked (Eng.Session World)
  unfolding rounds
  run_watchdog once n w =
      let (now, w') = monotonic o.machine w in
      if not (accepts (policy_of settings))
      then crashed "ValueError"
      else if once
      then valid (tick engine now (first_session w'))
      else valid (rounds n (first_session w))
