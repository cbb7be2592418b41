-- ===== src/Watchdog/Cli/Tests.antt =====
-- The configuration of src/pz_watchdog/config.py and the commands of src/pz_watchdog/cli.py on a
-- concrete host, whose clock is the world.
use pz_server.Prelude.{
  ◌≡◌, refl, ℕ, ◌+◌, ◌-◌, String, true, false, ◌&&◌, none, some, List, [], ◌∷◌, leb, str_eq,
  if◌then◌else◌, arith,
}
use pz_server.Prelude.Integers.{Unicode, KnowsDigits, int, show, pos}
use pz_server.Prelude.Checked.{valid, invalid}
use pz_server.Prelude.Environment.{Environment}
use pz_server.Prelude.Json.{
  boolean as json_boolean, integer as json_integer, string, object, no_field, field, Fields,
}
use pz_server.Watchdog.Config.{Platform, readable, Settings, load_dotenv, integer}
use pz_server.Watchdog.Config.Build.{from_environment}
use pz_server.Watchdog.Config.Bounds.{IsBounded, IsPermitted, from_environment-IsPermitted}
use pz_server.Watchdog.Config.Numbers.{integer-show}
use pz_server.Watchdog.Processes.{Machine}
use pz_server.Watchdog.Service.Deadline.{KeepsTime}
use pz_server.Watchdog.Service.Control.{graceful_stop as service_stop}
use pz_server.Watchdog.Rcon.{query, save}
use pz_server.Watchdog.Rcon.Client.{run_rcon}
use pz_server.Watchdog.Shutdown.{Host, execute, eligible, is_eligible}
use pz_server.Watchdog.Cli.{Outside, World, run_watchdog, shut_down}
use pz_server.Watchdog.Cli.Commands.{
  graceful_stop, wait_ready, main, save_command, shutdown_host, status_command, status, exits,
  fails,
}
use pz_server.Watchdog.Cli.Running.{RunsJustified, configured-RunsJustified}
use pz_server.Watchdog.Cli.Ready.{Waited, wait_ready-Waited}
use pz_server.Watchdog.Cli.Exits.{IsAllowed, IsStopped, graceful_stop-IsStopped}

-- The ASCII digits, and the words that are lowered here.
abbrev ascii : Unicode
ascii = record {
  decimal = λ c. if leb 48 c && leb c 57 then some (c - 48) else none;
  lower = λ s. if str_eq s "True" then "true" else if str_eq s "False" then "false" else s;
}

knows_digits : KnowsDigits ascii
knows_digits d h = ground arith

abbrev platform : Platform
platform = record {
  unicode = ascii;
  read_file = λ path. readable "# local values\nRCON_PORT = '27020'\n\nDRY_RUN=false";
  resolve = λ path. path;
  on_windows = false;
  split_command = λ text. valid (text ∷ []);
  has_rcon_cli = true;
}

abbrev supplied : Environment
supplied = ("RCON_PASSWORD", "secret") ∷ ("DEPLOYMENT_ENVIRONMENT", " aws") ∷ []

abbrev settings : Settings
settings = record {
  rcon_host = "127.0.0.1";
  rcon_port = 27020;
  rcon_password = "secret";
  rcon_timeout_seconds = 10;
  rcon_retry_count = 3;
  rcon_retry_delay_seconds = 5;
  idle_timeout_seconds = 2700;
  poll_interval_seconds = 60;
  health_failure_timeout_seconds = 720;
  final_check_count = 3;
  final_check_delay_seconds = 5;
  service_stop_timeout_seconds = 120;
  dry_run = false;
  deployment_environment = "aws";
  host_shutdown_enabled = false;
  host_shutdown_guard_file = "/etc/pz-server/allow-host-shutdown";
  service_control_mode = "docker";
  compose_project_directory = ".";
  compose_env_file = none;
  compose_service = "server";
  data_path = "./runtime/zomboid";
  server_path = "./runtime/server";
  update_policy = "stable-on-start";
  steam_branch = "public";
  rcon_cli_command = "rcon-cli" ∷ [];
}

is_read : from_environment platform supplied ≡ valid settings
unfolding from_environment show
is_read = refl

loads_lines :
    load_dotenv (readable "# local values\nRCON_PORT = '27020'\n\nDRY_RUN=false")
    ≡ valid (("DRY_RUN", "false") ∷ ("RCON_PORT", "27020") ∷ [])
unfolding load_dotenv
loads_lines = refl

-- A real run is refused outside of AWS.
is_refused :
    from_environment platform (("RCON_PASSWORD", "secret") ∷ [])
    ≡ invalid "DRY_RUN=false is permitted only in the aws environment"
unfolding from_environment
is_refused = refl

reads_underscores : int ascii " +1_000 " ≡ some (pos 1000)
unfolding int
reads_underscores = refl

from_environment-IsPermitted_example : IsBounded settings × IsPermitted platform settings
from_environment-IsPermitted_example =
    from_environment-IsPermitted platform supplied settings is_read

integer-show_example :
    integer ascii (("RCON_PORT", "27020") ∷ []) "RCON_PORT" 27015 1024 65535 ≡ valid 27020
unfolding show
integer-show_example =
    integer-show ascii (("RCON_PORT", "27020") ∷ []) "RCON_PORT" 27015 1024 65535 27020 knows_digits
      refl (omega arith) (omega arith)

-- Docker answers with the container's name, and rcon-cli with an empty server.
abbrev answer : List String → String
answer [] = ""
answer (program ∷ arguments) = if str_eq program "docker" then "4f2a" else "Players connected (0):"

abbrev machine : Machine ℕ
machine = record {
  run = λ command timeout w.
      (some (record { returncode = pos 0; stdout = answer command; stderr = "" }), w);
  monotonic = λ w. (w, w);
  sleep = λ delay w. w + delay;
}

keeps_time : KeepsTime machine (λ w. w)
keeps_time = record {
  reads = λ w. refl;
  reading_passes = λ w. omega arith;
  running_passes = λ command timeout w. omega arith;
  sleeping_passes = λ delay w. omega arith;
}

abbrev exited : Fields
exited = field "Status" (string "exited") (
    field "Running" (json_boolean false) (
      field "Restarting" (json_boolean false) (
        field "Dead" (json_boolean false) (
          field "OOMKilled" (json_boolean false)
            (field "ExitCode" (json_integer (pos 0)) (field "Error" (string "") no_field))))))

abbrev host : Host ℕ
host = record {
  inspect = λ w. (record { os_name = "posix"; system = "Linux"; guard_file = none }, w);
  poweroff = λ w. (some 0, w);
}

abbrev outside : Outside ℕ
outside = record {
  machine = machine;
  patterns = record {
    header_in_parentheses = λ l. if str_eq l "Players connected (0):" then some 0 else none;
    header_with_colon = λ l. none;
    without_escapes = λ r. r;
    is_save_confirmation = λ r. true;
  };
  loads = λ text. some (object exited);
  host = host;
  connect = λ name port w. (true, w);
  report = λ as_json found w. (none, w);
}

abbrev start : World outside settings
start = record { world = 5; memory = none; calls = [] }

configured-RunsJustified_example :
    RunsJustified outside settings (run_watchdog outside settings false 2 start)
configured-RunsJustified_example =
    configured-RunsJustified outside platform supplied settings false 2 start is_read

stops : (graceful_stop outside settings false start).0 ≡ 0
unfolding graceful_stop service_stop query save run_rcon
stops = refl

graceful_stop-IsStopped_example :
    IsAllowed outside settings false start
    × IsStopped outside settings (graceful_stop outside settings false start).1
graceful_stop-IsStopped_example = graceful_stop-IsStopped outside settings false start stops

wait_ready-Waited_example :
    Waited outside settings
      (λ w. w)
      keeps_time
      (λ name port w. omega arith)
      35
      (wait_ready outside settings (pos 30) start)
wait_ready-Waited_example =
    wait_ready-Waited outside settings (λ w. w) keeps_time (λ name port w. omega arith) (pos 30)
      start

saves : main outside platform supplied 0 save_command 5 ≡ exits 0
unfolding main save show run_rcon
saves = refl

-- The host has no guard file.
aborts : main outside platform supplied 0 (shutdown_host false) 5 ≡ exits 1
unfolding main show shut_down execute eligible is_eligible
aborts = refl

-- A manifest that the report cannot read.
abbrev unreported : Outside ℕ
unreported = record outside { report = λ as_json found w. (some "TypeError", w) }

reports : main unreported platform supplied 0 (status_command true) 5 ≡ fails "TypeError"
unfolding main status show query run_rcon
reports = refl
