-- ===== src/Watchdog/Config/Build.antt =====
-- `Settings.from_environment` of src/pz_watchdog/config.py, in the order of its checks.
use pz_server.Prelude.{
  ℕ, ◌*◌, String, Bool, true, false, not, ◌&&◌, ◌||◌, Option, none, some, List, [], ◌∷◌, ◌++◌,
  str_eq, starts_with, if◌then◌else◌,
}
use pz_server.Prelude.Text.{is_empty, strip}
use pz_server.Prelude.Checked.{Checked, valid, invalid, ◌>>=◌}
use pz_server.Prelude.Environment.{Environment, get_or, is_one_of}
use pz_server.Watchdog.Config.{Platform, load_dotenv, boolean, integer, Settings}

module _ (p : Platform) (values : Environment) where
  abbrev pub project_directory : String
  project_directory = p.resolve (get_or values "COMPOSE_PROJECT_DIRECTORY" ".")

  abbrev pub env_file : Option String
  env_file =
      let raw = get_or values "COMPOSE_ENV_FILE" "" in
      if is_empty raw then none else some (p.resolve raw)

  unfoldable pub service_mode : Checked String
  unfolding strip
  service_mode =
      let mode = p.unicode.lower (strip (get_or values "SERVICE_CONTROL_MODE" "docker")) in
      if is_one_of ("docker" ∷ "tcp-only" ∷ []) mode
      then valid mode
      else invalid "SERVICE_CONTROL_MODE must be docker or tcp-only"

  unfoldable pub cli_command : String → Checked (List String)
  unfolding strip
  cli_command mode =
      let configured = strip (get_or values "RCON_CLI_COMMAND" "") in
      if not (is_empty configured)
      then p.split_command configured
      else if p.has_rcon_cli
      then valid ("rcon-cli" ∷ [])
      else if str_eq mode "docker"
      then valid (
          "docker"
          ∷ "compose"
          ∷ "--project-directory"
          ∷ project_directory
          ∷ "exec"
          ∷ "-T"
          ∷ get_or values "COMPOSE_SERVICE" "server"
          ∷ "rcon-cli"
          ∷ [])
      else valid ("rcon-cli" ∷ [])

  unfoldable pub deployment : Checked String
  unfolding strip
  deployment =
      let name = p.unicode.lower (strip (get_or values "DEPLOYMENT_ENVIRONMENT" "local")) in
      if is_one_of ("local" ∷ "aws" ∷ []) name
      then valid name
      else invalid "DEPLOYMENT_ENVIRONMENT must be local or aws"

  -- The two tests of a real run.
  unfoldable pub check_dry_run : Bool → String → Checked (Unit {0})
  check_dry_run dry_run environment =
      if p.on_windows && not dry_run
      then invalid "DRY_RUN=false is prohibited on Windows"
      else if not (str_eq environment "aws") && not dry_run
      then invalid "DRY_RUN=false is permitted only in the aws environment"
      else valid tt

  unfoldable pub password : Checked String
  password =
      let text = get_or values "RCON_PASSWORD" "" in
      if is_empty text || starts_with text "change-me-"
      then invalid "RCON_PASSWORD must be set to a non-placeholder value"
      else valid text

  abbrev pub policy_or_default : String → String
  policy_or_default policy = if is_empty policy then "stable-on-start" else policy

  unfoldable pub update_policy : Checked String
  unfolding strip
  update_policy =
      let policy = policy_or_default (strip (get_or values "PZ_UPDATE_POLICY" "stable-on-start")) in
      if is_one_of ("stable-on-start" ∷ "manual" ∷ []) policy
      then valid policy
      else invalid "PZ_UPDATE_POLICY must be stable-on-start or manual"

  -- `steam_branch`, with its default.
  unfoldable pub steam_branch : String → Checked String
  unfolding strip
  steam_branch policy =
      let branch = strip (get_or values "STEAM_BRANCH" "") in
      if str_eq policy "stable-on-start" && not (is_empty branch)
      then invalid "PZ_UPDATE_POLICY=stable-on-start requires an empty STEAM_BRANCH"
      else valid (if is_empty branch then "public" else branch)

  abbrev pub number : String → ℕ → ℕ → ℕ → Checked ℕ
  number = integer p.unicode values

  -- The call `cls(...)`, with the values that are checked before it.
  unfoldable pub make_settings :
      String → List String → Bool → String → String → String → String → Checked Settings
  unfolding integer boolean
  make_settings mode command dry_run environment secret policy branch = do
    port ← number "RCON_PORT" 27015 1024 65535
    timeout ← number "RCON_TIMEOUT_SECONDS" 10 1 120
    retries ← number "RCON_RETRY_COUNT" 3 1 10
    retry_delay ← number "RCON_RETRY_DELAY_SECONDS" 5 0 300
    idle ← number "IDLE_TIMEOUT_MINUTES" 45 1 1440
    poll ← number "POLL_INTERVAL_SECONDS" 60 5 3600
    outage ← number "HEALTH_FAILURE_TIMEOUT_MINUTES" 12 1 120
    checks ← number "FINAL_CHECK_COUNT" 3 2 10
    check_delay ← number "FINAL_CHECK_DELAY_SECONDS" 5 1 300
    stop_timeout ← number "SERVICE_STOP_TIMEOUT_SECONDS" 120 30 600
    enabled ← boolean p.unicode values "HOST_SHUTDOWN_ENABLED" false
    valid (record {
      rcon_host = get_or values "RCON_HOST" "127.0.0.1";
      rcon_port = port;
      rcon_password = secret;
      rcon_timeout_seconds = timeout;
      rcon_retry_count = retries;
      rcon_retry_delay_seconds = retry_delay;
      idle_timeout_seconds = idle * 60;
      poll_interval_seconds = poll;
      health_failure_timeout_seconds = outage * 60;
      final_check_count = checks;
      final_check_delay_seconds = check_delay;
      service_stop_timeout_seconds = stop_timeout;
      dry_run = dry_run;
      deployment_environment = environment;
      host_shutdown_enabled = enabled;
      host_shutdown_guard_file =
          get_or values "HOST_SHUTDOWN_GUARD_FILE" "/etc/pz-server/allow-host-shutdown";
      service_control_mode = mode;
      compose_project_directory = project_directory;
      compose_env_file = env_file;
      compose_service = get_or values "COMPOSE_SERVICE" "server";
      data_path = p.resolve (get_or values "PZ_DATA_PATH" "./runtime/zomboid");
      server_path = p.resolve (
          get_or values "PZ_STATUS_SERVER_PATH"
            (get_or values "PZ_SERVER_PATH" "./runtime/server"));
      update_policy = policy;
      steam_branch = branch;
      rcon_cli_command = command;
    })

  -- `from_environment`, on the merged values.
  unfoldable pub from_values : Checked Settings
  unfolding service_mode cli_command boolean deployment check_dry_run password update_policy
      steam_branch make_settings
  from_values = do
    mode ← service_mode
    command ← cli_command mode
    dry_run ← boolean p.unicode values "DRY_RUN" true
    environment ← deployment
    _ ← check_dry_run dry_run environment
    secret ← password
    policy ← update_policy
    branch ← steam_branch policy
    make_settings mode command dry_run environment secret policy branch

-- What is supplied counts before what the file says.
unfoldable pub from_environment : Platform → Environment → Checked Settings
unfolding load_dotenv from_values
from_environment p supplied =
    load_dotenv (p.read_file (get_or supplied "PZ_ENV_FILE" ".env")) >>= λ loaded.
    from_values p (supplied ++ loaded)
