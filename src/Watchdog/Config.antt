-- ===== src/Watchdog/Config.antt =====
-- src/pz_watchdog/config.py: the environment file, the parsers of values, and the settings. Paths
-- are texts.
pub mod Build
pub mod Bounds
pub mod Numbers
use Prim.Native.Char.{code}
use pz_server.Prelude.{
  ℕ, ◌*◌, String, ◌<>◌, Bool, true, false, not, ◌&&◌, ◌||◌, Option, none, some, List, [], ◌∷◌, ◌++◌,
  leb, ◌==◌, str_eq, starts_with, if◌then◌else◌,
}
use pz_server.Prelude.Text.{is_empty, strip, splitlines, ends_with, without_last}
use pz_server.Prelude.Integers.{ℤ, pos, negsuc, Unicode, int, show}
use pz_server.Prelude.Checked.{Checked, valid, invalid, crashed, require, ◌>>=◌}
use pz_server.Prelude.Environment.{Environment, lookup, get_or, is_one_of, show_bool}

-- What `is_file` and `read_text` say of a path; a failed read raises the named exception.
pub data EnvironmentFile : Type 0 where
  missing : EnvironmentFile
  readable unreadable : String → EnvironmentFile

-- What the code takes from the host and from Python: the Unicode tables, the files, `resolve`,
-- `os.name == "nt"`, `shlex.split` with its ValueError, and whether `rcon-cli` is on the path.
pub record Platform : Type 0 where
  pub unicode : Unicode
  pub read_file : String → EnvironmentFile
  pub resolve : String → String
  pub on_windows : Bool
  pub split_command : String → Checked (List String)
  pub has_rcon_cli : Bool

-- `line.split("=", 1)`, where the line has an equals sign
abbrev pub split_at_equals : String → Option (String × String)
split_at_equals String.[] = none
split_at_equals (String.◌∷◌ c s) =
    let later = split_at_equals s in
    if code c == 61
    then some ("", s)
    else elim later [ none ↦ none | some (name, value) ↦ some (String.◌∷◌ c name, value) ]

-- The quotes around a value are dropped, where it has two characters or more.
abbrev pub unquote : String → String
unquote String.[] = ""
unquote (String.◌∷◌ c s) =
    if ends_with (code c) s && (code c == 34 || code c == 39)
    then without_last s
    else String.◌∷◌ c s

-- The body of the loop of `_load_dotenv`, for one line: an assignment, or nothing.
unfoldable pub read_assignment : String → Checked (Option (String × String))
unfolding strip
read_assignment raw_line =
    let line = strip raw_line in
    if is_empty line || starts_with line "#" then valid none else elim (split_at_equals line) [
      | none ↦ invalid "Invalid environment line"
      | some (name, value) ↦
          if is_empty (strip name)
          then invalid "Empty environment name"
          else valid (some (strip name, unquote (strip value)))
    ]

abbrev pub assign : Option (String × String) → Environment → Environment
assign none values = values
assign (some entry) values = entry ∷ values

unfoldable pub load_lines : Environment → List String → Checked Environment
unfolding read_assignment
load_lines values [] = valid values
load_lines values (line ∷ lines) =
    read_assignment line >>= λ entry. load_lines (assign entry values) lines

-- `_load_dotenv`
unfoldable pub load_dotenv : EnvironmentFile → Checked Environment
unfolding load_lines splitlines
load_dotenv missing = valid []
load_dotenv (readable text) = load_lines [] (splitlines text)
load_dotenv (unreadable name) = crashed name

-- `_boolean`
unfoldable pub boolean : Unicode → Environment → String → Bool → Checked Bool
unfolding strip
boolean u values name default =
    let raw = u.lower (strip (get_or values name (show_bool default))) in
    if is_one_of ("1" ∷ "true" ∷ "yes" ∷ "on" ∷ []) raw
    then valid true
    else if is_one_of ("0" ∷ "false" ∷ "no" ∷ "off" ∷ []) raw
    then valid false
    else invalid (name <> " must be true or false")

-- The test of the bounds, none of which is negative.
abbrev pub within : String → ℕ → ℕ → ℤ → Checked ℕ
within name minimum maximum (negsuc n) =
    invalid (name <> " must be between " <> show minimum <> " and " <> show maximum)
within name minimum maximum (pos n) =
    if leb minimum n && leb n maximum
    then valid n
    else invalid (name <> " must be between " <> show minimum <> " and " <> show maximum)

abbrev pub read_within : String → ℕ → ℕ → Option ℤ → Checked ℕ
read_within name minimum maximum none = invalid (name <> " must be an integer")
read_within name minimum maximum (some i) = within name minimum maximum i

-- `_integer`
unfoldable pub integer : Unicode → Environment → String → ℕ → ℕ → ℕ → Checked ℕ
unfolding strip int
integer u values name default minimum maximum =
    read_within name minimum maximum (int u (strip (get_or values name (show default))))

pub record Settings : Type 0 where
  pub rcon_host : String
  pub rcon_port : ℕ
  pub rcon_password : String
  pub rcon_timeout_seconds : ℕ
  pub rcon_retry_count : ℕ
  pub rcon_retry_delay_seconds : ℕ
  pub idle_timeout_seconds : ℕ
  pub poll_interval_seconds : ℕ
  pub health_failure_timeout_seconds : ℕ
  pub final_check_count : ℕ
  pub final_check_delay_seconds : ℕ
  pub service_stop_timeout_seconds : ℕ
  pub dry_run : Bool
  pub deployment_environment : String
  pub host_shutdown_enabled : Bool
  pub host_shutdown_guard_file : String
  pub service_control_mode : String
  pub compose_project_directory : String
  pub compose_env_file : Option String
  pub compose_service : String
  pub data_path : String
  pub server_path : String
  pub update_policy : String
  pub steam_branch : String
  pub rcon_cli_command : List String
