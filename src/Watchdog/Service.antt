-- ===== src/Watchdog/Service.antt =====
-- src/pz_watchdog/service.py: the game server as a Docker Compose service, and as a TCP port. The
-- session's memory is `_verified_stopped_identifier`; log messages are not modelled.
pub mod Control
pub mod Stop
pub mod Deadline
mod Tests
use pz_server.Prelude.{
  ℕ, zero, suc, ◌+◌, String, ◌<>◌, Bool, true, false, not, ◌&&◌, Option, none, some, List, [], ◌∷◌,
  ◌++◌, ltb, ◌==◌, str_eq, if◌then◌else◌,
}
use pz_server.Prelude.Text.{strip, splitlines}
use pz_server.Prelude.Integers.{pos, equals, show}
use pz_server.Prelude.Json.{Json, Fields, get, is_text, is_true, is_false, as_object, as_integer}
use pz_server.Watchdog.Models.{ServiceHealth, healthy, unhealthy, stopped, unknown}
use pz_server.Watchdog.Ports.{ServiceManager}
use pz_server.Watchdog.Processes.{Process, Machine, Session, run, monotonic, sleep}

pub record DockerComposeService : Type 0 where
  pub project_directory : String
  pub service : String
  pub env_file : Option String
  pub ready_timeout_seconds : ℕ
  -- `json.loads`, with `none` for a JSONDecodeError
  pub loads : String → Option Json

-- A value, or a ServiceInspectionError.
pub data Inspection (A : Type 0) : Type 0 where
  established : A → Inspection A
  inspection_error : String → Inspection A

unfoldable pub compose_command : DockerComposeService → List String
compose_command c =
    "docker"
    ∷ "compose"
    ∷ "--project-directory"
    ∷ c.project_directory
    ∷ "--file"
    ∷ (c.project_directory <> "/compose.yaml")
    ∷ elim c.env_file [ none ↦ [] | some file ↦ "--env-file" ∷ file ∷ [] ]

-- `_run` on the answer of `subprocess.run`
abbrev pub completed : Option Process → Process
completed (some p) = p
completed none = record { returncode = pos 1; stdout = ""; stderr = "" }

abbrev pub ps_arguments : Bool → String → List String
ps_arguments all_containers service =
    "ps" ∷ "--quiet" ∷ (if all_containers then "--all" ∷ service ∷ [] else service ∷ [])

abbrev pub only_line : List String → Inspection (Option String)
only_line [] = established none
only_line (identifier ∷ []) = established (some identifier)
only_line (first ∷ second ∷ rest) = inspection_error "Compose returned multiple service containers"

-- `container_id`, on the completed process
unfoldable pub identify : Process → Inspection (Option String)
unfolding strip splitlines
identify p =
    if not (equals p.returncode 0)
    then inspection_error "Docker Compose container lookup failed"
    else only_line (splitlines (strip p.stdout))

abbrev pub inspect_command : String → List String
inspect_command identifier = "docker" ∷ "inspect" ∷ "--format" ∷ "{{json .State}}" ∷ identifier ∷ []

abbrev pub require_object : Option Json → Inspection Fields
require_object none = inspection_error "Docker returned invalid container state JSON"
require_object (some value) = elim (as_object value) [
  | none ↦ inspection_error "Docker returned an unexpected container state"
  | some state ↦ established state
]

-- `inspect_container_state`, on the answer of `subprocess.run`
unfoldable pub read_state : DockerComposeService → Option Process → Inspection Fields
read_state c none = inspection_error "Docker container inspection failed"
read_state c (some p) =
    if not (equals p.returncode 0)
    then inspection_error "Docker container inspection returned an error"
    else require_object (c.loads p.stdout)

abbrev pub is_zero : Json → Bool
is_zero value = elim (as_integer value) [ none ↦ false | some i ↦ equals i 0 ]

-- `_is_clean_exit`
unfoldable pub is_clean_exit : Fields → Bool
is_clean_exit state =
    is_text "exited" (get "Status" state)
    && is_false (get "Running" state)
    && is_false (get "Restarting" state)
    && is_false (get "Dead" state)
    && is_false (get "OOMKilled" state)
    && is_zero (get "ExitCode" state)
    && is_text "" (get "Error" state)

abbrev pub reported : Option Fields → ServiceHealth
reported none = unknown
reported (some health) =
    let status = get "Status" health in
    if is_text "healthy" status
    then healthy
    else if is_text "unhealthy" status
    then unhealthy
    else unknown

-- `health`, on what `inspect_state` gives
unfoldable pub health_of : Inspection (Option Fields) → ServiceHealth
health_of (inspection_error message) = unknown
health_of (established none) = stopped
health_of (established (some state)) =
    if not (is_true (get "Running" state))
    then stopped
    else reported (as_object (get "Health" state))

abbrev pub is_healthy : ServiceHealth → Bool
is_healthy healthy = true
is_healthy unhealthy = false
is_healthy stopped = false
is_healthy unknown = false

-- How the loop of `wait_until_healthy` ends.
pub data Wait : Type 0 where
  became_healthy timed_out out_of_fuel : Wait

abbrev pub is_healthy_wait : Wait → Bool
is_healthy_wait became_healthy = true
is_healthy_wait timed_out = false
is_healthy_wait out_of_fuel = false

-- `timeout_seconds or self.ready_timeout_seconds`
abbrev pub timeout_or : Option ℕ → ℕ → ℕ
timeout_or none default = default
timeout_or (some seconds) default = if seconds == 0 then default else seconds

abbrev pub equals_identifier : Option String → String → Bool
equals_identifier none identifier = false
equals_identifier (some other) identifier = str_eq other identifier

module _ {W : Type 0} (machine : Machine W) (c : DockerComposeService) where
  abbrev pub Docker : Type 0
  Docker = Session W (Option String)

  -- `_run`
  unfoldable pub run_compose : List String → ℕ → Docker → Process × Docker
  unfolding compose_command
  run_compose arguments timeout s =
      let (p, s') = run machine (compose_command c ++ arguments) timeout s in (completed p, s')

  unfoldable pub container_id : Bool → Docker → Inspection (Option String) × Docker
  unfolding run_compose identify
  container_id all_containers s =
      let (p, s') = run_compose (ps_arguments all_containers c.service) 60 s in (identify p, s')

  unfoldable pub inspect_container_state : String → Docker → Inspection Fields × Docker
  unfolding read_state
  inspect_container_state identifier s =
      let (p, s') = run machine (inspect_command identifier) 30 s in (read_state c p, s')

  abbrev pub present : Inspection Fields → Inspection (Option Fields)
  present (established state) = established (some state)
  present (inspection_error message) = inspection_error message

  unfoldable pub inspect_state : Docker → Inspection (Option Fields) × Docker
  unfolding container_id inspect_container_state
  inspect_state s =
      let (found, s') = container_id true s in
      elim found [
        | inspection_error message ↦ (inspection_error message, s')
        | established none ↦ (established none, s')
        | established (some identifier) ↦
            let (state, s'') = inspect_container_state identifier s' in (present state, s'')
      ]

  unfoldable pub health : Docker → ServiceHealth × Docker
  unfolding inspect_state health_of
  health s = let (state, s') = inspect_state s in (health_of state, s')

  -- The loop of `wait_until_healthy`, until the deadline.
  unfoldable pub wait : ℕ → ℕ → Docker → Wait × Docker
  unfolding health
  wait zero deadline s = (out_of_fuel, s)
  wait (suc fuel) deadline s =
      let (now, s1) = monotonic machine s in
      let (found, s2) = health s1 in
      let later = wait fuel deadline (sleep machine 5 s2) in
      if not (ltb now deadline)
      then (timed_out, s1)
      else if is_healthy found
      then (became_healthy, s2)
      else later

  -- `wait_until_healthy`: with one second or more for each round, the fuel is enough.
  unfoldable pub wait_until_healthy : Option ℕ → Docker → Bool × Docker
  unfolding wait
  wait_until_healthy timeout_seconds s =
      let timeout = timeout_or timeout_seconds c.ready_timeout_seconds in
      let (now, s') = monotonic machine s in
      let (ended, s'') = wait (suc timeout) (now + timeout) s' in (is_healthy_wait ended, s'')
