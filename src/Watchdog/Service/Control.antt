-- ===== src/Watchdog/Service/Control.antt =====
-- src/pz_watchdog/service.py: the operations that restart, stop, verify and start the service, and
-- the service behind a TCP port.
use pz_server.Prelude.{
  ℕ, ◌+◌, String, Bool, true, false, not, Option, none, some, List, [], ◌∷◌, if◌then◌else◌,
}
use pz_server.Prelude.Integers.{equals, show}
use pz_server.Prelude.Json.{Fields}
use pz_server.Watchdog.Models.{ServiceHealth, healthy, unhealthy}
use pz_server.Watchdog.Ports.{ServiceManager}
use pz_server.Watchdog.Processes.{Machine}
use pz_server.Watchdog.Service.{
  DockerComposeService, Inspection, established, inspection_error, Docker, run_compose,
  container_id, inspect_container_state, is_clean_exit, equals_identifier, health, is_healthy,
  wait_until_healthy,
}

module _ {W : Type 0} (machine : Machine W) (c : DockerComposeService) where
  abbrev State : Type 0
  State = Docker machine c

  unfoldable pub restart : State → Bool × State
  unfolding run_compose wait_until_healthy
  restart s =
      let (p, s') =
        run_compose machine c ("restart" ∷ "--timeout" ∷ "120" ∷ c.service ∷ []) 180 s in
      let (recovered, s'') = wait_until_healthy machine c none s' in
      if not (equals p.returncode 0) then (false, s') else (recovered, s'')

  unfoldable pub start : State → Bool × State
  unfolding run_compose wait_until_healthy
  start s =
      let (p, s') = run_compose machine c ("up" ∷ "--detach" ∷ c.service ∷ []) 180 s in
      let (ready, s'') = wait_until_healthy machine c none s' in
      if equals p.returncode 0 then (ready, s'') else (false, s')

  -- The last part of `graceful_stop`: the identity is looked up again.
  abbrev pub confirm : String → Inspection (Option String) → State → Bool × State
  confirm identifier (inspection_error message) s = (false, s)
  confirm identifier (established current) s =
      if not (equals_identifier current identifier)
      then (false, s)
      else (true, record s { memory = some identifier })

  -- The part before it, with the inspected state.
  unfoldable pub verify_exit : String → Inspection Fields → State → Bool × State
  unfolding container_id is_clean_exit
  verify_exit identifier (inspection_error message) s = (false, s)
  verify_exit identifier (established state) s =
      if not (is_clean_exit state)
      then (false, s)
      else let (current, s') = container_id machine c true s in confirm identifier current s'

  abbrev pub stop_arguments : ℕ → List String
  stop_arguments timeout_seconds = "stop" ∷ "--timeout" ∷ show timeout_seconds ∷ c.service ∷ []

  -- The part from the stop of the container on.
  unfoldable pub stop_container : ℕ → String → State → Bool × State
  unfolding run_compose inspect_container_state verify_exit
  stop_container timeout_seconds identifier s =
      let (p, s1) =
        run_compose machine c (stop_arguments timeout_seconds) (timeout_seconds + 30) s in
      if not (equals p.returncode 0)
      then (false, s1)
      else let (state, s2) = inspect_container_state machine c identifier s1 in
        verify_exit identifier state s2

  abbrev pub stop_found : ℕ → Inspection (Option String) → State → Bool × State
  stop_found timeout_seconds (inspection_error message) s = (false, s)
  stop_found timeout_seconds (established none) s = (false, s)
  stop_found timeout_seconds (established (some identifier)) s =
      stop_container timeout_seconds identifier s

  unfoldable pub graceful_stop : ℕ → State → Bool × State
  unfolding container_id stop_container
  graceful_stop timeout_seconds s =
      let (found, s') = container_id machine c true (record s { memory = none }) in
      stop_found timeout_seconds found s'

  abbrev pub is_clean : Inspection Fields → Bool
  is_clean (inspection_error message) = false
  is_clean (established state) = is_clean_exit state

  -- `is_stopped`, from the inspection on.
  unfoldable pub inspect_stopped : String → State → Bool × State
  unfolding inspect_container_state is_clean_exit
  inspect_stopped identifier s =
      let (state, s') = inspect_container_state machine c identifier s in (is_clean state, s')

  -- `is_stopped`, with the verified identifier and the one that is found.
  unfoldable pub judge_stopped : Option String → Inspection (Option String) → State → Bool × State
  unfolding inspect_stopped
  judge_stopped verified (inspection_error message) s = (false, s)
  judge_stopped none (established none) s = (true, s)
  judge_stopped none (established (some identifier)) s = inspect_stopped identifier s
  judge_stopped (some verified) (established none) s = (false, s)
  judge_stopped (some verified) (established (some identifier)) s =
      if not (equals_identifier (some identifier) verified)
      then (false, s)
      else inspect_stopped identifier s

  unfoldable pub is_stopped : State → Bool × State
  unfolding container_id judge_stopped
  is_stopped s = let (found, s') = container_id machine c true s in judge_stopped s.memory found s'

  abbrev pub docker_manager : ServiceManager State
  docker_manager = record {
    health = health machine c;
    restart = restart;
    graceful_stop = graceful_stop;
    is_stopped = is_stopped;
    start = start;
  }

-- `TcpOnlyService`; `connect` says whether `socket.create_connection` returned.
module _ {W : Type 0} (connect : W → Bool × W) where
  abbrev pub tcp_health : W → ServiceHealth × W
  tcp_health w = let (connected, w') = connect w in (if connected then healthy else unhealthy, w')

  abbrev pub tcp_manager : ServiceManager W
  tcp_manager = record {
    health = tcp_health;
    restart = λ w. (false, w);
    graceful_stop = λ _ w. (false, w);
    is_stopped = λ w. let (found, w') = tcp_health w in (not (is_healthy found), w');
    start = λ w. (false, w);
  }
