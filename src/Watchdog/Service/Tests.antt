-- ===== src/Watchdog/Service/Tests.antt =====
-- The Docker service of src/pz_watchdog/service.py on concrete containers. The world is the clock.
use pz_server.Prelude.{◌≡◌, refl, ℕ, ◌+◌, String, true, false, none, some, [], arith}
use pz_server.Prelude.Integers.{pos}
use pz_server.Prelude.Json.{Fields, boolean, integer, string, object, no_field, field}
use pz_server.Watchdog.Models.{known, completed}
use pz_server.Watchdog.Processes.{Process, Machine}
use pz_server.Watchdog.Service.{DockerComposeService, Docker, wait_until_healthy}
use pz_server.Watchdog.Service.Control.{graceful_stop, is_stopped, start, docker_manager}
use pz_server.Watchdog.Service.Deadline.{KeepsTime, Waited, wait_until_healthy-Waited}
use pz_server.Watchdog.Service.Stop.{Stops, graceful_stop-Stops, Confirms, is_stopped-Confirms}
use pz_server.Watchdog.Shutdown.{Session as Run, ShutdownCoordinator, execute}
use pz_server.Watchdog.Shutdown.Container.{LeavesStopped, with_docker, execute-LeavesStopped}

abbrev answers : String → Process
answers text = record { returncode = pos 0; stdout = text; stderr = "" }

abbrev machine : Machine ℕ
machine = record {
  run = λ command timeout w. (some (answers "4f2a\n"), w);
  monotonic = λ w. (w, w);
  sleep = λ delay w. w + delay;
}

abbrev exited : Fields
exited = field "Status" (string "exited") (
    field "Running" (boolean false) (
      field "Restarting" (boolean false) (
        field "Dead" (boolean false) (
          field "OOMKilled" (boolean false)
            (field "ExitCode" (integer (pos 0)) (field "Error" (string "") no_field))))))

abbrev running : Fields
running = field "Status" (string "running") (
    field "Running" (boolean true)
      (field "Health" (object (field "Status" (string "healthy") no_field)) no_field))

abbrev service_in : Fields → DockerComposeService
service_in state = record {
  project_directory = "/srv/pz";
  service = "server";
  env_file = some "/srv/pz/.env";
  ready_timeout_seconds = 10;
  loads = λ text. some (object state);
}

abbrev at_start : Docker machine (service_in exited)
at_start = record { world = 7; memory = none; calls = [] }

stops : (graceful_stop machine (service_in exited) 120 at_start).0 ≡ true
unfolding graceful_stop
stops = refl

verifies :
    (is_stopped machine
      (service_in exited)
      (graceful_stop machine (service_in exited) 120 at_start).1).0
    ≡ true
unfolding graceful_stop is_stopped
verifies = refl

refuses : (graceful_stop machine (service_in running) 120 at_start).0 ≡ false
unfolding graceful_stop
refuses = refl

starts : (start machine (service_in running) at_start).0 ≡ true
unfolding start
starts = refl

-- Ten seconds are two rounds.
gives_up : (wait_until_healthy machine (service_in exited) none at_start).1.world ≡ 17
unfolding wait_until_healthy
gives_up = refl

keeps_time : KeepsTime machine (λ w. w)
keeps_time = record {
  reads = λ w. refl;
  reading_passes = λ w. omega arith;
  running_passes = λ command timeout w. omega arith;
  sleeping_passes = λ delay w. omega arith;
}

wait_until_healthy-Waited_example :
    Waited machine
      (service_in running)
      (λ w. w)
      keeps_time
      17
      (wait_until_healthy machine (service_in running) none at_start)
wait_until_healthy-Waited_example =
    wait_until_healthy-Waited machine (service_in running) (λ w. w) keeps_time none at_start

graceful_stop-Stops_example :
    Stops machine
      (service_in exited)
      120
      []
      (graceful_stop machine (service_in exited) 120 at_start)
graceful_stop-Stops_example = graceful_stop-Stops machine (service_in exited) 120 at_start

abbrev remembering : Docker machine (service_in exited)
remembering = record { world = 7; memory = some "4f2a"; calls = [] }

is_stopped-Confirms_example :
    Confirms machine
      (service_in exited)
      "4f2a"
      []
      (is_stopped machine (service_in exited) remembering)
is_stopped-Confirms_example =
    is_stopped-Confirms machine (service_in exited) "4f2a" remembering refl

abbrev coordinator : ShutdownCoordinator (Docker machine (service_in exited))
coordinator = record {
  players = record { query = λ w. (known 0, w) };
  admin = record { save = λ w. (true, w) };
  service = docker_manager machine (service_in exited);
  host = record { eligible = λ w. (true, w); shutdown = λ w. (true, w) };
  sleeper = record { sleep = λ delay w. w };
  service_stop_timeout_seconds = 120;
  save_settle_seconds = 10;
}

abbrev first_run : Run (Docker machine (service_in exited))
first_run = record { world = at_start; acts = [] }

completes :
    (execute (with_docker machine (service_in exited) coordinator) false false first_run).0
    ≡ completed
unfolding execute graceful_stop is_stopped
completes = refl

execute-LeavesStopped_example :
    LeavesStopped machine
      (service_in exited)
      coordinator
      (execute (with_docker machine (service_in exited) coordinator) false false first_run).1.world
execute-LeavesStopped_example =
    execute-LeavesStopped machine (service_in exited) coordinator false false first_run (λ w. refl)
      completes
