-- ===== src/Watchdog/Engine/Tests.antt =====
-- The engine of src/pz_watchdog/engine.py on concrete collaborators.
use pz_server.Prelude.{ℕ, true, false, Option, none, some, List, [], ◌∷◌, ◌≡◌, refl, arith}
use pz_server.Watchdog.Models.{
  PlayerObservation, known, unknown_players, healthy, unhealthy, completed,
}
use pz_server.Watchdog.Engine.{
  accepts, initial, Call, ticked, queried, health_checked, restarted, slept, executed, Session,
  Engine, handle_empty, continue_empty, final_shutdown_validation, final_checks, run_shutdown,
  handle_unknown, handle_down, continue_outage, tick, run,
}
use pz_server.Watchdog.Engine.History.{Justified, Confirmed}
use pz_server.Watchdog.Engine.Safety.{run-Justified}
use pz_server.Watchdog.Engine.Validation.{
  before_execution, first_query, tick_validated, tick_executes,
}

-- The player counts to come; without one the server is empty.
abbrev Script : Type 0
Script = List (Option ℕ)

abbrev answer : Script → PlayerObservation × Script
answer [] = (known 0, [])
answer (none ∷ l) = (unknown_players "timeout", l)
answer (some n ∷ l) = (known n, l)

abbrev collaborators : Engine Script
collaborators = record {
  players = record { query = answer };
  service = record {
    health = λ w. (unhealthy, w);
    restart = λ w. (true, w);
    graceful_stop = λ _ w. (true, w);
    is_stopped = λ w. (true, w);
    start = λ w. (true, w);
  };
  shutdown = record { execute = λ _ w. (completed, w) };
  sleeper = record { sleep = λ _ w. w };
  policy = record {
    idle_timeout_seconds = 20;
    health_failure_timeout_seconds = 10;
    final_check_count = 2;
    final_check_delay_seconds = 5;
    progress_interval_seconds = 60;
    dry_run = false;
  };
}

abbrev start : Script → Session Script
start w = record { state = initial; world = w; calls = [] }

-- A player, an empty server until the timeout, and the shutdown.
idle_run :
    (run collaborators (0 ∷ 10 ∷ 31 ∷ []) (start (some 1 ∷ []))).calls
    ≡ executed false completed
      ∷ queried (known 0)
      ∷ slept 5
      ∷ queried (known 0)
      ∷ ticked 31
      ∷ queried (known 0)
      ∷ ticked 10
      ∷ queried (known 1)
      ∷ ticked 0
      ∷ []
unfolding run tick handle_empty continue_empty final_shutdown_validation final_checks run_shutdown
idle_run = refl

-- An outage that lasts leads to a restart.
outage_run :
    (run collaborators (0 ∷ 10 ∷ []) (start (none ∷ none ∷ []))).calls
    ≡ restarted true
      ∷ health_checked unhealthy
      ∷ queried (unknown_players "timeout")
      ∷ ticked 10
      ∷ health_checked unhealthy
      ∷ queried (unknown_players "timeout")
      ∷ ticked 0
      ∷ []
unfolding run tick handle_unknown handle_down continue_outage
outage_run = refl

accepted : accepts collaborators.policy ≡ true
unfolding accepts
accepted = refl

run-Justified_example :
    Justified collaborators.policy
      (run collaborators (0 ∷ 10 ∷ 31 ∷ []) (start (some 1 ∷ []))).calls
run-Justified_example = run-Justified collaborators (0 ∷ 10 ∷ 31 ∷ []) (some 1 ∷ []) accepted

-- The timer runs since 10.
abbrev waiting : Session Script
waiting = record { state = record initial { empty_since = some 10 }; world = []; calls = [] }

executes :
    before_execution (tick collaborators 31 waiting).calls
    ≡ some (queried (known 0) ∷ slept 5 ∷ queried (known 0) ∷ ticked 31 ∷ [])
unfolding tick handle_empty continue_empty final_shutdown_validation final_checks run_shutdown
executes = refl

tick_validated_example :
    ((first_query collaborators 31 waiting).0.count ≡ some 0)
    × Confirmed 5 1
        (first_query collaborators 31 waiting).1.calls
        (queried (known 0) ∷ slept 5 ∷ queried (known 0) ∷ ticked 31 ∷ [])
tick_validated_example =
    tick_validated collaborators 31 waiting
      (queried (known 0) ∷ slept 5 ∷ queried (known 0) ∷ ticked 31 ∷ []) executes

-- A world in which nobody plays.
abbrev empty_server : Engine (Unit {0})
empty_server = record {
  players = record { query = λ w. (known 0, w) };
  service = record {
    health = λ w. (healthy, w);
    restart = λ w. (true, w);
    graceful_stop = λ _ w. (true, w);
    is_stopped = λ w. (true, w);
    start = λ w. (true, w);
  };
  shutdown = record { execute = λ _ w. (completed, w) };
  sleeper = record { sleep = λ _ w. w };
  policy = collaborators.policy;
}

abbrev due : Session (Unit {0})
due = record { state = record initial { empty_since = some 10 }; world = tt; calls = [] }

tick_executes_example :
    (rest : List Call) × (before_execution (tick empty_server 31 due).calls ≡ some rest)
tick_executes_example = tick_executes empty_server 31 10 due (λ _. refl) refl refl (omega arith)
