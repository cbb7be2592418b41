-- ===== src/Updater/Cli/Tests.antt =====
-- The commands of src/pz_updater/cli.py on a concrete host, whose world is the clock.
use pz_server.Prelude.{
  ◌≡◌, refl, ℕ, ◌+◌, ◌-◌, ◌&&◌, true, none, some, [], ◌∷◌, leb, str_eq, if◌then◌else◌, arith,
}
use pz_server.Prelude.Integers.{pos, show}
use pz_server.Watchdog.Processes.{Process, Machine}
use pz_server.Watchdog.Service.Deadline.{KeepsTime}
use pz_server.Updater.Exec.{ok, raised, update_error}
use pz_server.Updater.State.{runtime_ready, starting_candidate}
use pz_server.Updater.Machine.{World}
use pz_server.Updater.Tests.{reliable, configuration, installed, installed-IsSound, candidate}
use pz_server.Updater.Soundness.Invariant.{IsSound}
use pz_server.Updater.Soundness.Commands.{main-IsSound}
use pz_server.Updater.Cli.{Runtime, State, is_ready, wait_runtime_ready}
use pz_server.Updater.Cli.Commands.{prepare_start_command, exits, main}
use pz_server.Updater.Cli.Waiting.{Returns, wait_runtime_ready-Returns}

abbrev machine : Process → Machine ℕ
machine answer = record {
  run = λ command timeout w. (some answer, w);
  monotonic = λ w. (w, w);
  sleep = λ delay w. w + delay;
}

-- One player is connected.
abbrev connected : Process
connected = record { returncode = pos 0; stdout = "Players connected: 1\n-somebody\n"; stderr = "" }

abbrev unreachable : Process
unreachable = record { returncode = pos 1; stdout = ""; stderr = "connection refused" }

abbrev host : Process → Runtime ℕ
host answer = record {
  machine = machine answer;
  unicode = record {
    decimal = λ c. if leb 48 c && leb c 57 then some (c - 48) else none;
    lower = λ s. s;
  };
  patterns = record {
    header_in_parentheses = λ l. none;
    header_with_colon = λ l. if str_eq l "Players connected: 1" then some 1 else none;
    without_escapes = λ r. r;
    is_save_confirmation = λ r. true;
  };
  variables = ("RCON_PASSWORD", "secret") ∷ ("ALLOW_AUTO_UPDATE_WITH_MODS", "no") ∷ [];
  is_alive = λ pid w. (true, w);
  inspect_log = λ log w. (some (record { device = 1; inode = 2; size = 3; changed_at = 4 }), w);
  read_log = λ log w. (some "version=42.1", w);
  versions = λ text. ("42.1", "r1") ∷ [];
}

abbrev session : (answer : Process) → World ℕ → State reliable (host answer)
session answer w = record { world = 7; memory = w; calls = [] }

keeps_time : (answer : Process) → KeepsTime (machine answer) (λ w. w)
keeps_time answer = record {
  reads = λ w. refl;
  reading_passes = λ w. omega arith;
  running_passes = λ command timeout w. omega arith;
  sleeping_passes = λ delay w. omega arith;
}

starts :
    (main reliable (host connected) prepare_start_command (session connected installed)).0 ≡ exits 0
unfolding main show
starts = refl

becomes_ready :
    (wait_runtime_ready reliable
      (host connected)
      configuration
      (pos 12)
      "/log"
      "missing"
      (pos 30)
      (session connected (candidate starting_candidate))).0
    ≡ ok (
        is_ready (record {
          players = 1;
          pz_version = some "42.1";
          pz_revision = some "r1";
          state = runtime_ready;
        }))
unfolding wait_runtime_ready show
becomes_ready = refl

times_out :
    (wait_runtime_ready reliable
      (host unreachable)
      configuration
      (pos 12)
      "/log"
      "missing"
      (pos 30)
      (session unreachable (candidate starting_candidate))).0
    ≡ raised (update_error "Runtime readiness timed out: RCON readiness query exited with a status")
unfolding wait_runtime_ready show
times_out = refl

main-IsSound_example :
    IsSound
      (main reliable (host connected) prepare_start_command (session connected installed)).1.memory
main-IsSound_example =
    main-IsSound reliable (host connected) prepare_start_command (session connected installed)
      (λ _ _. refl) installed-IsSound

wait_runtime_ready-Returns_example :
    Returns reliable
      (host unreachable)
      (wait_runtime_ready reliable
        (host unreachable)
        configuration
        (pos 12)
        "/log"
        "missing"
        (pos 30)
        (session unreachable (candidate starting_candidate))).0
wait_runtime_ready-Returns_example =
    wait_runtime_ready-Returns reliable (host unreachable) (λ w. w) (keeps_time unreachable)
      (λ pid w. omega arith) configuration (pos 12) "/log" "missing" (pos 30)
      (session unreachable (candidate starting_candidate))
