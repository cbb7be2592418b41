-- ===== src/Lib.antt =====
-- pz-server runs a Project Zomboid game server on a host that is powered off while nobody plays.
-- This library models the two Python packages that decide when the host may be powered off
-- (src/pz_watchdog) and which release of the game is started (src/pz_updater).
--
-- The watchdog. `Watchdog.Models` is src/pz_watchdog/models.py. `Watchdog.Ports` holds the
-- protocols by which the parts call one another, as records of functions over a type of worlds, so
-- that a theorem holds whatever the collaborators answer. `Watchdog.Engine` is
-- src/pz_watchdog/engine.py: `tick` with `_handle_empty`, `_handle_unknown`,
-- `_final_shutdown_validation` and `_reset_empty`, each a function on the state of the engine;
-- `run` is a sequence of ticks. `Watchdog.Shutdown` is src/pz_watchdog/shutdown.py:
-- `SystemdPowerController` and `ShutdownCoordinator`. A method that the source writes in one piece
-- is several functions here, one for each stage. `Watchdog.Rcon` is src/pz_watchdog/rcon.py: the
-- client (`Watchdog.Rcon.Client`), the parser of the player list, and `RetryingPlayerCounter.query`
-- and `RconAdmin.save` over one loop, with the regular expressions as parameters.
-- `Watchdog.Processes` is what these parts call of the host: processes, the clock and sleeps.
-- `Watchdog.Service` and `Watchdog.Service.Control` are src/pz_watchdog/service.py:
-- `DockerComposeService`, with `_verified_stopped_identifier` as the memory of its session, and
-- `TcpOnlyService`. `Watchdog.Config` and `Watchdog.Config.Build` are src/pz_watchdog/config.py,
-- with the checks of `from_environment` in their order. `Watchdog.Cli` and `Watchdog.Cli.Commands`
-- are src/pz_watchdog/cli.py: `build_components` wires the parts above, `rounds` is the loop of
-- `run_watchdog`, and `execute` and `main` give exit codes. The sessions of the engine, the
-- coordinator, the RCON client and the Docker service keep a journal of the calls, latest first,
-- which the code does not keep; the theorems are stated on it. Times and delays are natural numbers
-- of one unit; a difference of times stops at 0, and an outage timer that would read a negative
-- time is below its positive timeout in both.
--
-- The updater (src/pz_updater/core.py). `Updater.State` is the recorded state as a record of JSON
-- values; the text `releases/<name>` is `Value.release`. `Updater.Machine` is what the code works
-- on: the state file, the two pointer files, and what stands below `releases/`. An `Environment`
-- answers each step by its number: the Steam client, the launcher validator, the manifest reader,
-- the backup manager, the clock, the generators of names, and the fate of each write or read, which
-- works, raises an OSError before its effect or after it, or ends the process (`killed`, which no
-- handler catches). A removal that fails leaves an arbitrary remainder of the tree. An installation
-- and a preparation change the tree of their release only, and arbitrarily. `Updater.Exec` is the
-- monad of code that may raise. `Updater.Layout` is `StateStore`, `ReleaseLayout` and
-- `TransactionLock`; `Updater.Recovery` is `_recover_interrupted`, `_recover_activation` and
-- `_record_pre_world_failure`; `Updater.Update` is `_stage_and_activate`; `Updater.Start` is
-- `prepare_start`, `explicit_update` and `_check_and_update`; `Updater.Lifecycle` is
-- `mark_world_opened`, `mark_runtime_ready`, `accept`, `fail_readiness`, `active_release` and
-- `status`; `Updater.Acceptance` is about `accept`. `Updater.Soundness` holds the invariant
-- (`Updater.Soundness.Invariant`) and its proof, operation by operation; `Updater.Committed` is
-- about candidates that await the world or have touched it. `Updater.Players` is
-- `parse_player_count` and `require_no_players`. `Updater.Config` is `UpdateConfiguration`.
-- `Updater.Vdf` is `_vdf_tokens` and the parser of Valve's format, and `Updater.Steam` the readers
-- of the manifests and `SteamClient`, which the machine of the updater takes as parameters.
-- `Updater.Backup` is `BackupManager`, on the files of the backup directory, which the machine of
-- the updater takes as a parameter as well. `Updater.Cli` and `Updater.Cli.Commands` are
-- src/pz_updater/cli.py, with the machine of the updater as the memory of their session: `await` is
-- the loop of `_wait_runtime_ready`, and `run` and `main` take the parsed command.
-- `Updater.Soundness.Waiting` and `Updater.Soundness.Commands` carry the invariant over to them.
--
-- Bounds. The waits for a healthy or a ready server run on one unit of fuel more than the seconds
-- of their timeout, which is enough, as a round sleeps a second at least or reaches the deadline;
-- `run_watchdog` runs for a given number of rounds. The scanner and the parser of Valve's format
-- run on as much fuel as there are characters or tokens, which is enough (`Updater.Vdf.Scan`,
-- `Updater.Vdf.Fuel`). The other loops are over lists, the stages of an update, and the counted
-- final checks and attempts. The product of `_require_candidate_space` with the float 1.35 is exact
-- here. Builds and sizes are natural numbers, as the parsers of the source give them.
--
-- Not modelled. Log messages, and the values that messages of exceptions interpolate. The temporary
-- files of `atomic_write`, whose effect is whole or absent. The system calls of the lock. A
-- symbolic link below `releases/` leads out of it. The environment of a process. Outputs of
-- processes, and manifests, that cannot be decoded as text: a UnicodeDecodeError is modelled for
-- the state file and the pointers only. `RconAdmin.save` lets a ValueError of its client through,
-- and `query` retries on it, but the client over such processes raises none (`Watchdog.Cli.admin`).
-- The Unicode tables, `resolve`, `shlex.split` and the regular expressions are parameters; the
-- limit that `int` sets to the number of digits is not modelled. The argument parsers and
-- interrupts. The launcher validator and the metrics.
pub mod Prelude
pub mod Watchdog
pub mod Updater
