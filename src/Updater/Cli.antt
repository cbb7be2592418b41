-- ===== src/Updater/Cli.antt =====
-- src/pz_updater/cli.py: the commands and the wait for a ready server. The session's memory is the
-- machine of the updater; its world is the rest of the host. Printing, logging and the argument
-- parser are not modelled.
pub mod Commands
pub mod Waiting
mod Tests
use pz_server.Prelude.{
  ℕ, zero, suc, ◌+◌, ◌-◌, String, ◌<>◌, Bool, true, false, not, ◌&&◌, ◌||◌, Option, none, some,
  List, [], ◌∷◌, ◌++◌, ltb, leb, str_eq, if◌then◌else◌,
}
use pz_server.Prelude.Text.{is_empty, strip}
use pz_server.Prelude.Integers.{ℤ, pos, negsuc, Unicode, equals, show}
use pz_server.Prelude.Checked.{Checked, valid, invalid, crashed}
use pz_server.Prelude.Environment.{Environment, get_or}
use pz_server.Watchdog.Processes.{Process, Machine, Session, run, monotonic, sleep}
use pz_server.Watchdog.Rcon.{Patterns, Reading, got, refused}
use pz_server.Updater.Config as Config
use pz_server.Updater.Config.{configuration_of}
use pz_server.Updater.Exec.{
  Failure, update_error, incompatible, os_error, other_error, killed, Result, ok, raised, Exec,
  ◌>>=◌, ◌>>◌, pure, raise,
}
use pz_server.Updater.Lifecycle.{
  mark_world_opened, mark_runtime_ready, accept, fail_readiness, active_release,
}
use pz_server.Updater.Lifecycle as Life
use pz_server.Updater.Machine as Installation
use pz_server.Updater.Machine.{World}
use pz_server.Updater.Players.{count_players}
use pz_server.Updater.Start.{prepare_start, explicit_update}
use pz_server.Updater.State.{UpdateState, StateName}
use pz_server.Updater.Update.{Configuration}

-- The identity of a log file, by its device, inode, size and time of change.
pub record LogFile : Type 0 where
  pub device : ℕ
  pub inode : ℕ
  pub size : ℕ
  pub changed_at : ℕ

-- What the commands take from outside the package: processes and the clock, the test of a process,
-- the log file (`none` for a link, for what is no file, and for an OSError), its text, and the
-- matches of the version pattern in a text.
pub record Runtime (W : Type 0) : Type 0 where
  pub machine : Machine W
  pub unicode : Unicode
  pub patterns : Patterns
  pub variables : Environment
  pub is_alive : ℕ → W → Bool × W
  pub inspect_log : String → W → Option LogFile × W
  pub read_log : String → W → Option String × W
  pub versions : String → List (String × String)

-- `_log_fingerprint`
unfoldable pub fingerprint : Option LogFile → String
fingerprint none = "missing"
fingerprint (some f) =
    show f.device <> ":" <> show f.inode <> ":" <> show f.size <> ":" <> show f.changed_at

-- `matches[-1]`, of matches that may be none
abbrev pub last_version : List (String × String) → Option String × Option String
last_version [] = (none, none)
last_version ((version, revision) ∷ []) = (some version, some revision)
last_version (first ∷ second ∷ rest) = last_version (second ∷ rest)

-- `read_pz_version`, on the text of the log
abbrev pub version_of :
    (String → List (String × String)) → Option String → Option String × Option String
version_of versions none = (none, none)
version_of versions (some text) = last_version (versions text)

abbrev pub of_checked : {A : Type 0} → Checked A → Result A
of_checked (valid a) = ok a
of_checked (invalid message) = raised (update_error message)
of_checked (crashed name) = raised (other_error name)

abbrev pub of_reading : {A : Type 0} → Reading A → Result A
of_reading (got a) = ok a
of_reading (refused message) = raised (update_error message)

-- What `_wait_runtime_ready` returns.
pub record Ready : Type 0 where
  pub players : ℕ
  pub pz_version : Option String
  pub pz_revision : Option String
  pub state : StateName

-- The loop has returned, or its fuel has run out.
pub data Awaited : Type 0 where
  is_ready : Ready → Awaited
  out_of_fuel : Awaited

-- The smaller of two numbers
abbrev pub smaller : ℕ → ℕ → ℕ
smaller a b = if ltb a b then a else b

module _ {T W : Type 0} (env : Installation.Environment T) (rt : Runtime W) where
  abbrev pub State : Type 0
  State = Session W (World T)

  -- A method of the updater.
  abbrev pub updater : {A : Type 0} → Exec (World T) A → Exec State A
  updater call s = let (r, m) = call s.memory in (r, record s { memory = m })

  abbrev pub outside : {A : Type 0} → (W → A × W) → Exec State A
  outside call s = let (a, w) = call s.world in (ok a, record s { world = w })

  -- `_environment_integer`
  unfoldable pub environment_integer : String → ℕ → ℕ → ℕ → Checked ℕ
  unfolding Config.integer
  environment_integer = Config.integer rt.unicode rt.variables

  -- `_query_players`, on the answer of `subprocess.run`
  unfoldable pub players_of : Option Process → Result ℕ
  unfolding strip count_players
  players_of none = raised (update_error "RCON readiness query failed")
  players_of (some p) =
      if not (equals p.returncode 0)
      then raised (update_error "RCON readiness query exited with a status")
      else if not (is_empty (strip p.stderr))
      then raised (update_error "RCON readiness query reported an error")
      else of_reading (count_players rt.patterns (strip p.stdout))

  abbrev pub ask_rcon : ℕ → ℕ → Exec State ℕ
  ask_rcon port timeout s =
      let command = "rcon-cli" ∷ "--host" ∷ "127.0.0.1" ∷ "--port" ∷ show port ∷ "players" ∷ [] in
      let (p, s') = run rt.machine command timeout s in (players_of p, s')

  abbrev pub give : {A : Type 0} → Result A → Exec State A
  give r s = (r, s)

  -- `_query_players`
  unfoldable pub query_players : Exec State ℕ
  unfolding environment_integer players_of
  query_players =
      if is_empty (get_or rt.variables "RCON_PASSWORD" "")
      then raise (update_error "RCON_PASSWORD must not be empty for runtime readiness")
      else give (of_checked (environment_integer "RCON_PORT" 27015 1024 65535)) >>= λ port.
          give (of_checked (environment_integer "RCON_TIMEOUT_SECONDS" 10 1 60)) >>= ask_rcon port

  -- The versions, where the log has changed.
  unfoldable pub fresh_version : String → String → Exec State (Option String × Option String)
  unfolding fingerprint
  fresh_version log known s =
      let (file, w) = rt.inspect_log log s.world in
      let (text, w') = rt.read_log log w in
      if str_eq (fingerprint file) known
      then (ok (none, none), record s { world = w })
      else (ok (version_of rt.versions text), record s { world = w' })

  -- The `else` branch of the loop's `try`.
  unfoldable pub become_ready : Configuration → String → String → ℕ → Exec State Awaited
  unfolding fresh_version mark_runtime_ready Life.status
  become_ready c log known players = fresh_version log known >>= λ found.
      updater (mark_runtime_ready env c found.0 found.1) >> updater (Life.status env) >>= λ s.
      pure (
        is_ready (record {
          players = players;
          pz_version = found.0;
          pz_revision = found.1;
          state = s.state;
        }))

  -- `fail_readiness(detail)`, and the exception behind it
  unfoldable pub fail_with : {A : Type 0} → String → Exec State A
  unfolding fail_readiness
  fail_with detail = updater (fail_readiness env detail) >> raise (update_error detail)

  -- `time.sleep(min(5, max(0, deadline - now)))`, with the time read anew
  abbrev pub pause_until : ℕ → State → State
  pause_until deadline s =
      let (now, s') = monotonic rt.machine s in sleep rt.machine (smaller 5 (deadline - now)) s'

  -- What the query has shown: a count, a detail to remember, or an exception that ends the loop.
  abbrev pub after_query :
      Result ℕ → (ℕ → Exec State Awaited) → (String → Exec State Awaited) → Exec State Awaited
  after_query (ok players) ready later = ready players
  after_query (raised (update_error detail)) ready later = later detail
  after_query (raised (incompatible detail)) ready later = later detail
  after_query (raised (os_error name)) ready later = raise (os_error name)
  after_query (raised (other_error name)) ready later = raise (other_error name)
  after_query (raised killed) ready later = raise killed

  -- The loop of `_wait_runtime_ready`, until the deadline, with `last_detail`.
  unfoldable pub await : ℕ → Configuration → ℕ → String → String → ℕ → String → Exec State Awaited
  unfolding query_players become_ready fail_with
  await zero c pid log known deadline detail s = (ok out_of_fuel, s)
  await (suc fuel) c pid log known deadline detail s =
      let (now, s1) = monotonic rt.machine s in
      let (alive, w) = rt.is_alive pid s1.world in
      let s2 : State = record s1 { world = w } in
      let (found, s3) = query_players s2 in
      let answered =
        after_query found (become_ready c log known)
          (λ why t. await fuel c pid log known deadline why (pause_until deadline t)) s3 in
      if not (ltb now deadline)
      then fail_with ("Runtime readiness timed out: " <> detail) s1
      else if not alive
      then fail_with "Project Zomboid exited before exact RCON readiness" s2
      else answered

  -- `_wait_runtime_ready`, with arguments that are in order.
  unfoldable pub start_waiting : Configuration → ℕ → String → String → ℕ → Exec State Awaited
  unfolding await
  start_waiting c pid log known timeout s =
      let (now, s1) = monotonic rt.machine s in
      let (next_progress, s2) = monotonic rt.machine s1 in
      await (suc timeout) c pid log known (now + timeout) "RCON has not been queried" s2

  -- `_wait_runtime_ready`: with one second or more for each round, the fuel is enough.
  unfoldable pub wait_runtime_ready : Configuration → ℤ → String → String → ℤ → Exec State Awaited
  unfolding start_waiting
  wait_runtime_ready c (negsuc n) log known timeout =
      raise (update_error "--pid must identify a positive process ID")
  wait_runtime_ready c (pos zero) log known timeout =
      raise (update_error "--pid must identify a positive process ID")
  wait_runtime_ready c (pos (suc n)) log known (negsuc m) =
      raise (update_error "--timeout must be between 30 and 3600 seconds")
  wait_runtime_ready c (pos (suc n)) log known (pos timeout) =
      if leb 30 timeout && leb timeout 3600
      then start_waiting c (suc n) log known timeout
      else raise (update_error "--timeout must be between 30 and 3600 seconds")
