-- ===== src/Watchdog/Engine.antt =====
-- src/pz_watchdog/engine.py: the idle timer, the outage timer and the final validation.
-- Times and delays are natural numbers of one unit. Log messages are not modelled. `Session` adds
-- to the object's state the calls that the engine made, latest first, which the code does not keep.
pub mod History
mod Timers
pub mod Safety
pub mod Validation
mod Tests
use pz_server.Prelude.{
  ℕ, zero, suc, ◌+◌, ◌-◌, Bool, true, false, ◌||◌, Option, none, some, List, [], ◌∷◌, ltb, leb,
  if◌then◌else◌,
}
use pz_server.Watchdog.Models.{
  PlayerObservation, is_unknown, has_players, ServiceHealth, healthy, unhealthy, stopped, unknown,
  ShutdownOutcome, completed, dry_run, aborted,
}
use pz_server.Watchdog.Ports.{PlayerCounter, ServiceManager, ShutdownAction, Sleeper}

pub record WatchdogPolicy : Type 0 where
  pub idle_timeout_seconds : ℕ
  pub health_failure_timeout_seconds : ℕ
  pub final_check_count : ℕ
  pub final_check_delay_seconds : ℕ
  pub progress_interval_seconds : ℕ
  pub dry_run : Bool

-- `__post_init__`: the constructor raises ValueError unless this holds.
unfoldable pub accepts : WatchdogPolicy → Bool
accepts p =
    if leb p.idle_timeout_seconds 0 || leb p.health_failure_timeout_seconds 0
    then false
    else if ltb p.final_check_count 2 || leb p.final_check_delay_seconds 0
    then false
    else true

pub record WatchdogState : Type 0 where
  pub empty_since : Option ℕ
  pub management_failure_since : Option ℕ
  pub last_progress_at : Option ℕ
  pub dry_run_reported : Bool

abbrev pub initial : WatchdogState
initial = record {
  empty_since = none;
  management_failure_since = none;
  last_progress_at = none;
  dry_run_reported = false;
}

-- What the engine asked of its collaborators, with the answers, and the start of each tick.
pub data Call : Type 0 where
  ticked : ℕ → Call
  queried : PlayerObservation → Call
  health_checked : ServiceHealth → Call
  restarted : Bool → Call
  slept : ℕ → Call
  executed : Bool → ShutdownOutcome → Call

pub record Session (W : Type 0) : Type 0 where
  pub state : WatchdogState
  pub world : W
  pub calls : List Call

-- The fields of `WatchdogEngine` other than its state.
pub record Engine (W : Type 0) : Type 0 where
  pub players : PlayerCounter W
  pub service : ServiceManager W
  pub shutdown : ShutdownAction W
  pub sleeper : Sleeper W
  pub policy : WatchdogPolicy

-- `health in {UNHEALTHY, STOPPED}`
abbrev pub is_down : ServiceHealth → Bool
is_down unhealthy = true
is_down stopped = true
is_down healthy = false
is_down unknown = false

module _ {W : Type 0} where
  unfoldable pub reset_empty : Session W → Session W
  reset_empty s = record s {
    state = record s.state {
      empty_since = none;
      last_progress_at = none;
      dry_run_reported = false;
    };
  }

  abbrev pub set_failure : Option ℕ → Session W → Session W
  set_failure t s = record s { state = record s.state { management_failure_since = t } }

module _ {W : Type 0} (e : Engine W) where
  abbrev pub query : Session W → PlayerObservation × Session W
  query s =
      let (o, w) = e.players.query s.world in
      (o, record s { world = w; calls = queried o ∷ s.calls })

  abbrev pub check_health : Session W → ServiceHealth × Session W
  check_health s =
      let (h, w) = e.service.health s.world in
      (h, record s { world = w; calls = health_checked h ∷ s.calls })

  abbrev pub restart : Session W → Session W
  restart s =
      let (b, w) = e.service.restart s.world in
      record s { world = w; calls = restarted b ∷ s.calls }

  abbrev pub sleep : Session W → Session W
  sleep s =
      let delay = e.policy.final_check_delay_seconds in
      record s { world = e.sleeper.sleep delay s.world; calls = slept delay ∷ s.calls }

  abbrev pub execute : Session W → ShutdownOutcome × Session W
  execute s =
      let dry = e.policy.dry_run in
      let (o, w) = e.shutdown.execute dry s.world in
      (o, record s { world = w; calls = executed dry o ∷ s.calls })

  -- The `for` loop of `_final_shutdown_validation`, on the rounds that are left. The flag says
  -- that no round returned.
  unfoldable pub final_checks : ℕ → Session W → Bool × Session W
  unfolding reset_empty
  final_checks zero s = (true, s)
  final_checks (suc n) s =
      let (o, s') = query (sleep s) in
      let rest = final_checks n s' in
      if is_unknown o
      then (false, reset_empty s')
      else if has_players o
      then (false, reset_empty s')
      else rest

  -- What follows the loop.
  unfoldable pub run_shutdown : Session W → Session W
  unfolding reset_empty
  run_shutdown s =
      let (outcome, s') = execute s in
      elim outcome [
        | dry_run ↦ record s' { state = record s'.state { dry_run_reported = true } }
        | completed ↦ reset_empty s'
        | aborted ↦ reset_empty s'
      ]

  -- `range(2, count + 1)` has `count - 1` members, and none when the count is 0.
  unfoldable pub final_shutdown_validation : Session W → Session W
  final_shutdown_validation s =
      let (passed, s') = final_checks (e.policy.final_check_count - 1) s in
      if passed then run_shutdown s' else s'

  -- The progress message is due, and its time is noted.
  unfoldable pub note_progress : ℕ → Session W → Session W
  note_progress now s =
      let noted : Session W = record s { state = record s.state { last_progress_at = some now } } in
      elim s.state.last_progress_at [
        | none ↦ noted
        | some at ↦ if leb (at + e.policy.progress_interval_seconds) now then noted else s
      ]

  unfoldable pub continue_empty : ℕ → ℕ → Session W → Session W
  unfolding note_progress
  continue_empty now since s =
      let s' = note_progress now s in
      if ltb (now - since) e.policy.idle_timeout_seconds || s'.state.dry_run_reported
      then s'
      else final_shutdown_validation s'

  unfoldable pub handle_empty : ℕ → Session W → Session W
  handle_empty now s = elim s.state.empty_since [
    | none ↦ record s {
      state = record s.state {
        empty_since = some now;
        last_progress_at = some now;
        dry_run_reported = false;
      };
    }
    | some since ↦ continue_empty now since s
  ]

  -- `elapsed < timeout` for an elapsed time that may be negative
  unfoldable pub continue_outage : ℕ → ℕ → Session W → Session W
  unfolding reset_empty
  continue_outage now since s =
      if ltb now (since + e.policy.health_failure_timeout_seconds)
      then s
      else reset_empty (set_failure none (restart s))

  -- The rest of `_handle_unknown` where the service is down.
  unfoldable pub handle_down : ℕ → Session W → Session W
  handle_down now s = elim s.state.management_failure_since [
    | none ↦ set_failure (some now) s
    | some since ↦ continue_outage now since s
  ]

  unfoldable pub handle_unknown : ℕ → Session W → Session W
  unfolding reset_empty
  handle_unknown now s =
      let (health, s') = check_health (reset_empty s) in
      if is_down health then handle_down now s' else set_failure none s'

  unfoldable pub tick : ℕ → Session W → Session W
  unfolding reset_empty
  tick now s =
      let (o, s') = query (record s { calls = ticked now ∷ s.calls }) in
      if is_unknown o
      then handle_unknown now s'
      else let s'' = set_failure none s' in
        if has_players o then reset_empty s'' else handle_empty now s''

  -- The loop of `run_watchdog`, over the times at which it ticks.
  unfoldable pub run : List ℕ → Session W → Session W
  run [] s = s
  run (now ∷ times) s = run times (tick now s)
