-- ===== src/Watchdog/Models.antt =====
-- src/pz_watchdog/models.py. A count is a natural number, since the constructor refuses others.
use pz_server.Prelude.{ℕ, String, Bool, true, false, Option, none, some, ltb}

pub record PlayerObservation : Type 0 where
  pub count : Option ℕ
  pub detail : String

abbrev pub is_unknown : PlayerObservation → Bool
is_unknown o = elim o.count [ none ↦ true | some _ ↦ false ]

abbrev pub known : ℕ → PlayerObservation
known n = record { count = some n; detail = "" }

abbrev pub unknown_players : String → PlayerObservation
unknown_players detail = record { count = none; detail = detail }

-- `observation.count and observation.count > 0`: `None` and 0 are falsy. The plain test
-- `observation.count` of other callers has the same value, since no count is negative.
abbrev pub has_players : PlayerObservation → Bool
has_players o = elim o.count [ none ↦ false | some n ↦ ltb 0 n ]

pub data ServiceHealth : Type 0 where
  healthy unhealthy stopped unknown : ServiceHealth

pub data ShutdownOutcome : Type 0 where
  completed dry_run aborted : ShutdownOutcome
