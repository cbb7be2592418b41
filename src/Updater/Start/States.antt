-- ===== src/Updater/Start/States.antt =====
-- The tests of recorded states and builds by which src/pz_updater/core.py decides on a start, and
-- the states that a start without an update records.
use pz_server.Prelude.{ℕ, String, Bool, true, false, Option, none, some, ltb, ◌==◌, if◌then◌else◌}
use pz_server.Updater.State.{
  UpdateState, StateName, Value, null, str, uninitialized, downloading_candidate,
  promoting_candidate, activating, pending_readiness, starting_candidate, runtime_ready,
  failed_before_world_open, failed_after_world_open, as_int,
}
use pz_server.Updater.Machine.{SteamBuildMetadata}
use pz_server.Updater.Recovery.{build_or_null}
use pz_server.Updater.Update.{UpdatePolicy, stable_on_start, manual, policy_value, Configuration}

-- The states in which `prepare_start` starts the candidate again and `explicit_update` refuses.
abbrev pub is_committed : StateName → Bool
is_committed pending_readiness = true
is_committed starting_candidate = true
is_committed runtime_ready = true
is_committed failed_after_world_open = true
is_committed _ = false

-- `CANDIDATE_STATES`
abbrev pub is_candidate_state : StateName → Bool
is_candidate_state activating = true
is_candidate_state downloading_candidate = true
is_candidate_state pending_readiness = true
is_candidate_state promoting_candidate = true
is_candidate_state starting_candidate = true
is_candidate_state runtime_ready = true
is_candidate_state failed_after_world_open = true
is_candidate_state _ = false

abbrev pub is_failed_before : StateName → Bool
is_failed_before failed_before_world_open = true
is_failed_before _ = false

-- The states that `prepare_start` does not fall back from.
abbrev pub is_beyond_fallback : StateName → Bool
is_beyond_fallback activating = true
is_beyond_fallback pending_readiness = true
is_beyond_fallback starting_candidate = true
is_beyond_fallback runtime_ready = true
is_beyond_fallback failed_after_world_open = true
is_beyond_fallback _ = false

-- `state.get("blocked_build") == latest`
abbrev pub equals_build : Value → ℕ → Bool
equals_build v n = elim (as_int v) [ none ↦ false | some m ↦ m == n ]

abbrev pub is_build : Option ℕ → ℕ → Bool
is_build none n = false
is_build (some m) n = m == n

abbrev pub is_older : ℕ → Option ℕ → Bool
is_older n none = false
is_older n (some m) = ltb n m

abbrev pub is_manual : UpdatePolicy → Bool
is_manual manual = true
is_manual stable_on_start = false

abbrev pub is_present : {A : Type 0} → Option A → Bool
is_present none = false
is_present (some _) = true

-- The states that `_write_observation` and `_write_no_update` record.
abbrev pub observed :
    Configuration → UpdateState → Option SteamBuildMetadata → String → String → UpdateState
observed c s installed result now = record s {
  state = if is_present installed then StateName.current else uninitialized;
  current_build = build_or_null installed;
  candidate_build = null;
  last_result = str result;
  update_policy = str (policy_value c.policy);
  steam_branch = str c.steam_branch;
  updated_at = str now;
}

abbrev pub up_to_date :
    Configuration → UpdateState → Option SteamBuildMetadata → String → UpdateState
up_to_date c s installed now = record s {
  state = StateName.current;
  current_build = build_or_null installed;
  candidate_build = null;
  blocked_build = null;
  detail = null;
  last_check_at = str now;
  last_result = str "no-update";
  update_policy = str (policy_value c.policy);
  steam_branch = str c.steam_branch;
  updated_at = str now;
}
