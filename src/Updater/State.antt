-- ===== src/Updater/State.antt =====
-- The update state (`update-state.json`) of src/pz_updater/core.py: a JSON object, of which the
-- code reads and writes the keys below. `record s { k = v }` is the source's `{**s, "k": v}`.
use Prim.Native.String.{String}
use pz_server.Prelude.{ℕ, zero, suc, Bool, true, false, Option, none, some}

-- A JSON value, or the absence of the key. `release n` is the text `releases/n` where `n` matches
-- `[A-Za-z0-9._-]+`; `str` is any other text. `container` is a list
-- or an object, with whether it has members; `float` is a float, with whether it differs from 0.
pub data Value : Type 0 where
  absent null : Value
  container float : Bool → Value
  bool : Bool → Value
  int : ℕ → Value
  str : String → Value
  release : String → Value

-- The value at the key `state`; `unrecognised` stands for every value that the code never names.
pub data StateName : Type 0 where
  uninitialized current downloading_candidate promoting_candidate activating : StateName
  pending_readiness starting_candidate runtime_ready : StateName
  failed_before_world_open failed_after_world_open unknown : StateName
  unrecognised : Value → StateName

-- A list or an object cannot be hashed, so that a test for membership in a set raises a TypeError.
-- Each operation makes such a test first, or recovers first, which makes it; the later tests see only
-- what the first has let through.
abbrev pub is_unhashable : StateName → Bool
is_unhashable (unrecognised (container _)) = true
is_unhashable _ = false

pub record UpdateState : Type 0 where
  pub state : StateName
  pub current_build : Value
  pub previous_build : Value
  pub candidate_build : Value
  pub blocked_build : Value
  pub candidate_release : Value
  pub previous_release : Value
  pub promoted_release : Value
  pub pre_update_backup : Value
  pub world_opened : Value
  pub world_opened_at : Value
  pub last_result : Value
  pub detail : Value
  pub last_update_from_build : Value
  pub last_update_to_build : Value
  pub last_check_at : Value
  pub last_successful_update_at : Value
  pub update_policy : Value
  pub steam_branch : Value
  pub pz_version : Value
  pub pz_revision : Value
  pub runtime_ready_at : Value
  pub updated_at : Value

-- What `StateStore.load` returns where there is no file.
abbrev pub fresh : UpdateState
fresh = record {
  state = uninitialized;
  current_build = absent;
  previous_build = absent;
  candidate_build = absent;
  blocked_build = absent;
  candidate_release = absent;
  previous_release = absent;
  promoted_release = absent;
  pre_update_backup = absent;
  world_opened = absent;
  world_opened_at = absent;
  last_result = absent;
  detail = absent;
  last_update_from_build = absent;
  last_update_to_build = absent;
  last_check_at = absent;
  last_successful_update_at = absent;
  update_policy = absent;
  steam_branch = absent;
  pz_version = absent;
  pz_revision = absent;
  runtime_ready_at = absent;
  updated_at = absent;
}

-- `state.get(key) is None`
abbrev pub is_none : Value → Bool
is_none absent = true
is_none null = true
is_none (container _) = false
is_none (float _) = false
is_none (bool _) = false
is_none (int _) = false
is_none (str _) = false
is_none (release _) = false

-- The number that a value equals, if `isinstance(value, int)`: Python's `bool` is an `int`.
abbrev pub as_int : Value → Option ℕ
as_int (int n) = some n
as_int (bool true) = some 1
as_int (bool false) = some 0
as_int absent = none
as_int null = none
as_int (container _) = none
as_int (float _) = none
as_int (str _) = none
as_int (release _) = none

-- `value is True`
abbrev pub is_true : Value → Bool
is_true (bool b) = b
is_true absent = false
is_true null = false
is_true (container _) = false
is_true (float _) = false
is_true (int _) = false
is_true (str _) = false
is_true (release _) = false

-- `x if x is not None else None`
abbrev pub int_or_null : Option ℕ → Value
int_or_null none = null
int_or_null (some n) = int n

abbrev pub release_or_null : Option String → Value
release_or_null none = null
release_or_null (some n) = release n

abbrev pub str_or_null : Option String → Value
str_or_null none = null
str_or_null (some n) = str n

-- The first `n` characters of a text, `text[:n]`.
unfoldable pub shorten : ℕ → String → String
shorten zero s = String.[]
shorten (suc n) String.[] = String.[]
shorten (suc n) (String.◌∷◌ c s) = String.◌∷◌ c (shorten n s)
