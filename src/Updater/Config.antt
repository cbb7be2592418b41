-- ===== src/Updater/Config.antt =====
-- `UpdateConfiguration` of src/pz_updater/core.py, with the parsers of its values.
pub mod Bounds
mod Tests
use Prim.Native.Char.{code}
use pz_server.Prelude.{
  ℕ, ◌*◌, zero, suc, String, ◌<>◌, Bool, true, false, not, ◌&&◌, ◌||◌, Option, none, some, List, [],
  ◌∷◌, leb, ltb, ◌==◌, str_eq, if◌then◌else◌,
}
use pz_server.Prelude.Text.{is_empty, strip, ends_with, without_last}
use pz_server.Prelude.Integers.{ℤ, pos, negsuc, Unicode, int, show, negative}
use pz_server.Prelude.Checked.{Checked, valid, invalid, crashed, ◌>>=◌}
use pz_server.Prelude.Environment.{Environment, get_or, is_one_of, show_bool}
use pz_server.Updater.Update.{UpdatePolicy, stable_on_start, manual, Configuration}

-- `_boolean`
unfoldable pub boolean : Unicode → Environment → String → Bool → Checked Bool
unfolding strip
boolean u values name default =
    let raw = u.lower (strip (get_or values name (show_bool default))) in
    if is_one_of ("1" ∷ "true" ∷ "yes" ∷ "on" ∷ []) raw
    then valid true
    else if is_one_of ("0" ∷ "false" ∷ "no" ∷ "off" ∷ []) raw
    then valid false
    else invalid (name <> " must be true or false")

-- The test of the bounds, none of which is negative.
abbrev pub within : String → ℕ → ℕ → ℤ → Checked ℕ
within name minimum maximum (negsuc n) =
    invalid (name <> " must be between " <> show minimum <> " and " <> show maximum)
within name minimum maximum (pos n) =
    if leb minimum n && leb n maximum
    then valid n
    else invalid (name <> " must be between " <> show minimum <> " and " <> show maximum)

abbrev pub read_within : String → ℕ → ℕ → Option ℤ → Checked ℕ
read_within name minimum maximum none = invalid (name <> " must be an integer")
read_within name minimum maximum (some i) = within name minimum maximum i

-- `_integer`
unfoldable pub integer : Unicode → Environment → String → ℕ → ℕ → ℕ → Checked ℕ
unfolding int
integer u values name default minimum maximum =
    read_within name minimum maximum (int u (get_or values name (show default)))

-- `[gGmM]`
abbrev pub is_heap_unit : ℕ → Bool
is_heap_unit c = c == 103 || c == 71 || c == 109 || c == 77

-- `\d`
abbrev pub is_decimal : Unicode → ℕ → Bool
is_decimal u c = elim (u.decimal c) [ none ↦ false | some _ ↦ true ]

-- `\d*[gGmM]`
unfoldable pub is_heap_rest : Unicode → String → Bool
is_heap_rest u String.[] = false
is_heap_rest u (String.◌∷◌ c String.[]) = is_heap_unit (code c)
is_heap_rest u (String.◌∷◌ c (String.◌∷◌ d s)) =
    let rest = is_heap_rest u (String.◌∷◌ d s) in is_decimal u (code c) && rest

-- `[1-9]\d*[gGmM]`
unfoldable pub is_heap_size : Unicode → String → Bool
unfolding is_heap_rest
is_heap_size u String.[] = false
is_heap_size u (String.◌∷◌ c s) = leb 49 (code c) && leb (code c) 57 && is_heap_rest u s

-- `_heap_size`
unfoldable pub heap_size : Unicode → Environment → String → String → Checked String
unfolding is_heap_size strip
heap_size u values name default =
    let value = strip (get_or values name default) in
    if is_heap_size u value
    then valid (u.lower value)
    else invalid (name <> " must be a positive integer followed by g or m")

-- `i * n`
abbrev pub times : ℤ → ℕ → ℤ
times (pos m) n = pos (m * n)
times (negsuc m) n = negative (suc m * n)

-- `j < i`
abbrev pub exceeds : ℤ → ℤ → Bool
exceeds (pos m) (pos n) = ltb n m
exceeds (pos m) (negsuc n) = true
exceeds (negsuc m) (pos n) = false
exceeds (negsuc m) (negsuc n) = ltb m n

-- `_heap_mebibytes`: `int` may raise a ValueError.
unfoldable pub heap_mebibytes : Unicode → String → Checked ℤ
unfolding int
heap_mebibytes u value = elim (int u (without_last value)) [
  | none ↦ crashed "ValueError"
  | some amount ↦ valid (if ends_with 103 value then times amount 1024 else amount)
]

pub record UpdateConfiguration : Type 0 where
  pub install_root : String
  pub data_root : String
  pub backup_root : String
  pub steamcmd : String
  pub app_id : ℕ
  pub branch : String
  pub branch_password : String
  pub policy : UpdatePolicy
  pub allow_auto_update_with_mods : Bool
  pub mods : String
  pub workshop_items : String
  pub backup_retention : ℕ
  pub pz_xms : String
  pub pz_xmx : String
  pub deployment_environment : String
  pub repository_deployment_marker : String

abbrev pub is_stable : UpdatePolicy → Bool
is_stable stable_on_start = true
is_stable manual = false

-- `UpdatePolicy(text)`
abbrev pub policy_named : String → Checked UpdatePolicy
policy_named text =
    if str_eq text "stable-on-start"
    then valid stable_on_start
    else if str_eq text "manual"
    then valid manual
    else invalid "PZ_UPDATE_POLICY must be stable-on-start or manual"

module _ (u : Unicode) (values : Environment) where
  unfoldable pub read_policy : Checked UpdatePolicy
  unfolding strip
  read_policy =
      let raw = strip (get_or values "PZ_UPDATE_POLICY" "stable-on-start") in
      policy_named (if is_empty raw then "stable-on-start" else raw)

  -- The branch, with the tests of the policy and of the password.
  unfoldable pub read_branch : UpdatePolicy → String → Checked String
  unfolding strip
  read_branch policy password =
      let branch = strip (get_or values "STEAM_BRANCH" "") in
      if is_stable policy && not (is_empty (u.lower branch))
      then invalid "PZ_UPDATE_POLICY=stable-on-start requires an empty STEAM_BRANCH"
      else if not (is_empty password) && is_empty branch
      then invalid "STEAM_BRANCH_PASSWORD requires an explicit STEAM_BRANCH"
      else valid branch

  unfoldable pub read_app_id : Checked ℕ
  unfolding integer
  read_app_id = integer u values "STEAM_APP_ID" 380870 1 2147483647 >>= λ app_id.
      if app_id == 380870
      then valid app_id
      else invalid "This updater supports only Project Zomboid dedicated-server App 380870"

  unfoldable pub read_deployment : Checked String
  unfolding strip
  read_deployment =
      let name = u.lower (strip (get_or values "DEPLOYMENT_ENVIRONMENT" "local")) in
      if is_one_of ("local" ∷ "aws" ∷ []) name
      then valid name
      else invalid "DEPLOYMENT_ENVIRONMENT must be local or aws"

  -- `PZ_XMS` and `PZ_XMX`
  unfoldable pub read_heap : Checked (String × String)
  unfolding heap_size heap_mebibytes
  read_heap = do
    xms ← heap_size u values "PZ_XMS" "2g"
    xmx ← heap_size u values "PZ_XMX" "8g"
    initial ← heap_mebibytes u xms
    maximal ← heap_mebibytes u xmx
    if exceeds initial maximal then invalid "PZ_XMS must not exceed PZ_XMX" else valid (xms, xmx)

  -- `from_environment`, in the order of its checks.
  unfoldable pub from_environment : Checked UpdateConfiguration
  unfolding read_policy read_branch read_app_id read_deployment read_heap boolean integer strip
  from_environment = do
    policy ← read_policy
    branch ← read_branch policy (get_or values "STEAM_BRANCH_PASSWORD" "")
    app_id ← read_app_id
    environment ← read_deployment
    heap ← read_heap
    with_mods ← boolean u values "ALLOW_AUTO_UPDATE_WITH_MODS" false
    retention ← integer u values "PZ_PRE_UPDATE_BACKUP_RETENTION" 3 2 20
    valid (record {
      install_root = get_or values "PZ_INSTALL_ROOT" "/opt/pzserver";
      data_root = get_or values "ZOMBOID_DIR" "/home/pz/Zomboid";
      backup_root = get_or values "PZ_BACKUP_DIR" "/backups";
      steamcmd = get_or values "STEAMCMD_DIR" "/opt/steamcmd" <> "/steamcmd.sh";
      app_id = app_id;
      branch = branch;
      branch_password = get_or values "STEAM_BRANCH_PASSWORD" "";
      policy = policy;
      allow_auto_update_with_mods = with_mods;
      mods = strip (get_or values "MODS" "");
      workshop_items = strip (get_or values "WORKSHOP_ITEMS" "");
      backup_retention = retention;
      pz_xms = heap.0;
      pz_xmx = heap.1;
      deployment_environment = environment;
      repository_deployment_marker =
          get_or values "PZ_REPOSITORY_DEPLOYMENT_MARKER" "/run/pz-deploy/deployment-pending";
    })

-- `steam_branch`
abbrev pub steam_branch : UpdateConfiguration → String
steam_branch c = if is_empty c.branch then "public" else c.branch

-- `mods_configured`
abbrev pub mods_configured : UpdateConfiguration → Bool
mods_configured c = not (is_empty c.mods) || not (is_empty c.workshop_items)

-- What the updater reads of its configuration.
abbrev pub configuration_of : UpdateConfiguration → Configuration
configuration_of c = record {
  policy = c.policy;
  steam_branch = steam_branch c;
  mods_configured = mods_configured c;
  allow_auto_update_with_mods = c.allow_auto_update_with_mods;
  deployment_environment = c.deployment_environment;
}
