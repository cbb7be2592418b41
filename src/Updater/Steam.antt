-- ===== src/Updater/Steam.antt =====
-- The Steam manifests and `SteamClient` of src/pz_updater/core.py. `Tables` is what they take from
-- Python: the Unicode tables and the removal of escape codes.
pub mod Installed
mod Tests
use pz_server.Prelude.{
  ℕ, zero, suc, String, ◌<>◌, Bool, true, false, not, ◌&&◌, ◌||◌, Option, none, some, List, [], ◌∷◌,
  ◌++◌, str_eq, if◌then◌else◌,
}
use Prim.Native.Char.{code}
use pz_server.Prelude.Text.{is_empty}
use pz_server.Prelude.Integers.{ℤ, pos, negsuc, Unicode, int, show, equals}
use pz_server.Prelude.Checked.{Checked, valid, invalid, crashed, ◌>>=◌, require}
use pz_server.Watchdog.Processes.{Process, Machine, Session, run}
use pz_server.Updater.Machine.{SteamBuildMetadata}
use pz_server.Updater.Vdf.{Value, text, object, Entries, parse_vdf_root, nested_string, find_entry}

pub record Tables : Type 0 where
  pub unicode : Unicode
  pub without_escapes : String → String

-- Every character is a decimal digit.
abbrev pub are_decimals : Unicode → String → Bool
are_decimals u String.[] = true
are_decimals u (String.◌∷◌ c s) =
    let rest = are_decimals u s in elim (u.decimal (code c)) [ none ↦ false | some _ ↦ rest ]

-- `text.isdecimal()`
abbrev pub is_decimal : Unicode → String → Bool
is_decimal u s = not (is_empty s) && are_decimals u s

-- `int(raw)`, for a number above 0 in decimal digits
unfoldable pub positive : Unicode → String → String → Checked ℕ
unfolding int
positive u message raw = if not (is_decimal u raw) then invalid message else elim (int u raw) [
  | none ↦ crashed "ValueError"
  | some (pos zero) ↦ invalid message
  | some (pos (suc n)) ↦ valid (suc n)
  | some (negsuc n) ↦ invalid message
]

module _ (t : Tables) where
  abbrev pub root : String → String → Checked Entries
  root content key = parse_vdf_root (t.without_escapes content) key

  -- `parse_app_info_build`
  unfoldable pub parse_app_info_build : String → ℕ → String → Checked ℕ
  unfolding positive
  parse_app_info_build content app_id branch = do
    app ← root content (show app_id)
    raw ← nested_string (object app) ("depots" ∷ "branches" ∷ branch ∷ "buildid" ∷ [])
    positive t.unicode "Steam branch build ID is malformed" raw

  -- `app_state.get("UpdateResult") not in {None, "0"}`: a dictionary cannot be hashed.
  abbrev pub check_result : Option Value → Checked (Unit {0})
  check_result none = valid tt
  check_result (some (text result)) =
      require (str_eq result "0") "Installed Steam manifest reports an unsuccessful update"
  check_result (some (object entries)) = crashed "TypeError"

  abbrev pub natural : Option ℤ → Option ℕ
  natural none = none
  natural (some (pos n)) = some n
  natural (some (negsuc n)) = none

  -- `int(raw_size) if isinstance(raw_size, str) and raw_size.isdecimal() else None`
  unfoldable pub size_of : Option Value → Option ℕ
  unfolding int
  size_of none = none
  size_of (some (object entries)) = none
  size_of (some (text raw)) = if is_decimal t.unicode raw then natural (int t.unicode raw) else none

  -- `read_installed_metadata`, on the content of the manifest, with `none` for an OSError
  unfoldable pub read_installed : Option String → ℕ → Checked SteamBuildMetadata
  unfolding positive size_of
  read_installed none app_id = invalid "Installed Steam manifest is missing"
  read_installed (some content) app_id = do
    state ← root content "AppState"
    app ← nested_string (object state) ("appid" ∷ [])
    _ ← require (str_eq app (show app_id)) "Installed Steam manifest App ID does not match 380870"
    raw ← nested_string (object state) ("buildid" ∷ [])
    build ← positive t.unicode "Installed Steam build ID is malformed" raw
    flags ← nested_string (object state) ("StateFlags" ∷ [])
    _ ← require (str_eq flags "4") "Installed Steam manifest is not in the fully-installed state"
    _ ← check_result (find_entry "UpdateResult" state)
    valid (record { build_id = build; size_on_disk = size_of (find_entry "SizeOnDisk" state) })

pub record SteamClient : Type 0 where
  pub executable : String
  pub app_id : ℕ

abbrev pub beta_arguments : String → String → List String
beta_arguments branch password =
    if str_eq branch "public"
    then []
    else "-beta" ∷ branch ∷ (if is_empty password then [] else "-betapassword" ∷ password ∷ [])

abbrev pub install_command : SteamClient → String → String → String → Bool → List String
install_command c destination branch password validate =
    (c.executable
      ∷ "+force_install_dir"
      ∷ destination
      ∷ "+login"
      ∷ "anonymous"
      ∷ "+app_update"
      ∷ show c.app_id
      ∷ [])
    ++ beta_arguments branch password
    ++ (if validate then "validate" ∷ [] else [])
    ++ ("+quit" ∷ [])

abbrev pub installed : Option Process → Checked (Unit {0})
installed none = invalid "Steam candidate installation failed"
installed (some p) =
    require (equals p.returncode 0) "Steam candidate installation exited with a status"

module _ (t : Tables) (c : SteamClient) where
  -- The answer to the query of `latest_build`
  unfoldable pub read_answer : Option Process → String → Checked ℕ
  unfolding parse_app_info_build
  read_answer none branch = invalid "Steam build metadata query failed"
  read_answer (some p) branch =
      if not (equals p.returncode 0)
      then invalid "Steam build metadata query exited with a status"
      else parse_app_info_build t (p.stdout <> "\n" <> p.stderr) c.app_id branch

module _ {W M : Type 0} (machine : Machine W) (t : Tables) (c : SteamClient) where
  unfoldable pub latest_build : String → Session W M → Checked ℕ × Session W M
  unfolding read_answer
  latest_build branch s =
      let (p, s') =
        run machine
          (c.executable
            ∷ "+login"
            ∷ "anonymous"
            ∷ "+app_info_update"
            ∷ "1"
            ∷ "+app_info_print"
            ∷ show c.app_id
            ∷ "+quit"
            ∷ [])
          300 s in
      (read_answer t c p branch, s')

  unfoldable pub install :
      String → String → String → Bool → Session W M → Checked (Unit {0}) × Session W M
  install destination branch password validate s =
      let (p, s') = run machine (install_command c destination branch password validate) 3300 s in
      (installed p, s')
