-- ===== src/Updater/Steam/Tests.antt =====
-- The Steam manifests of src/pz_updater/core.py on concrete texts.
use pz_server.Prelude.{◌≡◌, refl, ◌-◌, ◌&&◌, String, none, some, [], ◌∷◌, leb, if◌then◌else◌}
use pz_server.Prelude.Integers.{show}
use pz_server.Prelude.Checked.{valid}
use pz_server.Updater.Machine.{SteamBuildMetadata}
use pz_server.Updater.Vdf.{
  text, object, Entries, no_entry, entry, vdf_tokens, parse_object, parsed, parse_vdf_root,
  nested_string,
}
use pz_server.Updater.Vdf.Fuel.{Shrinks, parse_object-Shrinks}
use pz_server.Updater.Vdf.RoundTrip.{print_object, parse_object-print_object}
use pz_server.Updater.Steam.{Tables, read_installed, parse_app_info_build}
use pz_server.Updater.Steam.Installed.{IsInstalled, read_installed-IsInstalled}

abbrev tables : Tables
tables = record {
  unicode = record {
    decimal = λ c. if leb 48 c && leb c 57 then some (c - 48) else none;
    lower = λ s. s;
  };
  without_escapes = λ s. s;
}

abbrev manifest : String
manifest =
    "\"AppState\"\n{\n\t\"appid\"\t\"380\"\n\t\"name\" \"a \\\"b\\\"\"\n\t\"StateFlags\" \"4\"\n\t\"buildid\" \"17\"\n\t\"SizeOnDisk\" \"5000\"\n}\n"

abbrev build : SteamBuildMetadata
build = record { build_id = 17; size_on_disk = some 5000 }

scans : vdf_tokens "\"k\" { \"a \\\"b\\\\\" }" ≡ "k" ∷ "{" ∷ "a \"b\\" ∷ "}" ∷ []
unfolding vdf_tokens
scans = refl

-- A quoted brace is the same token as a bare one.
loses_quotes : vdf_tokens "\"{\"" ≡ vdf_tokens "{"
unfolding vdf_tokens
loses_quotes = refl

is_read : read_installed tables (some manifest) 380 ≡ valid build
unfolding read_installed parse_vdf_root show nested_string
is_read = refl

finds_build :
    parse_app_info_build tables
      "\"380\" { \"depots\" { \"branches\" { \"public\" { \"buildid\" \"42\" } } } }" 380 "public"
    ≡ valid 42
unfolding parse_app_info_build parse_vdf_root show nested_string
finds_build = refl

read_installed-IsInstalled_example : IsInstalled tables manifest 380 build
read_installed-IsInstalled_example = read_installed-IsInstalled tables manifest 380 build is_read

abbrev branches : Entries
branches =
    entry "depots"
      (object (entry "branches" (object (entry "public" (text "42") no_entry)) no_entry))
      (entry "name" (text "}") no_entry)

parse_object-print_object_example :
    parse_object (print_object branches ("next" ∷ [])) ≡ parsed branches ("next" ∷ [])
parse_object-print_object_example = parse_object-print_object branches ("next" ∷ []) (
  refl,
  refl,
  refl,
  (refl, refl, refl, (refl, refl, refl, refl, tt), tt),
  (refl, refl, refl, refl, tt),
)

parse_object-Shrinks_example :
    Shrinks ("{" ∷ "k" ∷ "v" ∷ "}" ∷ []) (parse_object ("{" ∷ "k" ∷ "v" ∷ "}" ∷ []))
parse_object-Shrinks_example = parse_object-Shrinks ("{" ∷ "k" ∷ "v" ∷ "}" ∷ [])
