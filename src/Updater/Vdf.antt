-- ===== src/Updater/Vdf.antt =====
-- Valve's text format in src/pz_updater/core.py: `_vdf_tokens`, `_parse_vdf_object`,
-- `parse_vdf_root` and `_nested_string`. A list of tokens stands for the sequence and the index.
pub mod Fuel
pub mod RoundTrip
pub mod Scan
use Prim.Native.Char.{Char, code}
use pz_server.Prelude.{
  ℕ, zero, suc, String, Bool, true, false, not, ◌&&◌, ◌||◌, Option, none, some, List, [], ◌∷◌, ◌==◌,
  str_eq, if◌then◌else◌, length,
}
use pz_server.Prelude.Text.{is_empty}
use pz_server.Prelude.Checked.{Checked, valid, invalid, crashed}

-- `text.replace(pattern, character)` for a pattern of two characters
unfoldable pub replace : ℕ → ℕ → Char → String → String
replace a b character String.[] = ""
replace a b character (String.◌∷◌ c String.[]) = String.◌∷◌ c ""
replace a b character (String.◌∷◌ c (String.◌∷◌ d s)) =
    let replaced = replace a b character s in
    let kept = replace a b character (String.◌∷◌ d s) in
    if code c == a && code d == b then String.◌∷◌ character replaced else String.◌∷◌ c kept

-- `(?:\\.|[^"\\])*"`, behind an opening quote: the text before the closing quote, and the rest.
unfoldable pub read_quoted : String → Option (String × String)
read_quoted String.[] = none
read_quoted (String.◌∷◌ c String.[]) = if code c == 34 then some ("", "") else none
read_quoted (String.◌∷◌ c (String.◌∷◌ d s)) =
    let escaped = read_quoted s in
    let plain = read_quoted (String.◌∷◌ d s) in
    if code c == 34
    then some ("", String.◌∷◌ d s)
    else if code c == 92
    then if code d == 10 then none else elim escaped [
      | none ↦ none
      | some (text, rest) ↦ some (String.◌∷◌ c (String.◌∷◌ d text), rest)
    ]
    else elim plain [ none ↦ none | some (text, rest) ↦ some (String.◌∷◌ c text, rest) ]

-- `.replace(r"\"", '"').replace(r"\\", "\\")`
unfoldable pub unescape : String → String
unfolding replace
unescape text = replace 92 92 "\\" (replace 92 34 "\"" text)

-- At an opening quote: the quoted text is a token, unless its closing quote is missing.
abbrev pub scan_quoted :
    Option (String × String) → List String → (String → List String) → List String
scan_quoted none skipped next = skipped
scan_quoted (some (text, rest)) skipped next = unescape text ∷ next rest

-- `re.finditer(r'"((?:\\.|[^"\\])*)"|([{}])', text)`, with at most `fuel` characters.
unfoldable pub scan : ℕ → String → List String
unfolding read_quoted unescape
scan zero s = []
scan (suc fuel) String.[] = []
scan (suc fuel) (String.◌∷◌ c s) =
    let skipped = scan fuel s in
    if code c == 123
    then "{" ∷ skipped
    else if code c == 125
    then "}" ∷ skipped
    else if code c == 34
    then scan_quoted (read_quoted s) skipped (scan fuel)
    else skipped

abbrev pub characters : String → ℕ
characters String.[] = 0
characters (String.◌∷◌ c s) = suc (characters s)

-- `_vdf_tokens`, on the text without escape codes
unfoldable pub vdf_tokens : String → List String
unfolding scan
vdf_tokens clean = scan (characters clean) clean

mutual
  pub data Value : Type 0 where
    text : String → Value
    object : Entries → Value

  -- A dictionary, in the order of insertion.
  pub data Entries : Type 0 where
    no_entry : Entries
    entry : String → Value → Entries → Entries

-- `key in result`
abbrev pub has_key : String → Entries → Bool
has_key key no_entry = false
has_key key (entry k v rest) = str_eq k key || has_key key rest

-- `result[key] = value`, for a new key
abbrev pub add : Entries → String → Value → Entries
add no_entry key value = entry key value no_entry
add (entry k v rest) key value = entry k v (add rest key value)

-- A value with the tokens behind it, or an `UpdateError`.
pub data Parsed (A : Type 0) : Type 0 where
  parsed : A → List String → Parsed A
  malformed : String → Parsed A
  out_of_fuel : Parsed A

abbrev pub then_parse : {A B : Type 0} → Parsed A → (A → List String → Parsed B) → Parsed B
then_parse (parsed a rest) f = f a rest
then_parse (malformed message) f = malformed message
then_parse out_of_fuel f = out_of_fuel

abbrev pub is_brace : String → Bool
is_brace token = str_eq token "{" || str_eq token "}"

-- The test of a duplicate key, and what follows it.
abbrev pub insert : Entries → String → Value → Parsed Entries → Parsed Entries
insert result key value continued =
    if has_key key result then malformed "Valve metadata contains duplicate key" else continued

-- The loop of `_parse_vdf_object`, with the result so far.
unfoldable pub parse_entries : ℕ → Entries → List String → Parsed Entries
parse_entries zero result tokens = out_of_fuel
parse_entries (suc fuel) result [] = malformed "Valve metadata object is unterminated"
parse_entries (suc fuel) result (key ∷ []) =
    if str_eq key "}"
    then parsed result []
    else malformed "Valve metadata key/value structure is malformed"
parse_entries (suc fuel) result (key ∷ value ∷ rest) =
    let nested = then_parse (parse_entries fuel no_entry rest) (λ inner behind.
      insert result key (object inner)
        (parse_entries fuel (add result key (object inner)) behind)) in
    let plain =
      insert result key (text value) (parse_entries fuel (add result key (text value)) rest) in
    if str_eq key "}"
    then parsed result (value ∷ rest)
    else if str_eq key "{"
    then malformed "Valve metadata key/value structure is malformed"
    else if str_eq value "{"
    then nested
    else plain

-- `_parse_vdf_object`: every round takes a token, so that this fuel is enough.
unfoldable pub parse_object : List String → Parsed Entries
unfolding parse_entries
parse_object [] = malformed "Valve metadata object is malformed"
parse_object (token ∷ tokens) =
    if str_eq token "{"
    then parse_entries (suc (length tokens)) no_entry tokens
    else malformed "Valve metadata object is malformed"

abbrev pub entries_of : Parsed Entries → Checked Entries
entries_of (parsed result rest) = valid result
entries_of (malformed message) = invalid message
entries_of out_of_fuel = crashed "out of fuel"

-- The loop of `parse_vdf_root`
unfoldable pub find_root : String → List String → Checked Entries
unfolding parse_object
find_root root_key [] = invalid "Valve metadata did not contain root"
find_root root_key (token ∷ []) = invalid "Valve metadata did not contain root"
find_root root_key (token ∷ next ∷ rest) =
    let later = find_root root_key (next ∷ rest) in
    if str_eq token root_key && str_eq next "{"
    then entries_of (parse_object (next ∷ rest))
    else later

-- `parse_vdf_root`, on the text without escape codes
unfoldable pub parse_vdf_root : String → String → Checked Entries
unfolding vdf_tokens find_root
parse_vdf_root clean root_key = find_root root_key (vdf_tokens clean)

abbrev pub find_entry : String → Entries → Option Value
find_entry key no_entry = none
find_entry key (entry k v rest) =
    let later = find_entry key rest in if str_eq k key then some v else later

-- `_nested_string`
unfoldable pub nested_string : Value → List String → Checked String
nested_string (text s) [] =
    if is_empty s then invalid "Valve metadata field is malformed" else valid s
nested_string (object entries) [] = invalid "Valve metadata field is malformed"
nested_string (text s) (key ∷ path) = invalid "Valve metadata is missing"
nested_string (object entries) (key ∷ path) = elim (find_entry key entries) [
  | none ↦ invalid "Valve metadata is missing"
  | some value ↦ nested_string value path
]
