-- ===== src/Updater/Vdf/RoundTrip.antt =====
-- The parser of src/pz_updater/core.py for Valve's format reads what a printer of its tokens writes.
use pz_server.Prelude.{
  ◌≡◌, refl, ap, ◌∙◌, ℕ, zero, suc, ◌+◌, ◌≤◌, String, false, List, [], ◌∷◌, str_eq, if_not, length,
  arith,
}
use pz_server.Updater.Vdf.{
  Value, text, object, Entries, no_entry, entry, has_key, add, parsed, then_parse, insert,
  parse_entries, parse_object,
}

-- The tokens of the entries and of the closing brace, before `rest`.
unfoldable pub print_entries : Entries → List String → List String
print_entries no_entry rest = "}" ∷ rest
print_entries (entry key (text s) entries) rest = key ∷ s ∷ print_entries entries rest
print_entries (entry key (object inner) entries) rest =
    key ∷ "{" ∷ print_entries inner (print_entries entries rest)

unfoldable pub print_object : Entries → List String → List String
unfolding print_entries
print_object entries rest = "{" ∷ print_entries entries rest

-- The entries can be printed behind the entries `before`: no key is a brace or stands there twice,
-- and no text is an opening brace.
abbrev pub IsPrintable : Entries → Entries → Type 0
IsPrintable before no_entry = Unit
IsPrintable before (entry key (text s) entries) =
    (str_eq key "}" ≡ false)
    × (str_eq key "{" ≡ false)
    × (has_key key before ≡ false)
    × (str_eq s "{" ≡ false)
    × IsPrintable (add before key (text s)) entries
IsPrintable before (entry key (object inner) entries) =
    (str_eq key "}" ≡ false)
    × (str_eq key "{" ≡ false)
    × (has_key key before ≡ false)
    × IsPrintable no_entry inner
    × IsPrintable (add before key (object inner)) entries

abbrev append : Entries → Entries → Entries
append before no_entry = before
append before (entry key value entries) = append (add before key value) entries

abbrev size : Entries → ℕ
size no_entry = 1
size (entry key (text s) entries) = suc (size entries)
size (entry key (object inner) entries) = suc (size inner + size entries)

concat : Entries → Entries → Entries
concat no_entry entries = entries
concat (entry key value before) entries = entry key value (concat before entries)

concat-add :
    (before : Entries) (key : String) (value : Value) (entries : Entries)
    → concat (add before key value) entries ≡ concat before (entry key value entries)
unfolding concat
concat-add no_entry key value entries = refl
concat-add (entry k v before) key value entries =
    ap (entry k v) (concat-add before key value entries)

append-concat : (before entries : Entries) → append before entries ≡ concat before entries
unfolding concat
append-concat no_entry no_entry = refl
append-concat (entry k v before) no_entry = ap (entry k v) (append-concat before no_entry)
append-concat before (entry key value entries) =
    append-concat (add before key value) entries ∙ concat-add before key value entries

append-no_entry : (entries : Entries) → append no_entry entries ≡ entries
unfolding concat
append-no_entry entries = append-concat no_entry entries

parse_entries-print_entries :
    (fuel : ℕ) (entries before : Entries) (rest : List String)
    → size entries ≤ fuel
    → IsPrintable before entries
    → parse_entries fuel before (print_entries entries rest) ≡ parsed (append before entries) rest
unfolding parse_entries print_entries
parse_entries-print_entries zero no_entry before rest h p = absurd (omega arith)
parse_entries-print_entries zero (entry key (text s) entries) before rest h p = absurd (omega arith)
parse_entries-print_entries zero (entry key (object inner) entries) before rest h p =
    absurd (omega arith)
parse_entries-print_entries (suc fuel) no_entry before [] h p = refl
parse_entries-print_entries (suc fuel) no_entry before (t ∷ rest) h p = refl
parse_entries-print_entries (suc fuel) (entry key (text s) entries) before rest h (p, q, r, x, y) =
    if_not _ _ _ p
    ∙ if_not _ _ _ q
    ∙ if_not _ _ _ x
    ∙ if_not _ _ _ r
    ∙ parse_entries-print_entries fuel entries (add before key (text s)) rest (omega arith) y
parse_entries-print_entries (suc fuel) (entry key (object inner) entries) before rest h
      (p, q, r, x, y) =
    let more = λ (e : Entries) (behind : List String).
      insert before key (object e) (parse_entries fuel (add before key (object e)) behind) in
    let tokens = print_entries inner (print_entries entries rest) in
    let read =
      parse_entries-print_entries fuel inner no_entry (print_entries entries rest) (omega arith)
        x in
    if_not _ _ _ p
    ∙ if_not _ _ _ q
    ∙ ap (λ r. then_parse r more) read
    ∙ ap (λ e. more e (print_entries entries rest)) (append-no_entry inner)
    ∙ if_not _ _ _ r
    ∙ parse_entries-print_entries fuel entries (add before key (object inner)) rest (omega arith) y

size-length :
    (entries : Entries) (rest : List String)
    → size entries + length rest ≤ length (print_entries entries rest)
unfolding print_entries
size-length no_entry rest = omega arith
size-length (entry key (text s) entries) rest = let tail = size-length entries rest in omega arith
size-length (entry key (object inner) entries) rest =
    let tail = size-length entries rest in
    let head = size-length inner (print_entries entries rest) in omega arith

-- The parser reads an object back from its tokens, whatever stands behind them, where no key is a
-- brace or stands twice in one object, and no text is an opening brace.
pub parse_object-print_object :
    (entries : Entries) (rest : List String)
    → IsPrintable no_entry entries
    → parse_object (print_object entries rest) ≡ parsed entries rest
unfolding parse_object print_object
parse_object-print_object entries rest p =
    let enough = size-length entries rest in
    parse_entries-print_entries (suc (length (print_entries entries rest))) entries no_entry rest
      (omega arith) p
    ∙ ap (λ e. parsed e rest) (append-no_entry entries)
