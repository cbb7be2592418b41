-- ===== src/Updater/Vdf/Fuel.antt =====
-- The scanner and the parser of src/pz_updater/core.py for Valve's format do not run out of fuel.
use pz_server.Prelude.{
  ℕ, zero, suc, ◌≤◌, ◌<◌, String, List, [], ◌∷◌, str_eq, if_intro, length, arith,
}
use pz_server.Updater.Vdf.{
  Value, text, object, Entries, no_entry, has_key, add, Parsed, parsed, malformed, out_of_fuel,
  then_parse, insert, parse_entries, parse_object,
}

-- A result that leaves fewer tokens than there were.
abbrev pub Shrinks : {A : Type 0} → List String → Parsed A → Type 0
Shrinks tokens (parsed a rest) = length rest < length tokens
Shrinks tokens (malformed message) = Unit
Shrinks tokens out_of_fuel = ⊥

Shrinks-mono :
    {A : Type 0} (few many : List String) (r : Parsed A)
    → length few ≤ length many
    → Shrinks few r
    → Shrinks many r
Shrinks-mono few many (parsed a rest) h k = omega arith
Shrinks-mono few many (malformed message) h k = tt
Shrinks-mono few many out_of_fuel h k = k

then_parse-Shrinks :
    {A B : Type 0} (tokens : List String) (r : Parsed A) (f : A → List String → Parsed B)
    → Shrinks tokens r
    → ((a : A) (rest : List String) → length rest < length tokens → Shrinks rest (f a rest))
    → Shrinks tokens (then_parse r f)
then_parse-Shrinks tokens (parsed a rest) f h k =
    Shrinks-mono rest tokens (f a rest) (omega arith) (k a rest h)
then_parse-Shrinks tokens (malformed message) f h k = tt
then_parse-Shrinks tokens out_of_fuel f h k = h

insert-Shrinks :
    (tokens : List String) (result : Entries) (key : String) (value : Value) (r : Parsed Entries)
    → Shrinks tokens r
    → Shrinks tokens (insert result key value r)
insert-Shrinks tokens result key value r h =
    if_intro (Shrinks tokens) (has_key key result) (λ _. tt) (λ _. h)

pub parse_entries-Shrinks :
    (fuel : ℕ) (result : Entries) (tokens : List String)
    → length tokens < fuel
    → Shrinks tokens (parse_entries fuel result tokens)
unfolding parse_entries
parse_entries-Shrinks zero result tokens h = absurd (omega arith)
parse_entries-Shrinks (suc fuel) result [] h = tt
parse_entries-Shrinks (suc fuel) result (key ∷ []) h =
    if_intro (Shrinks (key ∷ [])) (str_eq key "}") (λ _. omega arith) (λ _. tt)
parse_entries-Shrinks (suc fuel) result (key ∷ value ∷ rest) h =
    let Q : Parsed Entries → Type 0 = Shrinks (key ∷ value ∷ rest) in
    let inner = parse_entries-Shrinks fuel no_entry rest (omega arith) in
    let more = λ (e : Entries) (behind : List String) (k : length behind < length rest).
      insert-Shrinks behind result key (object e)
        (parse_entries fuel (add result key (object e)) behind)
        (parse_entries-Shrinks fuel (add result key (object e)) behind (omega arith)) in
    if_intro Q (str_eq key "}") (λ _. omega arith)
      (λ _.
        if_intro Q (str_eq key "{") (λ _. tt)
          (λ _.
            if_intro Q (str_eq value "{")
              (λ _.
                Shrinks-mono rest (key ∷ value ∷ rest) _ (omega arith)
                  (then_parse-Shrinks rest (parse_entries fuel no_entry rest) _ inner more))
              (λ _. Shrinks-mono rest (key ∷ value ∷ rest) _ (omega arith) (
                insert-Shrinks rest result key (text value) _
                  (parse_entries-Shrinks fuel (add result key (text value)) rest (omega arith))))))

-- The parser gives an object and fewer tokens than it was given, or an error; it never runs out of
-- fuel.
pub parse_object-Shrinks : (tokens : List String) → Shrinks tokens (parse_object tokens)
unfolding parse_object
parse_object-Shrinks [] = tt
parse_object-Shrinks (token ∷ tokens) =
    if_intro (Shrinks (token ∷ tokens)) (str_eq token "{")
      (λ _.
        Shrinks-mono tokens (token ∷ tokens) _ (omega arith)
          (parse_entries-Shrinks (suc (length tokens)) no_entry tokens (omega arith)))
      (λ _. tt)
