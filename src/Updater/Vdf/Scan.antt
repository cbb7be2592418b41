-- ===== src/Updater/Vdf/Scan.antt =====
-- The scanner of src/pz_updater/core.py for Valve's format reads its text to the end.
use Prim.Native.Char.{code}
use pz_server.Prelude.{
  ◌≡◌, refl, ap, ℕ, zero, suc, ◌≤◌, ◌<◌, String, Option, none, some, List, ◌∷◌, ◌==◌, if_intro,
  if_both, arith,
}
use pz_server.Updater.Vdf.{read_quoted, unescape, scan_quoted, scan, characters}

-- What stands behind a quoted text is shorter.
abbrev IsShorter : ℕ → Option (String × String) → Type 0
IsShorter n none = Unit
IsShorter n (some (text, rest)) = characters rest < n

longer :
    (n m : ℕ) (o : Option (String × String)) (f : String → String)
    → n ≤ m
    → IsShorter n o
    → IsShorter m (elim o as (λ _. Option (String × String)) [
      | none ↦ none
      | some (text, rest) ↦ some (f text, rest)
    ])
longer n m none f h k = tt
longer n m (some (text, rest)) f h k = omega arith

read_quoted-IsShorter : (s : String) → IsShorter (characters s) (read_quoted s)
unfolding read_quoted
read_quoted-IsShorter String.[] = tt
read_quoted-IsShorter (String.◌∷◌ c String.[]) =
    if_intro (IsShorter 1) (code c == 34) (λ _. omega arith) (λ _. tt)
read_quoted-IsShorter (String.◌∷◌ c (String.◌∷◌ d s)) =
    let Q = IsShorter (suc (suc (characters s))) in
    if_intro Q (code c == 34) (λ _. omega arith)
      (λ _.
        if_intro Q (code c == 92)
          (λ _.
            if_intro Q (code d == 10) (λ _. tt)
              (λ _.
                longer (characters s) (suc (suc (characters s))) (read_quoted s)
                  (λ t. String.◌∷◌ c (String.◌∷◌ d t)) (omega arith) (read_quoted-IsShorter s)))
          (λ _.
            longer (suc (characters s)) (suc (suc (characters s))) (read_quoted (String.◌∷◌ d s))
              (String.◌∷◌ c) (omega arith) (read_quoted-IsShorter (String.◌∷◌ d s))))

scan_quoted-same :
    (n : ℕ) (o : Option (String × String)) (skipped skipped' : List String)
    (next next' : String → List String)
    → IsShorter n o
    → skipped ≡ skipped'
    → ((s : String) → characters s < n → next s ≡ next' s)
    → scan_quoted o skipped next ≡ scan_quoted o skipped' next'
scan_quoted-same n none skipped skipped' next next' h e same = e
scan_quoted-same n (some (text, rest)) skipped skipped' next next' h e same =
    ap (λ l. unescape text ∷ l) (same rest h)

-- With as much fuel as there are characters, more fuel changes nothing.
pub scan-enough :
    (fuel more : ℕ) (s : String)
    → characters s ≤ fuel
    → characters s ≤ more
    → scan fuel s ≡ scan more s
unfolding scan
scan-enough zero zero s h k = refl
scan-enough zero (suc more) String.[] h k = refl
scan-enough zero (suc more) (String.◌∷◌ c s) h k = absurd (omega arith)
scan-enough (suc fuel) zero String.[] h k = refl
scan-enough (suc fuel) zero (String.◌∷◌ c s) h k = absurd (omega arith)
scan-enough (suc fuel) (suc more) String.[] h k = refl
scan-enough (suc fuel) (suc more) (String.◌∷◌ c s) h k =
    let skipped = scan-enough fuel more s (omega arith) (omega arith) in
    if_both (code c == 123) _ _ _ _ (ap (λ l. "{" ∷ l) skipped) (
      if_both (code c == 125) _ _ _ _ (ap (λ l. "}" ∷ l) skipped) (
        if_both (code c == 34) _ _ _ _
          (scan_quoted-same (characters s) (read_quoted s) _ _ (scan fuel) (scan more)
            (read_quoted-IsShorter s) skipped
            (λ rest l. scan-enough fuel more rest (omega arith) (omega arith)))
          skipped))
