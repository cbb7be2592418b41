-- ===== src/Prelude/IntegerLaws.antt =====
-- Python's `int` reads what `str` writes.
use pz_server.Prelude.{
  ◌≡◌, ◌≢◌, refl, ap, ◌∙◌, ℕ, zero, suc, ◌+◌, ◌*◌, ◌/◌, ◌%◌, ◌<◌, ◌≤◌, String, Bool, true, false,
  ◌&&◌, ◌==◌, ltb, ltb→lt, Option, none, some, if◌then◌else◌, if_intro, arith,
}
use mathlib.Core.Option.{map}
use Prim.Native.Char.{Char, code}
use pz_server.Prelude.Text.{is_space, is_empty, lstrip, rstrip, strip}
use pz_server.Prelude.Integers.{
  ℤ, pos, digit, digits_from, show, Unicode, read_digits, read_signed, int, KnowsDigits,
}

-- Every character is an ASCII digit.
abbrev AreDigits : String → Type 0
AreDigits String.[] = Unit
AreDigits (String.◌∷◌ c s) = (48 ≤ code c) × (code c ≤ 57) × AreDigits s

code_choice :
    (n k : ℕ) (c rest : Char)
    → code c ≡ 48 + k
    → (n ≢ k → code rest ≡ 48 + n)
    → code (if n == k then c else rest) ≡ 48 + n
code_choice n k c rest h other =
    if_intro (λ x. code x ≡ 48 + n) (n == k) (λ e. ground arith) (λ e. other (λ q. ground arith))

code-digit : (n : ℕ) → n < 10 → code (digit n) ≡ 48 + n
code-digit n h = code_choice n 0 _ _ refl (λ e0. code_choice n 1 _ _ refl (λ e1.
    code_choice n 2 _ _ refl (λ e2. code_choice n 3 _ _ refl (λ e3. code_choice n 4 _ _ refl (λ e4.
      code_choice n 5 _ _ refl (λ e5.
        code_choice n 6 _ _ refl (λ e6.
          code_choice n 7 _ _ refl (λ e7. code_choice n 8 _ _ refl (λ e8. omega arith)))))))))

is_space_digit : (c : ℕ) → 48 ≤ c → c ≤ 57 → is_space c ≡ false
is_space_digit c h k = ground arith

lstrip-AreDigits : (s : String) → AreDigits s → lstrip s ≡ s
unfolding lstrip
lstrip-AreDigits String.[] h = refl
lstrip-AreDigits (String.◌∷◌ c s) (h, k, l) =
    ap (λ b. if b then lstrip s else String.◌∷◌ c s) (is_space_digit (code c) h k)

rstrip-AreDigits : (s : String) → AreDigits s → rstrip s ≡ s
unfolding rstrip
rstrip-AreDigits String.[] h = refl
rstrip-AreDigits (String.◌∷◌ c s) (h, k, l) =
    ap (λ b. if b && is_empty (rstrip s) then String.[] else String.◌∷◌ c (rstrip s))
      (is_space_digit (code c) h k)
    ∙ ap (String.◌∷◌ c) (rstrip-AreDigits s l)

strip-AreDigits : (s : String) → AreDigits s → strip s ≡ s
unfolding strip
strip-AreDigits s h = ap rstrip (lstrip-AreDigits s h) ∙ rstrip-AreDigits s h

digit-AreDigits : (n : ℕ) (s : String) → n < 10 → AreDigits s → AreDigits (String.◌∷◌ (digit n) s)
digit-AreDigits n s h k = let e = code-digit n h in (omega arith, omega arith, k)

digits_from-AreDigits :
    (fuel n : ℕ) (behind : String) → AreDigits behind → AreDigits (digits_from fuel n behind)
unfolding digits_from
digits_from-AreDigits zero n behind h = digit-AreDigits (n % 10) behind (omega arith) h
digits_from-AreDigits (suc fuel) n behind h =
    if_intro AreDigits (ltb n 10) (λ e. digit-AreDigits n behind (ltb→lt n 10 e) h)
      (λ _.
        digits_from-AreDigits fuel (n / 10) (String.◌∷◌ (digit (n % 10)) behind)
          (digit-AreDigits (n % 10) behind (omega arith) h))

module _ (u : Unicode) (ascii : KnowsDigits u) where
  -- A digit is read.
  read_digit :
      (b : Bool) (m n : ℕ) (s : String)
      → n < 10
      → read_digits u b m (String.◌∷◌ (digit n) s) ≡ read_digits u true (m * 10 + n) s
  unfolding read_digits
  read_digit b m n s h =
      let e = code-digit n h in
      let known : u.decimal (code (digit n)) ≡ some n = ap u.decimal e ∙ ascii n h in
      if_intro (λ o. o ≡ read_digits u true (m * 10 + n) s) (b && code (digit n) == 95)
        (λ w. absurd (ground arith))
        (λ w.
          ap
            (λ o. elim o as (λ _. Option ℕ) [
              | none ↦ none
              | some d ↦ read_digits u true (m * 10 + d) s
            ])
            known)

  read_digits-digits_from :
      (fuel n : ℕ) (behind : String)
      → n ≤ fuel
      → read_digits u false 0 (digits_from fuel n behind) ≡ read_digits u true n behind
  unfolding digits_from
  read_digits-digits_from zero n behind h =
      read_digit false 0 (n % 10) behind (omega arith)
      ∙ ap (λ k. read_digits u true k behind) (omega arith)
  read_digits-digits_from (suc fuel) n behind h =
      if_intro (λ s. read_digits u false 0 s ≡ read_digits u true n behind) (ltb n 10)
        (λ e.
          read_digit false 0 n behind (ltb→lt n 10 e)
          ∙ ap (λ k. read_digits u true k behind) (omega arith))
        (λ e.
          read_digits-digits_from fuel (n / 10) (String.◌∷◌ (digit (n % 10)) behind) (ground arith)
          ∙ read_digit true (n / 10) (n % 10) behind (omega arith)
          ∙ ap (λ k. read_digits u true k behind) (omega arith))

  read_signed-AreDigits :
      (s : String) → AreDigits s → read_signed u s ≡ map pos (read_digits u false 0 s)
  unfolding read_signed read_digits
  read_signed-AreDigits String.[] h = refl
  read_signed-AreDigits (String.◌∷◌ c s) (h, k, l) =
      let P = λ (o : Option ℤ). o ≡ map pos (read_digits u false 0 (String.◌∷◌ c s)) in
      if_intro P (code c == 45) (λ e. absurd (ground arith))
        (λ _. if_intro P (code c == 43) (λ e. absurd (ground arith)) (λ _. refl))

  -- Python's `int` reads what `str` writes of a natural number.
  pub int-show : (n : ℕ) → int u (show n) ≡ some (pos n)
  unfolding int show read_digits
  int-show n =
      let digits = digits_from-AreDigits n n "" tt in
      ap (read_signed u) (strip-AreDigits (show n) digits)
      ∙ read_signed-AreDigits (show n) digits
      ∙ ap (map pos) (read_digits-digits_from n n "" (omega arith))

pub strip-show : (n : ℕ) → strip (show n) ≡ show n
unfolding show
strip-show n = strip-AreDigits (show n) (digits_from-AreDigits n n "" tt)
