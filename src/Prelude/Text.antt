-- ===== src/Prelude/Text.antt =====
-- Python's `str` methods that the program uses, over the native texts.
use Prim.Native.Nat.{ℕ}
use Prim.Native.Char.{code}
use Prim.Native.String.{String, ◌++◌ as ◌<>◌}
use mathlib.Core.Path.{◌≡◌, refl}
use mathlib.Core.List.{List, [], ◌∷◌}
use mathlib.Core.Bool.{Bool, true, false, ◌&&◌, ◌||◌}
use pz_server.Prelude.Tests.{leb, ◌==◌, if◌then◌else◌}

-- `str.isspace` of one character
abbrev pub is_space : ℕ → Bool
is_space c =
    (leb 9 c && leb c 13)
    || (leb 28 c && leb c 32)
    || c == 133
    || c == 160
    || c == 0x1680
    || (leb 0x2000 c && leb c 0x200a)
    || c == 0x2028
    || c == 0x2029
    || c == 0x202f
    || c == 0x205f
    || c == 0x3000

abbrev pub is_empty : String → Bool
is_empty String.[] = true
is_empty (String.◌∷◌ c s) = false

-- `s.lstrip()`
unfoldable pub lstrip : String → String
lstrip String.[] = String.[]
lstrip (String.◌∷◌ c s) = let rest = lstrip s in if is_space (code c) then rest else String.◌∷◌ c s

-- `s.rstrip()`
unfoldable pub rstrip : String → String
rstrip String.[] = String.[]
rstrip (String.◌∷◌ c s) =
    let rest = rstrip s in
    if is_space (code c) && is_empty rest then String.[] else String.◌∷◌ c rest

-- `s.strip()`
unfoldable pub strip : String → String
unfolding lstrip rstrip
strip s = rstrip (lstrip s)

-- The last character is the one with this code.
abbrev pub ends_with : ℕ → String → Bool
ends_with n String.[] = false
ends_with n (String.◌∷◌ c String.[]) = code c == n
ends_with n (String.◌∷◌ c (String.◌∷◌ d s)) = ends_with n (String.◌∷◌ d s)

-- `s[:-1]`
abbrev pub without_last : String → String
without_last String.[] = ""
without_last (String.◌∷◌ c String.[]) = ""
without_last (String.◌∷◌ c (String.◌∷◌ d s)) = String.◌∷◌ c (without_last (String.◌∷◌ d s))

-- A character that ends a line for `str.splitlines`.
abbrev pub is_line_end : ℕ → Bool
is_line_end c =
    (leb 10 c && leb c 13) || (leb 28 c && leb c 30) || c == 133 || c == 0x2028 || c == 0x2029

-- `s.splitlines()`. The flags: a line has begun, and the last character was a carriage return,
-- so that a line feed behind it ends no line of its own.
unfoldable pub split_from : Bool → Bool → String → String → List String
split_from begun after_return line String.[] = if begun then line ∷ [] else []
split_from begun after_return line (String.◌∷◌ c s) =
    let skipped = split_from false false "" s in
    let ended = line ∷ split_from false (code c == 13) "" s in
    let longer = split_from true false (line <> String.◌∷◌ c "") s in
    if after_return && code c == 10 then skipped else if is_line_end (code c) then ended else longer

unfoldable pub splitlines : String → List String
unfolding split_from
splitlines s = split_from false false "" s

splitlines_example : splitlines "a\r\nb\n\nc" ≡ "a" ∷ "b" ∷ "" ∷ "c" ∷ []
unfolding splitlines
splitlines_example = refl

strip_example : strip "  a b\n" ≡ "a b"
unfolding strip
strip_example = refl
