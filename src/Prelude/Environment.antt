-- ===== src/Prelude/Environment.antt =====
-- Environment variables: a mapping from names to texts, the entries that count first.
use Prim.Native.String.{String}
use mathlib.Core.Path.{◌≡◌, sym}
use mathlib.Core.Logic.{◌⊎◌, inl, inr}
use mathlib.Core.Bool.{Bool, true, false}
use mathlib.Core.List.{List, [], ◌∷◌}
use mathlib.Core.Option.{Option, none, some}
use text.Mathlib.Text.{◌==◌ as str_eq}
use native.Mathlib.Omega.{arith}
use text.Mathlib.TextEquality.{eq_iff}
use pz_server.Prelude.Tests.{if◌then◌else◌, Bool-cases}
use pz_server.Prelude.Lists.{any}

abbrev pub Environment : Type 0
Environment = List (String × String)

abbrev pub lookup : Environment → String → Option String
lookup [] name = none
lookup ((key, value) ∷ rest) name =
    let later = lookup rest name in if str_eq key name then some value else later

-- `values.get(name, default)`
abbrev pub get_or : Environment → String → String → String
get_or values name default = elim (lookup values name) [ none ↦ default | some value ↦ value ]

-- `text in {...}`
abbrev pub is_one_of : List String → String → Bool
is_one_of texts text = any (λ t. str_eq t text) texts

-- `str(b)`
abbrev pub show_bool : Bool → String
show_bool true = "True"
show_bool false = "False"

-- A text of a set of two is one of them.
pub is_one_of_two :
    (a b text : String) → is_one_of (a ∷ b ∷ []) text ≡ true → (text ≡ a) ⊎ (text ≡ b)
is_one_of_two a b text h = elim (Bool-cases (str_eq a text)) [
  | inl e ↦ inl (sym ((eq_iff a text).0 e))
  | inr e ↦ inr (sym ((eq_iff b text).0 (ground arith)))
]
