-- ===== src/Prelude/Checked.antt =====
-- Code that gives a value or raises.
use Prim.Native.String.{String}
use mathlib.Core.Path.{◌≡◌, refl, subst}
use mathlib.Core.Bool.{Bool, true, false}
use pz_server.Prelude.Tests.{if◌then◌else◌}

-- A value, or the error that the code itself raises for bad input, with its message, or another
-- exception, with the name of its type.
pub data Checked {ℓ} (A : Type ℓ) : Type ℓ where
  valid : A → Checked A
  invalid : String → Checked A
  crashed : String → Checked A

infixl 5 ◌>>=◌
abbrev pub ◌>>=◌ {ℓ κ} : {A : Type ℓ} {B : Type κ} → Checked A → (A → Checked B) → Checked B
valid a >>= f = f a
invalid message >>= f = invalid message
crashed name >>= f = crashed name

-- `if not condition: raise Error(message)`
abbrev pub require : Bool → String → Checked (Unit {0})
require condition message = if condition then valid tt else invalid message

-- `Q` holds of the value, if there is one.
abbrev pub Ensures {ℓ κ} : {A : Type ℓ} → (A → Type κ) → Checked A → Type κ
Ensures Q (valid a) = Q a
Ensures Q (invalid message) = Unit
Ensures Q (crashed name) = Unit

pub bind-Ensures {ℓ κ μ ν} :
    {A : Type ℓ} {B : Type κ} (Q : A → Type μ) (R : B → Type ν) (m : Checked A) (f : A → Checked B)
    → Ensures Q m
    → ((a : A) → Q a → Ensures R (f a))
    → Ensures R (m >>= f)
bind-Ensures Q R (valid a) f h k = k a h
bind-Ensures Q R (invalid message) f h k = tt
bind-Ensures Q R (crashed name) f h k = tt

pub Ensures-valid {ℓ κ} :
    {A : Type ℓ} (Q : A → Type κ) (m : Checked A) (a : A) → m ≡ valid a → Ensures Q m → Q a
Ensures-valid Q m a e h = subst (Ensures Q) e h

pub branch-Ensures {ℓ κ} :
    {A : Type ℓ} (Q : A → Type κ) (b : Bool) (m n : Checked A)
    → (b ≡ true → Ensures Q m)
    → (b ≡ false → Ensures Q n)
    → Ensures Q (if b then m else n)
branch-Ensures Q true m n h k = h refl
branch-Ensures Q false m n h k = k refl

pub any-Ensures {ℓ} : {A : Type ℓ} (m : Checked A) → Ensures (λ _. Unit {0}) m
any-Ensures (valid a) = tt
any-Ensures (invalid message) = tt
any-Ensures (crashed name) = tt

-- A step whose result nothing is said about.
pub skip-Ensures {ℓ κ ν} :
    {A : Type ℓ} {B : Type κ} (R : B → Type ν) (m : Checked A) (f : A → Checked B)
    → ((a : A) → Ensures R (f a))
    → Ensures R (m >>= f)
skip-Ensures R m f k = bind-Ensures (λ _. Unit {0}) R m f (any-Ensures m) (λ a _. k a)

pub self-Ensures {ℓ} : {A : Type ℓ} (m : Checked A) → Ensures (λ a. m ≡ valid a) m
self-Ensures (valid a) = refl
self-Ensures (invalid message) = tt
self-Ensures (crashed name) = tt

pub require-Ensures : (b : Bool) (message : String) → Ensures (λ _. b ≡ true) (require b message)
require-Ensures true message = refl
require-Ensures false message = tt
