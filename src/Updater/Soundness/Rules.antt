-- ===== src/Updater/Soundness/Rules.antt =====
-- Postconditions of code that may raise, and their rules.
use pz_server.Prelude.{◌≡◌, refl, Bool, true, false, if◌then◌else◌}
use pz_server.Updater.Exec.{Failure, Result, ok, raised, Exec, continue, ◌>>=◌, handle, try_except}

-- `Q` holds of the value and the state after a return, and `E` of the state after an exception.
abbrev pub Meets : {S A : Type 0} → (A → S → Type 0) → (S → Type 0) → Result A × S → Type 0
Meets Q E (ok a, s) = Q a s
Meets Q E (raised e, s) = E s

module _ {S A B : Type 0} (Q : A → S → Type 0) (R : B → S → Type 0) (E : S → Type 0) where
  continue-Meets :
      (r : Result A × S) (f : A → Exec S B)
      → Meets Q E r
      → ((a : A) (s : S) → Q a s → Meets R E (f a s))
      → Meets R E (continue r.0 f r.1)
  continue-Meets (ok a, s) f h k = k a s h
  continue-Meets (raised e, s) f h k = h

  pub bind-Meets :
      (m : Exec S A) (f : A → Exec S B) (s : S)
      → Meets Q E (m s)
      → ((a : A) (s' : S) → Q a s' → Meets R E (f a s'))
      → Meets R E ((m >>= f) s)
  bind-Meets m f s h k = continue-Meets (m s) f h k

module _ {S A : Type 0} (Q : A → S → Type 0) (D E : S → Type 0) where
  handle-Meets :
      (r : Result A × S) (f : Failure → Exec S A)
      → Meets Q D r
      → ((e : Failure) (s : S) → D s → Meets Q E (f e s))
      → Meets Q E (handle r.0 f r.1)
  handle-Meets (ok a, s) f h k = h
  handle-Meets (raised e, s) f h k = k e s h

  pub try-Meets :
      (m : Exec S A) (f : Failure → Exec S A) (s : S)
      → Meets Q D (m s)
      → ((e : Failure) (s' : S) → D s' → Meets Q E (f e s'))
      → Meets Q E (try_except m f s)
  try-Meets m f s h k = handle-Meets (m s) f h k

module _ {S A : Type 0} (Q R : A → S → Type 0) (D E : S → Type 0) where
  pub Meets-mono :
      (r : Result A × S)
      → Meets Q D r
      → ((a : A) (s : S) → Q a s → R a s)
      → ((s : S) → D s → E s)
      → Meets R E r
  Meets-mono (ok a, s) h f g = f a s h
  Meets-mono (raised e, s) h f g = g s h

  pub both-Meets : (r : Result A) (s : S) → ((a : A) → Q a s) → E s → Meets Q E (r, s)
  both-Meets (ok a) s h k = h a
  both-Meets (raised e) s h k = k

module _ {S A : Type 0} (Q : A → S → Type 0) (E : S → Type 0) where
  pub branch-Meets :
      (b : Bool) (m n : Exec S A) (s : S)
      → (b ≡ true → Meets Q E (m s))
      → (b ≡ false → Meets Q E (n s))
      → Meets Q E ((if b then m else n) s)
  branch-Meets true m n s h k = h refl
  branch-Meets false m n s h k = k refl
