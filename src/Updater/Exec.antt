-- ===== src/Updater/Exec.antt =====
-- Python code of src/pz_updater that changes the machine and may raise. What was written before
-- an exception stays written, so the state comes back beside it.
use pz_server.Prelude.{String, Bool, true, false}

-- `UpdateError`, its subclass `CandidateIncompatibility`, `OSError`, any other exception with
-- its type's name, and the end of the process, which no handler sees. Values that the source
-- interpolates into a message are left out of it.
pub data Failure : Type 0 where
  update_error : String → Failure
  incompatible : String → Failure
  os_error : String → Failure
  other_error : String → Failure
  killed : Failure

pub data Result (A : Type 0) : Type 0 where
  ok : A → Result A
  raised : Failure → Result A

abbrev pub Exec : Type 0 → Type 0 → Type 0
Exec S A = S → Result A × S

-- What follows a call, where it returned.
abbrev pub continue : {S A B : Type 0} → Result A → (A → S → Result B × S) → S → Result B × S
continue (ok a) f s = f a s
continue (raised e) f s = (raised e, s)

infixl 5 ◌>>=◌ ◌>>◌
abbrev pub ◌>>=◌ : {S A B : Type 0} → (S → Result A × S) → (A → S → Result B × S) → S → Result B × S
◌>>=◌ m f s = let (r, s') = m s in continue r f s'

abbrev pub ◌>>◌ : {S A B : Type 0} → (S → Result A × S) → (S → Result B × S) → S → Result B × S
m >> k = m >>= λ _. k

abbrev pub pure : {S A : Type 0} → A → S → Result A × S
pure a s = (ok a, s)

abbrev pub raise : {S A : Type 0} → Failure → S → Result A × S
raise e s = (raised e, s)

-- `except` clauses: the handler is given the exception, and re-raises what it does not catch.
abbrev pub handle : {S A : Type 0} → Result A → (Failure → S → Result A × S) → S → Result A × S
handle (ok a) h s = (ok a, s)
handle (raised e) h s = h e s

abbrev pub try_except :
    {S A : Type 0} → (S → Result A × S) → (Failure → S → Result A × S) → S → Result A × S
try_except m h s = let (r, s') = m s in handle r h s'

-- `except UpdateError`
abbrev pub is_update_error : Failure → Bool
is_update_error (update_error _) = true
is_update_error (incompatible _) = true
is_update_error (os_error _) = false
is_update_error (other_error _) = false
is_update_error killed = false

-- `except OSError`
abbrev pub is_os_error : Failure → Bool
is_os_error (os_error _) = true
is_os_error (update_error _) = false
is_os_error (incompatible _) = false
is_os_error (other_error _) = false
is_os_error killed = false

-- `except CandidateIncompatibility`
abbrev pub is_incompatible : Failure → Bool
is_incompatible (incompatible _) = true
is_incompatible (update_error _) = false
is_incompatible (os_error _) = false
is_incompatible (other_error _) = false
is_incompatible killed = false

-- `str(error) if isinstance(error, UpdateError) else type(error).__name__`
abbrev pub detail_of : Failure → String
detail_of (update_error d) = d
detail_of (incompatible d) = d
detail_of (os_error name) = name
detail_of (other_error name) = name
detail_of killed = ""
