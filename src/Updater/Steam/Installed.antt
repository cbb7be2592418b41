-- ===== src/Updater/Steam/Installed.antt =====
-- What a Steam manifest says that src/pz_updater/core.py accepts.
use mathlib.Core.Path.{subst}
use pz_server.Prelude.{
  ◌≡◌, refl, ℕ, zero, suc, ◌<◌, String, true, not, Option, none, some, [], ◌∷◌, str_eq, eq_iff,
  if_intro, arith,
}
use pz_server.Prelude.Integers.{ℤ, pos, negsuc, Unicode, int, show}
use pz_server.Prelude.Checked.{
  Checked, valid, invalid, crashed, require, Ensures, bind-Ensures, Ensures-valid, self-Ensures,
  require-Ensures,
}
use pz_server.Updater.Machine.{SteamBuildMetadata}
use pz_server.Updater.Vdf.{Value, text, object, Entries, nested_string, find_entry}
use pz_server.Updater.Steam.{
  Tables, is_decimal, positive, root, check_result, natural, size_of, read_installed,
}

-- The text of an entry that is there.
abbrev Holds : Entries → String → String → Type 0
Holds state key value = nested_string (object state) (key ∷ []) ≡ valid value

-- A decimal text of a number above 0.
abbrev pub Denotes : Unicode → String → ℕ → Type 0
Denotes u raw n = (is_decimal u raw ≡ true) × (int u raw ≡ some (pos n)) × (0 < n)

positive-Denotes :
    (u : Unicode) (message raw : String) → Ensures (Denotes u raw) (positive u message raw)
unfolding positive
positive-Denotes u message raw =
    if_intro (Ensures (Denotes u raw)) (not (is_decimal u raw)) (λ _. tt)
      (λ h. go (ground arith) (int u raw) refl)
  where
    go :
        is_decimal u raw ≡ true
        → (o : Option ℤ) → int u raw ≡ o
        → Ensures (Denotes u raw) (elim o as (λ _. Checked ℕ) [
          | none ↦ crashed "ValueError"
          | some (pos zero) ↦ invalid message
          | some (pos (suc n)) ↦ valid (suc n)
          | some (negsuc n) ↦ invalid message
        ])
    go d none e = tt
    go d (some (pos zero)) e = tt
    go d (some (pos (suc n))) e = (d, e, omega arith)
    go d (some (negsuc n)) e = tt

-- The result of the last update is not there, or is the text `0`.
abbrev pub NamesSuccess : Option Value → Type 0
NamesSuccess none = Unit
NamesSuccess (some (text result)) = result ≡ "0"
NamesSuccess (some (object entries)) = ⊥

module _ (t : Tables) where
  -- A size is what a decimal text denotes; one that is not given stands in no such text.
  abbrev pub IsSize : Option Value → Option ℕ → Type 0
  IsSize o (some n) =
      (raw : String) × (o ≡ some (text raw))
      × (is_decimal t.unicode raw ≡ true)
      × (int t.unicode raw ≡ some (pos n))
  IsSize none none = Unit
  IsSize (some (object entries)) none = Unit
  IsSize (some (text raw)) none =
      (n : ℕ) → is_decimal t.unicode raw ≡ true → int t.unicode raw ≡ some (pos n) → ⊥

  check_result-NamesSuccess : (o : Option Value) → Ensures (λ _. NamesSuccess o) (check_result t o)
  check_result-NamesSuccess none = tt
  check_result-NamesSuccess (some (object entries)) = tt
  check_result-NamesSuccess (some (text result)) =
      if_intro (Ensures (λ _. result ≡ "0")) (str_eq result "0") (λ e. (eq_iff result "0").0 e)
        (λ _. tt)

  size_of-IsSize : (o : Option Value) → IsSize o (size_of t o)
  unfolding size_of
  size_of-IsSize none = tt
  size_of-IsSize (some (object entries)) = tt
  size_of-IsSize (some (text raw)) =
      if_intro (IsSize (some (text raw))) (is_decimal t.unicode raw)
        (λ d. go d (int t.unicode raw) refl) (λ d n e _. ground arith)
    where
      go :
          is_decimal t.unicode raw ≡ true
          → (o : Option ℤ) → int t.unicode raw ≡ o
          → IsSize (some (text raw)) (natural t o)
      go d none e = λ n _ f. cc
      go d (some (pos n)) e = (raw, refl, d, e)
      go d (some (negsuc n)) e = λ m _ f. cc

  -- The manifest of a finished installation of this application.
  abbrev pub IsInstalled : String → ℕ → SteamBuildMetadata → Type 0
  IsInstalled content app_id m =
      (state : Entries) × (raw : String) × (root t content "AppState" ≡ valid state)
      × Holds state "appid" (show app_id)
      × Holds state "buildid" raw
      × Denotes t.unicode raw m.build_id
      × Holds state "StateFlags" "4"
      × NamesSuccess (find_entry "UpdateResult" state)
      × IsSize (find_entry "SizeOnDisk" state) m.size_on_disk

  Holds-equal :
      (state : Entries) (key value expected : String)
      → Holds state key value
      → str_eq value expected ≡ true
      → Holds state key expected
  Holds-equal state key value expected h e =
      subst (λ v. Holds state key v) ((eq_iff value expected).0 e) h

  read_installed-Ensures :
      (content : String) (app_id : ℕ)
      → Ensures (IsInstalled content app_id) (read_installed t (some content) app_id)
  unfolding read_installed
  read_installed-Ensures content app_id =
      let Q = IsInstalled content app_id in
      bind-Ensures _ Q (root t content "AppState") _ (self-Ensures (root t content "AppState"))
        λ state s.
          bind-Ensures _ Q (nested_string (object state) ("appid" ∷ [])) _ (self-Ensures _) λ app a.
            bind-Ensures _ Q (require (str_eq app (show app_id)) _) _ (require-Ensures _ _) λ _ e.
              bind-Ensures _ Q (nested_string (object state) ("buildid" ∷ [])) _ (self-Ensures _)
                λ raw b.
                  bind-Ensures (Denotes t.unicode raw) Q (positive t.unicode _ raw) _
                    (positive-Denotes t.unicode _ raw)
                    λ build d.
                      bind-Ensures _ Q (nested_string (object state) ("StateFlags" ∷ [])) _
                        (self-Ensures _)
                        λ flags f.
                          bind-Ensures _ Q (require (str_eq flags "4") _) _ (require-Ensures _ _)
                            λ _ g.
                              bind-Ensures (λ _. NamesSuccess (find_entry "UpdateResult" state)) Q
                                (check_result t (find_entry "UpdateResult" state)) _
                                (check_result-NamesSuccess (find_entry "UpdateResult" state))
                                λ _ u. (
                                  state,
                                  raw,
                                  s,
                                  Holds-equal state "appid" app (show app_id) a e,
                                  b,
                                  d,
                                  Holds-equal state "StateFlags" flags "4" f g,
                                  u,
                                  size_of-IsSize (find_entry "SizeOnDisk" state),
                                )

  -- A manifest that `read_installed_metadata` accepts is the one of this application, in the
  -- fully-installed state, with no unsuccessful update, and the build that it gives is the number
  -- above 0 that the manifest holds in decimal digits.
  pub read_installed-IsInstalled :
      (content : String) (app_id : ℕ) (m : SteamBuildMetadata)
      → read_installed t (some content) app_id ≡ valid m
      → IsInstalled content app_id m
  read_installed-IsInstalled content app_id m e =
      Ensures-valid (IsInstalled content app_id) (read_installed t (some content) app_id) m e
        (read_installed-Ensures content app_id)
