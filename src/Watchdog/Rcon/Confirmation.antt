-- ===== src/Watchdog/Rcon/Confirmation.antt =====
-- `RconAdmin.save` of src/pz_watchdog/rcon.py: what a successful save rests on.
use pz_server.Prelude.{ℕ, zero, suc, ◌<◌, String, ◌≡◌, refl, true, false, List, ◌∷◌, arith}
use pz_server.Prelude.Text.{strip}
use pz_server.Prelude.Checked.{valid}
use pz_server.Watchdog.Rcon.{
  Patterns, Response, answered, failed, broken, Saving, confirmed, escaped, Reading, got, refused,
  read_save, Call, ran, slept, Session, Retrier, retry, is_saved, save,
}
use pz_server.Watchdog.Rcon.Retries.{Refused, Outcome-Succeeds, retry-Outcome}

module _ {W : Type 0} (c : Retrier W) (p : Patterns) where
  got_of_valid : (o : Reading Saving) → is_saved c o ≡ valid true → o ≡ got confirmed
  got_of_valid (got confirmed) h = refl
  got_of_valid (got escaped) h = cc
  got_of_valid (refused m) h = cc

  abbrev IsConfirmation : String → Type 0
  IsConfirmation response = p.is_save_confirmation (strip (p.without_escapes response)) ≡ true

  -- No confirmation: another text, or an RconError or an OSError of the client.
  abbrev pub Fails : Response → Type 0
  Fails (answered response) = p.is_save_confirmation (strip (p.without_escapes response)) ≡ false
  Fails (failed message) = Unit
  Fails (broken message) = ⊥

  -- `n` attempts were made after the calls `before`; none was confirmed, and each was followed by
  -- the delay.
  abbrev pub Unconfirmed : ℕ → List Call → List Call → Type 0
  Unconfirmed zero before after = after ≡ before
  Unconfirmed (suc n) before after =
      (r : Response) × Fails r
      × Unconfirmed n (slept c.retry_delay_seconds ∷ ran "save" r ∷ before) after

  -- The last attempt was confirmed, and fewer than allowed came before it.
  abbrev pub IsConfirmed : List Call → List Call → Type 0
  IsConfirmed before after =
      (k : ℕ) × (l : List Call) × (response : String) × (k < c.attempts)
      × Unconfirmed k before l
      × IsConfirmation response
      × (after ≡ ran "save" (answered response) ∷ l)

  read_save-Fails : (r : Response) (m : String) → read_save p r ≡ refused m → Fails r
  unfolding read_save
  read_save-Fails (answered response) m h = ground arith
  read_save-Fails (failed message) m h = tt
  read_save-Fails (broken message) m h = cc

  read_save-IsConfirmation :
      (r : Response)
      → read_save p r ≡ got confirmed
      → (response : String) × (r ≡ answered response) × IsConfirmation response
  unfolding read_save
  read_save-IsConfirmation (answered response) h = (response, refl, ground arith)
  read_save-IsConfirmation (failed message) h = cc
  read_save-IsConfirmation (broken message) h = cc

  Refused-Unconfirmed :
      (n : ℕ) (before after : List Call)
      → Refused c "save" (read_save p) n before after
      → Unconfirmed n before after
  Refused-Unconfirmed zero before after h = h
  Refused-Unconfirmed (suc n) before after (r, m, e, h) =
      (r, read_save-Fails r m e, Refused-Unconfirmed n _ after h)

  -- Where `save` succeeds, the last response, without escape codes and surrounding space, matches
  -- the pattern of a confirmation. Fewer attempts than allowed came before it; each raised an
  -- RconError or an OSError, or gave a text that does not match, and was followed by the delay, and nothing else was
  -- called.
  pub save-IsConfirmed :
      (s : Session W) → (save c p s).0 ≡ valid true → IsConfirmed s.calls (save c p s).1.calls
  unfolding save
  save-IsConfirmed s h =
      let o = retry c "save" (read_save p) c.attempts "" s in
      let (k, l, r, fewer, refused_before, e, calls) =
        Outcome-Succeeds c "save" (read_save p) c.attempts confirmed s.calls o (got_of_valid o.0 h)
          (retry-Outcome c "save" (read_save p) c.attempts "" s) in
      let (response, same, matches) = read_save-IsConfirmation r e in
      (
        k,
        l,
        response,
        fewer,
        Refused-Unconfirmed k s.calls l refused_before,
        matches,
        cc (calls, same),
      )
