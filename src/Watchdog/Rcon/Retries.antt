-- ===== src/Watchdog/Rcon/Retries.antt =====
-- What the answers of the RCON client of src/pz_watchdog/rcon.py rest on.
use mathlib.Core.Path.{subst}
use mathlib.Core.Option.{some-injective}
use pz_server.Prelude.{
  ap, ℕ, zero, suc, ◌<◌, String, ◌≡◌, refl, ◌⊎◌, inl, inr, true, Option, none, some, List, [], ◌∷◌,
  arith, length, all,
}
use pz_server.Watchdog.Rcon.{
  Patterns, Response, Reading, got, refused, is_player_line, check_players, match_header,
  parse_lines, read_players, Call, ran, slept, Session, Retrier, run, pause, retry, observation,
  query,
}

module _ {W A : Type 0} (c : Retrier W) (command : String) (read : Response → Reading A) where
  -- `n` attempts were made after the calls `before`; each was refused and followed by the delay.
  abbrev pub Refused : ℕ → List Call → List Call → Type 0
  Refused zero before after = after ≡ before
  Refused (suc n) before after =
      (r : Response) × (m : String) × (read r ≡ refused m)
      × Refused n (slept c.retry_delay_seconds ∷ ran command r ∷ before) after

  -- The attempt after `k` refused ones gave the value, or was the last one and was refused too.
  abbrev pub Outcome : ℕ → List Call → Reading A × Session W → Type 0
  Outcome zero before (got a, s) = ⊥
  Outcome zero before (refused m, s) = s.calls ≡ before
  Outcome (suc n) before (got a, s) =
      (k : ℕ) × (l : List Call) × (r : Response) × (k < suc n)
      × Refused k before l
      × (read r ≡ got a)
      × (s.calls ≡ ran command r ∷ l)
  Outcome (suc n) before (refused m, s) =
      (l : List Call) × (r : Response) × Refused n before l
      × (read r ≡ refused m)
      × (s.calls ≡ ran command r ∷ l)

  -- One more refused attempt before the others.
  Outcome-suc :
      (n : ℕ) (before : List Call) (r : Response) (m : String) (o : Reading A × Session W)
      → read r ≡ refused m
      → Outcome (suc n) (slept c.retry_delay_seconds ∷ ran command r ∷ before) o
      → Outcome (suc (suc n)) before o
  Outcome-suc n before r m (got a, s) e (k, l, x, b, f, g, h) =
      (suc k, l, x, omega arith, (r, m, e, f), g, h)
  Outcome-suc n before r m (refused m', s) e (l, x, f, g, h) = (l, x, (r, m, e, f), g, h)

  pub retry-Outcome :
      (n : ℕ) (last : String) (s : Session W) → Outcome n s.calls (retry c command read n last s)
  unfolding retry run pause
  retry-Outcome zero last s = refl
  retry-Outcome (suc zero) last s = go (read r) refl
    where
      r : Response
      r = (c.run command s.world).0

      go :
          (x : Reading A)
          → read r ≡ x
          → Outcome 1 s.calls (elim x as (λ _. Reading A × Session W) [
            | got a ↦ (got a, (run c command s).1)
            | refused m ↦ (refused m, (run c command s).1)
          ])
      go (got a) e = (0, s.calls, r, omega arith, refl, e, refl)
      go (refused m) e = (s.calls, r, refl, e, refl)
  retry-Outcome (suc (suc n)) last s =
      go (read r) refl (λ m. retry-Outcome (suc n) m (pause c (suc n) (run c command s).1))
    where
      r : Response
      r = (c.run command s.world).0

      go :
          (x : Reading A)
          → read r ≡ x
          → ((m : String)
              → Outcome
                  (suc n)
                  (pause c (suc n) (run c command s).1).calls
                  (retry c command read (suc n) m (pause c (suc n) (run c command s).1)))
          → Outcome (suc (suc n)) s.calls (elim x as (λ _. Reading A × Session W) [
            | got a ↦ (got a, (run c command s).1)
            | refused m ↦ retry c command read (suc n) m (pause c (suc n) (run c command s).1)
          ])
      go (got a) e later = (0, s.calls, r, omega arith, refl, e, refl)
      go (refused m) e later = Outcome-suc n s.calls r m _ e (later m)

  -- What the outcome says where the attempts gave a value, and where they did not.
  abbrev pub Succeeds : ℕ → A → List Call → Session W → Type 0
  Succeeds n a before s =
      (k : ℕ) × (l : List Call) × (r : Response) × (k < n)
      × Refused k before l
      × (read r ≡ got a)
      × (s.calls ≡ ran command r ∷ l)

  abbrev pub Exhausts : ℕ → List Call → Session W → Type 0
  Exhausts n before s =
      (l : List Call) × (r : Response) × (m : String) × Refused n before l
      × (read r ≡ refused m)
      × (s.calls ≡ ran command r ∷ l)

  pub Outcome-Succeeds :
      (n : ℕ) (a : A) (before : List Call) (o : Reading A × Session W)
      → o.0 ≡ got a
      → Outcome n before o
      → Succeeds n a before o.1
  Outcome-Succeeds zero a before (got b, s) e h = absurd h
  Outcome-Succeeds zero a before (refused m, s) e h = cc
  Outcome-Succeeds (suc n) a before (got b, s) e (k, l, r, x, f, g, h) = (k, l, r, x, f, cc, h)
  Outcome-Succeeds (suc n) a before (refused m, s) e h = cc

  pub Outcome-Exhausts :
      (n : ℕ) (before : List Call) (o : Reading A × Session W) (m : String)
      → o.0 ≡ refused m
      → Outcome (suc n) before o
      → Exhausts n before o.1
  Outcome-Exhausts n before (got b, s) m e h = cc
  Outcome-Exhausts n before (refused m', s) m e (l, r, f, g, h) = (l, r, m', f, g, h)

check_players_exact :
    (p : Patterns) (k n : ℕ) (players : List String)
    → check_players p k players ≡ got n
    → (k ≡ n) × (length players ≡ n) × (all is_player_line players ≡ true)
check_players_exact p k n players h = ground arith

match_header_exact :
    (p : Patterns) (o1 o2 : Option ℕ) (players : List String) (n : ℕ)
    → match_header p o1 o2 players ≡ got n
    → ((o1 ≡ some n) ⊎ (o2 ≡ some n)) × (length players ≡ n) × (all is_player_line players ≡ true)
match_header_exact p (some k) o2 players n h =
    let (e, l, a) = check_players_exact p k n players h in (inl (ap some e), l, a)
match_header_exact p none (some k) players n h =
    let (e, l, a) = check_players_exact p k n players h in (inr (ap some e), l, a)
match_header_exact p none none players n h = cc

-- A count that the parser gives stands in the header, and is the number of the lines behind it,
-- each of which is a player's.
pub parse_lines_exact :
    (p : Patterns) (lines : List String) (n : ℕ)
    → parse_lines p lines ≡ got n
    → (header : String) × (players : List String) × (lines ≡ header ∷ players)
      × ((p.header_in_parentheses header ≡ some n) ⊎ (p.header_with_colon header ≡ some n))
      × (length players ≡ n)
      × (all is_player_line players ≡ true)
unfolding parse_lines
parse_lines_exact p [] n h = cc
parse_lines_exact p (header ∷ players) n h =
    let (o, l, a) =
      match_header_exact p (p.header_in_parentheses header) (p.header_with_colon header) players n
        h in
    (header, players, refl, o, l, a)

module _ {W : Type 0} (c : Retrier W) (p : Patterns) where
  got_of_count : (o : Reading ℕ) (n : ℕ) → (observation c o).count ≡ some n → o ≡ got n
  got_of_count (got m) n h = ap got (some-injective m n h)
  got_of_count (refused m) n h = cc

  refused_of_unknown :
      (o : Reading ℕ) → (observation c o).count ≡ none → (m : String) × (o ≡ refused m)
  refused_of_unknown (got m) h = cc
  refused_of_unknown (refused m) h = (m, refl)

  -- A count that `query` gives is what the parser made of the last response. Fewer attempts than
  -- allowed were made before it; each of them was refused and followed by the delay, and nothing
  -- else was called.
  pub query_counted :
      (s : Session W) (n : ℕ)
      → (query c p s).0.count ≡ some n
      → Succeeds c "players" (read_players p) c.attempts n s.calls (query c p s).1
  unfolding query
  query_counted s n h =
      let o = retry c "players" (read_players p) c.attempts "RCON query failed" s in
      Outcome-Succeeds c "players" (read_players p) c.attempts n s.calls o (got_of_count o.0 n h)
        (retry-Outcome c "players" (read_players p) c.attempts "RCON query failed" s)

  -- Where `query`, with one attempt or more, gives no count, it has made all of its attempts, with
  -- the delay between them, and each was refused.
  pub query_exhausted :
      (s : Session W) (n : ℕ)
      → c.attempts ≡ suc n
      → (query c p s).0.count ≡ none
      → Exhausts c "players" (read_players p) n s.calls (query c p s).1
  unfolding query
  query_exhausted s n e h =
      let o = retry c "players" (read_players p) c.attempts "RCON query failed" s in
      let (m, r) = refused_of_unknown o.0 h in
      Outcome-Exhausts c "players" (read_players p) n s.calls o m r (
        subst (λ k. Outcome c "players" (read_players p) k s.calls o) e
          (retry-Outcome c "players" (read_players p) c.attempts "RCON query failed" s))
