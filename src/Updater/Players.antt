-- ===== src/Updater/Players.antt =====
-- `parse_player_count` and `require_no_players` of src/pz_updater/core.py. The patterns are those of
-- src/pz_watchdog/rcon.py, which the source writes out a second time.
mod Tests
use mathlib.Core.Option.{some-injective}
use pz_server.Prelude.{
  ◌≡◌, refl, ap, sym, ◌∙◌, ◌↔◌, ◌⊎◌, inl, inr, ℕ, zero, suc, String, Bool, true, false, not, ◌&&◌,
  ◌==◌, Option, none, some, List, [], ◌∷◌, if◌then◌else◌, length, all, Option-cases, arith,
}
use pz_server.Prelude.Text.{strip, splitlines}
use pz_server.Watchdog.Rcon.{
  Patterns, Reading, got, refused, is_player_line, stripped_lines, match_header, no_count,
  parse_lines, parse_player_count,
}

abbrev pub not_exact : Reading ℕ
not_exact = refused "RCON player response was not an exact recognized count"

module _ (p : Patterns) where
  -- The body of the loop over the patterns, for one that may match; `rest` are the later ones.
  abbrev pub try_header : Option ℕ → List String → Reading ℕ → Reading ℕ
  try_header none players rest = rest
  try_header (some n) players rest =
      if length players == n && all is_player_line players then got n else rest

  unfoldable pub count_lines : List String → Reading ℕ
  count_lines [] = refused "RCON player response was empty"
  count_lines (header ∷ players) =
      try_header (p.header_in_parentheses header) players
        (try_header (p.header_with_colon header) players not_exact)

  unfoldable pub count_players : String → Reading ℕ
  unfolding count_lines splitlines strip
  count_players response = count_lines (stripped_lines (splitlines (p.without_escapes response)))

  -- No header matches both patterns.
  abbrev pub AreDisjoint : Type 0
  AreDisjoint =
      (header : String)
      → (p.header_in_parentheses header ≡ none) ⊎ (p.header_with_colon header ≡ none)

  same_branch :
      (b : Bool) (k n : ℕ)
      → ((if b then got k else no_count) ≡ got n) ↔ ((if b then got k else not_exact) ≡ got n)
  same_branch true k n = (λ e. e, λ e. e)
  same_branch false k n = (λ e. cc, λ e. cc)

  same_count :
      (o1 o2 : Option ℕ) (players : List String) (n : ℕ)
      → (o1 ≡ none) ⊎ (o2 ≡ none)
      → (match_header p o1 o2 players ≡ got n)
        ↔ (try_header o1 players (try_header o2 players not_exact) ≡ got n)
  same_count none none players n h = (λ e. cc, λ e. cc)
  same_count none (some k) players n h =
      same_branch (length players == k && all is_player_line players) k n
  same_count (some k) none players n h =
      same_branch (length players == k && all is_player_line players) k n
  same_count (some k) (some l) players n (inl e) = cc
  same_count (some k) (some l) players n (inr e) = cc

  same_lines :
      AreDisjoint
      → (lines : List String) (n : ℕ) → (parse_lines p lines ≡ got n) ↔ (count_lines lines ≡ got n)
  unfolding parse_lines count_lines
  same_lines d [] n = (λ e. cc, λ e. cc)
  same_lines d (header ∷ players) n =
      same_count (p.header_in_parentheses header) (p.header_with_colon header) players n (d header)

  -- Where no header matches both patterns, the updater reads a count from a response just where
  -- the watchdog reads it.
  pub count_players-parse_player_count :
      AreDisjoint
      → (response : String) (n : ℕ)
      → (parse_player_count p response ≡ got n) ↔ (count_players response ≡ got n)
  unfolding parse_player_count count_players
  count_players-parse_player_count d response n =
      same_lines d (stripped_lines (splitlines (p.without_escapes response))) n

unfoldable pub require_no_players : Option ℕ → Reading (Unit {0})
require_no_players none = refused "Player state is UNKNOWN; game update refused"
require_no_players (some zero) = got tt
require_no_players (some (suc n)) = refused "players are connected; game update refused"
