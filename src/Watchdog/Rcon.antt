-- ===== src/Watchdog/Rcon.antt =====
-- src/pz_watchdog/rcon.py: the parser of the player list, and the retries of `query` and `save`.
-- The regular expressions are functions of Python's library and parameters here. `Session` adds the calls, latest first.
pub mod Retries
pub mod Confirmation
pub mod Client
mod Tests
use pz_server.Prelude.{
  ℕ, zero, suc, String, Bool, true, false, not, ◌&&◌, ◌==◌, Option, none, some, List, [], ◌∷◌,
  if◌then◌else◌, length, all, starts_with,
}
use pz_server.Prelude.Text.{strip, splitlines, is_empty}
use pz_server.Prelude.Checked.{Checked, valid, crashed}
use pz_server.Watchdog.Models.{PlayerObservation, known, unknown_players}

-- What the code takes from Python's library: the two header patterns, in their order, with the
-- number that each finds; the removal of escape codes; and the pattern of a confirmed save.
pub record Patterns : Type 0 where
  pub header_in_parentheses : String → Option ℕ
  pub header_with_colon : String → Option ℕ
  pub without_escapes : String → String
  pub is_save_confirmation : String → Bool

-- What `client.run` gives, or the message of an exception: of an RconError or an OSError (`failed`),
-- or of a ValueError (`broken`), as for an output that cannot be decoded.
pub data Response : Type 0 where
  answered failed broken : String → Response

-- A value, or the message of an RconError.
pub data Reading (A : Type 0) : Type 0 where
  got : A → Reading A
  refused : String → Reading A

abbrev pub no_count : Reading ℕ
no_count = refused "RCON players response did not contain a recognized player count"

abbrev pub is_player_line : String → Bool
is_player_line line = starts_with line "-"

-- `[line.strip() for line in lines if line.strip()]`
abbrev pub stripped_lines : List String → List String
stripped_lines [] = []
stripped_lines (line ∷ lines) =
    let rest = stripped_lines lines in if is_empty (strip line) then rest else strip line ∷ rest

-- How the loop of `save` ends before its last attempt: by a confirmation, or by a ValueError.
pub data Saving : Type 0 where
  confirmed escaped : Saving

module _ (p : Patterns) where
  -- The body of the loop over the patterns, for the pattern that matches.
  abbrev pub check_players : ℕ → List String → Reading ℕ
  check_players n players =
      if length players == n && all is_player_line players then got n else no_count

  abbrev pub match_header : Option ℕ → Option ℕ → List String → Reading ℕ
  match_header (some n) o players = check_players n players
  match_header none (some n) players = check_players n players
  match_header none none players = no_count

  -- `parse_player_count`, on the lines of the response
  unfoldable pub parse_lines : List String → Reading ℕ
  parse_lines [] = refused "RCON players response was empty"
  parse_lines (header ∷ players) =
      match_header (p.header_in_parentheses header) (p.header_with_colon header) players

  unfoldable pub parse_player_count : String → Reading ℕ
  unfolding parse_lines splitlines strip
  parse_player_count response =
      parse_lines (stripped_lines (splitlines (p.without_escapes response)))

  -- The `try` blocks of `query` and of `save`.
  unfoldable pub read_players : Response → Reading ℕ
  unfolding parse_player_count
  read_players (answered response) = parse_player_count response
  read_players (failed message) = refused message
  read_players (broken message) = refused message

  -- A ValueError is not caught in `save`.
  unfoldable pub read_save : Response → Reading Saving
  unfolding strip
  read_save (answered response) =
      if p.is_save_confirmation (strip (p.without_escapes response))
      then got confirmed
      else refused "RCON save response was not a recognized confirmation"
  read_save (failed message) = refused message
  read_save (broken message) = got escaped

pub data Call : Type 0 where
  ran : String → Response → Call
  slept : ℕ → Call

pub record Session (W : Type 0) : Type 0 where
  pub world : W
  pub calls : List Call

-- The fields that `RetryingPlayerCounter` and `RconAdmin` share.
pub record Retrier (W : Type 0) : Type 0 where
  pub run : String → W → Response × W
  pub sleep : ℕ → W → W
  pub attempts : ℕ
  pub retry_delay_seconds : ℕ

module _ {W : Type 0} (c : Retrier W) where
  unfoldable pub run : String → Session W → Response × Session W
  run command s =
      let (r, w) = c.run command s.world in
      (r, record { world = w; calls = ran command r ∷ s.calls })

  -- `self.sleeper`, unless no attempt is left.
  unfoldable pub pause : ℕ → Session W → Session W
  pause zero s = s
  pause (suc k) s = record {
    world = c.sleep c.retry_delay_seconds s.world;
    calls = slept c.retry_delay_seconds ∷ s.calls;
  }

  -- The loop of `query` and `save` with the attempts that are left, and its last error.
  unfoldable pub retry :
      {A : Type 0}
      → String
      → (Response → Reading A)
      → ℕ
      → String
      → Session W
      → Reading A × Session W
  unfolding run pause
  retry command read zero last s = (refused last, s)
  retry command read (suc k) last s =
      let (r, s') = run command s in
      elim (read r) [
        | got a ↦ (got a, s')
        | refused message ↦ retry command read k message (pause k s')
      ]

  abbrev pub observation : Reading ℕ → PlayerObservation
  observation (got n) = known n
  observation (refused message) = unknown_players message

  abbrev pub is_saved : Reading Saving → Checked Bool
  is_saved (got confirmed) = valid true
  is_saved (got escaped) = crashed "ValueError"
  is_saved (refused message) = valid false

  unfoldable pub query : Patterns → Session W → PlayerObservation × Session W
  unfolding retry read_players
  query p s =
      let (o, s') = retry "players" (read_players p) c.attempts "RCON query failed" s in
      (observation o, s')

  unfoldable pub save : Patterns → Session W → Checked Bool × Session W
  unfolding retry read_save
  save p s = let (o, s') = retry "save" (read_save p) c.attempts "" s in (is_saved o, s')
