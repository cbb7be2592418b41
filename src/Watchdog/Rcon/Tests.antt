-- ===== src/Watchdog/Rcon/Tests.antt =====
-- The RCON client of src/pz_watchdog/rcon.py on a concrete client.
use pz_server.Prelude.{
  String, true, none, some, List, [], ◌∷◌, ◌≡◌, ◌⊎◌, refl, str_eq, if◌then◌else◌, length, all,
}
use pz_server.Prelude.Checked.{valid, crashed}
use pz_server.Watchdog.Models.{known}
use pz_server.Watchdog.Rcon.{
  Patterns, Response, is_player_line, answered, failed, broken, got, parse_lines, read_players, ran,
  slept, Session, Retrier, query, save,
}
use pz_server.Watchdog.Rcon.Retries.{
  Succeeds, Exhausts, parse_lines_exact, query_counted, query_exhausted,
}
use pz_server.Watchdog.Rcon.Confirmation.{IsConfirmed, save-IsConfirmed}

-- One header, one player's line, one confirmation.
abbrev patterns : Patterns
patterns = record {
  header_in_parentheses = λ l. if str_eq l "Players connected (1):" then some 1 else none;
  header_with_colon = λ l. none;
  without_escapes = λ r. r;
  is_save_confirmation = λ r. str_eq r "World saved";
}

-- The responses to come.
abbrev respond : List Response → Response × List Response
respond [] = (failed "rcon-cli exited with status 1", [])
respond (r ∷ l) = (r, l)

abbrev client : Retrier (List Response)
client = record { run = λ _ w. respond w; sleep = λ _ w. w; attempts = 2; retry_delay_seconds = 5 }

abbrev start : List Response → Session (List Response)
start w = record { world = w; calls = [] }

abbrev late_answer : Session (List Response)
late_answer =
    start
      (failed "rcon-cli exited with status 1" ∷ answered "Players connected (1):\n-somebody" ∷ [])

parses : parse_lines patterns ("Players connected (1):" ∷ "-somebody" ∷ []) ≡ got 1
unfolding parse_lines
parses = refl

counts : query client patterns late_answer ≡ (
  known 1,
  record {
    world = [];
    calls =
        ran "players" (answered "Players connected (1):\n-somebody")
        ∷ slept 5
        ∷ ran "players" (failed "rcon-cli exited with status 1")
        ∷ [];
  },
)
unfolding query
counts = refl

finds_one : (query client patterns late_answer).0.count ≡ some 1
unfolding query
finds_one = refl

finds_none : (query client patterns (start [])).0.count ≡ none
unfolding query
finds_none = refl

saves : (save client patterns (start (answered "World saved" ∷ []))).0 ≡ valid true
unfolding save
saves = refl

-- A ValueError leaves `save` at the first attempt, and `query` goes on.
escapes :
    (save client patterns (start (broken "codec" ∷ answered "World saved" ∷ []))).0
    ≡ crashed "ValueError"
unfolding save
escapes = refl

goes_on :
    (query client patterns
      (start (broken "codec" ∷ answered "Players connected (1):\n-somebody" ∷ []))).0
    ≡ known 1
unfolding query
goes_on = refl

parse_lines_exact_example :
    (header : String) × (players : List String) × ("Players connected (1):" ∷ "-somebody" ∷ []
      ≡ header ∷ players)
    × ((patterns.header_in_parentheses header ≡ some 1)
        ⊎ (patterns.header_with_colon header ≡ some 1))
    × (length players ≡ 1)
    × (all is_player_line players ≡ true)
parse_lines_exact_example =
    parse_lines_exact patterns ("Players connected (1):" ∷ "-somebody" ∷ []) 1 parses

query_counted_example :
    Succeeds client "players" (read_players patterns) 2 1 [] (query client patterns late_answer).1
query_counted_example = query_counted client patterns late_answer 1 finds_one

query_exhausted_example :
    Exhausts client "players" (read_players patterns) 1 [] (query client patterns (start [])).1
query_exhausted_example = query_exhausted client patterns (start []) 1 refl finds_none

save-IsConfirmed_example :
    IsConfirmed client patterns []
      (save client patterns (start (answered "World saved" ∷ []))).1.calls
save-IsConfirmed_example =
    save-IsConfirmed client patterns (start (answered "World saved" ∷ [])) saves
