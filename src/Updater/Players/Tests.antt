-- ===== src/Updater/Players/Tests.antt =====
-- The player counts of src/pz_updater/core.py on concrete responses.
use pz_server.Prelude.{◌≡◌, refl, ◌↔◌, inl, true, none, some, str_eq, if◌then◌else◌}
use pz_server.Watchdog.Rcon.{Patterns, got, refused, parse_player_count}
use pz_server.Updater.Players.{
  AreDisjoint, count_players, require_no_players, count_players-parse_player_count,
}

abbrev patterns : Patterns
patterns = record {
  header_in_parentheses = λ l. none;
  header_with_colon = λ l. if str_eq l "Players connected: 1" then some 1 else none;
  without_escapes = λ r. r;
  is_save_confirmation = λ r. true;
}

disjoint : AreDisjoint patterns
disjoint header = inl refl

counts : count_players patterns "Players connected: 1\n-somebody\n" ≡ got 1
unfolding count_players
counts = refl

refuses :
    count_players patterns "Players connected: 1\n"
    ≡ refused "RCON player response was not an exact recognized count"
unfolding count_players
refuses = refl

requires : require_no_players (some 0) ≡ got tt
unfolding require_no_players
requires = refl

count_players-parse_player_count_example :
    (parse_player_count patterns "Players connected: 1\n-somebody\n" ≡ got 1)
    ↔ (count_players patterns "Players connected: 1\n-somebody\n" ≡ got 1)
count_players-parse_player_count_example =
    count_players-parse_player_count patterns disjoint "Players connected: 1\n-somebody\n" 1
