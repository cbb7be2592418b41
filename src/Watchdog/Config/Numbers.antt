-- ===== src/Watchdog/Config/Numbers.antt =====
-- The numbers of src/pz_watchdog/config.py: what is written is read.
use pz_server.Prelude.{◌≡◌, refl, ap, ◌∙◌, ℕ, ◌≤◌, ◌&&◌, String, leb, if_intro, arith}
use pz_server.Prelude.Text.{strip}
use pz_server.Prelude.Integers.{Unicode, KnowsDigits, int, show, pos}
use pz_server.Prelude.IntegerLaws.{int-show, strip-show}
use pz_server.Prelude.Checked.{valid}
use pz_server.Prelude.Environment.{Environment, get_or}
use pz_server.Watchdog.Config.{integer, read_within, within}

within-valid :
    (name : String) (minimum maximum n : ℕ)
    → minimum ≤ n
    → n ≤ maximum
    → within name minimum maximum (pos n) ≡ valid n
within-valid name minimum maximum n h k =
    if_intro (λ r. r ≡ valid n) (leb minimum n && leb n maximum) (λ _. refl)
      (λ e. absurd (ground arith))

-- Where the variable holds a natural number as `str` writes it, or is not set and this number is
-- the default, and where the number is within the bounds, the number is what is read. This rests
-- on the values of the ASCII digits in the Unicode tables.
pub integer-show :
    (u : Unicode) (values : Environment) (name : String) (default minimum maximum n : ℕ)
    → KnowsDigits u
    → get_or values name (show default) ≡ show n
    → minimum ≤ n
    → n ≤ maximum
    → integer u values name default minimum maximum ≡ valid n
unfolding integer
integer-show u values name default minimum maximum n ascii e h k =
    ap (λ t. read_within name minimum maximum (int u (strip t))) e
    ∙ ap (λ t. read_within name minimum maximum (int u t)) (strip-show n)
    ∙ ap (read_within name minimum maximum) (int-show u ascii n)
    ∙ within-valid name minimum maximum n h k
