-- ===== src/Watchdog/Config/Bounds.antt =====
-- What the settings of src/pz_watchdog/config.py satisfy, whatever the environment says.
use pz_server.Prelude.{
  ◌≡◌, refl, ◌⊎◌, inl, inr, ◌≤◌, ℕ, String, Bool, true, false, not, ◌&&◌, ◌||◌, Option, none, some,
  List, [], ◌∷◌, ◌++◌, leb, str_eq, eq_iff, starts_with, if◌then◌else◌, arith,
}
use pz_server.Prelude.Text.{strip, is_empty}
use pz_server.Prelude.Integers.{ℤ, pos, negsuc, Unicode, int, show}
use pz_server.Prelude.Checked.{
  Checked, valid, ◌>>=◌, Ensures, bind-Ensures, branch-Ensures, any-Ensures, skip-Ensures,
  Ensures-valid,
}
use pz_server.Prelude.Environment.{Environment, is_one_of, is_one_of_two, get_or}
use pz_server.Watchdog.Config.{
  Platform, within, read_within, integer, boolean, load_dotenv, Settings,
}
use pz_server.Watchdog.Config.Build.{
  service_mode, cli_command, deployment, check_dry_run, password, policy_or_default, update_policy,
  steam_branch, make_settings, from_values, from_environment,
}

abbrev pub IsBetween : ℕ → ℕ → ℕ → Type 0
IsBetween minimum maximum n = (minimum ≤ n) × (n ≤ maximum)

-- The timings and counts.
abbrev pub IsBounded : Settings → Type 0
IsBounded s =
    IsBetween 1024 65535 s.rcon_port
    × IsBetween 1 120 s.rcon_timeout_seconds
    × IsBetween 1 10 s.rcon_retry_count
    × IsBetween 0 300 s.rcon_retry_delay_seconds
    × IsBetween 60 86400 s.idle_timeout_seconds
    × IsBetween 5 3600 s.poll_interval_seconds
    × IsBetween 60 7200 s.health_failure_timeout_seconds
    × IsBetween 2 10 s.final_check_count
    × IsBetween 1 300 s.final_check_delay_seconds
    × IsBetween 30 600 s.service_stop_timeout_seconds

abbrev AllowsRun : Platform → Bool → String → Type 0
AllowsRun p dry_run environment =
    (dry_run ≡ true) ⊎ ((environment ≡ "aws") × (p.on_windows ≡ false))

abbrev FitsBranch : String → String → Type 0
FitsBranch policy branch =
    (policy ≡ "manual") ⊎ ((policy ≡ "stable-on-start") × (branch ≡ "public"))

abbrev IsMode : String → Type 0
IsMode mode = (mode ≡ "docker") ⊎ (mode ≡ "tcp-only")

abbrev IsSecret : String → Type 0
IsSecret secret = (is_empty secret ≡ false) × (starts_with secret "change-me-" ≡ false)

-- A real run is on AWS and not on Windows; the stable policy goes with the public branch; the
-- password is neither empty nor the placeholder; and the service is controlled in a known way.
abbrev pub IsPermitted : Platform → Settings → Type 0
IsPermitted p s =
    IsMode s.service_control_mode
    × AllowsRun p s.dry_run s.deployment_environment
    × IsSecret s.rcon_password
    × FitsBranch s.update_policy s.steam_branch

within-Ensures :
    (name : String) (minimum maximum : ℕ) (i : ℤ)
    → Ensures (IsBetween minimum maximum) (within name minimum maximum i)
within-Ensures name minimum maximum (negsuc n) = tt
within-Ensures name minimum maximum (pos n) =
    branch-Ensures (IsBetween minimum maximum) (leb minimum n && leb n maximum) _ _
      (λ h. (ground arith, ground arith)) (λ _. tt)

read_within-Ensures :
    (name : String) (minimum maximum : ℕ) (o : Option ℤ)
    → Ensures (IsBetween minimum maximum) (read_within name minimum maximum o)
read_within-Ensures name minimum maximum none = tt
read_within-Ensures name minimum maximum (some i) = within-Ensures name minimum maximum i

integer-Ensures :
    (u : Unicode) (values : Environment) (name : String) (default minimum maximum : ℕ)
    → Ensures (IsBetween minimum maximum) (integer u values name default minimum maximum)
unfolding integer
integer-Ensures u values name default minimum maximum =
    read_within-Ensures name minimum maximum (int u (strip (get_or values name (show default))))

module _ (p : Platform) (values : Environment) where
  -- One value that `make_settings` reads.
  number-Ensures :
      {B : Type 0} (R : B → Type 0) (name : String) (default minimum maximum : ℕ)
      (f : ℕ → Checked B)
      → ((n : ℕ) → IsBetween minimum maximum n → Ensures R (f n))
      → Ensures R (integer p.unicode values name default minimum maximum >>= f)
  number-Ensures R name default minimum maximum f k =
      bind-Ensures (IsBetween minimum maximum) R
        (integer p.unicode values name default minimum maximum) f
        (integer-Ensures p.unicode values name default minimum maximum) k

  make_settings-Ensures :
      (mode : String) (command : List String) (dry_run : Bool)
      (environment secret policy branch : String)
      → IsMode mode
      → AllowsRun p dry_run environment
      → IsSecret secret
      → FitsBranch policy branch
      → Ensures
          (λ s. IsBounded s × IsPermitted p s)
          (make_settings p values mode command dry_run environment secret policy branch)
  unfolding make_settings
  make_settings-Ensures mode command dry_run environment secret policy branch m a c b =
      let Q = λ (s : Settings). IsBounded s × IsPermitted p s in
      number-Ensures Q "RCON_PORT" 27015 1024 65535 _ λ port h0.
        number-Ensures Q "RCON_TIMEOUT_SECONDS" 10 1 120 _ λ timeout h1.
          number-Ensures Q "RCON_RETRY_COUNT" 3 1 10 _ λ retries h2.
            number-Ensures Q "RCON_RETRY_DELAY_SECONDS" 5 0 300 _ λ retry_delay h3.
              number-Ensures Q "IDLE_TIMEOUT_MINUTES" 45 1 1440 _ λ idle h4.
                number-Ensures Q "POLL_INTERVAL_SECONDS" 60 5 3600 _ λ poll h5.
                  number-Ensures Q "HEALTH_FAILURE_TIMEOUT_MINUTES" 12 1 120 _ λ outage h6.
                    number-Ensures Q "FINAL_CHECK_COUNT" 3 2 10 _ λ checks h7.
                      number-Ensures Q "FINAL_CHECK_DELAY_SECONDS" 5 1 300 _ λ check_delay h8.
                        number-Ensures Q "SERVICE_STOP_TIMEOUT_SECONDS" 120 30 600 _
                          λ stop_timeout h9.
                            bind-Ensures (λ _. Unit {0}) Q
                              (boolean p.unicode values "HOST_SHUTDOWN_ENABLED" false) _
                              (any-Ensures (boolean p.unicode values "HOST_SHUTDOWN_ENABLED" false))
                              λ enabled _. (
                                (
                                  h0,
                                  h1,
                                  h2,
                                  h3,
                                  (omega arith, omega arith),
                                  h5,
                                  (omega arith, omega arith),
                                  h7,
                                  h8,
                                  h9,
                                ),
                                (m, a, c, b),
                              )

  service_mode-Ensures : Ensures IsMode (service_mode p values)
  unfolding service_mode
  service_mode-Ensures =
      let mode = p.unicode.lower (strip (get_or values "SERVICE_CONTROL_MODE" "docker")) in
      branch-Ensures IsMode (is_one_of ("docker" ∷ "tcp-only" ∷ []) mode) (valid mode) _
        (λ h. is_one_of_two "docker" "tcp-only" mode h) (λ _. tt)

  check_dry_run-Ensures :
      (dry_run : Bool) (environment : String)
      → Ensures (λ _. AllowsRun p dry_run environment) (check_dry_run p values dry_run environment)
  unfolding check_dry_run
  check_dry_run-Ensures dry_run environment =
      let Q = λ (x : Unit {0}). AllowsRun p dry_run environment in
      branch-Ensures Q (p.on_windows && not dry_run) _ _ (λ _. tt)
        (λ h.
          branch-Ensures Q (not (str_eq environment "aws") && not dry_run) _ (valid tt) (λ _. tt)
            (λ k. allowed dry_run h k))
    where
      allowed :
          (b : Bool)
          → (p.on_windows && not b) ≡ false
          → (not (str_eq environment "aws") && not b) ≡ false
          → AllowsRun p b environment
      allowed true h k = inl refl
      allowed false h k = inr ((eq_iff environment "aws").0 (ground arith), ground arith)

  password-Ensures : Ensures IsSecret (password p values)
  unfolding password
  password-Ensures =
      let text = get_or values "RCON_PASSWORD" "" in
      branch-Ensures IsSecret (is_empty text || starts_with text "change-me-") _ (valid text)
        (λ _. tt) (λ h. (ground arith, ground arith))

  update_policy-Ensures :
      Ensures (λ x. (x ≡ "stable-on-start") ⊎ (x ≡ "manual")) (update_policy p values)
  unfolding update_policy
  update_policy-Ensures =
      let policy =
        policy_or_default p values (strip (get_or values "PZ_UPDATE_POLICY" "stable-on-start")) in
      branch-Ensures (λ x. (x ≡ "stable-on-start") ⊎ (x ≡ "manual"))
        (is_one_of ("stable-on-start" ∷ "manual" ∷ []) policy) (valid policy) _
        (λ h. is_one_of_two "stable-on-start" "manual" policy h) (λ _. tt)

  steam_branch-Ensures :
      (policy : String)
      → (policy ≡ "stable-on-start") ⊎ (policy ≡ "manual")
      → Ensures (FitsBranch policy) (steam_branch p values policy)
  unfolding steam_branch
  steam_branch-Ensures policy (inl e) =
      let branch = strip (get_or values "STEAM_BRANCH" "") in
      branch-Ensures (FitsBranch policy) (str_eq policy "stable-on-start" && not (is_empty branch))
        _ _ (λ _. tt)
        (λ h. let stable = (eq_iff policy "stable-on-start").1 e in inr (e, ground arith))
  steam_branch-Ensures policy (inr e) =
      let branch = strip (get_or values "STEAM_BRANCH" "") in
      branch-Ensures (FitsBranch policy) (str_eq policy "stable-on-start" && not (is_empty branch))
        _ (valid (if is_empty branch then "public" else branch)) (λ _. tt) (λ _. inl e)

  from_values-Ensures : Ensures (λ s. IsBounded s × IsPermitted p s) (from_values p values)
  unfolding from_values
  from_values-Ensures =
      let Q = λ (s : Settings). IsBounded s × IsPermitted p s in
      bind-Ensures IsMode Q (service_mode p values) _ service_mode-Ensures λ mode m.
        skip-Ensures Q (cli_command p values mode) _ λ command.
          skip-Ensures Q (boolean p.unicode values "DRY_RUN" true) _ λ dry_run.
            skip-Ensures Q (deployment p values) _ λ environment.
              bind-Ensures (λ _. AllowsRun p dry_run environment) Q
                (check_dry_run p values dry_run environment) _
                (check_dry_run-Ensures dry_run environment)
                λ _ a. bind-Ensures IsSecret Q (password p values) _ password-Ensures λ secret c.
                  bind-Ensures (λ x. (x ≡ "stable-on-start") ⊎ (x ≡ "manual")) Q
                    (update_policy p values) _ update_policy-Ensures
                    λ policy e.
                      bind-Ensures (FitsBranch policy) Q (steam_branch p values policy) _
                        (steam_branch-Ensures policy e)
                        λ branch b.
                          make_settings-Ensures mode command dry_run environment secret policy
                            branch m a c b

-- Settings that are accepted have every timing and every count within its bounds, and they are
-- permitted: a real run is on AWS and not on Windows, the password is neither empty nor the
-- placeholder, the service is controlled in a known way, and the stable policy goes with the
-- public branch.
pub from_environment-IsPermitted :
    (p : Platform) (supplied : Environment) (s : Settings)
    → from_environment p supplied ≡ valid s
    → IsBounded s × IsPermitted p s
unfolding from_environment
from_environment-IsPermitted p supplied s e =
    let Q = λ (x : Settings). IsBounded x × IsPermitted p x in
    let file = load_dotenv (p.read_file (get_or supplied "PZ_ENV_FILE" ".env")) in
    Ensures-valid Q (from_environment p supplied) s e
      (skip-Ensures Q file _ λ loaded. from_values-Ensures p (supplied ++ loaded))
