-- ===== src/Watchdog/Rcon/Client.antt =====
-- `RconCliClient.run` of src/pz_watchdog/rcon.py. The environment of the process, which carries the
-- password, is not modelled.
use pz_server.Prelude.{ℕ, String, not, Option, none, some, List, [], ◌∷◌, ◌++◌, if◌then◌else◌}
use pz_server.Prelude.Text.{strip, is_empty}
use pz_server.Prelude.Integers.{equals, show}
use pz_server.Watchdog.Processes.{Process, Machine, Session, run}
use pz_server.Watchdog.Rcon.{Response, answered, failed}

pub record RconCliClient : Type 0 where
  pub command : List String
  pub host : String
  pub port : ℕ
  pub timeout_seconds : ℕ

-- `run`, on the answer of `subprocess.run`
unfoldable pub response_of : Option Process → Response
unfolding strip
response_of none = failed "RCON command could not complete"
response_of (some p) =
    if not (equals p.returncode 0)
    then failed "rcon-cli exited with a status"
    else if not (is_empty (strip p.stderr))
    then failed "rcon-cli reported an error despite a zero exit status"
    else if is_empty (strip p.stdout)
    then failed "rcon-cli returned an empty response"
    else answered (strip p.stdout)

abbrev pub rcon_arguments : RconCliClient → String → List String
rcon_arguments c command = c.command ++ ("--host" ∷ c.host ∷ "--port" ∷ show c.port ∷ command ∷ [])

module _ {W M : Type 0} (machine : Machine W) (c : RconCliClient) where
  unfoldable pub run_rcon : String → Session W M → Response × Session W M
  unfolding response_of
  run_rcon command s =
      let (p, s') = run machine (rcon_arguments c command) c.timeout_seconds s in
      (response_of p, s')
