-- ===== src/Watchdog/Engine/Timers.antt =====
-- Equations of the engine's handlers where a timer runs, which its theorems share.
use pz_server.Prelude.{ℕ, ◌≡◌, false, some, arith}
use pz_server.Watchdog.Models.{PlayerObservation, is_unknown, has_players}
use pz_server.Watchdog.Engine.{Session, Engine, handle_empty, continue_empty}

pub no_players :
    (o : PlayerObservation) → is_unknown o ≡ false → has_players o ≡ false → o.count ≡ some 0
no_players o seen nobody = ground arith

module _ {W : Type 0} (e : Engine W) where
  pub handle_empty-eq :
      (now t : ℕ) (s : Session W)
      → s.state.empty_since ≡ some t
      → handle_empty e now s ≡ continue_empty e now t s
  unfolding handle_empty
  handle_empty-eq now t s h = ground arith
