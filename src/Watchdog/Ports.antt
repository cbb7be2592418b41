-- ===== src/Watchdog/Ports.antt =====
-- The protocols by which the parts of the watchdog call one another (`typing.Protocol` in
-- engine.py, shutdown.py and service.py), over a type of worlds that the calls change.
use pz_server.Prelude.{ℕ, Bool}
use pz_server.Watchdog.Models.{PlayerObservation, ServiceHealth, ShutdownOutcome}

module _ (W : Type 0) where
  pub record PlayerCounter : Type 0 where
    pub query : W → PlayerObservation × W

  pub record ServiceManager : Type 0 where
    pub health : W → ServiceHealth × W
    pub restart : W → Bool × W
    pub graceful_stop : ℕ → W → Bool × W
    pub is_stopped : W → Bool × W
    pub start : W → Bool × W

  pub record ShutdownAction : Type 0 where
    pub execute : Bool → W → ShutdownOutcome × W

  pub record HostPowerController : Type 0 where
    pub eligible : W → Bool × W
    pub shutdown : W → Bool × W

  -- `RconAdmin`
  pub record Admin : Type 0 where
    pub save : W → Bool × W

  -- `time.sleep`, injected as `sleeper`
  pub record Sleeper : Type 0 where
    pub sleep : ℕ → W → W
