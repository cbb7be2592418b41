-- ===== src/Watchdog/Processes.antt =====
-- What the watchdog calls of the host (`subprocess.run`, `time.monotonic`, `time.sleep`), over a
-- type of worlds. `Session` adds the calls that were made, latest first, which no code keeps.
use pz_server.Prelude.{ℕ, String, Option, List, ◌∷◌}
use pz_server.Prelude.Integers.{ℤ}

-- `subprocess.CompletedProcess[str]`
pub record Process : Type 0 where
  pub returncode : ℤ
  pub stdout : String
  pub stderr : String

-- `run` is given the command and the timeout; its answer is `none` where an OSError or a
-- TimeoutExpired is raised. Outputs that cannot be decoded as text are not modelled.
pub record Machine (W : Type 0) : Type 0 where
  pub run : List String → ℕ → W → Option Process × W
  pub monotonic : W → ℕ × W
  pub sleep : ℕ → W → W

pub data Call : Type 0 where
  ran : List String → ℕ → Option Process → Call
  slept : ℕ → Call

pub record Session (W M : Type 0) : Type 0 where
  pub world : W
  -- What the object itself keeps.
  pub memory : M
  pub calls : List Call

module _ {W M : Type 0} (machine : Machine W) where
  abbrev pub run : List String → ℕ → Session W M → Option Process × Session W M
  run command timeout s =
      let (p, w) = machine.run command timeout s.world in
      (p, record s { world = w; calls = ran command timeout p ∷ s.calls })

  abbrev pub monotonic : Session W M → ℕ × Session W M
  monotonic s = let (now, w) = machine.monotonic s.world in (now, record s { world = w })

  abbrev pub sleep : ℕ → Session W M → Session W M
  sleep delay s = record s { world = machine.sleep delay s.world; calls = slept delay ∷ s.calls }
