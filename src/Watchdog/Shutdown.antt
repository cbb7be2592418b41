-- ===== src/Watchdog/Shutdown.antt =====
-- src/pz_watchdog/shutdown.py: the power controller of the host, and the coordinator that saves,
-- stops and verifies the game server before it powers the host off. `Session` adds the calls that
-- were made, latest first. Log messages are not modelled.
pub mod Order
pub mod Power
pub mod Container
mod Tests
use pz_server.Prelude.{
  ℕ, String, Bool, true, false, not, ◌&&◌, ◌||◌, Option, none, some, List, ◌∷◌, ◌==◌, str_eq,
  if◌then◌else◌,
}
use pz_server.Prelude.Text.{strip}
use pz_server.Watchdog.Models.{
  PlayerObservation, is_unknown, has_players, ShutdownOutcome, completed, dry_run, aborted,
}
use pz_server.Watchdog.Ports.{
  PlayerCounter, ServiceManager, ShutdownAction, HostPowerController, Admin, Sleeper,
}

-- What `lstat` and `read_text` say of the guard file.
pub record GuardFile : Type 0 where
  pub is_regular : Bool
  pub owner : ℕ
  pub permissions : ℕ
  pub content : String

-- What the controller reads of its host: `os.name`, `platform.system()`, and the guard file,
-- `none` where an OSError is raised.
pub record HostFacts : Type 0 where
  pub os_name : String
  pub system : String
  pub guard_file : Option GuardFile

-- The host, as the controller calls it. `poweroff` runs `/usr/bin/systemctl --no-block poweroff`
-- and gives the exit status, or `none` where an OSError or a timeout is raised.
pub record Host (W : Type 0) : Type 0 where
  pub inspect : W → HostFacts × W
  pub poweroff : W → Option ℕ × W

pub record SystemdPowerController : Type 0 where
  pub deployment_environment : String
  pub enabled : Bool

unfoldable pub is_guard : GuardFile → Bool
is_guard g =
    g.is_regular
    && g.owner == 0
    && g.permissions == 0o600
    && str_eq (strip g.content) "PZ_HOST_SHUTDOWN=ENABLED"

-- `SystemdPowerController.eligible`, on what it reads.
unfoldable pub is_eligible : SystemdPowerController → HostFacts → Bool
unfolding is_guard
is_eligible c facts =
    if str_eq facts.os_name "nt" || not (str_eq facts.system "Linux")
    then false
    else if not (str_eq c.deployment_environment "aws") || not c.enabled
    then false
    else elim facts.guard_file [ none ↦ false | some g ↦ is_guard g ]

module _ {W : Type 0} (host : Host W) (c : SystemdPowerController) where
  unfoldable pub eligible : W → Bool × W
  eligible w = let (facts, w') = host.inspect w in (is_eligible c facts, w')

  unfoldable pub power_off : W → Bool × W
  unfolding eligible
  power_off w =
      let (allowed, w') = eligible w in
      if not allowed
      then (false, w')
      else let (status, w'') = host.poweroff w' in
        elim status [ none ↦ (false, w'') | some code ↦ (code == 0, w'') ]

  abbrev pub systemd : HostPowerController W
  systemd = record { eligible = eligible; shutdown = power_off }

-- What the coordinator asked of its collaborators, with the answers.
pub data Act : Type 0 where
  checked_eligible : Bool → Act
  counted : PlayerObservation → Act
  saved : Bool → Act
  slept : ℕ → Act
  stop_requested : ℕ → Bool → Act
  stop_verified : Bool → Act
  powered_off : Bool → Act
  started : Bool → Act

pub record Session (W : Type 0) : Type 0 where
  pub world : W
  pub acts : List Act

pub record ShutdownCoordinator (W : Type 0) : Type 0 where
  pub players : PlayerCounter W
  pub admin : Admin W
  pub service : ServiceManager W
  pub host : HostPowerController W
  pub sleeper : Sleeper W
  pub service_stop_timeout_seconds : ℕ
  pub save_settle_seconds : ℕ

module _ {W : Type 0} where
  -- One call, with its answer noted.
  abbrev pub ask : {A : Type 0} → (W → A × W) → (A → Act) → Session W → A × Session W
  ask call act s = let (a, w) = call s.world in (a, record s { world = w; acts = act a ∷ s.acts })

-- The two tests of `_players_allow_shutdown`.
abbrev pub allows : Bool → PlayerObservation → Bool
allows allow_connected_players o =
    if is_unknown o
    then false
    else if has_players o && not allow_connected_players
    then false
    else true

module _ {W : Type 0} (c : ShutdownCoordinator W) where
  abbrev pub count : Session W → PlayerObservation × Session W
  count = ask c.players.query counted

  abbrev pub sleep : Session W → Session W
  sleep s =
      let delay = c.save_settle_seconds in
      record s { world = c.sleeper.sleep delay s.world; acts = slept delay ∷ s.acts }

  -- `_players_allow_shutdown`
  unfoldable pub players_allow_shutdown : Bool → Session W → Bool × Session W
  players_allow_shutdown allow s = let (o, s') = count s in (allows allow o, s')

  -- The last part of `execute`: the power-off, and the recovery where it fails.
  unfoldable pub finish : Session W → ShutdownOutcome × Session W
  finish s =
      let (off, s') = ask c.host.shutdown powered_off s in
      if off
      then (completed, s')
      else let (_, s'') = ask c.service.start started s' in (aborted, s'')

  -- The middle part: the graceful stop, and its verification.
  unfoldable pub stop_service : Session W → ShutdownOutcome × Session W
  unfolding finish
  stop_service s =
      let timeout = c.service_stop_timeout_seconds in
      let (clean, s') = ask (c.service.graceful_stop timeout) (stop_requested timeout) s in
      if not clean
      then (aborted, s')
      else let (verified, s'') = ask c.service.is_stopped stop_verified s' in
        if not verified then (aborted, s'') else finish s''

  unfoldable pub execute : Bool → Bool → Session W → ShutdownOutcome × Session W
  unfolding players_allow_shutdown stop_service
  execute dry allow s =
      if dry
      then (dry_run, s)
      else let (fit, s1) = ask c.host.eligible checked_eligible s in
        if not fit
        then (aborted, s1)
        else let (before, s2) = players_allow_shutdown allow s1 in
          if not before
          then (aborted, s2)
          else let (kept, s3) = ask c.admin.save saved s2 in
            if not kept
            then (aborted, s3)
            else let (after, s5) = players_allow_shutdown allow (sleep s3) in
              if not after then (aborted, s5) else stop_service s5

  -- The coordinator as the engine calls it, with no players allowed.
  abbrev pub action : ShutdownAction (Session W)
  action = record { execute = λ dry s. execute dry false s }
