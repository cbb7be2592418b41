-- ===== src/Watchdog/Cli/Exits.antt =====
-- What the exit codes of src/pz_watchdog/cli.py say.
use pz_server.Prelude.{
  ◌≡◌, refl, inl, inr, zero, suc, ℕ, ◌≤◌, String, Bool, true, false, not, Option, none, some, List,
  if_intro, if◌then◌else◌, arith,
}
use pz_server.Prelude.Checked.{Checked, valid, invalid, crashed}
use pz_server.Prelude.Environment.{Environment}
use pz_server.Watchdog.Models.{PlayerObservation}
use pz_server.Watchdog.Ports.{ServiceManager}
use pz_server.Watchdog.Config.{Settings}
use pz_server.Watchdog.Processes.{Call, sleep}
use pz_server.Watchdog.Service.Control.{docker_manager, tcp_manager}
use pz_server.Watchdog.Service.Control as Control
use pz_server.Watchdog.Service.Stop.{Stops, IsVerified, graceful_stop-Stops}
use pz_server.Watchdog.Shutdown.Order.{Permits}
use pz_server.Watchdog.Cli.{Outside, World, players, admin, service, is_docker, docker_of, on_world}
use pz_server.Watchdog.Cli.Commands.{
  Command, status_command, exit_of, forbids, graceful_stop, Ending, exits, fails, goes_on,
}
use pz_server.Watchdog.Engine as Eng

module _ {W : Type 0} (o : Outside W) (settings : Settings) where
  abbrev State : Type 0
  State = World o settings

  -- A stop by the service manager that succeeds is one of the Docker service.
  abbrev IsContainerStop : ServiceManager State → Bool → Type 0
  IsContainerStop m docker =
      (w : State)
      → (m.graceful_stop settings.service_stop_timeout_seconds w).0 ≡ true
      → (docker ≡ true)
        × ((identifier : String) × (l : List Call) × IsVerified o.machine
              (docker_of o.loads settings) settings.service_stop_timeout_seconds identifier l
              (m.graceful_stop settings.service_stop_timeout_seconds w).1)

  IsVerified-stop :
      (timeout : ℕ) (l : List Call) (r : Bool × State)
      → r.0 ≡ true
      → Stops o.machine (docker_of o.loads settings) timeout l r
      → (identifier : String) × IsVerified o.machine
          (docker_of o.loads settings)
          timeout
          identifier
          l
          r.1
  IsVerified-stop timeout l (true, w) e h = h
  IsVerified-stop timeout l (false, w) e h = cc

  service-IsContainerStop : IsContainerStop (service o settings) (is_docker o settings)
  service-IsContainerStop = go (is_docker o settings)
    where
      go :
          (docker : Bool)
          → IsContainerStop
              (if docker
                then docker_manager o.machine (docker_of o.loads settings)
                else tcp_manager
                    (on_world o settings (o.connect settings.rcon_host settings.rcon_port)))
              docker
      go true w h =
          let timeout = settings.service_stop_timeout_seconds in
          let d = docker_of o.loads settings in
          let (identifier, v) =
            IsVerified-stop timeout w.calls (Control.graceful_stop o.machine d timeout w) h
              (graceful_stop-Stops o.machine d timeout w) in
          (refl, (identifier, w.calls, v))
      go false w h = cc

  -- The command has counted the players, saved, and counted them again ten seconds later; both
  -- counts permit the stop, and the save was confirmed.
  abbrev pub IsAllowed : Bool → State → Type 0
  IsAllowed allow w =
      let (before, w1) = (players o settings).query w in
      let (saved, w2) = (admin o settings).save w1 in
      let (after, w3) = (players o settings).query (sleep o.machine 10 w2) in
      Permits allow before × (saved ≡ true) × Permits allow after

  -- The container was stopped, has exited cleanly and is still the service's.
  abbrev pub IsStopped : State → Type 0
  IsStopped w =
      (is_docker o settings ≡ true)
      × ((identifier : String) × (l : List Call) × IsVerified o.machine (docker_of o.loads settings)
            settings.service_stop_timeout_seconds identifier l w)

  forbids-Permits :
      (allow : Bool) (found : PlayerObservation) → forbids allow found ≡ false → Permits allow found
  forbids-Permits allow found h = go allow found.count h
    where
      go :
          (b : Bool) (count : Option ℕ)
          → forbids b (record { count = count; detail = found.detail }) ≡ false
          → Permits b (record { count = count; detail = found.detail })
      go b none h = cc
      go b (some zero) h = (zero, refl, inl refl)
      go true (some (suc n)) h = (suc n, refl, inr refl)
      go false (some (suc n)) h = absurd (ground arith)

  abbrev Succeeds : Bool → State → ℕ × State → Type 0
  Succeeds allow w r = r.0 ≡ 0 → IsAllowed allow w × IsStopped r.1

  exit_of-true : (b : Bool) → exit_of b ≡ 0 → b ≡ true
  exit_of-true true h = refl
  exit_of-true false h = cc

  -- The command graceful-stop exits with 0 only with the Docker service, after it has counted the
  -- players, saved with a confirmation, and counted them again ten seconds later, where both
  -- counts permit the stop, and after the container has been stopped, has exited cleanly and has
  -- been found again.
  pub graceful_stop-IsStopped :
      (allow : Bool) (w : State)
      → (graceful_stop o settings allow w).0 ≡ 0
      → IsAllowed allow w × IsStopped (graceful_stop o settings allow w).1
  unfolding graceful_stop
  graceful_stop-IsStopped allow w =
      let (before, w1) = (players o settings).query w in
      let (saved, w2) = (admin o settings).save w1 in
      let (after, w3) = (players o settings).query (sleep o.machine 10 w2) in
      let (stopped, w4) =
        (service o settings).graceful_stop settings.service_stop_timeout_seconds w3 in
      if_intro (Succeeds allow w) (forbids allow before) (λ _ e. cc)
        (λ h1.
          if_intro (Succeeds allow w) (not saved) (λ _ e. cc)
            (λ h2.
              if_intro (Succeeds allow w) (forbids allow after) (λ _ e. cc)
                (λ h3 e. (
                  (forbids-Permits allow before h1, ground arith, forbids-Permits allow after h3),
                  service-IsContainerStop w3 (exit_of-true stopped e),
                ))))

module _ {W : Type 0} (o : Outside W) where
  -- The command is status, and the collection or the printing of the metrics raises this.
  abbrev IsUnreported : Command → String → Type 0
  IsUnreported command name =
      (as_json : Bool) × (found : PlayerObservation) × (w : W) × (command ≡ status_command as_json)
      × ((o.report as_json found w).0 ≡ some name)

  -- An exit code of at most 2, or the command goes on, or the report fails.
  abbrev ExitsBelow : Command → Ending → Type 0
  ExitsBelow command (exits code) = code ≤ 2
  ExitsBelow command (fails name) = IsUnreported command name
  ExitsBelow command goes_on = Unit

  -- How `main` ends, by what was made of the configuration.
  abbrev pub MainEnds : Command → Checked Settings → Ending → Type 0
  MainEnds command (valid settings) r = ExitsBelow command r
  MainEnds command (invalid message) r = r ≡ exits 64
  MainEnds command (crashed name) r = r ≡ fails name

abbrev IsCode : Option ℕ → Type 0
IsCode none = Unit
IsCode (some code) = code ≤ 2
