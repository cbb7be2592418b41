-- ===== src/Watchdog/Shutdown/Container.antt =====
-- The coordinator of src/pz_watchdog/shutdown.py over the Docker service of
-- src/pz_watchdog/service.py: what is known of the container when the host is powered off.
use mathlib.Core.Path.{subst}
use pz_server.Prelude.{◌≡◌, refl, ap, ◌∙◌, ℕ, String, Bool, true, not, List, if_intro, arith}
use pz_server.Watchdog.Models.{ShutdownOutcome, completed}
use pz_server.Watchdog.Processes.{Machine, Call}
use pz_server.Watchdog.Service.{DockerComposeService, Docker}
use pz_server.Watchdog.Service.Control.{docker_manager, graceful_stop, is_stopped}
use pz_server.Watchdog.Service.Stop.{
  Stops, IsVerified, Confirms, IsInspected, graceful_stop-Stops, is_stopped-Confirms,
}
use pz_server.Watchdog.Shutdown.{
  Session, ShutdownCoordinator, allows, ask, count, sleep, stop_service, finish,
  players_allow_shutdown, execute, stop_requested, stop_verified, powered_off, checked_eligible,
  saved,
}

module _ {W : Type 0} (c : ShutdownCoordinator W) where
  -- A completed run has come to the stop of the service.
  abbrev Reaches : ShutdownOutcome × Session W → Type 0
  Reaches o = o.0 ≡ completed → (s : Session W) × (o ≡ stop_service c s)

  execute-Reaches : (dry allow : Bool) (s : Session W) → Reaches (execute c dry allow s)
  unfolding execute players_allow_shutdown
  execute-Reaches dry allow s =
      let (fit, s1) = ask c.host.eligible checked_eligible s in
      let (before, s2) = count c s1 in
      let (kept, s3) = ask c.admin.save saved s2 in
      let (after, s5) = count c (sleep c s3) in
      if_intro Reaches dry (λ _ e. cc)
        (λ _.
          if_intro Reaches (not fit) (λ _ e. cc)
            (λ _.
              if_intro Reaches (not (allows allow before)) (λ _ e. cc)
                (λ _.
                  if_intro Reaches (not kept) (λ _ e. cc)
                    (λ _.
                      if_intro Reaches (not (allows allow after)) (λ _ e. cc)
                        (λ _ _. (s5, refl))))))

  -- A completed stop was asked for with success, and was verified.
  abbrev Stopped : Session W → ShutdownOutcome × Session W → Type 0
  Stopped s o =
      o.0 ≡ completed
      → (w w' : W) × (c.service.graceful_stop c.service_stop_timeout_seconds s.world ≡ (true, w))
        × (c.service.is_stopped w ≡ (true, w'))
        × (o.1.world ≡ (c.host.shutdown w').1)

  stop_service-Stopped : (s : Session W) → Stopped s (stop_service c s)
  unfolding stop_service finish
  stop_service-Stopped s =
      let timeout = c.service_stop_timeout_seconds in
      let (clean, s1) = ask (c.service.graceful_stop timeout) (stop_requested timeout) s in
      let (verified, s2) = ask c.service.is_stopped stop_verified s1 in
      let (off, s3) = ask c.host.shutdown powered_off s2 in
      if_intro (Stopped s) (not clean) (λ _ e. cc)
        (λ hc.
          if_intro (Stopped s) (not verified) (λ _ e. cc)
            (λ hv.
              if_intro (Stopped s) off
                (λ _ _. (
                  s1.world,
                  s2.world,
                  ap (λ b. (b, s1.world)) (ground arith),
                  ap (λ b. (b, s2.world)) (ground arith),
                  refl,
                ))
                (λ _ e. cc)))

module _ {W : Type 0} (machine : Machine W) (d : DockerComposeService)
    (b : ShutdownCoordinator (Docker machine d)) where
  -- The coordinator with the Docker service, as `build_components` makes it.
  abbrev pub with_docker : ShutdownCoordinator (Docker machine d)
  with_docker = record b { service = docker_manager machine d }

  -- One container was stopped, exited cleanly and was found again, and after that it was found and
  -- inspected once more; `l` are the calls before the stop.
  abbrev pub LeavesStopped : Docker machine d → Type 0
  LeavesStopped w =
      (identifier : String) × (l : List Call) × (middle : Docker machine d) × IsVerified machine d
        b.service_stop_timeout_seconds identifier l middle
      × IsInspected machine d identifier middle.calls w

  of_Stops :
      (timeout : ℕ) (l : List Call) (o : Bool × Docker machine d) (w : Docker machine d)
      → o ≡ (true, w)
      → Stops machine d timeout l o
      → (identifier : String) × IsVerified machine d timeout identifier l w
  of_Stops timeout l o w e h = subst (Stops machine d timeout l) e h

  of_Confirms :
      (identifier : String) (l : List Call) (o : Bool × Docker machine d) (w : Docker machine d)
      → o ≡ (true, w)
      → Confirms machine d identifier l o
      → IsInspected machine d identifier l w
  of_Confirms identifier l o w e h = subst (Confirms machine d identifier l) e h

  -- A completed shutdown with the Docker service, where the power controller makes no call of
  -- Docker, has stopped one container, has seen that it exited cleanly and is still the service's,
  -- and has then found and inspected this same container once more, which again showed a clean
  -- exit. Its last six calls of Docker are these.
  pub execute-LeavesStopped :
      (dry allow : Bool) (s : Session (Docker machine d))
      → ((w : Docker machine d) → (b.host.shutdown w).1.calls ≡ w.calls)
      → (execute with_docker dry allow s).0 ≡ completed
      → LeavesStopped (execute with_docker dry allow s).1.world
  execute-LeavesStopped dry allow s frame h =
      let (s', e) = execute-Reaches with_docker dry allow s h in
      let timeout = b.service_stop_timeout_seconds in
      let (w, w', stops, confirms, world) = stop_service-Stopped with_docker s' (cc (h, e)) in
      let (identifier, verified) =
        of_Stops timeout s'.world.calls (graceful_stop machine d timeout s'.world) w stops
          (graceful_stop-Stops machine d timeout s'.world) in
      let (q, i, found, exited, calls) =
        of_Confirms identifier w.calls (is_stopped machine d w) w' confirms
          (is_stopped-Confirms machine d identifier w verified.8) in
      (
        identifier,
        s'.world.calls,
        w,
        verified,
        (
          q,
          i,
          found,
          exited,
          ap (λ o. o.1.world.calls) e ∙ ap (λ x. x.calls) world ∙ frame w' ∙ calls,
        ),
      )
