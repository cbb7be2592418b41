-- ===== src/Watchdog/Shutdown/Tests.antt =====
-- The coordinator and the power controller of src/pz_watchdog/shutdown.py on concrete collaborators.
use pz_server.Prelude.{Bool, true, false, some, [], ◌∷◌, ◌≡◌, refl}
use pz_server.Prelude.Text.{strip}
use pz_server.Watchdog.Models.{known, healthy, completed}
use pz_server.Watchdog.Shutdown.{
  Host, SystemdPowerController, is_eligible, power_off, checked_eligible, counted, saved, slept,
  stop_requested, stop_verified, powered_off, started, Session, ShutdownCoordinator, execute,
}
use pz_server.Watchdog.Shutdown.Order.{Ends, execute-Ends}
use pz_server.Watchdog.Shutdown.Power.{IsArmed, power_off-IsArmed}

-- The world says whether the host powers off.
abbrev coordinator : ShutdownCoordinator Bool
coordinator = record {
  players = record { query = λ w. (known 0, w) };
  admin = record { save = λ w. (true, w) };
  service = record {
    health = λ w. (healthy, w);
    restart = λ w. (true, w);
    graceful_stop = λ _ w. (true, w);
    is_stopped = λ w. (true, w);
    start = λ w. (true, w);
  };
  host = record { eligible = λ w. (true, w); shutdown = λ w. (w, w) };
  sleeper = record { sleep = λ _ w. w };
  service_stop_timeout_seconds = 120;
  save_settle_seconds = 10;
}

abbrev at_start : Bool → Session Bool
at_start w = record { world = w; acts = [] }

completes : execute coordinator false false (at_start true) ≡ (
  completed,
  record {
    world = true;
    acts =
        powered_off true
        ∷ stop_verified true
        ∷ stop_requested 120 true
        ∷ counted (known 0)
        ∷ slept 10
        ∷ saved true
        ∷ counted (known 0)
        ∷ checked_eligible true
        ∷ [];
  },
)
unfolding execute
completes = refl

recovers :
    (execute coordinator false false (at_start false)).1.acts
    ≡ started true
      ∷ powered_off false
      ∷ stop_verified true
      ∷ stop_requested 120 true
      ∷ counted (known 0)
      ∷ slept 10
      ∷ saved true
      ∷ counted (known 0)
      ∷ checked_eligible true
      ∷ []
unfolding execute
recovers = refl

execute-Ends_example :
    Ends coordinator false false [] (execute coordinator false false (at_start true))
execute-Ends_example = execute-Ends coordinator false false (at_start true)

abbrev armed_host : Host (Unit {0})
armed_host = record {
  inspect = λ w. (
    record {
      os_name = "posix";
      system = "Linux";
      guard_file = some (record {
        is_regular = true;
        owner = 0;
        permissions = 0o600;
        content = "PZ_HOST_SHUTDOWN=ENABLED\n";
      });
    },
    w,
  );
  poweroff = λ w. (some 0, w);
}

abbrev on_aws : SystemdPowerController
on_aws = record { deployment_environment = "aws"; enabled = true }

powers_off : (power_off armed_host on_aws tt).0 ≡ true
unfolding power_off is_eligible strip
powers_off = refl

power_off-IsArmed_example :
    IsArmed on_aws (armed_host.inspect tt).0
    × ((armed_host.poweroff (armed_host.inspect tt).1).0 ≡ some 0)
power_off-IsArmed_example = power_off-IsArmed armed_host on_aws tt powers_off
