-- ===== src/Watchdog/Shutdown/Power.antt =====
-- When the power controller may power the host off.
use text.Mathlib.TextEquality.{eq_iff}
use pz_server.Prelude.{◌≡◌, refl, ◌≢◌, true, Option, none, some, arith}
use pz_server.Prelude.Text.{strip}
use pz_server.Watchdog.Shutdown.{
  GuardFile, HostFacts, Host, SystemdPowerController, is_guard, is_eligible, power_off,
}

-- The guard file is a regular file of root with mode 0600 and the agreed content.
pub record IsGuard (g : GuardFile) : Type 0 where
  pub regular : g.is_regular ≡ true
  pub owned_by_root : g.owner ≡ 0
  pub mode : g.permissions ≡ 0o600
  pub says_enabled : strip g.content ≡ "PZ_HOST_SHUTDOWN=ENABLED"

-- Everything that arms the power-off.
pub record IsArmed (c : SystemdPowerController) (facts : HostFacts) : Type 0 where
  pub not_windows : facts.os_name ≢ "nt"
  pub linux : facts.system ≡ "Linux"
  pub aws : c.deployment_environment ≡ "aws"
  pub enabled : c.enabled ≡ true
  pub guarded : (g : GuardFile) × (facts.guard_file ≡ some g) × IsGuard g

is_guard-IsGuard : (g : GuardFile) → is_guard g ≡ true → IsGuard g
unfolding is_guard
is_guard-IsGuard g h = ground (arith, eq_iff (strip g.content) "PZ_HOST_SHUTDOWN=ENABLED")

IsGuard-of :
    (c : SystemdPowerController) (facts : HostFacts) (o : Option GuardFile)
    → facts.guard_file ≡ o
    → is_eligible c facts ≡ true
    → (g : GuardFile) × (facts.guard_file ≡ some g) × IsGuard g
unfolding is_eligible
IsGuard-of c facts none e h = ground arith
IsGuard-of c facts (some g) e h = (g, e, is_guard-IsGuard g (ground arith))

is_eligible-IsArmed :
    (c : SystemdPowerController) (facts : HostFacts) → is_eligible c facts ≡ true → IsArmed c facts
unfolding is_eligible
is_eligible-IsArmed c facts h = record {
  not_windows = ground (arith, eq_iff facts.os_name "nt");
  linux = ground (arith, eq_iff facts.system "Linux");
  aws = ground (arith, eq_iff c.deployment_environment "aws");
  enabled = ground arith;
  guarded = IsGuard-of c facts facts.guard_file refl h;
}

module _ {W : Type 0} (host : Host W) (c : SystemdPowerController) where
  -- A power-off that reports success has read an armed host just before it ran `systemctl`, which
  -- exited with status 0.
  pub power_off-IsArmed :
      (w : W)
      → (power_off host c w).0 ≡ true
      → IsArmed c (host.inspect w).0 × ((host.poweroff (host.inspect w).1).0 ≡ some 0)
  unfolding power_off
  power_off-IsArmed w h = (is_eligible-IsArmed c (host.inspect w).0 (ground arith), ground arith)
