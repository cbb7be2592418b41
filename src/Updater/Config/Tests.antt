-- ===== src/Updater/Config/Tests.antt =====
-- The configuration of src/pz_updater/core.py from concrete environments.
use pz_server.Prelude.{◌≡◌, refl, ◌-◌, ◌&&◌, false, none, some, [], ◌∷◌, leb, if◌then◌else◌}
use pz_server.Prelude.Integers.{Unicode, show}
use pz_server.Prelude.Checked.{valid, invalid}
use pz_server.Prelude.Environment.{Environment}
use pz_server.Updater.Update.{stable_on_start}
use pz_server.Updater.Config.{UpdateConfiguration, from_environment, heap_size}
use pz_server.Updater.Config.Bounds.{KeepsEmptiness, IsConsistent, from_environment-IsConsistent}

-- The ASCII digits; no letter is changed.
abbrev ascii : Unicode
ascii = record {
  decimal = λ c. if leb 48 c && leb c 57 then some (c - 48) else none;
  lower = λ s. s;
}

keeps_emptiness : KeepsEmptiness ascii []
keeps_emptiness s = refl

abbrev supplied : Environment
supplied =
    ("ALLOW_AUTO_UPDATE_WITH_MODS", "no")
    ∷ ("PZ_XMS", " 512m ")
    ∷ ("PZ_XMX", "4g")
    ∷ ("STEAM_APP_ID", "380870")
    ∷ ("PZ_PRE_UPDATE_BACKUP_RETENTION", "5")
    ∷ []

abbrev configuration : UpdateConfiguration
configuration = record {
  install_root = "/opt/pzserver";
  data_root = "/home/pz/Zomboid";
  backup_root = "/backups";
  steamcmd = "/opt/steamcmd/steamcmd.sh";
  app_id = 380870;
  branch = "";
  branch_password = "";
  policy = stable_on_start;
  allow_auto_update_with_mods = false;
  mods = "";
  workshop_items = "";
  backup_retention = 5;
  pz_xms = "512m";
  pz_xmx = "4g";
  deployment_environment = "local";
  repository_deployment_marker = "/run/pz-deploy/deployment-pending";
}

is_read : from_environment ascii supplied ≡ valid configuration
unfolding from_environment show
is_read = refl

refuses_small_heap :
    from_environment ascii (("PZ_XMX", "1g") ∷ ("STEAM_APP_ID", "380870") ∷ [])
    ≡ invalid "PZ_XMS must not exceed PZ_XMX"
unfolding from_environment show
refuses_small_heap = refl

refuses_zero :
    heap_size ascii (("PZ_XMX", "0g") ∷ []) "PZ_XMX" "8g"
    ≡ invalid "PZ_XMX must be a positive integer followed by g or m"
unfolding heap_size
refuses_zero = refl

from_environment-IsConsistent_example : IsConsistent ascii supplied configuration
from_environment-IsConsistent_example =
    from_environment-IsConsistent ascii supplied configuration keeps_emptiness is_read
