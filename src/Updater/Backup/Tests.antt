-- ===== src/Updater/Backup/Tests.antt =====
-- The backups of src/pz_updater/core.py in a concrete directory. The time is the number of the step.
use pz_server.Prelude.{
  ◌≡◌, refl, ℕ, ◌==◌, String, ◌<>◌, Bool, true, false, some, [], ◌∷◌, if◌then◌else◌,
}
use pz_server.Prelude.Environment.{is_one_of}
use pz_server.Prelude.Integers.{show}
use pz_server.Updater.Exec.{Result, ok, raised, update_error}
use pz_server.Updater.Machine.{Fate, works, fails}
use pz_server.Updater.Backup.{Backups, BackupManager, Tools, has, create, partial_name}
use pz_server.Updater.Backup.Cleanup.{Cleans, archive_of, create-Cleans}

abbrev older : String
older = "pz-pre-update-9-to-10-S.tar.gz"

abbrev newer : String
newer = "pz-pre-update-10-to-11-S.tar.gz"

abbrev tools : (ℕ → Fate) → Tools
tools fate = record {
  fate = fate;
  is_tar_error = λ n. false;
  is_archive = is_one_of ("pz-pre-update-11-to-12-T.tar.gz" ∷ older ∷ newer ∷ []);
  process = "7";
  timestamp = λ n. "T";
  modified = λ n. n;
  pack = λ n. ok tt;
  holds_data = λ n. ok true;
  sha256 = λ n. ok "ab";
  inspect = λ n. ok tt;
}

abbrev reliable : Tools
reliable = tools (λ _. works)

-- The file of the metadata cannot be written.
abbrev unreliable : Tools
unreliable = tools (λ n. if n == 10 then fails else works)

abbrev manager : BackupManager
manager = record { retention = 2; is_data_directory = true }

abbrev empty : Backups
empty = record { step = 0; files = [] }

abbrev archive : String
archive = "pz-pre-update-11-to-12-T.tar.gz"

abbrev left : Result String × Backups → Bool × Bool
left (_, s) = (has archive s.files, has (archive <> ".sha256") s.files)

makes : (create reliable manager (some 11) 12 empty).0 ≡ ok archive
unfolding create show
makes = refl

keeps : left (create reliable manager (some 11) 12 empty) ≡ (true, true)
unfolding create show
keeps = refl

gives_up :
    (create unreliable manager (some 11) 12 empty).0
    ≡ raised (update_error "Pre-update backup failed: OSError")
unfolding create show
gives_up = refl

removes : left (create unreliable manager (some 11) 12 empty) ≡ (false, false)
unfolding create show
removes = refl

-- Two archives whose time of change is ahead of the clock.
abbrev ahead : Backups
ahead = record {
  step = 0;
  files = record { name = older; modified = 900 } ∷ record { name = newer; modified = 901 } ∷ [];
}

-- `_prune` removes the archive that was just made, and `create` returns it.
returns_pruned :
    ((create reliable manager (some 11) 12 ahead).0 ≡ ok archive)
    × (left (create reliable manager (some 11) 12 ahead) ≡ (false, false))
unfolding create show
returns_pruned = (refl, refl)

create-Cleans_example :
    Cleans
      (archive_of unreliable (some 11) 12 empty)
      (partial_name unreliable (archive_of unreliable (some 11) 12 empty))
      []
      (create unreliable manager (some 11) 12 empty)
create-Cleans_example = create-Cleans unreliable manager (some 11) 12 empty
