-- ===== src/Updater/Backup.antt =====
-- src/pz_updater/core.py, `BackupManager`: `create` and `_prune`, on the files of the backup
-- directory. What tarfile, hashlib and the pattern of `glob` answer are parameters.
pub mod Cleanup
mod Tests
use pz_server.Prelude.{
  ℕ, zero, suc, String, ◌<>◌, Bool, true, false, not, ◌||◌, Option, none, some, List, [], ◌∷◌, ltb,
  str_eq, if◌then◌else◌,
}
use pz_server.Prelude.Integers.{show}
use pz_server.Updater.Exec.{
  Failure, update_error, incompatible, os_error, other_error, killed, Result, ok, raised, Exec,
  ◌>>=◌, ◌>>◌, pure, raise, try_except,
}
use pz_server.Updater.Machine.{Fate, works, fails, fails_late, dies}

-- A file of the backup directory, with the time of its last change.
pub record File : Type 0 where
  pub name : String
  pub modified : ℕ

pub record Backups : Type 0 where
  pub step : ℕ
  pub files : List File

pub record BackupManager : Type 0 where
  pub retention : ℕ
  pub is_data_directory : Bool

-- What is called, by the number of the step.
pub record Tools : Type 0 where
  pub fate : ℕ → Fate
  pub is_tar_error : String → Bool
  pub is_archive : String → Bool
  pub process : String
  pub timestamp : ℕ → String
  pub modified : ℕ → ℕ
  pub pack : ℕ → Result (Unit {0})
  pub holds_data : ℕ → Result Bool
  pub sha256 : ℕ → Result String
  pub inspect : ℕ → Result (Unit {0})

abbrev pub has : String → List File → Bool
has name [] = false
has name (f ∷ fs) = let rest = has name fs in str_eq f.name name || rest

abbrev pub remove : String → List File → List File
remove name [] = []
remove name (f ∷ fs) = let rest = remove name fs in if str_eq f.name name then rest else f ∷ rest

abbrev pub put : String → ℕ → List File → List File
put name modified fs = record { name = name; modified = modified } ∷ remove name fs

-- `os.replace(old, new)`, of a file that keeps its time
abbrev pub replace : String → String → ℕ → List File → List File
replace old new modified fs = put new modified (remove old fs)

-- `sorted(..., reverse=True)` by the time of the last change, which keeps the order of equals
abbrev pub insert : File → List File → List File
insert f [] = f ∷ []
insert f (g ∷ gs) =
    let rest = insert f gs in if ltb f.modified g.modified then g ∷ rest else f ∷ g ∷ gs

abbrev pub newest_first : List File → List File
newest_first [] = []
newest_first (f ∷ fs) = insert f (newest_first fs)

-- `archives[self.retention :]`
abbrev pub beyond : ℕ → List File → List File
beyond zero fs = fs
beyond (suc n) [] = []
beyond (suc n) (f ∷ fs) = beyond n fs

abbrev pub listed : (String → Bool) → List File → List File
listed matches [] = []
listed matches (f ∷ fs) = let rest = listed matches fs in if matches f.name then f ∷ rest else rest

-- A `finally` clause, which is told whether the block has returned. The end of the process runs
-- none, and an exception of the clause takes the place of the outcome.
abbrev pub conclude : {A : Type 0} → Result A → Result (Unit {0}) × Backups → Result A × Backups
conclude r (ok u, s) = (r, s)
conclude r (raised e, s) = (raised e, s)

abbrev pub settle : {A : Type 0} → Result A → (Bool → Exec Backups (Unit {0})) → Exec Backups A
settle (ok a) clause s = conclude (ok a) (clause true s)
settle (raised (update_error m)) clause s = conclude (raised (update_error m)) (clause false s)
settle (raised (incompatible m)) clause s = conclude (raised (incompatible m)) (clause false s)
settle (raised (os_error n)) clause s = conclude (raised (os_error n)) (clause false s)
settle (raised (other_error n)) clause s = conclude (raised (other_error n)) (clause false s)
settle (raised killed) clause s = (raised killed, s)

abbrev pub try_finally :
    {A : Type 0} → Exec Backups A → (Bool → Exec Backups (Unit {0})) → Exec Backups A
try_finally m clause s = let (r, s') = m s in settle r clause s'

module _ (tools : Tools) where
  -- A step that changes the files.
  abbrev pub meet : Fate → (List File → List File) → Exec Backups (Unit {0})
  meet works change s = (ok tt, record { step = suc s.step; files = change s.files })
  meet fails change s = (raised (os_error "OSError"), record s { step = suc s.step })
  meet fails_late change s =
      (raised (os_error "OSError"), record { step = suc s.step; files = change s.files })
  meet dies change s = (raised killed, s)

  abbrev pub act : (List File → List File) → Exec Backups (Unit {0})
  act change s = meet (tools.fate s.step) change s

  -- A step that reads.
  abbrev pub ask : {A : Type 0} → (ℕ → Result A) → Exec Backups A
  ask answer s = (answer s.step, record s { step = suc s.step })

  -- `path.unlink(missing_ok=True)`
  abbrev pub unlink : String → Exec Backups (Unit {0})
  unlink name = act (remove name)

  abbrev pub unlink_found : String → Exec Backups (Unit {0})
  unlink_found name s =
      if has name s.files then unlink name s else (raised (os_error "FileNotFoundError"), s)

  abbrev pub unlink_all : List File → Exec Backups (Unit {0})
  unlink_all [] = pure tt
  unlink_all (f ∷ fs) =
      unlink_found f.name
      >> unlink (f.name <> ".sha256")
      >> unlink (f.name <> ".json")
      >> unlink_all fs

  -- `_prune`
  unfoldable pub prune : BackupManager → Exec Backups (Unit {0})
  prune m = ask tools.inspect >> λ s.
      unlink_all (beyond m.retention (newest_first (listed tools.is_archive s.files))) s

  abbrev pub write_file : String → Exec Backups (Unit {0})
  write_file name s = act (put name (tools.modified s.step)) s

  abbrev pub unchanged : Exec Backups (Unit {0})
  unchanged = act (λ files. files)

  abbrev pub require : Bool → String → Exec Backups (Unit {0})
  require holds message = if holds then pure tt else raise (update_error message)

  -- The `try` block of `create`, for the archive and the partial file.
  unfoldable pub make_archive : BackupManager → String → String → Exec Backups String
  unfolding prune
  make_archive m archive partial = do
    packed_at ← λ s. (ok (tools.modified s.step), s)
    write_file partial
    ask tools.pack
    unchanged
    found ← ask tools.holds_data
    require found "Pre-update backup verification found no data tree"
    digest ← ask tools.sha256
    unchanged
    act (replace partial archive packed_at)
    unchanged
    write_file (archive <> ".sha256")
    write_file (archive <> ".json")
    again ← ask tools.sha256
    require (str_eq again digest) "Pre-update backup checksum verification failed"
    prune m
    pure archive

  -- `except (OSError, tarfile.TarError)`
  abbrev pub backup_failed : Failure → Exec Backups String
  backup_failed (os_error n) = raise (update_error ("Pre-update backup failed: " <> n))
  backup_failed (other_error n) =
      if tools.is_tar_error n
      then raise (update_error ("Pre-update backup failed: " <> n))
      else raise (other_error n)
  backup_failed (update_error m) = raise (update_error m)
  backup_failed (incompatible m) = raise (incompatible m)
  backup_failed killed = raise killed

  -- The `finally` clause
  unfoldable pub clean_up : String → String → Bool → Exec Backups (Unit {0})
  clean_up archive partial succeeded =
      unlink partial
      >> (if succeeded
          then pure tt
          else unlink archive >> unlink (archive <> ".sha256") >> unlink (archive <> ".json"))

  abbrev pub label : Option ℕ → String
  label none = "unknown"
  label (some build) = show build

  abbrev pub archive_name : Option ℕ → ℕ → String → String
  archive_name old_build new_build time =
      "pz-pre-update-" <> label old_build <> "-to-" <> show new_build <> "-" <> time <> ".tar.gz"

  abbrev pub partial_name : String → String
  partial_name archive = "." <> archive <> "." <> tools.process <> ".partial"

  unfoldable pub create_as : BackupManager → String → Exec Backups String
  unfolding make_archive clean_up
  create_as m archive s =
      if has archive s.files
      then (raised (update_error "Pre-update backup filename collision"), s)
      else try_finally (try_except (make_archive m archive (partial_name archive)) backup_failed)
          (clean_up archive (partial_name archive)) s

  -- `create`
  unfoldable pub create : BackupManager → Option ℕ → ℕ → Exec Backups String
  unfolding create_as
  create m old_build new_build s =
      if not m.is_data_directory
      then (raised (update_error "Project Zomboid data directory is missing"), s)
      else (unchanged >> λ t.
            create_as m (archive_name old_build new_build (tools.timestamp t.step)) t)
          s
