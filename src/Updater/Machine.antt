-- ===== src/Updater/Machine.antt =====
-- The machine that src/pz_updater/core.py works on: the installation root with its state file, its
-- two release pointers and its releases, and the environment that answers the code's calls.
-- Every call takes one step, and the environment may let a write fail, fail after its effect is
-- in place, or end the process, at any step.
use pz_server.Prelude.{ℕ, ◌+◌, String, Bool, Option, none, some, List, str_eq, if◌then◌else◌}
use pz_server.Updater.Exec.{
  Failure, update_error, os_error, other_error, killed, Result, ok, raised, Exec, try_except,
}
use pz_server.Updater.State.{UpdateState}

-- `works`; an OSError before the effect; an OSError after it, as from `fsync` behind
-- `os.replace`; the end of the process before it.
pub data Fate : Type 0 where
  works fails fails_late dies : Fate

-- What stands below `releases/`: a directory with its tree, a symbolic link (which leads out of
-- `releases/`, so that `relative` refuses it), or a file.
pub data Entry (T : Type 0) : Type 0 where
  directory : T → Entry T
  symlink file : Entry T

-- A file that the code refuses with an UpdateError, or one that is no UTF-8, on which `read_text`
-- raises a UnicodeDecodeError that is not caught.
pub data Refusal : Type 0 where
  malformed undecodable : Refusal

abbrev pub refusal : Refusal → String → Failure
refusal malformed message = update_error message
refusal undecodable message = other_error "UnicodeDecodeError"

-- A pointer file: missing; refused by `_read_pointer` (a link, no regular file, too large, or a
-- text that names no release); or one that names a release.
pub data PointerFile : Type 0 where
  missing : PointerFile
  unsafe : Refusal → PointerFile
  names : String → PointerFile

-- The state file: missing; refused by `StateStore.load`; or one that holds a state.
pub data StateFile : Type 0 where
  no_state : StateFile
  broken : Refusal → StateFile
  holds : UpdateState → StateFile

pub record World (T : Type 0) : Type 0 where
  pub step : ℕ
  pub store : StateFile
  pub active : PointerFile
  pub previous : PointerFile
  pub entries : String → Option (Entry T)

-- `SteamBuildMetadata`
pub record SteamBuildMetadata : Type 0 where
  pub build_id : ℕ
  pub size_on_disk : Option ℕ

-- A directory of the world's data, as `_world_has_state` sees it.
pub data DataDirectory : Type 0 where
  not_directory no_members has_members unreadable : DataDirectory

-- Answers by step number: to Steam, the launcher validator, the manifest reader, the backup
-- manager, the clock, the generators of names, and the tests of the surroundings. `torn` is what
-- an interrupted removal leaves of a tree.
pub record Environment (T : Type 0) : Type 0 where
  pub fate : ℕ → Fate
  pub torn : ℕ → T → T
  pub empty_tree : T
  pub lock_free : ℕ → Bool
  pub now : ℕ → String
  pub candidate_name : ℕ → ℕ → String
  pub final_name : ℕ → ℕ → String
  pub alternative_name : ℕ → ℕ → String
  pub latest_build : ℕ → Result ℕ
  pub install : ℕ → T → Result (Unit {0}) × T
  pub prepare : ℕ → T → Result SteamBuildMetadata × T
  pub read_metadata : ℕ → T → Result SteamBuildMetadata
  pub create_backup : ℕ → Result String
  pub server_running : ℕ → Bool
  pub deployment_pending : ℕ → Bool
  pub free_space : ℕ → Option ℕ
  pub data_directories : ℕ → List DataDirectory

module _ {T : Type 0} where
  abbrev pub advance : World T → World T
  advance w = record w { step = w.step + 1 }

  abbrev pub update :
      (String → Option (Entry T)) → String → Option (Entry T) → String → Option (Entry T)
  update f n e m = if str_eq n m then e else f m

  abbrev pub set_entry : String → Option (Entry T) → World T → World T
  set_entry n e w = record w { entries = update w.entries n e }

module _ {T : Type 0} (env : Environment T) where
  -- A write of the file system, which takes effect as a whole or not at all.
  unfoldable pub attempt : (World T → World T) → Exec (World T) (Unit {0})
  attempt effect w = elim (env.fate w.step) [
    | works ↦ (ok tt, effect (advance w))
    | fails ↦ (raised (os_error "OSError"), advance w)
    | fails_late ↦ (raised (os_error "OSError"), effect (advance w))
    | dies ↦ (raised killed, advance w)
  ]

  -- A read of the file system.
  unfoldable pub attempt_read : Exec (World T) (Unit {0})
  attempt_read w = elim (env.fate w.step) [
    | works ↦ (ok tt, advance w)
    | fails ↦ (raised (os_error "OSError"), advance w)
    | fails_late ↦ (raised (os_error "OSError"), advance w)
    | dies ↦ (raised killed, advance w)
  ]

  -- The removal of a directory, which may stop in the middle.
  unfoldable pub remove_directory : String → T → Exec (World T) (Unit {0})
  remove_directory n t w =
      let torn = set_entry n (some (directory (env.torn w.step t))) (advance w) in
      elim (env.fate w.step) [
        | works ↦ (ok tt, set_entry n none (advance w))
        | fails ↦ (raised (os_error "OSError"), torn)
        | fails_late ↦ (raised (os_error "OSError"), torn)
        | dies ↦ (raised killed, torn)
      ]

  unfoldable pub remove_entry : Option (Entry T) → String → Exec (World T) (Unit {0})
  unfolding remove_directory
  remove_entry none n w = (raised (os_error "FileNotFoundError"), advance w)
  remove_entry (some (directory t)) n w = remove_directory n t w
  remove_entry (some symlink) n w = (raised (os_error "OSError"), advance w)
  remove_entry (some file) n w = (raised (os_error "NotADirectoryError"), advance w)

  -- `shutil.rmtree(path)`
  unfoldable pub remove_tree : String → Exec (World T) (Unit {0})
  unfolding remove_entry
  remove_tree n w = remove_entry (w.entries n) n w

  -- `shutil.rmtree(path, ignore_errors=True)`
  abbrev pub ignore_errors : Failure → Exec (World T) (Unit {0})
  ignore_errors killed w = (raised killed, w)
  ignore_errors _ w = (ok tt, w)

  unfoldable pub remove_tree_quietly : String → Exec (World T) (Unit {0})
  unfolding remove_tree
  remove_tree_quietly n = try_except (remove_tree n) ignore_errors

  -- A call on the tree of a release.
  unfoldable pub on_entry :
      {A : Type 0} → Option (Entry T) → String → (T → Result A × T) → Exec (World T) A
  on_entry none n call w = (raised (update_error "Candidate is incomplete"), advance w)
  on_entry (some (directory t)) n call w =
      let (r, t') = call t in (r, set_entry n (some (directory t')) (advance w))
  on_entry (some symlink) n call w = (raised (update_error "Candidate is incomplete"), advance w)
  on_entry (some file) n call w = (raised (update_error "Candidate is incomplete"), advance w)

  unfoldable pub on_tree : {A : Type 0} → String → (T → Result A × T) → Exec (World T) A
  unfolding on_entry
  on_tree n call w = on_entry (w.entries n) n call w

  -- `LauncherValidator.prepare(release, xms, xmx)`
  abbrev pub prepare_launcher : String → Exec (World T) SteamBuildMetadata
  prepare_launcher n w = on_tree n (env.prepare w.step) w

  -- `read_installed_metadata(release, app_id)`
  abbrev pub read_installed_metadata : String → Exec (World T) SteamBuildMetadata
  read_installed_metadata n w = on_tree n (λ t. (env.read_metadata w.step t, t)) w

  -- A question to the environment that cannot fail.
  abbrev pub consult : {A : Type 0} → (ℕ → A) → Exec (World T) A
  consult question w = (ok (question w.step), advance w)

  -- A question that may raise.
  abbrev pub request : {A : Type 0} → (ℕ → Result A) → Exec (World T) A
  request question w = (question w.step, advance w)
