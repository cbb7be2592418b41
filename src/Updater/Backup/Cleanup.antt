-- ===== src/Updater/Backup/Cleanup.antt =====
-- What `BackupManager.create` of src/pz_updater/core.py leaves behind.
use pz_server.Prelude.{
  ◌≡◌, refl, ◌⊎◌, inl, inr, ℕ, suc, String, ◌<>◌, true, false, not, Option, List, [], ◌∷◌, if_intro,
  arith,
}
use pz_server.Updater.Exec.{
  Failure, update_error, incompatible, os_error, other_error, killed, Result, ok, raised, Exec,
  continue, ◌>>◌, pure, try_except,
}
use pz_server.Updater.Machine.{Fate, works, fails, fails_late, dies}
use pz_server.Updater.Backup.{
  File, Backups, BackupManager, Tools, has, remove, settle, conclude, meet, unlink, make_archive,
  backup_failed, clean_up, archive_name, partial_name, create_as, create,
}

abbrev pub Absent : String → List File → Type 0
Absent name files = has name files ≡ false

remove-Absent : (name : String) (fs : List File) → Absent name (remove name fs)
remove-Absent name [] = refl
remove-Absent name (f ∷ fs) = let ih = remove-Absent name fs in ground arith

remove-keeps-Absent :
    (name other : String) (fs : List File) → Absent name fs → Absent name (remove other fs)
remove-keeps-Absent name other [] h = refl
remove-keeps-Absent name other (f ∷ fs) h =
    let ih = remove-keeps-Absent name other fs in ground arith

-- What holds after a return; an exception is no UpdateError.
abbrev Tidies : {A : Type 0} → (Backups → Type 0) → Result A × Backups → Type 0
Tidies Q (ok a, s) = Q s
Tidies Q (raised (update_error m), s) = ⊥
Tidies Q (raised (incompatible m), s) = ⊥
Tidies Q (raised (os_error n), s) = Unit
Tidies Q (raised (other_error n), s) = Unit
Tidies Q (raised killed, s) = Unit

-- No file of the attempt is left.
abbrev pub LeavesNothing : String → String → List File → Type 0
LeavesNothing archive partial files =
    Absent partial files
    × Absent archive files
    × Absent (archive <> ".sha256") files
    × Absent (archive <> ".json") files

-- After a return the partial file is gone. After an UpdateError the files are as they were, or none
-- of the attempt is left.
abbrev pub Cleans : String → String → List File → Result String × Backups → Type 0
Cleans archive partial before (ok a, s) = Absent partial s.files
Cleans archive partial before (raised (update_error m), s) =
    (s.files ≡ before) ⊎ LeavesNothing archive partial s.files
Cleans archive partial before (raised (incompatible m), s) =
    (s.files ≡ before) ⊎ LeavesNothing archive partial s.files
Cleans archive partial before (raised (os_error n), s) = Unit
Cleans archive partial before (raised (other_error n), s) = Unit
Cleans archive partial before (raised killed, s) = Unit

module _ (tools : Tools) where
  meet-Tidies :
      (f : Fate) (change : List File → List File) (Q : List File → Type 0) (s : Backups)
      → Q (change s.files)
      → Tidies (λ t. Q t.files) (meet tools f change s)
  meet-Tidies works change Q s h = h
  meet-Tidies fails change Q s h = tt
  meet-Tidies fails_late change Q s h = tt
  meet-Tidies dies change Q s h = tt

  continue-Tidies :
      (Q R : Backups → Type 0) (r : Result (Unit {0}) × Backups) (k : Exec Backups (Unit {0}))
      → Tidies Q r
      → ((s : Backups) → Q s → Tidies R (k s))
      → Tidies R (continue r.0 (λ _. k) r.1)
  continue-Tidies Q R (ok a, s) k h f = f s h
  continue-Tidies Q R (raised (os_error n), s) k h f = tt
  continue-Tidies Q R (raised (other_error n), s) k h f = tt
  continue-Tidies Q R (raised killed, s) k h f = tt
  continue-Tidies Q R (raised (update_error m), s) k h f = absurd h
  continue-Tidies Q R (raised (incompatible m), s) k h f = absurd h

  then-Tidies :
      (Q R : Backups → Type 0) (m k : Exec Backups (Unit {0})) (s : Backups)
      → Tidies Q (m s)
      → ((t : Backups) → Q t → Tidies R (k t))
      → Tidies R ((m >> k) s)
  then-Tidies Q R m k s h f = continue-Tidies Q R (m s) k h f

  -- A file is removed, and what holds of the others is kept.
  unlink-Tidies :
      (name : String) (Q : List File → Type 0) (s : Backups)
      → Q (remove name s.files)
      → Tidies (λ t. Q t.files) (unlink tools name s)
  unlink-Tidies name Q s h = meet-Tidies (tools.fate s.step) (remove name) Q s h

  clean_up-Succeeded :
      (archive partial : String) (s : Backups)
      → Tidies (λ t. Absent partial t.files) (clean_up tools archive partial true s)
  unfolding clean_up
  clean_up-Succeeded archive partial s =
      then-Tidies (λ t. Absent partial t.files) (λ t. Absent partial t.files) (unlink tools partial)
        (pure tt) s (unlink-Tidies partial (Absent partial) s (remove-Absent partial s.files))
        (λ _ h. h)

  -- Three files are removed, and a fourth stays away.
  unlinks-Tidies :
      (kept a b c : String) (s : Backups)
      → Absent kept s.files
      → Tidies
          (λ t. Absent kept t.files × Absent a t.files × Absent b t.files × Absent c t.files)
          ((unlink tools a >> unlink tools b >> unlink tools c) s)
  unlinks-Tidies kept a b c s h =
      let One : List File → Type 0 = λ fs. Absent kept fs × Absent a fs in
      let Two : List File → Type 0 = λ fs. Absent kept fs × Absent a fs × Absent b fs in
      let Three : List File → Type 0 =
        λ fs. Absent kept fs × Absent a fs × Absent b fs × Absent c fs in
      then-Tidies (λ t. Two t.files) (λ t. Three t.files) (unlink tools a >> unlink tools b)
        (unlink tools c) s
        (then-Tidies (λ t. One t.files) (λ t. Two t.files) (unlink tools a) (unlink tools b) s
          (unlink-Tidies a One s (remove-keeps-Absent kept a s.files h, remove-Absent a s.files))
          (λ t (k, x). unlink-Tidies b Two t (
            remove-keeps-Absent kept b t.files k,
            remove-keeps-Absent a b t.files x,
            remove-Absent b t.files,
          )))
        (λ t (k, x, y). unlink-Tidies c Three t (
          remove-keeps-Absent kept c t.files k,
          remove-keeps-Absent a c t.files x,
          remove-keeps-Absent b c t.files y,
          remove-Absent c t.files,
        ))

  clean_up-Failed :
      (archive partial : String) (s : Backups)
      → Tidies (λ t. LeavesNothing archive partial t.files) (clean_up tools archive partial false s)
  unfolding clean_up
  clean_up-Failed archive partial s =
      then-Tidies (λ t. Absent partial t.files) (λ t. LeavesNothing archive partial t.files)
        (unlink tools partial) _ s
        (unlink-Tidies partial (Absent partial) s (remove-Absent partial s.files))
        (λ t h. unlinks-Tidies partial archive (archive <> ".sha256") (archive <> ".json") t h)

  returned-Cleans :
      (archive partial : String) (before : List File) (a : String) (r : Result (Unit {0}) × Backups)
      → Tidies (λ t. Absent partial t.files) r
      → Cleans archive partial before (conclude (ok a) r)
  returned-Cleans archive partial before a (ok u, s) h = h
  returned-Cleans archive partial before a (raised (update_error m), s) h = absurd h
  returned-Cleans archive partial before a (raised (incompatible m), s) h = absurd h
  returned-Cleans archive partial before a (raised (os_error n), s) h = tt
  returned-Cleans archive partial before a (raised (other_error n), s) h = tt
  returned-Cleans archive partial before a (raised killed, s) h = tt

  raised-Cleans :
      (archive partial : String) (before : List File) (e : Failure)
      (r : Result (Unit {0}) × Backups)
      → Tidies (λ t. LeavesNothing archive partial t.files) r
      → Cleans archive partial before (conclude (raised e) r)
  raised-Cleans archive partial before (update_error m) (ok u, s) h = inr h
  raised-Cleans archive partial before (incompatible m) (ok u, s) h = inr h
  raised-Cleans archive partial before (os_error n) (ok u, s) h = tt
  raised-Cleans archive partial before (other_error n) (ok u, s) h = tt
  raised-Cleans archive partial before killed (ok u, s) h = tt
  raised-Cleans archive partial before e (raised (update_error m), s) h = absurd h
  raised-Cleans archive partial before e (raised (incompatible m), s) h = absurd h
  raised-Cleans archive partial before e (raised (os_error n), s) h = tt
  raised-Cleans archive partial before e (raised (other_error n), s) h = tt
  raised-Cleans archive partial before e (raised killed, s) h = tt

  settle-Cleans :
      (archive partial : String) (before : List File) (r : Result String) (s : Backups)
      → Cleans archive partial before (settle r (clean_up tools archive partial) s)
  settle-Cleans archive partial before (ok a) s =
      returned-Cleans archive partial before a _ (clean_up-Succeeded archive partial s)
  settle-Cleans archive partial before (raised (update_error m)) s =
      raised-Cleans archive partial before _ _ (clean_up-Failed archive partial s)
  settle-Cleans archive partial before (raised (incompatible m)) s =
      raised-Cleans archive partial before _ _ (clean_up-Failed archive partial s)
  settle-Cleans archive partial before (raised (os_error n)) s =
      raised-Cleans archive partial before _ _ (clean_up-Failed archive partial s)
  settle-Cleans archive partial before (raised (other_error n)) s =
      raised-Cleans archive partial before _ _ (clean_up-Failed archive partial s)
  settle-Cleans archive partial before (raised killed) s = tt

  create_as-Cleans :
      (m : BackupManager) (archive : String) (s : Backups)
      → Cleans archive (partial_name tools archive) s.files (create_as tools m archive s)
  unfolding create_as
  create_as-Cleans m archive s =
      let partial = partial_name tools archive in
      let (r, t) = try_except (make_archive tools m archive partial) (backup_failed tools) s in
      if_intro (λ (k : Result String × Backups). Cleans archive partial s.files k)
        (has archive s.files) (λ _. inl refl) (λ _. settle-Cleans archive partial s.files r t)

  -- The name that `create` gives the archive: the directory is made in one step.
  abbrev pub archive_of : Option ℕ → ℕ → Backups → String
  archive_of old_build new_build s =
      archive_name tools old_build new_build (tools.timestamp (suc s.step))

  -- `mkdir` changes none of the files.
  made-Cleans :
      (m : BackupManager) (old_build : Option ℕ) (new_build : ℕ) (f : Fate) (s : Backups)
      → let archive = archive_of old_build new_build s in
        let (r, t) = meet tools f (λ files. files) s in
        Cleans archive (partial_name tools archive) s.files (
          continue r
            (λ _ t.
              create_as tools m (archive_name tools old_build new_build (tools.timestamp t.step)) t)
            t)
  made-Cleans m old_build new_build works s =
      create_as-Cleans m (archive_of old_build new_build s) (record s { step = suc s.step })
  made-Cleans m old_build new_build fails s = tt
  made-Cleans m old_build new_build fails_late s = tt
  made-Cleans m old_build new_build dies s = tt

  -- Whatever the tools answer and whichever steps fail: where `create` returns, its partial file is
  -- gone, and where it raises an UpdateError, the files are as they were before, or neither the
  -- archive nor its checksum, its metadata and its partial file is left.
  pub create-Cleans :
      (m : BackupManager) (old_build : Option ℕ) (new_build : ℕ) (s : Backups)
      → Cleans
          (archive_of old_build new_build s)
          (partial_name tools (archive_of old_build new_build s))
          s.files
          (create tools m old_build new_build s)
  unfolding create
  create-Cleans m old_build new_build s =
      let archive = archive_of old_build new_build s in
      if_intro
        (λ (k : Result String × Backups). Cleans archive (partial_name tools archive) s.files k)
        (not m.is_data_directory) (λ _. inl refl)
        (λ _. made-Cleans m old_build new_build (tools.fate s.step) s)
