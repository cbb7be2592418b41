-- ===== src/Updater/Layout.antt =====
-- `StateStore`, `ReleaseLayout` and `TransactionLock` of src/pz_updater/core.py, over the machine.
-- A release is the name of its directory below `releases/`. `_read_pointer` and `load` read what
-- `PointerFile` and `StateFile` have sorted.
use pz_server.Prelude.{
  ℕ, String, Bool, true, false, ◌||◌, Option, none, some, str_eq, if◌then◌else◌,
}
use pz_server.Updater.Exec.{
  Failure, update_error, incompatible, os_error, other_error, killed, Result, ok, raised, Exec,
  ◌>>=◌, ◌>>◌, pure, raise, try_except,
}
use pz_server.Updater.State.{UpdateState, Value, release, fresh}
use pz_server.Updater.Machine.{
  Entry, directory, symlink, file, PointerFile, missing, unsafe, refusal, names, StateFile,
  no_state, broken, holds, World, Environment, advance, set_entry, attempt, attempt_read,
  remove_tree,
}

-- `except OSError as error: raise UpdateError(message) from error`
abbrev pub wrap_os_error : {S A : Type 0} → String → Failure → S → Result A × S
wrap_os_error message (os_error _) = raise (update_error message)
wrap_os_error message (update_error d) = raise (update_error d)
wrap_os_error message (incompatible d) = raise (incompatible d)
wrap_os_error message (other_error d) = raise (other_error d)
wrap_os_error message killed = raise killed

module _ {T : Type 0} where
  -- `ReleaseLayout.relative`, for a path below `releases/`
  unfoldable pub relative : String → Exec (World T) Value
  relative n w =
      if str_eq n "." || str_eq n ".."
      then (raised (update_error "Release pointer must identify one direct managed release"), w)
      else elim (w.entries n) [
        | none ↦ (ok (release n), w)
        | some x ↦ elim x [
          | directory _ ↦ (ok (release n), w)
          | file ↦ (ok (release n), w)
          | symlink ↦
              (raised (update_error "Release path escaped the managed installation root"), w)
        ]
      ]

  -- What `_read_pointer` makes of a pointer that it could read.
  unfoldable pub resolve : PointerFile → Exec (World T) (Option String)
  unfolding relative
  resolve missing w = (ok none, w)
  resolve (unsafe why) w = (raised (refusal why "not a safe regular file"), w)
  resolve (names n) w = elim (w.entries n) [
    | none ↦ (raised (update_error "points to a missing release"), w)
    | some x ↦ elim x [
      | directory _ ↦ (relative n >>= λ _. pure (some n)) w
      | symlink ↦ (raised (update_error "Release path escaped the managed installation root"), w)
      | file ↦ (raised (update_error "points to a missing release"), w)
    ]
  ]

  unfoldable pub parse_store : StateFile → Exec (World T) UpdateState
  parse_store no_state = pure fresh
  parse_store (broken why) = raise (refusal why "Update state is unreadable")
  parse_store (holds s) = pure s

  -- `path.exists()`, for a path that is no link
  abbrev pub exists : String → World T → Bool
  exists n w = elim (w.entries n) [ none ↦ false | some _ ↦ true ]

  -- `path.is_symlink()`
  abbrev pub is_symlink : String → World T → Bool
  is_symlink n w = elim (w.entries n) [
    | none ↦ false
    | some x ↦ elim x [ directory _ ↦ false | symlink ↦ true | file ↦ false ]
  ]

module _ {T : Type 0} (env : Environment T) where
  -- `StateStore.load`
  unfoldable pub load : Exec (World T) UpdateState
  unfolding attempt_read parse_store
  load = try_except (attempt_read env) (wrap_os_error "Update state is unreadable") >>= λ _ w.
      parse_store w.store w

  -- `StateStore.write`
  unfoldable pub write : UpdateState → Exec (World T) UpdateState
  unfolding attempt
  write s =
      try_except (attempt env (λ w. record w { store = holds s }))
        (wrap_os_error "Could not persist update state")
      >> pure s

  -- `ReleaseLayout.active`
  unfoldable pub read_active : Exec (World T) (Option String)
  unfolding attempt_read resolve
  read_active =
      try_except (attempt_read env) (wrap_os_error "Could not read active-release") >>= λ _ w.
      resolve w.active w

  -- `ReleaseLayout.previous`
  unfoldable pub read_previous : Exec (World T) (Option String)
  unfolding attempt_read resolve
  read_previous =
      try_except (attempt_read env) (wrap_os_error "Could not read previous-release") >>= λ _ w.
      resolve w.previous w

  unfoldable pub write_active : String → Exec (World T) (Unit {0})
  unfolding relative attempt
  write_active n = relative n >>= λ _. attempt env (λ w. record w { active = names n })

  unfoldable pub write_previous : Option String → Exec (World T) (Unit {0})
  unfolding relative attempt
  write_previous none = attempt env (λ w. record w { previous = missing })
  write_previous (some n) = relative n >>= λ _. attempt env (λ w. record w { previous = names n })

  -- `ReleaseLayout.ensure`: the two `mkdir` calls, and the active release.
  unfoldable pub ensure : Exec (World T) (Option String)
  unfolding attempt read_active
  ensure = attempt env (λ w. w) >> (attempt env (λ w. w) >> read_active)

  -- `os.replace(candidate, final)`, which fails unless the one exists and the other does not.
  unfoldable pub rename_entry : Option (Entry T) → String → String → Exec (World T) (Unit {0})
  unfolding attempt
  rename_entry none from to = λ w. (raised (os_error "FileNotFoundError"), advance w)
  rename_entry (some x) from to = λ w.
      (if exists to w
          then (λ v. (raised (os_error "OSError"), advance v))
          else attempt env (λ v. set_entry to (some x) (set_entry from none v)))
        w

  unfoldable pub rename : String → String → Exec (World T) (Unit {0})
  unfolding rename_entry
  rename from to w = rename_entry (w.entries from) from to w

  unfoldable pub promote_candidate : String → String → Exec (World T) (Unit {0})
  unfolding relative rename
  promote_candidate candidate final =
      relative candidate >>= λ _. relative final >>= λ _. rename candidate final

  -- `_unique_release`, with the name to take where this one is taken
  abbrev pub unique_release : String → String → World T → String
  unique_release name alternative w = if exists name w then alternative else name

  unfoldable pub final_release : ℕ → Exec (World T) String
  final_release build w =
      let name = env.final_name w.step build in
      let alternative = env.alternative_name w.step build in
      (ok (unique_release name alternative w), advance w)

  unfoldable pub discard : String → Option String → Exec (World T) (Unit {0})
  unfolding remove_tree
  discard active none = pure tt
  discard active (some p) = if str_eq p active then pure tt else remove_tree env p

  unfoldable pub discard_old_previous : String → Exec (World T) (Unit {0})
  unfolding read_previous discard write_previous
  discard_old_previous active = do
    previous ← read_previous
    discard active previous
    write_previous none

  -- `candidate.mkdir(parents=True)`
  unfoldable pub make_directory : String → Exec (World T) (Unit {0})
  unfolding attempt
  make_directory n w =
      if exists n w
      then (raised (os_error "FileExistsError"), advance w)
      else attempt env (λ v. set_entry n (some (directory env.empty_tree)) v) w

  -- `TransactionLock.__enter__`: the `mkdir` of the parent, whose OSError is not caught, and the lock.
  unfoldable pub acquire : Exec (World T) (Unit {0})
  unfolding attempt
  acquire = attempt env (λ w. w) >> λ w. if env.lock_free w.step then (ok tt, advance w) else (
    raised (update_error "Another game update transaction is active or unavailable"),
    advance w,
  )

  -- `with TransactionLock(path): …`. The lock is released in every case.
  unfoldable pub with_lock : {A : Type 0} → Exec (World T) A → Exec (World T) A
  unfolding acquire
  with_lock body = acquire >> body
