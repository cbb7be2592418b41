-- ===== src/Updater/Soundness/Waiting.antt =====
-- `_wait_runtime_ready` of src/pz_updater/cli.py keeps the invariant of the machine.
use pz_server.Prelude.{ℕ, zero, suc, ◌+◌, String, not, ◌&&◌, ltb, leb, if_intro, str_eq}
use pz_server.Prelude.Text.{is_empty}
use pz_server.Prelude.Integers.{ℤ, pos, negsuc}
use pz_server.Prelude.Environment.{get_or}
use pz_server.Watchdog.Processes.{monotonic}
use pz_server.Updater.Cli.{
  Runtime, State, Awaited, updater, of_checked, give, ask_rcon, environment_integer, query_players,
  fingerprint, fresh_version, become_ready, fail_with, pause_until, after_query, await,
  start_waiting, wait_runtime_ready,
}
use pz_server.Updater.Cli.Commands.{quietly}
use pz_server.Updater.Exec.{
  update_error, incompatible, os_error, other_error, killed, Result, ok, raised, Exec, ◌>>=◌, ◌>>◌,
  pure, raise,
}
use pz_server.Updater.Lifecycle.{mark_runtime_ready, fail_readiness, status}
use pz_server.Updater.Machine.{World, Environment}
use pz_server.Updater.Update.{Configuration}
use pz_server.Updater.Soundness.Rules.{Meets, bind-Meets, both-Meets}
use pz_server.Updater.Soundness.Invariant.{IsSound}
use pz_server.Updater.Soundness.Operations.{mark_runtime_ready-IsSound, fail_readiness-IsSound}
use pz_server.Updater.Soundness.Reading.{status-IsSound}

module _ {T W : Type 0} (env : Environment T) (rt : Runtime W) where
  abbrev pub Here : Type 0
  Here = State env rt

  abbrev pub HoldsIn : Here → Type 0
  HoldsIn s = IsSound s.memory

  -- Sound after a return, and after an exception.
  abbrev pub Ends : {A : Type 0} → Result A × Here → Type 0
  Ends r = Meets (λ _ s. HoldsIn s) HoldsIn r

  pub then-Ends :
      {A B : Type 0} (m : Exec Here A) (f : A → Exec Here B) (s : Here)
      → Ends (m s)
      → ((a : A) (s' : Here) → HoldsIn s' → Ends (f a s'))
      → Ends ((m >>= f) s)
  then-Ends m f s h k = bind-Meets (λ _ s. HoldsIn s) (λ _ s. HoldsIn s) HoldsIn m f s h k

  pub updater-Ends :
      {A : Type 0} (call : Exec (World T) A) (s : Here)
      → IsSound (call s.memory).1
      → Ends (updater env rt call s)
  updater-Ends call s h =
      let (r, m) = call s.memory in
      both-Meets (λ _ s. HoldsIn s) (λ _ s. HoldsIn s) HoldsIn HoldsIn r (record s { memory = m })
        (λ _. h) h

  give-Ends : {A : Type 0} (r : Result A) (s : Here) → HoldsIn s → Ends (r, s)
  give-Ends r s h = both-Meets (λ _ s. HoldsIn s) (λ _ s. HoldsIn s) HoldsIn HoldsIn r s (λ _. h) h

  pub quietly-Ends :
      {A : Type 0} (call : Exec (World T) A) (s : Here)
      → IsSound (call s.memory).1
      → Ends (quietly env rt call s)
  quietly-Ends call s h =
      then-Ends (updater env rt call) (λ _. pure tt) s (updater-Ends call s h) (λ _ _ k. k)

  query_players-Ends : (s : Here) → HoldsIn s → Ends (query_players env rt s)
  unfolding query_players
  query_players-Ends s h =
      if_intro (λ (m : Exec Here ℕ). Ends (m s)) (is_empty (get_or rt.variables "RCON_PASSWORD" ""))
        (λ _. h)
        (λ _.
          then-Ends
            (give env rt (of_checked (environment_integer env rt "RCON_PORT" 27015 1024 65535))) _ s
            (give-Ends _ s h)
            (λ port s1 k.
              then-Ends
                (give env rt
                  (of_checked (environment_integer env rt "RCON_TIMEOUT_SECONDS" 10 1 60)))
                (ask_rcon env rt port) s1 (give-Ends _ s1 k) (λ timeout s2 l. give-Ends _ _ l)))

  fail_with-Ends :
      (detail : String) (s : Here) → HoldsIn s → Ends (fail_with env rt {A = Awaited} detail s)
  unfolding fail_with
  fail_with-Ends detail s h =
      then-Ends (updater env rt (fail_readiness env detail)) (λ _. raise (update_error detail)) s
        (updater-Ends (fail_readiness env detail) s (fail_readiness-IsSound env detail s.memory h))
        (λ _ _ k. k)

  fresh_version-Ends :
      (log known : String) (s : Here) → HoldsIn s → Ends (fresh_version env rt log known s)
  unfolding fresh_version
  fresh_version-Ends log known s h =
      if_intro Ends (str_eq (fingerprint (rt.inspect_log log s.world).0) known) (λ _. h) (λ _. h)

  become_ready-Ends :
      (c : Configuration) (log known : String) (players : ℕ) (s : Here)
      → HoldsIn s
      → Ends (become_ready env rt c log known players s)
  unfolding become_ready
  become_ready-Ends c log known players s h =
      then-Ends (fresh_version env rt log known) _ s (fresh_version-Ends log known s h)
        (λ found s1 k.
          then-Ends
            (updater env rt (mark_runtime_ready env c found.0 found.1)
              >> updater env rt (status env))
            _ s1
            (then-Ends (updater env rt (mark_runtime_ready env c found.0 found.1))
              (λ _. updater env rt (status env)) s1
              (updater-Ends (mark_runtime_ready env c found.0 found.1) s1
                (mark_runtime_ready-IsSound env c found.0 found.1 s1.memory k))
              (λ _ s2 l. updater-Ends (status env) s2 (status-IsSound env s2.memory l)))
            (λ _ _ l. l))

  after_query-Ends :
      (r : Result ℕ) (ready : ℕ → Exec Here Awaited) (later : String → Exec Here Awaited) (s : Here)
      → HoldsIn s
      → ((n : ℕ) → Ends (ready n s))
      → ((detail : String) → Ends (later detail s))
      → Ends (after_query env rt r ready later s)
  after_query-Ends (ok players) ready later s h k l = k players
  after_query-Ends (raised (update_error detail)) ready later s h k l = l detail
  after_query-Ends (raised (incompatible detail)) ready later s h k l = l detail
  after_query-Ends (raised (os_error name)) ready later s h k l = h
  after_query-Ends (raised (other_error name)) ready later s h k l = h
  after_query-Ends (raised killed) ready later s h k l = h

  state-Ends : {A : Type 0} (r : Result A × Here) → Ends r → HoldsIn r.1
  state-Ends (ok a, s) h = h
  state-Ends (raised e, s) h = h

  await-Ends :
      (fuel : ℕ) (c : Configuration) (pid : ℕ) (log known : String) (deadline : ℕ) (detail : String)
      (s : Here)
      → HoldsIn s
      → Ends (await env rt fuel c pid log known deadline detail s)
  unfolding await
  await-Ends zero c pid log known deadline detail s h = h
  await-Ends (suc fuel) c pid log known deadline detail s h =
      let (now, s1) = monotonic rt.machine s in
      let (alive, w) = rt.is_alive pid s1.world in
      let s2 : Here = record s1 { world = w } in
      let (found, s3) = query_players env rt s2 in
      let h3 = state-Ends (query_players env rt s2) (query_players-Ends s2 h) in
      if_intro Ends (not (ltb now deadline)) (λ _. fail_with-Ends _ s1 h)
        (λ _.
          if_intro Ends (not alive) (λ _. fail_with-Ends _ s2 h)
            (λ _.
              after_query-Ends found (become_ready env rt c log known) _ s3 h3
                (λ n. become_ready-Ends c log known n s3 h3)
                (λ why.
                  await-Ends fuel c pid log known deadline why (pause_until env rt deadline s3)
                    h3)))

  pub wait_runtime_ready-Ends :
      (c : Configuration) (pid : ℤ) (log known : String) (timeout : ℤ) (s : Here)
      → HoldsIn s
      → Ends (wait_runtime_ready env rt c pid log known timeout s)
  unfolding wait_runtime_ready start_waiting
  wait_runtime_ready-Ends c (negsuc n) log known timeout s h = h
  wait_runtime_ready-Ends c (pos zero) log known timeout s h = h
  wait_runtime_ready-Ends c (pos (suc n)) log known (negsuc m) s h = h
  wait_runtime_ready-Ends c (pos (suc n)) log known (pos timeout) s h =
      if_intro (λ (m : Exec Here Awaited). Ends (m s)) (leb 30 timeout && leb timeout 3600)
        (λ _.
          await-Ends (suc timeout) c (suc n) log known ((monotonic rt.machine s).0 + timeout)
            "RCON has not been queried" (monotonic rt.machine (monotonic rt.machine s).1).1 h)
        (λ _. h)
