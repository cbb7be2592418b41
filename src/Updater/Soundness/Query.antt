-- ===== src/Updater/Soundness/Query.antt =====
-- The parts of a start and of an update (src/pz_updater/core.py) keep the invariant: the query for
-- the latest build, and the fallback to the active release.
use pz_server.Prelude.{ℕ, String, ◌≡◌, Bool, false, not, ◌&&◌, Option, none, some}
use pz_server.Updater.Exec.{
  Failure, is_update_error, detail_of, Exec, ◌>>=◌, pure, raise, try_except,
}
use pz_server.Updater.State.{UpdateState}
use pz_server.Updater.Machine.{
  PointerFile, World, Environment, SteamBuildMetadata, advance, request, prepare_launcher,
}
use pz_server.Updater.Layout.{read_active}
use pz_server.Updater.Recovery.{is_staging, record_pre_world_failure, recover_interrupted}
use pz_server.Updater.Update.{Configuration, current_build_id}
use pz_server.Updater.Start.{
  is_beyond_fallback, equals_build, is_build, is_older, is_present, up_to_date, write_observation,
  write_no_update, query_failed, apply_latest, check_and_update, prepare_active, resume, suppress,
  settle, is_same, fall_back,
}
use pz_server.Updater.Soundness.Rules.{bind-Meets, try-Meets, Meets-mono, both-Meets, branch-Meets}
use pz_server.Updater.Soundness.Invariant.{IsDirectory, IsSound, IsSoundAt-IsSound, Fits, selects}
use pz_server.Updater.Soundness.Steps.{Good, Same, Reads, Apart, on_tree-Good, read_active-Good}
use pz_server.Updater.Soundness.Recover.{record_pre_world_failure-Good, recover_interrupted-Good}
use pz_server.Updater.Soundness.Install.{stage_and_activate-Sound}
use pz_server.Updater.Soundness.Operations.{
  Ends, Goes, Goes-Ends, read_metadata-Good, store-Goes, loaded-Goes,
}

module _ {T : Type 0} (env : Environment T) (c : Configuration) where
  module _ (p : PointerFile) where
    prepare_launcher-Goes :
        {A : Type 0} (n : String) (f : SteamBuildMetadata → Exec (World T) A) (w : World T)
        → Good p w
        → ((m : SteamBuildMetadata) (v : World T) → Good p v → Goes env p (f m v))
        → Goes env p ((prepare_launcher env n >>= f) w)
    prepare_launcher-Goes n f w h k =
        bind-Meets (λ _ v. Good p v × IsDirectory (v.entries n)) (λ _ v. Good p v) (Good p)
          (prepare_launcher env n) f w (on_tree-Good env p n (env.prepare w.step) w h)
          (λ m v q. k m v q.0)

    pub write_observation-Good :
        (s : UpdateState) (m : Option SteamBuildMetadata) (result : String) (w : World T)
        → selects p s.promoted_release ≡ false
        → Good p w
        → Goes env p (write_observation env c s m result w)
    unfolding write_observation
    write_observation-Good s none result w u h = store-Goes env p _ w (tt, u) h
    write_observation-Good s (some m) result w u h = store-Goes env p _ w (tt, u) h

    pub resume-Good :
        (s : UpdateState) (o : Option String) (w : World T)
        → Good p w
        → Goes env p (resume env c s o w)
    unfolding resume
    resume-Good s none w h = h
    resume-Good s (some n) w h = prepare_launcher-Goes n (λ _. pure s) w h (λ _ _ k. k)

    pub suppress-Good :
        (s : UpdateState) (o : Option String) (w : World T)
        → selects p s.promoted_release ≡ false
        → Good p w
        → Goes env p (suppress env c s o w)
    unfolding suppress
    suppress-Good s none w u h = h
    suppress-Good s (some n) w u h =
        read_metadata-Good env p n _ w h
          (λ m v k. write_observation-Good s (some m) "repository-deploy-suppressed" v u k)

    settle-Good :
        (s : UpdateState) (w : World T) → Fits p s → Good p w → Goes env p (settle env c s w)
    unfolding settle
    settle-Good s w f h =
        branch-Meets (λ _ v. Good p v) (Good p) (is_staging s.state) _ _ w
          (λ _.
            try-Meets (λ _ v. Good p v) (Good p) (Good p) (recover_interrupted env s) _ w
              (Meets-mono _ (λ _ v. Good p v) (Good p) (Good p) (recover_interrupted env s w)
                (recover_interrupted-Good env p s w f h) (λ _ _ k. k.1) (λ _ k. k))
              (λ e v k.
                branch-Meets (λ _ x. Good p x) (Good p) (is_update_error e) _ _ v (λ _. k)
                  (λ _. k)))
          (λ _. h)

    pub fall_back-Good :
        (active : Option String) (e : Failure) (w : World T)
        → Good p w
        → Goes env p (fall_back env c active e w)
    unfolding fall_back
    fall_back-Good active e w h =
        branch-Meets (λ _ v. Good p v) (Good p) (not (is_update_error e)) _ _ w (λ _. h)
          (λ _. loaded-Goes env p _ w h (λ s v f k.
            bind-Meets (λ o x. Reads p o × Same p v x) (λ _ x. Good p x) (Good p) (read_active env)
              _ v (read_active-Good env p v k)
              (λ o x m.
                bind-Meets (λ _ y. Good p y) (λ _ y. Good p y) (Good p) (settle env c s) _ x
                  (settle-Good s x f m.1.1)
                  (λ r y z.
                    branch-Meets (λ _ x. Good p x) (Good p)
                      (is_same env c active o && not (is_beyond_fallback r.state)) _ _ y (λ _. z)
                      (λ _. z)))))

    pub prepare_active-Good :
        (o : Option String) (w : World T) → Good p w → Goes env p (prepare_active env c o w)
    unfolding prepare_active
    prepare_active-Good none w h = h
    prepare_active-Good (some n) w h = prepare_launcher-Goes n (λ m. pure (some m)) w h (λ _ _ k. k)

    query_failed-Good :
        (A : Type 0) (s : UpdateState) (m : Option SteamBuildMetadata) (e : Failure) (w : World T)
        → Good p w
        → Goes env p (query_failed env c {A = A} s m e w)
    unfolding query_failed
    query_failed-Good A s m e w h =
        branch-Meets (λ _ v. Good p v) (Good p) (is_update_error e) _ _ w
          (λ _.
            bind-Meets (λ _ v. Good p v) (λ _ v. Good p v) (Good p)
              (record_pre_world_failure env s m none "metadata-query-failed" (detail_of e) false)
              (λ _. raise e) w
              (record_pre_world_failure-Good env p s m none "metadata-query-failed" (detail_of e)
                false w h)
              (λ _ _ k. k))
          (λ _. h)

    apply_latest-Ends :
        (active : Option String) (m : Option SteamBuildMetadata) (s : UpdateState)
        (validate allow : Bool) (latest : ℕ) (w : World T)
        → Reads p active
        → selects p s.promoted_release ≡ false
        → ((k b : ℕ) → Apart p (env.alternative_name k b))
        → Good p w
        → Ends env (apply_latest env c active m s validate allow latest w)
    unfolding apply_latest write_no_update
    apply_latest-Ends active m s validate allow latest w r u fresh h =
        let build = current_build_id m in
        let Q = λ (_ : UpdateState) (v : World T). IsSound v in
        let E = λ (v : World T). IsSound v in
        branch-Meets Q E (is_build build latest && not validate) _ _ w
          (λ _.
            Goes-Ends env p _ (store-Goes env p (up_to_date c s m (env.now w.step)) w (tt, u) h))
          (λ _.
            branch-Meets Q E (is_older latest build) _ _ w
              (λ _. Goes-Ends env p _ (
                bind-Meets (λ _ v. Good p v) (λ _ v. Good p v) (Good p)
                  (record_pre_world_failure env s m (some latest) "downgrade-blocked"
                    "Steam branch build is older than the active build; automatic downgrade refused"
                    false)
                  _ w
                  (record_pre_world_failure-Good env p s m (some latest) "downgrade-blocked"
                    "Steam branch build is older than the active build; automatic downgrade refused"
                    false w h)
                  (λ _ _ k. k)))
              (λ _.
                branch-Meets Q E
                  (is_present build && equals_build s.blocked_build latest && not allow) _ _ w
                  (λ _. IsSoundAt-IsSound p w h)
                  (λ _.
                    stage_and_activate-Sound env c
                      (record { active = active; current = m; latest = latest; state = s }) p w r u
                      fresh h)))

    pub check_and_update-Ends :
        (active : Option String) (m : Option SteamBuildMetadata) (s : UpdateState)
        (validate allow : Bool) (w : World T)
        → Reads p active
        → selects p s.promoted_release ≡ false
        → ((k b : ℕ) → Apart p (env.alternative_name k b))
        → Good p w
        → Ends env (check_and_update env c active m s validate allow w)
    unfolding check_and_update
    check_and_update-Ends active m s validate allow w r u fresh h =
        let Q = λ (_ : ℕ) (v : World T). Good p v in
        bind-Meets Q (λ _ v. IsSound v) (λ v. IsSound v)
          (try_except (request env env.latest_build) (query_failed env c s m))
          (apply_latest env c active m s validate allow) w
          (Meets-mono Q Q (Good p) (λ v. IsSound v) _
            (try-Meets Q (Good p) (Good p) (request env env.latest_build) (query_failed env c s m) w
              (both-Meets Q Q (Good p) (Good p) (env.latest_build w.step) (advance w)
                (λ _. record { same = h.same; live = h.live; fits = h.fits })
                (record { same = h.same; live = h.live; fits = h.fits }))
              (λ e v k. query_failed-Good ℕ s m e v k))
            (λ _ _ k. k) (λ v k. IsSoundAt-IsSound p v k))
          (λ latest v k. apply_latest-Ends active m s validate allow latest v r u fresh k)
