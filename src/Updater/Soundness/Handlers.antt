-- ===== src/Updater/Soundness/Handlers.antt =====
-- The `except` clauses of an update (src/pz_updater/core.py) keep the invariant.
use pz_server.Prelude.{String, ◌≡◌, refl, Bool, true, false, not, ◌&&◌, if_intro}
use pz_server.Updater.Exec.{
  Failure, update_error, incompatible, os_error, other_error, killed, ◌>>◌, raise,
}
use pz_server.Updater.State.{release}
use pz_server.Updater.Machine.{
  PointerFile, missing, unsafe, names, World, Environment, remove_tree_quietly,
}
use pz_server.Updater.Layout.{exists, is_symlink}
use pz_server.Updater.Update.{
  Configuration, Attempt, fail, give_up, abandon, precondition_failed, mkdir_failed, unrecorded,
  validation_failed, remove_if_there, clean_up, promotion_failed, require_stopped,
}
use pz_server.Updater.Soundness.Rules.{Meets, bind-Meets, branch-Meets}
use pz_server.Updater.Soundness.Invariant.{selects}
use pz_server.Updater.Soundness.Steps.{Good, Apart, remove_tree_quietly-Good}
use pz_server.Updater.Soundness.Recover.{record_pre_world_failure-Good}

pub selects_of_Apart : (p : PointerFile) (n : String) → Apart p n → selects p (release n) ≡ false
selects_of_Apart missing n h = refl
selects_of_Apart (unsafe _) n h = refl
selects_of_Apart (names m) n h = h

module _ {T : Type 0} (env : Environment T) (c : Configuration) (a : Attempt)
    (p : PointerFile) where
  abbrev pub U : Unit {0} → World T → Type 0
  U _ v = Good p v

  -- Recording a failure and raising keeps the invariant.
  pub fail-raise-Good :
      {A : Type 0} (Q : A → World T → Type 0) (result detail : String) (block : Bool) (e : Failure)
      (w : World T)
      → Good p w
      → Meets Q (Good p) ((fail env c a result detail block >> raise e) w)
  fail-raise-Good Q result detail block e w h =
      bind-Meets (λ _ v. Good p v) Q (Good p) (fail env c a result detail block) (λ _. raise e) w
        (record_pre_world_failure-Good env p _ _ _ result detail block w h) (λ _ v k. k)

  give_up-Good :
      {A : Type 0} (Q : A → World T → Type 0) (candidate result detail : String) (block : Bool)
      (e : Failure) (w : World T)
      → Apart p candidate
      → Good p w
      → Meets Q (Good p) (give_up env c a candidate result detail block e w)
  unfolding give_up
  give_up-Good Q candidate result detail block e w apart h =
      bind-Meets U Q (Good p) (remove_tree_quietly env candidate)
        (λ _. fail env c a result detail block >> raise e) w
        (remove_tree_quietly-Good env p candidate w apart h)
        (λ _ v k. fail-raise-Good Q result detail block e v k)

  pub abandon-Good :
      {A : Type 0} (Q : A → World T → Type 0) (candidate result : String) (e : Failure)
      (w : World T)
      → Apart p candidate
      → Good p w
      → Meets Q (Good p) (abandon env c a candidate result e w)
  unfolding abandon
  abandon-Good Q candidate result killed w apart h = h
  abandon-Good Q candidate result (update_error d) w apart h =
      give_up-Good Q candidate result d false _ w apart h
  abandon-Good Q candidate result (incompatible d) w apart h =
      give_up-Good Q candidate result d false _ w apart h
  abandon-Good Q candidate result (os_error d) w apart h =
      give_up-Good Q candidate result d false _ w apart h
  abandon-Good Q candidate result (other_error d) w apart h =
      give_up-Good Q candidate result d false _ w apart h

  pub validation_failed-Good :
      {A : Type 0} (Q : A → World T → Type 0) (candidate : String) (e : Failure) (w : World T)
      → Apart p candidate
      → Good p w
      → Meets Q (Good p) (validation_failed env c a candidate e w)
  unfolding validation_failed
  validation_failed-Good Q candidate killed w apart h = h
  validation_failed-Good Q candidate (update_error d) w apart h =
      abandon-Good Q candidate _ (update_error d) w apart h
  validation_failed-Good Q candidate (incompatible d) w apart h =
      give_up-Good Q candidate _ d true _ w apart h
  validation_failed-Good Q candidate (os_error d) w apart h =
      abandon-Good Q candidate _ (os_error d) w apart h
  validation_failed-Good Q candidate (other_error d) w apart h =
      abandon-Good Q candidate _ (other_error d) w apart h

  pub precondition_failed-Good :
      {A : Type 0} (Q : A → World T → Type 0) (e : Failure) (w : World T)
      → Good p w
      → Meets Q (Good p) (precondition_failed env c a e w)
  unfolding precondition_failed
  precondition_failed-Good Q killed w h = h
  precondition_failed-Good Q (other_error d) w h = h
  precondition_failed-Good Q (update_error d) w h = fail-raise-Good Q _ d false _ w h
  precondition_failed-Good Q (incompatible d) w h = fail-raise-Good Q _ d false _ w h
  precondition_failed-Good Q (os_error d) w h = fail-raise-Good Q _ d false _ w h

  pub mkdir_failed-Good :
      {A : Type 0} (Q : A → World T → Type 0) (e : Failure) (w : World T)
      → Good p w
      → Meets Q (Good p) (mkdir_failed env c a e w)
  unfolding mkdir_failed
  mkdir_failed-Good Q (os_error d) w h = fail-raise-Good Q _ d false _ w h
  mkdir_failed-Good Q (update_error d) w h = h
  mkdir_failed-Good Q (incompatible d) w h = h
  mkdir_failed-Good Q (other_error d) w h = h
  mkdir_failed-Good Q killed w h = h

  pub unrecorded-Good :
      {A : Type 0} (Q : A → World T → Type 0) (candidate : String) (e : Failure) (w : World T)
      → Apart p candidate
      → Good p w
      → Meets Q (Good p) (unrecorded env c a candidate e w)
  unfolding unrecorded
  unrecorded-Good Q candidate (update_error d) w apart h =
      bind-Meets U Q (Good p) (remove_tree_quietly env candidate) (λ _. raise (update_error d)) w
        (remove_tree_quietly-Good env p candidate w apart h) (λ _ v k. k)
  unrecorded-Good Q candidate (incompatible d) w apart h =
      bind-Meets U Q (Good p) (remove_tree_quietly env candidate) (λ _. raise (incompatible d)) w
        (remove_tree_quietly-Good env p candidate w apart h) (λ _ v k. k)
  unrecorded-Good Q candidate (os_error d) w apart h = h
  unrecorded-Good Q candidate (other_error d) w apart h = h
  unrecorded-Good Q candidate killed w apart h = h

  remove_if_there-Good :
      (n : String) (w : World T)
      → Apart p n
      → Good p w
      → Meets U (Good p) (remove_if_there env c a n w)
  unfolding remove_if_there
  remove_if_there-Good n w apart h =
      if_intro (Meets U (Good p)) (exists n w && not (is_symlink n w))
        (λ _. remove_tree_quietly-Good env p n w apart h) (λ _. h)

  clean_up-Good :
      {A : Type 0} (Q : A → World T → Type 0) (candidate final detail : String) (e : Failure)
      (w : World T)
      → Apart p candidate
      → Apart p final
      → Good p w
      → Meets Q (Good p) (clean_up env c a candidate final detail e w)
  unfolding clean_up
  clean_up-Good Q candidate final detail e w ac af h =
      bind-Meets U Q (Good p) (remove_if_there env c a candidate)
        (λ _.
          remove_if_there env c a final
          >> (fail env c a "promotion-failed" detail false >> raise e))
        w (remove_if_there-Good candidate w ac h)
        (λ _ v k.
          bind-Meets U Q (Good p) (remove_if_there env c a final)
            (λ _. fail env c a "promotion-failed" detail false >> raise e) v
            (remove_if_there-Good final v af k) (λ _ u m. fail-raise-Good Q _ detail false e u m))

  pub promotion_failed-Good :
      {A : Type 0} (Q : A → World T → Type 0) (candidate final : String) (e : Failure) (w : World T)
      → Apart p candidate
      → Apart p final
      → Good p w
      → Meets Q (Good p) (promotion_failed env c a candidate final e w)
  unfolding promotion_failed
  promotion_failed-Good Q candidate final (update_error d) w ac af h =
      clean_up-Good Q candidate final _ _ w ac af h
  promotion_failed-Good Q candidate final (incompatible d) w ac af h =
      clean_up-Good Q candidate final _ _ w ac af h
  promotion_failed-Good Q candidate final (os_error d) w ac af h =
      clean_up-Good Q candidate final _ _ w ac af h
  promotion_failed-Good Q candidate final (other_error d) w ac af h = h
  promotion_failed-Good Q candidate final killed w ac af h = h

  pub require_stopped-Good :
      (b : Bool) (w : World T) → Good p w → Meets U (Good p) (require_stopped env c a b w)
  unfolding require_stopped
  require_stopped-Good b w h =
      branch-Meets U (Good p) b _ _ w (λ _. fail-raise-Good U _ _ false _ w h) (λ _. h)
