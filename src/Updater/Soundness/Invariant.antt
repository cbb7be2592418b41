-- ===== src/Updater/Soundness/Invariant.antt =====
-- The invariant of the updater's machine (src/pz_updater/core.py).
use mathlib.Core.Path.{subst}
use pz_server.Prelude.{String, ◌≡◌, refl, ◌⊎◌, Bool, true, false, Option, none, some, sym}
use pz_server.Updater.State.{
  UpdateState, StateName, Value, uninitialized, current, downloading_candidate, promoting_candidate,
  activating, pending_readiness, starting_candidate, runtime_ready, failed_before_world_open,
  failed_after_world_open, unknown, unrecognised, is_none,
}
use pz_server.Updater.Machine.{
  Entry, directory, symlink, file, PointerFile, missing, unsafe, names, StateFile, no_state, broken,
  holds, World,
}
use pz_server.Updater.Recovery.{is_release}

module _ {T : Type 0} where
  abbrev pub IsDirectory : Option (Entry T) → Type 0
  IsDirectory none = ⊥
  IsDirectory (some (directory _)) = Unit
  IsDirectory (some symlink) = ⊥
  IsDirectory (some file) = ⊥

  -- A pointer that names a release names one that is there.
  abbrev pub IsLive : PointerFile → (String → Option (Entry T)) → Type 0
  IsLive missing entries = Unit
  IsLive (unsafe _) entries = Unit
  IsLive (names n) entries = IsDirectory (entries n)

-- The value is the text of the release that the pointer names.
abbrev pub selects : PointerFile → Value → Bool
selects missing v = false
selects (unsafe _) v = false
selects (names n) v = is_release v n

-- The pointer is as it was when the value was recorded as the previous release.
abbrev pub keeps_previous : PointerFile → Value → Bool
keeps_previous missing v = is_none v
keeps_previous (unsafe _) v = false
keeps_previous (names n) v = is_release v n

-- What a recorded state says of the pointer. A candidate that is being staged is not selected; one
-- that is being activated is selected, or its predecessor still is; one that awaits the world,
-- or has touched it, is selected.
abbrev pub FitsName : PointerFile → UpdateState → StateName → Type 0
FitsName p s uninitialized = Unit
FitsName p s current = Unit
FitsName p s failed_before_world_open = Unit
FitsName p s unknown = Unit
FitsName p s (unrecognised _) = Unit
FitsName p s downloading_candidate = selects p s.candidate_release ≡ false
FitsName p s promoting_candidate = selects p s.candidate_release ≡ false
FitsName p s activating =
    (selects p s.candidate_release ≡ true) ⊎ (keeps_previous p s.previous_release ≡ true)
FitsName p s pending_readiness = selects p s.candidate_release ≡ true
FitsName p s starting_candidate = selects p s.candidate_release ≡ true
FitsName p s runtime_ready = selects p s.candidate_release ≡ true
FitsName p s failed_after_world_open = selects p s.candidate_release ≡ true

-- In every state, a release that is to be promoted is not selected.
abbrev pub Fits : PointerFile → UpdateState → Type 0
Fits p s = FitsName p s s.state × (selects p s.promoted_release ≡ false)

abbrev pub FitsStore : PointerFile → StateFile → Type 0
FitsStore p no_state = Unit
FitsStore p (broken _) = Unit
FitsStore p (holds s) = Fits p s

-- The machine is sound while the pointer of the active release is `p`.
pub record IsSoundAt {T : Type 0} (p : PointerFile) (w : World T) : Type 0 where
  pub same : w.active ≡ p
  pub live : IsLive p w.entries
  pub fits : FitsStore p w.store

pub record IsSound {T : Type 0} (w : World T) : Type 0 where
  pub live : IsLive w.active w.entries
  pub fits : FitsStore w.active w.store

module _ {T : Type 0} where
  pub IsSoundAt-IsSound : (p : PointerFile) (w : World T) → IsSoundAt p w → IsSound w
  IsSoundAt-IsSound p w h = record {
    live = subst (λ q. IsLive q w.entries) (sym h.same) h.live;
    fits = subst (λ q. FitsStore q w.store) (sym h.same) h.fits;
  }

  pub IsSound-IsSoundAt : (w : World T) → IsSound w → IsSoundAt w.active w
  IsSound-IsSoundAt w h = record { same = refl; live = h.live; fits = h.fits }
