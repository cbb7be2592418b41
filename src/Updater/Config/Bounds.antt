-- ===== src/Updater/Config/Bounds.antt =====
-- What a configuration of src/pz_updater/core.py satisfies, whatever the environment says.
use pz_server.Prelude.{
  ◌≡◌, refl, ◌⊎◌, inl, inr, ◌≤◌, ℕ, String, true, false, not, ◌&&◌, Option, none, some, [], ◌∷◌,
  leb, ◌==◌, arith,
}
use pz_server.Prelude.Text.{strip, is_empty}
use pz_server.Prelude.Integers.{ℤ, pos, negsuc, Unicode, int, show}
use pz_server.Prelude.Checked.{
  valid, Ensures, bind-Ensures, branch-Ensures, skip-Ensures, self-Ensures, Ensures-valid,
}
use pz_server.Prelude.Environment.{Environment, is_one_of, is_one_of_two, get_or}
use pz_server.Updater.Update.{UpdatePolicy, stable_on_start, manual}
use pz_server.Updater.Config.{
  read_within, integer, boolean, heap_size, heap_mebibytes, exceeds, UpdateConfiguration, is_stable,
  read_policy, read_branch, read_app_id, read_deployment, read_heap, from_environment, is_heap_size,
}

abbrev pub IsBetween : ℕ → ℕ → ℕ → Type 0
IsBetween minimum maximum n = (minimum ≤ n) × (n ≤ maximum)

module _ (u : Unicode) (values : Environment) where
  -- Lower case leaves no text empty that is not, and makes none of an empty one.
  abbrev pub KeepsEmptiness : Type 0
  KeepsEmptiness = (s : String) → is_empty (u.lower s) ≡ is_empty s

  -- A text of the form of a heap size, in lower case.
  abbrev IsLowered : String → Type 0
  IsLowered s = (raw : String) × (is_heap_size u raw ≡ true) × (s ≡ u.lower raw)

  abbrev FitsHeap : String × String → Type 0
  FitsHeap h =
      IsLowered h.0
      × IsLowered h.1
      × ((initial maximal : ℤ) × (heap_mebibytes u h.0 ≡ valid initial)
          × (heap_mebibytes u h.1 ≡ valid maximal)
          × (exceeds initial maximal ≡ false))

  abbrev FitsBranch : UpdatePolicy → String → String → Type 0
  FitsBranch policy password branch =
      ((policy ≡ manual) ⊎ (is_empty branch ≡ true))
      × ((is_empty password ≡ true) ⊎ (is_empty branch ≡ false))

  -- The application is the dedicated server, the retention is within its bounds, the environment
  -- is known, the stable policy goes with no branch, a password goes with a branch, and both heap
  -- sizes have their form, the initial one not above the maximal one.
  abbrev pub IsConsistent : UpdateConfiguration → Type 0
  IsConsistent c =
      (c.app_id ≡ 380870)
      × IsBetween 2 20 c.backup_retention
      × ((c.deployment_environment ≡ "local") ⊎ (c.deployment_environment ≡ "aws"))
      × FitsBranch c.policy c.branch_password c.branch
      × FitsHeap (c.pz_xms, c.pz_xmx)

  within-Ensures :
      (name : String) (minimum maximum : ℕ) (o : Option ℤ)
      → Ensures (IsBetween minimum maximum) (read_within name minimum maximum o)
  within-Ensures name minimum maximum none = tt
  within-Ensures name minimum maximum (some (negsuc n)) = tt
  within-Ensures name minimum maximum (some (pos n)) =
      branch-Ensures (IsBetween minimum maximum) (leb minimum n && leb n maximum) _ _
        (λ h. (ground arith, ground arith)) (λ _. tt)

  integer-Ensures :
      (name : String) (default minimum maximum : ℕ)
      → Ensures (IsBetween minimum maximum) (integer u values name default minimum maximum)
  unfolding integer
  integer-Ensures name default minimum maximum =
      within-Ensures name minimum maximum (int u (get_or values name (show default)))

  read_branch-Ensures :
      (policy : UpdatePolicy) (password : String)
      → KeepsEmptiness
      → Ensures (FitsBranch policy password) (read_branch u values policy password)
  unfolding read_branch
  read_branch-Ensures policy password keeps =
      let branch = strip (get_or values "STEAM_BRANCH" "") in
      let same = keeps branch in
      branch-Ensures (FitsBranch policy password)
        (is_stable policy && not (is_empty (u.lower branch))) _ _ (λ _. tt)
        (λ h.
          branch-Ensures (FitsBranch policy password) (not (is_empty password) && is_empty branch) _
            (valid branch) (λ _. tt) (λ k. (fits policy branch same h, with_password branch k)))
    where
      fits :
          (x : UpdatePolicy) (branch : String)
          → is_empty (u.lower branch) ≡ is_empty branch
          → (is_stable x && not (is_empty (u.lower branch))) ≡ false
          → (x ≡ manual) ⊎ (is_empty branch ≡ true)
      fits stable_on_start branch same h = inr (ground arith)
      fits manual branch same h = inl refl

      with_password :
          (branch : String)
          → (not (is_empty password) && is_empty branch) ≡ false
          → (is_empty password ≡ true) ⊎ (is_empty branch ≡ false)
      with_password branch k = ground arith

  read_app_id-Ensures : Ensures (λ n. n ≡ 380870) (read_app_id u values)
  unfolding read_app_id
  read_app_id-Ensures =
      skip-Ensures (λ n. n ≡ 380870) (integer u values "STEAM_APP_ID" 380870 1 2147483647) _
        λ app_id.
          branch-Ensures (λ n. n ≡ 380870) (app_id == 380870) (valid app_id) _ (λ h. ground arith)
            (λ _. tt)

  read_deployment-Ensures : Ensures (λ x. (x ≡ "local") ⊎ (x ≡ "aws")) (read_deployment u values)
  unfolding read_deployment
  read_deployment-Ensures =
      let name = u.lower (strip (get_or values "DEPLOYMENT_ENVIRONMENT" "local")) in
      branch-Ensures (λ x. (x ≡ "local") ⊎ (x ≡ "aws")) (is_one_of ("local" ∷ "aws" ∷ []) name)
        (valid name) _ (λ h. is_one_of_two "local" "aws" name h) (λ _. tt)

  heap_size-Ensures : (name default : String) → Ensures IsLowered (heap_size u values name default)
  unfolding heap_size
  heap_size-Ensures name default =
      let value = strip (get_or values name default) in
      branch-Ensures IsLowered (is_heap_size u value) (valid (u.lower value)) _
        (λ h. (value, h, refl)) (λ _. tt)

  read_heap-Ensures : Ensures FitsHeap (read_heap u values)
  unfolding read_heap
  read_heap-Ensures =
      bind-Ensures IsLowered FitsHeap (heap_size u values "PZ_XMS" "2g") _
        (heap_size-Ensures "PZ_XMS" "2g")
        λ xms h1.
          bind-Ensures IsLowered FitsHeap (heap_size u values "PZ_XMX" "8g") _
            (heap_size-Ensures "PZ_XMX" "8g")
            λ xmx h2.
              bind-Ensures (λ i. heap_mebibytes u xms ≡ valid i) FitsHeap (heap_mebibytes u xms) _
                (self-Ensures (heap_mebibytes u xms))
                λ initial h3.
                  bind-Ensures (λ i. heap_mebibytes u xmx ≡ valid i) FitsHeap (heap_mebibytes u xmx)
                    _ (self-Ensures (heap_mebibytes u xmx))
                    λ maximal h4.
                      branch-Ensures FitsHeap (exceeds initial maximal) _ (valid (xms, xmx))
                        (λ _. tt) (λ h5. (h1, h2, (initial, maximal, h3, h4, h5)))

  from_environment-Ensures : KeepsEmptiness → Ensures IsConsistent (from_environment u values)
  unfolding from_environment
  from_environment-Ensures keeps =
      let password = get_or values "STEAM_BRANCH_PASSWORD" "" in
      skip-Ensures IsConsistent (read_policy u values) _ λ policy.
        bind-Ensures (FitsBranch policy password) IsConsistent
          (read_branch u values policy password) _ (read_branch-Ensures policy password keeps)
          λ branch b.
            bind-Ensures (λ n. n ≡ 380870) IsConsistent (read_app_id u values) _ read_app_id-Ensures
              λ app_id a.
                bind-Ensures (λ x. (x ≡ "local") ⊎ (x ≡ "aws")) IsConsistent
                  (read_deployment u values) _ read_deployment-Ensures
                  λ environment e.
                    bind-Ensures FitsHeap IsConsistent (read_heap u values) _ read_heap-Ensures
                      λ heap h.
                        skip-Ensures IsConsistent
                          (boolean u values "ALLOW_AUTO_UPDATE_WITH_MODS" false) _
                          λ with_mods.
                            bind-Ensures (IsBetween 2 20) IsConsistent
                              (integer u values "PZ_PRE_UPDATE_BACKUP_RETENTION" 3 2 20) _
                              (integer-Ensures "PZ_PRE_UPDATE_BACKUP_RETENTION" 3 2 20)
                              λ retention r. (a, r, e, b, h)

  -- Where lower case keeps empty texts empty and the others not, a configuration that is accepted
  -- is consistent: it is for the dedicated server, its retention is between 2 and 20, its
  -- environment is known, the stable policy goes with no branch, a branch password goes with a
  -- branch, and both heap sizes have their form, the initial one not above the maximal one.
  pub from_environment-IsConsistent :
      (c : UpdateConfiguration)
      → KeepsEmptiness
      → from_environment u values ≡ valid c
      → IsConsistent c
  from_environment-IsConsistent c keeps e =
      Ensures-valid IsConsistent (from_environment u values) c e (from_environment-Ensures keeps)
