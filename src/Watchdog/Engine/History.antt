-- ===== src/Watchdog/Engine/History.antt =====
-- Predicates on the calls of a session, latest first, by which the engine's theorems are stated.
use mathlib.Core.Path.{subst, sym}
use mathlib.Core.Option.{some-injective}
use pz_server.Prelude.{ℕ, zero, suc, ◌+◌, ◌≤◌, ◌≡◌, ◌⊎◌, true, Option, none, some, List, [], ◌∷◌}
use pz_server.Watchdog.Models.{PlayerObservation, is_unknown}
use pz_server.Watchdog.Engine.{
  Call, ticked, queried, health_checked, restarted, slept, executed, is_down, WatchdogPolicy,
}

-- A tick began at time `t`, and every player count that was asked for since then was zero.
abbrev pub EmptySince : ℕ → List Call → Type 0
EmptySince t [] = ⊥
EmptySince t (ticked u ∷ l) = (u ≡ t) ⊎ EmptySince t l
EmptySince t (queried o ∷ l) = (o.count ≡ some 0) × EmptySince t l
EmptySince t (restarted _ ∷ l) = ⊥
EmptySince t (health_checked _ ∷ l) = ⊥
EmptySince t (slept _ ∷ l) = EmptySince t l
EmptySince t (executed _ _ ∷ l) = EmptySince t l

-- A tick began at time `t`, and since then every player count was unknown, every health check
-- found the service down, and no restart was tried.
abbrev pub OutageSince : ℕ → List Call → Type 0
OutageSince t [] = ⊥
OutageSince t (ticked u ∷ l) = (u ≡ t) ⊎ OutageSince t l
OutageSince t (queried o ∷ l) = (is_unknown o ≡ true) × OutageSince t l
OutageSince t (health_checked h ∷ l) = (is_down h ≡ true) × OutageSince t l
OutageSince t (restarted _ ∷ l) = ⊥
OutageSince t (slept _ ∷ l) = ⊥
OutageSince t (executed _ _ ∷ l) = ⊥

-- The time of the latest tick.
abbrev pub latest : List Call → ℕ
latest [] = 0
latest (ticked u ∷ l) = u
latest (queried _ ∷ l) = latest l
latest (health_checked _ ∷ l) = latest l
latest (restarted _ ∷ l) = latest l
latest (slept _ ∷ l) = latest l
latest (executed _ _ ∷ l) = latest l

-- Every execution of the shutdown had an empty server for the idle timeout before it, and every
-- restart had an outage for the outage timeout before it.
abbrev pub Justified : WatchdogPolicy → List Call → Type 0
Justified p [] = Unit
Justified p (executed _ _ ∷ l) =
    ((t : ℕ) × EmptySince t l × (t + p.idle_timeout_seconds ≤ latest l)) × Justified p l
Justified p (restarted _ ∷ l) =
    ((t : ℕ) × OutageSince t l × (t + p.health_failure_timeout_seconds ≤ latest l)) × Justified p l
Justified p (ticked _ ∷ l) = Justified p l
Justified p (queried _ ∷ l) = Justified p l
Justified p (health_checked _ ∷ l) = Justified p l
Justified p (slept _ ∷ l) = Justified p l

-- `n` delayed checks were made after the calls `before`, and each found the server empty.
abbrev pub Confirmed : ℕ → ℕ → List Call → List Call → Type 0
Confirmed delay zero before after = after ≡ before
Confirmed delay (suc n) before after =
    (o : PlayerObservation) × (o.count ≡ some 0)
    × Confirmed delay n (queried o ∷ slept delay ∷ before) after

abbrev pub At : (ℕ → Type 0) → Option ℕ → Type 0
At P none = Unit
At P (some t) = P t

pub At-none : (P : ℕ → Type 0) (o : Option ℕ) → o ≡ none → At P o
At-none P none h = tt
At-none P (some t) h = cc

pub At-some : (P : ℕ → Type 0) (o : Option ℕ) (t : ℕ) → o ≡ some t → P t → At P o
At-some P none t h p = cc
At-some P (some u) t h p = subst P (sym (some-injective u t h)) p

pub At_apply : (P : ℕ → Type 0) (o : Option ℕ) (t : ℕ) → o ≡ some t → At P o → P t
At_apply P none t h p = cc
At_apply P (some u) t h p = subst P (some-injective u t h) p
