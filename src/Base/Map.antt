-- ===== src/Base/Map.antt =====
-- A `HashMap` as an association list. The order of the entries stands for the unspecified order of
-- iteration; `IsMap` says that no key stands twice.
pub mod Keys
pub mod Fresh
use mathlib.Core.Path.{◌≡◌, refl, ap}
use mathlib.Core.Logic.{◌≢◌, ◌⊎◌, inl, inr, ite}
use mathlib.Core.Bool.{Bool, true, false}
use mathlib.Core.Option
use mathlib.Core.Option.{Option, none, some}
use mathlib.Core.List.{List, [], ◌∷◌, map}
use Prim.Native.Nat.{ℕ}
use native.Mathlib.Omega.{arith}
use native.Mathlib.Decide.{ℕ_discrete}
use mitos_session.Base.Tests.{if◌then◌else◌, leb}
use mitos_session.Base.Lists.{select, Has}
use mitos_session.Base.Texts.{Text, text_discrete}

pub record Key (K : Type 0) : Type 0 where
  pub same : Discrete K

instance abbrev pub id_key : Key ℕ
id_key = record { same = ℕ_discrete }

instance abbrev pub text_key : Key Text
text_key = record { same = text_discrete }

abbrev pub Map {ℓ} : Type 0 → Type ℓ → Type ℓ
Map K V = List (K × V)

module _ {ℓ} {K : Type 0} {V : Type ℓ} where
  abbrev pub keys : Map K V → List K
  keys [] = []
  keys ((k, v) ∷ m) = k ∷ keys m

  abbrev pub values : Map K V → List V
  values [] = []
  values ((k, v) ∷ m) = v ∷ values m

module _ {ℓ} {K : Type 0} {V : Type ℓ} ⦃d : Key K⦄ where
  abbrev pub lookup : K → Map K V → Option V
  lookup k [] = none
  lookup k ((j, v) ∷ m) = ite (d.same j k) (some v) (lookup k m)

  abbrev pub insert : K → V → Map K V → Map K V
  insert k v [] = (k, v) ∷ []
  insert k v ((j, w) ∷ m) = ite (d.same j k) ((k, v) ∷ m) ((j, w) ∷ insert k v m)

  abbrev pub remove : K → Map K V → Map K V
  remove k [] = []
  remove k ((j, w) ∷ m) = ite (d.same j k) (remove k m) ((j, w) ∷ remove k m)

  -- A write through `get_mut`: nothing happens where the key is missing.
  abbrev pub adjust : K → (V → V) → Map K V → Map K V
  adjust k f [] = []
  adjust k f ((j, w) ∷ m) = ite (d.same j k) ((j, f w) ∷ m) ((j, w) ∷ adjust k f m)

  abbrev pub remove_all : List K → Map K V → Map K V
  remove_all [] m = m
  remove_all (k ∷ ks) m = remove_all ks (remove k m)

  abbrev pub IsMap : Map K V → Type ℓ
  IsMap [] = Unit
  IsMap ((k, v) ∷ m) = (lookup k m ≡ none) × IsMap m

  pub lookup-insert :
      (k j : K) (v : V) (m : Map K V)
      → lookup j (insert k v m) ≡ ite (d.same k j) (some v) (lookup j m)
  lookup-insert k j v [] = refl
  lookup-insert k j v ((i, w) ∷ m) = ground (arith, lookup-insert k j v m)

  pub lookup-remove :
      (k j : K) (m : Map K V) → lookup j (remove k m) ≡ ite (d.same k j) none (lookup j m)
  lookup-remove k j [] = ground arith
  lookup-remove k j ((i, w) ∷ m) = ground (arith, lookup-remove k j m)

  pub lookup-adjust :
      (k j : K) (f : V → V) (m : Map K V)
      → lookup j (adjust k f m) ≡ ite (d.same k j) (Option.map f (lookup j m)) (lookup j m)
  lookup-adjust k j f [] = ground arith
  lookup-adjust k j f ((i, w) ∷ m) = ground (arith, lookup-adjust k j f m)

  -- The keys of the entries that pass a test: `iter().filter(p).map(|(k, _)| k).collect()`.
  abbrev pub keys_where : (K → V → Bool) → Map K V → List K
  keys_where p [] = []
  keys_where p ((k, v) ∷ m) = if p k v then k ∷ keys_where p m else keys_where p m

-- The loop of both `drain_expired` functions: collect the keys that are due, then remove each.
abbrev pub drain_expired : {K : Type 0} ⦃d : Key K⦄ → Map K ℕ → ℕ → List K × Map K ℕ
drain_expired m now =
    let expired = keys_where (λ k t. leb t now) m in (expired, remove_all expired m)
