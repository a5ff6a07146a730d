-- ===== src/Base/Map/Keys.antt =====
-- What removing a set of keys, and draining the keys that are due, leaves in a map.
use mathlib.Core.Path.{◌≡◌, refl}
use mathlib.Core.Logic.{ite}
use mathlib.Core.Bool.{Bool, true, false}
use mathlib.Core.Option.{Option, none, some}
use mathlib.Core.List.{List, [], ◌∷◌}
use native.Mathlib.Omega.{arith}
use mitos_session.Base.Tests.{if◌then◌else◌}
use mitos_session.Base.Map.{
  Key, Map, IsMap, lookup, insert, remove, adjust, remove_all, keys_where, lookup-insert,
  lookup-remove, lookup-adjust,
}

abbrev pub has_key : {K : Type 0} ⦃d : Key K⦄ → List K → K → Bool
has_key [] j = false
has_key ⦃d⦄ (k ∷ ks) j = ite (d.same k j) true (has_key ks j)

abbrev pub passes {ℓ} : {V : Type ℓ} → (V → Bool) → Option V → Bool
passes p none = false
passes p (some v) = p v

module _ {ℓ} {K : Type 0} {V : Type ℓ} ⦃d : Key K⦄ where
  pub insert-IsMap : (k : K) (v : V) (m : Map K V) → IsMap m → IsMap (insert k v m)
  insert-IsMap k v [] h = (refl, tt)
  insert-IsMap k v ((j, w) ∷ m) h = ground (arith, insert-IsMap k v m, lookup-insert k j v m)

  pub remove-IsMap : (k : K) (m : Map K V) → IsMap m → IsMap (remove k m)
  remove-IsMap k [] h = tt
  remove-IsMap k ((j, w) ∷ m) h = ground (arith, remove-IsMap k m, lookup-remove k j m)

  pub adjust-IsMap : (k : K) (f : V → V) (m : Map K V) → IsMap m → IsMap (adjust k f m)
  adjust-IsMap k f [] h = tt
  adjust-IsMap k f ((j, w) ∷ m) h = ground (arith, adjust-IsMap k f m, lookup-adjust k j f m)

  pub remove_all-IsMap : (ks : List K) (m : Map K V) → IsMap m → IsMap (remove_all ks m)
  remove_all-IsMap [] m h = h
  remove_all-IsMap (k ∷ ks) m h = remove_all-IsMap ks (remove k m) (remove-IsMap k m h)

  pub lookup-remove_all :
      (ks : List K) (j : K) (m : Map K V)
      → lookup j (remove_all ks m) ≡ (if has_key ks j then none else lookup j m)
  lookup-remove_all [] j m = refl
  lookup-remove_all (k ∷ ks) j m =
      ground (arith, lookup-remove_all ks j (remove k m), lookup-remove k j m)

  pub has_key-keys_where :
      (p : K → V → Bool) (m : Map K V) (j : K)
      → IsMap m
      → has_key (keys_where p m) j ≡ passes (p j) (lookup j m)
  has_key-keys_where p [] j h = refl
  has_key-keys_where p ((k, v) ∷ m) j h = ground (arith, has_key-keys_where p m j h.1)

  -- Removing the keys that pass a test keeps exactly the entries that do not pass it.
  pub lookup-remove_where :
      (p : K → V → Bool) (m : Map K V) (j : K)
      → IsMap m
      → lookup j (remove_all (keys_where p m) m)
        ≡ (if passes (p j) (lookup j m) then none else lookup j m)
  lookup-remove_where p m j h =
      ground (arith, lookup-remove_all (keys_where p m) j m, has_key-keys_where p m j h)
