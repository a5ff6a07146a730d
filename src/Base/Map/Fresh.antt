-- ===== src/Base/Map/Fresh.antt =====
-- Maps whose keys are handed out by a counter: a key above the counter is new, and inserting it
-- appends an entry.
use mathlib.Core.Path.{◌≡◌, refl}
use mathlib.Core.Bool.{Bool, ◌||◌}
use mathlib.Core.Option.{none}
use mathlib.Core.List.{[], ◌∷◌, ◌++◌}
use Prim.Native.Nat.{ℕ, ◌+◌, ◌≤◌, ◌<◌}
use native.Mathlib.Omega.{arith}
use mitos_session.Base.Lists.{any, select, length}
use mitos_session.Base.Map.{Key, id_key, Map, lookup, insert, remove, values}

module _ {ℓ} {V : Type ℓ} where
  -- Every key is at most `n`.
  abbrev pub AtMost : ℕ → Map ℕ V → Type 0
  AtMost n [] = Unit
  AtMost n ((k, v) ∷ m) = (k ≤ n) × AtMost n m

  pub AtMost-mono : (a b : ℕ) (m : Map ℕ V) → a ≤ b → AtMost a m → AtMost b m
  AtMost-mono a b [] h q = tt
  AtMost-mono a b ((k, v) ∷ m) h q = (omega arith, AtMost-mono a b m h q.1)

  pub insert-AtMost : (n k : ℕ) (v : V) (m : Map ℕ V) → k ≤ n → AtMost n m → AtMost n (insert k v m)
  insert-AtMost n k v [] h q = (h, tt)
  insert-AtMost n k v ((j, w) ∷ m) h q = ground (arith, insert-AtMost n k v m h q.1)

  pub remove-AtMost : (n k : ℕ) (m : Map ℕ V) → AtMost n m → AtMost n (remove k m)
  remove-AtMost n k [] q = tt
  remove-AtMost n k ((j, w) ∷ m) q = ground (arith, remove-AtMost n k m q.1)

  pub lookup_above : (n k : ℕ) (m : Map ℕ V) → AtMost n m → n < k → lookup k m ≡ none
  lookup_above n k [] q h = refl
  lookup_above n k ((j, w) ∷ m) q h = ground (arith, lookup_above n k m q.1 h)

module _ {ℓ} {K : Type 0} {V : Type ℓ} ⦃d : Key K⦄ where
  pub insert_fresh :
      (k : K) (v : V) (m : Map K V) → lookup k m ≡ none → insert k v m ≡ m ++ ((k, v) ∷ [])
  insert_fresh k v [] h = refl
  insert_fresh k v ((j, w) ∷ m) h = ground (arith, insert_fresh k v m)

  pub remove_missing : (k : K) (m : Map K V) → lookup k m ≡ none → remove k m ≡ m
  remove_missing k [] h = refl
  remove_missing k ((j, w) ∷ m) h = ground (arith, remove_missing k m)

  pub remove-insert_fresh :
      (k : K) (v : V) (m : Map K V) → lookup k m ≡ none → remove k (insert k v m) ≡ m
  remove-insert_fresh k v [] h = ground arith
  remove-insert_fresh k v ((j, w) ∷ m) h = ground (arith, remove-insert_fresh k v m)

module _ {ℓ} {K : Type 0} {V : Type ℓ} where
  pub any-values-append :
      (p : V → Bool) (m m' : Map K V)
      → any p (values (m ++ m')) ≡ (any p (values m) || any p (values m'))
  any-values-append p [] m' = refl
  any-values-append p ((k, v) ∷ m) m' = ground (arith, any-values-append p m m')

  -- How many values pass a test.
  abbrev pub count_where : (V → Bool) → Map K V → ℕ
  count_where p m = length (select p (values m))

  pub count_where-append :
      (p : V → Bool) (m m' : Map K V) → count_where p (m ++ m') ≡ count_where p m + count_where p m'
  count_where-append p [] m' = omega arith
  count_where-append p ((k, v) ∷ m) m' = ground (arith, count_where-append p m m')

module _ {ℓ} {K : Type 0} {V : Type ℓ} ⦃d : Key K⦄ where
  pub count_where-remove-le :
      (p : V → Bool) (k : K) (m : Map K V) → count_where p (remove k m) ≤ count_where p m
  count_where-remove-le p k [] = omega arith
  count_where-remove-le p k ((j, w) ∷ m) = ground (arith, count_where-remove-le p k m)
