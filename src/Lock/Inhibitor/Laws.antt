-- ===== src/Lock/Inhibitor/Laws.antt =====
-- The inhibitor registry against what an inhibitor promises (src/lock/inhibitor.rs).
use mitos_session.Base.{
  ℕ, ◌+◌, ◌<◌, ◌≡◌, ◌≢◌, ◌⊎◌, inl, inr, ◌&&◌, ◌||◌, none, [], ◌∷◌, arith, Option-cases, inc_u64,
  Text,
}
use mitos_session.Base.Map.{lookup, remove, IsMap, lookup-insert, lookup-remove, id_key}
use mitos_session.Base.Map.Keys.{insert-IsMap, remove-IsMap}
use mitos_session.Base.Map.Fresh.{
  AtMost, AtMost-mono, insert-AtMost, remove-AtMost, lookup_above, insert_fresh,
  remove-insert_fresh, any-values-append,
}
use mitos_session.Errors.{unknown_inhibitor, ok, err}
use mitos_session.Lock.Inhibitor.{
  InhibitWhat, InhibitMode, block, Inhibitor, InhibitorRegistry, same_what, same_mode, add,
  remove_inhibitor, holds, blocks,
}

-- No id stands twice, and none is above the counter.
pub record Inv (r : InhibitorRegistry) : Type 0 where
  pub ids : IsMap r.inhibitors
  pub handed_out : AtMost r.next_id r.inhibitors

pub add-Inv :
    (r : InhibitorRegistry) (what : InhibitWhat) (who why : Text) (mode : InhibitMode)
    → r.next_id + 1 < 18446744073709551616
    → Inv r
    → Inv (add r what who why mode).1
unfolding add
add-Inv r what who why mode h v = record {
  ids = insert-IsMap _ _ r.inhibitors v.ids;
  handed_out =
      insert-AtMost (inc_u64 r.next_id) (inc_u64 r.next_id) _ r.inhibitors (omega arith)
        (AtMost-mono r.next_id (inc_u64 r.next_id) r.inhibitors (omega arith) v.handed_out);
}

pub remove-Inv :
    (r : InhibitorRegistry) (id : ℕ) {q : InhibitorRegistry}
    → remove_inhibitor r id ≡ ok q
    → Inv r
    → Inv q
unfolding remove_inhibitor
remove-Inv r id e v = ground (
  arith,
  remove-IsMap id r.inhibitors v.ids,
  remove-AtMost r.next_id id r.inhibitors v.handed_out,
)

-- In a registry that keeps its invariant, with ids left: a new inhibitor gets an id that no other
-- has, it blocks what it names if its mode is `Block` and nothing else besides what was blocked
-- before, and releasing its id brings back exactly the inhibitors that were there; the id is not
-- handed out again.
pub add-remove_inhibitor :
    (r : InhibitorRegistry) (what other : InhibitWhat) (who why : Text) (mode : InhibitMode)
    → r.next_id + 1 < 18446744073709551616
    → Inv r
    → let (id, q) = add r what who why mode in
      (lookup id r.inhibitors ≡ none)
      × (blocks q other ≡ (blocks r other || (same_what what other && same_mode mode block)))
      × (remove_inhibitor q id ≡ ok (record q { inhibitors = r.inhibitors }))
      × (r.next_id < q.next_id)
unfolding add blocks remove_inhibitor
add-remove_inhibitor r what other who why mode h v =
    let id = inc_u64 r.next_id in
    let i : Inhibitor = record { id = id; what = what; who = who; why = why; mode = mode } in
    let new = lookup_above r.next_id id r.inhibitors v.handed_out (omega arith) in
    (
      new,
      ground (
        arith,
        insert_fresh id i r.inhibitors new,
        any-values-append (holds other block) r.inhibitors ((id, i) ∷ []),
      ),
      ground (arith, lookup-insert id id i r.inhibitors, remove-insert_fresh id i r.inhibitors new),
      omega arith,
    )

-- Releasing an unknown id is an error; releasing a known one removes that inhibitor alone.
pub remove_inhibitor_lem :
    (r : InhibitorRegistry) (id other : ℕ)
    → ((lookup id r.inhibitors ≡ none) × (remove_inhibitor r id ≡ err (unknown_inhibitor id)))
      ⊎ ((q : InhibitorRegistry) × (remove_inhibitor r id ≡ ok q)
          × (lookup id q.inhibitors ≡ none)
          × (id ≢ other → lookup other q.inhibitors ≡ lookup other r.inhibitors))
unfolding remove_inhibitor
remove_inhibitor_lem r id other = elim (Option-cases (lookup id r.inhibitors)) [
  | inl e ↦ inl (e, ground arith)
  | inr (i, e) ↦ inr (
    record r { inhibitors = remove id r.inhibitors },
    ground arith,
    ground (arith, lookup-remove id id r.inhibitors),
    λ h. ground (arith, lookup-remove id other r.inhibitors),
  )
]
