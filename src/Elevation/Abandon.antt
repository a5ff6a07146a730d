-- ===== src/Elevation/Abandon.antt =====
-- Prompts that end without an answer (src/elevation/manager.rs): `abandon_session`,
-- `abandon_connection` and `expire_pending`.
use mitos_session.Base.{
  ℕ, ◌≡◌, refl, ◌∙◌, Bool, true, false, ◌==◌, none, some, List, [], ◌∷◌, arith, if◌then◌else◌,
}
use mitos_session.Base.Map.{
  Map, lookup, remove, remove_all, IsMap, lookup-remove, keys_where, id_key,
}
use mitos_session.Base.Map.Keys.{has_key, passes, has_key-keys_where, lookup-remove_where}
use mitos_session.Elevation.{
  PendingElevation, AbandonedElevation, ElevationManager, of_session, take_abandoned, push_some,
  take_all, abandon_where, abandon_session, involves, abandon_connection,
}
use mitos_session.Elevation.Invariant.{Inv, take_all-Inv}

-- What the caller is told of a pending prompt.
abbrev pub describe : ℕ → PendingElevation → AbandonedElevation
describe id p = record {
  request_id = id;
  session_id = p.session_id;
  compositor_conn = p.compositor_conn;
  requester_conn = p.requester_conn;
}

-- The prompts of a map that pass a test, as the caller is told of them.
abbrev pub described :
    (ℕ → PendingElevation → Bool) → Map ℕ PendingElevation → List AbandonedElevation
described p [] = []
described p ((id, q) ∷ m) = if p id q then describe id q ∷ described p m else described p m

abbrev pub report : List ℕ → Map ℕ PendingElevation → List AbandonedElevation
report [] m = []
report (id ∷ ids) m =
    push_some (elim (lookup id m) [ none ↦ none | some p ↦ some (describe id p) ]) (report ids m)

-- No key stands twice.
abbrev pub Distinct : List ℕ → Type 0
Distinct [] = Unit
Distinct (k ∷ ks) = (has_key ks k ≡ false) × Distinct ks

pub keys_where-Distinct :
    {V : Type 0} (p : ℕ → V → Bool) (m : Map ℕ V) → IsMap m → Distinct (keys_where p m)
keys_where-Distinct p [] h = tt
keys_where-Distinct p ((k, v) ∷ m) h =
    ground (arith, keys_where-Distinct p m h.1, has_key-keys_where p m k h.1)

report-missing :
    (ids : List ℕ) (k : ℕ) (v : PendingElevation) (m : Map ℕ PendingElevation)
    → has_key ids k ≡ false
    → report ids ((k, v) ∷ m) ≡ report ids m
report-missing [] k v m h = refl
report-missing (id ∷ ids) k v m h = ground (arith, report-missing ids k v m)

report-keys_where :
    (p : ℕ → PendingElevation → Bool) (m : Map ℕ PendingElevation)
    → IsMap m
    → report (keys_where p m) m ≡ described p m
report-keys_where p [] h = refl
report-keys_where p ((k, v) ∷ m) h = ground (
  arith,
  report-keys_where p m h.1,
  report-missing (keys_where p m) k v m,
  has_key-keys_where p m k h.1,
)

report-remove :
    (ids : List ℕ) (k : ℕ) (m : Map ℕ PendingElevation)
    → has_key ids k ≡ false
    → report ids (remove k m) ≡ report ids m
report-remove [] k m h = refl
report-remove (id ∷ ids) k m h = ground (arith, report-remove ids k m, lookup-remove k id m)

pub take_all-report :
    (ids : List ℕ) (m : ElevationManager) → Distinct ids → (take_all ids m).0 ≡ report ids m.pending
unfolding take_all
take_all-report [] m d = refl
take_all-report (id ∷ ids) m d =
    ground
      (arith, take_all-report ids (take_abandoned m id).1 d.1, report-remove ids id m.pending d.0)

-- What is left after the prompts `ids` are taken away.
abbrev pub without : List ℕ → ElevationManager → ElevationManager
without ids m = record m {
  pending = remove_all ids m.pending;
  timeouts = record {
    prompt_expiry = remove_all ids m.timeouts.prompt_expiry;
    lockout_expiry = m.timeouts.lockout_expiry;
  };
}

pub take_all-state : (ids : List ℕ) (m : ElevationManager) → (take_all ids m).1 ≡ without ids m
unfolding take_all
take_all-state [] m = refl
take_all-state (id ∷ ids) m = take_all-state ids (take_abandoned m id).1

-- `abandon_where` tells of exactly the pending prompts that pass the test, once each; those are
-- gone afterwards and the others stay; no counter and no lockout changes.
abandon_where_lem :
    (p : PendingElevation → Bool) (m : ElevationManager) (id : ℕ)
    → Inv m
    → let (told, m') = abandon_where p m in
      (told ≡ described (λ _ q. p q) m.pending)
      × (lookup id m'.pending
          ≡ (if passes p (lookup id m.pending) then none else lookup id m.pending))
      × (m'.session_auth ≡ m.session_auth)
      × (m'.timeouts.lockout_expiry ≡ m.timeouts.lockout_expiry)
unfolding abandon_where
abandon_where_lem p m id v =
    let ids = keys_where (λ (_ : ℕ) (q : PendingElevation). p q) m.pending in
    let state = take_all-state ids m in
    (
      take_all-report ids m (keys_where-Distinct (λ _ q. p q) m.pending v.ids)
          ∙ report-keys_where (λ _ q. p q) m.pending v.ids,
      rw state (lookup-remove_where (λ _ q. p q) m.pending id v.ids),
      rw state refl,
      rw state refl,
    )

-- In a manager that keeps its invariant: when a session ends, exactly its own prompts are closed,
-- each told of once, and no prompt of it is left; the prompts of every other session stay.
pub abandon_session_lem :
    (m : ElevationManager) (s id : ℕ)
    → Inv m
    → let (told, m') = abandon_session m s in
      (told ≡ described (λ _ q. of_session s q) m.pending)
      × (lookup id m'.pending
          ≡ (if passes (of_session s) (lookup id m.pending) then none else lookup id m.pending))
      × (m'.session_auth ≡ m.session_auth)
      × (m'.timeouts.lockout_expiry ≡ m.timeouts.lockout_expiry)
unfolding abandon_session
abandon_session_lem m s id v = abandon_where_lem (of_session s) m id v

-- The connection shows the prompt, or waits for its answer.
abbrev pub part_of : ℕ → PendingElevation → Bool
part_of c q = if q.compositor_conn == c then true else q.requester_conn == c

involves_lem : (c : ℕ) → involves c ≡ part_of c
involves_lem c = λ i q. involves_at c q i
  where
    involves_at : (c : ℕ) (q : PendingElevation) → involves c q ≡ part_of c q
    involves_at c q = ground arith

-- In a manager that keeps its invariant: when a connection drops, exactly the prompts that it takes
-- part in are closed, as the compositor that shows them or as the caller that waits for them, each
-- told of once; the others stay.
pub abandon_connection_lem :
    (m : ElevationManager) (c id : ℕ)
    → Inv m
    → let (told, m') = abandon_connection m c in
      (told ≡ described (λ _ q. part_of c q) m.pending)
      × (lookup id m'.pending
          ≡ (if passes (part_of c) (lookup id m.pending) then none else lookup id m.pending))
      × (m'.session_auth ≡ m.session_auth)
      × (m'.timeouts.lockout_expiry ≡ m.timeouts.lockout_expiry)
unfolding abandon_connection
abandon_connection_lem m c id v = rw⁻¹ (involves_lem c) (abandon_where_lem (involves c) m id v)

pub abandon_where-Inv :
    (p : PendingElevation → Bool) (m : ElevationManager) → Inv m → Inv (abandon_where p m).1
unfolding abandon_where
abandon_where-Inv p m v = take_all-Inv (keys_where (λ _ q. p q) m.pending) m v
