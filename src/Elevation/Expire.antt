-- ===== src/Elevation/Expire.antt =====
-- `ElevationManager::expire_pending` (src/elevation/manager.rs): prompts that nobody answered.
use mitos_session.Base.{
  ℕ, ◌≡◌, refl, ap, ◌∙◌, Bool, true, false, none, some, List, [], ◌∷◌, arith, leb, if◌then◌else◌,
  is_some, Has,
}
use mitos_session.Base.Map.Fresh.{AtMost, remove-AtMost}
use mitos_session.Base.Map.{Map, lookup, remove, remove_all, IsMap, keys_where, id_key}
use mitos_session.Base.Map.Keys.{
  has_key, passes, remove_all-IsMap, lookup-remove_all, has_key-keys_where, lookup-remove_where,
}
use mitos_session.Elevation.Timeouts.{expired_prompts}
use mitos_session.Elevation.Abandon.{
  describe, report, keys_where-Distinct, take_all-report, without, take_all-state,
}
use mitos_session.Elevation.{PendingElevation, AbandonedElevation, ElevationManager, expire_pending}
use mitos_session.Elevation.Invariant.{Inv}

abbrev pub request_ids : List AbandonedElevation → List ℕ
request_ids [] = []
request_ids (a ∷ rest) = a.request_id ∷ request_ids rest

abbrev pub due_at : ℕ → ℕ → ℕ → Bool
due_at now id t = leb t now

request_ids-report :
    (ids : List ℕ) (m : Map ℕ PendingElevation)
    → ((id : ℕ) → has_key ids id ≡ true → is_some (lookup id m) ≡ true)
    → request_ids (report ids m) ≡ ids
request_ids-report [] m h = refl
request_ids-report (id ∷ ids) m h =
    let rest = request_ids-report ids m (λ k e. h k (ground (arith, e))) in
    ground (arith, h id (ground arith), rest)

Has-report :
    (ids : List ℕ) (m : Map ℕ PendingElevation) (id : ℕ) (q : PendingElevation)
    → lookup id m ≡ some q
    → has_key ids id ≡ true
    → Has (describe id q) (report ids m)
Has-report [] m id q e h = ground arith
Has-report (k ∷ ids) m id q e h = ground (arith, Has-report ids m id q e)

abbrev due_ids : ElevationManager → ℕ → List ℕ
due_ids m now = keys_where (due_at now) m.timeouts.prompt_expiry

no_keys_where :
    (p : ℕ → ℕ → Bool) (m : Map ℕ ℕ)
    → IsMap m
    → ((k : ℕ) → passes (p k) (lookup k m) ≡ false)
    → keys_where p m ≡ []
no_keys_where p [] h none_passes = refl
no_keys_where p ((k, v) ∷ m) h none_passes =
    ground (arith, none_passes k, no_keys_where p m h.1 (λ j. ground (arith, none_passes j, h.0)))

pub expire_pending-state :
    (m : ElevationManager) (now : ℕ)
    → (expire_pending m now).1
      ≡ without
          (expired_prompts m.timeouts now).0
          (record m { timeouts = (expired_prompts m.timeouts now).1 })
unfolding expire_pending
expire_pending-state m now = take_all-state (expired_prompts m.timeouts now).0 _

pub prompts-expire_pending :
    (m : ElevationManager) (now id : ℕ)
    → Inv m
    → lookup id (expire_pending m now).1.timeouts.prompt_expiry ≡ (
        if passes (due_at now id) (lookup id m.timeouts.prompt_expiry)
        then none
        else lookup id m.timeouts.prompt_expiry)
unfolding expired_prompts
prompts-expire_pending m now id v =
    let ids = keys_where (due_at now) m.timeouts.prompt_expiry in
    rw (expire_pending-state m now) (
      ground (
        arith,
        lookup-remove_all ids id (remove_all ids m.timeouts.prompt_expiry),
        has_key-keys_where (due_at now) m.timeouts.prompt_expiry id v.prompts,
        lookup-remove_where (due_at now) m.timeouts.prompt_expiry id v.prompts,
      ))

pub pending-expire_pending :
    (m : ElevationManager) (now id : ℕ)
    → Inv m
    → lookup id (expire_pending m now).1.pending ≡ (
        if passes (due_at now id) (lookup id m.timeouts.prompt_expiry)
        then none
        else lookup id m.pending)
unfolding expired_prompts
pending-expire_pending m now id v =
    let ids = keys_where (due_at now) m.timeouts.prompt_expiry in
    rw (expire_pending-state m now) (
      ground (
        arith,
        lookup-remove_all ids id m.pending,
        has_key-keys_where (due_at now) m.timeouts.prompt_expiry id v.prompts,
      ))

remove_all-AtMost :
    (n : ℕ) (ks : List ℕ) (m : Map ℕ PendingElevation) → AtMost n m → AtMost n (remove_all ks m)
remove_all-AtMost n [] m h = h
remove_all-AtMost n (k ∷ ks) m h = remove_all-AtMost n ks (remove k m) (remove-AtMost n k m h)

expire_pending-told :
    (m : ElevationManager) (now : ℕ)
    → Inv m
    → (expire_pending m now).0 ≡ report (due_ids m now) m.pending
unfolding expire_pending
expire_pending-told m now v =
    take_all-report (due_ids m now) (record m { timeouts = (expired_prompts m.timeouts now).1 })
      (keys_where-Distinct (due_at now) m.timeouts.prompt_expiry v.prompts)

pub expire_pending-Inv : (m : ElevationManager) (now : ℕ) → Inv m → Inv (expire_pending m now).1
unfolding expired_prompts
expire_pending-Inv m now v = record {
  ids = rw (expire_pending-state m now) (remove_all-IsMap (due_ids m now) m.pending v.ids);
  prompts = rw (expire_pending-state m now) (
      remove_all-IsMap (due_ids m now) (remove_all (due_ids m now) m.timeouts.prompt_expiry)
        (remove_all-IsMap (due_ids m now) m.timeouts.prompt_expiry v.prompts));
  lockouts = rw (expire_pending-state m now) v.lockouts;
  handed_out =
      rw (expire_pending-state m now)
        (remove_all-AtMost m.next_id (due_ids m now) m.pending v.handed_out);
  timed = λ id.
      ground
        (arith, pending-expire_pending m now id v, prompts-expire_pending m now id v, v.timed id);
  locked_timed = λ s. rw (expire_pending-state m now) (v.locked_timed s);
}

-- After the sweep no timer is due.
none_due : (m : ElevationManager) (now : ℕ) → Inv m → due_ids (expire_pending m now).1 now ≡ []
none_due m now v =
    no_keys_where (due_at now) (expire_pending m now).1.timeouts.prompt_expiry
      (expire_pending-Inv m now v).prompts (λ k. ground (arith, prompts-expire_pending m now k v))

-- In a manager that keeps its invariant: the sweep for prompts that timed out: exactly those whose
-- window has elapsed are reported, each once, with the session and the two connections of its
-- pending entry; they and their timers are gone, the others stay with their timers, no counter and no
-- lockout changes, and a second sweep at the same instant reports nothing.
pub expire_pending_lem :
    (m : ElevationManager) (now id : ℕ)
    → Inv m
    → let (told, m') = expire_pending m now in
      (request_ids told ≡ keys_where (due_at now) m.timeouts.prompt_expiry)
      × (lookup id m'.pending ≡ (
          if passes (due_at now id) (lookup id m.timeouts.prompt_expiry)
          then none
          else lookup id m.pending))
      × (lookup id m'.timeouts.prompt_expiry ≡ (
          if passes (due_at now id) (lookup id m.timeouts.prompt_expiry)
          then none
          else lookup id m.timeouts.prompt_expiry))
      × (m'.session_auth ≡ m.session_auth)
      × (m'.timeouts.lockout_expiry ≡ m.timeouts.lockout_expiry)
      × ((q : PendingElevation)
          → lookup id m.pending ≡ some q
          → passes (due_at now id) (lookup id m.timeouts.prompt_expiry) ≡ true
          → Has (describe id q) told)
      × ((expire_pending m' now).0 ≡ [])
unfolding expired_prompts
expire_pending_lem m now id v = (
  rw (expire_pending-told m now v) (request_ids-report (due_ids m now) m.pending reported),
  pending-expire_pending m now id v,
  prompts-expire_pending m now id v,
  rw (expire_pending-state m now) refl,
  rw (expire_pending-state m now) refl,
  λ q e d. rw (expire_pending-told m now v) (
      Has-report (due_ids m now) m.pending id q e
        (ground (arith, d, has_key-keys_where (due_at now) m.timeouts.prompt_expiry id v.prompts))),
  expire_pending-told (expire_pending m now).1 now (expire_pending-Inv m now v)
      ∙ ap (λ ids. report ids (expire_pending m now).1.pending) (none_due m now v),
)
  where
    reported : (k : ℕ) → has_key (due_ids m now) k ≡ true → is_some (lookup k m.pending) ≡ true
    reported k e =
        ground
          (arith, has_key-keys_where (due_at now) m.timeouts.prompt_expiry k v.prompts, v.timed k)
