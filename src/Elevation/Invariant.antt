-- ===== src/Elevation/Invariant.antt =====
-- The invariant of `ElevationManager` (src/elevation/manager.rs) and its preservation.
use mathlib.Core.Option
use mitos_session.Base.{
  ℕ, ◌+◌, ◌<◌, ◌≡◌, refl, ap, inl, inr, Bool, true, false, none, List, [], ◌∷◌, arith, leb,
  if◌then◌else◌, Option-cases, inc_u64, is_some,
}
use mitos_session.Base.Map.{
  Map, lookup, insert, remove, adjust, IsMap, lookup-insert, lookup-remove, lookup-adjust, id_key,
}
use mitos_session.Base.Map.Keys.{
  has_key, passes, insert-IsMap, remove-IsMap, remove_all-IsMap, has_key-keys_where,
  lookup-remove_where,
}
use mitos_session.Base.Map.Fresh.{AtMost, AtMost-mono, insert-AtMost, remove-AtMost, lookup_above}
use mitos_session.Auth.{AuthPolicy, AuthRequest, AuthOutcome, Authenticator, check}
use mitos_session.Elevation.Timeouts.{cancel_prompt, start_lockout, expired_lockouts}
use mitos_session.Elevation.{
  ElevationPolicy, SessionElevationAuth, default_auth, PendingElevation, ElevationManager, new,
  auth_entry, open_prompt, begin, closes, settle, arm, close_if, attempt, cancel, clear_all,
  clear_expired_lockouts, take_abandoned, take_all, settle, new, arm,
}

-- No id and no timer stands twice; no id is above the counter; exactly the pending prompts have a
-- prompt timer; a session that is locked out has a lockout timer.
pub record Inv (m : ElevationManager) : Type 0 where
  pub ids : IsMap m.pending
  pub prompts : IsMap m.timeouts.prompt_expiry
  pub lockouts : IsMap m.timeouts.lockout_expiry
  pub handed_out : AtMost m.next_id m.pending
  pub timed :
      (id : ℕ) → is_some (lookup id m.timeouts.prompt_expiry) ≡ is_some (lookup id m.pending)
  pub locked_timed :
      (s : ℕ)
      → (auth_entry m s).locked_out ≡ true
      → is_some (lookup s m.timeouts.lockout_expiry) ≡ true

pub new-Inv : Inv new
new-Inv = record {
  ids = tt;
  prompts = tt;
  lockouts = tt;
  handed_out = tt;
  timed = λ id. refl;
  locked_timed = λ s h. ground arith;
}

-- An id that the counter has not reached.
pub next_fresh :
    (m : ElevationManager)
    → m.next_id + 1 < 18446744073709551616
    → Inv m
    → lookup (inc_u64 m.next_id) m.pending ≡ none
next_fresh m h v = lookup_above m.next_id (inc_u64 m.next_id) m.pending v.handed_out (omega arith)

open_prompt-Inv :
    (m : ElevationManager) (s c r : ℕ) (p : ElevationPolicy) (now : ℕ)
    → m.next_id + 1 < 18446744073709551616
    → Inv m
    → Inv (open_prompt m s c r p now)
unfolding open_prompt
open_prompt-Inv m s c r p now h v =
    let id = inc_u64 m.next_id in
    let q : PendingElevation = record { session_id = s; compositor_conn = c; requester_conn = r } in
    record {
      ids = insert-IsMap id q m.pending v.ids;
      prompts = insert-IsMap id (now + p.prompt_timeout) m.timeouts.prompt_expiry v.prompts;
      lockouts = v.lockouts;
      handed_out =
          insert-AtMost id id q m.pending (omega arith)
            (AtMost-mono m.next_id id m.pending (omega arith) v.handed_out);
      timed = λ k. ground (
        arith,
        lookup-insert id k q m.pending,
        lookup-insert id k (now + p.prompt_timeout) m.timeouts.prompt_expiry,
        v.timed k,
      );
      locked_timed = v.locked_timed;
    }

pub begin-Inv :
    (m : ElevationManager) (s c r : ℕ) (p : ElevationPolicy) (ap : AuthPolicy) (now : ℕ)
    → m.next_id + 1 < 18446744073709551616
    → Inv m
    → Inv (begin m s c r p ap now).1
unfolding begin
begin-Inv m s c r p ap now h v = ground (arith, open_prompt-Inv m s c r p now h v)

-- Removing a prompt together with its timer.
remove_prompt : ElevationManager → ℕ → ElevationManager
unfolding cancel_prompt
remove_prompt m id = record m {
  pending = remove id m.pending;
  timeouts = cancel_prompt m.timeouts id;
}

remove_prompt-Inv : (m : ElevationManager) (id : ℕ) → Inv m → Inv (remove_prompt m id)
unfolding remove_prompt
remove_prompt-Inv m id v = record {
  ids = remove-IsMap id m.pending v.ids;
  prompts = remove-IsMap id m.timeouts.prompt_expiry v.prompts;
  lockouts = v.lockouts;
  handed_out = remove-AtMost m.next_id id m.pending v.handed_out;
  timed = λ k.
      ground (
        arith,
        lookup-remove id k m.pending,
        lookup-remove id k m.timeouts.prompt_expiry,
        v.timed k,
      );
  locked_timed = v.locked_timed;
}

pub cancel-Inv : (m : ElevationManager) (id : ℕ) → Inv m → Inv (cancel m id).1
unfolding cancel
cancel-Inv m id v = unfold remove_prompt in ground (arith, remove_prompt-Inv m id v)

pub take_abandoned-Inv : (m : ElevationManager) (id : ℕ) → Inv m → Inv (take_abandoned m id).1
unfolding take_abandoned remove_prompt
take_abandoned-Inv m id v = remove_prompt-Inv m id v

pub take_all-Inv : (ids : List ℕ) (m : ElevationManager) → Inv m → Inv (take_all ids m).1
unfolding take_all
take_all-Inv [] m v = v
take_all-Inv (id ∷ ids) m v = take_all-Inv ids (take_abandoned m id).1 (take_abandoned-Inv m id v)

settled-Inv :
    (m : ElevationManager) (s n now lockout : ℕ) (o : AuthOutcome)
    → Inv m
    → Inv (record m {
      session_auth = insert s (settle o n (auth_entry m s)) m.session_auth;
      timeouts = arm o s now lockout m.timeouts;
    })
unfolding start_lockout
settled-Inv m s n now lockout (AuthOutcome.locked_out secs) v = record {
  ids = v.ids;
  prompts = v.prompts;
  lockouts = insert-IsMap s (now + lockout) m.timeouts.lockout_expiry v.lockouts;
  handed_out = v.handed_out;
  timed = v.timed;
  locked_timed = λ k h. ground (
    arith,
    lookup-insert s k (record { locked_out = true; attempts = n }) m.session_auth,
    lookup-insert s k (now + lockout) m.timeouts.lockout_expiry,
    v.locked_timed k,
  );
}
settled-Inv m s n now lockout o v = record {
  ids = v.ids;
  prompts = v.prompts;
  lockouts = v.lockouts;
  handed_out = v.handed_out;
  timed = v.timed;
  locked_timed = λ k h.
      ground
        (arith, lookup-insert s k (settle o n (auth_entry m s)) m.session_auth, v.locked_timed k);
}

close_if-Inv : (b : Bool) (id : ℕ) (m : ElevationManager) → Inv m → Inv (close_if b id m)
unfolding close_if remove_prompt
close_if-Inv false id m v = v
close_if-Inv true id m v = remove_prompt-Inv m id v

pub attempt-Inv :
    (m : ElevationManager) (id : ℕ) (a : Authenticator) (r : AuthRequest) (p : AuthPolicy) (now : ℕ)
    → Inv m
    → Inv (attempt m id a r p now).1
unfolding attempt
attempt-Inv m id a r p now v = elim (Option-cases (lookup id m.pending)) [
  | inl e ↦ rw (e, attempt) v
  | inr (q, e) ↦
      let (o, n) = check a r p (auth_entry m q.session_id).attempts in
      rw (e, attempt)
        (close_if-Inv (closes o) id _ (settled-Inv m q.session_id n now p.lockout o v))
]

lookup-clear_all :
    (ss : List ℕ) (a : Map ℕ SessionElevationAuth) (s : ℕ)
    → lookup s (clear_all ss a) ≡ (
        if has_key ss s
        then Option.map (λ _. record { locked_out = false; attempts = 0 }) (lookup s a)
        else lookup s a)
unfolding clear_all
lookup-clear_all [] a s = refl
lookup-clear_all (k ∷ ss) a s =
    let reset : SessionElevationAuth → SessionElevationAuth =
      λ _. record { locked_out = false; attempts = 0 } in
    ground (arith, lookup-clear_all ss (adjust k reset a) s, lookup-adjust k s reset a)

-- The sweep of `clear_expired_lockouts`: the lockout of a session ends exactly when its timer is
-- due, and the other sessions keep their state and their timers.
pub clear_expired_lockouts_lem :
    (m : ElevationManager) (now s : ℕ)
    → IsMap m.timeouts.lockout_expiry
    → (auth_entry (clear_expired_lockouts m now) s ≡ (
        if passes (λ t. leb t now) (lookup s m.timeouts.lockout_expiry)
        then default_auth
        else auth_entry m s))
      × (lookup s (clear_expired_lockouts m now).timeouts.lockout_expiry ≡ (
          if passes (λ t. leb t now) (lookup s m.timeouts.lockout_expiry)
          then none
          else lookup s m.timeouts.lockout_expiry))
unfolding clear_expired_lockouts
clear_expired_lockouts_lem m now s h = ground (
  arith,
  lookup-clear_all (expired_lockouts m.timeouts now).0 m.session_auth s,
  has_key-keys_where (λ (k t : ℕ). leb t now) m.timeouts.lockout_expiry s h,
  lookup-remove_where (λ (k t : ℕ). leb t now) m.timeouts.lockout_expiry s h,
)

pub clear_expired_lockouts-Inv :
    (m : ElevationManager) (now : ℕ) → Inv m → Inv (clear_expired_lockouts m now)
unfolding clear_expired_lockouts
clear_expired_lockouts-Inv m now v = record {
  ids = v.ids;
  prompts = v.prompts;
  lockouts =
      remove_all-IsMap (expired_lockouts m.timeouts now).0 m.timeouts.lockout_expiry v.lockouts;
  handed_out = v.handed_out;
  timed = v.timed;
  locked_timed =
      λ s h. ground (arith, clear_expired_lockouts_lem m now s v.lockouts, v.locked_timed s);
}
