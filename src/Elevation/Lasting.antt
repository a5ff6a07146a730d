-- ===== src/Elevation/Lasting.antt =====
-- A prompt over any history of calls of the manager (src/elevation/manager.rs): its timer is never
-- moved, so it is never pending for ever.
use mitos_session.Base.Map.{lookup, insert, lookup-insert, lookup-remove, id_key}
use mitos_session.Base.Map.Keys.{lookup-remove_all}
use mitos_session.Base.Map.Fresh.{lookup_above}
use mitos_session.Base.{
  ℕ, ◌+◌, ◌≤◌, ◌<◌, ◌≡◌, refl, ◌⊎◌, inl, inr, Bool, true, false, none, some, List, [], ◌∷◌, arith,
  Option-cases, length, Has, inc_u64, leb, Bool-cases,
}
use mitos_session.Auth.{AuthPolicy, AuthRequest, AuthOutcome, Authenticator, check}
use mitos_session.Elevation.Timeouts.{
  ElevationTimeouts, start_prompt, start_lockout, cancel_prompt, expired_lockouts,
}
use mitos_session.Elevation.{
  ElevationPolicy, PendingElevation, ElevationManager, auth_entry, new, set_requester_uid,
  of_session, open_prompt, begin, closes, settle, arm, close_if, attempt, cancel,
  clear_expired_lockouts, expire_pending, abandon_where, abandon_session, involves,
  abandon_connection,
}
use mitos_session.Base.Map.{keys_where}
use mitos_session.Elevation.Invariant.{Inv, new-Inv}
use mitos_session.Elevation.Abandon.{describe, without, take_all-state}
use mitos_session.Elevation.Expire.{
  pending-expire_pending, prompts-expire_pending, expire_pending_lem,
}
use mitos_session.Elevation.History.{
  Call, begins, attempts, cancels, clears, expires, ends, drops, configures, step, run, step-Inv,
  step-next_id, run-Inv, run-next_id,
}

-- The prompt `q` with its timer at `t` under the id, or no prompt at all.
abbrev pub Lasts : ℕ → PendingElevation → ℕ → ElevationManager → Type 0
Lasts id q t m =
    (lookup id m.pending ≡ none)
    ⊎ ((lookup id m.pending ≡ some q) × (lookup id m.timeouts.prompt_expiry ≡ some t))

arm-prompts :
    (o : AuthOutcome) (s now lockout : ℕ) (t : ElevationTimeouts)
    → (arm o s now lockout t).prompt_expiry ≡ t.prompt_expiry
unfolding start_lockout
arm-prompts AuthOutcome.success s now lockout t = refl
arm-prompts (AuthOutcome.locked_out secs) s now lockout t = refl
arm-prompts (AuthOutcome.failure n) s now lockout t = refl
arm-prompts (AuthOutcome.error e) s now lockout t = refl
arm-prompts AuthOutcome.cancelled s now lockout t = refl

module _ (id : ℕ) (q : PendingElevation) (t : ℕ) where
  close_if-Lasts :
      (b : Bool) (k : ℕ) (m : ElevationManager) → Lasts id q t m → Lasts id q t (close_if b k m)
  unfolding close_if cancel_prompt
  close_if-Lasts false k m h = h
  close_if-Lasts true k m h =
      ground (arith, lookup-remove k id m.pending, lookup-remove k id m.timeouts.prompt_expiry)

  attempt-Lasts :
      (m : ElevationManager) (k : ℕ) (r : AuthRequest) (a : Authenticator) (p : AuthPolicy)
      (now : ℕ)
      → Lasts id q t m
      → Lasts id q t (attempt m k a r p now).1
  unfolding attempt
  attempt-Lasts m k r a p now h = elim (Option-cases (lookup k m.pending)) [
    | inl e ↦ rw (e, attempt) h
    | inr (b, e) ↦
        let old = auth_entry m b.session_id in
        let (o, n) = check a r p old.attempts in
        let settled : ElevationManager = record m {
          session_auth = insert b.session_id (settle o n old) m.session_auth;
          timeouts = arm o b.session_id now p.lockout m.timeouts;
        } in
        rw (e, attempt)
          (close_if-Lasts (closes o) k settled
            (rw (arm-prompts o b.session_id now p.lockout m.timeouts) h))
  ]

  begin-Lasts :
      (m : ElevationManager) (s c r : ℕ) (p : ElevationPolicy) (ap : AuthPolicy) (now : ℕ)
      → id ≤ m.next_id
      → m.next_id + 1 < 18446744073709551616
      → Lasts id q t m
      → Lasts id q t (begin m s c r p ap now).1
  unfolding begin open_prompt start_prompt
  begin-Lasts m s c r p ap now old room h =
      let new_id = inc_u64 m.next_id in
      let b : PendingElevation = record {
        session_id = s;
        compositor_conn = c;
        requester_conn = r;
      } in
      ground (
        arith,
        lookup-insert new_id id b m.pending,
        lookup-insert new_id id (now + p.prompt_timeout) m.timeouts.prompt_expiry,
      )

  without-Lasts :
      (ks : List ℕ) (m : ElevationManager) → Lasts id q t m → Lasts id q t (without ks m)
  without-Lasts ks m h =
      ground
        (arith, lookup-remove_all ks id m.pending, lookup-remove_all ks id m.timeouts.prompt_expiry)

  step-Lasts :
      (m : ElevationManager) (c : Call)
      → id ≤ m.next_id
      → m.next_id + 1 < 18446744073709551616
      → Inv m
      → Lasts id q t m
      → Lasts id q t (step m c)
  unfolding step
  step-Lasts m (begins s c r p ap now) old room v h = begin-Lasts m s c r p ap now old room h
  step-Lasts m (attempts k r a ap now) old room v h = attempt-Lasts m k r a ap now h
  step-Lasts m (cancels k) old room v h =
      unfold cancel in
      ground (arith, lookup-remove k id m.pending, lookup-remove k id m.timeouts.prompt_expiry)
  step-Lasts m (clears now) old room v h = unfold clear_expired_lockouts expired_lockouts in h
  step-Lasts m (expires now) old room v h =
      ground (arith, pending-expire_pending m now id v, prompts-expire_pending m now id v)
  step-Lasts m (ends s) old room v h =
      unfold abandon_session abandon_where in
      let ks = keys_where (λ (_ : ℕ) (b : PendingElevation). of_session s b) m.pending in
      rw (take_all-state ks m) (without-Lasts ks m h)
  step-Lasts m (drops c) old room v h =
      unfold abandon_connection abandon_where in
      let ks = keys_where (λ (_ : ℕ) (b : PendingElevation). involves c b) m.pending in
      rw (take_all-state ks m) (without-Lasts ks m h)
  step-Lasts m (configures uid) old room v h = unfold set_requester_uid in h

  pub run-Lasts :
      (m : ElevationManager) (cs : List Call)
      → id ≤ m.next_id
      → m.next_id + length cs < 18446744073709551616
      → Inv m
      → Lasts id q t m
      → Lasts id q t (run m cs) × (id ≤ (run m cs).next_id)
  unfolding run
  run-Lasts m [] old room v h = (h, old)
  run-Lasts m (c ∷ cs) old room v h =
      let count = step-next_id m c (omega arith) in
      run-Lasts (step m c) cs (omega (arith, count)) (omega (arith, count))
        (step-Inv m c (omega arith) v) (step-Lasts m c old (omega arith) v h)

  -- What the sweep for prompts that timed out does to a lasting prompt.
  pub expire-Lasts :
      (m : ElevationManager) (now : ℕ)
      → Inv m
      → Lasts id q t m
      → (t ≤ now
          → (lookup id (expire_pending m now).1.pending ≡ none)
            × (lookup id m.pending ≡ some q → Has (describe id q) (expire_pending m now).0))
        × (now < t → lookup id (expire_pending m now).1.pending ≡ lookup id m.pending)
  expire-Lasts m now v h =
      let (_, left, _, _, _, told, _) = expire_pending_lem m now id v in
      elim h [
        | inl gone ↦ (
          λ due. (ground (arith, left, gone), λ e. absurd (cc)),
          λ early. ground (arith, left, gone),
        )
        | inr (open_now, armed) ↦ (
          λ due. (ground (arith, left, armed), λ e. told q e (ground (arith, armed))),
          λ early. ground (arith, left, armed),
        )
      ]

  pub pending-Lasts :
      (m : ElevationManager)
      → Inv m
      → lookup id m.pending ≡ some q
      → lookup id m.timeouts.prompt_expiry ≡ some t
      → id ≤ m.next_id
  pending-Lasts m v e armed = elim (Bool-cases (leb id m.next_id)) [
    | inl le ↦ ground arith
    | inr above ↦
        absurd
          (let none_there = lookup_above m.next_id id m.pending v.handed_out (ground arith) in cc)
  ]

-- The timer of a pending prompt.
pub timer_of :
    (m : ElevationManager) (id : ℕ) (q : PendingElevation)
    → Inv m
    → lookup id m.pending ≡ some q
    → (t : ℕ) × (lookup id m.timeouts.prompt_expiry ≡ some t)
timer_of m id q v e = elim (Option-cases (lookup id m.timeouts.prompt_expiry)) [
  | inl none_armed ↦ absurd (ground (arith, v.timed id))
  | inr (t, armed) ↦ (t, armed)
]

-- No prompt is pending for ever. Let a prompt be pending after any history of calls, each with
-- policies, an authenticator and an instant of its own. It has an instant `t` that no further call
-- moves: after any further calls, fewer than 2^64 in all, a sweep at `t` or later leaves no such
-- prompt, and reports it with its connections if it was still pending; a sweep before `t` leaves it
-- pending if it was.
pub pending_expires :
    (cs : List Call) (id : ℕ) (q : PendingElevation)
    → length cs < 18446744073709551616
    → lookup id (run new cs).pending ≡ some q
    → (t : ℕ) × ((ds : List Call) (now : ℕ)
        → length cs + length ds < 18446744073709551616
        → let m = run (run new cs) ds in
          (t ≤ now
            → (lookup id (expire_pending m now).1.pending ≡ none)
              × (lookup id m.pending ≡ some q → Has (describe id q) (expire_pending m now).0))
          × (now < t → lookup id (expire_pending m now).1.pending ≡ lookup id m.pending))
pending_expires cs id q few e =
    let m = run new cs in
    let v = run-Inv new cs (omega arith) new-Inv in
    let count = run-next_id new cs (omega arith) in
    let (t, armed) = timer_of m id q v e in
    let old = pending-Lasts id q t m v e armed in
    (
      t,
      λ ds now room.
          let later = run-Inv m ds (omega (arith, count)) v in
          let (lasts, _) = run-Lasts id q t m ds old (omega (arith, count)) v (inr (e, armed)) in
          expire-Lasts id q t (run m ds) now later lasts,
    )
