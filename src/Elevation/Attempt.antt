-- ===== src/Elevation/Attempt.antt =====
-- `ElevationManager::attempt` and `cancel` (src/elevation/manager.rs): a prompt is resolved once.
use mitos_session.Base.{
  ℕ, ◌+◌, ◌-◌, ◌≤◌, ◌<◌, ◌≡◌, refl, ◌≢◌, ◌⊎◌, inl, inr, Bool, true, false, Option, none, some,
  arith, leb, inc_u32, Option-cases, Bool-cases,
}
use mitos_session.Base.Map.{lookup, lookup-insert, lookup-remove, id_key}
use mitos_session.Errors.{SessionError, ok, err, Result-cases}
use mitos_session.Auth.{AuthPolicy, AuthRequest, AuthOutcome, Authenticator, check}
use mitos_session.Elevation.Timeouts.{start_lockout}
use mitos_session.Elevation.{
  PendingElevation, ElevationOutcome, ElevationManager, peek, compositor_conn_for, auth_entry,
  settle, attempt, cancel,
}

-- What an attempt on the prompt `q` answers.
abbrev pub answered : PendingElevation → AuthOutcome → Bool → ElevationOutcome
answered q o terminal = record {
  session_id = q.session_id;
  compositor_conn = q.compositor_conn;
  requester_conn = q.requester_conn;
  outcome = o;
  terminal = terminal;
}

module _ (m : ElevationManager) (id : ℕ) (q : PendingElevation) (a : Authenticator)
    (r : AuthRequest) where
  -- The credential is accepted: the prompt is gone, and the session's counter is back at zero.
  abbrev pub Accepted : Option ElevationOutcome → ElevationManager → Type 0
  Accepted res m' =
      (a r ≡ ok tt)
      × (res ≡ some (answered q AuthOutcome.success true))
      × (lookup id m'.pending ≡ none)
      × (auth_entry m' q.session_id ≡ record (auth_entry m q.session_id) { attempts = 0 })

  -- The credential is refused and the counter reaches the limit: the prompt is gone, and the session
  -- is locked out with a timer.
  abbrev pub LastTry : AuthPolicy → ℕ → Option ElevationOutcome → ElevationManager → Type 0
  LastTry p now res m' =
      (e : SessionError) × (a r ≡ err e)
      × (p.max_attempts ≤ inc_u32 (auth_entry m q.session_id).attempts)
      × (res ≡ some (answered q (AuthOutcome.locked_out p.lockout) true))
      × (lookup id m'.pending ≡ none)
      × (auth_entry m' q.session_id
          ≡ record { locked_out = true; attempts = inc_u32 (auth_entry m q.session_id).attempts })
      × (lookup q.session_id m'.timeouts.lockout_expiry ≡ some (now + p.lockout))

  -- The credential is refused with tries left: the prompt stays open and the guess is counted.
  abbrev pub Failed : AuthPolicy → Option ElevationOutcome → ElevationManager → Type 0
  Failed p res m' =
      (e : SessionError) × (a r ≡ err e)
      × (inc_u32 (auth_entry m q.session_id).attempts < p.max_attempts)
      × (res
          ≡ some (
              answered q
                (AuthOutcome.failure
                  (p.max_attempts - inc_u32 (auth_entry m q.session_id).attempts))
                false))
      × (lookup id m'.pending ≡ some q)
      × (auth_entry m' q.session_id ≡ record (auth_entry m q.session_id) {
        attempts = inc_u32 (auth_entry m q.session_id).attempts;
      })

-- An attempt on an unknown id finds nothing and changes nothing. On a pending one no other prompt
-- changes and no other session's counter, and the answer goes to the prompt's session and its two
-- connections. An accepted credential ends the prompt as a success and clears the session's counter.
-- A refused one is counted: if the counter then reaches the limit, the prompt ends as locked out and
-- the session is locked out with a timer, and else it stays open, with the number of tries left.
pub attempt_lem :
    (m : ElevationManager) (id other s : ℕ) (a : Authenticator) (r : AuthRequest) (p : AuthPolicy)
    (now : ℕ)
    → let (res, m') = attempt m id a r p now in
      ((lookup id m.pending ≡ none) × (res ≡ none) × (m' ≡ m))
      ⊎ ((q : PendingElevation) × (lookup id m.pending ≡ some q)
          × (id ≢ other → lookup other m'.pending ≡ lookup other m.pending)
          × (q.session_id ≢ s → auth_entry m' s ≡ auth_entry m s)
          × (Accepted m id q a r res m'
              ⊎ LastTry m id q a r p now res m'
              ⊎ Failed m id q a r p res m'))
unfolding attempt check start_lockout
attempt_lem m id other s a r p now = elim (Option-cases (lookup id m.pending)) [
  | inl e ↦ inl (e, rw (e, attempt) refl, rw (e, attempt) refl)
  | inr (q, e) ↦
      let old = auth_entry m q.session_id in
      let (o, n) = check a r p old.attempts in
      let stored = λ (k : ℕ). lookup-insert q.session_id k (settle o n old) m.session_auth in
      inr (
        q,
        e,
        ground (arith, e, lookup-remove id other m.pending),
        ground (arith, e, stored s),
        elim (Result-cases (a r)) [
          | inl (u, g) ↦ inl (
            g,
            ground (arith, e, g),
            ground (arith, e, g, lookup-remove id id m.pending),
            ground (arith, e, g, stored q.session_id),
          )
          | inr (x, g) ↦ inr (elim (Bool-cases (leb p.max_attempts (inc_u32 old.attempts))) [
            | inl full ↦ inl (
              x,
              g,
              ground (arith, full),
              ground (arith, e, g, full),
              ground (arith, e, g, full, lookup-remove id id m.pending),
              ground (arith, e, g, full, stored q.session_id),
              ground (
                arith,
                e,
                g,
                full,
                lookup-insert q.session_id q.session_id (now + p.lockout) m.timeouts.lockout_expiry,
              ),
            )
            | inr room ↦ inr (
              x,
              g,
              ground (arith, room),
              ground (arith, e, g, room),
              ground (arith, e, g, room),
              ground (arith, e, g, room, stored q.session_id),
            )
          ])
        ],
      )
]

dead :
    (m : ElevationManager) (id : ℕ) (b : Authenticator) (r : AuthRequest) (p : AuthPolicy) (now : ℕ)
    → lookup id m.pending ≡ none
    → (peek m id ≡ none)
      × (compositor_conn_for m id ≡ none)
      × (attempt m id b r p now ≡ (none, m))
      × (cancel m id ≡ (none, m))
unfolding peek compositor_conn_for attempt cancel
dead m id b r p now h = (rw (h, peek), rw (h, compositor_conn_for), rw (h, attempt), rw (h, cancel))

-- Once an attempt has ended a prompt, the id is dead: it cannot be looked up, answered or
-- cancelled, so nobody is answered twice.
pub attempt_once :
    (m : ElevationManager) (id : ℕ) (a b : Authenticator) (r r' : AuthRequest) (p p' : AuthPolicy)
    (now later : ℕ) {o : ElevationOutcome}
    → (attempt m id a r p now).0 ≡ some o
    → o.terminal ≡ true
    → let m' = (attempt m id a r p now).1 in
      (peek m' id ≡ none)
      × (compositor_conn_for m' id ≡ none)
      × (attempt m' id b r' p' later ≡ (none, m'))
      × (cancel m' id ≡ (none, m'))
attempt_once m id a b r r' p p' now later {o} e t =
    let gone : lookup id (attempt m id a r p now).1.pending ≡ none =
      ground (arith, attempt_lem m id id 0 a r p now) in
    dead (attempt m id a r p now).1 id b r' p' later gone

-- Declining a prompt is no guess: it ends the prompt as cancelled for both of its connections, and
-- leaves every counter, every lockout and every other prompt as it was.
pub cancel_lem :
    (m : ElevationManager) (id other : ℕ) (q : PendingElevation)
    → lookup id m.pending ≡ some q
    → let (res, m') = cancel m id in
      (res
        ≡ some (record {
          session_id = q.session_id;
          compositor_conn = q.compositor_conn;
          requester_conn = q.requester_conn;
          outcome = AuthOutcome.cancelled;
          terminal = true;
        }))
      × (lookup id m'.pending ≡ none)
      × (id ≢ other → lookup other m'.pending ≡ lookup other m.pending)
      × (m'.session_auth ≡ m.session_auth)
      × (m'.timeouts.lockout_expiry ≡ m.timeouts.lockout_expiry)
unfolding cancel
cancel_lem m id other q e =
    ground (arith, lookup-remove id id m.pending, lookup-remove id other m.pending)
