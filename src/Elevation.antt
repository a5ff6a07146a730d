-- ===== src/Elevation.antt =====
-- src/elevation: the pending verification prompts and the attempt and lockout state behind them
-- (`ElevationManager`). The display data and the timers are child modules.
pub mod Action
pub mod Timeouts
pub mod Begin
pub mod Attempt
pub mod Abandon
pub mod Invariant
pub mod History
pub mod Lasting
pub mod Expire
pub mod Tests
use mitos_session.Base.{
  ℕ, Bool, true, false, ◌||◌, Option, none, some, List, [], ◌∷◌, leb, ◌==◌, if◌then◌else◌, inc_u64,
  is_id, lit, num,
}
use mitos_session.Base.Map.{Map, lookup, insert, remove, adjust, keys_where, id_key}
use mitos_session.Base.Map.Fresh.{count_where}
use mitos_session.Errors.{permission_denied, Result, ok, err, locked_out}
use mitos_session.Auth.{AuthPolicy, AuthRequest, AuthOutcome, Authenticator, check}
use mitos_session.Elevation.Timeouts.{
  ElevationTimeouts, empty_timeouts, start_prompt, cancel_prompt, expired_prompts, start_lockout,
  expired_lockouts,
}

-- elevation/policy.rs.
pub record ElevationPolicy : Type 0 where
  pub enabled : Bool
  pub prompt_timeout : ℕ
  pub max_pending_per_session : ℕ

pub record SessionElevationAuth : Type 0 where
  pub locked_out : Bool
  pub attempts : ℕ

abbrev pub default_auth : SessionElevationAuth
default_auth = record { locked_out = false; attempts = 0 }

pub record PendingElevation : Type 0 where
  pub session_id : ℕ
  pub compositor_conn : ℕ
  pub requester_conn : ℕ

pub record PendingElevationInfo : Type 0 where
  pub session_id : ℕ
  pub compositor_conn : ℕ

pub record ElevationOutcome : Type 0 where
  pub session_id : ℕ
  pub compositor_conn : ℕ
  pub requester_conn : ℕ
  pub outcome : AuthOutcome
  pub terminal : Bool

pub record AbandonedElevation : Type 0 where
  pub request_id : ℕ
  pub session_id : ℕ
  pub compositor_conn : ℕ
  pub requester_conn : ℕ

pub record ElevationManager : Type 0 where
  pub pending : Map ℕ PendingElevation
  pub next_id : ℕ
  pub session_auth : Map ℕ SessionElevationAuth
  pub timeouts : ElevationTimeouts
  pub requester_uid : Option ℕ

-- `ElevationManager::default()`.
abbrev pub new : ElevationManager
new = record {
  pending = [];
  next_id = 0;
  session_auth = [];
  timeouts = empty_timeouts;
  requester_uid = none;
}

unfoldable pub set_requester_uid : ElevationManager → Option ℕ → ElevationManager
set_requester_uid m uid = record m { requester_uid = uid }

unfoldable pub is_authorized_requester : ElevationManager → ℕ → Bool
is_authorized_requester m uid = is_id m.requester_uid uid

unfoldable pub peek : ElevationManager → ℕ → Option PendingElevationInfo
peek m id = elim (lookup id m.pending) [
  | none ↦ none
  | some p ↦ some (record { session_id = p.session_id; compositor_conn = p.compositor_conn })
]

unfoldable pub compositor_conn_for : ElevationManager → ℕ → Option ℕ
compositor_conn_for m id = elim (lookup id m.pending) [
  | none ↦ none
  | some p ↦ some p.compositor_conn
]

-- `session_auth.entry(session).or_default()`.
abbrev pub auth_entry : ElevationManager → ℕ → SessionElevationAuth
auth_entry m s = elim (lookup s m.session_auth) [ none ↦ default_auth | some a ↦ a ]

abbrev pub of_session : ℕ → PendingElevation → Bool
of_session s p = p.session_id == s

abbrev pub pending_for_session : ElevationManager → ℕ → ℕ
pending_for_session m s = count_where (of_session s) m.pending

-- The insertion at the end of `begin`.
open_prompt : ElevationManager → ℕ → ℕ → ℕ → ElevationPolicy → ℕ → ElevationManager
unfolding start_prompt
open_prompt m session_id compositor_conn requester_conn policy now =
    let id = inc_u64 m.next_id in
    record m {
      pending =
          insert id
            (record {
              session_id = session_id;
              compositor_conn = compositor_conn;
              requester_conn = requester_conn;
            })
            m.pending;
      next_id = id;
      timeouts = start_prompt m.timeouts id now policy.prompt_timeout;
    }

unfoldable pub begin :
    ElevationManager → ℕ → ℕ → ℕ → ElevationPolicy → AuthPolicy → ℕ → Result ℕ × ElevationManager
unfolding open_prompt
begin m session_id compositor_conn requester_conn policy auth_policy now =
    if (auth_entry m session_id).locked_out
    then (err (locked_out auth_policy.lockout), m)
    else if leb policy.max_pending_per_session (pending_for_session m session_id)
    then (
      err (
          permission_denied (
            lit "session "
            ∷ num session_id
            ∷ lit " already has "
            ∷ num (pending_for_session m session_id)
            ∷ lit " elevation prompt(s) pending"
            ∷ [])),
      m,
    )
    else (
      ok (inc_u64 m.next_id),
      open_prompt m session_id compositor_conn requester_conn policy now,
    )

-- The `terminal` of an outcome.
abbrev pub closes : AuthOutcome → Bool
closes AuthOutcome.success = true
closes (AuthOutcome.locked_out secs) = true
closes (AuthOutcome.failure n) = false
closes (AuthOutcome.error e) = true
closes AuthOutcome.cancelled = true

-- The session's entry after `check` left the counter at `n`.
abbrev pub settle : AuthOutcome → ℕ → SessionElevationAuth → SessionElevationAuth
settle AuthOutcome.success n a = record a { attempts = 0 }
settle (AuthOutcome.locked_out secs) n a = record { locked_out = true; attempts = n }
settle (AuthOutcome.failure k) n a = record a { attempts = n }
settle (AuthOutcome.error e) n a = record a { attempts = n }
settle AuthOutcome.cancelled n a = record a { attempts = n }

abbrev pub arm : AuthOutcome → ℕ → ℕ → ℕ → ElevationTimeouts → ElevationTimeouts
arm AuthOutcome.success session now lockout t = t
arm (AuthOutcome.locked_out secs) session now lockout t = start_lockout t session now lockout
arm (AuthOutcome.failure k) session now lockout t = t
arm (AuthOutcome.error e) session now lockout t = t
arm AuthOutcome.cancelled session now lockout t = t

-- `if terminal { pending.remove(&id); timeouts.cancel_prompt(id) }`.
close_if : Bool → ℕ → ElevationManager → ElevationManager
unfolding cancel_prompt
close_if false id m = m
close_if true id m = record m {
  pending = remove id m.pending;
  timeouts = cancel_prompt m.timeouts id;
}

-- `attempt` once the pending request is found.
attempt_on :
    PendingElevation
    → ElevationManager
    → ℕ
    → Authenticator
    → AuthRequest
    → AuthPolicy
    → ℕ
    → Option ElevationOutcome × ElevationManager
unfolding check start_lockout close_if
attempt_on p m id authenticator request auth_policy now =
    let a = auth_entry m p.session_id in
    let (outcome, n) = check authenticator request auth_policy a.attempts in
    (
      some (record {
        session_id = p.session_id;
        compositor_conn = p.compositor_conn;
        requester_conn = p.requester_conn;
        outcome = outcome;
        terminal = closes outcome;
      }),
      close_if (closes outcome) id (record m {
        session_auth = insert p.session_id (settle outcome n a) m.session_auth;
        timeouts = arm outcome p.session_id now auth_policy.lockout m.timeouts;
      }),
    )

unfoldable pub attempt :
    ElevationManager
    → ℕ
    → Authenticator
    → AuthRequest
    → AuthPolicy
    → ℕ
    → Option ElevationOutcome × ElevationManager
unfolding attempt_on
attempt m id authenticator request auth_policy now = elim (lookup id m.pending) [
  | none ↦ (none, m)
  | some p ↦ attempt_on p m id authenticator request auth_policy now
]

unfoldable pub cancel : ElevationManager → ℕ → Option ElevationOutcome × ElevationManager
unfolding cancel_prompt
cancel m id = elim (lookup id m.pending) [
  | none ↦ (none, m)
  | some p ↦ (
    some (record {
      session_id = p.session_id;
      compositor_conn = p.compositor_conn;
      requester_conn = p.requester_conn;
      outcome = AuthOutcome.cancelled;
      terminal = true;
    }),
    record m { pending = remove id m.pending; timeouts = cancel_prompt m.timeouts id },
  )
]

-- The loop of `clear_expired_lockouts` over the sessions whose lockout is over.
unfoldable pub clear_all : List ℕ → Map ℕ SessionElevationAuth → Map ℕ SessionElevationAuth
clear_all [] m = m
clear_all (s ∷ ss) m = clear_all ss (adjust s (λ a. record { locked_out = false; attempts = 0 }) m)

unfoldable pub clear_expired_lockouts : ElevationManager → ℕ → ElevationManager
unfolding expired_lockouts clear_all
clear_expired_lockouts m now =
    let (due, t) = expired_lockouts m.timeouts now in
    record m { session_auth = clear_all due m.session_auth; timeouts = t }

unfoldable pub take_abandoned : ElevationManager → ℕ → Option AbandonedElevation × ElevationManager
unfolding cancel_prompt
take_abandoned m id = (
  elim (lookup id m.pending) [
    | none ↦ none
    | some p ↦ some (record {
      request_id = id;
      session_id = p.session_id;
      compositor_conn = p.compositor_conn;
      requester_conn = p.requester_conn;
    })
  ],
  record m { pending = remove id m.pending; timeouts = cancel_prompt m.timeouts id },
)

abbrev pub push_some {ℓ} : {A : Type ℓ} → Option A → List A → List A
push_some none xs = xs
push_some (some a) xs = a ∷ xs

-- `ids.into_iter().filter_map(|id| self.take_abandoned(id)).collect()`.
unfoldable pub take_all : List ℕ → ElevationManager → List AbandonedElevation × ElevationManager
unfolding take_abandoned
take_all [] m = ([], m)
take_all (id ∷ ids) m =
    let rest = take_all ids (take_abandoned m id).1 in
    (push_some (take_abandoned m id).0 rest.0, rest.1)

unfoldable pub expire_pending : ElevationManager → ℕ → List AbandonedElevation × ElevationManager
unfolding expired_prompts take_all
expire_pending m now =
    let (due, t) = expired_prompts m.timeouts now in take_all due (record m { timeouts = t })

unfoldable pub abandon_where :
    (PendingElevation → Bool) → ElevationManager → List AbandonedElevation × ElevationManager
unfolding take_all
abandon_where predicate m = take_all (keys_where (λ id p. predicate p) m.pending) m

unfoldable pub abandon_session : ElevationManager → ℕ → List AbandonedElevation × ElevationManager
unfolding abandon_where
abandon_session m session_id = abandon_where (of_session session_id) m

abbrev pub involves : ℕ → PendingElevation → Bool
involves conn p = p.compositor_conn == conn || p.requester_conn == conn

unfoldable pub abandon_connection :
    ElevationManager → ℕ → List AbandonedElevation × ElevationManager
unfolding abandon_where
abandon_connection m conn_id = abandon_where (involves conn_id) m
