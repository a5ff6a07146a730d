-- ===== src/Lock.antt =====
-- src/lock: the lock state of every session, the attempt counter behind it, and its timers
-- (`LockManager`). The inhibitors and the timers are child modules. An `Instant` and a `Duration`
-- are seconds.
pub mod Inhibitor
pub mod Timeouts
pub mod Unlocking
pub mod Expiry
pub mod Bypass
pub mod Tests
use mitos_session.Base.{
  ℕ, Bool, true, false, not, none, some, List, [], ◌∷◌, if◌then◌else◌, Text, lit,
}
use mitos_session.Base.Map.{Map, lookup, insert, adjust, id_key}
use mitos_session.Errors.{permission_denied, unsupported, Result, ok, err, ◌>>=◌}
use mitos_session.Auth.{AuthPolicy, AuthRequest, AuthOutcome, Authenticator, check}
use mitos_session.Lock.Inhibitor.{
  InhibitWhat, InhibitMode, InhibitorRegistry, empty_registry, add, remove_inhibitor, blocks,
}
use mitos_session.Lock.Timeouts.{
  LockTimeouts, empty_timeouts, cancel_grace, start_lockout, expired_lockouts,
}

pub data LockState : Type 0 where
  unlocked locked locked_out : LockState

pub data LockReason : Type 0 where
  manual idle suspend : LockReason

-- lock/policy.rs.
pub record LockPolicy : Type 0 where
  pub enabled : Bool
  pub lock_on_idle : Bool
  pub lock_on_suspend : Bool
  pub grace_period : ℕ

pub record SessionLock : Type 0 where
  pub state : LockState
  pub attempts : ℕ

-- `SessionLock::default()`.
abbrev pub default_lock : SessionLock
default_lock = record { state = unlocked; attempts = 0 }

pub record LockManager : Type 0 where
  pub locks : Map ℕ SessionLock
  pub inhibitors : InhibitorRegistry
  pub timeouts : LockTimeouts

-- `LockManager::default()`.
unfoldable pub new : LockManager
new = record { locks = []; inhibitors = empty_registry; timeouts = empty_timeouts }

-- `locks.entry(session).or_default()`.
abbrev pub entry : LockManager → ℕ → SessionLock
entry m session = elim (lookup session m.locks) [ none ↦ default_lock | some l ↦ l ]

abbrev pub shuts : LockState → Bool
shuts unlocked = false
shuts locked = true
shuts locked_out = true

abbrev pub refuses : LockState → Bool
refuses unlocked = false
refuses locked = false
refuses locked_out = true

unfoldable pub is_locked : LockManager → ℕ → Bool
is_locked m session = elim (lookup session m.locks) [ none ↦ false | some l ↦ shuts l.state ]

-- `locks.entry(session).or_default().state = LockState::Locked`.
abbrev pub engage : LockManager → ℕ → LockManager
engage m session = record m {
  locks = insert session (record { state = locked; attempts = (entry m session).attempts }) m.locks;
}

unfoldable pub lock : LockManager → ℕ → LockPolicy → Result LockManager
unfolding blocks
lock m session policy =
    if not policy.enabled
    then err (unsupported (lit "locking is disabled in config" ∷ []))
    else if blocks m.inhibitors InhibitWhat.lock
    then err (permission_denied (lit "an application is inhibiting the lock screen" ∷ []))
    else ok (engage m session)

unfoldable pub unlock : LockManager → ℕ → LockManager
unfolding cancel_grace
unlock m session = record m {
  locks = adjust session (λ l. record { state = unlocked; attempts = 0 }) m.locks;
  timeouts = cancel_grace m.timeouts session;
}

-- What an outcome of `check` does to the session's entry: `attempts` is the counter after it.
abbrev pub settle : AuthOutcome → ℕ → SessionLock → SessionLock
settle AuthOutcome.success attempts l = record { state = unlocked; attempts = attempts }
settle (AuthOutcome.locked_out secs) attempts l = record { state = locked_out; attempts = attempts }
settle (AuthOutcome.failure n) attempts l = record l { attempts = attempts }
settle (AuthOutcome.error e) attempts l = record l { attempts = attempts }
settle AuthOutcome.cancelled attempts l = record l { attempts = attempts }

abbrev pub arm : AuthOutcome → ℕ → ℕ → ℕ → LockTimeouts → LockTimeouts
arm (AuthOutcome.locked_out secs) session now lockout t = start_lockout t session now lockout
arm AuthOutcome.success session now lockout t = t
arm (AuthOutcome.failure n) session now lockout t = t
arm (AuthOutcome.error e) session now lockout t = t
arm AuthOutcome.cancelled session now lockout t = t

-- The part of `attempt_unlock` behind its early return.
try_unlock : Authenticator → AuthRequest → AuthPolicy → ℕ → LockManager → AuthOutcome × LockManager
unfolding check start_lockout
try_unlock authenticator request policy now m =
    let l = entry m request.session_id in
    let (outcome, attempts) = check authenticator request policy l.attempts in
    (
      outcome,
      record m {
        locks = insert request.session_id (settle outcome attempts l) m.locks;
        timeouts = arm outcome request.session_id now policy.lockout m.timeouts;
      },
    )

unfoldable pub attempt_unlock :
    LockManager → Authenticator → AuthRequest → AuthPolicy → ℕ → AuthOutcome × LockManager
unfolding try_unlock
attempt_unlock m authenticator request policy now =
    if refuses (entry m request.session_id).state
    then (AuthOutcome.locked_out policy.lockout, m)
    else try_unlock authenticator request policy now m

abbrev pub release : SessionLock → SessionLock
release l = if refuses l.state then record { state = locked; attempts = 0 } else l

unfoldable pub clear_lockout : LockManager → ℕ → LockManager
clear_lockout m session = record m { locks = adjust session release m.locks }

-- The loop of `Daemon::on_idle_tick` over the lockouts that are over (src/main.rs).
unfoldable pub clear_lockouts : LockManager → List ℕ → LockManager
unfolding clear_lockout
clear_lockouts m [] = m
clear_lockouts m (s ∷ ss) = clear_lockouts (clear_lockout m s) ss

unfoldable pub expire_lockouts : LockManager → ℕ → LockManager
unfolding clear_lockouts expired_lockouts
expire_lockouts m now =
    let (due, t) = expired_lockouts m.timeouts now in clear_lockouts (record m { timeouts = t }) due

unfoldable pub add_inhibitor :
    LockManager → InhibitWhat → Text → Text → InhibitMode → ℕ × LockManager
unfolding add
add_inhibitor m what who why mode =
    let (id, r) = add m.inhibitors what who why mode in (id, record m { inhibitors = r })

unfoldable pub release_inhibitor : LockManager → ℕ → Result LockManager
unfolding remove_inhibitor
release_inhibitor m id = do r ← remove_inhibitor m.inhibitors id; ok (record m { inhibitors = r })
