-- ===== src/Lock/Unlocking.antt =====
-- What can end a lock: src/lock/lock.rs, with the calls that src/main.rs makes.
use mathlib.Core.Option
use mitos_session.Base.{
  ℕ, ◌≡◌, refl, ◌≢◌, ◌⊎◌, inl, true, some, List, [], ◌∷◌, arith, if◌then◌else◌, Text,
}
use mitos_session.Base.Map.{lookup, lookup-insert, lookup-adjust, id_key}
use mitos_session.Base.Map.Keys.{has_key}
use mitos_session.Errors.{Result, ok, err}
use mitos_session.Auth.{AuthPolicy, AuthRequest, AuthOutcome, Authenticator, check}
use mitos_session.Lock.Inhibitor.{InhibitWhat, InhibitMode}
use mitos_session.Lock.Timeouts.{expired_lockouts}
use mitos_session.Lock.{
  locked, locked_out, LockPolicy, LockManager, entry, is_locked, lock, settle, attempt_unlock,
  release, clear_lockout, clear_lockouts, expire_lockouts, add_inhibitor, release_inhibitor,
}

-- An attempt for one session leaves the entry of every other session alone.
pub attempt_unlock-others :
    (m : LockManager) (a : Authenticator) (r : AuthRequest) (p : AuthPolicy) (now s : ℕ)
    → r.session_id ≢ s
    → lookup s (attempt_unlock m a r p now).1.locks ≡ lookup s m.locks
unfolding attempt_unlock
attempt_unlock-others m a r p now s h = ground (
  arith,
  lookup-insert r.session_id s
      (settle (check a r p (entry m r.session_id).attempts).0
        (check a r p (entry m r.session_id).attempts).1 (entry m r.session_id))
      m.locks,
)

-- While a session is locked out an attempt changes nothing, and the credential is not looked at:
-- the reply is the same for every authenticator.
pub attempt_unlock_locked_out :
    (m : LockManager) (a : Authenticator) (r : AuthRequest) (p : AuthPolicy) (now : ℕ)
    → (entry m r.session_id).state ≡ locked_out
    → attempt_unlock m a r p now ≡ (AuthOutcome.locked_out p.lockout, m)
unfolding attempt_unlock
attempt_unlock_locked_out m a r p now h = ground arith

-- For a session that is not locked out, the outcome of an attempt is that of `check` on the
-- session's own counter, and the entry is settled by it: opened on a success, locked out on a
-- lockout, and else left with the new counter.
pub attempt_unlock-entry :
    (m : LockManager) (a : Authenticator) (r : AuthRequest) (p : AuthPolicy) (now : ℕ)
    → (entry m r.session_id).state ≢ locked_out
    → let (o, m') = attempt_unlock m a r p now in
      let (o', n) = check a r p (entry m r.session_id).attempts in
      (o ≡ o') × (lookup r.session_id m'.locks ≡ some (settle o' n (entry m r.session_id)))
unfolding attempt_unlock
attempt_unlock-entry m a r p now h = ground (
  arith,
  lookup-insert r.session_id r.session_id
      (settle (check a r p (entry m r.session_id).attempts).0
        (check a r p (entry m r.session_id).attempts).1 (entry m r.session_id))
      m.locks,
)

-- One call of the lock manager by the daemon.
pub data Call : Type 0 where
  locks : ℕ → LockPolicy → Call
  attempts : AuthRequest → AuthPolicy → ℕ → Call
  expires : ℕ → Call
  inhibits : InhibitWhat → Text → Text → InhibitMode → Call
  releases : ℕ → Call

-- A refused call leaves the manager as it was.
abbrev pub after : LockManager → Result LockManager → LockManager
after m (ok m') = m'
after m (err e) = m

abbrev pub step : Authenticator → LockManager → Call → LockManager
step a m (locks s p) = after m (lock m s p)
step a m (attempts r p now) = (attempt_unlock m a r p now).1
step a m (expires now) = expire_lockouts m now
step a m (inhibits what who why mode) = (add_inhibitor m what who why mode).1
step a m (releases id) = after m (release_inhibitor m id)

-- The call presents a credential for session `s` that the authenticator accepts.
abbrev pub Opens : Authenticator → ℕ → Call → Type 0
Opens a s (attempts r p now) = (r.session_id ≡ s) × (a r ≡ ok tt)
Opens a s (locks t p) = ⊥
Opens a s (expires now) = ⊥
Opens a s (inhibits what who why mode) = ⊥
Opens a s (releases id) = ⊥

pub lookup-clear_lockouts :
    (m : LockManager) (ss : List ℕ) (s : ℕ)
    → lookup s (clear_lockouts m ss).locks
      ≡ (if has_key ss s then Option.map release (lookup s m.locks) else lookup s m.locks)
unfolding clear_lockouts
lookup-clear_lockouts m [] s = refl
lookup-clear_lockouts m (k ∷ ss) s =
    ground
      (arith, lookup-clear_lockouts (clear_lockout m k) ss s, lookup-adjust k s release m.locks)

pub lock-is_locked :
    (m : LockManager) (t s : ℕ) (p : LockPolicy)
    → is_locked m s ≡ true
    → is_locked (after m (lock m t p)) s ≡ true
unfolding lock is_locked
lock-is_locked m t s p h =
    ground (
      arith,
      lookup-insert t s (record { state = locked; attempts = (entry m t).attempts }) m.locks,
    )

pub expire-is_locked :
    (m : LockManager) (now s : ℕ)
    → is_locked m s ≡ true
    → is_locked (expire_lockouts m now) s ≡ true
unfolding expire_lockouts is_locked
expire-is_locked m now s h = ground (
  arith,
  lookup-clear_lockouts (record m { timeouts = (expired_lockouts m.timeouts now).1 })
      (expired_lockouts m.timeouts now).0 s,
)

attempt-is_locked :
    (a : Authenticator) (m : LockManager) (r : AuthRequest) (p : AuthPolicy) (now s : ℕ)
    → is_locked m s ≡ true
    → (is_locked (attempt_unlock m a r p now).1 s ≡ true) ⊎ ((r.session_id ≡ s) × (a r ≡ ok tt))
unfolding attempt_unlock is_locked
attempt-is_locked a m r p now s h = ground (
  arith,
  lookup-insert r.session_id s
      (settle (check a r p (entry m r.session_id).attempts).0
        (check a r p (entry m r.session_id).attempts).1 (entry m r.session_id))
      m.locks,
)

pub release-is_locked :
    (m : LockManager) (id s : ℕ)
    → is_locked m s ≡ true
    → is_locked (after m (release_inhibitor m id)) s ≡ true
unfolding release_inhibitor is_locked
release-is_locked m id s h = ground arith

-- Of the calls that the daemon makes, only a credential for the session that the authenticator accepts
-- opens its lock.
pub step-is_locked :
    (a : Authenticator) (m : LockManager) (c : Call) (s : ℕ)
    → is_locked m s ≡ true
    → (is_locked (step a m c) s ≡ true) ⊎ Opens a s c
step-is_locked a m (locks t p) s h = inl (lock-is_locked m t s p h)
step-is_locked a m (attempts r p now) s h = attempt-is_locked a m r p now s h
step-is_locked a m (expires now) s h = inl (expire-is_locked m now s h)
step-is_locked a m (inhibits what who why mode) s h = inl (unfold add_inhibitor is_locked in h)
step-is_locked a m (releases id) s h = inl (release-is_locked m id s h)
