-- ===== src/Lock/Bypass.antt =====
-- How `LockManager::lock` and `attempt_unlock` (src/lock/lock.rs) meet: locking a session that is
-- locked out puts it back to plain `Locked`.
use mitos_session.Base.{ℕ, ◌≡◌, ◌≢◌, ◌⊎◌, true, false, arith}
use mitos_session.Base.Map.{lookup, lookup-insert, id_key}
use mitos_session.Errors.{ok, is_ok}
use mitos_session.Auth.{AuthPolicy, AuthRequest, Authenticator, check}
use mitos_session.Lock.Inhibitor.{InhibitWhat, blocks}
use mitos_session.Lock.{
  locked, locked_out, LockPolicy, LockManager, entry, is_locked, engage, lock, attempt_unlock,
}
use mitos_session.Auth.Check.{check-success_iff}
use mitos_session.Lock.Unlocking.{attempt_unlock-entry, after}

-- `lock` is refused, and changes nothing, exactly when locking is disabled or a `Block` inhibitor
-- on the lock is held. Otherwise the session is locked with its counter kept, and no other entry
-- changes.
pub lock_lem :
    (m : LockManager) (s t : ℕ) (p : LockPolicy)
    → (((p.enabled ≡ false) ⊎ (blocks m.inhibitors InhibitWhat.lock ≡ true))
        × (is_ok (lock m s p) ≡ false)
        × (after m (lock m s p) ≡ m))
      ⊎ ((p.enabled ≡ true)
          × (blocks m.inhibitors InhibitWhat.lock ≡ false)
          × (is_ok (lock m s p) ≡ true)
          × (is_locked (after m (lock m s p)) s ≡ true)
          × ((entry (after m (lock m s p)) s).attempts ≡ (entry m s).attempts)
          × (s ≢ t → lookup t (after m (lock m s p)).locks ≡ lookup t m.locks))
unfolding lock is_locked blocks
lock_lem m s t p = ground (
  arith,
  lookup-insert s s (record { state = locked; attempts = (entry m s).attempts }) m.locks,
  lookup-insert s t (record { state = locked; attempts = (entry m s).attempts }) m.locks,
)

entry-engage :
    (m : LockManager) (s : ℕ)
    → entry (engage m s) s ≡ record { state = locked; attempts = (entry m s).attempts }
entry-engage m s =
    ground (
      arith,
      lookup-insert s s (record { state = locked; attempts = (entry m s).attempts }) m.locks,
    )

-- A lockout does not outlast a call of `lock`. For a session that is locked out, where locking is
-- enabled and not inhibited, `lock` succeeds at once; and the attempt that follows is checked
-- against the credential again, so an accepted one unlocks, at any time `now`.
pub lock_ends_lockout :
    (m : LockManager) (a : Authenticator) (r : AuthRequest) (lp : LockPolicy) (p : AuthPolicy)
    (now : ℕ)
    → (entry m r.session_id).state ≡ locked_out
    → lp.enabled ≡ true
    → blocks m.inhibitors InhibitWhat.lock ≡ false
    → (lock m r.session_id lp ≡ ok (engage m r.session_id))
      × ((attempt_unlock (engage m r.session_id) a r p now).0
          ≡ (check a r p (entry m r.session_id).attempts).0)
      × (a r ≡ ok tt
          → is_locked (attempt_unlock (engage m r.session_id) a r p now).1 r.session_id ≡ false)
unfolding lock
lock_ends_lockout m a r lp p now h e b =
    let same = entry-engage m r.session_id in
    let free : (entry (engage m r.session_id) r.session_id).state ≢ locked_out =
      rw same (λ q. cc) in
    let (outcome, stored) = attempt_unlock-entry (engage m r.session_id) a r p now free in
    (
      unfold blocks in ground (arith, b),
      rw same at outcome,
      λ good.
          unfold is_locked check in
          ground
            (arith, same, stored, good, check-success_iff a r p (entry m r.session_id).attempts),
    )
