-- ===== src/Lock/Expiry.antt =====
-- Every lockout ends: the lockout timers of src/lock/timeout.rs against the states of
-- src/lock/lock.rs, over any history of calls.
use mitos_session.Base.{
  ℕ, ◌≡◌, refl, Bool, true, none, List, [], ◌∷◌, arith, leb, if◌then◌else◌, is_some,
}
use mitos_session.Base.Map.{lookup, IsMap, id_key}
use mitos_session.Base.Map.Keys.{passes, has_key-keys_where, lookup-remove_where}
use mitos_session.Auth.{Authenticator}
use mitos_session.Lock.{
  locked_out, LockManager, new, entry, settle, release, clear_lockout, clear_lockouts,
  expire_lockouts, release, new, entry, settle,
}
use mitos_session.Lock.Timeouts.{expired_lockouts}
use mitos_session.Lock.Unlocking.{Call, step, lookup-clear_lockouts}

-- The timers are a map, and each session that is locked out has one.
pub record Inv (m : LockManager) : Type 0 where
  pub timers : IsMap m.timeouts.lockout_expiry
  pub timed :
      (s : ℕ) → (entry m s).state ≡ locked_out → is_some (lookup s m.timeouts.lockout_expiry) ≡ true

abbrev pub due : ℕ → ℕ → Bool
due now t = leb t now

timeouts-clear_lockouts :
    (m : LockManager) (ss : List ℕ) → (clear_lockouts m ss).timeouts ≡ m.timeouts
unfolding clear_lockouts
timeouts-clear_lockouts m [] = refl
timeouts-clear_lockouts m (s ∷ ss) = timeouts-clear_lockouts (clear_lockout m s) ss

-- The sweep of `on_idle_tick`: a locked-out session whose timer is due goes back to `Locked` with a
-- fresh counter, and no other session changes; exactly the timers that are due are gone.
pub expire_lockouts_lem :
    (m : LockManager) (now s : ℕ)
    → IsMap m.timeouts.lockout_expiry
    → (entry (expire_lockouts m now) s ≡ (
        if passes (due now) (lookup s m.timeouts.lockout_expiry)
        then release (entry m s)
        else entry m s))
      × (lookup s (expire_lockouts m now).timeouts.lockout_expiry ≡ (
          if passes (due now) (lookup s m.timeouts.lockout_expiry)
          then none
          else lookup s m.timeouts.lockout_expiry))
unfolding expire_lockouts
expire_lockouts_lem m now s h =
    let m' = record m { timeouts = (expired_lockouts m.timeouts now).1 } in
    let gone = (expired_lockouts m.timeouts now).0 in
    ground (
      arith,
      lookup-clear_lockouts m' gone s,
      timeouts-clear_lockouts m' gone,
      has_key-keys_where (λ (k t : ℕ). leb t now) m.timeouts.lockout_expiry s h,
      lookup-remove_where (λ (k t : ℕ). leb t now) m.timeouts.lockout_expiry s h,
    )

unfoldable pub run : Authenticator → LockManager → List Call → LockManager
run a m [] = m
run a m (c ∷ cs) = run a (step a m c) cs
