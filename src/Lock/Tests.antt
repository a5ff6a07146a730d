-- ===== src/Lock/Tests.antt =====
-- The theorems on locking at concrete inputs.
use mitos_session.Base.{◌≡◌, refl, true, false, none, List, [], ◌∷◌, arith, bytes, ℕ_discrete}
use mitos_session.Base.Map.{lookup, id_key}
use mitos_session.Errors.{ok}
use mitos_session.Auth.Tests.{three_tries, guess, accepts}
use mitos_session.Lock.{
  locked, locked_out, LockPolicy, LockManager, new, entry, is_locked, engage, lock, attempt_unlock,
  new, entry,
}
use mitos_session.Lock.Inhibitor.{
  InhibitWhat, InhibitMode, empty_registry, add, remove_inhibitor, blocks,
}
use mitos_session.Lock.Inhibitor.Laws.{add-remove_inhibitor}
use mitos_session.Lock.Unlocking.{attempt_unlock-others, Call, locks, attempts}
use mitos_session.Lock.Bypass.{lock_ends_lockout}

abbrev pub may_lock : LockPolicy
may_lock = record { enabled = true; lock_on_idle = true; lock_on_suspend = true; grace_period = 5 }

-- Session 1 is locked.
abbrev pub locked_one : LockManager
locked_one = record new { locks = (1, record { state = locked; attempts = 0 }) ∷ [] }

-- Session 1 is locked out until 130.
abbrev shut_out : LockManager
shut_out = record new {
  locks = (1, record { state = locked_out; attempts = 3 }) ∷ [];
  timeouts = record { grace_expiry = []; lockout_expiry = (1, 130) ∷ [] };
}

-- Three wrong passwords for session 1 at 100, 101 and 102.
abbrev three_guesses : List Call
three_guesses =
    locks 1 may_lock
    ∷ attempts (guess 1 []) three_tries 100
    ∷ attempts (guess 1 []) three_tries 101
    ∷ attempts (guess 1 []) three_tries 102
    ∷ []

attempt_unlock-others_example :
    lookup 2 (attempt_unlock locked_one accepts (guess 1 []) three_tries 110).1.locks ≡ none
unfolding new ℕ_discrete
attempt_unlock-others_example =
    attempt_unlock-others locked_one accepts (guess 1 []) three_tries 110 2 (omega arith)

add-remove_inhibitor_example :
    let (id, q) =
      add empty_registry InhibitWhat.lock (bytes "player") (bytes "a film") InhibitMode.block in
    remove_inhibitor q id ≡ ok (record q { inhibitors = [] })
add-remove_inhibitor_example =
    (add-remove_inhibitor empty_registry InhibitWhat.lock InhibitWhat.lock (bytes "player")
      (bytes "a film") InhibitMode.block (omega arith) (record { ids = tt; handed_out = tt })).2

lock_ends_lockout_example :
    is_locked (attempt_unlock (engage shut_out 1) accepts (guess 1 []) three_tries 103).1 1 ≡ false
unfolding new ℕ_discrete blocks
lock_ends_lockout_example =
    (lock_ends_lockout shut_out accepts (guess 1 []) may_lock three_tries 103 refl refl refl).2 refl
