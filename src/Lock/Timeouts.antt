-- ===== src/Lock/Timeouts.antt =====
-- src/lock/timeout.rs: the grace and lockout timers, each a map from a session to the instant at
-- which it is due.
use mitos_session.Base.{ℕ, ◌+◌, List, []}
use mitos_session.Base.Map.{Map, insert, remove, drain_expired, id_key}

pub record LockTimeouts : Type 0 where
  pub grace_expiry : Map ℕ ℕ
  pub lockout_expiry : Map ℕ ℕ

abbrev pub empty_timeouts : LockTimeouts
empty_timeouts = record { grace_expiry = []; lockout_expiry = [] }

unfoldable pub start_grace : LockTimeouts → ℕ → ℕ → ℕ → LockTimeouts
start_grace t session now grace = record t {
  grace_expiry = insert session (now + grace) t.grace_expiry;
}

unfoldable pub cancel_grace : LockTimeouts → ℕ → LockTimeouts
cancel_grace t session = record t { grace_expiry = remove session t.grace_expiry }

unfoldable pub expired_grace : LockTimeouts → ℕ → List ℕ × LockTimeouts
expired_grace t now =
    let (due, left) = drain_expired t.grace_expiry now in (due, record t { grace_expiry = left })

unfoldable pub start_lockout : LockTimeouts → ℕ → ℕ → ℕ → LockTimeouts
start_lockout t session now lockout = record t {
  lockout_expiry = insert session (now + lockout) t.lockout_expiry;
}

unfoldable pub expired_lockouts : LockTimeouts → ℕ → List ℕ × LockTimeouts
expired_lockouts t now =
    let (due, left) = drain_expired t.lockout_expiry now in
    (due, record t { lockout_expiry = left })
