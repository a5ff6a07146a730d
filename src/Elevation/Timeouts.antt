-- ===== src/Elevation/Timeouts.antt =====
-- src/elevation/timeout.rs: the prompt and lockout timers.
use mitos_session.Base.{ℕ, ◌+◌, List, []}
use mitos_session.Base.Map.{Map, insert, remove, drain_expired, id_key}

pub record ElevationTimeouts : Type 0 where
  pub prompt_expiry : Map ℕ ℕ
  pub lockout_expiry : Map ℕ ℕ

abbrev pub empty_timeouts : ElevationTimeouts
empty_timeouts = record { prompt_expiry = []; lockout_expiry = [] }

unfoldable pub start_prompt : ElevationTimeouts → ℕ → ℕ → ℕ → ElevationTimeouts
start_prompt t id now timeout = record t {
  prompt_expiry = insert id (now + timeout) t.prompt_expiry;
}

unfoldable pub cancel_prompt : ElevationTimeouts → ℕ → ElevationTimeouts
cancel_prompt t id = record t { prompt_expiry = remove id t.prompt_expiry }

unfoldable pub expired_prompts : ElevationTimeouts → ℕ → List ℕ × ElevationTimeouts
expired_prompts t now =
    let (due, left) = drain_expired t.prompt_expiry now in (due, record t { prompt_expiry = left })

unfoldable pub start_lockout : ElevationTimeouts → ℕ → ℕ → ℕ → ElevationTimeouts
start_lockout t session now lockout = record t {
  lockout_expiry = insert session (now + lockout) t.lockout_expiry;
}

unfoldable pub expired_lockouts : ElevationTimeouts → ℕ → List ℕ × ElevationTimeouts
expired_lockouts t now =
    let (due, left) = drain_expired t.lockout_expiry now in
    (due, record t { lockout_expiry = left })
