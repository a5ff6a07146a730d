-- ===== src/Launcher.antt =====
-- src/launcher/compositor.rs: what follows when a compositor exits.
pub mod Spawn
mod Tests
use mitos_session.Base.{ℕ, ltb, if◌then◌else◌}

pub data RestartDecision : Type 0 where
  restart fallback_to_terminal : RestartDecision

unfoldable pub decide_restart : ℕ → ℕ → RestartDecision
decide_restart restarts_so_far max_restarts =
    if ltb restarts_so_far max_restarts then restart else fallback_to_terminal
