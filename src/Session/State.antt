-- ===== src/Session/State.antt =====
-- src/session/state.rs: the lifecycle states and the transitions that are allowed; and the kind of
-- a session (src/session/session.rs).
pub mod Graph
use Prim.Native.String.{String}
use mitos_session.Base.{Bool, true, false, [], ◌∷◌, if◌then◌else◌, lit}
use mitos_session.Errors.{invalid_transition, Result, ok, err}

pub data SessionState : Type 0 where
  starting active idle locked closing closed : SessionState

-- `{state:?}`.
unfoldable pub debug : SessionState → String
debug starting = "Starting"
debug active = "Active"
debug idle = "Idle"
debug locked = "Locked"
debug closing = "Closing"
debug closed = "Closed"

unfoldable pub can_transition_to : SessionState → SessionState → Bool
can_transition_to starting active = true
can_transition_to starting closing = true
can_transition_to starting locked = true
can_transition_to active idle = true
can_transition_to active locked = true
can_transition_to active closing = true
can_transition_to active starting = true
can_transition_to idle active = true
can_transition_to idle locked = true
can_transition_to idle closing = true
can_transition_to idle starting = true
can_transition_to locked active = true
can_transition_to locked closing = true
can_transition_to locked starting = true
can_transition_to closing closed = true
can_transition_to _ _ = false

unfoldable pub transition : SessionState → SessionState → Result SessionState
unfolding can_transition_to debug
transition s next =
    if can_transition_to s next
    then ok next
    else err (invalid_transition (lit (debug s) ∷ lit " -> " ∷ lit (debug next) ∷ []))

unfoldable pub is_locked : SessionState → Bool
is_locked locked = true
is_locked _ = false

pub data SessionType : Type 0 where
  wayland x11 tty : SessionType

unfoldable pub as_xdg_str : SessionType → String
as_xdg_str wayland = "wayland"
as_xdg_str x11 = "x11"
as_xdg_str tty = "tty"
