-- ===== src/Daemon/State.antt =====
-- The state of the daemon (`struct Daemon` of src/main.rs) and the world around it.
use mitos_session.Base.{Text, lit, ℕ, Bool, Option, none, some, [], ◌∷◌}
use mitos_session.Base.Map.{lookup, id_key}
use mitos_session.Errors.{Result, ok, err}
use mitos_session.Users.{User, Accounts, by_name}
use mitos_session.Auth.{Authenticator}
use mitos_session.Session.{SessionContext, try_transition, SessionHost, SessionManager, update}
use mitos_session.Session.State.{SessionState, debug, is_locked}
use mitos_session.Session.Env.{Environment}
use mitos_session.Seat.{SeatManager}
use mitos_session.Idle.{IdleDetector}
use mitos_session.Lock.{LockManager}
use mitos_session.Elevation.{ElevationManager}
use mitos_session.Config.{ElevationSettings, Settings}
use mitos_session.Ipc.{SessionInfo, Response, Event, ConnRegistry, send_response, send_event}

-- What the daemon asks of the host during one callback: the account database, the contents of
-- /etc/shadow, the file system, the launcher, the power backend, the PAM
-- backend for a service, the configuration file and the clock. A spawned process is
-- its pid.
pub record Host : Type 0 where
  pub accounts : Accounts
  pub shadow : Option Text
  pub session_host : SessionHost
  pub spawn_compositor : User → Environment → Text → Result ℕ
  pub spawn_fallback_terminal : User → Environment → Result ℕ
  pub backend_suspend : Result (Unit {0})
  pub backend_reboot : Result (Unit {0})
  pub backend_poweroff : Result (Unit {0})
  pub pam : Text → Authenticator
  pub load_settings : Result Settings
  pub now : ℕ

-- Without the socket's path, which only names a file, and the power backend, which is the host's.
pub record Daemon : Type 0 where
  pub settings : Settings
  pub sessions : SessionManager
  pub seats : SeatManager
  pub locks : LockManager
  pub idle : IdleDetector
  pub registry : ConnRegistry
  pub authenticator : Authenticator
  pub elevation : ElevationManager
  pub should_exit : Bool

-- `self.registry.send_event(..)`.
abbrev pub tell : ℕ → Event → Daemon → Daemon
tell conn e d = record d { registry = send_event d.registry conn e }

-- `self.registry.send_response(..)`.
abbrev pub reply_to : ℕ → Response → Daemon → Daemon
reply_to conn r d = record d { registry = send_response d.registry conn r }

-- `if let Some(c) = ctx.compositor_conn { send_event(c, ..) }`.
abbrev pub tell_compositor : Option ℕ → Event → Daemon → Daemon
tell_compositor none e d = d
tell_compositor (some c) e d = tell c e d

-- `if let Ok(ctx) = self.sessions.get(id) { if let Some(c) = ctx.compositor_conn { .. } }`.
abbrev pub tell_session : ℕ → Event → Daemon → Daemon
tell_session id e d = elim (lookup id d.sessions.sessions) [
  | none ↦ d
  | some ctx ↦ tell_compositor ctx.compositor_conn e d
]

-- `if let Ok(ctx) = self.sessions.get_mut(id) { let _ = ctx.transition(next); .. send_event .. }`.
unfoldable pub move_and_tell : ℕ → SessionState → Event → Daemon → Daemon
unfolding update try_transition
move_and_tell id next e d =
    tell_session id e
      (record d { sessions = update d.sessions id (λ ctx. try_transition ctx next) })

-- `session_info`.
unfoldable pub session_info : SessionContext → SessionInfo
session_info ctx = record {
  id = ctx.session.id;
  uid = ctx.session.uid;
  user_name = ctx.session.user_name;
  seat_id = ctx.session.seat_id;
  session_type = ctx.session.session_type;
  state = lit (debug ctx.state) ∷ [];
  locked = is_locked ctx.state;
  created_at = ctx.session.created_at;
}

-- `resolve_elevation_requester`.
unfoldable pub resolve_elevation_requester : Accounts → ElevationSettings → Option ℕ
resolve_elevation_requester accounts s = elim (by_name accounts s.service_user) [
  | ok u ↦ some u.uid
  | err e ↦ none
]
