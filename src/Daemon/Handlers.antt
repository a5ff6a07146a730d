-- ===== src/Daemon/Handlers.antt =====
-- Requests that concern one session (src/main.rs): `create_session`, `try_spawn_compositor`,
-- `lock_session`, `unlock`, and the arms of `dispatch` that end a session, register a compositor and
-- switch the session of a seat. The audit log is not modelled.
use mitos_session.Base.{
  Text, bytes, same_text, lit, ℕ, Bool, true, false, not, Option, none, some, [], ◌∷◌,
  if◌then◌else◌,
}
use mitos_session.Base.Map.{lookup, id_key}
use mitos_session.Errors.{unknown_session, to_string, Result, ok, err, ◌>>=◌}
use mitos_session.Users.{by_name}
use mitos_session.Auth.{AuthRequest, AuthOutcome}
use mitos_session.Session.{try_transition, SessionManager, create_session, get, get, update}
use mitos_session.Session.State.{SessionState, SessionType}
use mitos_session.Seat.{attach_session, switch_active}
use mitos_session.Lock.{LockReason, is_locked, lock, attempt_unlock}
use mitos_session.Config.{lock_policy, auth_policy}
use mitos_session.Policy.{parse_session_type}
use mitos_session.Ipc.{Response, Event}
use mitos_session.Daemon.State.{Host, Daemon, tell, tell_session, move_and_tell, session_info}
use mitos_session.Daemon.Shadow.{user_has_password}

-- `try_spawn_compositor`: a failure is only logged.
unfoldable pub try_spawn_compositor : Host → ℕ → Daemon → Daemon
unfolding update
try_spawn_compositor host id d = elim (lookup id d.sessions.sessions) [
  | none ↦ d
  | some ctx ↦
      elim (host.spawn_compositor ctx.user ctx.environment d.settings.session.compositor_binary) [
        | err e ↦ d
        | ok pid ↦ record d {
          sessions = update d.sessions id (λ c. record c { compositor_process = some pid });
        }
      ]
]

-- The session type that a request names, or the default.
abbrev pub requested_type : Option Text → Text → SessionType
unfolding parse_session_type
requested_type none default_type = parse_session_type default_type
requested_type (some t) default_type =
    if same_text t (bytes "x11")
    then SessionType.x11
    else if same_text t (bytes "tty")
    then SessionType.tty
    else parse_session_type default_type

abbrev pub requested_seat : Option Text → Text → Text
requested_seat none default_seat = default_seat
requested_seat (some s) default_seat = s

abbrev pub is_tty : SessionType → Bool
is_tty SessionType.tty = true
is_tty SessionType.wayland = false
is_tty SessionType.x11 = false

-- `SessionStatus`, and the end of `create_session`.
unfoldable pub status_reply : SessionManager → ℕ → Response
unfolding get session_info
status_reply m id = elim (get m id) [
  | ok ctx ↦ Response.session (session_info ctx)
  | err e ↦ Response.failed (to_string e)
]

-- What happens once the session is there.
unfoldable pub start_session : Host → Text → SessionType → ℕ → Daemon → Response × Daemon
unfolding try_spawn_compositor status_reply
start_session host seat_id type id d =
    let seated = record d { seats = attach_session d.seats seat_id id } in
    let d' = if is_tty type then seated else try_spawn_compositor host id seated in
    (status_reply d'.sessions id, d')

unfoldable pub handle_create_session :
    Host → Text → Option Text → Option Text → Daemon → Response × Daemon
unfolding create_session start_session by_name
handle_create_session host user_name seat_id session_type d =
    elim (by_name host.accounts user_name) [
      | err e ↦ (Response.failed (to_string e), d)
      | ok user ↦
          let seat = requested_seat seat_id d.settings.seat.default_seat in
          let type = requested_type session_type d.settings.session.default_session_type in
          let (created, sessions) =
            create_session host.session_host d.sessions user seat type d.settings.session in
          elim created [
            | err e ↦ (Response.failed (to_string e), record d { sessions = sessions })
            | ok id ↦ start_session host seat type id (record d { sessions = sessions })
          ]
    ]

unfoldable pub handle_register_compositor : ℕ → ℕ → Daemon → Response × Daemon
unfolding update try_transition is_locked
handle_register_compositor conn_id session_id d = elim (lookup session_id d.sessions.sessions) [
  | none ↦ (Response.failed (to_string (unknown_session session_id)), d)
  | some ctx ↦
      let next =
        if is_locked d.locks session_id then SessionState.locked else SessionState.active in
      let d' = record d {
        sessions =
            update d.sessions session_id
              (λ c. try_transition (record c { compositor_conn = some conn_id }) next);
      } in
      (
        Response.done,
        if is_locked d.locks session_id
            then tell conn_id (Event.show_lock_screen session_id LockReason.manual) d'
            else d',
      )
]

-- The check in front of a manual and of an idle lock: the session is there and its user has no
-- usable password.
unfoldable pub has_no_password : Host → ℕ → Daemon → Bool
unfolding user_has_password
has_no_password host session_id d = elim (lookup session_id d.sessions.sessions) [
  | none ↦ false
  | some ctx ↦ not (user_has_password host.shadow ctx.session.user_name)
]

-- `LockManager::lock`, and what follows if it succeeds.
unfoldable pub lock_and_show : ℕ → LockReason → Daemon → Result Daemon
unfolding lock move_and_tell
lock_and_show session_id reason d = do
  locks ← lock d.locks session_id (lock_policy d.settings.lock)
  ok (
      move_and_tell session_id SessionState.locked (Event.show_lock_screen session_id reason)
        (record d { locks = locks }))

unfoldable pub handle_lock_session : Host → ℕ → LockReason → Daemon → Response × Daemon
unfolding has_no_password lock_and_show
handle_lock_session host session_id reason d =
    if has_no_password host session_id d
    then (Response.failed (lit "Lock screen disabled: No password set for this user." ∷ []), d)
    else elim (lock_and_show session_id reason d) [
      | ok d' ↦ (Response.done, d')
      | err e ↦ (Response.failed (to_string e), d)
    ]

-- What the session is told of an outcome of an unlock attempt.
unfoldable pub after_unlock : AuthOutcome → ℕ → Daemon → Daemon
unfolding move_and_tell
after_unlock AuthOutcome.success s d =
    move_and_tell s SessionState.active (Event.hide_lock_screen s) d
after_unlock (AuthOutcome.failure n) s d =
    tell_session s (Event.auth_feedback s (AuthOutcome.failure n)) d
after_unlock (AuthOutcome.locked_out secs) s d =
    tell_session s (Event.auth_feedback s (AuthOutcome.locked_out secs)) d
after_unlock (AuthOutcome.error e) s d =
    tell_session s (Event.auth_feedback s (AuthOutcome.error e)) d
after_unlock AuthOutcome.cancelled s d =
    tell_session s (Event.auth_feedback s AuthOutcome.cancelled) d

unfoldable pub handle_unlock : Host → ℕ → Text → Text → Daemon → Response × Daemon
unfolding attempt_unlock after_unlock
handle_unlock host session_id user_name password d =
    let request : AuthRequest = record {
      session_id = session_id;
      user_name = user_name;
      password = password;
    } in
    let (outcome, locks) =
      attempt_unlock d.locks d.authenticator request
        (auth_policy d.settings.authentication d.settings.lock) host.now in
    (Response.auth_result outcome, after_unlock outcome session_id (record d { locks = locks }))

unfoldable pub handle_switch_session : Text → ℕ → Daemon → Response × Daemon
unfolding switch_active
handle_switch_session seat_id session_id d =
    let (switched, seats) = switch_active d.seats seat_id session_id in
    elim switched [
      | err e ↦ (Response.failed (to_string e), d)
      | ok previous ↦ (
        Response.done,
        tell_session session_id (Event.session_activated seat_id session_id)
            (record d { seats = seats }),
      )
    ]
