-- ===== src/Daemon/Prompts.antt =====
-- Elevation as the daemon serves it (src/main.rs): `start_elevation`, `respond_elevation` and
-- `notify_elevation_abandoned`, and the end of a session.
use mitos_session.Base.{
  Text, lit, Message, ℕ, Bool, true, false, not, Option, none, some, List, [], ◌∷◌, if◌then◌else◌,
}
use mitos_session.Base.Map.{lookup, id_key}
use mitos_session.Errors.{
  SessionError, unknown_session, unknown_elevation_request, to_string, ok, err,
}
use mitos_session.Auth.{AuthRequest, AuthOutcome}
use mitos_session.Session.{SessionContext, terminate_session}
use mitos_session.Seat.{detach_session}
use mitos_session.Elevation.{
  ElevationOutcome, AbandonedElevation, peek, begin, attempt, cancel, abandon_session, begin,
}
use mitos_session.Elevation.Action.{ElevationAction, validate, ElevationResponse}
use mitos_session.Config.{elevation_policy, elevation_auth_policy}
use mitos_session.Ipc.{Response, Event}
use mitos_session.Daemon.State.{Host, Daemon, tell, reply_to}
use mitos_session.Daemon.Shadow.{user_has_password}

-- The reply to a request that `begin` refused.
abbrev pub refusal : SessionError → Response
refusal (SessionError.locked_out secs) = Response.auth_result (AuthOutcome.locked_out secs)
refusal e = Response.failed (to_string e)

-- `begin`, and the prompt that is pushed to the compositor.
unfoldable pub open_on : Host → ℕ → ℕ → ElevationAction → ℕ → Daemon → Option Response × Daemon
unfolding begin
open_on host conn_id session_id action compositor_conn d =
    let (begun, elevation) =
      begin d.elevation session_id compositor_conn conn_id (elevation_policy d.settings.elevation)
        (elevation_auth_policy d.settings.elevation) host.now in
    elim begun [
      | err e ↦ (some (refusal e), record d { elevation = elevation })
      | ok request_id ↦ (
        none,
        tell compositor_conn (Event.show_elevation_prompt request_id session_id action)
            (record d { elevation = elevation }),
      )
    ]

-- `start_elevation` for a session that is there.
unfoldable pub start_for :
    Host → ℕ → ℕ → ElevationAction → SessionContext → Daemon → Option Response × Daemon
unfolding user_has_password open_on
start_for host conn_id session_id action ctx d =
    if not (user_has_password host.shadow ctx.session.user_name)
    then (
      some (
          Response.auth_result
            (AuthOutcome.error (lit "no password is configured for this account" ∷ []))),
      d,
    )
    else elim ctx.compositor_conn [
      | none ↦ (
        some (Response.failed (lit "session has no active display to show the prompt on" ∷ [])),
        d,
      )
      | some compositor_conn ↦ open_on host conn_id session_id action compositor_conn d
    ]

unfoldable pub start_elevation : Host → ℕ → ℕ → ElevationAction → Daemon → Option Response × Daemon
unfolding validate start_for
start_elevation host conn_id session_id action d = elim (validate action) [
  | some msg ↦ (some (Response.failed msg), d)
  | none ↦
      if not d.settings.elevation.enabled
      then (some (Response.failed (lit "elevation is disabled in config" ∷ [])), d)
      else elim (lookup session_id d.sessions.sessions) [
        | none ↦ (some (Response.failed (to_string (unknown_session session_id))), d)
        | some ctx ↦ start_for host conn_id session_id action ctx d
      ]
]

-- `if resolved.terminal { .. }`.
abbrev pub close_prompt : Bool → ℕ → ElevationOutcome → Daemon → Daemon
close_prompt false id o d = d
close_prompt true id o d =
    reply_to o.requester_conn (Response.auth_result o.outcome)
      (tell o.compositor_conn (Event.hide_elevation_prompt id) d)

-- The end of `respond_elevation`, on what `cancel` or `attempt` resolved.
unfoldable pub resolve : ℕ → Option ElevationOutcome → Daemon → Response × Daemon
resolve id none d = (Response.failed (to_string (unknown_elevation_request id)), d)
resolve id (some o) d = (
  Response.auth_result o.outcome,
  close_prompt o.terminal id o (tell o.compositor_conn (Event.elevation_feedback id o.outcome) d),
)

-- The credential check of `respond_elevation`, for the user of the prompt's session.
unfoldable pub check_answer : Host → ℕ → ℕ → Text → Daemon → Response × Daemon
unfolding attempt resolve
check_answer host id session_id password d = elim (lookup session_id d.sessions.sessions) [
  | none ↦ (Response.failed (to_string (unknown_session session_id)), d)
  | some ctx ↦
      let request : AuthRequest = record {
        session_id = session_id;
        user_name = ctx.session.user_name;
        password = password;
      } in
      let (resolved, elevation) =
        attempt d.elevation id d.authenticator request (elevation_auth_policy d.settings.elevation)
          host.now in
      resolve id resolved (record d { elevation = elevation })
]

unfoldable pub answer_with : Host → ℕ → ElevationResponse → ℕ → Daemon → Response × Daemon
unfolding cancel check_answer
answer_with host id ElevationResponse.cancelled session_id d =
    let (resolved, elevation) = cancel d.elevation id in
    resolve id resolved (record d { elevation = elevation })
answer_with host id (ElevationResponse.password password) session_id d =
    check_answer host id session_id password d

unfoldable pub respond_elevation : Host → ℕ → ElevationResponse → Daemon → Response × Daemon
unfolding peek answer_with
respond_elevation host id answer d = elim (peek d.elevation id) [
  | none ↦ (Response.failed (to_string (unknown_elevation_request id)), d)
  | some info ↦ answer_with host id answer info.session_id d
]

unfoldable pub notify_elevation_abandoned : Message → AbandonedElevation → Daemon → Daemon
notify_elevation_abandoned reason a d =
    reply_to a.requester_conn (Response.auth_result (AuthOutcome.error reason))
      (tell a.compositor_conn (Event.hide_elevation_prompt a.request_id) d)

-- The loop over the abandoned prompts.
unfoldable pub notify_all : Message → List AbandonedElevation → Daemon → Daemon
unfolding notify_elevation_abandoned
notify_all reason [] d = d
notify_all reason (a ∷ rest) d = notify_all reason rest (notify_elevation_abandoned reason a d)

-- The arm of `dispatch` for `TerminateSession`.
unfoldable pub handle_terminate_session : ℕ → Daemon → Response × Daemon
unfolding terminate_session detach_session abandon_session notify_all
handle_terminate_session session_id d =
    let (ended, sessions) = terminate_session d.sessions session_id in
    elim ended [
      | err e ↦ (Response.failed (to_string e), d)
      | ok killed ↦
          let (abandoned, elevation) = abandon_session d.elevation session_id in
          (
            Response.done,
            notify_all (lit "session ended" ∷ []) abandoned (record d {
              sessions = sessions;
              seats = detach_session d.seats session_id;
              elevation = elevation;
            }),
          )
    ]
