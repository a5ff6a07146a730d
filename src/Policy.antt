-- ===== src/Policy.antt =====
-- src/policy: who may make which request (`security_policy.rs`), and the session type that the
-- settings name (`session_policy.rs`). The policies that are copied from settings are in Config.
pub mod Authorize
pub mod Tests
use mitos_session.Base.{
  Text, bytes, same_text, lit, num, ℕ, Option, none, some, [], ◌∷◌, ◌==◌, if◌then◌else◌, is_id,
}
use mitos_session.Errors.{permission_denied, unknown_elevation_request, Result, ok, err}
use mitos_session.Users.{Accounts, by_name}
use mitos_session.Session.{SessionManager, create_session, terminate_session, owner_uid, get}
use mitos_session.Session.State.{SessionType, wayland, x11, tty}
use mitos_session.Elevation.{ElevationManager, is_authorized_requester, compositor_conn_for}
use mitos_session.Ipc.{PeerCred, Request}

-- `parse_session_type`.
unfoldable pub parse_session_type : Text → SessionType
parse_session_type s =
    if same_text s (bytes "x11")
    then SessionType.x11
    else if same_text s (bytes "tty")
    then SessionType.tty
    else SessionType.wayland

-- The closure `owns`.
abbrev pub owns : PeerCred → SessionManager → ℕ → Result (Unit {0})
owns peer sessions session_id = elim (owner_uid sessions session_id) [
  | err e ↦ err e
  | ok uid ↦
      if uid == peer.uid
      then ok tt
      else err (
          permission_denied
            (lit "uid " ∷ num peer.uid ∷ lit " does not own session " ∷ num session_id ∷ []))
]

-- `User::by_name(..).map(|u| u.uid).ok()`.
abbrev pub uid_of : Accounts → Text → Option ℕ
unfolding by_name
uid_of accounts name = elim (by_name accounts name) [ ok u ↦ some u.uid | err e ↦ none ]

-- The `match` of `authorize`.
decide_request :
    Accounts → PeerCred → ℕ → Request → SessionManager → ElevationManager → Result (Unit {0})
unfolding uid_of owner_uid is_authorized_requester compositor_conn_for
decide_request accounts peer conn_id (Request.create_session user_name seat type) sessions
      elevation =
    if is_id (uid_of accounts user_name) peer.uid
    then ok tt
    else err (permission_denied (lit "only root may start a session for another user" ∷ []))
decide_request accounts peer conn_id (Request.terminate_session s) sessions elevation =
    owns peer sessions s
decide_request accounts peer conn_id (Request.register_compositor s) sessions elevation =
    owns peer sessions s
decide_request accounts peer conn_id (Request.session_status s) sessions elevation =
    owns peer sessions s
decide_request accounts peer conn_id (Request.lock_session s) sessions elevation =
    owns peer sessions s
decide_request accounts peer conn_id (Request.switch_session seat s) sessions elevation =
    owns peer sessions s
decide_request accounts peer conn_id (Request.unlock s name password) sessions elevation =
    owns peer sessions s
decide_request accounts peer conn_id Request.list_sessions sessions elevation = ok tt
decide_request accounts peer conn_id (Request.report_activity seat) sessions elevation = ok tt
decide_request accounts peer conn_id (Request.inhibit what who why mode) sessions elevation = ok tt
decide_request accounts peer conn_id (Request.release_inhibit id) sessions elevation = ok tt
decide_request accounts peer conn_id Request.list_inhibitors sessions elevation = ok tt
decide_request accounts peer conn_id Request.suspend sessions elevation = ok tt
decide_request accounts peer conn_id Request.reboot sessions elevation = ok tt
decide_request accounts peer conn_id Request.power_off sessions elevation = ok tt
decide_request accounts peer conn_id (Request.request_elevation s action) sessions elevation =
    if is_authorized_requester elevation peer.uid
    then ok tt
    else err (
        permission_denied
          (lit "only the configured elevation service may open an elevation prompt" ∷ []))
decide_request accounts peer conn_id (Request.respond_elevation id answer) sessions elevation =
    if is_id (compositor_conn_for elevation id) conn_id
    then ok tt
    else err (unknown_elevation_request id)

unfoldable pub authorize :
    Accounts → PeerCred → ℕ → Request → SessionManager → ElevationManager → Result (Unit {0})
unfolding decide_request
authorize accounts peer conn_id request sessions elevation =
    if peer.uid == 0 then ok tt else decide_request accounts peer conn_id request sessions elevation
