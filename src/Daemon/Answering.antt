-- ===== src/Daemon/Answering.antt =====
-- What a message does to the elevation manager (src/main.rs): the requests on prompts, and then
-- all requests.
use mitos_session.Base.{
  Text, lit, ℕ, ◌≡◌, refl, inl, inr, Option, none, some, [], ◌∷◌, arith, Bool-cases, Option-cases,
}
use mitos_session.Base.Map.{lookup, id_key}
use mitos_session.Errors.{Result-cases}
use mitos_session.Auth.{AuthRequest}
use mitos_session.Lock.{LockReason}
use mitos_session.Elevation.{peek, begin, attempt, cancel, abandon_connection}
use mitos_session.Config.{elevation_policy, elevation_auth_policy}
use mitos_session.Policy.{authorize}
use mitos_session.Ipc.{Request, Response, unregister, ManagerCommand, ManagerMessage}
use mitos_session.Daemon.State.{Host, Daemon}
use mitos_session.Daemon.Shadow.{user_has_password}
use mitos_session.Daemon.Handlers.{handle_register_compositor}
use mitos_session.Daemon.Prompts.{
  open_on, start_for, start_elevation, check_answer, answer_with, respond_elevation,
}
use mitos_session.Daemon.Dispatch.{
  suspend_all, dispatch, send_reply, handle_command, forget_conn, handle_disconnected, handle_ipc,
}
use mitos_session.Session.{SessionContext}
use mitos_session.Elevation.Action.{ElevationAction, validate, ElevationResponse}
use mitos_session.Elevation.History.{
  begins, attempts, cancels, drops, step, begins, attempts, cancels, drops,
}
use mitos_session.Daemon.Kept.{notify_all-Kept, resolve-Kept}
use mitos_session.Daemon.Calls.{
  Calls, none_called, called, create-elevation, terminate-Calls, switch-elevation,
  handle_lock-elevation, handle_unlock-elevation, release-elevation,
}

open-Calls :
    (host : Host) (conn s : ℕ) (action : ElevationAction) (c : ℕ) (d : Daemon)
    → Calls d (open_on host conn s action c d).1.elevation
unfolding open_on
open-Calls host conn s action c d =
    let b =
      begin d.elevation s c conn (elevation_policy d.settings.elevation)
        (elevation_auth_policy d.settings.elevation) host.now in
    called
      (begins s c conn (elevation_policy d.settings.elevation)
        (elevation_auth_policy d.settings.elevation) host.now)
      d (open_on host conn s action c d).1.elevation
      (elim (Result-cases b.0) [
        | inl (id, e) ↦ rw (e, open_on) (unfold step in refl)
        | inr (x, e) ↦ rw (e, open_on) (unfold step in refl)
      ])

for-Calls :
    (host : Host) (conn s : ℕ) (action : ElevationAction) (ctx : SessionContext) (d : Daemon)
    → Calls d (start_for host conn s action ctx d).1.elevation
unfolding start_for
for-Calls host conn s action ctx d =
    elim (Bool-cases (user_has_password host.shadow ctx.session.user_name)) [
      | inr e ↦ none_called d _ (ground (arith, e))
      | inl e ↦ elim (Option-cases ctx.compositor_conn) [
        | inl f ↦ none_called d _ (ground (arith, e, f))
        | inr (c, f) ↦ rw (e, f, start_for) (open-Calls host conn s action c d)
      ]
    ]

start-Calls :
    (host : Host) (conn s : ℕ) (action : ElevationAction) (d : Daemon)
    → Calls d (start_elevation host conn s action d).1.elevation
unfolding start_elevation
start-Calls host conn s action d = elim (Option-cases (validate action)) [
  | inr (m, e) ↦ none_called d _ (ground (arith, e))
  | inl e ↦ elim (Bool-cases d.settings.elevation.enabled) [
    | inr f ↦ none_called d _ (ground (arith, e, f))
    | inl f ↦ elim (Option-cases (lookup s d.sessions.sessions)) [
      | inl g ↦ none_called d _ (ground (arith, e, f, g))
      | inr (ctx, g) ↦
          let same : start_elevation host conn s action d ≡ start_for host conn s action ctx d =
            ground (arith, e, f, g) in
          rw same (for-Calls host conn s action ctx d)
    ]
  ]
]

check-Calls :
    (host : Host) (id s : ℕ) (w : Text) (d : Daemon)
    → Calls d (check_answer host id s w d).1.elevation
unfolding check_answer
check-Calls host id s w d = elim (Option-cases (lookup s d.sessions.sessions)) [
  | inl e ↦ none_called d _ (ground (arith, e))
  | inr (ctx, e) ↦
      let r : AuthRequest = record {
        session_id = s;
        user_name = ctx.session.user_name;
        password = w;
      } in
      let a =
        attempt d.elevation id d.authenticator r (elevation_auth_policy d.settings.elevation)
          host.now in
      let kept = resolve-Kept id a.0 (record d { elevation = a.1 }) in
      called (attempts id r d.authenticator (elevation_auth_policy d.settings.elevation) host.now) d
        (check_answer host id s w d).1.elevation (rw (e, check_answer) (unfold step in kept.1))
]

answer-Calls :
    (host : Host) (id s : ℕ) (answer : ElevationResponse) (d : Daemon)
    → Calls d (answer_with host id answer s d).1.elevation
unfolding answer_with
answer-Calls host id s ElevationResponse.cancelled d =
    let c = cancel d.elevation id in
    let kept = resolve-Kept id c.0 (record d { elevation = c.1 }) in
    called (cancels id) d (answer_with host id ElevationResponse.cancelled s d).1.elevation
      (unfold step in kept.1)
answer-Calls host id s (ElevationResponse.password w) d = check-Calls host id s w d

respond-Calls :
    (host : Host) (id : ℕ) (answer : ElevationResponse) (d : Daemon)
    → Calls d (respond_elevation host id answer d).1.elevation
unfolding respond_elevation
respond-Calls host id answer d = elim (Option-cases (peek d.elevation id)) [
  | inl e ↦ none_called d _ (ground (arith, e))
  | inr (info, e) ↦ rw (e, respond_elevation) (answer-Calls host id info.session_id answer d)
]

dispatch-Calls :
    (host : Host) (conn : ℕ) (r : Request) (d : Daemon)
    → Calls d (dispatch host conn r d).1.elevation
unfolding dispatch
dispatch-Calls host conn (Request.create_session name seat type) d =
    none_called d _ (create-elevation host name seat type d)
dispatch-Calls host conn (Request.terminate_session t) d = terminate-Calls t d
dispatch-Calls host conn (Request.register_compositor t) d =
    none_called d _ (unfold handle_register_compositor in ground arith)
dispatch-Calls host conn Request.list_sessions d = none_called d _ refl
dispatch-Calls host conn (Request.session_status t) d = none_called d _ refl
dispatch-Calls host conn (Request.lock_session t) d =
    none_called d _ (handle_lock-elevation host t LockReason.manual d)
dispatch-Calls host conn (Request.unlock t name password) d =
    none_called d _ (handle_unlock-elevation host t name password d)
dispatch-Calls host conn (Request.report_activity seat) d = none_called d _ refl
dispatch-Calls host conn (Request.switch_session seat t) d =
    none_called d _ (switch-elevation seat t d)
dispatch-Calls host conn (Request.inhibit what who why mode) d = none_called d _ refl
dispatch-Calls host conn (Request.release_inhibit id) d =
    none_called d _ (release-elevation host conn id d)
dispatch-Calls host conn Request.list_inhibitors d = none_called d _ refl
dispatch-Calls host conn Request.suspend d = none_called d _ (unfold suspend_all in refl)
dispatch-Calls host conn Request.reboot d = none_called d _ refl
dispatch-Calls host conn Request.power_off d = none_called d _ refl
dispatch-Calls host conn (Request.request_elevation t action) d = start-Calls host conn t action d
dispatch-Calls host conn (Request.respond_elevation id answer) d = respond-Calls host id answer d

send_reply-elevation :
    (conn : ℕ) (r : Option Response × Daemon) → (send_reply conn r).elevation ≡ r.1.elevation
send_reply-elevation conn (none, d) = refl
send_reply-elevation conn (some x, d) = refl

command-Calls :
    (host : Host) (cmd : ManagerCommand) (d : Daemon)
    → Calls d (handle_command host cmd d).elevation
unfolding handle_command
command-Calls host cmd d =
    elim (Result-cases
      (authorize host.accounts cmd.peer cmd.conn_id cmd.request d.sessions d.elevation)) [
        | inr (x, e) ↦ none_called d _ (rw (e, handle_command) refl)
        | inl (_, e) ↦
            rw (e, handle_command)
              (rw (send_reply-elevation cmd.conn_id (dispatch host cmd.conn_id cmd.request d))
                (dispatch-Calls host cmd.conn_id cmd.request d))
      ]

pub handle_ipc-Calls :
    (host : Host) (msg : ManagerMessage) (d : Daemon) → Calls d (handle_ipc host msg d).elevation
unfolding handle_ipc handle_disconnected
handle_ipc-Calls host (ManagerMessage.connected conn peer outbox) d = none_called d _ refl
handle_ipc-Calls host (ManagerMessage.command cmd) d = command-Calls host cmd d
handle_ipc-Calls host (ManagerMessage.disconnected conn) d =
    let a = abandon_connection d.elevation conn in
    let kept = notify_all-Kept (lit "a required connection disconnected" ∷ []) a.0 (record d {
      registry = unregister d.registry conn;
      sessions = record d.sessions { sessions = forget_conn conn d.sessions.sessions };
      elevation = a.1;
    }) in
    called (drops conn) d (handle_ipc host (ManagerMessage.disconnected conn) d).elevation
      (unfold step in kept.1)
