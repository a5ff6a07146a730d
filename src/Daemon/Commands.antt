-- ===== src/Daemon/Commands.antt =====
-- What a message does to the registry of sessions (src/main.rs): the requests on prompts, and then
-- all requests.
use mitos_session.Base.{
  Text, lit, ℕ, ◌+◌, ◌<◌, ◌≡◌, refl, inl, inr, Option, none, some, [], ◌∷◌, arith, Bool-cases,
  Option-cases,
}
use mitos_session.Base.Map.{lookup, id_key}
use mitos_session.Errors.{Result, Result-cases}
use mitos_session.Auth.{AuthRequest}
use mitos_session.Session.{SessionContext, SessionManager}
use mitos_session.Lock.{LockReason, LockManager, attempt_unlock, release_inhibitor}
use mitos_session.Lock.Inhibitor.{InhibitWhat, blocks}
use mitos_session.Elevation.{peek, begin, attempt, cancel, abandon_connection}
use mitos_session.Elevation.Action.{ElevationAction, validate, ElevationResponse}
use mitos_session.Config.{elevation_policy, auth_policy, elevation_auth_policy}
use mitos_session.Ipc.{Request, Response, unregister, ManagerCommand, ManagerMessage}
use mitos_session.Power.{reboot, poweroff}
use mitos_session.Daemon.State.{Host, Daemon}
use mitos_session.Daemon.Handlers.{handle_unlock}
use mitos_session.Daemon.Prompts.{
  open_on, start_for, start_elevation, check_answer, answer_with, respond_elevation,
}
use mitos_session.Daemon.Dispatch.{
  suspend_all, dispatch, send_reply, handle_command, forget_conn, handle_disconnected, handle_ipc,
}
use mitos_session.Daemon.Shadow.{user_has_password}
use mitos_session.Daemon.Records.{Held, terminate_all-Held, forget-Held}
use mitos_session.Policy.{authorize}
use mitos_session.Daemon.Handled.{
  notify_all-sessions, resolve-sessions, create-Held, terminate-Held, register-Held, switch-Held,
  handle_lock-Held, after_unlock-Held,
}

open-sessions :
    (host : Host) (conn s : ℕ) (action : ElevationAction) (c : ℕ) (d : Daemon)
    → (open_on host conn s action c d).1.sessions ≡ d.sessions
unfolding open_on
open-sessions host conn s action c d =
    let b =
      begin d.elevation s c conn (elevation_policy d.settings.elevation)
        (elevation_auth_policy d.settings.elevation) host.now in
    elim (Result-cases b.0) [
      | inl (id, e) ↦ rw (e, open_on) refl
      | inr (x, e) ↦ rw (e, open_on) refl
    ]

for-sessions :
    (host : Host) (conn s : ℕ) (action : ElevationAction) (ctx : SessionContext) (d : Daemon)
    → (start_for host conn s action ctx d).1.sessions ≡ d.sessions
unfolding start_for
for-sessions host conn s action ctx d =
    elim (Bool-cases (user_has_password host.shadow ctx.session.user_name)) [
      | inr e ↦ ground (arith, e)
      | inl e ↦ elim (Option-cases ctx.compositor_conn) [
        | inl f ↦ ground (arith, e, f)
        | inr (c, f) ↦ rw (e, f, start_for) (open-sessions host conn s action c d)
      ]
    ]

start-sessions :
    (host : Host) (conn s : ℕ) (action : ElevationAction) (d : Daemon)
    → (start_elevation host conn s action d).1.sessions ≡ d.sessions
unfolding start_elevation
start-sessions host conn s action d = elim (Option-cases (validate action)) [
  | inr (m, e) ↦ ground (arith, e)
  | inl e ↦ elim (Bool-cases d.settings.elevation.enabled) [
    | inr f ↦ ground (arith, e, f)
    | inl f ↦ elim (Option-cases (lookup s d.sessions.sessions)) [
      | inl g ↦ ground (arith, e, f, g)
      | inr (ctx, g) ↦
          let same : start_elevation host conn s action d ≡ start_for host conn s action ctx d =
            ground (arith, e, f, g) in
          rw same (for-sessions host conn s action ctx d)
    ]
  ]
]

check-sessions :
    (host : Host) (id s : ℕ) (w : Text) (d : Daemon)
    → (check_answer host id s w d).1.sessions ≡ d.sessions
unfolding check_answer
check-sessions host id s w d = elim (Option-cases (lookup s d.sessions.sessions)) [
  | inl e ↦ ground (arith, e)
  | inr (ctx, e) ↦
      let r : AuthRequest = record {
        session_id = s;
        user_name = ctx.session.user_name;
        password = w;
      } in
      let a =
        attempt d.elevation id d.authenticator r (elevation_auth_policy d.settings.elevation)
          host.now in
      rw (e, check_answer) (resolve-sessions id a.0 (record d { elevation = a.1 }))
]

answer-sessions :
    (host : Host) (id s : ℕ) (answer : ElevationResponse) (d : Daemon)
    → (answer_with host id answer s d).1.sessions ≡ d.sessions
unfolding answer_with
answer-sessions host id s ElevationResponse.cancelled d =
    let c = cancel d.elevation id in resolve-sessions id c.0 (record d { elevation = c.1 })
answer-sessions host id s (ElevationResponse.password w) d = check-sessions host id s w d

respond-sessions :
    (host : Host) (id : ℕ) (answer : ElevationResponse) (d : Daemon)
    → (respond_elevation host id answer d).1.sessions ≡ d.sessions
unfolding respond_elevation
respond-sessions host id answer d = elim (Option-cases (peek d.elevation id)) [
  | inl e ↦ ground (arith, e)
  | inr (info, e) ↦ rw (e, respond_elevation) (answer-sessions host id info.session_id answer d)
]

reboot-Held :
    (n : ℕ) (m : SessionManager) (l : LockManager) (b : Result (Unit {0}))
    → Held n m
    → Held n (reboot m l b).1
unfolding reboot
reboot-Held n m l b h = elim (Bool-cases (blocks l.inhibitors InhibitWhat.shutdown)) [
  | inl e ↦ rw e h
  | inr e ↦ rw e (terminate_all-Held n m h)
]

poweroff-Held :
    (n : ℕ) (m : SessionManager) (l : LockManager) (b : Result (Unit {0}))
    → Held n m
    → Held n (poweroff m l b).1
unfolding poweroff
poweroff-Held n m l b h = elim (Bool-cases (blocks l.inhibitors InhibitWhat.shutdown)) [
  | inl e ↦ rw e h
  | inr e ↦ rw e (terminate_all-Held n m h)
]

release-sessions :
    (host : Host) (conn id : ℕ) (d : Daemon)
    → (dispatch host conn (Request.release_inhibit id) d).1.sessions ≡ d.sessions
unfolding dispatch
release-sessions host conn id d = elim (Result-cases (release_inhibitor d.locks id)) [
  | inl (l, e) ↦ rw (e, dispatch) refl
  | inr (x, e) ↦ rw (e, dispatch) refl
]

abbrev pub more : {n : ℕ} {m : SessionManager} → Held n m → Held (n + 1) m
more h = (h.0, omega (arith, h.1))

dispatch-Held :
    (n : ℕ) (host : Host) (conn : ℕ) (r : Request) (d : Daemon)
    → n + 1 < 4294967296
    → Held n d.sessions
    → Held (n + 1) (dispatch host conn r d).1.sessions
unfolding dispatch
dispatch-Held n host conn (Request.create_session name seat type) d few h =
    create-Held n host name seat type d few h
dispatch-Held n host conn (Request.terminate_session t) d few h = more (terminate-Held n t d h)
dispatch-Held n host conn (Request.register_compositor t) d few h =
    more (register-Held n conn t d h)
dispatch-Held n host conn Request.list_sessions d few h = more h
dispatch-Held n host conn (Request.session_status t) d few h = more h
dispatch-Held n host conn (Request.lock_session t) d few h =
    more (handle_lock-Held n host t LockReason.manual d h)
dispatch-Held n host conn (Request.unlock t name password) d few h =
    let r : AuthRequest = record { session_id = t; user_name = name; password = password } in
    let p = auth_policy d.settings.authentication d.settings.lock in
    let (o, l) = attempt_unlock d.locks d.authenticator r p host.now in
    more (unfold handle_unlock in after_unlock-Held n o t (record d { locks = l }) h)
dispatch-Held n host conn (Request.report_activity seat) d few h = more h
dispatch-Held n host conn (Request.switch_session seat t) d few h = more (switch-Held n seat t d h)
dispatch-Held n host conn (Request.inhibit what who why mode) d few h = more h
dispatch-Held n host conn (Request.release_inhibit id) d few h =
    more (rw (release-sessions host conn id d) h)
dispatch-Held n host conn Request.list_inhibitors d few h = more h
dispatch-Held n host conn Request.suspend d few h = more (unfold suspend_all in h)
dispatch-Held n host conn Request.reboot d few h =
    more (reboot-Held n d.sessions d.locks host.backend_reboot h)
dispatch-Held n host conn Request.power_off d few h =
    more (poweroff-Held n d.sessions d.locks host.backend_poweroff h)
dispatch-Held n host conn (Request.request_elevation t action) d few h =
    more (rw (start-sessions host conn t action d) h)
dispatch-Held n host conn (Request.respond_elevation id answer) d few h =
    more (rw (respond-sessions host id answer d) h)

send_reply-sessions :
    (conn : ℕ) (r : Option Response × Daemon) → (send_reply conn r).sessions ≡ r.1.sessions
send_reply-sessions conn (none, d) = refl
send_reply-sessions conn (some x, d) = refl

command-Held :
    (n : ℕ) (host : Host) (cmd : ManagerCommand) (d : Daemon)
    → n + 1 < 4294967296
    → Held n d.sessions
    → Held (n + 1) (handle_command host cmd d).sessions
unfolding handle_command
command-Held n host cmd d few h =
    elim (Result-cases
      (authorize host.accounts cmd.peer cmd.conn_id cmd.request d.sessions d.elevation)) [
        | inr (x, e) ↦ rw (e, handle_command) (more h)
        | inl (_, e) ↦
            rw (e, handle_command)
              (rw (send_reply-sessions cmd.conn_id (dispatch host cmd.conn_id cmd.request d))
                (dispatch-Held n host cmd.conn_id cmd.request d few h))
      ]

pub handle_ipc-Held :
    (n : ℕ) (host : Host) (msg : ManagerMessage) (d : Daemon)
    → n + 1 < 4294967296
    → Held n d.sessions
    → Held (n + 1) (handle_ipc host msg d).sessions
unfolding handle_ipc handle_disconnected
handle_ipc-Held n host (ManagerMessage.connected conn peer outbox) d few h = more h
handle_ipc-Held n host (ManagerMessage.command cmd) d few h = command-Held n host cmd d few h
handle_ipc-Held n host (ManagerMessage.disconnected conn) d few h =
    let a = abandon_connection d.elevation conn in
    more (
      rw
        (notify_all-sessions (lit "a required connection disconnected" ∷ []) a.0 (record d {
          registry = unregister d.registry conn;
          sessions = record d.sessions { sessions = forget_conn conn d.sessions.sessions };
          elevation = a.1;
        }))
        (forget-Held n conn d.sessions h))
