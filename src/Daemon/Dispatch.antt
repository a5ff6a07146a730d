-- ===== src/Daemon/Dispatch.antt =====
-- `handle_ipc`, `handle_command` and `dispatch` (src/main.rs). The audit log is not modelled.
use mitos_session.Base.{lit, ℕ, Option, none, some, List, [], ◌∷◌, if◌then◌else◌, is_id}
use mitos_session.Base.Map.{Map, values}
use mitos_session.Errors.{to_string, Result, ok, err}
use mitos_session.Session.{SessionContext}
use mitos_session.Idle.{record_activity}
use mitos_session.Lock.{LockReason, add_inhibitor, release_inhibitor}
use mitos_session.Elevation.{abandon_connection}
use mitos_session.Config.{lock_policy}
use mitos_session.Policy.{authorize}
use mitos_session.Power.{suspend, reboot, poweroff}
use mitos_session.Ipc.{
  Request, SessionInfo, Response, register, unregister, ManagerCommand, ManagerMessage,
}
use mitos_session.Daemon.State.{Host, Daemon, reply_to, session_info}
use mitos_session.Daemon.Handlers.{
  status_reply, handle_create_session, handle_register_compositor, handle_lock_session,
  handle_unlock, handle_switch_session,
}
use mitos_session.Daemon.Prompts.{
  start_elevation, respond_elevation, notify_all, handle_terminate_session,
}

abbrev pub outcome_reply : Result (Unit {0}) → Response
outcome_reply (ok _) = Response.done
outcome_reply (err e) = Response.failed (to_string e)

abbrev pub infos : List SessionContext → List SessionInfo
unfolding session_info
infos [] = []
infos (ctx ∷ rest) = session_info ctx ∷ infos rest

-- `power::suspend` on the daemon's state; `on_idle_tick` calls it too.
unfoldable pub suspend_all : Host → Daemon → Result (Unit {0}) × Daemon
unfolding suspend
suspend_all host d =
    let (outcome, locks, registry) =
      suspend d.sessions d.locks (lock_policy d.settings.lock) d.registry host.backend_suspend in
    (outcome, record d { locks = locks; registry = registry })

abbrev pub answered : Response × Daemon → Option Response × Daemon
answered (r, d) = (some r, d)

unfoldable pub dispatch : Host → ℕ → Request → Daemon → Option Response × Daemon
unfolding infos suspend_all handle_create_session handle_terminate_session
    handle_register_compositor handle_lock_session handle_unlock handle_switch_session
    start_elevation respond_elevation record_activity add_inhibitor release_inhibitor reboot
    poweroff status_reply
dispatch host conn_id (Request.create_session name seat type) d =
    answered (handle_create_session host name seat type d)
dispatch host conn_id (Request.terminate_session s) d = answered (handle_terminate_session s d)
dispatch host conn_id (Request.register_compositor s) d =
    answered (handle_register_compositor conn_id s d)
dispatch host conn_id Request.list_sessions d =
    (some (Response.sessions (infos (values d.sessions.sessions))), d)
dispatch host conn_id (Request.session_status s) d = (some (status_reply d.sessions s), d)
dispatch host conn_id (Request.lock_session s) d =
    answered (handle_lock_session host s LockReason.manual d)
dispatch host conn_id (Request.unlock s name password) d =
    answered (handle_unlock host s name password d)
dispatch host conn_id (Request.report_activity seat) d =
    (some Response.done, record d { idle = record_activity d.idle seat host.now })
dispatch host conn_id (Request.switch_session seat s) d = answered (handle_switch_session seat s d)
dispatch host conn_id (Request.inhibit what who why mode) d =
    let (id, locks) = add_inhibitor d.locks what who why mode in
    (some (Response.inhibit_granted id), record d { locks = locks })
dispatch host conn_id (Request.release_inhibit id) d = elim (release_inhibitor d.locks id) [
  | ok locks ↦ (some Response.done, record d { locks = locks })
  | err e ↦ (some (Response.failed (to_string e)), d)
]
dispatch host conn_id Request.list_inhibitors d =
    (some (Response.inhibitors (values d.locks.inhibitors.inhibitors)), d)
dispatch host conn_id Request.suspend d =
    let (outcome, d') = suspend_all host d in (some (outcome_reply outcome), d')
dispatch host conn_id Request.reboot d =
    let (outcome, sessions) = reboot d.sessions d.locks host.backend_reboot in
    (some (outcome_reply outcome), record d { sessions = sessions })
dispatch host conn_id Request.power_off d =
    let (outcome, sessions) = poweroff d.sessions d.locks host.backend_poweroff in
    (some (outcome_reply outcome), record d { sessions = sessions })
dispatch host conn_id (Request.request_elevation s action) d =
    start_elevation host conn_id s action d
dispatch host conn_id (Request.respond_elevation id answer) d =
    answered (respond_elevation host id answer d)

-- `if let Some(response) = self.dispatch(..) { send_response(conn_id, response) }`.
abbrev pub send_reply : ℕ → Option Response × Daemon → Daemon
send_reply conn_id (none, d) = d
send_reply conn_id (some r, d) = reply_to conn_id r d

unfoldable pub handle_command : Host → ManagerCommand → Daemon → Daemon
unfolding authorize dispatch
handle_command host cmd d =
    elim (authorize host.accounts cmd.peer cmd.conn_id cmd.request d.sessions d.elevation) [
      | err e ↦ reply_to cmd.conn_id (Response.failed (to_string e)) d
      | ok _ ↦ send_reply cmd.conn_id (dispatch host cmd.conn_id cmd.request d)
    ]

-- The loop of `Disconnected` over the sessions.
abbrev pub forget_conn : ℕ → Map ℕ SessionContext → Map ℕ SessionContext
forget_conn conn [] = []
forget_conn conn ((k, ctx) ∷ m) =
    (k, if is_id ctx.compositor_conn conn then record ctx { compositor_conn = none } else ctx)
    ∷ forget_conn conn m

unfoldable pub handle_disconnected : ℕ → Daemon → Daemon
unfolding unregister abandon_connection notify_all
handle_disconnected conn d =
    let (abandoned, elevation) = abandon_connection d.elevation conn in
    notify_all (lit "a required connection disconnected" ∷ []) abandoned (record d {
      registry = unregister d.registry conn;
      sessions = record d.sessions { sessions = forget_conn conn d.sessions.sessions };
      elevation = elevation;
    })

unfoldable pub handle_ipc : Host → ManagerMessage → Daemon → Daemon
unfolding register handle_disconnected handle_command
handle_ipc host (ManagerMessage.connected conn peer outbox) d = record d {
  registry = register d.registry conn outbox;
}
handle_ipc host (ManagerMessage.disconnected conn) d = handle_disconnected conn d
handle_ipc host (ManagerMessage.command cmd) d = handle_command host cmd d
