-- ===== src/Daemon/Opening.antt =====
-- Over all requests and events (src/main.rs): what opens the lock of a session.
use mitos_session.Base.{Text, lit, ℕ, ◌≡◌, refl, ◌⊎◌, inl, inr, true, Option, none, some, [], ◌∷◌}
use mitos_session.Errors.{ok, Result-cases}
use mitos_session.Auth.{AuthRequest}
use mitos_session.Lock.{LockReason, is_locked, attempt_unlock, add_inhibitor, release_inhibitor}
use mitos_session.Lock.Unlocking.{Call, after, release-is_locked, step-is_locked}
use mitos_session.Elevation.{abandon_connection}
use mitos_session.Config.{auth_policy}
use mitos_session.Policy.{authorize}
use mitos_session.Policy.Authorize.{Allowed, authorize_iff}
use mitos_session.Ipc.{Request, Response, unregister, ManagerCommand, ManagerMessage}
use mitos_session.Daemon.State.{Host, Daemon}
use mitos_session.Daemon.Handlers.{handle_unlock}
use mitos_session.Daemon.Dispatch.{
  dispatch, send_reply, handle_command, forget_conn, handle_disconnected, handle_ipc,
}
use mitos_session.Daemon.Locked.{notify_all-locks, respond-locks, start-locks}
use mitos_session.Daemon.Locking.{
  create-locks, terminate-locks, register-locks, switch-locks, suspend-is_locked,
  handle_lock-is_locked, after_unlock-locks,
}

-- The request presents a credential for the session that the authenticator accepts.
abbrev pub Unlocks : Daemon → ℕ → Request → Type 0
Unlocks d s (Request.unlock t name password) =
    (t ≡ s)
    × (d.authenticator (record { session_id = t; user_name = name; password = password }) ≡ ok tt)
Unlocks d s _ = ⊥

handle_unlock-is_locked :
    (host : Host) (t s : ℕ) (name password : Text) (d : Daemon)
    → is_locked d.locks s ≡ true
    → (is_locked (handle_unlock host t name password d).1.locks s ≡ true)
      ⊎ Unlocks d s (Request.unlock t name password)
unfolding handle_unlock
handle_unlock-is_locked host t s name password d h =
    let r : AuthRequest = record { session_id = t; user_name = name; password = password } in
    let p = auth_policy d.settings.authentication d.settings.lock in
    let (o, l) = attempt_unlock d.locks d.authenticator r p host.now in
    rw (after_unlock-locks o t (record d { locks = l }))
      (step-is_locked d.authenticator d.locks (Call.attempts r p host.now) s h)

release-locks :
    (host : Host) (conn id : ℕ) (d : Daemon)
    → (dispatch host conn (Request.release_inhibit id) d).1.locks
      ≡ after d.locks (release_inhibitor d.locks id)
unfolding dispatch
release-locks host conn id d = elim (Result-cases (release_inhibitor d.locks id)) [
  | inl (l, e) ↦ rw (e, dispatch) refl
  | inr (x, e) ↦ rw (e, dispatch) refl
]

dispatch-is_locked :
    (host : Host) (conn s : ℕ) (r : Request) (d : Daemon)
    → is_locked d.locks s ≡ true
    → (is_locked (dispatch host conn r d).1.locks s ≡ true) ⊎ Unlocks d s r
unfolding dispatch
dispatch-is_locked host conn s (Request.create_session name seat type) d h =
    inl (rw (create-locks host name seat type d) h)
dispatch-is_locked host conn s (Request.terminate_session t) d h = inl (rw (terminate-locks t d) h)
dispatch-is_locked host conn s (Request.register_compositor t) d h =
    inl (rw (register-locks conn t d) h)
dispatch-is_locked host conn s Request.list_sessions d h = inl h
dispatch-is_locked host conn s (Request.session_status t) d h = inl h
dispatch-is_locked host conn s (Request.lock_session t) d h =
    inl (handle_lock-is_locked host t s LockReason.manual d h)
dispatch-is_locked host conn s (Request.unlock t name password) d h =
    handle_unlock-is_locked host t s name password d h
dispatch-is_locked host conn s (Request.report_activity seat) d h = inl h
dispatch-is_locked host conn s (Request.switch_session seat t) d h =
    inl (rw (switch-locks seat t d) h)
dispatch-is_locked host conn s (Request.inhibit what who why mode) d h =
    inl (unfold add_inhibitor is_locked in h)
dispatch-is_locked host conn s (Request.release_inhibit id) d h =
    inl (rw (release-locks host conn id d) (release-is_locked d.locks id s h))
dispatch-is_locked host conn s Request.list_inhibitors d h = inl h
dispatch-is_locked host conn s Request.suspend d h = inl (suspend-is_locked host d s h)
dispatch-is_locked host conn s Request.reboot d h = inl h
dispatch-is_locked host conn s Request.power_off d h = inl h
dispatch-is_locked host conn s (Request.request_elevation t action) d h =
    inl (rw (start-locks host conn t action d) h)
dispatch-is_locked host conn s (Request.respond_elevation id answer) d h =
    inl (rw (respond-locks host id answer d) h)

send_reply-locks : (conn : ℕ) (r : Option Response × Daemon) → (send_reply conn r).locks ≡ r.1.locks
send_reply-locks conn (none, d) = refl
send_reply-locks conn (some x, d) = refl

-- The message is a command that presents an accepted credential for the session, from root or from
-- its owner.
abbrev pub OpensLock : Host → Daemon → ℕ → ManagerMessage → Type 0
OpensLock host d s (ManagerMessage.command cmd) =
    ((cmd.peer.uid ≡ 0)
      ⊎ Allowed host.accounts cmd.peer cmd.conn_id cmd.request d.sessions d.elevation)
    × Unlocks d s cmd.request
OpensLock host d s _ = ⊥

command-is_locked :
    (host : Host) (d : Daemon) (cmd : ManagerCommand) (s : ℕ)
    → is_locked d.locks s ≡ true
    → (is_locked (handle_command host cmd d).locks s ≡ true)
      ⊎ OpensLock host d s (ManagerMessage.command cmd)
unfolding handle_command
command-is_locked host d cmd s h =
    elim (Result-cases
      (authorize host.accounts cmd.peer cmd.conn_id cmd.request d.sessions d.elevation)) [
        | inr (x, e) ↦ inl (rw (e, handle_command) h)
        | inl (_, e) ↦ elim (dispatch-is_locked host cmd.conn_id s cmd.request d h) [
          | inl kept ↦ inl (
              rw (e, handle_command)
                (rw (send_reply-locks cmd.conn_id (dispatch host cmd.conn_id cmd.request d)) kept))
          | inr opens ↦ inr (
            (authorize_iff host.accounts cmd.peer cmd.conn_id cmd.request d.sessions d.elevation).0
                e,
            opens,
          )
        ]
      ]

-- No message from a client opens the lock of a session but one: an unlock request for that session
-- with a credential that the authenticator accepts, from root or from the owner of the session.
pub handle_ipc-is_locked :
    (host : Host) (d : Daemon) (msg : ManagerMessage) (s : ℕ)
    → is_locked d.locks s ≡ true
    → (is_locked (handle_ipc host msg d).locks s ≡ true) ⊎ OpensLock host d s msg
unfolding handle_ipc handle_disconnected
handle_ipc-is_locked host d (ManagerMessage.connected conn peer outbox) s h = inl h
handle_ipc-is_locked host d (ManagerMessage.command cmd) s h = command-is_locked host d cmd s h
handle_ipc-is_locked host d (ManagerMessage.disconnected conn) s h = inl (
    rw
      (notify_all-locks (lit "a required connection disconnected" ∷ [])
        (abandon_connection d.elevation conn).0
        (record d {
          registry = unregister d.registry conn;
          sessions = record d.sessions { sessions = forget_conn conn d.sessions.sessions };
          elevation = (abandon_connection d.elevation conn).1;
        }))
      h)
