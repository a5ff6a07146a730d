-- ===== src/Daemon/Events.antt =====
-- What happens to the daemon apart from requests (src/main.rs): `on_idle_tick`,
-- `handle_compositor_exit`, `reap_children` and `on_signal`.
use mitos_session.Base.{
  Text, lit, ℕ, true, not, Option, none, some, List, [], ◌∷◌, if◌then◌else◌, inc_u32, is_id,
}
use mitos_session.Base.Map.{Map, lookup, id_key}
use mitos_session.Errors.{ok, err}
use mitos_session.Session.{SessionContext, try_transition, update}
use mitos_session.Session.State.{SessionState}
use mitos_session.Seat.{active_session_of}
use mitos_session.Idle.{IdleStage, tick}
use mitos_session.Lock.{LockReason, expire_lockouts}
use mitos_session.Elevation.{set_requester_uid, clear_expired_lockouts, expire_pending}
use mitos_session.Config.{idle_policy}
use mitos_session.Signals.{SignalEvent, graceful_shutdown}
use mitos_session.Launcher.{RestartDecision, restart, fallback_to_terminal, decide_restart}
use mitos_session.Ipc.{Event, ConnRegistry, unregister}
use mitos_session.Daemon.State.{Host, Daemon, tell_session, resolve_elevation_requester}
use mitos_session.Daemon.Handlers.{try_spawn_compositor, has_no_password, lock_and_show}
use mitos_session.Daemon.Prompts.{notify_all}
use mitos_session.Daemon.Dispatch.{suspend_all}

unfoldable pub notify_active_compositor : Text → Event → Daemon → Daemon
unfolding active_session_of
notify_active_compositor seat_id e d = elim (active_session_of d.seats seat_id) [
  | err x ↦ d
  | ok active ↦ elim active [ none ↦ d | some s ↦ tell_session s e d ]
]

-- The lock that being idle asks for, on the active session of the seat.
unfoldable pub idle_lock : Host → ℕ → Daemon → Daemon
unfolding lock_and_show has_no_password
idle_lock host s d =
    if has_no_password host s d
    then d
    else elim (lock_and_show s LockReason.idle d) [ ok d' ↦ d' | err e ↦ d ]

-- The body of the loop of `on_idle_tick` over the changes of stage.
unfoldable pub on_stage : Host → Text → IdleStage → Daemon → Daemon
unfolding notify_active_compositor idle_lock suspend_all active_session_of
on_stage host seat_id IdleStage.active d = d
on_stage host seat_id IdleStage.dimmed d = notify_active_compositor seat_id (Event.dim seat_id) d
on_stage host seat_id IdleStage.lock_requested d =
    if not d.settings.lock.lock_on_idle then d else elim (active_session_of d.seats seat_id) [
      | err x ↦ d
      | ok active ↦ elim active [ none ↦ d | some s ↦ idle_lock host s d ]
    ]
on_stage host seat_id IdleStage.suspend_requested d = (suspend_all host d).1

unfoldable pub on_stages : Host → List (Text × IdleStage) → Daemon → Daemon
unfolding on_stage
on_stages host [] d = d
on_stages host ((seat_id, s) ∷ rest) d = on_stages host rest (on_stage host seat_id s d)

-- The rest of `on_idle_tick`: lockouts and prompts that are over.
unfoldable pub on_expiry : Host → Daemon → Daemon
unfolding expire_lockouts clear_expired_lockouts expire_pending notify_all
on_expiry host d =
    let (abandoned, elevation) =
      expire_pending (clear_expired_lockouts d.elevation host.now) host.now in
    notify_all (lit "timed out waiting for a response" ∷ []) abandoned
      (record d { locks = expire_lockouts d.locks host.now; elevation = elevation })

unfoldable pub on_idle_tick : Host → Daemon → Daemon
unfolding tick on_stages on_expiry
on_idle_tick host d =
    let (changes, idle) = tick d.idle host.now (idle_policy d.settings.idle) in
    on_expiry host (on_stages host changes (record d { idle = idle }))

-- The session whose compositor has that pid, with its key.
abbrev pub find_process : ℕ → Map ℕ SessionContext → Option (ℕ × SessionContext)
find_process pid [] = none
find_process pid ((k, ctx) ∷ m) =
    if is_id ctx.compositor_process pid then some (k, ctx) else find_process pid m

abbrev pub unregister_if : Option ℕ → ConnRegistry → ConnRegistry
unfolding unregister
unregister_if none r = r
unregister_if (some c) r = unregister r c

-- The arm for `FallbackToTerminal`.
unfoldable pub fall_back : Host → ℕ → Daemon → Daemon
unfolding update
fall_back host id d = elim (lookup id d.sessions.sessions) [
  | none ↦ d
  | some ctx ↦ elim (host.spawn_fallback_terminal ctx.user ctx.environment) [
    | err e ↦ d
    | ok pid ↦ record d {
      sessions = update d.sessions id (λ c. record c { compositor_process = some pid });
    }
  ]
]

unfoldable pub follow : RestartDecision → Host → ℕ → Daemon → Daemon
unfolding update try_spawn_compositor fall_back
follow restart host id d = try_spawn_compositor host id (record d {
  sessions =
      update d.sessions id (λ c. record c { compositor_restarts = inc_u32 c.compositor_restarts });
})
follow fallback_to_terminal host id d = fall_back host id d

-- The session of the process that exited, with its key, without a process and a connection and back
-- in `Starting` where that is allowed; its connection is forgotten.
unfoldable pub fallen : ℕ → SessionContext → Daemon → Daemon
unfolding update try_transition unregister_if
fallen key ctx d =
    let cleared =
      update d.sessions key (λ c. record c { compositor_process = none; compositor_conn = none }) in
    record d {
      sessions = update cleared ctx.session.id (λ c. try_transition c SessionState.starting);
      registry = unregister_if ctx.compositor_conn d.registry;
    }

unfoldable pub decision : SessionContext → Daemon → RestartDecision
unfolding decide_restart
decision ctx d = decide_restart ctx.compositor_restarts d.settings.session.max_compositor_restarts

-- `handle_compositor_exit` once the session is found.
unfoldable pub compositor_gone : Host → ℕ → SessionContext → Daemon → Daemon
unfolding fallen decision follow
compositor_gone host key ctx d = follow (decision ctx d) host ctx.session.id (fallen key ctx d)

unfoldable pub handle_compositor_exit : Host → ℕ → Daemon → Daemon
unfolding compositor_gone
handle_compositor_exit host pid d = elim (find_process pid d.sessions.sessions) [
  | none ↦ d
  | some (key, ctx) ↦ compositor_gone host key ctx d
]

-- The loop of `reap_children`: the children that `waitpid` reports, each with what the host answers
-- while its exit is handled.
unfoldable pub reap_children : List (Host × ℕ) → Daemon → Daemon
unfolding handle_compositor_exit
reap_children [] d = d
reap_children ((host, pid) ∷ rest) d = reap_children rest (handle_compositor_exit host pid d)

-- The arm for `ReloadConfig`.
unfoldable pub reload : Host → Daemon → Daemon
unfolding set_requester_uid resolve_elevation_requester
reload host d = elim host.load_settings [
  | err e ↦ d
  | ok s ↦ record d {
    authenticator = host.pam s.authentication.pam_service;
    elevation =
        set_requester_uid d.elevation (resolve_elevation_requester host.accounts s.elevation);
    settings = s;
  }
]

unfoldable pub on_signal : Host → List (Host × ℕ) → SignalEvent → Daemon → Daemon
unfolding graceful_shutdown reload reap_children
on_signal host exited SignalEvent.terminate d = record d {
  sessions = graceful_shutdown d.sessions;
  should_exit = true;
}
on_signal host exited SignalEvent.reload_config d = reload host d
on_signal host exited SignalEvent.reap_children d = reap_children exited d
