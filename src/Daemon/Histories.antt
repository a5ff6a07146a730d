-- ===== src/Daemon/Histories.antt =====
-- The registry of sessions over every history of the daemon (src/main.rs): messages, ticks, exits of
-- compositors and signals.
use mitos_session.Session.{update}
use mitos_session.Base.{
  Text, lit, ℕ, ◌+◌, ◌<◌, ◌≡◌, refl, inl, inr, none, some, List, [], ◌∷◌, arith, Bool-cases,
  Option-cases, inc_u32, length,
}
use mitos_session.Base.Map.{lookup, id_key}
use mitos_session.Errors.{Result, Result-cases}
use mitos_session.Session.{SessionContext, try_transition}
use mitos_session.Session.State.{SessionState}
use mitos_session.Session.Manager.{Inv, new-Inv}
use mitos_session.Seat.{Device, active_session_of}
use mitos_session.Idle.{IdleStage, tick}
use mitos_session.Lock.{LockReason, expire_lockouts}
use mitos_session.Elevation.{clear_expired_lockouts, expire_pending}
use mitos_session.Launcher.{RestartDecision, restart, fallback_to_terminal}
use mitos_session.Config.{Settings, idle_policy}
use mitos_session.Signals.{SignalEvent, graceful_shutdown}
use mitos_session.Ipc.{Event}
use mitos_session.Daemon.State.{Host, Daemon}
use mitos_session.Daemon.Handlers.{has_no_password, lock_and_show}
use mitos_session.Daemon.Events.{
  notify_active_compositor, idle_lock, on_stage, on_stages, on_expiry, on_idle_tick, find_process,
  fall_back, follow, fallen, decision, compositor_gone, handle_compositor_exit, reap_children,
  reload, on_signal,
}
use mitos_session.Daemon.Dispatch.{suspend_all}
use mitos_session.Daemon.Records.{Held, update-Held, try_transition-Keeps, terminate_all-Held}
use mitos_session.Daemon.Handled.{
  tell_session-sessions, notify_all-sessions, spawn-Held, lock_show-Held,
}
use mitos_session.Daemon.Commands.{more, handle_ipc-Held}
use mitos_session.Daemon.Inputs.{Input, receives, ticks, catches, serve}
use mitos_session.Daemon.Start.{initial, startup}
use mitos_session.Daemon.Turns.{serve_all}

notify-sessions :
    (k : Text) (e : Event) (d : Daemon) → (notify_active_compositor k e d).sessions ≡ d.sessions
unfolding notify_active_compositor
notify-sessions k e d = elim (Result-cases (active_session_of d.seats k)) [
  | inr (x, q) ↦ rw (q, notify_active_compositor) refl
  | inl (o, q) ↦ elim (Option-cases o) [
    | inl r ↦ rw (q, r, notify_active_compositor) refl
    | inr (t, r) ↦ rw (q, r, notify_active_compositor) (tell_session-sessions t e d)
  ]
]

idle_lock-Held :
    (n : ℕ) (host : Host) (t : ℕ) (d : Daemon)
    → Held n d.sessions
    → Held n (idle_lock host t d).sessions
unfolding idle_lock
idle_lock-Held n host t d h = elim (Bool-cases (has_no_password host t d)) [
  | inl e ↦ rw (e, idle_lock) h
  | inr e ↦ elim (Result-cases (lock_and_show t LockReason.idle d)) [
    | inr (x, f) ↦ rw (e, f, idle_lock) h
    | inl (d', f) ↦ rw (e, f, idle_lock) (lock_show-Held n t LockReason.idle d d' f h)
  ]
]

asked-Held :
    (n : ℕ) (host : Host) (k : Text) (d : Daemon)
    → Held n d.sessions
    → Held n (on_stage host k IdleStage.lock_requested d).sessions
unfolding on_stage
asked-Held n host k d h = elim (Bool-cases d.settings.lock.lock_on_idle) [
  | inr off ↦ rw (off, on_stage) h
  | inl on ↦ elim (Result-cases (active_session_of d.seats k)) [
    | inr (x, q) ↦ rw (on, q, on_stage) h
    | inl (o, q) ↦ elim (Option-cases o) [
      | inl r ↦ rw (on, q, r, on_stage) h
      | inr (t, r) ↦ rw (on, q, r, on_stage) (idle_lock-Held n host t d h)
    ]
  ]
]

stages-Held :
    (n : ℕ) (host : Host) (xs : List (Text × IdleStage)) (d : Daemon)
    → Held n d.sessions
    → Held n (on_stages host xs d).sessions
unfolding on_stages
stages-Held n host [] d h = h
stages-Held n host ((k, IdleStage.active) ∷ xs) d h = stages-Held n host xs d h
stages-Held n host ((k, IdleStage.dimmed) ∷ xs) d h =
    stages-Held n host xs (on_stage host k IdleStage.dimmed d)
      (unfold on_stage in rw (notify-sessions k (Event.dim k) d) h)
stages-Held n host ((k, IdleStage.lock_requested) ∷ xs) d h =
    stages-Held n host xs (on_stage host k IdleStage.lock_requested d) (asked-Held n host k d h)
stages-Held n host ((k, IdleStage.suspend_requested) ∷ xs) d h =
    stages-Held n host xs (on_stage host k IdleStage.suspend_requested d)
      (unfold on_stage suspend_all in h)

tick-Held :
    (n : ℕ) (host : Host) (d : Daemon) → Held n d.sessions → Held n (on_idle_tick host d).sessions
unfolding on_idle_tick on_expiry
tick-Held n host d h =
    let (changes, idle) = tick d.idle host.now (idle_policy d.settings.idle) in
    let staged = on_stages host changes (record d { idle = idle }) in
    let swept = expire_pending (clear_expired_lockouts staged.elevation host.now) host.now in
    rw
      (notify_all-sessions (lit "timed out waiting for a response" ∷ []) swept.0
        (record staged { locks = expire_lockouts staged.locks host.now; elevation = swept.1 }))
      (stages-Held n host changes (record d { idle = idle }) h)

fall_back-Held :
    (n : ℕ) (host : Host) (id : ℕ) (d : Daemon)
    → Held n d.sessions
    → Held n (fall_back host id d).sessions
unfolding fall_back
fall_back-Held n host id d h = elim (Option-cases (lookup id d.sessions.sessions)) [
  | inl q ↦ rw (q, fall_back) h
  | inr (c, q) ↦ elim (Result-cases (host.spawn_fallback_terminal c.user c.environment)) [
    | inl (p, r) ↦
        rw (q, r, fall_back)
          (update-Held n d.sessions id (λ b. record b { compositor_process = some p })
            (λ b. (refl, refl)) h)
    | inr (x, r) ↦ rw (q, r, fall_back) h
  ]
]

follow-Held :
    (n : ℕ) (x : RestartDecision) (host : Host) (id : ℕ) (d : Daemon)
    → Held n d.sessions
    → Held n (follow x host id d).sessions
unfolding follow
follow-Held n restart host id d h =
    let f : SessionContext → SessionContext =
      λ c. record c { compositor_restarts = inc_u32 c.compositor_restarts } in
    spawn-Held n host id (record d { sessions = update d.sessions id f })
      (update-Held n d.sessions id f (λ c. (refl, refl)) h)
follow-Held n fallback_to_terminal host id d h = fall_back-Held n host id d h

fallen-Held :
    (n k : ℕ) (c : SessionContext) (d : Daemon) → Held n d.sessions → Held n (fallen k c d).sessions
unfolding fallen
fallen-Held n k c d h =
    let f : SessionContext → SessionContext =
      λ b. record b { compositor_process = none; compositor_conn = none } in
    update-Held n (update d.sessions k f) c.session.id (λ b. try_transition b SessionState.starting)
      (try_transition-Keeps SessionState.starting)
      (update-Held n d.sessions k f (λ b. (refl, refl)) h)

exit-Held :
    (n : ℕ) (host : Host) (pid : ℕ) (d : Daemon)
    → Held n d.sessions
    → Held n (handle_compositor_exit host pid d).sessions
unfolding handle_compositor_exit compositor_gone
exit-Held n host pid d h = elim (Option-cases (find_process pid d.sessions.sessions)) [
  | inl e ↦ rw (e, handle_compositor_exit) h
  | inr ((k, c), e) ↦
      rw (e, handle_compositor_exit)
        (follow-Held n (decision c d) host c.session.id (fallen k c d) (fallen-Held n k c d h))
]

reap-Held :
    (n : ℕ) (exited : List (Host × ℕ)) (d : Daemon)
    → Held n d.sessions
    → Held n (reap_children exited d).sessions
unfolding reap_children
reap-Held n [] d h = h
reap-Held n ((host, pid) ∷ rest) d h =
    reap-Held n rest (handle_compositor_exit host pid d) (exit-Held n host pid d h)

signal-Held :
    (n : ℕ) (host : Host) (exited : List (Host × ℕ)) (e : SignalEvent) (d : Daemon)
    → Held n d.sessions
    → Held n (on_signal host exited e d).sessions
unfolding on_signal graceful_shutdown reload
signal-Held n host exited SignalEvent.terminate d h = terminate_all-Held n d.sessions h
signal-Held n host exited SignalEvent.reap_children d h = reap-Held n exited d h
signal-Held n host exited SignalEvent.reload_config d h = elim (Result-cases host.load_settings) [
  | inr (x, e) ↦ rw (e, reload) h
  | inl (s, e) ↦ rw (e, reload) h
]

serve-Held :
    (n : ℕ) (x : Input) (d : Daemon)
    → n + 1 < 4294967296
    → Held n d.sessions
    → Held (n + 1) (serve x d).sessions
unfolding serve
serve-Held n (receives host msg) d few h = handle_ipc-Held n host msg d few h
serve-Held n (ticks host) d few h = more (tick-Held n host d h)
serve-Held n (catches host exited e) d few h = more (signal-Held n host exited e d h)

serve_all-Held :
    (xs : List Input) (n : ℕ) (d : Daemon)
    → n + length xs < 4294967296
    → Held n d.sessions
    → Held (n + length xs) (serve_all xs d).sessions
unfolding serve_all
serve_all-Held [] n d few h = (h.0, omega (arith, h.1))
serve_all-Held (x ∷ xs) n d few h =
    let rest =
      serve_all-Held xs (n + 1) (serve x d) (omega arith) (serve-Held n x d (omega arith) h) in
    (rest.0, omega (arith, rest.1))

startup-Held :
    (host : Host) (settings : Settings) (devices : Result (List Device))
    → Held 1 (startup host settings devices).sessions
unfolding startup initial
startup-Held host settings devices = (new-Inv, omega arith)

-- From the start of the daemon on, over any history of fewer than 2^32 - 1 messages, ticks and
-- signals, the registry of sessions is well formed: no id stands twice, each id was handed out, and
-- each record carries its own id and the uid of its user.
pub histories-Inv :
    (host : Host) (settings : Settings) (devices : Result (List Device)) (xs : List Input)
    → length xs + 1 < 4294967296
    → Inv (serve_all xs (startup host settings devices)).sessions
histories-Inv host settings devices xs few =
    (serve_all-Held xs 1 (startup host settings devices) (omega arith)
      (startup-Held host settings devices)).0
