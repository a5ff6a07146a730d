-- ===== src/Daemon/Turns.antt =====
-- The elevation manager over every history of the daemon (src/main.rs): messages, ticks and signals.
use mitos_session.Base.{
  Text, lit, ℕ, ◌≡◌, refl, ap, ◌∙◌, inl, inr, List, [], ◌∷◌, arith, Bool-cases, Option-cases,
}
use mitos_session.Base.Map.{id_key}
use mitos_session.Errors.{Result-cases}
use mitos_session.Seat.{active_session_of}
use mitos_session.Idle.{IdleStage, tick}
use mitos_session.Lock.{LockReason, expire_lockouts}
use mitos_session.Elevation.{clear_expired_lockouts, expire_pending}
use mitos_session.Config.{idle_policy}
use mitos_session.Signals.{SignalEvent}
use mitos_session.Ipc.{Event}
use mitos_session.Daemon.State.{Host, Daemon, resolve_elevation_requester}
use mitos_session.Daemon.Handlers.{has_no_password, lock_and_show}
use mitos_session.Daemon.Dispatch.{suspend_all}
use mitos_session.Daemon.Events.{
  idle_lock, on_stage, on_stages, on_expiry, on_idle_tick, handle_compositor_exit, reap_children,
  reload, on_signal,
}
use mitos_session.Elevation.History.{
  clears, expires, configures, step, run, clears, expires, configures,
}
use mitos_session.Daemon.Kept.{notify_all-Kept, exit-Kept, notify-Kept}
use mitos_session.Daemon.Inputs.{Input, receives, ticks, catches, serve}
use mitos_session.Daemon.Calls.{Calls, none_called, called, lock_show-elevation}
use mitos_session.Daemon.Answering.{handle_ipc-Calls}

idle_lock-elevation :
    (host : Host) (t : ℕ) (d : Daemon) → (idle_lock host t d).elevation ≡ d.elevation
unfolding idle_lock
idle_lock-elevation host t d = elim (Bool-cases (has_no_password host t d)) [
  | inl e ↦ rw (e, idle_lock) refl
  | inr e ↦ elim (Result-cases (lock_and_show t LockReason.idle d)) [
    | inr (x, f) ↦ rw (e, f, idle_lock) refl
    | inl (d', f) ↦ rw (e, f, idle_lock) (lock_show-elevation t LockReason.idle d d' f)
  ]
]

asked-elevation :
    (host : Host) (k : Text) (d : Daemon)
    → (on_stage host k IdleStage.lock_requested d).elevation ≡ d.elevation
unfolding on_stage
asked-elevation host k d = elim (Bool-cases d.settings.lock.lock_on_idle) [
  | inr off ↦ rw (off, on_stage) refl
  | inl on ↦ elim (Result-cases (active_session_of d.seats k)) [
    | inr (x, q) ↦ rw (on, q, on_stage) refl
    | inl (o, q) ↦ elim (Option-cases o) [
      | inl r ↦ rw (on, q, r, on_stage) refl
      | inr (t, r) ↦ rw (on, q, r, on_stage) (idle_lock-elevation host t d)
    ]
  ]
]

stage-elevation :
    (host : Host) (k : Text) (x : IdleStage) (d : Daemon)
    → (on_stage host k x d).elevation ≡ d.elevation
stage-elevation host k IdleStage.active d = unfold on_stage in refl
stage-elevation host k IdleStage.dimmed d = unfold on_stage in (notify-Kept k (Event.dim k) d).1
stage-elevation host k IdleStage.lock_requested d = asked-elevation host k d
stage-elevation host k IdleStage.suspend_requested d = unfold on_stage suspend_all in refl

pub stages-elevation :
    (host : Host) (xs : List (Text × IdleStage)) (d : Daemon)
    → (on_stages host xs d).elevation ≡ d.elevation
unfolding on_stages
stages-elevation host [] d = refl
stages-elevation host ((k, x) ∷ xs) d =
    stages-elevation host xs (on_stage host k x d) ∙ stage-elevation host k x d

-- A tick sweeps the lockouts and then the prompts.
pub tick-elevation :
    (host : Host) (d : Daemon)
    → (on_idle_tick host d).elevation
      ≡ (expire_pending (clear_expired_lockouts d.elevation host.now) host.now).1
unfolding on_idle_tick on_expiry
tick-elevation host d =
    let (changes, idle) = tick d.idle host.now (idle_policy d.settings.idle) in
    let staged = on_stages host changes (record d { idle = idle }) in
    let swept = expire_pending (clear_expired_lockouts staged.elevation host.now) host.now in
    let told =
      notify_all-Kept (lit "timed out waiting for a response" ∷ []) swept.0
        (record staged { locks = expire_lockouts staged.locks host.now; elevation = swept.1 }) in
    told.1
    ∙ ap (λ m. (expire_pending (clear_expired_lockouts m host.now) host.now).1)
        (stages-elevation host changes (record d { idle = idle }))

reap-elevation :
    (exited : List (Host × ℕ)) (d : Daemon) → (reap_children exited d).elevation ≡ d.elevation
unfolding reap_children
reap-elevation [] d = refl
reap-elevation ((host, pid) ∷ rest) d =
    reap-elevation rest (handle_compositor_exit host pid d) ∙ (exit-Kept host pid d).1

reload-Calls : (host : Host) (d : Daemon) → Calls d (reload host d).elevation
unfolding reload
reload-Calls host d = elim (Result-cases host.load_settings) [
  | inr (x, e) ↦ none_called d (reload host d).elevation (rw (e, reload) refl)
  | inl (s, e) ↦
      called (configures (resolve_elevation_requester host.accounts s.elevation)) d
        (reload host d).elevation (rw (e, reload) (unfold step in refl))
]

pub serve-Calls : (x : Input) (d : Daemon) → Calls d (serve x d).elevation
unfolding serve
serve-Calls (receives host msg) d = handle_ipc-Calls host msg d
serve-Calls (ticks host) d =
    (clears host.now ∷ expires host.now ∷ [], omega arith, unfold run step in tick-elevation host d)
serve-Calls (catches host exited SignalEvent.terminate) d =
    none_called d _ (unfold on_signal in refl)
serve-Calls (catches host exited SignalEvent.reload_config) d =
    unfold on_signal in reload-Calls host d
serve-Calls (catches host exited SignalEvent.reap_children) d =
    none_called d _ (unfold on_signal in reap-elevation exited d)

-- The event loop.
unfoldable pub serve_all : List Input → Daemon → Daemon
serve_all [] d = d
serve_all (x ∷ xs) d = serve_all xs (serve x d)
