-- ===== src/Daemon/Inputs.antt =====
-- Everything that happens to the daemon: messages, ticks and signals (src/main.rs).
use mitos_session.Base.{
  Text, lit, ℕ, ◌≡◌, refl, ◌∙◌, ◌⊎◌, inl, inr, true, List, [], ◌∷◌, arith, Bool-cases, Option-cases,
}
use mitos_session.Errors.{Result-cases}
use mitos_session.Seat.{active_session_of}
use mitos_session.Idle.{IdleStage, tick}
use mitos_session.Lock.{LockReason, is_locked, expire_lockouts}
use mitos_session.Lock.Unlocking.{expire-is_locked}
use mitos_session.Elevation.{clear_expired_lockouts, expire_pending}
use mitos_session.Signals.{SignalEvent}
use mitos_session.Ipc.{Event, ManagerMessage}
use mitos_session.Daemon.Kept.{notify-Kept}
use mitos_session.Daemon.State.{Host, Daemon}
use mitos_session.Daemon.Handlers.{has_no_password, lock_and_show}
use mitos_session.Daemon.Dispatch.{handle_ipc}
use mitos_session.Daemon.Events.{
  notify_active_compositor, idle_lock, on_stage, on_stages, on_expiry, on_idle_tick,
  handle_compositor_exit, reap_children, reload, on_signal,
}
use mitos_session.Daemon.Locked.{notify_all-locks}
use mitos_session.Daemon.Locking.{suspend-is_locked, lock_show-is_locked}
use mitos_session.Daemon.Opening.{OpensLock, handle_ipc-is_locked}
use mitos_session.Daemon.Crash.{exit-locks}
use mitos_session.Config.{idle_policy}

-- One turn of the event loop.
pub data Input : Type 0 where
  receives : Host → ManagerMessage → Input
  ticks : Host → Input
  catches : Host → List (Host × ℕ) → SignalEvent → Input

unfoldable pub serve : Input → Daemon → Daemon
unfolding handle_ipc on_idle_tick on_signal
serve (receives host msg) d = handle_ipc host msg d
serve (ticks host) d = on_idle_tick host d
serve (catches host exited e) d = on_signal host exited e d

idle_lock-is_locked :
    (host : Host) (t s : ℕ) (d : Daemon)
    → is_locked d.locks s ≡ true
    → is_locked (idle_lock host t d).locks s ≡ true
unfolding idle_lock
idle_lock-is_locked host t s d h = elim (Bool-cases (has_no_password host t d)) [
  | inl e ↦ rw (e, idle_lock) h
  | inr e ↦ elim (Result-cases (lock_and_show t LockReason.idle d)) [
    | inr (x, f) ↦ rw (e, f, idle_lock) h
    | inl (d', f) ↦ rw (e, f, idle_lock) (lock_show-is_locked t s LockReason.idle d d' f h)
  ]
]

notify-locks :
    (k : Text) (e : Event) (d : Daemon) → (notify_active_compositor k e d).locks ≡ d.locks
notify-locks k e d = (notify-Kept k e d).0

asked-is_locked :
    (host : Host) (k : Text) (s : ℕ) (d : Daemon)
    → is_locked d.locks s ≡ true
    → is_locked (on_stage host k IdleStage.lock_requested d).locks s ≡ true
unfolding on_stage
asked-is_locked host k s d h = elim (Bool-cases d.settings.lock.lock_on_idle) [
  | inr off ↦ rw (off, on_stage) h
  | inl on ↦ elim (Result-cases (active_session_of d.seats k)) [
    | inr (x, q) ↦ rw (on, q, on_stage) h
    | inl (o, q) ↦ elim (Option-cases o) [
      | inl r ↦ rw (on, q, r, on_stage) h
      | inr (t, r) ↦ rw (on, q, r, on_stage) (idle_lock-is_locked host t s d h)
    ]
  ]
]

stage-is_locked :
    (host : Host) (k : Text) (x : IdleStage) (s : ℕ) (d : Daemon)
    → is_locked d.locks s ≡ true
    → is_locked (on_stage host k x d).locks s ≡ true
stage-is_locked host k IdleStage.active s d h = unfold on_stage in h
stage-is_locked host k IdleStage.dimmed s d h =
    unfold on_stage in rw (notify-locks k (Event.dim k) d) h
stage-is_locked host k IdleStage.lock_requested s d h = asked-is_locked host k s d h
stage-is_locked host k IdleStage.suspend_requested s d h =
    unfold on_stage in suspend-is_locked host d s h

stages-is_locked :
    (host : Host) (xs : List (Text × IdleStage)) (s : ℕ) (d : Daemon)
    → is_locked d.locks s ≡ true
    → is_locked (on_stages host xs d).locks s ≡ true
unfolding on_stages
stages-is_locked host [] s d h = h
stages-is_locked host ((k, x) ∷ xs) s d h =
    stages-is_locked host xs s (on_stage host k x d) (stage-is_locked host k x s d h)

expiry-is_locked :
    (host : Host) (s : ℕ) (d : Daemon)
    → is_locked d.locks s ≡ true
    → is_locked (on_expiry host d).locks s ≡ true
unfolding on_expiry
expiry-is_locked host s d h =
    let swept = expire_pending (clear_expired_lockouts d.elevation host.now) host.now in
    rw
      (notify_all-locks (lit "timed out waiting for a response" ∷ []) swept.0
        (record d { locks = expire_lockouts d.locks host.now; elevation = swept.1 }))
      (expire-is_locked d.locks host.now s h)

tick-is_locked :
    (host : Host) (s : ℕ) (d : Daemon)
    → is_locked d.locks s ≡ true
    → is_locked (on_idle_tick host d).locks s ≡ true
unfolding on_idle_tick
tick-is_locked host s d h =
    let (changes, idle) = tick d.idle host.now (idle_policy d.settings.idle) in
    expiry-is_locked host s (on_stages host changes (record d { idle = idle }))
      (stages-is_locked host changes s (record d { idle = idle }) h)

reap-locks : (exited : List (Host × ℕ)) (d : Daemon) → (reap_children exited d).locks ≡ d.locks
unfolding reap_children
reap-locks [] d = refl
reap-locks ((host, pid) ∷ rest) d =
    reap-locks rest (handle_compositor_exit host pid d) ∙ exit-locks host pid d

reload-locks : (host : Host) (d : Daemon) → (reload host d).locks ≡ d.locks
unfolding reload
reload-locks host d = ground arith

-- The turn is a message that opens the lock of the session.
abbrev pub OpensIn : Daemon → ℕ → Input → Type 0
OpensIn d s (receives host msg) = OpensLock host d s msg
OpensIn d s _ = ⊥

-- Whatever happens to the daemon, be it a message, a tick or a signal, the lock of a session stays
-- closed, unless the turn is an unlock request for that session with a credential that the
-- authenticator accepts, from root or from the owner of the session.
pub serve-is_locked :
    (x : Input) (d : Daemon) (s : ℕ)
    → is_locked d.locks s ≡ true
    → (is_locked (serve x d).locks s ≡ true) ⊎ OpensIn d s x
serve-is_locked (receives host msg) d s h = unfold serve in handle_ipc-is_locked host d msg s h
serve-is_locked (ticks host) d s h = inl (unfold serve in tick-is_locked host s d h)
serve-is_locked (catches host exited SignalEvent.terminate) d s h =
    inl (unfold serve on_signal in h)
serve-is_locked (catches host exited SignalEvent.reload_config) d s h =
    inl (unfold serve on_signal in rw (reload-locks host d) h)
serve-is_locked (catches host exited SignalEvent.reap_children) d s h =
    inl (unfold serve on_signal in rw (reap-locks exited d) h)
