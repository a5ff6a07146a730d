-- ===== src/Daemon/Kept.antt =====
-- What the daemon's notices to clients and its new processes leave alone (src/main.rs): the locks and
-- the prompts.
use mitos_session.Base.{
  Text, Message, ℕ, ◌≡◌, refl, inl, inr, Option, none, some, List, [], ◌∷◌, arith, Bool-cases,
  Option-cases, inc_u32,
}
use mitos_session.Base.Map.{lookup, id_key}
use mitos_session.Errors.{Result-cases}
use mitos_session.Auth.{AuthOutcome}
use mitos_session.Session.{try_transition, update}
use mitos_session.Session.State.{SessionState}
use mitos_session.Seat.{active_session_of}
use mitos_session.Elevation.{ElevationOutcome, AbandonedElevation}
use mitos_session.Launcher.{RestartDecision, restart, fallback_to_terminal}
use mitos_session.Ipc.{Event}
use mitos_session.Daemon.State.{Host, Daemon, tell_session, move_and_tell}
use mitos_session.Daemon.Handlers.{try_spawn_compositor, after_unlock}
use mitos_session.Daemon.Prompts.{resolve, notify_elevation_abandoned, notify_all}
use mitos_session.Daemon.Events.{
  notify_active_compositor, find_process, fall_back, follow, fallen, decision, compositor_gone,
  handle_compositor_exit,
}

-- Neither the locks nor the prompts have changed.
abbrev pub Kept : Daemon → Daemon → Type 0
Kept d d' = (d'.locks ≡ d.locks) × (d'.elevation ≡ d.elevation)

pub tell_session-Kept : (id : ℕ) (e : Event) (d : Daemon) → Kept d (tell_session id e d)
tell_session-Kept id e d = elim (Option-cases (lookup id d.sessions.sessions)) [
  | inl q ↦ ground arith
  | inr (c, q) ↦ elim (Option-cases c.compositor_conn) [
    | inl r ↦ ground arith
    | inr (k, r) ↦ ground arith
  ]
]

pub move_and_tell-Kept :
    (id : ℕ) (s : SessionState) (e : Event) (d : Daemon) → Kept d (move_and_tell id s e d)
unfolding move_and_tell
move_and_tell-Kept id s e d =
    tell_session-Kept id e
      (record d { sessions = update d.sessions id (λ ctx. try_transition ctx s) })

pub spawn-Kept : (host : Host) (id : ℕ) (d : Daemon) → Kept d (try_spawn_compositor host id d)
unfolding try_spawn_compositor
spawn-Kept host id d = elim (Option-cases (lookup id d.sessions.sessions)) [
  | inl q ↦ ground arith
  | inr (c, q) ↦
      elim (Result-cases
        (host.spawn_compositor c.user c.environment d.settings.session.compositor_binary)) [
          | inl (p, r) ↦ ground arith
          | inr (x, r) ↦ ground arith
        ]
]

pub notify_all-Kept :
    (reason : Message) (rest : List AbandonedElevation) (d : Daemon)
    → Kept d (notify_all reason rest d)
unfolding notify_all notify_elevation_abandoned
notify_all-Kept reason [] d = (refl, refl)
notify_all-Kept reason (a ∷ rest) d =
    notify_all-Kept reason rest (notify_elevation_abandoned reason a d)

pub resolve-Kept : (id : ℕ) (o : Option ElevationOutcome) (d : Daemon) → Kept d (resolve id o d).1
unfolding resolve
resolve-Kept id none d = (refl, refl)
resolve-Kept id (some o) d = elim (Bool-cases o.terminal) [
  | inl e ↦ rw e (refl, refl)
  | inr e ↦ rw e (refl, refl)
]

pub after_unlock-Kept : (o : AuthOutcome) (s : ℕ) (d : Daemon) → Kept d (after_unlock o s d)
unfolding after_unlock
after_unlock-Kept AuthOutcome.success s d =
    move_and_tell-Kept s SessionState.active (Event.hide_lock_screen s) d
after_unlock-Kept (AuthOutcome.failure n) s d =
    tell_session-Kept s (Event.auth_feedback s (AuthOutcome.failure n)) d
after_unlock-Kept (AuthOutcome.locked_out n) s d =
    tell_session-Kept s (Event.auth_feedback s (AuthOutcome.locked_out n)) d
after_unlock-Kept (AuthOutcome.error e) s d =
    tell_session-Kept s (Event.auth_feedback s (AuthOutcome.error e)) d
after_unlock-Kept AuthOutcome.cancelled s d =
    tell_session-Kept s (Event.auth_feedback s AuthOutcome.cancelled) d

fall_back-Kept : (host : Host) (id : ℕ) (d : Daemon) → Kept d (fall_back host id d)
unfolding fall_back
fall_back-Kept host id d = elim (Option-cases (lookup id d.sessions.sessions)) [
  | inl q ↦ rw (q, fall_back) (refl, refl)
  | inr (c, q) ↦ elim (Result-cases (host.spawn_fallback_terminal c.user c.environment)) [
    | inl (p, r) ↦ rw (q, r, fall_back) (refl, refl)
    | inr (x, r) ↦ rw (q, r, fall_back) (refl, refl)
  ]
]

follow-Kept :
    (x : RestartDecision) (host : Host) (id : ℕ) (d : Daemon) → Kept d (follow x host id d)
unfolding follow
follow-Kept restart host id d = spawn-Kept host id (record d {
  sessions =
      update d.sessions id (λ c. record c { compositor_restarts = inc_u32 c.compositor_restarts });
})
follow-Kept fallback_to_terminal host id d = fall_back-Kept host id d

pub exit-Kept : (host : Host) (pid : ℕ) (d : Daemon) → Kept d (handle_compositor_exit host pid d)
unfolding handle_compositor_exit compositor_gone fallen
exit-Kept host pid d = elim (Option-cases (find_process pid d.sessions.sessions)) [
  | inl e ↦ rw (e, handle_compositor_exit) (refl, refl)
  | inr ((k, c), e) ↦
      rw (e, handle_compositor_exit) (follow-Kept (decision c d) host c.session.id (fallen k c d))
]

pub notify-Kept : (k : Text) (e : Event) (d : Daemon) → Kept d (notify_active_compositor k e d)
unfolding notify_active_compositor
notify-Kept k e d = elim (Result-cases (active_session_of d.seats k)) [
  | inr (x, q) ↦ rw (q, notify_active_compositor) (refl, refl)
  | inl (o, q) ↦ elim (Option-cases o) [
    | inl r ↦ rw (q, r, notify_active_compositor) (refl, refl)
    | inr (t, r) ↦ rw (q, r, notify_active_compositor) (tell_session-Kept t e d)
  ]
]
