-- ===== src/Daemon/Handled.antt =====
-- What the notices, the new processes and the requests do to the registry of sessions (src/main.rs).
use mitos_session.Session.{update}
use mitos_session.Base.{
  Text, lit, Message, ℕ, ◌+◌, ◌<◌, ◌≡◌, refl, inl, inr, Option, none, some, List, [], ◌∷◌, arith,
  if◌then◌else◌, Bool-cases, Option-cases,
}
use mitos_session.Base.Map.{lookup, id_key}
use mitos_session.Errors.{ok, Result-cases}
use mitos_session.Users.{by_name}
use mitos_session.Auth.{AuthOutcome}
use mitos_session.Session.{SessionContext, try_transition, create_session, terminate_session}
use mitos_session.Session.State.{SessionState}
use mitos_session.Seat.{attach_session, detach_session, switch_active}
use mitos_session.Lock.{LockReason, is_locked, lock}
use mitos_session.Elevation.{ElevationOutcome, AbandonedElevation, abandon_session}
use mitos_session.Config.{lock_policy}
use mitos_session.Ipc.{Event}
use mitos_session.Daemon.State.{Host, Daemon, tell_session, move_and_tell}
use mitos_session.Daemon.Handlers.{
  try_spawn_compositor, requested_type, requested_seat, is_tty, start_session,
  handle_create_session, handle_register_compositor, has_no_password, lock_and_show,
  handle_lock_session, after_unlock, handle_switch_session,
}
use mitos_session.Daemon.Prompts.{
  resolve, notify_elevation_abandoned, notify_all, handle_terminate_session,
}
use mitos_session.Daemon.Records.{
  Held, update-Held, try_transition-Keeps, register-Keeps, create_session-Held,
  terminate_session-Held,
}

pub tell_session-sessions :
    (id : ℕ) (e : Event) (d : Daemon) → (tell_session id e d).sessions ≡ d.sessions
tell_session-sessions id e d = elim (Option-cases (lookup id d.sessions.sessions)) [
  | inl q ↦ ground arith
  | inr (c, q) ↦ elim (Option-cases c.compositor_conn) [
    | inl r ↦ ground arith
    | inr (k, r) ↦ ground arith
  ]
]

pub notify_all-sessions :
    (reason : Message) (rest : List AbandonedElevation) (d : Daemon)
    → (notify_all reason rest d).sessions ≡ d.sessions
unfolding notify_all notify_elevation_abandoned
notify_all-sessions reason [] d = refl
notify_all-sessions reason (a ∷ rest) d =
    notify_all-sessions reason rest (notify_elevation_abandoned reason a d)

pub resolve-sessions :
    (id : ℕ) (o : Option ElevationOutcome) (d : Daemon) → (resolve id o d).1.sessions ≡ d.sessions
unfolding resolve
resolve-sessions id none d = refl
resolve-sessions id (some o) d = elim (Bool-cases o.terminal) [
  | inl e ↦ rw e refl
  | inr e ↦ rw e refl
]

pub move_and_tell-Held :
    (n id : ℕ) (s : SessionState) (e : Event) (d : Daemon)
    → Held n d.sessions
    → Held n (move_and_tell id s e d).sessions
unfolding move_and_tell
move_and_tell-Held n id s e d h =
    rw
      (tell_session-sessions id e
        (record d { sessions = update d.sessions id (λ ctx. try_transition ctx s) }))
      (update-Held n d.sessions id (λ ctx. try_transition ctx s) (try_transition-Keeps s) h)

pub spawn-Held :
    (n : ℕ) (host : Host) (id : ℕ) (d : Daemon)
    → Held n d.sessions
    → Held n (try_spawn_compositor host id d).sessions
unfolding try_spawn_compositor
spawn-Held n host id d h = elim (Option-cases (lookup id d.sessions.sessions)) [
  | inl q ↦ rw (q, try_spawn_compositor) h
  | inr (c, q) ↦
      elim (Result-cases
        (host.spawn_compositor c.user c.environment d.settings.session.compositor_binary)) [
          | inl (p, r) ↦
              rw (q, r, try_spawn_compositor)
                (update-Held n d.sessions id (λ b. record b { compositor_process = some p })
                  (λ b. (refl, refl)) h)
          | inr (x, r) ↦ rw (q, r, try_spawn_compositor) h
        ]
]

pub create-Held :
    (n : ℕ) (host : Host) (name : Text) (seat type : Option Text) (d : Daemon)
    → n + 1 < 4294967296
    → Held n d.sessions
    → Held (n + 1) (handle_create_session host name seat type d).1.sessions
unfolding handle_create_session start_session
create-Held n host name seat type d few h = elim (Result-cases (by_name host.accounts name)) [
  | inr (x, e) ↦ rw (e, handle_create_session) (h.0, omega (arith, h.1))
  | inl (u, e) ↦
      let place = requested_seat seat d.settings.seat.default_seat in
      let t = requested_type type d.settings.session.default_session_type in
      let made = create_session host.session_host d.sessions u place t d.settings.session in
      let held =
        create_session-Held n host.session_host d.sessions u place t d.settings.session few h in
      elim (Result-cases made.0) [
        | inr (x, f) ↦ rw (e, f, handle_create_session) held
        | inl (id, f) ↦
            let seated : Daemon = record d {
              sessions = made.1;
              seats = attach_session d.seats place id;
            } in
            elim (Bool-cases (is_tty t)) [
              | inl q ↦ rw (e, f, q, handle_create_session, start_session) held
              | inr q ↦
                  rw (e, f, q, handle_create_session, start_session)
                    (spawn-Held (n + 1) host id seated held)
            ]
      ]
]

pub terminate-Held :
    (n s : ℕ) (d : Daemon) → Held n d.sessions → Held n (handle_terminate_session s d).1.sessions
unfolding handle_terminate_session
terminate-Held n s d h = elim (Result-cases (terminate_session d.sessions s).0) [
  | inr (x, e) ↦ rw (e, handle_terminate_session) h
  | inl (k, e) ↦
      rw (e, handle_terminate_session)
        (rw
          (notify_all-sessions (lit "session ended" ∷ []) (abandon_session d.elevation s).0
            (record d {
              sessions = (terminate_session d.sessions s).1;
              seats = detach_session d.seats s;
              elevation = (abandon_session d.elevation s).1;
            }))
          (terminate_session-Held n d.sessions s h))
]

pub register-Held :
    (n conn s : ℕ) (d : Daemon)
    → Held n d.sessions
    → Held n (handle_register_compositor conn s d).1.sessions
unfolding handle_register_compositor
register-Held n conn s d h = elim (Option-cases (lookup s d.sessions.sessions)) [
  | inl e ↦ rw (e, handle_register_compositor) h
  | inr (c, e) ↦
      let next = if is_locked d.locks s then SessionState.locked else SessionState.active in
      let f : SessionContext → SessionContext =
        λ b. try_transition (record b { compositor_conn = some conn }) next in
      let held = update-Held n d.sessions s f (register-Keeps conn next) h in
      elim (Bool-cases (is_locked d.locks s)) [
        | inl q ↦ rw (e, q, handle_register_compositor) (rw q at held)
        | inr q ↦ rw (e, q, handle_register_compositor) (rw q at held)
      ]
]

pub switch-Held :
    (n : ℕ) (seat : Text) (s : ℕ) (d : Daemon)
    → Held n d.sessions
    → Held n (handle_switch_session seat s d).1.sessions
unfolding handle_switch_session
switch-Held n seat s d h = elim (Result-cases (switch_active d.seats seat s).0) [
  | inr (x, e) ↦ rw (e, handle_switch_session) h
  | inl (k, e) ↦
      rw (e, handle_switch_session)
        (rw
          (tell_session-sessions s (Event.session_activated seat s)
            (record d { seats = (switch_active d.seats seat s).1 }))
          h)
]

pub lock_show-Held :
    (n t : ℕ) (reason : LockReason) (d d' : Daemon)
    → lock_and_show t reason d ≡ ok d'
    → Held n d.sessions
    → Held n d'.sessions
unfolding lock_and_show
lock_show-Held n t reason d d' e h =
    elim (Result-cases (lock d.locks t (lock_policy d.settings.lock))) [
      | inr (x, f) ↦ absurd (let z = (rw f at e) in cc)
      | inl (l, f) ↦
          let shown = Event.show_lock_screen t reason in
          let k = move_and_tell-Held n t SessionState.locked shown (record d { locks = l }) h in
          let same : move_and_tell t SessionState.locked shown (record d { locks = l }) ≡ d' =
            let z = (rw f at e) in cc in
          rw⁻¹ same k
    ]

pub handle_lock-Held :
    (n : ℕ) (host : Host) (t : ℕ) (reason : LockReason) (d : Daemon)
    → Held n d.sessions
    → Held n (handle_lock_session host t reason d).1.sessions
unfolding handle_lock_session
handle_lock-Held n host t reason d h = elim (Bool-cases (has_no_password host t d)) [
  | inl e ↦ rw e h
  | inr e ↦ elim (Result-cases (lock_and_show t reason d)) [
    | inr (x, f) ↦ rw (e, f, handle_lock_session) h
    | inl (d', f) ↦ rw (e, f, handle_lock_session) (lock_show-Held n t reason d d' f h)
  ]
]

pub after_unlock-Held :
    (n : ℕ) (o : AuthOutcome) (s : ℕ) (d : Daemon)
    → Held n d.sessions
    → Held n (after_unlock o s d).sessions
unfolding after_unlock
after_unlock-Held n AuthOutcome.success s d h =
    move_and_tell-Held n s SessionState.active (Event.hide_lock_screen s) d h
after_unlock-Held n (AuthOutcome.failure k) s d h =
    rw (tell_session-sessions s (Event.auth_feedback s (AuthOutcome.failure k)) d) h
after_unlock-Held n (AuthOutcome.locked_out k) s d h =
    rw (tell_session-sessions s (Event.auth_feedback s (AuthOutcome.locked_out k)) d) h
after_unlock-Held n (AuthOutcome.error e) s d h =
    rw (tell_session-sessions s (Event.auth_feedback s (AuthOutcome.error e)) d) h
after_unlock-Held n AuthOutcome.cancelled s d h =
    rw (tell_session-sessions s (Event.auth_feedback s AuthOutcome.cancelled) d) h
