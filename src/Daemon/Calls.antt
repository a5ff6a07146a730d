-- ===== src/Daemon/Calls.antt =====
-- What the requests on sessions and locks do to the elevation manager (src/main.rs).
use mitos_session.Base.{
  Text, lit, ℕ, ◌≤◌, ◌≡◌, refl, inl, inr, Option, List, [], ◌∷◌, arith, Bool-cases, length,
}
use mitos_session.Errors.{ok, Result-cases}
use mitos_session.Users.{by_name}
use mitos_session.Auth.{AuthRequest}
use mitos_session.Session.State.{SessionState}
use mitos_session.Seat.{attach_session, detach_session, switch_active}
use mitos_session.Lock.{LockReason, lock, attempt_unlock, release_inhibitor}
use mitos_session.Elevation.{ElevationManager, abandon_session}
use mitos_session.Config.{lock_policy, auth_policy}
use mitos_session.Ipc.{Request, Event}
use mitos_session.Daemon.State.{Host, Daemon, move_and_tell}
use mitos_session.Daemon.Handlers.{
  requested_type, requested_seat, start_session, handle_create_session, has_no_password,
  lock_and_show, handle_lock_session, handle_unlock, handle_switch_session,
}
use mitos_session.Daemon.Prompts.{handle_terminate_session}
use mitos_session.Daemon.Dispatch.{dispatch}
use mitos_session.Session.{create_session, terminate_session}
use mitos_session.Elevation.History.{Call, ends, step, run, ends}
use mitos_session.Daemon.Kept.{
  tell_session-Kept, move_and_tell-Kept, spawn-Kept, notify_all-Kept, after_unlock-Kept,
}

-- What a turn does to the manager: at most two of the manager's own calls.
abbrev pub Calls : Daemon → ElevationManager → Type 0
Calls d m = (cs : List Call) × (length cs ≤ 2) × (m ≡ run d.elevation cs)

pub none_called : (d : Daemon) (m : ElevationManager) → m ≡ d.elevation → Calls d m
none_called d m e = ([], omega arith, unfold run in e)

pub called : (c : Call) (d : Daemon) (m : ElevationManager) → m ≡ step d.elevation c → Calls d m
called c d m e = (c ∷ [], omega arith, unfold run in e)

pub create-elevation :
    (host : Host) (name : Text) (seat type : Option Text) (d : Daemon)
    → (handle_create_session host name seat type d).1.elevation ≡ d.elevation
unfolding handle_create_session start_session
create-elevation host name seat type d = elim (Result-cases (by_name host.accounts name)) [
  | inr (x, e) ↦ ground arith
  | inl (u, e) ↦
      let place = requested_seat seat d.settings.seat.default_seat in
      let t = requested_type type d.settings.session.default_session_type in
      let made = create_session host.session_host d.sessions u place t d.settings.session in
      elim (Result-cases made.0) [
        | inr (x, f) ↦ ground arith
        | inl (id, f) ↦ ground (
          arith,
          (spawn-Kept host id
              (record d { sessions = made.1; seats = attach_session d.seats place id })).1,
        )
      ]
]

pub terminate-Calls : (s : ℕ) (d : Daemon) → Calls d (handle_terminate_session s d).1.elevation
unfolding handle_terminate_session
terminate-Calls s d = elim (Result-cases (terminate_session d.sessions s).0) [
  | inr (x, e) ↦ none_called d _ (ground (arith, e))
  | inl (k, e) ↦
      let d' : Daemon = record d {
        sessions = (terminate_session d.sessions s).1;
        seats = detach_session d.seats s;
        elevation = (abandon_session d.elevation s).1;
      } in
      let told = notify_all-Kept (lit "session ended" ∷ []) (abandon_session d.elevation s).0 d' in
      called (ends s) d (handle_terminate_session s d).1.elevation
        (rw (e, handle_terminate_session) (unfold step in told.1))
]

pub switch-elevation :
    (seat : Text) (s : ℕ) (d : Daemon) → (handle_switch_session seat s d).1.elevation ≡ d.elevation
unfolding handle_switch_session
switch-elevation seat s d = elim (Result-cases (switch_active d.seats seat s).0) [
  | inr (x, e) ↦ ground arith
  | inl (k, e) ↦
      rw (e, handle_switch_session)
        (tell_session-Kept s (Event.session_activated seat s)
          (record d { seats = (switch_active d.seats seat s).1 })).1
]

pub lock_show-elevation :
    (t : ℕ) (reason : LockReason) (d d' : Daemon)
    → lock_and_show t reason d ≡ ok d'
    → d'.elevation ≡ d.elevation
unfolding lock_and_show
lock_show-elevation t reason d d' e =
    elim (Result-cases (lock d.locks t (lock_policy d.settings.lock))) [
      | inr (x, f) ↦ absurd (let z = (rw f at e) in cc)
      | inl (l, f) ↦
          let shown = Event.show_lock_screen t reason in
          let k = move_and_tell-Kept t SessionState.locked shown (record d { locks = l }) in
          let same : move_and_tell t SessionState.locked shown (record d { locks = l }) ≡ d' =
            let z = (rw f at e) in cc in
          rw⁻¹ same k.1
    ]

pub handle_lock-elevation :
    (host : Host) (t : ℕ) (reason : LockReason) (d : Daemon)
    → (handle_lock_session host t reason d).1.elevation ≡ d.elevation
unfolding handle_lock_session
handle_lock-elevation host t reason d = elim (Bool-cases (has_no_password host t d)) [
  | inl e ↦ rw e refl
  | inr e ↦ elim (Result-cases (lock_and_show t reason d)) [
    | inr (x, f) ↦ rw (e, f, handle_lock_session) refl
    | inl (d', f) ↦ rw (e, f, handle_lock_session) (lock_show-elevation t reason d d' f)
  ]
]

pub handle_unlock-elevation :
    (host : Host) (t : ℕ) (name password : Text) (d : Daemon)
    → (handle_unlock host t name password d).1.elevation ≡ d.elevation
unfolding handle_unlock
handle_unlock-elevation host t name password d =
    let r : AuthRequest = record { session_id = t; user_name = name; password = password } in
    let p = auth_policy d.settings.authentication d.settings.lock in
    let (o, l) = attempt_unlock d.locks d.authenticator r p host.now in
    (after_unlock-Kept o t (record d { locks = l })).1

pub release-elevation :
    (host : Host) (conn id : ℕ) (d : Daemon)
    → (dispatch host conn (Request.release_inhibit id) d).1.elevation ≡ d.elevation
unfolding dispatch
release-elevation host conn id d = elim (Result-cases (release_inhibitor d.locks id)) [
  | inl (l, e) ↦ rw (e, dispatch) refl
  | inr (x, e) ↦ rw (e, dispatch) refl
]
