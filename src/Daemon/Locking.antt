-- ===== src/Daemon/Locking.antt =====
-- What the handlers of src/main.rs do to the locks: which leave them alone, and which keep a locked
-- session locked.
use mitos_session.Base.{
  Text, lit, ℕ, ◌≡◌, inl, inr, Bool, true, false, Option, List, [], ◌∷◌, arith, if◌then◌else◌,
  Bool-cases,
}
use mitos_session.Errors.{ok, Result-cases}
use mitos_session.Users.{by_name}
use mitos_session.Auth.{AuthOutcome}
use mitos_session.Session.{SessionContext, create_session, terminate_session, list}
use mitos_session.Session.State.{SessionState}
use mitos_session.Seat.{attach_session, detach_session, switch_active}
use mitos_session.Lock.{LockReason, LockPolicy, LockManager, is_locked, lock}
use mitos_session.Lock.Inhibitor.{InhibitWhat, blocks}
use mitos_session.Lock.Unlocking.{lock-is_locked}
use mitos_session.Elevation.{abandon_session}
use mitos_session.Config.{lock_policy}
use mitos_session.Power.{try_lock, send_if, prepare_all, suspend}
use mitos_session.Ipc.{Event, ConnRegistry}
use mitos_session.Daemon.Kept.{after_unlock-Kept}
use mitos_session.Daemon.State.{Host, Daemon, move_and_tell}
use mitos_session.Daemon.Handlers.{
  requested_type, requested_seat, start_session, handle_create_session, handle_register_compositor,
  has_no_password, lock_and_show, handle_lock_session, after_unlock, handle_switch_session,
}
use mitos_session.Daemon.Prompts.{handle_terminate_session}
use mitos_session.Daemon.Dispatch.{suspend_all}
use mitos_session.Daemon.Locked.{
  tell_session-locks, move_and_tell-locks, spawn-locks, notify_all-locks,
}

pub create-locks :
    (host : Host) (name : Text) (seat type : Option Text) (d : Daemon)
    → (handle_create_session host name seat type d).1.locks ≡ d.locks
unfolding handle_create_session start_session
create-locks host name seat type d = elim (Result-cases (by_name host.accounts name)) [
  | inr (x, e) ↦ ground arith
  | inl (u, e) ↦
      let place = requested_seat seat d.settings.seat.default_seat in
      let t = requested_type type d.settings.session.default_session_type in
      let made = create_session host.session_host d.sessions u place t d.settings.session in
      elim (Result-cases made.0) [
        | inr (x, f) ↦ ground arith
        | inl (id, f) ↦ ground (
          arith,
          spawn-locks host id
              (record d { sessions = made.1; seats = attach_session d.seats place id }),
        )
      ]
]

pub terminate-locks : (s : ℕ) (d : Daemon) → (handle_terminate_session s d).1.locks ≡ d.locks
unfolding handle_terminate_session
terminate-locks s d = elim (Result-cases (terminate_session d.sessions s).0) [
  | inr (x, e) ↦ ground arith
  | inl (k, e) ↦
      rw (e, handle_terminate_session)
        (notify_all-locks (lit "session ended" ∷ []) (abandon_session d.elevation s).0 (record d {
          sessions = (terminate_session d.sessions s).1;
          seats = detach_session d.seats s;
          elevation = (abandon_session d.elevation s).1;
        }))
]

pub register-locks :
    (conn s : ℕ) (d : Daemon) → (handle_register_compositor conn s d).1.locks ≡ d.locks
unfolding handle_register_compositor
register-locks conn s d = ground arith

pub switch-locks :
    (seat : Text) (s : ℕ) (d : Daemon) → (handle_switch_session seat s d).1.locks ≡ d.locks
unfolding handle_switch_session
switch-locks seat s d = elim (Result-cases (switch_active d.seats seat s).0) [
  | inr (x, e) ↦ ground arith
  | inl (k, e) ↦ rw (e, handle_switch_session) (tell_session-locks _ _ _)
]

lock-ok-is_locked :
    (l l' : LockManager) (t s : ℕ) (p : LockPolicy)
    → lock l t p ≡ ok l'
    → is_locked l s ≡ true
    → is_locked l' s ≡ true
lock-ok-is_locked l l' t s p e h = let k = lock-is_locked l t s p h in rw e at k

engage-is_locked :
    (l : LockManager) (t s : ℕ) (p : LockPolicy)
    → is_locked l s ≡ true
    → is_locked (try_lock p t l) s ≡ true
unfolding try_lock
engage-is_locked l t s p h = elim (Result-cases (lock l t p)) [
  | inl (l', e) ↦ rw (e, try_lock) (lock-ok-is_locked l l' t s p e h)
  | inr (x, e) ↦ rw (e, try_lock) h
]

if-is_locked :
    (b : Bool) (l l' : LockManager) (s : ℕ)
    → is_locked l s ≡ true
    → is_locked l' s ≡ true
    → is_locked (if b then l else l') s ≡ true
if-is_locked true l l' s h h' = h
if-is_locked false l l' s h h' = h'

prepare-is_locked :
    (p : LockPolicy) (cs : List SessionContext) (l : LockManager) (r : ConnRegistry) (s : ℕ)
    → is_locked l s ≡ true
    → is_locked (prepare_all p cs l r).0 s ≡ true
unfolding prepare_all
prepare-is_locked p [] l r s h = h
prepare-is_locked p (c ∷ cs) l r s h =
    prepare-is_locked p cs (if p.lock_on_suspend then try_lock p c.session.id l else l)
      (send_if c.compositor_conn Event.prepare_for_sleep r) s
      (if-is_locked p.lock_on_suspend (try_lock p c.session.id l) l s
        (engage-is_locked l c.session.id s p h) h)

pub suspend-is_locked :
    (host : Host) (d : Daemon) (s : ℕ)
    → is_locked d.locks s ≡ true
    → is_locked (suspend_all host d).1.locks s ≡ true
unfolding suspend_all suspend
suspend-is_locked host d s h = elim (Bool-cases (blocks d.locks.inhibitors InhibitWhat.suspend)) [
  | inl e ↦ rw e h
  | inr e ↦
      rw e
        (prepare-is_locked (lock_policy d.settings.lock) (list d.sessions) d.locks d.registry s h)
]

-- One call of the lock manager keeps the session locked, unless it presents an accepted credential.
pub lock_show-is_locked :
    (t s : ℕ) (reason : LockReason) (d d' : Daemon)
    → lock_and_show t reason d ≡ ok d'
    → is_locked d.locks s ≡ true
    → is_locked d'.locks s ≡ true
unfolding lock_and_show
lock_show-is_locked t s reason d d' e h =
    elim (Result-cases (lock d.locks t (lock_policy d.settings.lock))) [
      | inr (x, f) ↦ absurd (let z = (rw f at e) in cc)
      | inl (l, f) ↦
          let shown = Event.show_lock_screen t reason in
          let k = move_and_tell-locks t SessionState.locked shown (record d { locks = l }) in
          let same : move_and_tell t SessionState.locked shown (record d { locks = l }) ≡ d' =
            let z = (rw f at e) in cc in
          rw⁻¹ same (rw k (lock-ok-is_locked d.locks l t s (lock_policy d.settings.lock) f h))
    ]

pub handle_lock-is_locked :
    (host : Host) (t s : ℕ) (reason : LockReason) (d : Daemon)
    → is_locked d.locks s ≡ true
    → is_locked (handle_lock_session host t reason d).1.locks s ≡ true
unfolding handle_lock_session
handle_lock-is_locked host t s reason d h = elim (Bool-cases (has_no_password host t d)) [
  | inl e ↦ rw e h
  | inr e ↦ elim (Result-cases (lock_and_show t reason d)) [
    | inr (x, f) ↦ rw (e, f, handle_lock_session) h
    | inl (d', f) ↦ rw (e, f, handle_lock_session) (lock_show-is_locked t s reason d d' f h)
  ]
]

pub after_unlock-locks :
    (o : AuthOutcome) (s : ℕ) (d : Daemon) → (after_unlock o s d).locks ≡ d.locks
after_unlock-locks o s d = (after_unlock-Kept o s d).0
