-- ===== src/Daemon/Growth.antt =====
-- What a tick's stages write to the connections (src/main.rs, src/ipc/server.rs): packets are only
-- added.
use mitos_session.Base.{
  Text, ℕ, ◌≡◌, refl, sym, ap, ◌∙◌, inl, inr, Option, none, some, List, [], ◌∷◌, ◌++◌, Bool-cases,
  Option-cases, if◌then◌else◌,
}
use mitos_session.Base.Map.{lookup, id_key}
use mitos_session.Errors.{Result-cases, ok}
use mitos_session.Session.{SessionContext, try_transition, update, list}
use mitos_session.Session.State.{SessionState}
use mitos_session.Seat.{active_session_of}
use mitos_session.Idle.{IdleStage}
use mitos_session.Lock.{LockReason, LockPolicy, LockManager, lock}
use mitos_session.Lock.Inhibitor.{InhibitWhat, blocks}
use mitos_session.Config.{lock_policy}
use mitos_session.Power.{try_lock, send_if, prepare_all, suspend}
use mitos_session.Ipc.{Packet, event, Event, ConnRegistry, send, send_event}
use mitos_session.Daemon.State.{Host, Daemon, tell, tell_session, move_and_tell}
use mitos_session.Daemon.Handlers.{has_no_password, lock_and_show}
use mitos_session.Daemon.Dispatch.{suspend_all}
use mitos_session.Daemon.Events.{notify_active_compositor, idle_lock, on_stage, on_stages}

pub append_assoc : {A : Type 0} (xs ys zs : List A) → (xs ++ ys) ++ zs ≡ xs ++ (ys ++ zs)
append_assoc [] ys zs = refl
append_assoc (x ∷ xs) ys zs = ap (λ r. x ∷ r) (append_assoc xs ys zs)

pub append_nil : {A : Type 0} (xs : List A) → xs ++ [] ≡ xs
append_nil [] = refl
append_nil (x ∷ xs) = ap (λ r. x ∷ r) (append_nil xs)

-- No connection comes or goes, and packets are only added.
abbrev pub Grows : ConnRegistry → ConnRegistry → Type 0
Grows r r' = (r'.outboxes ≡ r.outboxes) × (new : List (ℕ × Packet)) × (r'.sent ≡ r.sent ++ new)

pub same-Grows : (r : ConnRegistry) → Grows r r
same-Grows r = (refl, [], sym (append_nil r.sent))

pub then-Grows : (a b c : ConnRegistry) → Grows a b → Grows b c → Grows a c
then-Grows a b c (o, n, e) (o', n', e') =
    (o' ∙ o, n ++ n', e' ∙ ap (λ s. s ++ n') e ∙ append_assoc a.sent n n')

pub send-Grows : (r : ConnRegistry) (k : ℕ) (p : Packet) → Grows r (send r k p)
unfolding send
send-Grows r k p = elim (Option-cases (lookup k r.outboxes)) [
  | inl e ↦ rw (e, send) (same-Grows r)
  | inr (tx, e) ↦ rw (e, send) (refl, (tx, p) ∷ [], refl)
]

tell-Grows : (k : ℕ) (e : Event) (d : Daemon) → Grows d.registry (tell k e d).registry
tell-Grows k e d = unfold send_event in send-Grows d.registry k (event e)

tell_session-Grows :
    (id : ℕ) (e : Event) (d : Daemon) → Grows d.registry (tell_session id e d).registry
tell_session-Grows id e d = elim (Option-cases (lookup id d.sessions.sessions)) [
  | inl q ↦ rw (q, tell_session) (same-Grows d.registry)
  | inr (c, q) ↦ elim (Option-cases c.compositor_conn) [
    | inl r ↦ rw (q, r, tell_session) (same-Grows d.registry)
    | inr (k, r) ↦ rw (q, r, tell_session) (tell-Grows k e d)
  ]
]

notify-Grows :
    (k : Text) (e : Event) (d : Daemon) → Grows d.registry (notify_active_compositor k e d).registry
unfolding notify_active_compositor
notify-Grows k e d = elim (Result-cases (active_session_of d.seats k)) [
  | inr (x, q) ↦ rw (q, notify_active_compositor) (same-Grows d.registry)
  | inl (o, q) ↦ elim (Option-cases o) [
    | inl r ↦ rw (q, r, notify_active_compositor) (same-Grows d.registry)
    | inr (t, r) ↦ rw (q, r, notify_active_compositor) (tell_session-Grows t e d)
  ]
]

lock_show-Grows :
    (t : ℕ) (reason : LockReason) (d d' : Daemon)
    → lock_and_show t reason d ≡ ok d'
    → Grows d.registry d'.registry
unfolding lock_and_show
lock_show-Grows t reason d d' e =
    elim (Result-cases (lock d.locks t (lock_policy d.settings.lock))) [
      | inr (x, f) ↦ absurd (let z = (rw f at e) in cc)
      | inl (l, f) ↦
          let shown = Event.show_lock_screen t reason in
          let same : move_and_tell t SessionState.locked shown (record d { locks = l }) ≡ d' =
            let z = (rw f at e) in cc in
          let moved : Daemon = record d {
            locks = l;
            sessions = update d.sessions t (λ ctx. try_transition ctx SessionState.locked);
          } in
          rw⁻¹ same (unfold move_and_tell in tell_session-Grows t shown moved)
    ]

idle_lock-Grows :
    (host : Host) (t : ℕ) (d : Daemon) → Grows d.registry (idle_lock host t d).registry
unfolding idle_lock
idle_lock-Grows host t d = elim (Bool-cases (has_no_password host t d)) [
  | inl e ↦ rw (e, idle_lock) (same-Grows d.registry)
  | inr e ↦ elim (Result-cases (lock_and_show t LockReason.idle d)) [
    | inr (x, f) ↦ rw (e, f, idle_lock) (same-Grows d.registry)
    | inl (d', f) ↦ rw (e, f, idle_lock) (lock_show-Grows t LockReason.idle d d' f)
  ]
]

asked-Grows :
    (host : Host) (k : Text) (d : Daemon)
    → Grows d.registry (on_stage host k IdleStage.lock_requested d).registry
unfolding on_stage
asked-Grows host k d = elim (Bool-cases d.settings.lock.lock_on_idle) [
  | inr off ↦ rw (off, on_stage) (same-Grows d.registry)
  | inl on ↦ elim (Result-cases (active_session_of d.seats k)) [
    | inr (x, q) ↦ rw (on, q, on_stage) (same-Grows d.registry)
    | inl (o, q) ↦ elim (Option-cases o) [
      | inl r ↦ rw (on, q, r, on_stage) (same-Grows d.registry)
      | inr (t, r) ↦ rw (on, q, r, on_stage) (idle_lock-Grows host t d)
    ]
  ]
]

send_if-Grows : (c : Option ℕ) (e : Event) (r : ConnRegistry) → Grows r (send_if c e r)
unfolding send_if
send_if-Grows none e r = same-Grows r
send_if-Grows (some c) e r = unfold send_event in send-Grows r c (event e)

prepare_all-Grows :
    (p : LockPolicy) (cs : List SessionContext) (l : LockManager) (r : ConnRegistry)
    → Grows r (prepare_all p cs l r).1
unfolding prepare_all
prepare_all-Grows p [] l r = same-Grows r
prepare_all-Grows p (c ∷ cs) l r =
    let sent = send_if c.compositor_conn Event.prepare_for_sleep r in
    let l' = if p.lock_on_suspend then try_lock p c.session.id l else l in
    then-Grows r sent (prepare_all p cs l' sent).1
      (send_if-Grows c.compositor_conn Event.prepare_for_sleep r) (prepare_all-Grows p cs l' sent)

suspend-Grows : (host : Host) (d : Daemon) → Grows d.registry (suspend_all host d).1.registry
unfolding suspend_all suspend
suspend-Grows host d = elim (Bool-cases (blocks d.locks.inhibitors InhibitWhat.suspend)) [
  | inl e ↦ rw (e, suspend_all, suspend) (same-Grows d.registry)
  | inr e ↦
      rw (e, suspend_all, suspend)
        (prepare_all-Grows (lock_policy d.settings.lock) (list d.sessions) d.locks d.registry)
]

stage-Grows :
    (host : Host) (k : Text) (x : IdleStage) (d : Daemon)
    → Grows d.registry (on_stage host k x d).registry
stage-Grows host k IdleStage.active d = unfold on_stage in same-Grows d.registry
stage-Grows host k IdleStage.dimmed d = unfold on_stage in notify-Grows k (Event.dim k) d
stage-Grows host k IdleStage.lock_requested d = asked-Grows host k d
stage-Grows host k IdleStage.suspend_requested d = unfold on_stage in suspend-Grows host d

pub stages-Grows :
    (host : Host) (xs : List (Text × IdleStage)) (d : Daemon)
    → Grows d.registry (on_stages host xs d).registry
unfolding on_stages
stages-Grows host [] d = same-Grows d.registry
stages-Grows host ((k, x) ∷ xs) d =
    then-Grows d.registry (on_stage host k x d).registry
      (on_stages host xs (on_stage host k x d)).registry (stage-Grows host k x d)
      (stages-Grows host xs (on_stage host k x d))
