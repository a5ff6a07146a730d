-- ===== src/Daemon/Crash.antt =====
-- A locked session whose compositor dies (src/main.rs: `handle_compositor_exit`, and then
-- `RegisterCompositor` from the compositor that took its place).
use mitos_session.Base.{
  ℕ, ◌≡◌, refl, inl, inr, true, none, some, [], ◌∷◌, arith, ℕ_discrete, Option-cases, inc_u32, Has,
  Has-append_right,
}
use mitos_session.Base.Map.{lookup, lookup-adjust, id_key}
use mitos_session.Errors.{Result-cases}
use mitos_session.Session.{
  SessionContext, transition_context, try_transition, SessionManager, update,
}
use mitos_session.Session.State.{SessionState, can_transition_to, transition}
use mitos_session.Lock.{LockReason, is_locked}
use mitos_session.Launcher.{RestartDecision, restart, fallback_to_terminal}
use mitos_session.Ipc.{Event, Packet, ConnRegistry, send, send_event}
use mitos_session.Daemon.Kept.{exit-Kept}
use mitos_session.Daemon.State.{Host, Daemon}
use mitos_session.Daemon.Handlers.{try_spawn_compositor, handle_register_compositor}
use mitos_session.Daemon.Events.{
  find_process, fall_back, follow, compositor_gone, handle_compositor_exit, decision, fallen,
}

-- Neither closing nor closed.
abbrev pub Standing : SessionState → Type 0
Standing SessionState.starting = Unit
Standing SessionState.active = Unit
Standing SessionState.idle = Unit
Standing SessionState.locked = Unit
Standing SessionState.closing = ⊥
Standing SessionState.closed = ⊥

-- The session is registered, and neither closing nor closed.
abbrev pub Stands : SessionManager → ℕ → Type 0
Stands m s = (c : SessionContext) × (lookup s m.sessions ≡ some c) × Standing c.state

update-Stands :
    (m : SessionManager) (k s : ℕ) (f : SessionContext → SessionContext)
    → ((c : SessionContext) → Standing c.state → Standing (f c).state)
    → Stands m s
    → Stands (update m k f) s
unfolding update
update-Stands m k s f keeps (c, e, standing) = elim (ℕ_discrete k s) [
  | yes p ↦ (f c, ground (arith, lookup-adjust k s f m.sessions), keeps c standing)
  | no n ↦ (c, ground (arith, lookup-adjust k s f m.sessions), standing)
]

starting-Standing :
    (c : SessionContext)
    → Standing c.state
    → Standing (try_transition c SessionState.starting).state
unfolding try_transition transition_context transition can_transition_to
starting-Standing c h = ground arith

spawn-Stands :
    (host : Host) (id s : ℕ) (d : Daemon)
    → Stands d.sessions s
    → Stands (try_spawn_compositor host id d).sessions s
unfolding try_spawn_compositor
spawn-Stands host id s d h = elim (Option-cases (lookup id d.sessions.sessions)) [
  | inl q ↦ rw (q, try_spawn_compositor) h
  | inr (c, q) ↦
      elim (Result-cases
        (host.spawn_compositor c.user c.environment d.settings.session.compositor_binary)) [
          | inl (p, r) ↦
              rw (q, r, try_spawn_compositor)
                (update-Stands d.sessions id s (λ x. record x { compositor_process = some p })
                  (λ x y. y) h)
          | inr (x, r) ↦ rw (q, r, try_spawn_compositor) h
        ]
]

fall_back-Stands :
    (host : Host) (id s : ℕ) (d : Daemon)
    → Stands d.sessions s
    → Stands (fall_back host id d).sessions s
unfolding fall_back
fall_back-Stands host id s d h = elim (Option-cases (lookup id d.sessions.sessions)) [
  | inl q ↦ rw (q, fall_back) h
  | inr (c, q) ↦ elim (Result-cases (host.spawn_fallback_terminal c.user c.environment)) [
    | inl (p, r) ↦
        rw (q, r, fall_back)
          (update-Stands d.sessions id s (λ x. record x { compositor_process = some p }) (λ x y. y)
            h)
    | inr (x, r) ↦ rw (q, r, fall_back) h
  ]
]

follow-Stands :
    (x : RestartDecision) (host : Host) (id s : ℕ) (d : Daemon)
    → Stands d.sessions s
    → Stands (follow x host id d).sessions s
unfolding follow
follow-Stands restart host id s d h = spawn-Stands host id s _ (
    update-Stands d.sessions id s
      (λ c. record c { compositor_restarts = inc_u32 c.compositor_restarts }) (λ c y. y) h)
follow-Stands fallback_to_terminal host id s d h = fall_back-Stands host id s d h

gone-Stands :
    (host : Host) (k s : ℕ) (c : SessionContext) (d : Daemon)
    → Stands d.sessions s
    → Stands (compositor_gone host k c d).sessions s
unfolding compositor_gone fallen
gone-Stands host k s c d h = follow-Stands (decision c d) host c.session.id s (fallen k c d) (
    update-Stands
      (update d.sessions k (λ x. record x { compositor_process = none; compositor_conn = none }))
      c.session.id s (λ x. try_transition x SessionState.starting) starting-Standing
      (update-Stands d.sessions k s
        (λ x. record x { compositor_process = none; compositor_conn = none }) (λ x y. y) h))

exit-Stands :
    (host : Host) (pid s : ℕ) (d : Daemon)
    → Stands d.sessions s
    → Stands (handle_compositor_exit host pid d).sessions s
unfolding handle_compositor_exit
exit-Stands host pid s d h = elim (Option-cases (find_process pid d.sessions.sessions)) [
  | inl e ↦ rw (e, handle_compositor_exit) h
  | inr ((k, c), e) ↦ rw (e, handle_compositor_exit) (gone-Stands host k s c d h)
]

pub exit-locks :
    (host : Host) (pid : ℕ) (d : Daemon) → (handle_compositor_exit host pid d).locks ≡ d.locks
exit-locks host pid d = (exit-Kept host pid d).0

to_locked :
    (c : SessionContext)
    → Standing c.state
    → (try_transition c SessionState.locked).state ≡ SessionState.locked
unfolding try_transition transition_context transition can_transition_to
to_locked c h = ground arith

sent_to :
    (r : ConnRegistry) (conn box : ℕ) (e : Event)
    → lookup conn r.outboxes ≡ some box
    → Has (box, Packet.event e) (send_event r conn e).sent
unfolding send_event send
sent_to r conn box e h =
    rw (h, send, send_event)
      (Has-append_right (box, Packet.event e) r.sent ((box, Packet.event e) ∷ []) (inl refl))

-- A crash does not unlock. Let a session that is neither closing nor closed be locked, and let any
-- process exit, whether its compositor or not, and whatever the launcher then answers. The session
-- is still locked; and when a compositor registers for it next, on a connection that is live, the
-- session is in the state `Locked` with that compositor, and the compositor is told to show the lock
-- screen.
pub exit-register-locked :
    (host : Host) (pid s conn box : ℕ) (c : SessionContext) (d : Daemon)
    → lookup s d.sessions.sessions ≡ some c
    → Standing c.state
    → is_locked d.locks s ≡ true
    → lookup conn (handle_compositor_exit host pid d).registry.outboxes ≡ some box
    → let d' = (handle_register_compositor conn s (handle_compositor_exit host pid d)).1 in
      (is_locked d'.locks s ≡ true)
      × ((c' : SessionContext) × (lookup s d'.sessions.sessions ≡ some c')
          × (c'.state ≡ SessionState.locked)
          × (c'.compositor_conn ≡ some conn))
      × Has (box, Packet.event (Event.show_lock_screen s LockReason.manual)) d'.registry.sent
unfolding handle_register_compositor update
exit-register-locked host pid s conn box c d e standing h live =
    let d1 = handle_compositor_exit host pid d in
    let (c1, found1, standing1) = exit-Stands host pid s d (c, e, standing) in
    let still : is_locked d1.locks s ≡ true = rw (exit-locks host pid d) h in
    let taken : SessionContext = record c1 { compositor_conn = some conn } in
    let moved : SessionContext = try_transition taken SessionState.locked in
    (
      ground (arith, still),
      (
        moved,
        ground (
          arith,
          lookup-adjust s s
              (λ x. try_transition (record x { compositor_conn = some conn }) SessionState.locked)
              d1.sessions.sessions,
        ),
        to_locked taken standing1,
        unfold try_transition transition_context in ground arith,
      ),
      ground (arith, sent_to d1.registry conn box (Event.show_lock_screen s LockReason.manual)),
    )
