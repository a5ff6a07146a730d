-- ===== src/Session/State/Graph.antt =====
-- The transitions that `SessionState::can_transition_to` (src/session/state.rs) allows, as a relation,
-- and what can be reached along them.
use mathlib.Core.Path.{subst}
use mitos_session.Base.{◌≡◌, refl, ◌≢◌, ◌↔◌, ◌⊎◌, true, arith}
use mitos_session.Errors.{ok}
use mitos_session.Session.State.{
  SessionState, starting, active, idle, locked, closing, closed, can_transition_to, transition,
  starting, active, idle, locked, closing, closed,
}

-- A session that runs, with or without a display: it can crash, be locked and be closed.
pub data IsLive : SessionState → Type 0 where
  live_active : IsLive active
  live_idle : IsLive idle
  live_locked : IsLive locked

-- The transitions.
infix 40 ◌⟶◌ ◌⟶*◌
pub data ◌⟶◌ : SessionState → SessionState → Type 0 where
  come_up : starting ⟶ active
  come_up_locked : starting ⟶ locked
  close_early : starting ⟶ closing
  dim : active ⟶ idle
  wake : idle ⟶ active
  lock_active : active ⟶ locked
  lock_idle : idle ⟶ locked
  unlock : locked ⟶ active
  crash : {s : SessionState} → IsLive s → s ⟶ starting
  close : {s : SessionState} → IsLive s → s ⟶ closing
  finish : closing ⟶ closed

pub data ◌⟶*◌ (s : SessionState) : SessionState → Type 0 where
  here : s ⟶* s
  next : {t u : SessionState} → s ⟶* t → t ⟶ u → s ⟶* u

ruleset edges =
    (come_up, come_up_locked, close_early, dim, wake, lock_active, lock_idle, unlock, finish)

ruleset live = (live_active, live_idle, live_locked)

edge_of : (s t : SessionState) → can_transition_to s t ≡ true → s ⟶ t
unfolding can_transition_to
edge_of s t h = grind (arith, edges, live, crash, close)

edge_allowed : {s t : SessionState} → s ⟶ t → can_transition_to s t ≡ true
unfolding can_transition_to
edge_allowed come_up = refl
edge_allowed come_up_locked = refl
edge_allowed close_early = refl
edge_allowed dim = refl
edge_allowed wake = refl
edge_allowed lock_active = refl
edge_allowed lock_idle = refl
edge_allowed unlock = refl
edge_allowed (crash live_active) = refl
edge_allowed (crash live_idle) = refl
edge_allowed (crash live_locked) = refl
edge_allowed (close live_active) = refl
edge_allowed (close live_idle) = refl
edge_allowed (close live_locked) = refl
edge_allowed finish = refl

-- `transition` succeeds exactly along these transitions, and then yields the state asked for.
pub transition-ok_iff : (s t u : SessionState) → (transition s t ≡ ok u) ↔ ((s ⟶ t) × (t ≡ u))
unfolding transition
transition-ok_iff s t u =
    (λ h. (edge_of s t (ground arith), ground arith), λ h. ground (arith, edge_allowed h.0, h.1))

-- A locked session is left only by unlocking it, by a crash of its compositor, or by closing it; it
-- never turns idle, and nothing is reached from a closed one.
pub ⟶-from_locked :
    (s t : SessionState)
    → s ⟶ t
    → ((s ≡ locked) → (t ≡ active) ⊎ (t ≡ starting) ⊎ (t ≡ closing)) × (s ≢ closed)
unfolding can_transition_to
⟶-from_locked s t e = ground (arith, edge_allowed e)

before_closed : (t u : SessionState) → t ⟶ u → u ≡ closed → t ≡ closing
unfolding can_transition_to
before_closed t u e c = ground (arith, edge_allowed e)

-- Every path to `Closed` passes through `Closing`, and `Closed` is the end of every path.
pub ⟶*-closed :
    (s t : SessionState)
    → s ⟶* t
    → (s ≡ closed → t ≡ closed) × (t ≡ closed → s ≢ closed → s ⟶* closing)
⟶*-closed s t here = (λ e. e, λ e h. absurd (h e))
⟶*-closed s u (next {t} p e) =
    let (stays, _) = ⟶*-closed s t p in
    (
      λ c. absurd ((⟶-from_locked t u e).1 (stays c)),
      λ c _. subst (λ x. s ⟶* x) (before_closed t u e c) p,
    )
