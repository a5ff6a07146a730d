-- ===== src/Seat/Queue.antt =====
-- One seat (src/seat/seat.rs, and the bodies of src/seat/manager.rs): no session stands on it twice
-- and nobody queues for an idle seat.
use mitos_session.Base.{
  ℕ, ◌+◌, ◌≤◌, ◌≡◌, refl, ◌↔◌, inl, inr, true, none, List, [], ◌∷◌, ◌++◌, arith, ◌==◌,
  if◌then◌else◌, Option-cases, contains, count, Text,
}
use mitos_session.Seat.{
  Seat, new_seat, sessions, has_session, retain_others, attach, detach, activate,
}

-- No session stands twice, and a seat without an active session has no queue.
pub record Tidy (seat : Seat) : Type 0 where
  pub once : (k : ℕ) → count k (sessions seat) ≤ 1
  pub busy : seat.active_session ≡ none → seat.queued_sessions ≡ []

pub new_seat-Tidy : (id : Text) → Tidy (new_seat id)
unfolding new_seat
new_seat-Tidy id = record { once = λ k. omega arith; busy = λ e. refl }

count-append : (k : ℕ) (xs ys : List ℕ) → count k (xs ++ ys) ≡ count k xs + count k ys
count-append k [] ys = omega arith
count-append k (x ∷ xs) ys = ground (arith, count-append k xs ys)

count-retain_others :
    (k s : ℕ) (xs : List ℕ) → count k (retain_others s xs) ≡ (if s == k then 0 else count k xs)
count-retain_others k s [] = ground arith
count-retain_others k s (x ∷ xs) = ground (arith, count-retain_others k s xs)

contains_iff : (k : ℕ) (xs : List ℕ) → (contains xs k ≡ true) ↔ (1 ≤ count k xs)
contains_iff k [] = ground arith
contains_iff k (x ∷ xs) = ground (arith, contains_iff k xs)

pub has_session_iff :
    (seat : Seat) (s : ℕ) → (has_session seat s ≡ true) ↔ (1 ≤ count s (sessions seat))
unfolding has_session
has_session_iff seat s = elim (Option-cases seat.active_session) [
  | inl e ↦ ground (arith, contains_iff s seat.queued_sessions)
  | inr (a, e) ↦ ground (arith, contains_iff s seat.queued_sessions)
]

pub count-attach :
    (s k : ℕ) (seat : Seat)
    → Tidy seat
    → count k (sessions (attach s seat)) ≡ (if s == k then 1 else 0) + count k (sessions seat)
unfolding attach
count-attach s k seat v = elim (Option-cases seat.active_session) [
  | inl e ↦ ground (arith, v.busy)
  | inr (a, e) ↦ ground (arith, count-append k seat.queued_sessions (s ∷ []))
]

pub count-detach :
    (s k : ℕ) (seat : Seat)
    → Tidy seat
    → count k (sessions (detach s seat)) ≡ (if s == k then 0 else count k (sessions seat))
unfolding detach
count-detach s k seat v = elim (Option-cases seat.active_session) [
  | inl e ↦ ground (arith, count-retain_others k s seat.queued_sessions)
  | inr (a, e) ↦ ground (arith, count-retain_others k s seat.queued_sessions, v.once s)
]

pub count-activate :
    (s k : ℕ) (seat : Seat)
    → Tidy seat
    → has_session seat s ≡ true
    → count k (sessions (activate s seat)) ≡ count k (sessions seat)
unfolding activate
count-activate s k seat v h = elim (Option-cases seat.active_session) [
  | inl e ↦
      ground (arith, count-retain_others k s seat.queued_sessions, has_session_iff seat s, v.once s)
  | inr (a, e) ↦ ground (
    arith,
    count-retain_others k s (seat.queued_sessions ++ (a ∷ [])),
    count-append k seat.queued_sessions (a ∷ []),
    has_session_iff seat s,
    v.once s,
  )
]

pub attach-Tidy :
    (s : ℕ) (seat : Seat) → Tidy seat → count s (sessions seat) ≡ 0 → Tidy (attach s seat)
attach-Tidy s seat v h = record {
  once = λ k. ground (arith, count-attach s k seat v, v.once k);
  busy = unfold attach in ground arith;
}

pub detach-Tidy : (s : ℕ) (seat : Seat) → Tidy seat → Tidy (detach s seat)
detach-Tidy s seat v = record {
  once = λ k. ground (arith, count-detach s k seat v, v.once k);
  busy = unfold detach in ground (arith, v.busy);
}

pub activate-Tidy :
    (s : ℕ) (seat : Seat) → Tidy seat → has_session seat s ≡ true → Tidy (activate s seat)
activate-Tidy s seat v h = record {
  once = λ k. ground (arith, count-activate s k seat v h, v.once k);
  busy = unfold activate in ground (arith, v.busy);
}
