-- ===== src/Seat/Manager.antt =====
-- `SeatManager` (src/seat/manager.rs): attaching, detaching and switching on every branch.
use mitos_session.Base.Map.{Map, lookup, insert, lookup-insert, text_key}
use mathlib.Core.Option
use mitos_session.Base.{
  ℕ, ◌+◌, ◌≡◌, refl, sym, ◌≢◌, ◌↔◌, ◌⊎◌, inl, inr, true, false, Option, none, some, List, [], ◌∷◌,
  arith, ◌==◌, if◌then◌else◌, Bool-cases, Option-cases, is_id, count, Text,
}
use mitos_session.Errors.{unknown_seat, unknown_session, ok, err}
use mitos_session.Seat.{
  Device, Seat, sessions, has_session, attach, detach, activate, outgoing, SeatManager, no_seats,
  seat_entry, set_devices, attach_session, on_each, detach_session, switch_active,
}
use mitos_session.Seat.Queue.{
  Tidy, new_seat-Tidy, count-attach, count-detach, count-activate, attach-Tidy, detach-Tidy,
  activate-Tidy,
}

-- Every seat is tidy.
abbrev pub Inv : SeatManager → Type 0
Inv m = (k : Text) (seat : Seat) → lookup k m.seats ≡ some seat → Tidy seat

entry-Tidy : (m : SeatManager) (k : Text) → Inv m → Tidy (seat_entry m k)
unfolding seat_entry
entry-Tidy m k v = elim (Option-cases (lookup k m.seats)) [
  | inl e ↦ rw (e, seat_entry) (new_seat-Tidy k)
  | inr (seat, e) ↦ rw (e, seat_entry) (v k seat e)
]

pub no_seats-Inv : Inv no_seats
unfolding no_seats
no_seats-Inv k seat e = absurd (cc)

-- On tidy seats. Logging in on a seat: the session is on that seat afterwards, once if it was not
-- there before, as the active one exactly if the seat had none; whoever was active stays active;
-- every other session of the seat and every other seat stays as it was.
pub attach_session_lem :
    (m : SeatManager) (seat_id elsewhere : Text) (s k : ℕ)
    → Inv m
    → let m' = attach_session m seat_id s in
      (seat : Seat) × (lookup seat_id m'.seats ≡ some seat)
      × (count k (sessions seat)
          ≡ (if s == k then 1 else 0) + count k (sessions (seat_entry m seat_id)))
      × (((seat_entry m seat_id).active_session ≡ none) × (seat.active_session ≡ some s)
          ⊎ ((a : ℕ) × ((seat_entry m seat_id).active_session ≡ some a)
              × (seat.active_session ≡ some a)))
      × (seat_id ≢ elsewhere → lookup elsewhere m'.seats ≡ lookup elsewhere m.seats)
unfolding attach_session
attach_session_lem m seat_id elsewhere s k v =
    let old = seat_entry m seat_id in
    (
      attach s old,
      ground (arith, lookup-insert seat_id seat_id (attach s old) m.seats),
      count-attach s k old (entry-Tidy m seat_id v),
      elim (Option-cases old.active_session) [
        | inl e ↦ inl (e, unfold attach in ground (arith, e))
        | inr (a, e) ↦ inr (a, e, unfold attach in ground (arith, e))
      ],
      ground (arith, lookup-insert seat_id elsewhere (attach s old) m.seats),
    )

lookup-on_each :
    (f : Seat → Seat) (m : Map Text Seat) (k : Text)
    → lookup k (on_each f m) ≡ Option.map f (lookup k m)
lookup-on_each f [] k = refl
lookup-on_each f ((j, seat) ∷ m) k = ground (arith, lookup-on_each f m k)

abbrev pub first : List ℕ → Option ℕ
first [] = none
first (s ∷ rest) = some s

-- On tidy seats. Logging out: on every seat the session is gone, every other session is there as
-- often as before, and if the session was the active one, the first of the queue takes its place;
-- otherwise the active one stays.
pub detach_session_lem :
    (m : SeatManager) (s k : ℕ) (seat_id : Text) (seat : Seat)
    → Inv m
    → lookup seat_id m.seats ≡ some seat
    → let m' = detach_session m s in
      (seat' : Seat) × (lookup seat_id m'.seats ≡ some seat')
      × (count k (sessions seat') ≡ (if s == k then 0 else count k (sessions seat)))
      × (seat'.active_session ≡ (
          if is_id seat.active_session s then first seat.queued_sessions else seat.active_session))
unfolding detach_session
detach_session_lem m s k seat_id seat v e = (
  detach s seat,
  ground (arith, lookup-on_each (detach s) m.seats seat_id),
  count-detach s k seat (v seat_id seat e),
  unfold detach in ground arith,
)

-- On tidy seats. Switching to a session: an unknown seat and a session that is not on the seat are
-- errors, and nothing changes. Otherwise the session becomes the active one, the answer is the
-- session that was active before if that was another one, each session is on the seat as often as
-- before, and every other seat stays as it was.
pub switch_active_lem :
    (m : SeatManager) (seat_id elsewhere : Text) (s k : ℕ)
    → Inv m
    → let (reply, m') = switch_active m seat_id s in
      ((lookup seat_id m.seats ≡ none) × (reply ≡ err (unknown_seat seat_id)) × (m' ≡ m))
      ⊎ ((seat : Seat) × (lookup seat_id m.seats ≡ some seat)
          × (has_session seat s ≡ false)
          × (reply ≡ err (unknown_session s))
          × (m' ≡ m))
      ⊎ ((seat : Seat) × (lookup seat_id m.seats ≡ some seat)
          × (has_session seat s ≡ true)
          × (reply ≡ ok (outgoing s seat.active_session))
          × ((seat' : Seat) × (lookup seat_id m'.seats ≡ some seat')
              × (seat'.active_session ≡ some s)
              × (count k (sessions seat') ≡ count k (sessions seat)))
          × (seat_id ≢ elsewhere → lookup elsewhere m'.seats ≡ lookup elsewhere m.seats))
unfolding switch_active
switch_active_lem m seat_id elsewhere s k v = elim (Option-cases (lookup seat_id m.seats)) [
  | inl e ↦ inl (e, ground arith, ground arith)
  | inr (seat, e) ↦ inr (elim (Bool-cases (has_session seat s)) [
    | inr missing ↦ inl (seat, e, missing, ground arith, ground arith)
    | inl there ↦ inr (
      seat,
      e,
      there,
      ground arith,
      (
        activate s seat,
        ground (arith, lookup-insert seat_id seat_id (activate s seat) m.seats),
        unfold activate in ground (arith, is_id_iff seat.active_session s),
        count-activate s k seat (v seat_id seat e) there,
      ),
      ground (arith, lookup-insert seat_id elsewhere (activate s seat) m.seats),
    )
  ])
]
  where
    is_id_iff : (o : Option ℕ) (n : ℕ) → (is_id o n ≡ true) ↔ (o ≡ some n)
    is_id_iff none n = ground arith
    is_id_iff (some a) n = ground arith

-- A login puts a session that is on no seat yet on one of them, a logout takes one off, and a
-- switch moves one to the front.
pub data Call : Type 0 where
  attaches : Text → ℕ → Call
  detaches : ℕ → Call
  switches : Text → ℕ → Call
  describes : Text → List Device → Call

unfoldable pub step : SeatManager → Call → SeatManager
step m (attaches k s) = attach_session m k s
step m (detaches s) = detach_session m s
step m (switches k s) = (switch_active m k s).1
step m (describes k ds) = set_devices m k ds

-- The session that a login brings is on no seat.
abbrev pub Fresh : SeatManager → Call → Type 0
Fresh m (attaches k s) = count s (sessions (seat_entry m k)) ≡ 0
Fresh m (detaches s) = Unit
Fresh m (switches k s) = Unit
Fresh m (describes k ds) = Unit

written-Inv :
    (m : SeatManager) (k : Text) (seat : Seat)
    → Inv m
    → Tidy seat
    → Inv (record { seats = insert k seat m.seats })
written-Inv m k seat v t j q e = ground (arith, lookup-insert k j seat m.seats, v j q)

detached :
    (m : SeatManager) (s : ℕ) (old : Seat) (k : Text) (seat : Seat)
    → lookup k m.seats ≡ some old
    → lookup k (detach_session m s).seats ≡ some seat
    → detach s old ≡ seat
unfolding detach_session
detached m s old k seat q e = ground (arith, lookup-on_each (detach s) m.seats k)

not_detached :
    (m : SeatManager) (s : ℕ) (k : Text)
    → lookup k m.seats ≡ none
    → lookup k (detach_session m s).seats ≡ none
unfolding detach_session
not_detached m s k q = ground (arith, lookup-on_each (detach s) m.seats k)

detached-Inv : (m : SeatManager) (s : ℕ) → Inv m → Inv (detach_session m s)
detached-Inv m s v k seat e = elim (Option-cases (lookup k m.seats)) [
  | inl q ↦ absurd (let z = not_detached m s k q in cc)
  | inr (old, q) ↦ rw (sym (detached m s old k seat q e)) (detach-Tidy s old (v k old q))
]

switched-Inv : (m : SeatManager) (k : Text) (s : ℕ) → Inv m → Inv (switch_active m k s).1
unfolding switch_active
switched-Inv m k s v = elim (Option-cases (lookup k m.seats)) [
  | inl e ↦ rw (e, switch_active) v
  | inr (seat, e) ↦ elim (Bool-cases (has_session seat s)) [
    | inr missing ↦ rw (e, missing, switch_active) v
    | inl there ↦
        rw (e, there, switch_active)
          (written-Inv m k (activate s seat) v (activate-Tidy s seat (v k seat e) there))
  ]
]

-- No session ever stands on a seat twice, and a seat with a queue has an active session: every call
-- keeps this, as long as a login brings a session that the seat does not have.
pub step-Inv : (m : SeatManager) (c : Call) → Fresh m c → Inv m → Inv (step m c)
unfolding step
step-Inv m (attaches k s) fresh v =
    unfold attach_session in
    written-Inv m k (attach s (seat_entry m k)) v
      (attach-Tidy s (seat_entry m k) (entry-Tidy m k v) fresh)
step-Inv m (detaches s) fresh v = detached-Inv m s v
step-Inv m (switches k s) fresh v = switched-Inv m k s v
step-Inv m (describes k ds) fresh v =
    unfold set_devices in
    written-Inv m k (record (seat_entry m k) { devices = ds }) v
      (let t = entry-Tidy m k v in record { once = t.once; busy = t.busy })
