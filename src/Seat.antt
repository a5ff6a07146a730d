-- ===== src/Seat.antt =====
-- src/seat: seats, the sessions that queue for them, and their devices (`SeatManager`). The udev
-- enumeration is not modelled; `classify` takes a test for the properties of a udev device.
pub mod Queue
pub mod Manager
pub mod Tests
use mitos_session.Base.{
  ℕ, Bool, not, ◌||◌, Option, none, some, List, [], ◌∷◌, ◌++◌, ◌==◌, if◌then◌else◌, is_id, select,
  contains, Text, bytes, same_text,
}
use mitos_session.Base.Map.{Map, lookup, insert, text_key}
use mitos_session.Errors.{unknown_seat, unknown_session, Result, ok, err, ◌>>=◌}

pub data DeviceKind : Type 0 where
  keyboard pointer touch drm other : DeviceKind

pub record Device : Type 0 where
  pub syspath : Text
  pub kind : DeviceKind

-- `classify`; `has_property` says whether the device has that udev property.
unfoldable pub classify : Text → (Text → Bool) → DeviceKind
classify subsystem has_property =
    if same_text subsystem (bytes "drm")
    then drm
    else if has_property (bytes "ID_INPUT_KEYBOARD")
    then keyboard
    else if has_property (bytes "ID_INPUT_TOUCHSCREEN")
    then touch
    else if has_property (bytes "ID_INPUT_MOUSE") || has_property (bytes "ID_INPUT_TOUCHPAD")
    then pointer
    else other

pub record Seat : Type 0 where
  pub id : Text
  pub active_session : Option ℕ
  pub queued_sessions : List ℕ
  pub devices : List Device

-- `Seat::new`.
unfoldable pub new_seat : Text → Seat
new_seat id = record { id = id; active_session = none; queued_sessions = []; devices = [] }

-- `Seat::sessions`: the active one first.
abbrev pub sessions : Seat → List ℕ
sessions seat = elim seat.active_session [
  | none ↦ seat.queued_sessions
  | some s ↦ s ∷ seat.queued_sessions
]

unfoldable pub has_session : Seat → ℕ → Bool
has_session seat id = is_id seat.active_session id || contains seat.queued_sessions id

-- `queued_sessions.retain(|&s| s != session)`.
abbrev pub retain_others : ℕ → List ℕ → List ℕ
retain_others session queue = select (λ s. not (s == session)) queue

-- The body of `attach_session` on the seat.
unfoldable pub attach : ℕ → Seat → Seat
attach session seat = elim seat.active_session [
  | none ↦ record seat { active_session = some session }
  | some a ↦ record seat { queued_sessions = seat.queued_sessions ++ (session ∷ []) }
]

-- `active_session = queued_sessions.pop_front()`.
abbrev pub promote : List ℕ → Seat → Seat
promote [] seat = record seat { active_session = none; queued_sessions = [] }
promote (s ∷ rest) seat = record seat { active_session = some s; queued_sessions = rest }

-- The body of the loop of `detach_session`.
unfoldable pub detach : ℕ → Seat → Seat
detach session seat =
    if is_id seat.active_session session
    then promote seat.queued_sessions seat
    else record seat { queued_sessions = retain_others session seat.queued_sessions }

-- `if let Some(prev) = previous { queued_sessions.push_back(prev) }`.
abbrev pub push_previous : Option ℕ → List ℕ → List ℕ
push_previous none queue = queue
push_previous (some prev) queue = queue ++ (prev ∷ [])

-- The body of `switch_active` on a seat that has the session.
unfoldable pub activate : ℕ → Seat → Seat
activate session seat = if is_id seat.active_session session then seat else record seat {
  active_session = some session;
  queued_sessions = retain_others session (push_previous seat.active_session seat.queued_sessions);
}

-- `previous.filter(|&p| p != session)`.
abbrev pub outgoing : ℕ → Option ℕ → Option ℕ
outgoing session none = none
outgoing session (some p) = if p == session then none else some p

pub record SeatManager : Type 0 where
  pub seats : Map Text Seat

-- `SeatManager::new()`.
unfoldable pub no_seats : SeatManager
no_seats = record { seats = [] }

-- `seats.entry(id).or_insert_with(|| Seat::new(id))`.
abbrev pub seat_entry : SeatManager → Text → Seat
unfolding new_seat
seat_entry m id = elim (lookup id m.seats) [ none ↦ new_seat id | some seat ↦ seat ]

unfoldable pub ensure_seat : SeatManager → Text → SeatManager
unfolding seat_entry
ensure_seat m id = record { seats = insert id (seat_entry m id) m.seats }

unfoldable pub get_seat : SeatManager → Text → Result Seat
get_seat m id = elim (lookup id m.seats) [ none ↦ err (unknown_seat id) | some seat ↦ ok seat ]

unfoldable pub set_devices : SeatManager → Text → List Device → SeatManager
unfolding seat_entry
set_devices m seat_id devices = record {
  seats = insert seat_id (record (seat_entry m seat_id) { devices = devices }) m.seats;
}

unfoldable pub attach_session : SeatManager → Text → ℕ → SeatManager
unfolding attach seat_entry
attach_session m seat_id session = record {
  seats = insert seat_id (attach session (seat_entry m seat_id)) m.seats;
}

-- The loop over `values_mut()`.
abbrev pub on_each : (Seat → Seat) → Map Text Seat → Map Text Seat
on_each f [] = []
on_each f ((k, seat) ∷ m) = (k, f seat) ∷ on_each f m

unfoldable pub detach_session : SeatManager → ℕ → SeatManager
unfolding detach
detach_session m session = record { seats = on_each (detach session) m.seats }

unfoldable pub switch_active : SeatManager → Text → ℕ → Result (Option ℕ) × SeatManager
unfolding has_session activate
switch_active m seat_id session = elim (lookup seat_id m.seats) [
  | none ↦ (err (unknown_seat seat_id), m)
  | some seat ↦ if not (has_session seat session) then (err (unknown_session session), m) else (
    ok (outgoing session seat.active_session),
    record { seats = insert seat_id (activate session seat) m.seats },
  )
]

unfoldable pub active_session_of : SeatManager → Text → Result (Option ℕ)
unfolding get_seat
active_session_of m seat_id = do seat ← get_seat m seat_id; ok seat.active_session
