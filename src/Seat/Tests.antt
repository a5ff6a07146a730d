-- ===== src/Seat/Tests.antt =====
-- The theorems on seats at concrete inputs.
use mitos_session.Base.{refl, some, [], ◌∷◌, bytes, text_discrete}
use mitos_session.Base.Map.{text_key}
use mitos_session.Seat.{Seat, new_seat, attach, SeatManager, no_seats, attach_session}
use mitos_session.Seat.Manager.{Inv, no_seats-Inv, attaches, switches, step, step-Inv}

-- Session 1 is active on seat0, and 2 and 3 queue.
abbrev pub three_logins : Seat
three_logins = record {
  id = bytes "seat0";
  active_session = some 1;
  queued_sessions = 2 ∷ 3 ∷ [];
  devices = [];
}

abbrev pub one_seat : SeatManager
one_seat = record { seats = (bytes "seat0", three_logins) ∷ [] }

pub one_seat-Inv : Inv one_seat
unfolding step attach_session no_seats attach new_seat text_discrete
one_seat-Inv =
    step-Inv (step (step no_seats (attaches (bytes "seat0") 1)) (attaches (bytes "seat0") 2))
      (attaches (bytes "seat0") 3) refl
      (step-Inv (step no_seats (attaches (bytes "seat0") 1)) (attaches (bytes "seat0") 2) refl
        (step-Inv no_seats (attaches (bytes "seat0") 1) refl no_seats-Inv))

step-Inv_example : Inv (step one_seat (switches (bytes "seat0") 3))
step-Inv_example = step-Inv one_seat (switches (bytes "seat0") 3) tt one_seat-Inv
