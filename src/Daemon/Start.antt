-- ===== src/Daemon/Start.antt =====
-- `Daemon::new`, and the start of `run` up to the event loop (src/main.rs). The panic hook, the
-- logging and the sources of the event loop are not modelled.
use mitos_session.Session
use mitos_session.Lock
use mitos_session.Idle
use mitos_session.Elevation
use mitos_session.Base.{Text, false, List}
use mitos_session.Errors.{Result, ok, err}
use mitos_session.Seat.{Device, SeatManager, no_seats, ensure_seat, set_devices}
use mitos_session.Elevation.{set_requester_uid}
use mitos_session.Config.{Settings}
use mitos_session.Ipc.{empty_connections}
use mitos_session.Daemon.State.{Host, Daemon, resolve_elevation_requester}

-- `Daemon::new`.
unfoldable pub initial : Host → Settings → Daemon
unfolding set_requester_uid resolve_elevation_requester
initial host settings = record {
  settings = settings;
  sessions = Session.new;
  seats = no_seats;
  locks = Lock.new;
  idle = Idle.new;
  registry = empty_connections;
  authenticator = host.pam settings.authentication.pam_service;
  elevation =
      set_requester_uid Elevation.new
        (resolve_elevation_requester host.accounts settings.elevation);
  should_exit = false;
}

abbrev pub with_devices : Text → Result (List Device) → SeatManager → SeatManager
unfolding set_devices
with_devices seat_id (ok devices) m = set_devices m seat_id devices
with_devices seat_id (err e) m = m

-- The default seat, with the devices that udev enumerates.
unfoldable pub startup : Host → Settings → Result (List Device) → Daemon
unfolding initial ensure_seat
startup host settings devices =
    let d = initial host settings in
    let seat_id = settings.seat.default_seat in
    record d { seats = with_devices seat_id devices (ensure_seat d.seats seat_id) }
