-- ===== src/Sessionctl/Requests.antt =====
-- Which requests mitos-sessionctl can send (`run` in bin/mitos-sessionctl.rs).
use mitos_session.Base.{Text, ◌≡◌}
use mitos_session.Base.Lines.Laws.{Free}
use mitos_session.Errors.{ok}
use mitos_session.Elevation.Action.{ElevationResponse}
use mitos_session.Ipc.{Request}
use mitos_session.Sessionctl.{trim_breaks, Console}

-- A console where `s` is typed.
abbrev typing : Text → Console
typing s = record { flush = ok tt; stdin = ok s }

-- A password can be sent if it has no line break and does not end in a carriage return.
abbrev pub IsSendable : Request → Type 0
IsSendable (Request.register_compositor id) = ⊥
IsSendable (Request.unlock id user password) = Free 10 password × (trim_breaks password ≡ password)
IsSendable (Request.respond_elevation id (ElevationResponse.password p)) =
    Free 10 p × (trim_breaks p ≡ p)
IsSendable (Request.respond_elevation id ElevationResponse.cancelled) = Unit
IsSendable (Request.create_session user seat session_type) = Unit
IsSendable (Request.terminate_session id) = Unit
IsSendable Request.list_sessions = Unit
IsSendable (Request.session_status id) = Unit
IsSendable (Request.lock_session id) = Unit
IsSendable (Request.report_activity seat) = Unit
IsSendable (Request.switch_session seat id) = Unit
IsSendable (Request.inhibit what who why mode) = Unit
IsSendable (Request.release_inhibit id) = Unit
IsSendable Request.list_inhibitors = Unit
IsSendable Request.suspend = Unit
IsSendable Request.reboot = Unit
IsSendable Request.power_off = Unit
IsSendable (Request.request_elevation id action) = Unit
