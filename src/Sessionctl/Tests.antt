-- ===== src/Sessionctl/Tests.antt =====
-- Runs of mitos-sessionctl at concrete inputs.
use mitos_session.Base.{bytes, lit, ◌≡◌, refl, inr, true, none, some, [], ◌∷◌}
use mitos_session.Errors.{ok}
use mitos_session.Ipc.{Request}
use mitos_session.Ipc.Framing.{write_all, write_frame, write_message, read_message}
use mitos_session.Ipc.Framing.RoundTrip.{fresh_sink}
use mitos_session.Ipc.Framing.Requests.{await_response, call}
use mitos_session.Ipc.Tests.{requests, packets, event_and_reply}
use mitos_session.Sessionctl.{Command, Cli, request_of, out, print_response, Outside, run, main}

-- The daemon sends an event and then a reply.
abbrev outside : Outside
outside = record {
  load = ok (bytes "/run/mitos-session.sock");
  connect = λ path. inr (fresh_sink none, event_and_reply);
  console = record { flush = ok tt; stdin = ok (bytes "secret\r\nmore\n") };
  debug_str = λ m. m;
}

abbrev suspend_cli : Cli
suspend_cli = record { socket = none; command = Command.suspend }

-- It prints "ok".
suspend_prints :
    main 20 requests packets outside suspend_cli ≡ some (true, out ((lit "ok" ∷ []) ∷ []))
unfolding main run request_of print_response call await_response read_message write_message
    write_frame write_all
suspend_prints = refl

-- Only the first line is the password, and its line break is not part of it.
unlock_request :
    request_of outside.console (Command.unlock 3 (bytes "alice"))
    ≡ ok (Request.unlock 3 (bytes "alice") (bytes "secret"))
unfolding request_of
unlock_request = refl
