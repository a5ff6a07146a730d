-- ===== src/Daemon/Tests.antt =====
-- The theorems on the daemon at concrete inputs.
use mitos_session.Base.{
  length, ◌+◌, ◌<◌, Text, bytes, text_discrete, ℕ, ◌≤◌, ◌≡◌, refl, ◌⊎◌, true, false, none, some,
  List, [], ◌∷◌, ◌++◌, arith, ℕ_discrete, Has,
}
use mitos_session.Base.Map.{lookup, id_key}
use mitos_session.Ipc.{register}
use mitos_session.Errors.{SessionError, to_string, Result, ok}
use mitos_session.Auth.Tests.{rejects, accepts}
use mitos_session.Session.{
  Session, SessionContext, transition_context, try_transition, create_session, terminate_session,
  update, existing,
}
use mitos_session.Session.State.{SessionState, can_transition_to, transition}
use mitos_session.Session.Tests.{sound_host, running, one_running}
use mitos_session.Seat.Tests.{one_seat}
use mitos_session.Idle.Tests.{touched}
use mitos_session.Lock.{locked, LockReason, is_locked, new}
use mitos_session.Elevation.{PendingElevation, begin}
use mitos_session.Elevation.Tests.{prompt, asked}
use mitos_session.Config.{default_settings}
use mitos_session.Policy.{parse_session_type, authorize}
use mitos_session.Policy.Authorize.{Allowed}
use mitos_session.Policy.Tests.{only_ada, from_bob}
use mitos_session.Ipc.{
  PeerCred, Request, Response, Event, Packet, unregister, ManagerCommand, ManagerMessage,
}
use mitos_session.Launcher.{decide_restart}
use mitos_session.Daemon.State.{Host, Daemon}
use mitos_session.Daemon.Shadow.{user_has_password}
use mitos_session.Daemon.Entries.{ShadowEntry, print_file, user_has_password-print_file}
use mitos_session.Daemon.Handlers.{
  try_spawn_compositor, start_session, handle_create_session, handle_register_compositor,
}
use mitos_session.Daemon.Events.{follow, fallen, decision, compositor_gone, handle_compositor_exit}
use mitos_session.Daemon.Dispatch.{dispatch, handle_command, handle_ipc}
use mitos_session.Daemon.Answers.{respond_elevation-accepted}
use mitos_session.Daemon.Guards.{handle_command-refused}
use mitos_session.Daemon.Crash.{exit-register-locked}
use mitos_session.Daemon.Inputs.{Input, receives, ticks, serve, OpensIn, serve-is_locked}
use mitos_session.Session.Manager.{Inv}
use mitos_session.Daemon.Histories.{histories-Inv}
use mitos_session.Daemon.Turns.{serve_all}
use mitos_session.Daemon.Notices.{Notified}
use mitos_session.Daemon.Waiting.{timed_out, tick-closes}
use mitos_session.Elevation.Abandon.{describe}
use mitos_session.Daemon.Start.{initial, startup}
use mitos_session.Users.{by_name, is_root}
use mitos_session.Seat.{DeviceKind, Device, attach_session}
use mitos_session.Session.Env.{for_session}
use mitos_session.Lock
use mitos_session.Session
use mitos_session.Lock.Tests.{locked_one}
use mitos_session.Daemon.Prompts.{open_on, start_for, start_elevation, respond_elevation}
use mitos_session.Elevation.Action.{ElevationRisk, validate, ElevationResponse}
use mitos_session.Auth.{AuthOutcome}

-- Every call succeeds; the next process has the pid 501.
abbrev calm_host : Host
calm_host = record {
  accounts = only_ada;
  shadow = some (bytes "ada:x:1");
  session_host = sound_host;
  spawn_compositor = λ u env binary. ok 501;
  spawn_fallback_terminal = λ u env. ok 501;
  backend_suspend = ok tt;
  backend_reboot = ok tt;
  backend_poweroff = ok tt;
  pam = λ service. rejects;
  load_settings = ok default_settings;
  now = 110;
}

-- ada's session 1 is locked; its compositor is connection 10, and 30 is somebody else's.
abbrev one_locked_session : Daemon
one_locked_session = record {
  settings = default_settings;
  sessions = one_running;
  seats = one_seat;
  locks = locked_one;
  idle = touched;
  registry = record { outboxes = (10, 100) ∷ (11, 101) ∷ (30, 300) ∷ []; sent = [] };
  authenticator = rejects;
  elevation = asked;
  should_exit = false;
}

-- bob asks to end ada's session.
abbrev bob_ends_it : ManagerCommand
bob_ends_it = record { conn_id = 30; peer = from_bob; request = Request.terminate_session 1 }

serve-is_locked_example :
    (is_locked
        (serve (receives calm_host (ManagerMessage.command bob_ends_it)) one_locked_session).locks
        1
      ≡ true)
    ⊎ OpensIn one_locked_session 1 (receives calm_host (ManagerMessage.command bob_ends_it))
serve-is_locked_example =
    serve-is_locked (receives calm_host (ManagerMessage.command bob_ends_it)) one_locked_session 1
      (unfold is_locked new ℕ_discrete in refl)

not_bobs : Allowed only_ada from_bob 30 (Request.terminate_session 1) one_running asked → ⊥
not_bobs (c, e, own) = unfold ℕ_discrete in ground arith

handle_command-refused_example :
    let host = calm_host in
    let cmd = bob_ends_it in
    let d = one_locked_session in
    let box : ℕ = 300 in
    (e : SessionError) × (handle_command host cmd d ≡ record d {
      registry = record {
        outboxes = d.registry.outboxes;
        sent = d.registry.sent ++ ((box, Packet.response (Response.failed (to_string e))) ∷ []);
      };
    })
handle_command-refused_example =
    handle_command-refused calm_host bob_ends_it one_locked_session 300 (omega arith) not_bobs
      (unfold ℕ_discrete in refl)

exit-register-locked_example :
    let host = calm_host in
    let pid : ℕ = 500 in
    let s : ℕ = 1 in
    let conn : ℕ = 11 in
    let box : ℕ = 101 in
    let d = one_locked_session in
    let d' = (handle_register_compositor conn s (handle_compositor_exit host pid d)).1 in
    (is_locked d'.locks s ≡ true)
    × ((c' : SessionContext) × (lookup s d'.sessions.sessions ≡ some c')
        × (c'.state ≡ SessionState.locked)
        × (c'.compositor_conn ≡ some conn))
    × Has (box, Packet.event (Event.show_lock_screen s LockReason.manual)) d'.registry.sent
exit-register-locked_example =
    exit-register-locked calm_host 500 1 11 101 running one_locked_session
      (unfold ℕ_discrete in refl) tt (unfold is_locked new ℕ_discrete in refl)
      (unfold handle_compositor_exit compositor_gone decision decide_restart follow fallen
          try_spawn_compositor update try_transition transition_context transition can_transition_to
          unregister ℕ_discrete in
        refl)

-- Two entries of one file: the first disables the password of `a`.
abbrev two_entries : List ShadowEntry
two_entries =
    record { name = bytes "a"; hash = bytes "!"; rest = bytes "1" }
    ∷ record { name = bytes "b"; hash = bytes "x"; rest = [] }
    ∷ []

user_has_password-print_file_example :
    user_has_password (some (print_file two_entries)) (bytes "a") ≡ false
user_has_password-print_file_example =
    user_has_password-print_file (bytes "a") two_entries (ground arith)

-- The prompt 1 is for session 1, shown on connection 10 and asked for by connection 20.
abbrev prompting : Daemon
prompting = record one_locked_session {
  registry = record { outboxes = (10, 100) ∷ (20, 200) ∷ []; sent = [] };
  authenticator = accepts;
  elevation = record asked { pending = (1, record prompt { session_id = 1 }) ∷ [] };
}

respond_elevation-accepted_example :
    let host = calm_host in
    let id : ℕ = 1 in
    let shown : ℕ = 100 in
    let asked : ℕ = 200 in
    let w : Text = bytes "open" in
    let d = prompting in
    let (reply, d') = respond_elevation host id (ElevationResponse.password w) d in
    (reply ≡ Response.auth_result AuthOutcome.success)
    × (lookup id d'.elevation.pending ≡ none)
    × Has (shown, Packet.event (Event.elevation_feedback id AuthOutcome.success)) d'.registry.sent
    × Has (shown, Packet.event (Event.hide_elevation_prompt id)) d'.registry.sent
    × Has (asked, Packet.response (Response.auth_result AuthOutcome.success)) d'.registry.sent
respond_elevation-accepted_example =
    respond_elevation-accepted calm_host 1 100 200 (bytes "open") (record prompt { session_id = 1 })
      running prompting (unfold ℕ_discrete in refl) (unfold ℕ_discrete in refl) refl
      (unfold ℕ_discrete in refl) (unfold ℕ_discrete in refl)

abbrev keyboard_only : Result (List Device)
keyboard_only = ok (record { syspath = bytes "/sys/k"; kind = DeviceKind.keyboard } ∷ [])

abbrev from_root : PeerCred
from_root = record { uid = 0; gid = 0; pid = 7 }

abbrev by_root : ℕ → Request → Input
by_root conn request =
    receives calm_host
      (ManagerMessage.command (record { conn_id = conn; peer = from_root; request = request }))

-- Root connects twice, opens a session for ada, registers connection 10 as its compositor, and asks for a prompt.
abbrev asks : List Input
asks =
    receives calm_host (ManagerMessage.connected 20 from_root 120)
    ∷ receives calm_host (ManagerMessage.connected 10 from_root 110)
    ∷ by_root 20 (Request.create_session (bytes "ada") none none)
    ∷ by_root 10 (Request.register_compositor 1)
    ∷ by_root 20 (
        Request.request_elevation 1 (record {
          requesting_app = bytes "app";
          description = bytes "text";
          risk = ElevationRisk.elevated;
          duration_label = [];
        }))
    ∷ []

asks_pending :
    lookup 1 (serve_all asks (startup calm_host default_settings keyboard_only)).elevation.pending
    ≡ some (record { session_id = 1; compositor_conn = 10; requester_conn = 20 })
unfolding startup initial Lock.new serve_all serve handle_ipc handle_command authorize dispatch
    handle_create_session by_name create_session Session.begin parse_session_type start_session
    try_spawn_compositor attach_session is_root for_session handle_register_compositor update
    try_transition is_locked start_elevation start_for open_on begin validate user_has_password
    register ℕ_discrete text_discrete transition
asks_pending = refl

tick-closes_example :
    (t : ℕ) × ((ys : List Input) (host' : Host)
      → length asks + length ys < 9223372036854775808
      → t ≤ host'.now
      → let d = serve_all ys (serve_all asks (startup calm_host default_settings keyboard_only)) in
        let d' = serve (ticks host') d in
        let prompt : PendingElevation = record {
          session_id = 1;
          compositor_conn = 10;
          requester_conn = 20;
        } in
        (lookup 1 d'.elevation.pending ≡ none)
        × (lookup 1 d.elevation.pending ≡ some prompt
            → Notified timed_out (describe 1 prompt) d.registry d'.registry))
tick-closes_example =
    tick-closes calm_host default_settings keyboard_only asks 1
      (record { session_id = 1; compositor_conn = 10; requester_conn = 20 }) (omega arith)
      asks_pending

histories-Inv_example :
    Inv (serve_all asks (startup calm_host default_settings keyboard_only)).sessions
histories-Inv_example = histories-Inv calm_host default_settings keyboard_only asks (omega arith)
