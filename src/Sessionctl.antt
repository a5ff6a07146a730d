-- ===== src/Sessionctl.antt =====
-- bin/mitos-sessionctl.rs: the command-line client. The parsing of the arguments (clap), the
-- configuration, the socket, standard input and the `{:?}` of a string are parameters.
mod Outcome
mod Requests
mod Tests
use mitos_session.Base.{
  Text, Piece, lit, num, txt, Message, ℕ, ◌⊎◌, inl, inr, Bool, true, false, ◌||◌, Option, none,
  some, List, [], ◌∷◌, ◌++◌, map, ◌==◌, if◌then◌else◌,
}
use Prim.Native.String.{String}
use mathlib.Core.Option
use mitos_session.Errors.{to_string, Result, ok, err, ◌>>=◌, io}
use mitos_session.Auth.{AuthOutcome}
use mitos_session.Lock.Inhibitor.{InhibitWhat, InhibitMode}
use mitos_session.Elevation.Action.{ElevationRisk, ElevationResponse}
use mitos_session.Session.State.{SessionType, wayland, x11, tty}
use mitos_session.Ipc.{Request, SessionInfo, InhibitorInfo, Response, Packet}
use mitos_session.Ipc.Framing.{Source, Sink, Codec}
use mitos_session.Ipc.Framing.Requests.{call}

pub data RiskArg : Type 0 where
  elevated critical : RiskArg

pub data InhibitWhatArg : Type 0 where
  idle lock suspend shutdown : InhibitWhatArg

pub data InhibitModeArg : Type 0 where
  block delay : InhibitModeArg

-- The `From` implementations.
abbrev pub risk_of : RiskArg → ElevationRisk
risk_of elevated = ElevationRisk.elevated
risk_of critical = ElevationRisk.critical

abbrev pub what_of : InhibitWhatArg → InhibitWhat
what_of idle = InhibitWhat.idle
what_of InhibitWhatArg.lock = InhibitWhat.lock
what_of InhibitWhatArg.suspend = InhibitWhat.suspend
what_of shutdown = InhibitWhat.shutdown

abbrev pub mode_of : InhibitModeArg → InhibitMode
mode_of block = InhibitMode.block
mode_of delay = InhibitMode.delay

pub data Command : Type 0 where
  list_sessions list_inhibitors suspend reboot poweroff : Command
  status terminate lock release_inhibit : ℕ → Command
  create_session : Text → Option Text → Option Text → Command
  unlock : ℕ → Text → Command
  activity : Text → Command
  switch : Text → ℕ → Command
  inhibit : InhibitWhatArg → Text → Text → InhibitModeArg → Command
  request_elevation : ℕ → Text → Text → RiskArg → Text → Command
  respond_elevation : ℕ → Bool → Command

pub record Cli : Type 0 where
  pub socket : Option Text
  pub command : Command

-- `trim_end_matches(['\n', '\r'])`.
abbrev pub is_break : ℕ → Bool
is_break c = c == 10 || c == 13

abbrev pub push_unless_break : ℕ → Text → Text
push_unless_break x [] = if is_break x then [] else x ∷ []
push_unless_break x (y ∷ ys) = x ∷ y ∷ ys

abbrev pub trim_breaks : Text → Text
trim_breaks [] = []
trim_breaks (x ∷ xs) = push_unless_break x (trim_breaks xs)

-- `read_line`: up to the first line break, which it keeps.
abbrev pub read_line : Text → Text
read_line [] = []
read_line (c ∷ cs) = if c == 10 then c ∷ [] else c ∷ read_line cs

-- Flushing standard output, and all of standard input.
pub record Console : Type 0 where
  pub flush : Result (Unit {0})
  pub stdin : Result Text

-- `read_password`; `asks` has its prompt.
abbrev pub read_password : Console → Result Text
read_password console = do
  flushed ← console.flush
  input ← console.stdin
  ok (trim_breaks (read_line input))

-- The `match cli.command` of `run`.
unfoldable pub request_of : Console → Command → Result Request
request_of console list_sessions = ok Request.list_sessions
request_of console list_inhibitors = ok Request.list_inhibitors
request_of console Command.suspend = ok Request.suspend
request_of console reboot = ok Request.reboot
request_of console poweroff = ok Request.power_off
request_of console (status id) = ok (Request.session_status id)
request_of console (terminate id) = ok (Request.terminate_session id)
request_of console (Command.lock id) = ok (Request.lock_session id)
request_of console (release_inhibit id) = ok (Request.release_inhibit id)
request_of console (create_session user seat session_type) =
    ok (Request.create_session user seat session_type)
request_of console (unlock id user) = do
  password ← read_password console
  ok (Request.unlock id user password)
request_of console (activity seat) = ok (Request.report_activity seat)
request_of console (switch seat id) = ok (Request.switch_session seat id)
request_of console (inhibit what who why mode) =
    ok (Request.inhibit (what_of what) who why (mode_of mode))
request_of console (request_elevation id app description risk duration) = ok (
    Request.request_elevation id (record {
      requesting_app = app;
      description = description;
      risk = risk_of risk;
      duration_label = duration;
    }))
request_of console (respond_elevation id true) =
    ok (Request.respond_elevation id ElevationResponse.cancelled)
request_of console (respond_elevation id false) = do
  password ← read_password console
  ok (Request.respond_elevation id (ElevationResponse.password password))

-- The prompt that `read_password` prints, for the commands that read one.
abbrev pub asks : Command → Message
asks (unlock id user) = lit "Password: " ∷ []
asks (respond_elevation id false) = lit "Password: " ∷ []
asks (respond_elevation id true) = []
asks list_sessions = []
asks list_inhibitors = []
asks Command.suspend = []
asks reboot = []
asks poweroff = []
asks (status id) = []
asks (terminate id) = []
asks (Command.lock id) = []
asks (release_inhibit id) = []
asks (create_session user seat session_type) = []
asks (activity seat) = []
asks (switch seat id) = []
asks (inhibit what who why mode) = []
asks (request_elevation id app description risk duration) = []

-- `{:?}`; that of a string is `debug_str`.
abbrev pub debug_type : SessionType → Piece
debug_type wayland = lit "Wayland"
debug_type x11 = lit "X11"
debug_type tty = lit "Tty"

abbrev pub debug_what : InhibitWhat → Piece
debug_what InhibitWhat.idle = lit "Idle"
debug_what InhibitWhat.lock = lit "Lock"
debug_what InhibitWhat.suspend = lit "Suspend"
debug_what InhibitWhat.shutdown = lit "Shutdown"

abbrev pub debug_mode : InhibitMode → Piece
debug_mode InhibitMode.block = lit "Block"
debug_mode InhibitMode.delay = lit "Delay"

abbrev pub debug_outcome : (Message → Message) → AuthOutcome → Message
debug_outcome debug_str AuthOutcome.success = lit "Success" ∷ []
debug_outcome debug_str (AuthOutcome.failure n) =
    lit "Failure { attempts_remaining: " ∷ num n ∷ lit " }" ∷ []
debug_outcome debug_str (AuthOutcome.locked_out n) =
    lit "LockedOut { retry_after_secs: " ∷ num n ∷ lit " }" ∷ []
debug_outcome debug_str (AuthOutcome.error e) = lit "Error(" ∷ (debug_str e ++ (lit ")" ∷ []))
debug_outcome debug_str AuthOutcome.cancelled = lit "Cancelled" ∷ []

-- What a run prints.
pub record Printed : Type 0 where
  pub stdout : Message
  pub stderr : Message

-- A `println!` for each message.
abbrev pub in_lines : List Message → Message
in_lines [] = []
in_lines (m ∷ rest) = m ++ (lit "\n" ∷ in_lines rest)

abbrev pub if_locked : Bool → String → Message
if_locked true mark = lit mark ∷ []
if_locked false mark = []

abbrev pub session_line : SessionInfo → Message
session_line s =
    num s.id
    ∷ lit "\t"
    ∷ txt s.user_name
    ∷ lit "\tseat="
    ∷ txt s.seat_id
    ∷ lit "\t"
    ∷ debug_type s.session_type
    ∷ lit "\t"
    ∷ (s.state ++ if_locked s.locked " [locked]")

abbrev pub inhibitor_line : InhibitorInfo → Message
inhibitor_line i =
    num i.id
    ∷ lit "\t"
    ∷ debug_what i.what
    ∷ lit "\t"
    ∷ txt i.who
    ∷ lit "\t"
    ∷ debug_mode i.mode
    ∷ lit "\t"
    ∷ txt i.why
    ∷ []

abbrev pub out : List Message → Printed
out lines = record { stdout = in_lines lines; stderr = [] }

unfoldable pub print_response : (Message → Message) → Response → Printed
print_response debug_str Response.done = out ((lit "ok" ∷ []) ∷ [])
print_response debug_str (Response.sessions []) = out ((lit "no active sessions" ∷ []) ∷ [])
print_response debug_str (Response.sessions (s ∷ rest)) = out (map session_line (s ∷ rest))
print_response debug_str (Response.session s) = out (
    (lit "id:      " ∷ num s.id ∷ [])
    ∷ (lit "user:    " ∷ txt s.user_name ∷ lit " (uid " ∷ num s.uid ∷ lit ")" ∷ [])
    ∷ (lit "seat:    " ∷ txt s.seat_id ∷ [])
    ∷ (lit "type:    " ∷ debug_type s.session_type ∷ [])
    ∷ (lit "state:   " ∷ (s.state ++ if_locked s.locked " (locked)"))
    ∷ [])
print_response debug_str (Response.auth_result outcome) = out (debug_outcome debug_str outcome ∷ [])
print_response debug_str (Response.inhibit_granted id) =
    out ((lit "inhibitor " ∷ num id ∷ lit " granted" ∷ []) ∷ [])
print_response debug_str (Response.inhibitors []) = out ((lit "no active inhibitors" ∷ []) ∷ [])
print_response debug_str (Response.inhibitors (i ∷ rest)) = out (map inhibitor_line (i ∷ rest))
print_response debug_str (Response.failed e) = record {
  stdout = [];
  stderr = in_lines ((lit "error: " ∷ e) ∷ []);
}

-- `config::load(None)?.ipc.socket_path`, connecting to a socket, the standard streams, and the `{:?}`
-- of a string, with its quotes and escapes.
pub record Outside : Type 0 where
  pub load : Result Text
  pub connect : Text → Message ⊎ (Sink × Source)
  pub console : Console
  pub debug_str : Message → Message

-- `IpcClient::connect`.
abbrev pub connect_client : Text → Message ⊎ (Sink × Source) → Result (Sink × Source)
connect_client path (inl e) = err (io (lit "could not connect to " ∷ txt path ∷ lit ": " ∷ e))
connect_client path (inr streams) = ok streams

-- `run` up to the connection.
abbrev pub open_client : Outside → Cli → Result (Sink × Source)
open_client outside cli = do
  path ← elim cli.socket [ some path ↦ ok path | none ↦ outside.load ]
  connect_client path (outside.connect path)

-- `run` up to the call: the two streams and the request.
abbrev pub prepare : Outside → Cli → Result (Sink × Source × Request)
prepare outside cli = do
  (sink, source) ← open_client outside cli
  request ← request_of outside.console cli.command
  ok (sink, source, request)

-- What `run` has printed before the call.
abbrev pub prompted : Outside → Cli → Message
prompted outside cli = elim (open_client outside cli) [ err e ↦ [] | ok _ ↦ asks cli.command ]

abbrev pub print_result : (Message → Message) → Result Response → Result Printed
print_result debug_str (ok r) = ok (print_response debug_str r)
print_result debug_str (err e) = err e

-- `run`; the fuel is that of `call`.
unfoldable pub run : ℕ → Codec Request → Codec Packet → Outside → Cli → Option (Result Printed)
unfolding print_response request_of
run fuel requests replies outside cli = elim (prepare outside cli) [
  | err e ↦ some (err e)
  | ok (sink, source, request) ↦
      Option.map (print_result outside.debug_str) (call fuel requests replies sink source request)
]

-- `main`: whether the exit code is that of success, and what is printed.
abbrev pub exit : Result Printed → Bool × Printed
exit (ok printed) = (true, printed)
exit (err e) = (
  false,
  record { stdout = []; stderr = in_lines ((lit "mitos-sessionctl: " ∷ to_string e) ∷ []) },
)

abbrev pub after_prompt : Message → Bool × Printed → Bool × Printed
after_prompt prompt (success, printed) =
    (success, record printed { stdout = prompt ++ printed.stdout })

unfoldable pub main : ℕ → Codec Request → Codec Packet → Outside → Cli → Option (Bool × Printed)
unfolding run
main fuel requests replies outside cli =
    Option.map (after_prompt (prompted outside cli))
      (Option.map exit (run fuel requests replies outside cli))
