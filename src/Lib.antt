-- ===== src/Lib.antt =====
-- mitos-session is the session manager daemon of the MITOS desktop: it starts and ends the sessions of
-- users, hands seats to them, locks and unlocks them, opens prompts for elevated rights, reacts to idle
-- seats, and serves its clients over a Unix socket. One thread owns the whole state and handles one
-- message, tick or signal at a time, so each handler is a function from a state to a state.
--
-- Which file models what (paths from the repository's root):
--   Base       shared vocabulary: Boolean tests, lists, maps (`HashMap` as association lists), texts as
--              their bytes, and formatted messages as the pieces that they are put together from
--   Errors     src/errors/error.rs: `SessionError` and `Result`
--   Auth       src/authentication: the PAM backend and `check`, the attempt counter
--   Users      src/user: accounts, home directories, failed logins; `Groups` reads the group file
--   Session    src/session: the lifecycle (`State`), the environment (`Env`), `lifecycle::begin` and
--              `end`, and `SessionManager`
--   Seat       src/seat: `Seat` and `SeatManager`
--   Idle       src/idle: `IdleTracker`, `IdlePolicy` and `IdleDetector`
--   Lock       src/lock: `LockManager`, its timers (`Timeouts`) and inhibitors (`Inhibitor`)
--   Elevation  src/elevation: `ElevationManager`, its timers and the check of what is displayed
--   Config     src/config: the settings, their defaults, the policies made from them, and which file is
--              read (`Loader`)
--   Ipc        src/ipc: requests, replies, events, and `ConnRegistry`; `Framing` has the messages on
--              the socket and the client, `Connection` the two threads of a connection
--   Policy     src/policy: `authorize`
--   Launcher   src/launcher: `decide_restart`, and starting processes as a user (`Spawn`, with
--              src/user/permissions.rs)
--   Power      src/power: suspend, reboot, power-off, resume; `Backends` has the three backends
--   Signals    src/signals: `classify` and `graceful_shutdown`
--   Daemon     src/main.rs: `handle_ipc`, `handle_command`, `dispatch` and every handler, the periodic
--              tick, the exit of a compositor, signals, and the start
--   Sessionctl bin/mitos-sessionctl.rs: the command-line client
-- The modules below these prove what they are named for; the Tests modules hold concrete runs.
--
-- How the parts meet: `Daemon.State.Daemon` is the record of all managers. A message of a client is
-- authorized by `Policy.authorize` against the sessions and the prompts, then dispatched to a handler
-- that changes the managers and puts replies and events into the outboxes of `Ipc.ConnRegistry`. What
-- lies outside the source is a parameter: the account database, /etc/shadow, the file system, PAM,
-- process creation, the configuration file and the clock (`Daemon.State.Host`, with `Users.Accounts`,
-- `Session.SessionHost` and `Auth.PamLib`), bincode (`Ipc.Framing.Codec`), serde_json and the kernel
-- (`Power.Backends.Json` and `Kernel`), the calls that start a process (`Launcher.Spawn.Kernel`), and the streams of a socket (`Ipc.Framing.Source` and `Sink`):
-- all the bytes that will come, and how they end. A stream that stays open without a word has no `Source`.
--
-- Numbers: an `Instant` and a `Duration` are seconds. The clock has no end, where
-- `Instant + Duration` panics on overflow. Counters of u32 and u64 wrap as in a release build
-- (`inc_u32`, `inc_u64`); theorems that need a counter not to wrap say so. The loops over `read_message`
-- take fuel, and more fuel than the stream has bytes is enough, since each message takes four bytes or
-- more; every other loop of the source runs over a list.
--
-- Interleavings: the threads of a connection and the daemon are deterministic step functions, and a
-- list of moves says who goes next (`Ipc.Connection.run`); a blocked thread stays where it is.
--
-- Not modelled: binding the socket; logging and the audit log; udev; the parsing of the configuration
-- file and of the command line; Unicode white space; and src/session/runtime.rs,
-- src/launcher/autostart.rs and src/seat/monitor.rs, which the crate does not compile.
pub mod Base
pub mod Errors
pub mod Users
pub mod Auth
pub mod Session
pub mod Seat
pub mod Idle
pub mod Lock
pub mod Elevation
pub mod Config
pub mod Ipc
pub mod Policy
pub mod Launcher
pub mod Power
pub mod Signals
pub mod Daemon
pub mod Sessionctl
