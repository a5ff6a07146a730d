-- ===== src/Signals.antt =====
-- src/signals: what a signal means, and the clean end. Removing the socket file is not modelled.
use mitos_session.Base.{ℕ, Option, none, some}
use mitos_session.Session.{SessionManager}
use mitos_session.Power.{terminate_all}

pub data Signal : Type 0 where
  sigterm sigint sighup sigchld : Signal
  other_signal : ℕ → Signal

pub data SignalEvent : Type 0 where
  terminate reload_config reap_children : SignalEvent

unfoldable pub classify_signal : Signal → Option SignalEvent
classify_signal sigterm = some terminate
classify_signal sigint = some terminate
classify_signal sighup = some reload_config
classify_signal sigchld = some reap_children
classify_signal (other_signal n) = none

unfoldable pub graceful_shutdown : SessionManager → SessionManager
unfolding terminate_all
graceful_shutdown sessions = terminate_all sessions
