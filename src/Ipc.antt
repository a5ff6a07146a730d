-- ===== src/Ipc.antt =====
-- src/ipc: the requests, the replies and the events, and the registry of live connections
-- (`ConnRegistry`). A text that is formatted for a reply is its `Message`.
pub mod Framing
pub mod Connection
pub mod Tests
use mitos_session.Base.{Text, Message, ℕ, Bool, Option, none, some, List, [], ◌∷◌, ◌++◌}
use mitos_session.Base.Map.{Map, lookup, insert, remove, id_key}
use mitos_session.Auth.{AuthOutcome}
use mitos_session.Lock.{LockReason}
use mitos_session.Lock.Inhibitor.{InhibitWhat, InhibitMode, Inhibitor}
use mitos_session.Elevation.Action.{ElevationAction, ElevationResponse}
use mitos_session.Session.State.{SessionType}

pub record PeerCred : Type 0 where
  pub uid : ℕ
  pub gid : ℕ
  pub pid : ℕ

pub data Request : Type 0 where
  create_session : Text → Option Text → Option Text → Request
  terminate_session : ℕ → Request
  register_compositor : ℕ → Request
  list_sessions : Request
  session_status : ℕ → Request
  lock_session : ℕ → Request
  unlock : ℕ → Text → Text → Request
  report_activity : Text → Request
  switch_session : Text → ℕ → Request
  inhibit : InhibitWhat → Text → Text → InhibitMode → Request
  release_inhibit : ℕ → Request
  list_inhibitors : Request
  suspend : Request
  reboot : Request
  power_off : Request
  request_elevation : ℕ → ElevationAction → Request
  respond_elevation : ℕ → ElevationResponse → Request

pub record SessionInfo : Type 0 where
  pub id : ℕ
  pub uid : ℕ
  pub user_name : Text
  pub seat_id : Text
  pub session_type : SessionType
  pub state : Message
  pub locked : Bool
  pub created_at : ℕ

-- `InhibitorInfo` has the fields of `Inhibitor`.
abbrev pub InhibitorInfo : Type 0
InhibitorInfo = Inhibitor

pub data Response : Type 0 where
  done : Response
  sessions : List SessionInfo → Response
  session : SessionInfo → Response
  auth_result : AuthOutcome → Response
  inhibit_granted : ℕ → Response
  inhibitors : List InhibitorInfo → Response
  failed : Message → Response

pub data Event : Type 0 where
  show_lock_screen : ℕ → LockReason → Event
  hide_lock_screen : ℕ → Event
  auth_feedback : ℕ → AuthOutcome → Event
  dim : Text → Event
  undim : Text → Event
  prepare_for_sleep : Event
  resumed_from_sleep : Event
  session_activated : Text → ℕ → Event
  show_elevation_prompt : ℕ → ℕ → ElevationAction → Event
  elevation_feedback : ℕ → AuthOutcome → Event
  hide_elevation_prompt : ℕ → Event

-- `Message`; that name is taken by formatted text.
pub data Packet : Type 0 where
  response : Response → Packet
  event : Event → Packet

-- The connections, each with the channel that feeds its writer; and what was put into the channels,
-- the oldest first.
pub record ConnRegistry : Type 0 where
  pub outboxes : Map ℕ ℕ
  pub sent : List (ℕ × Packet)

abbrev pub empty_connections : ConnRegistry
empty_connections = record { outboxes = []; sent = [] }

unfoldable pub register : ConnRegistry → ℕ → ℕ → ConnRegistry
register r id outbox = record r { outboxes = insert id outbox r.outboxes }

unfoldable pub unregister : ConnRegistry → ℕ → ConnRegistry
unregister r id = record r { outboxes = remove id r.outboxes }

-- `if let Some(tx) = outboxes.get(&id) { let _ = tx.send(..) }`.
unfoldable pub send : ConnRegistry → ℕ → Packet → ConnRegistry
send r id p = elim (lookup id r.outboxes) [
  | none ↦ r
  | some tx ↦ record r { sent = r.sent ++ ((tx, p) ∷ []) }
]

unfoldable pub send_response : ConnRegistry → ℕ → Response → ConnRegistry
unfolding send
send_response r id x = send r id (response x)

unfoldable pub send_event : ConnRegistry → ℕ → Event → ConnRegistry
unfolding send
send_event r id e = send r id (event e)

-- What the IPC threads hand to the daemon.
pub record ManagerCommand : Type 0 where
  pub conn_id : ℕ
  pub peer : PeerCred
  pub request : Request

pub data ManagerMessage : Type 0 where
  connected : ℕ → PeerCred → ℕ → ManagerMessage
  command : ManagerCommand → ManagerMessage
  disconnected : ℕ → ManagerMessage
