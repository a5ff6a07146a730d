-- ===== src/Ipc/Connection.antt =====
-- src/ipc/server.rs: the two threads of a connection, the channels between them and the daemon, and
-- the loop that accepts connections. What the threads and the daemon do in turn is a list of moves; a
-- thread that is blocked stays where it is.
pub mod Script
pub mod Reads
pub mod Order
pub mod HangUp
pub mod Silence
pub mod Ids
use mitos_session.Base.{
  ℕ, Bool, true, false, Option, none, some, List, [], ◌∷◌, ◌++◌, if◌then◌else◌, inc_u64,
}
use mitos_session.Errors.{disconnected, Result, ok, err}
use mitos_session.Ipc.{PeerCred, Request, Packet, ManagerMessage, connected, command}
use mitos_session.Ipc.Framing.{Source, Sink, Codec, write_message, read_message}

-- Where the reader is: in its loop, waiting for the writer, or at its end.
pub data Reader : Type 0 where
  reading joining finished : Reader

-- The writer waits for messages, has stopped at a failed write, or because its channel closed.
pub data Writer : Type 0 where
  draining broken drained : Writer

-- The sender that the daemon gets: in the message on its way, in the registry, or dropped.
pub data Handle : Type 0 where
  on_its_way registered dropped : Handle

-- `queue` is the channel to the writer, `unread` the one to the daemon; `sent` is all that was put
-- into the latter, the oldest first. `receiving` says whether the daemon runs.
pub record Connection : Type 0 where
  pub conn_id : ℕ
  pub peer : PeerCred
  pub source : Source
  pub sink : Sink
  pub reader : Reader
  pub writer : Writer
  pub handle : Handle
  pub queue : List Packet
  pub unread : List ManagerMessage
  pub sent : List ManagerMessage
  pub receiving : Bool

-- `cmd_tx.send(..)` while the daemon runs.
abbrev pub hand_over : ManagerMessage → Connection → Connection
hand_over m c = record c { unread = c.unread ++ (m ∷ []); sent = c.sent ++ (m ∷ []) }

abbrev pub as_command : Connection → Request → ManagerMessage
as_command c request =
    ManagerMessage.command (record { conn_id = c.conn_id; peer = c.peer; request = request })

-- One round of the reader's loop.
abbrev pub read_request : Codec Request → Connection → Connection
read_request codec c = elim (read_message codec c.source) [
  | err e ↦ record c { reader = joining }
  | ok (request, rest) ↦
      if c.receiving
      then hand_over (as_command c request) (record c { source = rest })
      else record c { source = rest; reader = joining }
]

-- Whether some sender of the channel to the writer is left.
abbrev pub has_sender : Reader → Handle → Bool
has_sender reading h = true
has_sender joining dropped = false
has_sender joining on_its_way = true
has_sender joining registered = true
has_sender finished dropped = false
has_sender finished on_its_way = true
has_sender finished registered = true

-- `writer_handle.join()` returns once the writer has stopped.
abbrev pub join_writer : Writer → Connection → Connection
join_writer draining c = c
join_writer broken c =
    if c.receiving
    then hand_over (ManagerMessage.disconnected c.conn_id) (record c { reader = finished })
    else record c { reader = finished }
join_writer drained c =
    if c.receiving
    then hand_over (ManagerMessage.disconnected c.conn_id) (record c { reader = finished })
    else record c { reader = finished }

unfoldable pub reader_step : Codec Request → Connection → Connection
reader_step codec c = elim c.reader [
  | reading ↦ read_request codec c
  | joining ↦ join_writer c.writer c
  | finished ↦ c
]

abbrev pub drain : Codec Packet → List Packet → Connection → Connection
drain codec [] c = if has_sender c.reader c.handle then c else record c { writer = drained }
drain codec (p ∷ ps) c =
    let (result, sink') = write_message codec c.sink p in
    elim result [
      | ok _ ↦ record c { queue = ps; sink = sink' }
      | err e ↦ record c { queue = ps; sink = sink'; writer = broken }
    ]

unfoldable pub writer_step : Codec Packet → Connection → Connection
writer_step codec c = elim c.writer [ draining ↦ drain codec c.queue c | broken ↦ c | drained ↦ c ]

-- The daemon's part: `Connected` brings the sender into the registry, `Disconnected` drops it.
abbrev pub receive : ManagerMessage → Connection → Connection
receive (ManagerMessage.connected id peer outbox) c = record c { handle = registered }
receive (ManagerMessage.command cmd) c = c
receive (ManagerMessage.disconnected id) c = record c { handle = dropped }

abbrev pub take_message : List ManagerMessage → Connection → Connection
take_message [] c = c
take_message (m ∷ rest) c = receive m (record c { unread = rest })

-- A reply or an event: it is lost where the writer has stopped.
abbrev pub post : Packet → Handle → Writer → Connection → Connection
post p registered draining c = record c { queue = c.queue ++ (p ∷ []) }
post p registered broken c = c
post p registered drained c = c
post p on_its_way w c = c
post p dropped w c = c

-- The exit of a compositor unregisters its connection.
abbrev pub drop_registered : Handle → Handle
drop_registered registered = dropped
drop_registered on_its_way = on_its_way
drop_registered dropped = dropped

pub data Move : Type 0 where
  reads writes takes unregisters stops : Move
  posts : Packet → Move

unfoldable pub step : Codec Request → Codec Packet → Move → Connection → Connection
unfolding reader_step writer_step
step requests replies reads c = reader_step requests c
step requests replies writes c = writer_step replies c
step requests replies takes c = if c.receiving then take_message c.unread c else c
step requests replies unregisters c = record c { handle = drop_registered c.handle }
step requests replies stops c = record c { receiving = false; handle = dropped }
step requests replies (posts p) c = post p c.handle c.writer c

unfoldable pub run : Codec Request → Codec Packet → List Move → Connection → Connection
run requests replies [] c = c
run requests replies (move ∷ moves) c = run requests replies moves (step requests replies move c)

-- What the kernel gives for an accepted socket: the peer's credentials, whether it can be cloned, and
-- its two streams.
pub record Socket : Type 0 where
  pub credentials : Result PeerCred
  pub cloned : Bool
  pub source : Source
  pub sink : Sink

-- A connection that has been announced. The channel is named by the connection's id.
abbrev pub announced : ℕ → PeerCred → Source → Sink → Connection
announced id peer source sink = record {
  conn_id = id;
  peer = peer;
  source = source;
  sink = sink;
  reader = reading;
  writer = draining;
  handle = on_its_way;
  queue = [];
  unread = ManagerMessage.connected id peer id ∷ [];
  sent = ManagerMessage.connected id peer id ∷ [];
  receiving = true;
}

-- `handle_connection` up to its threads, while the daemon runs.
unfoldable pub open_connection : ℕ → Socket → Option Connection
open_connection id socket = elim socket.credentials [
  | err e ↦ none
  | ok peer ↦ if socket.cloned then some (announced id peer socket.source socket.sink) else none
]

-- `accept_loop`: `next` is `NEXT_CONN_ID`, a u64. `none` is a connection that was not accepted.
unfoldable pub accept_all : ℕ → List (Option Socket) → List Connection
unfolding open_connection
accept_all next [] = []
accept_all next (none ∷ sockets) = accept_all next sockets
accept_all next (some socket ∷ sockets) =
    let others = accept_all (inc_u64 next) sockets in
    elim (open_connection next socket) [ none ↦ others | some c ↦ c ∷ others ]
