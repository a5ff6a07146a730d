-- ===== src/Ipc/Tests.antt =====
-- The theorems on frames and connections at concrete inputs.
use mitos_session.Base.{
  Text, lit, Message, ℕ, ◌≤◌, ◌<◌, ◌≡◌, refl, sym, ◌≢◌, ◌⊎◌, inl, inr, true, none, some, List, [],
  ◌∷◌, ◌++◌, arith, ltb, ◌==◌, if◌then◌else◌, length, count,
}
use mitos_session.Errors.{SessionError, disconnected, ok, err, io}
use mitos_session.Ipc.{PeerCred, Request, Response, Event, Packet, ManagerMessage}
use mitos_session.Ipc.Framing.{
  closed, Source, Sink, Codec, IsFaithful, take, write_all, write_frame, write_message,
  unexpected_eof, read_message,
}
use mitos_session.Ipc.Framing.RoundTrip.{fresh_sink, read-write_message, read-cut_message}
use mitos_session.Ipc.Framing.Requests.{write_each, read_each, await_response, call}
use mitos_session.Ipc.Framing.Requests.Replies.{first_reply, call-first_reply}
use mitos_session.Ipc.Framing.Requests.Streams.{read_each-write_each}
use mitos_session.Ipc.Connection.{
  finished, reader_step, writer_step, Move, reads, writes, takes, posts, step, run, Socket,
  announced, accept_all,
}
use mitos_session.Ipc.Connection.Script.{story}
use mitos_session.Ipc.Connection.Order.{run-story}
use mitos_session.Ipc.Connection.Silence.{silent-not_finished}
use mitos_session.Ipc.Connection.Ids.{conn_ids, accept_all-distinct}

-- A text stands for itself.
abbrev plain : Codec Text
plain = record { serialize = inr; deserialize = inr }

plain-IsFaithful : IsFaithful plain
plain-IsFaithful msg payload e = sym e

-- Two requests in one byte each.
abbrev pub code_request : Request → Message ⊎ Text
code_request Request.list_sessions = inr (3 ∷ [])
code_request Request.suspend = inr (12 ∷ [])
code_request r = inl (lit "not coded" ∷ [])

abbrev pub decode_request : Text → Message ⊎ Request
decode_request (n ∷ []) =
    if n == 3
    then inr Request.list_sessions
    else if n == 12
    then inr Request.suspend
    else inl (lit "not coded" ∷ [])
decode_request s = inl (lit "not coded" ∷ [])

abbrev pub requests : Codec Request
requests = record { serialize = code_request; deserialize = decode_request }

abbrev pub code_packet : Packet → Message ⊎ Text
code_packet (Packet.response Response.done) = inr (0 ∷ [])
code_packet (Packet.event Event.prepare_for_sleep) = inr (1 ∷ [])
code_packet p = inl (lit "not coded" ∷ [])

abbrev pub decode_packet : Text → Message ⊎ Packet
decode_packet (n ∷ []) =
    if n == 0
    then inr (Packet.response Response.done)
    else inr (Packet.event Event.prepare_for_sleep)
decode_packet s = inl (lit "not coded" ∷ [])

abbrev pub packets : Codec Packet
packets = record { serialize = code_packet; deserialize = decode_packet }

abbrev five : Text
five = 1 ∷ 2 ∷ 3 ∷ 4 ∷ 5 ∷ []

abbrev five_written : Sink
five_written = record { written = 5 ∷ 0 ∷ 0 ∷ 0 ∷ five; limit = none }

five_fits : write_message plain (fresh_sink none) five ≡ (ok tt, five_written)
unfolding write_message write_frame write_all
five_fits = refl

read-write_message_example :
    read_message plain (record { incoming = five_written.written ++ (9 ∷ []); ending = closed })
    ≡ ok (five, record { incoming = 9 ∷ []; ending = closed })
read-write_message_example =
    read-write_message plain five none five_written (9 ∷ []) closed plain-IsFaithful five_fits
      (omega arith)

read-cut_message_example :
    read_message plain (record { incoming = take 6 five_written.written; ending = closed })
    ≡ (if ltb 6 4 then err disconnected else err (io unexpected_eof))
read-cut_message_example =
    read-cut_message plain five none five_written 6 five_fits (omega arith) (omega arith)

read_each-write_each_example :
    (s : Sink) × (write_each plain (fresh_sink none) (five ∷ [] ∷ []) ≡ (ok tt, s))
    × ((fuel : ℕ)
        → length s.written < fuel
        → read_each fuel plain (record { incoming = s.written; ending = closed })
          ≡ some (five ∷ [] ∷ [], disconnected))
read_each-write_each_example =
    read_each-write_each plain (five ∷ [] ∷ []) plain-IsFaithful
      ((five, refl, omega arith), (([], refl, omega arith), tt))

-- The peer gets an event and then a reply.
abbrev pub event_and_reply : Source
event_and_reply = record { incoming = 1 ∷ 0 ∷ 0 ∷ 0 ∷ 1 ∷ 1 ∷ 0 ∷ 0 ∷ 0 ∷ 0 ∷ []; ending = closed }

pub suspend_fits :
    write_message requests (fresh_sink none) Request.suspend
    ≡ (ok tt, record { written = 1 ∷ 0 ∷ 0 ∷ 0 ∷ 12 ∷ []; limit = none })
unfolding write_message write_frame write_all
suspend_fits = refl

call-first_reply_example :
    (msgs : List Packet) × (e : SessionError) × (read_each 20 packets event_and_reply
      ≡ some (msgs, e))
    × (call 20 requests packets (fresh_sink none) event_and_reply Request.suspend
        ≡ some (first_reply msgs e))
call-first_reply_example =
    call-first_reply 20 requests packets (fresh_sink none)
      (record { written = 1 ∷ 0 ∷ 0 ∷ 0 ∷ 12 ∷ []; limit = none }) event_and_reply Request.suspend
      (omega arith) suspend_fits

-- It returns the reply behind the event.
call_skips_event :
    call 20 requests packets (fresh_sink none) event_and_reply Request.suspend
    ≡ some (ok Response.done)
unfolding call await_response read_message write_message write_frame write_all
call_skips_event = refl

abbrev alice : PeerCred
alice = record { uid = 1000; gid = 1000; pid = 77 }

-- One request, and then the peer hangs up.
abbrev one_request : Source
one_request = record { incoming = 1 ∷ 0 ∷ 0 ∷ 0 ∷ 3 ∷ []; ending = closed }

-- A socket that takes no byte.
abbrev broken_pipe : Sink
broken_pipe = fresh_sink (some (0, lit "Broken pipe" ∷ []))

abbrev busy : List Move
busy = takes ∷ reads ∷ reads ∷ posts (Packet.response Response.done) ∷ writes ∷ reads ∷ []

one_request_script :
    read_each 6 requests one_request ≡ some (Request.list_sessions ∷ [], disconnected)
unfolding read_each read_message
one_request_script = refl

run-story_example :
    let c = run requests packets busy (announced 5 alice one_request broken_pipe) in
    (given more : List Request) × (last : List ManagerMessage) × (Request.list_sessions ∷ []
      ≡ given ++ more)
    × (c.sent ≡ story 5 alice given last)
    × (c.reader ≡ finished → c.receiving ≡ true → last ≡ ManagerMessage.disconnected 5 ∷ [])
    × ((last ≡ []) ⊎ ((last ≡ ManagerMessage.disconnected 5 ∷ []) × (more ≡ [])))
run-story_example =
    run-story requests packets 5 alice one_request broken_pipe busy 6 (Request.list_sessions ∷ [])
      disconnected one_request_script

-- The connection tells its whole story, since the reply could not be written.
busy_ends :
    (run requests packets busy (announced 5 alice one_request broken_pipe)).reader ≡ finished
unfolding run step reader_step writer_step read_message write_message write_frame write_all
busy_ends = refl

silent-not_finished_example :
    (run requests packets
      (takes ∷ reads ∷ reads ∷ writes ∷ reads ∷ [])
      (announced 5 alice one_request broken_pipe)).reader
    ≢ finished
silent-not_finished_example =
    silent-not_finished requests packets 5 alice one_request broken_pipe
      (takes ∷ reads ∷ reads ∷ writes ∷ reads ∷ []) (tt, (tt, (tt, (tt, (tt, tt)))))

abbrev socket : Socket
socket = record { credentials = ok alice; cloned = true; source = one_request; sink = broken_pipe }

accept_all-distinct_example :
    count 2 (conn_ids (accept_all 1 (some socket ∷ none ∷ some socket ∷ []))) ≤ 1
accept_all-distinct_example =
    accept_all-distinct 2 1 (some socket ∷ none ∷ some socket ∷ []) (omega arith)
