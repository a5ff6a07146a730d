-- ===== src/Ipc/Connection/Order.antt =====
-- What a connection tells the daemon, and in which order (`handle_connection` in src/ipc/server.rs).
use mitos_session.Base.{
  ℕ, ◌≡◌, refl, ◌∙◌, ◌⊎◌, inl, inr, Bool, true, false, some, List, [], ◌∷◌, ◌++◌, arith, Bool-cases,
}
use mitos_session.Errors.{SessionError}
use mitos_session.Ipc.{PeerCred, Request, Packet, ManagerMessage}
use mitos_session.Ipc.Framing.{Source, Sink, Codec}
use mitos_session.Ipc.Framing.Requests.{read_each}
use mitos_session.Ipc.Connection.{
  Reader, reading, joining, finished, Writer, draining, broken, drained, Handle, on_its_way,
  registered, dropped, Connection, drain, writer_step, take_message, post, Move, reads, writes,
  takes, unregisters, stops, posts, step, run, announced,
}
use mitos_session.Ipc.Connection.Script.{read_each-Script, story}
use mitos_session.Ipc.Connection.Reads.{Phase, Told, reader-Told}

module _ (codec : Codec Request) (id : ℕ) (peer : PeerCred) (all : List Request)
    (e : SessionError) where
  quiet-Phase :
      (r : Reader) (s : Source) (on on' : Bool) (more : List Request) (last : List ManagerMessage)
      → (on' ≡ on) ⊎ (on' ≡ false)
      → Phase codec id peer all e r s on more last
      → Phase codec id peer all e r s on' more last
  quiet-Phase reading s on on' more last h p = p
  quiet-Phase joining s on on' more last h p = (p.0, λ k. p.1 (ground (arith, h, k)))
  quiet-Phase finished s on on' more last h (inl p) = inl p
  quiet-Phase finished s on on' more last h (inr p) = inr (p.0, ground (arith, h, p.1))

  -- What `Told` reads of a connection, and that a move leaves it alone.
  abbrev Kept : Connection → Connection → Type 0
  Kept c c' =
      (c'.reader ≡ c.reader)
      × (c'.source ≡ c.source)
      × (c'.sent ≡ c.sent)
      × (c'.conn_id ≡ c.conn_id)
      × (c'.peer ≡ c.peer)

  Kept-Told :
      (c c' : Connection)
      → Told codec id peer all e c
      → Kept c c'
      → (c'.receiving ≡ c.receiving) ⊎ (c'.receiving ≡ false)
      → Told codec id peer all e c'
  Kept-Told c c' t (r, s, log, i, p) on = record {
    given = t.given;
    more = t.more;
    last = t.last;
    whole = t.whole;
    log = log ∙ t.log;
    phase =
        rw (r, s) (quiet-Phase c.reader c.source c.receiving c'.receiving t.more t.last on t.phase);
    same_id = i ∙ t.same_id;
    same_peer = p ∙ t.same_peer;
  }

  module _ (replies : Codec Packet) where
    drain-Kept :
        (queue : List Packet) (c : Connection)
        → Kept c (drain replies queue c) × ((drain replies queue c).receiving ≡ c.receiving)
    drain-Kept [] c = ground arith
    drain-Kept (p ∷ ps) c = ground arith

    write-Kept :
        (w : Writer) (c : Connection)
        → c.writer ≡ w
        → Kept c (writer_step replies c) × ((writer_step replies c).receiving ≡ c.receiving)
    unfolding writer_step
    write-Kept draining c at = rw (at, writer_step) (drain-Kept c.queue c)
    write-Kept broken c at = rw (at, writer_step) ((refl, refl, refl, refl, refl), refl)
    write-Kept drained c at = rw (at, writer_step) ((refl, refl, refl, refl, refl), refl)

    receive-Kept :
        (ms : List ManagerMessage) (c : Connection)
        → Kept c (take_message ms c) × ((take_message ms c).receiving ≡ c.receiving)
    receive-Kept [] c = ground arith
    receive-Kept (ManagerMessage.connected id peer outbox ∷ ms) c = ground arith
    receive-Kept (ManagerMessage.command cmd ∷ ms) c = ground arith
    receive-Kept (ManagerMessage.disconnected id ∷ ms) c = ground arith

    post-Kept :
        (p : Packet) (h : Handle) (w : Writer) (c : Connection)
        → Kept c (post p h w c) × ((post p h w c).receiving ≡ c.receiving)
    post-Kept p registered draining c = ground arith
    post-Kept p registered broken c = ground arith
    post-Kept p registered drained c = ground arith
    post-Kept p on_its_way w c = ground arith
    post-Kept p dropped w c = ground arith

    takes-Kept :
        (c : Connection)
        → Kept c (step codec replies takes c)
          × ((step codec replies takes c).receiving ≡ c.receiving)
    unfolding step
    takes-Kept c = elim (Bool-cases c.receiving) [
      | inl on ↦
          let same : step codec replies takes c ≡ take_message c.unread c = ground (arith, on) in
          rw same (receive-Kept c.unread c)
      | inr off ↦
          let same : step codec replies takes c ≡ c = ground (arith, off) in
          rw same ((refl, refl, refl, refl, refl), refl)
    ]

    step-Told :
        (move : Move) (c : Connection)
        → Told codec id peer all e c
        → Told codec id peer all e (step codec replies move c)
    unfolding step
    step-Told reads c t = reader-Told codec id peer all e c c.reader refl t
    step-Told writes c t =
        let k = write-Kept c.writer c refl in Kept-Told c (writer_step replies c) t (k.0) (inl k.1)
    step-Told takes c t =
        let k = takes-Kept c in Kept-Told c (step codec replies takes c) t k.0 (inl k.1)
    step-Told unregisters c t =
        Kept-Told c (step codec replies unregisters c) t (ground arith) (ground arith)
    step-Told stops c t = Kept-Told c (step codec replies stops c) t (ground arith) (ground arith)
    step-Told (posts p) c t =
        let k = post-Kept p c.handle c.writer c in
        Kept-Told c (post p c.handle c.writer c) t k.0 (inl k.1)

    run-Told :
        (moves : List Move) (c : Connection)
        → Told codec id peer all e c
        → Told codec id peer all e (run codec replies moves c)
    unfolding run
    run-Told [] c t = t
    run-Told (move ∷ moves) c t = run-Told moves (step codec replies move c) (step-Told move c t)

  -- What is known at the end of the reader.
  ended-Phase :
      (r : Reader) (s : Source) (on : Bool) (more : List Request) (last : List ManagerMessage)
      → Phase codec id peer all e r s on more last
      → (r ≡ finished → on ≡ true → last ≡ ManagerMessage.disconnected id ∷ [])
        × ((last ≡ []) ⊎ ((last ≡ ManagerMessage.disconnected id ∷ []) × (more ≡ [])))
  ended-Phase reading s on more last p = (λ h k. absurd (ground (arith, h)), inl p.0)
  ended-Phase joining s on more last p = (λ h k. absurd (ground (arith, h)), inl p.0)
  ended-Phase finished s on more last (inl p) = (λ h k. p.0, inr p)
  ended-Phase finished s on more last (inr p) = (λ h k. absurd (ground (arith, k, p.1)), inl p.0)

-- Whatever the threads and the daemon do in turn, a connection tells the daemon first that it is
-- there, then some first part of the requests on its stream, in their order and under its own id and
-- credentials, and then nothing or, after all requests, once that it is gone; it has said so if its
-- reader has ended while the daemon runs.
pub run-story :
    (requests : Codec Request) (replies : Codec Packet) (id : ℕ) (peer : PeerCred) (source : Source)
    (sink : Sink) (moves : List Move) (fuel : ℕ) (all : List Request) (e : SessionError)
    → read_each fuel requests source ≡ some (all, e)
    → (given more : List Request) × (last : List ManagerMessage) × (all ≡ given ++ more)
      × ((run requests replies moves (announced id peer source sink)).sent
          ≡ story id peer given last)
      × ((run requests replies moves (announced id peer source sink)).reader ≡ finished
          → (run requests replies moves (announced id peer source sink)).receiving ≡ true
          → last ≡ ManagerMessage.disconnected id ∷ [])
      × ((last ≡ []) ⊎ ((last ≡ ManagerMessage.disconnected id ∷ []) × (more ≡ [])))
run-story requests replies id peer source sink moves fuel all e h =
    let start = announced id peer source sink in
    let told : Told requests id peer all e start = record {
      given = [];
      more = all;
      last = [];
      whole = refl;
      log = refl;
      phase = (refl, read_each-Script fuel requests source all e h);
      same_id = refl;
      same_peer = refl;
    } in
    let c = run requests replies moves start in
    let t = run-Told requests id peer all e replies moves start told in
    let (said, part) =
      ended-Phase requests id peer all e c.reader c.source c.receiving t.more t.last t.phase in
    (t.given, t.more, t.last, t.whole, t.log, said, part)
