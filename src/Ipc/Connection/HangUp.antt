-- ===== src/Ipc/Connection/HangUp.antt =====
-- When a connection is reported as gone (the end of `handle_connection` in src/ipc/server.rs).
use mitos_session.Base.{
  ℕ, ◌≡◌, refl, ◌≢◌, inl, inr, true, List, [], ◌∷◌, ◌++◌, arith, Bool-cases, All,
}
use mitos_session.Errors.{Result-cases}
use mitos_session.Ipc.{PeerCred, Request, Packet, ManagerMessage}
use mitos_session.Ipc.Framing.{Source, Sink, Codec, write_message, read_message}
use mitos_session.Ipc.Connection.{
  Reader, reading, joining, finished, Writer, draining, broken, drained, Handle, on_its_way,
  registered, dropped, Connection, hand_over, as_command, read_request, has_sender, join_writer,
  reader_step, drain, writer_step, take_message, post, Move, reads, writes, takes, unregisters,
  stops, posts, step, run, announced,
}

-- The moves without the exit of a compositor and without the end of the daemon.
abbrev pub IsPlain : Move → Type 0
IsPlain reads = Unit
IsPlain writes = Unit
IsPlain takes = Unit
IsPlain (posts p) = Unit
IsPlain unregisters = ⊥
IsPlain stops = ⊥

-- The reader is past its join only if a write failed, and the daemon's sender is dropped only after
-- that.
abbrev Held : Reader → Writer → Handle → Type 0
Held reading w h = (w ≢ drained) × (h ≢ dropped)
Held joining w h = (w ≢ drained) × (h ≢ dropped)
Held finished w h = w ≡ broken

abbrev NoLast : ManagerMessage → Type 0
NoLast (ManagerMessage.connected id peer outbox) = Unit
NoLast (ManagerMessage.command cmd) = Unit
NoLast (ManagerMessage.disconnected id) = ⊥

-- Before the reader's end no message says that it is gone.
abbrev Unsaid : Reader → List ManagerMessage → Type 0
Unsaid reading ms = All NoLast ms
Unsaid joining ms = All NoLast ms
Unsaid finished ms = Unit

abbrev Inv : Connection → Type 0
Inv c = Held c.reader c.writer c.handle × Unsaid c.reader c.unread

All-snoc :
    (m : ManagerMessage) (ms : List ManagerMessage)
    → All NoLast ms
    → NoLast m
    → All NoLast (ms ++ (m ∷ []))
All-snoc m [] h k = (k, tt)
All-snoc m (x ∷ ms) h k = (h.0, All-snoc m ms h.1 k)

module _ (requests : Codec Request) where
  read-Inv : (c : Connection) → c.reader ≡ reading → Inv c → Inv (read_request requests c)
  read-Inv c at (held, unsaid) =
      let h : Held reading c.writer c.handle = rw at at held in
      let u : Unsaid reading c.unread = rw at at unsaid in
      elim (Result-cases (read_message requests c.source)) [
        | inr (e, q) ↦ rw (q, read_request) (h, u)
        | inl ((r, rest), q) ↦ elim (Bool-cases c.receiving) [
          | inl on ↦
              let same : read_request requests c
                  ≡ hand_over (as_command c r) (record c { source = rest }) =
                ground (arith, q, on) in
              let after : Inv (hand_over (as_command c r) (record c { source = rest })) =
                rw at (h, All-snoc (as_command c r) c.unread u tt) in
              rw same after
          | inr off ↦
              let same : read_request requests c ≡ record c { source = rest; reader = joining } =
                ground (arith, q, off) in
              rw same (h, u)
        ]
      ]

  -- The join returns only where the writer has stopped, by a failed write.
  join-Inv :
      (c : Connection) (w : Writer)
      → c.reader ≡ joining
      → c.writer ≡ w
      → Inv c
      → Inv (join_writer w c)
  join-Inv c draining at eq inv = inv
  join-Inv c broken at eq inv = elim (Bool-cases c.receiving) [
    | inl on ↦
        let same : join_writer broken c
            ≡ hand_over (ManagerMessage.disconnected c.conn_id) (record c { reader = finished }) =
          ground (arith, on) in
        rw same (eq, tt)
    | inr off ↦
        let same : join_writer broken c ≡ record c { reader = finished } = ground (arith, off) in
        rw same (eq, tt)
  ]
  join-Inv c drained at eq (held, unsaid) =
      let h : Held joining c.writer c.handle = rw at at held in absurd (h.0 eq)

  reader-Inv : (c : Connection) (r : Reader) → c.reader ≡ r → Inv c → Inv (reader_step requests c)
  unfolding reader_step
  reader-Inv c reading at inv = rw (at, reader_step) (read-Inv c at inv)
  reader-Inv c joining at inv = rw (at, reader_step) (join-Inv c c.writer at refl inv)
  reader-Inv c finished at inv = rw (at, reader_step) inv

Held-has_sender : (r : Reader) (h : Handle) → Held r draining h → has_sender r h ≡ true
Held-has_sender reading h held = refl
Held-has_sender joining on_its_way held = refl
Held-has_sender joining registered held = refl
Held-has_sender joining dropped held = absurd (held.1 refl)
Held-has_sender finished h held = absurd (ground (arith, held))

Held-broken : (r : Reader) (h : Handle) → Held r draining h → Held r broken h
Held-broken reading h held = ground (arith, held)
Held-broken joining h held = ground (arith, held)
Held-broken finished h held = refl

module _ (replies : Codec Packet) where
  drain-Inv :
      (queue : List Packet) (c : Connection)
      → c.writer ≡ draining
      → Inv c
      → Inv (drain replies queue c)
  drain-Inv [] c at (held, unsaid) =
      let h : Held c.reader draining c.handle = rw at at held in
      let same : drain replies [] c ≡ c = ground (arith, Held-has_sender c.reader c.handle h) in
      rw same (held, unsaid)
  drain-Inv (p ∷ ps) c at (held, unsaid) =
      let h : Held c.reader draining c.handle = rw at at held in
      let sink' = (write_message replies c.sink p).1 in
      elim (Result-cases (write_message replies c.sink p).0) [
        | inl (_, q) ↦
            let same : drain replies (p ∷ ps) c ≡ record c { queue = ps; sink = sink' } =
              ground (arith, q) in
            rw same (held, unsaid)
        | inr (e, q) ↦
            let same : drain replies (p ∷ ps) c
                ≡ record c { queue = ps; sink = sink'; writer = broken } =
              ground (arith, q) in
            rw same (Held-broken c.reader c.handle h, unsaid)
      ]

  writer-Inv : (c : Connection) (w : Writer) → c.writer ≡ w → Inv c → Inv (writer_step replies c)
  unfolding writer_step
  writer-Inv c draining at inv = rw (at, writer_step) (drain-Inv c.queue c at inv)
  writer-Inv c broken at inv = rw (at, writer_step) inv
  writer-Inv c drained at inv = rw (at, writer_step) inv

Held-registered : (r : Reader) (w : Writer) (h : Handle) → Held r w h → Held r w registered
Held-registered reading w h held = ground (arith, held)
Held-registered joining w h held = ground (arith, held)
Held-registered finished w h held = held

Unsaid-tail :
    (r : Reader) (m : ManagerMessage) (ms : List ManagerMessage) → Unsaid r (m ∷ ms) → Unsaid r ms
Unsaid-tail reading m ms unsaid = unsaid.1
Unsaid-tail joining m ms unsaid = unsaid.1
Unsaid-tail finished m ms unsaid = tt

Held-said :
    (r : Reader) (w : Writer) (h : Handle) (id : ℕ) (ms : List ManagerMessage)
    → Unsaid r (ManagerMessage.disconnected id ∷ ms)
    → Held r w h
    → Held r w dropped
Held-said reading w h id ms unsaid held = absurd unsaid.0
Held-said joining w h id ms unsaid held = absurd unsaid.0
Held-said finished w h id ms unsaid held = held

receive-Inv :
    (ms : List ManagerMessage) (c : Connection) → c.unread ≡ ms → Inv c → Inv (take_message ms c)
receive-Inv [] c at inv = inv
receive-Inv (ManagerMessage.connected id peer outbox ∷ ms) c at (held, unsaid) =
    let u : Unsaid c.reader (ManagerMessage.connected id peer outbox ∷ ms) = rw at at unsaid in
    (
      Held-registered c.reader c.writer c.handle held,
      Unsaid-tail c.reader (ManagerMessage.connected id peer outbox) ms u,
    )
receive-Inv (ManagerMessage.command cmd ∷ ms) c at (held, unsaid) =
    let u : Unsaid c.reader (ManagerMessage.command cmd ∷ ms) = rw at at unsaid in
    (held, Unsaid-tail c.reader (ManagerMessage.command cmd) ms u)
receive-Inv (ManagerMessage.disconnected id ∷ ms) c at (held, unsaid) =
    let u : Unsaid c.reader (ManagerMessage.disconnected id ∷ ms) = rw at at unsaid in
    (
      Held-said c.reader c.writer c.handle id ms u held,
      Unsaid-tail c.reader (ManagerMessage.disconnected id) ms u,
    )

post-Inv : (p : Packet) (h : Handle) (w : Writer) (c : Connection) → Inv c → Inv (post p h w c)
post-Inv p registered draining c inv = inv
post-Inv p registered broken c inv = inv
post-Inv p registered drained c inv = inv
post-Inv p on_its_way w c inv = inv
post-Inv p dropped w c inv = inv

module _ (requests : Codec Request) (replies : Codec Packet) where
  step-Inv :
      (move : Move) (c : Connection) → IsPlain move → Inv c → Inv (step requests replies move c)
  unfolding step
  step-Inv reads c plain inv = reader-Inv requests c c.reader refl inv
  step-Inv writes c plain inv = writer-Inv replies c c.writer refl inv
  step-Inv takes c plain inv = elim (Bool-cases c.receiving) [
    | inl on ↦
        let same : step requests replies takes c ≡ take_message c.unread c = ground (arith, on) in
        rw same (receive-Inv c.unread c refl inv)
    | inr off ↦ let same : step requests replies takes c ≡ c = ground (arith, off) in rw same inv
  ]
  step-Inv (posts p) c plain inv = post-Inv p c.handle c.writer c inv
  step-Inv unregisters c plain inv = elim plain [ ]
  step-Inv stops c plain inv = elim plain [ ]

  run-Inv :
      (moves : List Move) (c : Connection)
      → All IsPlain moves
      → Inv c
      → Inv (run requests replies moves c)
  unfolding run
  run-Inv [] c plain inv = inv
  run-Inv (move ∷ moves) c plain inv =
      run-Inv moves (step requests replies move c) plain.1 (step-Inv move c plain.0 inv)

Held-finished : (r : Reader) (w : Writer) (h : Handle) → Held r w h → r ≡ finished → w ≡ broken
Held-finished reading w h held at = absurd (ground (arith, at))
Held-finished joining w h held at = absurd (ground (arith, at))
Held-finished finished w h held at = held

-- While the daemon runs and no compositor's exit unregisters the connection, the reader comes to its
-- end, where it reports the connection as gone, only after a write to the socket has failed: that the
-- peer hung up is not enough, since the daemon's own sender keeps the writer waiting.
pub finished-broken :
    (requests : Codec Request) (replies : Codec Packet) (id : ℕ) (peer : PeerCred) (source : Source)
    (sink : Sink) (moves : List Move)
    → All IsPlain moves
    → (run requests replies moves (announced id peer source sink)).reader ≡ finished
    → (run requests replies moves (announced id peer source sink)).writer ≡ broken
finished-broken requests replies id peer source sink moves plain at =
    let start = announced id peer source sink in
    let c = run requests replies moves start in
    let inv =
      run-Inv requests replies moves start plain
        ((λ p. ground (arith, p), λ p. ground (arith, p)), (tt, tt)) in
    Held-finished c.reader c.writer c.handle inv.0 at
