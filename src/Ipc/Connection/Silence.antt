-- ===== src/Ipc/Connection/Silence.antt =====
-- A connection that the daemon writes nothing to (`handle_connection` in src/ipc/server.rs).
use mitos_session.Base.{ℕ, ◌≡◌, refl, ◌≢◌, inl, inr, List, [], ◌∷◌, arith, Bool-cases, All}
use mitos_session.Ipc.{PeerCred, Request, Packet, ManagerMessage}
use mitos_session.Ipc.Framing.{Source, Sink, Codec}
use mitos_session.Ipc.Connection.{
  Reader, reading, joining, finished, Writer, draining, broken, drained, Connection, reader_step,
  writer_step, take_message, Move, reads, writes, takes, unregisters, stops, posts, step, run,
  announced,
}
use mitos_session.Ipc.Connection.HangUp.{IsPlain, finished-broken}

-- The moves without a message to the peer, the exit of a compositor and the end of the daemon.
abbrev pub IsSilent : Move → Type 0
IsSilent reads = Unit
IsSilent writes = Unit
IsSilent takes = Unit
IsSilent (posts p) = ⊥
IsSilent unregisters = ⊥
IsSilent stops = ⊥

abbrev Unwritten : Connection → Type 0
Unwritten c = (c.queue ≡ []) × (c.writer ≢ broken)

read-Unwritten :
    (requests : Codec Request) (r : Reader) (w : Writer) (c : Connection)
    → c.reader ≡ r
    → c.writer ≡ w
    → Unwritten c
    → Unwritten (reader_step requests c)
unfolding reader_step
read-Unwritten requests reading w c at eq h = ground (arith, at, h)
read-Unwritten requests joining draining c at eq h = ground (arith, at, eq, h)
read-Unwritten requests joining broken c at eq h = ground (arith, at, eq, h)
read-Unwritten requests joining drained c at eq h = ground (arith, at, eq, h)
read-Unwritten requests finished w c at eq h = ground (arith, at, h)

write-Unwritten :
    (replies : Codec Packet) (w : Writer) (c : Connection)
    → c.writer ≡ w
    → Unwritten c
    → Unwritten (writer_step replies c)
unfolding writer_step
write-Unwritten replies draining c at h = ground (arith, at, h)
write-Unwritten replies broken c at h = ground (arith, at, h)
write-Unwritten replies drained c at h = ground (arith, at, h)

receive-Unwritten :
    (ms : List ManagerMessage) (c : Connection) → Unwritten c → Unwritten (take_message ms c)
receive-Unwritten [] c h = h
receive-Unwritten (ManagerMessage.connected id peer outbox ∷ ms) c h = h
receive-Unwritten (ManagerMessage.command cmd ∷ ms) c h = h
receive-Unwritten (ManagerMessage.disconnected id ∷ ms) c h = h

module _ (requests : Codec Request) (replies : Codec Packet) where
  step-Unwritten :
      (move : Move) (c : Connection)
      → IsSilent move
      → Unwritten c
      → Unwritten (step requests replies move c)
  unfolding step
  step-Unwritten reads c s h = read-Unwritten requests c.reader c.writer c refl refl h
  step-Unwritten writes c s h = write-Unwritten replies c.writer c refl h
  step-Unwritten takes c s h = elim (Bool-cases c.receiving) [
    | inl on ↦
        let same : step requests replies takes c ≡ take_message c.unread c = ground (arith, on) in
        rw same (receive-Unwritten c.unread c h)
    | inr off ↦ let same : step requests replies takes c ≡ c = ground (arith, off) in rw same h
  ]
  step-Unwritten (posts p) c s h = elim s [ ]
  step-Unwritten unregisters c s h = elim s [ ]
  step-Unwritten stops c s h = elim s [ ]

  run-Unwritten :
      (moves : List Move) (c : Connection)
      → All IsSilent moves
      → Unwritten c
      → Unwritten (run requests replies moves c)
  unfolding run
  run-Unwritten [] c s h = h
  run-Unwritten (move ∷ moves) c s h =
      run-Unwritten moves (step requests replies move c) s.1 (step-Unwritten move c s.0 h)

silent-IsPlain : (moves : List Move) → All IsSilent moves → All IsPlain moves
silent-IsPlain [] s = tt
silent-IsPlain (reads ∷ moves) s = (tt, silent-IsPlain moves s.1)
silent-IsPlain (writes ∷ moves) s = (tt, silent-IsPlain moves s.1)
silent-IsPlain (takes ∷ moves) s = (tt, silent-IsPlain moves s.1)
silent-IsPlain (posts p ∷ moves) s = absurd s.0
silent-IsPlain (unregisters ∷ moves) s = absurd s.0
silent-IsPlain (stops ∷ moves) s = absurd s.0

-- A connection that the daemon writes nothing to is never reported as gone, even if its peer has hung
-- up: whatever the threads and the daemon do in turn, its reader never comes to its end, as long as
-- no compositor's exit unregisters it and the daemon runs.
pub silent-not_finished :
    (requests : Codec Request) (replies : Codec Packet) (id : ℕ) (peer : PeerCred) (source : Source)
    (sink : Sink) (moves : List Move)
    → All IsSilent moves
    → (run requests replies moves (announced id peer source sink)).reader ≢ finished
silent-not_finished requests replies id peer source sink moves s at =
    let start = announced id peer source sink in
    let kept = run-Unwritten requests replies moves start s (refl, λ p. ground (arith, p)) in
    kept.1 (finished-broken requests replies id peer source sink moves (silent-IsPlain moves s) at)
