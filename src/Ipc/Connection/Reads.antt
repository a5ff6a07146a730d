-- ===== src/Ipc/Connection/Reads.antt =====
-- The invariant of a connection, and that its reader keeps it (`handle_connection` in
-- src/ipc/server.rs).
use mitos_session.Base.{
  ℕ, ◌≡◌, refl, ap, ◌∙◌, ◌⊎◌, inl, inr, Bool, true, false, List, [], ◌∷◌, ◌++◌, arith,
  if◌then◌else◌, Bool-cases,
}
use mathlib.Core.List.{append_assoc}
use mitos_session.Errors.{SessionError, ok, err, Result-cases}
use mitos_session.Ipc.{PeerCred, Request, ManagerMessage}
use mitos_session.Ipc.Framing.{Source, Codec, read_message}
use mitos_session.Ipc.Connection.{
  Reader, reading, joining, finished, Writer, draining, broken, drained, Connection, hand_over,
  as_command, read_request, join_writer, reader_step,
}
use mitos_session.Ipc.Connection.Script.{
  Script, Script-ok, Script-err, story, story-request, story-last, as_command-same,
}

module _ (codec : Codec Request) (id : ℕ) (peer : PeerCred) (all : List Request)
    (e : SessionError) where
  -- What the place of the reader says of the requests that were not handed over.
  abbrev pub Phase : Reader → Source → Bool → List Request → List ManagerMessage → Type 0
  Phase reading source receiving more last = (last ≡ []) × Script codec source more e
  Phase joining source receiving more last = (last ≡ []) × (receiving ≡ true → more ≡ [])
  Phase finished source receiving more last =
      ((last ≡ ManagerMessage.disconnected id ∷ []) × (more ≡ []))
      ⊎ ((last ≡ []) × (receiving ≡ false))

  pub record Told (c : Connection) : Type 0 where
    pub given : List Request
    pub more : List Request
    pub last : List ManagerMessage
    pub whole : all ≡ given ++ more
    pub log : c.sent ≡ story id peer given last
    pub phase : Phase c.reader c.source c.receiving more last
    pub same_id : c.conn_id ≡ id
    pub same_peer : c.peer ≡ peer

  -- A round of the reader's loop that gets an error.
  read_err-Told :
      (c : Connection) (e' : SessionError)
      → c.reader ≡ reading
      → read_message codec c.source ≡ err e'
      → Told c
      → Told (record c { reader = joining })
  read_err-Told c e' at q t =
      let p : Phase reading c.source c.receiving t.more t.last = rw at at t.phase in
      record {
        given = t.given;
        more = t.more;
        last = t.last;
        whole = t.whole;
        log = t.log;
        phase = (p.0, λ receiving. Script-err codec c.source t.more e e' p.1 q);
        same_id = t.same_id;
        same_peer = t.same_peer;
      }

  -- A round that gets a request, while the daemon runs.
  read_ok-Told :
      (c : Connection) (r : Request) (rest : Source)
      → c.reader ≡ reading
      → read_message codec c.source ≡ ok (r, rest)
      → Told c
      → Told (hand_over (as_command c r) (record c { source = rest }))
  read_ok-Told c r rest at q t =
      let p : Phase reading c.source c.receiving t.more t.last = rw at at t.phase in
      let (rs, first, script) = Script-ok codec c.source rest r t.more e p.1 q in
      let here : Phase reading rest c.receiving rs [] = (refl, script) in
      record {
        given = t.given ++ (r ∷ []);
        more = rs;
        last = [];
        whole = t.whole ∙ ground (arith, first, append_assoc t.given (r ∷ []) rs);
        log = ground (
          arith,
          t.log,
          p.0,
          as_command-same c r id peer t.same_id t.same_peer,
          story-request id peer t.given r,
        );
        phase = rw at here;
        same_id = t.same_id;
        same_peer = t.same_peer;
      }

  -- A round that gets a request, after the daemon has ended.
  read_late-Told :
      (c : Connection) (rest : Source)
      → c.reader ≡ reading
      → c.receiving ≡ false
      → Told c
      → Told (record c { source = rest; reader = joining })
  read_late-Told c rest at off t =
      let p : Phase reading c.source c.receiving t.more t.last = rw at at t.phase in
      record {
        given = t.given;
        more = t.more;
        last = t.last;
        whole = t.whole;
        log = t.log;
        phase = (p.0, λ on. absurd (ground (arith, off, on)));
        same_id = t.same_id;
        same_peer = t.same_peer;
      }

  read-Told : (c : Connection) → c.reader ≡ reading → Told c → Told (read_request codec c)
  read-Told c at t = elim (Result-cases (read_message codec c.source)) [
    | inr (e', q) ↦ rw (q, read_request) (read_err-Told c e' at q t)
    | inl ((r, rest), q) ↦ elim (Bool-cases c.receiving) [
      | inl on ↦
          let same : read_request codec c
              ≡ hand_over (as_command c r) (record c { source = rest }) =
            ground (arith, q, on) in
          rw same (read_ok-Told c r rest at q t)
      | inr off ↦
          let same : read_request codec c ≡ record c { source = rest; reader = joining } =
            ground (arith, q, off) in
          rw same (read_late-Told c rest at off t)
    ]
  ]

  -- The reader's last message, once the writer has stopped.
  last-Told :
      (c : Connection)
      → c.reader ≡ joining
      → c.receiving ≡ true
      → Told c
      → Told (hand_over (ManagerMessage.disconnected c.conn_id) (record c { reader = finished }))
  last-Told c at on t =
      let p : Phase joining c.source c.receiving t.more t.last = rw at at t.phase in
      let gone = ManagerMessage.disconnected id in
      record {
        given = t.given;
        more = [];
        last = gone ∷ [];
        whole = ground (arith, t.whole, p.1 on);
        log = ground (
          arith,
          t.log,
          p.0,
          ap ManagerMessage.disconnected t.same_id,
          story-last id peer t.given gone,
        );
        phase = inl (refl, refl);
        same_id = t.same_id;
        same_peer = t.same_peer;
      }

  silent-Told :
      (c : Connection)
      → c.reader ≡ joining
      → c.receiving ≡ false
      → Told c
      → Told (record c { reader = finished })
  silent-Told c at off t =
      let p : Phase joining c.source c.receiving t.more t.last = rw at at t.phase in
      record {
        given = t.given;
        more = t.more;
        last = t.last;
        whole = t.whole;
        log = t.log;
        phase = inr (p.0, off);
        same_id = t.same_id;
        same_peer = t.same_peer;
      }

  leave-Told :
      (c c' : Connection)
      → c.reader ≡ joining
      → c' ≡ (
          if c.receiving
          then hand_over (ManagerMessage.disconnected c.conn_id) (record c { reader = finished })
          else record c { reader = finished })
      → Told c
      → Told c'
  leave-Told c c' at same t = elim (Bool-cases c.receiving) [
    | inl on ↦
        let same' : c'
            ≡ hand_over (ManagerMessage.disconnected c.conn_id) (record c { reader = finished }) =
          ground (arith, same, on) in
        rw same' (last-Told c at on t)
    | inr off ↦
        let same' : c' ≡ record c { reader = finished } = ground (arith, same, off) in
        rw same' (silent-Told c at off t)
  ]

  join-Told : (c : Connection) (w : Writer) → c.reader ≡ joining → Told c → Told (join_writer w c)
  join-Told c draining at t = t
  join-Told c broken at t = leave-Told c (join_writer broken c) at refl t
  join-Told c drained at t = leave-Told c (join_writer drained c) at refl t

  pub reader-Told :
      (c : Connection) (r : Reader) → c.reader ≡ r → Told c → Told (reader_step codec c)
  unfolding reader_step
  reader-Told c reading at t = rw (at, reader_step) (read-Told c at t)
  reader-Told c joining at t = rw (at, reader_step) (join-Told c c.writer at t)
  reader-Told c finished at t = rw (at, reader_step) t
