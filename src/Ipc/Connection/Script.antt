-- ===== src/Ipc/Connection/Script.antt =====
-- The requests on a stream, and what a connection says of them to the daemon (`handle_connection` in
-- src/ipc/server.rs).
use mitos_session.Base.{
  ℕ, zero, suc, ◌≡◌, refl, sym, ◌∙◌, inl, inr, some, List, [], ◌∷◌, ◌++◌, arith, Option-cases,
}
use mathlib.Core.List.{append-nil}
use mitos_session.Errors.{SessionError, Result, ok, err, Result-cases}
use mitos_session.Ipc.{PeerCred, Request, ManagerMessage}
use mitos_session.Ipc.Framing.{Source, Codec, read_message}
use mitos_session.Ipc.Framing.Requests.{read_each}
use mitos_session.Ipc.Connection.{Connection, as_command}

-- The requests on a stream, and the error that ends them.
pub data Script (codec : Codec Request) : Source → List Request → SessionError → Type 0 where
  stop : {s : Source} {e : SessionError} → read_message codec s ≡ err e → Script codec s [] e
  next :
      {s s' : Source} {r : Request} {rs : List Request} {e : SessionError}
      → read_message codec s ≡ ok (r, s')
      → Script codec s' rs e
      → Script codec s (r ∷ rs) e

pub read_each-Script :
    (fuel : ℕ) (codec : Codec Request) (s : Source) (rs : List Request) (e : SessionError)
    → read_each fuel codec s ≡ some (rs, e)
    → Script codec s rs e
unfolding read_each
read_each-Script zero codec s rs e h = cc
read_each-Script (suc fuel) codec s rs e h = elim (Result-cases (read_message codec s)) [
  | inr (e', p) ↦
      let none_left : rs ≡ [] = ground (arith, p, h) in
      let same : e ≡ e' = ground (arith, p, h) in rw none_left (rw same (stop p))
  | inl ((r, s'), p) ↦ elim (Option-cases (read_each fuel codec s')) [
    | inl q ↦ absurd (ground (arith, p, q, h))
    | inr ((rs', e'), q) ↦
        let more : rs ≡ r ∷ rs' = ground (arith, p, q, h) in
        let same : e ≡ e' = ground (arith, p, q, h) in
        rw more (rw same (next p (read_each-Script fuel codec s' rs' e' q)))
  ]
]

-- The script behind a request, and the end of the script.
pub Script-ok :
    (codec : Codec Request) (s s' : Source) (r : Request) (rs : List Request) (e : SessionError)
    → Script codec s rs e
    → read_message codec s ≡ ok (r, s')
    → (rs' : List Request) × (rs ≡ r ∷ rs') × Script codec s' rs' e
Script-ok codec s s' r rs e (stop p) h = absurd (ground (arith, p, h))
Script-ok codec s s' r rs e (next {s' = t} {r = q} {rs = qs} p script) h =
    let same : Result.ok (q, t) ≡ ok (r, s') = sym p ∙ h in
    let source : s' ≡ t = ground (arith, same) in (qs, ground (arith, same), rw source script)

pub Script-err :
    (codec : Codec Request) (s : Source) (rs : List Request) (e e' : SessionError)
    → Script codec s rs e
    → read_message codec s ≡ err e'
    → rs ≡ []
Script-err codec s rs e e' (stop p) h = refl
Script-err codec s rs e e' (next p script) h = absurd (ground (arith, p, h))

abbrev pub commands : ℕ → PeerCred → List Request → List ManagerMessage
commands id peer [] = []
commands id peer (r ∷ rs) =
    ManagerMessage.command (record { conn_id = id; peer = peer; request = r }) ∷ commands id peer rs

commands-append :
    (id : ℕ) (peer : PeerCred) (rs qs : List Request)
    → commands id peer (rs ++ qs) ≡ commands id peer rs ++ commands id peer qs
commands-append id peer [] qs = refl
commands-append id peer (r ∷ rs) qs = ground (arith, commands-append id peer rs qs)

-- All that a connection has said: it is announced, then come its requests, and at the end it may say
-- that it is gone.
abbrev pub story : ℕ → PeerCred → List Request → List ManagerMessage → List ManagerMessage
story id peer rs last = ManagerMessage.connected id peer id ∷ (commands id peer rs ++ last)

pub story-request :
    (id : ℕ) (peer : PeerCred) (rs : List Request) (r : Request)
    → story id peer rs [] ++ (commands id peer (r ∷ [])) ≡ story id peer (rs ++ (r ∷ [])) []
story-request id peer rs r =
    let cmds = commands id peer rs in
    ground (
      arith,
      commands-append id peer rs (r ∷ []),
      append-nil cmds,
      append-nil (commands id peer (rs ++ (r ∷ []))),
    )

pub story-last :
    (id : ℕ) (peer : PeerCred) (rs : List Request) (m : ManagerMessage)
    → story id peer rs [] ++ (m ∷ []) ≡ story id peer rs (m ∷ [])
story-last id peer rs m = ground (arith, append-nil (commands id peer rs))

pub as_command-same :
    (c : Connection) (r : Request) (id : ℕ) (peer : PeerCred)
    → c.conn_id ≡ id
    → c.peer ≡ peer
    → as_command c r ∷ [] ≡ commands id peer (r ∷ [])
as_command-same c r id peer p q = rw (p, q) refl
