-- ===== src/Ipc/Framing/Requests/Replies.antt =====
-- Termination of the loops over `read_message`, and the reply that `IpcClient::call` returns.
use mitos_session.Base.{
  Text, ℕ, zero, suc, ◌+◌, ◌<◌, ◌≡◌, ap, ◌∙◌, inl, inr, some, List, [], ◌∷◌, arith, Option-cases,
  length,
}
use mitos_session.Errors.{SessionError, Result, ok, err, Result-cases}
use mitos_session.Ipc.Framing.{
  Source, Sink, Codec, from_le_bytes, write_message, split_at, read_message,
}
use mitos_session.Ipc.Framing.Requests.{before, read_each, await_response, call}
use mitos_session.Ipc.{Request, Response, Packet}

split_at-some :
    (n : ℕ) (xs taken rest : Text)
    → split_at n xs ≡ some (taken, rest)
    → n + length rest ≡ length xs
split_at-some zero xs taken rest h = ground (arith, h)
split_at-some (suc n) [] taken rest h = cc
split_at-some (suc n) (x ∷ xs) taken rest h = elim (Option-cases (split_at n xs)) [
  | inl e ↦ absurd (ground (arith, e, h))
  | inr ((a, b), e) ↦ ground (arith, e, h, split_at-some n xs a b e)
]

read_message-shrinks :
    {T : Type 0} (codec : Codec T) (s s' : Source) (msg : T)
    → read_message codec s ≡ ok (msg, s')
    → length s'.incoming < length s.incoming
unfolding read_message
read_message-shrinks codec s s' msg h = elim (Option-cases (split_at 4 s.incoming)) [
  | inl e ↦ absurd (ground (arith, e, h))
  | inr ((buf, behind), e) ↦
      let len = from_le_bytes buf in
      elim (Option-cases (split_at len behind)) [
        | inl e' ↦ absurd (ground (arith, e, e', h))
        | inr ((payload, rest), e') ↦ ground (
          arith,
          e,
          e',
          h,
          split_at-some 4 s.incoming buf behind e,
          split_at-some len behind payload rest e',
        )
      ]
]

module _ {T : Type 0} (fuel : ℕ) (codec : Codec T) (source : Source) where
  pub read_each-ok :
      (msg : T) (rest : Source)
      → read_message codec source ≡ ok (msg, rest)
      → read_each (suc fuel) codec source ≡ before msg (read_each fuel codec rest)
  unfolding read_each
  read_each-ok msg rest p = ground (arith, p)

  pub read_each-err :
      (e : SessionError)
      → read_message codec source ≡ err e
      → read_each (suc fuel) codec source ≡ some ([], e)
  unfolding read_each
  read_each-err e p = ground (arith, p)

-- What the loop gets from a stream, with enough fuel.
pub read_each-total :
    {T : Type 0} (fuel : ℕ) (codec : Codec T) (source : Source)
    → length source.incoming < fuel
    → (msgs : List T) × (e : SessionError) × (read_each fuel codec source ≡ some (msgs, e))
read_each-total zero codec source h = absurd (omega arith)
read_each-total (suc fuel) codec source h = elim (Result-cases (read_message codec source)) [
  | inl ((msg, rest), p) ↦
      let shorter = read_message-shrinks codec source rest msg p in
      let (msgs, e, q) = read_each-total fuel codec rest (omega (arith, shorter)) in
      (msg ∷ msgs, e, read_each-ok fuel codec source msg rest p ∙ ap (before msg) q)
  | inr (e, p) ↦ ([], e, read_each-err fuel codec source e p)
]

-- The first reply among the messages, or else the error that ends them.
abbrev pub first_reply : List Packet → SessionError → Result Response
first_reply [] e = err e
first_reply (Packet.response r ∷ msgs) e = ok r
first_reply (Packet.event x ∷ msgs) e = first_reply msgs e

await-packet :
    (fuel : ℕ) (codec : Codec Packet) (source rest : Source) (p : Packet) (msgs : List Packet)
    (e : SessionError)
    → read_message codec source ≡ ok (p, rest)
    → await_response fuel codec rest ≡ some (first_reply msgs e)
    → await_response (suc fuel) codec source ≡ some (first_reply (p ∷ msgs) e)
unfolding await_response
await-packet fuel codec source rest (Packet.response r) msgs e h ih = ground (arith, h)
await-packet fuel codec source rest (Packet.event x) msgs e h ih = ground (arith, h, ih)

pub await_response-read_each :
    (fuel : ℕ) (codec : Codec Packet) (source : Source)
    → length source.incoming < fuel
    → (msgs : List Packet) × (e : SessionError) × (read_each fuel codec source ≡ some (msgs, e))
      × (await_response fuel codec source ≡ some (first_reply msgs e))
unfolding await_response
await_response-read_each zero codec source h = absurd (omega arith)
await_response-read_each (suc fuel) codec source h =
    elim (Result-cases (read_message codec source)) [
      | inl ((msg, rest), p) ↦
          let shorter = read_message-shrinks codec source rest msg p in
          let (msgs, e, q, ih) =
            await_response-read_each fuel codec rest (omega (arith, shorter)) in
          (
            msg ∷ msgs,
            e,
            read_each-ok fuel codec source msg rest p ∙ ap (before msg) q,
            await-packet fuel codec source rest msg msgs e p ih,
          )
      | inr (e, p) ↦ ([], e, read_each-err fuel codec source e p, ground (arith, p))
    ]

-- With more fuel than the stream has bytes, a call that is sent ends, and returns the first reply
-- among the messages that come, whatever events come before it; without a reply it returns the error
-- that ends the messages.
pub call-first_reply :
    (fuel : ℕ) (requests : Codec Request) (replies : Codec Packet) (sink s : Sink) (source : Source)
    (request : Request)
    → length source.incoming < fuel
    → write_message requests sink request ≡ (ok tt, s)
    → (msgs : List Packet) × (e : SessionError) × (read_each fuel replies source ≡ some (msgs, e))
      × (call fuel requests replies sink source request ≡ some (first_reply msgs e))
unfolding call
call-first_reply fuel requests replies sink s source request h w =
    let (msgs, e, q, a) = await_response-read_each fuel replies source h in
    (msgs, e, q, ground (arith, w, a))
