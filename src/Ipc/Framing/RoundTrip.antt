-- ===== src/Ipc/Framing/RoundTrip.antt =====
-- What `write_message` writes and `read_message` reads (src/ipc/protocol.rs).
use mitos_session.Base.{
  Text, Message, ℕ, zero, suc, ◌+◌, ◌≤◌, ◌<◌, ◌≡◌, refl, ap, ◌∙◌, ◌⊎◌, inl, inr, false, Option,
  none, some, [], ◌∷◌, ◌++◌, arith, ltb, if◌then◌else◌, Bool-cases, length,
}
use mathlib.Core.List.{append_assoc}
use mitos_session.Errors.{disconnected, ok, err, is_ok, io}
use mitos_session.Ipc.Framing.{
  Ending, closed, Sink, Codec, IsFaithful, max_message_len, take, write_all, to_le_bytes,
  from_le_bytes, write_frame, write_message, split_at, unexpected_eof, read_payload, read_message,
}

pub split_at-append : (xs ys : Text) → split_at (length xs) (xs ++ ys) ≡ some (xs, ys)
split_at-append [] ys = refl
split_at-append (x ∷ xs) ys = rw (split_at-append xs ys)

pub split_at-short : (n : ℕ) (xs : Text) → length xs < n → split_at n xs ≡ none
split_at-short zero xs h = absurd (omega arith)
split_at-short (suc n) [] h = refl
split_at-short (suc n) (x ∷ xs) h = rw (split_at-short n xs (omega arith)) refl

pub le_bytes_lem : (n : ℕ) → n < 4294967296 → from_le_bytes (to_le_bytes n) ≡ n
le_bytes_lem n h = omega arith

-- The frame of a payload.
abbrev pub frame : Text → Text
frame payload = to_le_bytes (length payload) ++ payload

module _ {T : Type 0} (codec : Codec T) where
  pub read-frame :
      (payload rest : Text) (ending : Ending) (msg : T)
      → length payload ≤ max_message_len
      → codec.deserialize payload ≡ inr msg
      → read_message codec (record { incoming = frame payload ++ rest; ending = ending })
        ≡ ok (msg, record { incoming = rest; ending = ending })
  unfolding read_message
  read-frame payload rest ending msg h e =
      let n = length payload in
      ap (λ len. read_payload codec ending len (payload ++ rest)) (le_bytes_lem n (omega arith))
      ∙ ground (arith, split_at-append payload rest, e)

  write_frame-ok :
      (sink s : Sink) (len payload : Text)
      → write_frame sink len payload ≡ (ok tt, s)
      → s.written ≡ (sink.written ++ len) ++ payload
  unfolding write_frame write_all
  write_frame-ok sink s len payload h = ground (arith, h)

  -- What a successful write has put on the stream.
  abbrev Wrote : T → Sink → Sink → Type 0
  Wrote msg sink s =
      (payload : Text) × (codec.serialize msg ≡ inr payload)
      × (length payload < 4294967296)
      × (s.written ≡ sink.written ++ frame payload)

  write_encoded :
      (msg : T) (sink s : Sink) (o : Message ⊎ Text)
      → codec.serialize msg ≡ o
      → write_message codec sink msg ≡ (ok tt, s)
      → Wrote msg sink s
  unfolding write_message
  write_encoded msg sink s (inl e) p h = absurd (ground (arith, h, p))
  write_encoded msg sink s (inr payload) p h = elim (Bool-cases (ltb (length payload) 4294967296)) [
    | inl small ↦
        let h' : write_frame sink (to_le_bytes (length payload)) payload ≡ (ok tt, s) =
          ground (arith, h, p) in
        (
          payload,
          p,
          ground arith,
          write_frame-ok sink s (to_le_bytes (length payload)) payload h'
              ∙ append_assoc sink.written (to_le_bytes (length payload)) payload,
        )
    | inr big ↦ absurd (ground (arith, h, p))
  ]

  write_message-ok :
      (msg : T) (sink s : Sink) → write_message codec sink msg ≡ (ok tt, s) → Wrote msg sink s
  write_message-ok msg sink s h = write_encoded msg sink s (codec.serialize msg) refl h

abbrev pub fresh_sink : Option (ℕ × Message) → Sink
fresh_sink limit = record { written = []; limit = limit }

-- What is written at once is read back, with all that follows it on the stream left, if bincode reads
-- back what it writes and the payload has at most 16 MiB.
pub read-write_message :
    {T : Type 0} (codec : Codec T) (msg : T) (limit : Option (ℕ × Message)) (s : Sink) (rest : Text)
    (ending : Ending)
    → IsFaithful codec
    → write_message codec (fresh_sink limit) msg ≡ (ok tt, s)
    → length s.written ≤ max_message_len + 4
    → read_message codec (record { incoming = s.written ++ rest; ending = ending })
      ≡ ok (msg, record { incoming = rest; ending = ending })
read-write_message codec msg limit s rest ending faithful w h =
    let (payload, e, _, out) = write_message-ok codec msg (fresh_sink limit) s w in
    let small : length (frame payload) ≤ max_message_len + 4 = rw out at h in
    rw out (read-frame codec payload rest ending msg (omega arith) (faithful msg payload e))

length-take : (n : ℕ) (xs : Text) → n ≤ length xs → length (take n xs) ≡ n
length-take zero xs h = refl
length-take (suc n) [] h = absurd (omega arith)
length-take (suc n) (x ∷ xs) h = omega (arith, length-take n xs)

read-cut_frame :
    {T : Type 0} (codec : Codec T) (payload : Text) (n : ℕ)
    → length payload ≤ max_message_len
    → n < length payload + 4
    → read_message codec (record { incoming = take n (frame payload); ending = closed })
      ≡ (if ltb n 4 then err disconnected else err (io unexpected_eof))
unfolding read_message
read-cut_frame codec payload zero h k = refl
read-cut_frame codec payload (suc zero) h k = refl
read-cut_frame codec payload (suc (suc zero)) h k = refl
read-cut_frame codec payload (suc (suc (suc zero))) h k = refl
read-cut_frame codec payload (suc (suc (suc (suc m)))) h k =
    let n = length payload in
    ap (λ len. read_payload codec closed len (take m payload)) (le_bytes_lem n (omega arith))
    ∙ ground (arith, split_at-short n (take m payload), length-take m payload)

-- A stream that ends within a frame of at most 16 MiB gives no message: an end within the four bytes
-- of the length counts as a closed connection, and an end within the payload as an I/O error.
pub read-cut_message :
    {T : Type 0} (codec : Codec T) (msg : T) (limit : Option (ℕ × Message)) (s : Sink) (n : ℕ)
    → write_message codec (fresh_sink limit) msg ≡ (ok tt, s)
    → length s.written ≤ max_message_len + 4
    → n < length s.written
    → read_message codec (record { incoming = take n s.written; ending = closed })
      ≡ (if ltb n 4 then err disconnected else err (io unexpected_eof))
read-cut_message codec msg limit s n w h k =
    let (payload, e, _, out) = write_message-ok codec msg (fresh_sink limit) s w in
    let small : length (frame payload) ≤ max_message_len + 4 = rw out at h in
    let cut : n < length (frame payload) = rw out at k in
    rw out (read-cut_frame codec payload n (omega arith) (omega arith))

-- A message of more than 16 MiB that `write_message` accepts is refused by `read_message`, whatever
-- follows it.
pub read-large_message :
    {T : Type 0} (codec : Codec T) (msg : T) (limit : Option (ℕ × Message)) (s : Sink) (rest : Text)
    (ending : Ending)
    → write_message codec (fresh_sink limit) msg ≡ (ok tt, s)
    → max_message_len + 4 < length s.written
    → is_ok (read_message codec (record { incoming = s.written ++ rest; ending = ending })) ≡ false
unfolding read_message
read-large_message codec msg limit s rest ending w h =
    let (payload, e, fits, out) = write_message-ok codec msg (fresh_sink limit) s w in
    let large : max_message_len + 4 < length (frame payload) = rw out at h in
    let n = length payload in
    rw out (
      ap (λ len. is_ok (read_payload codec ending len (payload ++ rest))) (le_bytes_lem n fits)
      ∙ ground arith)
