-- ===== src/Ipc/Framing.antt =====
-- src/ipc/protocol.rs: the messages on the socket, each behind its length in four bytes. bincode is a
-- parameter. A stream is all the bytes that will come over it, and how it ends.
pub mod RoundTrip
pub mod Requests
use mitos_session.Base.{
  Text, lit, num, Message, ℕ, zero, suc, ◌+◌, ◌-◌, ◌*◌, ◌/◌, ◌%◌, ◌≡◌, ◌⊎◌, inl, inr, Option, none,
  some, [], ◌∷◌, ◌++◌, ltb, leb, if◌then◌else◌, length,
}
use mitos_session.Errors.{SessionError, disconnected, Result, ok, err, ◌>>=◌, protocol, io}

pub data Ending : Type 0 where
  closed : Ending
  failing : Message → Ending

pub record Source : Type 0 where
  pub incoming : Text
  pub ending : Ending

-- What a stream takes: everything, or so many bytes and then an error.
pub record Sink : Type 0 where
  pub written : Text
  pub limit : Option (ℕ × Message)

-- `bincode::serialize` and `bincode::deserialize` at a type, or bincode's error as it is displayed.
pub record Codec (T : Type 0) : Type 0 where
  pub serialize : T → Message ⊎ Text
  pub deserialize : Text → Message ⊎ T

-- What is written is read back.
abbrev pub IsFaithful : {T : Type 0} → Codec T → Type 0
IsFaithful {T} codec =
    (msg : T) (payload : Text)
    → codec.serialize msg ≡ inr payload
    → codec.deserialize payload ≡ inr msg

-- `From<bincode::Error>`.
abbrev pub from_bincode {ℓ} : {A : Type ℓ} → Message ⊎ A → Result A
from_bincode (inl e) = err (protocol e)
from_bincode (inr a) = ok a

-- `MAX_MESSAGE_LEN`.
abbrev pub max_message_len : ℕ
max_message_len = 16777216

abbrev pub take : ℕ → Text → Text
take zero xs = []
take (suc n) [] = []
take (suc n) (x ∷ xs) = x ∷ take n xs

-- `Write::write_all`.
unfoldable pub write_all : Sink → Text → Result (Unit {0}) × Sink
write_all sink bs = elim sink.limit [
  | none ↦ (ok tt, record sink { written = sink.written ++ bs })
  | some (room, e) ↦
      if leb (length bs) room
      then (ok tt, record sink { written = sink.written ++ bs; limit = some (room - length bs, e) })
      else (err (io e), record sink { written = sink.written ++ take room bs; limit = some (0, e) })
]

-- `u32::to_le_bytes` and `u32::from_le_bytes`.
abbrev pub to_le_bytes : ℕ → Text
to_le_bytes n = n % 256 ∷ n / 256 % 256 ∷ n / 65536 % 256 ∷ n / 16777216 % 256 ∷ []

abbrev pub from_le_bytes : Text → ℕ
from_le_bytes [] = 0
from_le_bytes (b ∷ bs) = b + 256 * from_le_bytes bs

-- `u32::try_from(payload.len())`.
abbrev pub frame_len : ℕ → Result ℕ
frame_len n =
    if ltb n 4294967296 then ok n else err (protocol (lit "message too large to frame" ∷ []))

-- The two writes of a frame; flushing a socket does nothing.
unfoldable pub write_frame : Sink → Text → Text → Result (Unit {0}) × Sink
unfolding write_all
write_frame sink len payload =
    let (result, sink') = write_all sink len in
    elim result [ ok _ ↦ write_all sink' payload | err e ↦ (err e, sink') ]

abbrev pub encode : {T : Type 0} → Codec T → T → Result (ℕ × Text)
encode codec msg = do
  payload ← from_bincode (codec.serialize msg)
  len ← frame_len (length payload)
  ok (len, payload)

unfoldable pub write_message : {T : Type 0} → Codec T → Sink → T → Result (Unit {0}) × Sink
unfolding write_frame
write_message codec sink msg = elim (encode codec msg) [
  | ok (len, payload) ↦ write_frame sink (to_le_bytes len) payload
  | err e ↦ (err e, sink)
]

-- `Read::read_exact` of so many bytes: `none` where the stream ends before.
abbrev pub split_at : ℕ → Text → Option (Text × Text)
split_at zero xs = some ([], xs)
split_at (suc n) [] = none
split_at (suc n) (x ∷ xs) = elim (split_at n xs) [
  | none ↦ none
  | some (taken, rest) ↦ some (x ∷ taken, rest)
]

-- The error of the standard library for `ErrorKind::UnexpectedEof`.
abbrev pub unexpected_eof : Message
unexpected_eof = lit "failed to fill whole buffer" ∷ []

abbrev pub length_error : Ending → SessionError
length_error closed = disconnected
length_error (failing e) = io e

abbrev pub payload_error : Ending → SessionError
payload_error closed = io unexpected_eof
payload_error (failing e) = io e

abbrev pub or_fail {ℓ} : {A : Type ℓ} → SessionError → Option A → Result A
or_fail e none = err e
or_fail e (some a) = ok a

abbrev pub check_len : ℕ → Result (Unit {0})
check_len len =
    if ltb max_message_len len
    then err (
        protocol (
          lit "message of "
          ∷ num len
          ∷ lit " bytes exceeds the "
          ∷ num max_message_len
          ∷ lit " byte limit"
          ∷ []))
    else ok tt

-- `read_message` behind the length.
abbrev pub read_payload : {T : Type 0} → Codec T → Ending → ℕ → Text → Result (T × Source)
read_payload codec ending len behind = do
  _ ← check_len len
  (payload, rest) ← or_fail (payload_error ending) (split_at len behind)
  msg ← from_bincode (codec.deserialize payload)
  ok (msg, record { incoming = rest; ending = ending })

-- The message and what is left of the stream. Both callers stop at an error, so what is left then is
-- not kept.
unfoldable pub read_message : {T : Type 0} → Codec T → Source → Result (T × Source)
read_message codec source = do
  (len_buf, behind) ← or_fail (length_error source.ending) (split_at 4 source.incoming)
  read_payload codec source.ending (from_le_bytes len_buf) behind
