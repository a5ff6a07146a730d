-- ===== src/Ipc/Framing/Requests/Streams.antt =====
-- What the writer of one side puts on the stream, the reader of the other side gets
-- (`handle_connection` in src/ipc/server.rs).
use mitos_session.Base.{
  Text, ℕ, zero, suc, ◌≤◌, ◌<◌, ◌≡◌, refl, ap, ◌∙◌, inr, none, some, List, [], ◌∷◌, ◌++◌, arith,
  length, All, length-append,
}
use mathlib.Core.List.{append_assoc, append-nil}
use mitos_session.Errors.{disconnected, ok}
use mitos_session.Ipc.Framing.{
  closed, Source, Sink, Codec, IsFaithful, max_message_len, write_all, to_le_bytes, write_frame,
  write_message, read_message,
}
use mitos_session.Ipc.Framing.RoundTrip.{frame, read-frame, fresh_sink}
use mitos_session.Ipc.Framing.Requests.{write_each, before, read_each}
use mitos_session.Ipc.Framing.Requests.Replies.{read_each-ok, read_each-err}

-- bincode writes the message, in at most 16 MiB.
abbrev pub Fits : {T : Type 0} → Codec T → T → Type 0
Fits codec msg =
    (payload : Text) × (codec.serialize msg ≡ inr payload) × (length payload ≤ max_message_len)

abbrev pub frames : {T : Type 0} (codec : Codec T) (msgs : List T) → All (Fits codec) msgs → Text
frames codec [] h = []
frames codec (msg ∷ msgs) h = frame h.0.0 ++ frames codec msgs h.1

abbrev open_sink : Text → Sink
open_sink bs = record { written = bs; limit = none }

write-Fits :
    {T : Type 0} (codec : Codec T) (msg : T) (bs : Text) (fit : Fits codec msg)
    → write_message codec (open_sink bs) msg ≡ (ok tt, open_sink (bs ++ frame fit.0))
unfolding write_message write_frame write_all
write-Fits codec msg bs (payload, e, small) =
    ground (arith, e, small, append_assoc bs (to_le_bytes (length payload)) payload)

write_each-step :
    {T : Type 0} (codec : Codec T) (msg : T) (msgs : List T) (sink s : Sink)
    → write_message codec sink msg ≡ (ok tt, s)
    → write_each codec sink (msg ∷ msgs) ≡ write_each codec s msgs
unfolding write_each
write_each-step codec msg msgs sink s h = ground (arith, h)

write_each-frames :
    {T : Type 0} (codec : Codec T) (msgs : List T) (bs : Text) (h : All (Fits codec) msgs)
    → write_each codec (open_sink bs) msgs ≡ (ok tt, open_sink (bs ++ frames codec msgs h))
unfolding write_each
write_each-frames codec [] bs h = ground (arith, append-nil bs)
write_each-frames codec (msg ∷ msgs) bs (fit, h) =
    write_each-step codec msg msgs (open_sink bs) (open_sink (bs ++ frame fit.0))
      (write-Fits codec msg bs fit)
    ∙ write_each-frames codec msgs (bs ++ frame fit.0) h
    ∙ ap (λ out. (ok tt, open_sink out)) (append_assoc bs (frame fit.0) (frames codec msgs h))

read_each-frames :
    {T : Type 0} (codec : Codec T) (msgs : List T) (h : All (Fits codec) msgs) (fuel : ℕ)
    → IsFaithful codec
    → length (frames codec msgs h) < fuel
    → read_each fuel codec (record { incoming = frames codec msgs h; ending = closed })
      ≡ some (msgs, disconnected)
unfolding read_message
read_each-frames codec msgs h zero faithful enough = absurd (omega arith)
read_each-frames codec [] h (suc fuel) faithful enough =
    read_each-err fuel codec (record { incoming = []; ending = closed }) disconnected refl
read_each-frames codec (msg ∷ msgs) h (suc fuel) faithful enough =
    let (payload, e, small) = h.0 in
    let rest = frames codec msgs h.1 in
    let source : Source = record { incoming = frame payload ++ rest; ending = closed } in
    let behind : Source = record { incoming = rest; ending = closed } in
    let shorter : length rest < fuel = omega (arith, length-append (frame payload) rest) in
    read_each-ok fuel codec source msg behind
      (read-frame codec payload rest closed msg small (faithful msg payload e))
    ∙ ap (before msg) (read_each-frames codec msgs h.1 fuel faithful shorter)

-- Messages that fit are all written to a stream that takes everything, and a loop over
-- `read_message` gets exactly these, in their order, and then that the peer hung up; this with more
-- fuel than there are bytes, if bincode reads back what it writes.
pub read_each-write_each :
    {T : Type 0} (codec : Codec T) (msgs : List T)
    → IsFaithful codec
    → All (Fits codec) msgs
    → (s : Sink) × (write_each codec (fresh_sink none) msgs ≡ (ok tt, s))
      × ((fuel : ℕ)
          → length s.written < fuel
          → read_each fuel codec (record { incoming = s.written; ending = closed })
            ≡ some (msgs, disconnected))
read_each-write_each codec msgs faithful h = (
  open_sink (frames codec msgs h),
  write_each-frames codec msgs [] h,
  λ fuel enough. read_each-frames codec msgs h fuel faithful enough,
)
