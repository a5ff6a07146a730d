-- ===== src/Ipc/Framing/Requests.antt =====
-- The loops around the frames: the writer and the reader of a connection (`handle_connection` in
-- src/ipc/server.rs) and the client that waits for its reply (src/ipc/client.rs).
pub mod Replies
pub mod Streams
use mitos_session.Base.{ℕ, zero, suc, Option, none, some, List, [], ◌∷◌}
use mitos_session.Errors.{SessionError, Result, ok, err}
use mitos_session.Ipc.Framing.{Source, Sink, Codec, write_message, read_message}
use mitos_session.Ipc.{Request, Response, Packet, response, event, response, event}

-- `for msg in out_rx { if write_message(..).is_err() { break; } }`.
unfoldable pub write_each : {T : Type 0} → Codec T → Sink → List T → Result (Unit {0}) × Sink
write_each codec sink [] = (ok tt, sink)
write_each codec sink (msg ∷ msgs) =
    let (result, sink') = write_message codec sink msg in
    elim result [ ok _ ↦ write_each codec sink' msgs | err e ↦ (err e, sink') ]

abbrev pub before {ℓ} :
    {A : Type ℓ} → A → Option (List A × SessionError) → Option (List A × SessionError)
before a none = none
before a (some (as', e)) = some (a ∷ as', e)

-- The messages that a loop over `read_message` gets, and the error that ends it. `none` means that
-- the fuel ran out.
unfoldable pub read_each : {T : Type 0} → ℕ → Codec T → Source → Option (List T × SessionError)
read_each zero codec source = none
read_each (suc fuel) codec source = elim (read_message codec source) [
  | err e ↦ some ([], e)
  | ok (msg, rest) ↦ before msg (read_each fuel codec rest)
]

-- The reply that a message carries.
abbrev pub reply : Packet → Option Response
reply (response r) = some r
reply (event e) = none

-- The loop of `IpcClient::call`.
unfoldable pub await_response : ℕ → Codec Packet → Source → Option (Result Response)
await_response zero codec source = none
await_response (suc fuel) codec source = elim (read_message codec source) [
  | err e ↦ some (err e)
  | ok (msg, rest) ↦ elim (reply msg) [
    | some r ↦ some (ok r)
    | none ↦ await_response fuel codec rest
  ]
]

-- `IpcClient::call`.
unfoldable pub call :
    ℕ → Codec Request → Codec Packet → Sink → Source → Request → Option (Result Response)
unfolding await_response
call fuel requests replies sink source request = elim (write_message requests sink request).0 [
  | ok _ ↦ await_response fuel replies source
  | err e ↦ some (err e)
]
