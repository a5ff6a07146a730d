-- ===== src/Power/Backends.antt =====
-- src/power/mod.rs, mitos_power.rs and supervised.rs: the backends that do the transition. The
-- kernel, serde_json and the socket to mitos-power are parameters.
pub mod Replies
use mitos_session.Base.{
  Text, bytes, same_text, lit, txt, Message, ℕ, ◌⊎◌, inl, inr, Bool, false, Option, none, some,
  List, [], ◌∷◌, ◌++◌, if◌then◌else◌, is_empty,
}
use mitos_session.Base.Lines.{trim}
use mitos_session.Errors.{SessionError, Result, ok, err, ◌>>=◌, protocol}

-- The trait: what each call gives.
pub record SystemPowerBackend : Type 0 where
  pub suspend : Result (Unit {0})
  pub poweroff : Result (Unit {0})
  pub reboot : Result (Unit {0})

pub data RebootMode : Type 0 where
  rb_power_off rb_autoboot : RebootMode

pub data Signal : Type 0 where
  sigint sigterm : Signal

-- `fs::write`, `reboot(2)` and `kill(2)`.
pub record Kernel : Type 0 where
  pub write : Text → Text → Result (Unit {0})
  pub reboot : RebootMode → Result (Unit {0})
  pub kill : ℕ → Signal → Result (Unit {0})

-- `DirectBackend`.
abbrev pub direct_backend : Kernel → SystemPowerBackend
direct_backend kernel = record {
  suspend = kernel.write (bytes "/sys/power/state") (bytes "mem");
  poweroff = kernel.reboot rb_power_off;
  reboot = kernel.reboot rb_autoboot;
}

-- `SupervisedBackend`.
abbrev pub supervised_backend : Kernel → SystemPowerBackend
supervised_backend kernel = record {
  suspend = (direct_backend kernel).suspend;
  poweroff = kernel.kill 1 sigterm;
  reboot = kernel.kill 1 sigint;
}

-- What `read_line` gives after the lines: the end of the stream or an error.
pub data LineEnd : Type 0 where
  at_end : LineEnd
  failing : Message → LineEnd

-- The connection to mitos-power: the error of each call that sets it up, if there is one, those of
-- encoding and writing the request for a method, and the lines that come over it.
pub record PowerSocket : Type 0 where
  pub connecting : Option Message
  pub read_timeout : Option Message
  pub cloning : Option Message
  pub write_timeout : Option Message
  pub encoding : Text → Option Message
  pub sending : Text → Option Message
  pub incoming : List Text
  pub line_end : LineEnd

-- `serde_json`: parsing, `Value::get`, `Value::as_str` and `Value::as_bool`.
pub record Json (Value : Type 0) : Type 0 where
  pub from_str : Text → Message ⊎ Value
  pub get : Text → Value → Option Value
  pub as_str : Value → Option Text
  pub as_bool : Value → Option Bool

abbrev pub and_then {ℓ κ} : {A : Type ℓ} {B : Type κ} → Option A → (A → Option B) → Option B
and_then none f = none
and_then (some a) f = f a

abbrev pub or_else {ℓ} : {A : Type ℓ} → Option A → A → A
or_else none b = b
or_else (some a) b = a

-- `.map_err(|e| SessionError::Protocol(format!("...: {e}")))?`.
abbrev pub try_step : Option Message → Message → Result (Unit {0})
try_step none what = ok tt
try_step (some e) what = err (protocol (what ++ e))

module _ {Value : Type 0} (json : Json Value) where
  abbrev pub is_response : Value → Bool
  is_response value = elim (and_then (json.get (bytes "kind") value) json.as_str) [
    | none ↦ false
    | some kind ↦ same_text kind (bytes "response")
  ]

  -- What a response says.
  abbrev pub verdict : Text → Value → Result (Unit {0})
  verdict method value =
      if or_else (and_then (json.get (bytes "ok") value) json.as_bool) false
      then ok tt
      else let message =
          or_else
            (and_then (and_then (json.get (bytes "error") value) (json.get (bytes "message")))
              json.as_str)
            (bytes "unknown error") in
        err (protocol (lit "mitos-power rejected " ∷ txt method ∷ lit ": " ∷ txt message ∷ []))

  abbrev pub closed_early : SessionError
  closed_early = protocol (lit "mitos-power closed the connection without replying" ∷ [])

  abbrev pub end_result : LineEnd → Result (Unit {0})
  end_result at_end = err closed_early
  end_result (failing e) = err (protocol (lit "reading from mitos-power: " ∷ e))

  -- One line: a result that ends the loop, if it gives one.
  abbrev pub line_result : Text → Text → Option (Result (Unit {0}))
  line_result method raw =
      if is_empty raw
      then some (err closed_early)
      else if is_empty (trim raw)
      then none
      else elim (json.from_str (trim raw)) [
        | inl e ↦ some (err (protocol (lit "parsing mitos-power reply: " ∷ e)))
        | inr value ↦ if is_response value then some (verdict method value) else none
      ]

  -- The loop of `MitosPowerBackend::call`.
  unfoldable pub await_reply : Text → List Text → LineEnd → Result (Unit {0})
  await_reply method [] line_end = end_result line_end
  await_reply method (raw ∷ rest) line_end = elim (line_result method raw) [
    | some result ↦ result
    | none ↦ await_reply method rest line_end
  ]

  -- `MitosPowerBackend::call`.
  unfoldable pub call : Text → PowerSocket → Text → Result (Unit {0})
  unfolding await_reply
  call socket_path socket method = do
    _ ←
        try_step socket.connecting
          (lit "connecting to mitos-power at " ∷ txt socket_path ∷ lit ": " ∷ [])
    _ ← try_step socket.read_timeout (lit "setting read timeout: " ∷ [])
    _ ← try_step socket.cloning (lit "cloning socket to mitos-power: " ∷ [])
    _ ← try_step socket.write_timeout (lit "setting write timeout: " ∷ [])
    _ ← try_step (socket.encoding method) (lit "encoding request to mitos-power: " ∷ [])
    _ ← try_step (socket.sending method) (lit "writing to mitos-power: " ∷ [])
    await_reply method socket.incoming socket.line_end

  -- `MitosPowerBackend`: a new connection for each call, which `socket` gives.
  abbrev pub mitos_power_backend : Text → (Text → PowerSocket) → SystemPowerBackend
  unfolding call
  mitos_power_backend socket_path socket = record {
    suspend = call socket_path (socket (bytes "Suspend")) (bytes "Suspend");
    poweroff = call socket_path (socket (bytes "Poweroff")) (bytes "Poweroff");
    reboot = call socket_path (socket (bytes "Reboot")) (bytes "Reboot");
  }

pub data PowerBackendKind : Type 0 where
  mitos_power direct supervised : PowerBackendKind

-- `PowerBackendKind::make`.
unfoldable pub make :
    {Value : Type 0}
    → Json Value
    → Kernel
    → (Text → PowerSocket)
    → Text
    → PowerBackendKind
    → SystemPowerBackend
unfolding call
make json kernel socket socket_path mitos_power = mitos_power_backend json socket_path socket
make json kernel socket socket_path direct = direct_backend kernel
make json kernel socket socket_path supervised = supervised_backend kernel
