-- ===== src/Errors.antt =====
-- src/errors/error.rs: the error type of the crate, its `Display` texts, and the `Result` monad.
use mitos_session.Base.{
  ℕ, ◌≡◌, refl, ◌⊎◌, inl, inr, Bool, true, false, [], ◌∷◌, Text, lit, num, txt, Message,
}

pub data SessionError : Type 0 where
  io config auth_failed pam permission_denied protocol : Message → SessionError
  invalid_transition unsupported poisoned : Message → SessionError
  unknown_user unknown_seat : Text → SessionError
  unknown_session unknown_inhibitor unknown_elevation_request locked_out : ℕ → SessionError
  disconnected cancelled : SessionError

-- The `#[error(...)]` attributes.
unfoldable pub to_string : SessionError → Message
to_string (io e) = lit "I/O error: " ∷ e
to_string (config e) = lit "configuration error: " ∷ e
to_string (auth_failed e) = lit "authentication failed: " ∷ e
to_string (pam e) = lit "PAM error: " ∷ e
to_string (permission_denied e) = lit "permission denied: " ∷ e
to_string (protocol e) = lit "ipc protocol error: " ∷ e
to_string (invalid_transition e) = lit "invalid state transition: " ∷ e
to_string (unsupported e) = lit "operation not supported: " ∷ e
to_string (poisoned e) = lit "internal lock was poisoned: " ∷ e
to_string (unknown_user name) = lit "no such user: " ∷ txt name ∷ []
to_string (unknown_seat id) = lit "no such seat: " ∷ txt id ∷ []
to_string (unknown_session id) = lit "no such session: " ∷ num id ∷ []
to_string (unknown_inhibitor id) = lit "no such inhibitor: " ∷ num id ∷ []
to_string (unknown_elevation_request id) = lit "no such elevation request: " ∷ num id ∷ []
to_string (locked_out secs) =
    lit "account is temporarily locked out (" ∷ num secs ∷ lit "s remaining)" ∷ []
to_string disconnected = lit "ipc peer disconnected" ∷ []
to_string cancelled = lit "a background operation was cancelled" ∷ []

pub data Result {ℓ} (A : Type ℓ) : Type ℓ where
  ok : A → Result A
  err : SessionError → Result A

infixl 5 ◌>>=◌
abbrev pub ◌>>=◌ {ℓ κ} : {A : Type ℓ} {B : Type κ} → Result A → (A → Result B) → Result B
ok a >>= f = f a
err e >>= f = err e

abbrev pub is_ok {ℓ} : {A : Type ℓ} → Result A → Bool
is_ok (ok a) = true
is_ok (err e) = false

pub Result-cases {ℓ} :
    {A : Type ℓ} (r : Result A) → ((a : A) × (r ≡ ok a)) ⊎ ((e : SessionError) × (r ≡ err e))
Result-cases (ok a) = inl (a, refl)
Result-cases (err e) = inr (e, refl)
