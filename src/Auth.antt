-- ===== src/Auth.antt =====
-- src/authentication: what an attempt is, the PAM backend, and the attempt counter with its lockout.
-- Linux-PAM is the parameter `PamLib`; a `Duration` is its seconds.
pub mod Check
pub mod PamLaws
pub mod Tests
use mitos_session.Base.{
  ℕ, ◌-◌, Bool, [], ◌∷◌, leb, if◌then◌else◌, inc_u32, is_empty, Text, lit, Message,
}
use mitos_session.Errors.{SessionError, auth_failed, pam, Result, ok, err, ◌>>=◌}

pub record AuthPolicy : Type 0 where
  pub pam_service : Text
  pub allow_empty_password : Bool
  pub max_attempts : ℕ
  pub lockout : ℕ

pub record AuthRequest : Type 0 where
  pub session_id : ℕ
  pub user_name : Text
  pub password : Text

pub data AuthOutcome : Type 0 where
  success : AuthOutcome
  failure : ℕ → AuthOutcome
  locked_out : ℕ → AuthOutcome
  error : Message → AuthOutcome
  cancelled : AuthOutcome

-- `dyn Authenticator`.
abbrev pub Authenticator : Type 0
Authenticator = AuthRequest → Result (Unit {0})

-- The `pam` crate. A call fails with the text of its error.
pub data PamReply {ℓ} (A : Type ℓ) : Type ℓ where
  done : A → PamReply A
  refused : Message → PamReply A

pub record PamLib : Type 1 where
  pub Client : Type 0
  pub with_password : Text → PamReply Client
  pub set_credentials : Text → Text → Client → Client
  pub authenticate : Client → PamReply (Unit {0})
  pub open_session : Client → PamReply (Unit {0})

abbrev pub map_err {ℓ} : {A : Type ℓ} → (Message → SessionError) → PamReply A → Result A
map_err f (done a) = ok a
map_err f (refused e) = err (f e)

-- `PamAuthenticator { service }`.
unfoldable pub pam_authenticate : PamLib → Text → Authenticator
pam_authenticate lib service request =
    if is_empty request.password then err (auth_failed (lit "empty password" ∷ [])) else do
      client ← map_err pam (lib.with_password service)
      let armed = lib.set_credentials request.user_name request.password client
      checked ← map_err auth_failed (lib.authenticate armed)
      opened ← map_err pam (lib.open_session armed)
      ok tt

-- A failed attempt, with the counter after its increment.
failed_outcome : AuthPolicy → ℕ → AuthOutcome
failed_outcome policy attempts =
    if leb policy.max_attempts attempts
    then locked_out policy.lockout
    else failure (policy.max_attempts - attempts)

-- `check`: the outcome, and the caller's attempt counter after the call.
unfoldable pub check : Authenticator → AuthRequest → AuthPolicy → ℕ → AuthOutcome × ℕ
unfolding failed_outcome
check authenticator request policy attempts_so_far = elim (authenticator request) [
  | ok _ ↦ (success, 0)
  | err _ ↦ (failed_outcome policy (inc_u32 attempts_so_far), inc_u32 attempts_so_far)
]
