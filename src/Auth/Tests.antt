-- ===== src/Auth/Tests.antt =====
-- The theorems on authentication at concrete inputs.
use mitos_session.Base.{
  ℕ, suc, ◌+◌, ◌≤◌, ◌≡◌, refl, ◌↔◌, ◌⊎◌, false, [], ◌∷◌, arith, if◌then◌else◌, is_empty, Text,
  bytes, same_text,
}
use mitos_session.Errors.{SessionError, auth_failed, ok, err}
use mitos_session.Auth.{
  AuthPolicy, AuthRequest, AuthOutcome, Authenticator, done, refused, PamLib, pam_authenticate,
  check,
}
use mitos_session.Auth.Check.{check_lem, attempt_all, attempt_all-countdown}
use mitos_session.Auth.PamLaws.{pam_authenticate-ok_iff}

abbrev pub three_tries : AuthPolicy
three_tries = record {
  pam_service = bytes "login";
  allow_empty_password = false;
  max_attempts = 3;
  lockout = 30;
}

abbrev pub guess : ℕ → Text → AuthRequest
guess s password = record { session_id = s; user_name = bytes "ada"; password = password }

abbrev pub rejects : Authenticator
rejects r = err (auth_failed [])

abbrev pub accepts : Authenticator
accepts r = ok tt

attempt_all-countdown_example :
    attempt_all rejects three_tries 0 (guess 1 [] ∷ guess 1 [] ∷ guess 1 [] ∷ guess 1 [] ∷ []) ≡ (
      AuthOutcome.failure 2
          ∷ AuthOutcome.failure 1
          ∷ AuthOutcome.locked_out 30
          ∷ AuthOutcome.locked_out 30
          ∷ [],
      4,
    )
attempt_all-countdown_example =
    attempt_all-countdown rejects three_tries 0 2
      (guess 1 [] ∷ guess 1 [] ∷ guess 1 [] ∷ guess 1 [] ∷ []) (λ r. (auth_failed [], refl)) refl
      (omega arith)

-- A library that accepts one password.
abbrev one_password : PamLib
one_password = record {
  Client = Text;
  with_password = λ service. done [];
  set_credentials = λ name password c. password;
  authenticate = λ c. if same_text c (bytes "open") then done tt else refused [];
  open_session = λ c. done tt;
}

pam_authenticate-ok_iff_example :
    (pam_authenticate one_password (bytes "login") (guess 1 (bytes "open")) ≡ ok tt) ↔ (
      (is_empty (bytes "open") ≡ false)
      × ((c : Text) × (done [] ≡ done c)
          × (one_password.authenticate (bytes "open") ≡ done tt)
          × (one_password.open_session (bytes "open") ≡ done tt)))
pam_authenticate-ok_iff_example =
    pam_authenticate-ok_iff one_password (bytes "login") (guess 1 (bytes "open"))

check_lem_example :
    ((accepts (guess 1 []) ≡ ok tt)
      × (check accepts (guess 1 []) three_tries 2 ≡ (AuthOutcome.success, 0)))
    ⊎ ((e : SessionError) × (accepts (guess 1 []) ≡ err e)
        × (3 ≤ 3)
        × (check accepts (guess 1 []) three_tries 2 ≡ (AuthOutcome.locked_out 30, 3)))
    ⊎ ((e : SessionError) × (accepts (guess 1 []) ≡ err e)
        × (left : ℕ) × (3 + suc left ≡ 3)
        × (check accepts (guess 1 []) three_tries 2 ≡ (AuthOutcome.failure (suc left), 3)))
check_lem_example = check_lem accepts (guess 1 []) three_tries 2 (omega arith)
