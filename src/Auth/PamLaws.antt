-- ===== src/Auth/PamLaws.antt =====
-- The order of the checks in `PamAuthenticator::authenticate` (src/authentication/authenticator.rs).
use mitos_session.Base.{◌≡◌, refl, ◌↔◌, ◌⊎◌, inl, inr, false, arith, is_empty, Text, Message}
use mitos_session.Errors.{ok}
use mitos_session.Auth.{AuthRequest, PamReply, done, refused, PamLib, pam_authenticate}

reply_cases {ℓ} :
    {A : Type ℓ} (r : PamReply A) → ((a : A) × (r ≡ done a)) ⊎ ((m : Message) × (r ≡ refused m))
reply_cases (done a) = inl (a, refl)
reply_cases (refused m) = inr (m, refl)

-- A credential is accepted exactly when it is not empty and the library accepts every step: the
-- client, the password of that account, and the PAM session.
pub pam_authenticate-ok_iff :
    (lib : PamLib) (service : Text) (r : AuthRequest)
    → (pam_authenticate lib service r ≡ ok tt) ↔ (
        (is_empty r.password ≡ false)
        × ((c : lib.Client) × (lib.with_password service ≡ done c)
            × (lib.authenticate (lib.set_credentials r.user_name r.password c) ≡ done tt)
            × (lib.open_session (lib.set_credentials r.user_name r.password c) ≡ done tt)))
unfolding pam_authenticate
pam_authenticate-ok_iff lib service r = (
  λ h. (
    ground arith,
    elim (reply_cases (lib.with_password service)) [
      | inl (c, e) ↦ (c, e, ground arith, ground arith)
      | inr (m, e) ↦ ground arith
    ],
  ),
  λ h. ground arith,
)
