-- ===== src/Auth/Check.antt =====
-- The attempt counter of `authentication::check` against its specification.
use mitos_session.Base.{
  ℕ, zero, suc, ◌+◌, ◌-◌, ◌≤◌, ◌<◌, ◌≡◌, ◌↔◌, ◌⊎◌, inl, inr, List, [], ◌∷◌, arith, leb, Bool-cases,
  length,
}
use mitos_session.Errors.{SessionError, ok, err, Result-cases}
use mitos_session.Auth.{
  AuthPolicy, AuthRequest, AuthOutcome, success, failure, locked_out, Authenticator, check,
}

-- What an attempt does to the outcome and the counter, on every branch, for a counter that does not
-- wrap: an accepted credential resets the counter; a rejected one counts, locks out when the limit
-- is reached, and otherwise reports how many attempts remain, at least one.
pub check_lem :
    (a : Authenticator) (r : AuthRequest) (p : AuthPolicy) (n : ℕ)
    → n + 1 < 4294967296
    → ((a r ≡ ok tt) × (check a r p n ≡ (success, 0)))
      ⊎ ((e : SessionError) × (a r ≡ err e)
          × (p.max_attempts ≤ n + 1)
          × (check a r p n ≡ (locked_out p.lockout, n + 1)))
      ⊎ ((e : SessionError) × (a r ≡ err e)
          × (left : ℕ) × (n + 1 + suc left ≡ p.max_attempts)
          × (check a r p n ≡ (failure (suc left), n + 1)))
unfolding check
check_lem a r p n h = elim (Result-cases (a r)) [
  | inl (_, e) ↦ inl (ground arith, ground arith)
  | inr (x, e) ↦ inr (elim (Bool-cases (leb p.max_attempts (n + 1))) [
    | inl full ↦ inl (x, e, ground arith, ground arith)
    | inr room ↦ inr (x, e, p.max_attempts - (n + 2), ground arith, ground arith)
  ])
]

-- A rejected credential never ends as a success, and only a rejected one ends otherwise.
pub check-success_iff :
    (a : Authenticator) (r : AuthRequest) (p : AuthPolicy) (n : ℕ)
    → ((check a r p n).0 ≡ success) ↔ (a r ≡ ok tt)
unfolding check
check-success_iff a r p n = (
  λ h. elim (Result-cases (a r)) [ inl (_, e) ↦ e | inr (x, e) ↦ ground arith ],
  λ e. ground arith,
)

-- `k` attempts in a row: the outcomes, the oldest first, and the counter at the end.
abbrev pub attempt_all : Authenticator → AuthPolicy → ℕ → List AuthRequest → List AuthOutcome × ℕ
attempt_all a p n [] = ([], n)
attempt_all a p n (r ∷ rs) =
    let (os, m) = attempt_all a p (check a r p n).1 rs in ((check a r p n).0 ∷ os, m)

-- The outcomes of a run of rejected guesses that starts at counter `n` with `left` guesses to go
-- before the lockout.
abbrev pub countdown : ℕ → ℕ → List AuthRequest → List AuthOutcome
countdown secs left [] = []
countdown secs zero (r ∷ rs) = locked_out secs ∷ countdown secs zero rs
countdown secs (suc left) (r ∷ rs) = failure (suc left) ∷ countdown secs left rs

-- For a counter that does not wrap: with `left` guesses to go before the lockout, a run of rejected guesses counts down one by one
-- and is locked out from then on; no guess is free and none is counted twice.
pub attempt_all-countdown :
    (a : Authenticator) (p : AuthPolicy) (n left : ℕ) (rs : List AuthRequest)
    → ((r : AuthRequest) → (e : SessionError) × (a r ≡ err e))
    → left ≡ p.max_attempts - (n + 1)
    → n + length rs < 4294967296
    → attempt_all a p n rs ≡ (countdown p.lockout left rs, n + length rs)
unfolding check
attempt_all-countdown a p n left [] rejects h fits = ground arith
attempt_all-countdown a p n zero (r ∷ rs) rejects h fits =
    let (x, e) = rejects r in
    ground (arith, e, attempt_all-countdown a p (n + 1) zero rs rejects (omega arith) (omega arith))
attempt_all-countdown a p n (suc left) (r ∷ rs) rejects h fits =
    let (x, e) = rejects r in
    ground (arith, e, attempt_all-countdown a p (n + 1) left rs rejects (omega arith) (omega arith))
