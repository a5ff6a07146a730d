-- ===== src/Base/Lines/Decimal.antt =====
-- Printing a u32 and parsing it again.
use Prim.Native.Nat.{ℕ, zero, suc, ◌+◌, ◌*◌, ◌/◌, ◌%◌, ◌<◌}
use mathlib.Core.Path.{◌≡◌, refl, ◌∙◌}
use mathlib.Core.Logic.{◌⊎◌, inl, inr}
use mathlib.Core.Bool.{true}
use mathlib.Core.Option.{some}
use mathlib.Core.List.{[], ◌∷◌}
use native.Mathlib.Omega.{arith}
use mitos_session.Base.Tests.{if◌then◌else◌, ◌==◌, Bool-cases}
use mitos_session.Base.Lists.{All}
use mitos_session.Base.Texts.{Text}
use mitos_session.Base.Lines.{scan_u32, is_digit, parse_u32}
use mitos_session.Base.Lines.Laws.{Free, NoSpace}

-- The digits of a number before `behind`; ten are enough for a u32.
abbrev pub digits_before : ℕ → ℕ → Text → Text
digits_before zero n behind = behind
digits_before (suc more) n behind =
    let d = 48 + n % 10 in
    let rest = digits_before more (n / 10) (d ∷ behind) in if n / 10 == 0 then d ∷ behind else rest

-- `u32::to_string`.
unfoldable pub decimal : ℕ → Text
decimal n = digits_before 10 n []

abbrev bound : ℕ → ℕ
bound zero = 1
bound (suc more) = 10 * bound more

scan-digits_before :
    (more n : ℕ) (behind : Text)
    → 0 < more
    → n < bound more
    → n < 4294967296
    → scan_u32 0 (digits_before more n behind) ≡ scan_u32 n behind
scan-digits_before zero n behind pos h fits = absurd (omega arith)
scan-digits_before (suc zero) n behind pos h fits = ground arith
scan-digits_before (suc (suc more)) n behind pos h fits =
    let d = 48 + n % 10 in
    elim (Bool-cases (n / 10 == 0)) [
      | inl e ↦ ground (arith, e)
      | inr e ↦ rw e (
          scan-digits_before (suc more) (n / 10) (d ∷ behind) (omega arith) (omega arith)
            (omega arith)
          ∙ ground arith)
    ]

-- Each byte is a digit, and there is one at least.
abbrev AllDigits : Text → Type 0
AllDigits = All (λ c. is_digit c ≡ true)

digits_before-AllDigits :
    (more n : ℕ) (behind : Text) → AllDigits behind → AllDigits (digits_before more n behind)
digits_before-AllDigits zero n behind h = h
digits_before-AllDigits (suc more) n behind h =
    let d = 48 + n % 10 in
    let h' : AllDigits (d ∷ behind) = (ground arith, h) in
    elim (Bool-cases (n / 10 == 0)) [
      | inl e ↦ rw e h'
      | inr e ↦ rw e (digits_before-AllDigits more (n / 10) (d ∷ behind) h')
    ]

digits_before-cons :
    (more n : ℕ) (behind : Text)
    → (c : ℕ) × (cs : Text) × (digits_before (suc more) n behind ≡ c ∷ cs)
digits_before-cons zero n behind = (48 + n % 10, behind, ground arith)
digits_before-cons (suc more) n behind =
    let d = 48 + n % 10 in
    elim (Bool-cases (n / 10 == 0)) [
      | inl e ↦ (d, behind, rw e refl)
      | inr e ↦ let (c, cs, q) = digits_before-cons more (n / 10) (d ∷ behind) in (c, cs, rw e q)
    ]

parse-digits :
    (s : Text) (c : ℕ) (cs : Text) (n : ℕ)
    → s ≡ c ∷ cs
    → AllDigits s
    → scan_u32 0 s ≡ some n
    → parse_u32 s ≡ some n
unfolding parse_u32
parse-digits s c cs n shape h e =
    let h' : AllDigits (c ∷ cs) = rw shape at h in
    let e' : scan_u32 0 (c ∷ cs) ≡ some n = rw shape at e in rw shape (ground (arith, h'.0, e'))

decimal-AllDigits : (n : ℕ) → AllDigits (decimal n)
unfolding decimal
decimal-AllDigits n = digits_before-AllDigits 10 n [] tt

-- A printed u32 is parsed as the same number.
pub parse_u32-decimal : (n : ℕ) → n < 4294967296 → parse_u32 (decimal n) ≡ some n
unfolding decimal
parse_u32-decimal n h =
    let (c, cs, shape) = digits_before-cons 9 n [] in
    parse-digits (decimal n) c cs n shape (decimal-AllDigits n)
      (scan-digits_before 10 n [] (omega arith) (omega arith) h)

AllDigits-Free : (k : ℕ) (s : Text) → k < 48 ⊎ (57 < k) → AllDigits s → Free k s
AllDigits-Free k [] out h = tt
AllDigits-Free k (c ∷ cs) out h = (λ p. ground (arith, p, out, h.0), AllDigits-Free k cs out h.1)

AllDigits-NoSpace : (s : Text) → AllDigits s → NoSpace s
AllDigits-NoSpace [] h = tt
AllDigits-NoSpace (c ∷ cs) h = (ground (arith, h.0), AllDigits-NoSpace cs h.1)

pub decimal-Free : (k n : ℕ) → k < 48 ⊎ (57 < k) → Free k (decimal n)
decimal-Free k n out = AllDigits-Free k (decimal n) out (decimal-AllDigits n)

pub decimal-NoSpace : (n : ℕ) → NoSpace (decimal n)
decimal-NoSpace n = AllDigits-NoSpace (decimal n) (decimal-AllDigits n)
