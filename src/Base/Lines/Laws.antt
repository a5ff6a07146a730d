-- ===== src/Base/Lines/Laws.antt =====
-- Splitting and trimming texts that are free of the separators.
use Prim.Native.Nat.{ℕ}
use mathlib.Core.Path.{◌≡◌, refl, ap, ◌∙◌}
use mathlib.Core.Logic.{◌≢◌, inl, inr}
use mathlib.Core.Bool.{false}
use mathlib.Core.List.{List, [], ◌∷◌, ◌++◌}
use native.Mathlib.Omega.{arith}
use mitos_session.Base.Tests.{◌==◌, Bool-cases}
use mitos_session.Base.Texts.{Text}
use mitos_session.Base.Lines.{
  split, strip_return, break_lines, is_space, trim, trim_start, trim_end,
}

-- The text has none of the byte.
abbrev pub Free : ℕ → Text → Type 0
Free c [] = Unit
Free c (x ∷ xs) = (x ≢ c) × Free c xs

pub Free-append : (c : ℕ) (xs ys : Text) → Free c xs → Free c ys → Free c (xs ++ ys)
Free-append c [] ys h k = k
Free-append c (x ∷ xs) ys h k = (h.0, Free-append c xs ys h.1 k)

pub split-append : (c : ℕ) (xs ys : Text) → Free c xs → split c (xs ++ (c ∷ ys)) ≡ xs ∷ split c ys
split-append c [] ys h = ground arith
split-append c (x ∷ xs) ys h = ground (arith, split-append c xs ys h.1, h.0)

pub split-some : (c : ℕ) (xs : Text) → (p : Text) × (ps : List Text) × (split c xs ≡ p ∷ ps)
split-some c [] = ([], [], refl)
split-some c (x ∷ xs) =
    let (p, ps, e) = split-some c xs in
    elim (Bool-cases (x == c)) [
      | inl h ↦ ([], split c xs, ground arith)
      | inr h ↦ (x ∷ p, ps, ground (arith, e))
    ]

pub strip-Free : (xs : Text) → Free 13 xs → strip_return xs ≡ xs
strip-Free [] h = refl
strip-Free (x ∷ []) h = ground arith
strip-Free (x ∷ y ∷ xs) h = ground (arith, strip-Free (y ∷ xs) h.1)

pub break-append :
    (line rest : Text)
    → Free 13 line
    → break_lines (line ∷ split 10 rest) ≡ line ∷ break_lines (split 10 rest)
break-append line rest h =
    let (p, ps, e) = split-some 10 rest in
    rw e (ap (λ l. l ∷ break_lines (p ∷ ps)) (strip-Free line h))

-- No byte is white space.
abbrev pub NoSpace : Text → Type 0
NoSpace [] = Unit
NoSpace (x ∷ xs) = (is_space x ≡ false) × NoSpace xs

trim_end-NoSpace : (xs : Text) → NoSpace xs → trim_end xs ≡ xs
trim_end-NoSpace [] h = refl
trim_end-NoSpace (x ∷ []) h = ground (arith, h.0)
trim_end-NoSpace (x ∷ y ∷ xs) h = rw (trim_end-NoSpace (y ∷ xs) h.1) refl

pub trim-NoSpace : (xs : Text) → NoSpace xs → trim xs ≡ xs
trim-NoSpace [] h = refl
trim-NoSpace (x ∷ xs) h =
    let kept : trim_start (x ∷ xs) ≡ x ∷ xs = rw h.0 refl in
    ap trim_end kept ∙ trim_end-NoSpace (x ∷ xs) h
