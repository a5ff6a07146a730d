-- ===== src/Base/Texts.antt =====
-- Text is its UTF-8 bytes, as the source compares and measures it. A formatted message is the list
-- of its pieces, before they are rendered.
use Prim.Native.Nat.{ℕ}
use Prim.Native.Char.{code}
use Prim.Native.String.{String}
use mathlib.Core.Path.{◌≡◌, refl}
use mathlib.Core.Bool.{Bool, true, false, ◌&&◌}
use mathlib.Core.List.{List, [], ◌∷◌}
use native.Mathlib.Omega.{arith}
use mitos_session.Base.Tests.{◌==◌}

abbrev pub Text : Type 0
Text = List ℕ

-- The bytes of an ASCII literal.
abbrev pub bytes : String → Text
bytes String.[] = []
bytes (String.◌∷◌ c s) = code c ∷ bytes s

abbrev pub same_text : Text → Text → Bool
same_text [] [] = true
same_text [] (y ∷ ys) = false
same_text (x ∷ xs) [] = false
same_text (x ∷ xs) (y ∷ ys) = x == y && same_text xs ys

pub same_text_eq : (s t : Text) → same_text s t ≡ true → s ≡ t
same_text_eq [] [] h = refl
same_text_eq [] (y ∷ ys) h = cc
same_text_eq (x ∷ xs) [] h = cc
same_text_eq (x ∷ xs) (y ∷ ys) h = ground (arith, same_text_eq xs ys)

pub same_text_self : (s : Text) → same_text s s ≡ true
same_text_self [] = refl
same_text_self (x ∷ xs) = ground (arith, same_text_self xs)

-- One piece of a `format!` call: literal text, a number, or a string that is put in.
pub data Piece : Type 0 where
  lit : String → Piece
  num : ℕ → Piece
  txt : Text → Piece

abbrev pub Message : Type 0
Message = List Piece

pub differ : (s t : Text) → same_text s t ≡ false → s ≡ t → ⊥
differ s t e p = ground (arith, e, p, same_text_self t)

-- Equality of texts, which computes.
abbrev pub decide_text : (s t : Text) (b : Bool) → same_text s t ≡ b → Dec (s ≡ t)
decide_text s t true e = yes (same_text_eq s t e)
decide_text s t false e = no (differ s t e)

unfoldable pub text_discrete : Discrete Text
text_discrete s t = decide_text s t (same_text s t) refl
