-- ===== src/Base/Lines.antt =====
-- `str::split`, `str::lines`, `str::trim` and `str::parse` over the bytes of a text.
pub mod Laws
pub mod Decimal
use Prim.Native.Nat.{ℕ, ◌+◌, ◌*◌, ◌-◌}
use mathlib.Core.Bool.{Bool, true, false, ◌&&◌, ◌||◌}
use mathlib.Core.Option.{Option, none, some}
use mathlib.Core.List.{List, [], ◌∷◌}
use mitos_session.Base.Tests.{if◌then◌else◌, ◌==◌, ltb, leb}
use mitos_session.Base.Lists.{is_empty}
use mitos_session.Base.Texts.{Text}

-- `str::split(c)`: never empty.
abbrev pub push_byte : ℕ → List Text → List Text
push_byte x [] = (x ∷ []) ∷ []
push_byte x (part ∷ parts) = (x ∷ part) ∷ parts

abbrev pub split : ℕ → Text → List Text
split c [] = [] ∷ []
split c (x ∷ xs) = let rest = split c xs in if x == c then [] ∷ rest else push_byte x rest

-- A line break may be "\r\n".
abbrev pub strip_return : Text → Text
strip_return [] = []
strip_return (x ∷ []) = if x == 13 then [] else x ∷ []
strip_return (x ∷ y ∷ xs) = x ∷ strip_return (y ∷ xs)

-- The lines of a split text: what follows the last break is a line only if it is not empty.
abbrev pub break_lines : List Text → List Text
break_lines [] = []
break_lines (part ∷ []) = if is_empty part then [] else part ∷ []
break_lines (part ∷ next ∷ parts) = strip_return part ∷ break_lines (next ∷ parts)

-- `str::lines`.
abbrev pub lines : Text → List Text
lines content = break_lines (split 10 content)

abbrev pub starts_with : ℕ → Text → Bool
starts_with c [] = false
starts_with c (x ∷ xs) = x == c

-- White space: the six ASCII characters that `char::is_whitespace` accepts; Unicode has more.
abbrev pub is_space : ℕ → Bool
is_space c = (leb 9 c && leb c 13) || c == 32

abbrev pub trim_start : Text → Text
trim_start [] = []
trim_start (x ∷ xs) = let rest = trim_start xs in if is_space x then rest else x ∷ xs

abbrev pub push_unless_end : ℕ → Text → Text
push_unless_end x [] = if is_space x then [] else x ∷ []
push_unless_end x (y ∷ ys) = x ∷ y ∷ ys

abbrev pub trim_end : Text → Text
trim_end [] = []
trim_end (x ∷ xs) = push_unless_end x (trim_end xs)

abbrev pub trim : Text → Text
trim s = trim_end (trim_start s)

-- `str::parse::<u32>`: digits, behind one plus sign at most, whose value fits.
abbrev pub is_digit : ℕ → Bool
is_digit c = leb 48 c && leb c 57

abbrev pub scan_u32 : ℕ → Text → Option ℕ
scan_u32 n [] = some n
scan_u32 n (c ∷ cs) =
    let next = n * 10 + (c - 48) in
    let rest = scan_u32 next cs in if is_digit c && ltb next 4294967296 then rest else none

abbrev pub parse_digits : Text → Option ℕ
parse_digits [] = none
parse_digits (c ∷ cs) = scan_u32 0 (c ∷ cs)

unfoldable pub parse_u32 : Text → Option ℕ
parse_u32 [] = none
parse_u32 (c ∷ cs) = if c == 43 then parse_digits cs else parse_digits (c ∷ cs)
