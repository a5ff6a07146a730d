-- ===== src/Daemon/Entries.antt =====
-- `user_has_password` (src/main.rs) on a well-formed /etc/shadow.
use mitos_session.Base.{
  Text, same_text, ℕ, ◌≡◌, refl, ap, ◌∙◌, ◌≢◌, Bool, true, not, ◌||◌, ◌==◌, some, List, [], ◌∷◌,
  ◌++◌, arith, if◌then◌else◌, All,
}
use mitos_session.Base.Lines.{split, break_lines, lines}
use mitos_session.Base.Lines.Laws.{Free, Free-append, split-append, break-append}
use mitos_session.Daemon.Shadow.{disabled, search_lines, user_has_password}

-- An entry of the file: a name, a hash and the rest of the line.
pub record ShadowEntry : Type 0 where
  pub name : Text
  pub hash : Text
  pub rest : Text

abbrev pub print_line : ShadowEntry → Text
print_line e = e.name ++ (58 ∷ (e.hash ++ (58 ∷ e.rest)))

-- The file: each line is ended by a line break.
abbrev pub print_file : List ShadowEntry → Text
print_file [] = []
print_file (e ∷ es) = print_line e ++ (10 ∷ print_file es)

-- No field has a line break or a carriage return, and a name and a hash have no colon.
abbrev pub Clean : ShadowEntry → Type 0
Clean e =
    (Free 58 e.name × Free 58 e.hash)
    × (Free 10 e.name × Free 10 e.hash × Free 10 e.rest)
    × (Free 13 e.name × Free 13 e.hash × Free 13 e.rest)

-- A hash that no password has: it is empty, it starts with `!`, or it is `*`.
abbrev pub unusable : Text → Bool
unusable [] = true
unusable (c ∷ []) = c == 33 || c == 42
unusable (c ∷ d ∷ rest) = c == 33

-- What a list of entries says of a user: its first entry decides, and without one the user counts as
-- having a password.
abbrev pub first_entry : Text → List ShadowEntry → Bool
first_entry username [] = true
first_entry username (e ∷ es) =
    if same_text e.name username then not (unusable e.hash) else first_entry username es

line-Free :
    (c : ℕ) (e : ShadowEntry)
    → 58 ≢ c
    → Free c e.name
    → Free c e.hash
    → Free c e.rest
    → Free c (print_line e)
line-Free c e colon n h r =
    Free-append c e.name (58 ∷ (e.hash ++ (58 ∷ e.rest))) n
      (colon, Free-append c e.hash (58 ∷ e.rest) h (colon, r))

abbrev print_lines : List ShadowEntry → List Text
print_lines [] = []
print_lines (e ∷ es) = print_line e ∷ print_lines es

lines-print_file : (es : List ShadowEntry) → All Clean es → lines (print_file es) ≡ print_lines es
lines-print_file [] h = refl
lines-print_file (e ∷ es) (clean, h) =
    let (colons, breaks, returns) = clean in
    let at_break =
      split-append 10 (print_line e) (print_file es)
        (line-Free 10 e (omega arith) breaks.0 breaks.1 breaks.2) in
    ap break_lines at_break
    ∙ break-append (print_line e) (print_file es)
        (line-Free 13 e (omega arith) returns.0 returns.1 returns.2)
    ∙ ap (λ ls. print_line e ∷ ls) (lines-print_file es h)

split-print_line :
    (e : ShadowEntry)
    → Free 58 e.name
    → Free 58 e.hash
    → split 58 (print_line e) ≡ e.name ∷ e.hash ∷ split 58 e.rest
split-print_line e n h =
    split-append 58 e.name (e.hash ++ (58 ∷ e.rest)) n
    ∙ ap (λ ls. e.name ∷ ls) (split-append 58 e.hash e.rest h)

disabled_lem : (hash : Text) → disabled hash ≡ unusable hash
disabled_lem [] = refl
disabled_lem (c ∷ []) = ground arith
disabled_lem (c ∷ d ∷ []) = ground arith
disabled_lem (c ∷ d ∷ e ∷ rest) = ground arith

search-print_lines :
    (u : Text) (es : List ShadowEntry)
    → All Clean es
    → search_lines u (print_lines es) ≡ first_entry u es
search-print_lines u [] h = refl
search-print_lines u (e ∷ es) (clean, h) =
    ground (
      arith,
      split-print_line e clean.0.0 clean.0.1,
      search-print_lines u es h,
      disabled_lem e.hash,
    )

-- On a file of well-formed entries the answer is that of the first entry of the user: no password if
-- its hash is empty, is `*` or starts with `!`, and a password otherwise; a user without an entry
-- counts as having one.
pub user_has_password-print_file :
    (u : Text) (es : List ShadowEntry)
    → All Clean es
    → user_has_password (some (print_file es)) u ≡ first_entry u es
unfolding user_has_password
user_has_password-print_file u es h =
    ap (search_lines u) (lines-print_file es h) ∙ search-print_lines u es h
