-- ===== src/Users/Groups/File.antt =====
-- `gids_from_group_file` (src/user/groups.rs) on a well-formed group file.
use mitos_session.Base.{
  Text, same_text, ℕ, ◌<◌, ◌≡◌, refl, ap, ◌∙◌, ◌≢◌, inr, Bool, true, false, ◌||◌, none, some, List,
  [], ◌∷◌, ◌++◌, arith, if◌then◌else◌, is_empty, any, All,
}
use mitos_session.Base.Lines.{split, break_lines, lines, starts_with, is_space, trim}
use mitos_session.Base.Lines.Laws.{
  Free, Free-append, split-append, break-append, NoSpace, trim-NoSpace,
}
use mitos_session.Base.Lines.Decimal.{decimal, parse_u32-decimal, decimal-Free, decimal-NoSpace}
use mitos_session.Errors.{ok}
use mitos_session.Users.Groups.{readable, is_member, line_gid, line_gids, gids_from_group_file}

-- An entry of the file.
pub record Group : Type 0 where
  pub name : Text
  pub passwd : Text
  pub gid : ℕ
  pub members : List Text

abbrev pub join : List Text → Text
join [] = []
join (m ∷ []) = m
join (m ∷ n ∷ ms) = m ++ (44 ∷ join (n ∷ ms))

abbrev pub after_passwd : Group → Text
after_passwd g = decimal g.gid ++ (58 ∷ join g.members)

abbrev pub after_name : Group → Text
after_name g = g.passwd ++ (58 ∷ after_passwd g)

abbrev pub print_group : Group → Text
print_group g = g.name ++ (58 ∷ after_name g)

-- The file: each line is ended by a line break.
abbrev pub print_groups : List Group → Text
print_groups [] = []
print_groups (g ∷ gs) = print_group g ++ (10 ∷ print_groups gs)

-- A field: no white space and no separator.
abbrev pub Plain : Text → Type 0
Plain s = NoSpace s × Free 58 s × Free 44 s

-- The name is not empty and starts no comment, and the gid is a u32.
abbrev pub IsWellFormed : Group → Type 0
IsWellFormed g =
    Plain g.name
    × Plain g.passwd
    × All Plain g.members
    × (is_empty g.name ≡ false)
    × (starts_with 35 g.name ≡ false)
    × (g.gid < 4294967296)

abbrev pub has_member : Text → List Text → Bool
has_member name members = any (λ m. same_text m name) members

-- What the entries say: the gid of each that lists the user.
abbrev pub gids_of : Text → List Group → List ℕ
gids_of name [] = []
gids_of name (g ∷ gs) =
    if has_member name g.members then g.gid ∷ gids_of name gs else gids_of name gs

NoSpace-append : (xs ys : Text) → NoSpace xs → NoSpace ys → NoSpace (xs ++ ys)
NoSpace-append [] ys h k = k
NoSpace-append (x ∷ xs) ys h k = (h.0, NoSpace-append xs ys h.1 k)

NoSpace-join : (ms : List Text) → All Plain ms → NoSpace (join ms)
NoSpace-join [] h = tt
NoSpace-join (m ∷ []) h = h.0.0
NoSpace-join (m ∷ n ∷ ms) h =
    NoSpace-append m (44 ∷ join (n ∷ ms)) h.0.0 (ground arith, NoSpace-join (n ∷ ms) h.1)

Free-join : (ms : List Text) → All Plain ms → Free 58 (join ms)
Free-join [] h = tt
Free-join (m ∷ []) h = h.0.1
Free-join (m ∷ n ∷ ms) h =
    Free-append 58 m (44 ∷ join (n ∷ ms)) h.0.1 (ground arith, Free-join (n ∷ ms) h.1)

-- A text without the separator is one part.
split-Free : (c : ℕ) (xs : Text) → Free c xs → split c xs ≡ xs ∷ []
split-Free c [] h = refl
split-Free c (x ∷ xs) h = ground (arith, h.0, split-Free c xs h.1)

split-join : (m : Text) (ms : List Text) → All Plain (m ∷ ms) → split 44 (join (m ∷ ms)) ≡ m ∷ ms
split-join m [] h = split-Free 44 m h.0.2
split-join m (n ∷ ms) h =
    split-append 44 m (join (n ∷ ms)) h.0.2 ∙ ap (λ parts. m ∷ parts) (split-join n ms h.1)

is_member-join :
    (name : Text) (ms : List Text)
    → name ≢ []
    → All Plain ms
    → is_member name (join ms) ≡ has_member name ms
is_member-join [] [] ne h = absurd (ne refl)
is_member-join (x ∷ xs) [] ne h = refl
is_member-join name (m ∷ ms) ne h = ap (any (λ k. same_text k name)) (split-join m ms h)

NoSpace-print : (g : Group) → IsWellFormed g → NoSpace (print_group g)
NoSpace-print g (name, passwd, members, ne, comment, fits) =
    NoSpace-append g.name (58 ∷ after_name g) name.0 (
      refl,
      NoSpace-append g.passwd (58 ∷ after_passwd g) passwd.0 (
        refl,
        NoSpace-append (decimal g.gid) (58 ∷ join g.members) (decimal-NoSpace g.gid)
            (refl, NoSpace-join g.members members),
      ),
    )

split-print :
    (g : Group)
    → IsWellFormed g
    → split 58 (print_group g) ≡ g.name ∷ g.passwd ∷ decimal g.gid ∷ join g.members ∷ []
split-print g (name, passwd, members, ne, comment, fits) =
    split-append 58 g.name (after_name g) name.1
    ∙ ap (λ parts. g.name ∷ parts)
        (split-append 58 g.passwd (after_passwd g) passwd.1
          ∙ ap (λ parts. g.passwd ∷ parts)
              (split-append 58 (decimal g.gid) (join g.members)
                  (decimal-Free 58 g.gid (inr (omega arith)))
                ∙ ap (λ parts. decimal g.gid ∷ parts)
                    (split-Free 58 (join g.members) (Free-join g.members members))))

NoSpace-Free : (c : ℕ) (xs : Text) → is_space c ≡ true → NoSpace xs → Free c xs
NoSpace-Free c [] space h = tt
NoSpace-Free c (x ∷ xs) space h =
    (λ p. ground (arith, ap is_space p, space, h.0), NoSpace-Free c xs space h.1)

abbrev print_lines : List Group → List Text
print_lines [] = []
print_lines (g ∷ gs) = print_group g ∷ print_lines gs

lines-print_groups :
    (gs : List Group) → All IsWellFormed gs → lines (print_groups gs) ≡ print_lines gs
lines-print_groups [] h = refl
lines-print_groups (g ∷ gs) h =
    let plain = NoSpace-print g h.0 in
    ap break_lines (
      split-append 10 (print_group g) (print_groups gs)
        (NoSpace-Free 10 (print_group g) refl plain))
    ∙ break-append (print_group g) (print_groups gs) (NoSpace-Free 13 (print_group g) refl plain)
    ∙ ap (λ ls. print_group g ∷ ls) (lines-print_groups gs h.1)

-- A line that is not empty and starts no comment is read as an entry.
head-print :
    (name rest : Text)
    → is_empty name ≡ false
    → starts_with 35 name ≡ false
    → (is_empty (name ++ rest) || starts_with 35 (name ++ rest)) ≡ false
head-print [] rest ne comment = absurd (ground (arith, ne))
head-print (x ∷ xs) rest ne comment = comment

line_gid-print :
    (name : Text) (g : Group)
    → name ≢ []
    → IsWellFormed g
    → line_gid name (trim (print_group g))
      ≡ (if has_member name g.members then some g.gid else none)
line_gid-print name g ne h =
    let (plain_name, _, members, named, comment, fits) = h in
    rw (trim-NoSpace (print_group g) (NoSpace-print g h)) (
      ground (
        arith,
        head-print g.name (58 ∷ after_name g) named comment,
        split-print g h,
        is_member-join name g.members ne members,
        parse_u32-decimal g.gid fits,
      ))

line_gids-print :
    (name : Text) (gs : List Group)
    → name ≢ []
    → All IsWellFormed gs
    → line_gids name (print_lines gs) ≡ gids_of name gs
line_gids-print name [] ne h = refl
line_gids-print name (g ∷ gs) ne h =
    ground (arith, line_gid-print name g ne h.0, line_gids-print name gs ne h.1)

-- On a file of well-formed entries the gids are those of the entries that list the user, in the
-- order of the file.
pub gids_from_group_file-print_groups :
    (name : Text) (gs : List Group)
    → name ≢ []
    → All IsWellFormed gs
    → gids_from_group_file (readable (print_groups gs)) name ≡ ok (gids_of name gs)
unfolding gids_from_group_file
gids_from_group_file-print_groups name gs ne h =
    ap (λ ls. ok (line_gids name ls)) (lines-print_groups gs h)
    ∙ ap ok (line_gids-print name gs ne h)
