-- ===== src/Users/Groups.antt =====
-- src/user/groups.rs: the groups of a user, from the account database and the group file. What
-- reading the file gave is a parameter.
pub mod File
pub mod Merge
use mitos_session.Base.{
  Text, same_text, Message, ℕ, zero, suc, Bool, ◌||◌, Option, none, some, List, [], ◌∷◌, ◌++◌,
  if◌then◌else◌, is_empty, any, contains,
}
use mitos_session.Base.Lines.{split, lines, starts_with, trim, parse_u32}
use mitos_session.Errors.{Result, ok, err, ◌>>=◌, io}
use mitos_session.Users.{Accounts, by_name}

-- What `fs::read_to_string` gave: the file, that there is none, or another error.
pub data Contents : Type 0 where
  readable : Text → Contents
  missing : Contents
  unreadable : Message → Contents

-- `fields.next().unwrap_or_default()`, for the field at an index.
abbrev pub field : ℕ → List Text → Text
field n [] = []
field zero (part ∷ parts) = part
field (suc n) (part ∷ parts) = field n parts

abbrev pub is_member : Text → Text → Bool
is_member name members = any (λ m. same_text m name) (split 44 members)

-- One line of the file: the gid, if the user is a member and the field is a number.
abbrev pub line_gid : Text → Text → Option ℕ
line_gid name line =
    if is_empty line || starts_with 35 line
    then none
    else if is_member name (field 3 (split 58 line))
    then parse_u32 (field 2 (split 58 line))
    else none

-- The loop over the lines.
abbrev pub line_gids : Text → List Text → List ℕ
line_gids name [] = []
line_gids name (line ∷ rest) = elim (line_gid name (trim line)) [
  | none ↦ line_gids name rest
  | some gid ↦ gid ∷ line_gids name rest
]

unfoldable pub gids_from_group_file : Contents → Text → Result (List ℕ)
unfolding parse_u32
gids_from_group_file (readable raw) name = ok (line_gids name (lines raw))
gids_from_group_file missing name = ok []
gids_from_group_file (unreadable e) name = err (io e)

-- `if !gids.contains(&gid) { gids.push(gid); }` for each.
abbrev pub push_new : List ℕ → List ℕ → List ℕ
push_new gids [] = gids
push_new gids (gid ∷ rest) = push_new (if contains gids gid then gids else gids ++ (gid ∷ [])) rest

unfoldable pub supplementary_gids : Accounts → Contents → Text → Result (List ℕ)
unfolding gids_from_group_file by_name
supplementary_gids accounts group_file name = do
  entry ← by_name accounts name
  gids ← gids_from_group_file group_file name
  ok (push_new (entry.gid ∷ []) gids)
