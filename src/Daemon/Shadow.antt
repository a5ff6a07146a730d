-- ===== src/Daemon/Shadow.antt =====
-- `user_has_password` (src/main.rs) over the bytes of /etc/shadow.
use mitos_session.Base.{
  Text, bytes, same_text, Bool, true, not, ◌||◌, Option, none, some, List, [], ◌∷◌, if◌then◌else◌,
  is_empty,
}
use mitos_session.Base.Lines.{split, lines, starts_with}

-- Whether a hash stands for no usable password.
abbrev pub disabled : Text → Bool
disabled hash =
    is_empty hash
    || same_text hash (bytes "!")
    || same_text hash (bytes "*")
    || same_text hash (bytes "!!")
    || starts_with 33 hash

-- One line: no answer where it has no second field or names someone else.
abbrev pub has_usable : Text → List Text → Option Bool
has_usable username [] = none
has_usable username (name ∷ []) = none
has_usable username (name ∷ hash ∷ parts) =
    if same_text name username then some (not (disabled hash)) else none

abbrev pub or_next : Option Bool → Bool → Bool
or_next none rest = rest
or_next (some answer) rest = answer

-- The loop over the lines.
abbrev pub search_lines : Text → List Text → Bool
search_lines username [] = true
search_lines username (line ∷ rest) =
    or_next (has_usable username (split 58 line)) (search_lines username rest)

-- `content` is what reading the file gave, if it could be read.
unfoldable pub user_has_password : Option Text → Text → Bool
user_has_password none username = true
user_has_password (some content) username = search_lines username (lines content)
