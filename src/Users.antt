-- ===== src/Users.antt =====
-- src/user: accounts, home directories and supplementary groups. The account database
-- (`nix::unistd::User`), the file system and the group file are parameters.
pub mod Groups
pub mod Tests
use mitos_session.Base.{
  ℕ, ◌+◌, Bool, false, not, Option, none, some, [], ◌∷◌, ltb, ◌==◌, if◌then◌else◌, Text, lit, txt,
  Message,
}
use mitos_session.Errors.{permission_denied, unknown_user, Result, ok, err, ◌>>=◌, io, config}

-- `User`, as it is read from the account database.
pub record User : Type 0 where
  pub uid : ℕ
  pub gid : ℕ
  pub name : Text
  pub home : Text
  pub shell : Text

-- `nix::unistd::User::from_name` and `from_uid`: an entry, none, or an I/O error.
pub record Accounts : Type 0 where
  pub from_name : Text → Result (Option User)
  pub from_uid : ℕ → Result (Option User)

-- `User::by_name`.
unfoldable pub by_name : Accounts → Text → Result User
by_name accounts name = do
  entry ← accounts.from_name name
  elim entry [ none ↦ err (unknown_user name) | some u ↦ ok u ]

unfoldable pub is_root : User → Bool
is_root u = u.uid == 0

-- What `fs::metadata` says of a path.
pub data Metadata : Type 0 where
  found : ℕ → Bool → Metadata
  not_found : Metadata
  unreadable : Message → Metadata

-- `ensure_home_ready`: the calls that create a missing home directory, in order, are the parameter
-- `create`, whose result is the first error among them.
unfoldable pub ensure_home_ready : Metadata → Result (Unit {0}) → User → Result (Unit {0})
ensure_home_ready (found owner is_dir) create user =
    if not (owner == user.uid)
    then err (
        permission_denied
          (lit "home directory " ∷ txt user.home ∷ lit " is not owned by " ∷ txt user.name ∷ []))
    else if not is_dir
    then err (config (lit "home directory " ∷ txt user.home ∷ lit " is not a directory" ∷ []))
    else ok tt
ensure_home_ready not_found create user = create
ensure_home_ready (unreadable e) create user = err (io e)

-- user/account.rs. `SystemTime` is a number.
pub record Account : Type 0 where
  pub user : User
  pub last_login : Option ℕ
  pub failed_attempts : ℕ
  pub locked_until : Option ℕ

unfoldable pub new_account : User → Account
new_account u = record { user = u; last_login = none; failed_attempts = 0; locked_until = none }

unfoldable pub is_locked_out : Account → ℕ → Bool
is_locked_out a now = elim a.locked_until [ none ↦ false | some until ↦ ltb now until ]

unfoldable pub record_success : Account → ℕ → Account
record_success a now = record a { failed_attempts = 0; locked_until = none; last_login = some now }

-- `saturating_add(1)` on a u32.
unfoldable pub record_failure : Account → Account
record_failure a = record a {
  failed_attempts = if ltb a.failed_attempts 4294967295 then a.failed_attempts + 1 else 4294967295;
}
