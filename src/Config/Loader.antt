-- ===== src/Config/Loader.antt =====
-- src/config/loader.rs: which configuration file is read. The file system and the TOML parser are
-- parameters.
use mitos_session.Base.{
  Text, bytes, Message, ◌≡◌, ◌↔◌, ◌⊎◌, inl, inr, Bool, true, false, not, Option, none, some, arith,
  if◌then◌else◌, Bool-cases,
}
use mitos_session.Errors.{SessionError, Result, ok, err, ◌>>=◌, Result-cases}
use mitos_session.Config.{Settings, default_settings}

-- `Path::exists`, `fs::read_to_string` and `toml::from_str`.
pub record Files : Type 0 where
  pub exists : Text → Bool
  pub read_to_string : Text → Result Text
  pub from_str : Text → Message ⊎ Settings

-- `From<toml::de::Error>`.
abbrev pub from_toml : Message ⊎ Settings → Result Settings
from_toml (inl e) = err (SessionError.config e)
from_toml (inr s) = ok s

abbrev pub system_config_path : Text
system_config_path = bytes "/etc/mitos/session.toml"

-- An explicit path, or that of `$MITOS_SESSION_CONFIG`, or the system's.
abbrev pub config_path : Option Text → Option Text → Text
config_path (some path) var = path
config_path none (some path) = path
config_path none none = system_config_path

unfoldable pub load : Files → Option Text → Option Text → Result Settings
load files explicit_path var =
    let path = config_path explicit_path var in
    if not (files.exists path)
    then ok default_settings
    else do raw ← files.read_to_string path; from_toml (files.from_str raw)

from_toml-ok : (o : Message ⊎ Settings) (s : Settings) → from_toml o ≡ ok s → o ≡ inr s
from_toml-ok (inl e) s h = absurd (ground (arith, h))
from_toml-ok (inr t) s h = ground (arith, h)

-- What a successful load says of the file at the path.
abbrev pub IsLoaded : Files → Text → Settings → Type 0
IsLoaded files path s =
    ((files.exists path ≡ false) × (s ≡ default_settings))
    ⊎ ((files.exists path ≡ true)
        × (raw : Text) × (files.read_to_string path ≡ ok raw)
        × (files.from_str raw ≡ inr s))

load-IsLoaded :
    (files : Files) (explicit_path var : Option Text) (s : Settings)
    → load files explicit_path var ≡ ok s
    → IsLoaded files (config_path explicit_path var) s
unfolding load
load-IsLoaded files explicit_path var s h =
    let path = config_path explicit_path var in
    elim (Bool-cases (files.exists path)) [
      | inr e ↦ inl (e, ground (arith, e, h))
      | inl e ↦ elim (Result-cases (files.read_to_string path)) [
        | inr (x, f) ↦ absurd (ground (arith, e, f, h))
        | inl (raw, f) ↦
            let parsed : from_toml (files.from_str raw) ≡ ok s = ground (arith, e, f, h) in
            inr (e, raw, f, from_toml-ok (files.from_str raw) s parsed)
      ]
    ]

IsLoaded-load :
    (files : Files) (explicit_path var : Option Text) (s : Settings)
    → IsLoaded files (config_path explicit_path var) s
    → load files explicit_path var ≡ ok s
unfolding load
IsLoaded-load files explicit_path var s (inl (e, p)) = ground (arith, e, p)
IsLoaded-load files explicit_path var s (inr (e, raw, f, p)) = ground (arith, e, f, p)

-- Loading succeeds in exactly two ways: with the defaults where no file is at the chosen path, and
-- with what the file says where it can be read and parsed. The path is the explicit one, or else that
-- of the environment variable, or else the system's.
pub load-ok_iff :
    (files : Files) (explicit_path var : Option Text) (s : Settings)
    → (load files explicit_path var ≡ ok s) ↔ IsLoaded files (config_path explicit_path var) s
load-ok_iff files explicit_path var s =
    (load-IsLoaded files explicit_path var s, IsLoaded-load files explicit_path var s)
