-- ===== src/Session/Env.antt =====
-- src/session/environment.rs: the variables that the processes of a session start with.
use mitos_session.Base.{ℕ, Option, [], ◌∷◌, Text, bytes, lit, num, txt, Message}
use mitos_session.Base.Map.{Map, lookup, insert, text_key}
use mitos_session.Users.{User}
use mitos_session.Session.State.{SessionType, as_xdg_str}

-- `BTreeMap<String, String>`; a value is the pieces that it is put together from.
pub record Environment : Type 0 where
  pub vars : Map Text Message

abbrev pub empty_environment : Environment
empty_environment = record { vars = [] }

unfoldable pub set : Text → Message → Environment → Environment
set key value env = record { vars = insert key value env.vars }

unfoldable pub get_var : Text → Environment → Option Message
get_var key env = lookup key env.vars

-- `runtime_base.join(user.uid.to_string())`.
abbrev pub runtime_dir_of : Text → User → Message
runtime_dir_of base user = txt base ∷ lit "/" ∷ num user.uid ∷ []

-- `Environment::for_session`: the variables, and the runtime directory that was computed.
unfoldable pub for_session : User → ℕ → SessionType → Text → Text → Environment × Message
unfolding set
for_session user session_id session_type seat_id runtime_base = (
  set (bytes "PATH") (lit "/usr/local/bin:/usr/bin:/bin" ∷ []) (
      set (bytes "XDG_SESSION_TYPE") (lit (as_xdg_str session_type) ∷ []) (
        set (bytes "XDG_SEAT") (txt seat_id ∷ []) (
          set (bytes "XDG_SESSION_ID") (num session_id ∷ []) (
            set (bytes "XDG_RUNTIME_DIR") (runtime_dir_of runtime_base user) (
              set (bytes "SHELL") (txt user.shell ∷ []) (
                set (bytes "LOGNAME") (txt user.name ∷ []) (
                  set (bytes "USER") (txt user.name ∷ [])
                    (set (bytes "HOME") (txt user.home ∷ []) empty_environment)))))))),
  runtime_dir_of runtime_base user,
)
