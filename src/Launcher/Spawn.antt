-- ===== src/Launcher/Spawn.antt =====
-- src/launcher/application.rs, compositor.rs, terminal.rs and desktop.rs: starting the processes of a
-- session. The kernel's calls in the child are parameters.
pub mod Privileges
use mitos_session.Base.{
  Text, Message, ℕ, ◌⊎◌, inl, inr, Bool, true, false, not, List, [], ◌∷◌, ◌++◌, if◌then◌else◌,
  is_empty, select,
}
use mitos_session.Base.Lines.{push_byte, is_space}
use mitos_session.Errors.{Result, ok, err, ◌>>=◌, io}
use mitos_session.Users.{User, Accounts}
use mitos_session.Users.Groups.{Contents, supplementary_gids}
use mitos_session.Session.Env.{Environment}

pub record Application : Type 0 where
  pub command : Text
  pub args : List Text
  pub restart_on_exit : Bool

abbrev pub new_application : Text → Application
new_application command = record { command = command; args = []; restart_on_exit = false }

abbrev pub arg : Text → Application → Application
arg a app = record app { args = app.args ++ (a ∷ []) }

-- What a process may do: its ids and its groups.
pub record Credentials : Type 0 where
  pub uid : ℕ
  pub gid : ℕ
  pub groups : List ℕ

-- The child between fork and exec: `setgroups`, `setgid` and `setuid`, each with its error or what
-- it leaves; and `Command::spawn` of a program, with the child's credentials, environment and
-- directory, which gives a pid.
pub record Kernel : Type 0 where
  pub setgroups : List ℕ → Credentials → Message ⊎ Credentials
  pub setgid : ℕ → Credentials → Message ⊎ Credentials
  pub setuid : ℕ → Credentials → Message ⊎ Credentials
  pub exec : Application → Credentials → Environment → Text → Result ℕ

abbrev pub io_result {ℓ} : {A : Type ℓ} → Message ⊎ A → Result A
io_result (inl e) = err (io e)
io_result (inr a) = ok a

-- The `pre_exec` hook.
unfoldable pub become : Kernel → List ℕ → ℕ → ℕ → Credentials → Result Credentials
become kernel gids gid uid c = do
  with_groups ← io_result (kernel.setgroups gids c)
  with_gid ← io_result (kernel.setgid gid with_groups)
  io_result (kernel.setuid uid with_gid)

-- `Application::spawn`; `daemon` has the credentials of the daemon, which the child starts with.
unfoldable pub spawn :
    Accounts → Contents → Kernel → Credentials → User → Environment → Application → Result ℕ
unfolding supplementary_gids become
spawn accounts group_file kernel daemon user env app = do
  gids ← supplementary_gids accounts group_file user.name
  child ← become kernel gids user.gid user.uid daemon
  kernel.exec app child env user.home

-- `drop_privileges` (src/user/permissions.rs).
unfoldable pub drop_privileges :
    Accounts → Contents → Kernel → Credentials → User → Result Credentials
unfolding supplementary_gids become
drop_privileges accounts group_file kernel c user = do
  gids ← supplementary_gids accounts group_file user.name
  become kernel gids user.gid user.uid c

-- `str::split_whitespace`.
abbrev pub split_spaces : Text → List Text
split_spaces [] = [] ∷ []
split_spaces (x ∷ xs) =
    let rest = split_spaces xs in if is_space x then [] ∷ rest else push_byte x rest

abbrev pub words : Text → List Text
words s = select (λ w. not (is_empty w)) (split_spaces s)

module _ (accounts : Accounts) (group_file : Contents) (kernel : Kernel)
    (daemon : Credentials) where
  unfoldable pub spawn_compositor : User → Environment → Text → Result ℕ
  unfolding spawn
  spawn_compositor user env binary =
      spawn accounts group_file kernel daemon user env
        (record (new_application binary) { restart_on_exit = true })

  unfoldable pub spawn_fallback_terminal : User → Environment → Result ℕ
  unfolding spawn
  spawn_fallback_terminal user env =
      spawn accounts group_file kernel daemon user env (new_application user.shell)

  -- One line of the autostart commands: a program and its arguments.
  abbrev pub line_application : List Text → Application
  line_application [] = new_application []
  line_application (program ∷ parts) = record (new_application program) { args = parts }

  -- `spawn_autostart`: it stops at the first error.
  unfoldable pub spawn_autostart : User → Environment → List Text → Result (List ℕ)
  unfolding spawn
  spawn_autostart user env [] = ok []
  spawn_autostart user env (line ∷ rest) = do
    pid ← spawn accounts group_file kernel daemon user env (line_application (words line))
    pids ← spawn_autostart user env rest
    ok (pid ∷ pids)
