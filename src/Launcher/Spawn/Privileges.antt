-- ===== src/Launcher/Spawn/Privileges.antt =====
-- With which rights the processes of a session run (src/launcher/application.rs).
use mitos_session.Base.{Message, ℕ, ◌≡◌, ◌≢◌, inl, inr, false, List, arith}
use mitos_session.Errors.{ok, ◌>>=◌, is_ok, Result-cases}
use mitos_session.Users.{User, Accounts}
use mitos_session.Users.Groups.{Contents, supplementary_gids}
use mitos_session.Session.Env.{Environment}
use mitos_session.Launcher.Spawn.{Application, Credentials, Kernel, become, spawn}

-- The manual pages of the calls: root may set its groups and its ids, and each call sets what it
-- names; without privileges `setgroups` fails.
pub record IsUnix (kernel : Kernel) : Type 0 where
  pub groups_set :
      (gs : List ℕ) (c : Credentials)
      → c.uid ≡ 0
      → kernel.setgroups gs c ≡ inr (record c { groups = gs })
  pub gid_set :
      (g : ℕ) (c : Credentials) → c.uid ≡ 0 → kernel.setgid g c ≡ inr (record c { gid = g })
  pub uid_set :
      (u : ℕ) (c : Credentials) → c.uid ≡ 0 → kernel.setuid u c ≡ inr (record c { uid = u })
  pub refused :
      (gs : List ℕ) (c : Credentials) → c.uid ≢ 0 → (e : Message) × (kernel.setgroups gs c ≡ inl e)

become-root :
    (kernel : Kernel) (gids : List ℕ) (gid uid : ℕ) (c : Credentials)
    → IsUnix kernel
    → c.uid ≡ 0
    → become kernel gids gid uid c ≡ ok (record { uid = uid; gid = gid; groups = gids })
unfolding become
become-root kernel gids gid uid c unix root =
    let c1 = record c { groups = gids } in
    let c2 = record c1 { gid = gid } in
    ground (arith, unix.groups_set gids c root, unix.gid_set gid c1 root, unix.uid_set uid c2 root)

become-refused :
    (kernel : Kernel) (gids : List ℕ) (gid uid : ℕ) (c : Credentials)
    → IsUnix kernel
    → c.uid ≢ 0
    → is_ok (become kernel gids gid uid c) ≡ false
unfolding become
become-refused kernel gids gid uid c unix other_user =
    let (e, p) = unix.refused gids c other_user in ground (arith, p)

-- A daemon that runs as root starts a program of a session with exactly the ids of the user and the
-- groups that `supplementary_gids` finds, in the session's environment and the user's home directory,
-- and starts nothing where the groups cannot be read; a daemon that does not run as root starts
-- nothing. This on a kernel whose calls do what their manual pages say.
pub spawn_lem :
    (accounts : Accounts) (group_file : Contents) (kernel : Kernel) (daemon : Credentials)
    (user : User) (env : Environment) (app : Application)
    → IsUnix kernel
    → (daemon.uid ≡ 0
        → spawn accounts group_file kernel daemon user env app ≡ (
            supplementary_gids accounts group_file user.name >>= λ gids.
            kernel.exec app
              (record { uid = user.uid; gid = user.gid; groups = gids })
              env
              user.home))
      × (daemon.uid ≢ 0 → is_ok (spawn accounts group_file kernel daemon user env app) ≡ false)
unfolding spawn
spawn_lem accounts group_file kernel daemon user env app unix =
    elim (Result-cases (supplementary_gids accounts group_file user.name)) [
      | inr (e, p) ↦ (λ root. ground (arith, p), λ other_user. ground (arith, p))
      | inl (gids, p) ↦ (
        λ root. ground (arith, p, become-root kernel gids user.gid user.uid daemon unix root),
        λ other_user.
            ground (arith, p, become-refused kernel gids user.gid user.uid daemon unix other_user),
      )
    ]
