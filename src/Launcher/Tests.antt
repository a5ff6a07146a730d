-- ===== src/Launcher/Tests.antt =====
-- Starting a process on a concrete kernel.
use mitos_session.Base.{
  bytes, lit, Message, ℕ, ◌≡◌, refl, ◌≢◌, ◌⊎◌, inl, inr, false, [], ◌∷◌, arith, ◌==◌, if◌then◌else◌,
}
use mitos_session.Base.Lines.{parse_u32}
use mitos_session.Errors.{ok, err, ◌>>=◌, is_ok, io}
use mitos_session.Users.{by_name}
use mitos_session.Users.Groups.{missing, gids_from_group_file, supplementary_gids}
use mitos_session.Users.Tests.{alice, only_alice}
use mitos_session.Session.Env.{empty_environment}
use mitos_session.Launcher.Spawn.{
  new_application, Credentials, Kernel, become, spawn, words, spawn_fallback_terminal,
}
use mitos_session.Launcher.Spawn.Privileges.{IsUnix, spawn_lem}

-- Only root may set anything.
abbrev for_root : ℕ → Credentials → Message ⊎ Credentials
for_root uid c = if uid == 0 then inr c else inl (lit "Operation not permitted" ∷ [])

abbrev small_kernel : Kernel
small_kernel = record {
  setgroups = λ gs c. for_root c.uid (record c { groups = gs });
  setgid = λ g c. for_root c.uid (record c { gid = g });
  setuid = λ u c. for_root c.uid (record c { uid = u });
  exec = λ app c env dir. if c.uid == 1000 then ok 501 else err (io []);
}

small_kernel-IsUnix : IsUnix small_kernel
small_kernel-IsUnix = record {
  groups_set = λ gs c root. ground (arith, root);
  gid_set = λ g c root. ground (arith, root);
  uid_set = λ u c root. ground (arith, root);
  refused = λ gs c other_user. (lit "Operation not permitted" ∷ [], ground (arith, other_user));
}

abbrev root : Credentials
root = record { uid = 0; gid = 0; groups = [] }

spawn_lem_example :
    (root.uid ≡ 0
      → spawn only_alice missing small_kernel root alice empty_environment
          (new_application (bytes "/bin/sh"))
        ≡ (supplementary_gids only_alice missing alice.name >>= λ gids.
            small_kernel.exec
              (new_application (bytes "/bin/sh"))
              (record { uid = alice.uid; gid = alice.gid; groups = gids })
              empty_environment
              alice.home))
    × (root.uid ≢ 0
        → is_ok (
            spawn only_alice missing small_kernel root alice empty_environment
              (new_application (bytes "/bin/sh")))
          ≡ false)
spawn_lem_example =
    spawn_lem only_alice missing small_kernel root alice empty_environment
      (new_application (bytes "/bin/sh")) small_kernel-IsUnix

-- It gets the pid of the process.
shell_starts :
    spawn_fallback_terminal only_alice missing small_kernel root alice empty_environment ≡ ok 501
unfolding spawn_fallback_terminal spawn become supplementary_gids gids_from_group_file by_name
    parse_u32
shell_starts = refl

two_words : words (bytes " foot  -e ") ≡ bytes "foot" ∷ bytes "-e" ∷ []
two_words = refl
