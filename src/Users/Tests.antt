-- ===== src/Users/Tests.antt =====
-- The theorems on groups at concrete inputs.
use mitos_session.Base.{
  bytes, ℕ, ◌≤◌, ◌≡◌, refl, ◌||◌, some, List, [], ◌∷◌, arith, ◌==◌, All, contains, count,
}
use mitos_session.Base.Lines.{parse_u32}
use mitos_session.Base.Lines.Decimal.{decimal}
use mitos_session.Errors.{ok}
use mitos_session.Users.{User, Accounts, by_name}
use mitos_session.Users.Groups.{readable, missing, gids_from_group_file, supplementary_gids}
use mitos_session.Users.Groups.File.{
  Group, print_groups, IsWellFormed, gids_of, gids_from_group_file-print_groups,
}
use mitos_session.Users.Groups.Merge.{supplementary_gids_lem}

abbrev pub alice : User
alice = record {
  uid = 1000;
  gid = 1000;
  name = bytes "alice";
  home = bytes "/home/alice";
  shell = bytes "/bin/sh";
}

abbrev pub only_alice : Accounts
only_alice = record { from_name = λ name. ok (some alice); from_uid = λ uid. ok (some alice) }

-- "wheel:x:10:root,alice", "video:x:44:bob" and "alice:x:1000:alice".
abbrev groups : List Group
groups =
    record {
      name = bytes "wheel";
      passwd = bytes "x";
      gid = 10;
      members = bytes "root" ∷ bytes "alice" ∷ [];
    }
    ∷ record { name = bytes "video"; passwd = bytes "x"; gid = 44; members = bytes "bob" ∷ [] }
    ∷ record { name = bytes "alice"; passwd = bytes "x"; gid = 1000; members = bytes "alice" ∷ [] }
    ∷ []

groups-IsWellFormed : All IsWellFormed groups
groups-IsWellFormed = ground arith

gids_from_group_file-print_groups_example :
    gids_from_group_file (readable (print_groups groups)) (bytes "alice")
    ≡ ok (gids_of (bytes "alice") groups)
gids_from_group_file-print_groups_example =
    gids_from_group_file-print_groups (bytes "alice") groups (λ p. ground (arith, p))
      groups-IsWellFormed

-- The printed file is the text that it should be.
group_text :
    print_groups groups ≡ bytes "wheel:x:10:root,alice\nvideo:x:44:bob\nalice:x:1000:alice\n"
unfolding decimal
group_text = refl

in_file :
    gids_from_group_file (readable (print_groups groups)) (bytes "alice") ≡ ok (10 ∷ 1000 ∷ [])
unfolding gids_from_group_file parse_u32 decimal
in_file = refl

supplementary_gids_lem_example :
    (more : List ℕ) × (supplementary_gids only_alice
        (readable (print_groups groups))
        (bytes "alice")
      ≡ ok (1000 ∷ more))
    × ((k : ℕ) → count k (1000 ∷ more) ≤ 1)
    × ((k : ℕ) → contains (1000 ∷ more) k ≡ (1000 == k || contains (10 ∷ 1000 ∷ []) k))
supplementary_gids_lem_example =
    supplementary_gids_lem only_alice (readable (print_groups groups)) (bytes "alice") alice
      (10 ∷ 1000 ∷ []) refl in_file

-- The primary group is not listed again.
primary_once :
    supplementary_gids only_alice (readable (print_groups groups)) (bytes "alice")
    ≡ ok (1000 ∷ 10 ∷ [])
unfolding supplementary_gids gids_from_group_file by_name parse_u32 decimal
primary_once = refl

-- A missing file is no error.
no_file : gids_from_group_file missing (bytes "alice") ≡ ok []
unfolding gids_from_group_file
no_file = refl
