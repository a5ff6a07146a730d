-- ===== src/Users/Groups/Merge.antt =====
-- The list of `supplementary_gids` (src/user/groups.rs): its order, its elements, and that none
-- stands twice.
use mitos_session.Base.{
  Text, ℕ, ◌+◌, ◌≤◌, ◌≡◌, refl, ◌∙◌, inl, inr, true, false, ◌||◌, some, List, [], ◌∷◌, ◌++◌, arith,
  ◌==◌, ==_iff, Bool-cases, contains, count,
}
use mitos_session.Errors.{ok}
use mitos_session.Users.{User, Accounts, by_name}
use mitos_session.Users.Groups.{Contents, gids_from_group_file, push_new, supplementary_gids}

count-append : (k : ℕ) (xs ys : List ℕ) → count k (xs ++ ys) ≡ count k xs + count k ys
count-append k [] ys = omega arith
count-append k (x ∷ xs) ys = omega (arith, count-append k xs ys)

count-absent : (k : ℕ) (xs : List ℕ) → contains xs k ≡ false → count k xs ≡ 0
count-absent k [] h = refl
count-absent k (x ∷ xs) h = ground (arith, h, count-absent k xs)

contains-append :
    (k : ℕ) (xs ys : List ℕ) → contains (xs ++ ys) k ≡ (contains xs k || contains ys k)
contains-append k [] ys = refl
contains-append k (x ∷ xs) ys = ground (arith, contains-append k xs ys)

contains-same : (g k : ℕ) (xs : List ℕ) → (g == k) ≡ true → contains xs g ≡ contains xs k
contains-same g k xs h = let e : g ≡ k = (==_iff g k).0 h in rw e refl

module _ (k : ℕ) where
  push_new-contains :
      (gids rest : List ℕ) → contains (push_new gids rest) k ≡ (contains gids k || contains rest k)
  push_new-contains gids [] = ground arith
  push_new-contains gids (g ∷ rest) = elim (Bool-cases (contains gids g)) [
    | inl e ↦ rw e (push_new-contains gids rest ∙ ground (arith, e, contains-same g k gids))
    | inr e ↦ rw e (
        push_new-contains (gids ++ (g ∷ [])) rest ∙ ground (arith, contains-append k gids (g ∷ [])))
  ]

  push_new-count : (gids rest : List ℕ) → count k gids ≤ 1 → count k (push_new gids rest) ≤ 1
  push_new-count gids [] h = h
  push_new-count gids (g ∷ rest) h = elim (Bool-cases (contains gids g)) [
    | inl e ↦ rw e (push_new-count gids rest h)
    | inr e ↦ rw e (
        push_new-count (gids ++ (g ∷ [])) rest (
          ground (
            arith,
            h,
            count-append k gids (g ∷ []),
            e,
            contains-same g k gids,
            count-absent k gids,
          )))
  ]

push_new-first :
    (g : ℕ) (gids rest : List ℕ) → (more : List ℕ) × (push_new (g ∷ gids) rest ≡ g ∷ more)
push_new-first g gids [] = (gids, refl)
push_new-first g gids (x ∷ rest) = elim (Bool-cases (contains (g ∷ gids) x)) [
  | inl e ↦ let (more, q) = push_new-first g gids rest in (more, rw e q)
  | inr e ↦ let (more, q) = push_new-first g (gids ++ (x ∷ [])) rest in (more, rw e q)
]

-- For a known user and a readable group file the list starts with the primary group, has each group
-- once, and has exactly the primary group and the groups that the file gives the user.
pub supplementary_gids_lem :
    (accounts : Accounts) (group_file : Contents) (name : Text) (u : User) (gids : List ℕ)
    → accounts.from_name name ≡ ok (some u)
    → gids_from_group_file group_file name ≡ ok gids
    → (more : List ℕ) × (supplementary_gids accounts group_file name ≡ ok (u.gid ∷ more))
      × ((k : ℕ) → count k (u.gid ∷ more) ≤ 1)
      × ((k : ℕ) → contains (u.gid ∷ more) k ≡ (u.gid == k || contains gids k))
unfolding supplementary_gids by_name
supplementary_gids_lem accounts group_file name u gids known file =
    let (more, q) = push_new-first u.gid [] gids in
    (
      more,
      ground (arith, known, file, q),
      λ k. let once = push_new-count k (u.gid ∷ []) gids (ground arith) in rw q at once,
      λ k.
          let has = push_new-contains k (u.gid ∷ []) gids in
          let has' = rw q at has in has' ∙ ground arith,
    )
