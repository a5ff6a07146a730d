-- ===== src/Ipc/Connection/Ids.antt =====
-- The ids of accepted connections (`accept_loop` in src/ipc/server.rs).
use mitos_session.Base.{
  ℕ, ◌+◌, ◌≤◌, ◌<◌, ◌≡◌, refl, ap, ◌∙◌, inl, inr, Option, none, some, List, [], ◌∷◌, arith,
  Option-cases, inc_u64, length, count,
}
use mitos_session.Ipc.Connection.{Connection, Socket, open_connection, accept_all}

abbrev pub conn_ids : List Connection → List ℕ
conn_ids [] = []
conn_ids (c ∷ cs) = c.conn_id ∷ conn_ids cs

open-conn_id :
    (id : ℕ) (socket : Socket) (c : Connection)
    → open_connection id socket ≡ some c
    → c.conn_id ≡ id
unfolding open_connection
open-conn_id id socket c h = ground (arith, h)

module _ (next : ℕ) (socket : Socket) (sockets : List (Option Socket)) where
  accept-none :
      open_connection next socket ≡ none
      → accept_all next (some socket ∷ sockets) ≡ accept_all (inc_u64 next) sockets
  unfolding accept_all
  accept-none h = ground (arith, h)

  accept-some :
      (c : Connection)
      → open_connection next socket ≡ some c
      → accept_all next (some socket ∷ sockets) ≡ c ∷ accept_all (inc_u64 next) sockets
  unfolding accept_all
  accept-some c h = ground (arith, h)

ids-above :
    (k next : ℕ) (sockets : List (Option Socket))
    → next + length sockets < 18446744073709551616
    → k < next
    → count k (conn_ids (accept_all next sockets)) ≡ 0
unfolding accept_all
ids-above k next [] h lt = refl
ids-above k next (none ∷ sockets) h lt = ids-above k next sockets (omega arith) lt
ids-above k next (some socket ∷ sockets) h lt =
    let ih = ids-above k (inc_u64 next) sockets (omega arith) (omega arith) in
    elim (Option-cases (open_connection next socket)) [
      | inl e ↦ ap (λ cs. count k (conn_ids cs)) (accept-none next socket sockets e) ∙ ih
      | inr (c, e) ↦
          ap (λ cs. count k (conn_ids cs)) (accept-some next socket sockets c e)
          ∙ ground (arith, ih, open-conn_id next socket c e)
    ]

-- No two connections of one run get the same id, as long as the u64 counter does not wrap.
pub accept_all-distinct :
    (k next : ℕ) (sockets : List (Option Socket))
    → next + length sockets < 18446744073709551616
    → count k (conn_ids (accept_all next sockets)) ≤ 1
unfolding accept_all
accept_all-distinct k next [] h = omega arith
accept_all-distinct k next (none ∷ sockets) h = accept_all-distinct k next sockets (omega arith)
accept_all-distinct k next (some socket ∷ sockets) h =
    let ih = accept_all-distinct k (inc_u64 next) sockets (omega arith) in
    elim (Option-cases (open_connection next socket)) [
      | inl e ↦ rw (accept-none next socket sockets e) ih
      | inr (c, e) ↦ rw (accept-some next socket sockets c e) (
          ground (
            arith,
            ih,
            open-conn_id next socket c e,
            ids-above k (inc_u64 next) sockets (omega arith),
          ))
    ]
