-- ===== src/Elevation/Begin.antt =====
-- `ElevationManager::begin` (src/elevation/manager.rs) on each of its branches.
use mitos_session.Base.{
  ℕ, ◌+◌, ◌≤◌, ◌<◌, ◌≡◌, refl, ap, ◌≢◌, ◌⊎◌, true, false, none, some, [], ◌∷◌, arith, ◌==◌,
  if◌then◌else◌, inc_u64,
}
use mitos_session.Base.Map.{Map, lookup, insert, lookup-insert, id_key}
use mitos_session.Base.Map.Fresh.{count_where, insert_fresh, count_where-append}
use mitos_session.Errors.{ok, err, is_ok, locked_out}
use mitos_session.Auth.{AuthPolicy}
use mitos_session.Elevation.{
  ElevationPolicy, PendingElevation, ElevationManager, peek, compositor_conn_for, auth_entry,
  of_session, begin,
}
use mitos_session.Elevation.Invariant.{Inv, next_fresh}

-- How many pending prompts a session has.
abbrev pub prompts_of : ℕ → Map ℕ PendingElevation → ℕ
prompts_of s [] = 0
prompts_of s ((id, q) ∷ m) = if q.session_id == s then 1 + prompts_of s m else prompts_of s m

pending_for_session_lem :
    (s : ℕ) (m : Map ℕ PendingElevation) → count_where (of_session s) m ≡ prompts_of s m
pending_for_session_lem s [] = refl
pending_for_session_lem s ((id, q) ∷ m) = ground (arith, pending_for_session_lem s m)

-- In a manager that keeps its invariant, with ids left: a request is refused, with nothing changed,
-- exactly when its session is locked out or already has the most prompts that the policy allows.
-- Otherwise the prompt gets an id that no pending prompt has; it is recorded with its session, its
-- two connections and a timer for the policy's prompt timeout, and can be answered from the compositor's connection alone; no other prompt
-- changes; and the session stays within its cap.
pub begin_lem :
    (m : ElevationManager) (s c r other : ℕ) (p : ElevationPolicy) (ap : AuthPolicy) (now : ℕ)
    → m.next_id + 1 < 18446744073709551616
    → Inv m
    → let (reply, m') = begin m s c r p ap now in
      (((auth_entry m s).locked_out ≡ true) × (reply ≡ err (locked_out ap.lockout)) × (m' ≡ m))
      ⊎ (((auth_entry m s).locked_out ≡ false)
          × (p.max_pending_per_session ≤ prompts_of s m.pending)
          × (is_ok reply ≡ false)
          × (m' ≡ m))
      ⊎ (((auth_entry m s).locked_out ≡ false)
          × (prompts_of s m.pending < p.max_pending_per_session)
          × (reply ≡ ok (m.next_id + 1))
          × (lookup (m.next_id + 1) m.pending ≡ none)
          × (lookup (m.next_id + 1) m'.pending
              ≡ some (record { session_id = s; compositor_conn = c; requester_conn = r }))
          × (lookup (m.next_id + 1) m'.timeouts.prompt_expiry ≡ some (now + p.prompt_timeout))
          × (peek m' (m.next_id + 1) ≡ some (record { session_id = s; compositor_conn = c }))
          × (compositor_conn_for m' (m.next_id + 1) ≡ some c)
          × (m.next_id + 1 ≢ other → lookup other m'.pending ≡ lookup other m.pending)
          × (prompts_of s m'.pending ≡ prompts_of s m.pending + 1))
unfolding begin peek compositor_conn_for
begin_lem m s c r other p ap now h v =
    let id = inc_u64 m.next_id in
    let q : PendingElevation = record { session_id = s; compositor_conn = c; requester_conn = r } in
    let fresh = next_fresh m h v in
    let t = now + p.prompt_timeout in
    ground (
      arith,
      fresh,
      lookup-insert id id q m.pending,
      lookup-insert id other q m.pending,
      lookup-insert id id t m.timeouts.prompt_expiry,
      pending_for_session_lem s m.pending,
      pending_for_session_lem s (insert id q m.pending),
      insert_fresh id q m.pending fresh,
      count_where-append (of_session s) m.pending ((id, q) ∷ []),
    )
