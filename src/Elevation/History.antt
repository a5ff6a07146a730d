-- ===== src/Elevation/History.antt =====
-- `ElevationManager` over any history of the daemon's calls of it (src/main.rs), from the empty
-- manager on.
use mitos_session.Base.Map.{keys_where, id_key}
use mitos_session.Base.{ℕ, ◌+◌, ◌≤◌, ◌<◌, Option, List, [], ◌∷◌, arith, length}
use mitos_session.Auth.{AuthPolicy, AuthRequest, Authenticator}
use mitos_session.Elevation.{
  ElevationPolicy, ElevationManager, set_requester_uid, of_session, begin, attempt, cancel,
  clear_expired_lockouts, expire_pending, abandon_where, abandon_session, involves,
  abandon_connection, begin,
}
use mitos_session.Elevation.Invariant.{
  Inv, begin-Inv, cancel-Inv, attempt-Inv, clear_expired_lockouts-Inv,
}
use mitos_session.Elevation.Abandon.{take_all-state, abandon_where-Inv}
use mitos_session.Elevation.Expire.{expire_pending-state, expire_pending-Inv}

-- The calls, each with the policies, the authenticator and the instant of the call.
pub data Call : Type 0 where
  begins : ℕ → ℕ → ℕ → ElevationPolicy → AuthPolicy → ℕ → Call
  attempts : ℕ → AuthRequest → Authenticator → AuthPolicy → ℕ → Call
  cancels : ℕ → Call
  clears : ℕ → Call
  expires : ℕ → Call
  ends : ℕ → Call
  drops : ℕ → Call
  configures : Option ℕ → Call

unfoldable pub step : ElevationManager → Call → ElevationManager
step m (begins s c r p ap now) = (begin m s c r p ap now).1
step m (attempts id r a ap now) = (attempt m id a r ap now).1
step m (cancels id) = (cancel m id).1
step m (clears now) = clear_expired_lockouts m now
step m (expires now) = (expire_pending m now).1
step m (ends s) = (abandon_session m s).1
step m (drops c) = (abandon_connection m c).1
step m (configures uid) = set_requester_uid m uid

unfoldable pub run : ElevationManager → List Call → ElevationManager
run m [] = m
run m (c ∷ cs) = run (step m c) cs

pub step-Inv :
    (m : ElevationManager) (c : Call)
    → m.next_id + 1 < 18446744073709551616
    → Inv m
    → Inv (step m c)
unfolding step
step-Inv m (begins s c r p ap now) h v = begin-Inv m s c r p ap now h v
step-Inv m (attempts id r a ap now) h v = attempt-Inv m id a r ap now v
step-Inv m (cancels id) h v = cancel-Inv m id v
step-Inv m (clears now) h v = clear_expired_lockouts-Inv m now v
step-Inv m (expires now) h v = expire_pending-Inv m now v
step-Inv m (ends s) h v = unfold abandon_session in abandon_where-Inv (of_session s) m v
step-Inv m (drops c) h v = unfold abandon_connection in abandon_where-Inv (involves c) m v
step-Inv m (configures uid) h v =
    unfold set_requester_uid in
    record {
      ids = v.ids;
      prompts = v.prompts;
      lockouts = v.lockouts;
      handed_out = v.handed_out;
      timed = v.timed;
      locked_timed = v.locked_timed;
    }

-- A call hands out at most one id, and the counter never goes back.
pub step-next_id :
    (m : ElevationManager) (c : Call)
    → m.next_id + 1 < 18446744073709551616
    → (m.next_id ≤ (step m c).next_id) × ((step m c).next_id ≤ m.next_id + 1)
unfolding step
step-next_id m (begins s c r p ap now) h = unfold begin in (ground arith, ground arith)
step-next_id m (attempts id r a ap now) h = unfold attempt in (ground arith, ground arith)
step-next_id m (cancels id) h = unfold cancel in (ground arith, ground arith)
step-next_id m (clears now) h = unfold clear_expired_lockouts in (omega arith, omega arith)
step-next_id m (expires now) h = rw (expire_pending-state m now) (omega arith, omega arith)
step-next_id m (ends s) h =
    unfold abandon_session abandon_where in
    rw (take_all-state (keys_where (λ _ q. of_session s q) m.pending) m) (omega arith, omega arith)
step-next_id m (drops c) h =
    unfold abandon_connection abandon_where in
    rw (take_all-state (keys_where (λ _ q. involves c q) m.pending) m) (omega arith, omega arith)
step-next_id m (configures uid) h = unfold set_requester_uid in (omega arith, omega arith)

pub run-Inv :
    (m : ElevationManager) (cs : List Call)
    → m.next_id + length cs < 18446744073709551616
    → Inv m
    → Inv (run m cs)
unfolding run
run-Inv m [] h v = v
run-Inv m (c ∷ cs) h v =
    run-Inv (step m c) cs (omega (arith, step-next_id m c (omega arith)))
      (step-Inv m c (omega arith) v)

pub run-next_id :
    (m : ElevationManager) (cs : List Call)
    → m.next_id + length cs < 18446744073709551616
    → (run m cs).next_id ≤ m.next_id + length cs
unfolding run
run-next_id m [] h = omega arith
run-next_id m (c ∷ cs) h =
    let one = step-next_id m c (omega arith) in
    omega (arith, one, run-next_id (step m c) cs (omega (arith, one)))
