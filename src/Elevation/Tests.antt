-- ===== src/Elevation/Tests.antt =====
-- The theorems on elevation at concrete inputs.
use mitos_session.Base.{
  ℕ, ◌+◌, ◌≤◌, ◌<◌, ◌≡◌, refl, ◌≢◌, ◌↔◌, ◌⊎◌, true, false, none, some, List, [], ◌∷◌, arith,
  ℕ_discrete, length, Has, bytes,
}
use mitos_session.Base.Map.{lookup, id_key}
use mitos_session.Errors.{SessionError, ok, err, is_ok}
use mitos_session.Auth.{check}
use mitos_session.Auth.Tests.{three_tries, guess, rejects, accepts}
use mitos_session.Elevation.{
  ElevationPolicy, PendingElevation, ElevationManager, new, peek, compositor_conn_for, auth_entry,
  begin, attempt, expire_pending, abandon_connection, new, begin, attempt,
}
use mitos_session.Elevation.Action.{elevated, ElevationAction, validate, validate-none_iff}
use mitos_session.Elevation.Invariant.{Inv, new-Inv, begin-Inv}
use mitos_session.Elevation.Begin.{prompts_of, begin_lem}
use mitos_session.Elevation.Attempt.{Accepted, LastTry, Failed, attempt_lem, attempt_once}
use mitos_session.Elevation.Abandon.{describe, abandon_connection_lem}
use mitos_session.Elevation.Expire.{request_ids, expire_pending_lem}
use mitos_session.Elevation.History.{Call, begins, attempts, step, run}
use mitos_session.Elevation.Lasting.{pending_expires}

abbrev pub two_prompts : ElevationPolicy
two_prompts = record { enabled = true; prompt_timeout = 60; max_pending_per_session = 2 }

-- The prompt of session 4 on compositor 10 for caller 20.
abbrev pub prompt : PendingElevation
prompt = record { session_id = 4; compositor_conn = 10; requester_conn = 20 }

-- That prompt is pending under the id 1, until 160.
abbrev pub asked : ElevationManager
asked = record new {
  pending = (1, prompt) ∷ [];
  next_id = 1;
  timeouts = record { prompt_expiry = (1, 160) ∷ []; lockout_expiry = [] };
}

-- The same with session 4 locked out until 130.
abbrev barred : ElevationManager
barred = record asked {
  session_auth = (4, record { locked_out = true; attempts = 3 }) ∷ [];
  timeouts = record { prompt_expiry = (1, 160) ∷ []; lockout_expiry = (4, 130) ∷ [] };
}

begun : Inv (begin new 4 10 20 two_prompts three_tries 100).1
begun = begin-Inv new 4 10 20 two_prompts three_tries 100 (omega arith) new-Inv

pub asked-Inv : Inv asked
unfolding begin ℕ_discrete
asked-Inv = begun

begin_lem_example :
    let m = asked in
    let s : ℕ = 4 in
    let c : ℕ = 10 in
    let r : ℕ = 21 in
    let other : ℕ = 1 in
    let p = two_prompts in
    let ap = three_tries in
    let now : ℕ = 110 in
    let (reply, m') = begin m s c r p ap now in
    (((auth_entry m s).locked_out ≡ true)
      × (reply ≡ err (SessionError.locked_out ap.lockout))
      × (m' ≡ m))
    ⊎ (((auth_entry m s).locked_out ≡ false)
        × (p.max_pending_per_session ≤ prompts_of s m.pending)
        × (is_ok reply ≡ false)
        × (m' ≡ m))
    ⊎ (((auth_entry m s).locked_out ≡ false)
        × (prompts_of s m.pending < p.max_pending_per_session)
        × (reply ≡ ok (m.next_id + 1))
        × (lookup (m.next_id + 1) m.pending ≡ none)
        × (lookup (m.next_id + 1) m'.pending
            ≡ some (record { session_id = s; compositor_conn = c; requester_conn = r }))
        × (lookup (m.next_id + 1) m'.timeouts.prompt_expiry ≡ some (now + p.prompt_timeout))
        × (peek m' (m.next_id + 1) ≡ some (record { session_id = s; compositor_conn = c }))
        × (compositor_conn_for m' (m.next_id + 1) ≡ some c)
        × (m.next_id + 1 ≢ other → lookup other m'.pending ≡ lookup other m.pending)
        × (prompts_of s m'.pending ≡ prompts_of s m.pending + 1))
begin_lem_example = begin_lem asked 4 10 21 1 two_prompts three_tries 110 (omega arith) asked-Inv

attempt_lem_example :
    let m = asked in
    let id : ℕ = 1 in
    let other : ℕ = 2 in
    let s : ℕ = 5 in
    let a = accepts in
    let r = guess 4 [] in
    let p = three_tries in
    let now : ℕ = 110 in
    let (res, m') = attempt m id a r p now in
    ((lookup id m.pending ≡ none) × (res ≡ none) × (m' ≡ m))
    ⊎ ((q : PendingElevation) × (lookup id m.pending ≡ some q)
        × (id ≢ other → lookup other m'.pending ≡ lookup other m.pending)
        × (q.session_id ≢ s → auth_entry m' s ≡ auth_entry m s)
        × (Accepted m id q a r res m'
            ⊎ LastTry m id q a r p now res m'
            ⊎ Failed m id q a r p res m'))
attempt_lem_example = attempt_lem asked 1 2 5 accepts (guess 4 []) three_tries 110

attempt_once_example :
    attempt
      (attempt asked 1 accepts (guess 4 []) three_tries 110).1
      1
      accepts
      (guess 4 [])
      three_tries
      111
    ≡ (none, (attempt asked 1 accepts (guess 4 []) three_tries 110).1)
unfolding attempt check ℕ_discrete
attempt_once_example =
    (attempt_once asked 1 accepts accepts (guess 4 []) (guess 4 []) three_tries three_tries 110 111
      refl refl).2

abandon_connection_lem_example : (abandon_connection asked 20).0 ≡ describe 1 prompt ∷ []
abandon_connection_lem_example = (abandon_connection_lem asked 20 1 asked-Inv).0

expire_pending_lem_example : request_ids (expire_pending asked 160).0 ≡ 1 ∷ []
expire_pending_lem_example = (expire_pending_lem asked 160 1 asked-Inv).0

abbrev one_ask : List Call
one_ask =
    begins 4 10 20 two_prompts three_tries 100
    ∷ attempts 1 (guess 4 []) rejects three_tries 110
    ∷ []

pending_expires_example :
    (t : ℕ) × ((ds : List Call) (now : ℕ)
      → length one_ask + length ds < 18446744073709551616
      → let m = run (run new one_ask) ds in
        (t ≤ now
          → (lookup 1 (expire_pending m now).1.pending ≡ none)
            × (lookup 1 m.pending ≡ some prompt → Has (describe 1 prompt) (expire_pending m now).0))
        × (now < t → lookup 1 (expire_pending m now).1.pending ≡ lookup 1 m.pending))
pending_expires_example =
    pending_expires one_ask 1 prompt (omega arith)
      (unfold run step begin attempt check ℕ_discrete in refl)

abbrev mount_disk : ElevationAction
mount_disk = record {
  requesting_app = bytes "disks";
  description = bytes "mount a disk";
  risk = elevated;
  duration_label = [];
}

validate-none_iff_example : (validate mount_disk ≡ none) ↔ (
    (1 ≤ length mount_disk.requesting_app)
    × (length mount_disk.requesting_app ≤ 256)
    × (1 ≤ length mount_disk.description)
    × (length mount_disk.description ≤ 256)
    × (length mount_disk.duration_label ≤ 256))
validate-none_iff_example = validate-none_iff mount_disk
