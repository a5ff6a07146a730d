-- ===== src/Policy/Tests.antt =====
-- The theorems on authorization at concrete inputs.
use mitos_session.Base.{
  bytes, same_text, ◌≡◌, refl, ◌↔◌, ◌⊎◌, none, some, [], arith, ℕ_discrete, ◌==◌, if◌then◌else◌,
}
use mitos_session.Errors.{unknown_elevation_request, ok, err}
use mitos_session.Users.{Accounts}
use mitos_session.Session.Tests.{ada, one_running}
use mitos_session.Elevation.{ElevationManager}
use mitos_session.Elevation.Action.{ElevationResponse}
use mitos_session.Elevation.Tests.{prompt, asked}
use mitos_session.Ipc.{PeerCred, Request}
use mitos_session.Policy.{authorize}
use mitos_session.Policy.Authorize.{Allowed, authorize_iff, authorize-probe}

-- ada is the only account.
abbrev pub only_ada : Accounts
only_ada = record {
  from_name = λ name. ok (if same_text name (bytes "ada") then some ada else none);
  from_uid = λ uid. ok (if uid == 1000 then some ada else none);
}

abbrev pub from_ada : PeerCred
from_ada = record { uid = 1000; gid = 1000; pid = 600 }

abbrev pub from_bob : PeerCred
from_bob = record { uid = 1001; gid = 1001; pid = 700 }

authorize_iff_example :
    (authorize only_ada from_ada 10 (Request.lock_session 1) one_running asked ≡ ok tt)
    ↔ ((from_ada.uid ≡ 0) ⊎ Allowed only_ada from_ada 10 (Request.lock_session 1) one_running asked)
authorize_iff_example =
    authorize_iff only_ada from_ada 10 (Request.lock_session 1) one_running asked

abbrev nobody_asked : ElevationManager
nobody_asked = record asked { pending = [] }

authorize-probe_example :
    (authorize only_ada from_bob 30
        (Request.respond_elevation 1 ElevationResponse.cancelled)
        one_running
        asked
      ≡ err (unknown_elevation_request 1))
    × (authorize only_ada from_bob 30
          (Request.respond_elevation 1 ElevationResponse.cancelled)
          one_running
          nobody_asked
        ≡ err (unknown_elevation_request 1))
authorize-probe_example =
    authorize-probe only_ada from_bob 30 1 ElevationResponse.cancelled one_running one_running asked
      nobody_asked prompt (omega arith) (unfold ℕ_discrete in refl) (omega arith) refl
