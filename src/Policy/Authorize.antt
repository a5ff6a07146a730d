-- ===== src/Policy/Authorize.antt =====
-- `authorize` (src/policy/security_policy.rs) against who should be allowed what.
use mitos_session.Base.{
  Text, ℕ, ◌<◌, ◌≡◌, refl, ◌≢◌, ◌↔◌, ◌⊎◌, inl, inr, Bool, true, false, Option, none, some, arith,
  ◌==◌, if◌then◌else◌, Bool-cases, Option-cases, is_id,
}
use mitos_session.Base.Map.{lookup, id_key}
use mitos_session.Errors.{SessionError, unknown_elevation_request, Result, ok, err, Result-cases}
use mitos_session.Users.{User, Accounts, by_name}
use mitos_session.Session.{SessionContext, SessionManager, get, get, owner_uid}
use mitos_session.Elevation.{
  PendingElevation, ElevationManager, is_authorized_requester, compositor_conn_for,
}
use mitos_session.Elevation.Action.{ElevationResponse}
use mitos_session.Ipc.{PeerCred, Request}
use mitos_session.Policy.{owns, uid_of, decide_request, authorize}

-- The session is there, and belongs to the peer.
abbrev pub Owns : PeerCred → SessionManager → ℕ → Type 0
Owns peer m s = (c : SessionContext) × (lookup s m.sessions ≡ some c) × (c.session.uid ≡ peer.uid)

-- Who may make a request: root everything; a user what concerns a session of its own, or starts one
-- for itself; the configured service account may open prompts; and only the connection that shows a
-- prompt may answer it.
abbrev pub Allowed : Accounts → PeerCred → ℕ → Request → SessionManager → ElevationManager → Type 0
Allowed accounts peer conn (Request.create_session name seat type) m e =
    (u : User) × (accounts.from_name name ≡ ok (some u)) × (u.uid ≡ peer.uid)
Allowed accounts peer conn (Request.terminate_session s) m e = Owns peer m s
Allowed accounts peer conn (Request.register_compositor s) m e = Owns peer m s
Allowed accounts peer conn (Request.session_status s) m e = Owns peer m s
Allowed accounts peer conn (Request.lock_session s) m e = Owns peer m s
Allowed accounts peer conn (Request.switch_session seat s) m e = Owns peer m s
Allowed accounts peer conn (Request.unlock s name password) m e = Owns peer m s
Allowed accounts peer conn Request.list_sessions m e = Unit
Allowed accounts peer conn (Request.report_activity seat) m e = Unit
Allowed accounts peer conn (Request.inhibit what who why mode) m e = Unit
Allowed accounts peer conn (Request.release_inhibit id) m e = Unit
Allowed accounts peer conn Request.list_inhibitors m e = Unit
Allowed accounts peer conn Request.suspend m e = Unit
Allowed accounts peer conn Request.reboot m e = Unit
Allowed accounts peer conn Request.power_off m e = Unit
Allowed accounts peer conn (Request.request_elevation s action) m e =
    e.requester_uid ≡ some peer.uid
Allowed accounts peer conn (Request.respond_elevation id answer) m e =
    (q : PendingElevation) × (lookup id e.pending ≡ some q) × (q.compositor_conn ≡ conn)

is_id_iff : (o : Option ℕ) (n : ℕ) → (is_id o n ≡ true) ↔ (o ≡ some n)
is_id_iff none n = ground arith
is_id_iff (some a) n = ground arith

owns_iff : (peer : PeerCred) (m : SessionManager) (s : ℕ) → (owns peer m s ≡ ok tt) ↔ Owns peer m s
unfolding owner_uid get
owns_iff peer m s = elim (Option-cases (lookup s m.sessions)) [
  | inl e ↦ (λ h. absurd (ground arith), λ (c, f, g). absurd (cc))
  | inr (c, e) ↦ (λ h. (c, e, ground arith), λ (d, f, g). ground arith)
]

requester_iff :
    (e : ElevationManager) (uid : ℕ)
    → (is_authorized_requester e uid ≡ true) ↔ (e.requester_uid ≡ some uid)
unfolding is_authorized_requester
requester_iff e uid = is_id_iff e.requester_uid uid

responder_iff :
    (e : ElevationManager) (id conn : ℕ)
    → (is_id (compositor_conn_for e id) conn ≡ true)
      ↔ ((q : PendingElevation) × (lookup id e.pending ≡ some q) × (q.compositor_conn ≡ conn))
unfolding compositor_conn_for
responder_iff e id conn = elim (Option-cases (lookup id e.pending)) [
  | inl f ↦ (λ h. absurd (ground arith), λ (q, g, i). absurd (cc))
  | inr (q, f) ↦ (λ h. (q, f, ground arith), λ (r, g, i). ground arith)
]

starter_iff :
    (accounts : Accounts) (name : Text) (uid : ℕ)
    → (is_id (uid_of accounts name) uid ≡ true)
      ↔ ((u : User) × (accounts.from_name name ≡ ok (some u)) × (u.uid ≡ uid))
unfolding uid_of by_name
starter_iff accounts name uid = elim (Result-cases (accounts.from_name name)) [
  | inr (x, f) ↦ (λ h. absurd (ground arith), λ (u, g, i). absurd (cc))
  | inl (hit, f) ↦ elim (Option-cases hit) [
    | inl n ↦ (λ h. absurd (ground arith), λ (u, g, i). absurd (ground arith))
    | inr (u, n) ↦ (λ h. (u, ground arith, ground arith), λ (v, g, i). ground arith)
  ]
]

abbrev permit : Bool → SessionError → Result (Unit {0})
permit b x = if b then ok tt else err x

permit_iff : {P : Type 0} (b : Bool) (x : SessionError) → (b ≡ true) ↔ P → (permit b x ≡ ok tt) ↔ P
permit_iff true x (f, g) = (λ _. f refl, λ _. refl)
permit_iff false x (f, g) = (λ h. absurd (cc), λ p. absurd (let z = g p in cc))

decide_request_iff :
    (accounts : Accounts) (peer : PeerCred) (conn : ℕ) (r : Request) (m : SessionManager)
    (e : ElevationManager)
    → (decide_request accounts peer conn r m e ≡ ok tt) ↔ Allowed accounts peer conn r m e
unfolding decide_request
decide_request_iff accounts peer conn (Request.create_session name seat type) m e =
    permit_iff (is_id (uid_of accounts name) peer.uid) _ (starter_iff accounts name peer.uid)
decide_request_iff accounts peer conn (Request.terminate_session s) m e = owns_iff peer m s
decide_request_iff accounts peer conn (Request.register_compositor s) m e = owns_iff peer m s
decide_request_iff accounts peer conn (Request.session_status s) m e = owns_iff peer m s
decide_request_iff accounts peer conn (Request.lock_session s) m e = owns_iff peer m s
decide_request_iff accounts peer conn (Request.switch_session seat s) m e = owns_iff peer m s
decide_request_iff accounts peer conn (Request.unlock s name password) m e = owns_iff peer m s
decide_request_iff accounts peer conn Request.list_sessions m e = (λ h. tt, λ h. refl)
decide_request_iff accounts peer conn (Request.report_activity seat) m e = (λ h. tt, λ h. refl)
decide_request_iff accounts peer conn (Request.inhibit what who why mode) m e = (λ h. tt, λ h. refl)
decide_request_iff accounts peer conn (Request.release_inhibit id) m e = (λ h. tt, λ h. refl)
decide_request_iff accounts peer conn Request.list_inhibitors m e = (λ h. tt, λ h. refl)
decide_request_iff accounts peer conn Request.suspend m e = (λ h. tt, λ h. refl)
decide_request_iff accounts peer conn Request.reboot m e = (λ h. tt, λ h. refl)
decide_request_iff accounts peer conn Request.power_off m e = (λ h. tt, λ h. refl)
decide_request_iff accounts peer conn (Request.request_elevation s action) m e =
    permit_iff (is_authorized_requester e peer.uid) _ (requester_iff e peer.uid)
decide_request_iff accounts peer conn (Request.respond_elevation id answer) m e =
    permit_iff (is_id (compositor_conn_for e id) conn) _ (responder_iff e id conn)

-- A request is authorized exactly when the peer is root, or the rule for that request allows it.
pub authorize_iff :
    (accounts : Accounts) (peer : PeerCred) (conn : ℕ) (r : Request) (m : SessionManager)
    (e : ElevationManager)
    → (authorize accounts peer conn r m e ≡ ok tt)
      ↔ ((peer.uid ≡ 0) ⊎ Allowed accounts peer conn r m e)
unfolding authorize
authorize_iff accounts peer conn r m e = elim (Bool-cases (peer.uid == 0)) [
  | inl root ↦ (λ h. inl (ground arith), λ h. ground arith)
  | inr user ↦ rw user (
    λ h. inr ((decide_request_iff accounts peer conn r m e).0 h),
    λ h. elim h [
      | inl root ↦ absurd (ground arith)
      | inr a ↦ (decide_request_iff accounts peer conn r m e).1 a
    ],
  )
]

-- A probe learns nothing. A user that answers a prompt that is not shown on its connection gets the
-- same error as for a prompt that does not exist, whatever the state of the prompts.
pub authorize-probe :
    (accounts : Accounts) (peer : PeerCred) (conn id : ℕ) (answer : ElevationResponse)
    (m m' : SessionManager) (e e' : ElevationManager) (q : PendingElevation)
    → 0 < peer.uid
    → lookup id e.pending ≡ some q
    → q.compositor_conn ≢ conn
    → lookup id e'.pending ≡ none
    → (authorize accounts peer conn (Request.respond_elevation id answer) m e
        ≡ err (unknown_elevation_request id))
      × (authorize accounts peer conn (Request.respond_elevation id answer) m' e'
          ≡ err (unknown_elevation_request id))
unfolding authorize compositor_conn_for
authorize-probe accounts peer conn id answer m m' e e' q user pending elsewhere missing =
    ground arith
