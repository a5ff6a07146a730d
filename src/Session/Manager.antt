-- ===== src/Session/Manager.antt =====
-- `SessionManager` (src/session/manager.rs): the cap per user, ids that are never reused, and the
-- operations on every branch.
use mitos_session.Base.Map.Keys.{insert-IsMap, remove-IsMap}
use mitos_session.Base.{
  ℕ, ◌+◌, ◌-◌, ◌≤◌, ◌<◌, ◌≡◌, ◌≢◌, ◌⊎◌, inl, inr, true, none, some, [], ◌∷◌, arith, leb, Bool-cases,
  Option-cases, inc_u32, Text, Message, txt, lit, num, ap, refl, length, ◌==◌, if◌then◌else◌,
}
use mitos_session.Base.Map.{
  Map, lookup, insert, IsMap, lookup-insert, lookup-remove, lookup-adjust, id_key,
}
use mitos_session.Base.Map.Fresh.{
  AtMost, AtMost-mono, insert-AtMost, remove-AtMost, lookup_above, insert_fresh, count_where,
  count_where-append,
}
use mitos_session.Errors.{SessionError, unknown_session, permission_denied, ok, err, Result-cases}
use mitos_session.Users.{User}
use mitos_session.Session.State.{SessionState, can_transition_to, transition, SessionType}
use mitos_session.Session.{
  SessionContext, SessionSettings, SessionHost, begin, SessionManager, new, of_user, existing,
  create_session, terminate_session, set_state, new, existing, begin,
}

-- No id stands twice, each is below the counter, and each record carries its own id and the uid of
-- its user.
pub record Inv (m : SessionManager) : Type 0 where
  pub ids : IsMap m.sessions
  pub positive : 0 < m.next_id
  pub handed_out : AtMost (m.next_id - 1) m.sessions
  pub own :
      (id : ℕ) (c : SessionContext)
      → lookup id m.sessions ≡ some c
      → (c.session.id ≡ id) × (c.session.uid ≡ c.user.uid)

pub new-Inv : Inv new
new-Inv = record { ids = tt; positive = omega arith; handed_out = tt; own = λ id c e. absurd (cc) }

next_fresh : (m : SessionManager) → Inv m → lookup m.next_id m.sessions ≡ none
next_fresh m v =
    lookup_above (m.next_id - 1) m.next_id m.sessions v.handed_out (omega (arith, v.positive))

-- What `lifecycle::begin` hands back: a record in `Starting` for that id, user and seat, with no
-- compositor yet.
begin_lem :
    (host : SessionHost) (id : ℕ) (u : User) (seat : Text) (t : SessionType) (s : SessionSettings)
    {c : SessionContext}
    → begin host id u seat t s ≡ ok c
    → (c.session.id ≡ id)
      × (c.session.uid ≡ u.uid)
      × (c.user ≡ u)
      × (c.session.seat_id ≡ seat)
      × (c.state ≡ SessionState.starting)
      × (c.compositor_conn ≡ none)
unfolding begin
begin_lem host id u seat t s h = ground arith

-- What a user with too many sessions is told.
abbrev pub full_house : User → ℕ → SessionSettings → Message
full_house u n s =
    txt u.name
    ∷ lit " already has "
    ∷ num n
    ∷ lit " session(s) open (limit "
    ∷ num s.max_sessions_per_user
    ∷ lit ")"
    ∷ []

-- How many sessions a user has.
abbrev pub sessions_of : ℕ → Map ℕ SessionContext → ℕ
sessions_of uid [] = 0
sessions_of uid ((id, c) ∷ m) =
    if c.user.uid == uid then 1 + sessions_of uid m else sessions_of uid m

count_lem : (u : User) (m : Map ℕ SessionContext) → count_where (of_user u) m ≡ sessions_of u.uid m
count_lem u [] = refl
count_lem u ((id, c) ∷ m) = ground (arith, count_lem u m)

sessions_of-length : (uid : ℕ) (m : Map ℕ SessionContext) → sessions_of uid m ≤ length m
sessions_of-length uid [] = omega arith
sessions_of-length uid ((id, c) ∷ m) = ground (arith, sessions_of-length uid m)

existing_lem :
    (m : SessionManager) (u : User)
    → length m.sessions < 4294967296
    → existing m u ≡ sessions_of u.uid m.sessions
existing_lem m u small = ground (arith, count_lem u m.sessions, sessions_of-length u.uid m.sessions)

-- In a manager that keeps its invariant and has fewer than 2^32 sessions: creating a session is
-- refused exactly when the user already has the allowed number; the manager is then unchanged. If
-- preparing it fails, that error is passed on, no session is added, and the id is used up all the
-- same. Otherwise the session is recorded as it was prepared, under an id that no session has, in
-- `Starting`; every other session stays as it was, and the user has one session more.
pub create_session_lem :
    (host : SessionHost) (m : SessionManager) (u : User) (seat : Text) (t : SessionType)
    (s : SessionSettings) (other : ℕ)
    → Inv m
    → length m.sessions < 4294967296
    → let (reply, m') = create_session host m u seat t s in
      let made = begin host m.next_id u seat t s in
      ((s.max_sessions_per_user ≤ sessions_of u.uid m.sessions)
        × (reply ≡ err (permission_denied (full_house u (sessions_of u.uid m.sessions) s)))
        × (m' ≡ m))
      ⊎ ((sessions_of u.uid m.sessions < s.max_sessions_per_user)
          × ((e : SessionError) × (made ≡ err e) × (reply ≡ err e))
          × (m' ≡ record m { next_id = inc_u32 m.next_id }))
      ⊎ ((sessions_of u.uid m.sessions < s.max_sessions_per_user)
          × (reply ≡ ok m.next_id)
          × (lookup m.next_id m.sessions ≡ none)
          × ((c : SessionContext) × (made ≡ ok c)
              × (lookup m.next_id m'.sessions ≡ some c)
              × (c.state ≡ SessionState.starting)
              × (c.user ≡ u)
              × (c.session.seat_id ≡ seat)
              × (c.compositor_conn ≡ none))
          × (m.next_id ≢ other → lookup other m'.sessions ≡ lookup other m.sessions)
          × (m'.next_id ≡ inc_u32 m.next_id)
          × (sessions_of u.uid m'.sessions ≡ sessions_of u.uid m.sessions + 1))
unfolding create_session
create_session_lem host m u seat t s other v small =
    let count = existing_lem m u small in
    elim (Bool-cases (leb s.max_sessions_per_user (existing m u))) [
      | inl full ↦ inl (
        ground (arith, count),
        rw (full, create_session) (ap (λ n. err (permission_denied (full_house u n s))) count),
        ground arith,
      )
      | inr room ↦ inr (elim (Result-cases (begin host m.next_id u seat t s)) [
        | inr (x, e) ↦ inl (ground (arith, count), (x, e, ground arith), ground arith)
        | inl (c, e) ↦
            let fresh = next_fresh m v in
            let (_, _, user, place, state, conn) = begin_lem host m.next_id u seat t s e in
            inr (
              ground (arith, count),
              ground arith,
              fresh,
              (
                c,
                e,
                ground (arith, lookup-insert m.next_id m.next_id c m.sessions),
                state,
                user,
                place,
                conn,
              ),
              ground (arith, lookup-insert m.next_id other c m.sessions),
              ground arith,
              ground (
                arith,
                insert_fresh m.next_id c m.sessions fresh,
                count_where-append (of_user u) m.sessions ((m.next_id, c) ∷ []),
                count_lem u m.sessions,
                count_lem u (insert m.next_id c m.sessions),
                user,
              ),
            )
      ])
    ]

inserted-Inv :
    (m : SessionManager) (c : SessionContext) (u : User)
    → m.next_id + 1 < 4294967296
    → Inv m
    → c.session.id ≡ m.next_id
    → c.session.uid ≡ u.uid
    → c.user ≡ u
    → Inv (record { sessions = insert m.next_id c m.sessions; next_id = inc_u32 m.next_id })
inserted-Inv m c u h v id uid user = record {
  ids = insert-IsMap m.next_id c m.sessions v.ids;
  positive = omega arith;
  handed_out =
      insert-AtMost (inc_u32 m.next_id - 1) m.next_id c m.sessions (omega arith)
        (AtMost-mono (m.next_id - 1) (inc_u32 m.next_id - 1) m.sessions (omega arith) v.handed_out);
  own = λ k d e. ground (arith, lookup-insert m.next_id k c m.sessions, v.own k d);
}

-- While the counter has not reached its last id, creating a session keeps the registry well formed,
-- whatever the answer: no id stands twice, each was handed out, and each record carries its own id
-- and the uid of its user.
pub create_session-Inv :
    (host : SessionHost) (m : SessionManager) (u : User) (seat : Text) (t : SessionType)
    (s : SessionSettings)
    → m.next_id + 1 < 4294967296
    → Inv m
    → Inv (create_session host m u seat t s).1
unfolding create_session
create_session-Inv host m u seat t s h v =
    elim (Bool-cases (leb s.max_sessions_per_user (existing m u))) [
      | inl full ↦ rw full v
      | inr room ↦ rw room (elim (Result-cases (begin host m.next_id u seat t s)) [
        | inr (x, e) ↦
            rw (e, create_session)
              (record {
                ids = v.ids;
                positive = omega arith;
                handed_out =
                    AtMost-mono (m.next_id - 1) (inc_u32 m.next_id - 1) m.sessions (omega arith)
                      v.handed_out;
                own = v.own;
              })
        | inl (c, e) ↦
            rw (e, create_session)
              (inserted-Inv m c u h v (begin_lem host m.next_id u seat t s e).0
                (begin_lem host m.next_id u seat t s e).1 (begin_lem host m.next_id u seat t s e).2)
      ])
    ]

-- Ending a session removes it and no other, and kills its compositor process, if it has one; an
-- unknown id is an error and changes nothing.
pub terminate_session_lem :
    (m : SessionManager) (id other : ℕ)
    → let (reply, m') = terminate_session m id in
      ((lookup id m.sessions ≡ none) × (reply ≡ err (unknown_session id)) × (m' ≡ m))
      ⊎ ((c : SessionContext) × (lookup id m.sessions ≡ some c)
          × (reply ≡ ok c.compositor_process)
          × (lookup id m'.sessions ≡ none)
          × (id ≢ other → lookup other m'.sessions ≡ lookup other m.sessions)
          × (m'.next_id ≡ m.next_id))
unfolding terminate_session
terminate_session_lem m id other = elim (Option-cases (lookup id m.sessions)) [
  | inl e ↦ inl (e, ground arith, ground arith)
  | inr (c, e) ↦ inr (
    c,
    e,
    ground arith,
    ground (arith, lookup-remove id id m.sessions),
    ground (arith, lookup-remove id other m.sessions),
    ground arith,
  )
]

pub terminate_session-Inv : (m : SessionManager) (id : ℕ) → Inv m → Inv (terminate_session m id).1
unfolding terminate_session
terminate_session-Inv m id v = elim (Option-cases (lookup id m.sessions)) [
  | inl e ↦ rw (e, terminate_session) v
  | inr (c, e) ↦
      rw (e, terminate_session)
        (record {
          ids = remove-IsMap id m.sessions v.ids;
          positive = v.positive;
          handed_out = remove-AtMost (m.next_id - 1) id m.sessions v.handed_out;
          own = λ k d e. ground (arith, lookup-remove id k m.sessions, v.own k d);
        })
]

-- Where `set_state` succeeds, the session is there, the transition is one that the lifecycle
-- allows, that session is in the new state with everything else of it as before, and no other
-- session changes.
pub set_state_lem :
    (m : SessionManager) (id other : ℕ) (next : SessionState) {m' : SessionManager}
    → set_state m id next ≡ ok m'
    → (c : SessionContext) × (lookup id m.sessions ≡ some c)
      × (can_transition_to c.state next ≡ true)
      × (lookup id m'.sessions ≡ some (record c { state = next }))
      × (id ≢ other → lookup other m'.sessions ≡ lookup other m.sessions)
unfolding set_state transition
set_state_lem m id other next h = elim (Option-cases (lookup id m.sessions)) [
  | inl e ↦ absurd (ground arith)
  | inr (c, e) ↦ (
    c,
    e,
    ground arith,
    ground (arith, lookup-adjust id id (λ _. record c { state = next }) m.sessions),
    ground (arith, lookup-adjust id other (λ _. record c { state = next }) m.sessions),
  )
]
