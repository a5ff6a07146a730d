-- ===== src/Daemon/Records.antt =====
-- The registry of sessions under the writes that keep a record's session and user, under the orderly
-- end, and when a connection goes (src/session/manager.rs, src/power, src/main.rs).
use mitos_session.Session.{update, list}
use mitos_session.Base.{
  Text, ℕ, ◌+◌, ◌-◌, ◌≤◌, ◌<◌, ◌≡◌, refl, ◌⊎◌, inl, inr, none, some, List, [], ◌∷◌, arith,
  Option-cases,
}
use mitos_session.Base.Map.{Map, lookup, adjust, IsMap, lookup-adjust, id_key}
use mitos_session.Base.Map.Keys.{adjust-IsMap}
use mitos_session.Base.Map.Fresh.{AtMost}
use mitos_session.Errors.{Result-cases}
use mitos_session.Users.{User}
use mitos_session.Session.State.{SessionState, transition, SessionType}
use mitos_session.Session.{
  SessionContext, SessionSettings, transition_context, try_transition, SessionHost, SessionManager,
  create_session, terminate_session,
}
use mitos_session.Session.Manager.{Inv, create_session-Inv, terminate_session-Inv}
use mitos_session.Power.{ids_of, terminate_each, terminate_all}
use mitos_session.Daemon.Dispatch.{forget_conn}

-- A well-formed registry whose next id is at most `n`.
abbrev pub Held : ℕ → SessionManager → Type 0
Held n m = Inv m × (m.next_id ≤ n)

-- A write that keeps the session and the user of a record.
abbrev pub Keeps : (SessionContext → SessionContext) → Type 0
Keeps f = (c : SessionContext) → ((f c).session ≡ c.session) × ((f c).user ≡ c.user)

adjust-AtMost :
    (n k : ℕ) (f : SessionContext → SessionContext) (m : Map ℕ SessionContext)
    → AtMost n m
    → AtMost n (adjust k f m)
adjust-AtMost n k f [] q = tt
adjust-AtMost n k f ((j, w) ∷ m) q = ground (arith, adjust-AtMost n k f m q.1)

pub update-Held :
    (n : ℕ) (m : SessionManager) (id : ℕ) (f : SessionContext → SessionContext)
    → Keeps f
    → Held n m
    → Held n (update m id f)
unfolding update
update-Held n m id f keeps (v, few) = (
  record {
    ids = adjust-IsMap id f m.sessions v.ids;
    positive = v.positive;
    handed_out = adjust-AtMost (m.next_id - 1) id f m.sessions v.handed_out;
    own = λ k c e. elim (Option-cases (lookup k m.sessions)) [
      | inl q ↦ absurd (ground (arith, lookup-adjust id k f m.sessions, q, e))
      | inr (b, q) ↦ ground (arith, lookup-adjust id k f m.sessions, v.own k b q, keeps b)
    ];
  },
  few,
)

pub try_transition-Keeps : (s : SessionState) → Keeps (λ c. try_transition c s)
unfolding try_transition transition_context
try_transition-Keeps s c = elim (Result-cases (transition c.state s)) [
  | inl (t, e) ↦ ground (arith, e)
  | inr (x, e) ↦ ground (arith, e)
]

pub register-Keeps :
    (conn : ℕ) (s : SessionState)
    → Keeps (λ c. try_transition (record c { compositor_conn = some conn }) s)
register-Keeps conn s c = try_transition-Keeps s (record c { compositor_conn = some conn })

pub create_session-Held :
    (n : ℕ) (host : SessionHost) (m : SessionManager) (u : User) (seat : Text) (t : SessionType)
    (s : SessionSettings)
    → n + 1 < 4294967296
    → Held n m
    → Held (n + 1) (create_session host m u seat t s).1
create_session-Held n host m u seat t s h (v, few) =
    (create_session-Inv host m u seat t s (omega arith) v, unfold create_session in ground arith)

pub terminate_session-Held :
    (n : ℕ) (m : SessionManager) (id : ℕ) → Held n m → Held n (terminate_session m id).1
terminate_session-Held n m id (v, few) =
    (terminate_session-Inv m id v, unfold terminate_session in ground arith)

terminate_each-Held :
    (n : ℕ) (ids : List ℕ) (m : SessionManager) → Held n m → Held n (terminate_each ids m)
unfolding terminate_each
terminate_each-Held n [] m h = h
terminate_each-Held n (id ∷ ids) m h =
    terminate_each-Held n ids (terminate_session m id).1 (terminate_session-Held n m id h)

pub terminate_all-Held : (n : ℕ) (m : SessionManager) → Held n m → Held n (terminate_all m)
unfolding terminate_all
terminate_all-Held n m h = terminate_each-Held n (ids_of (list m)) m h

lookup-forget :
    (conn k : ℕ) (m : Map ℕ SessionContext)
    → ((lookup k m ≡ none) × (lookup k (forget_conn conn m) ≡ none))
      ⊎ ((b : SessionContext) × (c : SessionContext) × (lookup k m ≡ some b)
          × (lookup k (forget_conn conn m) ≡ some c)
          × (c.session ≡ b.session)
          × (c.user ≡ b.user))
lookup-forget conn k [] = inl (refl, refl)
lookup-forget conn k ((j, w) ∷ m) = ground (arith, lookup-forget conn k m)

forget-IsMap : (conn : ℕ) (m : Map ℕ SessionContext) → IsMap m → IsMap (forget_conn conn m)
forget-IsMap conn [] h = tt
forget-IsMap conn ((j, w) ∷ m) h = ground (arith, forget-IsMap conn m, lookup-forget conn j m)

forget-AtMost : (n conn : ℕ) (m : Map ℕ SessionContext) → AtMost n m → AtMost n (forget_conn conn m)
forget-AtMost n conn [] q = tt
forget-AtMost n conn ((j, w) ∷ m) q = (q.0, forget-AtMost n conn m q.1)

pub forget-Held :
    (n conn : ℕ) (m : SessionManager)
    → Held n m
    → Held n (record m { sessions = forget_conn conn m.sessions })
forget-Held n conn m (v, few) = (
  record {
    ids = forget-IsMap conn m.sessions v.ids;
    positive = v.positive;
    handed_out = forget-AtMost (m.next_id - 1) conn m.sessions v.handed_out;
    own = λ k c e. elim (lookup-forget conn k m.sessions) [
      | inl (p, q) ↦ absurd (ground (arith, q, e))
      | inr (b, d, p, q, same, kept) ↦ ground (arith, v.own k b p, q, same, kept, e)
    ];
  },
  few,
)
