-- ===== src/Session.antt =====
-- src/session: the lifecycle states, the record kept for each session, its creation and teardown,
-- and the registry of sessions (`SessionManager`).
pub mod State
pub mod Env
pub mod Manager
pub mod Tests
use mitos_session.Base.{
  ℕ, Bool, Option, none, some, List, [], ◌∷◌, leb, ◌==◌, if◌then◌else◌, inc_u32, as_u32, length,
  select, Text, lit, num, txt, Message,
}
use mitos_session.Base.Map.{Map, values, lookup, insert, remove, adjust, id_key}
use mitos_session.Errors.{permission_denied, unknown_session, Result, ok, err, ◌>>=◌}
use mitos_session.Users.{User}
use mitos_session.Session.State.{SessionState, starting, transition, SessionType, closed}
use mitos_session.Session.Env.{Environment, for_session}

-- session/session.rs; `created_at` is the clock's reading.
pub record Session : Type 0 where
  pub id : ℕ
  pub uid : ℕ
  pub user_name : Text
  pub seat_id : Text
  pub session_type : SessionType
  pub vt : Option ℕ
  pub created_at : ℕ

-- session/context.rs. A child process is its pid.
pub record SessionContext : Type 0 where
  pub session : Session
  pub user : User
  pub state : SessionState
  pub environment : Environment
  pub compositor_conn : Option ℕ
  pub compositor_process : Option ℕ
  pub compositor_restarts : ℕ

-- The part of `config::SessionSettings` that this module reads.
pub record SessionSettings : Type 0 where
  pub runtime_dir : Text
  pub max_sessions_per_user : ℕ
  pub default_session_type : Text
  pub compositor_binary : Text
  pub max_compositor_restarts : ℕ

-- `SessionContext::transition`: an illegal one leaves the context alone.
unfoldable pub transition_context : SessionContext → SessionState → Result SessionContext
transition_context ctx next = do
  state ← transition ctx.state next
  ok (record ctx { state = state })

-- `let _ = ctx.transition(next)`.
unfoldable pub try_transition : SessionContext → SessionState → SessionContext
unfolding transition_context
try_transition ctx next = elim (transition_context ctx next) [ ok c ↦ c | err e ↦ ctx ]

-- The file-system calls of `lifecycle::begin`, and the clock: what `ensure_home_ready` and
-- `ensure_runtime_dir` answer.
pub record SessionHost : Type 0 where
  pub home_ready : User → Result (Unit {0})
  pub runtime_dir_ready : Message → User → Result (Unit {0})
  pub now : ℕ

-- `lifecycle::begin`.
unfoldable pub begin :
    SessionHost → ℕ → User → Text → SessionType → SessionSettings → Result SessionContext
begin host id user seat_id session_type settings = do
  ready ← host.home_ready user
  let (environment, runtime_dir) = for_session user id session_type seat_id settings.runtime_dir
  made ← host.runtime_dir_ready runtime_dir user
  ok (record {
    session = record {
      id = id;
      uid = user.uid;
      user_name = user.name;
      seat_id = seat_id;
      session_type = session_type;
      vt = none;
      created_at = host.now;
    };
    user = user;
    state = starting;
    environment = environment;
    compositor_conn = none;
    compositor_process = none;
    compositor_restarts = 0;
  })

-- `lifecycle::end`: the record afterwards, and the process that was killed and reaped, if any. It
-- always succeeds.
unfoldable pub end : SessionContext → SessionContext × Option ℕ
end ctx = (
  record ctx {
    compositor_process = none;
    state = elim (transition ctx.state closed) [ ok s ↦ s | err e ↦ closed ];
  },
  ctx.compositor_process,
)

-- session/manager.rs.
pub record SessionManager : Type 0 where
  pub sessions : Map ℕ SessionContext
  pub next_id : ℕ

-- `SessionManager::new()`.
abbrev pub new : SessionManager
new = record { sessions = []; next_id = 1 }

abbrev pub of_user : User → SessionContext → Bool
of_user user c = c.user.uid == user.uid

-- `values().filter(..).count() as u32`.
abbrev pub existing : SessionManager → User → ℕ
existing m user = as_u32 (length (select (of_user user) (values m.sessions)))

unfoldable pub create_session :
    SessionHost
    → SessionManager
    → User
    → Text
    → SessionType
    → SessionSettings
    → Result ℕ × SessionManager
unfolding begin
create_session host m user seat_id session_type settings =
    if leb settings.max_sessions_per_user (existing m user)
    then (
      err (
          permission_denied (
            txt user.name
            ∷ lit " already has "
            ∷ num (existing m user)
            ∷ lit " session(s) open (limit "
            ∷ num settings.max_sessions_per_user
            ∷ lit ")"
            ∷ [])),
      m,
    )
    else elim (begin host m.next_id user seat_id session_type settings) [
      | err e ↦ (err e, record m { next_id = inc_u32 m.next_id })
      | ok ctx ↦ (
        ok m.next_id,
        record { sessions = insert m.next_id ctx m.sessions; next_id = inc_u32 m.next_id },
      )
    ]

-- `terminate_session`: the record is removed, and dropped after `lifecycle::end`; the answer holds
-- the process that was killed.
unfoldable pub terminate_session : SessionManager → ℕ → Result (Option ℕ) × SessionManager
unfolding end
terminate_session m id = elim (lookup id m.sessions) [
  | none ↦ (err (unknown_session id), m)
  | some ctx ↦ (ok (end ctx).1, record m { sessions = remove id m.sessions })
]

unfoldable pub get : SessionManager → ℕ → Result SessionContext
get m id = elim (lookup id m.sessions) [ none ↦ err (unknown_session id) | some c ↦ ok c ]

-- A write through `get_mut`, where the session is there.
unfoldable pub update : SessionManager → ℕ → (SessionContext → SessionContext) → SessionManager
update m id f = record m { sessions = adjust id f m.sessions }

unfoldable pub list : SessionManager → List SessionContext
list m = values m.sessions

unfoldable pub set_state : SessionManager → ℕ → SessionState → Result SessionManager
unfolding get transition_context
set_state m id next = do
  ctx ← get m id
  ctx' ← transition_context ctx next
  ok (record m { sessions = adjust id (λ _. ctx') m.sessions })

unfoldable pub owner_uid : SessionManager → ℕ → Result ℕ
unfolding get
owner_uid m id = do ctx ← get m id; ok ctx.session.uid
