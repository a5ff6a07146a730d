-- ===== src/Session/Tests.antt =====
-- The theorems on sessions at concrete inputs.
use mitos_session.Session.State.{SessionState, SessionType}
use mitos_session.Base.Map.{lookup, id_key}
use mitos_session.Base.{ℕ, ◌+◌, ◌≤◌, ◌<◌, ◌≡◌, ◌≢◌, ◌⊎◌, none, some, [], ◌∷◌, inc_u32, bytes, arith}
use mitos_session.Errors.{SessionError, permission_denied, ok, err}
use mitos_session.Users.{User}
use mitos_session.Session.{
  SessionContext, SessionSettings, SessionHost, begin, SessionManager, new, create_session,
}
use mitos_session.Session.Manager.{new-Inv, full_house, sessions_of, create_session_lem}

abbrev pub ada : User
ada = record {
  uid = 1000;
  gid = 1000;
  name = bytes "ada";
  home = bytes "/home/ada";
  shell = bytes "/bin/sh";
}

-- A host on which every call succeeds.
abbrev pub sound_host : SessionHost
sound_host = record { home_ready = λ u. ok tt; runtime_dir_ready = λ dir u. ok tt; now = 100 }

abbrev pub one_each : SessionSettings
one_each = record {
  runtime_dir = bytes "/run/user";
  max_sessions_per_user = 1;
  default_session_type = bytes "wayland";
  compositor_binary = bytes "gui";
  max_compositor_restarts = 3;
}

create_session_lem_example :
    let host = sound_host in
    let m = new in
    let u = ada in
    let seat = bytes "seat0" in
    let t = SessionType.wayland in
    let s = one_each in
    let other : ℕ = 2 in
    let (reply, m') = create_session host m u seat t s in
    let made = begin host m.next_id u seat t s in
    ((s.max_sessions_per_user ≤ sessions_of u.uid m.sessions)
      × (reply ≡ err (permission_denied (full_house u (sessions_of u.uid m.sessions) s)))
      × (m' ≡ m))
    ⊎ ((sessions_of u.uid m.sessions < s.max_sessions_per_user)
        × ((e : SessionError) × (made ≡ err e) × (reply ≡ err e))
        × (m' ≡ record m { next_id = inc_u32 m.next_id }))
    ⊎ ((sessions_of u.uid m.sessions < s.max_sessions_per_user)
        × (reply ≡ ok m.next_id)
        × (lookup m.next_id m.sessions ≡ none)
        × ((c : SessionContext) × (made ≡ ok c)
            × (lookup m.next_id m'.sessions ≡ some c)
            × (c.state ≡ SessionState.starting)
            × (c.user ≡ u)
            × (c.session.seat_id ≡ seat)
            × (c.compositor_conn ≡ none))
        × (m.next_id ≢ other → lookup other m'.sessions ≡ lookup other m.sessions)
        × (m'.next_id ≡ inc_u32 m.next_id)
        × (sessions_of u.uid m'.sessions ≡ sessions_of u.uid m.sessions + 1))
create_session_lem_example =
    create_session_lem sound_host new ada (bytes "seat0") SessionType.wayland one_each 2 new-Inv
      (omega arith)

-- Session 1 of ada, which is active on compositor 10.
abbrev pub running : SessionContext
running = record {
  session = record {
    id = 1;
    uid = 1000;
    user_name = bytes "ada";
    seat_id = bytes "seat0";
    session_type = SessionType.wayland;
    vt = none;
    created_at = 100;
  };
  user = ada;
  state = SessionState.active;
  environment = record { vars = [] };
  compositor_conn = some 10;
  compositor_process = some 500;
  compositor_restarts = 0;
}

abbrev pub one_running : SessionManager
one_running = record { sessions = (1, running) ∷ []; next_id = 2 }

abbrev one_locked : SessionManager
one_locked = record {
  sessions = (1, record running { state = SessionState.locked }) ∷ [];
  next_id = 2;
}
