-- ===== src/Daemon/Locked.antt =====
-- What the daemon does to the locks (src/main.rs): only an accepted credential opens one.
use mitos_session.Base.{Message, ℕ, ◌≡◌, inl, inr, Option, List, arith, Option-cases}
use mitos_session.Base.Map.{lookup, id_key}
use mitos_session.Auth.{AuthRequest}
use mitos_session.Session.State.{SessionState}
use mitos_session.Elevation.{ElevationOutcome, AbandonedElevation, peek, attempt, cancel}
use mitos_session.Elevation.Action.{ElevationAction, ElevationResponse}
use mitos_session.Config.{elevation_auth_policy}
use mitos_session.Ipc.{Event}
use mitos_session.Daemon.Kept.{
  tell_session-Kept, move_and_tell-Kept, spawn-Kept, notify_all-Kept, resolve-Kept,
}
use mitos_session.Daemon.State.{Host, Daemon, tell_session, move_and_tell}
use mitos_session.Daemon.Handlers.{try_spawn_compositor}
use mitos_session.Daemon.Prompts.{
  open_on, start_for, start_elevation, resolve, check_answer, answer_with, respond_elevation,
  notify_all,
}

pub tell_session-locks : (id : ℕ) (e : Event) (d : Daemon) → (tell_session id e d).locks ≡ d.locks
tell_session-locks id e d = (tell_session-Kept id e d).0

pub move_and_tell-locks :
    (id : ℕ) (s : SessionState) (e : Event) (d : Daemon) → (move_and_tell id s e d).locks ≡ d.locks
move_and_tell-locks id s e d = (move_and_tell-Kept id s e d).0

pub spawn-locks :
    (host : Host) (id : ℕ) (d : Daemon) → (try_spawn_compositor host id d).locks ≡ d.locks
spawn-locks host id d = (spawn-Kept host id d).0

pub notify_all-locks :
    (reason : Message) (rest : List AbandonedElevation) (d : Daemon)
    → (notify_all reason rest d).locks ≡ d.locks
notify_all-locks reason rest d = (notify_all-Kept reason rest d).0

resolve-locks :
    (id : ℕ) (o : Option ElevationOutcome) (d : Daemon) → (resolve id o d).1.locks ≡ d.locks
resolve-locks id o d = (resolve-Kept id o d).0

pub respond-locks :
    (host : Host) (id : ℕ) (answer : ElevationResponse) (d : Daemon)
    → (respond_elevation host id answer d).1.locks ≡ d.locks
unfolding respond_elevation answer_with check_answer
respond-locks host id ElevationResponse.cancelled d = elim (Option-cases (peek d.elevation id)) [
  | inl e ↦ ground arith
  | inr (info, e) ↦ ground (
    arith,
    resolve-locks id (cancel d.elevation id).0 (record d { elevation = (cancel d.elevation id).1 }),
  )
]
respond-locks host id (ElevationResponse.password w) d = elim (Option-cases (peek d.elevation id)) [
  | inl e ↦ ground arith
  | inr (info, e) ↦ elim (Option-cases (lookup info.session_id d.sessions.sessions)) [
    | inl f ↦ ground arith
    | inr (c, f) ↦
        let r : AuthRequest = record {
          session_id = info.session_id;
          user_name = c.session.user_name;
          password = w;
        } in
        let a =
          attempt d.elevation id d.authenticator r (elevation_auth_policy d.settings.elevation)
            host.now in
        ground (arith, resolve-locks id a.0 (record d { elevation = a.1 }))
  ]
]

pub start-locks :
    (host : Host) (conn s : ℕ) (action : ElevationAction) (d : Daemon)
    → (start_elevation host conn s action d).1.locks ≡ d.locks
unfolding start_elevation start_for open_on
start-locks host conn s action d = ground arith
