-- ===== src/Power.antt =====
-- src/power: suspending the machine, and the orderly end before a reboot or a power-off. The backend
-- is a parameter. Waiting for the holders of `Delay` inhibitors changes nothing but the time.
pub mod Backends
mod Tests
use mitos_session.Base.{lit, ℕ, Option, none, some, List, [], ◌∷◌, if◌then◌else◌}
use mitos_session.Errors.{permission_denied, Result, ok, err}
use mitos_session.Session.{SessionContext, SessionManager, terminate_session, list}
use mitos_session.Lock.{LockPolicy, LockManager, lock}
use mitos_session.Lock.Inhibitor.{InhibitWhat, blocks}
use mitos_session.Ipc.{Event, ConnRegistry, send_event}

-- `let _ = locks.lock(..)`.
unfoldable pub try_lock : LockPolicy → ℕ → LockManager → LockManager
unfolding lock
try_lock policy id locks = elim (lock locks id policy) [ ok l ↦ l | err e ↦ locks ]

unfoldable pub send_if : Option ℕ → Event → ConnRegistry → ConnRegistry
unfolding send_event
send_if none e r = r
send_if (some c) e r = send_event r c e

-- The loop of `suspend` over the sessions.
unfoldable pub prepare_all :
    LockPolicy → List SessionContext → LockManager → ConnRegistry → LockManager × ConnRegistry
unfolding try_lock send_if
prepare_all policy [] locks registry = (locks, registry)
prepare_all policy (ctx ∷ rest) locks registry =
    prepare_all policy rest
      (if policy.lock_on_suspend then try_lock policy ctx.session.id locks else locks)
      (send_if ctx.compositor_conn Event.prepare_for_sleep registry)

unfoldable pub suspend :
    SessionManager
    → LockManager
    → LockPolicy
    → ConnRegistry
    → Result (Unit {0})
    → Result (Unit {0}) × LockManager × ConnRegistry
unfolding blocks prepare_all list
suspend sessions locks policy registry backend =
    if blocks locks.inhibitors InhibitWhat.suspend
    then (
      err (permission_denied (lit "an application is inhibiting suspend" ∷ [])),
      locks,
      registry,
    )
    else let (locks', registry') = prepare_all policy (list sessions) locks registry in
      (backend, locks', registry')

abbrev pub ids_of : List SessionContext → List ℕ
ids_of [] = []
ids_of (ctx ∷ rest) = ctx.session.id ∷ ids_of rest

-- `for id in ids { let _ = sessions.terminate_session(id); }`.
unfoldable pub terminate_each : List ℕ → SessionManager → SessionManager
unfolding terminate_session
terminate_each [] m = m
terminate_each (id ∷ ids) m = terminate_each ids (terminate_session m id).1

unfoldable pub terminate_all : SessionManager → SessionManager
unfolding terminate_each list
terminate_all m = terminate_each (ids_of (list m)) m

unfoldable pub reboot :
    SessionManager → LockManager → Result (Unit {0}) → Result (Unit {0}) × SessionManager
unfolding blocks terminate_all
reboot sessions locks backend =
    if blocks locks.inhibitors InhibitWhat.shutdown
    then (
      err (permission_denied (lit "an application is inhibiting shutdown/reboot" ∷ [])),
      sessions,
    )
    else (backend, terminate_all sessions)

unfoldable pub poweroff :
    SessionManager → LockManager → Result (Unit {0}) → Result (Unit {0}) × SessionManager
unfolding blocks terminate_all
poweroff sessions locks backend =
    if blocks locks.inhibitors InhibitWhat.shutdown
    then (err (permission_denied (lit "an application is inhibiting shutdown" ∷ [])), sessions)
    else (backend, terminate_all sessions)

-- The loop of `on_resume`.
unfoldable pub resume_all : List SessionContext → ConnRegistry → ConnRegistry
unfolding send_if
resume_all [] r = r
resume_all (ctx ∷ rest) r = resume_all rest (send_if ctx.compositor_conn Event.resumed_from_sleep r)

unfoldable pub on_resume : SessionManager → ConnRegistry → ConnRegistry
unfolding resume_all list
on_resume sessions registry = resume_all (list sessions) registry
