-- ===== src/Daemon/Answers.antt =====
-- Who is told how an elevation prompt ended (src/main.rs: `respond_elevation`).
use mitos_session.Base.{
  Text, ℕ, ◌≡◌, refl, inl, inr, true, none, some, [], ◌∷◌, arith, Option-cases, Has,
  Has-append_right, Has-append_left,
}
use mitos_session.Base.Map.{lookup, lookup-remove, id_key}
use mitos_session.Errors.{ok}
use mitos_session.Auth.{AuthPolicy, AuthRequest, AuthOutcome, Authenticator, check}
use mitos_session.Session.{SessionContext}
use mitos_session.Elevation.{PendingElevation, ElevationOutcome, ElevationManager, peek, attempt}
use mitos_session.Elevation.Action.{ElevationResponse}
use mitos_session.Config.{elevation_auth_policy}
use mitos_session.Ipc.{Response, Event, Packet, ConnRegistry, send, send_response, send_event}
use mitos_session.Daemon.State.{Host, Daemon}
use mitos_session.Daemon.Prompts.{resolve, check_answer, answer_with, respond_elevation}

-- What is sent to a live connection stands in its outbox, and stays there.
send-Has :
    (r : ConnRegistry) (conn box : ℕ) (p : Packet)
    → lookup conn r.outboxes ≡ some box
    → Has (box, p) (send r conn p).sent
unfolding send
send-Has r conn box p h = rw (h, send) (Has-append_right (box, p) r.sent ((box, p) ∷ []) (inl refl))

send-keeps :
    (r : ConnRegistry) (conn : ℕ) (p : Packet) (x : ℕ × Packet)
    → Has x r.sent
    → Has x (send r conn p).sent
unfolding send
send-keeps r conn p x h = elim (Option-cases (lookup conn r.outboxes)) [
  | inl e ↦ rw (e, send) h
  | inr (t, e) ↦ rw (e, send) (Has-append_left x r.sent ((t, p) ∷ []) h)
]

send-outboxes : (r : ConnRegistry) (conn : ℕ) (p : Packet) → (send r conn p).outboxes ≡ r.outboxes
unfolding send
send-outboxes r conn p = elim (Option-cases (lookup conn r.outboxes)) [
  | inl e ↦ rw (e, send) refl
  | inr (t, e) ↦ rw (e, send) refl
]

resolve-told :
    (id shown asked : ℕ) (o : ElevationOutcome) (d : Daemon)
    → o.terminal ≡ true
    → lookup o.compositor_conn d.registry.outboxes ≡ some shown
    → lookup o.requester_conn d.registry.outboxes ≡ some asked
    → let sent = (resolve id (some o) d).1.registry.sent in
      Has (shown, Packet.event (Event.elevation_feedback id o.outcome)) sent
      × Has (shown, Packet.event (Event.hide_elevation_prompt id)) sent
      × Has (asked, Packet.response (Response.auth_result o.outcome)) sent
unfolding resolve send_event send_response
resolve-told id shown asked o d t c r =
    let feedback = Packet.event (Event.elevation_feedback id o.outcome) in
    let hide = Packet.event (Event.hide_elevation_prompt id) in
    let answer = Packet.response (Response.auth_result o.outcome) in
    let r1 = send d.registry o.compositor_conn feedback in
    let r2 = send r1 o.compositor_conn hide in
    let same1 = send-outboxes d.registry o.compositor_conn feedback in
    let same2 = send-outboxes r1 o.compositor_conn hide in
    rw t (
      send-keeps r2 o.requester_conn answer (shown, feedback)
          (send-keeps r1 o.compositor_conn hide (shown, feedback)
            (send-Has d.registry o.compositor_conn shown feedback c)),
      send-keeps r2 o.requester_conn answer (shown, hide)
          (send-Has r1 o.compositor_conn shown hide (rw same1 c)),
      send-Has r2 o.requester_conn asked answer (rw same2 (rw same1 r)),
    )

abbrev accepted_outcome : PendingElevation → ElevationOutcome
accepted_outcome q = record {
  session_id = q.session_id;
  compositor_conn = q.compositor_conn;
  requester_conn = q.requester_conn;
  outcome = AuthOutcome.success;
  terminal = true;
}

attempt-accepted :
    (m : ElevationManager) (id : ℕ) (q : PendingElevation) (a : Authenticator) (r : AuthRequest)
    (p : AuthPolicy) (now : ℕ)
    → lookup id m.pending ≡ some q
    → a r ≡ ok tt
    → ((attempt m id a r p now).0 ≡ some (accepted_outcome q))
      × (lookup id (attempt m id a r p now).1.pending ≡ none)
unfolding attempt check
attempt-accepted m id q a r p now e good =
    (ground (arith, e, good), ground (arith, e, good, lookup-remove id id m.pending))

respond-resolve :
    (host : Host) (id : ℕ) (w : Text) (q : PendingElevation) (c : SessionContext) (d : Daemon)
    → lookup id d.elevation.pending ≡ some q
    → lookup q.session_id d.sessions.sessions ≡ some c
    → let r : AuthRequest = record {
      session_id = q.session_id;
      user_name = c.session.user_name;
      password = w;
    } in
      let (o, m) =
        attempt d.elevation id d.authenticator r
          (elevation_auth_policy d.settings.elevation)
          host.now in
      respond_elevation host id (ElevationResponse.password w) d
      ≡ resolve id o (record d { elevation = m })
unfolding respond_elevation peek answer_with check_answer
respond-resolve host id w q c d e f =
    rw (e, peek, respond_elevation, answer_with, check_answer, f) refl

-- The answer to a prompt is checked for the user of the prompt's session, and both sides learn the
-- outcome. Let a prompt be pending for a session that is there, and let both of its connections be
-- live. A password that the authenticator accepts for that user closes the prompt: the compositor is
-- told that it succeeded and to hide the prompt, the caller that asked gets its reply, and so does
-- the connection that answered.
pub respond_elevation-accepted :
    (host : Host) (id shown asked : ℕ) (w : Text) (q : PendingElevation) (c : SessionContext)
    (d : Daemon)
    → lookup id d.elevation.pending ≡ some q
    → lookup q.session_id d.sessions.sessions ≡ some c
    → d.authenticator
        (record { session_id = q.session_id; user_name = c.session.user_name; password = w })
      ≡ ok tt
    → lookup q.compositor_conn d.registry.outboxes ≡ some shown
    → lookup q.requester_conn d.registry.outboxes ≡ some asked
    → let (reply, d') = respond_elevation host id (ElevationResponse.password w) d in
      (reply ≡ Response.auth_result AuthOutcome.success)
      × (lookup id d'.elevation.pending ≡ none)
      × Has (shown, Packet.event (Event.elevation_feedback id AuthOutcome.success)) d'.registry.sent
      × Has (shown, Packet.event (Event.hide_elevation_prompt id)) d'.registry.sent
      × Has (asked, Packet.response (Response.auth_result AuthOutcome.success)) d'.registry.sent
unfolding resolve
respond_elevation-accepted host id shown asked w q c d e f good cs rs =
    let r : AuthRequest = record {
      session_id = q.session_id;
      user_name = c.session.user_name;
      password = w;
    } in
    let p = elevation_auth_policy d.settings.elevation in
    let m = (attempt d.elevation id d.authenticator r p host.now).1 in
    let (hit, gone) = attempt-accepted d.elevation id q d.authenticator r p host.now e good in
    let told =
      resolve-told id shown asked (accepted_outcome q) (record d { elevation = m }) refl cs rs in
    rw (respond-resolve host id w q c d e f, hit) (refl, gone, told.0, told.1, told.2)
