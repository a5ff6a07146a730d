-- ===== src/Daemon/Notices.antt =====
-- Whom the daemon tells of a prompt that ended without an answer (`notify_elevation_abandoned` in
-- src/main.rs).
use mitos_session.Base.{
  Message, ℕ, ◌≡◌, refl, sym, ap, ◌∙◌, inl, inr, some, List, [], ◌∷◌, ◌++◌, arith, Option-cases,
  Has, Has-append_left, Has-append_right,
}
use mitos_session.Base.Map.{lookup, id_key}
use mitos_session.Auth.{AuthOutcome}
use mitos_session.Elevation.{AbandonedElevation}
use mitos_session.Ipc.{
  Packet, response, event, Response, Event, ConnRegistry, send, send_response, send_event,
}
use mitos_session.Daemon.State.{Daemon}
use mitos_session.Daemon.Prompts.{notify_elevation_abandoned, notify_all}
use mitos_session.Daemon.Growth.{append_assoc, append_nil, Grows, same-Grows, then-Grows}

-- The registry grows by packets with these two, if the connections are there: the answer to the
-- caller of the prompt, and the event that hides it from its compositor.
abbrev pub Notified : Message → AbandonedElevation → ConnRegistry → ConnRegistry → Type 0
Notified reason a r r' =
    (new : List (ℕ × Packet)) × (r'.sent ≡ r.sent ++ new)
    × ((tx : ℕ)
        → lookup a.requester_conn r.outboxes ≡ some tx
        → Has (tx, response (Response.auth_result (AuthOutcome.error reason))) new)
    × ((tx : ℕ)
        → lookup a.compositor_conn r.outboxes ≡ some tx
        → Has (tx, event (Event.hide_elevation_prompt a.request_id)) new)

Notified-then :
    (reason : Message) (x : AbandonedElevation) (a b c : ConnRegistry)
    → Notified reason x a b
    → Grows b c
    → Notified reason x a c
Notified-then reason x a b c (n, e, asker, shower) (o, n', e') = (
  n ++ n',
  e' ∙ ap (λ s. s ++ n') e ∙ append_assoc a.sent n n',
  λ tx h. Has-append_left _ n n' (asker tx h),
  λ tx h. Has-append_left _ n n' (shower tx h),
)

pub then-Notified :
    (reason : Message) (x : AbandonedElevation) (a b c : ConnRegistry)
    → Grows a b
    → Notified reason x b c
    → Notified reason x a c
then-Notified reason x a b c (o, n, e) (n', e', asker, shower) = (
  n ++ n',
  e' ∙ ap (λ s. s ++ n') e ∙ append_assoc a.sent n n',
  λ tx h. Has-append_right _ n n' (asker tx (ap (lookup x.requester_conn) o ∙ h)),
  λ tx h. Has-append_right _ n n' (shower tx (ap (lookup x.compositor_conn) o ∙ h)),
)

send-Has :
    (r : ConnRegistry) (k : ℕ) (p : Packet)
    → (new : List (ℕ × Packet)) × ((send r k p).sent ≡ r.sent ++ new)
      × ((send r k p).outboxes ≡ r.outboxes)
      × ((tx : ℕ) → lookup k r.outboxes ≡ some tx → Has (tx, p) new)
unfolding send
send-Has r k p = elim (Option-cases (lookup k r.outboxes)) [
  | inl e ↦ ([], rw (e, send) (sym (append_nil r.sent)), rw (e, send) refl, λ tx h. absurd (cc))
  | inr (tx, e) ↦ (
    (tx, p) ∷ [],
    rw (e, send) refl,
    rw (e, send) refl,
    λ ty h. inl (ap (λ y. (y, p)) (ground (arith, e, h))),
  )
]

abandoned-Notified :
    (reason : Message) (a : AbandonedElevation) (d : Daemon)
    → Notified reason a d.registry (notify_elevation_abandoned reason a d).registry
      × Grows d.registry (notify_elevation_abandoned reason a d).registry
unfolding notify_elevation_abandoned send_response send_event
abandoned-Notified reason a d =
    let hide = event (Event.hide_elevation_prompt a.request_id) in
    let answer = response (Response.auth_result (AuthOutcome.error reason)) in
    let hidden = send d.registry a.compositor_conn hide in
    let (n, e, o, shower) = send-Has d.registry a.compositor_conn hide in
    let (n', e', o', asker) = send-Has hidden a.requester_conn answer in
    let sent = e' ∙ ap (λ s. s ++ n') e ∙ append_assoc d.registry.sent n n' in
    (
      (
        n ++ n',
        sent,
        λ tx h. Has-append_right _ n n' (asker tx (ap (lookup a.requester_conn) o ∙ h)),
        λ tx h. Has-append_left _ n n' (shower tx h),
      ),
      (o' ∙ o, n ++ n', sent),
    )

notify_all-Grows :
    (reason : Message) (told : List AbandonedElevation) (d : Daemon)
    → Grows d.registry (notify_all reason told d).registry
unfolding notify_all
notify_all-Grows reason [] d = same-Grows d.registry
notify_all-Grows reason (a ∷ rest) d =
    let next = notify_elevation_abandoned reason a d in
    then-Grows d.registry next.registry (notify_all reason rest next).registry
      (abandoned-Notified reason a d).1 (notify_all-Grows reason rest next)

pub notify_all-Notified :
    (reason : Message) (a : AbandonedElevation) (told : List AbandonedElevation) (d : Daemon)
    → Has a told
    → Notified reason a d.registry (notify_all reason told d).registry
unfolding notify_all
notify_all-Notified reason a [] d h = absurd h
notify_all-Notified reason a (b ∷ rest) d (inl e) =
    let next = notify_elevation_abandoned reason b d in
    rw⁻¹ e (
      Notified-then reason b d.registry next.registry (notify_all reason rest next).registry
        (abandoned-Notified reason b d).0 (notify_all-Grows reason rest next))
notify_all-Notified reason a (b ∷ rest) d (inr h) =
    let next = notify_elevation_abandoned reason b d in
    then-Notified reason a d.registry next.registry (notify_all reason rest next).registry
      (abandoned-Notified reason b d).1 (notify_all-Notified reason a rest next h)
