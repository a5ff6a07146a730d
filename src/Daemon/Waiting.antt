-- ===== src/Daemon/Waiting.antt =====
-- A pending prompt over every history of the daemon (src/main.rs): when it ends, and who is told.
use mitos_session.Base.{
  lit, ℕ, ◌+◌, ◌*◌, ◌≤◌, ◌<◌, ◌≡◌, refl, inr, none, some, List, [], ◌∷◌, arith, length, Has,
  Message,
}
use mitos_session.Base.Map.{lookup, id_key}
use mitos_session.Errors.{Result}
use mitos_session.Seat.{Device}
use mitos_session.Idle.{tick}
use mitos_session.Lock.{expire_lockouts}
use mitos_session.Elevation.{
  PendingElevation, ElevationManager, set_requester_uid, clear_expired_lockouts, expire_pending,
}
use mitos_session.Config.{Settings, idle_policy}
use mitos_session.Daemon.State.{Host, Daemon}
use mitos_session.Daemon.Events.{on_stages, on_expiry, on_idle_tick}
use mitos_session.Elevation.Invariant.{Inv, new-Inv, clear_expired_lockouts-Inv}
use mitos_session.Elevation.Timeouts.{expired_lockouts, expired_lockouts}
use mitos_session.Elevation.History.{run-Inv, run-next_id}
use mitos_session.Elevation.Abandon.{describe}
use mitos_session.Elevation.Lasting.{Lasts, run-Lasts, expire-Lasts, pending-Lasts, timer_of}
use mitos_session.Daemon.Growth.{stages-Grows}
use mitos_session.Daemon.Notices.{Notified, then-Notified, notify_all-Notified}
use mitos_session.Daemon.Prompts.{notify_all}
use mitos_session.Daemon.Inputs.{Input, ticks, serve}
use mitos_session.Daemon.Start.{initial, startup}
use mitos_session.Daemon.Turns.{stages-elevation, tick-elevation, serve-Calls, serve_all}

-- What is known of one prompt and of the manager at a turn.
abbrev Held : ℕ → PendingElevation → ℕ → ElevationManager → Type 0
Held id q t m = Inv m × (id ≤ m.next_id) × Lasts id q t m

serve-Inv :
    (x : Input) (d : Daemon)
    → d.elevation.next_id + 2 < 18446744073709551616
    → Inv d.elevation
    → Inv (serve x d).elevation × ((serve x d).elevation.next_id ≤ d.elevation.next_id + 2)
serve-Inv x d h v =
    let (cs, few, e) = serve-Calls x d in
    let later = run-Inv d.elevation cs (omega arith) v in
    let count = run-next_id d.elevation cs (omega arith) in
    (rw e later, rw e (omega (arith, count)))

serve-Held :
    (id : ℕ) (q : PendingElevation) (t : ℕ) (x : Input) (d : Daemon)
    → d.elevation.next_id + 2 < 18446744073709551616
    → Held id q t d.elevation
    → Held id q t (serve x d).elevation
serve-Held id q t x d h (v, old, lasts) =
    let (cs, few, e) = serve-Calls x d in
    let later = run-Inv d.elevation cs (omega arith) v in
    let (still, old') = run-Lasts id q t d.elevation cs old (omega arith) v lasts in
    rw e (later, old', still)

serve_all-Held :
    (id : ℕ) (q : PendingElevation) (t : ℕ) (xs : List Input) (d : Daemon)
    → d.elevation.next_id + 2 * length xs < 18446744073709551616
    → Held id q t d.elevation
    → Held id q t (serve_all xs d).elevation
unfolding serve_all
serve_all-Held id q t [] d h held = held
serve_all-Held id q t (x ∷ xs) d h held =
    let (_, count) = serve-Inv x d (omega arith) held.0 in
    serve_all-Held id q t xs (serve x d) (omega (arith, count))
      (serve-Held id q t x d (omega arith) held)

serve_all-Inv :
    (xs : List Input) (d : Daemon)
    → d.elevation.next_id + 2 * length xs < 18446744073709551616
    → Inv d.elevation
    → Inv (serve_all xs d).elevation
      × ((serve_all xs d).elevation.next_id ≤ d.elevation.next_id + 2 * length xs)
unfolding serve_all
serve_all-Inv [] d h v = (v, omega arith)
serve_all-Inv (x ∷ xs) d h v =
    let (v', count) = serve-Inv x d (omega arith) v in
    let (v'', counts) = serve_all-Inv xs (serve x d) (omega (arith, count)) v' in
    (v'', omega (arith, count, counts))

abbrev pub timed_out : Message
timed_out = lit "timed out waiting for a response" ∷ []

-- What a tick at or after the time of a prompt's timer does to the prompt, and whom it tells.
tick-Held :
    (id : ℕ) (q : PendingElevation) (t : ℕ) (host : Host) (d : Daemon)
    → Held id q t d.elevation
    → t ≤ host.now
    → (lookup id (on_idle_tick host d).elevation.pending ≡ none)
      × (lookup id d.elevation.pending ≡ some q
          → Notified timed_out (describe id q) d.registry (on_idle_tick host d).registry)
unfolding on_idle_tick on_expiry
tick-Held id q t host d (v, old, lasts) due =
    let (changes, idle) = tick d.idle host.now (idle_policy d.settings.idle) in
    let started : Daemon = record d { idle = idle } in
    let staged = on_stages host changes started in
    let same = stages-elevation host changes started in
    let cleared = clear_expired_lockouts d.elevation host.now in
    let lasts' : Lasts id q t cleared = unfold clear_expired_lockouts expired_lockouts in lasts in
    let (gone, told) =
      (expire-Lasts id q t cleared host.now (clear_expired_lockouts-Inv d.elevation host.now v)
          lasts').0
        due in
    let swept = expire_pending (clear_expired_lockouts staged.elevation host.now) host.now in
    let after : Daemon = record staged {
      locks = expire_lockouts staged.locks host.now;
      elevation = swept.1;
    } in
    (
      rw (tick-elevation host d) gone,
      λ open_now.
          let reported : Has (describe id q) swept.0 =
            rw same (told (unfold clear_expired_lockouts in open_now)) in
          then-Notified timed_out (describe id q) d.registry after.registry
            (notify_all timed_out swept.0 after).registry (stages-Grows host changes started)
            (notify_all-Notified timed_out (describe id q) swept.0 after reported),
    )

startup-Inv :
    (host : Host) (settings : Settings) (devices : Result (List Device))
    → Inv (startup host settings devices).elevation
unfolding startup initial set_requester_uid
startup-Inv host settings devices =
    let v = new-Inv in
    record {
      ids = v.ids;
      prompts = v.prompts;
      lockouts = v.lockouts;
      handed_out = v.handed_out;
      timed = v.timed;
      locked_timed = v.locked_timed;
    }

startup-next_id :
    (host : Host) (settings : Settings) (devices : Result (List Device))
    → (startup host settings devices).elevation.next_id ≡ 0
unfolding startup initial set_requester_uid
startup-next_id host settings devices = refl

-- Nobody waits for ever on a prompt. Let a prompt be pending after any history of the daemon from its
-- start, of messages, ticks and signals. It has an instant that nothing moves: whatever the daemon
-- serves after that, fewer than 2^63 inputs in all, a tick at that instant or later leaves no such
-- prompt, and if the prompt was still pending, the tick sends its caller the answer that it timed out
-- and its compositor the event that hides it, each if that connection is still there.
pub tick-closes :
    (host : Host) (settings : Settings) (devices : Result (List Device)) (xs : List Input) (id : ℕ)
    (q : PendingElevation)
    → length xs < 9223372036854775808
    → lookup id (serve_all xs (startup host settings devices)).elevation.pending ≡ some q
    → (t : ℕ) × ((ys : List Input) (host' : Host)
        → length xs + length ys < 9223372036854775808
        → t ≤ host'.now
        → let d = serve_all ys (serve_all xs (startup host settings devices)) in
          let d' = serve (ticks host') d in
          (lookup id d'.elevation.pending ≡ none)
          × (lookup id d.elevation.pending ≡ some q
              → Notified timed_out (describe id q) d.registry d'.registry))
tick-closes host settings devices xs id q few open_now =
    let first = startup host settings devices in
    let d = serve_all xs first in
    let zero_id = startup-next_id host settings devices in
    let (v, count) =
      serve_all-Inv xs first (omega (arith, zero_id)) (startup-Inv host settings devices) in
    let (t, armed) = timer_of d.elevation id q v open_now in
    let old = pending-Lasts id q t d.elevation v open_now armed in
    (
      t,
      λ ys host' room due.
          let held =
            serve_all-Held id q t ys d (omega (arith, zero_id, count))
              (v, old, inr (open_now, armed)) in
          unfold serve in tick-Held id q t host' (serve_all ys d) held due,
    )
