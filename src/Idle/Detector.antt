-- ===== src/Idle/Detector.antt =====
-- `IdleDetector::tick` (src/idle/detector.rs): each change of stage is reported, and only changes.
use mitos_session.Base.Map.{text_key, Map, keys, insert, lookup-insert, text_key}
use mitos_session.Base.{
  ℕ, ◌+◌, ◌<◌, ◌≡◌, refl, sym, ◌∙◌, ◌≢◌, ◌↔◌, ite, true, List, [], ◌∷◌, arith, if◌then◌else◌, Has,
  Text,
}
use mitos_session.Base.Map.Keys.{has_key}
use mitos_session.Idle.{
  IdleStage, active, same_stage, IdlePolicy, stage_for, IdleTracker, idle_for, IdleDetector,
  record_activity, stage_of, stage, tick_seats, tick,
}

-- The stage that a seat should be in.
abbrev pub due_stage : IdleTracker → ℕ → IdlePolicy → Text → IdleStage
due_stage t now p seat_id = stage_for p (idle_for t seat_id now)

same_stage_iff : (s t : IdleStage) → (same_stage s t ≡ true) ↔ (s ≡ t)
same_stage_iff s t = ground arith

stage_of-insert :
    (stages : Map Text IdleStage) (k j : Text) (s : IdleStage)
    → stage_of (insert k s stages) j ≡ (ite (text_key.same k j) s (stage_of stages j))
stage_of-insert stages k j s = ground (arith, lookup-insert k j s stages)

seats-stage :
    (t : IdleTracker) (now : ℕ) (p : IdlePolicy) (ids : List Text) (stages : Map Text IdleStage)
    (k : Text)
    → stage_of (tick_seats t now p ids stages).1 k
      ≡ (if has_key ids k then due_stage t now p k else stage_of stages k)
unfolding tick_seats
seats-stage t now p [] stages k = refl
seats-stage t now p (id ∷ ids) stages k = ground (
  arith,
  seats-stage t now p ids (insert id (due_stage t now p id) stages) k,
  stage_of-insert stages id k (due_stage t now p id),
)

-- The report `(k, s)` is made exactly for a tracked seat that is due stage `s` and was in another.
reported :
    (t : IdleTracker) (now : ℕ) (p : IdlePolicy) (ids : List Text) (stages : Map Text IdleStage)
    (k : Text) (s : IdleStage)
    → Has (k, s) (tick_seats t now p ids stages).0
    → (has_key ids k ≡ true) × (s ≡ due_stage t now p k) × (stage_of stages k ≢ s)
unfolding tick_seats
reported t now p [] stages k s h = elim h [ ]
reported t now p (id ∷ ids) stages k s h = ground (
  arith,
  reported t now p ids (insert id (due_stage t now p id) stages) k s,
  stage_of-insert stages id k (due_stage t now p id),
  same_stage_iff (stage_of stages id) (due_stage t now p id),
)

reports :
    (t : IdleTracker) (now : ℕ) (p : IdlePolicy) (ids : List Text) (stages : Map Text IdleStage)
    (k : Text)
    → has_key ids k ≡ true
    → stage_of stages k ≢ due_stage t now p k
    → Has (k, due_stage t now p k) (tick_seats t now p ids stages).0
unfolding tick_seats
reports t now p [] stages k h d = ground arith
reports t now p (id ∷ ids) stages k h d = ground (
  arith,
  reports t now p ids (insert id (due_stage t now p id) stages) k,
  stage_of-insert stages id k (due_stage t now p id),
  same_stage_iff (stage_of stages id) (due_stage t now p id),
)

no_changes :
    (t : IdleTracker) (now : ℕ) (p : IdlePolicy) (ids : List Text) (stages : Map Text IdleStage)
    → ((k : Text) → has_key ids k ≡ true → stage_of stages k ≡ due_stage t now p k)
    → (tick_seats t now p ids stages).0 ≡ []
unfolding tick_seats
no_changes t now p [] stages h = refl
no_changes t now p (id ∷ ids) stages h =
    let rest =
      no_changes t now p ids (insert id (due_stage t now p id) stages)
        (λ k e. ground (arith, stage_of-insert stages id k (due_stage t now p id), h k)) in
    ground (arith, rest, h id, same_stage_iff (stage_of stages id) (due_stage t now p id))

pub tick_lem :
    (d : IdleDetector) (now : ℕ) (p : IdlePolicy) (k : Text) (s : IdleStage)
    → let (changes, d') = tick d now p in
      (stage d' k ≡ (
        if has_key (keys d.tracker.last_activity) k
        then due_stage d.tracker now p k
        else stage d k))
      × (Has (k, s) changes ↔ (
          (has_key (keys d.tracker.last_activity) k ≡ true)
          × (s ≡ due_stage d.tracker now p k)
          × (stage d k ≢ s)))
      × ((tick d' now p).0 ≡ [])
unfolding tick stage
tick_lem d now p k s =
    let ids = keys d.tracker.last_activity in
    (
      seats-stage d.tracker now p ids d.stages k,
      (
        reported d.tracker now p ids d.stages k s,
        λ (tracked, due, other).
            rw due (reports d.tracker now p ids d.stages k tracked (λ e. other (e ∙ sym due))),
      ),
      no_changes d.tracker now p ids (tick_seats d.tracker now p ids d.stages).1
          (λ j e. ground (arith, e, seats-stage d.tracker now p ids d.stages j)),
    )

-- Input on a seat puts it back to `Active` and leaves the other seats in their stages; and a tick
-- before each threshold that is set has passed since then reports nothing for it.
pub record_activity_lem :
    (d : IdleDetector) (k other : Text) (since now : ℕ) (p : IdlePolicy) (s : IdleStage)
    → (0 < p.dim_after → now < since + p.dim_after)
    → (0 < p.lock_after → now < since + p.lock_after)
    → (0 < p.suspend_after → now < since + p.suspend_after)
    → let d' = record_activity d k since in
      (stage d' k ≡ active)
      × (k ≢ other → stage d' other ≡ stage d other)
      × (Has (k, s) (tick d' now p).0 → ⊥)
unfolding record_activity stage
record_activity_lem d k other since now p s dim lock sleep =
    let d' = record_activity d k since in
    let same : stage d' k ≡ active = ground (arith, stage_of-insert d.stages k k active) in
    let due : due_stage d'.tracker now p k ≡ active =
      unfold stage_for idle_for in
      ground (arith, lookup-insert k k since d.tracker.last_activity) in
    (
      same,
      ground (arith, stage_of-insert d.stages k other active),
      λ h. let (_, e, n) = (tick_lem d' now p k s).1.0 h in n (same ∙ sym due ∙ sym e),
    )
