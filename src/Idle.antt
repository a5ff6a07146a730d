-- ===== src/Idle.antt =====
-- src/idle: when each seat last saw input (`IdleTracker`), the thresholds (`IdlePolicy`), and the
-- changes of stage that follow (`IdleDetector`). An `Instant` and a `Duration` are seconds.
pub mod Stages
pub mod Detector
pub mod Tests
use mitos_session.Base.{
  ℕ, ◌-◌, Bool, true, false, ◌&&◌, none, some, List, [], ◌∷◌, ltb, leb, if◌then◌else◌, Text,
}
use mitos_session.Base.Map.{Map, keys, lookup, insert, text_key}

pub data IdleStage : Type 0 where
  active dimmed lock_requested suspend_requested : IdleStage

-- `#[derive(PartialEq)]`.
abbrev pub same_stage : IdleStage → IdleStage → Bool
same_stage active active = true
same_stage dimmed dimmed = true
same_stage lock_requested lock_requested = true
same_stage suspend_requested suspend_requested = true
same_stage _ _ = false

pub record IdlePolicy : Type 0 where
  pub dim_after : ℕ
  pub lock_after : ℕ
  pub suspend_after : ℕ

-- The closure `reaches` of `stage_for`.
abbrev pub reaches : ℕ → ℕ → Bool
reaches idle_for threshold = ltb 0 threshold && leb threshold idle_for

unfoldable pub stage_for : IdlePolicy → ℕ → IdleStage
stage_for p idle_for =
    if reaches idle_for p.suspend_after
    then suspend_requested
    else if reaches idle_for p.lock_after
    then lock_requested
    else if reaches idle_for p.dim_after
    then dimmed
    else active

pub record IdleTracker : Type 0 where
  pub last_activity : Map Text ℕ

unfoldable pub note_activity : IdleTracker → Text → ℕ → IdleTracker
note_activity t seat_id now = record { last_activity = insert seat_id now t.last_activity }

-- `saturating_duration_since`, or nothing where the seat is unknown.
unfoldable pub idle_for : IdleTracker → Text → ℕ → ℕ
idle_for t seat_id now = elim (lookup seat_id t.last_activity) [ none ↦ 0 | some last ↦ now - last ]

pub record IdleDetector : Type 0 where
  pub tracker : IdleTracker
  pub stages : Map Text IdleStage

-- `IdleDetector::new()`.
abbrev pub new : IdleDetector
new = record { tracker = record { last_activity = [] }; stages = [] }

unfoldable pub record_activity : IdleDetector → Text → ℕ → IdleDetector
unfolding note_activity
record_activity d seat_id now = record {
  tracker = note_activity d.tracker seat_id now;
  stages = insert seat_id active d.stages;
}

-- `stage.get(seat_id).copied().unwrap_or(Active)`.
abbrev pub stage_of : Map Text IdleStage → Text → IdleStage
stage_of stages seat_id = elim (lookup seat_id stages) [ none ↦ active | some s ↦ s ]

unfoldable pub stage : IdleDetector → Text → IdleStage
stage d seat_id = stage_of d.stages seat_id

-- `if *entry != new_stage { changes.push((seat_id, new_stage)) }`, before the rest of the changes.
abbrev pub push_change :
    IdleStage → IdleStage → Text → List (Text × IdleStage) → List (Text × IdleStage)
push_change old new_stage seat_id rest =
    if same_stage old new_stage then rest else (seat_id, new_stage) ∷ rest

-- The loop of `tick`, over the tracked seats. Writing the new stage where it is the old one leaves
-- the entry as `or_insert` made it.
unfoldable pub tick_seats :
    IdleTracker
    → ℕ
    → IdlePolicy
    → List Text
    → Map Text IdleStage
    → List (Text × IdleStage) × Map Text IdleStage
unfolding stage_for idle_for
tick_seats t now p [] stages = ([], stages)
tick_seats t now p (seat_id ∷ ids) stages =
    let new_stage = stage_for p (idle_for t seat_id now) in
    let rest = tick_seats t now p ids (insert seat_id new_stage stages) in
    (push_change (stage_of stages seat_id) new_stage seat_id rest.0, rest.1)

unfoldable pub tick : IdleDetector → ℕ → IdlePolicy → List (Text × IdleStage) × IdleDetector
unfolding tick_seats
tick d now p =
    let (changes, stages) = tick_seats d.tracker now p (keys d.tracker.last_activity) d.stages in
    (changes, record d { stages = stages })
