-- ===== src/Idle/Tests.antt =====
-- The theorems on idle detection at concrete inputs.
use mitos_session.Base.{ℕ, ◌≡◌, ◌↔◌, [], ◌∷◌, bytes}
use mitos_session.Base.Map.{text_key}
use mitos_session.Idle.{
  active, dimmed, lock_requested, suspend_requested, IdlePolicy, stage_for, IdleDetector,
}
use mitos_session.Idle.Stages.{Reached, stage_for_lem}

abbrev pub one_minute : IdlePolicy
one_minute = record { dim_after = 60; lock_after = 300; suspend_after = 0 }

-- Input on seat0 at 100.
abbrev pub touched : IdleDetector
touched = record {
  tracker = record { last_activity = (bytes "seat0", 100) ∷ [] };
  stages = (bytes "seat0", active) ∷ [];
}

stage_for_lem_example :
    let p = one_minute in
    let d : ℕ = 120 in
    ((stage_for p d ≡ suspend_requested) ↔ Reached d p.suspend_after)
    × ((stage_for p d ≡ lock_requested)
        ↔ ((Reached d p.suspend_after → ⊥) × Reached d p.lock_after))
    × ((stage_for p d ≡ dimmed)
        ↔ ((Reached d p.suspend_after → ⊥) × (Reached d p.lock_after → ⊥) × Reached d p.dim_after))
    × ((stage_for p d ≡ active) ↔ (
        (Reached d p.suspend_after → ⊥)
        × (Reached d p.lock_after → ⊥)
        × (Reached d p.dim_after → ⊥)))
stage_for_lem_example = stage_for_lem one_minute 120
