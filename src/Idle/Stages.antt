-- ===== src/Idle/Stages.antt =====
-- `IdlePolicy::stage_for` (src/idle/policy.rs).
use mitos_session.Base.{ℕ, ◌≤◌, ◌<◌, ◌≡◌, ◌↔◌, arith}
use mitos_session.Idle.{
  IdleStage, active, dimmed, lock_requested, suspend_requested, IdlePolicy, stage_for, idle_for,
}

abbrev pub rank : IdleStage → ℕ
rank active = 0
rank dimmed = 1
rank lock_requested = 2
rank suspend_requested = 3

-- Whether a threshold is set and has been reached.
abbrev pub Reached : ℕ → ℕ → Type 0
Reached idle_for threshold = (0 < threshold) × (threshold ≤ idle_for)

-- The stage is the most severe one whose threshold is set and has been reached, whatever the order
-- of the thresholds: a threshold of zero disables its stage, and no stage is asked for before its
-- threshold.
pub stage_for_lem :
    (p : IdlePolicy) (d : ℕ)
    → ((stage_for p d ≡ suspend_requested) ↔ Reached d p.suspend_after)
      × ((stage_for p d ≡ lock_requested)
          ↔ ((Reached d p.suspend_after → ⊥) × Reached d p.lock_after))
      × ((stage_for p d ≡ dimmed) ↔ (
          (Reached d p.suspend_after → ⊥) × (Reached d p.lock_after → ⊥) × Reached d p.dim_after))
      × ((stage_for p d ≡ active) ↔ (
          (Reached d p.suspend_after → ⊥)
          × (Reached d p.lock_after → ⊥)
          × (Reached d p.dim_after → ⊥)))
unfolding stage_for
stage_for_lem p d = ground arith

-- Staying idle for longer never lowers the stage.
pub stage_for_mono :
    (p : IdlePolicy) (d e : ℕ) → d ≤ e → rank (stage_for p d) ≤ rank (stage_for p e)
unfolding stage_for
stage_for_mono p d e h = ground arith
