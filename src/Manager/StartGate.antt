-- ===== src/Manager/StartGate.antt =====
-- internal/manager/lifecycle_launch.go: the start limit at the acceptance of a launch, and the
-- recording of the start, which comes later or not at all (supervise.go). `interval` and `burst` are
-- the limits of the unit, which do not change meanwhile. The guards of `acceptLaunch` before the
-- start limit, and its other effects, are left out: a launch that they refuse changes nothing here.
pub mod Launches
pub mod Counts
pub mod Window
use winunitd.Common.{
  ℕ, ◌+◌, ◌%◌, ◌^◌, Bool, true, false, ◌&&◌, not, List, [], Option, none, some, if◌then◌else◌, ◌==◌,
}
use winunitd.Common.Int.{ℤ}
use winunitd.Core.StartLimit.{start_limit_hit, record_start}

-- How a launch came about: by an operator's request, which forgets earlier starts, by a trigger
-- that counts against the start limit, or by an automatic restart.
pub data Origin : Type 0 where
  requested triggered auto_restart : Origin

-- The fields of `unitRuntime` that the limit uses, and whether the manager is closed.
pub record Gate : Type 0 where
  pub start_times : List ℕ
  pub gen : ℕ
  pub closed : Bool

-- A new generation, which makes every launch before it stale.
abbrev pub next_gen : Gate → Gate
next_gen g = record g { gen = (g.gen + 1) % 2 ^ 64 }

module _ (interval burst : ℤ) where
  -- The start times after the acceptance, or none where the limit refuses the launch.
  unfoldable pub admitted_starts : Origin → ℕ → List ℕ → Option (List ℕ)
  admitted_starts requested now starts = some []
  admitted_starts triggered now starts =
      if start_limit_hit starts now interval burst then none else some starts
  admitted_starts auto_restart now starts =
      if start_limit_hit starts now interval burst then none else some starts

  -- `acceptLaunch`: none where the launch is refused. The effect that goes on carries the new
  -- generation.
  unfoldable pub accept_launch : Origin → ℕ → Gate → Option Gate
  unfolding admitted_starts
  accept_launch origin now g =
      if g.closed then none else elim (admitted_starts origin now g.start_times) [
        | none ↦ none
        | some kept ↦ some (next_gen (record g { start_times = kept }))
      ]

  -- `recordStartLocked`, at an instant of its own.
  unfoldable pub record_start_locked : ℕ → Gate → Gate
  record_start_locked now g = record g {
    start_times = record_start g.start_times now interval burst;
  }

  -- `recordServiceLaunch`, of the launch with a generation.
  unfoldable pub record_service_launch : (gen now : ℕ) → Gate → Gate
  unfolding record_start_locked
  record_service_launch gen now g =
      if not g.closed && g.gen == gen then record_start_locked now g else g
