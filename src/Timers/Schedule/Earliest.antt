-- ===== src/Timers/Schedule/Earliest.antt =====
-- The triggers that are no calendar, after a deadline was marked as fired.
use winunitd.Common.{
  ℕ, ◌≤◌, ◌<◌, Bool, true, false, ◌&&◌, ◌||◌, not, List, [], ◌∷◌, ◌++◌, if◌then◌else◌, ltb, ◌≡◌,
  refl, arith, All,
}
use winunitd.Timers.Schedule.{
  Clock, Spec, Runtime, forward, boot_due, startup_due, active_counts, mark_fired,
}

abbrev one : Bool → ℕ → List ℕ
one unused t = if unused then t ∷ [] else []

-- The times of the triggers that are no calendar.
unfoldable pub relative : Spec → Runtime → Clock → List ℕ
relative spec rt clk =
    one (spec.on_boot_sec_set && not rt.fired_boot) (boot_due spec clk clk.now)
    ++ (one (spec.on_startup_sec_set && not rt.fired_startup) (startup_due spec clk clk.now)
        ++ one (active_counts spec rt) (forward rt.last_unit_active spec.on_unit_active_sec))

All-one :
    (P : ℕ → Type 0) (u : Bool) (t : ℕ) (ts : List ℕ)
    → (u ≡ true → P t)
    → All P ts
    → All P (one u t ++ ts)
All-one P true t ts h k = (h refl, k)
All-one P false t ts h k = k

All-one_last : (P : ℕ → Type 0) (u : Bool) (t : ℕ) → (u ≡ true → P t) → All P (one u t)
All-one_last P true t h = (h refl, tt)
All-one_last P false t h = tt

-- After a deadline is marked as fired at the clock's time, which is not the zero time, every
-- trigger that is no calendar and still counts lies in the future: none fires twice.
pub mark_fired-relative :
    (spec : Spec) (rt : Runtime) (clk : Clock) (scheduled : ℕ)
    → 1 ≤ clk.now
    → All (λ t. clk.now < t) (relative spec (mark_fired spec rt clk scheduled clk.now) clk)
unfolding relative mark_fired active_counts
mark_fired-relative spec rt clk scheduled h =
    let later : ℕ → Type 0 = λ t. clk.now < t in
    All-one later
      (spec.on_boot_sec_set
        && not (
            rt.fired_boot
            || (spec.on_boot_sec_set && not (ltb clk.now (boot_due spec clk clk.now)))))
      (boot_due spec clk clk.now) _ (λ u. ground (arith, u))
      (All-one later
        (spec.on_startup_sec_set
          && not (
              rt.fired_startup
              || (spec.on_startup_sec_set && not (ltb clk.now (startup_due spec clk clk.now)))))
        (startup_due spec clk clk.now) _ (λ u. ground (arith, u))
        (All-one_last later (active_counts spec (mark_fired spec rt clk scheduled clk.now))
          (forward rt.last_unit_active spec.on_unit_active_sec) (λ u. ground (arith, u, h))))
