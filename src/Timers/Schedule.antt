-- ===== src/Timers/Schedule.antt =====
-- internal/timers/schedule.go: the next deadline of a timer. An instant is a number of nanoseconds,
-- and 0 is the zero `time.Time`; a duration is signed. A calendar is given by its two searches, and
-- the clock by what it answers at the moment of the call. Activation records and names take no part
-- in the choice and are left out, and so is a nil Runtime.
pub mod Earliest
pub mod Rings
pub mod First
pub mod Wall
use winunitd.Common.{
  ℕ, ◌+◌, ◌-◌, Bool, true, false, ◌&&◌, ◌||◌, not, List, [], ◌∷◌, if◌then◌else◌, ltb, ◌==◌,
}
use winunitd.Common.Int.{ℤ, pos_part, neg_part, leb_ℤ}

-- `Next` and `Previous` of a calendar expression.
pub record Calendar : Type 0 where
  pub next : ℕ → ℕ
  pub previous : ℕ → ℕ

pub record Clock : Type 0 where
  pub now : ℕ
  pub since_boot : ℤ
  pub since_start : ℤ

pub record Spec : Type 0 where
  pub on_boot_sec : ℤ
  pub on_startup_sec : ℤ
  pub on_unit_active_sec : ℤ
  pub on_calendar : List Calendar
  pub persistent : Bool
  pub on_boot_sec_set : Bool
  pub on_startup_sec_set : Bool
  pub on_unit_active_sec_set : Bool

pub record Runtime : Type 0 where
  pub last_scheduled : ℕ
  pub last_actual : ℕ
  pub last_unit_active : ℕ
  pub fired_boot : Bool
  pub fired_startup : Bool

-- `t.Add(d)`, for an instant that does not fall before the origin.
abbrev pub forward : ℕ → ℤ → ℕ
forward t d = t + pos_part d - neg_part d

-- `now`, or as much later as `wait` is above what has elapsed.
abbrev pub due_after : ℤ → ℤ → ℕ → ℕ
due_after wait elapsed now =
    if leb_ℤ wait elapsed
    then now
    else now + (pos_part wait + neg_part elapsed - (pos_part elapsed + neg_part wait))

unfoldable pub boot_due : Spec → Clock → ℕ → ℕ
boot_due spec clk now = due_after spec.on_boot_sec clk.since_boot now

unfoldable pub startup_due : Spec → Clock → ℕ → ℕ
startup_due spec clk now = due_after spec.on_startup_sec clk.since_start now

-- The variables of `nextDeadline`.
pub record Choice : Type 0 where
  pub found : Bool
  pub earliest : ℕ
  pub wall : ℕ

unfoldable pub consider : ℕ → Choice → ℕ → Bool → Choice
consider now c t wall_based =
    let due = if ltb t now then now else t in
    let better = not c.found || ltb due c.earliest in
    let walled = wall_based && (c.wall == 0 || ltb due c.wall) in
    if t == 0 then c else record {
      found = true;
      earliest = if better then due else c.earliest;
      wall = if walled then due else c.wall;
    }

-- `persistentCatchup`: whether a calendar time has passed since the last activation.
unfoldable pub persistent_catchup : Calendar → Runtime → ℕ → Bool
persistent_catchup cal rt now =
    let prev = cal.previous now in
    not (rt.last_actual == 0) && (not (prev == 0) && ltb rt.last_actual prev)

-- What the loop considers of one calendar.
unfoldable pub calendar_due : Spec → Runtime → ℕ → Calendar → ℕ
calendar_due spec rt now cal =
    if spec.persistent && persistent_catchup cal rt now then now else cal.next now

unfoldable pub consider_calendars : Spec → Runtime → ℕ → Choice → List Calendar → Choice
consider_calendars spec rt now c [] = c
consider_calendars spec rt now c (cal ∷ cals) =
    consider_calendars spec rt now (consider now c (calendar_due spec rt now cal) true) cals

-- Whether the deadline after the unit's last activity counts, and has not been used already.
unfoldable pub active_counts : Spec → Runtime → Bool
active_counts spec rt =
    let due = forward rt.last_unit_active spec.on_unit_active_sec in
    spec.on_unit_active_sec_set
    && (not (rt.last_unit_active == 0) && (rt.last_actual == 0 || ltb rt.last_actual due))

unfoldable pub next_deadline : Spec → Runtime → Clock → Choice
next_deadline spec rt clk =
    let now = clk.now in
    let start : Choice = record { found = false; earliest = 0; wall = 0 } in
    let boot =
      if spec.on_boot_sec_set && not rt.fired_boot
      then consider now start (boot_due spec clk now) false
      else start in
    let startup =
      if spec.on_startup_sec_set && not rt.fired_startup
      then consider now boot (startup_due spec clk now) false
      else boot in
    let active =
      if active_counts spec rt
      then consider now startup (forward rt.last_unit_active spec.on_unit_active_sec) true
      else startup in
    consider_calendars spec rt now active spec.on_calendar

unfoldable pub mark_fired : Spec → Runtime → Clock → (scheduled actual : ℕ) → Runtime
mark_fired spec rt clk scheduled actual = record rt {
  last_scheduled = scheduled;
  last_actual = actual;
  fired_boot =
      rt.fired_boot || (spec.on_boot_sec_set && not (ltb actual (boot_due spec clk actual)));
  fired_startup =
      rt.fired_startup
      || (spec.on_startup_sec_set && not (ltb actual (startup_due spec clk actual)));
}
