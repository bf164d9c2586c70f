-- ===== src/Timers/Schedule/Wall.antt =====
-- The deadline of the wall clock: the first instant at which a trigger rings that counts neither
-- from boot nor from the start of the manager.
use winunitd.Common.{
  ℕ, ◌≤◌, Bool, true, false, ◌&&◌, ◌||◌, not, List, [], ◌∷◌, if◌then◌else◌, ltb, ◌==◌, ◌≡◌, ◌≢◌,
  ◌⊎◌, refl, arith, inl, inr, All, Bool-cases, ◌∙◌,
}
use winunitd.Timers.Schedule.{
  Calendar, Clock, Spec, Runtime, forward, boot_due, startup_due, Choice, consider, calendar_due,
  consider_calendars, active_counts, next_deadline,
}
use winunitd.Timers.Schedule.Rings.{
  IsSearched, HasCome, SomeHasCome, ByActive, IsFirst, IsDueAt, IsFirst-iff, taken,
}
use winunitd.Timers.Schedule.First.{active_due, active_unused, come_due, right, left}

-- A trigger of the wall clock rings.
abbrev pub RingsByWall : (Calendar → ℕ → Type 0) → Spec → Runtime → Clock → ℕ → Type 0
RingsByWall Hit spec rt clk t =
    ByActive spec rt t ⊎ SomeHasCome Hit spec rt clk.now t spec.on_calendar

-- The zero time stands for none.
abbrev pub IsFirstWall : ℕ → (ℕ → Type 0) → ℕ → Type 0
IsFirstWall now P wall = IsFirst now P (not (wall == 0)) wall

wall_skipped :
    (now : ℕ) (P Q : ℕ → Type 0) (wall : ℕ)
    → ((t : ℕ) → now ≤ t → ¬ (Q t))
    → IsFirstWall now P wall
    → IsFirstWall now (λ t. P t ⊎ Q t) wall
wall_skipped now P Q wall never =
    IsFirst-iff now P (λ t. P t ⊎ Q t) (not (wall == 0)) wall (λ t n p. inl p)
      (λ t n r. elim r [ inl p ↦ p | inr q ↦ elim (never t n q) [ ] ])

-- The choice by `found` is the choice by the zero time.
wall_taken :
    (now d : ℕ) (P : ℕ → Type 0) (wall : ℕ)
    → 1 ≤ d
    → IsFirst now P true (if not (not (wall == 0)) || ltb d wall then d else wall)
    → IsFirstWall now P (if wall == 0 || ltb d wall then d else wall)
wall_taken now d P wall n h = elim (Bool-cases (wall == 0)) [
  | inl z ↦ let some_d : (d == 0) ≡ false = ground (arith, n) in rw (z, some_d) (rw z at h)
  | inr z ↦ elim (Bool-cases (ltb d wall)) [
    | inl b ↦
        let some_d : (d == 0) ≡ false = ground (arith, n) in rw (z, b, some_d) (rw (z, b) at h)
    | inr b ↦ rw (z, b, z) (rw (z, b) at h)
  ]
]

wall_considered :
    (now u : ℕ) (P Q : ℕ → Type 0) (c : Choice)
    → 1 ≤ now
    → IsDueAt now u Q
    → IsFirstWall now P c.wall
    → IsFirstWall now (λ t. P t ⊎ Q t) (consider now c u true).wall
unfolding consider
wall_considered now u P Q c n due h = elim (Bool-cases (u == 0)) [
  | inl z ↦ rw z (wall_skipped now P Q c.wall (λ t k q. (due.0 t k q).0 (ground (arith, z))) h)
  | inr z ↦
      let u_ne_zero : u ≢ 0 = ground (arith, z) in
      let d = if ltb u now then now else u in
      rw z (
        wall_taken now d (λ t. P t ⊎ Q t) c.wall (ground (arith, n))
          (taken now u d P Q (not (c.wall == 0)) c.wall due u_ne_zero (ground arith) (ground arith)
            (λ t k l. ground (arith, k, l)) h))
]

-- A trigger that does not stand on the wall clock leaves its deadline.
wall-relative :
    (now u : ℕ) (counts : Bool) (c : Choice)
    → (if counts then consider now c u false else c).wall ≡ c.wall
unfolding consider
wall-relative now u false c = refl
wall-relative now u true c = elim (Bool-cases (u == 0)) [ inl z ↦ rw z refl | inr z ↦ rw z refl ]

wall_used :
    (now u : ℕ) (counts : Bool) (P Q : ℕ → Type 0) (c : Choice)
    → 1 ≤ now
    → (counts ≡ true → IsDueAt now u Q)
    → (counts ≡ false → (t : ℕ) → now ≤ t → ¬ (Q t))
    → IsFirstWall now P c.wall
    → IsFirstWall now (λ t. P t ⊎ Q t) (if counts then consider now c u true else c).wall
wall_used now u true P Q c n due unused h = wall_considered now u P Q c n (due refl) h
wall_used now u false P Q c n due unused h = wall_skipped now P Q c.wall (unused refl) h

calendars_wall :
    (Hit : Calendar → ℕ → Type 0) (spec : Spec) (rt : Runtime) (now : ℕ) (P : ℕ → Type 0)
    (c : Choice) (cals : List Calendar)
    → 1 ≤ now
    → All (λ cal. IsSearched (Hit cal) now cal) cals
    → IsFirstWall now P c.wall
    → IsFirstWall now
        (λ t. P t ⊎ SomeHasCome Hit spec rt now t cals)
        (consider_calendars spec rt now c cals).wall
unfolding consider_calendars
calendars_wall Hit spec rt now P c [] n s h = wall_skipped now P (λ t. ⊥) c.wall (λ t k e. e) h
calendars_wall Hit spec rt now P c (cal ∷ cals) n s h =
    let due = calendar_due spec rt now cal in
    let Come : ℕ → Type 0 = λ t. HasCome (Hit cal) spec rt now t in
    let Rest : ℕ → Type 0 = λ t. SomeHasCome Hit spec rt now t cals in
    let next = consider now c due true in
    let final = consider_calendars spec rt now next cals in
    IsFirst-iff now (λ t. (P t ⊎ Come t) ⊎ Rest t) (λ t. P t ⊎ (Come t ⊎ Rest t))
      (not (final.wall == 0)) final.wall (λ t k. right (P t) (Come t) (Rest t))
      (λ t k. left (P t) (Come t) (Rest t))
      (calendars_wall Hit spec rt now (λ t. P t ⊎ Come t) next cals n s.1
        (wall_considered now due P Come c n (come_due (Hit cal) spec rt now cal n s.0) h))

-- The deadline of the wall clock is the first instant from now on at which a trigger rings that
-- counts neither from boot nor from the start of the manager, and it is the zero time exactly if
-- there is none. Now is not the zero time, and each calendar answers as documented, where `Hit` are
-- the instants that its expression matches in the window that is searched.
pub next_deadline-IsFirstWall :
    (Hit : Calendar → ℕ → Type 0) (spec : Spec) (rt : Runtime) (clk : Clock)
    → 1 ≤ clk.now
    → All (λ cal. IsSearched (Hit cal) clk.now cal) spec.on_calendar
    → IsFirstWall clk.now (RingsByWall Hit spec rt clk) (next_deadline spec rt clk).wall
unfolding next_deadline
next_deadline-IsFirstWall Hit spec rt clk n s =
    let now = clk.now in
    let start : Choice = record { found = false; earliest = 0; wall = 0 } in
    let boot_use = spec.on_boot_sec_set && not rt.fired_boot in
    let startup_use = spec.on_startup_sec_set && not rt.fired_startup in
    let active_time = forward rt.last_unit_active spec.on_unit_active_sec in
    let boot : Choice =
      if boot_use then consider now start (boot_due spec clk now) false else start in
    let startup : Choice =
      if startup_use then consider now boot (startup_due spec clk now) false else boot in
    let active : Choice =
      if active_counts spec rt then consider now startup active_time true else startup in
    let Active = ByActive spec rt in
    let final = consider_calendars spec rt now active spec.on_calendar in
    let unset : startup.wall ≡ 0 =
      wall-relative now (startup_due spec clk now) startup_use boot
      ∙ wall-relative now (boot_due spec clk now) boot_use start in
    let none_yet : IsFirstWall now (λ t. ⊥) startup.wall = rw unset (λ t k. k.1) in
    let active_first =
      wall_used now active_time (active_counts spec rt) (λ t. ⊥) Active startup n
        (active_due spec rt now) (λ h t k. active_unused spec rt now t h) none_yet in
    IsFirst-iff now (λ t. (⊥ ⊎ Active t) ⊎ SomeHasCome Hit spec rt now t spec.on_calendar)
      (RingsByWall Hit spec rt clk) (not (final.wall == 0)) final.wall
      (λ t k. gather (Active t) (SomeHasCome Hit spec rt now t spec.on_calendar))
      (λ t k. spread (Active t) (SomeHasCome Hit spec rt now t spec.on_calendar))
      (calendars_wall Hit spec rt now (λ t. ⊥ ⊎ Active t) active spec.on_calendar n s active_first)
  where
    gather : (A B : Type 0) → (⊥ ⊎ A) ⊎ B → A ⊎ B
    gather A B (inl (inl e)) = elim e [ ]
    gather A B (inl (inr a)) = inl a
    gather A B (inr b) = inr b

    spread : (A B : Type 0) → A ⊎ B → (⊥ ⊎ A) ⊎ B
    spread A B (inl a) = inl (inr a)
    spread A B (inr b) = inr b
