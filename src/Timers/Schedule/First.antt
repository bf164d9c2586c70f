-- ===== src/Timers/Schedule/First.antt =====
-- The deadline of a timer is the first instant at which one of its triggers rings.
use winunitd.Common.{
  ℕ, ◌≤◌, ◌<◌, Bool, true, false, ◌&&◌, not, List, [], ◌∷◌, if◌then◌else◌, ◌≡◌, ◌≢◌, ◌⊎◌, refl,
  arith, inl, inr, All, Bool-cases,
}
use winunitd.Common.Int.{ℤ}
use winunitd.Timers.Schedule.{
  Calendar, Clock, Spec, Runtime, forward, due_after, boot_due, startup_due, Choice, consider,
  calendar_due, consider_calendars, active_counts, next_deadline, persistent_catchup,
}
use winunitd.Timers.Schedule.Rings.{
  IsSearched, IsReached, HasCome, SomeHasCome, ByBoot, ByStartup, ByActive, Rings, IsFirst, IsDueAt,
  IsFirst-iff, skipped, considered,
}

-- A trigger that counts or not.
used :
    (now u : ℕ) (w counts : Bool) (P Q : ℕ → Type 0) (c : Choice)
    → (counts ≡ true → IsDueAt now u Q)
    → (counts ≡ false → (t : ℕ) → now ≤ t → ¬ (Q t))
    → IsFirst now P c.found c.earliest
    → IsFirst now
        (λ t. P t ⊎ Q t)
        (if counts then consider now c u w else c).found
        (if counts then consider now c u w else c).earliest
used now u w true P Q c due unused h = considered now u w P Q c (due refl) h
used now u w false P Q c due unused h = skipped now P Q c (unused refl) h

due_after-IsReached :
    (wait elapsed : ℤ) (now : ℕ)
    → 1 ≤ now
    → IsDueAt now (due_after wait elapsed now) (IsReached wait elapsed now)
due_after-IsReached wait elapsed now h =
    (λ t n q. (ground (arith, h), ground (arith, n, q)), λ t n z l. ground (arith, n, l))

boot_due_at :
    (spec : Spec) (rt : Runtime) (clk : Clock)
    → 1 ≤ clk.now
    → (spec.on_boot_sec_set && not rt.fired_boot) ≡ true
    → IsDueAt clk.now (boot_due spec clk clk.now) (ByBoot spec rt clk)
unfolding boot_due
boot_due_at spec rt clk n h =
    let due = due_after-IsReached spec.on_boot_sec clk.since_boot clk.now n in
    (λ t k q. due.0 t k q.2, λ t k z l. (ground (arith, h), ground (arith, h), due.1 t k z l))

boot_unused :
    (spec : Spec) (rt : Runtime) (clk : Clock)
    → (spec.on_boot_sec_set && not rt.fired_boot) ≡ false
    → (t : ℕ) → clk.now ≤ t
    → ¬ (ByBoot spec rt clk t)
boot_unused spec rt clk h t k q = ground (arith, q.0, q.1, h)

startup_due_at :
    (spec : Spec) (rt : Runtime) (clk : Clock)
    → 1 ≤ clk.now
    → (spec.on_startup_sec_set && not rt.fired_startup) ≡ true
    → IsDueAt clk.now (startup_due spec clk clk.now) (ByStartup spec rt clk)
unfolding startup_due
startup_due_at spec rt clk n h =
    let due = due_after-IsReached spec.on_startup_sec clk.since_start clk.now n in
    (λ t k q. due.0 t k q.2, λ t k z l. (ground (arith, h), ground (arith, h), due.1 t k z l))

startup_unused :
    (spec : Spec) (rt : Runtime) (clk : Clock)
    → (spec.on_startup_sec_set && not rt.fired_startup) ≡ false
    → (t : ℕ) → clk.now ≤ t
    → ¬ (ByStartup spec rt clk t)
startup_unused spec rt clk h t k q = ground (arith, q.0, q.1, h)

pub active_due :
    (spec : Spec) (rt : Runtime) (now : ℕ)
    → active_counts spec rt ≡ true
    → IsDueAt now (forward rt.last_unit_active spec.on_unit_active_sec) (ByActive spec rt)
unfolding active_counts
active_due spec rt now h = (
  λ t n q. (omega (arith, q.3), omega (arith, q.2)),
  λ t n z l. (ground arith, ground arith, omega (arith, l, z), ground (arith, z)),
)

pub active_unused :
    (spec : Spec) (rt : Runtime) (now : ℕ) (t : ℕ)
    → active_counts spec rt ≡ false
    → ¬ (ByActive spec rt t)
unfolding active_counts
active_unused spec rt now t h q = ground (arith, q.0, q.1, q.3)

pub come_due :
    (Hit : ℕ → Type 0) (spec : Spec) (rt : Runtime) (now : ℕ) (cal : Calendar)
    → 1 ≤ now
    → IsSearched Hit now cal
    → IsDueAt now (calendar_due spec rt now cal) (λ t. HasCome Hit spec rt now t)
unfolding calendar_due persistent_catchup
come_due Hit spec rt now cal h s =
    elim (Bool-cases (spec.persistent && persistent_catchup cal rt now)) [
      | inl m ↦
          let on : spec.persistent ≡ true = ground (arith, m) in
          let back : cal.previous now ≢ 0 = ground (arith, m) in
          let ago : rt.last_actual ≢ 0 = ground (arith, m) in
          let later : rt.last_actual < cal.previous now = ground (arith, m) in
          let (hit, before) = s.previous_hit back in
          rw m (
            (λ t n q. (omega (arith, h), n)),
            (λ t n z l. inr (on, ago, (cal.previous now, hit, later, before))),
          )
      | inr m ↦ rw m (
        (λ t n q. elim q [
          | inl k ↦
              let (some_next, early) = s.next_first k.0 k.1 k.2 in
              (some_next, omega (arith, early, k.3))
          | inr k ↦ elim (missed m k) [ ]
        ]),
        (λ t n z l. let (hit, after) = s.next_hit z in inl (cal.next now, hit, after, l)),
      )
    ]
  where
    missed :
        (spec.persistent && persistent_catchup cal rt now) ≡ false
        → ¬ (
            (spec.persistent ≡ true)
            × (rt.last_actual ≢ 0)
            × ((x : ℕ) × Hit x × (rt.last_actual < x) × (x < now)))
    missed m (on, ago, (x, hit, later, before)) =
        let (back, last) = s.previous_last x hit before in
        let after : rt.last_actual < cal.previous now = omega (arith, last, later) in
        ground (arith, m, on, ago, back, after)

pub right : (A B C : Type 0) → (A ⊎ B) ⊎ C → A ⊎ (B ⊎ C)
right A B C (inl (inl a)) = inl a
right A B C (inl (inr b)) = inr (inl b)
right A B C (inr c) = inr (inr c)

pub left : (A B C : Type 0) → A ⊎ (B ⊎ C) → (A ⊎ B) ⊎ C
left A B C (inl a) = inl (inl a)
left A B C (inr (inl b)) = inl (inr b)
left A B C (inr (inr c)) = inr c

calendars_first :
    (Hit : Calendar → ℕ → Type 0) (spec : Spec) (rt : Runtime) (now : ℕ) (P : ℕ → Type 0)
    (c : Choice) (cals : List Calendar)
    → 1 ≤ now
    → All (λ cal. IsSearched (Hit cal) now cal) cals
    → IsFirst now P c.found c.earliest
    → IsFirst now
        (λ t. P t ⊎ SomeHasCome Hit spec rt now t cals)
        (consider_calendars spec rt now c cals).found
        (consider_calendars spec rt now c cals).earliest
unfolding consider_calendars
calendars_first Hit spec rt now P c [] n s h = skipped now P (λ t. ⊥) c (λ t k e. e) h
calendars_first Hit spec rt now P c (cal ∷ cals) n s h =
    let due = calendar_due spec rt now cal in
    let Come : ℕ → Type 0 = λ t. HasCome (Hit cal) spec rt now t in
    let Rest : ℕ → Type 0 = λ t. SomeHasCome Hit spec rt now t cals in
    let next = consider now c due true in
    let final = consider_calendars spec rt now next cals in
    IsFirst-iff now (λ t. (P t ⊎ Come t) ⊎ Rest t) (λ t. P t ⊎ (Come t ⊎ Rest t)) final.found
      final.earliest (λ t k. right (P t) (Come t) (Rest t)) (λ t k. left (P t) (Come t) (Rest t))
      (calendars_first Hit spec rt now (λ t. P t ⊎ Come t) next cals n s.1
        (considered now due true P Come c (come_due (Hit cal) spec rt now cal n s.0) h))

gather : (A B C D : Type 0) → (((⊥ ⊎ A) ⊎ B) ⊎ C) ⊎ D → A ⊎ (B ⊎ (C ⊎ D))
gather A B C D (inl (inl (inl (inl e)))) = elim e [ ]
gather A B C D (inl (inl (inl (inr a)))) = inl a
gather A B C D (inl (inl (inr b))) = inr (inl b)
gather A B C D (inl (inr c)) = inr (inr (inl c))
gather A B C D (inr d) = inr (inr (inr d))

spread : (A B C D : Type 0) → A ⊎ (B ⊎ (C ⊎ D)) → (((⊥ ⊎ A) ⊎ B) ⊎ C) ⊎ D
spread A B C D (inl a) = inl (inl (inl (inr a)))
spread A B C D (inr (inl b)) = inl (inl (inr b))
spread A B C D (inr (inr (inl c))) = inl (inr c)
spread A B C D (inr (inr (inr d))) = inr d

-- The deadline is the first instant from now on at which a trigger rings, and there is a deadline
-- exactly if a trigger rings at some such instant. Each calendar answers as documented, where `Hit`
-- are the instants that its expression matches in the window that is searched.
pub next_deadline-IsFirst :
    (Hit : Calendar → ℕ → Type 0) (spec : Spec) (rt : Runtime) (clk : Clock)
    → 1 ≤ clk.now
    → All (λ cal. IsSearched (Hit cal) clk.now cal) spec.on_calendar
    → IsFirst clk.now
        (Rings Hit spec rt clk)
        (next_deadline spec rt clk).found
        (next_deadline spec rt clk).earliest
unfolding next_deadline
next_deadline-IsFirst Hit spec rt clk n s =
    let now = clk.now in
    let start : Choice = record { found = false; earliest = 0; wall = 0 } in
    let boot_use = spec.on_boot_sec_set && not rt.fired_boot in
    let startup_use = spec.on_startup_sec_set && not rt.fired_startup in
    let active_time = forward rt.last_unit_active spec.on_unit_active_sec in
    let boot : Choice =
      if boot_use then consider now start (boot_due spec clk now) false else start in
    let startup : Choice =
      if startup_use then consider now boot (startup_due spec clk now) false else boot in
    let active : Choice =
      if active_counts spec rt then consider now startup active_time true else startup in
    let Boot = ByBoot spec rt clk in
    let Startup = ByStartup spec rt clk in
    let Active = ByActive spec rt in
    let Come : ℕ → Type 0 = λ t. SomeHasCome Hit spec rt now t spec.on_calendar in
    let final = consider_calendars spec rt now active spec.on_calendar in
    let start_first : IsFirst now (λ t. ⊥) start.found start.earliest = λ t k. k.1 in
    let boot_first =
      used now (boot_due spec clk now) false boot_use (λ t. ⊥) Boot start
        (boot_due_at spec rt clk n) (boot_unused spec rt clk) start_first in
    let startup_first =
      used now (startup_due spec clk now) false startup_use (λ t. ⊥ ⊎ Boot t) Startup boot
        (startup_due_at spec rt clk n) (startup_unused spec rt clk) boot_first in
    let active_first =
      used now active_time true (active_counts spec rt) (λ t. (⊥ ⊎ Boot t) ⊎ Startup t) Active
        startup (active_due spec rt now) (λ h t k. active_unused spec rt now t h) startup_first in
    IsFirst-iff now (λ t. (((⊥ ⊎ Boot t) ⊎ Startup t) ⊎ Active t) ⊎ Come t) (Rings Hit spec rt clk)
      final.found final.earliest (λ t k. gather (Boot t) (Startup t) (Active t) (Come t))
      (λ t k. spread (Boot t) (Startup t) (Active t) (Come t))
      (calendars_first Hit spec rt now (λ t. ((⊥ ⊎ Boot t) ⊎ Startup t) ⊎ Active t) active
        spec.on_calendar n s active_first)
