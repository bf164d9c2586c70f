-- ===== src/Timers/Schedule/Rings.antt =====
-- What makes a timer ring, and how one trigger is taken into the choice of a deadline.
use winunitd.Common.{
  ℕ, ◌+◌, ◌≤◌, ◌<◌, Bool, true, false, ◌||◌, not, List, [], ◌∷◌, if◌then◌else◌, ltb, ◌==◌, ◌≡◌, ◌≢◌,
  ◌⊎◌, arith, inl, inr, Bool-cases,
}
use winunitd.Common.Int.{ℤ, pos_part, neg_part}
use winunitd.Timers.Schedule.{Calendar, Clock, Spec, Runtime, Choice, consider}

-- What the searches of a calendar answer at an instant, where `Hit` are the instants, in the window
-- that they search, that the expression matches: the next one strictly after it and the latest one
-- strictly before it, and the zero time where there is none.
pub record IsSearched (Hit : ℕ → Type 0) (now : ℕ) (cal : Calendar) : Type 0 where
  pub next_hit : cal.next now ≢ 0 → Hit (cal.next now) × (now < cal.next now)
  pub next_first : (x : ℕ) → Hit x → now < x → (cal.next now ≢ 0) × (cal.next now ≤ x)
  pub previous_hit : cal.previous now ≢ 0 → Hit (cal.previous now) × (cal.previous now < now)
  pub previous_last : (x : ℕ) → Hit x → x < now → (cal.previous now ≢ 0) × (x ≤ cal.previous now)

-- Whether a clock that stands at `elapsed` at the instant `now` has come to `wait` at `t`.
abbrev pub IsReached : ℤ → ℤ → (now t : ℕ) → Type 0
IsReached wait elapsed now t =
    pos_part wait + neg_part elapsed + now ≤ pos_part elapsed + neg_part wait + t

-- A calendar time after now and not after `t`, or, for a persistent timer, one that was missed: it
-- lies between the last activation, where there was one, and now.
abbrev pub HasCome : (ℕ → Type 0) → Spec → Runtime → (now t : ℕ) → Type 0
HasCome Hit spec rt now t =
    ((x : ℕ) × Hit x × (now < x) × (x ≤ t))
    ⊎ ((spec.persistent ≡ true)
        × (rt.last_actual ≢ 0)
        × ((x : ℕ) × Hit x × (rt.last_actual < x) × (x < now)))

abbrev pub SomeHasCome :
    (Calendar → ℕ → Type 0) → Spec → Runtime → (now t : ℕ) → List Calendar → Type 0
SomeHasCome Hit spec rt now t [] = ⊥
SomeHasCome Hit spec rt now t (cal ∷ cals) =
    HasCome (Hit cal) spec rt now t ⊎ SomeHasCome Hit spec rt now t cals

-- The triggers that make a timer ring at the instant `t` or before it.
abbrev pub ByBoot : Spec → Runtime → Clock → ℕ → Type 0
ByBoot spec rt clk t =
    (spec.on_boot_sec_set ≡ true)
    × (rt.fired_boot ≡ false)
    × IsReached spec.on_boot_sec clk.since_boot clk.now t

abbrev pub ByStartup : Spec → Runtime → Clock → ℕ → Type 0
ByStartup spec rt clk t =
    (spec.on_startup_sec_set ≡ true)
    × (rt.fired_startup ≡ false)
    × IsReached spec.on_startup_sec clk.since_start clk.now t

-- The unit was active, the wait since then is over at `t`, and the end of the wait comes after the
-- last activation of the timer.
abbrev pub ByActive : Spec → Runtime → ℕ → Type 0
ByActive spec rt t =
    let wait = spec.on_unit_active_sec in
    (spec.on_unit_active_sec_set ≡ true)
    × (rt.last_unit_active ≢ 0)
    × (rt.last_unit_active + pos_part wait ≤ t + neg_part wait)
    × (rt.last_actual + neg_part wait < rt.last_unit_active + pos_part wait)

abbrev pub Rings : (Calendar → ℕ → Type 0) → Spec → Runtime → Clock → ℕ → Type 0
Rings Hit spec rt clk t =
    ByBoot spec rt clk t
    ⊎ (ByStartup spec rt clk t
        ⊎ (ByActive spec rt t ⊎ SomeHasCome Hit spec rt clk.now t spec.on_calendar))

-- The first instant from `now` on with a property, and whether there is one.
abbrev pub IsFirst : ℕ → (ℕ → Type 0) → Bool → ℕ → Type 0
IsFirst now P false e = (t : ℕ) → ¬ ((now ≤ t) × P t)
IsFirst now P true e = (now ≤ e) × P e × ((t : ℕ) → ¬ ((now ≤ t) × P t × (t < e)))

-- A trigger that is due at `u` or, where that has passed, now.
abbrev pub IsDueAt : ℕ → ℕ → (ℕ → Type 0) → Type 0
IsDueAt now u Q =
    ((t : ℕ) → now ≤ t → Q t → (u ≢ 0) × (u ≤ t)) × ((t : ℕ) → now ≤ t → u ≢ 0 → u ≤ t → Q t)

pub IsFirst-iff :
    (now : ℕ) (P R : ℕ → Type 0) (found : Bool) (e : ℕ)
    → ((t : ℕ) → now ≤ t → P t → R t)
    → ((t : ℕ) → now ≤ t → R t → P t)
    → IsFirst now P found e
    → IsFirst now R found e
IsFirst-iff now P R false e f g h = λ t k. h t (k.0, g t k.0 k.1)
IsFirst-iff now P R true e f g h = (h.0, f e h.0 h.1, λ t k. h.2 t (k.0, g t k.0 k.1, k.2))

pub skipped :
    (now : ℕ) (P Q : ℕ → Type 0) (c : Choice)
    → ((t : ℕ) → now ≤ t → ¬ (Q t))
    → IsFirst now P c.found c.earliest
    → IsFirst now (λ t. P t ⊎ Q t) c.found c.earliest
skipped now P Q c never =
    IsFirst-iff now P (λ t. P t ⊎ Q t) c.found c.earliest (λ t n p. inl p)
      (λ t n r. elim r [ inl p ↦ p | inr q ↦ elim (never t n q) [ ] ])

first_of :
    (now : ℕ) (P Q : ℕ → Type 0) (e : ℕ)
    → now ≤ e
    → P e ⊎ Q e
    → ((t : ℕ) → ¬ ((now ≤ t) × P t × (t < e)))
    → ((t : ℕ) → ¬ ((now ≤ t) × Q t × (t < e)))
    → IsFirst now (λ t. P t ⊎ Q t) true e
first_of now P Q e n r no_p no_q =
    (n, r, λ t k. elim k.1 [ inl p ↦ no_p t (k.0, p, k.2) | inr q ↦ no_q t (k.0, q, k.2) ])

-- A trigger is taken where it comes before what was chosen so far.
pub taken :
    (now u d : ℕ) (P Q : ℕ → Type 0) (found : Bool) (e : ℕ)
    → IsDueAt now u Q
    → u ≢ 0
    → now ≤ d
    → u ≤ d
    → ((t : ℕ) → now ≤ t → u ≤ t → d ≤ t)
    → IsFirst now P found e
    → IsFirst now (λ t. P t ⊎ Q t) true (if not found || ltb d e then d else e)
taken now u d P Q found e due z n above low h = elim (Bool-cases (not found || ltb d e)) [
  | inl b ↦ rw b (
      first_of now P Q d n (inr (due.1 d n z above)) (no_earlier found e b h)
        (λ t k. omega (arith, k.2, low t k.0 (due.0 t k.0 k.1).1)))
  | inr b ↦ rw b (kept found e b h)
]
  where
    no_earlier :
        (found : Bool) (e : ℕ)
        → (not found || ltb d e) ≡ true
        → IsFirst now P found e
        → (t : ℕ) → ¬ ((now ≤ t) × P t × (t < d))
    no_earlier false e b h t k = h t (k.0, k.1)
    no_earlier true e b h t k = h.2 t (k.0, k.1, ground (arith, b, k.2))

    kept :
        (found : Bool) (e : ℕ)
        → (not found || ltb d e) ≡ false
        → IsFirst now P found e
        → IsFirst now (λ t. P t ⊎ Q t) true e
    kept false e b h = cc
    kept true e b h =
        first_of now P Q e h.0 (inl h.1) h.2 (λ t k.
          let low_t : d ≤ t = low t k.0 (due.0 t k.0 k.1).1 in ground (arith, b, k.2, low_t))

pub considered :
    (now u : ℕ) (w : Bool) (P Q : ℕ → Type 0) (c : Choice)
    → IsDueAt now u Q
    → IsFirst now P c.found c.earliest
    → IsFirst now (λ t. P t ⊎ Q t) (consider now c u w).found (consider now c u w).earliest
unfolding consider
considered now u w P Q c due h = elim (Bool-cases (u == 0)) [
  | inl z ↦ rw z (skipped now P Q c (λ t n q. (due.0 t n q).0 (ground (arith, z))) h)
  | inr z ↦
      let u_ne_zero : u ≢ 0 = ground (arith, z) in
      rw z (
        taken now u (if ltb u now then now else u) P Q c.found c.earliest due u_ne_zero
          (ground arith) (ground arith) (λ t n l. ground (arith, n, l)) h)
]
