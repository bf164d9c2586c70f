-- ===== src/Manager/StartGate/Launches.antt =====
-- Launches of a unit as steps: accepted, going on or not, and made stale.
use winunitd.Common.{
  ℕ, ◌≤◌, ◌<◌, Bool, true, false, ◌&&◌, not, List, [], ◌∷◌, Option, none, some, filter, count, ◌≡◌,
  refl, arith, Bool-cases, inl, inr, All, if◌then◌else◌, ◌==◌,
}
use winunitd.Common.Int.{ℤ, pos_part}
use winunitd.Core.StartLimit.{in_window}
use winunitd.Manager.StartGate.{
  Origin, requested, triggered, auto_restart, Gate, next_gen, accept_launch, record_service_launch,
}

-- A run: the gate, the launches that were accepted and have not recorded a start, and the starts
-- that were recorded since an operator's request was last accepted, the newest first.
pub record Run : Type 0 where
  pub gate : Gate
  pub effects : List ℕ
  pub recorded : List ℕ

-- What happens to a unit, and when. An accepted launch may record its start later, once, or never;
-- a stop makes it stale.
pub data LaunchStep : Type 0 where
  accept : Origin → LaunchStep
  go_on : (gen : ℕ) → LaunchStep
  stop close : LaunchStep

unfoldable pub is_open : ℕ → List ℕ → Bool
is_open gen [] = false
is_open gen (e ∷ es) = if e == gen then true else is_open gen es

abbrev pub since_request : Origin → List ℕ → List ℕ
since_request requested recorded = []
since_request triggered recorded = recorded
since_request auto_restart recorded = recorded

-- The clock does not run backwards.
abbrev pub IsMonotone : ℕ → List (ℕ × LaunchStep) → Type 0
IsMonotone last [] = Unit
IsMonotone last ((now, m) ∷ rest) = (last ≤ now) × IsMonotone now rest

pub All_below : (a b : ℕ) (es : List ℕ) → a ≤ b → All (λ e. e ≤ a) es → All (λ e. e ≤ b) es
All_below a b [] h k = tt
All_below a b (e ∷ es) h k = (omega (arith, k.0), All_below a b es h k.1)

pub All_filter :
    (a : ℕ) (p : ℕ → Bool) (es : List ℕ) → All (λ e. e ≤ a) es → All (λ e. e ≤ a) (filter p es)
unfolding filter
All_filter a p [] k = tt
All_filter a p (e ∷ es) k = elim (Bool-cases (p e)) [
  | inl h ↦ rw (filter, h) (k.0, All_filter a p es k.1)
  | inr h ↦ rw (filter, h) (All_filter a p es k.1)
]

-- A generation that has not been issued is not open.
pub is_open-above :
    (a gen : ℕ) (es : List ℕ) → a < gen → All (λ e. e ≤ a) es → is_open gen es ≡ false
unfolding is_open
is_open-above a gen [] h k = refl
is_open-above a gen (e ∷ es) h k =
    let differs : (e == gen) ≡ false = ground (arith, k.0) in
    rw differs (is_open-above a gen es h k.1)

pub is_open-filter : (gen : ℕ) (es : List ℕ) → is_open gen (filter (λ e. not (e == gen)) es) ≡ false
unfolding is_open filter
is_open-filter gen [] = refl
is_open-filter gen (e ∷ es) = elim (Bool-cases (e == gen)) [
  | inl h ↦ rw (filter, h) (is_open-filter gen es)
  | inr h ↦ rw (filter, h, is_open, h) (is_open-filter gen es)
]

pub is_open_of_filter :
    (gen : ℕ) (p : ℕ → Bool) (es : List ℕ)
    → is_open gen (filter p es) ≡ true
    → is_open gen es ≡ true
unfolding is_open filter
is_open_of_filter gen p [] k = k
is_open_of_filter gen p (e ∷ es) k = elim (Bool-cases (e == gen)) [
  | inl h ↦ rw h refl
  | inr h ↦ elim (Bool-cases (p e)) [
    | inl q ↦
        let kept : is_open gen (e ∷ filter p es) ≡ true = (rw q at k) in
        rw h (is_open_of_filter gen p es (rw h at kept))
    | inr q ↦ rw h (is_open_of_filter gen p es (rw q at k))
  ]
]

abbrev pub accepted : Run → Origin → Option Gate → Run
accepted r origin none = r
accepted r origin (some g) = record {
  gate = g;
  effects = g.gen ∷ r.effects;
  recorded = since_request origin r.recorded;
}

-- Whether a launch that goes on records a start.
abbrev pub records : Gate → ℕ → Bool
records g gen = not g.closed && g.gen == gen

module _ (interval burst : ℤ) where
  unfoldable pub launch_step : ℕ → LaunchStep → Run → Run
  unfolding is_open
  launch_step now (accept origin) r =
      accepted r origin (accept_launch interval burst origin now r.gate)
  launch_step now (go_on gen) r =
      if is_open gen r.effects
      then record {
        gate = record_service_launch interval burst gen now r.gate;
        effects = filter (λ e. not (e == gen)) r.effects;
        recorded = if records r.gate gen then now ∷ r.recorded else r.recorded;
      }
      else r
  launch_step now stop r = record r { gate = next_gen r.gate }
  launch_step now close r = record r { gate = record r.gate { closed = true } }

  unfoldable pub launching : List (ℕ × LaunchStep) → Run → Run
  unfolding launch_step
  launching [] r = r
  launching ((now, m) ∷ rest) r = launching rest (launch_step now m r)

  -- The window that ends with each start, this start included, holds at most `burst` starts.
  abbrev pub IsLimited : List ℕ → Type 0
  IsLimited [] = Unit
  IsLimited (t ∷ older) =
      (count (in_window t interval) (t ∷ older) ≤ pos_part burst) × IsLimited older

abbrev pub fresh : Run
fresh = record {
  gate = record { start_times = []; gen = 0; closed = false };
  effects = [];
  recorded = [];
}
