-- ===== src/Manager/StartGate/Window.antt =====
-- The starts in a window, over any run of launches.
use mathlib.Core.Path.{subst}
use winunitd.Common.{
  ℕ, suc, ◌+◌, ◌%◌, ◌^◌, ◌≤◌, ◌<◌, Bool, true, false, not, List, [], ◌∷◌, Option, none, some,
  filter, count, length, ◌≡◌, refl, sym, ap, ◌∙◌, arith, Bool-cases, inl, inr, All, if◌then◌else◌,
  ◌==◌,
}
use winunitd.Common.Int.{ℤ, pos_part}
use winunitd.Core.StartLimit.{start_limit_disabled, in_window, start_limit_hit}
use winunitd.Core.StartLimit.Rate.{in_window_now}
use winunitd.Manager.StartGate.{
  Origin, requested, triggered, auto_restart, Gate, next_gen, admitted_starts, accept_launch,
  record_start_locked, record_service_launch,
}
use winunitd.Manager.StartGate.Counts.{
  count_later, count-record_start, room_left, room_alone, positive,
}
use winunitd.Manager.StartGate.Launches.{
  IsLimited, accepted, records, launch_step, launching, fresh, accept, go_on, stop, close, Run,
  LaunchStep, is_open, IsMonotone, All_below, All_filter, is_open-above, is_open-filter,
  is_open_of_filter,
}

no_true : (b : Bool) → b ≡ false → b ≡ true → ⊥
no_true b h k = cc

module _ (interval burst : ℤ) where
  record Inv (last budget : ℕ) (r : Run) : Type 0 where
    limited : IsLimited interval burst r.recorded
    same :
        (now : ℕ)
        → last ≤ now
        → count (in_window now interval) r.gate.start_times
          ≡ count (in_window now interval) r.recorded
    room :
        is_open r.gate.gen r.effects ≡ true
        → (now : ℕ) → last ≤ now
        → count (in_window now interval) r.recorded + 1 ≤ pos_part burst
    issued : All (λ e. e ≤ r.gate.gen) r.effects
    left : r.gate.gen + budget < 2 ^ 64

  module _ (on : start_limit_disabled interval burst ≡ false) where
    later-Inv : (last now budget : ℕ) (r : Run) → last ≤ now → Inv last budget r → Inv now budget r
    later-Inv last now budget r h inv = record {
      limited = inv.limited;
      same = λ later k. inv.same later (omega arith);
      room = λ o later k. inv.room o later (omega arith);
      issued = inv.issued;
      left = inv.left;
    }

    wait-Inv : (now budget : ℕ) (r : Run) → Inv now (suc budget) r → Inv now budget r
    wait-Inv now budget r inv = record {
      limited = inv.limited;
      same = inv.same;
      room = inv.room;
      issued = inv.issued;
      left = omega (arith, inv.left);
    }

    -- An accepted launch, with the start times that are kept and room for its own.
    accepted-Inv :
        (now budget : ℕ) (r : Run) (kept recorded : List ℕ)
        → Inv now (suc budget) r
        → IsLimited interval burst recorded
        → ((later : ℕ)
            → now ≤ later
            → count (in_window later interval) kept ≡ count (in_window later interval) recorded)
        → ((later : ℕ)
            → now ≤ later
            → count (in_window later interval) recorded + 1 ≤ pos_part burst)
        → Inv now budget (record {
          gate = next_gen (record r.gate { start_times = kept });
          effects = (r.gate.gen + 1) % 2 ^ 64 ∷ r.effects;
          recorded = recorded;
        })
    accepted-Inv now budget r kept recorded inv limited same room =
        let gen : (r.gate.gen + 1) % 2 ^ 64 ≡ r.gate.gen + 1 = omega (arith, inv.left) in
        record {
          limited = limited;
          same = same;
          room = λ o. room;
          issued = (
            omega arith,
            All_below r.gate.gen ((r.gate.gen + 1) % 2 ^ 64) r.effects (omega (arith, gen))
                inv.issued,
          );
          left = omega (arith, inv.left, gen);
        }

    -- What the acceptance does with the start times that are kept.
    abbrev gate_of : Gate → Option (List ℕ) → Option Gate
    gate_of g none = none
    gate_of g (some kept) = some (next_gen (record g { start_times = kept }))

    accept_launch-cases :
        (origin : Origin) (now : ℕ) (g : Gate)
        → accept_launch interval burst origin now g ≡ (
            if g.closed
            then none
            else gate_of g (admitted_starts interval burst origin now g.start_times))
    unfolding accept_launch
    accept_launch-cases origin now g =
        ap (λ o. if g.closed then none else o)
          (same (admitted_starts interval burst origin now g.start_times))
      where
        same :
            (o : Option (List ℕ))
            → (elim o [
              | none ↦ none
              | some kept ↦ some (next_gen (record g { start_times = kept }))
            ])
              ≡ gate_of g o
        same none = refl
        same (some kept) = refl

    -- A launch that counts against the limit.
    against-Inv :
        (now budget : ℕ) (r : Run)
        → Inv now (suc budget) r
        → Inv now budget (
            accepted r triggered (
              gate_of r.gate (
                if start_limit_hit r.gate.start_times now interval burst
                then none
                else some r.gate.start_times)))
    against-Inv now budget r inv =
        elim (Bool-cases (start_limit_hit r.gate.start_times now interval burst)) [
          | inl hit ↦ rw hit (wait-Inv now budget r inv)
          | inr free ↦ rw free (
              accepted-Inv now budget r r.gate.start_times r.recorded inv inv.limited inv.same
                (λ later k. omega (
                  arith,
                  room_left interval burst on r.gate.start_times now free,
                  inv.same later k,
                  count_later interval burst on now later r.gate.start_times k,
                )))
        ]

    admitted-Inv :
        (now budget : ℕ) (origin : Origin) (r : Run)
        → Inv now (suc budget) r
        → Inv now budget (
            accepted r origin
              (gate_of r.gate (admitted_starts interval burst origin now r.gate.start_times)))
    unfolding admitted_starts
    admitted-Inv now budget requested r inv =
        accepted-Inv now budget r [] [] inv tt (λ later k. refl)
          (λ later k. omega (arith, room_alone interval burst on))
    admitted-Inv now budget triggered r inv = against-Inv now budget r inv
    admitted-Inv now budget auto_restart r inv =
        subst (Inv now budget)
          (same (
            gate_of r.gate (
              if start_limit_hit r.gate.start_times now interval burst
              then none
              else some r.gate.start_times)))
          (against-Inv now budget r inv)
      where
        same : (o : Option Gate) → accepted r triggered o ≡ accepted r auto_restart o
        same none = refl
        same (some g) = refl

    accept-Inv :
        (now budget : ℕ) (origin : Origin) (r : Run)
        → Inv now (suc budget) r
        → Inv now budget (launch_step interval burst now (accept origin) r)
    unfolding launch_step
    accept-Inv now budget origin r inv = elim (Bool-cases r.gate.closed) [
      | inl c ↦
          subst (λ o. Inv now budget (accepted r origin o))
            (sym (
              accept_launch-cases origin now r.gate
              ∙ ap
                  (λ b.
                    if b
                    then none
                    else gate_of r.gate
                        (admitted_starts interval burst origin now r.gate.start_times))
                  c))
            (wait-Inv now budget r inv)
      | inr c ↦
          subst (λ o. Inv now budget (accepted r origin o))
            (sym (
              accept_launch-cases origin now r.gate
              ∙ ap
                  (λ b.
                    if b
                    then none
                    else gate_of r.gate
                        (admitted_starts interval burst origin now r.gate.start_times))
                  c))
            (admitted-Inv now budget origin r inv)
    ]

    go_on-Inv :
        (now budget gen : ℕ) (r : Run)
        → Inv now (suc budget) r
        → Inv now budget (launch_step interval burst now (go_on gen) r)
    unfolding launch_step record_service_launch record_start_locked
    go_on-Inv now budget gen r inv = elim (Bool-cases (is_open gen r.effects)) [
      | inr o ↦ rw (launch_step, o) (wait-Inv now budget r inv)
      | inl o ↦ elim (Bool-cases (records r.gate gen)) [
        | inr s ↦
            rw (launch_step, o, record_service_launch, s)
              (record {
                limited = inv.limited;
                same = inv.same;
                room =
                    λ p. inv.room (is_open_of_filter r.gate.gen (λ e. not (e == gen)) r.effects p);
                issued = All_filter r.gate.gen (λ e. not (e == gen)) r.effects inv.issued;
                left = omega (arith, inv.left);
              })
        | inl s ↦
            let same : r.gate.gen ≡ gen = ground arith in
            let current : is_open r.gate.gen r.effects ≡ true =
              ap (λ k. is_open k r.effects) same ∙ o in
            rw (launch_step, o, record_service_launch, s)
              (record {
                limited = (
                  ground (
                    arith,
                    inv.room current now (omega arith),
                    in_window_now now interval (positive interval burst on),
                  ),
                  inv.limited,
                );
                same = λ later k. omega (
                  arith,
                  count-record_start interval burst on r.gate.start_times now later k,
                  inv.same later k,
                );
                room = λ p.
                    let rest = filter (λ e. not (e == gen)) r.effects in
                    elim (no_true (is_open r.gate.gen rest)
                      (ap (λ k. is_open k rest) same ∙ is_open-filter gen r.effects) p) [ ];
                issued = All_filter r.gate.gen (λ e. not (e == gen)) r.effects inv.issued;
                left = omega (arith, inv.left);
              })
      ]
    ]

    launch_step-Inv :
        (last now budget : ℕ) (m : LaunchStep) (r : Run)
        → last ≤ now
        → Inv last (suc budget) r
        → Inv now budget (launch_step interval burst now m r)
    unfolding launch_step
    launch_step-Inv last now budget (accept origin) r h inv =
        accept-Inv now budget origin r (later-Inv last now (suc budget) r h inv)
    launch_step-Inv last now budget (go_on gen) r h inv =
        go_on-Inv now budget gen r (later-Inv last now (suc budget) r h inv)
    launch_step-Inv last now budget stop r h inv =
        let gen : (r.gate.gen + 1) % 2 ^ 64 ≡ r.gate.gen + 1 = omega (arith, inv.left) in
        record {
          limited = inv.limited;
          same = λ later k. inv.same later (omega arith);
          room = λ o.
              elim (no_true (is_open ((r.gate.gen + 1) % 2 ^ 64) r.effects)
                (is_open-above r.gate.gen ((r.gate.gen + 1) % 2 ^ 64) r.effects (omega (arith, gen))
                  inv.issued)
                o) [ ];
          issued =
              All_below r.gate.gen ((r.gate.gen + 1) % 2 ^ 64) r.effects (omega (arith, gen))
                inv.issued;
          left = omega (arith, inv.left, gen);
        }
    launch_step-Inv last now budget close r h inv = record {
      limited = inv.limited;
      same = λ later k. inv.same later (omega arith);
      room = λ o later k. inv.room o later (omega arith);
      issued = inv.issued;
      left = omega (arith, inv.left);
    }

    launching-IsLimited :
        (ms : List (ℕ × LaunchStep)) (last : ℕ) (r : Run)
        → IsMonotone last ms
        → Inv last (length ms) r
        → IsLimited interval burst (launching interval burst ms r).recorded
    unfolding launching
    launching-IsLimited [] last r mono inv = inv.limited
    launching-IsLimited ((now, m) ∷ rest) last r mono inv =
        launching-IsLimited rest now (launch_step interval burst now m r) mono.1
          (launch_step-Inv last now (length rest) m r mono.0 inv)

-- With a start limit that is on and does not change, and a clock that does not run backwards, over
-- fewer than 2 ^ 64 steps of a unit that starts with no history, whatever becomes of the launches
-- that are accepted: since an operator's request was last accepted, the window that ends with each
-- recorded start holds at most `burst` recorded starts, that start included.
pub launches-IsLimited :
    (interval burst : ℤ) (ms : List (ℕ × LaunchStep))
    → start_limit_disabled interval burst ≡ false
    → IsMonotone 0 ms
    → length ms < 2 ^ 64
    → IsLimited interval burst (launching interval burst ms fresh).recorded
unfolding is_open
launches-IsLimited interval burst ms on mono few =
    launching-IsLimited interval burst on ms 0 fresh mono (record {
      limited = tt;
      same = λ now h. refl;
      room = λ o. elim (no_true false refl o) [ ];
      issued = tt;
      left = omega (arith, few);
    })
