-- ===== src/Core/Lifecycle/Runs.antt =====
-- What holds of a unit over every sequence of lifecycle events.
use winunitd.Common.{◌≡◌, refl, ◌≢◌, ◌⊎◌, inl, inr, arith, List, [], ◌∷◌, All, Bool, true, false}
use winunitd.Core.Lifecycle.{
  State, Substate, Event, inactive, activating, active, deactivating, sub_none, step, steps,
  start_requested, start_succeeded, auto_restart, stop_finished, start_failed,
}
use winunitd.Core.Lifecycle.Shape.{IsConsistent, step-IsConsistent, at_rest}

steps-IsConsistent :
    (s : State) (sub : Substate) (evs : List Event)
    → IsConsistent s sub
    → IsConsistent (steps (s, sub) evs).0 (steps (s, sub) evs).1
unfolding steps
steps-IsConsistent s sub [] c = c
steps-IsConsistent s sub (ev ∷ evs) c =
    steps-IsConsistent (step s sub ev).0 (step s sub ev).1 evs (step-IsConsistent s sub ev c)

-- Over any events at all, a unit that starts inactive has a substate that goes with its state.
pub run-IsConsistent :
    (evs : List Event)
    → IsConsistent (steps (inactive, sub_none) evs).0 (steps (inactive, sub_none) evs).1
run-IsConsistent evs = steps-IsConsistent inactive sub_none evs at_rest

-- Neither of the events that end a stop.
abbrev pub NoEnd : Event → Type 0
NoEnd ev = (ev ≢ stop_finished) × (ev ≢ start_failed)

step-deactivating :
    (sub : Substate) (ev : Event) → NoEnd ev → (step deactivating sub ev).0 ≡ deactivating
unfolding step
step-deactivating sub ev h = ground arith

-- While a unit is deactivating, no sequence of starts, restarts, exits or other events takes it
-- out of that state, unless it holds the end of the stop or a failure.
pub deactivating_stays :
    (evs : List Event) (sub : Substate)
    → All NoEnd evs
    → (steps (deactivating, sub) evs).0 ≡ deactivating
unfolding steps
deactivating_stays [] sub h = refl
deactivating_stays (ev ∷ evs) sub h =
    let same = step-deactivating sub ev h.0 in
    rw same (deactivating_stays evs (step deactivating sub ev).1 h.1)

-- The event belongs to the start of a unit.
abbrev begins : Event → Bool
begins start_requested = true
begins auto_restart = true
begins _ = false

abbrev succeeds : Event → Bool
succeeds start_succeeded = true
succeeds _ = false

-- Some event of the list reports a start as successful.
abbrev pub Reported : List Event → Type 0
Reported [] = ⊥
Reported (ev ∷ evs) = (succeeds ev ≡ true) ⊎ Reported evs

-- A start was begun, by request or by a restart, and a later event reports its success.
abbrev pub Started : List Event → Type 0
Started [] = ⊥
Started (ev ∷ evs) = ((begins ev ≡ true) × Reported evs) ⊎ Started evs

abbrev is_active : State → Bool
is_active active = true
is_active _ = false

-- Neither active nor on the way there.
abbrev pub is_down : State → Bool
is_down active = false
is_down activating = false
is_down _ = true

step-is_active :
    (s : State) (sub : Substate) (ev : Event)
    → is_active s ≡ false
    → (succeeds ev ≡ true) ⊎ (is_active (step s sub ev).0 ≡ false)
unfolding step
step-is_active s sub ev h = ground arith

step-is_down :
    (s : State) (sub : Substate) (ev : Event)
    → is_down s ≡ true
    → ((begins ev ≡ true) × (is_active (step s sub ev).0 ≡ false))
      ⊎ (is_down (step s sub ev).0 ≡ true)
unfolding step
step-is_down s sub ev h = ground arith

Reported-of_active :
    (evs : List Event) (s : State) (sub : Substate)
    → is_active s ≡ false
    → (steps (s, sub) evs).0 ≡ active
    → Reported evs
unfolding steps
Reported-of_active [] s sub h e = ground arith
Reported-of_active (ev ∷ evs) s sub h e = elim (step-is_active s sub ev h) [
  | inl now ↦ inl now
  | inr later ↦ inr (Reported-of_active evs (step s sub ev).0 (step s sub ev).1 later e)
]

-- A unit that was neither active nor activating is active after some events only if these hold
-- the request or the automatic restart that began a start and, later, the report of its success.
pub active_needs_start :
    (evs : List Event) (s : State) (sub : Substate)
    → is_down s ≡ true
    → (steps (s, sub) evs).0 ≡ active
    → Started evs
unfolding steps
active_needs_start [] s sub h e = ground arith
active_needs_start (ev ∷ evs) s sub h e = elim (step-is_down s sub ev h) [
  | inl (first, waits) ↦
      inl (first, Reported-of_active evs (step s sub ev).0 (step s sub ev).1 waits e)
  | inr later ↦ inr (active_needs_start evs (step s sub ev).0 (step s sub ev).1 later e)
]
