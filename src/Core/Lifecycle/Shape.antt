-- ===== src/Core/Lifecycle/Shape.antt =====
-- Which substates go with which states.
use winunitd.Common.{◌≡◌, arith}
use winunitd.Core.Lifecycle.{
  State, Substate, Event, inactive, activating, active, deactivating, failed, sub_none, start,
  running, stop, sub_auto_restart, sub_watchdog, step, state_name,
}

-- The pairs of a state and a substate that a unit can be in.
pub data IsConsistent : State → Substate → Type 0 where
  at_rest : IsConsistent inactive sub_none
  starting : IsConsistent activating start
  waiting : IsConsistent activating sub_auto_restart
  up : IsConsistent active running
  stopping : IsConsistent deactivating stop
  broken : IsConsistent failed sub_none
  unresponsive : IsConsistent failed sub_watchdog

-- Every event, accepted or refused, keeps a consistent pair consistent.
pub step-IsConsistent :
    (s : State) (sub : Substate) (ev : Event)
    → IsConsistent s sub
    → IsConsistent (step s sub ev).0 (step s sub ev).1
unfolding step
step-IsConsistent s sub ev c =
    grind (arith, at_rest, starting, waiting, up, stopping, broken, unresponsive)

-- Two states with one name are the same state.
pub state_name-injective : (s t : State) → state_name s ≡ state_name t → s ≡ t
unfolding state_name
state_name-injective s t h = ground arith
