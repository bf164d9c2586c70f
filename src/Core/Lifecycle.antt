-- ===== src/Core/Lifecycle.antt =====
-- internal/core/state.go: the lifecycle states and `Step`. A number that names no state, substate
-- or event has no counterpart here.
pub mod Shape
pub mod Runs
use winunitd.Common.{Bool, true, false, ◌&&◌, Option, none, some, List, [], ◌∷◌, if◌then◌else◌}
use winunitd.Common.Text.{Text, bytes}

pub data State : Type 0 where
  inactive activating active deactivating failed : State

pub data Substate : Type 0 where
  sub_none start_pre start start_post running stop stop_post sub_auto_restart sub_watchdog :
      Substate

pub data Event : Type 0 where
  start_requested start_succeeded start_failed stop_requested stop_finished : Event
  main_exited auto_restart restart_cancelled watchdog_failed : Event

-- `TransitionError`.
pub record TransitionError : Type 0 where
  pub from : State
  pub from_sub : Substate
  pub event : Event

-- `String` of a state, a substate and an event.
unfoldable pub state_name : State → Text
state_name inactive = bytes "inactive"
state_name activating = bytes "activating"
state_name active = bytes "active"
state_name deactivating = bytes "deactivating"
state_name failed = bytes "failed"

unfoldable pub substate_name : Substate → Text
substate_name sub_none = []
substate_name start_pre = bytes "start-pre"
substate_name start = bytes "start"
substate_name start_post = bytes "start-post"
substate_name running = bytes "running"
substate_name stop = bytes "stop"
substate_name stop_post = bytes "stop-post"
substate_name sub_auto_restart = bytes "auto-restart"
substate_name sub_watchdog = bytes "watchdog"

unfoldable pub event_name : Event → Text
event_name start_requested = bytes "start-requested"
event_name start_succeeded = bytes "start-succeeded"
event_name start_failed = bytes "start-failed"
event_name stop_requested = bytes "stop-requested"
event_name stop_finished = bytes "stop-finished"
event_name main_exited = bytes "main-exited"
event_name auto_restart = bytes "auto-restart"
event_name restart_cancelled = bytes "restart-cancelled"
event_name watchdog_failed = bytes "watchdog-failed"

abbrev is_auto_restart : Substate → Bool
is_auto_restart sub_auto_restart = true
is_auto_restart _ = false

-- The destination, or none where the Go function returns false.
allowed_step : State → Substate → Event → Option (State × Substate)
allowed_step inactive sub start_requested = some (activating, start)
allowed_step failed sub start_requested = some (activating, start)
allowed_step activating sub start_requested = some (activating, start)
allowed_step active sub start_requested = some (activating, start)
allowed_step activating sub start_succeeded = some (active, running)
allowed_step activating sub start_failed = some (failed, sub_none)
allowed_step active sub start_failed = some (failed, sub_none)
allowed_step deactivating sub start_failed = some (failed, sub_none)
allowed_step inactive sub stop_requested = some (deactivating, stop)
allowed_step active sub stop_requested = some (deactivating, stop)
allowed_step activating sub stop_requested = some (deactivating, stop)
allowed_step failed sub stop_requested = some (deactivating, stop)
allowed_step deactivating sub stop_requested = some (deactivating, stop)
allowed_step deactivating sub stop_finished = some (inactive, sub_none)
allowed_step active sub main_exited = some (failed, sub_none)
allowed_step activating sub main_exited = some (failed, sub_none)
allowed_step inactive sub main_exited = some (failed, sub_none)
allowed_step inactive sub auto_restart = some (activating, sub_auto_restart)
allowed_step active sub auto_restart = some (activating, sub_auto_restart)
allowed_step failed sub auto_restart = some (activating, sub_auto_restart)
allowed_step activating sub restart_cancelled =
    if is_auto_restart sub then some (inactive, sub_none) else none
allowed_step active sub watchdog_failed = some (failed, sub_watchdog)
allowed_step activating sub watchdog_failed = some (failed, sub_watchdog)
allowed_step _ _ _ = none

unfoldable pub step : State → Substate → Event → State × Substate × Option TransitionError
unfolding allowed_step
step from from_sub ev = elim (allowed_step from from_sub ev) [
  | some (to, to_sub) ↦ (to, to_sub, none)
  | none ↦ (from, from_sub, some (record { from = from; from_sub = from_sub; event = ev }))
]

-- The events in turn; a refused one changes nothing.
unfoldable pub steps : State × Substate → List Event → State × Substate
unfolding step
steps s [] = s
steps (from, from_sub) (ev ∷ evs) =
    let (to, to_sub, err) = step from from_sub ev in steps (to, to_sub) evs
