-- ===== src/Tests/Lifecycles.antt =====
-- Lives of a unit.
use winunitd.Common.{List, [], ◌∷◌, ◌≡◌, refl, All}
use winunitd.Core.Lifecycle.{
  Event, inactive, active, deactivating, failed, sub_none, stop, steps, start_requested,
  start_succeeded, stop_requested, main_exited, auto_restart, restart_cancelled,
}
use winunitd.Core.Lifecycle.Shape.{IsConsistent}
use winunitd.Core.Lifecycle.Runs.{
  run-IsConsistent, deactivating_stays, active_needs_start, Started, NoEnd,
}

abbrev life : List Event
life = start_requested ∷ start_succeeded ∷ main_exited ∷ auto_restart ∷ []

run-IsConsistent_example :
    IsConsistent (steps (inactive, sub_none) life).0 (steps (inactive, sub_none) life).1
run-IsConsistent_example = run-IsConsistent life

abbrev meddling : List Event
meddling = start_requested ∷ auto_restart ∷ stop_requested ∷ restart_cancelled ∷ []

quiet : All NoEnd meddling
quiet = ((λ e. cc, λ e. cc), ((λ e. cc, λ e. cc), ((λ e. cc, λ e. cc), ((λ e. cc, λ e. cc), tt))))

deactivating_stays_example : (steps (deactivating, stop) meddling).0 ≡ deactivating
deactivating_stays_example = deactivating_stays meddling stop quiet

started : (steps (failed, sub_none) (auto_restart ∷ start_succeeded ∷ [])).0 ≡ active
unfolding steps
started = refl

active_needs_start_example : Started (auto_restart ∷ start_succeeded ∷ [])
active_needs_start_example =
    active_needs_start (auto_restart ∷ start_succeeded ∷ []) failed sub_none refl started
