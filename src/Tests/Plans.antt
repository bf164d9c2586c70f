-- ===== src/Tests/Plans.antt =====
-- Plans and cycles of the sample graph.
use winunitd.Common.{List, [], ◌∷◌, ◌≡◌, ◌≢◌, refl, true, false, ◌&&◌, ◌||◌, filter, if◌then◌else◌}
use winunitd.Common.Result.{Result, ok, err}
use winunitd.Common.Text.{Text, bytes, text_eq, text_le, to_lower, trim_space, has_suffix}
use winunitd.Unit.Name.{normalize_name}
use winunitd.Core.Names.{contains_name, unique_stable, sort_names}
use winunitd.Core.Graph.{is_loaded, find, names, stop_requires_name, stop_dep_names}
use winunitd.Core.Graph.Closures.{
  reverse_requirement_closure, reverse_requirers_of, after_closure, after_successors,
}
use winunitd.Core.Graph.Waits.{waits, declares_after, puts_before, build_waits}
use winunitd.Core.Cycle.{
  find_cycle, out_of_fuel, acyclic, cyclic, dfs, visit_roots, parent_of, set_parent,
  reconstruct_cycle,
}
use winunitd.Core.Cycle.Walk.{IsCycle, IsOrdered}
use winunitd.Core.Cycle.Correct.{
  find_cycle_total, find_cycle-cyclic, find_cycle-order, find_cycle-acyclic,
}
use winunitd.Core.Transaction.{
  PlanError, Transaction, has_job, waits_at, push_waits, push_all, push_reverse, add_all, add,
  add_roots, stop_roots, start_waits, reverse_waits, reverse_requirement_waits, merge_waits,
  job_names, checked, validate, plan_start, plan_stop, plan_shutdown, units,
}
use winunitd.Core.Transaction.StartPlan.{StartPlanned, plan_start-StartPlanned}
use winunitd.Tests.Samples.{db, app, web, stack, stack_units, build-stack}

build_waits_example : waits stack web app ≡ (
    is_loaded stack web
    && ((declares_after stack web app && is_loaded stack app) || puts_before stack app web))
build_waits_example = build_waits stack_units stack web app build-stack

abbrev circle : Text → List Text
circle name =
    if text_eq name db
    then web ∷ []
    else if text_eq name app
    then db ∷ []
    else if text_eq name web
    then app ∷ []
    else []

abbrev line : Text → List Text
line name = if text_eq name app then db ∷ [] else if text_eq name web then app ∷ [] else []

abbrev three : List Text
three = web ∷ db ∷ app ∷ []

no_nameless : contains_name three [] ≡ false
unfolding contains_name text_eq
no_nameless = refl

circle_found : find_cycle three circle ≡ cyclic (app ∷ db ∷ web ∷ app ∷ [])
unfolding find_cycle dfs sort_names text_le text_eq parent_of set_parent reconstruct_cycle
    contains_name
circle_found = refl

line_free : find_cycle three line ≡ acyclic
unfolding find_cycle dfs sort_names text_le text_eq parent_of set_parent reconstruct_cycle
    contains_name
line_free = refl

find_cycle_total_example : find_cycle three circle ≢ out_of_fuel
find_cycle_total_example = find_cycle_total three circle no_nameless

find_cycle-cyclic_example : IsCycle (contains_name three) circle (app ∷ db ∷ web ∷ app ∷ [])
find_cycle-cyclic_example =
    find_cycle-cyclic three circle (app ∷ db ∷ web ∷ app ∷ []) no_nameless circle_found

find_cycle-order_example :
    (order : List Text) × IsOrdered (contains_name three) line order
    × ((x : Text) → contains_name three x ≡ true → contains_name order x ≡ true)
find_cycle-order_example = find_cycle-order three line no_nameless line_free

find_cycle-acyclic_example : ¬ IsCycle (contains_name three) line (app ∷ db ∷ app ∷ [])
find_cycle-acyclic_example =
    find_cycle-acyclic three line (app ∷ db ∷ app ∷ []) no_nameless line_free

stack_named : is_loaded stack [] ≡ false
unfolding is_loaded text_eq
stack_named = refl

plan_start-StartPlanned_example : StartPlanned stack (web ∷ []) (plan_start stack (web ∷ []))
plan_start-StartPlanned_example = plan_start-StartPlanned stack (web ∷ []) stack_named

units_of : Result PlanError Transaction → List Text
unfolding text_eq text_le to_lower trim_space has_suffix normalize_name contains_name unique_stable
    sort_names filter is_loaded find names stop_requires_name stop_dep_names
    reverse_requirement_closure reverse_requirers_of after_closure after_successors find_cycle dfs
    visit_roots parent_of set_parent reconstruct_cycle has_job waits_at push_waits push_all
    push_reverse add_all add add_roots stop_roots start_waits reverse_waits
    reverse_requirement_waits merge_waits job_names checked validate plan_start plan_stop
    plan_shutdown units
units_of (err e) = []
units_of (ok tx) = units tx

-- The target pulls in the application, which pulls in the database; the unit that is not loaded is
-- only wanted.
plan_start_runs : units_of (plan_start stack (bytes "Web.target" ∷ [])) ≡ app ∷ db ∷ web ∷ []
unfolding units_of
plan_start_runs = refl

-- Stopping the database stops what requires it.
plan_stop_runs : units_of (plan_stop stack (db ∷ [])) ≡ app ∷ db ∷ []
unfolding units_of
plan_stop_runs = refl

-- Shutting down from the database stops all that starts after it.
plan_shutdown_runs : units_of (plan_shutdown stack (db ∷ [])) ≡ app ∷ db ∷ web ∷ []
unfolding units_of
plan_shutdown_runs = refl
