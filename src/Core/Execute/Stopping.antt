-- ===== src/Core/Execute/Stopping.antt =====
-- internal/core/execute.go: `ExecuteStopWithLimit` and `stopExecutor`, which goes on after errors
-- and is not cancelled.
pub mod Runs
use winunitd.Common.{
  ℕ, Bool, true, false, ◌||◌, Option, none, some, List, [], ◌∷◌, if◌then◌else◌, ltb, ◌==◌,
}
use winunitd.Common.Text.{Text}
use winunitd.Common.Result.{Result, ok, err, ◌>>=◌}
use winunitd.Core.Names.{contains_name}
use winunitd.Core.Lifecycle.{State, inactive, active, deactivating}
use winunitd.Core.Graph.{Graph}
use winunitd.Core.Transaction.{
  Transaction, PlanError, job_names, validate, plan_stop, plan_shutdown,
}
use winunitd.Core.Execute.{
  Failure, was_not_stopped, Executor, put, Phase, looping, receiving, draining, finished, Move,
  pass, close, deliver, received, launch, release_after, initial, default_transaction_workers,
  ExecuteError, no_workers, not_valid,
}

-- The first error of a unit is kept.
unfoldable pub keep_error : Executor → Text → Option Failure → Executor
keep_error e name none = e
keep_error e name (some cause) = elim (e.errors name) [
  | some first ↦ e
  | none ↦ record e { errors = put e.errors name (some cause) }
]

module _ (tx : Transaction) where
  unfoldable pub try_stop : Executor → Text → Executor
  try_stop e name = elim (e.launched name || ltb 0 (e.remaining name)) [
    | true ↦ e
    | false ↦ launch deactivating e name
  ]

  unfoldable pub mark_done : Executor → Text → Option Failure → Executor
  mark_done e name result =
      let kept = keep_error e name result in
      release_after tx (record kept { states = put kept.states name inactive }) name

  unfoldable pub on_stopped : Executor → Text → Option Failure → Executor
  on_stopped e name result = mark_done (release_after tx e name) name result

  unfoldable pub stop_round : ℕ → Executor → List Text → Executor
  stop_round workers e [] = e
  stop_round workers e (name ∷ names) = elim (ltb e.inflight workers) [
    | false ↦ e
    | true ↦ stop_round workers (try_stop e name) names
  ]

  unfoldable pub mark_unstopped : Executor → List Text → Executor
  mark_unstopped e [] = e
  mark_unstopped e (name ∷ names) =
      mark_unstopped
        (elim (e.launched name) [
          | true ↦ e
          | false ↦ mark_done e name (some (was_not_stopped name))
        ])
        names

  -- One move of `ExecuteStopWithLimit`, or none where the program cannot make it.
  unfoldable pub stop_move : ℕ → Phase × Executor → Move → Option (Phase × Executor)
  stop_move workers (looping, e) pass =
      let after = stop_round workers e (job_names tx.jobs) in
      some (if after.inflight == 0 then draining else receiving, after)
  stop_move workers (receiving, e) (deliver name result) =
      if contains_name e.running name
      then some (looping, on_stopped (received e name) name result)
      else none
  stop_move workers (draining, e) (deliver name result) =
      if contains_name e.running name
      then some (draining, on_stopped (received e name) name result)
      else none
  stop_move workers (draining, e) close =
      if e.inflight == 0 then some (finished, mark_unstopped e (job_names tx.jobs)) else none
  stop_move workers _ _ = none

  unfoldable pub begin_stop : ℕ → Result ExecuteError (Phase × Executor)
  begin_stop workers =
      if ltb workers 1
      then err no_workers
      else elim (validate tx) [ err e ↦ err (not_valid e) | ok _ ↦ ok (looping, initial tx active) ]

  -- The moves one after the other.
  unfoldable pub stop_moves : ℕ → Phase × Executor → List Move → Option (Phase × Executor)
  stop_moves workers m [] = some m
  stop_moves workers m (mv ∷ mvs) = elim (stop_move workers m mv) [
    | none ↦ none
    | some next ↦ stop_moves workers next mvs
  ]

-- A plan whose run begins, or the error of the plan.
run_plan : Result PlanError Transaction → Result ExecuteError (Transaction × (Phase × Executor))
run_plan (err e) = err (not_valid e)
run_plan (ok tx) = begin_stop tx default_transaction_workers >>= λ m. ok (tx, m)

-- `Graph.Stop` and `Graph.Shutdown`, up to the first round.
unfoldable pub stop_graph :
    Graph → List Text → Result ExecuteError (Transaction × (Phase × Executor))
unfolding run_plan
stop_graph g names = run_plan (plan_stop g names)

unfoldable pub shutdown_graph :
    Graph → List Text → Result ExecuteError (Transaction × (Phase × Executor))
unfolding run_plan
shutdown_graph g names = run_plan (plan_shutdown g names)
