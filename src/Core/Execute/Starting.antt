-- ===== src/Core/Execute/Starting.antt =====
-- internal/core/execute.go: `ExecuteWithLimit` and `executor`. The receives are moves that name the
-- call which delivers, so that the theorems hold for every order of the deliveries.
pub mod Runs
pub mod Fuel
use winunitd.Common.{
  ℕ, zero, suc, ◌+◌, Bool, true, false, ◌&&◌, ◌||◌, not, Option, none, some, List, [], ◌∷◌, ◌++◌,
  if◌then◌else◌, length, ltb, ◌==◌,
}
use winunitd.Common.Text.{Text, text_eq}
use winunitd.Common.Result.{Result, ok, err, ◌>>=◌}
use winunitd.Core.Names.{contains_name}
use winunitd.Core.Lifecycle.{State, inactive, activating, active, failed}
use winunitd.Core.Graph.{Graph, find, start_require_names, start_requires_name}
use winunitd.Core.Transaction.{Transaction, has_job, job_names, validate, plan_start}
use winunitd.Core.Execute.{
  Failure, is_skipped, cancelled, was_not_started, dependency_error, Executor, put, Phase, looping,
  receiving, draining, finished, Move, pass, close, cancel, deliver, received, launch,
  release_after, initial, default_transaction_workers, ExecuteError, no_workers, not_valid,
}

-- `jobNotYetStarted`, of the job's state.
abbrev pub not_yet_started : State → Bool
not_yet_started inactive = true
not_yet_started activating = true
not_yet_started _ = false

abbrev pub is_failed : State → Bool
is_failed failed = true
is_failed _ = false

abbrev pub is_inactive : State → Bool
is_inactive inactive = true
is_inactive _ = false

abbrev pub Mark : Type 0
Mark = Executor → Text → Failure → Executor

module _ (tx : Transaction) where
  -- The loop of `requiresFailed` over the names that must start with the unit.
  unfoldable pub failed_among : Executor → Text → List Text → Option Failure
  failed_among e name [] = none
  failed_among e name (req ∷ reqs) =
      let rest = failed_among e name reqs in
      elim (has_job tx.jobs req) [
        | false ↦ rest
        | true ↦ elim (e.errors req) [
          | none ↦ rest
          | some cause ↦ some (dependency_error name req cause)
        ]
      ]

  unfoldable pub requires_failed : Executor → Text → Option Failure
  unfolding failed_among
  requires_failed e name = elim (find tx.graph name) [
    | none ↦ none
    | some n ↦ failed_among e name (start_require_names n)
  ]

  -- The first failure of a job is stored, and a job that was never launched is rejected and
  -- releases the jobs that wait for it.
  unfoldable pub store_failure : Executor → Text → Failure → Executor
  store_failure e name cause =
      let stored = record e {
        errors = put e.errors name (some cause);
        states = put e.states name failed;
      } in
      elim (e.launched name) [
        | true ↦ stored
        | false ↦
            release_after tx (record stored { rejected = stored.rejected ++ (name, cause) ∷ [] })
              name
      ]

  -- One round of the loop of `markFailed` over the other jobs.
  unfoldable pub fail_requirer : Mark → Text → Failure → Executor → Text → Executor
  fail_requirer mark name cause e other = elim (text_eq other name) [
    | true ↦ e
    | false ↦ elim (find tx.graph other) [
      | none ↦ e
      | some n ↦ elim (start_requires_name n name && not_yet_started (e.states other)) [
        | false ↦ e
        | true ↦ mark e other (dependency_error other name cause)
      ]
    ]
  ]

  unfoldable pub fail_requirers : Mark → Text → Failure → Executor → List Text → Executor
  fail_requirers mark name cause e [] = e
  fail_requirers mark name cause e (other ∷ others) =
      fail_requirers mark name cause (fail_requirer mark name cause e other) others

  -- Each nested call fails one more job.
  unfoldable pub mark_failed : ℕ → Mark
  mark_failed zero e name cause = e
  mark_failed (suc f) e name cause =
      elim (not_yet_started (e.states name) || is_failed (e.states name)) [
        | false ↦ e
        | true ↦ elim (e.errors name) [
          | some first ↦ record e { states = put e.states name failed }
          | none ↦
              fail_requirers (mark_failed f) name cause (store_failure e name cause)
                (job_names tx.jobs)
        ]
      ]

  unfoldable pub fail : Mark
  fail = mark_failed (length tx.jobs + 1)

  -- The second half of `tryLaunch`, of a job that waits for nothing any more.
  unfoldable pub launch_ready : Executor → Text → Option Failure → Executor
  launch_ready e name none = launch activating e name
  launch_ready e name (some cause) = fail e name cause

  unfoldable pub try_launch : Executor → Text → Executor
  try_launch e name =
      elim (e.launched name || (is_failed (e.states name) || ltb 0 (e.remaining name))) [
        | true ↦ e
        | false ↦ launch_ready e name (requires_failed e name)
      ]

  -- `onFinish` after the release, by the result and by the failure of a required job.
  unfoldable pub settle : Executor → Text → Option Failure → Option Failure → Executor
  settle e name (some cause) requirement = elim (is_skipped cause) [
    | true ↦ record e { states = put e.states name inactive }
    | false ↦ fail e name cause
  ]
  settle e name none requirement = elim (is_failed (e.states name)) [
    | true ↦ e
    | false ↦ elim requirement [
      | some cause ↦ fail e name cause
      | none ↦ record e { states = put e.states name active }
    ]
  ]

  unfoldable pub on_finish : Executor → Text → Option Failure → Executor
  on_finish e name result =
      let free = release_after tx e name in settle free name result (requires_failed free name)

  -- The launches of one round.
  unfoldable pub launch_round : ℕ → Executor → List Text → Executor
  launch_round workers e [] = e
  launch_round workers e (name ∷ names) = elim (ltb e.inflight workers) [
    | false ↦ e
    | true ↦ launch_round workers (try_launch e name) names
  ]

  -- The queued jobs that were never launched fail: with the error of the context after a
  -- cancellation, or because they were not started at the end.
  unfoldable pub fail_queued : (Text → Failure) → Executor → List Text → Executor
  fail_queued cause e [] = e
  fail_queued cause e (name ∷ names) =
      let failing = is_inactive (e.states name) && not (e.launched name) in
      fail_queued cause (elim failing [ true ↦ fail e name (cause name) | false ↦ e ]) names

  -- One move of `ExecuteWithLimit`, or none where the program cannot make it.
  unfoldable pub move : ℕ → Phase × Executor → Move → Option (Phase × Executor)
  move workers (looping, e) pass =
      let after = launch_round workers e (job_names tx.jobs) in
      some (if after.inflight == 0 then draining else receiving, after)
  move workers (looping, e) (cancel cause) =
      some (draining, fail_queued (λ x. cancelled cause) e (job_names tx.jobs))
  move workers (receiving, e) (deliver name result) =
      if contains_name e.running name
      then some (looping, on_finish (received e name) name result)
      else none
  move workers (draining, e) (deliver name result) =
      if contains_name e.running name
      then some (draining, on_finish (received e name) name result)
      else none
  move workers (draining, e) close =
      if e.inflight == 0
      then some (finished, fail_queued was_not_started e (job_names tx.jobs))
      else none
  move workers _ _ = none

  unfoldable pub begin : ℕ → Result ExecuteError (Phase × Executor)
  begin workers = if ltb workers 1 then err no_workers else elim (validate tx) [
    | err e ↦ err (not_valid e)
    | ok _ ↦ ok (looping, initial tx inactive)
  ]

  -- `rootError`: the error of the first root that has one.
  unfoldable pub root_error : Executor → List Text → Option Failure
  root_error e [] = none
  root_error e (root ∷ roots) = elim (e.errors root) [
    | some cause ↦ some cause
    | none ↦ root_error e roots
  ]

  -- The moves one after the other.
  unfoldable pub moves : ℕ → Phase × Executor → List Move → Option (Phase × Executor)
  moves workers m [] = some m
  moves workers m (mv ∷ mvs) = elim (move workers m mv) [
    | none ↦ none
    | some next ↦ moves workers next mvs
  ]

-- `Graph.Start`, up to the first round: the plan, and the run that begins.
unfoldable pub start_graph :
    Graph → List Text → Result ExecuteError (Transaction × (Phase × Executor))
start_graph g names = elim (plan_start g names) [
  | err e ↦ err (not_valid e)
  | ok tx ↦ begin tx default_transaction_workers >>= λ m. ok (tx, m)
]
