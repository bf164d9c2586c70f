-- ===== src/Tests/Executions.antt =====
-- Runs of a plan of two jobs, one after the other.
use winunitd.Common.{
  ◌+◌, List, [], ◌∷◌, ◌≡◌, refl, true, false, Option, none, some, count, arith, ◌≤◌, ◌⊎◌, length,
}
use winunitd.Common.Text.{Text, text_eq, text_le, text_eq_iff}
use winunitd.Core.Names.{contains_name, sort_names}
use winunitd.Core.Lifecycle.{inactive, active, failed}
use winunitd.Core.Graph.{find}
use winunitd.Core.Transaction.{Transaction, job_start, waits_at, push_waits, job_names, has_job}
use winunitd.Core.Execute.{
  Executor, adapter_error, Phase, looping, finished, Move, pass, close, deliver, initial,
  release_each, push_deps, push_names, unblock, release_after, received, is_skipped, deps_of,
}
use winunitd.Core.Execute.Unblocking.{is, Keyed}
use winunitd.Core.Execute.Starting.{
  moves, move, launch_round, try_launch, launch_ready, on_finish, settle, fail, mark_failed,
  store_failure, fail_requirers, fail_requirer, requires_failed, fail_queued,
}
use winunitd.Core.Execute.Starting.Fuel.{fail_fuel}
use winunitd.Core.Execute.Starting.Runs.{started_in_order, started_once_within}
use winunitd.Core.Execute.Stopping.{
  stop_moves, stop_move, stop_round, try_stop, on_stopped, mark_done, mark_unstopped, keep_error,
}
use winunitd.Core.Execute.Stopping.Runs.{stopped_in_order, stopped_once_within}
use winunitd.Tests.Samples.{db, app}

abbrev two_jobs : Transaction
two_jobs = record {
  graph = [];
  roots = app ∷ [];
  jobs = record { name = db; kind = job_start } ∷ record { name = app; kind = job_start } ∷ [];
  waits_for = (db, []) ∷ (app, db ∷ []) ∷ [];
}

two_jobs_sorted : job_names two_jobs.jobs ≡ app ∷ db ∷ []
unfolding job_names sort_names text_le
two_jobs_sorted = refl

other : text_eq app db ≡ false
unfolding text_eq
other = refl

two_jobs-Keyed : Keyed two_jobs
two_jobs-Keyed x =
    rw two_jobs_sorted
      (ground (arith, other, text_eq_iff app x, text_eq_iff db x, text_eq_iff app db))

abbrev schedule : List Move
schedule = pass ∷ deliver db none ∷ pass ∷ deliver app (some (adapter_error 5)) ∷ pass ∷ close ∷ []

abbrev executor_of : Option (Phase × Executor) → Executor
executor_of none = initial two_jobs inactive
executor_of (some (phase, e)) = e

abbrev started : Executor
started = executor_of (moves two_jobs 1 (looping, initial two_jobs inactive) schedule)

abbrev stopped : Executor
stopped = executor_of (stop_moves two_jobs 1 (looping, initial two_jobs active) schedule)

started_ends :
    moves two_jobs 1 (looping, initial two_jobs inactive) schedule ≡ some (finished, started)
unfolding moves move launch_round try_launch launch_ready on_finish settle fail mark_failed
    store_failure fail_requirers fail_requirer requires_failed fail_queued release_each push_deps
    push_names unblock release_after received is_skipped initial job_names sort_names text_le
    text_eq waits_at push_waits has_job contains_name find
started_ends = refl

stopped_ends :
    stop_moves two_jobs 1 (looping, initial two_jobs active) schedule ≡ some (finished, stopped)
unfolding stop_moves stop_move stop_round try_stop on_stopped mark_done mark_unstopped keep_error
    release_each push_deps push_names unblock release_after received initial job_names sort_names
    text_le text_eq waits_at push_waits contains_name
stopped_ends = refl

app_called : contains_name started.called app ≡ true
unfolding moves move launch_round try_launch launch_ready on_finish settle fail mark_failed
    store_failure fail_requirers fail_requirer requires_failed fail_queued release_each push_deps
    push_names unblock release_after received is_skipped initial job_names sort_names text_le
    text_eq waits_at push_waits has_job contains_name find
app_called = refl

app_stopped : contains_name stopped.called app ≡ true
unfolding stop_moves stop_move stop_round try_stop on_stopped mark_done mark_unstopped keep_error
    release_each push_deps push_names unblock release_after received initial job_names sort_names
    text_le text_eq waits_at push_waits contains_name
app_stopped = refl

app_after_db : contains_name (deps_of two_jobs app) db ≡ true
unfolding waits_at contains_name text_eq
app_after_db = refl

started_in_order_example :
    ((contains_name started.called db ≡ true) ⊎ (started.states db ≡ failed))
    × (contains_name started.running db ≡ false)
started_in_order_example =
    started_in_order two_jobs two_jobs-Keyed 1 schedule finished started started_ends app db
      app_called app_after_db

started_once_within_example :
    (length started.running ≤ 1)
    × ((started.inflight ≡ length started.running)
        × ((x : Text) → count (is two_jobs x) started.called ≤ 1))
started_once_within_example =
    started_once_within two_jobs two_jobs-Keyed 1 schedule finished started started_ends

stopped_in_order_example :
    (contains_name stopped.called db ≡ true) × (contains_name stopped.running db ≡ false)
stopped_in_order_example =
    stopped_in_order two_jobs two_jobs-Keyed 1 schedule finished stopped stopped_ends app db
      app_stopped app_after_db

stopped_once_within_example :
    (length stopped.running ≤ 1)
    × ((stopped.inflight ≡ length stopped.running)
        × ((x : Text) → count (is two_jobs x) stopped.called ≤ 1))
stopped_once_within_example =
    stopped_once_within two_jobs two_jobs-Keyed 1 schedule finished stopped stopped_ends

fail_fuel_example :
    fail two_jobs (initial two_jobs inactive) db (adapter_error 5)
    ≡ mark_failed two_jobs
        (length two_jobs.jobs + 1 + 7)
        (initial two_jobs inactive)
        db
        (adapter_error 5)
fail_fuel_example = fail_fuel two_jobs 7 (initial two_jobs inactive) db (adapter_error 5)
