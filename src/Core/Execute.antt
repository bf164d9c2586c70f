-- ===== src/Core/Execute.antt =====
-- internal/core/execute.go: the state that the executors of start and stop transactions share, and
-- what both do with it. Maps are functions, with the value for a missing key. `running` holds the
-- adapter calls whose result is not yet delivered: the goroutines of the source.
pub mod Starting
pub mod Stopping
pub mod Unblocking
pub mod Counting
pub mod Sound
use winunitd.Common.{
  ℕ, zero, suc, ◌+◌, ◌-◌, Bool, true, false, Option, none, some, List, [], ◌∷◌, ◌++◌, if◌then◌else◌,
  length,
}
use winunitd.Common.Text.{Text, text_eq}
use winunitd.Unit.Name.{normalize_name}
use winunitd.Core.Lifecycle.{State, inactive}
use winunitd.Core.Transaction.{
  Transaction, Waits, waits_at, push_waits, job_names, has_job, PlanError,
}

-- The errors of a run. `adapter_error` is an error of a Starter or Stopper that is not ErrSkipped.
pub data Failure : Type 0 where
  err_skipped : Failure
  adapter_error cancelled : ℕ → Failure
  was_not_started was_not_stopped : Text → Failure
  dependency_error : (unit required : Text) → Failure → Failure

-- `errors.Is(err, ErrSkipped)`: a DependencyError unwraps to its cause.
unfoldable pub is_skipped : Failure → Bool
is_skipped err_skipped = true
is_skipped (dependency_error unit required cause) = is_skipped cause
is_skipped _ = false

-- `called` is `run.Started` of a start and `run.Stopped` of a stop; `rejected` is what a
-- StartRejectionObserver has been told.
pub record Executor : Type 0 where
  pub launched : Text → Bool
  pub released : Text → Bool
  pub remaining : Text → ℕ
  pub inflight : ℕ
  pub running : List Text
  pub called : List Text
  pub states : Text → State
  pub errors : Text → Option Failure
  pub rejected : List (Text × Failure)

-- `m[key] = value`.
abbrev pub put {ℓ} : {A : Type ℓ} → (Text → A) → Text → A → Text → A
put m key value x = if text_eq key x then value else m x

pub data ExecuteError : Type 0 where
  no_workers : ExecuteError
  not_valid : PlanError → ExecuteError

-- Where the main loop stands: before `ctx.Err()`, at the receive, in the loop that drains the
-- accepted calls, or past it.
pub data Phase : Type 0 where
  looping receiving draining finished : Phase

-- What happens next: the loop launches jobs, or finds the context cancelled; a call delivers its
-- result, nil or an error; the drained loop ends.
pub data Move : Type 0 where
  pass close : Move
  cancel : ℕ → Move
  deliver : Text → Option Failure → Move

unfoldable pub remove_one : List Text → Text → List Text
remove_one [] name = []
remove_one (r ∷ rs) name = if text_eq r name then rs else r ∷ remove_one rs name

-- The result of the call for `name` is received.
unfoldable pub received : Executor → Text → Executor
unfolding remove_one
received e name = record e { inflight = e.inflight - 1; running = remove_one e.running name }

-- The call of the adapter for `name` in a goroutine.
abbrev pub launch : State → Executor → Text → Executor
launch state e name = record e {
  launched = put e.launched name true;
  states = put e.states name state;
  called = e.called ++ name ∷ [];
  inflight = e.inflight + 1;
  running = name ∷ e.running;
}

-- `remaining[succ]--`, at least 0.
abbrev pub unblock_one : Executor → Text → Executor
unblock_one e succ = record e { remaining = put e.remaining succ (e.remaining succ - 1) }

unfoldable pub release_each : Executor → List Text → Executor
release_each e [] = e
release_each e (succ ∷ succs) = release_each (unblock_one e succ) succs

module _ (tx : Transaction) where
  abbrev pub deps_of : Text → List Text
  deps_of name = waits_at tx.waits_for name

  -- `ex.unblock[dep] = append(ex.unblock[dep], name)` for each `dep` of `name`.
  unfoldable pub push_deps : Text → Waits → List Text → Waits
  push_deps name out [] = out
  push_deps name out (dep ∷ deps) = push_deps name (push_waits out dep (name ∷ [])) deps

  unfoldable pub push_names : Waits → List Text → Waits
  push_names out [] = out
  push_names out (name ∷ names) = push_names (push_deps name out (deps_of name)) names

  unfoldable pub unblock : Waits
  unblock = push_names [] (job_names tx.jobs)

  unfoldable pub release_after : Executor → Text → Executor
  release_after e name = elim (e.released name) [
    | true ↦ e
    | false ↦
        release_each (record e { released = put e.released name true }) (waits_at unblock name)
  ]

  -- The executor before the first round. `tx.waitsFor` has entries for jobs only.
  unfoldable pub initial : State → Executor
  initial state = record {
    launched = λ x. false;
    released = λ x. false;
    remaining = λ x. length (deps_of x);
    inflight = 0;
    running = [];
    called = [];
    states = λ x. if has_job tx.jobs x then state else inactive;
    errors = λ x. none;
    rejected = [];
  }

-- `DefaultTransactionWorkers`.
abbrev pub default_transaction_workers : ℕ
default_transaction_workers = 16

-- `StateOf` and `Err` of the run.
unfoldable pub state_of : Executor → Text → State
state_of e name = e.states (normalize_name name)

unfoldable pub error_of : Executor → Text → Option Failure
error_of e name = e.errors (normalize_name name)
