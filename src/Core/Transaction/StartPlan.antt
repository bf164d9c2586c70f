-- ===== src/Core/Transaction/StartPlan.antt =====
-- What `PlanStart` returns.
use winunitd.Common.{true, false, List, [], ◌∷◌, map, ◌≡◌, refl, ◌∙◌, inl, inr, arith, Bool-cases}
use winunitd.Common.Result.{Result, ok, err, ◌>>=◌}
use winunitd.Common.Text.{Text, text_eq_refl}
use winunitd.Unit.Name.{normalize_name}
use winunitd.Core.Names.{contains_name}
use winunitd.Core.Names.Laws.{contains_name-sort_names, names_unit}
use winunitd.Core.Graph.{Graph, is_loaded}
use winunitd.Core.Graph.Lookup.{find-some}
use winunitd.Core.Cycle.{CycleSearch, out_of_fuel, acyclic, cyclic, find_cycle}
use winunitd.Core.Cycle.Walk.{IsCycle}
use winunitd.Core.Cycle.Correct.{find_cycle_total, find_cycle-cyclic, find_cycle-acyclic}
use winunitd.Core.Transaction.{
  Job, job_start, Transaction, PlanError, no_units, empty_unit_name, empty_transaction, no_fuel,
  missing_unit, cycle_error, has_job, waits_at, job_names, no_jobs, checked, validate, add_roots,
  start_waits, plan_start,
}
use winunitd.Core.Transaction.Pulls.{IsClosed, Pulled, IsMissing}
use winunitd.Core.Transaction.Roots.{RootEnds, RootsAdded, add_roots-Ends}

contains_name-map_name :
    (js : List Job) (x : Text) → contains_name (map (λ j. j.name) js) x ≡ has_job js x
unfolding contains_name has_job
contains_name-map_name [] x = refl
contains_name-map_name (j ∷ js) x = ground (arith, contains_name-map_name js x)

-- `jobNames` lists exactly the names of the jobs.
pub contains_name-job_names :
    (jobs : List Job) (x : Text) → contains_name (job_names jobs) x ≡ has_job jobs x
unfolding job_names
contains_name-job_names jobs x =
    contains_name-sort_names (map (λ j. j.name) jobs) x ∙ contains_name-map_name jobs x

-- How `validate` ends for a transaction with jobs, none of which is nameless.
abbrev pub Validated : Transaction → Result PlanError Transaction → Type 0
Validated tx (ok r) =
    (r ≡ tx)
    × ((path : List Text)
        → ¬ IsCycle (contains_name (job_names tx.jobs)) (waits_at tx.waits_for) path)
Validated tx (err (cycle_error path)) =
    IsCycle (contains_name (job_names tx.jobs)) (waits_at tx.waits_for) path
Validated tx (err e) = ⊥

checked-Validated :
    (tx : Transaction) (c : CycleSearch)
    → contains_name (job_names tx.jobs) [] ≡ false
    → find_cycle (job_names tx.jobs) (waits_at tx.waits_for) ≡ c
    → Validated tx (checked tx c)
unfolding checked
checked-Validated tx out_of_fuel named e =
    find_cycle_total (job_names tx.jobs) (waits_at tx.waits_for) named e
checked-Validated tx acyclic named e =
    (refl, λ path. find_cycle-acyclic (job_names tx.jobs) (waits_at tx.waits_for) path named e)
checked-Validated tx (cyclic path) named e =
    find_cycle-cyclic (job_names tx.jobs) (waits_at tx.waits_for) path named e

not_no_jobs : (jobs : List Job) (x : Text) → has_job jobs x ≡ true → no_jobs jobs ≡ false
unfolding has_job
not_no_jobs [] x h = cc
not_no_jobs (j ∷ jobs) x h = refl

pub validate-Validated :
    (tx : Transaction) (x : Text)
    → has_job tx.jobs x ≡ true
    → has_job tx.jobs [] ≡ false
    → Validated tx (validate tx)
unfolding validate
validate-Validated tx x some_job named =
    rw (not_no_jobs tx.jobs x some_job, validate)
      (checked-Validated tx (find_cycle (job_names tx.jobs) (waits_at tx.waits_for))
        (rw contains_name-job_names named) refl)

-- A transaction that holds what the given units pull in: every root is a job, all that a job
-- requires, binds to or, if it is loaded, wants is a job, and every job is loaded and pulled in from
-- a root. Its jobs wait for one another as the graph orders them.
pub record HoldsPulled (g : Graph) (given : List Text) (tx : Transaction) : Type 0 where
  pub graph : tx.graph ≡ g
  pub roots : (x : Text) → contains_name tx.roots x ≡ names_unit given x
  pub root_jobs : (x : Text) → names_unit given x ≡ true → has_job tx.jobs x ≡ true
  pub jobs :
      (x : Text)
      → has_job tx.jobs x ≡ true
      → IsClosed job_start g (λ r. names_unit given r ≡ true) tx.jobs x
        × Pulled job_start g (λ r. names_unit given r ≡ true) x
  pub waits : tx.waits_for ≡ start_waits g tx.jobs

-- A start plan for the given units: exactly what they pull in, and no ordering cycle among the
-- jobs.
pub record IsStartPlan (g : Graph) (given : List Text) (tx : Transaction) : Type 0 where
  pub pulled : HoldsPulled g given tx
  pub acyclic_jobs :
      (path : List Text)
      → ¬ IsCycle (contains_name (job_names tx.jobs)) (waits_at tx.waits_for) path

-- How `PlanStart` ends.
abbrev pub StartPlanned : Graph → List Text → Result PlanError Transaction → Type 0
StartPlanned g given (ok tx) = IsStartPlan g given tx
StartPlanned g given (err no_units) = given ≡ []
StartPlanned g given (err empty_unit_name) = names_unit given [] ≡ true
StartPlanned g given (err (missing_unit u by)) =
    IsMissing job_start g (λ r. names_unit given r ≡ true) u by
StartPlanned g given (err (cycle_error path)) =
    (tx : Transaction) × HoldsPulled g given tx
    × IsCycle (contains_name (job_names tx.jobs)) (waits_at tx.waits_for) path
StartPlanned g given (err empty_transaction) = ⊥
StartPlanned g given (err no_fuel) = ⊥

module _ (g : Graph) (unnamed : is_loaded g [] ≡ false) (given : List Text) where
  abbrev tx_of : List Text × List Job → Transaction
  tx_of (roots, jobs) = record {
    graph = g;
    roots = roots;
    jobs = jobs;
    waits_for = start_waits g jobs;
  }

  module _ (r : List Text × List Job) (a : RootsAdded job_start g unnamed given [] [] given r) where
    root_is_job : (x : Text) → names_unit given x ≡ true → has_job r.1 x ≡ true
    unfolding contains_name
    root_is_job x h = (a.held x (ground (arith, a.listed x))).0 refl

    job_is_Pulled :
        (x : Text)
        → has_job r.1 x ≡ true
        → IsClosed job_start g (λ y. names_unit given y ≡ true) r.1 x
          × Pulled job_start g (λ y. names_unit given y ≡ true) x
    unfolding has_job
    job_is_Pulled x h = elim (a.grown.new x h) [ inl none_yet ↦ cc | inr both ↦ both ]

    no_empty_job : has_job r.1 [] ≡ false
    no_empty_job = elim (Bool-cases (has_job r.1 [])) [
      | inr e ↦ e
      | inl e ↦ let c = (job_is_Pulled [] e).0 in cc (find-some g [] c.node c.found)
    ]

    plan_pulled : HoldsPulled g given (tx_of r)
    unfolding contains_name
    plan_pulled = record {
      graph = refl;
      roots = λ x. ground (arith, a.listed x);
      root_jobs = root_is_job;
      jobs = job_is_Pulled;
      waits = refl;
    }

    validate_planned :
        (v : Result PlanError Transaction) → Validated (tx_of r) v → StartPlanned g given v
    validate_planned (ok tx) h = rw (h.0) (record { pulled = plan_pulled; acyclic_jobs = h.1 })
    validate_planned (err (cycle_error path)) h = (tx_of r, plan_pulled, h)
    validate_planned (err (missing_unit u by)) h = absurd h
    validate_planned (err no_fuel) h = absurd h
    validate_planned (err no_units) h = absurd h
    validate_planned (err empty_unit_name) h = absurd h
    validate_planned (err empty_transaction) h = absurd h

  bind_planned :
      (m : Result PlanError (List Text × List Job)) (root : Text)
      → names_unit given root ≡ true
      → RootEnds job_start g unnamed given (RootsAdded job_start g unnamed given [] [] given) m
      → StartPlanned g given (m >>= λ r. validate (tx_of r))
  bind_planned (ok r) root h a =
      validate_planned r a (validate (tx_of r))
        (validate-Validated (tx_of r) root (root_is_job r a root h) (no_empty_job r a))
  bind_planned (err (missing_unit u by)) root h a = a
  bind_planned (err empty_unit_name) root h a = a
  bind_planned (err no_fuel) root h a = absurd a
  bind_planned (err no_units) root h a = absurd a
  bind_planned (err empty_transaction) root h a = absurd a
  bind_planned (err (cycle_error path)) root h a = absurd a

nothing : (x : Text) → contains_name [] x ≡ true → ⊥
unfolding contains_name
nothing x h = cc

-- In a graph with no nameless unit `PlanStart` ends in one of these ways: in a plan whose jobs are
-- exactly what the named units pull in, and whose ordering has no cycle; in the error for no units
-- or for an empty name, where that is what was given; in a unit that is not loaded and is a root or
-- required by a unit that is pulled in; or in a cycle of the ordering among the jobs, which are
-- exactly what the named units pull in. It does not run out of fuel, and never ends in an empty transaction.
pub plan_start-StartPlanned :
    (g : Graph) (given : List Text)
    → is_loaded g [] ≡ false
    → StartPlanned g given (plan_start g given)
unfolding plan_start
plan_start-StartPlanned g [] unnamed = refl
plan_start-StartPlanned g (name ∷ names) unnamed =
    bind_planned g unnamed (name ∷ names) (add_roots job_start g [] [] (name ∷ names))
      (normalize_name name) (ground (arith, text_eq_refl (normalize_name name)))
      (add_roots-Ends job_start g unnamed (name ∷ names) (name ∷ names) [] [] (λ x h. h)
        (λ x h. absurd (nothing x h)))
