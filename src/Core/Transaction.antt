-- ===== src/Core/Transaction.antt =====
-- internal/core/transaction.go: start, stop and shutdown plans. `tx.jobs` and `tx.waitsFor` are
-- association lists; a loop over `tx.jobs` takes the jobs in the order of the list.
pub mod Pulls
pub mod Adding
pub mod Roots
pub mod StartPlan
use winunitd.Common.{
  ℕ, zero, suc, ◌+◌, Bool, true, false, ◌&&◌, ◌||◌, Option, none, some, List, [], ◌∷◌, ◌++◌, map,
  filter, if◌then◌else◌, length,
}
use winunitd.Common.Result.{Result, ok, err, ◌>>=◌}
use winunitd.Common.Text.{Text, text_eq}
use winunitd.Unit.Name.{normalize_name}
use winunitd.Core.Names.{contains_name, unique_stable, sort_names}
use winunitd.Core.Graph.{Graph, Node, find, is_loaded, stop_dep_names}
use winunitd.Core.Graph.Closures.{reverse_requirement_closure, after_closure}
use winunitd.Core.Cycle.{CycleSearch, out_of_fuel, acyclic, cyclic, find_cycle}

pub data JobKind : Type 0 where
  job_start job_stop : JobKind

pub record Job : Type 0 where
  pub name : Text
  pub kind : JobKind

abbrev pub Waits : Type 0
Waits = List (Text × List Text)

pub record Transaction : Type 0 where
  pub graph : Graph
  pub roots : List Text
  pub jobs : List Job
  pub waits_for : Waits

-- The errors of planning. `no_fuel` is no error of the program: no plan ends with it.
pub data PlanError : Type 0 where
  no_units empty_unit_name empty_transaction no_fuel : PlanError
  missing_unit : (unit required_by : Text) → PlanError
  cycle_error : List Text → PlanError

abbrev pub is_start : JobKind → Bool
is_start job_start = true
is_start job_stop = false

unfoldable pub has_job : List Job → Text → Bool
has_job [] name = false
has_job (j ∷ jobs) name = text_eq j.name name || has_job jobs name

-- `waitsFor[name]`.
unfoldable pub waits_at : Waits → Text → List Text
waits_at [] name = []
waits_at ((k, ws) ∷ m) name = if text_eq k name then ws else waits_at m name

-- `out[key] = append(out[key], names...)`.
unfoldable pub push_waits : Waits → Text → List Text → Waits
push_waits [] key names = (key, names) ∷ []
push_waits ((k, ws) ∷ m) key names =
    if text_eq k key then (k, ws ++ names) ∷ m else (k, ws) ∷ push_waits m key names

abbrev pub Add : Type 0
Add = List Job → Text → Result PlanError (List Job)

-- One of the loops of `add` over the dependencies.
unfoldable pub add_all : Add → List Job → List Text → Result PlanError (List Job)
add_all add jobs [] = ok jobs
add_all add jobs (dep ∷ deps) = add jobs dep >>= λ more. add_all add more deps

module _ (kind : JobKind) (g : Graph) where
  -- The local function `add` of `plan`: the jobs after it. Each nested call adds a job for another
  -- loaded unit, so one round of fuel more than there are nodes is enough.
  unfoldable pub add : ℕ → List Job → (name required_by : Text) → Bool → Result PlanError (List Job)
  add zero jobs name required_by required = err no_fuel
  add (suc f) jobs name required_by required =
      let n = normalize_name name in
      let missing = err (missing_unit n required_by) in
      if text_eq n []
      then (if required && is_start kind then missing else ok jobs)
      else if has_job jobs n
      then ok jobs
      else elim (find g n) [
        | none ↦ if required && (is_start kind || text_eq required_by []) then missing else ok jobs
        | some u ↦
            add_all (λ js d. add f js d n true) (jobs ++ record { name = n; kind = kind } ∷ [])
              u.requires
            >>= λ js. add_all (λ js d. add f js d n true) js u.binds_to >>= λ js.
                add_all (λ js d. add f js d n false) js u.wants
      ]

  -- The loop of `plan` over the named units: the roots, which are the keys of `seenRoot` too, and
  -- the jobs.
  unfoldable pub add_roots :
      List Text → List Job → List Text → Result PlanError (List Text × List Job)
  add_roots roots jobs [] = ok (roots, jobs)
  add_roots roots jobs (name ∷ names) =
      let n = normalize_name name in
      let skip = add_roots roots jobs names in
      let next =
        add (length g + 1) jobs n [] true >>= λ more. add_roots (roots ++ n ∷ []) more names in
      if text_eq n [] then err empty_unit_name else if contains_name roots n then skip else next

-- The loop of `PlanStop` over the named units.
unfoldable pub stop_roots : Graph → List Text → List Text → Result PlanError (List Text)
stop_roots g roots [] = ok roots
stop_roots g roots (name ∷ names) =
    let n = normalize_name name in
    let skip = stop_roots g roots names in
    let next = stop_roots g (roots ++ n ∷ []) names in
    if text_eq n []
    then err empty_unit_name
    else if contains_name roots n
    then skip
    else if is_loaded g n
    then next
    else err (missing_unit n [])

abbrev waits_of_node : (Node → List Text) → Graph → Text → List Text
waits_of_node field g name = elim (find g name) [ none ↦ [] | some n ↦ field n ]

-- `tx.waitsFor` of a start plan: what a job waits for among the jobs.
unfoldable pub start_waits : Graph → List Job → Waits
start_waits g jobs =
    map
      (λ j.
        (j.name, unique_stable (filter (has_job jobs) (waits_of_node (λ n. n.waits_for) g j.name))))
      jobs

-- The loop over the predecessors of one job: each of them that is a job waits for `name`.
unfoldable pub push_reverse : List Job → Text → Waits → List Text → Waits
push_reverse jobs name out [] = out
push_reverse jobs name out (pred ∷ preds) =
    push_reverse jobs name (if has_job jobs pred then push_waits out pred (name ∷ []) else out)
      preds

unfoldable pub push_all : (Node → List Text) → Graph → List Job → Waits → List Job → Waits
push_all field g jobs out [] = out
push_all field g jobs out (j ∷ js) =
    push_all field g jobs (push_reverse jobs j.name out (waits_of_node field g j.name)) js

abbrev unique_waits : Waits → Waits
unique_waits = map (λ (k, ws). (k, unique_stable ws))

unfoldable pub reverse_waits : Graph → List Job → Waits
unfolding push_all push_reverse push_waits
reverse_waits g jobs = unique_waits (push_all (λ n. n.waits_for) g jobs [] jobs)

unfoldable pub reverse_requirement_waits : Graph → List Job → Waits
unfolding push_all push_reverse push_waits
reverse_requirement_waits g jobs = unique_waits (push_all stop_dep_names g jobs [] jobs)

push_map : Waits → Waits → Waits
push_map out [] = out
push_map out ((k, ws) ∷ m) = push_map (push_waits out k ws) m

unfoldable pub merge_waits : Waits → Waits → Waits
unfolding push_map push_waits
merge_waits a b = unique_waits (push_map (push_map [] a) b)

-- `jobNames`.
unfoldable pub job_names : List Job → List Text
job_names jobs = sort_names (map (λ j. j.name) jobs)

-- The verdict on the ordering of the jobs.
unfoldable pub checked : Transaction → CycleSearch → Result PlanError Transaction
checked tx out_of_fuel = err no_fuel
checked tx acyclic = ok tx
checked tx (cyclic path) = err (cycle_error path)

abbrev pub no_jobs : List Job → Bool
no_jobs [] = true
no_jobs (_ ∷ _) = false

-- `validate`, of a transaction that is not nil.
unfoldable pub validate : Transaction → Result PlanError Transaction
validate tx =
    let verdict = checked tx (find_cycle (job_names tx.jobs) (waits_at tx.waits_for)) in
    if no_jobs tx.jobs then err empty_transaction else verdict

unfoldable pub plan_start : Graph → List Text → Result PlanError Transaction
plan_start g [] = err no_units
plan_start g (name ∷ names) = add_roots job_start g [] [] (name ∷ names) >>= λ (roots, jobs).
    validate (record { graph = g; roots = roots; jobs = jobs; waits_for = start_waits g jobs })

-- A closure that ran out of fuel would be `no_fuel`.
closed : Option (List Text) → Result PlanError (List Text)
closed none = err no_fuel
closed (some names) = ok names

unfoldable pub plan_shutdown : Graph → List Text → Result PlanError Transaction
unfolding closed
plan_shutdown g [] = err no_units
plan_shutdown g (name ∷ names) = add_roots job_stop g [] [] (name ∷ names) >>= λ (roots, jobs).
    closed (after_closure g roots) >>= λ laters.
    add_all (λ js later. add job_stop g (length g + 1) js later [] false) jobs laters >>= λ all.
    validate (record { graph = g; roots = roots; jobs = all; waits_for = reverse_waits g all })

stop_jobs : List Text → List Job
stop_jobs = map (λ name. record { name = name; kind = job_stop })

unfoldable pub plan_stop : Graph → List Text → Result PlanError Transaction
unfolding closed stop_jobs
plan_stop g [] = err no_units
plan_stop g (name ∷ names) = stop_roots g [] (name ∷ names) >>= λ roots.
    closed (reverse_requirement_closure g roots) >>= λ members.
    let jobs = stop_jobs members in
    validate (record {
      graph = g;
      roots = roots;
      jobs = jobs;
      waits_for = merge_waits (reverse_waits g jobs) (reverse_requirement_waits g jobs);
    })

-- `Units`.
unfoldable pub units : Transaction → List Text
unfolding job_names
units tx = job_names tx.jobs

abbrev text_list_empty : List Text → Bool
text_list_empty [] = true
text_list_empty (_ ∷ _) = false

-- `Ready`: the jobs that wait for nothing.
unfoldable pub ready : Transaction → List Text
unfolding job_names
ready tx = filter (λ name. text_list_empty (waits_at tx.waits_for name)) (job_names tx.jobs)

-- `Contains`.
unfoldable pub contains : Transaction → Text → Bool
contains tx name = has_job tx.jobs (normalize_name name)
