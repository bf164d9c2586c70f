-- ===== src/Core/Transaction/Adding.antt =====
-- What `add` adds, and its fuel.
use winunitd.Common.{
  ℕ, zero, suc, ◌<◌, Bool, true, false, ◌&&◌, ◌||◌, not, some, List, [], ◌∷◌, ◌++◌, ◌≡◌, refl, ◌⊎◌,
  inl, inr, arith, All, Bool-cases, if◌then◌else◌,
}
use winunitd.Common.Result.{Result, ok, err, ◌>>=◌}
use winunitd.Common.Text.{Text, text_eq, text_eq_iff, text_eq_refl}
use winunitd.Unit.Name.{normalize_name}
use winunitd.Core.Names.{contains_name}
use winunitd.Core.Names.Laws.{contains_name-append}
use winunitd.Core.Graph.{Node, Graph, find, is_loaded, names}
use winunitd.Core.Graph.Lookup.{contains_name-names, find-none, find-some, find-cases}
use winunitd.Core.Cycle.Counts.{count_lt, All_of_contains}
use winunitd.Core.Transaction.{
  JobKind, Job, PlanError, no_units, empty_unit_name, empty_transaction, no_fuel, missing_unit,
  cycle_error, is_start, has_job, Add, add_all, add,
}
use winunitd.Core.Transaction.Pulls.{
  deps_of, Pulled, Got, IsClosed, Asked, Pulled-of_Asked, IsMissing, Grown, Keeps, Got_mono,
  All-Got_mono, Grown-refl, Grown-trans, unplanned, unplanned_le,
}

pub has_job-snoc :
    (jobs : List Job) (j : Job) (x : Text)
    → has_job (jobs ++ j ∷ []) x ≡ (if text_eq j.name x then true else has_job jobs x)
unfolding has_job
has_job-snoc [] j x = ground arith
has_job-snoc (k ∷ jobs) j x = ground (arith, has_job-snoc jobs j x)

module _ (kind : JobKind) (g : Graph) (root : Text → Type 0)
    (unnamed : is_loaded g [] ≡ false) where
  -- The call ends within its fuel, in jobs with `P` or with a unit that is missing.
  abbrev pub Ends {ℓ} : {A : Type ℓ} → (A → Type 0) → Result PlanError A → Type 0
  Ends P (ok a) = P a
  Ends P (err (missing_unit u by)) = IsMissing kind g root u by
  Ends P (err e) = ⊥

  pub Ends-bind {ℓ κ} :
      {A : Type ℓ} {B : Type κ} (P : A → Type 0) (Q : B → Type 0) (m : Result PlanError A)
      (f : A → Result PlanError B)
      → Ends P m
      → ((a : A) → P a → Ends Q (f a))
      → Ends Q (m >>= f)
  Ends-bind P Q (ok a) f h k = k a h
  Ends-bind P Q (err (missing_unit u by)) f h k = h
  Ends-bind P Q (err no_fuel) f h k = absurd h
  Ends-bind P Q (err no_units) f h k = absurd h
  Ends-bind P Q (err empty_unit_name) f h k = absurd h
  Ends-bind P Q (err empty_transaction) f h k = absurd h
  Ends-bind P Q (err (cycle_error path)) f h k = absurd h

  pub Ends-weaken {ℓ} :
      {A : Type ℓ} (P Q : A → Type 0) (m : Result PlanError A)
      → Ends P m
      → ((a : A) → P a → Q a)
      → Ends Q m
  Ends-weaken P Q (ok a) h k = k a h
  Ends-weaken P Q (err (missing_unit u by)) h k = h
  Ends-weaken P Q (err no_fuel) h k = absurd h
  Ends-weaken P Q (err no_units) h k = absurd h
  Ends-weaken P Q (err empty_unit_name) h k = absurd h
  Ends-weaken P Q (err empty_transaction) h k = absurd h
  Ends-weaken P Q (err (cycle_error path)) h k = absurd h

  -- The jobs after a call at a dependency.
  abbrev pub Added : Bool → List Job → Text → List Job → Type 0
  Added required jobs d more = Grown kind g root jobs more × Got kind g root required more d

  abbrev pub AllAdded : Bool → List Job → List Text → List Job → Type 0
  AllAdded required jobs ds more =
      Grown kind g root jobs more × All (Got kind g root required more) ds

  module _ (call : Add) (required : Bool) (ask : Text → Type 0) (f : ℕ)
      (calls : (jobs : List Job) (d : Text)
        → ask d
        → unplanned kind g root jobs < f
        → Ends (Added required jobs d) (call jobs d)) where
    pub add_all-Ends :
        (ds : List Text) (jobs : List Job)
        → All ask ds
        → unplanned kind g root jobs < f
        → Ends (AllAdded required jobs ds) (add_all call jobs ds)
    unfolding add_all
    add_all-Ends [] jobs a h = (Grown-refl kind g root jobs, tt)
    add_all-Ends (d ∷ ds) jobs a h =
        Ends-bind (Added required jobs d) (AllAdded required jobs (d ∷ ds)) (call jobs d)
          (λ more. add_all call more ds) (calls jobs d a.0 h)
          (λ more p.
            Ends-weaken (AllAdded required more ds) (AllAdded required jobs (d ∷ ds))
              (add_all call more ds)
              (add_all-Ends ds more a.1
                (omega (arith, unplanned_le kind g root jobs more p.0.keeps)))
              (λ last q. (
                Grown-trans kind g root jobs more last p.0 q.0,
                (Got_mono kind g root required more last d q.0.keeps p.1, q.1),
              )))

  -- A name is left out: it is empty or not loaded, and no start requires it.
  left_out :
      (jobs : List Job) (name : Text) (required : Bool)
      → is_loaded g (normalize_name name) ≡ false
      → (required && is_start kind) ≡ false
      → Added required jobs name jobs
  left_out jobs name required h r =
      (Grown-refl kind g root jobs, (λ e. ground arith, λ e. ground arith))

  -- What one call adds for a unit that is no job yet.
  unplanned-snoc :
      (jobs : List Job) (n : Text)
      → is_loaded g n ≡ true
      → has_job jobs n ≡ false
      → unplanned kind g root (jobs ++ record { name = n; kind = kind } ∷ [])
        < unplanned kind g root jobs
  unplanned-snoc jobs n l h =
      let more = jobs ++ record { name = n; kind = kind } ∷ [] in
      count_lt (λ x. not (has_job jobs x)) (λ x. not (has_job more x)) (names g) n
        (λ x e. ground (arith, has_job-snoc jobs (record { name = n; kind = kind }) x))
        (rw contains_name-names l) (rw h)
        (ground (arith, has_job-snoc jobs (record { name = n; kind = kind }) n, text_eq_refl n))

  -- The unit, its job added, and the three loops over its dependencies.
  Grown-unit :
      (jobs : List Job) (n : Text) (node : Node) (a b c : List Job)
      → find g n ≡ some node
      → Pulled kind g root n
      → AllAdded true (jobs ++ record { name = n; kind = kind } ∷ []) node.requires a
      → AllAdded true a node.binds_to b
      → AllAdded false b node.wants c
      → Grown kind g root jobs c × (has_job c n ≡ true)
  Grown-unit jobs n node a b c found pulled p q r = (record { keeps = keeps; new = new }, has_n)
    where
      j : Job
      j = record { name = n; kind = kind }

      after : Grown kind g root (jobs ++ j ∷ []) c
      after =
          Grown-trans kind g root (jobs ++ j ∷ []) a c p.0 (Grown-trans kind g root a b c q.0 r.0)

      has_n : has_job c n ≡ true
      has_n = after.keeps n (ground (arith, has_job-snoc jobs j n, text_eq_refl n))

      keeps : Keeps kind g root jobs c
      keeps x h = after.keeps x (ground (arith, has_job-snoc jobs j x))

      closed : IsClosed kind g root c n
      closed = record {
        node = node;
        found = found;
        requires =
            All-Got_mono kind g root true a c node.requires
              (Grown-trans kind g root a b c q.0 r.0).keeps p.1;
        binds_to = All-Got_mono kind g root true b c node.binds_to r.0.keeps q.1;
        wants = r.1;
      }

      new :
          (x : Text)
          → has_job c x ≡ true
          → (has_job jobs x ≡ true) ⊎ (IsClosed kind g root c x × Pulled kind g root x)
      new x h = elim (after.new x h) [
        | inr r ↦ inr r
        | inl m ↦ elim (Bool-cases (text_eq n x)) [
          | inl e ↦
              let same : n ≡ x = (text_eq_iff n x).0 e in
              inr (rw (← same) closed, rw (← same) pulled)
          | inr e ↦ inl (ground (arith, has_job-snoc jobs j x))
        ]
      ]

  IsMissing-here :
      (name required_by : Text) (required : Bool)
      → is_loaded g (normalize_name name) ≡ false
      → required ≡ true
      → Asked kind g root required_by required name
      → IsMissing kind g root (normalize_name name) required_by
  IsMissing-here name required_by required h r a = record {
    unloaded = h;
    name = name;
    named = refl;
    asked = rw r at a;
  }

  -- A name with no job that is empty or not loaded.
  out_or_missing :
      (jobs : List Job) (name required_by : Text) (required test : Bool)
      → is_loaded g (normalize_name name) ≡ false
      → Asked kind g root required_by required name
      → (test ≡ true → required ≡ true)
      → (test ≡ false → (required && is_start kind) ≡ false)
      → Ends
          (Added required jobs name)
          (if test then err (missing_unit (normalize_name name) required_by) else ok jobs)
  out_or_missing jobs name required_by required true h a r s =
      IsMissing-here name required_by required h (r refl) a
  out_or_missing jobs name required_by required false h a r s =
      left_out jobs name required h (s refl)

  abbrev Asks : Text → Bool → Text → Type 0
  Asks n required d = Asked kind g root n required d

  Asks-all :
      (n : Text) (node : Node) (required : Bool) (ds : List Text)
      → find g n ≡ some node
      → Pulled kind g root n
      → ((d : Text) → contains_name ds d ≡ true → contains_name (deps_of required node) d ≡ true)
      → All (Asks n required) ds
  Asks-all n node required ds found pulled sub =
      All_of_contains (Asks n required) ds (λ d m. inr (node, pulled, found, sub d m))

  -- The three loops of `add` over the dependencies of a unit.
  abbrev add_deps :
      (List Job → Text → Bool → Result PlanError (List Job))
      → Node
      → List Job
      → Result PlanError (List Job)
  add_deps call node jobs = add_all (λ js d. call js d true) jobs node.requires >>= λ js.
      add_all (λ js d. call js d true) js node.binds_to >>= λ js.
      add_all (λ js d. call js d false) js node.wants

  abbrev UnitAdded : List Job → Text → List Job → Type 0
  UnitAdded jobs n c = Grown kind g root jobs c × (has_job c n ≡ true)

  add_deps-Ends :
      (call : List Job → Text → Bool → Result PlanError (List Job)) (f : ℕ) (n : Text) (node : Node)
      → ((js : List Job) (d : Text) (r : Bool)
          → Asks n r d
          → unplanned kind g root js < f
          → Ends (Added r js d) (call js d r))
      → (jobs : List Job) → find g n ≡ some node
      → Pulled kind g root n
      → has_job jobs n ≡ false
      → unplanned kind g root jobs < suc f
      → Ends (UnitAdded jobs n) (add_deps call node (jobs ++ record { name = n; kind = kind } ∷ []))
  add_deps-Ends call f n node calls jobs found pulled fresh h =
      let start = jobs ++ record { name = n; kind = kind } ∷ [] in
      let less = unplanned-snoc jobs n (find-some g n node found) fresh in
      Ends-bind (AllAdded true start node.requires) (UnitAdded jobs n)
        (add_all (λ js d. call js d true) start node.requires)
        (λ js. add_all (λ js d. call js d true) js node.binds_to >>= λ js.
          add_all (λ js d. call js d false) js node.wants)
        (add_all-Ends (λ js d. call js d true) true (Asks n true) f (λ js d. calls js d true)
          node.requires start
          (Asks-all n node true node.requires found pulled
            (λ d m. rw (contains_name-append node.requires node.binds_to d, m)))
          (omega arith))
        λ a p.
          Ends-bind (AllAdded true a node.binds_to) (UnitAdded jobs n)
            (add_all (λ js d. call js d true) a node.binds_to)
            (λ js. add_all (λ js d. call js d false) js node.wants)
            (add_all-Ends (λ js d. call js d true) true (Asks n true) f (λ js d. calls js d true)
              node.binds_to a
              (Asks-all n node true node.binds_to found pulled
                (λ d m. ground (arith, contains_name-append node.requires node.binds_to d)))
              (omega (arith, unplanned_le kind g root start a p.0.keeps)))
            λ b q.
              Ends-weaken (AllAdded false b node.wants) (UnitAdded jobs n)
                (add_all (λ js d. call js d false) b node.wants)
                (add_all-Ends (λ js d. call js d false) false (Asks n false) f
                  (λ js d. calls js d false) node.wants b
                  (Asks-all n node false node.wants found pulled (λ d m. m))
                  (omega (
                    arith,
                    unplanned_le kind g root start a p.0.keeps,
                    unplanned_le kind g root a b q.0.keeps,
                  )))
                (λ c r. Grown-unit jobs n node a b c found pulled p q r)

  -- A call of `add`.
  pub add-Ends :
      (f : ℕ) (jobs : List Job) (name required_by : Text) (required : Bool)
      → Asked kind g root required_by required name
      → unplanned kind g root jobs < f
      → Ends (Added required jobs name) (add kind g f jobs name required_by required)
  unfolding add
  add-Ends zero jobs name required_by required a h = absurd (omega arith)
  add-Ends (suc f) jobs name required_by required a h =
      let n = normalize_name name in
      elim (Bool-cases (text_eq n [])) [
        | inl e ↦
            let empty : n ≡ [] = (text_eq_iff n []).0 e in
            rw (e, add)
              (out_or_missing jobs name required_by required (required && is_start kind)
                (rw empty unnamed) a (λ t. ground arith) (λ t. t))
        | inr e ↦ elim (Bool-cases (has_job jobs n)) [
          | inl j ↦ rw (e, j, add) (Grown-refl kind g root jobs, (λ _. j, λ _. j))
          | inr j ↦ elim (find-cases g n) [
            | inl absent ↦
                rw (e, j, absent, add)
                  (out_or_missing jobs name required_by required
                    (required && (is_start kind || text_eq required_by [])) (find-none g n absent) a
                    (λ t. ground arith) (λ t. ground arith))
            | inr (node, found) ↦
                rw (e, j, found, add)
                  (Ends-weaken (UnitAdded jobs n) (Added required jobs name)
                    (add_deps (λ js d r. add kind g f js d n r) node
                      (jobs ++ record { name = n; kind = kind } ∷ []))
                    (add_deps-Ends (λ js d r. add kind g f js d n r) f n node
                      (λ js d r asked k. add-Ends f js d n r asked k) jobs found
                      (Pulled-of_Asked kind g root required_by required name a) j h)
                    (λ c p. (p.0, (λ _. p.1, λ _. p.1))))
          ]
        ]
      ]
