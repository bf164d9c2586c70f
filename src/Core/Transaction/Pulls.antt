-- ===== src/Core/Transaction/Pulls.antt =====
-- What a plan should hold: the units that Requires=, BindsTo= and Wants= pull in from the roots.
use winunitd.Common.{
  Bool, true, false, ◌&&◌, not, some, List, [], ◌∷◌, ◌++◌, ◌≡◌, refl, ◌⊎◌, inl, inr, arith, All, ℕ,
  ◌≤◌, count,
}
use winunitd.Common.Text.{Text}
use winunitd.Unit.Name.{normalize_name}
use winunitd.Core.Names.{contains_name}
use winunitd.Core.Graph.{Node, Graph, find, is_loaded, names}
use winunitd.Core.Cycle.Counts.{count_le}
use winunitd.Core.Transaction.{JobKind, Job, is_start, has_job}

-- The dependencies that a node Asks for as required, and as wished.
abbrev pub deps_of : Bool → Node → List Text
deps_of true n = n.requires ++ n.binds_to
deps_of false n = n.wants

module _ (kind : JobKind) (g : Graph) (root : Text → Type 0) where
  -- A root, or a dependency of a loaded unit that is pulled in.
  pub data Pulled : Text → Type 0 where
    as_root : {x : Text} → root x → Pulled x
    as_dep :
        {y x : Text} (n : Node) (d : Text) (required : Bool)
        → Pulled y
        → find g y ≡ some n
        → contains_name (deps_of required n) d ≡ true
        → normalize_name d ≡ x
        → Pulled x

  -- Where a dependency is a job: a required one in every start plan, and any one that is loaded.
  abbrev pub Got : Bool → List Job → Text → Type 0
  Got required jobs d =
      ((required && is_start kind) ≡ true → has_job jobs (normalize_name d) ≡ true)
      × (is_loaded g (normalize_name d) ≡ true → has_job jobs (normalize_name d) ≡ true)

  -- The unit is loaded, and all that it pulls in are jobs.
  pub record IsClosed (jobs : List Job) (x : Text) : Type 0 where
    pub node : Node
    pub found : find g x ≡ some node
    pub requires : All (Got true jobs) node.requires
    pub binds_to : All (Got true jobs) node.binds_to
    pub wants : All (Got false jobs) node.wants

  -- `required_by` asks for `name`: nobody, and it is a root, or a unit that is pulled in.
  abbrev pub Asked : (required_by : Text) → Bool → Text → Type 0
  Asked required_by required name =
      ((required_by ≡ []) × root (normalize_name name))
      ⊎ ((n : Node) × Pulled required_by
          × (find g required_by ≡ some n)
          × (contains_name (deps_of required n) name ≡ true))

  pub Pulled-of_Asked :
      (required_by : Text) (required : Bool) (name : Text)
      → Asked required_by required name
      → Pulled (normalize_name name)
  Pulled-of_Asked required_by required name (inl a) = as_root a.1
  Pulled-of_Asked required_by required name (inr (n, p, f, c)) = as_dep n name required p f c refl

  -- The unit is not loaded, and it is a root or required by a unit that is pulled in.
  pub record IsMissing (unit required_by : Text) : Type 0 where
    pub unloaded : is_loaded g unit ≡ false
    pub name : Text
    pub named : normalize_name name ≡ unit
    pub asked : Asked required_by true name

  -- From some jobs to more: the new ones are closed and pulled in.
  pub record Grown (jobs more : List Job) : Type 0 where
    pub keeps : (x : Text) → has_job jobs x ≡ true → has_job more x ≡ true
    pub new :
        (x : Text) → has_job more x ≡ true → (has_job jobs x ≡ true) ⊎ (IsClosed more x × Pulled x)

  abbrev pub Keeps : List Job → List Job → Type 0
  Keeps jobs more = (x : Text) → has_job jobs x ≡ true → has_job more x ≡ true

  pub Got_mono :
      (required : Bool) (jobs more : List Job) (d : Text)
      → Keeps jobs more
      → Got required jobs d
      → Got required more d
  Got_mono required jobs more d k h =
      (λ r. k (normalize_name d) (h.0 r), λ l. k (normalize_name d) (h.1 l))

  pub All-Got_mono :
      (required : Bool) (jobs more : List Job) (ds : List Text)
      → Keeps jobs more
      → All (Got required jobs) ds
      → All (Got required more) ds
  All-Got_mono required jobs more [] k h = tt
  All-Got_mono required jobs more (d ∷ ds) k h =
      (Got_mono required jobs more d k h.0, All-Got_mono required jobs more ds k h.1)

  pub IsClosed-mono :
      (jobs more : List Job) (x : Text) → Keeps jobs more → IsClosed jobs x → IsClosed more x
  IsClosed-mono jobs more x k c = record {
    node = c.node;
    found = c.found;
    requires = All-Got_mono true jobs more c.node.requires k c.requires;
    binds_to = All-Got_mono true jobs more c.node.binds_to k c.binds_to;
    wants = All-Got_mono false jobs more c.node.wants k c.wants;
  }

  pub Grown-refl : (jobs : List Job) → Grown jobs jobs
  Grown-refl jobs = record { keeps = λ x h. h; new = λ x h. inl h }

  pub Grown-trans : (a b c : List Job) → Grown a b → Grown b c → Grown a c
  Grown-trans a b c p q = record {
    keeps = λ x h. q.keeps x (p.keeps x h);
    new = λ x h. later x (q.new x h);
  }
    where
      earlier :
          (x : Text)
          → (has_job a x ≡ true) ⊎ (IsClosed b x × Pulled x)
          → (has_job a x ≡ true) ⊎ (IsClosed c x × Pulled x)
      earlier x (inl h) = inl h
      earlier x (inr (closed, pulled)) = inr (IsClosed-mono b c x q.keeps closed, pulled)

      later :
          (x : Text)
          → (has_job b x ≡ true) ⊎ (IsClosed c x × Pulled x)
          → (has_job a x ≡ true) ⊎ (IsClosed c x × Pulled x)
      later x (inl h) = earlier x (p.new x h)
      later x (inr r) = inr r

  -- How many loaded units are no jobs yet.
  abbrev pub unplanned : List Job → ℕ
  unplanned jobs = count (λ x. not (has_job jobs x)) (names g)

  pub unplanned_le : (jobs more : List Job) → Keeps jobs more → unplanned more ≤ unplanned jobs
  unplanned_le jobs more k =
      count_le (λ x. not (has_job jobs x)) (λ x. not (has_job more x)) (names g)
        (λ x h. ground (arith, k x))
