-- ===== src/Core/Transaction/Roots.antt =====
-- What the loop over the named units adds.
use winunitd.Common.{
  ◌+◌, ◌<◌, true, false, ◌||◌, List, [], ◌∷◌, ◌++◌, ◌≡◌, refl, inl, inr, arith, Bool-cases, length,
  not,
}
use winunitd.Common.Result.{Result, ok, err, ◌>>=◌}
use winunitd.Common.Text.{Text, text_eq, text_eq_iff, text_eq_refl}
use winunitd.Unit.Name.{normalize_name}
use winunitd.Unit.Name.Normal.{normalize_name_idem}
use winunitd.Core.Names.{contains_name}
use winunitd.Core.Names.Laws.{names_unit}
use winunitd.Core.Graph.{Graph, is_loaded, names}
use winunitd.Core.Graph.Lookup.{length-names}
use winunitd.Core.Cycle.Counts.{count_le_length}
use winunitd.Core.Transaction.{
  JobKind, Job, PlanError, no_units, empty_unit_name, empty_transaction, no_fuel, missing_unit,
  cycle_error, is_start, has_job, add, add_roots,
}
use winunitd.Core.Transaction.Pulls.{IsMissing, Grown, Grown-refl, Grown-trans, unplanned}
use winunitd.Core.Transaction.Adding.{Ends, Added, add-Ends}

contains_name_snoc :
    (xs : List Text) (n x : Text)
    → contains_name (xs ++ n ∷ []) x ≡ (contains_name xs x || text_eq n x)
unfolding contains_name
contains_name_snoc [] n x = ground arith
contains_name_snoc (y ∷ xs) n x = ground (arith, contains_name_snoc xs n x)

module _ (kind : JobKind) (g : Graph) (unnamed : is_loaded g [] ≡ false) (given : List Text) where
  -- The roots are the normalised names of the units that are given.
  abbrev pub IsRoot : Text → Type 0
  IsRoot x = names_unit given x ≡ true

  -- How a plan ends: in a value with `P`, in a unit that is missing, or at an empty name. Other
  -- errors are for the parts that follow.
  abbrev pub RootEnds {ℓ} : {A : Type ℓ} → (A → Type 0) → Result PlanError A → Type 0
  RootEnds P (ok a) = P a
  RootEnds P (err (missing_unit u by)) = IsMissing kind g IsRoot u by
  RootEnds P (err empty_unit_name) = names_unit given [] ≡ true
  RootEnds P (err e) = ⊥

  pub RootEnds-bind {ℓ κ} :
      {A : Type ℓ} {B : Type κ} (P : A → Type 0) (Q : B → Type 0) (m : Result PlanError A)
      (f : A → Result PlanError B)
      → Ends kind g IsRoot unnamed P m
      → ((a : A) → P a → RootEnds Q (f a))
      → RootEnds Q (m >>= f)
  RootEnds-bind P Q (ok a) f h k = k a h
  RootEnds-bind P Q (err (missing_unit u by)) f h k = h
  RootEnds-bind P Q (err no_fuel) f h k = absurd h
  RootEnds-bind P Q (err no_units) f h k = absurd h
  RootEnds-bind P Q (err empty_unit_name) f h k = absurd h
  RootEnds-bind P Q (err empty_transaction) f h k = absurd h
  RootEnds-bind P Q (err (cycle_error path)) f h k = absurd h

  pub RootEnds-weaken {ℓ} :
      {A : Type ℓ} (P Q : A → Type 0) (m : Result PlanError A)
      → RootEnds P m
      → ((a : A) → P a → Q a)
      → RootEnds Q m
  RootEnds-weaken P Q (ok a) h k = k a h
  RootEnds-weaken P Q (err (missing_unit u by)) h k = h
  RootEnds-weaken P Q (err empty_unit_name) h k = h
  RootEnds-weaken P Q (err no_fuel) h k = absurd h
  RootEnds-weaken P Q (err no_units) h k = absurd h
  RootEnds-weaken P Q (err empty_transaction) h k = absurd h
  RootEnds-weaken P Q (err (cycle_error path)) h k = absurd h

  -- A root is a job: always in a start plan, and if it is loaded in any plan.
  abbrev pub Held : List Job → Text → Type 0
  Held jobs x =
      (is_start kind ≡ true → has_job jobs x ≡ true)
      × (is_loaded g x ≡ true → has_job jobs x ≡ true)

  pub record RootsAdded (roots : List Text) (jobs : List Job) (rest : List Text)
      (result : List Text × List Job) : Type 0 where
    pub grown : Grown kind g IsRoot jobs result.1
    pub held : (x : Text) → contains_name result.0 x ≡ true → Held result.1 x
    pub listed :
        (x : Text) → contains_name result.0 x ≡ (contains_name roots x || names_unit rest x)

  unplanned-start : (jobs : List Job) → unplanned kind g IsRoot jobs < length g + 1
  unplanned-start jobs =
      omega (arith, count_le_length (λ x. not (has_job jobs x)) (names g), length-names g)

  Held-next :
      (roots : List Text) (jobs more : List Job) (n : Text)
      → ((x : Text) → contains_name roots x ≡ true → Held jobs x)
      → normalize_name n ≡ n
      → Added kind g IsRoot unnamed true jobs n more
      → (x : Text) → contains_name (roots ++ n ∷ []) x ≡ true
      → Held more x
  Held-next roots jobs more n held normal a x m = elim (Bool-cases (text_eq n x)) [
    | inl e ↦ let same : n ≡ x = (text_eq_iff n x).0 e in rw (← same) (rw normal at (a.1))
    | inr e ↦
        let (s, l) = held x (ground (arith, contains_name_snoc roots n x)) in
        (λ h. a.0.keeps x (s h), λ h. a.0.keeps x (l h))
  ]

  pub add_roots-Ends :
      (rest roots : List Text) (jobs : List Job)
      → ((x : Text) → names_unit rest x ≡ true → names_unit given x ≡ true)
      → ((x : Text) → contains_name roots x ≡ true → Held jobs x)
      → RootEnds (RootsAdded roots jobs rest) (add_roots kind g roots jobs rest)
  unfolding add_roots
  add_roots-Ends [] roots jobs sub held = record {
    grown = Grown-refl kind g IsRoot jobs;
    held = held;
    listed = λ x. ground arith;
  }
  add_roots-Ends (name ∷ rest) roots jobs sub held =
      let n = normalize_name name in
      let root_n : IsRoot n = sub n (ground (arith, text_eq_refl n)) in
      let sub' = λ (x : Text) (h : names_unit rest x ≡ true). sub x (rw h (ground arith)) in
      elim (Bool-cases (text_eq n [])) [
        | inl e ↦
            let empty : n ≡ [] = (text_eq_iff n []).0 e in rw (e, add_roots) (rw empty at root_n)
        | inr e ↦ elim (Bool-cases (contains_name roots n)) [
          | inl seen ↦
              rw (e, seen, add_roots)
                (RootEnds-weaken (RootsAdded roots jobs rest) (RootsAdded roots jobs (name ∷ rest))
                  (add_roots kind g roots jobs rest) (add_roots-Ends rest roots jobs sub' held)
                  (λ r a. record {
                    grown = a.grown;
                    held = a.held;
                    listed = λ x. ground (arith, a.listed x, text_eq_iff n x);
                  }))
          | inr new ↦
              rw (e, new, add_roots)
                (RootEnds-bind (Added kind g IsRoot unnamed true jobs n)
                  (RootsAdded roots jobs (name ∷ rest)) (add kind g (length g + 1) jobs n [] true)
                  (λ more. add_roots kind g (roots ++ n ∷ []) more rest)
                  (add-Ends kind g IsRoot unnamed (length g + 1) jobs n [] true
                    (inl (refl, rw normalize_name_idem root_n)) (unplanned-start jobs))
                  (λ more a.
                    RootEnds-weaken (RootsAdded (roots ++ n ∷ []) more rest)
                      (RootsAdded roots jobs (name ∷ rest))
                      (add_roots kind g (roots ++ n ∷ []) more rest)
                      (add_roots-Ends rest (roots ++ n ∷ []) more sub'
                        (Held-next roots jobs more n held (normalize_name_idem name) a))
                      (λ r b. record {
                        grown = Grown-trans kind g IsRoot jobs more r.1 a.0 b.grown;
                        held = b.held;
                        listed = λ x. ground (arith, b.listed x, contains_name_snoc roots n x);
                      })))
        ]
      ]
