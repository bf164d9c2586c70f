-- ===== src/Core/Cycle/Correct.antt =====
-- What `findCycle` finds.
use mathlib.Core.Path.{fun_ext, subst}
use winunitd.Common.{
  ℕ, suc, ◌≤◌, ◌<◌, Bool, true, false, List, [], ◌∷◌, ◌++◌, length, ◌≡◌, ◌≢◌, arith, All,
  Bool-cases, inl, inr, if◌then◌else◌,
}
use winunitd.Common.Text.{Text, text_eq, text_eq_iff}
use winunitd.Core.Names.{contains_name, sort_names}
use winunitd.Core.Names.Laws.{contains_name-sort_names}
use winunitd.Core.Cycle.{
  Visit, spent, cycle, done, CycleSearch, out_of_fuel, acyclic, cyclic, find_cycle, outcome,
  visit_roots, blank,
}
use winunitd.Core.Cycle.Walk.{IsWalk, IsCycle, IsOrdered}
use winunitd.Core.Cycle.Colors.{blank-Inv}
use winunitd.Core.Cycle.Descent.{Ends, AllReached, roots-Ends}
use winunitd.Core.Cycle.Counts.{All_of_contains, All-contains}

module _ (inside : Text → Bool) (waits : Text → List Text) where
  -- How far from the end of the list a name last stands.
  rank : List Text → Text → ℕ
  rank [] x = 0
  rank (u ∷ order) x = if contains_name order x then rank order x else suc (length order)

  rank_le_length : (order : List Text) (x : Text) → rank order x ≤ length order
  unfolding rank
  rank_le_length [] x = omega arith
  rank_le_length (u ∷ order) x = ground (arith, rank_le_length order x)

  -- An edge leads to a name of the order with a smaller rank.
  edge-rank :
      (order : List Text) (a b : Text)
      → IsOrdered inside waits order
      → contains_name order a ≡ true
      → contains_name (waits a) b ≡ true
      → inside b ≡ true
      → (contains_name order b ≡ true) × (rank order b < rank order a)
  unfolding rank contains_name
  edge-rank [] a b o m e i = cc
  edge-rank (u ∷ order) a b o m e i = elim (Bool-cases (contains_name order a)) [
    | inl deep ↦ ground (arith, edge-rank order a b o.1 deep e i)
    | inr top ↦
        let same : u ≡ a = (text_eq_iff u a).0 (ground arith) in
        ground (arith, o.0 b (rw same e) i, rank_le_length order b)
  ]

  -- A walk inside the graph ends at a smaller rank than it begins.
  walk-rank :
      (order : List Text) (a z : Text) (middle : List Text)
      → IsOrdered inside waits order
      → contains_name order a ≡ true
      → IsWalk inside waits a (middle ++ z ∷ [])
      → All (λ x. inside x ≡ true) (middle ++ z ∷ [])
      → rank order z < rank order a
  walk-rank order a z [] o m w i = (edge-rank order a z o m w.0 i.0).1
  walk-rank order a z (b ∷ middle) o m w i =
      let (next, less) = edge-rank order a b o m w.0 i.0 in
      omega (arith, walk-rank order b z middle o next w.1 i.1)

  -- Where every name of the graph stands in an order, there is no cycle.
  no-IsCycle_of_order :
      (order path : List Text)
      → IsOrdered inside waits order
      → ((x : Text) → inside x ≡ true → contains_name order x ≡ true)
      → ¬ IsCycle inside waits path
  no-IsCycle_of_order order path o all c =
      let within = rw c.shape at c.within in
      omega
        (arith, walk-rank order c.start c.start c.middle o (all c.start within.0) c.walk within.1)

-- What each outcome says of the graph: an order of all names, or a cycle.
abbrev Found : (Text → Bool) → (Text → List Text) → CycleSearch → Type 0
Found inside waits out_of_fuel = ⊥
Found inside waits acyclic =
    (order : List Text) × IsOrdered inside waits order
    × ((x : Text) → inside x ≡ true → contains_name order x ≡ true)
Found inside waits (cyclic path) = IsCycle inside waits path

module _ (names : List Text) (waits : Text → List Text)
    (named : contains_name names [] ≡ false) where
  abbrev sorted : List Text
  sorted = sort_names names

  nonempty : (x : Text) → contains_name sorted x ≡ true → text_eq x [] ≡ false
  nonempty x m = elim (Bool-cases (text_eq x [])) [
    | inl e ↦
        let same : x ≡ [] = (text_eq_iff x []).0 e in
        cc (contains_name-sort_names names [], rw same at m)
    | inr e ↦ e
  ]

  Found-of_Ends :
      (v : Visit)
      → Ends
          (contains_name sorted)
          waits
          sorted
          nonempty
          (λ x m. m)
          (AllReached (contains_name sorted) waits sorted nonempty (λ x m. m) sorted [])
          v
      → Found (contains_name sorted) waits (outcome v)
  unfolding outcome
  Found-of_Ends spent h = h
  Found-of_Ends (cycle path) h = h
  Found-of_Ends (done s) (l, all) =
      (l.now, l.inv.ordered, All-contains (λ x. contains_name l.now x ≡ true) sorted all)

  find_cycle-Found : Found (contains_name names) waits (find_cycle names waits)
  unfolding find_cycle
  find_cycle-Found =
      subst (λ i. Found i waits (find_cycle names waits)) (fun_ext (contains_name-sort_names names))
        (Found-of_Ends (visit_roots (contains_name sorted) waits (length sorted) blank sorted) (
          roots-Ends (contains_name sorted) waits sorted nonempty (λ x m. m) (length sorted) sorted
            blank [] (blank-Inv (contains_name sorted) waits)
            (All_of_contains (λ x. contains_name sorted x ≡ true) sorted (λ x m. m)) (omega arith)))

-- The search ends within its fuel, where no name is empty.
pub find_cycle_total :
    (names : List Text) (waits : Text → List Text)
    → contains_name names [] ≡ false
    → find_cycle names waits ≢ out_of_fuel
find_cycle_total names waits named e =
    subst (Found (contains_name names) waits) e (find_cycle-Found names waits named)

-- A path that is returned is a cycle: it leads along After edges between the given names from a
-- name back to itself.
pub find_cycle-cyclic :
    (names : List Text) (waits : Text → List Text) (path : List Text)
    → contains_name names [] ≡ false
    → find_cycle names waits ≡ cyclic path
    → IsCycle (contains_name names) waits path
find_cycle-cyclic names waits path named e =
    subst (Found (contains_name names) waits) e (find_cycle-Found names waits named)

-- Where no path is returned, the names can be put in an order in which each stands before all
-- that it waits for.
pub find_cycle-order :
    (names : List Text) (waits : Text → List Text)
    → contains_name names [] ≡ false
    → find_cycle names waits ≡ acyclic
    → (order : List Text) × IsOrdered (contains_name names) waits order
      × ((x : Text) → contains_name names x ≡ true → contains_name order x ≡ true)
find_cycle-order names waits named e =
    subst (Found (contains_name names) waits) e (find_cycle-Found names waits named)

-- Where no path is returned, there is no cycle.
pub find_cycle-acyclic :
    (names : List Text) (waits : Text → List Text) (path : List Text)
    → contains_name names [] ≡ false
    → find_cycle names waits ≡ acyclic
    → ¬ IsCycle (contains_name names) waits path
find_cycle-acyclic names waits path named e =
    let (order, ordered, all) = find_cycle-order names waits named e in
    no-IsCycle_of_order (contains_name names) waits order path ordered all
