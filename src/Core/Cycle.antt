-- ===== src/Core/Cycle.antt =====
-- internal/core/graph.go: `findCycle`, the depth-first search with three colours. Each round of its
-- recursion paints one white name gray, so as much fuel as there are names is enough.
pub mod Walk
pub mod Climb
pub mod Colors
pub mod Counts
pub mod Descent
pub mod Correct
use winunitd.Common.{
  ℕ, zero, suc, ◌+◌, Bool, true, false, ◌||◌, List, [], ◌∷◌, ◌++◌, if◌then◌else◌, length, ltb,
}
use winunitd.Common.Text.{Text, text_eq}
use winunitd.Core.Names.{contains_name, sort_names}

pub data Color : Type 0 where
  white gray black : Color

abbrev pub Parents : Type 0
Parents = List (Text × Text)

-- The maps `color`, white where nothing is stored, and `parent`.
pub record Search : Type 0 where
  pub color : Text → Color
  pub parent : Parents

-- `parent[x]`, which is "" for a missing key.
unfoldable pub parent_of : Parents → Text → Text
parent_of [] x = []
parent_of ((k, y) ∷ ps) x = if text_eq k x then y else parent_of ps x

-- `parent[v] = u`.
unfoldable pub set_parent : Parents → Text → Text → Parents
set_parent [] v u = (v, u) ∷ []
set_parent ((k, y) ∷ ps) v u = if text_eq k v then (k, u) ∷ ps else (k, y) ∷ set_parent ps v u

-- The loop of `reconstructCycle` at `x`. `stack` has the newest entry first, so the path that the
-- code reads from its end is read here from the head. The test on the length of the stack ends the
-- loop within `len(parent) + 2` rounds.
unfoldable pub climb : ℕ → Parents → Text → Text → List Text → Text → List Text
climb zero parent u v stack x = v ∷ u ∷ v ∷ []
climb (suc f) parent u v stack x =
    let up = climb f parent u v (x ∷ stack) (parent_of parent x) in
    if text_eq x v
    then v ∷ (stack ++ v ∷ [])
    else if text_eq x [] || ltb (length parent + 1) (length (x ∷ stack))
    then v ∷ u ∷ v ∷ []
    else up

unfoldable pub reconstruct_cycle : Parents → Text → Text → List Text
unfolding climb
reconstruct_cycle parent u v =
    if text_eq u v then v ∷ v ∷ [] else climb (length parent + 2) parent u v [] u

-- How a call of `dfs` ends; `spent` is the end of the fuel.
pub data Visit : Type 0 where
  spent : Visit
  cycle : List Text → Visit
  done : Search → Visit

abbrev pub and_then : Visit → (Search → Visit) → Visit
and_then spent f = spent
and_then (cycle path) f = cycle path
and_then (done s) f = f s

abbrev pub paint : Search → Text → Color → Search
paint s y c = record s { color = λ x. if text_eq y x then c else s.color x }

module _ (inside : Text → Bool) (waits : Text → List Text) where
  -- One successor `v` of `u`.
  unfoldable pub visit_edge : (Search → Text → Visit) → Text → Search → Text → Visit
  visit_edge dfs u s v = elim (inside v) [
    | false ↦ done s
    | true ↦ elim (s.color v) [
      | gray ↦ cycle (reconstruct_cycle s.parent u v)
      | white ↦ dfs (record s { parent = set_parent s.parent v u }) v
      | black ↦ done s
    ]
  ]

  unfoldable pub visit_edges : (Search → Text → Visit) → Text → Search → List Text → Visit
  visit_edges dfs u s [] = done s
  visit_edges dfs u s (v ∷ vs) = and_then (visit_edge dfs u s v) (λ t. visit_edges dfs u t vs)

  unfoldable pub dfs : ℕ → Search → Text → Visit
  unfolding visit_edges visit_edge
  dfs zero s u = spent
  dfs (suc f) s u =
      and_then (visit_edges (dfs f) u (paint s u gray) (sort_names (waits u)))
        (λ t. done (paint t u black))

  visit_root : ℕ → Search → Text → Visit
  unfolding dfs
  visit_root f s n = elim (s.color n) [ white ↦ dfs f s n | _ ↦ done s ]

  unfoldable pub visit_roots : ℕ → Search → List Text → Visit
  unfolding visit_root
  visit_roots f s [] = done s
  visit_roots f s (n ∷ ns) = and_then (visit_root f s n) (λ t. visit_roots f t ns)

-- What `findCycle` returns: nil, or the path of a `CycleError`.
pub data CycleSearch : Type 0 where
  out_of_fuel : CycleSearch
  acyclic : CycleSearch
  cyclic : List Text → CycleSearch

outcome : Visit → CycleSearch
outcome spent = out_of_fuel
outcome (cycle path) = cyclic path
outcome (done s) = acyclic

abbrev pub blank : Search
blank = record { color = λ x. white; parent = [] }

unfoldable pub find_cycle : List Text → (Text → List Text) → CycleSearch
unfolding visit_roots outcome
find_cycle names waits =
    let sorted = sort_names names in
    outcome (visit_roots (contains_name sorted) waits (length sorted) blank sorted)
