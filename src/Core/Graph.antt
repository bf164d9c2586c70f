-- ===== src/Core/Graph.antt =====
-- internal/core/graph.go: the graph of the loaded units. `g.nodes` is a list of nodes with distinct
-- names; a loop over that map takes them in the order of the list, and the theorems hold for every
-- order. A nil `*Graph` is not modelled.
pub mod Waits
pub mod Lookup
pub mod Closures
use winunitd.Common.{
  ℕ, ◌+◌, Bool, true, false, ◌||◌, Option, none, some, List, [], ◌∷◌, ◌++◌, map, filter,
  if◌then◌else◌,
}
use winunitd.Common.Result.{Result, ok, err}
use winunitd.Common.Text.{Text, text_eq}
use winunitd.Unit.Name.{normalize_name}
use winunitd.Core.Names.{contains_name, unique_stable, sort_names}

-- The fields of `unit.Unit` that the graph reads.
pub record UnitSpec : Type 0 where
  pub name : Text
  pub requires : List Text
  pub wants : List Text
  pub binds_to : List Text
  pub part_of : List Text
  pub after : List Text
  pub before : List Text

pub record Node : Type 0 where
  pub name : Text
  pub unit : UnitSpec
  pub requires : List Text
  pub wants : List Text
  pub binds_to : List Text
  pub part_of : List Text
  pub after : List Text
  pub before : List Text
  pub waits_for : List Text

abbrev pub Graph : Type 0
Graph = List Node

-- `g.nodes[name]`.
unfoldable pub find : Graph → Text → Option Node
find [] name = none
find (n ∷ g) name = if text_eq n.name name then some n else find g name

unfoldable pub is_loaded : Graph → Text → Bool
is_loaded [] name = false
is_loaded (n ∷ g) name = text_eq n.name name || is_loaded g name

pub data BuildError : Type 0 where
  nil_unit : ℕ → BuildError
  empty_name : ℕ → BuildError
  duplicate_unit : Text → BuildError

unfoldable pub new_node : UnitSpec → Node
new_node u = record {
  name = normalize_name u.name;
  unit = u;
  requires = unique_stable u.requires;
  wants = unique_stable u.wants;
  binds_to = unique_stable u.binds_to;
  part_of = unique_stable u.part_of;
  after = unique_stable u.after;
  before = unique_stable u.before;
  waits_for = [];
}

-- The loop of `Build` over the units, from index `i`; `none` is a nil unit.
unfoldable pub load : ℕ → Graph → List (Option UnitSpec) → Result BuildError Graph
unfolding new_node
load i g [] = ok g
load i g (none ∷ us) = err (nil_unit i)
load i g (some u ∷ us) =
    let name = normalize_name u.name in
    let rest = load (i + 1) (g ++ new_node u ∷ []) us in
    if text_eq name []
    then err (empty_name i)
    else if is_loaded g name
    then err (duplicate_unit name)
    else rest

-- The body of the second loop.
unfoldable pub set_waits : Graph → Node → Node
set_waits g n = record n { waits_for = unique_stable (filter (is_loaded g) n.after) }

-- `o.waitsFor = append(o.waitsFor, n.name)` for the node `o` named `later`, unless it is there.
unfoldable pub add_wait : Text → Text → Graph → Graph
add_wait later name [] = []
add_wait later name (o ∷ g) =
    let added = o.waits_for ++ name ∷ [] in
    if text_eq o.name later
    then (record o { waits_for = if contains_name o.waits_for name then o.waits_for else added })
      ∷ g
    else o ∷ add_wait later name g

unfoldable pub add_waits : Text → List Text → Graph → Graph
unfolding add_wait
add_waits name [] g = g
add_waits name (later ∷ before) g = add_waits name before (add_wait later name g)

-- The third loop, over the nodes in the first argument.
unfoldable pub reverse_before : Graph → Graph → Graph
unfolding add_waits
reverse_before [] g = g
reverse_before (n ∷ ns) g = reverse_before ns (add_waits n.name n.before g)

unfoldable pub build : List (Option UnitSpec) → Result BuildError Graph
unfolding load set_waits reverse_before
build units = elim (load 0 [] units) [
  | err e ↦ err e
  | ok g ↦ ok (reverse_before g (map (set_waits g) g))
]

-- `Names`: the loaded names in order.
unfoldable pub names : Graph → List Text
names g = sort_names (map (λ n. n.name) g)

-- `g.node(name)`.
unfoldable pub node : Graph → Text → Option Node
unfolding find
node g name = find g (normalize_name name)

field_of : (Node → List Text) → Option Node → List Text
field_of field none = []
field_of field (some n) = field n

unfoldable pub unit_of : Graph → Text → Option UnitSpec
unfolding node
unit_of g name = elim (node g name) [ none ↦ none | some n ↦ some n.unit ]

unfoldable pub requires : Graph → Text → List Text
unfolding node field_of
requires g name = field_of (λ n. n.requires) (node g name)

unfoldable pub wants : Graph → Text → List Text
unfolding node field_of
wants g name = field_of (λ n. n.wants) (node g name)

unfoldable pub binds_to : Graph → Text → List Text
unfolding node field_of
binds_to g name = field_of (λ n. n.binds_to) (node g name)

unfoldable pub part_of : Graph → Text → List Text
unfolding node field_of
part_of g name = field_of (λ n. n.part_of) (node g name)

unfoldable pub after : Graph → Text → List Text
unfolding node field_of
after g name = field_of (λ n. n.after) (node g name)

unfoldable pub waits_for : Graph → Text → List Text
unfolding node field_of
waits_for g name = field_of (λ n. n.waits_for) (node g name)

unfoldable pub start_require_names : Node → List Text
start_require_names n = unique_stable (n.requires ++ n.binds_to)

unfoldable pub start_requires_name : Node → Text → Bool
start_requires_name n name = contains_name n.requires name || contains_name n.binds_to name

unfoldable pub stop_requires_name : Node → Text → Bool
stop_requires_name n name =
    contains_name n.requires name || (contains_name n.binds_to name || contains_name n.part_of name)

unfoldable pub stop_dep_names : Node → List Text
stop_dep_names n = unique_stable (n.requires ++ (n.binds_to ++ n.part_of))
