-- ===== src/Core/Graph/Closures.antt =====
-- internal/core/graph.go and transaction.go: the reverse closures that stopping needs. Each nested
-- call of a walk adds a loaded name to `seen`, so one round of fuel more than there are nodes is
-- enough; none is the end of the fuel.
use winunitd.Common.{
  ℕ, zero, suc, ◌+◌, Bool, false, Option, none, some, List, [], ◌∷◌, ◌++◌, filter, if◌then◌else◌,
  length,
}
use winunitd.Common.Text.{Text, text_eq}
use winunitd.Unit.Name.{normalize_name}
use winunitd.Core.Names.{contains_name, sort_names}
use winunitd.Core.Graph.{Graph, Node, find, is_loaded, names, stop_requires_name}

-- The node of a loaded name passes a test.
abbrev node_passes : (Node → Bool) → Graph → Text → Bool
node_passes p g name = elim (find g name) [ none ↦ false | some n ↦ p n ]

unfoldable pub reverse_requirers_of : Graph → Text → List Text
reverse_requirers_of g name =
    filter (node_passes (λ n. stop_requires_name n (normalize_name name)) g) (names g)

unfoldable pub after_successors : Graph → Text → List Text
after_successors g name =
    filter (node_passes (λ n. contains_name n.waits_for (normalize_name name)) g) (names g)

abbrev pub walk_all :
    (List Text → Text → Option (List Text)) → List Text → List Text → Option (List Text)
walk_all walk seen [] = some seen
walk_all walk seen (x ∷ xs) = elim (walk seen x) [ none ↦ none | some t ↦ walk_all walk t xs ]

-- The local function `walk` of `reverseRequirementClosure`.
unfoldable pub reverse_walk : ℕ → Graph → List Text → Text → Option (List Text)
reverse_walk zero g seen name = none
reverse_walk (suc f) g seen name =
    let n = normalize_name name in
    let deeper = walk_all (reverse_walk f g) (seen ++ n ∷ []) (reverse_requirers_of g n) in
    if text_eq n []
    then some seen
    else if contains_name seen n
    then some seen
    else if is_loaded g n
    then deeper
    else some seen

sorted_result : Option (List Text) → Option (List Text)
sorted_result none = none
sorted_result (some seen) = some (sort_names seen)

unfoldable pub reverse_requirement_closure : Graph → List Text → Option (List Text)
unfolding reverse_walk sorted_result
reverse_requirement_closure g roots =
    sorted_result (walk_all (reverse_walk (length g + 1) g) [] roots)

-- One round of the loop in the local function `walk` of `afterClosure`.
abbrev after_step : (List Text → Text → Option (List Text)) → List Text → Text → Option (List Text)
after_step walk seen later =
    let deeper = walk (seen ++ later ∷ []) later in
    if contains_name seen later then some seen else deeper

unfoldable pub after_walk : ℕ → Graph → List Text → Text → Option (List Text)
after_walk zero g seen name = none
after_walk (suc f) g seen name =
    walk_all (after_step (after_walk f g)) seen (after_successors g name)

after_root : ℕ → Graph → List Text → Text → Option (List Text)
after_root f g seen r = after_walk f g seen (normalize_name r)

unfoldable pub after_closure : Graph → List Text → Option (List Text)
unfolding after_walk after_root sorted_result
after_closure g roots = sorted_result (walk_all (after_root (length g + 1) g) [] roots)
