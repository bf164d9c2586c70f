-- ===== src/Core/Graph/Lookup.antt =====
-- Looking up nodes.
use winunitd.Common.{
  Option-cases, true, false, none, some, [], ◌∷◌, map, ◌≡◌, refl, ◌∙◌, arith, ◌⊎◌, List, [], ◌∷◌,
  count, length,
}
use winunitd.Common.Text.{Text}
use winunitd.Core.Names.{contains_name, sort_names}
use winunitd.Core.Names.Laws.{contains_name-sort_names, count-sort_names}
use winunitd.Core.Graph.{Node, Graph, find, is_loaded, names}

contains_name-map : (g : Graph) (x : Text) → contains_name (map (λ n. n.name) g) x ≡ is_loaded g x
unfolding contains_name is_loaded
contains_name-map [] x = refl
contains_name-map (n ∷ g) x = ground (arith, contains_name-map g x)

-- `Names` lists exactly the loaded names.
pub contains_name-names : (g : Graph) (x : Text) → contains_name (names g) x ≡ is_loaded g x
unfolding names
contains_name-names g x = contains_name-sort_names (map (λ n. n.name) g) x ∙ contains_name-map g x

pub find-none : (g : Graph) (x : Text) → find g x ≡ none → is_loaded g x ≡ false
unfolding find is_loaded
find-none [] x h = refl
find-none (n ∷ g) x h = ground (arith, find-none g x)

pub find-some : (g : Graph) (x : Text) (m : Node) → find g x ≡ some m → is_loaded g x ≡ true
unfolding find is_loaded
find-some [] x m h = cc
find-some (n ∷ g) x m h = ground (arith, find-some g x m)

pub find-cases : (g : Graph) (x : Text) → (find g x ≡ none) ⊎ ((n : Node) × (find g x ≡ some n))
find-cases g x = Option-cases (find g x)

count_all : (xs : List Text) → count (λ _. true) xs ≡ length xs
count_all [] = refl
count_all (x ∷ xs) = omega (arith, count_all xs)

length-map-name : (g : Graph) → length (map (λ n. n.name) g) ≡ length g
length-map-name [] = refl
length-map-name (n ∷ g) = omega (arith, length-map-name g)

-- There are as many names as nodes.
pub length-names : (g : Graph) → length (names g) ≡ length g
unfolding names
length-names g = omega (
  arith,
  count_all (sort_names (map (λ n. n.name) g)),
  count_all (map (λ n. n.name) g),
  count-sort_names (λ _. true) (map (λ n. n.name) g),
  length-map-name g,
)
