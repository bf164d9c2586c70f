-- ===== src/Core/Cycle/Walk.antt =====
-- Walks along the edges of a graph of names: what a cycle and an order are.
use winunitd.Common.{Bool, true, List, [], ◌∷◌, ◌++◌, ◌≡◌, All}
use winunitd.Common.Text.{Text}
use winunitd.Core.Names.{contains_name}

module _ (inside : Text → Bool) (waits : Text → List Text) where
  -- The name waits for the first name of the list, and each name of the list for the next.
  abbrev pub IsWalk : Text → List Text → Type 0
  IsWalk a [] = Unit
  IsWalk a (b ∷ rest) = (contains_name (waits a) b ≡ true) × IsWalk b rest

  -- The path leads from a name along edges inside the graph back to the name.
  pub record IsCycle (path : List Text) : Type 0 where
    pub start : Text
    pub middle : List Text
    pub shape : path ≡ start ∷ (middle ++ start ∷ [])
    pub walk : IsWalk start (middle ++ start ∷ [])
    pub within : All (λ x. inside x ≡ true) path

  -- Each name's successors inside the graph stand behind it in the list.
  abbrev pub IsOrdered : List Text → Type 0
  IsOrdered [] = Unit
  IsOrdered (u ∷ order) =
      ((v : Text)
        → contains_name (waits u) v ≡ true
        → inside v ≡ true
        → contains_name order v ≡ true)
      × IsOrdered order
