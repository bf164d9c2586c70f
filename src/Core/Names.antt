-- ===== src/Core/Names.antt =====
-- internal/core/names.go, and `sort.Strings`.
pub mod Laws
use winunitd.Common.{Bool, true, false, ◌||◌, List, [], ◌∷◌, if◌then◌else◌}
use winunitd.Common.Text.{Text, text_eq, text_le}
use winunitd.Unit.Name.{normalize_name}

unfoldable pub contains_name : List Text → Text → Bool
contains_name [] name = false
contains_name (s ∷ ss) name = text_eq s name || contains_name ss name

-- The loop of `uniqueStable`. The keys of its map `seen` are the names put out so far.
unique_from : List Text → List Text → List Text
unfolding contains_name
unique_from seen [] = []
unique_from seen (s ∷ ss) =
    let name = normalize_name s in
    let skip = unique_from seen ss in
    let keep = name ∷ unique_from (name ∷ seen) ss in
    if text_eq name [] then skip else if contains_name seen name then skip else keep

unfoldable pub unique_stable : List Text → List Text
unfolding unique_from
unique_stable names = unique_from [] names

-- `sort.Strings`: the standard library promises the same names in order.
insert_sorted : Text → List Text → List Text
insert_sorted name [] = name ∷ []
insert_sorted name (s ∷ ss) = if text_le name s then name ∷ s ∷ ss else s ∷ insert_sorted name ss

unfoldable pub sort_names : List Text → List Text
unfolding insert_sorted
sort_names [] = []
sort_names (s ∷ ss) = insert_sorted s (sort_names ss)
