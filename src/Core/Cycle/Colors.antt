-- ===== src/Core/Cycle/Colors.antt =====
-- The invariant of the search: the gray names are a chain, and the black ones are in order.
use winunitd.Common.{
  suc, ◌+◌, ◌≤◌, Bool, true, false, ◌||◌, List, [], ◌∷◌, if◌then◌else◌, length, ◌≡◌, refl, arith,
  All,
}
use winunitd.Common.Text.{Text, text_eq, text_eq_iff, text_eq_refl}
use winunitd.Core.Names.{contains_name}
use winunitd.Core.Names.Laws.{IsUnique}
use winunitd.Core.Cycle.{
  Color, white, gray, black, Parents, Search, parent_of, set_parent, paint, blank,
}
use winunitd.Core.Cycle.Walk.{IsOrdered}
use winunitd.Core.Cycle.Climb.{IsChain}

abbrev pub is_white : Color → Bool
is_white white = true
is_white _ = false

abbrev pub is_gray : Color → Bool
is_gray gray = true
is_gray _ = false

abbrev pub is_black : Color → Bool
is_black black = true
is_black _ = false

-- `x` has an entry in the map.
pub has_parent : Parents → Text → Bool
has_parent [] x = false
has_parent ((k, y) ∷ ps) x = text_eq k x || has_parent ps x

has_parent-set_parent :
    (ps : Parents) (v u x : Text)
    → has_parent (set_parent ps v u) x ≡ (text_eq v x || has_parent ps x)
unfolding has_parent set_parent
has_parent-set_parent [] v u x = refl
has_parent-set_parent ((k, y) ∷ ps) v u x =
    ground (arith, has_parent-set_parent ps v u x, text_eq_iff k v)

length-set_parent :
    (ps : Parents) (v u : Text)
    → has_parent ps v ≡ false
    → length (set_parent ps v u) ≡ suc (length ps)
unfolding has_parent set_parent
length-set_parent [] v u h = refl
length-set_parent ((k, y) ∷ ps) v u h = ground (arith, length-set_parent ps v u)

parent_of-set_parent :
    (ps : Parents) (v u x : Text)
    → parent_of (set_parent ps v u) x ≡ (if text_eq v x then u else parent_of ps x)
unfolding parent_of set_parent
parent_of-set_parent [] v u x = refl
parent_of-set_parent ((k, y) ∷ ps) v u x =
    ground (arith, parent_of-set_parent ps v u x, text_eq_iff k v, text_eq_iff k x, text_eq_iff v x)

module _ (inside : Text → Bool) (waits : Text → List Text) where
  -- A new entry for a name off the chain leaves the chain.
  IsChain-set_parent :
      (ps : Parents) (v u : Text) (st : List Text)
      → contains_name st v ≡ false
      → IsChain inside waits ps st
      → IsChain inside waits (set_parent ps v u) st
  unfolding contains_name
  IsChain-set_parent ps v u [] h c = tt
  IsChain-set_parent ps v u (x ∷ []) h c = tt
  IsChain-set_parent ps v u (x ∷ y ∷ st) h c = (
    (ground (arith, parent_of-set_parent ps v u x, text_eq_iff v x, text_eq_refl x, c.0.0), c.0.1),
    IsChain-set_parent ps v u (y ∷ st) (ground arith) c.1,
  )

  IsChain-tail :
      (ps : Parents) (x : Text) (st : List Text)
      → IsChain inside waits ps (x ∷ st)
      → IsChain inside waits ps st
  IsChain-tail ps x [] c = tt
  IsChain-tail ps x (y ∷ st) c = c.1

  -- `st` holds the gray names, the newest first, and `order` the black ones, the last first.
  pub record Inv (s : Search) (st order : List Text) : Type 0 where
    pub grays : (x : Text) → is_gray (s.color x) ≡ contains_name st x
    pub blacks : (x : Text) → is_black (s.color x) ≡ contains_name order x
    pub distinct : IsUnique st
    pub chain : IsChain inside waits s.parent st
    pub within : All (λ x. inside x ≡ true) st
    pub fits : length st ≤ length s.parent + 1
    pub keys : (x : Text) → has_parent s.parent x ≡ true → is_white (s.color x) ≡ false
    pub ordered : IsOrdered inside waits order

  pub blank-Inv : Inv blank [] []
  unfolding has_parent contains_name
  blank-Inv = record {
    grays = λ x. refl;
    blacks = λ x. refl;
    distinct = tt;
    chain = tt;
    within = tt;
    fits = omega arith;
    keys = λ x h. cc;
    ordered = tt;
  }

  -- A white name on no chain becomes the root of one.
  pub root-Inv :
      (s : Search) (n : Text) (order : List Text)
      → Inv s [] order
      → is_white (s.color n) ≡ true
      → inside n ≡ true
      → Inv (paint s n gray) (n ∷ []) order
  unfolding contains_name
  root-Inv s n order inv w i = record {
    grays = λ x. ground (arith, inv.grays x);
    blacks = λ x. ground (arith, inv.blacks x, text_eq_iff n x, w);
    distinct = (refl, tt);
    chain = tt;
    within = (i, tt);
    fits = omega arith;
    keys = λ x h. ground (arith, inv.keys x h);
    ordered = inv.ordered;
  }

  -- A white successor of the newest gray name becomes the newest.
  pub enter-Inv :
      (s : Search) (u v : Text) (st order : List Text)
      → Inv s (u ∷ st) order
      → is_white (s.color v) ≡ true
      → inside v ≡ true
      → contains_name (waits u) v ≡ true
      → Inv (paint (record s { parent = set_parent s.parent v u }) v gray) (v ∷ u ∷ st) order
  unfolding contains_name
  enter-Inv s u v st order inv w i edge =
      let off : contains_name (u ∷ st) v ≡ false = ground (arith, inv.grays v) in
      let new : has_parent s.parent v ≡ false = ground (arith, inv.keys v) in
      record {
        grays = λ x. ground (arith, inv.grays x);
        blacks = λ x. ground (arith, inv.blacks x, text_eq_iff v x, w);
        distinct = (off, inv.distinct);
        chain = (
          (ground (arith, parent_of-set_parent s.parent v u v, text_eq_refl v), edge),
          IsChain-set_parent s.parent v u (u ∷ st) off inv.chain,
        );
        within = (i, inv.within);
        fits = omega (arith, inv.fits, length-set_parent s.parent v u new);
        keys = λ x h. ground (arith, has_parent-set_parent s.parent v u x, inv.keys x);
        ordered = inv.ordered;
      }

  -- The newest gray name, with all of its successors black, becomes black.
  pub leave-Inv :
      (s : Search) (u : Text) (st order : List Text)
      → Inv s (u ∷ st) order
      → ((v : Text)
          → contains_name (waits u) v ≡ true
          → inside v ≡ true
          → contains_name order v ≡ true)
      → Inv (paint s u black) st (u ∷ order)
  unfolding contains_name
  leave-Inv s u st order inv all = record {
    grays = λ x. ground (arith, inv.grays x, text_eq_iff u x, inv.distinct.0);
    blacks = λ x. ground (arith, inv.blacks x);
    distinct = inv.distinct.1;
    chain = IsChain-tail s.parent u st inv.chain;
    within = inv.within.1;
    fits = omega (arith, inv.fits);
    keys = λ x h. ground (arith, inv.keys x h);
    ordered = (all, inv.ordered);
  }
