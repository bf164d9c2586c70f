-- ===== src/Core/Names/Laws.antt =====
-- The laws of membership, of `uniqueStable` and of sorting.
use winunitd.Common.{
  Bool, true, false, not, ◌||◌, ◌&&◌, List, [], ◌∷◌, ◌++◌, ◌≡◌, refl, inl, inr, arith, ap, count,
  All, Bool-cases,
}
use winunitd.Common.Text.{
  Text, text_eq, text_le, text_eq_refl, text_eq_iff, text_le_total, text_le_trans,
}
use winunitd.Unit.Name.{normalize_name}
use winunitd.Unit.Name.Normal.{normalize_name_idem}
use winunitd.Core.Names.{contains_name, unique_from, unique_stable, insert_sorted, sort_names}

pub contains_name-append :
    (xs ys : List Text) (x : Text)
    → contains_name (xs ++ ys) x ≡ (contains_name xs x || contains_name ys x)
unfolding contains_name
contains_name-append [] ys x = refl
contains_name-append (y ∷ xs) ys x = ground (arith, contains_name-append xs ys x)

pub contains_name_self : (x : Text) (xs : List Text) → contains_name (x ∷ xs) x ≡ true
unfolding contains_name
contains_name_self x xs = ground (arith, text_eq_refl x)

contains_name-insert_sorted :
    (s : Text) (ss : List Text) (x : Text)
    → contains_name (insert_sorted s ss) x ≡ (text_eq s x || contains_name ss x)
unfolding contains_name insert_sorted
contains_name-insert_sorted s [] x = refl
contains_name-insert_sorted s (y ∷ ss) x = ground (arith, contains_name-insert_sorted s ss x)

-- Sorting keeps the members.
pub contains_name-sort_names :
    (ss : List Text) (x : Text) → contains_name (sort_names ss) x ≡ contains_name ss x
unfolding sort_names contains_name
contains_name-sort_names [] x = refl
contains_name-sort_names (s ∷ ss) x =
    ground (arith, contains_name-insert_sorted s (sort_names ss) x, contains_name-sort_names ss x)

count-insert_sorted :
    (p : Text → Bool) (s : Text) (ss : List Text) → count p (insert_sorted s ss) ≡ count p (s ∷ ss)
unfolding insert_sorted
count-insert_sorted p s [] = refl
count-insert_sorted p s (y ∷ ss) = ground (arith, count-insert_sorted p s ss)

-- Sorting keeps how often each kind of name occurs.
pub count-sort_names : (p : Text → Bool) (ss : List Text) → count p (sort_names ss) ≡ count p ss
unfolding sort_names
count-sort_names p [] = refl
count-sort_names p (s ∷ ss) =
    ground (arith, count-insert_sorted p s (sort_names ss), count-sort_names p ss)

-- Each name is at most every later one.
abbrev pub IsSorted : List Text → Type 0
IsSorted [] = Unit
IsSorted (s ∷ ss) = All (λ t. text_le s t ≡ true) ss × IsSorted ss

All-le :
    (s t : Text) (ss : List Text)
    → text_le s t ≡ true
    → All (λ u. text_le t u ≡ true) ss
    → All (λ u. text_le s u ≡ true) ss
All-le s t [] h k = tt
All-le s t (u ∷ ss) h k = (text_le_trans s t u h k.0, All-le s t ss h k.1)

All-insert_sorted :
    (r s : Text) (ss : List Text)
    → text_le r s ≡ true
    → All (λ u. text_le r u ≡ true) ss
    → All (λ u. text_le r u ≡ true) (insert_sorted s ss)
unfolding insert_sorted
All-insert_sorted r s [] h k = (h, tt)
All-insert_sorted r s (y ∷ ss) h k = elim (Bool-cases (text_le s y)) [
  | inl e ↦ rw e (h, k)
  | inr e ↦ rw e (k.0, All-insert_sorted r s ss h k.1)
]

insert_sorted-IsSorted : (s : Text) (ss : List Text) → IsSorted ss → IsSorted (insert_sorted s ss)
unfolding insert_sorted
insert_sorted-IsSorted s [] h = (tt, tt)
insert_sorted-IsSorted s (y ∷ ss) h = elim (Bool-cases (text_le s y)) [
  | inl e ↦ rw e ((e, All-le s y ss e h.0), h)
  | inr e ↦ rw e (
    All-insert_sorted y s ss (ground (arith, text_le_total s y)) h.0,
    insert_sorted-IsSorted s ss h.1,
  )
]

-- Sorting puts the names in order.
pub sort_names-IsSorted : (ss : List Text) → IsSorted (sort_names ss)
unfolding sort_names
sort_names-IsSorted [] = tt
sort_names-IsSorted (s ∷ ss) = insert_sorted-IsSorted s (sort_names ss) (sort_names-IsSorted ss)

-- No name occurs twice.
abbrev pub IsUnique : List Text → Type 0
IsUnique [] = Unit
IsUnique (s ∷ ss) = (contains_name ss s ≡ false) × IsUnique ss

-- Some entry normalises to the name.
abbrev pub names_unit : List Text → Text → Bool
names_unit [] name = false
names_unit (s ∷ ss) name = text_eq (normalize_name s) name || names_unit ss name

-- The names put out are those of the list that are neither empty nor seen before.
contains_name-unique_from :
    (seen ss : List Text) (x : Text)
    → contains_name (unique_from seen ss) x
      ≡ (not (text_eq x []) && (not (contains_name seen x) && names_unit ss x))
unfolding unique_from contains_name
contains_name-unique_from seen [] x = ground arith
contains_name-unique_from seen (s ∷ ss) x =
    let name = normalize_name s in
    ground (
      arith,
      text_eq_iff name x,
      text_eq_iff name [],
      text_eq_iff x [],
      contains_name-unique_from seen ss x,
      contains_name-unique_from (name ∷ seen) ss x,
    )

unique_from-IsUnique : (seen ss : List Text) → IsUnique (unique_from seen ss)
unfolding unique_from
unique_from-IsUnique seen [] = tt
unique_from-IsUnique seen (s ∷ ss) =
    let name = normalize_name s in
    elim (Bool-cases (text_eq name [])) [
      | inl e ↦ rw e (unique_from-IsUnique seen ss)
      | inr e ↦ elim (Bool-cases (contains_name seen name)) [
        | inl f ↦ rw (e, f) (unique_from-IsUnique seen ss)
        | inr f ↦
            rw (e, f)
              (
                ground (
                  arith,
                  contains_name-unique_from (name ∷ seen) ss name,
                  contains_name_self name seen,
                ),
                unique_from-IsUnique (name ∷ seen) ss,
              )
      ]
    ]

-- `uniqueStable` puts out exactly the normalised names of its entries, without the empty name.
pub contains_name-unique_stable :
    (ss : List Text) (x : Text)
    → contains_name (unique_stable ss) x ≡ (not (text_eq x []) && names_unit ss x)
unfolding unique_stable contains_name
contains_name-unique_stable ss x = contains_name-unique_from [] ss x

-- `uniqueStable` puts out no name twice.
pub unique_stable-IsUnique : (ss : List Text) → IsUnique (unique_stable ss)
unfolding unique_stable
unique_stable-IsUnique ss = unique_from-IsUnique [] ss

-- Every name of the list is normalised and not empty.
abbrev pub IsNormal : List Text → Type 0
IsNormal = All (λ s. (normalize_name s ≡ s) × (text_eq s [] ≡ false))

unique_from-IsNormal : (seen ss : List Text) → IsNormal (unique_from seen ss)
unfolding unique_from
unique_from-IsNormal seen [] = tt
unique_from-IsNormal seen (s ∷ ss) =
    let name = normalize_name s in
    elim (Bool-cases (text_eq name [])) [
      | inl e ↦ rw e (unique_from-IsNormal seen ss)
      | inr e ↦ elim (Bool-cases (contains_name seen name)) [
        | inl f ↦ rw (e, f) (unique_from-IsNormal seen ss)
        | inr f ↦ rw (e, f) ((normalize_name_idem s, e), unique_from-IsNormal (name ∷ seen) ss)
      ]
    ]

pub unique_stable-IsNormal : (ss : List Text) → IsNormal (unique_stable ss)
unfolding unique_stable
unique_stable-IsNormal ss = unique_from-IsNormal [] ss

pub names_unit_normal :
    (ss : List Text) (x : Text) → IsNormal ss → names_unit ss x ≡ contains_name ss x
unfolding contains_name
names_unit_normal [] x h = refl
names_unit_normal (s ∷ ss) x h = rw (h.0.0, names_unit_normal ss x h.1)

later :
    (s : Text) (seen ss : List Text)
    → contains_name ss s ≡ false
    → ((x : Text) → contains_name (s ∷ ss) x ≡ true → contains_name seen x ≡ false)
    → (x : Text) → contains_name ss x ≡ true
    → contains_name (s ∷ seen) x ≡ false
unfolding contains_name
later s seen ss fresh new x h = ground (arith, text_eq_iff s x, new x)

-- Of a list of normal names that are all different `uniqueStable` changes nothing.
unique_from_id :
    (seen ss : List Text)
    → IsNormal ss
    → IsUnique ss
    → ((x : Text) → contains_name ss x ≡ true → contains_name seen x ≡ false)
    → unique_from seen ss ≡ ss
unfolding unique_from
unique_from_id seen [] n u new = refl
unique_from_id seen (s ∷ ss) n u new =
    rw (n.0.0, n.0.1, new s (contains_name_self s ss))
      (ap (λ r. s ∷ r) (unique_from_id (s ∷ seen) ss n.1 u.1 (later s seen ss u.0 new)))

-- A second `uniqueStable` changes nothing.
unique_stable_idem : (ss : List Text) → unique_stable (unique_stable ss) ≡ unique_stable ss
unfolding unique_stable
unique_stable_idem ss =
    unique_from_id [] (unique_from [] ss) (unique_from-IsNormal [] ss) (unique_from-IsUnique [] ss)
      (λ x h. unfold contains_name in refl)
