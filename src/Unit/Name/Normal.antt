-- ===== src/Unit/Name/Normal.antt =====
-- Normalised names.
use winunitd.Common.{
  ℕ, ◌≡◌, refl, [], ◌∷◌, ◌++◌, true, Bool, arith, not, Bool-cases, inl, inr, ap, ◌≢◌,
}
use winunitd.Common.Text.{
  Text, bytes, lower, to_lower, is_space, trim_left, trim_right, trim_space, has_suffix,
  text_eq_refl,
}
use winunitd.Unit.Name.{kind_from_name, has_kind, qualified, normalize_name}

lower_idem : (c : ℕ) → lower (lower c) ≡ lower c
unfolding lower
lower_idem c = ground arith

is_space-lower : (c : ℕ) → is_space (lower c) ≡ is_space c
unfolding lower is_space
is_space-lower c = ground arith

to_lower_idem : (s : Text) → to_lower (to_lower s) ≡ to_lower s
unfolding to_lower
to_lower_idem [] = refl
to_lower_idem (c ∷ s) = ground (arith, lower_idem c, to_lower_idem s)

trim_left-to_lower : (s : Text) → trim_left (to_lower s) ≡ to_lower (trim_left s)
unfolding trim_left to_lower
trim_left-to_lower [] = refl
trim_left-to_lower (c ∷ s) = ground (arith, is_space-lower c, trim_left-to_lower s)

trim_right-to_lower : (s : Text) → trim_right (to_lower s) ≡ to_lower (trim_right s)
unfolding trim_right to_lower
trim_right-to_lower [] = refl
trim_right-to_lower (c ∷ s) = ground (arith, is_space-lower c, trim_right-to_lower s)

trim_right_idem : (s : Text) → trim_right (trim_right s) ≡ trim_right s
unfolding trim_right
trim_right_idem [] = refl
trim_right_idem (c ∷ s) = ground (arith, trim_right_idem s)

trim_left_idem : (s : Text) → trim_left (trim_left s) ≡ trim_left s
unfolding trim_left
trim_left_idem [] = refl
trim_left_idem (c ∷ s) = ground (arith, trim_left_idem s)

-- The first byte is no space.
abbrev pub starts_solid : Text → Bool
starts_solid [] = true
starts_solid (c ∷ s) = not (is_space c)

starts_solid-trim_left : (s : Text) → starts_solid (trim_left s) ≡ true
unfolding trim_left
starts_solid-trim_left [] = refl
starts_solid-trim_left (c ∷ s) = ground (arith, starts_solid-trim_left s)

trim_left_solid : (s : Text) → starts_solid s ≡ true → trim_left s ≡ s
unfolding trim_left
trim_left_solid [] h = refl
trim_left_solid (c ∷ s) h = ground arith

starts_solid-trim_right : (s : Text) → starts_solid s ≡ true → starts_solid (trim_right s) ≡ true
unfolding trim_right
starts_solid-trim_right [] h = refl
starts_solid-trim_right (c ∷ s) h = ground arith

pub starts_solid-trim_space : (s : Text) → starts_solid (trim_space s) ≡ true
unfolding trim_space
starts_solid-trim_space s = starts_solid-trim_right (trim_left s) (starts_solid-trim_left s)

starts_solid-append : (s t : Text) → starts_solid s ≡ true → s ≢ [] → starts_solid (s ++ t) ≡ true
starts_solid-append [] t h n = absurd (n refl)
starts_solid-append (c ∷ s) t h n = h

trim_space_idem : (s : Text) → trim_space (trim_space s) ≡ trim_space s
unfolding trim_space
trim_space_idem s =
    let solid = starts_solid-trim_right (trim_left s) (starts_solid-trim_left s) in
    rw (trim_left_solid (trim_right (trim_left s)) solid) (trim_right_idem (trim_left s))

trim_space-to_lower : (s : Text) → trim_space (to_lower s) ≡ to_lower (trim_space s)
unfolding trim_space
trim_space-to_lower s = rw (trim_left-to_lower, trim_right-to_lower)

-- A text that trimming and lowering leave alone.
clean : Text → Text
clean s = to_lower (trim_space s)

clean_idem : (s : Text) → clean (clean s) ≡ clean s
unfolding clean
clean_idem s = rw (trim_space-to_lower, trim_space_idem, to_lower_idem)

starts_solid-to_lower : (s : Text) → starts_solid (to_lower s) ≡ starts_solid s
unfolding to_lower
starts_solid-to_lower [] = refl
starts_solid-to_lower (c ∷ s) = ground (arith, is_space-lower c)

starts_solid-clean : (s : Text) → starts_solid (clean s) ≡ true
unfolding clean trim_space
starts_solid-clean s =
    rw starts_solid-to_lower (starts_solid-trim_right (trim_left s) (starts_solid-trim_left s))

trim_right-append : (s t : Text) → trim_right t ≡ t → t ≢ [] → trim_right (s ++ t) ≡ s ++ t
unfolding trim_right
trim_right-append [] t h n = h
trim_right-append (c ∷ s) [] h n = absurd (n refl)
trim_right-append (c ∷ []) (d ∷ t) h n = ground (arith, trim_right-append [] (d ∷ t) h n)
trim_right-append (c ∷ e ∷ s) (d ∷ t) h n = ground (arith, trim_right-append (e ∷ s) (d ∷ t) h n)

to_lower-append : (s t : Text) → to_lower (s ++ t) ≡ to_lower s ++ to_lower t
unfolding to_lower
to_lower-append [] t = refl
to_lower-append (c ∷ s) t = ap (λ r. lower c ∷ r) (to_lower-append s t)

has_suffix-append : (s t : Text) → has_suffix (s ++ t) t ≡ true
unfolding has_suffix
has_suffix-append [] [] = refl
has_suffix-append [] (c ∷ t) = ground (arith, text_eq_refl (c ∷ t))
has_suffix-append (c ∷ s) t = ground (arith, has_suffix-append s t)

dot_service : trim_right (bytes ".service") ≡ bytes ".service"
unfolding trim_right
dot_service = refl

lower-dot_service : to_lower (bytes ".service") ≡ bytes ".service"
unfolding to_lower
lower-dot_service = refl

has_kind_of_suffix :
    (s : Text) → has_suffix (to_lower s) (bytes ".service") ≡ true → has_kind s ≡ true
unfolding has_kind
has_kind_of_suffix s h = rw (h, has_kind, kind_from_name)

-- A text with the suffix has a kind.
has_kind-service : (s : Text) → to_lower s ≡ s → has_kind (s ++ bytes ".service") ≡ true
has_kind-service s h = has_kind_of_suffix (s ++ bytes ".service") (
    rw (to_lower-append s (bytes ".service"), h, lower-dot_service)
      (has_suffix-append s (bytes ".service")))

-- The parts of `clean s ≡ s` that are needed behind an appended suffix.
clean-service :
    (s : Text)
    → starts_solid s ≡ true
    → to_lower s ≡ s
    → s ≢ []
    → clean (s ++ bytes ".service") ≡ s ++ bytes ".service"
unfolding clean trim_space
clean-service s solid low n = rw (
  trim_left_solid (s ++ bytes ".service") (starts_solid-append s (bytes ".service") solid n),
  trim_right-append s (bytes ".service") dot_service (λ e. cc),
  to_lower-append s (bytes ".service"),
  low,
  lower-dot_service,
)

-- What `qualified` makes of a clean text is clean, and has a kind unless it is empty.
qualified-clean :
    (s : Text)
    → clean s ≡ s
    → starts_solid s ≡ true
    → to_lower s ≡ s
    → qualified (clean (qualified s)) ≡ qualified s
unfolding qualified
qualified-clean [] h solid low = rw h
qualified-clean (c ∷ s) h solid low = elim (Bool-cases (has_kind (c ∷ s))) [
  | inl e ↦ rw (e, h, e)
  | inr e ↦ rw (e, clean-service (c ∷ s) solid low (λ p. cc), has_kind-service (c ∷ s) low)
]

to_lower-clean : (s : Text) → to_lower (clean s) ≡ clean s
unfolding clean
to_lower-clean s = to_lower_idem (trim_space s)

-- Normalising a normalised name changes nothing.
pub normalize_name_idem : (s : Text) → normalize_name (normalize_name s) ≡ normalize_name s
unfolding normalize_name clean
normalize_name_idem s =
    qualified-clean (clean s) (clean_idem s) (starts_solid-clean s) (to_lower-clean s)

qualified-has_kind : (s : Text) → to_lower s ≡ s → qualified s ≢ [] → has_kind (qualified s) ≡ true
unfolding qualified
qualified-has_kind [] low n = absurd (n refl)
qualified-has_kind (c ∷ s) low n = elim (Bool-cases (has_kind (c ∷ s))) [
  | inl e ↦ rw (e, e)
  | inr e ↦ rw e (has_kind-service (c ∷ s) low)
]

-- A normalised name that is not empty has one of the kinds.
normalize_name-has_kind : (s : Text) → normalize_name s ≢ [] → has_kind (normalize_name s) ≡ true
unfolding normalize_name clean
normalize_name-has_kind s = qualified-has_kind (clean s) (to_lower-clean s)
