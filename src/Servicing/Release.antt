-- ===== src/Servicing/Release.antt =====
-- internal/servicing/release.go: release strings, and their order by semantic versioning.
pub mod Ordered
use winunitd.Common.{
  ℕ, ◌^◌, Bool, true, false, ◌&&◌, ◌||◌, not, Option, none, some, List, [], ◌∷◌, if◌then◌else◌, leb,
  ltb, ◌==◌,
}
use winunitd.Common.Decimal.{all_digits, parse_uint, is_digit}
use winunitd.Common.Order.{Ordering, compare, then_by}
use winunitd.Common.Text.{Text, text_compare}
use winunitd.Common.Strings.{cut, split, only}

pub record Release : Type 0 where
  pub major : ℕ
  pub minor : ℕ
  pub patch : ℕ
  pub pre : List Text

-- A byte of `alnumHyphen`.
unfoldable pub alnum_hyphen : ℕ → Bool
unfolding is_digit
alnum_hyphen c =
    is_digit c || ((leb b'A' c && leb c b'Z') || ((leb b'a' c && leb c b'z') || c == b'-'))

-- Two bytes or more, the first of them 0.
abbrev leading_zero : Text → Bool
leading_zero (c ∷ d ∷ s) = c == b'0'
leading_zero _ = false

-- `strings.Trim(s, cutset) != ""` says that some byte of `s` is not in the set.
unfoldable pub numeric_identifier : Text → Option ℕ
unfolding parse_uint all_digits
numeric_identifier [] = none
numeric_identifier (c ∷ s) =
    if leading_zero (c ∷ s) || not (only is_digit (c ∷ s))
    then none
    else parse_uint (2 ^ 64) (c ∷ s)

abbrev is_some {ℓ} : {A : Type ℓ} → Option A → Bool
is_some none = false
is_some (some x) = true

unfoldable pub valid_prerelease_identifier : Text → Bool
unfolding numeric_identifier
valid_prerelease_identifier [] = false
valid_prerelease_identifier (c ∷ s) =
    let numeric = is_some (numeric_identifier (c ∷ s)) in
    if not (only alnum_hyphen (c ∷ s))
    then false
    else if only is_digit (c ∷ s)
    then numeric
    else true

abbrev all_of : (Text → Bool) → List Text → Bool
all_of p [] = true
all_of p (s ∷ ss) = p s && all_of p ss

-- An identifier of the build metadata.
abbrev valid_metadata : Text → Bool
valid_metadata [] = false
valid_metadata (c ∷ s) = only alnum_hyphen (c ∷ s)

-- The identifiers behind a separator that was found, or none where it was not.
abbrev identifiers : Option Text → List Text
identifiers none = []
identifiers (some s) = split b'.' s

-- The three numeric fields with the rest of the release.
unfoldable pub release_of : List Text → List Text → Option Release
release_of (a ∷ b ∷ c ∷ []) pre = elim (numeric_identifier a) [
  | none ↦ none
  | some major ↦ elim (numeric_identifier b) [
    | none ↦ none
    | some minor ↦ elim (numeric_identifier c) [
      | none ↦ none
      | some patch ↦ some (record { major = major; minor = minor; patch = patch; pre = pre })
    ]
  ]
]
release_of _ pre = none

-- `ParseRelease`; none is any of its errors.
unfoldable pub parse_release : Text → Option Release
unfolding release_of numeric_identifier valid_prerelease_identifier
parse_release s =
    let (before, metadata) = cut b'+' s in
    let (core, pre) = cut b'-' before in
    elim (release_of (split b'.' core) (identifiers pre)) [
      | none ↦ none
      | some r ↦
          if all_of valid_prerelease_identifier (identifiers pre)
            && all_of valid_metadata (identifiers metadata)
          then some r
          else none
    ]

-- `comparePrerelease`, of two identifiers with what `numericIdentifier` says of them.
unfoldable pub compare_identifiers : Option ℕ → Option ℕ → Text → Text → Ordering
compare_identifiers (some n) (some m) a b = compare n m
compare_identifiers (some n) none a b = Ordering.lt
compare_identifiers none (some m) a b = Ordering.gt
compare_identifiers none none a b = text_compare a b

unfoldable pub compare_prerelease : Text → Text → Ordering
unfolding compare_identifiers
compare_prerelease a b = compare_identifiers (numeric_identifier a) (numeric_identifier b) a b

-- The loop over the identifiers that both lists have, then the lengths.
unfoldable pub compare_lists : List Text → List Text → Ordering
compare_lists [] [] = Ordering.eq
compare_lists [] (b ∷ bs) = Ordering.lt
compare_lists (a ∷ as') [] = Ordering.gt
compare_lists (a ∷ as') (b ∷ bs) = then_by (compare_prerelease a b) (compare_lists as' bs)

-- A release without prerelease identifiers is above one with them.
unfoldable pub compare_pre : List Text → List Text → Ordering
compare_pre [] [] = Ordering.eq
compare_pre [] (b ∷ bs) = Ordering.gt
compare_pre (a ∷ as') [] = Ordering.lt
compare_pre (a ∷ as') (b ∷ bs) = compare_lists (a ∷ as') (b ∷ bs)

-- `Compare`: -1, 0 and 1 are lt, eq and gt.
unfoldable pub compare_releases : Release → Release → Ordering
compare_releases r o = then_by (compare r.major o.major) (
    then_by (compare r.minor o.minor) (then_by (compare r.patch o.patch) (compare_pre r.pre o.pre)))
