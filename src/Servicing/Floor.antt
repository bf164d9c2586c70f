-- ===== src/Servicing/Floor.antt =====
-- internal/servicing/floor.go: the compatibility floor. The JSON of a floor record and the file it
-- is in are not modelled: what `ReadFloor` returns is an argument.
pub mod Lowering
use winunitd.Common.{
  ℕ, Bool, true, false, ◌&&◌, ◌||◌, not, Option, none, some, List, [], ◌∷◌, ◌++◌, if◌then◌else◌,
  leb, ltb, ◌==◌, length, filter,
}
use winunitd.Common.Decimal.{is_digit}
use winunitd.Common.Int.{ℤ, pos}
use winunitd.Common.Order.{Ordering}
use winunitd.Common.Result.{Result, ok, err}
use winunitd.Common.Text.{Text, text_eq}
use winunitd.Core.Names.{contains_name, sort_names}
use winunitd.Servicing.Release.{Release, parse_release, compare_releases}

pub record Floor : Type 0 where
  pub schema : ℤ
  pub min_version : Text
  pub require_features : List Text
  pub require_clean_build : Bool

-- `Build`. `features` is none where the binary reports no list.
pub record Build : Type 0 where
  pub version : Text
  pub commit : Text
  pub modified : Option Bool
  pub features : Option (List Text)

pub data FloorError : Type 0 where
  bad_schema no_requirement bad_release too_many_features : FloorError
  bad_feature repeated_feature : Text → FloorError

-- The reasons of a verdict, with what their texts name.
pub data Reason : Type 0 where
  floor_version_invalid build_version_invalid version_below : Reason
  reports_no_features missing_features : List Text → Reason
  no_revision state_unknown modified_tree : Reason

abbrev pub floor_schema : ℕ
floor_schema = 1

abbrev max_floor_features : ℕ
max_floor_features = 64

abbrev max_feature_bytes : ℕ
max_feature_bytes = 64

abbrev is_lower_letter : ℕ → Bool
is_lower_letter c = leb b'a' c && leb c b'z'

-- The rest of a feature name, behind a letter or digit or, where `fresh`, behind a hyphen.
unfoldable pub feature_rest : (fresh : Bool) → Text → Bool
unfolding is_digit
feature_rest fresh [] = not fresh
feature_rest fresh (c ∷ s) =
    let word = feature_rest false s in
    let hyphen = feature_rest true s in
    if is_lower_letter c || is_digit c
    then word
    else if c == b'-' && not fresh
    then hyphen
    else false

-- `featureName.MatchString`: ^[a-z][a-z0-9]*(-[a-z0-9]+)*$.
unfoldable pub is_feature_name : Text → Bool
unfolding feature_rest
is_feature_name [] = false
is_feature_name (c ∷ s) = is_lower_letter c && feature_rest false s

unfoldable pub check_features : List Text → List Text → Option FloorError
unfolding is_feature_name
check_features seen [] = none
check_features seen (name ∷ names) =
    let rest = check_features (seen ++ name ∷ []) names in
    if ltb max_feature_bytes (length name) || not (is_feature_name name)
    then some (bad_feature name)
    else if contains_name seen name
    then some (repeated_feature name)
    else rest

abbrev no_texts : List Text → Bool
no_texts [] = true
no_texts (_ ∷ _) = false

abbrev pub is_schema : ℤ → Bool
is_schema (pos n) = n == floor_schema
is_schema _ = false

abbrev pub is_release : Text → Bool
is_release s = elim (parse_release s) [ none ↦ false | some r ↦ true ]

-- `Validate`, of a floor that is not nil.
unfoldable pub validate_floor : Floor → Option FloorError
unfolding check_features
validate_floor f =
    if not (is_schema f.schema)
    then some bad_schema
    else if text_eq f.min_version [] && (no_texts f.require_features && not f.require_clean_build)
    then some no_requirement
    else if not (text_eq f.min_version []) && not (is_release f.min_version)
    then some bad_release
    else if ltb max_floor_features (length f.require_features)
    then some too_many_features
    else check_features [] f.require_features

-- Whether neither parses to nil and the first does not exceed the second.
unfoldable pub not_above : Option Release → Option Release → Bool
not_above (some a) (some b) = elim (compare_releases a b) [ Ordering.gt ↦ false | _ ↦ true ]
not_above _ _ = false

-- The part of `Within` about the versions.
unfoldable pub version_within : Text → Text → Bool
unfolding not_above
version_within [] was = true
version_within (c ∷ s) [] = false
version_within (c ∷ s) (d ∷ t) = not_above (parse_release (c ∷ s)) (parse_release (d ∷ t))

unfoldable pub features_within : List Text → List Text → Bool
features_within [] known = true
features_within (name ∷ names) known = contains_name known name && features_within names known

-- `Within`, of a previous floor that is not nil.
unfoldable pub within : Floor → Floor → Bool
unfolding version_within features_within
within f prev =
    version_within f.min_version prev.min_version
    && (features_within f.require_features prev.require_features
        && (not f.require_clean_build || prev.require_clean_build))

unfoldable pub compared_reasons : Option Release → Option Release → List Reason
compared_reasons none got = floor_version_invalid ∷ []
compared_reasons (some min) none = build_version_invalid ∷ []
compared_reasons (some min) (some got) = elim (compare_releases got min) [
  | Ordering.lt ↦ version_below ∷ []
  | _ ↦ []
]

unfoldable pub version_reasons : Text → Text → List Reason
unfolding compared_reasons
version_reasons [] version = []
version_reasons (c ∷ s) version = compared_reasons (parse_release (c ∷ s)) (parse_release version)

unfoldable pub feature_reasons : List Text → Option (List Text) → List Reason
feature_reasons [] features = []
feature_reasons (r ∷ rs) none = reports_no_features (sort_names (r ∷ rs)) ∷ []
feature_reasons (r ∷ rs) (some features) =
    let missing = sort_names (filter (λ name. not (contains_name features name)) (r ∷ rs)) in
    if no_texts missing then [] else missing_features missing ∷ []

unfoldable pub clean_reasons : Bool → Text → Option Bool → List Reason
clean_reasons false commit modified = []
clean_reasons true [] modified = no_revision ∷ []
clean_reasons true (c ∷ s) none = state_unknown ∷ []
clean_reasons true (c ∷ s) (some true) = modified_tree ∷ []
clean_reasons true (c ∷ s) (some false) = []

-- `Evaluate`: the reasons of the verdict, which is satisfied where there are none.
unfoldable pub evaluate : Option Floor → Build → List Reason
unfolding version_reasons feature_reasons clean_reasons
evaluate none b = []
evaluate (some f) b =
    version_reasons f.min_version b.version
    ++ (feature_reasons f.require_features b.features
        ++ clean_reasons f.require_clean_build b.commit b.modified)

-- What holds admission: a record that cannot be used, or the reasons.
pub data Hold : Type 0 where
  unusable : Hold
  below_floor : List Reason → Hold

-- `AdmissionHold`, of what `ReadFloor` returns; none is "".
unfoldable pub admission_hold : Result FloorError (Option Floor) → Build → Option Hold
admission_hold (err e) b = some unusable
admission_hold (ok f) b = elim (evaluate f b) [ [] ↦ none | r ∷ rs ↦ some (below_floor (r ∷ rs)) ]
