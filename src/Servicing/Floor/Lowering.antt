-- ===== src/Servicing/Floor/Lowering.antt =====
-- Floors within one another, and the builds that they admit.
use winunitd.Common.{
  Bool, true, false, ◌&&◌, ◌||◌, not, ◌≡◌, refl, ◌≢◌, Option, none, some, List, [], ◌∷◌, ◌++◌,
  arith, filter, ap, sym, ◌∙◌,
}
use winunitd.Common.Order.{Ordering, Chain, flip}
use winunitd.Common.Text.{Text, text_eq_iff}
use winunitd.Core.Names.{contains_name, sort_names}
use winunitd.Core.Names.Laws.{contains_name-sort_names, contains_name_self}
use winunitd.Servicing.Release.{Release, parse_release, compare_releases}
use winunitd.Servicing.Release.Ordered.{Chain-compare_releases, flip-compare_releases}
use winunitd.Servicing.Floor.{
  Floor, Build, not_above, version_within, features_within, within, compared_reasons,
  version_reasons, feature_reasons, clean_reasons, evaluate,
}

append_nil_parts : {A : Type 0} (xs ys : List A) → xs ++ ys ≡ [] → (xs ≡ []) × (ys ≡ [])
append_nil_parts [] ys h = (refl, h)
append_nil_parts (x ∷ xs) ys h = cc

below_trans :
    (o p q q' : Ordering)
    → Chain o p q
    → o ≢ Ordering.gt
    → p ≢ Ordering.gt
    → flip q ≡ q'
    → q' ≢ Ordering.lt
below_trans o p q q' h a b e = ground arith

compared_lower :
    (min was got : Option Release)
    → not_above min was ≡ true
    → compared_reasons was got ≡ []
    → compared_reasons min got ≡ []
unfolding not_above compared_reasons
compared_lower (some m) (some w) none h k = cc
compared_lower (some m) (some w) (some g) h k = ground (
  arith,
  below_trans (compare_releases m w) (compare_releases w g) (compare_releases m g)
      (compare_releases g m) (Chain-compare_releases m w g),
  flip-compare_releases m g,
  flip-compare_releases w g,
)
compared_lower none was got h k = cc
compared_lower (some m) none got h k = cc

version_lower :
    (min was version : Text)
    → version_within min was ≡ true
    → version_reasons was version ≡ []
    → version_reasons min version ≡ []
unfolding version_within version_reasons
version_lower [] was version h k = refl
version_lower (c ∷ s) [] version h k = cc
version_lower (c ∷ s) (d ∷ t) version h k =
    compared_lower (parse_release (c ∷ s)) (parse_release (d ∷ t)) (parse_release version) h k

contains_name-filter :
    (known xs : List Text) (x : Text)
    → contains_name (filter (λ y. not (contains_name known y)) xs) x
      ≡ (contains_name xs x && not (contains_name known x))
unfolding filter contains_name
contains_name-filter known [] x = ground arith
contains_name-filter known (y ∷ ys) x =
    ground (arith, contains_name-filter known ys x, text_eq_iff y x, ap (contains_name known))

no_sorted : (xs : List Text) (x : Text) → sort_names xs ≡ [] → contains_name xs x ≡ false
no_sorted xs x h = sym (contains_name-sort_names xs x) ∙ ap (λ ys. contains_name ys x) h ∙ empty x
  where
    empty : (y : Text) → contains_name [] y ≡ false
    empty y = unfold contains_name in refl

-- A satisfied requirement names features that the build has.
features_known :
    (rs known : List Text) (x : Text)
    → feature_reasons rs (some known) ≡ []
    → contains_name rs x ≡ true
    → contains_name known x ≡ true
unfolding feature_reasons
features_known [] known x h m = unfold contains_name in cc m
features_known (r ∷ rs) known x h m = ground (
  arith,
  contains_name-filter known (r ∷ rs) x,
  no_sorted (filter (λ y. not (contains_name known y)) (r ∷ rs)) x,
)

within_contains :
    (rs was : List Text) (x : Text)
    → features_within rs was ≡ true
    → contains_name rs x ≡ true
    → contains_name was x ≡ true
unfolding features_within contains_name
within_contains [] was x h m = cc
within_contains (r ∷ rs) was x h m =
    ground (arith, within_contains rs was x, text_eq_iff r x, ap (contains_name was))

contains_name_later :
    (r : Text) (rs : List Text) (x : Text)
    → contains_name rs x ≡ true
    → contains_name (r ∷ rs) x ≡ true
unfolding contains_name
contains_name_later r rs x h = ground arith

filter_nil :
    (known rs : List Text)
    → ((x : Text) → contains_name rs x ≡ true → contains_name known x ≡ true)
    → filter (λ y. not (contains_name known y)) rs ≡ []
unfolding filter
filter_nil known [] h = refl
filter_nil known (r ∷ rs) h =
    rw (h r (contains_name_self r rs))
      (filter_nil known rs (λ x m. h x (contains_name_later r rs x m)))

sorted_nil : sort_names [] ≡ []
unfolding sort_names
sorted_nil = refl

features_lower :
    (rs was : List Text) (features : Option (List Text))
    → features_within rs was ≡ true
    → feature_reasons was features ≡ []
    → feature_reasons rs features ≡ []
unfolding feature_reasons
features_lower [] was features h k = refl
features_lower (r ∷ rs) [] none h k = unfold features_within contains_name in cc h
features_lower (r ∷ rs) (w ∷ ws) none h k = cc
features_lower (r ∷ rs) was (some known) h k =
    rw
      (
        filter_nil known (r ∷ rs)
            (λ x m. features_known was known x k (within_contains (r ∷ rs) was x h m)),
        sorted_nil,
      )
      refl

clean_lower :
    (c was : Bool) (commit : Text) (modified : Option Bool)
    → (not c || was) ≡ true
    → clean_reasons was commit modified ≡ []
    → clean_reasons c commit modified ≡ []
unfolding clean_reasons
clean_lower false was commit modified h k = refl
clean_lower true true commit modified h k = k
clean_lower true false commit modified h k = cc

-- Every build that meets a floor also meets any floor within it.
pub within-evaluate :
    (f prev : Floor) (b : Build)
    → within f prev ≡ true
    → evaluate (some prev) b ≡ []
    → evaluate (some f) b ≡ []
unfolding within evaluate
within-evaluate f prev b h k =
    let parts =
      append_nil_parts (version_reasons prev.min_version b.version)
        (feature_reasons prev.require_features b.features
          ++ clean_reasons prev.require_clean_build b.commit b.modified)
        k in
    let later =
      append_nil_parts (feature_reasons prev.require_features b.features)
        (clean_reasons prev.require_clean_build b.commit b.modified) parts.1 in
    rw
      (
        version_lower f.min_version prev.min_version b.version (ground arith) parts.0,
        features_lower f.require_features prev.require_features b.features (ground arith) later.0,
        clean_lower f.require_clean_build prev.require_clean_build b.commit b.modified
            (ground arith) later.1,
      )
      refl
