-- ===== src/Core/Graph/Waits.antt =====
-- What the ordering edges of a built graph are.
use winunitd.Common.{
  ℕ, ◌+◌, Bool, true, false, ◌||◌, ◌&&◌, Option, none, some, List, [], ◌∷◌, ◌++◌, map, filter, All,
  if◌then◌else◌, ◌≡◌, refl, arith, Bool-cases, inl, inr, ◌∙◌, ap,
}
use winunitd.Common.Result.{ok}
use winunitd.Common.Text.{Text, text_eq, text_eq_iff}
use winunitd.Core.Names.{contains_name, unique_stable}
use winunitd.Core.Names.Laws.{
  contains_name-append, contains_name-unique_stable, unique_stable-IsNormal, IsNormal,
  names_unit_normal,
}
use winunitd.Core.Graph.{
  UnitSpec, Node, Graph, is_loaded, new_node, load, set_waits, add_wait, add_waits, reverse_before,
  build,
}

-- `name` is among the units that the node named `b` waits for.
abbrev pub waits : Graph → Text → Text → Bool
waits [] b a = false
waits (n ∷ g) b a = if text_eq n.name b then contains_name n.waits_for a else waits g b a

-- Some node named `a` has `b` in its Before=.
abbrev pub puts_before : Graph → Text → Text → Bool
puts_before [] a b = false
puts_before (n ∷ g) a b = (text_eq n.name a && contains_name n.before b) || puts_before g a b

is_loaded-add_wait :
    (later name : Text) (g : Graph) (x : Text) → is_loaded (add_wait later name g) x ≡ is_loaded g x
unfolding is_loaded add_wait
is_loaded-add_wait later name [] x = refl
is_loaded-add_wait later name (o ∷ g) x = ground (arith, is_loaded-add_wait later name g x)

waits-add_wait :
    (later name : Text) (g : Graph) (b a : Text)
    → waits (add_wait later name g) b a
      ≡ (waits g b a || (is_loaded g b && (text_eq later b && text_eq name a)))
unfolding is_loaded add_wait contains_name
waits-add_wait later name [] b a = refl
waits-add_wait later name (o ∷ g) b a = ground (
  arith,
  waits-add_wait later name g b a,
  text_eq_iff o.name later,
  text_eq_iff o.name b,
  text_eq_iff later b,
  text_eq_iff name a,
  contains_name-append o.waits_for (name ∷ []) a,
)

-- What `add_wait` keeps, the loops over `add_wait` keep.
module _ {ℓ} {A : Type ℓ} (view : Graph → A)
    (keep : (later name : Text) (g : Graph) → view (add_wait later name g) ≡ view g) where
  keep-add_waits :
      (name : Text) (before : List Text) (g : Graph) → view (add_waits name before g) ≡ view g
  unfolding add_waits
  keep-add_waits name [] g = refl
  keep-add_waits name (later ∷ before) g =
      keep-add_waits name before (add_wait later name g) ∙ keep later name g

  keep-reverse_before : (ns g : Graph) → view (reverse_before ns g) ≡ view g
  unfolding reverse_before
  keep-reverse_before [] g = refl
  keep-reverse_before (n ∷ ns) g =
      keep-reverse_before ns (add_waits n.name n.before g) ∙ keep-add_waits n.name n.before g

is_loaded-add_waits :
    (name : Text) (before : List Text) (g : Graph) (x : Text)
    → is_loaded (add_waits name before g) x ≡ is_loaded g x
is_loaded-add_waits name before g x =
    keep-add_waits (λ h. is_loaded h x) (λ l n h. is_loaded-add_wait l n h x) name before g

waits-add_waits :
    (name : Text) (before : List Text) (g : Graph) (b a : Text)
    → waits (add_waits name before g) b a
      ≡ (waits g b a || (is_loaded g b && (contains_name before b && text_eq name a)))
unfolding add_waits contains_name
waits-add_waits name [] g b a = ground arith
waits-add_waits name (later ∷ before) g b a = ground (
  arith,
  waits-add_waits name before (add_wait later name g) b a,
  waits-add_wait later name g b a,
  is_loaded-add_wait later name g b,
)

waits-reverse_before :
    (ns g : Graph) (b a : Text)
    → waits (reverse_before ns g) b a ≡ (waits g b a || (is_loaded g b && puts_before ns a b))
unfolding reverse_before
waits-reverse_before [] g b a = ground arith
waits-reverse_before (n ∷ ns) g b a = ground (
  arith,
  waits-reverse_before ns (add_waits n.name n.before g) b a,
  waits-add_waits n.name n.before g b a,
  is_loaded-add_waits n.name n.before g b,
)

-- The node named `b` declares `a` in its After=.
abbrev pub declares_after : Graph → Text → Text → Bool
declares_after [] b a = false
declares_after (n ∷ g) b a =
    if text_eq n.name b then contains_name n.after a else declares_after g b a

declares_after-add_wait :
    (later name : Text) (g : Graph) (b a : Text)
    → declares_after (add_wait later name g) b a ≡ declares_after g b a
unfolding add_wait
declares_after-add_wait later name [] b a = refl
declares_after-add_wait later name (o ∷ g) b a =
    ground (arith, declares_after-add_wait later name g b a)

puts_before-add_wait :
    (later name : Text) (g : Graph) (a b : Text)
    → puts_before (add_wait later name g) a b ≡ puts_before g a b
unfolding add_wait
puts_before-add_wait later name [] a b = refl
puts_before-add_wait later name (o ∷ g) a b = ground (arith, puts_before-add_wait later name g a b)

-- Each node's After= holds normal names.
abbrev HasNormalAfter : Graph → Type 0
HasNormalAfter = All (λ n. IsNormal n.after)

contains_name-filter :
    (p : Text → Bool) (xs : List Text) (x : Text)
    → contains_name (filter p xs) x ≡ (contains_name xs x && p x)
unfolding contains_name filter
contains_name-filter p [] x = refl
contains_name-filter p (y ∷ xs) x = elim (Bool-cases (text_eq y x)) [
  | inl e ↦
      let same : y ≡ x = (text_eq_iff y x).0 e in
      ground (arith, contains_name-filter p xs x, ap p same)
  | inr e ↦ ground (arith, contains_name-filter p xs x)
]

IsNormal-filter : (p : Text → Bool) (xs : List Text) → IsNormal xs → IsNormal (filter p xs)
unfolding filter
IsNormal-filter p [] h = tt
IsNormal-filter p (x ∷ xs) h = elim (Bool-cases (p x)) [
  | inl e ↦ rw e (h.0, IsNormal-filter p xs h.1)
  | inr e ↦ rw e (IsNormal-filter p xs h.1)
]

normal_nonempty :
    (xs : List Text) (x : Text) → IsNormal xs → contains_name xs x ≡ true → text_eq x [] ≡ false
unfolding contains_name
normal_nonempty [] x h e = cc
normal_nonempty (y ∷ xs) x h e = elim (Bool-cases (text_eq y x)) [
  | inl same ↦ let p : y ≡ x = (text_eq_iff y x).0 same in rw (← p) h.0.1
  | inr other ↦ normal_nonempty xs x h.1 (rw other at e)
]

-- `uniqueStable` keeps the members of a list of normal names.
pub contains_name-unique_stable_normal :
    (xs : List Text) (x : Text)
    → IsNormal xs
    → contains_name (unique_stable xs) x ≡ contains_name xs x
contains_name-unique_stable_normal xs x h =
    ground
      (arith, contains_name-unique_stable xs x, names_unit_normal xs x h, normal_nonempty xs x h)

waits-set_waits :
    (all g : Graph) (b a : Text)
    → HasNormalAfter g
    → waits (map (set_waits all) g) b a ≡ (declares_after g b a && is_loaded all a)
unfolding set_waits
waits-set_waits all [] b a h = refl
waits-set_waits all (n ∷ g) b a h = ground (
  arith,
  waits-set_waits all g b a h.1,
  contains_name-filter (is_loaded all) n.after a,
  contains_name-unique_stable_normal (filter (is_loaded all) n.after) a
      (IsNormal-filter (is_loaded all) n.after h.0),
)

keep-set_waits :
    (all g : Graph) (b a : Text)
    → (is_loaded (map (set_waits all) g) b ≡ is_loaded g b)
      × (declares_after (map (set_waits all) g) b a ≡ declares_after g b a)
      × (puts_before (map (set_waits all) g) a b ≡ puts_before g a b)
unfolding set_waits is_loaded
keep-set_waits all [] b a = (refl, refl, refl)
keep-set_waits all (n ∷ g) b a = ground (arith, keep-set_waits all g b a)

HasNormalAfter-snoc :
    (g : Graph) (n : Node) → HasNormalAfter g → IsNormal n.after → HasNormalAfter (g ++ n ∷ [])
HasNormalAfter-snoc [] n h k = (k, tt)
HasNormalAfter-snoc (m ∷ g) n h k = (h.0, HasNormalAfter-snoc g n h.1 k)

-- A build that goes past a unit loads it.
load-some :
    (i : ℕ) (g : Graph) (u : UnitSpec) (us : List (Option UnitSpec)) (r : Graph)
    → load i g (some u ∷ us) ≡ ok r
    → load (i + 1) (g ++ new_node u ∷ []) us ≡ ok r
unfolding load
load-some i g u us r e = ground arith

load-HasNormalAfter :
    (i : ℕ) (g : Graph) (us : List (Option UnitSpec)) (r : Graph)
    → HasNormalAfter g
    → load i g us ≡ ok r
    → HasNormalAfter r
unfolding load
load-HasNormalAfter i g [] r h e = let same : g ≡ r = cc in rw (← same) h
load-HasNormalAfter i g (none ∷ us) r h e = cc
load-HasNormalAfter i g (some u ∷ us) r h e =
    load-HasNormalAfter (i + 1) (g ++ new_node u ∷ []) us r
      (HasNormalAfter-snoc g (new_node u) h (unfold new_node in unique_stable-IsNormal u.after))
      (load-some i g u us r e)

not_declared : (g : Graph) (b a : Text) → is_loaded g b ≡ false → declares_after g b a ≡ false
unfolding is_loaded
not_declared [] b a h = refl
not_declared (n ∷ g) b a h = ground (arith, not_declared g b a)

build-eq-ok :
    (units : List (Option UnitSpec)) (g : Graph)
    → build units ≡ ok g
    → (g₀ : Graph) × (load 0 [] units ≡ ok g₀) × (g ≡ reverse_before g₀ (map (set_waits g₀) g₀))
unfolding build
build-eq-ok units g h = ground arith

-- In the graph of a build, a unit waits for another exactly if both are loaded, and the one lists
-- the other in After= or the other lists it in Before=.
pub build_waits :
    (units : List (Option UnitSpec)) (g : Graph) (b a : Text)
    → build units ≡ ok g
    → waits g b a
      ≡ (is_loaded g b && ((declares_after g b a && is_loaded g a) || puts_before g a b))
build_waits units g b a h =
    let (g₀, loaded, e) = build-eq-ok units g h in
    let g₁ = map (set_waits g₀) g₀ in
    let kept = keep-set_waits g₀ g₀ b a in
    let kept_a = keep-set_waits g₀ g₀ a a in
    let normal = load-HasNormalAfter 0 [] units g₀ tt loaded in
    rw e (
      ground (
        arith,
        waits-reverse_before g₀ g₁ b a,
        waits-set_waits g₀ g₀ b a normal,
        keep-reverse_before (λ k. is_loaded k b) (λ l n k. is_loaded-add_wait l n k b) g₀ g₁,
        keep-reverse_before (λ k. is_loaded k a) (λ l n k. is_loaded-add_wait l n k a) g₀ g₁,
        keep-reverse_before (λ k. declares_after k b a) (λ l n k. declares_after-add_wait l n k b a)
            g₀ g₁,
        keep-reverse_before (λ k. puts_before k a b) (λ l n k. puts_before-add_wait l n k a b) g₀
            g₁,
        kept,
        kept_a,
        not_declared g₀ b a,
      ))
