-- ===== src/Core/Cycle/Descent.antt =====
-- The depth-first search: its fuel, and what it reaches.
use winunitd.Common.{
  ℕ, zero, suc, ◌≤◌, ◌<◌, Bool, true, false, List, [], ◌∷◌, length, count, ◌≡◌, arith, All,
  Bool-cases, inl, inr, if◌then◌else◌,
}
use winunitd.Common.Text.{Text, text_eq, text_eq_refl}
use winunitd.Core.Names.{contains_name, sort_names}
use winunitd.Core.Names.Laws.{contains_name-sort_names, contains_name_self}
use winunitd.Core.Cycle.{
  gray, black, Search, Parents, set_parent, paint, Visit, spent, cycle, done, and_then, visit_edge,
  visit_edges, dfs, visit_root, visit_roots,
}
use winunitd.Core.Cycle.Walk.{IsCycle}
use winunitd.Core.Cycle.Climb.{reconstruct_cycle-IsCycle}
use winunitd.Core.Cycle.Colors.{Inv, is_white, root-Inv, enter-Inv, leave-Inv}
use winunitd.Core.Cycle.Counts.{
  count_le, count_lt, count_le_length, Color-cases, All-contains, contains_name-cons, All-members,
}

-- How many of the names are white.
abbrev pub whites : List Text → Search → ℕ
whites names s = count (λ n. is_white (s.color n)) names

module _ (inside : Text → Bool) (waits : Text → List Text) (names : List Text)
    (nonempty : (x : Text) → inside x ≡ true → text_eq x [] ≡ false)
    (listed : (x : Text) → inside x ≡ true → contains_name names x ≡ true) where
  -- What a call leaves: the gray names as before, and more black names in order.
  pub record Left (st order : List Text) (s : Search) : Type 0 where
    pub now : List Text
    pub inv : Inv inside waits s st now
    pub grows : (x : Text) → contains_name order x ≡ true → contains_name now x ≡ true

  -- The call ends within its fuel, with a cycle or in a state with `P`.
  abbrev pub Ends : (Search → Type 0) → Visit → Type 0
  Ends P spent = ⊥
  Ends P (cycle path) = IsCycle inside waits path
  Ends P (done s) = P s

  Ends-and_then :
      (P Q : Search → Type 0) (v : Visit) (f : Search → Visit)
      → Ends P v
      → ((s : Search) → P s → Ends Q (f s))
      → Ends Q (and_then v f)
  Ends-and_then P Q spent f h k = h
  Ends-and_then P Q (cycle path) f h k = h
  Ends-and_then P Q (done s) f h k = k s h

  Ends-weaken :
      (P Q : Search → Type 0) (v : Visit) → Ends P v → ((s : Search) → P s → Q s) → Ends Q v
  Ends-weaken P Q spent h k = h
  Ends-weaken P Q (cycle path) h k = h
  Ends-weaken P Q (done s) h k = k s h

  abbrev Left-trans :
      (st order : List Text) (s t : Search) (l : Left st order s)
      → Left st l.now t
      → Left st order t
  Left-trans st order s t l m = record {
    now = m.now;
    inv = m.inv;
    grows = λ x h. m.grows x (l.grows x h);
  }

  whites_le :
      (s t : Search) (st order : List Text)
      → Inv inside waits s st order
      → Left st order t
      → whites names t ≤ whites names s
  whites_le s t st order inv left =
      count_le (λ n. is_white (s.color n)) (λ n. is_white (t.color n)) names
        (λ x w.
          ground
            (arith, inv.grays x, inv.blacks x, left.inv.grays x, left.inv.blacks x, left.grows x))

  -- The call also left `v` black.
  abbrev Reached : Text → List Text → List Text → Search → Type 0
  Reached v st order s = (l : Left st order s) × (contains_name l.now v ≡ true)

  -- All of the names are outside, or black afterwards.
  abbrev AllCovered : Text → List Text → List Text → List Text → Search → Type 0
  AllCovered u st vs order t =
      (l : Left (u ∷ st) order t) × All (λ v. inside v ≡ true → contains_name l.now v ≡ true) vs

  module _ (visit : Search → Text → Visit) (f : ℕ) (u : Text) (st : List Text)
      (visits : (s : Search) (v : Text) (order : List Text)
        → Inv inside waits s (u ∷ st) order
        → is_white (s.color v) ≡ true
        → inside v ≡ true
        → contains_name (waits u) v ≡ true
        → whites names s ≤ f
        → Ends
            (Reached v (u ∷ st) order)
            (visit (record s { parent = set_parent s.parent v u }) v)) where
    abbrev Covers : Text → List Text → Search → Type 0
    Covers v order t =
        (l : Left (u ∷ st) order t) × (inside v ≡ true → contains_name l.now v ≡ true)

    abbrev stay :
        (s : Search) (order : List Text) → Inv inside waits s (u ∷ st) order → Left (u ∷ st) order s
    stay s order inv = record { now = order; inv = inv; grows = λ x m. m }

    -- One edge: its end is outside, or black afterwards.
    edge-Ends :
        (s : Search) (v : Text) (order : List Text)
        → Inv inside waits s (u ∷ st) order
        → contains_name (waits u) v ≡ true
        → whites names s ≤ f
        → Ends (Covers v order) (visit_edge inside waits visit u s v)
    unfolding visit_edge
    edge-Ends s v order inv e h = elim (Bool-cases (inside v)) [
      | inr o ↦ rw (o, visit_edge) (stay s order inv, λ i. ground arith)
      | inl i ↦ elim (Color-cases (s.color v)) [
        | inl w ↦
            rw (i, w, visit_edge)
              (Ends-weaken (Reached v (u ∷ st) order) (Covers v order)
                (visit (record s { parent = set_parent s.parent v u }) v)
                (visits s v order inv (rw w) i e h) (λ t r. (r.0, λ _. r.1)))
        | inr (inl g) ↦
            rw (i, g, visit_edge)
              (reconstruct_cycle-IsCycle inside waits nonempty s.parent u v st inv.chain inv.within
                (ground (arith, inv.grays v)) e i inv.fits)
        | inr (inr b) ↦ rw (i, b, visit_edge) (stay s order inv, λ _. ground (arith, inv.blacks v))
      ]
    ]

    -- All edges of `u` in turn.
    edges-Ends :
        (vs : List Text) (s : Search) (order : List Text)
        → Inv inside waits s (u ∷ st) order
        → All (λ v. contains_name (waits u) v ≡ true) vs
        → whites names s ≤ f
        → Ends (AllCovered u st vs order) (visit_edges inside waits visit u s vs)
    unfolding visit_edges
    edges-Ends [] s order inv es h = (stay s order inv, tt)
    edges-Ends (v ∷ vs) s order inv es h =
        Ends-and_then (Covers v order) (AllCovered u st (v ∷ vs) order)
          (visit_edge inside waits visit u s v) (λ t. visit_edges inside waits visit u t vs)
          (edge-Ends s v order inv es.0 h)
          (λ t c.
            Ends-weaken (AllCovered u st vs c.0.now) (AllCovered u st (v ∷ vs) order)
              (visit_edges inside waits visit u t vs)
              (edges-Ends vs t c.0.now c.0.inv es.1
                (omega (arith, whites_le s t (u ∷ st) order inv c.0)))
              (λ r d. (Left-trans (u ∷ st) order t r c.0 d.0, (λ i. d.0.grows v (c.1 i), d.1))))

  whites_enter :
      (s : Search) (v : Text) (parent : Parents)
      → is_white (s.color v) ≡ true
      → inside v ≡ true
      → whites names (paint (record s { parent = parent }) v gray) < whites names s
  whites_enter s v parent w i =
      count_lt (λ n. is_white (s.color n)) (λ n. is_white (if text_eq v n then gray else s.color n))
        names v (λ x h. ground arith) (listed v i) w (ground (arith, text_eq_refl v))

  -- With all of its successors covered, the name itself becomes black.
  close :
      (t : Search) (u : Text) (st order : List Text)
      → AllCovered u st (sort_names (waits u)) order t
      → Reached u st order (paint t u black)
  close t u st order (l, covered) = (
    record {
      now = u ∷ l.now;
      inv = leave-Inv inside waits t u st l.now l.inv (λ v e i.
          All-contains (λ w. inside w ≡ true → contains_name l.now w ≡ true) (sort_names (waits u))
            covered v (rw contains_name-sort_names e) i);
      grows = λ x m. contains_name-cons u l.now x (l.grows x m);
    },
    contains_name_self u l.now,
  )

  -- A call of `dfs` at a name just painted gray.
  dfs-Ends :
      (f : ℕ) (s : Search) (u : Text) (st order : List Text)
      → Inv inside waits (paint s u gray) (u ∷ st) order
      → whites names (paint s u gray) < f
      → Ends (Reached u st order) (dfs inside waits f s u)
  unfolding dfs
  dfs-Ends zero s u st order inv h = absurd (omega arith)
  dfs-Ends (suc f) s u st order inv h =
      Ends-and_then (AllCovered u st (sort_names (waits u)) order) (Reached u st order)
        (visit_edges inside waits (dfs inside waits f) u (paint s u gray) (sort_names (waits u)))
        (λ t. done (paint t u black))
        (edges-Ends (dfs inside waits f) f u st
          (λ t v now inv' w i e k.
            dfs-Ends f (record t { parent = set_parent t.parent v u }) v (u ∷ st) now
              (enter-Inv inside waits t u v st now inv' w i e)
              (omega (arith, whites_enter t v (set_parent t.parent v u) w i)))
          (sort_names (waits u)) (paint s u gray) order inv (All-members (waits u)) (omega arith))
        (λ t c. close t u st order c)

  -- Between two roots no name is gray.
  gray_root :
      (s : Search) (n : Text) (order : List Text)
      → Inv inside waits s [] order
      → s.color n ≡ gray
      → ⊥
  unfolding contains_name
  gray_root s n order inv g = ground (arith, inv.grays n)

  root-Ends :
      (f : ℕ) (s : Search) (n : Text) (order : List Text)
      → Inv inside waits s [] order
      → inside n ≡ true
      → length names ≤ f
      → Ends (Reached n [] order) (visit_root inside waits f s n)
  unfolding visit_root
  root-Ends f s n order inv i h = elim (Color-cases (s.color n)) [
    | inl w ↦
        rw (w, visit_root)
          (dfs-Ends f s n [] order (root-Inv inside waits s n order inv (rw w) i) (
            omega (
              arith,
              whites_enter s n s.parent (rw w) i,
              count_le_length (λ n. is_white (s.color n)) names,
            )))
    | inr (inl g) ↦ absurd (gray_root s n order inv g)
    | inr (inr b) ↦
        rw (b, visit_root)
          (record { now = order; inv = inv; grows = λ x m. m }, ground (arith, inv.blacks n))
  ]

  abbrev pub AllReached : List Text → List Text → Search → Type 0
  AllReached ns order t = (l : Left [] order t) × All (λ n. contains_name l.now n ≡ true) ns

  -- The search from all of the names: a cycle, or an order in which all of them stand.
  pub roots-Ends :
      (f : ℕ) (ns : List Text) (s : Search) (order : List Text)
      → Inv inside waits s [] order
      → All (λ n. inside n ≡ true) ns
      → length names ≤ f
      → Ends (AllReached ns order) (visit_roots inside waits f s ns)
  unfolding visit_roots
  roots-Ends f [] s order inv i h = (record { now = order; inv = inv; grows = λ x m. m }, tt)
  roots-Ends f (n ∷ ns) s order inv i h =
      Ends-and_then (Reached n [] order) (AllReached (n ∷ ns) order) (visit_root inside waits f s n)
        (λ t. visit_roots inside waits f t ns) (root-Ends f s n order inv i.0 h)
        (λ t c.
          Ends-weaken (AllReached ns c.0.now) (AllReached (n ∷ ns) order)
            (visit_roots inside waits f t ns) (roots-Ends f ns t c.0.now c.0.inv i.1 h)
            (λ r d. (Left-trans [] order t r c.0 d.0, (d.0.grows n c.1, d.1))))
