-- ===== src/Core/Cycle/Climb.antt =====
-- What `reconstructCycle` returns.
use winunitd.Common.{
  ℕ, zero, suc, ◌+◌, ◌≤◌, Bool, true, false, List, [], ◌∷◌, ◌++◌, length, ltb, ◌≡◌, refl, arith,
  All, Bool-cases, inl, inr,
}
use winunitd.Common.Text.{Text, text_eq, text_eq_iff}
use winunitd.Core.Names.{contains_name}
use winunitd.Core.Cycle.{Parents, parent_of, climb, reconstruct_cycle}
use winunitd.Core.Cycle.Walk.{IsWalk, IsCycle}

module _ (inside : Text → Bool) (waits : Text → List Text) where
  -- Each name of the list is the child of the next one: its parent, which waits for it.
  abbrev pub IsChain : Parents → List Text → Type 0
  IsChain parent [] = Unit
  IsChain parent (x ∷ []) = Unit
  IsChain parent (x ∷ y ∷ st) =
      ((parent_of parent x ≡ y) × (contains_name (waits y) x ≡ true)) × IsChain parent (y ∷ st)

  -- The loop has arrived at `v`.
  IsCycle-found :
      (v x : Text) (stack : List Text)
      → text_eq x v ≡ true
      → inside x ≡ true
      → IsWalk inside waits x (stack ++ v ∷ [])
      → All (λ y. inside y ≡ true) (stack ++ v ∷ [])
      → IsCycle inside waits (v ∷ (stack ++ v ∷ []))
  IsCycle-found v x stack e i walk insk =
      let same : x ≡ v = (text_eq_iff x v).0 e in
      record {
        start = v;
        middle = stack;
        shape = refl;
        walk = rw same at walk;
        within = (rw same at i, insk);
      }

  module _ (nonempty : (x : Text) → inside x ≡ true → text_eq x [] ≡ false) where
    climb-IsCycle :
        (f : ℕ) (parent : Parents) (u v x : Text) (st stack : List Text)
        → IsChain parent (x ∷ st)
        → All (λ y. inside y ≡ true) (x ∷ st)
        → contains_name (x ∷ st) v ≡ true
        → IsWalk inside waits x (stack ++ v ∷ [])
        → All (λ y. inside y ≡ true) (stack ++ v ∷ [])
        → length (x ∷ st) ≤ f
        → length stack + length (x ∷ st) ≤ length parent + 1
        → IsCycle inside waits (climb f parent u v stack x)
    unfolding climb contains_name
    climb-IsCycle zero parent u v x st stack c ins mem walk insk h k = absurd (omega arith)
    climb-IsCycle (suc f) parent u v x [] stack c ins mem walk insk h k =
        elim (Bool-cases (text_eq x v)) [
          | inl e ↦ rw (e, climb) (IsCycle-found v x stack e ins.0 walk insk)
          | inr e ↦ absurd (ground arith)
        ]
    climb-IsCycle (suc f) parent u v x (y ∷ st) stack c ins mem walk insk h k =
        elim (Bool-cases (text_eq x v)) [
          | inl e ↦ rw (e, climb) (IsCycle-found v x stack e ins.0 walk insk)
          | inr e ↦
              let short : ltb (length parent + 1) (length (x ∷ stack)) ≡ false = ground arith in
              rw (e, nonempty x ins.0, short, c.0.0, climb)
                (climb-IsCycle f parent u v y st (x ∷ stack) c.1 ins.1 (rw e at mem) (c.0.1, walk)
                  (ins.0, insk) (omega arith) (omega arith))
        ]

    -- At an edge from the head of a chain to a name on the chain, the path is a cycle.
    pub reconstruct_cycle-IsCycle :
        (parent : Parents) (u v : Text) (st : List Text)
        → IsChain parent (u ∷ st)
        → All (λ y. inside y ≡ true) (u ∷ st)
        → contains_name (u ∷ st) v ≡ true
        → contains_name (waits u) v ≡ true
        → inside v ≡ true
        → length (u ∷ st) ≤ length parent + 1
        → IsCycle inside waits (reconstruct_cycle parent u v)
    unfolding reconstruct_cycle
    reconstruct_cycle-IsCycle parent u v st c ins mem edge i k = elim (Bool-cases (text_eq u v)) [
      | inl e ↦ rw (e, reconstruct_cycle) (IsCycle-found v u [] e ins.0 (edge, tt) (i, tt))
      | inr e ↦
          rw (e, reconstruct_cycle)
            (climb-IsCycle (length parent + 2) parent u v u st [] c ins mem (edge, tt) (i, tt)
              (omega arith) (omega arith))
    ]
