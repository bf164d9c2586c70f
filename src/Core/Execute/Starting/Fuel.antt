-- ===== src/Core/Execute/Starting/Fuel.antt =====
-- `markFailed` calls itself only for jobs that have not started yet, and fails each of them: its
-- fuel is enough.
use winunitd.Common.{
  ℕ, zero, suc, ◌+◌, ◌≤◌, ◌<◌, ◌&&◌, ◌||◌, true, List, [], ◌∷◌, ◌++◌, ◌≡◌, refl, ap, arith, count,
  length, Bool-cases, Option-cases, inl, inr, none, some, map, All, ◌∙◌,
}
use winunitd.Common.Text.{Text, text_eq, text_eq_refl}
use winunitd.Core.Lifecycle.{failed}
use winunitd.Core.Names.{contains_name}
use winunitd.Core.Names.Laws.{count-sort_names}
use winunitd.Core.Cycle.Counts.{count_le, count_lt, count_le_length, All_of_contains}
use winunitd.Core.Graph.{start_requires_name}
use winunitd.Core.Graph.Lookup.{find-cases}
use winunitd.Core.Transaction.{Transaction, Job, job_names}
use winunitd.Core.Execute.{Executor, Failure, put, dependency_error}
use winunitd.Core.Execute.Sound.{release_after-states}
use winunitd.Core.Execute.Starting.{
  is_failed, not_yet_started, store_failure, fail_requirer, fail_requirers, mark_failed, fail, Mark,
}

-- Every job that has not started yet in the one has not in the other.
abbrev Fewer : Executor → Executor → Type 0
Fewer e' e = (x : Text) → not_yet_started (e'.states x) ≡ true → not_yet_started (e.states x) ≡ true

length-map_names : (js : List Job) → length (map (λ (j : Job). j.name) js) ≡ length js
length-map_names [] = refl
length-map_names (j ∷ js) = ap suc (length-map_names js)

module _ (tx : Transaction) where
  store_failure-states :
      (e : Executor) (n : Text) (c : Failure)
      → (store_failure tx e n c).states ≡ put e.states n failed
  unfolding store_failure
  store_failure-states e n c = elim (Bool-cases (e.launched n)) [
    | inl h ↦ rw (h, store_failure) refl
    | inr h ↦
        rw (h, store_failure)
          (release_after-states tx
            (record e {
              errors = put e.errors n (some c);
              states = put e.states n failed;
              rejected = e.rejected ++ (n, c) ∷ [];
            })
            n)
  ]

  store_failure-Fewer : (e : Executor) (n : Text) (c : Failure) → Fewer (store_failure tx e n c) e
  store_failure-Fewer e n c x h = ground (arith, (rw (store_failure-states e n c) at h))

  abbrev Sinks : Mark → Type 0
  Sinks mark = (e : Executor) (n : Text) (c : Failure) → Fewer (mark e n c) e

  fail_requirer-Fewer :
      (mark : Mark)
      → Sinks mark
      → (n : Text) (c : Failure) (e : Executor) (other : Text)
      → Fewer (fail_requirer tx mark n c e other) e
  unfolding fail_requirer
  fail_requirer-Fewer mark m n c e other = elim (Bool-cases (text_eq other n)) [
    | inl h ↦ rw (h, fail_requirer) (λ x g. g)
    | inr h ↦ elim (find-cases tx.graph other) [
      | inl f ↦ rw (h, f, fail_requirer) (λ x g. g)
      | inr (node, f) ↦
          elim (Bool-cases (start_requires_name node n && not_yet_started (e.states other))) [
            | inl r ↦ rw (h, f, r, fail_requirer) (m e other (dependency_error other n c))
            | inr r ↦ rw (h, f, r, fail_requirer) (λ x g. g)
          ]
    ]
  ]

  fail_requirers-Fewer :
      (mark : Mark)
      → Sinks mark
      → (n : Text) (c : Failure) (e : Executor) (others : List Text)
      → Fewer (fail_requirers tx mark n c e others) e
  unfolding fail_requirers
  fail_requirers-Fewer mark m n c e [] x h = h
  fail_requirers-Fewer mark m n c e (other ∷ others) x h =
      fail_requirer-Fewer mark m n c e other x
        (fail_requirers-Fewer mark m n c (fail_requirer tx mark n c e other) others x h)

  mark_failed-Fewer : (f : ℕ) → Sinks (mark_failed tx f)
  unfolding mark_failed
  mark_failed-Fewer zero e n c = λ x g. g
  mark_failed-Fewer (suc f) e n c =
      elim (Bool-cases (not_yet_started (e.states n) || is_failed (e.states n))) [
        | inr h ↦ rw (h, mark_failed) (λ x g. g)
        | inl h ↦ elim (Option-cases (e.errors n)) [
          | inr (first, g) ↦ rw (h, g, mark_failed) (λ x u. ground (arith, u))
          | inl g ↦
              rw (h, g, mark_failed)
                (λ x u. store_failure-Fewer e n c x (
                  fail_requirers-Fewer (mark_failed tx f) (mark_failed-Fewer f) n c
                    (store_failure tx e n c) (job_names tx.jobs) x u))
        ]
      ]

  -- How many jobs have not started yet.
  abbrev pending : Executor → ℕ
  pending e = count (λ x. not_yet_started (e.states x)) (job_names tx.jobs)

  abbrev Same : ℕ → Mark → Mark → Type 0
  Same f mark mark' =
      (e : Executor) (n : Text) (c : Failure)
      → contains_name (job_names tx.jobs) n ≡ true
      → not_yet_started (e.states n) ≡ true
      → pending e ≤ f
      → mark e n c ≡ mark' e n c

  fail_requirer-Same :
      (f : ℕ) (mark mark' : Mark)
      → Same f mark mark'
      → (n : Text) (c : Failure) (e : Executor) (other : Text)
      → contains_name (job_names tx.jobs) other ≡ true
      → pending e ≤ f
      → fail_requirer tx mark n c e other ≡ fail_requirer tx mark' n c e other
  unfolding fail_requirer
  fail_requirer-Same f mark mark' s n c e other k p = elim (Bool-cases (text_eq other n)) [
    | inl h ↦ rw (h, fail_requirer) refl
    | inr h ↦ elim (find-cases tx.graph other) [
      | inl g ↦ rw (h, g, fail_requirer) refl
      | inr (node, g) ↦
          elim (Bool-cases (start_requires_name node n && not_yet_started (e.states other))) [
            | inl r ↦
                rw (h, g, r, fail_requirer)
                  (s e other (dependency_error other n c) k (ground arith) p)
            | inr r ↦ rw (h, g, r, fail_requirer) refl
          ]
    ]
  ]

  pending-Fewer : (e' e : Executor) → Fewer e' e → pending e' ≤ pending e
  pending-Fewer e' e h =
      count_le (λ x. not_yet_started (e.states x)) (λ x. not_yet_started (e'.states x))
        (job_names tx.jobs) h

  fail_requirers-Same :
      (f : ℕ) (mark mark' : Mark)
      → Sinks mark
      → Same f mark mark'
      → (n : Text) (c : Failure) (e : Executor) (others : List Text)
      → All (λ x. contains_name (job_names tx.jobs) x ≡ true) others
      → pending e ≤ f
      → fail_requirers tx mark n c e others ≡ fail_requirers tx mark' n c e others
  unfolding fail_requirers
  fail_requirers-Same f mark mark' m s n c e [] k p = refl
  fail_requirers-Same f mark mark' m s n c e (other ∷ others) k p =
      let next = fail_requirer tx mark n c e other in
      let less = pending-Fewer next e (fail_requirer-Fewer mark m n c e other) in
      rw (← fail_requirer-Same f mark mark' s n c e other k.0 p)
        (fail_requirers-Same f mark mark' m s n c next others k.1 (omega (arith, less, p)))

  jobs_named : All (λ x. contains_name (job_names tx.jobs) x ≡ true) (job_names tx.jobs)
  jobs_named =
      All_of_contains (λ x. contains_name (job_names tx.jobs) x ≡ true) (job_names tx.jobs)
        (λ x h. h)

  -- The state after the failure of a job that had not started: one fewer is pending.
  pending-store_failure :
      (e : Executor) (n : Text) (c : Failure)
      → contains_name (job_names tx.jobs) n ≡ true
      → not_yet_started (e.states n) ≡ true
      → pending (store_failure tx e n c) < pending e
  pending-store_failure e n c k y =
      count_lt (λ x. not_yet_started (e.states x))
        (λ x. not_yet_started ((store_failure tx e n c).states x)) (job_names tx.jobs) n
        (store_failure-Fewer e n c) k y
        (rw (store_failure-states e n c) (ground (arith, text_eq_refl n)))

  -- One round of fuel more changes nothing, if it makes no difference to the nested calls.
  mark_failed-step :
      (f : ℕ) (e : Executor) (n : Text) (c : Failure)
      → Same f (mark_failed tx f) (mark_failed tx (suc f))
      → (e.errors n ≡ none → pending (store_failure tx e n c) ≤ f)
      → mark_failed tx (suc f) e n c ≡ mark_failed tx (suc (suc f)) e n c
  unfolding mark_failed
  mark_failed-step f e n c s p =
      elim (Bool-cases (not_yet_started (e.states n) || is_failed (e.states n))) [
        | inr h ↦ rw (h, mark_failed) refl
        | inl h ↦ elim (Option-cases (e.errors n)) [
          | inr (first, g) ↦ rw (h, g, mark_failed) refl
          | inl g ↦
              rw (h, g, mark_failed)
                (fail_requirers-Same f (mark_failed tx f) (mark_failed tx (suc f))
                  (mark_failed-Fewer f) s n c (store_failure tx e n c) (job_names tx.jobs)
                  jobs_named (p g))
        ]
      ]

  mark_failed-Same : (f : ℕ) → Same f (mark_failed tx f) (mark_failed tx (suc f))
  mark_failed-Same zero e n c k y p = absurd (omega (arith, pending-store_failure e n c k y, p))
  mark_failed-Same (suc f) e n c k y p =
      mark_failed-step f e n c (mark_failed-Same f)
        (λ g. omega (arith, pending-store_failure e n c k y, p))

  pending_le : (e : Executor) → pending e ≤ length tx.jobs
  unfolding job_names
  pending_le e = omega (
    arith,
    count_le_length (λ x. not_yet_started (e.states x)) (map (λ (j : Job). j.name) tx.jobs),
    count-sort_names (λ x. not_yet_started (e.states x)) (map (λ (j : Job). j.name) tx.jobs),
    length-map_names tx.jobs,
  )

  -- `markFailed` ends: whatever the state, more fuel than it is given changes nothing.
  pub fail_fuel :
      (more : ℕ) (e : Executor) (n : Text) (c : Failure)
      → fail tx e n c ≡ mark_failed tx (length tx.jobs + 1 + more) e n c
  unfolding fail
  fail_fuel zero e n c = ap (λ f. mark_failed tx f e n c) (omega arith)
  fail_fuel (suc more) e n c =
      let f = length tx.jobs + more in
      fail_fuel more e n c
      ∙ ap (λ g. mark_failed tx g e n c) (omega arith)
      ∙ mark_failed-step f e n c (mark_failed-Same f)
          (λ g. omega (arith, pending_le (store_failure tx e n c)))
      ∙ ap (λ g. mark_failed tx g e n c) (omega arith)
