-- ===== src/Core/Execute/Starting/Runs.antt =====
-- Runs of the start executor.
use winunitd.Common.{
  ℕ, zero, suc, ◌+◌, ◌≤◌, ◌<◌, Bool, ◌&&◌, ◌||◌, true, false, not, List, [], ◌∷◌, ◌++◌, ◌≡◌, ap,
  arith, if◌then◌else◌, count, length, Bool-cases, Option-cases, ◌⊎◌, inl, inr, Option, none, some,
  ltb, ◌==◌,
}
use winunitd.Common.Text.{Text, text_eq, text_eq_iff, text_eq_refl}
use winunitd.Core.Lifecycle.{State, activating, active, inactive, failed}
use winunitd.Core.Names.{contains_name}
use winunitd.Core.Graph.{start_requires_name}
use winunitd.Core.Graph.Lookup.{find-cases}
use winunitd.Core.Transaction.{Transaction, job_names}
use winunitd.Core.Execute.{
  Executor, Failure, Phase, Move, put, deps_of, release_after, received, launch, initial, looping,
  receiving, draining, finished, pass, close, cancel, deliver, dependency_error, is_skipped,
  cancelled, was_not_started,
}
use winunitd.Core.Execute.Unblocking.{is, Keyed}
use winunitd.Core.Execute.Counting.{count_none, count_some}
use winunitd.Core.Execute.Sound.{
  Sound, release_after-Sound, launch-Sound, received-Sound, received_idle, running_launched,
  excuse-Sound, initial-Sound, release_after-launched, release_after-states, launched_of_called,
}
use winunitd.Core.Execute.Starting.{
  is_failed, is_inactive, not_yet_started, store_failure, fail_requirer, fail_requirers,
  mark_failed, fail, Mark, launch_ready, try_launch, requires_failed, settle, on_finish,
  launch_round, fail_queued, move, moves,
}

failed_of : (s : State) → is_failed s ≡ true → s ≡ failed
failed_of s h = ground arith

module _ (tx : Transaction) (k : Keyed tx) (workers : ℕ) where
  abbrev pub Started : Executor → Type 0
  Started e = Sound tx workers (λ x. is_failed (e.states x)) e

  abbrev Keeps : Mark → Type 0
  Keeps mark = (e : Executor) (n : Text) (c : Failure) → Started e → Started (mark e n c)

  release_after-Started :
      (e : Executor) (n : Text)
      → count (is tx n) e.running ≡ 0
      → (e.launched n || is_failed (e.states n)) ≡ true
      → Started e
      → Started (release_after tx e n)
  release_after-Started e n idle l s =
      rw (release_after-states tx e n)
        (release_after-Sound tx k workers (λ x. is_failed (e.states x)) e n idle l s)

  fail_state-Started :
      (e : Executor) (n : Text) → Started e → Started (record e { states = put e.states n failed })
  fail_state-Started e n s =
      excuse-Sound tx k workers (λ x. is_failed (e.states x)) e
        (λ x. is_failed (put e.states n failed x)) (λ x l h. ground (arith, h)) s

  store_failure-Started : Keeps (store_failure tx)
  unfolding store_failure
  store_failure-Started e n c s = elim (Bool-cases (e.launched n)) [
    | inl l ↦ rw (l, store_failure) (fail_state-Started e n s)
    | inr l ↦
        rw (l, store_failure)
          (release_after-Started
            (record e {
              errors = put e.errors n (some c);
              states = put e.states n failed;
              rejected = e.rejected ++ (n, c) ∷ [];
            })
            n (ground (arith, s.single n)) (ground (arith, text_eq_refl n))
            (fail_state-Started e n s))
  ]

  fail_requirer-Started :
      (mark : Mark)
      → Keeps mark
      → (n : Text) (c : Failure) (e : Executor) (other : Text) → Started e
      → Started (fail_requirer tx mark n c e other)
  unfolding fail_requirer
  fail_requirer-Started mark m n c e other s = elim (Bool-cases (text_eq other n)) [
    | inl h ↦ rw (h, fail_requirer) s
    | inr h ↦ elim (find-cases tx.graph other) [
      | inl f ↦ rw (h, f, fail_requirer) s
      | inr (node, f) ↦
          elim (Bool-cases (start_requires_name node n && not_yet_started (e.states other))) [
            | inl r ↦ rw (h, f, r, fail_requirer) (m e other (dependency_error other n c) s)
            | inr r ↦ rw (h, f, r, fail_requirer) s
          ]
    ]
  ]

  fail_requirers-Started :
      (mark : Mark)
      → Keeps mark
      → (n : Text) (c : Failure) (e : Executor) (others : List Text) → Started e
      → Started (fail_requirers tx mark n c e others)
  unfolding fail_requirers
  fail_requirers-Started mark m n c e [] s = s
  fail_requirers-Started mark m n c e (other ∷ others) s =
      fail_requirers-Started mark m n c (fail_requirer tx mark n c e other) others
        (fail_requirer-Started mark m n c e other s)

  mark_failed-Started : (f : ℕ) → Keeps (mark_failed tx f)
  unfolding mark_failed
  mark_failed-Started zero e n c s = s
  mark_failed-Started (suc f) e n c s =
      elim (Bool-cases (not_yet_started (e.states n) || is_failed (e.states n))) [
        | inr h ↦ rw (h, mark_failed) s
        | inl h ↦ elim (Option-cases (e.errors n)) [
          | inr (first, g) ↦ rw (h, g, mark_failed) (fail_state-Started e n s)
          | inl g ↦
              rw (h, g, mark_failed)
                (fail_requirers-Started (mark_failed tx f) (mark_failed-Started f) n c
                  (store_failure tx e n c) (job_names tx.jobs) (store_failure-Started e n c s))
        ]
      ]

  fail-Started : Keeps (fail tx)
  unfolding fail
  fail-Started = mark_failed-Started (length tx.jobs + 1)

  -- A launched job may take any state.
  set_state-Started :
      (e : Executor) (n : Text) (state : State)
      → e.launched n ≡ true
      → Started e
      → Started (record e { states = put e.states n state })
  set_state-Started e n state l s =
      excuse-Sound tx k workers (λ x. is_failed (e.states x)) e
        (λ x. is_failed (put e.states n state x))
        (λ x u h. ground (arith, h, text_eq_iff n x, ap e.launched)) s

  launch_ready-Started :
      (e : Executor) (n : Text) (r : Option Failure)
      → e.launched n ≡ false
      → is_failed (e.states n) ≡ false
      → e.remaining n ≡ 0
      → e.inflight < workers
      → Started e
      → Started (launch_ready tx e n r)
  unfolding launch_ready
  launch_ready-Started e n (some c) l f r w s = fail-Started e n c s
  launch_ready-Started e n none l f r w s =
      excuse-Sound tx k workers (λ x. is_failed (e.states x)) (launch activating e n)
        (λ x. is_failed (put e.states n activating x)) (λ x u h. ground (arith, h, u))
        (launch-Sound tx k workers (λ x. is_failed (e.states x)) activating e n l f r w s)

  try_launch-Started :
      (e : Executor) (n : Text) → e.inflight < workers → Started e → Started (try_launch tx e n)
  unfolding try_launch
  try_launch-Started e n w s =
      elim (Bool-cases (e.launched n || (is_failed (e.states n) || ltb 0 (e.remaining n)))) [
        | inl h ↦ rw (h, try_launch) s
        | inr h ↦
            rw (h, try_launch)
              (launch_ready-Started e n (requires_failed tx e n) (ground arith) (ground arith)
                (ground arith) w s)
      ]

  launch_round-Started :
      (e : Executor) (ns : List Text) → Started e → Started (launch_round tx workers e ns)
  unfolding launch_round
  launch_round-Started e [] s = s
  launch_round-Started e (n ∷ ns) s = elim (Bool-cases (ltb e.inflight workers)) [
    | inr h ↦ rw (h, launch_round) s
    | inl h ↦
        rw (h, launch_round)
          (launch_round-Started (try_launch tx e n) ns (try_launch-Started e n (ground arith) s))
  ]

  fail_queued-Started :
      (c : Text → Failure) (e : Executor) (ns : List Text)
      → Started e
      → Started (fail_queued tx c e ns)
  unfolding fail_queued
  fail_queued-Started c e [] s = s
  fail_queued-Started c e (n ∷ ns) s =
      elim (Bool-cases (is_inactive (e.states n) && not (e.launched n))) [
        | inr h ↦ rw (h, fail_queued) (fail_queued-Started c e ns s)
        | inl h ↦
            rw (h, fail_queued)
              (fail_queued-Started c (fail tx e n (c n)) ns (fail-Started e n (c n) s))
      ]

  settle-Started :
      (e : Executor) (n : Text) (result requirement : Option Failure)
      → e.launched n ≡ true
      → Started e
      → Started (settle tx e n result requirement)
  unfolding settle
  settle-Started e n (some c) requirement l s = elim (Bool-cases (is_skipped c)) [
    | inl h ↦ rw (h, settle) (set_state-Started e n inactive l s)
    | inr h ↦ rw (h, settle) (fail-Started e n c s)
  ]
  settle-Started e n none requirement l s = elim (Bool-cases (is_failed (e.states n))) [
    | inl h ↦ rw (h, settle) s
    | inr h ↦ elim (Option-cases requirement) [
      | inl r ↦ rw (h, r, settle) (set_state-Started e n active l s)
      | inr (c, r) ↦ rw (h, r, settle) (fail-Started e n c s)
    ]
  ]

  -- A delivered result is worked off.
  finish-Started :
      (e : Executor) (n : Text) (result : Option Failure)
      → contains_name e.running n ≡ true
      → Started e
      → Started (on_finish tx (received e n) n result)
  unfolding on_finish received
  finish-Started e n result m s =
      let excused : Text → Bool = λ x. is_failed (e.states x) in
      let l = running_launched tx k workers excused e n m s in
      let free = release_after tx (received e n) n in
      settle-Started free n result (requires_failed tx free n)
        (rw (release_after-launched tx (received e n) n) l)
        (release_after-Started (received e n) n (received_idle tx k workers excused e n s)
          (ground (arith, l)) (received-Sound tx k workers excused e n m s))

  abbrev Ended : Option (Phase × Executor) → Type 0
  Ended none = Unit
  Ended (some (phase, e)) = Started e

  Ended-finish :
      (phase : Phase) (e : Executor) (n : Text) (result : Option Failure)
      → Started e
      → Ended (
          if contains_name e.running n
          then some (phase, on_finish tx (received e n) n result)
          else none)
  Ended-finish phase e n result s = elim (Bool-cases (contains_name e.running n)) [
    | inl m ↦ rw m (finish-Started e n result m s)
    | inr m ↦ rw m tt
  ]

  move-Started :
      (phase : Phase) (e : Executor) (mv : Move) → Started e → Ended (move tx workers (phase, e) mv)
  unfolding move
  move-Started looping e pass s = launch_round-Started e (job_names tx.jobs) s
  move-Started looping e (cancel c) s =
      fail_queued-Started (λ x. cancelled c) e (job_names tx.jobs) s
  move-Started looping e close s = tt
  move-Started looping e (deliver n r) s = tt
  move-Started receiving e (deliver n r) s = Ended-finish looping e n r s
  move-Started receiving e pass s = tt
  move-Started receiving e (cancel c) s = tt
  move-Started receiving e close s = tt
  move-Started draining e (deliver n r) s = Ended-finish draining e n r s
  move-Started draining e close s = elim (Bool-cases (e.inflight == 0)) [
    | inl h ↦ rw h (fail_queued-Started was_not_started e (job_names tx.jobs) s)
    | inr h ↦ rw h tt
  ]
  move-Started draining e pass s = tt
  move-Started draining e (cancel c) s = tt
  move-Started finished e mv s = tt

  moves-Started :
      (phase : Phase) (e : Executor) (mvs : List Move)
      → Started e
      → Ended (moves tx workers (phase, e) mvs)
  unfolding moves
  moves-Started phase e [] s = s
  moves-Started phase e (mv ∷ mvs) s = elim (Option-cases (move tx workers (phase, e) mv)) [
    | inl g ↦ rw (g, moves) tt
    | inr ((next, f), g) ↦
        rw (g, moves) (moves-Started next f mvs (rw g at (move-Started phase e mv s)))
  ]

  moves_sound :
      (mvs : List Move) (phase : Phase) (e : Executor)
      → moves tx workers (looping, initial tx inactive) mvs ≡ some (phase, e)
      → Started e
  moves_sound mvs phase e h =
      let start =
        initial-Sound tx k workers (λ x. is_failed ((initial tx inactive).states x)) inactive in
      rw h at (moves-Started looping (initial tx inactive) mvs start)

  -- With distinct job names, whatever the results and the order in which they arrive, at each
  -- point of a run and at its end: if the Start of a job was invoked, then each job that it waits
  -- for either was invoked too, and its call has delivered, or it has failed without a call.
  pub started_in_order :
      (mvs : List Move) (phase : Phase) (e : Executor)
      → moves tx workers (looping, initial tx inactive) mvs ≡ some (phase, e)
      → (x d : Text) → contains_name e.called x ≡ true
      → contains_name (deps_of tx x) d ≡ true
      → ((contains_name e.called d ≡ true) ⊎ (e.states d ≡ failed))
        × (contains_name e.running d ≡ false)
  started_in_order mvs phase e h x d c m =
      let s = moves_sound mvs phase e h in
      let r =
        s.ordered x d (launched_of_called tx k workers (λ y. is_failed (e.states y)) e x c s) m in
      let idle = count_none e.running d (ground (arith, s.single d)) in
      elim (Bool-cases (e.launched d)) [
        | inl l ↦ (inl (count_some e.called d (ground (arith, s.once d))), idle)
        | inr l ↦ (inr (failed_of (e.states d) (ground (arith, s.settled d r))), idle)
      ]

  -- With distinct job names, at each point of a run at most as many calls are under way as there
  -- are workers, which is also what `inflight` counts, and no job's Start is invoked twice.
  pub started_once_within :
      (mvs : List Move) (phase : Phase) (e : Executor)
      → moves tx workers (looping, initial tx inactive) mvs ≡ some (phase, e)
      → (length e.running ≤ workers)
        × ((e.inflight ≡ length e.running) × ((x : Text) → count (is tx x) e.called ≤ 1))
  started_once_within mvs phase e h =
      let s = moves_sound mvs phase e h in
      (omega (arith, s.within, s.counted), (s.counted, λ x. ground (arith, s.once x)))
