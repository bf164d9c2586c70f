-- ===== src/Core/Execute/Stopping/Runs.antt =====
-- Runs of the stop executor.
use winunitd.Common.{
  ℕ, ◌≤◌, ◌<◌, ◌||◌, true, false, List, [], ◌∷◌, ◌≡◌, refl, ap, arith, if◌then◌else◌, count, length,
  Bool-cases, Option-cases, inl, inr, Option, none, some, ltb, ◌==◌, ◌∙◌,
}
use winunitd.Common.Text.{Text}
use winunitd.Core.Lifecycle.{active, inactive, deactivating}
use winunitd.Core.Names.{contains_name}
use winunitd.Core.Transaction.{Transaction, job_names}
use winunitd.Core.Execute.{
  Executor, Failure, Phase, Move, put, deps_of, release_after, received, initial, looping,
  receiving, draining, finished, pass, close, cancel, deliver, was_not_stopped,
}
use winunitd.Core.Execute.Unblocking.{is, Keyed}
use winunitd.Core.Execute.Counting.{count_none, count_some}
use winunitd.Core.Execute.Sound.{
  Sound, release_after-Sound, launch-Sound, received-Sound, received_idle, running_launched,
  initial-Sound, release_after-launched, launched_of_called, Calls, calls_of,
  release_after-calls_of,
}
use winunitd.Core.Execute.Stopping.{
  keep_error, try_stop, mark_done, on_stopped, stop_round, mark_unstopped, stop_move, stop_moves,
}

-- To store an error changes nothing else.
keep_error-rest :
    (e : Executor) (n : Text) (r : Option Failure)
    → keep_error e n r ≡ record e { errors = (keep_error e n r).errors }
unfolding keep_error
keep_error-rest e n none = refl
keep_error-rest e n (some c) = elim (Option-cases (e.errors n)) [
  | inl h ↦ rw (h, keep_error) refl
  | inr (first, h) ↦ rw (h, keep_error) refl
]

module _ (tx : Transaction) (k : Keyed tx) (workers : ℕ) where
  abbrev pub Stopped : Executor → Type 0
  Stopped e = Sound tx workers (λ x. false) e

  mark_done-Stopped :
      (e : Executor) (n : Text) (r : Option Failure)
      → count (is tx n) e.running ≡ 0
      → e.launched n ≡ true
      → Stopped e
      → Stopped (mark_done tx e n r)
  unfolding mark_done
  mark_done-Stopped e n r idle l s = rw (keep_error-rest e n r) (
      release_after-Sound tx k workers (λ x. false)
        (record e { errors = (keep_error e n r).errors; states = put e.states n inactive }) n idle
        (ground (arith, l)) s)

  try_stop-Stopped :
      (e : Executor) (n : Text) → e.inflight < workers → Stopped e → Stopped (try_stop tx e n)
  unfolding try_stop
  try_stop-Stopped e n w s = elim (Bool-cases (e.launched n || ltb 0 (e.remaining n))) [
    | inl h ↦ rw (h, try_stop) s
    | inr h ↦
        rw (h, try_stop)
          (launch-Sound tx k workers (λ x. false) deactivating e n (ground arith) refl
            (ground arith) w s)
  ]

  stop_round-Stopped :
      (e : Executor) (ns : List Text) → Stopped e → Stopped (stop_round tx workers e ns)
  unfolding stop_round
  stop_round-Stopped e [] s = s
  stop_round-Stopped e (n ∷ ns) s = elim (Bool-cases (ltb e.inflight workers)) [
    | inr h ↦ rw (h, stop_round) s
    | inl h ↦
        rw (h, stop_round)
          (stop_round-Stopped (try_stop tx e n) ns (try_stop-Stopped e n (ground arith) s))
  ]

  on_stopped-Stopped :
      (e : Executor) (n : Text) (r : Option Failure)
      → contains_name e.running n ≡ true
      → Stopped e
      → Stopped (on_stopped tx (received e n) n r)
  unfolding on_stopped received
  on_stopped-Stopped e n r m s =
      let l = running_launched tx k workers (λ x. false) e n m s in
      let idle = received_idle tx k workers (λ x. false) e n s in
      mark_done-Stopped (release_after tx (received e n) n) n r
        (rw (ap (λ c. c.1.1.0) (release_after-calls_of tx (received e n) n)) idle)
        (rw (release_after-launched tx (received e n) n) l)
        (release_after-Sound tx k workers (λ x. false) (received e n) n idle (ground (arith, l))
          (received-Sound tx k workers (λ x. false) e n m s))

  -- The last loop makes no call.
  mark_unstopped-calls_of :
      (e : Executor) (ns : List Text) → calls_of (mark_unstopped tx e ns) ≡ calls_of e
  unfolding mark_unstopped mark_done
  mark_unstopped-calls_of e [] = refl
  mark_unstopped-calls_of e (n ∷ ns) = elim (Bool-cases (e.launched n)) [
    | inl h ↦ rw (h, mark_unstopped) (mark_unstopped-calls_of e ns)
    | inr h ↦
        let r = some (was_not_stopped n) in
        let kept = keep_error e n r in
        rw (h, mark_unstopped)
          (mark_unstopped-calls_of (mark_done tx e n r) ns
            ∙ release_after-calls_of tx (record kept { states = put kept.states n inactive }) n
            ∙ ap calls_of (keep_error-rest e n r))
  ]

  -- What the theorems below say, of the calls.
  abbrev Orderly : Calls → Type 0
  Orderly (launched, (inflight, (running, called))) =
      ((x d : Text)
        → contains_name called x ≡ true
        → contains_name (deps_of tx x) d ≡ true
        → (contains_name called d ≡ true) × (contains_name running d ≡ false))
      × ((length running ≤ workers)
          × ((inflight ≡ length running) × ((x : Text) → count (is tx x) called ≤ 1)))

  same-Orderly : (a b : Calls) → a ≡ b → Orderly b → Orderly a
  same-Orderly a b h o = rw h o

  Stopped-Orderly : (e : Executor) → Stopped e → Orderly (calls_of e)
  Stopped-Orderly e s = (
    (λ x d c m.
        let r = s.ordered x d (launched_of_called tx k workers (λ y. false) e x c s) m in
        (
          count_some e.called d (ground (arith, s.once d, s.settled d r)),
          count_none e.running d (ground (arith, s.single d)),
        )),
    (omega (arith, s.within, s.counted), (s.counted, λ x. ground (arith, s.once x))),
  )

  abbrev Holds : Phase → Executor → Type 0
  Holds finished e = Orderly (calls_of e)
  Holds _ e = Stopped e

  Holds-Orderly : (phase : Phase) (e : Executor) → Holds phase e → Orderly (calls_of e)
  Holds-Orderly finished e h = h
  Holds-Orderly looping e h = Stopped-Orderly e h
  Holds-Orderly receiving e h = Stopped-Orderly e h
  Holds-Orderly draining e h = Stopped-Orderly e h

  abbrev Ended : Option (Phase × Executor) → Type 0
  Ended none = Unit
  Ended (some (phase, e)) = Holds phase e

  move-Holds :
      (phase : Phase) (e : Executor) (mv : Move)
      → Holds phase e
      → Ended (stop_move tx workers (phase, e) mv)
  unfolding stop_move
  move-Holds looping e pass s =
      round_phase (stop_round tx workers e (job_names tx.jobs))
        (stop_round-Stopped e (job_names tx.jobs) s)
    where
      round_phase :
          (after : Executor)
          → Stopped after
          → Ended (some (if after.inflight == 0 then draining else receiving, after))
      round_phase after s = elim (Bool-cases (after.inflight == 0)) [
        | inl h ↦ rw h s
        | inr h ↦ rw h s
      ]
  move-Holds looping e (cancel c) s = tt
  move-Holds looping e close s = tt
  move-Holds looping e (deliver n r) s = tt
  move-Holds receiving e (deliver n r) s = elim (Bool-cases (contains_name e.running n)) [
    | inl m ↦ rw m (on_stopped-Stopped e n r m s)
    | inr m ↦ rw m tt
  ]
  move-Holds receiving e pass s = tt
  move-Holds receiving e (cancel c) s = tt
  move-Holds receiving e close s = tt
  move-Holds draining e (deliver n r) s = elim (Bool-cases (contains_name e.running n)) [
    | inl m ↦ rw m (on_stopped-Stopped e n r m s)
    | inr m ↦ rw m tt
  ]
  move-Holds draining e close s = elim (Bool-cases (e.inflight == 0)) [
    | inl h ↦
        let last = mark_unstopped tx e (job_names tx.jobs) in
        rw h (
          same-Orderly (calls_of last) (calls_of e) (mark_unstopped-calls_of e (job_names tx.jobs))
            (Stopped-Orderly e s))
    | inr h ↦ rw h tt
  ]
  move-Holds draining e pass s = tt
  move-Holds draining e (cancel c) s = tt
  move-Holds finished e mv s = tt

  moves-Holds :
      (phase : Phase) (e : Executor) (mvs : List Move)
      → Holds phase e
      → Ended (stop_moves tx workers (phase, e) mvs)
  unfolding stop_moves
  moves-Holds phase e [] s = s
  moves-Holds phase e (mv ∷ mvs) s = elim (Option-cases (stop_move tx workers (phase, e) mv)) [
    | inl g ↦ rw (g, stop_moves) tt
    | inr ((next, f), g) ↦
        rw (g, stop_moves) (moves-Holds next f mvs (rw g at (move-Holds phase e mv s)))
  ]

  moves-Orderly :
      (mvs : List Move) (phase : Phase) (e : Executor)
      → stop_moves tx workers (looping, initial tx active) mvs ≡ some (phase, e)
      → Orderly (calls_of e)
  moves-Orderly mvs phase e h =
      let start = initial-Sound tx k workers (λ x. false) active in
      Holds-Orderly phase e (rw h at (moves-Holds looping (initial tx active) mvs start))

  -- With distinct job names, whatever the results and the order in which they arrive, at each
  -- point of a stop and at its end: if the Stop of a job was invoked, then that of each job it
  -- waits for was invoked too, and the call has delivered.
  pub stopped_in_order :
      (mvs : List Move) (phase : Phase) (e : Executor)
      → stop_moves tx workers (looping, initial tx active) mvs ≡ some (phase, e)
      → (x d : Text) → contains_name e.called x ≡ true
      → contains_name (deps_of tx x) d ≡ true
      → (contains_name e.called d ≡ true) × (contains_name e.running d ≡ false)
  stopped_in_order mvs phase e h = (moves-Orderly mvs phase e h).0

  -- With distinct job names, at each point of a stop at most as many calls are under way as there
  -- are workers, which is also what `inflight` counts, and no job's Stop is invoked twice.
  pub stopped_once_within :
      (mvs : List Move) (phase : Phase) (e : Executor)
      → stop_moves tx workers (looping, initial tx active) mvs ≡ some (phase, e)
      → (length e.running ≤ workers)
        × ((e.inflight ≡ length e.running) × ((x : Text) → count (is tx x) e.called ≤ 1))
  stopped_once_within mvs phase e h = (moves-Orderly mvs phase e h).1
