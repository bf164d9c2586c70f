-- ===== src/Core/Execute/Sound.antt =====
-- What holds of an executor throughout a run, and that a launch, a delivery and a release keep it.
use winunitd.Common.{
  ℕ, ◌≤◌, ◌<◌, Bool, ◌&&◌, ◌||◌, true, false, not, List, [], ◌∷◌, ◌≡◌, refl, ap, arith,
  if◌then◌else◌, count, length, Bool-cases, inl, inr,
}
use winunitd.Common.Text.{Text, text_eq_iff, text_eq_refl}
use winunitd.Core.Lifecycle.{State}
use winunitd.Core.Names.{contains_name}
use winunitd.Core.Transaction.{Transaction, waits_at}
use winunitd.Core.Cycle.Counts.{count_le_length}
use winunitd.Core.Execute.{
  Executor, release_each, put, unblock, deps_of, release_after, received, launch, initial,
}
use winunitd.Core.Execute.Counting.{
  passed, count-put, count-remove_one, length-remove_one, count_of_contains,
}
use winunitd.Core.Execute.Unblocking.{
  is, Keyed, count-append, count-unblock, release_each-remaining, release_each-rest,
}

-- The components of an executor that a change of states and errors leaves alone. A job that is
-- `excused` will never be launched.
pub record IsSound (tx : Transaction) (workers : ℕ) (excused : Text → Bool)
    (launched released : Text → Bool) (remaining : Text → ℕ) (inflight : ℕ)
    (running called : List Text) : Type 0 where
  pub within : inflight ≤ workers
  pub counted : inflight ≡ length running
  pub once : (x : Text) → count (is tx x) called ≡ (if launched x then 1 else 0)
  pub single :
      (x : Text) → count (is tx x) running ≤ (if launched x && not (released x) then 1 else 0)
  pub settled : (x : Text) → released x ≡ true → (launched x || excused x) ≡ true
  pub waiting : (x : Text) → count (λ d. not (released d)) (deps_of tx x) ≤ remaining x
  pub ordered :
      (x d : Text) → launched x ≡ true → contains_name (deps_of tx x) d ≡ true → released d ≡ true

abbrev pub Sound : Transaction → ℕ → (Text → Bool) → Executor → Type 0
Sound tx workers excused e =
    IsSound tx workers excused e.launched e.released e.remaining e.inflight e.running e.called

module _ (tx : Transaction) (k : Keyed tx) (workers : ℕ) (excused : Text → Bool) where
  -- A job without a running call that was launched, or will never be, releases those behind it.
  release-Sound :
      (e : Executor) (n : Text)
      → count (is tx n) e.running ≡ 0
      → e.released n ≡ false
      → (e.launched n || excused n) ≡ true
      → (succs : List Text) → ((x : Text) → count (is tx x) succs ≤ count (is tx n) (deps_of tx x))
      → Sound tx workers excused e
      → Sound tx workers excused (record e {
        released = put e.released n true;
        remaining = (release_each (record e { released = put e.released n true }) succs).remaining;
      })
  release-Sound e n idle r l succs few s = record {
    within = s.within;
    counted = s.counted;
    once = s.once;
    single = λ x. ground (arith, s.single x, text_eq_iff n x, ap (λ y. count (is tx y) e.running));
    settled = λ x h. ground (arith, s.settled x, text_eq_iff n x, ap e.launched, ap excused);
    waiting = λ x. ground (
      arith,
      s.waiting x,
      few x,
      count-put e.released n (deps_of tx x) r,
      release_each-remaining (record e { released = put e.released n true }) succs x,
    );
    ordered = λ x d h m. ground (arith, s.ordered x d h m);
  }

  pub release_after-Sound :
      (e : Executor) (n : Text)
      → count (is tx n) e.running ≡ 0
      → (e.launched n || excused n) ≡ true
      → Sound tx workers excused e
      → Sound tx workers excused (release_after tx e n)
  unfolding release_after
  release_after-Sound e n idle l s = elim (Bool-cases (e.released n)) [
    | inl r ↦ rw (r, release_after) s
    | inr r ↦
        rw
          (
            r,
            release_after,
            release_each-rest (record e { released = put e.released n true })
                (waits_at (unblock tx) n),
          )
          (release-Sound e n idle r l (waits_at (unblock tx) n) (λ x. count-unblock tx k x n) s)
  ]

  -- A job that waits for nothing more is launched while there is room for a call.
  pub launch-Sound :
      (state : State) (e : Executor) (n : Text)
      → e.launched n ≡ false
      → excused n ≡ false
      → e.remaining n ≡ 0
      → e.inflight < workers
      → Sound tx workers excused e
      → Sound tx workers excused (launch state e n)
  launch-Sound state e n l x r w s = record {
    within = omega arith;
    counted = ground (arith, s.counted);
    once = λ y.
        ground (
          arith,
          s.once y,
          count-append (is tx y) e.called (n ∷ []),
          text_eq_iff n y,
          ap e.launched,
        );
    single = λ y.
        ground (
          arith,
          s.single y,
          s.settled y,
          text_eq_iff n y,
          ap e.launched,
          ap excused,
          ap e.released,
        );
    settled = λ y h. ground (arith, s.settled y h);
    waiting = s.waiting;
    ordered = λ y d h m. ground (
      arith,
      s.ordered y d,
      text_eq_iff n y,
      s.waiting n,
      passed e.released (deps_of tx n) d,
      ap (λ z. contains_name (deps_of tx z) d),
    );
  }

  pub received-Sound :
      (e : Executor) (n : Text)
      → contains_name e.running n ≡ true
      → Sound tx workers excused e
      → Sound tx workers excused (received e n)
  unfolding received
  received-Sound e n m s = record {
    within = omega (arith, s.within);
    counted = ground (arith, s.counted, length-remove_one e.running n m);
    once = s.once;
    single = λ x. ground (arith, s.single x, count-remove_one e.running n x);
    settled = s.settled;
    waiting = s.waiting;
    ordered = s.ordered;
  }

  -- After the delivery no call of the job runs.
  pub received_idle :
      (e : Executor) (n : Text)
      → Sound tx workers excused e
      → count (is tx n) (received e n).running ≡ 0
  unfolding received
  received_idle e n s = ground (arith, s.single n, count-remove_one e.running n n, text_eq_refl n)

  -- Only launched jobs run.
  pub running_launched :
      (e : Executor) (n : Text)
      → contains_name e.running n ≡ true
      → Sound tx workers excused e
      → e.launched n ≡ true
  running_launched e n m s = ground (arith, s.single n, count_of_contains e.running n m)

  -- Only launched jobs are called.
  pub launched_of_called :
      (e : Executor) (n : Text)
      → contains_name e.called n ≡ true
      → Sound tx workers excused e
      → e.launched n ≡ true
  launched_of_called e n m s = ground (arith, s.once n, count_of_contains e.called n m)

  -- Which jobs are excused matters for the released ones only.
  pub excuse-Sound :
      (e : Executor) (more : Text → Bool)
      → ((x : Text) → e.launched x ≡ false → excused x ≡ true → more x ≡ true)
      → Sound tx workers excused e
      → Sound tx workers more e
  excuse-Sound e more m s = record {
    within = s.within;
    counted = s.counted;
    once = s.once;
    single = s.single;
    settled = λ x h. ground (arith, s.settled x h, m x);
    waiting = s.waiting;
    ordered = s.ordered;
  }

  pub initial-Sound : (state : State) → Sound tx workers excused (initial tx state)
  unfolding initial
  initial-Sound state = record {
    within = omega arith;
    counted = refl;
    once = λ x. refl;
    single = λ x. ground arith;
    settled = λ x h. ground arith;
    waiting = λ x. count_le_length (λ d. true) (deps_of tx x);
    ordered = λ x d h m. ground arith;
  }

pub release_after-launched :
    (tx : Transaction) (e : Executor) (n : Text) → (release_after tx e n).launched ≡ e.launched
unfolding release_after
release_after-launched tx e n = elim (Bool-cases (e.released n)) [
  | inl r ↦ rw (r, release_after) refl
  | inr r ↦
      rw
        (
          r,
          release_after,
          release_each-rest (record e { released = put e.released n true })
              (waits_at (unblock tx) n),
        )
        refl
]

pub release_after-states :
    (tx : Transaction) (e : Executor) (n : Text) → (release_after tx e n).states ≡ e.states
unfolding release_after
release_after-states tx e n = elim (Bool-cases (e.released n)) [
  | inl r ↦ rw (r, release_after) refl
  | inr r ↦
      rw
        (
          r,
          release_after,
          release_each-rest (record e { released = put e.released n true })
              (waits_at (unblock tx) n),
        )
        refl
]

-- What a release leaves alone, all at once.
abbrev pub Calls : Type 0
Calls = (Text → Bool) × (ℕ × (List Text × List Text))

abbrev pub calls_of : Executor → Calls
calls_of e = (e.launched, (e.inflight, (e.running, e.called)))

pub release_after-calls_of :
    (tx : Transaction) (e : Executor) (n : Text) → calls_of (release_after tx e n) ≡ calls_of e
unfolding release_after
release_after-calls_of tx e n = elim (Bool-cases (e.released n)) [
  | inl r ↦ rw (r, release_after) refl
  | inr r ↦
      rw
        (
          r,
          release_after,
          release_each-rest (record e { released = put e.released n true })
              (waits_at (unblock tx) n),
        )
        refl
]
