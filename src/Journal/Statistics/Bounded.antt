-- ===== src/Journal/Statistics/Bounded.antt =====
-- The size of the history of names.
use winunitd.Common.{
  suc, ◌≤◌, false, ◌||◌, Option, none, some, List, [], ◌∷◌, ◌++◌, map, ◌≡◌, refl, ap, ◌∙◌, arith,
  inl, inr, ◌==◌, ltb, length, length-append, Bool-cases,
}
use winunitd.Common.Text.{Text, text_eq}
use winunitd.Journal.Name.{canonical_unit}
use winunitd.Journal.Statistics.{
  CaptureStats, Statistics, no_stats, max_stats_names, max_retained_names, retain_names, has_stats,
  raise_stats, add_stats, bounded_delta, with_room, count_stats, add_stats_to,
}
use winunitd.Journal.Statistics.Pinned.{has_stats-with_room}
use winunitd.Journal.Statistics.Names.{
  Distinct, text_eq_swap, pigeonhole, evicts_one, Distinct-evict_name,
}

-- The history and the names that cannot be evicted stay small.
pub record IsBounded (s : Statistics) : Type 0 where
  pub history : length s.dropped ≤ max_stats_names
  pub retained : length s.retained_names ≤ max_retained_names
  pub distinct : Distinct s.dropped

length-with_room :
    (names : List Text) (ds : List (Text × CaptureStats))
    → length ds ≤ max_stats_names
    → length names ≤ max_retained_names
    → Distinct ds
    → suc (length (with_room names ds)) ≤ max_stats_names
unfolding with_room
length-with_room names ds h k d = elim (Bool-cases (length ds == max_stats_names)) [
  | inl e ↦ elim (evicts_one names ds) [
    | inl a ↦ rw (with_room, e) (let few = pigeonhole names ds d a in ground arith)
    | inr l ↦ rw (with_room, e) (ground (arith, l))
  ]
  | inr e ↦ rw (with_room, e) (ground arith)
]

Distinct-with_room :
    (names : List Text) (ds : List (Text × CaptureStats))
    → Distinct ds
    → Distinct (with_room names ds)
unfolding with_room
Distinct-with_room names ds d = elim (Bool-cases (length ds == max_stats_names)) [
  | inl e ↦ rw (with_room, e) (Distinct-evict_name names ds d)
  | inr e ↦ rw (with_room, e) d
]

has_stats-append :
    (k n : Text) (c : CaptureStats) (ds : List (Text × CaptureStats))
    → has_stats k (ds ++ (n, c) ∷ []) ≡ (has_stats k ds || text_eq n k)
unfolding has_stats
has_stats-append k n c [] = ground arith
has_stats-append k n c ((m, b) ∷ ds) = ground (arith, has_stats-append k n c ds)

Distinct-append :
    (n : Text) (c : CaptureStats) (ds : List (Text × CaptureStats))
    → has_stats n ds ≡ false
    → Distinct ds
    → Distinct (ds ++ (n, c) ∷ [])
unfolding has_stats
Distinct-append n c [] h d = (refl, tt)
Distinct-append n c ((m, b) ∷ ds) h d =
    let differs : text_eq m n ≡ false = ground arith in
    let absent : has_stats n ds ≡ false = ground arith in
    (
      has_stats-append m n c ds ∙ rw (d.0, text_eq_swap m n differs) refl,
      Distinct-append n c ds absent d.1,
    )

length-raise :
    (n : Text) (c : CaptureStats) (ds : List (Text × CaptureStats))
    → length (raise_stats n c ds) ≡ length ds
unfolding raise_stats
length-raise n c [] = refl
length-raise n c ((m, b) ∷ ds) = elim (Bool-cases (text_eq m n)) [
  | inl e ↦ rw e refl
  | inr e ↦ rw e (ap suc (length-raise n c ds))
]

has_stats-raise :
    (k n : Text) (c : CaptureStats) (ds : List (Text × CaptureStats))
    → has_stats k (raise_stats n c ds) ≡ has_stats k ds
unfolding raise_stats has_stats
has_stats-raise k n c [] = refl
has_stats-raise k n c ((m, b) ∷ ds) = elim (Bool-cases (text_eq m n)) [
  | inl e ↦ rw e refl
  | inr e ↦ rw e (ap (λ r. text_eq m k || r) (has_stats-raise k n c ds))
]

Distinct-raise :
    (n : Text) (c : CaptureStats) (ds : List (Text × CaptureStats))
    → Distinct ds
    → Distinct (raise_stats n c ds)
unfolding raise_stats
Distinct-raise n c [] d = tt
Distinct-raise n c ((m, b) ∷ ds) d = elim (Bool-cases (text_eq m n)) [
  | inl e ↦ rw e d
  | inr e ↦ rw e (has_stats-raise m n c ds ∙ d.0, Distinct-raise n c ds d.1)
]

length-count_stats :
    (names : List Text) (n : Text) (c : CaptureStats) (ds : List (Text × CaptureStats))
    → length ds ≤ max_stats_names
    → length names ≤ max_retained_names
    → Distinct ds
    → length (count_stats names n c ds) ≤ max_stats_names
unfolding count_stats
length-count_stats names n c ds h k d = elim (Bool-cases (has_stats n ds)) [
  | inl e ↦ rw (count_stats, e) (omega (arith, length-raise n c ds))
  | inr e ↦
      let room = length-with_room names ds h k d in
      rw (count_stats, e)
        (omega (arith, room, length-append (with_room names ds) ((n, add_stats no_stats c) ∷ [])))
]

Distinct-count_stats :
    (names : List Text) (n : Text) (c : CaptureStats) (ds : List (Text × CaptureStats))
    → Distinct ds
    → Distinct (count_stats names n c ds)
unfolding count_stats
Distinct-count_stats names n c ds d = elim (Bool-cases (has_stats n ds)) [
  | inl e ↦ rw (count_stats, e) (Distinct-raise n c ds d)
  | inr e ↦
      rw (count_stats, e)
        (Distinct-append n (add_stats no_stats c) (with_room names ds)
          (has_stats-with_room n names ds e) (Distinct-with_room names ds d))
]

-- What the store is told.
pub data Report : Type 0 where
  retain : List Text → Report
  lost : Text → CaptureStats → Report

abbrev retained_or : Statistics → Option Statistics → Statistics
retained_or s none = s
retained_or s (some t) = t

-- A list of names that is too long is refused.
unfoldable pub take_report : Statistics → Report → Statistics
take_report s (retain names) = retained_or s (retain_names s names)
take_report s (lost name delta) = add_stats_to s name delta

unfoldable pub take_reports : Statistics → List Report → Statistics
unfolding take_report
take_reports s [] = s
take_reports s (r ∷ rs) = take_reports (take_report s r) rs

length-map : (f : Text → Text) (xs : List Text) → length (map f xs) ≡ length xs
length-map f [] = refl
length-map f (x ∷ xs) = ap suc (length-map f xs)

take_report-IsBounded : (s : Statistics) (r : Report) → IsBounded s → IsBounded (take_report s r)
unfolding take_report retain_names add_stats_to count_stats
take_report-IsBounded s (retain names) h =
    elim (Bool-cases (ltb max_retained_names (length names))) [
      | inl e ↦ rw (take_report, retain_names, e) h
      | inr e ↦
          let few : length (map canonical_unit names) ≤ max_retained_names =
            ground (arith, length-map canonical_unit names) in
          rw (take_report, retain_names, e)
            (record { history = h.history; retained = few; distinct = h.distinct })
    ]
take_report-IsBounded s (lost name delta) h = record {
  history =
      length-count_stats s.retained_names (canonical_unit name) (bounded_delta delta) s.dropped
        h.history h.retained h.distinct;
  retained = h.retained;
  distinct =
      Distinct-count_stats s.retained_names (canonical_unit name) (bounded_delta delta) s.dropped
        h.distinct;
}

reports_from : (rs : List Report) (s : Statistics) → IsBounded s → IsBounded (take_reports s rs)
unfolding take_reports
reports_from [] s h = h
reports_from (r ∷ rs) s h = reports_from rs (take_report s r) (take_report-IsBounded s r h)

abbrev pub no_statistics : Statistics
no_statistics = record { dropped = []; retained_names = []; total_stats = no_stats }

-- Whatever names are retained and whatever losses are counted, from the empty store on: the history
-- has at most 2048 names, no name twice, and at most 1024 names are retained.
pub take_reports-IsBounded : (rs : List Report) → IsBounded (take_reports no_statistics rs)
take_reports-IsBounded rs =
    reports_from rs no_statistics
      (record { history = omega arith; retained = omega arith; distinct = tt })
