-- ===== src/Journal/Statistics/Pinned.antt =====
-- The counters of names that are retained.
use winunitd.Common.{
  true, false, List, [], ◌∷◌, ◌++◌, ◌≡◌, refl, sym, ap, ◌∙◌, arith, inl, inr, ◌⊎◌, if◌then◌else◌,
  ◌==◌, length, Bool-cases,
}
use winunitd.Common.Text.{Text, text_eq, text_eq_iff, eq_of_text_eq}
use winunitd.Core.Names.{contains_name}
use winunitd.Journal.Name.{canonical_unit}
use winunitd.Journal.Statistics.{
  CaptureStats, Statistics, no_stats, max_stats_names, add_stats, has_stats, stats_of, raise_stats,
  evict_name, with_room, count_stats, add_stats_to, capture_stats, bounded_delta,
}

-- A name that differs from one of two equal names differs from the other.
other_name :
    (n name k : Text) → text_eq n name ≡ false → text_eq n k ≡ true → text_eq name k ≡ false
other_name n name k e d = elim (Bool-cases (text_eq name k)) [
  | inl c ↦
      let same : n ≡ name = eq_of_text_eq n k d ∙ sym (eq_of_text_eq name k c) in
      let no : true ≡ false = sym ((text_eq_iff n name).1 same) ∙ e in cc
  | inr c ↦ c
]

stats_of-raise :
    (k name : Text) (delta : CaptureStats) (ds : List (Text × CaptureStats))
    → has_stats name ds ≡ true
    → stats_of k (raise_stats name delta ds)
      ≡ (if text_eq name k then add_stats (stats_of k ds) delta else stats_of k ds)
unfolding stats_of raise_stats has_stats
stats_of-raise k name delta [] h = cc
stats_of-raise k name delta ((n, c) ∷ ds) h = elim (Bool-cases (text_eq n name)) [
  | inl e ↦
      let same = eq_of_text_eq n name e in
      elim (Bool-cases (text_eq name k)) [
        | inl d ↦ let c : text_eq n k ≡ true = ap (λ m. text_eq m k) same ∙ d in rw (e, c, d) refl
        | inr d ↦ let c : text_eq n k ≡ false = ap (λ m. text_eq m k) same ∙ d in rw (e, c, d) refl
      ]
  | inr e ↦ elim (Bool-cases (text_eq n k)) [
    | inl d ↦ let c : text_eq name k ≡ false = other_name n name k e d in rw (e, d, c) refl
    | inr d ↦ rw (e, d) (stats_of-raise k name delta ds (rw e at h))
  ]
]

stats_of_absent :
    (k : Text) (ds : List (Text × CaptureStats)) → has_stats k ds ≡ false → stats_of k ds ≡ no_stats
unfolding stats_of has_stats
stats_of_absent k [] h = refl
stats_of_absent k ((n, c) ∷ ds) h = ground (arith, stats_of_absent k ds)

stats_of-append :
    (k name : Text) (new : CaptureStats) (ds : List (Text × CaptureStats))
    → has_stats name ds ≡ false
    → stats_of k (ds ++ (name, new) ∷ []) ≡ (if text_eq name k then new else stats_of k ds)
unfolding stats_of has_stats
stats_of-append k name new [] h = refl
stats_of-append k name new ((n, c) ∷ ds) h =
    let e : text_eq n name ≡ false = ground arith in
    let absent : has_stats name ds ≡ false = ground arith in
    elim (Bool-cases (text_eq n k)) [
      | inl d ↦ let f : text_eq name k ≡ false = other_name n name k e d in rw (d, f) refl
      | inr d ↦ rw d (stats_of-append k name new ds absent)
    ]

stats_of-evict_name :
    (k : Text) (retained : List Text) (ds : List (Text × CaptureStats))
    → contains_name retained k ≡ true
    → stats_of k (evict_name retained ds) ≡ stats_of k ds
unfolding stats_of evict_name
stats_of-evict_name k retained [] h = refl
stats_of-evict_name k retained ((n, c) ∷ ds) h = elim (Bool-cases (contains_name retained n)) [
  | inl e ↦ rw e (ap (λ r. if text_eq n k then c else r) (stats_of-evict_name k retained ds h))
  | inr e ↦ elim (Bool-cases (text_eq n k)) [
    | inl d ↦
        let same = eq_of_text_eq n k d in
        let no : true ≡ false = sym h ∙ sym (ap (contains_name retained) same) ∙ e in cc
    | inr d ↦ rw (e, d) refl
  ]
]

pub has_stats-evict_name :
    (name : Text) (retained : List Text) (ds : List (Text × CaptureStats))
    → has_stats name ds ≡ false
    → has_stats name (evict_name retained ds) ≡ false
unfolding has_stats evict_name
has_stats-evict_name name retained [] h = refl
has_stats-evict_name name retained ((n, c) ∷ ds) h = elim (Bool-cases (contains_name retained n)) [
  | inl e ↦ let later = has_stats-evict_name name retained ds (ground arith) in rw e (ground arith)
  | inr e ↦ rw e (ground arith)
]

pub has_stats-with_room :
    (name : Text) (retained : List Text) (ds : List (Text × CaptureStats))
    → has_stats name ds ≡ false
    → has_stats name (with_room retained ds) ≡ false
unfolding with_room
has_stats-with_room name retained ds h = elim (Bool-cases (length ds == max_stats_names)) [
  | inl e ↦ rw (with_room, e) (has_stats-evict_name name retained ds h)
  | inr e ↦ rw (with_room, e) h
]

stats_of-with_room :
    (k : Text) (retained : List Text) (ds : List (Text × CaptureStats))
    → contains_name retained k ≡ true
    → stats_of k (with_room retained ds) ≡ stats_of k ds
unfolding with_room
stats_of-with_room k retained ds h = elim (Bool-cases (length ds == max_stats_names)) [
  | inl e ↦ rw (with_room, e) (stats_of-evict_name k retained ds h)
  | inr e ↦ rw (with_room, e) refl
]

stats_of_new :
    (k name : Text) (delta : CaptureStats) (retained : List Text) (ds : List (Text × CaptureStats))
    → (contains_name retained k ≡ true) ⊎ (k ≡ name)
    → has_stats name ds ≡ false
    → (if text_eq name k then add_stats no_stats delta else stats_of k (with_room retained ds))
      ≡ (if text_eq name k then add_stats (stats_of k ds) delta else stats_of k ds)
stats_of_new k name delta retained ds h e = elim (Bool-cases (text_eq name k)) [
  | inl d ↦
      let absent =
        stats_of_absent k ds (ap (λ m. has_stats m ds) (sym (eq_of_text_eq name k d)) ∙ e) in
      rw (d, absent) refl
  | inr d ↦ elim h [
    | inl r ↦ rw d (stats_of-with_room k retained ds r)
    | inr same ↦ let no : true ≡ false = sym ((text_eq_iff name k).1 (sym same)) ∙ d in cc
  ]
]

-- Of a name that is retained, or is the name that is counted for.
stats_of-count_stats :
    (k name : Text) (delta : CaptureStats) (retained : List Text) (ds : List (Text × CaptureStats))
    → (contains_name retained k ≡ true) ⊎ (k ≡ name)
    → stats_of k (count_stats retained name delta ds)
      ≡ (if text_eq name k then add_stats (stats_of k ds) delta else stats_of k ds)
unfolding count_stats
stats_of-count_stats k name delta retained ds h = elim (Bool-cases (has_stats name ds)) [
  | inl e ↦ rw (count_stats, e) (stats_of-raise k name delta ds e)
  | inr e ↦
      rw (count_stats, e)
        (stats_of-append k name (add_stats no_stats delta) (with_room retained ds)
            (has_stats-with_room name retained ds e)
          ∙ stats_of_new k name delta retained ds h e)
]

-- Counting for a name raises its counters, and leaves those of every other name that is retained as
-- they are, however long the history is.
pub add_stats_to-pinned :
    (s : Statistics) (name k : Text) (delta : CaptureStats)
    → (contains_name s.retained_names (canonical_unit k) ≡ true)
      ⊎ (canonical_unit k ≡ canonical_unit name)
    → capture_stats (add_stats_to s name delta) k ≡ (
        if text_eq (canonical_unit name) (canonical_unit k)
        then add_stats (capture_stats s k) (bounded_delta delta)
        else capture_stats s k)
unfolding add_stats_to capture_stats
add_stats_to-pinned s name k delta h =
    stats_of-count_stats (canonical_unit k) (canonical_unit name) (bounded_delta delta)
      s.retained_names s.dropped h
