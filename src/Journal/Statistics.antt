-- ===== src/Journal/Statistics.antt =====
-- internal/journal/retention.go: the counters of lost output, with a bounded history of names. The map
-- `dropped` and the list `statsOrder` of its names are one list here, in the order of insertion. The
-- text of a storage error is what `strings.ToValidUTF8` makes of it.
pub mod Pinned
pub mod Names
pub mod Bounded
use winunitd.Common.{
  ℕ, ◌+◌, ◌%◌, ◌^◌, Bool, true, false, ◌||◌, Option, none, some, List, [], ◌∷◌, ◌++◌, map,
  if◌then◌else◌, ltb, ◌==◌, length,
}
use winunitd.Common.Text.{Text, text_eq}
use winunitd.Common.Utf8.{cut_valid}
use winunitd.Core.Names.{contains_name}
use winunitd.Journal.Name.{canonical_unit}

abbrev pub max_stats_names : ℕ
max_stats_names = 2048

abbrev pub max_storage_error_bytes : ℕ
max_storage_error_bytes = 4096

abbrev pub max_retained_names : ℕ
max_retained_names = 1024

pub record CaptureStats : Type 0 where
  pub evicted_files : ℕ
  pub evicted_bytes : ℕ
  pub dropped_records : ℕ
  pub dropped_bytes : ℕ
  pub storage_errors : ℕ
  pub last_storage_error : Text

abbrev pub no_stats : CaptureStats
no_stats = record {
  evicted_files = 0;
  evicted_bytes = 0;
  dropped_records = 0;
  dropped_bytes = 0;
  storage_errors = 0;
  last_storage_error = [];
}

-- The fields of `Store` that count.
pub record Statistics : Type 0 where
  pub dropped : List (Text × CaptureStats)
  pub retained_names : List Text
  pub total_stats : CaptureStats

abbrev pub later_error : Text → Text → Text
later_error old [] = old
later_error old (c ∷ s) = c ∷ s

-- `addStats`; the counters are 64-bit integers.
abbrev pub add_stats : CaptureStats → CaptureStats → CaptureStats
add_stats to delta = record {
  evicted_files = (to.evicted_files + delta.evicted_files) % 2 ^ 64;
  evicted_bytes = (to.evicted_bytes + delta.evicted_bytes) % 2 ^ 64;
  dropped_records = (to.dropped_records + delta.dropped_records) % 2 ^ 64;
  dropped_bytes = (to.dropped_bytes + delta.dropped_bytes) % 2 ^ 64;
  storage_errors = (to.storage_errors + delta.storage_errors) % 2 ^ 64;
  last_storage_error = later_error to.last_storage_error delta.last_storage_error;
}

-- `RetainNames`; none is its error, which changes nothing.
unfoldable pub retain_names : Statistics → List Text → Option Statistics
retain_names s names =
    if ltb max_retained_names (length names)
    then none
    else some (record s { retained_names = map canonical_unit names })

unfoldable pub has_stats : Text → List (Text × CaptureStats) → Bool
unfolding text_eq
has_stats name [] = false
has_stats name ((n, c) ∷ rest) = text_eq n name || has_stats name rest

-- What a map gives for a name, which is zero where the name is missing.
unfoldable pub stats_of : Text → List (Text × CaptureStats) → CaptureStats
unfolding text_eq
stats_of name [] = no_stats
stats_of name ((n, c) ∷ rest) =
    let later = stats_of name rest in if text_eq n name then c else later

-- The counters of a name that is there, raised.
unfoldable pub raise_stats :
    Text → CaptureStats → List (Text × CaptureStats) → List (Text × CaptureStats)
unfolding text_eq
raise_stats name delta [] = []
raise_stats name delta ((n, c) ∷ rest) =
    let later = raise_stats name delta rest in
    if text_eq n name then (n, add_stats c delta) ∷ rest else (n, c) ∷ later

-- Without the first name that is not retained.
unfoldable pub evict_name : List Text → List (Text × CaptureStats) → List (Text × CaptureStats)
evict_name retained [] = []
evict_name retained ((n, c) ∷ rest) =
    let later = evict_name retained rest in
    if contains_name retained n then (n, c) ∷ later else rest

-- The history with room for a name.
unfoldable pub with_room : List Text → List (Text × CaptureStats) → List (Text × CaptureStats)
unfolding evict_name
with_room retained dropped =
    if length dropped == max_stats_names then evict_name retained dropped else dropped

unfoldable pub count_stats :
    List Text → Text → CaptureStats → List (Text × CaptureStats) → List (Text × CaptureStats)
unfolding has_stats raise_stats with_room
count_stats retained name delta dropped =
    if has_stats name dropped
    then raise_stats name delta dropped
    else with_room retained dropped ++ (name, add_stats no_stats delta) ∷ []

abbrev pub bounded_error : Text → Text
bounded_error s =
    if ltb max_storage_error_bytes (length s) then cut_valid max_storage_error_bytes s else s

abbrev pub bounded_delta : CaptureStats → CaptureStats
bounded_delta d = record d { last_storage_error = bounded_error d.last_storage_error }

-- `addStatsLocked`.
unfoldable pub add_stats_to : Statistics → Text → CaptureStats → Statistics
unfolding count_stats
add_stats_to s name delta = record s {
  total_stats = add_stats s.total_stats (bounded_delta delta);
  dropped = count_stats s.retained_names (canonical_unit name) (bounded_delta delta) s.dropped;
}

-- `CaptureStats`.
unfoldable pub capture_stats : Statistics → Text → CaptureStats
unfolding stats_of
capture_stats s unit = stats_of (canonical_unit unit) s.dropped
