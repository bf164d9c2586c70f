-- ===== src/Tests/Storage.antt =====
-- The journal's buffer, queue, fragments and counters, a timer and a restart delay.
use winunitd.Core.Names.{contains_name}
use winunitd.Journal.Name.{canonical_unit}
use winunitd.Journal.Statistics.{
  CaptureStats, Statistics, no_stats, add_stats, bounded_delta, add_stats_to, capture_stats,
}
use winunitd.Journal.Statistics.Bounded.{
  Report, retain, lost, IsBounded, take_reports, no_statistics, take_reports-IsBounded,
}
use winunitd.Journal.Statistics.Pinned.{add_stats_to-pinned}
use winunitd.Journal.Fragments.{capture_fragments}
use winunitd.Journal.Fragments.Rejoined.{
  IsMarked, rejoin, lines_from, capture_fragments-IsMarked, rejoin-capture_fragments,
}
use winunitd.Common.{
  ◌%◌, ◌/◌, ◌-◌, inl, if◌then◌else◌, refl, ℕ, ◌*◌, ◌^◌, ◌+◌, ◌<◌, true, false, some, none, List, [],
  ◌∷◌, ◌≡◌, All, arith,
}
use winunitd.Common.Int.{pos, negsuc}
use winunitd.Common.Text.{bytes, text_eq, to_lower, trim_space}
use winunitd.Journal.Buffer.{Written}
use winunitd.Journal.Buffer.Conservation.{
  Op, op_append, op_flush, IsWhole, run_ops, no_history, run_ops-IsWhole,
}
use winunitd.Manager.Backoff.{smaller, capped_restart_delay}
use winunitd.Manager.Backoff.Growth.{capped_restart_delay-doubles}
use winunitd.Journal.FairQueue.{CaptureWrite}
use winunitd.Journal.FairQueue.Accounts.{no_captures, acts-IsFaithful}
use winunitd.Journal.FairQueue.Acts.{IsFaithful, acts, offer, turn, close, finish}
use winunitd.Timers.Schedule.{
  consider_calendars, consider, calendar_due, persistent_catchup, active_counts, boot_due, Calendar,
  Clock, Spec, Runtime, next_deadline, mark_fired,
}
use winunitd.Timers.Schedule.Rings.{IsSearched, Rings, IsFirst}
use winunitd.Timers.Schedule.First.{next_deadline-IsFirst}
use winunitd.Timers.Schedule.Wall.{RingsByWall, IsFirstWall, next_deadline-IsFirstWall}
use winunitd.Timers.Schedule.Earliest.{relative, mark_fired-relative}

-- A short write, a write error that takes two bytes, a count that is out of range, a full write.
abbrev writes : List (Written × Op)
writes =
    (record { n = pos 0; failure = none }, op_append (bytes "first") 3)
    ∷ (record { n = pos 2; failure = none }, op_flush)
    ∷ (record { n = pos 2; failure = some 28 }, op_flush)
    ∷ (record { n = negsuc 0; failure = none }, op_flush)
    ∷ (record { n = pos 0; failure = none }, op_append (bytes "second") 4)
    ∷ (record { n = pos 7; failure = none }, op_flush)
    ∷ []

run_ops-IsWhole_example : IsWhole (run_ops no_history writes)
run_ops-IsWhole_example = run_ops-IsWhole writes

abbrev hourly : Calendar
hourly = record { next = λ t. (t / 40 + 1) * 40; previous = λ t. ((t - 1) / 40) * 40 }

abbrev timer : Spec
timer = record {
  on_boot_sec = pos 30;
  on_startup_sec = pos 5;
  on_unit_active_sec = pos 100;
  on_calendar = hourly ∷ [];
  persistent = true;
  on_boot_sec_set = true;
  on_startup_sec_set = true;
  on_unit_active_sec_set = true;
}

abbrev idle : Runtime
idle = record {
  last_scheduled = 0;
  last_actual = 0;
  last_unit_active = 920;
  fired_boot = false;
  fired_startup = false;
}

abbrev noon : Clock
noon = record { now = 1000; since_boot = pos 20; since_start = pos 7 }

-- The startup has been used and the timer has rung at 970.
abbrev rung : Runtime
rung = record idle { last_actual = 970; fired_startup = true }

abbrev Multiple : Calendar → ℕ → Type 0
Multiple cal x = x % 40 ≡ 0

hourly-IsSearched : IsSearched (Multiple hourly) 1000 hourly
hourly-IsSearched = record {
  next_hit = λ h. (refl, omega arith);
  next_first = λ x h k. (omega arith, omega (arith, h, k));
  previous_hit = λ h. (refl, omega arith);
  previous_last = λ x h k. (omega arith, omega (arith, h, k));
}

next_deadline_runs : (next_deadline timer rung noon).earliest ≡ 1010
unfolding next_deadline consider_calendars consider calendar_due persistent_catchup active_counts
    boot_due
next_deadline_runs = refl

next_deadline-IsFirst_example :
    IsFirst 1000
      (Rings Multiple timer rung noon)
      (next_deadline timer rung noon).found
      (next_deadline timer rung noon).earliest
next_deadline-IsFirst_example =
    next_deadline-IsFirst Multiple timer rung noon (omega arith) (hourly-IsSearched, tt)

next_deadline-IsFirstWall_example :
    IsFirstWall 1000 (RingsByWall Multiple timer rung noon) (next_deadline timer rung noon).wall
next_deadline-IsFirstWall_example =
    next_deadline-IsFirstWall Multiple timer rung noon (omega arith) (hourly-IsSearched, tt)

mark_fired-relative_example :
    All (λ t. 1000 < t) (relative timer (mark_fired timer idle noon 1000 1000) noon)
mark_fired-relative_example = mark_fired-relative timer idle noon 1000 (omega arith)

capped_restart_delay-doubles_example :
    capped_restart_delay (pos 100) (pos 1000) 3 ≡ pos (smaller (100 * 2 ^ 3) 1000)
capped_restart_delay-doubles_example =
    capped_restart_delay-doubles 100 1000 3 (omega arith) (omega arith)

abbrev log_line : ℕ → CaptureWrite
log_line g = record { unit = bytes "a.service"; message = bytes "hello"; group = g }

acts-IsFaithful_example : IsFaithful (
    acts no_captures
      (offer (log_line 1) ∷ offer (log_line 2) ∷ turn ∷ finish true ∷ turn ∷ close ∷ []))
acts-IsFaithful_example =
    acts-IsFaithful
      (offer (log_line 1) ∷ offer (log_line 2) ∷ turn ∷ finish true ∷ turn ∷ close ∷ [])

abbrev two_lines : List ℕ
two_lines = bytes "ab\n\nc"

capture_fragments-IsMarked_example : IsMarked (capture_fragments two_lines)
capture_fragments-IsMarked_example = capture_fragments-IsMarked two_lines

rejoin-capture_fragments_example :
    rejoin [] (capture_fragments two_lines) ≡ bytes "ab" ∷ bytes "c" ∷ []
unfolding lines_from
rejoin-capture_fragments_example =
    rejoin-capture_fragments two_lines (refl, (refl, (refl, (refl, (refl, tt)))))

abbrev one_loss : CaptureStats
one_loss = record no_stats { dropped_records = 1; dropped_bytes = 7 }

abbrev reports : List Report
reports = retain (bytes " App.service" ∷ []) ∷ lost (bytes "app.service") one_loss ∷ []

take_reports-IsBounded_example : IsBounded (take_reports no_statistics reports)
take_reports-IsBounded_example = take_reports-IsBounded reports

abbrev one_retained : Statistics
one_retained = record no_statistics { retained_names = bytes "app" ∷ [] }

app_retained : contains_name (bytes "app" ∷ []) (canonical_unit (bytes "APP")) ≡ true
unfolding contains_name canonical_unit text_eq to_lower trim_space
app_retained = refl

add_stats_to-pinned_example :
    capture_stats (add_stats_to one_retained (bytes "other") one_loss) (bytes "APP") ≡ (
      if text_eq (canonical_unit (bytes "other")) (canonical_unit (bytes "APP"))
      then add_stats (capture_stats one_retained (bytes "APP")) (bounded_delta one_loss)
      else capture_stats one_retained (bytes "APP"))
add_stats_to-pinned_example =
    add_stats_to-pinned one_retained (bytes "other") (bytes "APP") one_loss (inl app_retained)
