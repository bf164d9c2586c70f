-- ===== src/Tests/Units.antt =====
-- Names, start limits and restart reasons at concrete inputs.
use winunitd.Common.{
  ℕ, ◌+◌, List, [], ◌∷◌, ◌++◌, ◌≡◌, refl, arith, leb, if◌then◌else◌, false, not, ◌&&◌,
}
use winunitd.Common.Int.{pos}
use winunitd.Common.Text.{Text, bytes, text_eq, to_lower, trim_space, has_suffix}
use winunitd.Unit.Name.{normalize_name}
use winunitd.Unit.Name.Normal.{normalize_name_idem}
use winunitd.Core.Names.{contains_name, unique_stable}
use winunitd.Core.Names.Laws.{names_unit, contains_name-unique_stable}
use winunitd.Core.StartLimit.{start_limit_hit, start_limit_disabled, starts_in_window, record_start}
use winunitd.Core.StartLimit.Rate.{starts_in_window-record_start}
use winunitd.Core.Restart.{status_reason, exit_status, reason_signal_equivalent}
use winunitd.Core.Restart.Reason.{decimal, status_reason-exit_status}
use winunitd.Manager.StartGate.{
  requested, triggered, auto_restart, accept_launch, record_service_launch,
}
use winunitd.Manager.StartGate.Launches.{
  LaunchStep, accept, go_on, stop, launching, fresh, IsLimited,
}
use winunitd.Manager.StartGate.Window.{launches-IsLimited}

normalize_name_runs : normalize_name (bytes " Web.Target ") ≡ bytes "web.target"
unfolding normalize_name to_lower trim_space has_suffix
normalize_name_runs = refl

normalize_name_idem_example :
    normalize_name (normalize_name (bytes " My App")) ≡ normalize_name (bytes " My App")
normalize_name_idem_example = normalize_name_idem (bytes " My App")

abbrev twice : List Text
twice = bytes "DB" ∷ bytes "db.service" ∷ bytes " " ∷ []

contains_name-unique_stable_example :
    contains_name (unique_stable twice) (bytes "db.service")
    ≡ (not (text_eq (bytes "db.service") []) && names_unit twice (bytes "db.service"))
contains_name-unique_stable_example = contains_name-unique_stable twice (bytes "db.service")

unique_stable_runs : unique_stable twice ≡ bytes "db.service" ∷ []
unfolding unique_stable normalize_name to_lower trim_space has_suffix
unique_stable_runs = refl

limit_on : start_limit_disabled (pos 10) (pos 2) ≡ false
unfolding start_limit_disabled
limit_on = refl

starts_in_window-record_start_example :
    starts_in_window (record_start (3 ∷ 95 ∷ []) 100 (pos 10) (pos 2)) 100 (pos 10)
    ≡ starts_in_window (3 ∷ 95 ∷ []) 100 (pos 10) + 1
starts_in_window-record_start_example =
    starts_in_window-record_start (3 ∷ 95 ∷ []) 100 (pos 10) (pos 2) limit_on

-- Launches that record their start later; one that a stop makes stale.
abbrev launches : List (ℕ × LaunchStep)
launches =
    (1, accept requested)
    ∷ (2, go_on 1)
    ∷ (3, accept auto_restart)
    ∷ (5, go_on 2)
    ∷ (13, accept triggered)
    ∷ (13, stop)
    ∷ (13, go_on 3)
    ∷ (14, accept auto_restart)
    ∷ (15, go_on 5)
    ∷ []

launches_run : (launching (pos 10) (pos 2) launches fresh).recorded ≡ 15 ∷ 5 ∷ 2 ∷ []
unfolding launching accept_launch record_service_launch start_limit_hit record_start
launches_run = refl

launches-IsLimited_example :
    IsLimited (pos 10) (pos 2) (launching (pos 10) (pos 2) launches fresh).recorded
launches-IsLimited_example =
    launches-IsLimited (pos 10) (pos 2) launches limit_on (omega arith) (omega arith)

status_reason-exit_status_example :
    status_reason (exit_status ++ decimal 3221225477)
    ≡ (if leb 0xC0000000 3221225477 then reason_signal_equivalent else [])
status_reason-exit_status_example = status_reason-exit_status 3221225477 (omega arith)
