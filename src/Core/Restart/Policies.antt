-- ===== src/Core/Restart/Policies.antt =====
-- How the restart policies compare.
use winunitd.Common.{true, ◌≡◌, ◌≢◌, ◌↔◌, ◌⊎◌, arith}
use winunitd.Common.Text.{Text, text_eq_iff}
use winunitd.Core.Restart.{
  ExitKind, exit_success, exit_watchdog, should_restart, restart_always, restart_on_failure,
  restart_on_watchdog,
}

-- A unit is restarted exactly if its policy is `always`, or the policy is `on-failure` and the exit
-- no success, or the policy is `on-watchdog` and the exit a missed heartbeat.
should_restart_iff :
    (policy : Text) (kind : ExitKind)
    → (should_restart policy kind ≡ true) ↔ (
        (policy ≡ restart_always)
        ⊎ ((policy ≡ restart_on_failure) × (kind ≢ exit_success)
            ⊎ (policy ≡ restart_on_watchdog) × (kind ≡ exit_watchdog)))
unfolding should_restart
should_restart_iff policy kind = ground (
  arith,
  text_eq_iff policy restart_always,
  text_eq_iff policy restart_on_failure,
  text_eq_iff policy restart_on_watchdog,
)
