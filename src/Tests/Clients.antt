-- ===== src/Tests/Clients.antt =====
-- The operations of a manager.
use winunitd.Common.{some, List, [], ◌∷◌, ◌≡◌, refl}
use winunitd.Common.Text.{bytes}
use winunitd.Manager.Operations.{
  Operation, Operations, explicit, by_timer, new_operation, ended, find_operation, delete_operation,
}
use winunitd.Manager.Operations.History.{Log, Call, op_begin, op_finish, log_calls, calls}
use winunitd.Manager.Operations.Retained.{
  IsRemembered, no_operations, empty_log, calls-IsRemembered,
}

abbrev start_app : Operation
start_app = new_operation (bytes "app.service") (bytes "start") explicit 3

abbrev stop_app : Operation
stop_app = new_operation (bytes "app.service") (bytes "stop") by_timer 3

-- A start that fails while a stop is under way.
abbrev two_calls : List Call
two_calls =
    op_begin start_app (bytes "app.service" ∷ [])
    ∷ op_begin stop_app (bytes "app.service" ∷ [])
    ∷ op_finish 1 (some (bytes "exit 1"))
    ∷ []

abbrev after_two : Log
after_two = record {
  begun = 2;
  under_way = (2, stop_app) ∷ [];
  over = (1, ended start_app (some (bytes "exit 1"))) ∷ [];
}

logged : log_calls empty_log two_calls ≡ some after_two
unfolding log_calls find_operation delete_operation
logged = refl

calls-IsRemembered_example :
    (s : Operations) × (calls (no_operations ((bytes "app.service", 0) ∷ [])) two_calls ≡ some s)
    × IsRemembered s after_two
calls-IsRemembered_example =
    calls-IsRemembered ((bytes "app.service", 0) ∷ []) two_calls after_two logged
