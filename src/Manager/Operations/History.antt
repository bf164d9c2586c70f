-- ===== src/Manager/Operations/History.antt =====
-- The whole history of a manager's operations, and the calls that make it.
use winunitd.Common.{ℕ, ◌+◌, ◌^◌, Option, none, some, List, [], ◌∷◌, ◌++◌, if◌then◌else◌, ltb}
use winunitd.Common.Text.{Text}
use winunitd.Manager.Operations.{
  Operation, Operations, completed_operation_limit, find_operation, delete_operation,
  begin_operation, finish_operation, ended,
}
use winunitd.Manager.Operations.Recent.{last_of, or_else}

-- The history: how many operations began, those under way, and those that ended, in the order
-- in which they did.
pub record Log : Type 0 where
  pub begun : ℕ
  pub under_way : List (ℕ × Operation)
  pub over : List (ℕ × Operation)

-- What the manager calls.
pub data Call : Type 0 where
  op_begin : Operation → List Text → Call
  op_finish : ℕ → Option Text → Call

-- The operation with an id, of those under way and the last that ended.
abbrev pub log_find : Log → ℕ → Option Operation
log_find l k =
    or_else (find_operation k l.under_way)
      (find_operation k (last_of completed_operation_limit l.over))

-- Numbers are of 64 bits, and only what is under way can end.
unfoldable pub log_call : Log → Call → Option Log
log_call l (op_begin op members) =
    if ltb (l.begun + 1) (2 ^ 64)
    then some (record l { begun = l.begun + 1; under_way = (l.begun + 1, op) ∷ l.under_way })
    else none
log_call l (op_finish id outcome) = elim (find_operation id l.under_way) [
  | none ↦ none
  | some op ↦ some (record l {
    under_way = delete_operation id l.under_way;
    over = l.over ++ (id, ended op outcome) ∷ [];
  })
]

unfoldable pub log_calls : Log → List Call → Option Log
unfolding log_call
log_calls l [] = some l
log_calls l (c ∷ cs) = elim (log_call l c) [ none ↦ none | some k ↦ log_calls k cs ]

unfoldable pub call : Operations → Call → Option Operations
call s (op_begin op members) = some (begin_operation s op members)
call s (op_finish id outcome) = finish_operation s id outcome

unfoldable pub calls : Operations → List Call → Option Operations
unfolding call
calls s [] = some s
calls s (c ∷ cs) = elim (call s c) [ none ↦ none | some t ↦ calls t cs ]
