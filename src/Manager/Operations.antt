-- ===== src/Manager/Operations.antt =====
-- internal/manager/operations.go: the record of the operations that clients ask about. The text of an
-- id is the manager's name space and a number: an id is this number here. Times are left out, and the
-- result and the error that the caller gets back, which carry the id. The message of an error is the
-- text that `strings.ToValidUTF8` makes of it.
pub mod Recent
pub mod History
pub mod Eviction
pub mod Retained
use winunitd.Common.{
  ℕ, zero, suc, ◌+◌, ◌%◌, ◌^◌, Bool, true, false, ◌&&◌, Option, none, some, List, [], ◌∷◌, ◌++◌,
  if◌then◌else◌, ltb, leb, ◌==◌, length,
}
use winunitd.Common.Text.{Text, text_eq}
use winunitd.Common.Utf8.{cut_valid}

abbrev pub completed_operation_limit : ℕ
completed_operation_limit = 256

abbrev pub operation_error_limit : ℕ
operation_error_limit = 4096

pub data Source : Type 0 where
  explicit by_timer by_watch : Source

pub data Progress : Type 0 where
  running succeeded failed : Progress

-- `protocol.OperationResult`.
pub record Operation : Type 0 where
  pub unit : Text
  pub action : Text
  pub origin : Source
  pub state : Progress
  pub config_revision : ℕ
  pub error : Text
  pub error_truncated : Bool

-- The fields of `Manager` that are about operations, and the last one of each loaded unit.
pub record Operations : Type 0 where
  pub sequence : ℕ
  pub operations : List (ℕ × Operation)
  pub completed : List ℕ
  pub last_operation : List (Text × ℕ)

unfoldable pub find_operation : ℕ → List (ℕ × Operation) → Option Operation
find_operation id [] = none
find_operation id ((k, op) ∷ ops) =
    let later = find_operation id ops in if k == id then some op else later

unfoldable pub put_operation : ℕ → Operation → List (ℕ × Operation) → List (ℕ × Operation)
put_operation id op [] = (id, op) ∷ []
put_operation id op ((k, old) ∷ ops) =
    let later = put_operation id op ops in if k == id then (id, op) ∷ ops else (k, old) ∷ later

unfoldable pub delete_operation : ℕ → List (ℕ × Operation) → List (ℕ × Operation)
delete_operation id [] = []
delete_operation id ((k, op) ∷ ops) =
    let later = delete_operation id ops in if k == id then later else (k, op) ∷ later

-- `rt.lastOperationID = id` on a member that is loaded.
unfoldable pub mark_member : ℕ → Text → List (Text × ℕ) → List (Text × ℕ)
unfolding text_eq
mark_member id name [] = []
mark_member id name ((unit, last) ∷ units) =
    let later = mark_member id name units in
    if text_eq unit name then (unit, id) ∷ units else (unit, last) ∷ later

unfoldable pub mark_members : ℕ → List Text → List (Text × ℕ) → List (Text × ℕ)
unfolding mark_member
mark_members id [] units = units
mark_members id (name ∷ names) units = mark_members id names (mark_member id name units)

abbrev pub new_operation : Text → Text → Source → ℕ → Operation
new_operation unit action origin revision = record {
  unit = unit;
  action = action;
  origin = origin;
  state = running;
  config_revision = revision;
  error = [];
  error_truncated = false;
}

-- `beginOperationLocked`; the new id is the sequence number afterwards.
unfoldable pub begin_operation : Operations → Operation → List Text → Operations
unfolding put_operation mark_members
begin_operation s op members =
    let id = (s.sequence + 1) % 2 ^ 64 in
    record s {
      sequence = id;
      operations = put_operation id op s.operations;
      last_operation = mark_members id members s.last_operation;
    }

-- The operation with its outcome: none, or the message of the error.
unfoldable pub ended : Operation → Option Text → Operation
unfolding cut_valid
ended op none = record op { state = succeeded }
ended op (some message) =
    if ltb operation_error_limit (length message)
    then record op {
      state = failed;
      error = cut_valid operation_error_limit message;
      error_truncated = true;
    }
    else record op { state = failed; error = message }

-- Past the limit the operation that completed first is forgotten.
unfoldable pub evict_completed : Operations → List ℕ → Operations
unfolding delete_operation
evict_completed s [] = record s { completed = [] }
evict_completed s (first ∷ rest) =
    if ltb completed_operation_limit (length (first ∷ rest))
    then record s { operations = delete_operation first s.operations; completed = rest }
    else record s { completed = first ∷ rest }

-- `finishOperationLocked`; on an operation that is not retained it has a nil pointer.
unfoldable pub finish_operation : Operations → ℕ → Option Text → Option Operations
unfolding find_operation put_operation ended evict_completed
finish_operation s id outcome = elim (find_operation id s.operations) [
  | none ↦ none
  | some op ↦ some (
      evict_completed (record s { operations = put_operation id (ended op outcome) s.operations })
        (s.completed ++ id ∷ []))
]
