-- ===== src/Notify/Protocol.antt =====
-- internal/notify/protocol.go: messages, how they are written and read, and pipe names.
pub mod RoundTrip
use winunitd.Common.{
  ℕ, zero, suc, ◌+◌, ◌^◌, Bool, true, false, ◌&&◌, ◌||◌, not, Option, none, some, List, [], ◌∷◌,
  ◌++◌, map, if◌then◌else◌, leb, ltb, ◌==◌, filter,
}
use winunitd.Common.Decimal.{decimal, atoi}
use winunitd.Common.Int.{ℤ, pos, negsuc}
use winunitd.Common.Strings.{cut, split, unix_lines}
use winunitd.Common.Text.{Text, bytes, text_eq, trim_space}

pub record Message : Type 0 where
  pub ready : Bool
  pub watchdog : Bool
  pub status : Text
  pub main_pid : ℤ
  pub has_pid : Bool

abbrev pub no_message : Message
no_message = record {
  ready = false;
  watchdog = false;
  status = [];
  main_pid = pos 0;
  has_pid = false;
}

abbrev pipe_prefix : Text
pipe_prefix =
    0x5c ∷ 0x5c ∷ b'.' ∷ 0x5c ∷ bytes "pipe"
    ++ 0x5c ∷ bytes "winunitd"
    ++ 0x5c ∷ bytes "notify"
    ++ 0x5c ∷ []

-- `\ / : * ? " < > |`.
abbrev replaced : ℕ → Bool
replaced c =
    c == 0x5c
    || (c == b'/'
        || (c == b':'
            || (c == b'*'
                || (c == b'?' || (c == 0x22 || (c == b'<' || (c == b'>' || c == b'|')))))))

abbrev underscored : Text → Text
underscored [] = bytes "unknown"
underscored (c ∷ s) = map (λ d. if replaced d then b'_' else d) (c ∷ s)

unfoldable pub sanitize_unit_id : Text → Text
unfolding trim_space
sanitize_unit_id id = underscored (trim_space id)

unfoldable pub pipe_name : Text → Text
unfolding sanitize_unit_id
pipe_name unit_id = pipe_prefix ++ sanitize_unit_id unit_id

-- `MAINPID=` with a number above 0.
unfoldable pub set_pid : Message → Option ℤ → Message
set_pid m (some (pos (suc n))) = record m { main_pid = pos (suc n); has_pid = true }
set_pid m _ = m

-- One field; keys that are not known are left alone.
unfoldable pub set_field : Message → Text → Text → Message
unfolding text_eq
set_field m key val =
    if text_eq key (bytes "READY")
    then (if text_eq val (bytes "1") then record m { ready = true } else m)
    else if text_eq key (bytes "WATCHDOG")
    then (if text_eq val (bytes "1") then record m { watchdog = true } else m)
    else if text_eq key (bytes "STATUS")
    then record m { status = val }
    else if text_eq key (bytes "MAINPID")
    then set_pid m (atoi val)
    else m

unfoldable pub read_cut : Message → Text × Option Text → Message
read_cut m (key, none) = m
read_cut m (key, some val) = set_field m key val

-- One line of the loop of `Parse`. An empty line has no `=`.
unfoldable pub read_line : Message → Text → Message
unfolding read_cut
read_line m line = read_cut m (cut b'=' line)

unfoldable pub read_fields : Message → List Text → Message
unfolding read_line
read_fields m [] = m
read_fields m (line ∷ lines) = read_fields (read_line m line) lines

-- `Parse`.
unfoldable pub parse : Text → Message
parse s = read_fields no_message (split 10 (unix_lines s))

abbrev pub flag : Text → Bool → Text
flag key b = if b then (key ++ bytes "=1") ++ 10 ∷ [] else []

abbrev pub status_line : Text → Text
status_line [] = []
status_line (c ∷ s) = (bytes "STATUS=" ++ (c ∷ s)) ++ 10 ∷ []

-- `%d`.
unfoldable pub decimal_int : ℤ → Text
decimal_int (pos n) = decimal n
decimal_int (negsuc n) = b'-' ∷ decimal (n + 1)

abbrev pub positive : ℤ → Bool
positive (pos zero) = false
positive (pos (suc n)) = true
positive (negsuc n) = false

abbrev pub pid_line : Bool → ℤ → Text
pid_line has pid =
    if has || positive pid then (bytes "MAINPID=" ++ decimal_int pid) ++ 10 ∷ [] else []

-- `Format`.
unfoldable pub format : Message → Text
unfolding decimal_int
format m =
    flag (bytes "READY") m.ready
    ++ (flag (bytes "WATCHDOG") m.watchdog
        ++ (status_line m.status ++ pid_line m.has_pid m.main_pid))

-- What `ReadLines` passes on, of the lines that its scanner finds.
unfoldable pub read_lines : List Text → List Message
unfolding parse
read_lines lines =
    filter (λ m. m.ready || (m.watchdog || (not (text_eq m.status []) || m.has_pid)))
      (map parse (filter (λ line. not (text_eq line [])) lines))
