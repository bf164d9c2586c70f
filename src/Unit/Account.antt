-- ===== src/Unit/Account.antt =====
-- internal/unit/user.go: the account that the processes of a system unit run as. Letters and control
-- characters are those of ASCII.
pub mod Checked
use winunitd.Common.{
  Option, none, some, ℕ, Bool, true, false, ◌&&◌, ◌||◌, not, List, [], ◌∷◌, if◌then◌else◌, ltb,
  ◌==◌, count,
}
use winunitd.Common.Decimal.{is_digit}
use winunitd.Common.Strings.{split, only}
use winunitd.Common.Text.{Text, bytes, text_eq, trim_space, to_lower, has_prefix, has_suffix}

-- `ServiceType`.
pub data ServiceType : Type 0 where
  simple oneshot notify scm scheduled_task : ServiceType

abbrev pub takes_user : ServiceType → Bool
takes_user simple = true
takes_user oneshot = true
takes_user notify = true
takes_user scm = false
takes_user scheduled_task = false

pub data UserIssue : Type 0 where
  needs_format_2 unsupported_type no_account unsupported_service_account : UserIssue
  not_an_account bad_sid system_units_only : UserIssue

-- What becomes of User=: the ordinary launch, an account, or an issue.
pub data UserCheck : Type 0 where
  default_launch : UserCheck
  account : Text → UserCheck
  refused : UserIssue → UserCheck

abbrev pub system_account_names : List Text
system_account_names = bytes "system" ∷ bytes "localsystem" ∷ bytes "s-1-5-18" ∷ []

abbrev pub service_account_names : List Text
service_account_names =
    bytes "localservice"
    ∷ bytes "local service"
    ∷ bytes "networkservice"
    ∷ bytes "network service"
    ∷ bytes "s-1-5-19"
    ∷ bytes "s-1-5-20"
    ∷ []

-- `containsName`.
unfoldable pub in_names : List Text → Text → Bool
unfolding text_eq
in_names [] name = false
in_names (n ∷ names) name = text_eq n name || in_names names name

abbrev pub nt_authority : Text
nt_authority = bytes "nt authority\\"

-- `strings.TrimPrefix`.
unfoldable pub trim_prefix : Text → Text → Text
unfolding has_prefix
trim_prefix s p = if has_prefix s p then behind s p else s
  where
    behind : Text → Text → Text
    behind s [] = s
    behind [] (c ∷ p) = []
    behind (d ∷ s) (c ∷ p) = behind s p

-- A control character or a slash.
abbrev pub is_foreign : ℕ → Bool
is_foreign c = ltb c 0x20 || (c == 0x7F || c == b'/')

abbrev pub some_byte : (ℕ → Bool) → Text → Bool
some_byte p [] = false
some_byte p (c ∷ s) = p c || some_byte p s

unfoldable pub malformed : Text → Bool
malformed value =
    ltb 1 (count (λ c. c == 0x5C) value)
    || (has_prefix value (0x5C ∷ [])
        || (has_suffix value (0x5C ∷ []) || some_byte is_foreign value))

abbrev pub decimal_part : Text → Bool
decimal_part [] = false
decimal_part (c ∷ s) = only is_digit (c ∷ s)

abbrev pub decimal_parts : List Text → Bool
decimal_parts [] = true
decimal_parts (p ∷ ps) = decimal_part p && decimal_parts ps

-- The parts of a SID between its hyphens, of which there are three at least.
abbrev pub sid_parts : List Text → Bool
sid_parts (s ∷ one ∷ authority ∷ rest) =
    text_eq (to_lower s) (bytes "s")
    && (text_eq one (bytes "1") && decimal_parts (authority ∷ rest))
sid_parts _ = false

-- `validSIDString`.
unfoldable pub valid_sid_string : Text → Bool
unfolding text_eq to_lower split
valid_sid_string s = sid_parts (split b'-' s)

-- `"S" + value[1:]`.
abbrev pub canonical_sid : Text → Text
canonical_sid [] = []
canonical_sid (c ∷ s) = b'S' ∷ s

-- The tests behind those of the format and the type, of the trimmed value and its name in lower case.
unfoldable pub check_account : Text → Text → UserCheck
unfolding in_names malformed valid_sid_string
check_account value name =
    if in_names system_account_names name
    then default_launch
    else if in_names service_account_names name
    then refused unsupported_service_account
    else if malformed value
    then refused not_an_account
    else if has_prefix name (bytes "s-")
    then (if valid_sid_string value then account (canonical_sid value) else refused bad_sid)
    else account value

-- `finishUser`, of a unit that has User=.
unfoldable pub finish_user : ℕ → ServiceType → Text → UserCheck
unfolding check_account
finish_user format_version type user =
    let value = trim_space user in
    if not (format_version == 2)
    then refused needs_format_2
    else if not (takes_user type)
    then refused unsupported_type
    else if text_eq value []
    then refused no_account
    else check_account value (trim_prefix (to_lower value) nt_authority)

-- `UserScopeIssues`, with whether the service of the unit, where there is one, has User=.
unfoldable pub user_scope_issues : (user_scope : Bool) → Option Bool → List UserIssue
user_scope_issues true (some true) = system_units_only ∷ []
user_scope_issues true (some false) = []
user_scope_issues true none = []
user_scope_issues false declared = []
