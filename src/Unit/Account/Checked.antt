-- ===== src/Unit/Account/Checked.antt =====
-- The accounts that are accepted.
use winunitd.Common.{
  ℕ, true, false, List, [], ◌∷◌, ◌≡◌, arith, ◌⊎◌, inl, inr, Bool-cases, if◌then◌else◌, ◌==◌,
}
use winunitd.Common.Strings.{split, cons_head}
use winunitd.Common.Text.{Text, bytes, text_eq, trim_space, to_lower, lower, has_prefix, has_suffix}
use winunitd.Unit.Account.{
  ServiceType, takes_user, default_launch, account, refused, needs_format_2, unsupported_type,
  no_account, unsupported_service_account, not_an_account, bad_sid, system_account_names,
  service_account_names, in_names, nt_authority, trim_prefix, malformed, sid_parts,
  valid_sid_string, canonical_sid, check_account, finish_user,
}

-- The name of an account, as it is compared.
abbrev pub plain_name : Text → Text
plain_name a = trim_prefix (to_lower a) nt_authority

-- An account that is neither one of the system's nor misspelt.
pub record IsOrdinary (a : Text) : Type 0 where
  pub not_system : in_names system_account_names (plain_name a) ≡ false
  pub not_service : in_names service_account_names (plain_name a) ≡ false
  pub well_formed : malformed a ≡ false

-- The first letter of a SID, whose other letters are split already.
first_letter :
    (c : ℕ) (rest : List Text)
    → sid_parts (if c == b'-' then [] ∷ rest else cons_head c rest) ≡ true
    → (c ≡ b's') ⊎ (c ≡ b'S')
unfolding text_eq to_lower lower
first_letter c [] h = ground arith
first_letter c (s ∷ []) h = ground arith
first_letter c (s ∷ p ∷ []) h = ground arith
first_letter c (s ∷ p ∷ q ∷ ps) h = ground arith

-- The canonical form of a SID is compared as the SID is.
canonical-IsOrdinary :
    (value : Text)
    → valid_sid_string value ≡ true
    → IsOrdinary value
    → IsOrdinary (canonical_sid value)
unfolding valid_sid_string split to_lower lower malformed has_suffix has_prefix text_eq
canonical-IsOrdinary [] h o = o
canonical-IsOrdinary (c ∷ s) h o = elim (first_letter c (split b'-' s) h) [
  | inl e ↦
      let small : IsOrdinary (b's' ∷ s) = (rw e at o) in
      record {
        not_system = small.not_system;
        not_service = small.not_service;
        well_formed = small.well_formed;
      }
  | inr e ↦ (rw e at o)
]

-- An account is accepted only if it is ordinary.
check_account-IsOrdinary :
    (value a : Text) → check_account value (plain_name value) ≡ account a → IsOrdinary a
unfolding check_account
check_account-IsOrdinary value a h =
    elim (Bool-cases (in_names system_account_names (plain_name value))) [
      | inl e ↦ let no : default_launch ≡ account a = (rw (check_account, e) at h) in cc
      | inr sys ↦ elim (Bool-cases (in_names service_account_names (plain_name value))) [
        | inl e ↦
            let no : refused unsupported_service_account ≡ account a =
              (rw (check_account, sys, e) at h) in
            cc
        | inr svc ↦ elim (Bool-cases (malformed value)) [
          | inl e ↦
              let no : refused not_an_account ≡ account a =
                (rw (check_account, sys, svc, e) at h) in
              cc
          | inr ok ↦
              let plain : IsOrdinary value = record {
                not_system = sys;
                not_service = svc;
                well_formed = ok;
              } in
              elim (Bool-cases (has_prefix (plain_name value) (bytes "s-"))) [
                | inr e ↦
                    let same : account value ≡ account a =
                      (rw (check_account, sys, svc, ok, e) at h) in
                    let eq : value ≡ a = cc in (rw eq at plain)
                | inl e ↦ elim (Bool-cases (valid_sid_string value)) [
                  | inr k ↦
                      let no : refused bad_sid ≡ account a =
                        (rw (check_account, sys, svc, ok, e, k) at h) in
                      cc
                  | inl k ↦
                      let same : account (canonical_sid value) ≡ account a =
                        (rw (check_account, sys, svc, ok, e, k) at h) in
                      let eq : canonical_sid value ≡ a = cc in
                      let sid = canonical-IsOrdinary value k plain in (rw eq at sid)
                ]
              ]
        ]
      ]
    ]

-- A unit's processes are put under an account only in format 2 and for a type that takes one. The
-- account, a SID in its canonical form, is not LocalSystem, LocalService or NetworkService in a
-- spelling that the parser knows, and has no slash, no control character, no backslash at an end and
-- not two of them.
pub finish_user-IsOrdinary :
    (format_version : ℕ) (type : ServiceType) (user a : Text)
    → finish_user format_version type user ≡ account a
    → (format_version ≡ 2) × (takes_user type ≡ true) × IsOrdinary a
unfolding finish_user
finish_user-IsOrdinary v type user a h = elim (Bool-cases (v == 2)) [
  | inr e ↦ let no : refused needs_format_2 ≡ account a = (rw (finish_user, e) at h) in cc
  | inl e ↦ elim (Bool-cases (takes_user type)) [
    | inr t ↦ let no : refused unsupported_type ≡ account a = (rw (finish_user, e, t) at h) in cc
    | inl t ↦ elim (Bool-cases (text_eq (trim_space user) [])) [
      | inl n ↦ let no : refused no_account ≡ account a = (rw (finish_user, e, t, n) at h) in cc
      | inr n ↦
          let checked : check_account (trim_space user) (plain_name (trim_space user)) ≡ account a =
            (rw (finish_user, e, t, n) at h) in
          (ground arith, t, check_account-IsOrdinary (trim_space user) a checked)
    ]
  ]
]
