-- ===== src/Journal/Name/Coded.antt =====
-- Names of units in the names of files, and back.
use winunitd.Common.{
  ℕ, ◌/◌, ◌%◌, ◌<◌, true, false, ◌||◌, none, some, [], ◌∷◌, ◌++◌, ◌≡◌, ◌≢◌, refl, sym, ap, ◌∙◌,
  arith, ◌==◌, All, Bool-cases, inl, inr, length, length-append,
}
use winunitd.Common.Strings.{cut}
use winunitd.Common.Text.{Text, bytes, text_eq, to_lower, lower, eq_of_text_eq, text_eq_refl}
use winunitd.Journal.Name.{
  canonical_unit, safe_file_byte, hex_digit, percent, encode_bytes, reserved_device_name,
  encode_last, encode_device, encode_reserved_file_name, unknown, file_stem, file_of,
  unit_file_name, hex_value, hex_pair, escape_value, decode_bytes, cut_suffix,
  decode_unit_file_name,
}

-- A text that stands for another: each byte plain, or as `%` and two digits.
data Coded : Text → Text → Type 0 where
  nil : Coded [] []
  plain : (c : ℕ) {s t : Text} → (c == b'%') ≡ false → Coded s t → Coded (c ∷ s) (c ∷ t)
  escaped : (c : ℕ) {s t : Text} → c < 256 → Coded s t → Coded (percent c ++ s) (c ∷ t)

hex_value-hex_digit : (d : ℕ) → d < 16 → hex_value (hex_digit d) ≡ some d
unfolding hex_value
hex_value-hex_digit d h = ground arith

escape_value-percent :
    (c : ℕ) → c < 256 → escape_value b'%' (hex_digit (c / 16)) (hex_digit (c % 16)) ≡ some c
unfolding escape_value hex_pair
escape_value-percent c h =
    rw (hex_value-hex_digit (c / 16) (omega arith), hex_value-hex_digit (c % 16) (omega arith))
      (ap some (omega arith))

escape_value-plain : (c a b : ℕ) → (c == b'%') ≡ false → escape_value c a b ≡ none
unfolding escape_value
escape_value-plain c a b h = rw h refl

decode_bytes-plain :
    (c : ℕ) (s : Text) → (c == b'%') ≡ false → decode_bytes (c ∷ s) ≡ c ∷ decode_bytes s
unfolding decode_bytes
decode_bytes-plain c [] h = refl
decode_bytes-plain c (a ∷ []) h = refl
decode_bytes-plain c (a ∷ b ∷ s) h = rw (escape_value-plain c a b h, decode_bytes) refl

decode_bytes-Coded : {s t : Text} → Coded s t → decode_bytes s ≡ t
decode_bytes-Coded nil = unfold decode_bytes in refl
decode_bytes-Coded (plain c {s} h k) =
    decode_bytes-plain c s h ∙ ap (λ t. c ∷ t) (decode_bytes-Coded k)
decode_bytes-Coded (escaped c {s} h k) =
    decode_escaped c s h ∙ ap (λ t. c ∷ t) (decode_bytes-Coded k)
  where
    decode_escaped :
        (d : ℕ) (r : Text) → d < 256 → decode_bytes (percent d ++ r) ≡ d ∷ decode_bytes r
    decode_escaped d r b = unfold decode_bytes in rw (escape_value-percent d b, decode_bytes) refl

encode_bytes-Coded : (s : Text) → All (λ c. c < 256) s → Coded (encode_bytes s) s
unfolding encode_bytes
encode_bytes-Coded [] h = nil
encode_bytes-Coded (c ∷ s) h = elim (Bool-cases (safe_file_byte c)) [
  | inl f ↦ rw f (plain c (safe_plain c f) (encode_bytes-Coded s h.1))
  | inr f ↦ rw f (escaped c h.0 (encode_bytes-Coded s h.1))
]
  where
    safe_plain : (d : ℕ) → safe_file_byte d ≡ true → (d == b'%') ≡ false
    safe_plain d g = unfold safe_file_byte in ground arith

-- A dot or a space at the end may be encoded too.
hex_digit_end : (d : ℕ) → d < 16 → (hex_digit d == b'.' || hex_digit d == b' ') ≡ false
hex_digit_end d h = ground arith

-- A code of a text stays one behind more bytes.
encode_last-percent :
    (c d : ℕ) (s : Text) → encode_last (percent c ++ (d ∷ s)) ≡ percent c ++ encode_last (d ∷ s)
unfolding encode_last
encode_last-percent c d s = refl

encode_last-Coded : {s t : Text} → Coded s t → All (λ c. c < 256) t → Coded (encode_last s) t
unfolding encode_last
encode_last-Coded nil h = nil
encode_last-Coded (plain c nil_p nil) h = elim (Bool-cases (c == b'.' || c == b' ')) [
  | inl e ↦ rw e (escaped c h.0 nil)
  | inr e ↦ rw e (plain c nil_p nil)
]
encode_last-Coded (plain c p (plain d q k)) h = plain c p (encode_last-Coded (plain d q k) h.1)
encode_last-Coded (plain c p (escaped d q k)) h = plain c p (encode_last-Coded (escaped d q k) h.1)
encode_last-Coded (escaped c p nil) h = rw (hex_digit_end (c % 16) (omega arith)) (escaped c p nil)
encode_last-Coded (escaped c p (plain d q k)) h = escaped c p (encode_last-Coded (plain d q k) h.1)
encode_last-Coded (escaped c p (escaped d q k)) h =
    escaped c p (encode_last-Coded (escaped d q k) h.1)

-- No device name starts with `%`.
percent_not_reserved : (s : Text) → reserved_device_name (b'%' ∷ s) ≡ false
unfolding reserved_device_name to_lower text_eq lower
percent_not_reserved [] = refl
percent_not_reserved (a ∷ []) = refl
percent_not_reserved (a ∷ b ∷ []) = refl
percent_not_reserved (a ∷ b ∷ c ∷ []) = refl
percent_not_reserved (a ∷ b ∷ c ∷ d ∷ s) = refl

encode_device-Coded : {s t : Text} → Coded s t → All (λ c. c < 256) t → Coded (encode_device s) t
unfolding encode_device
encode_device-Coded nil h = nil
encode_device-Coded (plain c {s} p k) h =
    elim (Bool-cases (reserved_device_name (cut b'.' (c ∷ s)).0)) [
      | inl e ↦ rw e (escaped c h.0 k)
      | inr e ↦ rw e (plain c p k)
    ]
encode_device-Coded (escaped c {s} p k) h =
    rw (percent_stem (hex_digit (c / 16) ∷ hex_digit (c % 16) ∷ s)) (escaped c p k)
  where
    percent_stem : (r : Text) → reserved_device_name (cut b'.' (b'%' ∷ r)).0 ≡ false
    percent_stem r = unfold cut in percent_not_reserved (cut b'.' r).0

-- A text that codes for another name than `w` is not `w`, which codes for itself.
code_differs :
    {s t : Text} → Coded s t → (w : Text) → decode_bytes w ≡ w → t ≢ w → text_eq s w ≡ false
code_differs {s} {t} k w d h = elim (Bool-cases (text_eq s w)) [
  | inr e ↦ e
  | inl e ↦ absurd (h (sym (decode_bytes-Coded k) ∙ ap decode_bytes (eq_of_text_eq s w e) ∙ d))
]

cut_suffix-append :
    (s : Text) (c : ℕ) (suffix : Text) → cut_suffix (c ∷ suffix) (s ++ (c ∷ suffix)) ≡ some s
unfolding cut_suffix
cut_suffix-append [] c suffix = rw (text_eq_refl (c ∷ suffix), cut_suffix) refl
cut_suffix-append (d ∷ s) c suffix = rw (longer d s (c ∷ suffix), cut_suffix-append s c suffix) refl
  where
    longer : (e : ℕ) (r w : Text) → text_eq ((e ∷ r) ++ w) w ≡ false
    longer e r w = elim (Bool-cases (text_eq ((e ∷ r) ++ w) w)) [
      | inr f ↦ f
      | inl f ↦
          absurd (
            omega
              (arith, ap length (eq_of_text_eq ((e ∷ r) ++ w) w f), length-append {0} (e ∷ r) w))
    ]

decode_dot : decode_bytes (bytes ".") ≡ bytes "."
unfolding decode_bytes
decode_dot = refl

decode_dots : decode_bytes (bytes "..") ≡ bytes ".."
unfolding decode_bytes
decode_dots = refl

decode_unknown : decode_bytes unknown ≡ unknown
unfolding decode_bytes escape_value
decode_unknown = refl

decode_nil : decode_bytes [] ≡ []
unfolding decode_bytes
decode_nil = refl

file_stem-Coded :
    (t : Text)
    → All (λ c. c < 256) t
    → t ≢ []
    → t ≢ bytes "."
    → t ≢ bytes ".."
    → Coded (file_stem (encode_bytes t)) t
unfolding file_stem encode_reserved_file_name
file_stem-Coded t h n d e =
    let k = encode_bytes-Coded t h in
    rw
      (
        code_differs k [] decode_nil n,
        code_differs k (bytes ".") decode_dot d,
        code_differs k (bytes "..") decode_dots e,
      )
      (encode_device-Coded (encode_last-Coded k h) h)

file_of-stem : (t : Text) → t ≢ [] → file_of t ≡ file_stem (encode_bytes t) ++ bytes ".log"
unfolding file_of
file_of-stem [] n = absurd (n refl)
file_of-stem (c ∷ t) n = refl

decode_stem :
    (s : Text)
    → text_eq s unknown ≡ false
    → decode_unit_file_name (s ++ bytes ".log") ≡ some (decode_bytes s)
unfolding decode_unit_file_name
decode_stem s h =
    let found : cut_suffix (bytes ".log") (s ++ bytes ".log") ≡ some s =
      cut_suffix-append s b'.' (bytes "log") in
    rw (found, h, decode_unit_file_name) refl

-- The canonical name of a unit, of bytes and other than the empty name, `.`, `..` and `_unknown`,
-- comes back from the name of its journal file.
pub decode_unit_file_name-unit_file_name :
    (unit : Text)
    → All (λ c. c < 256) (canonical_unit unit)
    → canonical_unit unit ≢ []
    → canonical_unit unit ≢ bytes "."
    → canonical_unit unit ≢ bytes ".."
    → canonical_unit unit ≢ unknown
    → decode_unit_file_name (unit_file_name unit) ≡ some (canonical_unit unit)
unfolding unit_file_name
decode_unit_file_name-unit_file_name unit h n d e u =
    let t = canonical_unit unit in
    let k = file_stem-Coded t h n d e in
    ap decode_unit_file_name (file_of-stem t n)
    ∙ decode_stem (file_stem (encode_bytes t)) (code_differs k unknown decode_unknown u)
    ∙ ap some (decode_bytes-Coded k)
