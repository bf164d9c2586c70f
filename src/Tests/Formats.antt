-- ===== src/Tests/Formats.antt =====
-- Releases, file names, notify messages and unit files.
use winunitd.Common.{ℕ, ◌<◌, true, false, some, List, [], ◌∷◌, ◌≡◌, ◌≢◌, refl, All, arith, filter}
use winunitd.Common.Decimal.{parse_uint, digits_value, all_digits}
use winunitd.Common.Int.{pos}
use winunitd.Common.Order.{Ordering, flip}
use winunitd.Common.Strings.{cut, split, only}
use winunitd.Common.Text.{Text, bytes, text_eq, text_eq_iff, trim_space, to_lower}
use winunitd.Core.Names.{contains_name, sort_names}
use winunitd.Journal.Name.{canonical_unit, decode_unit_file_name, unit_file_name, unknown}
use winunitd.Journal.Name.Coded.{decode_unit_file_name-unit_file_name}
use winunitd.Notify.Protocol.{parse, format}
use winunitd.Notify.Protocol.RoundTrip.{msg, parse-format}
use winunitd.Servicing.Floor.{
  Floor, Build, within, evaluate, not_above, version_within, compared_reasons, version_reasons,
  feature_reasons, clean_reasons,
}
use winunitd.Servicing.Floor.Lowering.{within-evaluate}
use winunitd.Servicing.Release.{
  Release, parse_release, compare_releases, release_of, numeric_identifier,
  valid_prerelease_identifier, alnum_hyphen, compare_pre,
}
use winunitd.Servicing.Release.Ordered.{compare_releases_total}
use winunitd.Unit.Ini.{IniEntry, IniSection, parse_ini, is_line_continuation}
use winunitd.Unit.Ini.Printing.{print_ini, numbered, IsPlainEntry, IsPlainSection}
use winunitd.Unit.Ini.RoundTrip.{parse_ini-print_ini}

abbrev release : ℕ → ℕ → ℕ → List Text → Release
release a b c pre = record { major = a; minor = b; patch = c; pre = pre }

compare_releases_total_example :
    (flip (compare_releases (release 0 2 1 (bytes "beta" ∷ [])) (release 0 2 1 []))
      ≡ compare_releases (release 0 2 1 []) (release 0 2 1 (bytes "beta" ∷ [])))
    × (compare_releases (release 0 2 1 (bytes "beta" ∷ [])) (release 0 2 1 []) ≢ Ordering.gt
        → compare_releases (release 0 2 1 []) (release 0 10 0 []) ≢ Ordering.gt
        → compare_releases (release 0 2 1 (bytes "beta" ∷ [])) (release 0 10 0 []) ≢ Ordering.gt)
compare_releases_total_example =
    compare_releases_total (release 0 2 1 (bytes "beta" ∷ [])) (release 0 2 1 [])
      (release 0 10 0 [])

abbrev floor : Text → List Text → Floor
floor version features = record {
  schema = pos 1;
  min_version = version;
  require_features = features;
  require_clean_build = true;
}

abbrev lower_floor : Floor
lower_floor = floor (bytes "0.2.1-beta") (bytes "timers" ∷ [])

abbrev upper_floor : Floor
upper_floor = floor (bytes "0.3.0") (bytes "journal" ∷ bytes "timers" ∷ [])

abbrev sample_build : Build
sample_build = record {
  version = bytes "0.10.0+win";
  commit = bytes "abc";
  modified = some false;
  features = some (bytes "timers" ∷ bytes "journal" ∷ []);
}

lower_within : within lower_floor upper_floor ≡ true
unfolding within not_above version_within parse_release release_of numeric_identifier
    valid_prerelease_identifier alnum_hyphen compare_releases compare_pre cut split only parse_uint
    digits_value all_digits contains_name text_eq
lower_within = refl

upper_met : evaluate (some upper_floor) sample_build ≡ []
unfolding evaluate compared_reasons version_reasons feature_reasons clean_reasons parse_release
    release_of numeric_identifier valid_prerelease_identifier alnum_hyphen compare_releases
    compare_pre cut split only parse_uint digits_value all_digits contains_name text_eq sort_names
    filter
upper_met = refl

within-evaluate_example : evaluate (some lower_floor) sample_build ≡ []
within-evaluate_example =
    within-evaluate lower_floor upper_floor sample_build lower_within upper_met

abbrev device : Text
device = bytes " CON.Service. "

abbrev device_unit : Text
device_unit = bytes "con.service."

device_canonical : canonical_unit device ≡ device_unit
unfolding canonical_unit trim_space to_lower
device_canonical = refl

differs : (t : Text) → text_eq device_unit t ≡ false → canonical_unit device ≢ t
differs t h e = ground (arith, text_eq_iff device_unit t, device_canonical, e)

device_bytes : All (λ c. c < 256) (canonical_unit device)
device_bytes = rw device_canonical (omega arith)

decode_unit_file_name-unit_file_name_example :
    decode_unit_file_name (unit_file_name device) ≡ some (canonical_unit device)
decode_unit_file_name-unit_file_name_example =
    decode_unit_file_name-unit_file_name device device_bytes (differs [] (unfold text_eq in refl))
      (differs (bytes ".") (unfold text_eq in refl)) (differs (bytes "..") (unfold text_eq in refl))
      (differs unknown (unfold text_eq in refl))

abbrev busy : Text
busy = bytes "a=b"

parse-format_example :
    parse (format (msg true false busy (pos 42) true)) ≡ msg true false busy (pos 42) true
parse-format_example =
    parse-format true false busy 42 (refl, (refl, (refl, tt))) (refl, (refl, (refl, tt)))
      (omega arith)

abbrev directive : Text → Text → IniEntry
directive key value = record { key = key; value = value; line = 0 }

abbrev service_section : IniSection
service_section = record {
  name = bytes "S";
  line = 0;
  entries = directive (bytes "A") (bytes "x") ∷ [];
}

directive_plain : IsPlainEntry (directive (bytes "A") (bytes "x"))
unfolding trim_space is_line_continuation
directive_plain = record {
  one_line = ((refl, (refl, (refl, tt))), (refl, (refl, (refl, tt))));
  key_trimmed = refl;
  key_starts = refl;
  key_whole = (refl, tt);
  value_trimmed = refl;
  no_continuation = refl;
}

cons_ne_nil : ◌≢◌ {A = Text} (bytes "S") []
cons_ne_nil h = cc

service_plain : IsPlainSection service_section
unfolding trim_space
service_plain = record {
  one_line = ((refl, (refl, (refl, tt))), (refl, (refl, (refl, tt))));
  name_trimmed = refl;
  named = cons_ne_nil;
  entries = (directive_plain, tt);
}

parse_ini-print_ini_example :
    parse_ini (print_ini (service_section ∷ []))
    ≡ record { sections = numbered 1 (service_section ∷ []); issues = [] }
parse_ini-print_ini_example = parse_ini-print_ini (service_section ∷ []) (service_plain, tt)
