-- ===== src/Notify/Protocol/RoundTrip.antt =====
-- Messages written and read.
use mathlib.Core.List.{append_assoc, append-nil}
use winunitd.Common.{
  ℕ, zero, suc, ◌^◌, ◌<◌, Bool, true, false, some, [], ◌∷◌, ◌++◌, ◌≡◌, refl, ap, sym, ◌∙◌, arith,
  ◌==◌,
}
use winunitd.Common.Decimal.{
  atoi, decimal, parse_uint, parse_uint-decimal, all_digits, all_digits-decimal, decimal_cons,
  is_digit,
}
use winunitd.Common.Int.{ℤ, pos}
use winunitd.Common.Strings.{cut, split, Without, split-append, unix_lines-Without, Without-append}
use winunitd.Common.Text.{Text, bytes, text_eq}
use winunitd.Notify.Protocol.{
  Message, no_message, set_pid, set_field, read_line, read_fields, parse, flag, status_line,
  positive, decimal_int, pid_line, format,
}

Without-digits : (sep : ℕ) (s : Text) → is_digit sep ≡ false → all_digits s ≡ true → Without sep s
unfolding all_digits
Without-digits sep [] d h = tt
Without-digits sep (c ∷ s) d h =
    (not_sep sep c d (ground arith), Without-digits sep s d (ground arith))
  where
    not_sep : (a b : ℕ) → is_digit a ≡ false → is_digit b ≡ true → (b == a) ≡ false
    not_sep a b h k = unfold is_digit in ground arith

abbrev read_text : Message → Text → Message
read_text m s = read_fields m (split 10 s)

-- A line and its end are read before the rest.
read_text-line :
    (m : Message) (line rest : Text)
    → Without 10 line
    → read_text m ((line ++ 10 ∷ []) ++ rest) ≡ read_text (read_line m line) rest
unfolding read_fields
read_text-line m line rest h =
    rw (append_assoc line (10 ∷ []) rest, split-append 10 line rest h) refl

abbrev pub msg : Bool → Bool → Text → ℤ → Bool → Message
msg r w s p h = record { ready = r; watchdog = w; status = s; main_pid = p; has_pid = h }

line_ready :
    (w : Bool)
    → read_line (msg false w [] (pos 0) false) (bytes "READY=1") ≡ msg true w [] (pos 0) false
unfolding read_line set_field text_eq cut
line_ready w = refl

line_watchdog :
    (r : Bool)
    → read_line (msg r false [] (pos 0) false) (bytes "WATCHDOG=1") ≡ msg r true [] (pos 0) false
unfolding read_line set_field text_eq cut
line_watchdog r = refl

line_status :
    (r w : Bool) (s : Text)
    → read_line (msg r w [] (pos 0) false) (bytes "STATUS=" ++ s) ≡ msg r w s (pos 0) false
unfolding read_line set_field text_eq cut
line_status r w s = refl

line_pid :
    (r w : Bool) (s val : Text)
    → read_line (msg r w s (pos 0) false) (bytes "MAINPID=" ++ val)
      ≡ set_pid (msg r w s (pos 0) false) (atoi val)
unfolding read_line set_field text_eq cut
line_pid r w s val = refl

read_text-ready :
    (b : Bool) (rest : Text)
    → read_text no_message (flag (bytes "READY") b ++ rest)
      ≡ read_text (msg b false [] (pos 0) false) rest
read_text-ready true rest =
    read_text-line no_message (bytes "READY=1") rest
      (refl, (refl, (refl, (refl, (refl, (refl, (refl, tt)))))))
    ∙ ap (λ m. read_text m rest) (line_ready false)
read_text-ready false rest = refl

read_text-watchdog :
    (r b : Bool) (rest : Text)
    → read_text (msg r false [] (pos 0) false) (flag (bytes "WATCHDOG") b ++ rest)
      ≡ read_text (msg r b [] (pos 0) false) rest
read_text-watchdog r true rest =
    read_text-line (msg r false [] (pos 0) false) (bytes "WATCHDOG=1") rest
      (refl, (refl, (refl, (refl, (refl, (refl, (refl, (refl, (refl, (refl, tt))))))))))
    ∙ ap (λ m. read_text m rest) (line_watchdog r)
read_text-watchdog r false rest = refl

read_text-status :
    (r w : Bool) (s rest : Text)
    → Without 10 s
    → read_text (msg r w [] (pos 0) false) (status_line s ++ rest)
      ≡ read_text (msg r w s (pos 0) false) rest
read_text-status r w [] rest h = refl
read_text-status r w (c ∷ s) rest h =
    read_text-line (msg r w [] (pos 0) false) (bytes "STATUS=" ++ (c ∷ s)) rest (
      Without-append 10 (bytes "STATUS=") (c ∷ s)
        (refl, (refl, (refl, (refl, (refl, (refl, (refl, tt))))))) h)
    ∙ ap (λ m. read_text m rest) (line_status r w (c ∷ s))

atoi_of :
    (n c : ℕ) (t : Text)
    → is_digit c ≡ true
    → parse_uint (2 ^ 63) (c ∷ t) ≡ some n
    → atoi (c ∷ t) ≡ some (pos n)
unfolding atoi is_digit
atoi_of n c t d h =
    let minus : (c == b'-') ≡ false = ground arith in
    let plus : (c == b'+') ≡ false = ground arith in rw (minus, plus, h) refl

atoi-decimal : (n : ℕ) → n < 2 ^ 63 → atoi (decimal n) ≡ some (pos n)
atoi-decimal n h =
    let (c, t, e) = decimal_cons n in
    ap atoi e
    ∙ atoi_of n c t (first_digit c t (rw e at (all_digits-decimal n)))
        (rw e at (parse_uint-decimal (2 ^ 63) n h (omega arith)))
  where
    first_digit : (d : ℕ) (r : Text) → all_digits (d ∷ r) ≡ true → is_digit d ≡ true
    first_digit d r k = unfold all_digits in ground arith

read_text_nil : (m : Message) → read_text m [] ≡ m
unfolding read_fields split read_line cut
read_text_nil m = refl

read_text-pid :
    (r w : Bool) (s : Text) (n : ℕ)
    → n < 2 ^ 63
    → read_text (msg r w s (pos 0) false) (pid_line (positive (pos n)) (pos n))
      ≡ msg r w s (pos n) (positive (pos n))
unfolding decimal_int
read_text-pid r w s zero h = read_text_nil (msg r w s (pos 0) false)
read_text-pid r w s (suc n) h =
    let line = bytes "MAINPID=" ++ decimal (suc n) in
    let digits = all_digits-decimal (suc n) in
    let bare =
      Without-append 10 (bytes "MAINPID=") (decimal (suc n))
        (refl, (refl, (refl, (refl, (refl, (refl, (refl, (refl, tt))))))))
        (Without-digits 10 (decimal (suc n)) ten digits) in
    ap (read_text (msg r w s (pos 0) false)) (sym (append-nil (line ++ 10 ∷ [])))
    ∙ read_text-line (msg r w s (pos 0) false) line [] bare
    ∙ read_text_nil (read_line (msg r w s (pos 0) false) line)
    ∙ line_pid r w s (decimal (suc n))
    ∙ ap (set_pid (msg r w s (pos 0) false)) (atoi-decimal (suc n) h)
    ∙ pid_set
  where
    ten : is_digit 10 ≡ false
    ten = unfold is_digit in refl

    pid_set : set_pid (msg r w s (pos 0) false) (some (pos (suc n))) ≡ msg r w s (pos (suc n)) true
    pid_set = unfold set_pid in refl

-- No carriage return is written.
Without-flag : (key : Text) (b : Bool) → Without 13 key → Without 13 (flag key b)
Without-flag key true h =
    Without-append 13 (key ++ bytes "=1") (10 ∷ [])
      (Without-append 13 key (bytes "=1") h (refl, (refl, tt))) (refl, tt)
Without-flag key false h = tt

Without-status_line : (s : Text) → Without 13 s → Without 13 (status_line s)
Without-status_line [] h = tt
Without-status_line (c ∷ s) h =
    Without-append 13 (bytes "STATUS=" ++ (c ∷ s)) (10 ∷ [])
      (Without-append 13 (bytes "STATUS=") (c ∷ s)
        (refl, (refl, (refl, (refl, (refl, (refl, (refl, tt))))))) h)
      (refl, tt)

Without-pid_line : (n : ℕ) → Without 13 (pid_line (positive (pos n)) (pos n))
unfolding decimal_int
Without-pid_line zero = tt
Without-pid_line (suc n) =
    Without-append 13 (bytes "MAINPID=" ++ decimal (suc n)) (10 ∷ [])
      (Without-append 13 (bytes "MAINPID=") (decimal (suc n))
        (refl, (refl, (refl, (refl, (refl, (refl, (refl, (refl, tt))))))))
        (Without-digits 13 (decimal (suc n)) (unfold is_digit in refl)
          (all_digits-decimal (suc n))))
      (refl, tt)

-- A message whose status has no line break and whose process ID, where there is one, is a positive
-- 63-bit number, is read back from what `Format` writes of it.
pub parse-format :
    (ready watchdog : Bool) (status : Text) (pid : ℕ)
    → Without 10 status
    → Without 13 status
    → pid < 2 ^ 63
    → parse (format (msg ready watchdog status (pos pid) (positive (pos pid))))
      ≡ msg ready watchdog status (pos pid) (positive (pos pid))
unfolding parse format
parse-format r w s n h k b =
    let tail = status_line s ++ pid_line (positive (pos n)) (pos n) in
    let whole = flag (bytes "READY") r ++ (flag (bytes "WATCHDOG") w ++ tail) in
    let clean : Without 13 whole =
      Without-append 13 (flag (bytes "READY") r) (flag (bytes "WATCHDOG") w ++ tail)
        (Without-flag (bytes "READY") r (refl, (refl, (refl, (refl, (refl, tt))))))
        (Without-append 13 (flag (bytes "WATCHDOG") w) tail
          (Without-flag (bytes "WATCHDOG") w
            (refl, (refl, (refl, (refl, (refl, (refl, (refl, (refl, tt)))))))))
          (Without-append 13 (status_line s) (pid_line (positive (pos n)) (pos n))
            (Without-status_line s k) (Without-pid_line n))) in
    ap (read_text no_message) (unix_lines-Without whole clean)
    ∙ read_text-ready r (flag (bytes "WATCHDOG") w ++ tail)
    ∙ read_text-watchdog r w tail
    ∙ read_text-status r w s (pid_line (positive (pos n)) (pos n)) h
    ∙ read_text-pid r w s n b
