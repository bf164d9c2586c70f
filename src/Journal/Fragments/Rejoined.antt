-- ===== src/Journal/Fragments/Rejoined.antt =====
-- The size and the marks of the fragments, and the lines that they are parts of.
use mathlib.Core.List.{append_assoc, append-nil}
use winunitd.Common.{
  ℕ, ◌+◌, ◌≤◌, Bool, true, false, ◌||◌, not, List, [], ◌∷◌, ◌++◌, ◌≡◌, ◌≢◌, refl, sym, ap, ◌∙◌,
  arith, inl, inr, if◌then◌else◌, ltb, ◌==◌, All, Bool-cases,
}
use winunitd.Common.Strings.{Without, Without-append}
use winunitd.Journal.Fragments.{
  Fragment, max_capture_fragment, rune_len, byte_len, trim_returns, is_empty, emit_line, emit_rest,
  fragments_from, capture_fragments,
}

-- A line where it is not empty, and the lines behind it.
abbrev pub keep_line : List ℕ → List (List ℕ) → List (List ℕ)
keep_line [] rest = rest
keep_line (c ∷ s) rest = (c ∷ s) ∷ rest

-- The lines of a text that are not empty, where the first has begun.
unfoldable pub lines_from : List ℕ → List ℕ → List (List ℕ)
lines_from cur [] = keep_line cur []
lines_from cur (ch ∷ s) = elim (ch == 10) [
  | true ↦ keep_line cur (lines_from [] s)
  | false ↦ lines_from (cur ++ ch ∷ []) s
]

-- What a reader gets who puts a partial message before the next one.
unfoldable pub rejoin : List ℕ → List Fragment → List (List ℕ)
rejoin cur [] = keep_line cur []
rejoin cur (f ∷ fs) = elim f.partial [
  | true ↦ rejoin (cur ++ f.message) fs
  | false ↦ (cur ++ f.message) ∷ rejoin [] fs
]

-- Every message continues the one before it exactly if that one is partial.
abbrev pub Continues : Bool → List Fragment → Type 0
Continues before [] = Unit
Continues before (f ∷ fs) = (f.continuation ≡ before) × Continues f.partial fs

byte_len-append : (s t : List ℕ) → byte_len (s ++ t) ≡ byte_len s + byte_len t
byte_len-append [] t = omega arith
byte_len-append (r ∷ s) t = omega (arith, byte_len-append s t)

byte_len-trim_returns : (s : List ℕ) → byte_len (trim_returns s) ≤ byte_len s
unfolding trim_returns
byte_len-trim_returns [] = omega arith
byte_len-trim_returns (c ∷ s) = trimmed (trim_returns s) (byte_len-trim_returns s)
  where
    trimmed :
        (t : List ℕ)
        → byte_len t ≤ byte_len s
        → byte_len (elim t [ [] ↦ if c == 13 then [] else c ∷ [] | d ∷ t ↦ c ∷ d ∷ t ])
          ≤ rune_len c + byte_len s
    trimmed [] h = ground arith
    trimmed (d ∷ t) h = omega (arith, h)

trim_returns-Without : (s : List ℕ) → Without 13 s → trim_returns s ≡ s
unfolding trim_returns
trim_returns-Without [] h = refl
trim_returns-Without (c ∷ []) h = rw h.0 refl
trim_returns-Without (c ∷ d ∷ s) h = rw (trim_returns-Without (d ∷ s) h.1) refl

abbrev Bounded : List Fragment → Type 0
Bounded = All (λ f. byte_len f.message ≤ max_capture_fragment)

emit_line-Bounded :
    (msg : List ℕ) (k : Bool) (rest : List Fragment)
    → byte_len msg ≤ max_capture_fragment
    → Bounded rest
    → Bounded (emit_line msg k rest)
emit_line-Bounded msg k rest h hs = elim (Bool-cases (not (is_empty msg) || k)) [
  | inl e ↦ rw e (h, hs)
  | inr e ↦ rw e hs
]

emit_rest-Bounded :
    (buf : List ℕ) (k : Bool) → byte_len buf ≤ max_capture_fragment → Bounded (emit_rest buf k)
emit_rest-Bounded [] k h = tt
emit_rest-Bounded (c ∷ buf) k h = (h, tt)

fragments_from-Bounded :
    (buf : List ℕ) (k : Bool) (s : List ℕ)
    → byte_len buf ≤ max_capture_fragment
    → Bounded (fragments_from buf k s)
unfolding fragments_from
fragments_from-Bounded buf k [] h = emit_rest-Bounded buf k h
fragments_from-Bounded buf k (ch ∷ s) h = elim (Bool-cases (ch == 10)) [
  | inl e ↦
      rw (fragments_from, e)
        (emit_line-Bounded (trim_returns buf) k (fragments_from [] false s)
          (omega (arith, h, byte_len-trim_returns buf))
          (fragments_from-Bounded [] false s (omega arith)))
  | inr e ↦ elim (Bool-cases (ltb max_capture_fragment (byte_len buf + rune_len ch))) [
    | inl over ↦
        rw (fragments_from, e, over) (h, fragments_from-Bounded (ch ∷ []) true s (ground arith))
    | inr fits ↦
        let sum : byte_len buf + rune_len ch ≤ max_capture_fragment = ground arith in
        rw (fragments_from, e, fits)
          (fragments_from-Bounded (buf ++ ch ∷ []) k s
            (omega (arith, sum, byte_len-append buf (ch ∷ []))))
  ]
]

emit_rest-Continues : (buf : List ℕ) (k : Bool) → Continues k (emit_rest buf k)
emit_rest-Continues [] k = tt
emit_rest-Continues (c ∷ buf) k = (refl, tt)

emit_line-Continues :
    (msg : List ℕ) (k : Bool) (rest : List Fragment)
    → Continues false rest
    → Continues k (emit_line msg k rest)
emit_line-Continues [] true rest h = (refl, h)
emit_line-Continues [] false rest h = h
emit_line-Continues (c ∷ msg) k rest h = (refl, h)

fragments_from-Continues :
    (buf : List ℕ) (k : Bool) (s : List ℕ) → Continues k (fragments_from buf k s)
unfolding fragments_from
fragments_from-Continues buf k [] = emit_rest-Continues buf k
fragments_from-Continues buf k (ch ∷ s) = elim (Bool-cases (ch == 10)) [
  | inl e ↦
      rw (fragments_from, e)
        (emit_line-Continues (trim_returns buf) k (fragments_from [] false s)
          (fragments_from-Continues [] false s))
  | inr e ↦ elim (Bool-cases (ltb max_capture_fragment (byte_len buf + rune_len ch))) [
    | inl over ↦ rw (fragments_from, e, over) (refl, fragments_from-Continues (ch ∷ []) true s)
    | inr fits ↦ rw (fragments_from, e, fits) (fragments_from-Continues (buf ++ ch ∷ []) k s)
  ]
]

-- What came before a fragment is empty exactly if the fragment continues nothing.
abbrev Begun : Bool → List ℕ → Type 0
Begun true cur = cur ≢ []
Begun false cur = cur ≡ []

append_ne_nil : (s t : List ℕ) → t ≢ [] → s ++ t ≢ []
append_ne_nil [] t h = h
append_ne_nil (c ∷ s) t h = λ e. cc

keep_line_ne_nil : (s : List ℕ) (rest : List (List ℕ)) → s ≢ [] → keep_line s rest ≡ s ∷ rest
keep_line_ne_nil [] rest h = elim (h refl) [ ]
keep_line_ne_nil (c ∷ s) rest h = refl

rejoin-emit_rest :
    (cur buf : List ℕ) (k : Bool) → rejoin cur (emit_rest buf k) ≡ keep_line (cur ++ buf) []
unfolding rejoin
rejoin-emit_rest cur [] k = rw append-nil refl
rejoin-emit_rest cur (c ∷ buf) k = refl

rejoin-emit_line :
    (cur buf : List ℕ) (k : Bool) (rest : List Fragment)
    → Begun k cur
    → rejoin cur (emit_line buf k rest) ≡ keep_line (cur ++ buf) (rejoin [] rest)
unfolding rejoin
rejoin-emit_line cur [] true rest h =
    sym (keep_line_ne_nil (cur ++ []) (rejoin [] rest) (rw append-nil h))
rejoin-emit_line cur [] false rest h = rw h refl
rejoin-emit_line cur (c ∷ buf) k rest h =
    sym (keep_line_ne_nil (cur ++ c ∷ buf) (rejoin [] rest) (append_ne_nil cur (c ∷ buf) (λ e. cc)))

-- A message that is full is not empty.
full :
    (buf : List ℕ) (ch : ℕ)
    → ltb max_capture_fragment (byte_len buf + rune_len ch) ≡ true
    → buf ≢ []
full [] ch h = ground arith
full (c ∷ buf) ch h = λ e. cc

rejoin-fragments_from :
    (cur buf : List ℕ) (k : Bool) (s : List ℕ)
    → Begun k cur
    → Without 13 buf
    → Without 13 s
    → rejoin cur (fragments_from buf k s) ≡ lines_from (cur ++ buf) s
unfolding fragments_from lines_from rejoin
rejoin-fragments_from cur buf k [] h n m = rejoin-emit_rest cur buf k
rejoin-fragments_from cur buf k (ch ∷ s) h n m = elim (Bool-cases (ch == 10)) [
  | inl e ↦
      rw (fragments_from, lines_from, e, trim_returns-Without buf n)
        (rejoin-emit_line cur buf k (fragments_from [] false s) h
          ∙ ap (keep_line (cur ++ buf)) (rejoin-fragments_from [] [] false s refl tt m.1))
  | inr e ↦ elim (Bool-cases (ltb max_capture_fragment (byte_len buf + rune_len ch))) [
    | inl over ↦
        rw (fragments_from, lines_from, e, over)
          (rejoin-fragments_from (cur ++ buf) (ch ∷ []) true s
            (append_ne_nil cur buf (full buf ch over)) (m.0, tt) m.1)
    | inr fits ↦
        rw (fragments_from, lines_from, e, fits)
          (rejoin-fragments_from cur (buf ++ ch ∷ []) k s h
              (Without-append 13 buf (ch ∷ []) n (m.0, tt)) m.1
            ∙ ap (λ t. lines_from t s) (sym (append_assoc cur buf (ch ∷ []))))
  ]
]

-- The messages, and how they are marked.
pub record IsMarked (fs : List Fragment) : Type 0 where
  pub bounded : All (λ f. byte_len f.message ≤ max_capture_fragment) fs
  pub continues : Continues false fs

-- Every message of an output has at most 64 KiB, and is marked as a continuation exactly if the one
-- before it is partial.
pub capture_fragments-IsMarked : (s : List ℕ) → IsMarked (capture_fragments s)
unfolding capture_fragments
capture_fragments-IsMarked s = record {
  bounded = fragments_from-Bounded [] false s (omega arith);
  continues = fragments_from-Continues [] false s;
}

-- Where an output has no carriage return, its messages, with every partial one put before the next,
-- are its lines that are not empty, in order and whole.
pub rejoin-capture_fragments :
    (s : List ℕ) → Without 13 s → rejoin [] (capture_fragments s) ≡ lines_from [] s
unfolding capture_fragments
rejoin-capture_fragments s m = rejoin-fragments_from [] [] false s refl tt m
