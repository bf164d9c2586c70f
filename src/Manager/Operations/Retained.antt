-- ===== src/Manager/Operations/Retained.antt =====
-- What a manager remembers of its operations: those under way, and the last of those that ended.
use winunitd.Common.{
  ℕ, ◌+◌, ◌<◌, ◌%◌, ◌^◌, true, false, none, some, List, [], ◌∷◌, ◌++◌, ◌≡◌, refl, sym, ap, ◌∙◌,
  arith, inl, inr, if◌then◌else◌, ltb, ◌==◌, Bool-cases, Option-cases, ◌⊎◌,
}
use winunitd.Common.Text.{Text}
use winunitd.Manager.Operations.{
  Operation, Operations, completed_operation_limit, find_operation, put_operation, delete_operation,
  begin_operation, finish_operation, evict_completed, ended,
}
use winunitd.Manager.Operations.Recent.{
  last_of, last_of-append, or_else, find-put, find-last_of, Distinct, Distinct-append,
  Distinct-last_of,
}
use winunitd.Manager.Operations.History.{
  Log, Call, op_begin, op_finish, log_find, log_call, log_calls, call, calls,
}
use winunitd.Manager.Operations.Eviction.{
  ids, ids-append, evict-found, evict-completed, evict-sequence, none-moved, Apart-none,
  Apart-moved, found-moved,
}

-- The manager remembers what the log says.
pub record IsRemembered (s : Operations) (l : Log) : Type 0 where
  pub found : (k : ℕ) → find_operation k s.operations ≡ log_find l k
  pub completed : s.completed ≡ ids (last_of completed_operation_limit l.over)

record IsAgreed (s : Operations) (l : Log) : Type 0 where
  remembered : IsRemembered s l
  sequence : s.sequence ≡ l.begun
  fresh :
      (k : ℕ)
      → l.begun < k
      → (find_operation k l.under_way ≡ none) × (find_operation k l.over ≡ none)
  apart : (k : ℕ) → (find_operation k l.under_way ≡ none) ⊎ (find_operation k l.over ≡ none)
  distinct : Distinct l.over

begin-IsAgreed :
    (s : Operations) (l : Log) (op : Operation) (members : List Text)
    → ltb (l.begun + 1) (2 ^ 64) ≡ true
    → IsAgreed s l
    → IsAgreed
        (begin_operation s op members)
        (record l { begun = l.begun + 1; under_way = (l.begun + 1, op) ∷ l.under_way })
unfolding begin_operation find_operation
begin-IsAgreed s l op members b h =
    let id : (s.sequence + 1) % 2 ^ 64 ≡ l.begun + 1 = ground (arith, h.sequence) in
    record {
      remembered = record { found = λ k. found k id; completed = h.remembered.completed };
      sequence = id;
      fresh = λ k lt. fresh k lt;
      apart = λ k. apart k;
      distinct = h.distinct;
    }
  where
    found :
        (k : ℕ)
        → (s.sequence + 1) % 2 ^ 64 ≡ l.begun + 1
        → find_operation k (begin_operation s op members).operations
          ≡ log_find
              (record l { begun = l.begun + 1; under_way = (l.begun + 1, op) ∷ l.under_way })
              k
    found k id =
        find-put k ((s.sequence + 1) % 2 ^ 64) op s.operations
        ∙ ap (λ i. if i == k then some op else find_operation k s.operations) id
        ∙ elim (Bool-cases (l.begun + 1 == k)) [
          | inl e ↦ rw e refl
          | inr e ↦ rw e (h.remembered.found k)
        ]

    fresh :
        (k : ℕ)
        → l.begun + 1 < k
        → (find_operation k ((l.begun + 1, op) ∷ l.under_way) ≡ none)
          × (find_operation k l.over ≡ none)
    fresh k lt =
        let differs : (l.begun + 1 == k) ≡ false = ground arith in
        let old = h.fresh k (omega arith) in (rw differs old.0, old.1)

    apart :
        (k : ℕ)
        → (find_operation k ((l.begun + 1, op) ∷ l.under_way) ≡ none)
          ⊎ (find_operation k l.over ≡ none)
    apart k = elim (Bool-cases (l.begun + 1 == k)) [
      | inl e ↦ inr (h.fresh k (ground arith)).1
      | inr e ↦ elim (h.apart k) [ inl a ↦ inl (rw e a) | inr a ↦ inr a ]
    ]

-- What a finished operation leaves.
finish-IsAgreed :
    (s : Operations) (l : Log) (id : ℕ) (op new : Operation)
    → find_operation id l.under_way ≡ some op
    → IsAgreed s l
    → IsAgreed
        (evict_completed
          (record s { operations = put_operation id new s.operations })
          (s.completed ++ id ∷ []))
        (record l { under_way = delete_operation id l.under_way; over = l.over ++ (id, new) ∷ [] })
finish-IsAgreed s l id op new e h =
    let window = last_of completed_operation_limit l.over in
    let absent = Apart-none l.under_way l.over id op h.apart e in
    let lacks = find-last_of id completed_operation_limit l.over absent in
    let next = last_of-append completed_operation_limit l.over (id, new) (omega arith) in
    let listed : s.completed ++ id ∷ [] ≡ ids (window ++ (id, new) ∷ []) =
      ap (λ cs. cs ++ id ∷ []) h.remembered.completed ∙ sym (ids-append window id new) in
    let put = record s { operations = put_operation id new s.operations } in
    record {
      remembered = record {
        found = λ k.
            ap (λ cs. find_operation k (evict_completed put cs).operations) listed
            ∙ evict-found put (delete_operation id l.under_way) (window ++ (id, new) ∷ [])
                (found-moved s.operations l.under_way window id new lacks h.remembered.found)
                (Apart-moved l.under_way window id new (λ j. elim (h.apart j) [
                  | inl u ↦ inl u
                  | inr o ↦ inr (find-last_of j completed_operation_limit l.over o)
                ]))
                (Distinct-append window id new lacks
                  (Distinct-last_of completed_operation_limit l.over h.distinct))
                k
            ∙ ap
                (λ xs.
                  or_else (find_operation k (delete_operation id l.under_way))
                    (find_operation k xs))
                (sym next);
        completed =
            ap (λ cs. (evict_completed put cs).completed) listed
            ∙ evict-completed put (window ++ (id, new) ∷ [])
            ∙ ap ids (sym next);
      };
      sequence = evict-sequence put (s.completed ++ id ∷ []) ∙ h.sequence;
      fresh = λ k lt.
          let (no_start, no_end) = h.fresh k lt in
          none-moved l.under_way l.over id k op new e no_start no_end;
      apart = Apart-moved l.under_way l.over id new h.apart;
      distinct = Distinct-append l.over id new absent h.distinct;
    }

none_is_no_log : (l : Log) → none ≡ some l → ⊥
none_is_no_log l h = cc

call-IsAgreed :
    (c : Call) (s : Operations) (l k : Log)
    → log_call l c ≡ some k
    → IsAgreed s l
    → (t : Operations) × (call s c ≡ some t) × IsAgreed t k
unfolding log_call call finish_operation
call-IsAgreed (op_begin op members) s l k e h = elim (Bool-cases (ltb (l.begun + 1) (2 ^ 64))) [
  | inl b ↦
      let next : Log = record l {
        begun = l.begun + 1;
        under_way = (l.begun + 1, op) ∷ l.under_way;
      } in
      let made : some next ≡ some k = (rw (log_call, b) at e) in
      let same : next ≡ k = cc in
      let agreed = begin-IsAgreed s l op members b h in
      (begin_operation s op members, refl, (rw same at agreed))
  | inr b ↦ let no : none ≡ some k = (rw (log_call, b) at e) in elim (none_is_no_log k no) [ ]
]
call-IsAgreed (op_finish id outcome) s l k e h =
    elim (Option-cases (find_operation id l.under_way)) [
      | inl b ↦ let no : none ≡ some k = (rw (log_call, b) at e) in elim (none_is_no_log k no) [ ]
      | inr (op, b) ↦
          let next : Log = record l {
            under_way = delete_operation id l.under_way;
            over = l.over ++ (id, ended op outcome) ∷ [];
          } in
          let made : some next ≡ some k = (rw (log_call, b) at e) in
          let same : next ≡ k = cc in
          let agreed = finish-IsAgreed s l id op (ended op outcome) b h in
          let known : find_operation id s.operations ≡ some op =
            h.remembered.found id
            ∙ ap (λ o. or_else o (find_operation id (last_of completed_operation_limit l.over)))
                b in
          (
            evict_completed
                (record s { operations = put_operation id (ended op outcome) s.operations })
                (s.completed ++ id ∷ []),
            rw (call, finish_operation, known) refl,
            (rw same at agreed),
          )
    ]

calls-IsAgreed :
    (cs : List Call) (s : Operations) (l k : Log)
    → log_calls l cs ≡ some k
    → IsAgreed s l
    → (t : Operations) × (calls s cs ≡ some t) × IsRemembered t k
unfolding log_calls calls
calls-IsAgreed [] s l k e h =
    let same : l ≡ k = cc in let agreed = h.remembered in (s, refl, (rw same at agreed))
calls-IsAgreed (c ∷ cs) s l k e h = elim (Option-cases (log_call l c)) [
  | inl b ↦ let no : none ≡ some k = (rw (log_calls, b) at e) in elim (none_is_no_log k no) [ ]
  | inr (next, b) ↦
      let rest : log_calls next cs ≡ some k = (rw (log_calls, b) at e) in
      let (t, called, agreed) = call-IsAgreed c s l next b h in
      let (u, finished, remembered) = calls-IsAgreed cs t next k rest agreed in
      (u, rw (calls, called) finished, remembered)
]

abbrev pub no_operations : List (Text × ℕ) → Operations
no_operations units = record {
  sequence = 0;
  operations = [];
  completed = [];
  last_operation = units;
}

abbrev pub empty_log : Log
empty_log = record { begun = 0; under_way = []; over = [] }

-- Over any calls that end only what is under way, and fewer than 2 ^ 64 begins: no call meets an
-- operation that it has forgotten; each operation under way is found, and so are the last 256 that
-- ended, with their outcome, and no others; and the completed ones are listed in the order in which
-- they ended.
pub calls-IsRemembered :
    (units : List (Text × ℕ)) (cs : List Call) (l : Log)
    → log_calls empty_log cs ≡ some l
    → (s : Operations) × (calls (no_operations units) cs ≡ some s) × IsRemembered s l
unfolding find_operation last_of
calls-IsRemembered units cs l h = calls-IsAgreed cs (no_operations units) empty_log l h (record {
  remembered = record { found = λ k. refl; completed = refl };
  sequence = refl;
  fresh = λ k lt. (refl, refl);
  apart = λ k. inl refl;
  distinct = tt;
})
