-- ===== src/Core/Execute/Unblocking.antt =====
-- What `unblock` and `remaining` hold: how often a job is counted down.
use winunitd.Common.{
  ◌+◌, ◌-◌, ◌≤◌, Bool, ◌&&◌, List, [], ◌∷◌, ◌++◌, ◌≡◌, refl, ap, arith, if◌then◌else◌, count,
  Bool-cases, inl, inr,
}
use winunitd.Common.Text.{Text, text_eq, text_eq_iff, eq_of_text_eq}
use winunitd.Core.Transaction.{Transaction, Waits, waits_at, push_waits, job_names}
use winunitd.Core.Execute.{
  Executor, release_each, unblock_one, push_deps, push_names, unblock, deps_of,
}

pub count-append :
    (p : Text → Bool) (xs ys : List Text) → count p (xs ++ ys) ≡ count p xs + count p ys
count-append p [] ys = omega arith
count-append p (x ∷ xs) ys = omega (arith, count-append p xs ys)

-- An entry more at one key.
count-push_waits :
    (p : Text → Bool) (m : Waits) (key name d : Text)
    → count p (waits_at (push_waits m key (name ∷ [])) d)
      ≡ count p (waits_at m d) + (if text_eq key d && p name then 1 else 0)
unfolding waits_at push_waits
count-push_waits p [] key name d = ground arith
count-push_waits p ((k, ws) ∷ m) key name d = ground (
  arith,
  count-push_waits p m key name d,
  count-append p ws (name ∷ []),
  text_eq_iff k key,
  text_eq_iff k d,
  text_eq_iff key d,
)

module _ (tx : Transaction) where
  abbrev pub is : Text → Text → Bool
  is x s = text_eq s x

  count-push_deps :
      (x name d : Text) (m : Waits) (deps : List Text)
      → count (is x) (waits_at (push_deps tx name m deps) d)
        ≡ count (is x) (waits_at m d) + (if text_eq name x then count (is d) deps else 0)
  unfolding push_deps
  count-push_deps x name d m [] = ground arith
  count-push_deps x name d m (dep ∷ deps) = ground (
    arith,
    count-push_deps x name d (push_waits m dep (name ∷ [])) deps,
    count-push_waits (is x) m dep name d,
  )

  count-push_names_other :
      (x d : Text) (m : Waits) (ns : List Text)
      → count (is x) ns ≡ 0
      → count (is x) (waits_at (push_names tx m ns) d) ≡ count (is x) (waits_at m d)
  unfolding push_names
  count-push_names_other x d m [] h = refl
  count-push_names_other x d m (n ∷ ns) h = ground (
    arith,
    count-push_names_other x d (push_deps tx n m (deps_of tx n)) ns,
    count-push_deps x n d m (deps_of tx n),
  )

  count-push_names :
      (x d : Text) (m : Waits) (ns : List Text)
      → count (is x) ns ≤ 1
      → count (is x) (waits_at (push_names tx m ns) d)
        ≤ count (is x) (waits_at m d) + count (is d) (deps_of tx x)
  unfolding push_names
  count-push_names x d m [] h = omega arith
  count-push_names x d m (n ∷ ns) h = elim (Bool-cases (text_eq n x)) [
    | inl eq ↦
        let same = eq_of_text_eq n x eq in
        ground (
          arith,
          count-push_names_other x d (push_deps tx n m (deps_of tx n)) ns,
          count-push_deps x n d m (deps_of tx n),
          ap (λ y. count (is d) (deps_of tx y)) same,
        )
    | inr ne ↦ ground (
      arith,
      count-push_names x d (push_deps tx n m (deps_of tx n)) ns,
      count-push_deps x n d m (deps_of tx n),
    )
  ]

  -- The jobs of a transaction are the keys of a map: no name is listed twice.
  abbrev pub Keyed : Type 0
  Keyed = (x : Text) → count (is x) (job_names tx.jobs) ≤ 1

  -- A release counts a job down at most once for each time it waits for the released one.
  pub count-unblock :
      (k : Keyed) (x d : Text)
      → count (is x) (waits_at (unblock tx) d) ≤ count (is d) (deps_of tx x)
  unfolding unblock waits_at
  count-unblock k x d = omega (arith, count-push_names x d [] (job_names tx.jobs) (k x))

pub release_each-remaining :
    (e : Executor) (succs : List Text) (x : Text)
    → (release_each e succs).remaining x ≡ e.remaining x - count (λ s. text_eq s x) succs
unfolding release_each
release_each-remaining e [] x = omega arith
release_each-remaining e (s ∷ ss) x =
    ground (arith, release_each-remaining (unblock_one e s) ss x, text_eq_iff s x, ap e.remaining)

-- A release counts down and does nothing else.
pub release_each-rest :
    (e : Executor) (succs : List Text)
    → release_each e succs ≡ record e { remaining = (release_each e succs).remaining }
unfolding release_each
release_each-rest e [] = refl
release_each-rest e (s ∷ ss) = release_each-rest (unblock_one e s) ss
