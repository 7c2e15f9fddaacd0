-- ===== src/Ledger/Keys.antt =====
-- The primary key of the accounts, and what the posting function's count of available accounts
-- says under it: every requested account is there, once.
use mathlib.Core.Path.{subst}
use pulse_ledger.Base.{
  ℕ, ◌+◌, ◌≤◌, ◌≡◌, refl, sym, Bool, true, false, ◌&&◌, List, [], ◌∷◌, arith, ◌==◌, ==_iff,
  contains, any, All, count_rows, distinct, length, Bool-cases, inl, inr, ◌∙◌,
}
use pulse_ledger.Ledger.Tables.{Account}
use pulse_ledger.Ledger.Post.{EntryArg, apply_entries}

-- No two rows share an identifier.
abbrev pub IsKeyed : List Account → Type 0
IsKeyed [] = Unit
IsKeyed (a ∷ accounts) = (any (λ (b : Account). b.id == a.id) accounts ≡ false) × IsKeyed accounts

any_id_after :
    (k : ℕ) (es : List EntryArg) (accounts : List Account)
    → any (λ (b : Account). b.id == k) (apply_entries es accounts)
      ≡ any (λ (b : Account). b.id == k) accounts
unfolding apply_entries
any_id_after k es [] = refl
any_id_after k es (a ∷ accounts) = ground (arith, any_id_after k es accounts)

pub apply_entries-IsKeyed :
    (es : List EntryArg) (accounts : List Account)
    → IsKeyed accounts
    → IsKeyed (apply_entries es accounts)
unfolding apply_entries
apply_entries-IsKeyed es [] h = tt
apply_entries-IsKeyed es (a ∷ accounts) (n, h) =
    ground (arith, any_id_after a.id es accounts, apply_entries-IsKeyed es accounts h)

count_absent :
    (k : ℕ) (accounts : List Account)
    → any (λ (b : Account). b.id == k) accounts ≡ false
    → count_rows (λ a. a.id == k) accounts ≡ 0
count_absent k [] h = refl
count_absent k (a ∷ accounts) h = ground (arith, count_absent k accounts)

count_key-le :
    (k : ℕ) (accounts : List Account) → IsKeyed accounts → count_rows (λ a. a.id == k) accounts ≤ 1
count_key-le k [] h = omega arith
count_key-le k (a ∷ accounts) (n, h) =
    ground (arith, count_absent a.id accounts n, count_key-le k accounts h)

All-contains {ℓ} : (P : ℕ → Type ℓ) (k : ℕ) (xs : List ℕ) → All P xs → contains k xs ≡ true → P k
All-contains P k [] h c = absurd (cc)
All-contains P k (x ∷ xs) (p, h) c = elim (Bool-cases (x == k)) [
  | inl y ↦ subst P ((==_iff x k).0 y) p
  | inr n ↦ All-contains P k xs h (ground arith)
]

-- The rows that a list of keys selects are those of its first key and those of the rest.
count_split :
    (q : Account → Bool) (x : ℕ) (xs : List ℕ) (accounts : List Account)
    → contains x xs ≡ false
    → count_rows (λ a. contains a.id (x ∷ xs) && q a) accounts
      ≡ count_rows (λ a. a.id == x && q a) accounts
        + count_rows (λ a. contains a.id xs && q a) accounts
count_split q x xs [] n = refl
count_split q x xs (a ∷ accounts) n = elim (Bool-cases (x == a.id)) [
  | inl y ↦ ground (arith, count_split q x xs accounts n, ==_iff x a.id)
  | inr m ↦ ground (arith, count_split q x xs accounts n)
]

count_again :
    (q : Account → Bool) (x : ℕ) (xs : List ℕ) (accounts : List Account)
    → contains x xs ≡ true
    → count_rows (λ a. contains a.id (x ∷ xs) && q a) accounts
      ≡ count_rows (λ a. contains a.id xs && q a) accounts
count_again q x xs [] n = refl
count_again q x xs (a ∷ accounts) n = ground (arith, count_again q x xs accounts n)

count_and-le :
    (q : Account → Bool) (x : ℕ) (accounts : List Account)
    → count_rows (λ a. a.id == x && q a) accounts ≤ count_rows (λ a. a.id == x) accounts
count_and-le q x [] = omega arith
count_and-le q x (a ∷ accounts) = ground (arith, count_and-le q x accounts)

available_le :
    (q : Account → Bool) (ids : List ℕ) (accounts : List Account)
    → IsKeyed accounts
    → count_rows (λ a. contains a.id ids && q a) accounts ≤ length (distinct ids)
available_le q [] accounts h = none_selected accounts
  where
    none_selected : (rows : List Account) → count_rows (λ a. contains a.id [] && q a) rows ≤ 0
    none_selected [] = omega arith
    none_selected (a ∷ rows) = omega (arith, none_selected rows)
available_le q (x ∷ xs) accounts h = elim (Bool-cases (contains x xs)) [
  | inl y ↦ rw (y, count_again q x xs accounts y) (available_le q xs accounts h)
  | inr n ↦
      rw (n, count_split q x xs accounts n)
        (omega (
          arith,
          count_and-le q x accounts,
          count_key-le x accounts h,
          available_le q xs accounts h,
        ))
]

-- If as many rows are available as there are distinct keys, each key has exactly one row.
pub available-All :
    (q : Account → Bool) (ids : List ℕ) (accounts : List Account)
    → IsKeyed accounts
    → count_rows (λ a. contains a.id ids && q a) accounts ≡ length (distinct ids)
    → All (λ k. count_rows (λ (a : Account). a.id == k) accounts ≡ 1) ids
available-All q [] accounts h e = tt
available-All q (x ∷ xs) accounts h e = elim (Bool-cases (contains x xs)) [
  | inl y ↦
      let rest = available-All q xs accounts h (sym (count_again q x xs accounts y) ∙ rw y at e) in
      (All-contains (λ k. count_rows (λ (a : Account). a.id == k) accounts ≡ 1) x xs rest y, rest)
  | inr n ↦
      let both = rw (n, count_split q x xs accounts n) at e in
      (
        omega (
          arith,
          both,
          count_and-le q x accounts,
          count_key-le x accounts h,
          available_le q xs accounts h,
        ),
        available-All q xs accounts h (
            omega (
              arith,
              both,
              count_and-le q x accounts,
              count_key-le x accounts h,
              available_le q xs accounts h,
            )),
      )
]
