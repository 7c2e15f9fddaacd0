-- ===== src/Ledger/Conservation.antt =====
-- A posting moves money and makes none: the sum of all balances, treasuries included, stays.
use pulse_ledger.Base.{
  ℕ, ◌+◌, ◌≡◌, refl, List, [], ◌∷◌, arith, ◌==◌, ==_comm, All, count_rows, Bool-cases, inl, inr,
}
use pulse_ledger.Base.Int.{ℤ, pos, pos_part, neg_part, ◌+ℤ◌, int_laws}
use pulse_ledger.Errors.{ok}
use pulse_ledger.Ledger.Tables.{Account, is_active, Direction, debit, credit, Transaction, Ledger}
use pulse_ledger.Ledger.Post.{
  EntryArg, PostArgs, account_ids, signed, delta, requested, apply_entries, debit_total,
  credit_total, post_ledger_transaction,
}
use pulse_ledger.Ledger.Keys.{IsKeyed, available-All}
use pulse_ledger.Ledger.Sums.{delta_unrequested}
use pulse_ledger.Ledger.Inversion.{Posted, post-Posted}

unfoldable pub total_balance : List Account → ℤ
total_balance [] = pos 0
total_balance (a ∷ accounts) = a.balance_minor +ℤ total_balance accounts

-- The changes that a posting makes, summed over the accounts.
sum_delta : List EntryArg → List Account → ℤ
sum_delta es [] = pos 0
sum_delta es (a ∷ accounts) = delta a.id es +ℤ sum_delta es accounts

total_balance-apply_entries :
    (es : List EntryArg) (accounts : List Account)
    → total_balance (apply_entries es accounts) ≡ total_balance accounts +ℤ sum_delta es accounts
unfolding total_balance apply_entries sum_delta
total_balance-apply_entries es [] = omega int_laws
total_balance-apply_entries es (a ∷ accounts) = elim (Bool-cases (requested es a)) [
  | inl y ↦ rw (y, total_balance-apply_entries es accounts) (omega int_laws)
  | inr n ↦
      rw (n, total_balance-apply_entries es accounts, delta_unrequested a.id es n) (omega int_laws)
]

sum_delta-cons_absent :
    (e : EntryArg) (es : List EntryArg) (accounts : List Account)
    → count_rows (λ a. a.id == e.account_id) accounts ≡ 0
    → sum_delta (e ∷ es) accounts ≡ sum_delta es accounts
unfolding sum_delta delta
sum_delta-cons_absent e es [] h = refl
sum_delta-cons_absent e es (a ∷ accounts) h = elim (Bool-cases (e.account_id == a.id)) [
  | inl y ↦ absurd (omega (arith, rw (==_comm a.id e.account_id, y) at h))
  | inr n ↦
      rw
        (
          n,
          sum_delta-cons_absent e es accounts
              (omega (arith, rw (==_comm a.id e.account_id, n) at h)),
        )
        (omega int_laws)
]

-- An entry whose account has one row adds its signed amount once.
sum_delta-cons_one :
    (e : EntryArg) (es : List EntryArg) (accounts : List Account)
    → count_rows (λ a. a.id == e.account_id) accounts ≡ 1
    → sum_delta (e ∷ es) accounts ≡ signed e.direction e.amount +ℤ sum_delta es accounts
unfolding sum_delta delta
sum_delta-cons_one e es [] h = absurd (omega arith)
sum_delta-cons_one e es (a ∷ accounts) h = elim (Bool-cases (e.account_id == a.id)) [
  | inl y ↦
      rw
        (
          y,
          sum_delta-cons_absent e es accounts
              (omega (arith, rw (==_comm a.id e.account_id, y) at h)),
        )
        (omega int_laws)
  | inr n ↦
      rw
        (
          n,
          sum_delta-cons_one e es accounts (omega (arith, rw (==_comm a.id e.account_id, n) at h)),
        )
        (omega int_laws)
]

sum_delta-nil : (accounts : List Account) → sum_delta [] accounts ≡ pos 0
unfolding sum_delta delta
sum_delta-nil [] = refl
sum_delta-nil (a ∷ accounts) = rw (sum_delta-nil accounts) (omega int_laws)

-- Where every entry's account has one row, the changes sum to debits less credits.
sum_delta_parts :
    (es : List EntryArg) (accounts : List Account)
    → All (λ k. count_rows (λ (a : Account). a.id == k) accounts ≡ 1) (account_ids es)
    → pos_part (sum_delta es accounts) + credit_total es
      ≡ neg_part (sum_delta es accounts) + debit_total es
sum_delta_parts [] accounts h = rw (sum_delta-nil accounts) refl
sum_delta_parts (e ∷ es) accounts (one, h) =
    rw (sum_delta-cons_one e es accounts one)
      (signed_step e.direction e.amount (sum_delta es accounts) _ _ (sum_delta_parts es accounts h))
  where
    signed_step :
        (d : Direction) (n : ℕ) (z : ℤ) (dt ct : ℕ)
        → pos_part z + ct ≡ neg_part z + dt
        → pos_part (signed d n +ℤ z) + (elim d [ debit ↦ 0 | credit ↦ n ] + ct)
          ≡ neg_part (signed d n +ℤ z) + (elim d [ debit ↦ n | credit ↦ 0 ] + dt)
    signed_step debit n z dt ct k = omega (int_laws, k)
    signed_step credit n z dt ct k = omega (int_laws, k)

-- A successful posting leaves the sum of all account balances, treasuries included, unchanged,
-- where no two accounts share an identifier.
pub total_balance-post :
    (p : PostArgs) (l l' : Ledger) (t : Transaction)
    → post_ledger_transaction p l ≡ ok (t, l')
    → IsKeyed l.accounts
    → total_balance l'.accounts ≡ total_balance l.accounts
total_balance-post p l l' t h keyed =
    rw (d.after, total_balance-apply_entries) (omega (int_laws, balanced, d.checked.balanced))
  where
    d : Posted p l t l'
    d = post-Posted p l l' t h

    balanced :
        pos_part (sum_delta p.entries l.accounts) + credit_total p.entries
        ≡ neg_part (sum_delta p.entries l.accounts) + debit_total p.entries
    balanced = sum_delta_parts p.entries l.accounts (
        available-All (λ a. is_active a.status) (account_ids p.entries) l.accounts keyed
          d.checked.available)
