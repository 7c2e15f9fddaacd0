-- ===== src/Transfers/Lock.antt =====
-- The locked rows are the accounts' own rows: looking an account up among them is looking it up in
-- the table.
use pulse_ledger.Base.{
  ℕ, ◌≡◌, refl, Bool, true, ◌||◌, List, [], ◌∷◌, arith, ◌==◌, where_rows, ◌∙◌, ◌⊎◌,
}
use pulse_ledger.Ledger.Tables.{Account, Ledger, find_account}
use pulse_ledger.Transfers.Domain.{deterministic_account_order}
use pulse_ledger.Transfers.Repository.{insert_by_id, order_by_id, lock_accounts}

find-insert_by_id :
    (k : ℕ) (a : Account) (accounts : List Account)
    → find_account k (insert_by_id a accounts) ≡ find_account k (a ∷ accounts)
find-insert_by_id k a [] = refl
find-insert_by_id k a (x ∷ accounts) = ground (arith, find-insert_by_id k a accounts)

find-order_by_id :
    (k : ℕ) (accounts : List Account)
    → find_account k (order_by_id accounts) ≡ find_account k accounts
find-order_by_id k [] = refl
find-order_by_id k (a ∷ accounts) =
    find-insert_by_id k a (order_by_id accounts) ∙ ground (arith, find-order_by_id k accounts)

find-where_rows :
    (k : ℕ) (p : Account → Bool) (accounts : List Account)
    → ((a : Account) → (a.id == k) ≡ true → p a ≡ true)
    → find_account k (where_rows p accounts) ≡ find_account k accounts
find-where_rows k p [] h = refl
find-where_rows k p (a ∷ accounts) h = ground (arith, h a, find-where_rows k p accounts h)

find_locked :
    (k : ℕ) (o : ℕ × ℕ) (l : Ledger)
    → (k ≡ o.0) ⊎ (k ≡ o.1)
    → find_account k (lock_accounts o l) ≡ find_account k l.accounts
unfolding lock_accounts
find_locked k (a, b) l h =
    find-order_by_id k (where_rows (λ x. x.id == a || x.id == b) l.accounts)
    ∙ find-where_rows k (λ x. x.id == a || x.id == b) l.accounts λ x e. ground arith

order_members :
    (s d : ℕ)
    → let o = deterministic_account_order s d in ((s ≡ o.0) ⊎ (s ≡ o.1)) × ((d ≡ o.0) ⊎ (d ≡ o.1))
unfolding deterministic_account_order
order_members s d = ground arith

-- Either account of a transfer, looked up among the rows that the transfer has locked, is the
-- account that the table holds under that identifier.
pub find-lock_accounts :
    (s d : ℕ) (l : Ledger)
    → (find_account s (lock_accounts (deterministic_account_order s d) l)
        ≡ find_account s l.accounts)
      × (find_account d (lock_accounts (deterministic_account_order s d) l)
          ≡ find_account d l.accounts)
find-lock_accounts s d l =
    let (hs, hd) = order_members s d in
    (
      find_locked s (deterministic_account_order s d) l hs,
      find_locked d (deterministic_account_order s d) l hd,
    )
