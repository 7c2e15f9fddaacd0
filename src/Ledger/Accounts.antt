-- ===== src/Ledger/Accounts.antt =====
-- What a posting does to one account, found by its key.
use pulse_ledger.Base.{
  ℕ, ◌≡◌, sym, ap, some, List, [], ◌∷◌, arith, ◌==◌, ==_iff, Bool-cases, inl, inr, if◌then◌else◌,
}
use pulse_ledger.Base.Int.{ℤ, ◌+ℤ◌, +ℤ_zero}
use pulse_ledger.Ledger.Tables.{Account, find_account}
use pulse_ledger.Ledger.Post.{EntryArg, delta, requested, apply_entries}
use pulse_ledger.Ledger.Sums.{delta_unrequested}

abbrev pub moved_by : ℤ → Account → Account
moved_by z a = record a { balance_minor = a.balance_minor +ℤ z }

update_one :
    (es : List EntryArg) (a : Account)
    → (if requested es a then moved_by (delta a.id es) a else a) ≡ moved_by (delta a.id es) a
update_one es a = elim (Bool-cases (requested es a)) [
  | inl y ↦ rw y
  | inr n ↦
      rw (n, delta_unrequested a.id es n)
        (ap (λ z. record a { balance_minor = z }) (sym (+ℤ_zero a.balance_minor)))
]

-- An account that is found is found again, its balance moved by the entries that name it.
pub find_account-apply_entries :
    (k : ℕ) (es : List EntryArg) (accounts : List Account) (a : Account)
    → find_account k accounts ≡ some a
    → find_account k (apply_entries es accounts) ≡ some (moved_by (delta k es) a)
unfolding apply_entries
find_account-apply_entries k es [] a h = cc
find_account-apply_entries k es (x ∷ accounts) a h = elim (Bool-cases (x.id == k)) [
  | inl y ↦ rw (update_one es x) (ground (arith, (==_iff x.id k).0 y))
  | inr n ↦ rw (update_one es x) (rw n (find_account-apply_entries k es accounts a (rw n at h)))
]

pub find_account_id :
    (k : ℕ) (accounts : List Account) (a : Account) → find_account k accounts ≡ some a → a.id ≡ k
find_account_id k [] a h = cc
find_account_id k (x ∷ accounts) a h = ground (arith, find_account_id k accounts a)
