-- ===== src/Accounts/Opening.antt =====
-- Opening an account.
use pulse_ledger.Base.{
  ℕ, ◌≡◌, refl, sym, ◌∙◌, false, List, [], ◌∷◌, ◌++◌, arith, ◌==◌, ==_comm, any, All-append,
  Bool-cases, inl, inr,
}
use pulse_ledger.Base.Int.{ℤ, pos, zero_+ℤ}
use pulse_ledger.Errors.{ok}
use pulse_ledger.Ledger.Tables.{Account, JournalEntry, Ledger}
use pulse_ledger.Ledger.Keys.{IsKeyed}
use pulse_ledger.Ledger.Sums.{computed}
use pulse_ledger.Ledger.Post.{overdrawn}
use pulse_ledger.Ledger.Consistent.{IsCached}
use pulse_ledger.Ledger.Conservation.{total_balance}
use pulse_ledger.Database.{Db}
use pulse_ledger.Soundness.{IsSound}
use pulse_ledger.Accounts.Store.{create, new_account}

computed_absent :
    (k : ℕ) (js : List JournalEntry)
    → any (λ (j : JournalEntry). j.account_id == k) js ≡ false
    → computed k js ≡ pos 0
unfolding computed
computed_absent k [] h = refl
computed_absent k (j ∷ js) h = elim (Bool-cases (j.account_id == k)) [
  | inl y ↦ absurd (ground arith)
  | inr n ↦ rw n (rw (computed_absent k js (ground arith)) (zero_+ℤ (pos 0)))
]

total_balance-snoc :
    (accounts : List Account) (a : Account)
    → a.balance_minor ≡ pos 0
    → total_balance (accounts ++ a ∷ []) ≡ total_balance accounts
unfolding total_balance
total_balance-snoc [] a z = rw z (zero_+ℤ (pos 0))
total_balance-snoc (x ∷ accounts) a z = rw (total_balance-snoc accounts a z) refl

any_id-snoc :
    (k : ℕ) (accounts : List Account) (a : Account)
    → any (λ (b : Account). b.id == k) accounts ≡ false
    → (a.id == k) ≡ false
    → any (λ (b : Account). b.id == k) (accounts ++ a ∷ []) ≡ false
any_id-snoc k [] a h n = ground arith
any_id-snoc k (x ∷ accounts) a h n = ground (arith, any_id-snoc k accounts a)

IsKeyed-snoc :
    (accounts : List Account) (a : Account)
    → IsKeyed accounts
    → any (λ (b : Account). b.id == a.id) accounts ≡ false
    → IsKeyed (accounts ++ a ∷ [])
IsKeyed-snoc [] a q h = (refl, tt)
IsKeyed-snoc (x ∷ accounts) a (n, q) h = (
  any_id-snoc x.id accounts a n (rw (==_comm a.id x.id) (ground arith)),
  IsKeyed-snoc accounts a q (ground arith),
)

create-ok :
    (id now currency owner : ℕ) (l l' : Ledger) (a : Account)
    → create id now currency owner l ≡ ok (a, l')
    → (any (λ (b : Account). b.id == id) l.accounts ≡ false)
      × (a ≡ new_account id currency owner now)
      × (l' ≡ record l { accounts = l.accounts ++ new_account id currency owner now ∷ [] })
unfolding create
create-ok id now currency owner l l' a h = (ground arith, ground arith, ground arith)

-- Opening an account under an identifier that no journal entry names keeps the ledger sound and
-- the sum of all balances, and the account is the caller's, active and empty.
pub create_account-IsSound :
    (total : ℤ) (id now currency owner : ℕ) (db : Db) (l' : Ledger) (a : Account)
    → create id now currency owner db.ledger ≡ ok (a, l')
    → any (λ (j : JournalEntry). j.account_id == id) db.ledger.journal ≡ false
    → IsSound total db
    → IsSound total (record db { ledger = l' }) × (a ≡ new_account id currency owner now)
create_account-IsSound total id now currency owner db l' a h fresh v =
    let (unused, row, after) = create-ok id now currency owner db.ledger l' a h in
    let new = new_account id currency owner now in
    (
      rw after (record {
        consistent = record {
          cached =
              All-append (IsCached db.ledger.journal) db.ledger.accounts (new ∷ [])
                v.consistent.cached (sym (computed_absent id db.ledger.journal fresh), tt);
          covered =
              All-append (λ x. overdrawn x ≡ false) db.ledger.accounts (new ∷ [])
                v.consistent.covered (refl, tt);
          linked = v.consistent.linked;
          balanced = v.consistent.balanced;
          positive = v.consistent.positive;
        };
        keyed = IsKeyed-snoc db.ledger.accounts new v.keyed unused;
        total_kept = total_balance-snoc db.ledger.accounts new refl ∙ v.total_kept;
      }),
      row,
    )
