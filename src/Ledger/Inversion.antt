-- ===== src/Ledger/Inversion.antt =====
-- What a successful posting has checked and done.
use pulse_ledger.Base.{
  ◌≤◌, ◌≡◌, false, ◌&&◌, ◌||◌, List, [], ◌∷◌, ◌++◌, arith, ◌==◌, length, distinct, any, count_rows,
}
use pulse_ledger.Errors.{ok}
use pulse_ledger.Ledger.Tables.{Account, is_active, Transaction, Ledger, same_reference}
use pulse_ledger.Ledger.Post.{
  EntryArg, PostArgs, account_ids, requested, posting_currency, check_posting, to_rows,
  apply_entries, out_of_range, overdrawn, post_ledger_transaction, debit_total, credit_total,
}

pub record Checked (es : List EntryArg) (accounts : List Account) : Type 0 where
  pub two_entries : 2 ≤ length es
  pub positive : any (λ e. e.amount == 0) es ≡ false
  pub available :
      count_rows (λ a. requested es a && is_active a.status) accounts
      ≡ length (distinct (account_ids es))
  pub balanced : debit_total es ≡ credit_total es

pub check_posting-Checked :
    (es : List EntryArg) (accounts : List Account)
    → check_posting es accounts ≡ ok tt
    → Checked es accounts
unfolding check_posting
check_posting-Checked es accounts h = record {
  two_entries = ground arith;
  positive = ground arith;
  available = ground arith;
  balanced = ground arith;
}

pub record Posted (p : PostArgs) (l : Ledger) (t : Transaction) (l' : Ledger) : Type 0 where
  pub checked : Checked p.entries l.accounts
  pub fresh :
      any
        (λ (x : Transaction). x.id == p.id || same_reference x.reference p.reference)
        l.transactions
      ≡ false
  pub in_range :
      any
        (λ a. requested p.entries a && out_of_range a.balance_minor)
        (apply_entries p.entries l.accounts)
      ≡ false
  pub covered :
      any (λ a. requested p.entries a && overdrawn a) (apply_entries p.entries l.accounts) ≡ false
  pub row : t ≡ record {
    id = p.id;
    type = p.type;
    reference = p.reference;
    currency = posting_currency p.entries l.accounts;
    created_at = p.now;
  }
  pub after : l' ≡ record l {
    accounts = apply_entries p.entries l.accounts;
    transactions = l.transactions ++ t ∷ [];
    journal = l.journal ++ to_rows p t.currency p.entries;
  }

pub post-Posted :
    (p : PostArgs) (l l' : Ledger) (t : Transaction)
    → post_ledger_transaction p l ≡ ok (t, l')
    → Posted p l t l'
unfolding post_ledger_transaction
post-Posted p l l' t h = record {
  checked = check_posting-Checked p.entries l.accounts (ground arith);
  fresh = ground arith;
  in_range = ground arith;
  covered = ground arith;
  row = ground arith;
  after = ground arith;
}
