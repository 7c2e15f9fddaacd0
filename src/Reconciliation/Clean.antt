-- ===== src/Reconciliation/Clean.antt =====
-- The report is clean exactly if every cached balance is the one recomputed from the journal.
use pulse_ledger.Base.{
  ◌≡◌, ◌↔◌, refl, sym, ◌∙◌, true, not, List, [], ◌∷◌, ◌++◌, map, arith, ◌==◌, ==_iff, length,
  where_rows, any, All,
}
use pulse_ledger.Base.Int.{pos, eq_ℤ, eq_ℤ_iff}
use pulse_ledger.Ledger.Tables.{Account, JournalEntry, Ledger}
use pulse_ledger.Ledger.Sums.{computed}
use pulse_ledger.Ledger.Consistent.{IsCached}
use pulse_ledger.Reconciliation.Report.{
  Group, groups, group_balance, supported_row, unsupported_row, supported_rows, account_rows,
  all_account_rows, orphan_rows, report_rows, classify, issues_of, run,
}
use pulse_ledger.Reconciliation.Groups.{
  IsCurrencyOf, IsAccounted, group_balance-computed, groups_currency, groups_accounted, ungrouped,
  none_where, where_currency,
}
use pulse_ledger.Reconciliation.Issues.{
  issue_count, length-issues_cons, no_issue, length-order_rows, length-issues_append,
}

supported_equal :
    (js : List JournalEntry) (a : Account) (g : Group)
    → (issue_count (supported_row js a g) ≡ 0)
      ↔ (eq_ℤ a.balance_minor (group_balance g.account_id g.currency js) ≡ true)
unfolding classify
supported_equal js a g = ground arith

unsupported_equal :
    (a : Account) → (issue_count (unsupported_row a) ≡ 0) ↔ (eq_ℤ a.balance_minor (pos 0) ≡ true)
unfolding classify
unsupported_equal a = ground arith

group_computed :
    (js : List JournalEntry) (a : Account) (g : Group)
    → IsCurrencyOf js a
    → (g.account_id == a.id) ≡ true
    → (g.currency == a.currency) ≡ true
    → group_balance g.account_id g.currency js ≡ computed a.id js
group_computed js a g h k c =
    rw ((==_iff g.account_id a.id).0 k, (==_iff g.currency a.currency).0 c)
      (group_balance-computed a js h)

module _ (js : List JournalEntry) (a : Account) (h : IsCurrencyOf js a) where
  supported_clean :
      (g : Group)
      → (g.account_id == a.id) ≡ true
      → (g.currency == a.currency) ≡ true
      → (issue_count (supported_row js a g) ≡ 0) ↔ IsCached js a
  supported_clean g k c =
      let e = supported_equal js a g in
      let i = eq_ℤ_iff a.balance_minor (group_balance g.account_id g.currency js) in
      let same = group_computed js a g h k c in
      (λ z. i.0 (e.0 z) ∙ same, λ z. e.1 (i.1 (z ∙ sym same)))

  supported_length :
      (gs : List Group)
      → All
          (λ (g : Group). ((g.account_id == a.id) ≡ true) × ((g.currency == a.currency) ≡ true))
          gs
      → IsCached js a
      → length (issues_of (map (supported_row js a) gs)) ≡ 0
  unfolding issues_of
  supported_length [] v z = refl
  supported_length (g ∷ gs) ((k, c), v) z =
      rw
        (
          length-issues_cons (supported_row js a g) (map (supported_row js a) gs),
          (supported_clean g k c).1 z,
          supported_length gs v z,
        )
        refl

  -- An account's rows hold no issue exactly if its cached balance is right.
  account_clean : (length (issues_of (account_rows js a)) ≡ 0) ↔ IsCached js a
  account_clean =
      rows (where_rows (λ (g : Group). g.account_id == a.id) (groups js))
        (where_currency a (groups js) (groups_currency a js h))
        (λ e. ungrouped a.id js (none_where a.id (groups js) e))
    where
      rows :
          (gs : List Group)
          → All
              (λ (g : Group). ((g.account_id == a.id) ≡ true) × ((g.currency == a.currency) ≡ true))
              gs
          → (gs ≡ [] → computed a.id js ≡ pos 0)
          → (length (issues_of (supported_rows js a gs)) ≡ 0) ↔ IsCached js a
      rows [] v z =
          let e = unsupported_equal a in
          let i = eq_ℤ_iff a.balance_minor (pos 0) in
          let n = length-issues_cons (unsupported_row a) [] in
          (
            λ c. i.0 (e.0 (omega (arith, c, n))) ∙ sym (z refl),
            λ c. omega (arith, n, e.1 (i.1 (c ∙ z refl)), no_issue),
          )
      rows (g ∷ gs) ((k, c), v) z =
          let n = length-issues_cons (supported_row js a g) (map (supported_row js a) gs) in
          (
            λ e. (supported_clean g k c).0 (omega (arith, n, e)),
            λ e. supported_length (g ∷ gs) ((k, c), v) e,
          )

no_orphans :
    (js : List JournalEntry) (accounts : List Account) (gs : List Group)
    → All (λ (g : Group). any (λ (a : Account). a.id == g.account_id) accounts ≡ true) gs
    → where_rows (λ (g : Group). not (any (λ (a : Account). a.id == g.account_id) accounts)) gs ≡ []
no_orphans js accounts [] h = refl
no_orphans js accounts (g ∷ gs) (e, h) = ground (arith, e, no_orphans js accounts gs h)

accounts_clean :
    (js : List JournalEntry) (accounts : List Account)
    → All (IsCurrencyOf js) accounts
    → (length (issues_of (all_account_rows js accounts)) ≡ 0) ↔ All (IsCached js) accounts
unfolding issues_of
accounts_clean js [] h = (λ e. tt, λ e. refl)
accounts_clean js (a ∷ accounts) (k, h) =
    let n = length-issues_append (account_rows js a) (all_account_rows js accounts) in
    let here = account_clean js a k in
    let there = accounts_clean js accounts h in
    (
      λ e. (here.0 (omega (arith, n, e)), there.0 (omega (arith, n, e))),
      λ e. omega (arith, n, here.1 e.0, there.1 e.1),
    )

-- The report says `ok` exactly if every account's cached balance is the one recomputed from the
-- journal, where the journal's foreign keys hold: an entry's account exists, and the entry is in
-- its currency.
pub run_clean :
    (l : Ledger)
    → All (IsCurrencyOf l.journal) l.accounts
    → All (IsAccounted l.accounts) l.journal
    → ((run l).ok ≡ true) ↔ All (IsCached l.journal) l.accounts
unfolding run report_rows
run_clean l currencies accounted =
    let c = accounts_clean l.journal l.accounts currencies in
    let n =
      length-order_rows (all_account_rows l.journal l.accounts ++ orphan_rows l.journal l.accounts)
      ∙ length-issues_append (all_account_rows l.journal l.accounts)
          (orphan_rows l.journal l.accounts) in
    let none_left : length (issues_of (orphan_rows l.journal l.accounts)) ≡ 0 =
      rw
        (no_orphans l.journal l.accounts (groups l.journal)
          (groups_accounted l.accounts l.journal accounted))
        no_issue in
    (λ e. c.0 (ground (arith, n, none_left, e)), λ e. ground (arith, n, none_left, c.1 e))
