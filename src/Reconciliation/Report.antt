-- ===== src/Reconciliation/Report.antt =====
-- `PostgresReconciliationStore.run`, src/modules/reconciliation/reconciliation-repository.ts.
use pulse_ledger.Base.{
  ℕ, Bool, true, false, not, ◌&&◌, Option, none, some, List, [], ◌∷◌, ◌++◌, map, leb, ◌==◌,
  if◌then◌else◌, length, where_rows, any,
}
use pulse_ledger.Base.Int.{ℤ, pos, ◌+ℤ◌, eq_ℤ}
use pulse_ledger.Ledger.Tables.{Account, JournalEntry, Ledger}
use pulse_ledger.Ledger.Post.{signed}

pub data IssueType : Type 0 where
  mismatched missing unexpected : IssueType

pub record Issue : Type 0 where
  pub account_id : ℕ
  pub cached_balance_minor : Option ℤ
  pub computed_balance_minor : ℤ
  pub currency : ℕ
  pub type : IssueType

-- `GROUP BY account_id, currency`: the groups, each once.
pub record Group : Type 0 where
  pub account_id : ℕ
  pub currency : ℕ

abbrev pub in_group : ℕ → ℕ → JournalEntry → Bool
in_group k c j = j.account_id == k && j.currency == c

unfoldable pub groups : List JournalEntry → List Group
groups [] = []
groups (j ∷ js) =
    let rest = groups js in
    if any (λ (g : Group). j.account_id == g.account_id && j.currency == g.currency) rest
    then rest
    else record { account_id = j.account_id; currency = j.currency } ∷ rest

-- The sum of a group: debits less credits.
unfoldable pub group_balance : ℕ → ℕ → List JournalEntry → ℤ
group_balance k c [] = pos 0
group_balance k c (j ∷ js) =
    (if in_group k c j then signed j.direction j.amount_minor else pos 0) +ℤ group_balance k c js

-- A row of the FULL OUTER JOIN.
pub record ReportRow : Type 0 where
  pub account_id : ℕ
  pub cached_balance : Option ℤ
  pub computed_balance : ℤ
  pub currency : ℕ
  pub is_unexpected : Bool
  pub no_journal_support : Bool

abbrev pub supported_row : List JournalEntry → Account → Group → ReportRow
supported_row js a g = record {
  account_id = a.id;
  cached_balance = some a.balance_minor;
  computed_balance = group_balance g.account_id g.currency js;
  currency = a.currency;
  is_unexpected = false;
  no_journal_support = false;
}

abbrev pub unsupported_row : Account → ReportRow
unsupported_row a = record {
  account_id = a.id;
  cached_balance = some a.balance_minor;
  computed_balance = pos 0;
  currency = a.currency;
  is_unexpected = false;
  no_journal_support = true;
}

abbrev pub orphan_row : List JournalEntry → Group → ReportRow
orphan_row js g = record {
  account_id = g.account_id;
  cached_balance = none;
  computed_balance = group_balance g.account_id g.currency js;
  currency = g.currency;
  is_unexpected = true;
  no_journal_support = false;
}

abbrev pub supported_rows : List JournalEntry → Account → List Group → List ReportRow
supported_rows js a [] = unsupported_row a ∷ []
supported_rows js a (g ∷ gs) = map (supported_row js a) (g ∷ gs)

abbrev pub account_rows : List JournalEntry → Account → List ReportRow
account_rows js a =
    supported_rows js a (where_rows (λ (g : Group). g.account_id == a.id) (groups js))

abbrev pub all_account_rows : List JournalEntry → List Account → List ReportRow
all_account_rows js [] = []
all_account_rows js (a ∷ accounts) = account_rows js a ++ all_account_rows js accounts

abbrev pub orphan_rows : List JournalEntry → List Account → List ReportRow
orphan_rows js accounts = map (orphan_row js) (
    where_rows (λ (g : Group). not (any (λ (a : Account). a.id == g.account_id) accounts))
      (groups js))

-- `ORDER BY`, by insertion.
abbrev pub insert_row : ReportRow → List ReportRow → List ReportRow
insert_row r [] = r ∷ []
insert_row r (x ∷ xs) =
    let rest = insert_row r xs in if leb r.account_id x.account_id then r ∷ x ∷ xs else x ∷ rest

abbrev pub order_rows : List ReportRow → List ReportRow
order_rows [] = []
order_rows (r ∷ rows) = insert_row r (order_rows rows)

unfoldable pub report_rows : Ledger → List ReportRow
report_rows l =
    order_rows (all_account_rows l.journal l.accounts ++ orphan_rows l.journal l.accounts)

-- The body of the loop; the balances are compared as texts in the source, whose decimals are
-- canonical.
abbrev pub equals : Option ℤ → ℤ → Bool
equals none z = false
equals (some a) z = eq_ℤ a z

unfoldable pub classify : ReportRow → Option Issue
classify r =
    if r.is_unexpected
    then some (record {
      account_id = r.account_id;
      cached_balance_minor = none;
      computed_balance_minor = r.computed_balance;
      currency = r.currency;
      type = unexpected;
    })
    else if r.no_journal_support && not (equals r.cached_balance (pos 0))
    then some (record {
      account_id = r.account_id;
      cached_balance_minor = r.cached_balance;
      computed_balance_minor = pos 0;
      currency = r.currency;
      type = missing;
    })
    else if not (equals r.cached_balance r.computed_balance)
    then some (record {
      account_id = r.account_id;
      cached_balance_minor = r.cached_balance;
      computed_balance_minor = r.computed_balance;
      currency = r.currency;
      type = mismatched;
    })
    else none

unfoldable pub issues_of : List ReportRow → List Issue
issues_of [] = []
issues_of (r ∷ rows) = elim (classify r) [ none ↦ issues_of rows | some i ↦ i ∷ issues_of rows ]

pub record Report : Type 0 where
  pub accounts_checked : ℕ
  pub issues : List Issue
  pub ok : Bool

-- `run`
unfoldable pub run : Ledger → Report
unfolding report_rows issues_of
run l = record {
  accounts_checked = length l.accounts;
  issues = issues_of (report_rows l);
  ok = length (issues_of (report_rows l)) == 0;
}
