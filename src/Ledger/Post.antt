-- ===== src/Ledger/Post.antt =====
-- `post_ledger_transaction`, migrations/002_double_entry_ledger.sql, the SQL function that
-- `postWith` (src/modules/ledger/ledger-repository.ts) and `postTransfer`
-- (src/modules/transfers/transfer-repository.ts) call, and the trigger that checks at COMMIT.
use pulse_ledger.Base.{
  ℕ, ◌+◌, Bool, true, false, not, ◌&&◌, ◌||◌, List, [], ◌∷◌, ◌++◌, map, ltb, ◌==◌, if◌then◌else◌,
  length, distinct, contains, any, where_rows, count_rows, update_rows, min,
}
use pulse_ledger.Base.Int.{ℤ, pos, negsuc, ◌+ℤ◌, ◌-ℤ◌}
use pulse_ledger.Errors.{
  database_error, invalid_parameter, foreign_key_violation, check_violation, unique_violation,
  numeric_out_of_range, Result, ok, ◌>>◌, throw_if,
}
use pulse_ledger.Ledger.Tables.{
  Account, is_active, Direction, debit, credit, TransactionType, Reference, same_reference,
  Transaction, JournalEntry, Ledger,
}

-- One position of the four parallel arrays that the callers build from one list, so that their
-- lengths agree; a direction is one of the two by its type.
pub record EntryArg : Type 0 where
  pub id : ℕ
  pub account_id : ℕ
  pub direction : Direction
  pub amount : ℕ

pub record PostArgs : Type 0 where
  pub id : ℕ
  pub type : TransactionType
  pub reference : Reference
  pub entries : List EntryArg
  pub now : ℕ

abbrev pub account_ids : List EntryArg → List ℕ
account_ids = map (λ e. e.account_id)

abbrev pub signed : Direction → ℕ → ℤ
signed debit n = pos n
signed credit n = pos 0 -ℤ pos n

-- `sum(CASE direction WHEN 'debit' THEN amount ELSE -amount END)` for one account.
unfoldable pub delta : ℕ → List EntryArg → ℤ
delta k [] = pos 0
delta k (e ∷ es) = (if e.account_id == k then signed e.direction e.amount else pos 0) +ℤ delta k es

-- `sum(amount) FILTER (WHERE direction = 'debit')`, and for credits.
abbrev pub debit_total : List EntryArg → ℕ
debit_total [] = 0
debit_total (e ∷ es) = elim e.direction [ debit ↦ e.amount | credit ↦ 0 ] + debit_total es

abbrev pub credit_total : List EntryArg → ℕ
credit_total [] = 0
credit_total (e ∷ es) = elim e.direction [ debit ↦ 0 | credit ↦ e.amount ] + credit_total es

abbrev pub requested : List EntryArg → Account → Bool
requested es a = contains a.id (account_ids es)

-- `min(a.currency)` over the active accounts.
abbrev pub min_of : List ℕ → ℕ
min_of [] = 0
min_of (c ∷ []) = c
min_of (c ∷ d ∷ cs) = min c (min_of (d ∷ cs))

abbrev pub posting_currency : List EntryArg → List Account → ℕ
posting_currency es accounts =
    min_of (map (λ a. a.currency) (where_rows (λ a. requested es a && is_active a.status) accounts))

-- The tests before the first INSERT, in their order.
unfoldable pub check_posting : List EntryArg → List Account → Result (Unit {0})
check_posting es accounts = do
  throw_if (ltb (length es) 2) (database_error invalid_parameter)
  throw_if (any (λ e. e.amount == 0) es) (database_error invalid_parameter)
  throw_if
      (not (
        count_rows (λ a. requested es a && is_active a.status) accounts
        == length (distinct (account_ids es))))
      (database_error foreign_key_violation)
  throw_if
      (not (length (distinct (map (λ a. a.currency) (where_rows (requested es) accounts))) == 1))
      (database_error check_violation)
  throw_if (not (debit_total es == credit_total es)) (database_error check_violation)

abbrev pub to_rows : PostArgs → ℕ → List EntryArg → List JournalEntry
to_rows p currency [] = []
to_rows p currency (e ∷ es) =
    record {
      id = e.id;
      transaction_id = p.id;
      account_id = e.account_id;
      currency = currency;
      direction = e.direction;
      amount_minor = e.amount;
      created_at = p.now;
    }
    ∷ to_rows p currency es

-- Whether a primary key of the new entries is taken, by a stored row or by another new one.
abbrev pub entry_id_taken : List EntryArg → List JournalEntry → Bool
entry_id_taken [] journal = false
entry_id_taken (e ∷ es) journal =
    contains e.id (map (λ x. x.id) es)
    || any (λ (j : JournalEntry). j.id == e.id) journal
    || entry_id_taken es journal

-- `UPDATE accounts SET balance_minor = balance_minor + delta.amount`
unfoldable pub apply_entries : List EntryArg → List Account → List Account
apply_entries es =
    update_rows (requested es) (λ a. record a { balance_minor = a.balance_minor +ℤ delta a.id es })

-- The value does not fit a `bigint`.
abbrev pub out_of_range : ℤ → Bool
out_of_range (pos n) = ltb 9_223_372_036_854_775_807 n
out_of_range (negsuc n) = ltb 9_223_372_036_854_775_807 n

-- `CHECK (is_treasury OR balance_minor >= 0)` fails.
abbrev pub overdrawn : Account → Bool
overdrawn a = not a.is_treasury && elim a.balance_minor [ pos n ↦ false | negsuc n ↦ true ]

unfoldable pub post_ledger_transaction : PostArgs → Ledger → Result (Transaction × Ledger)
unfolding check_posting
post_ledger_transaction p l = do
  check_posting p.entries l.accounts
  let row : Transaction = record {
    id = p.id;
    type = p.type;
    reference = p.reference;
    currency = posting_currency p.entries l.accounts;
    created_at = p.now;
  }
  throw_if
      (any (λ (t : Transaction). t.id == p.id || same_reference t.reference p.reference)
        l.transactions)
      (database_error unique_violation)
  throw_if (entry_id_taken p.entries l.journal) (database_error unique_violation)
  let accounts = apply_entries p.entries l.accounts
  throw_if (any (λ a. requested p.entries a && out_of_range a.balance_minor) accounts)
      (database_error numeric_out_of_range)
  throw_if (any (λ a. requested p.entries a && overdrawn a) accounts)
      (database_error check_violation)
  ok (
    row,
    record l {
      accounts = accounts;
      transactions = l.transactions ++ row ∷ [];
      journal = l.journal ++ to_rows p row.currency p.entries;
    },
  )

abbrev pub same_direction : Direction → Direction → Bool
same_direction debit debit = true
same_direction credit credit = true
same_direction _ _ = false

-- The journal's totals for one transaction, as the trigger's SELECT takes them.
abbrev pub journal_total : Direction → ℕ → List JournalEntry → ℕ
journal_total d k [] = 0
journal_total d k (j ∷ js) =
    (if j.transaction_id == k && same_direction d j.direction then j.amount_minor else 0)
    + journal_total d k js

abbrev pub journal_count : Direction → ℕ → List JournalEntry → ℕ
journal_count d k = count_rows (λ j. j.transaction_id == k && same_direction d j.direction)

-- `assert_ledger_transaction_balanced`, which runs at COMMIT for a finalized transaction.
unfoldable pub assert_balanced : ℕ → Ledger → Result (Unit {0})
assert_balanced k l =
    throw_if
      (journal_count debit k l.journal == 0
        || journal_count credit k l.journal == 0
        || not (journal_total debit k l.journal == journal_total credit k l.journal))
      (database_error check_violation)
