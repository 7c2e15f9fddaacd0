-- ===== src/Ledger/Tables.antt =====
-- The ledger's tables. Identifiers, currencies and times are numbers: the code compares them and
-- nothing else (a uuid is the number that its canonical text denotes, so the orders agree).
use pulse_ledger.Base.{ℕ, Bool, Option, List, ◌==◌, ◌&&◌, find, true, false}
use pulse_ledger.Base.Int.{ℤ}

pub data AccountStatus : Type 0 where
  active frozen closed : AccountStatus

abbrev pub is_active : AccountStatus → Bool
is_active active = true
is_active frozen = false
is_active closed = false

-- A row of `accounts`, and `LedgerAccount`, `LockedTransferAccount` with it.
pub record Account : Type 0 where
  pub id : ℕ
  pub currency : ℕ
  pub status : AccountStatus
  pub balance_minor : ℤ
  pub is_treasury : Bool
  pub owner_principal_id : Option ℕ
  pub created_at : ℕ

pub data Direction : Type 0 where
  debit credit : Direction

pub data TransactionType : Type 0 where
  funding transfer : TransactionType

abbrev pub same_type : TransactionType → TransactionType → Bool
same_type funding funding = true
same_type transfer transfer = true
same_type _ _ = false

-- The text `funding:<id>` or `transfer:<id>`.
pub record Reference : Type 0 where
  pub prefix : TransactionType
  pub of : ℕ

abbrev pub same_reference : Reference → Reference → Bool
same_reference a b = same_type a.prefix b.prefix && a.of == b.of

-- A row of `ledger_transactions`, and `PostedTransaction`.
pub record Transaction : Type 0 where
  pub id : ℕ
  pub type : TransactionType
  pub reference : Reference
  pub currency : ℕ
  pub created_at : ℕ

-- A row of `journal_entries`, and `JournalEntry`.
pub record JournalEntry : Type 0 where
  pub id : ℕ
  pub transaction_id : ℕ
  pub account_id : ℕ
  pub currency : ℕ
  pub direction : Direction
  pub amount_minor : ℕ
  pub created_at : ℕ

-- A row of `transfers`, and `Transfer`, whose reference and time are those of its transaction and
-- whose status is always `completed`.
pub record Transfer : Type 0 where
  pub id : ℕ
  pub source_account_id : ℕ
  pub destination_account_id : ℕ
  pub amount_minor : ℕ
  pub currency : ℕ
  pub reference : Reference
  pub created_at : ℕ

pub record Ledger : Type 0 where
  pub accounts : List Account
  pub transactions : List Transaction
  pub journal : List JournalEntry
  pub transfers : List Transfer

-- `WHERE id = $1` on the primary key.
abbrev pub find_account : ℕ → List Account → Option Account
find_account k = find (λ a. a.id == k)
