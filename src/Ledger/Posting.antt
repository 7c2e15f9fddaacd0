-- ===== src/Ledger/Posting.antt =====
-- `PostingInput` and `validatePosting`, src/modules/ledger/ledger-domain.ts.
use pulse_ledger.Base.{ℕ, ◌+◌, not, List, [], ◌∷◌, map, ltb, ◌==◌, length, distinct}
use pulse_ledger.Errors.{
  domain_error, ledger_error, invalid_posting, mixed_currency_posting, unbalanced_posting, Result,
  ◌>>◌, throw_if,
}
use pulse_ledger.Ledger.Tables.{Direction, debit, credit, TransactionType, Reference}

pub record PostingEntry : Type 0 where
  pub account_id : ℕ
  pub amount : ℕ
  pub currency : ℕ
  pub direction : Direction

pub record PostingInput : Type 0 where
  pub entries : List PostingEntry
  pub id : ℕ
  pub reference : Reference
  pub type : TransactionType

-- The loop that adds up debits and credits.
abbrev pub add_up : ℕ → ℕ → List PostingEntry → ℕ × ℕ
add_up debits credits [] = (debits, credits)
add_up debits credits (e ∷ es) = elim e.direction [
  | debit ↦ add_up (debits + e.amount) credits es
  | credit ↦ add_up debits (credits + e.amount) es
]

-- `validatePosting`
unfoldable pub validate_posting : PostingInput → Result (Unit {0})
validate_posting input = do
  throw_if (ltb (length input.entries) 2)
      (domain_error ledger_error invalid_posting "A posting requires at least two entries")
  throw_if (not (length (distinct (map (λ e. e.currency) input.entries)) == 1))
      (domain_error ledger_error mixed_currency_posting "All entries must use one currency")
  let totals = add_up 0 0 input.entries
  throw_if (not (totals.0 == totals.1))
      (domain_error ledger_error unbalanced_posting "Total debits must equal total credits")
