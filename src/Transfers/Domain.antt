-- ===== src/Transfers/Domain.antt =====
-- src/modules/transfers/transfer-domain.ts: the errors and the order in which accounts are locked.
use pulse_ledger.Base.{ℕ, ◌≤◌, ◌≡◌, ltb, if◌then◌else◌, arith}
use pulse_ledger.Base.Decimal.{Text}
use pulse_ledger.Errors.{
  Failure, domain_error, transfer_error, account_not_found, account_not_active, currency_mismatch,
  insufficient_funds, self_transfer, transfer_retry_exhausted,
}

pub record CreateTransferInput : Type 0 where
  pub amount_minor : Text
  pub destination_account_id : ℕ
  pub source_account_id : ℕ

abbrev pub not_found_failure : Failure
not_found_failure = domain_error transfer_error account_not_found "Account not found"

abbrev pub not_active_failure : Failure
not_active_failure = domain_error transfer_error account_not_active "Both accounts must be active"

abbrev pub currency_failure : Failure
currency_failure =
    domain_error transfer_error currency_mismatch "Source and destination currencies must match"

abbrev pub funds_failure : Failure
funds_failure =
    domain_error transfer_error insufficient_funds "Source account has insufficient funds"

abbrev pub self_failure : Failure
self_failure = domain_error transfer_error self_transfer "Source and destination must differ"

abbrev pub exhausted_failure : Failure
exhausted_failure =
    domain_error transfer_error transfer_retry_exhausted
      "Transfer could not be completed within the retry limit"

-- `deterministicAccountOrder`
unfoldable pub deterministic_account_order : ℕ → ℕ → ℕ × ℕ
deterministic_account_order first second =
    if ltb first second then (first, second) else (second, first)

-- Two transfers between the same two accounts, in either direction, lock them in the same order,
-- and that order is ascending: so no two transfers wait for one another in a circle.
pub deterministic_account_order_comm :
    (first second : ℕ)
    → (deterministic_account_order first second ≡ deterministic_account_order second first)
      × ((deterministic_account_order first second).0
          ≤ (deterministic_account_order first second).1)
unfolding deterministic_account_order
deterministic_account_order_comm first second = ground arith
