-- ===== src/Responses.antt =====
-- The responses that the routes send and that idempotency records store.
use pulse_ledger.Base.{ℕ, Option}
use pulse_ledger.Errors.{ErrorResponse}
use pulse_ledger.Ledger.Tables.{Transfer, Transaction}

-- `FundingResult`: the posted transaction with two more fields.
pub record FundingResult : Type 0 where
  pub posted : Transaction
  pub amount_minor : ℕ
  pub funded_account_id : ℕ

pub data Body : Type 0 where
  error_body : ErrorResponse → Body
  transfer_body : Transfer → Body
  funding_body : FundingResult → Body

-- `StoredIdempotentResponse`, with the nulls that the columns allow.
pub record StoredResponse : Type 0 where
  pub body : Option Body
  pub status : Option ℕ
