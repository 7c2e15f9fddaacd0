-- ===== src/Funding/Service.antt =====
-- `LedgerPostingService`, src/modules/ledger/ledger-service.ts.
use pulse_ledger.Base.{ℕ, Bool, not, Option, none, some, [], ◌∷◌, ltb, min, if◌then◌else◌}
use pulse_ledger.Base.Decimal.{Text}
use pulse_ledger.Errors.{
  Failure, domain_error, ledger_error, account_not_found, account_not_active, treasury_not_found,
  Result, ok, err, ◌>>=◌, ◌>>◌, throw_if, or_throw,
}
use pulse_ledger.Ledger.Money.{text, from_minor}
use pulse_ledger.Ledger.Tables.{
  Account, is_active, debit, credit, TransactionType, Reference, Transaction, Ledger, find_account,
}
use pulse_ledger.Ledger.Posting.{PostingInput, validate_posting}
use pulse_ledger.Responses.{FundingResult, funding_body}
use pulse_ledger.Idempotency.Records.{ClaimKey}
use pulse_ledger.Ports.Transaction.{Faults, Outcome, never_connected}
use pulse_ledger.Database.{Db}
use pulse_ledger.Funding.Store.{find_treasury, PostingFresh, PostingIdempotency, store_post}

abbrev pub journal_entries_default_limit : ℕ
journal_entries_default_limit = 20

abbrev pub journal_entries_max_limit : ℕ
journal_entries_max_limit = 100

-- `resolveLimit`, on a limit that is absent or a natural number; the route passes no other.
unfoldable pub resolve_limit : Option ℕ → ℕ
resolve_limit none = journal_entries_default_limit
resolve_limit (some n) =
    if ltb n 1 then journal_entries_default_limit else min n journal_entries_max_limit

pub record FundAccountInput : Type 0 where
  pub account_id : ℕ
  pub amount_minor : Text

abbrev pub rejection {ℓ} : {A : Type ℓ} → Failure → Db → Outcome A Db
rejection e db = record { result = err e; database = db; connection = never_connected }

-- `post`
unfoldable pub post :
    Bool
    → Faults
    → PostingInput
    → Option PostingIdempotency
    → PostingFresh
    → Db
    → Outcome Transaction Db
post with_outbox f input idempotency fresh db = elim (validate_posting input) [
  | err e ↦ rejection e db
  | ok u ↦ store_post with_outbox f input idempotency fresh db
]

-- The parsed amount, the account and the treasury that `fundAccount` reads before it posts.
unfoldable pub funding_parties : FundAccountInput → Ledger → Result (ℕ × Account × Account)
funding_parties input l = do
  amount ← from_minor (text input.amount_minor)
  account ←
      or_throw (find_account input.account_id l.accounts)
        (domain_error ledger_error account_not_found "Account not found")
  throw_if account.is_treasury (domain_error ledger_error account_not_found "Account not found")
  throw_if (not (is_active account.status))
      (domain_error ledger_error account_not_active "Account is not active")
  treasury ←
      or_throw (find_treasury account.currency l)
        (domain_error ledger_error treasury_not_found "Treasury account is unavailable")
  ok (amount, account, treasury)

abbrev pub funding_reference : ℕ → Reference
funding_reference id = record { prefix = TransactionType.funding; of = id }

abbrev pub funding_posting : ℕ → ℕ → Account → Account → PostingInput
funding_posting id amount account treasury = record {
  entries =
      record {
        account_id = account.id;
        amount = amount;
        currency = account.currency;
        direction = debit;
      }
      ∷ record {
        account_id = treasury.id;
        amount = amount;
        currency = account.currency;
        direction = credit;
      }
      ∷ [];
  id = id;
  reference = funding_reference id;
  type = TransactionType.funding;
}

-- `toResult`
abbrev pub to_result : ℕ → ℕ → Transaction → FundingResult
to_result amount account_id posted = record {
  posted = posted;
  amount_minor = amount;
  funded_account_id = account_id;
}

abbrev pub posting_idempotency : ℕ → ℕ → Option ClaimKey → Option PostingIdempotency
posting_idempotency amount account_id none = none
posting_idempotency amount account_id (some k) = some (record {
  id = k;
  response_body = λ posted. funding_body (to_result amount account_id posted);
  response_status = 201;
})

abbrev pub funding_outcome : ℕ → ℕ → Outcome Transaction Db → Outcome FundingResult Db
funding_outcome amount account_id o = record {
  result = elim o.result [ ok posted ↦ ok (to_result amount account_id posted) | err e ↦ err e ];
  database = o.database;
  connection = o.connection;
}

-- `fundAccount`. The two reads are statements of their own: `between` is what other sessions
-- commit after them and before the posting.
unfoldable pub fund_account :
    Bool
    → Faults
    → (Db → Db)
    → PostingFresh
    → ℕ
    → FundAccountInput
    → Option ClaimKey
    → Db
    → Outcome FundingResult Db
fund_account with_outbox f between fresh id input key db = elim (funding_parties input db.ledger) [
  | err e ↦ rejection e db
  | ok (amount, account, treasury) ↦ funding_outcome amount account.id (
      post with_outbox f (funding_posting id amount account treasury)
        (posting_idempotency amount account.id key) fresh (between db))
]
