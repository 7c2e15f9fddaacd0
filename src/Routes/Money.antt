-- ===== src/Routes/Money.antt =====
-- The two handlers. Fastify has checked the body and the guard has set the principal before.
use pulse_ledger.Base.{ℕ, Bool, Option, none, some}
use pulse_ledger.Errors.{Result, ok, err}
use pulse_ledger.Ledger.Tables.{TransactionType}
use pulse_ledger.Responses.{Body, transfer_body, funding_body, FundingResult, StoredResponse}
use pulse_ledger.Idempotency.Records.{ClaimKey}
use pulse_ledger.Idempotency.Claim.{Surroundings}
use pulse_ledger.Ports.Transaction.{Faults, Outcome}
use pulse_ledger.Database.{Db}
use pulse_ledger.Transfers.Domain.{CreateTransferInput}
use pulse_ledger.Transfers.Service.{TransferMetrics, TransferServiceOptions, Attempt, Run, create}
use pulse_ledger.Funding.Store.{PostingFresh}
use pulse_ledger.Funding.Service.{FundAccountInput, fund_account}
use pulse_ledger.Routes.Flow.{Settlement, KeyedRequest, keyed_route}

abbrev pub key_code : Option ClaimKey → Option ℕ
key_code none = none
key_code (some k) = some k.key

abbrev pub transfer_answer : Run → Result Body × Db
transfer_answer run =
    (elim run.result [ ok t ↦ ok (transfer_body t) | err e ↦ err e ], run.database)

abbrev pub funding_answer : Outcome FundingResult Db → Result Body × Db
funding_answer o = (elim o.result [ ok f ↦ ok (funding_body f) | err e ↦ err e ], o.database)

-- `POST /v1/transfers`
unfoldable pub transfer_route :
    TransferServiceOptions
    → (ℕ → Attempt)
    → ℕ
    → (ℕ → Surroundings)
    → Settlement
    → KeyedRequest
    → CreateTransferInput
    → TransferMetrics
    → Db
    → StoredResponse × Db
transfer_route o attempts transfer_id around s r input m =
    keyed_route around s (record r { operation = TransactionType.transfer })
      (λ k db.
        transfer_answer (create o attempts transfer_id input r.principal_id (key_code k) m db))

-- `POST /v1/admin/fund`; `r.principal_id` is the administrator's principal.
unfoldable pub funding_route :
    Bool
    → Faults
    → (Db → Db)
    → PostingFresh
    → ℕ
    → (ℕ → Surroundings)
    → Settlement
    → KeyedRequest
    → FundAccountInput
    → Db
    → StoredResponse × Db
funding_route with_outbox f between fresh id around s r input =
    keyed_route around s (record r { operation = TransactionType.funding })
      (λ k db. funding_answer (fund_account with_outbox f between fresh id input k db))
