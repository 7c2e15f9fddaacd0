-- ===== src/Transfers/Service.antt =====
-- `TransferService`, src/modules/transfers/transfer-service.ts.
use pulse_ledger.Base.{
  ℕ, zero, suc, ◌+◌, ◌-◌, ◌*◌, ◌^◌, Bool, true, false, not, ◌||◌, Option, none, some, List, [], ◌∷◌,
  ◌++◌, min, ◌==◌, if◌then◌else◌, same_option,
}
use pulse_ledger.Base.Int.{pos, leb_ℤ}
use pulse_ledger.Base.Jitter.{jittered}
use pulse_ledger.Errors.{
  Failure, database_error, unexpected_error, serialization_failure, deadlock_detected, Result, ok,
  err, ◌>>=◌, ◌>>◌, throw_if, or_throw, domain_error, transfer_error, transfer_not_found,
}
use pulse_ledger.Ledger.Money.{text, from_minor}
use pulse_ledger.Ledger.Tables.{Account, is_active, Transfer, Ledger, find_account, TransactionType}
use pulse_ledger.Ports.Transaction.{Faults, Outcome, with_transaction}
use pulse_ledger.Idempotency.Records.{ClaimKey}
use pulse_ledger.Database.{Db}
use pulse_ledger.Transfers.Domain.{
  CreateTransferInput, not_found_failure, not_active_failure, currency_failure, funds_failure,
  self_failure, exhausted_failure, deterministic_account_order,
}
use pulse_ledger.Transfers.Repository.{Fresh, lock_accounts, post_transfer, find_visible_by_id}

pub record TransferMetrics : Type 0 where
  pub completed : ℕ
  pub exhausted : ℕ
  pub retries : ℕ

abbrev pub record_completed : TransferMetrics → TransferMetrics
record_completed m = record m { completed = m.completed + 1 }

abbrev pub record_exhausted : TransferMetrics → TransferMetrics
record_exhausted m = record m { exhausted = m.exhausted + 1 }

abbrev pub record_retry : TransferMetrics → TransferMetrics
record_retry m = record m { retries = m.retries + 1 }

-- A request with its amount parsed: what the attempts share.
pub record TransferRequest : Type 0 where
  pub amount : ℕ
  pub source_account_id : ℕ
  pub destination_account_id : ℕ
  pub principal_id : ℕ
  pub transfer_id : ℕ
  pub idempotency_key : Option ℕ

-- The tests on the two locked rows, in their order.
unfoldable pub authorize : TransferRequest → Account → Account → Result (Unit {0})
authorize r source destination = do
  throw_if (source.is_treasury || destination.is_treasury) not_found_failure
  throw_if (not (same_option source.owner_principal_id (some r.principal_id))) not_found_failure
  throw_if (not (is_active source.status) || not (is_active destination.status)) not_active_failure
  throw_if (not (source.currency == destination.currency)) currency_failure
  throw_if (not (leb_ℤ (pos r.amount) source.balance_minor)) funds_failure

-- An empty key counts as none in `idempotencyKey ? … : undefined`; the route passes no empty key.
abbrev pub claim_of : TransferRequest → Option ClaimKey
claim_of r = elim r.idempotency_key [
  | none ↦ none
  | some key ↦
      some
        (record { principal_id = r.principal_id; key = key; operation = TransactionType.transfer })
]

-- The work that `create` runs in a serializable transaction.
unfoldable pub transfer_work : Bool → TransferRequest → Fresh → Db → Result (Transfer × Db)
transfer_work with_outbox r fresh db = do
  let locked =
      lock_accounts (deterministic_account_order r.source_account_id r.destination_account_id)
        db.ledger
  source ← or_throw (find_account r.source_account_id locked) not_found_failure
  destination ← or_throw (find_account r.destination_account_id locked) not_found_failure
  authorize r source destination
  post_transfer with_outbox
      (record {
        amount_minor = r.amount;
        currency = source.currency;
        destination_account_id = destination.id;
        id = r.transfer_id;
        source_account_id = source.id;
        idempotency = claim_of r;
      })
      fresh db

-- `retryableDatabaseCodes`: no code of the service's own errors is one of the two.
unfoldable pub is_retryable : Failure → Bool
is_retryable (database_error serialization_failure) = true
is_retryable (database_error deadlock_detected) = true
is_retryable _ = false

-- One attempt: what other sessions commit before it, what happens to its transaction, and the
-- number that its jitter draws.
pub record Attempt : Type 0 where
  pub interference : Db → Db
  pub faults : Faults
  pub fresh : Fresh
  pub jitter : ℕ

-- `delayMs`
unfoldable pub retry_delay : ℕ → ℕ → ℕ → ℕ
retry_delay base attempt jitter = jittered (min (base * 2 ^ (attempt - 1)) 50) jitter

pub record Run : Type 0 where
  pub result : Result Transfer
  pub database : Db
  pub metrics : TransferMetrics
  pub delays : List ℕ

-- The loop of `create`, by the attempts left; `attempt` counts from 1. The transaction is run by
-- `work`, so that the loop can be read by itself.
unfoldable pub attempt_loop :
    (ℕ → Db → Outcome Transfer Db)
    → (ℕ → Db → Db)
    → (ℕ → ℕ)
    → ℕ
    → ℕ
    → TransferMetrics
    → List ℕ
    → Db
    → Run
attempt_loop work interference delay zero attempt m delays db = record {
  result = err (unexpected_error "unreachable transfer retry state");
  database = db;
  metrics = m;
  delays = delays;
}
attempt_loop work interference delay (suc left) attempt m delays db =
    let o = work attempt (interference attempt db) in
    let again =
      attempt_loop work interference delay left (attempt + 1) (record_retry m)
        (delays ++ delay attempt ∷ []) o.database in
    elim o.result [
      | ok t ↦ record {
        result = ok t;
        database = o.database;
        metrics = record_completed m;
        delays = delays;
      }
      | err e ↦
          if not (is_retryable e)
          then record { result = err e; database = o.database; metrics = m; delays = delays }
          else if left == 0
          then record {
            result = err exhausted_failure;
            database = o.database;
            metrics = record_exhausted m;
            delays = delays;
          }
          else again
    ]

pub record TransferServiceOptions : Type 0 where
  pub base_retry_delay_ms : ℕ
  pub max_attempts : ℕ
  pub with_outbox : Bool

abbrev pub default_options : TransferServiceOptions
default_options = record { base_retry_delay_ms = 2; max_attempts = 12; with_outbox = true }

abbrev pub request_of : CreateTransferInput → ℕ → ℕ → ℕ → Option ℕ → TransferRequest
request_of input amount principal transfer_id key = record {
  amount = amount;
  source_account_id = input.source_account_id;
  destination_account_id = input.destination_account_id;
  principal_id = principal;
  transfer_id = transfer_id;
  idempotency_key = key;
}

-- `create`, behind the two tests on the input.
unfoldable pub create_parsed :
    TransferServiceOptions → (ℕ → Attempt) → TransferRequest → TransferMetrics → Db → Run
unfolding attempt_loop
create_parsed o attempts r = λ m db.
    attempt_loop
      (λ n s.
        with_transaction (attempts n).faults (transfer_work o.with_outbox r (attempts n).fresh) s)
      (λ n. (attempts n).interference)
      (λ n. retry_delay o.base_retry_delay_ms n (attempts n).jitter) o.max_attempts 1 m [] db

abbrev pub rejected : Failure → TransferMetrics → Db → Run
rejected e m db = record { result = err e; database = db; metrics = m; delays = [] }

-- `create`
unfoldable pub create :
    TransferServiceOptions
    → (ℕ → Attempt)
    → ℕ
    → CreateTransferInput
    → ℕ
    → Option ℕ
    → TransferMetrics
    → Db
    → Run
unfolding create_parsed
create o attempts transfer_id input principal key m db =
    elim (from_minor (text input.amount_minor)) [
      | err e ↦ rejected e m db
      | ok amount ↦
          if input.source_account_id == input.destination_account_id
          then rejected self_failure m db
          else create_parsed o attempts (request_of input amount principal transfer_id key) m db
    ]

-- `findById`
unfoldable pub find_by_id : ℕ → ℕ → Ledger → Result Transfer
find_by_id id principal l =
    or_throw (find_visible_by_id id principal l)
      (domain_error transfer_error transfer_not_found "Transfer not found")
