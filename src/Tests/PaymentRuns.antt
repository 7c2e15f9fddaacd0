-- ===== src/Tests/PaymentRuns.antt =====
-- A payment whose first attempt is rolled back, and the retry of a client that lost the answer.
use pulse_ledger.Base.{ℕ, ◌≡◌, refl, some, none, List, [], ◌∷◌, ◌==◌, if◌then◌else◌}
use pulse_ledger.Base.Int.{◌+ℤ◌, ◌-ℤ◌}
use pulse_ledger.Base.Jitter.{jittered}
use pulse_ledger.Outbox.Repository.{insert}
use pulse_ledger.Errors.{ok, serialization_failure}
use pulse_ledger.Ports.Transaction.{no_faults, refused, with_transaction}
use pulse_ledger.Ledger.Money.{from_minor, in_supported_range}
use pulse_ledger.Ledger.Post.{post_ledger_transaction, check_posting, apply_entries, delta}
use pulse_ledger.Idempotency.Records.{ClaimRecord, new_claim, insert_claim, complete_claim}
use pulse_ledger.Idempotency.Stable.{Statement, insert_row, execute_all}
use pulse_ledger.Idempotency.Claim.{try_claim, claim_loop, claim, claim_or_replay}
use pulse_ledger.Database.{Db}
use pulse_ledger.Transfers.Domain.{CreateTransferInput, deterministic_account_order}
use pulse_ledger.Transfers.Service.{
  TransferMetrics, Attempt, create, create_parsed, attempt_loop, is_retryable, retry_delay,
  transfer_work, authorize, default_options,
}
use pulse_ledger.Transfers.Repository.{
  lock_accounts, post_transfer, insert_transfer, insert_event, complete_transfer_claim,
}
use pulse_ledger.Routes.Flow.{idempotency_key_from, a_key}
use pulse_ledger.Routes.Money.{transfer_route}
use pulse_ledger.Routes.Once.{receipt, payment_repeated}
use pulse_ledger.Tests.Sample.{before, fresh, transfer_key, moved}
use pulse_ledger.Tests.RouteRuns.{quiet, settlement, keyed_request}

abbrev empty_bank : Db
empty_bank = record before { claims = [] }

abbrev claimed : List ClaimRecord
claimed = new_claim transfer_key 77 10 ∷ []

abbrev input : CreateTransferInput
input = record {
  amount_minor = b'3' ∷ b'0' ∷ b'0' ∷ [];
  destination_account_id = 2;
  source_account_id = 1;
}

abbrev attempts : ℕ → Attempt
attempts n = record {
  interference = λ db. db;
  faults =
      if n == 1 then record no_faults { commit = refused serialization_failure } else no_faults;
  fresh = fresh;
  jitter = 0;
}

abbrev metrics : TransferMetrics
metrics = record { completed = 0; exhausted = 0; retries = 0 }

read : idempotency_key_from keyed_request.header ≡ a_key 7
unfolding idempotency_key_from
read = refl

won :
    claim_or_replay quiet
      (record { id = transfer_key; fingerprint = 77; stale_timeout = 30_000 })
      []
    ≡ (ok none, claimed)
unfolding claim_or_replay claim claim_loop try_claim insert_claim
won = refl

made :
    (create default_options attempts 60 input 100
      (some 7)
      metrics
      (record empty_bank { claims = claimed })).result
    ≡ ok moved
unfolding create create_parsed attempt_loop with_transaction is_retryable retry_delay jittered
    from_minor in_supported_range transfer_work authorize lock_accounts deterministic_account_order
    post_transfer insert_transfer insert_event complete_transfer_claim complete_claim
    post_ledger_transaction check_posting apply_entries delta ◌+ℤ◌ ◌-ℤ◌ insert
made = refl

-- Meanwhile another session asks for the key, and does not get it.
abbrev statements : List Statement
statements = insert_row transfer_key 88 20 ∷ []

abbrev later : Db
later =
    let first =
      (transfer_route default_options attempts 60 quiet settlement keyed_request input metrics
        empty_bank).1 in
    record first { claims = execute_all statements first.claims }

payment_repeated_example :
    ((transfer_route default_options attempts 60 quiet settlement keyed_request input metrics
        empty_bank).0
      ≡ receipt moved)
    × (transfer_route default_options attempts 61 quiet settlement keyed_request input metrics later
        ≡ (receipt moved, record later { claims = execute_all [] later.claims }))
unfolding execute_all
payment_repeated_example =
    payment_repeated default_options attempts 60 quiet settlement keyed_request 7 input metrics
      empty_bank claimed moved read won made default_options attempts 61 quiet settlement
      keyed_request input metrics statements [] later
      (record { keyed = (refl, tt); held = ((λ e. refl), tt) }) (λ n d v. v) read refl refl refl
      refl
