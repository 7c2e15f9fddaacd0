-- ===== src/Tests/TransferRuns.antt =====
-- Transfers on the sample.
use pulse_ledger.Base.{
  ℕ, List, ◌↔◌, ◌+◌, ◌≤◌, ◌≡◌, ◌≢◌, refl, true, some, none, [], ◌∷◌, arith, length,
}
use pulse_ledger.Base.Int.{pos, ◌+ℤ◌, ◌-ℤ◌}
use pulse_ledger.Errors.{ok, err, database_error, serialization_failure}
use pulse_ledger.Ledger.Tables.{Account, Transfer, find_account}
use pulse_ledger.Ledger.Post.{post_ledger_transaction, check_posting, apply_entries, delta}
use pulse_ledger.Ledger.Conservation.{total_balance}
use pulse_ledger.Idempotency.Records.{complete_claim}
use pulse_ledger.Idempotency.Stable.{Statement, insert_row, release_row, execute_all}
use pulse_ledger.Outbox.Repository.{insert}
use pulse_ledger.Ports.Transaction.{no_faults, refused, with_transaction, Outcome, returned}
use pulse_ledger.Database.{Db}
use pulse_ledger.Transfers.Domain.{
  not_found_failure, deterministic_account_order, CreateTransferInput,
}
use pulse_ledger.Transfers.Repository.{
  lock_accounts, post_transfer, insert_transfer, insert_event, complete_transfer_claim,
}
use pulse_ledger.Transfers.Service.{
  authorize, transfer_work, Attempt, default_options, create, create_parsed, attempt_loop,
  is_retryable, TransferMetrics,
}
use pulse_ledger.Ledger.Money.{from_minor, in_supported_range}
use pulse_ledger.Transfers.Work.{Authorized, authorize-Authorized}
use pulse_ledger.Transfers.Effect.{transfer_work_moves}
use pulse_ledger.Transfers.Once.{transfer_once}
use pulse_ledger.Transfers.Retry.{attempt_loop_retries}
use pulse_ledger.Soundness.{IsSound}
use pulse_ledger.Transfers.Safety.{create-IsSound, create-err}
use pulse_ledger.Tests.Sample.{account, funded, transfer_key, before, request, fresh, moved}
use pulse_ledger.Tests.LedgerRuns.{funded-IsConsistent, funded-IsKeyed}

abbrev after : Db
after = elim (transfer_work true request fresh before) [ ok (t, db) ↦ db | err e ↦ before ]

ran : transfer_work true request fresh before ≡ ok (moved, after)
unfolding transfer_work authorize lock_accounts deterministic_account_order post_transfer
    insert_transfer insert_event complete_transfer_claim complete_claim post_ledger_transaction
    check_posting apply_entries delta ◌+ℤ◌ ◌-ℤ◌ insert
ran = refl

passed : authorize request (account 1 100 (pos 1000)) (account 2 200 (pos 0)) ≡ ok tt
unfolding authorize
passed = refl

authorize-Authorized_example :
    (authorize request (account 1 100 (pos 1000)) (account 2 200 (pos 0)) ≡ ok tt)
    ↔ Authorized request (account 1 100 (pos 1000)) (account 2 200 (pos 0))
authorize-Authorized_example =
    authorize-Authorized request (account 1 100 (pos 1000)) (account 2 200 (pos 0))

transfer_work_moves_example :
    (source : Account) × (destination : Account) × Authorized request source destination
    × (find_account 1 funded.accounts ≡ some source)
    × (find_account 2 funded.accounts ≡ some destination)
    × (find_account 1 after.ledger.accounts
        ≡ some (record source { balance_minor = source.balance_minor -ℤ pos 300 }))
    × (find_account 2 after.ledger.accounts
        ≡ some (record destination { balance_minor = destination.balance_minor +ℤ pos 300 }))
transfer_work_moves_example = transfer_work_moves true request fresh before moved after ran

-- Another session tries to take the key over and to drop it; then the same request runs again.
abbrev attempts_between : List Statement
attempts_between = insert_row transfer_key 77 9 ∷ release_row transfer_key ∷ []

transfer_once_example :
    transfer_work true request fresh
      (record after { claims = execute_all attempts_between after.claims })
    ≢ ok (moved, after)
transfer_once_example =
    transfer_once true request fresh transfer_key before moved after refl ran true request fresh
      attempts_between (record after { claims = execute_all attempts_between after.claims })
      (refl, tt) refl refl moved after

-- Every attempt meets a serialization failure at its COMMIT.
abbrev contended : ℕ → Attempt
contended n = record {
  interference = λ db. db;
  faults = record no_faults { commit = refused serialization_failure };
  fresh = fresh;
  jitter = 0;
}

abbrev no_metrics : TransferMetrics
no_metrics = record { completed = 0; exhausted = 0; retries = 0 }

abbrev failing : ℕ → Db → Outcome Transfer Db
failing n db = record {
  result = err (database_error serialization_failure);
  database = db;
  connection = returned;
}

attempt_loop_retries_example :
    let run = attempt_loop failing (λ n db. db) (λ n. n) 3 1 no_metrics [] before in
    (run.metrics.retries + 0 ≡ 0 + length run.delays) × (length run.delays ≤ 0 + 2)
attempt_loop_retries_example =
    attempt_loop_retries failing (λ n db. db) (λ n. n) 2 1 no_metrics [] before

abbrev input : CreateTransferInput
input = record {
  amount_minor = b'3' ∷ b'0' ∷ b'0' ∷ [];
  destination_account_id = 2;
  source_account_id = 1;
}

before-IsSound : IsSound (total_balance funded.accounts) before
before-IsSound = record {
  consistent = funded-IsConsistent;
  keyed = funded-IsKeyed;
  total_kept = refl;
}

create-IsSound_example :
    IsSound
      (total_balance funded.accounts)
      (create default_options contended 60 input 100 (some 7) no_metrics before).database
create-IsSound_example =
    create-IsSound default_options contended 60 input 100 (some 7) no_metrics before
      (total_balance funded.accounts) (λ n s v. v) before-IsSound

-- Principal 200 asks for the money of principal 100.
refused_stranger :
    (create default_options contended 60 input 200 none no_metrics before).result
    ≡ err not_found_failure
unfolding create create_parsed attempt_loop with_transaction is_retryable from_minor
    in_supported_range transfer_work authorize lock_accounts deterministic_account_order
refused_stranger = refl

create-err_example :
    (create default_options contended 60 input 200 none no_metrics before).database ≡ before
create-err_example =
    create-err default_options contended 60 input 200 none no_metrics before not_found_failure
      (λ n s e. e) (λ n e. absurd (ground (arith, e))) refused_stranger
