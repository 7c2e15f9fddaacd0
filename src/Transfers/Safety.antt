-- ===== src/Transfers/Safety.antt =====
-- `create` as a whole: it keeps the ledger consistent whatever runs beside it, and leaves nothing
-- behind when it fails.
use pulse_ledger.Base.{ℕ, ◌≡◌, ◌≢◌, refl, ◌∙◌, Bool, Option, [], ◌==◌, Bool-cases, inl, inr}
use pulse_ledger.Base.Int.{ℤ}
use pulse_ledger.Errors.{Failure, ok, err, Result-cases}
use pulse_ledger.Ledger.Money.{text, from_minor}
use pulse_ledger.Ledger.Tables.{Transfer}
use pulse_ledger.Ports.Transaction.{
  with_transaction_inv, answer_lost, with_transaction, with_transaction-err,
}
use pulse_ledger.Database.{Db}
use pulse_ledger.Soundness.{IsSound}
use pulse_ledger.Transfers.Domain.{CreateTransferInput, self_failure}
use pulse_ledger.Transfers.Repository.{Fresh}
use pulse_ledger.Transfers.Service.{
  TransferMetrics, TransferRequest, TransferServiceOptions, Attempt, Run, transfer_work,
  create_parsed, create, request_of, retry_delay, rejected,
}
use pulse_ledger.Transfers.Effect.{transfer_work-IsConsistent}
use pulse_ledger.Transfers.Retry.{attempt_loop_inv, attempt_loop_err}

work-IsSound :
    (total : ℤ) (ob : Bool) (r : TransferRequest) (fresh : Fresh) (db : Db) (t : Transfer)
    (db' : Db)
    → transfer_work ob r fresh db ≡ ok (t, db')
    → IsSound total db
    → IsSound total db'
work-IsSound total ob r fresh db t db' h v =
    let (c, k, s) = transfer_work-IsConsistent ob r fresh db t db' h v.consistent v.keyed in
    record { consistent = c; keyed = k; total_kept = s ∙ v.total_kept }

module _ {κ} (P : Run → Type κ) (o : TransferServiceOptions) (attempts : ℕ → Attempt)
    (transfer_id : ℕ) (input : CreateTransferInput) (principal : ℕ) (key : Option ℕ)
    (m : TransferMetrics) (db : Db) where
  -- A request is rejected before any attempt, or it is parsed and attempted.
  pub create_cases :
      ((e : Failure) → P (rejected e m db))
      → ((amount : ℕ)
          → P (create_parsed o attempts (request_of input amount principal transfer_id key) m db))
      → P (create o attempts transfer_id input principal key m db)
  unfolding create
  create_cases stop go = elim (Result-cases (from_minor (text input.amount_minor))) [
    | inr (e, h) ↦ rw (h, create) (stop e)
    | inl (amount, h) ↦
        rw (h, create)
          (elim (Bool-cases (input.source_account_id == input.destination_account_id)) [
            | inl y ↦ rw (y, create) (stop self_failure)
            | inr n ↦ rw (n, create) (go amount)
          ])
  ]

module _ (o : TransferServiceOptions) (attempts : ℕ → Attempt) (transfer_id : ℕ)
    (input : CreateTransferInput) (principal : ℕ) (key : Option ℕ) (m : TransferMetrics)
    (db : Db) where
  create_parsed-IsSound :
      (total : ℤ) (r : TransferRequest)
      → ((n : ℕ) (s : Db) → IsSound total s → IsSound total ((attempts n).interference s))
      → IsSound total db
      → IsSound total (create_parsed o attempts r m db).database
  unfolding create_parsed
  create_parsed-IsSound total r others v =
      attempt_loop_inv
        (λ n s.
          with_transaction (attempts n).faults (transfer_work o.with_outbox r (attempts n).fresh) s)
        (λ n. (attempts n).interference)
        (λ n. retry_delay o.base_retry_delay_ms n (attempts n).jitter) (IsSound total)
        o.max_attempts 1 m [] db others
        (λ n s w.
          with_transaction_inv (IsSound total) (attempts n).faults
            (transfer_work o.with_outbox r (attempts n).fresh) s w
            (λ t db' h. work-IsSound total o.with_outbox r (attempts n).fresh s t db' h w))
        v

  -- However its transactions fail, however often it retries, and whatever sound work other
  -- sessions commit in between, a transfer request leaves the ledger sound and the sum of all
  -- balances as it was.
  pub create-IsSound :
      (total : ℤ)
      → ((n : ℕ) (s : Db) → IsSound total s → IsSound total ((attempts n).interference s))
      → IsSound total db
      → IsSound total (create o attempts transfer_id input principal key m db).database
  create-IsSound total others v =
      create_cases (λ run. IsSound total run.database) o attempts transfer_id input principal key m
        db (λ e. v)
        (λ amount.
          create_parsed-IsSound total (request_of input amount principal transfer_id key) others v)

  create_parsed-err :
      (r : TransferRequest) (e : Failure)
      → ((n : ℕ) (s : Db) → s ≡ db → (attempts n).interference s ≡ db)
      → ((n : ℕ) → (attempts n).faults.commit ≢ answer_lost)
      → (create_parsed o attempts r m db).result ≡ err e
      → (create_parsed o attempts r m db).database ≡ db
  unfolding create_parsed
  create_parsed-err r e others answered h =
      attempt_loop_err
        (λ n s.
          with_transaction (attempts n).faults (transfer_work o.with_outbox r (attempts n).fresh) s)
        (λ n. (attempts n).interference)
        (λ n. retry_delay o.base_retry_delay_ms n (attempts n).jitter) (λ s. s ≡ db) o.max_attempts
        1 m [] db e others
        (λ n s f w.
          with_transaction-err (attempts n).faults
            (transfer_work o.with_outbox r (attempts n).fresh) s f (answered n) w)
        refl h

  -- A transfer request that fails leaves the database exactly as it was, if no other session
  -- writes meanwhile and no commit takes effect with its answer lost.
  pub create-err :
      (e : Failure)
      → ((n : ℕ) (s : Db) → s ≡ db → (attempts n).interference s ≡ db)
      → ((n : ℕ) → (attempts n).faults.commit ≢ answer_lost)
      → (create o attempts transfer_id input principal key m db).result ≡ err e
      → (create o attempts transfer_id input principal key m db).database ≡ db
  create-err e others answered =
      create_cases (λ run. run.result ≡ err e → run.database ≡ db) o attempts transfer_id input
        principal key m db (λ f h. refl)
        (λ amount.
          create_parsed-err (request_of input amount principal transfer_id key) e others answered)
