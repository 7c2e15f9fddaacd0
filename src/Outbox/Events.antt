-- ===== src/Outbox/Events.antt =====
-- `outbox_events` and the constants of src/modules/outbox/outbox-domain.ts. A time is a number of
-- milliseconds; an event's error text is what the handler's `Error.message` was.
use pulse_ledger.Base.{
  ℕ, String, ◌+◌, ◌-◌, ◌*◌, ◌/◌, ◌^◌, ◌≤◌, ◌<◌, Bool, true, false, Option, List, min, arith,
}
use pulse_ledger.Base.Jitter.{jittered, jittered_bounds}
use pulse_ledger.Ledger.Tables.{Transfer, Transaction, Direction, TransactionType}

pub data OutboxStatus : Type 0 where
  pending processing failed processed : OutboxStatus

abbrev pub same_status : OutboxStatus → OutboxStatus → Bool
same_status pending pending = true
same_status processing processing = true
same_status failed failed = true
same_status processed processed = true
same_status _ _ = false

-- A `timestamptz` that may be `infinity`, which is how a parked event says "no next attempt".
pub data Instant : Type 0 where
  at_time : ℕ → Instant
  infinity : Instant

pub record PayloadEntry : Type 0 where
  pub account_id : ℕ
  pub amount_minor : ℕ
  pub direction : Direction

-- What the two writers put into an event: a transfer, or a posted transaction with its entries.
pub data Payload : Type 0 where
  transfer_payload : Transfer → Payload
  posting_payload : Transaction → List PayloadEntry → Payload

-- `NewOutboxEvent`; the event type is the aggregate type with `.created` behind it.
pub record NewOutboxEvent : Type 0 where
  pub aggregate_id : ℕ
  pub aggregate_type : TransactionType
  pub event_version : ℕ
  pub payload : Payload

-- A row of `outbox_events`, and `OutboxRecord`.
pub record OutboxEvent : Type 0 where
  pub id : ℕ
  pub aggregate_id : ℕ
  pub aggregate_type : TransactionType
  pub event_version : ℕ
  pub payload : Payload
  pub status : OutboxStatus
  pub attempts : ℕ
  pub last_error : Option String
  pub next_attempt_at : Option Instant
  pub processed_at : Option ℕ
  pub created_at : ℕ

abbrev pub outbox_default_list_limit : ℕ
outbox_default_list_limit = 20

abbrev pub outbox_default_purge_batch_size : ℕ
outbox_default_purge_batch_size = 1_000

abbrev pub outbox_default_batch_size : ℕ
outbox_default_batch_size = 10

abbrev pub outbox_default_max_attempts : ℕ
outbox_default_max_attempts = 12

abbrev pub outbox_current_event_version : ℕ
outbox_current_event_version = 1

abbrev pub outbox_default_claim_lease_seconds : ℕ
outbox_default_claim_lease_seconds = 300

-- `computeNextAttempt`, in milliseconds; `r` is the number that `Math.random()` drew. The worker
-- calls it with at least one attempt.
unfoldable pub compute_next_attempt : ℕ → ℕ → ℕ → ℕ
compute_next_attempt attempts failed_at r =
    failed_at + jittered (min (100 * 2 ^ (attempts - 1)) 60_000) r

-- The next attempt comes after a delay of at least half of the exponential delay, rounded down,
-- and of at most a minute.
pub compute_next_attempt_bounds :
    (attempts failed_at r : ℕ)
    → r < 2 ^ 53
    → (failed_at + min (100 * 2 ^ (attempts - 1)) 60_000 / 2
        ≤ compute_next_attempt attempts failed_at r)
      × (compute_next_attempt attempts failed_at r ≤ failed_at + 60_000)
unfolding compute_next_attempt
compute_next_attempt_bounds attempts failed_at r h =
    let b = jittered_bounds (min (100 * 2 ^ (attempts - 1)) 60_000) r h in
    (omega (arith, b.0), omega (arith, b.1))
