-- ===== src/Outbox/Worker.antt =====
-- `OutboxWorker`, src/modules/outbox/outbox-worker.ts, over the outbox and the tables of the
-- handler that the process installs (`AuditConsumerService.handle`, src/server.ts).
use pulse_ledger.Base.{
  ℕ, String, ◌+◌, Bool, true, false, not, Option, none, some, List, [], ◌∷◌, ◌++◌, leb,
  if◌then◌else◌, length,
}
use pulse_ledger.Errors.{
  Failure, identity_already_mapped, app_error, domain_error, database_error, schema_error,
  framework_error, unexpected_error, ok, err,
}
use pulse_ledger.Ports.Transaction.{Faults, with_transaction}
use pulse_ledger.Outbox.Events.{at_time, infinity, OutboxEvent, compute_next_attempt}
use pulse_ledger.Outbox.Repository.{claim_batch, mark_processed, mark_failed}
use pulse_ledger.Audit.Consumer.{AuditTables, handle}

pub record World : Type 0 where
  pub outbox : List OutboxEvent
  pub audit : AuditTables

-- What happens to one event: the handler's transaction, whether each of the two statements on the
-- outbox fails, and the clock and the random number of the backoff.
pub record Delivery : Type 0 where
  pub handler_faults : Faults
  pub mark_processed_fails : Bool
  pub mark_failed_fails : Bool
  pub now : ℕ
  pub jitter : ℕ

-- `error instanceof Error ? error.message : …`
unfoldable pub message_of : Failure → String
message_of (app_error c s m) = m
message_of (domain_error k c m) = m
message_of (unexpected_error m) = m
message_of (database_error s) = "database error"
message_of schema_error = "schema error"
message_of (framework_error s) = "framework error"
message_of identity_already_mapped = ""

-- What `processEvent` tells the telemetry.
pub data Notice : Type 0 where
  event_processed : ℕ → Notice
  event_failed : ℕ → Notice
  event_permanently_failed : ℕ → ℕ → Notice

-- The `catch` of `processEvent`; `none` is a `markFailed` that throws.
unfoldable pub record_failure : ℕ → Delivery → OutboxEvent → String → World → Option Notice × World
record_failure max_attempts d e message w =
    if d.mark_failed_fails
    then (none, w)
    else if leb max_attempts e.attempts
    then (
      some (event_permanently_failed e.id e.attempts),
      record w { outbox = mark_failed e.id message infinity w.outbox },
    )
    else (
      some (event_failed e.id),
      record w {
        outbox =
            mark_failed e.id message
              (at_time (compute_next_attempt (e.attempts + 1) d.now d.jitter)) w.outbox;
      },
    )

-- `processEvent`
unfoldable pub process_event : ℕ → Delivery → OutboxEvent → World → Option Notice × World
unfolding record_failure
process_event max_attempts d e w =
    let o = handle d.handler_faults e w.audit in
    let handled = record w { audit = o.database } in
    elim o.result [
      | err f ↦ record_failure max_attempts d e (message_of f) handled
      | ok duplicate ↦
          if d.mark_processed_fails
          then record_failure max_attempts d e "database error" handled
          else (
            some (event_processed e.id),
            record handled { outbox = mark_processed e.id d.now handled.outbox },
          )
    ]

-- The loop of `poll` over the claimed events, one after the other; a `markFailed` that throws ends
-- it, and `claimError` is reported.
unfoldable pub process_batch :
    ℕ → (ℕ → Delivery) → List OutboxEvent → List Notice → World → (Bool × List Notice) × World
unfolding process_event
process_batch max_attempts d [] notices w = ((true, notices), w)
process_batch max_attempts d (e ∷ es) notices w =
    let step = process_event max_attempts (d (length es)) e w in
    elim step.0 [
      | none ↦ ((false, notices), step.1)
      | some n ↦ process_batch max_attempts d es (notices ++ n ∷ []) step.1
    ]

pub record WorkerConfig : Type 0 where
  pub batch_size : ℕ
  pub max_attempts : ℕ
  pub claim_lease_seconds : ℕ

-- `poll`; the claim runs in a transaction of its own.
unfoldable pub poll :
    WorkerConfig → Faults → ℕ → List ℕ → (ℕ → Delivery) → World → (Bool × List Notice) × World
poll c f now locked d w =
    let o =
      with_transaction f
        (λ rows. ok (claim_batch c.batch_size c.claim_lease_seconds now locked rows)) w.outbox in
    let claimed = record w { outbox = o.database } in
    elim o.result [
      | err e ↦ ((false, []), claimed)
      | ok batch ↦ process_batch c.max_attempts d batch [] claimed
    ]

-- The worker's own state: `running`, whether a poll is scheduled, and whether one is under way.
pub record WorkerState : Type 0 where
  pub running : Bool
  pub timer : Bool
  pub in_flight : Bool

-- `schedulePoll`
unfoldable pub schedule_poll : WorkerState → WorkerState
schedule_poll s =
    if not s.running
    then s
    else if s.timer
    then s
    else if s.in_flight
    then s
    else record s { timer = true }

-- `start`
unfoldable pub start : WorkerState → WorkerState
unfolding schedule_poll
start s = if s.running then s else schedule_poll (record s { running = true })

-- `stop`, up to its `await this.inFlight`.
unfoldable pub stop : WorkerState → WorkerState
stop s = record s { running = false; timer = false }

-- The timer's callback, and the `finally` of the poll that it began.
unfoldable pub timer_fires : WorkerState → WorkerState
timer_fires s = if s.timer then record s { timer = false; in_flight = true } else s

unfoldable pub poll_ends : WorkerState → WorkerState
unfolding schedule_poll
poll_ends s = if s.in_flight then schedule_poll (record s { in_flight = false }) else s
