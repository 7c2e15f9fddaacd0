-- ===== src/Tests/OutboxRuns.antt =====
-- Transactions that fail, and an event on its way to the audit tables.
use pulse_ledger.Base.{ℕ, ◌+◌, ◌≡◌, refl, true, false, some, none, List, [], ◌∷◌, arith, All}
use pulse_ledger.Errors.{Result, ok, err, database_error, deadlock_detected}
use pulse_ledger.Ledger.Tables.{TransactionType}
use pulse_ledger.Ports.Transaction.{Faults, no_faults, answer_lost, with_transaction}
use pulse_ledger.Outbox.Events.{
  OutboxEvent, pending, processing, processed, failed, at_time, infinity, transfer_payload,
}
use pulse_ledger.Outbox.Lifecycle.{
  starts, fires, stops, ends, worker_run, idle_worker, IsChained, worker_run-IsChained,
}
use pulse_ledger.Outbox.Repository.{ids}
use pulse_ledger.Outbox.Worker.{World, WorkerConfig}
use pulse_ledger.Outbox.Drain.{IsQuiet}
use pulse_ledger.Outbox.Marks.{is_done}
use pulse_ledger.Outbox.Delivered.{Poll, poll_all, IsDelivering, poll_all_delivers}
use pulse_ledger.Audit.Consumer.{AuditTables, handle, consume, consume_work}
use pulse_ledger.Audit.Dedup.{
  IsDeduplicated, effects_of, handle-IsDeduplicated, deliver_all, deliver_all-IsDeduplicated,
}
use pulse_ledger.Tests.Sample.{moved}

-- Work that adds one.
abbrev add_one : ℕ → Result (ℕ × ℕ)
add_one s = ok (s, s + 1)

committed_run : (with_transaction no_faults add_one 4).result ≡ ok 4
unfolding with_transaction
committed_run = refl

abbrev deadlocked : Faults
deadlocked = record no_faults { work_fails = some deadlock_detected; rollback_fails = true }

rolled_back_run :
    (with_transaction deadlocked add_one 4).result ≡ err (database_error deadlock_detected)
unfolding with_transaction
rolled_back_run = refl

-- COMMIT took effect, and its answer was lost: the caller sees an error and the work is there.
answer_lost_run :
    (with_transaction (record no_faults { commit = answer_lost }) add_one 4).database ≡ 5
unfolding with_transaction
answer_lost_run = refl

abbrev pub event : OutboxEvent
event = record {
  id = 603;
  aggregate_id = 60;
  aggregate_type = TransactionType.transfer;
  event_version = 1;
  payload = transfer_payload moved;
  status = failed;
  attempts = 12;
  last_error = some "down";
  next_attempt_at = some infinity;
  processed_at = none;
  created_at = 8;
}

abbrev pub delivered : ℕ → ℕ → OutboxEvent
delivered id time = record event { id = id; status = processed; processed_at = some time }

abbrev pub stored : List OutboxEvent
stored = delivered 604 5 ∷ event ∷ delivered 605 3 ∷ delivered 606 50 ∷ []

worker_run-IsChained_example :
    IsChained (worker_run (starts ∷ fires ∷ stops ∷ starts ∷ ends ∷ []) idle_worker)
worker_run-IsChained_example = worker_run-IsChained (starts ∷ fires ∷ stops ∷ starts ∷ ends ∷ [])

abbrev pub no_audit : AuditTables
no_audit = record { inbox = []; effects = [] }

no_audit-IsDeduplicated : IsDeduplicated no_audit
no_audit-IsDeduplicated k = (refl, omega arith)

-- The first delivery commits and its answer is lost, the second fails, the third succeeds.
abbrev deliveries : List (OutboxEvent × Faults)
deliveries =
    (event, record no_faults { commit = answer_lost })
    ∷ (event, deadlocked)
    ∷ (event, no_faults)
    ∷ []

deliver_all-IsDeduplicated_example : IsDeduplicated (deliver_all deliveries no_audit)
deliver_all-IsDeduplicated_example =
    deliver_all-IsDeduplicated deliveries no_audit no_audit-IsDeduplicated

handled : (handle no_faults event no_audit).result ≡ ok false
unfolding handle consume consume_work with_transaction
handled = refl

-- One event that waits, one whose worker died after its claim, and one delivered long ago.
abbrev waiting : OutboxEvent
waiting = record event { id = 610; status = pending; attempts = 0; next_attempt_at = none }

abbrev abandoned : OutboxEvent
abandoned = record event { id = 611; status = processing; next_attempt_at = some (at_time 90) }

abbrev world : World
world = record {
  outbox = waiting ∷ delivered 604 5 ∷ abandoned ∷ [];
  audit = (handle no_faults (delivered 604 5) no_audit).database;
}

abbrev config : WorkerConfig
config = record { batch_size = 1; max_attempts = 12; claim_lease_seconds = 300 }

abbrev calm : ℕ → Poll
calm now = record {
  now = now;
  deliveries = λ n. record {
    handler_faults = no_faults;
    mark_processed_fails = false;
    mark_failed_fails = false;
    now = now;
    jitter = 0;
  };
}

world-IsDelivering : IsDelivering 100 world
unfolding handle consume consume_work with_transaction
world-IsDelivering = record {
  distinct = ((refl, (refl, tt)), ((refl, tt), (tt, tt)));
  deduplicated = handle-IsDeduplicated no_faults (delivered 604 5) no_audit no_audit-IsDeduplicated;
  due = ((λ h. refl), ((λ h. absurd (cc h)), ((λ h. refl), tt)));
  delivered = ((λ h. absurd (cc h)), ((λ h. refl), ((λ h. absurd (cc h)), tt)));
}

calm-IsQuiet : (now n : ℕ) → IsQuiet ((calm now).deliveries n)
calm-IsQuiet now n = record { handled = refl; marked = refl }

poll_all_delivers_example :
    let after = poll_all config (calm 100 ∷ calm 1100 ∷ []) world in
    (ids after.outbox ≡ 610 ∷ 604 ∷ 611 ∷ [])
    × All (λ (x : OutboxEvent). (is_done x ≡ true) × (effects_of x.id after.audit ≡ 1)) after.outbox
poll_all_delivers_example =
    poll_all_delivers config 100 (calm 100 ∷ calm 1100 ∷ []) world world-IsDelivering
      ((omega arith, calm-IsQuiet 100), ((omega arith, calm-IsQuiet 1100), tt)) (omega arith)
