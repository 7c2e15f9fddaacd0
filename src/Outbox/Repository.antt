-- ===== src/Outbox/Repository.antt =====
-- `PostgresOutboxStore` and `PostgresOutboxAdminStore`, src/modules/outbox/outbox-repository.ts:
-- each statement as a function on the rows of `outbox_events`.
use pulse_ledger.Base.{
  ℕ, suc, zero, String, ◌+◌, ◌*◌, Bool, true, false, not, ◌&&◌, ◌||◌, Option, none, some, List, [],
  ◌∷◌, ◌++◌, map, ltb, leb, ◌==◌, if◌then◌else◌, take, find, where_rows, contains, count_rows,
  update_rows,
}
use pulse_ledger.Base.Order.{order_by}
use pulse_ledger.Outbox.Events.{
  OutboxStatus, pending, processing, failed, processed, same_status, Instant, at_time, infinity,
  NewOutboxEvent, OutboxEvent,
}

-- `INSERT INTO outbox_events`: the key and the time are the columns' defaults.
unfoldable pub insert : ℕ → ℕ → NewOutboxEvent → List OutboxEvent → List OutboxEvent
insert id now e rows =
    rows
    ++ record {
      id = id;
      aggregate_id = e.aggregate_id;
      aggregate_type = e.aggregate_type;
      event_version = e.event_version;
      payload = e.payload;
      status = pending;
      attempts = 0;
      last_error = none;
      next_attempt_at = none;
      processed_at = none;
      created_at = now;
    }
      ∷ []

-- `next_attempt_at IS NULL OR next_attempt_at <= now()`
abbrev pub is_due : ℕ → Option Instant → Bool
is_due now none = true
is_due now (some infinity) = false
is_due now (some (at_time t)) = leb t now

-- The WHERE clause of the claim query. `locked` are the rows that another worker's claim holds,
-- which `SKIP LOCKED` passes over.
abbrev pub is_claimable : ℕ → List ℕ → OutboxEvent → Bool
is_claimable now locked e =
    (same_status e.status pending || same_status e.status failed || same_status e.status processing)
    && is_due now e.next_attempt_at
    && not (contains e.id locked)

-- `ORDER BY created_at`
abbrev pub order_by_created : List OutboxEvent → List OutboxEvent
order_by_created = order_by (λ (e x : OutboxEvent). leb e.created_at x.created_at)

abbrev pub ids : List OutboxEvent → List ℕ
ids = map (λ e. e.id)

-- The row as the UPDATE leaves it.
abbrev pub claim_event : ℕ → ℕ → OutboxEvent → OutboxEvent
claim_event now lease_seconds e = record e {
  status = processing;
  attempts = e.attempts + 1;
  next_attempt_at = some (at_time (now + lease_seconds * 1000));
}

-- `claimBatch`: the claimed rows, and the table after it.
unfoldable pub claim_batch :
    ℕ → ℕ → ℕ → List ℕ → List OutboxEvent → List OutboxEvent × List OutboxEvent
claim_batch batch_size lease_seconds now locked rows =
    let claimed =
      ids (take batch_size (order_by_created (where_rows (is_claimable now locked) rows))) in
    (
      map (claim_event now lease_seconds) (where_rows (λ e. contains e.id claimed) rows),
      update_rows (λ e. contains e.id claimed) (claim_event now lease_seconds) rows,
    )

abbrev pub is_processing : ℕ → OutboxEvent → Bool
is_processing id e = e.id == id && same_status e.status processing

unfoldable pub mark_processed : ℕ → ℕ → List OutboxEvent → List OutboxEvent
mark_processed id now =
    update_rows (is_processing id) (λ e. record e { status = processed; processed_at = some now })

unfoldable pub mark_failed : ℕ → String → Instant → List OutboxEvent → List OutboxEvent
mark_failed id error next =
    update_rows (is_processing id)
      (λ e. record e { status = failed; last_error = some error; next_attempt_at = some next })

pub record OutboxStats : Type 0 where
  pub failed : ℕ
  pub pending : ℕ
  pub processing : ℕ

-- `stats`: a status that no row has is no group of the query, and keeps its 0.
unfoldable pub stats : List OutboxEvent → OutboxStats
stats rows = record {
  failed = count_rows (λ e. same_status e.status OutboxStatus.failed) rows;
  pending = count_rows (λ e. same_status e.status OutboxStatus.pending) rows;
  processing = count_rows (λ e. same_status e.status OutboxStatus.processing) rows;
}

-- `status = 'failed' AND next_attempt_at = 'infinity'`
abbrev pub is_parked : OutboxEvent → Bool
is_parked e = same_status e.status failed && elim e.next_attempt_at [
  | none ↦ false
  | some t ↦ elim t [ at_time n ↦ false | infinity ↦ true ]
]

unfoldable pub list_parked : ℕ → List OutboxEvent → List OutboxEvent
list_parked limit rows = take limit (order_by_created (where_rows is_parked rows))

unfoldable pub count_parked : List OutboxEvent → ℕ
count_parked = count_rows is_parked

unfoldable pub find_by_id : ℕ → List OutboxEvent → Option OutboxEvent
find_by_id id = find (λ e. e.id == id)

abbrev pub reset_event : OutboxEvent → OutboxEvent
reset_event e = record e { status = pending; attempts = 0; next_attempt_at = none }

-- `replay`: whether a row was updated, and the table after it.
unfoldable pub replay : ℕ → List OutboxEvent → Bool × List OutboxEvent
replay id rows = (
  ltb 0 (count_rows (λ e. e.id == id && is_parked e) rows),
  update_rows (λ e. e.id == id && is_parked e) reset_event rows,
)

unfoldable pub replay_all_parked : List OutboxEvent → ℕ × List OutboxEvent
replay_all_parked rows = (count_rows is_parked rows, update_rows is_parked reset_event rows)

-- `status = 'processed' AND processed_at < $1`
abbrev pub is_expired : ℕ → OutboxEvent → Bool
is_expired cutoff e =
    same_status e.status processed && elim e.processed_at [ none ↦ false | some t ↦ ltb t cutoff ]

-- `ORDER BY processed_at`; a row without the time does not meet the WHERE clause.
abbrev pub processed_time : OutboxEvent → ℕ
processed_time e = elim e.processed_at [ none ↦ 0 | some t ↦ t ]

abbrev pub order_by_processed : List OutboxEvent → List OutboxEvent
order_by_processed = order_by (λ (e x : OutboxEvent). leb (processed_time e) (processed_time x))

-- One DELETE of the purge loop: the number of rows removed, and the rows that stay.
unfoldable pub purge_batch : ℕ → ℕ → List OutboxEvent → ℕ × List OutboxEvent
purge_batch cutoff batch_size rows =
    let doomed = ids (take batch_size (order_by_processed (where_rows (is_expired cutoff) rows))) in
    (count_rows (λ e. contains e.id doomed) rows, where_rows (λ e. not (contains e.id doomed)) rows)

-- `purgeProcessedBefore`: the loop, on fuel; `none` means that the fuel ran out.
unfoldable pub purge_processed_before :
    ℕ → ℕ → ℕ → ℕ → List OutboxEvent → Option (ℕ × List OutboxEvent)
purge_processed_before zero cutoff batch_size removed rows = none
purge_processed_before (suc fuel) cutoff batch_size removed rows =
    let r = purge_batch cutoff batch_size rows in
    let again = purge_processed_before fuel cutoff batch_size (removed + r.0) r.1 in
    if ltb r.0 batch_size then some (removed + r.0, r.1) else again
