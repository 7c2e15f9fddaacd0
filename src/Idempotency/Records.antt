-- ===== src/Idempotency/Records.antt =====
-- `idempotency_records`, and each statement of src/modules/idempotency/idempotency-repository.ts
-- on it as a function on the rows. A statement is atomic; what other sessions do happens between.
use pulse_ledger.Base.{
  ℕ, zero, suc, ◌+◌, Bool, true, false, not, ◌&&◌, Option, none, some, List, [], ◌∷◌, ◌++◌, ltb,
  leb, ◌==◌, if◌then◌else◌, find, where_rows, update_rows, count_rows, any, take,
}
use pulse_ledger.Base.Order.{order_by}
use pulse_ledger.Ledger.Tables.{TransactionType, same_type}
use pulse_ledger.Responses.{Body, StoredResponse}

-- The unique index `(principal_id, key, operation)`; the operations are `transfer` and `funding`.
pub record ClaimKey : Type 0 where
  pub principal_id : ℕ
  pub key : ℕ
  pub operation : TransactionType

abbrev pub same_key : ClaimKey → ClaimKey → Bool
same_key a b =
    a.key == b.key && same_type a.operation b.operation && a.principal_id == b.principal_id

pub data ClaimStatus : Type 0 where
  in_progress completed : ClaimStatus

abbrev pub is_in_progress : ClaimStatus → Bool
is_in_progress in_progress = true
is_in_progress completed = false

-- `IdempotencyRecord`
pub record ClaimRecord : Type 0 where
  pub id : ClaimKey
  pub request_fingerprint : ℕ
  pub status : ClaimStatus
  pub response_status : Option ℕ
  pub response_body : Option Body
  pub created_at : ℕ
  pub completed_at : Option ℕ

-- `toResponse`
abbrev pub to_response : ClaimRecord → StoredResponse
to_response r = record { body = r.response_body; status = r.response_status }

-- `findRecord`
unfoldable pub find_record : ClaimKey → List ClaimRecord → Option ClaimRecord
find_record k = find (λ r. same_key r.id k)

abbrev pub new_claim : ClaimKey → ℕ → ℕ → ClaimRecord
new_claim k fingerprint now = record {
  id = k;
  request_fingerprint = fingerprint;
  status = in_progress;
  response_status = none;
  response_body = none;
  created_at = now;
  completed_at = none;
}

-- `INSERT … ON CONFLICT DO NOTHING RETURNING`
unfoldable pub insert_claim :
    ClaimKey → ℕ → ℕ → List ClaimRecord → Option ClaimRecord × List ClaimRecord
insert_claim k fingerprint now rows =
    if any (λ r. same_key r.id k) rows
    then (none, rows)
    else (some (new_claim k fingerprint now), rows ++ new_claim k fingerprint now ∷ [])

abbrev pub is_open : ClaimKey → ClaimRecord → Bool
is_open k r = same_key r.id k && is_in_progress r.status

-- The WHERE clause of the reclaim; the threshold is `clock - stale_timeout`, so that
-- `created_at < threshold` is `created_at + stale_timeout < clock`.
abbrev pub is_reclaimable : ClaimKey → ℕ → ℕ → ℕ → ClaimRecord → Bool
is_reclaimable k fingerprint clock stale_timeout r =
    is_open k r && r.request_fingerprint == fingerprint && ltb (r.created_at + stale_timeout) clock

abbrev pub refresh : ℕ → ClaimRecord → ClaimRecord
refresh now r = record r { created_at = now; completed_at = none }

-- `UPDATE … SET created_at = now() … RETURNING`
unfoldable pub reclaim :
    ClaimKey → ℕ → ℕ → ℕ → ℕ → List ClaimRecord → Option ClaimRecord × List ClaimRecord
reclaim k fingerprint clock stale_timeout now rows =
    let row = find (is_reclaimable k fingerprint clock stale_timeout) rows in
    (
      elim row [ none ↦ none | some r ↦ some (refresh now r) ],
      update_rows (is_reclaimable k fingerprint clock stale_timeout) (refresh now) rows,
    )

abbrev pub settle : ℕ → Body → ℕ → ClaimRecord → ClaimRecord
settle response_status body now r = record r {
  status = completed;
  response_status = some response_status;
  response_body = some body;
  completed_at = some now;
}

-- The UPDATE that completes a claim, in `complete` and in the two posting transactions: the number
-- of rows that it changed, and the rows.
unfoldable pub complete_claim : ClaimKey → ℕ → Body → ℕ → List ClaimRecord → ℕ × List ClaimRecord
complete_claim k response_status body now rows =
    (count_rows (is_open k) rows, update_rows (is_open k) (settle response_status body now) rows)

-- `release`
unfoldable pub release_claim : ClaimKey → List ClaimRecord → List ClaimRecord
release_claim k = where_rows (λ r. not (is_open k r))

-- `status = 'completed' AND completed_at < $1`
abbrev pub is_expired : ℕ → ClaimRecord → Bool
is_expired cutoff r =
    not (is_in_progress r.status) && elim r.completed_at [ none ↦ false | some t ↦ ltb t cutoff ]

abbrev pub completion_time : ClaimRecord → ℕ
completion_time r = elim r.completed_at [ none ↦ 0 | some t ↦ t ]

-- `ORDER BY completed_at`
abbrev pub order_by_completed : List ClaimRecord → List ClaimRecord
order_by_completed = order_by (λ (r x : ClaimRecord). leb (completion_time r) (completion_time x))

abbrev pub contains_key : ClaimKey → List ClaimRecord → Bool
contains_key k = any (λ r. same_key r.id k)

-- One DELETE of the retention loop. A row is named by its key, which is unique, for its `ctid`.
unfoldable pub purge_batch : ℕ → ℕ → List ClaimRecord → ℕ × List ClaimRecord
purge_batch cutoff batch_size rows =
    let doomed = take batch_size (order_by_completed (where_rows (is_expired cutoff) rows)) in
    (
      count_rows (λ r. contains_key r.id doomed) rows,
      where_rows (λ r. not (contains_key r.id doomed)) rows,
    )

-- `purgeCompletedBefore`: the loop, on fuel; `none` means that the fuel ran out.
unfoldable pub purge_completed_before :
    ℕ → ℕ → ℕ → ℕ → List ClaimRecord → Option (ℕ × List ClaimRecord)
purge_completed_before zero cutoff batch_size removed rows = none
purge_completed_before (suc fuel) cutoff batch_size removed rows =
    let r = purge_batch cutoff batch_size rows in
    let again = purge_completed_before fuel cutoff batch_size (removed + r.0) r.1 in
    if ltb r.0 batch_size then some (removed + r.0, r.1) else again
