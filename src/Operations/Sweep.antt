-- ===== src/Operations/Sweep.antt =====
-- The retention sweep: src/retention-cli.ts, with the purge of
-- src/modules/outbox/outbox-admin-service.ts.
use pulse_ledger.Base.{
  ℕ, suc, ◌-◌, ◌*◌, Bool, true, false, Option, none, some, List, [], ◌∷◌, ltb, leb, if◌then◌else◌,
  length, count_rows,
}
use pulse_ledger.Base.Decimal.{Text}
use pulse_ledger.Errors.{database_error, unexpected_error, invalid_datetime, Result, ok, err, ◌>>=◌}
use pulse_ledger.Idempotency.Records.{ClaimRecord, purge_completed_before}
use pulse_ledger.Idempotency.Records.{is_expired as is_old_record}
use pulse_ledger.Outbox.Events.{OutboxEvent, outbox_default_purge_batch_size}
use pulse_ledger.Outbox.Repository.{purge_processed_before}
use pulse_ledger.Outbox.Repository.{is_expired as is_old_event}
use pulse_ledger.Audit.Consumer.{AuditTables}
use pulse_ledger.Operations.Arguments.{Argument, includes, read_option}

abbrev pub default_outbox_retention_days : ℕ
default_outbox_retention_days = 30

abbrev pub default_idempotency_retention_days : ℕ
default_idempotency_retention_days = 7

-- A `Date`, by its distance from 1970 in milliseconds.
pub data JsDate : Type 0 where
  since_1970 before_1970 : ℕ → JsDate

-- `cutoffFor`, at the time that its `Date.now()` gives.
abbrev pub cutoff_for : ℕ → ℕ → JsDate
cutoff_for now days =
    let span = days * 24 * 60 * 60 * 1000 in
    if leb span now then since_1970 (now - span) else before_1970 (span - now)

-- The longest way from 1970 that a `Date` can be.
abbrev pub maximum_time : ℕ
maximum_time = 8_640_000_000_000_000

-- From the start of the year 1 to 1970.
abbrev pub years_before_1970 : ℕ
years_before_1970 = 62_135_596_800_000

-- What a statement gets of `cutoff.toISOString()`: it throws on a time out of range, and PostgreSQL
-- reads no year before 1. A cutoff before 1970 is 0: no row is older than either.
unfoldable pub sent : JsDate → Result ℕ
sent (since_1970 t) = ok t
sent (before_1970 t) =
    if ltb maximum_time t
    then err (unexpected_error "Invalid time value")
    else if ltb years_before_1970 t
    then err (database_error invalid_datetime)
    else ok 0

-- `--dry-run`, `--outbox-days`, `--idempotency-days`, `--batch-size`
abbrev pub dry_run_flag : Text
dry_run_flag = b'-' ∷ b'-' ∷ b'd' ∷ b'r' ∷ b'y' ∷ b'-' ∷ b'r' ∷ b'u' ∷ b'n' ∷ []

abbrev pub outbox_days_option : Text
outbox_days_option =
    b'-' ∷ b'-' ∷ b'o' ∷ b'u' ∷ b't' ∷ b'b' ∷ b'o' ∷ b'x' ∷ b'-' ∷ b'd' ∷ b'a' ∷ b'y' ∷ b's' ∷ []

abbrev pub idempotency_days_option : Text
idempotency_days_option =
    b'-' ∷ b'-' ∷ b'i' ∷ b'd' ∷ b'e' ∷ b'm' ∷ b'p' ∷ b'o' ∷ b't' ∷ b'e' ∷ b'n' ∷ b'c' ∷ b'y' ∷ b'-'
    ∷ b'd' ∷ b'a' ∷ b'y' ∷ b's' ∷ []

abbrev pub batch_size_option : Text
batch_size_option =
    b'-' ∷ b'-' ∷ b'b' ∷ b'a' ∷ b't' ∷ b'c' ∷ b'h' ∷ b'-' ∷ b's' ∷ b'i' ∷ b'z' ∷ b'e' ∷ []

pub record Settings : Type 0 where
  pub dry_run : Bool
  pub outbox_days : ℕ
  pub idempotency_days : ℕ
  pub batch_size : ℕ

unfoldable pub read_settings : List Argument → Result Settings
read_settings args = do
  outbox_days ← read_option args outbox_days_option default_outbox_retention_days
  idempotency_days ← read_option args idempotency_days_option default_idempotency_retention_days
  batch_size ← read_option args batch_size_option outbox_default_purge_batch_size
  ok (record {
    dry_run = includes dry_run_flag args;
    outbox_days = outbox_days;
    idempotency_days = idempotency_days;
    batch_size = batch_size;
  })

-- The four tables that grow with traffic.
pub record Tables : Type 0 where
  pub outbox : List OutboxEvent
  pub claims : List ClaimRecord
  pub audit : AuditTables

-- The two numbers of the printed report, which are `eligible` in a dry run and `removed` otherwise.
pub record Printed : Type 0 where
  pub is_dry_run : Bool
  pub outbox_events : ℕ
  pub idempotency_records : ℕ

-- `OutboxAdminService.purgeProcessedBefore`, on fuel.
unfoldable pub admin_purge : ℕ → ℕ → ℕ → List OutboxEvent → Option (ℕ × List OutboxEvent)
admin_purge fuel cutoff batch_size rows =
    purge_processed_before fuel cutoff (if ltb batch_size 1 then 1 else batch_size) 0 rows

-- The report of a dry run whose two cutoffs are sent.
abbrev pub counted : Tables → ℕ → ℕ → Printed
counted t outbox_cutoff claims_cutoff = record {
  is_dry_run = true;
  outbox_events = count_rows (is_old_event outbox_cutoff) t.outbox;
  idempotency_records = count_rows (is_old_record claims_cutoff) t.claims;
}

-- The dry run: counts, by the predicates of the deletes.
unfoldable pub preview : Settings → ℕ → ℕ → Tables → Result Printed
preview s outbox_now claims_now t = do
  outbox_cutoff ← sent (cutoff_for outbox_now s.outbox_days)
  claims_cutoff ← sent (cutoff_for claims_now s.idempotency_days)
  ok (counted t outbox_cutoff claims_cutoff)

-- The end of a sweep whose second purge has ended.
abbrev pub after_claims :
    Tables → ℕ → Option (ℕ × List ClaimRecord) → Option (Result Printed × Tables)
after_claims t outbox_removed none = none
after_claims t outbox_removed (some (claims_removed, claims)) = some (
  ok (record {
    is_dry_run = false;
    outbox_events = outbox_removed;
    idempotency_records = claims_removed;
  }),
  record t { claims = claims },
)

-- The second purge, behind the first.
abbrev pub after_outbox :
    Settings → ℕ → Tables → Option (ℕ × List OutboxEvent) → Option (Result Printed × Tables)
after_outbox s claims_now t none = none
after_outbox s claims_now t (some (outbox_removed, outbox)) =
    elim (sent (cutoff_for claims_now s.idempotency_days)) [
      | err f ↦ some (err f, record t { outbox = outbox })
      | ok cutoff ↦
          after_claims (record t { outbox = outbox }) outbox_removed
            (purge_completed_before (suc (length t.claims)) cutoff s.batch_size 0 t.claims)
    ]

-- The sweep, each purge with as much fuel as its table has rows, plus one; `none` would be a purge
-- that does not end. An error is caught, printed and made the exit code; what was purged before it
-- stays purged.
unfoldable pub sweep : Settings → ℕ → ℕ → Tables → Option (Result Printed × Tables)
unfolding admin_purge
sweep s outbox_now claims_now t = elim (sent (cutoff_for outbox_now s.outbox_days)) [
  | err f ↦ some (err f, t)
  | ok cutoff ↦
      after_outbox s claims_now t (admin_purge (suc (length t.outbox)) cutoff s.batch_size t.outbox)
]

-- The command on its arguments; the two times are those of its two cutoffs.
unfoldable pub retention :
    List Argument → ℕ → ℕ → Tables → Result (Option (Result Printed × Tables))
unfolding read_settings preview sweep
retention args outbox_now claims_now t = do
  s ← read_settings args
  ok (
      if s.dry_run
      then some (preview s outbox_now claims_now t, t)
      else sweep s outbox_now claims_now t)
