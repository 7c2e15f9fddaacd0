-- ===== src/Tests/OperationsRuns.antt =====
-- The commands on a small outbox and on some idempotency records.
use pulse_ledger.Base.{ℕ, ◌≡◌, refl, false, not, some, List, [], ◌∷◌, where_rows, arith}
use pulse_ledger.Base.Int.{pos}
use pulse_ledger.Base.Decimal.{Text}
use pulse_ledger.Errors.{database_error, unexpected_error, invalid_datetime, ok, err}
use pulse_ledger.Idempotency.Records.{is_expired as is_old_record}
use pulse_ledger.Outbox.Repository.{purge_processed_before, purge_batch}
use pulse_ledger.Outbox.Repository.{is_expired as is_old_event}
use pulse_ledger.Operations.Arguments.{Argument, integer, no_integer}
use pulse_ledger.Operations.Sweep.{
  Settings, Tables, cutoff_for, sent, sweep, outbox_days_option, batch_size_option,
}
use pulse_ledger.Operations.Config.{AppConfig, load_config}
use pulse_ledger.Operations.Valid.{IsValid, minimal, defaults, load_config-IsValid}
use pulse_ledger.Tests.OutboxRuns.{stored, no_audit}
use pulse_ledger.Tests.IdempotencyRuns.{old_records}

-- `--outbox-days 1 --batch-size 1`
abbrev arguments : List Argument
arguments =
    record { text = outbox_days_option; number = no_integer; id = 0 }
    ∷ record { text = b'1' ∷ []; number = integer (pos 1); id = 1 }
    ∷ record { text = batch_size_option; number = no_integer; id = 2 }
    ∷ record { text = b'1' ∷ []; number = integer (pos 1); id = 1 }
    ∷ []

abbrev settings : Settings
settings = record { dry_run = false; outbox_days = 1; idempotency_days = 7; batch_size = 1 }

abbrev full : Tables
full = record { outbox = stored; claims = old_records; audit = no_audit }

abbrev outbox_now : ℕ
outbox_now = 86_400_010

abbrev claims_now : ℕ
claims_now = 604_800_010

-- A cutoff in 1970 is sent; 800,000 days ago PostgreSQL reads no year, and 200,000,000 days ago
-- there is no `Date`.
recent : sent (cutoff_for outbox_now 1) ≡ ok 10
unfolding sent
recent = refl

too_early : sent (cutoff_for outbox_now 800_000) ≡ err (database_error invalid_datetime)
unfolding sent
too_early = refl

no_date : sent (cutoff_for outbox_now 200_000_000) ≡ err (unexpected_error "Invalid time value")
unfolding sent
no_date = refl

-- The sweep of the events is kept where the cutoff of the records cannot be sent.
half_swept :
    sweep (record settings { idempotency_days = 800_000 }) outbox_now claims_now full
    ≡ some (
      err (database_error invalid_datetime),
      record full { outbox = where_rows (λ e. not (is_old_event 10 e)) stored },
    )
unfolding sweep sent purge_processed_before purge_batch
half_swept = refl

abbrev url : Text
url = b'p' ∷ b'g' ∷ []

abbrev root_key : Text
root_key =
    b'0' ∷ b'1' ∷ b'2' ∷ b'3' ∷ b'4' ∷ b'5' ∷ b'6' ∷ b'7' ∷ b'8' ∷ b'9' ∷ b'a' ∷ b'b' ∷ b'c' ∷ b'd'
    ∷ b'e' ∷ b'f' ∷ []

load_config-IsValid_example :
    ((c : AppConfig) → load_config (minimal url root_key) ≡ ok c → IsValid c)
    × (load_config (minimal url root_key) ≡ ok (defaults url root_key))
load_config-IsValid_example =
    load_config-IsValid (minimal url root_key) url root_key (omega arith) (omega arith)
