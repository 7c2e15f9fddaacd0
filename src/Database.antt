-- ===== src/Database.antt =====
-- The state of the database that one HTTP request can read and write: the ledger's tables, the
-- idempotency records and the outbox.
use pulse_ledger.Base.{List}
use pulse_ledger.Ledger.Tables.{Ledger}
use pulse_ledger.Idempotency.Records.{ClaimRecord}
use pulse_ledger.Outbox.Events.{OutboxEvent}

pub record Db : Type 0 where
  pub ledger : Ledger
  pub claims : List ClaimRecord
  pub outbox : List OutboxEvent
