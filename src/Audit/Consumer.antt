-- ===== src/Audit/Consumer.antt =====
-- `PostgresAuditConsumerStore.consume` (src/modules/audit/audit-repository.ts) and
-- `AuditConsumerService.handle` (audit-service.ts), on the tables `consumer_inbox` (its rows for
-- the consumer `audit`, by event) and `audit_effects`.
use pulse_ledger.Base.{
  ℕ, Bool, true, false, List, [], ◌∷◌, ◌++◌, ◌==◌, any, contains, if◌then◌else◌,
}
use pulse_ledger.Errors.{database_error, unique_violation, Result, ok, ◌>>◌, throw_if}
use pulse_ledger.Ledger.Tables.{TransactionType}
use pulse_ledger.Outbox.Events.{Payload, OutboxEvent}
use pulse_ledger.Ports.Transaction.{Faults, Outcome, with_transaction}

-- `AuditConsumeInput`, and a row of `audit_effects`.
pub record AuditEffect : Type 0 where
  pub event_id : ℕ
  pub aggregate_id : ℕ
  pub aggregate_type : TransactionType
  pub payload : Payload

pub record AuditTables : Type 0 where
  pub inbox : List ℕ
  pub effects : List AuditEffect

-- The two inserts of `consume`; the value is `duplicate`. The column `event_id` of
-- `audit_effects` is unique.
unfoldable pub consume_work : AuditEffect → AuditTables → Result (Bool × AuditTables)
consume_work input a =
    if contains input.event_id a.inbox
    then ok (true, a)
    else (throw_if (any (λ (e : AuditEffect). e.event_id == input.event_id) a.effects)
          (database_error unique_violation)
        >> ok (
          false,
          record a { inbox = input.event_id ∷ a.inbox; effects = a.effects ++ input ∷ [] },
        ))

-- `consume`
unfoldable pub consume : Faults → AuditEffect → AuditTables → Outcome Bool AuditTables
unfolding consume_work
consume f input a = with_transaction f (consume_work input) a

-- `handle`: the event as the consumer's input.
abbrev pub input_of : OutboxEvent → AuditEffect
input_of e = record {
  event_id = e.id;
  aggregate_id = e.aggregate_id;
  aggregate_type = e.aggregate_type;
  payload = e.payload;
}

unfoldable pub handle : Faults → OutboxEvent → AuditTables → Outcome Bool AuditTables
unfolding consume
handle f e a = consume f (input_of e) a
