-- ===== src/Outbox/Drain.antt =====
-- What a poll does when nothing fails: every event of its batch is handled and marked.
use pulse_ledger.Base.{
  ℕ, ◌≤◌, ◌≡◌, refl, ap, ◌∙◌, Bool, true, false, none, some, List, [], ◌∷◌, ◌++◌, arith, ◌==◌,
  length, any, contains, count_rows, count_rows-append, Bool-cases, inl, inr,
}
use pulse_ledger.Errors.{ok}
use pulse_ledger.Ports.Transaction.{no_faults, with_transaction}
use pulse_ledger.Outbox.Events.{OutboxEvent}
use pulse_ledger.Outbox.Repository.{ids, mark_processed}
use pulse_ledger.Outbox.Worker.{
  World, Delivery, Notice, event_processed, process_event, process_batch,
}
use pulse_ledger.Audit.Consumer.{AuditEffect, AuditTables, consume_work, input_of, handle}
use pulse_ledger.Audit.Dedup.{
  count_contains, IsDeduplicated, effects_of, handle-IsDeduplicated, handle_effect,
}

-- Nothing fails while an event is delivered.
pub record IsQuiet (d : Delivery) : Type 0 where
  pub handled : d.handler_faults ≡ no_faults
  pub marked : d.mark_processed_fails ≡ false

none_any :
    (k : ℕ) (xs : List AuditEffect)
    → count_rows (λ (e : AuditEffect). e.event_id == k) xs ≡ 0
    → any (λ (e : AuditEffect). e.event_id == k) xs ≡ false
none_any k [] h = refl
none_any k (x ∷ xs) h = ground (arith, none_any k xs)

-- The tables after a delivery in which nothing fails.
abbrev pub handled_tables : OutboxEvent → AuditTables → AuditTables
handled_tables e a = (handle no_faults e a).database

handle_quiet :
    (e : OutboxEvent) (a : AuditTables)
    → IsDeduplicated a
    → (duplicate : Bool) × ((handle no_faults e a).result ≡ ok duplicate)
unfolding handle consume_work with_transaction
handle_quiet e a v = elim (Bool-cases (contains e.id a.inbox)) [
  | inl y ↦ (true, ground arith)
  | inr n ↦
      let none_there =
        none_any e.id a.effects (omega (arith, v e.id, count_contains e.id a.inbox n)) in
      (false, ground (arith, none_there))
]

-- A delivery takes no effect away.
effects_kept :
    (k : ℕ) (e : OutboxEvent) (a : AuditTables) → effects_of k a ≤ effects_of k (handled_tables e a)
unfolding handle consume_work with_transaction
effects_kept k e a =
    ground
      (arith, count_rows-append (λ (x : AuditEffect). x.event_id == k) a.effects (input_of e ∷ []))

process_quiet :
    (max_attempts : ℕ) (d : Delivery) (e : OutboxEvent) (w : World)
    → IsQuiet d
    → IsDeduplicated w.audit
    → process_event max_attempts d e w ≡ (
      some (event_processed e.id),
      record { outbox = mark_processed e.id d.now w.outbox; audit = handled_tables e w.audit },
    )
unfolding process_event
process_quiet max_attempts d e w q v =
    let (duplicate, done) = handle_quiet e w.audit v in
    let done' : (handle d.handler_faults e w.audit).result ≡ ok duplicate = rw q.handled done in
    let same = ap (λ f. (handle f e w.audit).database) q.handled in
    ground (arith, done', same, q.marked)

-- The marks of a batch, and the deliveries' effects, in the order of the batch.
abbrev pub mark_all : (ℕ → Delivery) → List OutboxEvent → List OutboxEvent → List OutboxEvent
mark_all d [] rows = rows
mark_all d (e ∷ es) rows = mark_all d es (mark_processed e.id (d (length es)).now rows)

abbrev pub handle_all : List OutboxEvent → AuditTables → AuditTables
handle_all [] a = a
handle_all (e ∷ es) a = handle_all es (handled_tables e a)

batch_step :
    (max_attempts : ℕ) (d : ℕ → Delivery) (e : OutboxEvent) (es : List OutboxEvent)
    (notices : List Notice) (w w' : World)
    → process_event max_attempts (d (length es)) e w ≡ (some (event_processed e.id), w')
    → process_batch max_attempts d (e ∷ es) notices w
      ≡ process_batch max_attempts d es (notices ++ event_processed e.id ∷ []) w'
unfolding process_batch
batch_step max_attempts d e es notices w w' h =
    ap {B = (Bool × List Notice) × World}
      (λ s. elim s.0 [
        | none ↦ ((false, notices), s.1)
        | some n ↦ process_batch max_attempts d es (notices ++ n ∷ []) s.1
      ])
      h

-- A batch in which nothing fails is worked through to its end.
pub process_batch_quiet :
    (max_attempts : ℕ) (d : ℕ → Delivery) (es : List OutboxEvent) (notices : List Notice)
    (w : World)
    → ((n : ℕ) → IsQuiet (d n))
    → IsDeduplicated w.audit
    → ((process_batch max_attempts d es notices w).0.0 ≡ true)
      × ((process_batch max_attempts d es notices w).1
          ≡ record { outbox = mark_all d es w.outbox; audit = handle_all es w.audit })
unfolding process_batch
process_batch_quiet max_attempts d [] notices w q v = (refl, refl)
process_batch_quiet max_attempts d (e ∷ es) notices w q v =
    let w' : World = record {
      outbox = mark_processed e.id (d (length es)).now w.outbox;
      audit = handled_tables e w.audit;
    } in
    let same =
      batch_step max_attempts d e es notices w w'
        (process_quiet max_attempts (d (length es)) e w (q (length es)) v) in
    let (all, after) =
      process_batch_quiet max_attempts d es (notices ++ event_processed e.id ∷ []) w' q
        (handle-IsDeduplicated no_faults e w.audit v) in
    (ap (λ r. r.0.0) same ∙ all, ap (λ r. r.1) same ∙ after)

pub handle_all-IsDeduplicated :
    (es : List OutboxEvent) (a : AuditTables) → IsDeduplicated a → IsDeduplicated (handle_all es a)
handle_all-IsDeduplicated [] a v = v
handle_all-IsDeduplicated (e ∷ es) a v =
    handle_all-IsDeduplicated es (handled_tables e a) (handle-IsDeduplicated no_faults e a v)

pub handle_all-kept :
    (k : ℕ) (es : List OutboxEvent) (a : AuditTables)
    → effects_of k a ≤ effects_of k (handle_all es a)
handle_all-kept k [] a = omega arith
handle_all-kept k (e ∷ es) a =
    omega (arith, effects_kept k e a, handle_all-kept k es (handled_tables e a))

-- Every event of the batch has its effect.
pub handle_all_effect :
    (k : ℕ) (es : List OutboxEvent) (a : AuditTables)
    → IsDeduplicated a
    → contains k (ids es) ≡ true
    → 1 ≤ effects_of k (handle_all es a)
handle_all_effect k [] a v h = cc
handle_all_effect k (e ∷ es) a v h = elim (Bool-cases (e.id == k)) [
  | inl y ↦
      let (duplicate, done) = handle_quiet e a v in
      let here : 1 ≤ effects_of k (handled_tables e a) =
        ground (arith, handle_effect no_faults e a duplicate v done) in
      omega (arith, here, handle_all-kept k es (handled_tables e a))
  | inr n ↦
      handle_all_effect k es (handled_tables e a) (handle-IsDeduplicated no_faults e a v)
        (ground arith)
]
