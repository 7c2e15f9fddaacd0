-- ===== src/Outbox/Delivered.antt =====
-- Polls in which nothing fails deliver every event: `poll` in src/modules/outbox/outbox-worker.ts.
use pulse_ledger.Base.{
  ℕ, ◌+◌, ◌*◌, ◌≤◌, ◌≡◌, refl, sym, ap, ◌∙◌, true, false, List, [], ◌∷◌, map, arith, length,
  count_rows, contains, update_rows, All, Bool-cases, inl, inr, min,
}
use pulse_ledger.Base.Rows.{All-map}
use pulse_ledger.Base.Doomed.{IsDistinct}
use pulse_ledger.Ports.Transaction.{no_faults, with_transaction}
use pulse_ledger.Outbox.Events.{OutboxEvent}
use pulse_ledger.Outbox.Repository.{ids, is_due, claim_event, claim_batch}
use pulse_ledger.Outbox.Worker.{World, Delivery, WorkerConfig, poll}
use pulse_ledger.Outbox.Retention.{same_id}
use pulse_ledger.Outbox.Drain.{
  IsQuiet, handle_all, process_batch_quiet, handle_all-IsDeduplicated, handle_all-kept,
  handle_all_effect,
}
use pulse_ledger.Outbox.Marks.{is_done, mark_row, map-update_rows, mark_all-rows, named}
use pulse_ledger.Outbox.Progress.{
  is_left, All-row, All-both, Delivers, count_left, due_later, count_claimable, selected,
  selected_only, selected_full, taken, map-IsDistinct, map-ids, poll_row, poll_row_id,
  poll_row-Delivers,
}
use pulse_ledger.Audit.Consumer.{AuditTables}
use pulse_ledger.Audit.Dedup.{IsDeduplicated, effects_of}

-- A poll at the time `now`, with what happens to its deliveries.
pub record Poll : Type 0 where
  pub now : ℕ
  pub deliveries : ℕ → Delivery

abbrev pub quiet_poll : WorkerConfig → Poll → World → World
quiet_poll c p w = (poll c no_faults p.now [] p.deliveries w).1

abbrev pub poll_all : WorkerConfig → List Poll → World → World
poll_all c [] w = w
poll_all c (p ∷ ps) w = poll_all c ps (quiet_poll c p w)

-- From the time `t` on every event that is left is due; a delivered event has its effect.
pub record IsDelivering (t : ℕ) (w : World) : Type 0 where
  pub distinct : IsDistinct same_id w.outbox
  pub deduplicated : IsDeduplicated w.audit
  pub due :
      All (λ (x : OutboxEvent). is_done x ≡ false → is_due t x.next_attempt_at ≡ true) w.outbox
  pub delivered : All (λ (x : OutboxEvent). is_done x ≡ true → effects_of x.id w.audit ≡ 1) w.outbox

-- The rows and the tables after a quiet poll.
module _ (c : WorkerConfig) (p : Poll) (w : World) where
  abbrev chosen : List ℕ
  chosen = selected c.batch_size p.now w.outbox

  abbrev row : OutboxEvent → OutboxEvent
  row = poll_row chosen p.now c.claim_lease_seconds p.deliveries w.outbox

  abbrev batch : List OutboxEvent
  batch = taken chosen p.now c.claim_lease_seconds p.deliveries w.outbox

  abbrev after : World
  after = record { outbox = map row w.outbox; audit = handle_all batch w.audit }

  quiet_poll-after :
      ((n : ℕ) → IsQuiet (p.deliveries n)) → IsDeduplicated w.audit → quiet_poll c p w ≡ after
  unfolding poll with_transaction claim_batch
  quiet_poll-after q v =
      let claimed =
        update_rows (λ e. contains e.id chosen) (claim_event p.now c.claim_lease_seconds)
          w.outbox in
      (process_batch_quiet c.max_attempts p.deliveries batch []
        (record { outbox = claimed; audit = w.audit }) q v).1
      ∙ ap (λ rows. record { outbox = rows; audit = handle_all batch w.audit })
          (mark_all-rows p.deliveries batch claimed
            ∙ map-update_rows (mark_row p.deliveries batch)
                (claim_event p.now c.claim_lease_seconds) (λ x. contains x.id chosen) w.outbox)

  all_deliver :
      IsDistinct same_id w.outbox → All (Delivers row (λ x. contains x.id chosen)) w.outbox
  all_deliver h =
      All-map
        (λ x k.
          poll_row-Delivers chosen p.now c.claim_lease_seconds p.deliveries w.outbox x k.0 k.1)
        w.outbox
        (All-both _ _ w.outbox (selected_only c.batch_size p.now w.outbox h)
          (named chosen (claim_event p.now c.claim_lease_seconds) (λ x. refl) w.outbox))

  module _ (t : ℕ) (v : IsDelivering t w) (later : t ≤ p.now) where
    due_now :
        All
          (λ (x : OutboxEvent). is_done x ≡ false → is_due p.now x.next_attempt_at ≡ true)
          w.outbox
    due_now = All-map (λ x k h. due_later t p.now x.next_attempt_at (k h) later) w.outbox v.due

    -- A quiet poll delivers a full batch, or all that is left.
    fewer_left :
        count_rows is_left after.outbox + min c.batch_size (count_rows is_left w.outbox)
        ≤ count_rows is_left w.outbox
    fewer_left = omega (
      arith,
      count_left row (λ x. contains x.id chosen) w.outbox (all_deliver v.distinct),
      selected_full c.batch_size p.now w.outbox v.distinct,
      count_claimable p.now w.outbox due_now,
    )

    row_due :
        (x : OutboxEvent)
        → (is_done x ≡ false → is_due t x.next_attempt_at ≡ true)
        → Delivers row (λ y. contains y.id chosen) x
        → is_done (row x) ≡ false
        → is_due t (row x).next_attempt_at ≡ true
    row_due x k (y, n) h = elim (Bool-cases (contains x.id chosen)) [
      | inl a ↦ absurd (cc ((y a).1, h))
      | inr a ↦ rw (n a) (k (sym (ap is_done (n a)) ∙ h))
    ]

    once : (k : ℕ) → 1 ≤ effects_of k after.audit → effects_of k after.audit ≡ 1
    once k h = omega (arith, h, handle_all-IsDeduplicated batch w.audit v.deduplicated k)

    row_delivered :
        (x : OutboxEvent)
        → (is_done x ≡ true → effects_of x.id w.audit ≡ 1)
        → Delivers row (λ y. contains y.id chosen) x
        → (contains x.id chosen ≡ true → contains x.id (ids batch) ≡ true)
        → is_done (row x) ≡ true
        → effects_of (row x).id after.audit ≡ 1
    row_delivered x k (y, n) there h = elim (Bool-cases (contains x.id chosen)) [
      | inl a ↦
          rw (poll_row_id chosen p.now c.claim_lease_seconds p.deliveries w.outbox x)
            (once x.id (handle_all_effect x.id batch w.audit v.deduplicated (there a)))
      | inr a ↦ rw (n a) (
          once x.id
            (omega (arith, k (sym (ap is_done (n a)) ∙ h), handle_all-kept x.id batch w.audit)))
    ]

    after-IsDelivering : IsDelivering t after
    after-IsDelivering =
        let deliver = all_deliver v.distinct in
        let there = named chosen (claim_event p.now c.claim_lease_seconds) (λ x. refl) w.outbox in
        record {
          distinct =
              map-IsDistinct row
                (poll_row_id chosen p.now c.claim_lease_seconds p.deliveries w.outbox) w.outbox
                v.distinct;
          deduplicated = handle_all-IsDeduplicated batch w.audit v.deduplicated;
          due =
              All-row _ row w.outbox
                (All-map (λ x k. row_due x k.0 k.1) w.outbox (All-both _ _ w.outbox v.due deliver));
          delivered = All-row _ row w.outbox (
              All-map (λ x k. row_delivered x k.0 k.1.0 k.1.1) w.outbox
                (All-both _ _ w.outbox v.delivered (All-both _ _ w.outbox deliver there)));
        }

-- Polls from the time `t` on, in which nothing fails.
abbrev pub AllQuiet : ℕ → List Poll → Type 0
AllQuiet t ps = All (λ (p : Poll). (t ≤ p.now) × ((n : ℕ) → IsQuiet (p.deliveries n))) ps

none_left :
    (a : AuditTables) (rows : List OutboxEvent)
    → count_rows is_left rows ≡ 0
    → All (λ (x : OutboxEvent). is_done x ≡ true → effects_of x.id a ≡ 1) rows
    → All (λ (x : OutboxEvent). (is_done x ≡ true) × (effects_of x.id a ≡ 1)) rows
none_left a [] h v = tt
none_left a (x ∷ rows) h (k, v) =
    let done : is_done x ≡ true = ground arith in
    ((done, k done), none_left a rows (omega (arith, h)) v)

-- Once nothing fails any more, the worker delivers everything: after as many polls as the events
-- that are left need, each poll a batch, every event is processed and has exactly one audit effect,
-- and no event is lost or added, if the events that are left are due, no two events share an
-- identifier, and the audit tables are as deliveries leave them.
pub poll_all_delivers :
    (c : WorkerConfig) (t : ℕ) (ps : List Poll) (w : World)
    → IsDelivering t w
    → AllQuiet t ps
    → count_rows is_left w.outbox ≤ length ps * c.batch_size
    → (ids (poll_all c ps w).outbox ≡ ids w.outbox)
      × All
          (λ (x : OutboxEvent). (is_done x ≡ true) × (effects_of x.id (poll_all c ps w).audit ≡ 1))
          (poll_all c ps w).outbox
poll_all_delivers c t [] w v q few =
    (refl, none_left w.audit w.outbox (omega (arith, few)) v.delivered)
poll_all_delivers c t (p ∷ ps) w v ((later, quiet), q) few =
    let same = quiet_poll-after c p w quiet v.deduplicated in
    let (kept, all) =
      poll_all_delivers c t ps (after c p w) (after-IsDelivering c p w t v later) q
        (omega (arith, fewer_left c p w t v later, few)) in
    rw (poll_all, same)
      (
        kept
            ∙ map-ids (row c p w)
                (poll_row_id (chosen c p w) p.now c.claim_lease_seconds p.deliveries w.outbox)
                w.outbox,
        all,
      )
