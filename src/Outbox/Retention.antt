-- ===== src/Outbox/Retention.antt =====
-- The purge of the processed events: `purgeProcessedBefore` in src/modules/outbox/.
use pulse_ledger.Base.{
  ℕ, zero, suc, ◌+◌, ◌<◌, ◌≡◌, refl, ap, ◌∙◌, Bool, not, ◌||◌, some, List, [], ◌∷◌, arith, ltb,
  ◌==◌, ==_refl, ==_comm, length, where_rows, count_rows, any, contains, Bool-cases, inl, inr,
}
use pulse_ledger.Base.Order.{count-order_by}
use pulse_ledger.Base.Doomed.{IsDistinct, Purged, delete-Purged, last_batch, next_batch, fewer_rows}
use pulse_ledger.Outbox.Events.{OutboxEvent}
use pulse_ledger.Outbox.Repository.{
  ids, is_expired, order_by_processed, purge_batch, purge_processed_before,
}

abbrev pub same_id : OutboxEvent → OutboxEvent → Bool
same_id x y = x.id == y.id

pub contains-any :
    (k : ℕ) (es : List OutboxEvent) → contains k (ids es) ≡ any (λ (y : OutboxEvent). y.id == k) es
contains-any k [] = refl
contains-any k (e ∷ es) = ap (λ b. e.id == k || b) (contains-any k es)

purge_batch-Purged :
    (cutoff n : ℕ) (rows : List OutboxEvent)
    → IsDistinct same_id rows
    → Purged same_id (is_expired cutoff) n rows (purge_batch cutoff n rows)
unfolding purge_batch
purge_batch-Purged cutoff n rows =
    delete-Purged same_id (λ x. ==_refl x.id) (λ x y. ==_comm x.id y.id) (is_expired cutoff)
      order_by_processed (count-order_by _) n rows _ (λ x. contains-any x.id _)

purge_loop :
    (cutoff n : ℕ)
    → 0 < n
    → (fuel removed : ℕ) (rows : List OutboxEvent) → length rows < fuel
    → IsDistinct same_id rows
    → purge_processed_before fuel cutoff n removed rows
      ≡ some (
        removed + count_rows (is_expired cutoff) rows,
        where_rows (λ e. not (is_expired cutoff e)) rows,
      )
unfolding purge_processed_before
purge_loop cutoff n positive zero removed rows f h = absurd (omega (arith, f))
purge_loop cutoff n positive (suc fuel) removed rows f h =
    let b = purge_batch-Purged cutoff n rows h in
    let r = purge_batch cutoff n rows in
    elim (Bool-cases (ltb r.0 n)) [
      | inl last ↦ rw last (last_batch same_id (is_expired cutoff) n rows r b removed last)
      | inr more ↦ rw more (
          purge_loop cutoff n positive fuel (removed + r.0) r.1
            (fewer_rows same_id (is_expired cutoff) n rows r b removed fuel positive more f)
            b.distinct_left
          ∙ next_batch same_id (is_expired cutoff) n rows r b removed)
    ]

-- The purge returns with as much fuel as the table has rows, plus one, if the batch size is
-- positive and no two rows share an identifier. It then has removed exactly the processed events
-- older than the cutoff and kept all others in their order, and the number that it returns is the
-- number of events removed.
pub purge_processed_before_complete :
    (cutoff n : ℕ) (rows : List OutboxEvent)
    → 0 < n
    → IsDistinct same_id rows
    → purge_processed_before (suc (length rows)) cutoff n 0 rows
      ≡ some (count_rows (is_expired cutoff) rows, where_rows (λ e. not (is_expired cutoff e)) rows)
purge_processed_before_complete cutoff n rows positive h =
    purge_loop cutoff n positive (suc (length rows)) 0 rows (omega arith) h
    ∙ ap (λ m. some (m, where_rows (λ e. not (is_expired cutoff e)) rows)) (omega arith)
