-- ===== src/Idempotency/Retention.antt =====
-- The purge of the completed records: `purgeCompletedBefore` in src/modules/idempotency/.
use pulse_ledger.Base.{
  ℕ, zero, suc, ◌+◌, ◌<◌, ◌≡◌, refl, ap, sym, ◌∙◌, Bool, not, some, List, arith, ltb, length,
  where_rows, count_rows, Bool-cases, inl, inr,
}
use pulse_ledger.Base.Order.{count-order_by}
use pulse_ledger.Base.Doomed.{IsDistinct, Purged, delete-Purged, last_batch, next_batch, fewer_rows}
use pulse_ledger.Idempotency.Records.{
  ClaimKey, same_key, ClaimRecord, is_expired, order_by_completed, purge_batch,
  purge_completed_before,
}
use pulse_ledger.Idempotency.Keys.{same_key_eq, same_key_refl}

abbrev pub same_row : ClaimRecord → ClaimRecord → Bool
same_row x y = same_key x.id y.id

same_key_comm : (a b : ClaimKey) → same_key a b ≡ same_key b a
same_key_comm a b = elim (Bool-cases (same_key a b)) [
  | inl y ↦ y ∙ sym (ap (λ c. same_key c a) (sym (same_key_eq a b y)) ∙ same_key_refl a)
  | inr n ↦ elim (Bool-cases (same_key b a)) [
    | inl y ↦ ap (λ c. same_key a c) (same_key_eq b a y) ∙ same_key_refl a ∙ sym y
    | inr m ↦ n ∙ sym m
  ]
]

purge_batch-Purged :
    (cutoff n : ℕ) (rows : List ClaimRecord)
    → IsDistinct same_row rows
    → Purged same_row (is_expired cutoff) n rows (purge_batch cutoff n rows)
unfolding purge_batch
purge_batch-Purged cutoff n rows =
    delete-Purged same_row (λ x. same_key_refl x.id) (λ x y. same_key_comm x.id y.id)
      (is_expired cutoff) order_by_completed (count-order_by _) n rows _ (λ x. refl)

purge_loop :
    (cutoff n : ℕ)
    → 0 < n
    → (fuel removed : ℕ) (rows : List ClaimRecord) → length rows < fuel
    → IsDistinct same_row rows
    → purge_completed_before fuel cutoff n removed rows
      ≡ some (
        removed + count_rows (is_expired cutoff) rows,
        where_rows (λ e. not (is_expired cutoff e)) rows,
      )
unfolding purge_completed_before
purge_loop cutoff n positive zero removed rows f h = absurd (omega (arith, f))
purge_loop cutoff n positive (suc fuel) removed rows f h =
    let b = purge_batch-Purged cutoff n rows h in
    let r = purge_batch cutoff n rows in
    elim (Bool-cases (ltb r.0 n)) [
      | inl last ↦ rw last (last_batch same_row (is_expired cutoff) n rows r b removed last)
      | inr more ↦ rw more (
          purge_loop cutoff n positive fuel (removed + r.0) r.1
            (fewer_rows same_row (is_expired cutoff) n rows r b removed fuel positive more f)
            b.distinct_left
          ∙ next_batch same_row (is_expired cutoff) n rows r b removed)
    ]

-- The purge returns with as much fuel as the table has rows, plus one, if the batch size is
-- positive and no two rows share a key. It then has removed exactly the completed records older
-- than the cutoff and kept all others in their order, a claim in progress among them whatever its
-- age, and the number that it returns is the number of records removed.
pub purge_completed_before_complete :
    (cutoff n : ℕ) (rows : List ClaimRecord)
    → 0 < n
    → IsDistinct same_row rows
    → purge_completed_before (suc (length rows)) cutoff n 0 rows
      ≡ some (count_rows (is_expired cutoff) rows, where_rows (λ e. not (is_expired cutoff e)) rows)
purge_completed_before_complete cutoff n rows positive h =
    purge_loop cutoff n positive (suc (length rows)) 0 rows (omega arith) h
    ∙ ap (λ m. some (m, where_rows (λ e. not (is_expired cutoff e)) rows)) (omega arith)
