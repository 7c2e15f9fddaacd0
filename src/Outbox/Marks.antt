-- ===== src/Outbox/Marks.antt =====
-- What a poll in which nothing fails makes of each row of the outbox: `claimBatch` and the
-- `markProcessed` of its batch, row by row.
use pulse_ledger.Base.{
  ℕ, ◌≡◌, refl, ap, ◌∙◌, Bool, true, false, some, List, [], ◌∷◌, map, arith, ◌==◌, ==_refl, ==_comm,
  length, where_rows, update_rows, contains, All, Bool-cases, inl, inr, if◌then◌else◌,
}
use pulse_ledger.Base.Rows.{All-map}
use pulse_ledger.Outbox.Events.{
  OutboxStatus, OutboxEvent, pending, failed, processing, processed, same_status,
}
use pulse_ledger.Outbox.Repository.{ids, is_processing, mark_processed}
use pulse_ledger.Outbox.Worker.{Delivery}
use pulse_ledger.Outbox.Drain.{mark_all}

abbrev pub is_done : OutboxEvent → Bool
is_done e = same_status e.status processed

abbrev pub mark_one : ℕ → ℕ → OutboxEvent → OutboxEvent
mark_one id now r =
    if is_processing id r then record r { status = processed; processed_at = some now } else r

-- A row after the marks of a batch.
abbrev pub mark_row : (ℕ → Delivery) → List OutboxEvent → OutboxEvent → OutboxEvent
mark_row d [] r = r
mark_row d (e ∷ es) r = mark_row d es (mark_one e.id (d (length es)).now r)

pub map-update_rows :
    (g f : OutboxEvent → OutboxEvent) (p : OutboxEvent → Bool) (rows : List OutboxEvent)
    → map g (update_rows p f rows) ≡ map (λ x. g (if p x then f x else x)) rows
map-update_rows g f p [] = refl
map-update_rows g f p (x ∷ rows) =
    ap (λ xs. g (if p x then f x else x) ∷ xs) (map-update_rows g f p rows)

map-id : (rows : List OutboxEvent) → rows ≡ map (λ x. x) rows
map-id [] = refl
map-id (x ∷ rows) = ap (λ xs. x ∷ xs) (map-id rows)

pub mark_all-rows :
    (d : ℕ → Delivery) (es rows : List OutboxEvent) → mark_all d es rows ≡ map (mark_row d es) rows
unfolding mark_processed
mark_all-rows d [] rows = map-id rows
mark_all-rows d (e ∷ es) rows =
    mark_all-rows d es (mark_processed e.id (d (length es)).now rows)
    ∙ map-update_rows (mark_row d es) _ (is_processing e.id) rows

pub mark_row_id :
    (d : ℕ → Delivery) (es : List OutboxEvent) (r : OutboxEvent) → (mark_row d es r).id ≡ r.id
mark_row_id d [] r = refl
mark_row_id d (e ∷ es) r =
    mark_row_id d es (mark_one e.id (d (length es)).now r)
    ∙ elim (Bool-cases (is_processing e.id r)) [ inl y ↦ rw y refl | inr n ↦ rw n refl ]

unmarked : (id now : ℕ) (r : OutboxEvent) → is_processing id r ≡ false → mark_one id now r ≡ r
unmarked id now r h = rw h refl

marked :
    (id now : ℕ) (r : OutboxEvent)
    → is_processing id r ≡ true
    → mark_one id now r ≡ record r { status = processed; processed_at = some now }
marked id now r h = rw h refl

done_unprocessing :
    (s : OutboxStatus) → same_status s processed ≡ true → same_status s processing ≡ false
done_unprocessing pending h = cc
done_unprocessing processing h = cc
done_unprocessing failed h = cc
done_unprocessing processed h = refl

mark_row_done :
    (d : ℕ → Delivery) (es : List OutboxEvent) (r : OutboxEvent)
    → is_done r ≡ true
    → mark_row d es r ≡ r
mark_row_done d [] r h = refl
mark_row_done d (e ∷ es) r h =
    ap (mark_row d es)
      (unmarked e.id (d (length es)).now r (ground (arith, done_unprocessing r.status h)))
    ∙ mark_row_done d es r h

pub mark_row_other :
    (d : ℕ → Delivery) (es : List OutboxEvent) (r : OutboxEvent)
    → contains r.id (ids es) ≡ false
    → mark_row d es r ≡ r
mark_row_other d [] r h = refl
mark_row_other d (e ∷ es) r h =
    ap (mark_row d es) (unmarked e.id (d (length es)).now r (ground (arith, ==_comm e.id r.id)))
    ∙ mark_row_other d es r (ground arith)

pub mark_row_marked :
    (d : ℕ → Delivery) (es : List OutboxEvent) (r : OutboxEvent)
    → same_status r.status processing ≡ true
    → contains r.id (ids es) ≡ true
    → is_done (mark_row d es r) ≡ true
mark_row_marked d [] r p h = cc
mark_row_marked d (e ∷ es) r p h = elim (Bool-cases (e.id == r.id)) [
  | inl y ↦
      let now = (d (length es)).now in
      let after : OutboxEvent = record r { status = processed; processed_at = some now } in
      let same = marked e.id now r (ground (arith, ==_comm e.id r.id)) in
      ap (λ z. is_done (mark_row d es z)) same ∙ ap is_done (mark_row_done d es after refl)
  | inr n ↦
      let same = unmarked e.id (d (length es)).now r (ground (arith, ==_comm e.id r.id)) in
      ap (λ z. is_done (mark_row d es z)) same ∙ mark_row_marked d es r p (ground arith)
]

-- The batch of a poll that claims the rows with the identifiers `c`.
module _ (c : List ℕ) (claimed : OutboxEvent → OutboxEvent)
    (same_id : (x : OutboxEvent) → (claimed x).id ≡ x.id) where
  abbrev pub batch_of : List OutboxEvent → List OutboxEvent
  batch_of rows = map claimed (where_rows (λ e. contains e.id c) rows)

  pub unnamed :
      (k : ℕ) (rows : List OutboxEvent)
      → contains k c ≡ false
      → contains k (ids (batch_of rows)) ≡ false
  unnamed k [] h = refl
  unnamed k (x ∷ rows) h = elim (Bool-cases (contains x.id c)) [
    | inl y ↦ rw (y, same_id x) (ground (arith, unnamed k rows h))
    | inr n ↦ rw n (unnamed k rows h)
  ]

  named_later :
      (k : ℕ) (x : OutboxEvent) (rows : List OutboxEvent)
      → contains k (ids (batch_of rows)) ≡ true
      → contains k (ids (batch_of (x ∷ rows))) ≡ true
  named_later k x rows h = elim (Bool-cases (contains x.id c)) [
    | inl y ↦ rw y (ground arith)
    | inr n ↦ rw n h
  ]

  pub named :
      (rows : List OutboxEvent)
      → All
          (λ (x : OutboxEvent). contains x.id c ≡ true → contains x.id (ids (batch_of rows)) ≡ true)
          rows
  named [] = tt
  named (x ∷ rows) = (
    (λ h. rw h (rw (same_id x, ==_refl x.id) refl)),
    All-map (λ y k h. named_later y.id x rows (k h)) rows (named rows),
  )
