-- ===== src/Outbox/Progress.antt =====
-- What a poll in which nothing fails claims and delivers, row by row.
use pulse_ledger.Base.{
  ℕ, ◌+◌, ◌≤◌, ◌≡◌, refl, Bool, true, false, not, ◌&&◌, ◌||◌, Option, none, some, List, [], ◌∷◌,
  map, arith, ==_refl, ==_comm, take, where_rows, count_rows, contains, All, Bool-cases, inl, inr,
  min, if◌then◌else◌,
}
use pulse_ledger.Base.Order.{count-order_by}
use pulse_ledger.Base.Doomed.{IsDistinct, doomed_only, delete-Purged}
use pulse_ledger.Outbox.Events.{
  OutboxStatus, pending, processing, failed, processed, same_status, Instant, at_time, infinity,
  OutboxEvent,
}
use pulse_ledger.Outbox.Repository.{ids, is_due, is_claimable, order_by_created, claim_event}
use pulse_ledger.Outbox.Worker.{Delivery}
use pulse_ledger.Outbox.Retention.{same_id, contains-any}
use pulse_ledger.Outbox.Marks.{
  is_done, mark_row, mark_row_id, mark_row_marked, mark_row_other, batch_of, unnamed,
}

abbrev pub is_left : OutboxEvent → Bool
is_left x = not (is_done x)

pub All-row :
    (P : OutboxEvent → Type 0) (f : OutboxEvent → OutboxEvent) (rows : List OutboxEvent)
    → All (λ x. P (f x)) rows
    → All P (map f rows)
All-row P f [] h = tt
All-row P f (x ∷ rows) (k, h) = (k, All-row P f rows h)

pub All-both :
    (P Q : OutboxEvent → Type 0) (rows : List OutboxEvent)
    → All P rows
    → All Q rows
    → All (λ x. P x × Q x) rows
All-both P Q [] h k = tt
All-both P Q (x ∷ rows) (h, hs) (k, ks) = ((h, k), All-both P Q rows hs ks)

-- A change of the rows that keeps their identifiers.
module _ (f : OutboxEvent → OutboxEvent) (kept : (x : OutboxEvent) → (f x).id ≡ x.id) where
  pub map-ids : (rows : List OutboxEvent) → ids (map f rows) ≡ ids rows
  map-ids [] = refl
  map-ids (x ∷ rows) = rw (kept x, map-ids rows) refl

  map-apart :
      (x : OutboxEvent) (rows : List OutboxEvent)
      → All (λ (y : OutboxEvent). same_id x y ≡ false) rows
      → All (λ (y : OutboxEvent). same_id (f x) y ≡ false) (map f rows)
  map-apart x [] h = tt
  map-apart x (y ∷ rows) (k, h) = (rw (kept x, kept y) k, map-apart x rows h)

  pub map-IsDistinct :
      (rows : List OutboxEvent) → IsDistinct same_id rows → IsDistinct same_id (map f rows)
  map-IsDistinct [] h = tt
  map-IsDistinct (x ∷ rows) (k, h) = (map-apart x rows k, map-IsDistinct rows h)

-- A poll that takes the rows of `q` to delivered ones and leaves the others as they are.
module _ (row : OutboxEvent → OutboxEvent) (q : OutboxEvent → Bool) where
  abbrev pub Delivers : OutboxEvent → Type 0
  Delivers x =
      (q x ≡ true → (is_done x ≡ false) × (is_done (row x) ≡ true)) × (q x ≡ false → row x ≡ x)

  pub count_left :
      (rows : List OutboxEvent)
      → All Delivers rows
      → count_rows is_left (map row rows) + count_rows q rows ≡ count_rows is_left rows
  count_left [] h = refl
  count_left (x ∷ rows) ((y, n), h) = elim (Bool-cases (q x)) [
    | inl a ↦ let (before, after) = y a in rw (a, before, after) (omega (arith, count_left rows h))
    | inr a ↦ rw (a, n a) (omega (arith, count_left rows h))
  ]

pub due_later : (t now : ℕ) (i : Option Instant) → is_due t i ≡ true → t ≤ now → is_due now i ≡ true
due_later t now none h le = refl
due_later t now (some infinity) h le = cc
due_later t now (some (at_time s)) h le = ground arith

claimable_status :
    (s : OutboxStatus) (due : Bool)
    → (same_status s processed ≡ false → due ≡ true)
    → ((same_status s pending || same_status s failed || same_status s processing) && due && true)
      ≡ not (same_status s processed)
claimable_status pending due h = rw (h refl) refl
claimable_status processing due h = rw (h refl) refl
claimable_status failed due h = rw (h refl) refl
claimable_status processed due h = refl

pub count_claimable :
    (now : ℕ) (rows : List OutboxEvent)
    → All (λ (x : OutboxEvent). is_done x ≡ false → is_due now x.next_attempt_at ≡ true) rows
    → count_rows (is_claimable now []) rows ≡ count_rows is_left rows
count_claimable now [] h = refl
count_claimable now (x ∷ rows) (k, h) =
    rw (claimable_status x.status (is_due now x.next_attempt_at) k)
      (omega (arith, count_claimable now rows h))

claimable_left :
    (s : OutboxStatus) (due : Bool)
    → ((same_status s pending || same_status s failed || same_status s processing) && due && true)
      ≡ true
    → same_status s processed ≡ false
claimable_left pending due h = refl
claimable_left processing due h = refl
claimable_left failed due h = refl
claimable_left processed due h = cc

-- The identifiers that `claimBatch` selects where no other worker holds a row.
abbrev pub selected : ℕ → ℕ → List OutboxEvent → List ℕ
selected n now rows = ids (take n (order_by_created (where_rows (is_claimable now []) rows)))

module _ (n now : ℕ) (rows : List OutboxEvent) (h : IsDistinct same_id rows) where
  pub selected_only :
      All
        (λ (x : OutboxEvent).
          contains x.id (selected n now rows) ≡ true → is_claimable now [] x ≡ true)
        rows
  selected_only =
      doomed_only same_id (λ x. ==_refl x.id) (λ x y. ==_comm x.id y.id) (is_claimable now [])
        order_by_created (count-order_by _) n rows _ (λ x. contains-any x.id _) h

  pub selected_full :
      min n (count_rows (is_claimable now []) rows)
      ≤ count_rows (λ x. contains x.id (selected n now rows)) rows
  selected_full =
      (delete-Purged same_id (λ x. ==_refl x.id) (λ x y. ==_comm x.id y.id) (is_claimable now [])
        order_by_created (count-order_by _) n rows _ (λ x. contains-any x.id _) h).full

-- The row after a poll that claims the rows with the identifiers `c`.
module _ (c : List ℕ) (now lease : ℕ) (d : ℕ → Delivery) (rows : List OutboxEvent) where
  abbrev pub taken : List OutboxEvent
  taken = batch_of c (claim_event now lease) (λ x. refl) rows

  abbrev pub poll_row : OutboxEvent → OutboxEvent
  poll_row x = mark_row d taken (if contains x.id c then claim_event now lease x else x)

  pub poll_row_id : (x : OutboxEvent) → (poll_row x).id ≡ x.id
  poll_row_id x = elim (Bool-cases (contains x.id c)) [
    | inl y ↦ rw y (mark_row_id d taken (claim_event now lease x))
    | inr n ↦ rw n (mark_row_id d taken x)
  ]

  pub poll_row-Delivers :
      (x : OutboxEvent)
      → (contains x.id c ≡ true → is_claimable now [] x ≡ true)
      → (contains x.id c ≡ true → contains x.id (ids taken) ≡ true)
      → Delivers poll_row (λ y. contains y.id c) x
  poll_row-Delivers x only there = (
    (λ y. (
      claimable_left x.status (is_due now x.next_attempt_at) (only y),
      rw y (mark_row_marked d taken (claim_event now lease x) refl (there y)),
    )),
    (λ n.
        rw n
          (mark_row_other d taken x (unnamed c (claim_event now lease) (λ y. refl) x.id rows n))),
  )
