-- ===== src/Idempotency/Keys.antt =====
-- The unique index of `idempotency_records`: every statement keeps it, and under it a settled key
-- has no open claim.
use pulse_ledger.Base.{
  none, ℕ, ◌≡◌, refl, Bool, true, false, not, some, List, [], ◌∷◌, ◌++◌, arith, ==_refl, where_rows,
  update_rows, count_rows, any, Bool-cases, inl, inr, any-append,
}
use pulse_ledger.Ledger.Tables.{TransactionType, funding, transfer, same_type}
use pulse_ledger.Responses.{Body}
use pulse_ledger.Idempotency.Records.{
  ClaimKey, same_key, completed, ClaimRecord, find_record, new_claim, insert_claim, is_open,
  is_reclaimable, refresh, reclaim, settle, complete_claim, release_claim,
}

pub same_key_eq : (a b : ClaimKey) → same_key a b ≡ true → a ≡ b
same_key_eq a b h = ground (arith, same_type_eq a.operation b.operation)
  where
    same_type_eq : (x y : TransactionType) → same_type x y ≡ true → x ≡ y
    same_type_eq funding funding h = refl
    same_type_eq funding transfer h = cc
    same_type_eq transfer funding h = cc
    same_type_eq transfer transfer h = refl

pub same_key_refl : (a : ClaimKey) → same_key a a ≡ true
same_key_refl a = rw (==_refl a.key, same_type_refl a.operation, ==_refl a.principal_id)
  where
    same_type_refl : (x : TransactionType) → same_type x x ≡ true
    same_type_refl funding = refl
    same_type_refl transfer = refl

abbrev pub has_key : ClaimKey → List ClaimRecord → Bool
has_key k = any (λ r. same_key r.id k)

abbrev pub IsKeyed : List ClaimRecord → Type 0
IsKeyed [] = Unit
IsKeyed (r ∷ rows) = (has_key r.id rows ≡ false) × IsKeyed rows

-- An update that keeps the keys keeps the index.
module _ (p : ClaimRecord → Bool) (f : ClaimRecord → ClaimRecord)
    (same : (r : ClaimRecord) → (f r).id ≡ r.id) where
  pub has_key-update :
      (k : ClaimKey) (rows : List ClaimRecord) → has_key k (update_rows p f rows) ≡ has_key k rows
  has_key-update k [] = refl
  has_key-update k (r ∷ rows) = elim (Bool-cases (p r)) [
    | inl y ↦ rw (y, same r, has_key-update k rows)
    | inr n ↦ rw (n, has_key-update k rows)
  ]

  update-IsKeyed : (rows : List ClaimRecord) → IsKeyed rows → IsKeyed (update_rows p f rows)
  update-IsKeyed [] h = tt
  update-IsKeyed (r ∷ rows) (n, h) = elim (Bool-cases (p r)) [
    | inl y ↦ rw (y, same r, has_key-update r.id rows) (n, update-IsKeyed rows h)
    | inr z ↦ rw (z, has_key-update r.id rows) (n, update-IsKeyed rows h)
  ]

pub has_key-where :
    (k : ClaimKey) (p : ClaimRecord → Bool) (rows : List ClaimRecord)
    → has_key k rows ≡ false
    → has_key k (where_rows p rows) ≡ false
has_key-where k p [] h = refl
has_key-where k p (r ∷ rows) h = ground (arith, has_key-where k p rows)

pub where-IsKeyed :
    (p : ClaimRecord → Bool) (rows : List ClaimRecord) → IsKeyed rows → IsKeyed (where_rows p rows)
where-IsKeyed p [] h = tt
where-IsKeyed p (r ∷ rows) (n, h) =
    ground (arith, has_key-where r.id p rows n, where-IsKeyed p rows h)

snoc-IsKeyed :
    (x : ClaimRecord) (rows : List ClaimRecord)
    → has_key x.id rows ≡ false
    → IsKeyed rows
    → IsKeyed (rows ++ x ∷ [])
snoc-IsKeyed x [] n h = (refl, tt)
snoc-IsKeyed x (r ∷ rows) n (m, h) = (
  rw (any-append, m)
      (elim (Bool-cases (same_key x.id r.id)) [
        | inl y ↦ absurd (ground (arith, same_key_eq x.id r.id y, same_key_refl x.id))
        | inr z ↦ rw z
      ]),
  snoc-IsKeyed x rows (ground arith) h,
)

pub insert_claim-IsKeyed :
    (k : ClaimKey) (fingerprint now : ℕ) (rows : List ClaimRecord)
    → IsKeyed rows
    → IsKeyed (insert_claim k fingerprint now rows).1
unfolding insert_claim
insert_claim-IsKeyed k fingerprint now rows h = elim (Bool-cases (has_key k rows)) [
  | inl y ↦ rw y h
  | inr n ↦ rw n (snoc-IsKeyed (new_claim k fingerprint now) rows n h)
]

pub reclaim-IsKeyed :
    (k : ClaimKey) (fingerprint clock stale now : ℕ) (rows : List ClaimRecord)
    → IsKeyed rows
    → IsKeyed (reclaim k fingerprint clock stale now rows).1
unfolding reclaim
reclaim-IsKeyed k fingerprint clock stale now rows =
    update-IsKeyed (is_reclaimable k fingerprint clock stale) (refresh now) (λ r. refl) rows

pub complete_claim-IsKeyed :
    (k : ClaimKey) (status : ℕ) (body : Body) (now : ℕ) (rows : List ClaimRecord)
    → IsKeyed rows
    → IsKeyed (complete_claim k status body now rows).1
unfolding complete_claim
complete_claim-IsKeyed k status body now rows =
    update-IsKeyed (is_open k) (settle status body now) (λ r. refl) rows

pub release_claim-IsKeyed :
    (k : ClaimKey) (rows : List ClaimRecord) → IsKeyed rows → IsKeyed (release_claim k rows)
unfolding release_claim
release_claim-IsKeyed k rows = where-IsKeyed (λ r. not (is_open k r)) rows

pub no_key_find :
    (k : ClaimKey) (rows : List ClaimRecord) → has_key k rows ≡ false → find_record k rows ≡ none
unfolding find_record
no_key_find k [] h = refl
no_key_find k (r ∷ rows) h = ground (arith, no_key_find k rows)

pub no_key_open :
    (k : ClaimKey) (rows : List ClaimRecord)
    → has_key k rows ≡ false
    → count_rows (is_open k) rows ≡ 0
no_key_open k [] h = refl
no_key_open k (r ∷ rows) h = ground (arith, no_key_open k rows)

-- The record that a key has is the only one: if it is completed, the key has no open claim.
pub settled_no_open :
    (k : ClaimKey) (rows : List ClaimRecord) (r : ClaimRecord)
    → IsKeyed rows
    → find_record k rows ≡ some r
    → r.status ≡ completed
    → count_rows (is_open k) rows ≡ 0
unfolding find_record
settled_no_open k [] r h e c = refl
settled_no_open k (x ∷ rows) r (n, h) e c = elim (Bool-cases (same_key x.id k)) [
  | inl y ↦
      let same : x.id ≡ k = same_key_eq x.id k y in
      ground (arith, no_key_open k rows (rw same at n))
  | inr m ↦ ground (arith, settled_no_open k rows r h)
]
