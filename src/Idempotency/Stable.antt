-- ===== src/Idempotency/Stable.antt =====
-- Every statement but the retention sweep, in any order and from any session, leaves a completed
-- record as it is.
use pulse_ledger.Base.{
  ℕ, ◌≡◌, refl, Bool, true, false, not, some, List, [], ◌∷◌, ◌++◌, arith, where_rows, update_rows,
  Bool-cases, inl, inr,
}
use pulse_ledger.Responses.{Body}
use pulse_ledger.Idempotency.Records.{
  ClaimKey, same_key, completed, ClaimRecord, find_record, new_claim, insert_claim, is_open,
  is_reclaimable, refresh, reclaim, settle, complete_claim, release_claim,
}
use pulse_ledger.Idempotency.Keys.{
  IsKeyed, insert_claim-IsKeyed, reclaim-IsKeyed, complete_claim-IsKeyed, release_claim-IsKeyed,
}

-- A statement that a session sends, with the values it carries.
pub data Statement : Type 0 where
  insert_row : ClaimKey → ℕ → ℕ → Statement
  reclaim_row : ClaimKey → ℕ → ℕ → ℕ → ℕ → Statement
  complete_row : ClaimKey → ℕ → Body → ℕ → Statement
  release_row : ClaimKey → Statement

unfoldable pub execute : Statement → List ClaimRecord → List ClaimRecord
execute (insert_row k fingerprint now) rows = (insert_claim k fingerprint now rows).1
execute (reclaim_row k fingerprint clock stale now) rows =
    (reclaim k fingerprint clock stale now rows).1
execute (complete_row k status body now) rows = (complete_claim k status body now rows).1
execute (release_row k) rows = release_claim k rows

unfoldable pub execute_all : List Statement → List ClaimRecord → List ClaimRecord
unfolding execute
execute_all [] rows = rows
execute_all (s ∷ ss) rows = execute_all ss (execute s rows)

find-append :
    (k : ClaimKey) (rows xs : List ClaimRecord) (r : ClaimRecord)
    → find_record k rows ≡ some r
    → find_record k (rows ++ xs) ≡ some r
unfolding find_record
find-append k [] xs r h = cc
find-append k (x ∷ rows) xs r h = ground (arith, find-append k rows xs r)

-- An UPDATE that keeps keys and passes over completed rows does not change a completed record.
find-update :
    (k : ClaimKey) (p : ClaimRecord → Bool) (f : ClaimRecord → ClaimRecord)
    (rows : List ClaimRecord) (r : ClaimRecord)
    → ((x : ClaimRecord) → (f x).id ≡ x.id)
    → p r ≡ false
    → find_record k rows ≡ some r
    → find_record k (update_rows p f rows) ≡ some r
unfolding find_record
find-update k p f [] r same n h = cc
find-update k p f (x ∷ rows) r same n h = elim (Bool-cases (same_key x.id k)) [
  | inl y ↦ ground (arith, same x)
  | inr m ↦ ground (arith, same x, find-update k p f rows r same n)
]

find-where :
    (k : ClaimKey) (p : ClaimRecord → Bool) (rows : List ClaimRecord) (r : ClaimRecord)
    → p r ≡ true
    → find_record k rows ≡ some r
    → find_record k (where_rows p rows) ≡ some r
unfolding find_record
find-where k p [] r y h = cc
find-where k p (x ∷ rows) r y h = ground (arith, find-where k p rows r y)

closed : (k : ClaimKey) (r : ClaimRecord) → r.status ≡ completed → is_open k r ≡ false
closed k r c = rw c (ground arith)

execute_stable :
    (s : Statement) (k : ClaimKey) (r : ClaimRecord) (rows : List ClaimRecord)
    → r.status ≡ completed
    → find_record k rows ≡ some r
    → find_record k (execute s rows) ≡ some r
unfolding execute insert_claim reclaim complete_claim release_claim
execute_stable (insert_row j fingerprint now) k r rows c h =
    ground (arith, find-append k rows (new_claim j fingerprint now ∷ []) r h)
execute_stable (reclaim_row j fingerprint clock stale now) k r rows c h =
    find-update k (is_reclaimable j fingerprint clock stale) (refresh now) rows r (λ x. refl)
      (ground (arith, closed j r c)) h
execute_stable (complete_row j status body now) k r rows c h =
    find-update k (is_open j) (settle status body now) rows r (λ x. refl) (closed j r c) h
execute_stable (release_row j) k r rows c h =
    find-where k (λ x. not (is_open j x)) rows r (rw (closed j r c)) h

-- A completed record is final: whatever statements any sessions run on the idempotency records
-- afterwards, the retention sweep aside, the key keeps exactly that record, and so its response.
pub execute_all_stable :
    (ss : List Statement) (k : ClaimKey) (r : ClaimRecord) (rows : List ClaimRecord)
    → r.status ≡ completed
    → find_record k rows ≡ some r
    → find_record k (execute_all ss rows) ≡ some r
unfolding execute_all
execute_all_stable [] k r rows c h = h
execute_all_stable (s ∷ ss) k r rows c h =
    execute_all_stable ss k r (execute s rows) c (execute_stable s k r rows c h)

execute-IsKeyed :
    (s : Statement) (rows : List ClaimRecord) → IsKeyed rows → IsKeyed (execute s rows)
unfolding execute
execute-IsKeyed (insert_row j fingerprint now) rows = insert_claim-IsKeyed j fingerprint now rows
execute-IsKeyed (reclaim_row j fingerprint clock stale now) rows =
    reclaim-IsKeyed j fingerprint clock stale now rows
execute-IsKeyed (complete_row j status body now) rows =
    complete_claim-IsKeyed j status body now rows
execute-IsKeyed (release_row j) rows = release_claim-IsKeyed j rows

pub execute_all-IsKeyed :
    (ss : List Statement) (rows : List ClaimRecord) → IsKeyed rows → IsKeyed (execute_all ss rows)
unfolding execute_all
execute_all-IsKeyed [] rows h = h
execute_all-IsKeyed (s ∷ ss) rows h =
    execute_all-IsKeyed ss (execute s rows) (execute-IsKeyed s rows h)
