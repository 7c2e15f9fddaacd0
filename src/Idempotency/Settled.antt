-- ===== src/Idempotency/Settled.antt =====
-- What the completion of an open claim leaves under its key.
use pulse_ledger.Base.{ℕ, ◌≡◌, refl, some, List, [], ◌∷◌, arith, count_rows, Bool-cases, inl, inr}
use pulse_ledger.Responses.{Body}
use pulse_ledger.Idempotency.Records.{
  ClaimKey, ClaimRecord, completed, same_key, is_open, settle, find_record, complete_claim,
}
use pulse_ledger.Idempotency.Keys.{IsKeyed, same_key_eq, no_key_open}

-- An open claim that is completed is found with its response.
pub find_settled :
    (k : ClaimKey) (status : ℕ) (body : Body) (now : ℕ) (rows : List ClaimRecord)
    → IsKeyed rows
    → count_rows (is_open k) rows ≡ 1
    → (r : ClaimRecord) × (find_record k (complete_claim k status body now rows).1 ≡ some r)
      × (r.status ≡ completed)
      × (r.response_status ≡ some status)
      × (r.response_body ≡ some body)
unfolding find_record complete_claim
find_settled k status body now [] q c = absurd (omega arith)
find_settled k status body now (x ∷ rows) (n, q) c = elim (Bool-cases (same_key x.id k)) [
  | inl y ↦
      let same : x.id ≡ k = same_key_eq x.id k y in
      (
        settle status body now x,
        ground (arith, no_key_open k rows (rw same at n)),
        refl,
        refl,
        refl,
      )
  | inr m ↦
      let (r, f, c', s, b) = find_settled k status body now rows q (ground arith) in
      (r, ground arith, c', s, b)
]
