-- ===== src/Web/Settled.antt =====
-- What the client makes of a refusal, and what the server keeps of it.
use pulse_ledger.Base.{
  ℕ, ◌≤◌, ◌≡◌, ◌⊎◌, inl, inr, refl, sym, ap, ◌∙◌, true, false, List, Option, none, some, arith,
  Bool-cases, Option-cases,
}
use pulse_ledger.Errors.{Failure, Result, ok, err, ErrorReply, replayable_failure, error_handler}
use pulse_ledger.Errors.Replay.{replayable_failure-error_handler}
use pulse_ledger.Responses.{Body}
use pulse_ledger.Idempotency.Records.{
  ClaimKey, ClaimRecord, completed, in_progress, to_response, find_record,
}
use pulse_ledger.Idempotency.Keys.{IsKeyed}
use pulse_ledger.Idempotency.Claim.{Surroundings, claim_or_replay}
use pulse_ledger.Database.{Db}
use pulse_ledger.Routes.Flow.{
  KeyedRequest, Settlement, idempotency_key_from, a_key, is_idempotency_error, params_of,
  error_response, keyed_route,
}
use pulse_ledger.Routes.Replay.{failure_reply, failure_stored, failure_released}
use pulse_ledger.Web.Errors.{
  is_final_answer, is_retryable_code, error_of, FromFramework, is_final_answer-replayable,
}

none-some {ℓ} : {A : Type ℓ} {a : A} → none ≡ some a → ⊥
none-some h = cc

stored_final :
    (e : Failure) (rid : ℕ) (reply : ErrorReply)
    → replayable_failure e rid ≡ some reply
    → (is_retryable_code (error_handler e rid).body.code ≡ false)
      ⊎ (500 ≤ (error_handler e rid).status)
    → is_final_answer (error_of (error_handler e rid)) ≡ true
stored_final e rid reply stored retry =
    let (same, low, high) = replayable_failure-error_handler e rid reply stored in
    let final = ((is_final_answer-replayable e rid).0 reply stored).1 in
    elim retry [
      | inl once ↦ rw same (final ∙ rw (sym same) (rw once refl))
      | inr late ↦ absurd (omega (arith, high, (rw same at late)))
    ]

unstored_final :
    (e : Failure) (rid : ℕ)
    → replayable_failure e rid ≡ none
    → ¬ FromFramework e
    → is_final_answer (error_of (error_handler e rid)) ≡ false
unstored_final e rid unstored raised =
    elim (Bool-cases (is_final_answer (error_of (error_handler e rid)))) [
      | inr n ↦ n
      | inl y ↦ elim ((is_final_answer-replayable e rid).1 y) [
        | inl stored ↦ absurd (none-some (sym unstored ∙ stored))
        | inr framework ↦ absurd (raised framework)
      ]
    ]

-- When the work of a request that has won its claim fails, the client and the server agree on
-- whether the refusal is decided: either it is a final answer for the client, and the key's record
-- is completed with exactly the reply that the client got, or it is not, and the key is free
-- again, so that a retry runs the work once more. The conditions: the failure is no
-- `IdempotencyError` and not one that Fastify raises, a code that says to retry comes with a
-- status of 500 or more, the claim is open when the work has failed, and the statement that
-- settles it does not fail.
pub refusal_settled :
    (around : ℕ → Surroundings) (s : Settlement) (q : KeyedRequest) (code : ℕ)
    (work : Option ClaimKey → Db → Result Body × Db) (db : Db) (claims : List ClaimRecord)
    (e : Failure) (db' : Db) (row : ClaimRecord)
    → idempotency_key_from q.header ≡ a_key code
    → claim_or_replay around (params_of q code) db.claims ≡ (ok none, claims)
    → work (some (params_of q code).id) (record db { claims = claims }) ≡ (err e, db')
    → is_idempotency_error e ≡ false
    → ¬ FromFramework e
    → (is_retryable_code (error_handler e q.request_id).body.code ≡ false)
      ⊎ (500 ≤ (error_handler e q.request_id).status)
    → s.fails ≡ false
    → IsKeyed db'.claims
    → find_record (params_of q code).id db'.claims ≡ some row
    → row.status ≡ in_progress
    → let after = keyed_route around s q work db in
      let final = is_final_answer (error_of (error_handler e q.request_id)) in
      (after.0 ≡ error_response e q.request_id)
      × (((final ≡ true)
            × ((r : ClaimRecord) × (find_record (params_of q code).id after.1.claims ≡ some r)
                × (r.status ≡ completed)
                × (after.0 ≡ to_response r)))
          ⊎ ((final ≡ false) × (find_record (params_of q code).id after.1.claims ≡ none)))
refusal_settled around s q code work db claims e db' row keyed won failed other raised retry settles
      keys found open_row =
    elim (Option-cases (replayable_failure e q.request_id)) [
      | inr (reply, stored) ↦
          let same = (replayable_failure-error_handler e q.request_id reply stored).0 in
          let kept =
            failure_stored around s q code work db keyed claims e db' row won failed other settles
              found open_row (stored ∙ ap (λ r. some r) (sym same)) in
          (
            (failure_reply around s q code work db keyed claims e db' row won failed other settles
                found open_row),
            inl (stored_final e q.request_id reply stored retry, (kept.0, kept.1, kept.2, kept.4)),
          )
      | inl unstored ↦
          let free =
            failure_released around s q code work db keyed claims e db' row won failed other settles
              found open_row unstored keys in
          (free.1, inr (unstored_final e q.request_id unstored raised, free.0))
    ]
