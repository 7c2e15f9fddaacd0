-- ===== src/Routes/Replay.antt =====
-- A retried request is told what the first one was told.
use pulse_ledger.Base.{
  ℕ, ◌≤◌, ◌<◌, ◌≡◌, refl, not, true, false, Option, none, some, List, [], ◌∷◌, arith, ◌==◌,
  where_rows, Bool-cases, inl, inr,
}
use pulse_ledger.Errors.{
  Failure, Result, ok, err, KnownError, known_error, replayable_failure, error_handler,
}
use pulse_ledger.Errors.Replay.{replayable_failure-refusal}
use pulse_ledger.Responses.{Body, error_body}
use pulse_ledger.Idempotency.Records.{
  ClaimKey, ClaimRecord, completed, in_progress, same_key, settle, to_response, find_record,
  insert_claim, complete_claim, release_claim, is_open,
}
use pulse_ledger.Idempotency.Keys.{same_key_eq, has_key, IsKeyed, has_key-where, no_key_find}
use pulse_ledger.Idempotency.Stable.{Statement, execute_all, execute_all_stable}
use pulse_ledger.Idempotency.Claim.{
  ClaimParams, Surroundings, conflict_failure, replay, try_claim, claim_loop, claim,
  claim_or_replay, settle_failure,
}
use pulse_ledger.Database.{Db}
use pulse_ledger.Routes.Flow.{
  KeyedRequest, Settlement, idempotency_key_from, a_key, is_idempotency_error, params_of,
  error_response, keyed_route,
}

found-has_key :
    (k : ClaimKey) (rows : List ClaimRecord) (r : ClaimRecord)
    → find_record k rows ≡ some r
    → has_key k rows ≡ true
unfolding find_record
found-has_key k [] r h = cc
found-has_key k (x ∷ rows) r h = ground (arith, found-has_key k rows r)

-- The claim of a completed key, if other sessions run nothing but statements of the service on the
-- records after its INSERT: with the same fingerprint the stored response is replayed, and with
-- another it is a conflict.
module _ (s : ℕ → Surroundings) (p : ClaimParams) (ss : List Statement) (rows : List ClaimRecord)
    (r : ClaimRecord) (around : (s 2).after_insert rows ≡ execute_all ss rows)
    (found : find_record p.id rows ≡ some r) (done : r.status ≡ completed) where
  inserted : insert_claim p.id p.fingerprint (s 2).now rows ≡ (none, rows)
  unfolding insert_claim
  inserted = rw (found-has_key p.id rows r found) refl

  later : find_record p.id (execute_all ss rows) ≡ some r
  later = execute_all_stable ss p.id r rows done found

  try_replays :
      (r.request_fingerprint == p.fingerprint) ≡ true
      → try_claim p (s 2) rows ≡ (ok (some (replay r (to_response r))), execute_all ss rows)
  unfolding try_claim
  try_replays same = ground (arith, inserted, around, later, same, done)

  try_conflicts :
      (r.request_fingerprint == p.fingerprint) ≡ false
      → try_claim p (s 2) rows ≡ (err conflict_failure, execute_all ss rows)
  unfolding try_claim
  try_conflicts other = ground (arith, inserted, around, later, other, done)

  claim_replays :
      (r.request_fingerprint == p.fingerprint) ≡ true
      → claim_or_replay s p rows ≡ (ok (some (to_response r)), execute_all ss rows)
  unfolding claim_or_replay claim claim_loop
  claim_replays same = ground (arith, try_replays same)

  claim_conflicts :
      (r.request_fingerprint == p.fingerprint) ≡ false
      → claim_or_replay s p rows ≡ (err conflict_failure, execute_all ss rows)
  unfolding claim_or_replay claim claim_loop
  claim_conflicts other = ground (arith, try_conflicts other)

find-settle :
    (k : ClaimKey) (status : ℕ) (body : Body) (now : ℕ) (rows : List ClaimRecord)
    (row : ClaimRecord)
    → find_record k rows ≡ some row
    → row.status ≡ in_progress
    → find_record k (complete_claim k status body now rows).1 ≡ some (settle status body now row)
unfolding find_record complete_claim
find-settle k status body now [] row h o = cc
find-settle k status body now (x ∷ rows) row h o = elim (Bool-cases (same_key x.id k)) [
  | inl y ↦ ground arith
  | inr n ↦ ground (arith, find-settle k status body now rows row (rw n at h) o)
]

find-release :
    (k : ClaimKey) (rows : List ClaimRecord) (row : ClaimRecord)
    → IsKeyed rows
    → find_record k rows ≡ some row
    → row.status ≡ in_progress
    → find_record k (release_claim k rows) ≡ none
unfolding find_record release_claim
find-release k [] row keys h o = refl
find-release k (x ∷ rows) row (n, keys) h o = elim (Bool-cases (same_key x.id k)) [
  | inl y ↦
      let same : x.id ≡ k = same_key_eq x.id k y in
      let gone : has_key k rows ≡ false = rw same at n in
      ground (
        arith,
        y,
        no_key_find k (where_rows (λ r. not (is_open k r)) rows)
            (has_key-where k (λ r. not (is_open k r)) rows gone),
      )
  | inr m ↦ ground (arith, find-release k rows row keys (rw m at h) o)
]

module _ (around : ℕ → Surroundings) (s : Settlement) (q : KeyedRequest) (code : ℕ)
    (work : Option ClaimKey → Db → Result Body × Db) (db : Db)
    (keyed : idempotency_key_from q.header ≡ a_key code) where
  -- A request under a completed key whose body has the fingerprint of the first gets the stored
  -- response, and runs nothing: the ledger and the outbox stay, and the records change only by
  -- the statements that other sessions run meanwhile.
  pub route_replays :
      (ss : List Statement) (r : ClaimRecord)
      → (around 2).after_insert db.claims ≡ execute_all ss db.claims
      → find_record (params_of q code).id db.claims ≡ some r
      → r.status ≡ completed
      → (r.request_fingerprint == q.fingerprint) ≡ true
      → keyed_route around s q work db
        ≡ (to_response r, record db { claims = execute_all ss db.claims })
  unfolding keyed_route
  route_replays ss r others found done same =
      ground (
        arith,
        keyed,
        claim_replays around (params_of q code) ss db.claims r others found done same,
      )

  -- A request under a completed key with another body is refused as a conflict, and runs nothing.
  pub route_conflicts :
      (ss : List Statement) (r : ClaimRecord)
      → (around 2).after_insert db.claims ≡ execute_all ss db.claims
      → find_record (params_of q code).id db.claims ≡ some r
      → r.status ≡ completed
      → (r.request_fingerprint == q.fingerprint) ≡ false
      → keyed_route around s q work db ≡ (
        error_response conflict_failure q.request_id,
        record db { claims = execute_all ss db.claims },
      )
  unfolding keyed_route
  route_conflicts ss r others found done other = ground (
    arith,
    keyed,
    claim_conflicts around (params_of q code) ss db.claims r others found done other,
  )

  module _ (claims : List ClaimRecord) (e : Failure) (db' : Db) (row : ClaimRecord)
      (won : claim_or_replay around (params_of q code) db.claims ≡ (ok none, claims))
      (failed : work (some (params_of q code).id) (record db { claims = claims }) ≡ (err e, db'))
      (other : is_idempotency_error e ≡ false) (settles : s.fails ≡ false)
      (found : find_record (params_of q code).id db'.claims ≡ some row)
      (is_open_row : row.status ≡ in_progress) where
    pub failure_reply : (keyed_route around s q work db).0 ≡ error_response e q.request_id
    unfolding keyed_route
    failure_reply = ground (arith, keyed, won, failed)

    -- A failure that is stored: the key's record is completed with the reply that the client gets.
    pub failure_stored :
        replayable_failure e q.request_id ≡ some (error_handler e q.request_id)
        → (r : ClaimRecord) × (find_record
              (params_of q code).id
              (keyed_route around s q work db).1.claims
            ≡ some r)
          × (r.status ≡ completed)
          × (r.request_fingerprint ≡ row.request_fingerprint)
          × ((keyed_route around s q work db).0 ≡ to_response r)
          × ((keyed_route around s q work db).1.ledger ≡ db'.ledger)
    unfolding keyed_route settle_failure
    failure_stored stored =
        let k = (params_of q code).id in
        let reply = error_handler e q.request_id in
        (
          settle reply.status (error_body reply.body) s.now row,
          ground (
            arith,
            keyed,
            won,
            failed,
            stored,
            find-settle k reply.status (error_body reply.body) s.now db'.claims row found
                is_open_row,
          ),
          refl,
          refl,
          ground (arith, keyed, won, failed),
          ground (arith, keyed, won, failed, stored),
        )

    -- A failure that is not stored: the key has no record any more.
    pub failure_released :
        replayable_failure e q.request_id ≡ none
        → IsKeyed db'.claims
        → (find_record (params_of q code).id (keyed_route around s q work db).1.claims ≡ none)
          × ((keyed_route around s q work db).0 ≡ error_response e q.request_id)
    unfolding keyed_route settle_failure
    failure_released unstored keys = (
      ground (
        arith,
        keyed,
        won,
        failed,
        unstored,
        find-release (params_of q code).id db'.claims row keys found is_open_row,
      ),
      ground (arith, keyed, won, failed),
    )

    -- A request that has won the claim of its key and whose work the service refuses on purpose,
    -- with a status in 400–499 and no `IdempotencyError`, leaves a stored answer, if its claim is
    -- still open then and the statement that settles it does not fail: the key's record is
    -- completed with exactly the reply of the error handler that the client gets, under the
    -- fingerprint that it was claimed with, so that a retry is told the same.
    pub route_failure_kept :
        (known : KnownError)
        → known_error e ≡ some known
        → 400 ≤ known.status_code
        → known.status_code < 500
        → (r : ClaimRecord) × (find_record
              (params_of q code).id
              (keyed_route around s q work db).1.claims
            ≡ some r)
          × (r.status ≡ completed)
          × (r.request_fingerprint ≡ row.request_fingerprint)
          × ((keyed_route around s q work db).0 ≡ to_response r)
          × ((keyed_route around s q work db).1.ledger ≡ db'.ledger)
    route_failure_kept known k low high =
        failure_stored (replayable_failure-refusal e q.request_id known k low high)
