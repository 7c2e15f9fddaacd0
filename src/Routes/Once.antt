-- ===== src/Routes/Once.antt =====
-- One request is one payment: `POST /v1/transfers` under one key, asked twice.
use pulse_ledger.Base.{ℕ, ◌≡◌, refl, ap, ◌∙◌, none, some, List, arith, ==_refl}
use pulse_ledger.Errors.{ok}
use pulse_ledger.Ledger.Tables.{Transfer, TransactionType}
use pulse_ledger.Responses.{transfer_body, StoredResponse}
use pulse_ledger.Idempotency.Records.{ClaimKey, ClaimRecord, to_response, find_record}
use pulse_ledger.Idempotency.Stable.{Statement, execute_all, execute_all_stable}
use pulse_ledger.Idempotency.Claim.{Surroundings, claim_or_replay}
use pulse_ledger.Database.{Db}
use pulse_ledger.Transfers.Domain.{CreateTransferInput}
use pulse_ledger.Transfers.Service.{TransferMetrics, TransferServiceOptions, Attempt, create}
use pulse_ledger.Transfers.Committed.{IsHeld, create-IsPaid}
use pulse_ledger.Routes.Flow.{
  Settlement, KeyedRequest, idempotency_key_from, a_key, params_of, keyed_route,
}
use pulse_ledger.Routes.Money.{transfer_route}
use pulse_ledger.Routes.Replay.{route_replays}

-- The key of a transfer request whose header reads as `code`.
abbrev pub transfer_key : KeyedRequest → ℕ → ClaimKey
transfer_key q code = record {
  principal_id = q.principal_id;
  key = code;
  operation = TransactionType.transfer;
}

abbrev pub receipt : Transfer → StoredResponse
receipt t = record { body = some (transfer_body t); status = some 201 }

-- A request that wins its key and makes its transfer.
module _ (o : TransferServiceOptions) (attempts : ℕ → Attempt) (transfer_id : ℕ)
    (around : ℕ → Surroundings) (s : Settlement) (q : KeyedRequest) (code : ℕ)
    (input : CreateTransferInput) (m : TransferMetrics) (db : Db) (claims : List ClaimRecord)
    (t : Transfer) (reads : idempotency_key_from q.header ≡ a_key code)
    (won : claim_or_replay around
        (params_of (record q { operation = TransactionType.transfer }) code)
        db.claims
      ≡ (ok none, claims))
    (made : (create o attempts transfer_id input q.principal_id
        (some code)
        m
        (record db { claims = claims })).result
      ≡ ok t) where
  first_response : transfer_route o attempts transfer_id around s q input m db ≡ (
    receipt t,
    (create o attempts transfer_id input q.principal_id
        (some code)
        m
        (record db { claims = claims })).database,
  )
  unfolding transfer_route keyed_route
  first_response = ground (arith, reads, won, made)

  -- A payment is made once. If a transfer request wins its key and its transfer is made, the answer
  -- is status 201 with the transfer; and whenever the same principal sends the same request again
  -- under the same key, to any instance, the answer is the very same one, and nothing runs: the
  -- ledger and the outbox stay. In between and meanwhile, other sessions may send any statements of
  -- the service to the idempotency records, the retention sweep aside, and do anything to the
  -- rest; while the first request runs, they leave the records with distinct keys and do not give
  -- its key to a request with another fingerprint.
  pub payment_repeated :
      (o' : TransferServiceOptions) (attempts' : ℕ → Attempt) (transfer_id' : ℕ)
      (around' : ℕ → Surroundings) (s' : Settlement) (q' : KeyedRequest)
      (input' : CreateTransferInput) (m' : TransferMetrics) (ss ss' : List Statement) (later : Db)
      → IsHeld (transfer_key q code) q.fingerprint (record db { claims = claims })
      → ((n : ℕ) (d : Db)
          → IsHeld (transfer_key q code) q.fingerprint d
          → IsHeld (transfer_key q code) q.fingerprint ((attempts n).interference d))
      → idempotency_key_from q'.header ≡ a_key code
      → q'.principal_id ≡ q.principal_id
      → q'.fingerprint ≡ q.fingerprint
      → later.claims
        ≡ execute_all ss (transfer_route o attempts transfer_id around s q input m db).1.claims
      → (around' 2).after_insert later.claims ≡ execute_all ss' later.claims
      → ((transfer_route o attempts transfer_id around s q input m db).0 ≡ receipt t)
        × (transfer_route o' attempts' transfer_id' around' s' q' input' m' later
            ≡ (receipt t, record later { claims = execute_all ss' later.claims }))
  unfolding transfer_route
  payment_repeated o' attempts' transfer_id' around' s' q' input' m' ss ss' later held others reads'
        same_principal same_body after meanwhile =
      let (row, paid) =
        create-IsPaid o attempts transfer_id input q.principal_id code q.fingerprint m
          (record db { claims = claims }) t others held made in
      let first_claims = ap (λ r. r.1.claims) first_response in
      let there = execute_all_stable ss (transfer_key q code) row _ paid.finished paid.found in
      let response : to_response row ≡ receipt t = rw (paid.body, paid.status) refl in
      let found : find_record (transfer_key q' code) later.claims ≡ some row =
        rw (same_principal, after, first_claims) there in
      (
        ap (λ r. r.0) first_response,
        route_replays around' s' (record q' { operation = TransactionType.transfer }) code _ later
              reads' ss' row meanwhile found paid.finished
              (rw (paid.fingerprint_kept, same_body) (==_refl q.fingerprint))
            ∙ ap (λ z. (z, record later { claims = execute_all ss' later.claims })) response,
      )
