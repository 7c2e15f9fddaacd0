-- ===== src/Idempotency/Claim.antt =====
-- `claim`, `tryClaim` (src/modules/idempotency/idempotency-repository.ts) and the service above
-- them (idempotency-service.ts). Between two statements other sessions may change the rows: that
-- is a function on the rows for each gap.
use pulse_ledger.Base.{ℕ, zero, suc, ◌+◌, not, Option, none, some, List, ltb, ◌==◌, if◌then◌else◌}
use pulse_ledger.Errors.{
  Failure, domain_error, idempotency_error, idempotency_conflict, idempotency_in_progress, Result,
  ok, err, ErrorReply,
}
use pulse_ledger.Responses.{error_body, StoredResponse}
use pulse_ledger.Idempotency.Records.{
  ClaimKey, ClaimRecord, in_progress, completed, to_response, find_record, insert_claim, reclaim,
  complete_claim, release_claim,
}

abbrev pub conflict_failure : Failure
conflict_failure =
    domain_error idempotency_error idempotency_conflict
      "Duplicate idempotency key with a different request body"

abbrev pub in_progress_failure : Failure
in_progress_failure =
    domain_error idempotency_error idempotency_in_progress
      "A request with this idempotency key is already in progress"

-- `ClaimResult`
pub data ClaimResult : Type 0 where
  proceed : ClaimRecord → ClaimResult
  replay : ClaimRecord → StoredResponse → ClaimResult

pub record ClaimParams : Type 0 where
  pub id : ClaimKey
  pub fingerprint : ℕ
  pub stale_timeout : ℕ

-- The times of one attempt (the process's clock, and the database's for its statements), and what
-- other sessions do in the gaps after its INSERT, its first SELECT and its UPDATE.
pub record Surroundings : Type 0 where
  pub clock : ℕ
  pub now : ℕ
  pub after_insert : List ClaimRecord → List ClaimRecord
  pub after_find : List ClaimRecord → List ClaimRecord
  pub after_reclaim : List ClaimRecord → List ClaimRecord

abbrev pub Claiming : Type 0
Claiming = Result (Option ClaimResult) × List ClaimRecord

-- What follows a lost reclaim.
unfoldable pub after_lost_reclaim : ClaimParams → List ClaimRecord → Claiming
after_lost_reclaim p rows = elim (find_record p.id rows) [
  | none ↦ (ok none, rows)
  | some current ↦ elim current.status [
    | completed ↦ (ok (some (replay current (to_response current))), rows)
    | in_progress ↦ (err in_progress_failure, rows)
  ]
]

-- What follows the read of an unfinished record.
unfoldable pub reclaim_stale :
    ClaimParams → Surroundings → ClaimRecord → List ClaimRecord → Claiming
unfolding after_lost_reclaim
reclaim_stale p s existing rows =
    if ltb (existing.created_at + p.stale_timeout) s.clock
    then (let r = reclaim p.id p.fingerprint s.clock p.stale_timeout s.now (s.after_find rows) in
        elim r.0 [
          | some row ↦ (ok (some (proceed row)), r.1)
          | none ↦ after_lost_reclaim p (s.after_reclaim r.1)
        ])
    else (err in_progress_failure, rows)

-- `tryClaim`; `none` is a record that disappeared between two statements.
unfoldable pub try_claim : ClaimParams → Surroundings → List ClaimRecord → Claiming
unfolding reclaim_stale
try_claim p s rows =
    let i = insert_claim p.id p.fingerprint s.now rows in
    elim i.0 [
      | some row ↦ (ok (some (proceed row)), i.1)
      | none ↦
          let seen = s.after_insert i.1 in
          elim (find_record p.id seen) [
            | none ↦ (ok none, seen)
            | some existing ↦
                if not (existing.request_fingerprint == p.fingerprint)
                then (err conflict_failure, seen)
                else (elim existing.status [
                  | completed ↦ (ok (some (replay existing (to_response existing))), seen)
                  | in_progress ↦ reclaim_stale p s existing seen
                ])
          ]
    ]

-- The loop of `claim`: the attempts left, and the surroundings of each.
unfoldable pub claim_loop :
    ℕ → (ℕ → Surroundings) → ClaimParams → List ClaimRecord → Result ClaimResult × List ClaimRecord
claim_loop zero s p rows = (err in_progress_failure, rows)
claim_loop (suc left) s p rows =
    let r = try_claim p (s left) rows in
    let again = claim_loop left s p r.1 in
    elim r.0 [
      | err e ↦ (err e, r.1)
      | ok found ↦ elim found [ some c ↦ (ok c, r.1) | none ↦ again ]
    ]

abbrev pub max_claim_attempts : ℕ
max_claim_attempts = 3

-- `claim`
unfoldable pub claim :
    (ℕ → Surroundings) → ClaimParams → List ClaimRecord → Result ClaimResult × List ClaimRecord
unfolding claim_loop
claim = claim_loop max_claim_attempts

-- `claimOrReplay`: nothing to replay means that the caller proceeds.
unfoldable pub claim_or_replay :
    (ℕ → Surroundings)
    → ClaimParams
    → List ClaimRecord
    → Result (Option StoredResponse) × List ClaimRecord
claim_or_replay s p rows =
    let r = claim s p rows in
    elim r.0 [
      | err e ↦ (err e, r.1)
      | ok c ↦ elim c [
        | proceed row ↦ (ok none, r.1)
        | replay row response ↦ (ok (some response), r.1)
      ]
    ]

-- `settleFailure`
unfoldable pub settle_failure :
    ClaimKey → Option ErrorReply → ℕ → List ClaimRecord → List ClaimRecord
settle_failure k (some failure) now rows =
    (complete_claim k failure.status (error_body failure.body) now rows).1
settle_failure k none now rows = release_claim k rows
