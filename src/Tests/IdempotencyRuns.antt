-- ===== src/Tests/IdempotencyRuns.antt =====
-- Claims on the sample key: a stale claim, two requests after it, and a completed record.
use pulse_ledger.Base.{List, ◌≡◌, refl, some, none, [], ◌∷◌, arith}
use pulse_ledger.Errors.{
  Failure, domain_error, ledger_error, account_not_found, ok, ErrorReply, known_error,
  replayable_failure, domain_error_status,
}
use pulse_ledger.Responses.{transfer_body}
use pulse_ledger.Idempotency.Records.{
  ClaimRecord, new_claim, refresh, settle, find_record, insert_claim, reclaim, to_response,
}
use pulse_ledger.Idempotency.Stable.{
  Statement, insert_row, reclaim_row, complete_row, release_row, execute_all, execute_all_stable,
}
use pulse_ledger.Idempotency.Claim.{
  ClaimParams, Surroundings, try_claim, proceed, replay, reclaim_stale,
}
use pulse_ledger.Idempotency.Race.{IsOwn, try_claim_proceed, reclaim_exclusive}
use pulse_ledger.Tests.Sample.{transfer_key, moved}

abbrev done : ClaimRecord
done = settle 201 (transfer_body moved) 9 (new_claim transfer_key 77 6)

abbrev statements : List Statement
statements =
    insert_row transfer_key 88 10
    ∷ reclaim_row transfer_key 77 99999 30000 11
    ∷ complete_row transfer_key 500 (transfer_body moved) 12
    ∷ release_row transfer_key
    ∷ []

execute_all_stable_example :
    find_record transfer_key (execute_all statements (done ∷ [])) ≡ some done
unfolding find_record
execute_all_stable_example = execute_all_stable statements transfer_key done (done ∷ []) refl refl

abbrev params : ClaimParams
params = record { id = transfer_key; fingerprint = 77; stale_timeout = 30000 }

abbrev quiet : Surroundings
quiet = record {
  clock = 40000;
  now = 40001;
  after_insert = λ rows. rows;
  after_find = λ rows. rows;
  after_reclaim = λ rows. rows;
}

reclaimed :
    (try_claim params quiet (new_claim transfer_key 77 6 ∷ [])).0
    ≡ ok (some (proceed (refresh 40001 (new_claim transfer_key 77 6))))
unfolding try_claim reclaim_stale insert_claim reclaim find_record
reclaimed = refl

try_claim_proceed_example : IsOwn params quiet (refresh 40001 (new_claim transfer_key 77 6))
try_claim_proceed_example =
    try_claim_proceed params quiet (new_claim transfer_key 77 6 ∷ [])
      (refresh 40001 (new_claim transfer_key 77 6)) reclaimed

won :
    (reclaim transfer_key 77 40000 30000 40001 (new_claim transfer_key 77 6 ∷ [])).0
    ≡ some (refresh 40001 (new_claim transfer_key 77 6))
unfolding reclaim
won = refl

reclaim_exclusive_example :
    (reclaim transfer_key 77 40500 30000 40502
      (reclaim transfer_key 77 40000 30000 40001 (new_claim transfer_key 77 6 ∷ [])).1).0
    ≡ none
reclaim_exclusive_example =
    reclaim_exclusive transfer_key 77 40000 30000 40001 77 40500 30000 40502
      (new_claim transfer_key 77 6 ∷ []) (refresh 40001 (new_claim transfer_key 77 6)) (refl, tt)
      won (omega arith)

-- Between this request's first read and its reclaim, the stale claim's own request fails and
-- releases it, and a request with the fingerprint 88 takes the key and completes it.
abbrev other : ClaimRecord
other = settle 201 (transfer_body moved) 9 (new_claim transfer_key 88 7)

abbrev raced : Surroundings
raced = record quiet { after_find = λ rows. other ∷ [] }

raced_replays :
    (try_claim params raced (new_claim transfer_key 77 6 ∷ [])).0
    ≡ ok (some (replay other (to_response other)))
unfolding try_claim reclaim_stale insert_claim reclaim find_record
raced_replays = refl

abbrev missing : Failure
missing = domain_error ledger_error account_not_found "Account not found"

abbrev missing_reply : ErrorReply
missing_reply = record {
  status = 404;
  body = record { code = account_not_found; message = "Account not found"; request_id = 1 };
}

stored : replayable_failure missing 1 ≡ some missing_reply
unfolding replayable_failure known_error domain_error_status
stored = refl

-- A record of another principal, and one in progress.
abbrev pub old_records : List ClaimRecord
old_records =
    done
    ∷ new_claim (record transfer_key { principal_id = 900 }) 77 1
    ∷ settle 201 (transfer_body moved) 4
        (new_claim (record transfer_key { principal_id = 901 }) 77 2)
    ∷ []
