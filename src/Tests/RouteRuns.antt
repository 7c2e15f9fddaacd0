-- ===== src/Tests/RouteRuns.antt =====
-- Requests under a key, the accounts and journals that principals see, and the reconciliation of
-- the sample's bank.
use pulse_ledger.Base.{
  ℕ, ◌≡◌, ◌↔◌, ◌⊎◌, inl, inr, refl, true, false, arith, some, none, Option, List, [], ◌∷◌, suc,
  length, All,
}
use pulse_ledger.Base.Int.{pos, negsuc}
use pulse_ledger.Base.Decimal.{Text}
use pulse_ledger.Errors.{
  insufficient_funds, KnownError, Result, ok, err, known_error, domain_error_status, error_handler,
}
use pulse_ledger.Ledger.Tables.{Account, TransactionType, Ledger}
use pulse_ledger.Ledger.Consistent.{IsCached}
use pulse_ledger.Responses.{Body, transfer_body}
use pulse_ledger.Idempotency.Records.{
  ClaimKey, ClaimRecord, completed, new_claim, settle, to_response, find_record, insert_claim,
}
use pulse_ledger.Idempotency.Stable.{execute_all}
use pulse_ledger.Idempotency.Claim.{
  Surroundings, conflict_failure, try_claim, claim_loop, claim, claim_or_replay,
}
use pulse_ledger.Database.{Db}
use pulse_ledger.Transfers.Domain.{funds_failure}
use pulse_ledger.Routes.Flow.{
  KeyedRequest, Settlement, idempotency_key_from, a_key, is_idempotency_error, params_of,
  error_response, keyed_route,
}
use pulse_ledger.Routes.Replay.{route_replays, route_conflicts, route_failure_kept}
use pulse_ledger.Web.Errors.{is_final_answer, is_retryable_code, error_of, FromFramework}
use pulse_ledger.Web.Settled.{refusal_settled}
use pulse_ledger.Pages.{Position, order_by_position}
use pulse_ledger.Pages.Cursor.{Codec, read_pages}
use pulse_ledger.Accounts.Store.{create, new_account, find_owned_by_id}
use pulse_ledger.Funding.Journal.{
  entry_position, entries_of, list_journal_entries, list_journal_entries_complete,
}
use pulse_ledger.Reconciliation.Report.{run}
use pulse_ledger.Reconciliation.Clean.{run_clean}
use pulse_ledger.Tests.Sample.{account, treasury, funded, opened, transfer_key, before, moved}

abbrev pub quiet : ℕ → Surroundings
quiet n = record {
  clock = 10;
  now = 10;
  after_insert = λ rows. rows;
  after_find = λ rows. rows;
  after_reclaim = λ rows. rows;
}

abbrev pub settlement : Settlement
settlement = record { fails = false; now = 11 }

abbrev pub keyed_request : KeyedRequest
keyed_request = record {
  request_id = 31;
  header = some (record { size = 12; code = 7 });
  fingerprint = 77;
  principal_id = 100;
  operation = TransactionType.transfer;
}

read : idempotency_key_from keyed_request.header ≡ a_key 7
unfolding idempotency_key_from
read = refl

abbrev done : ClaimRecord
done = settle 201 (transfer_body moved) 9 (new_claim transfer_key 77 6)

-- Work that must not run.
abbrev no_work : Option ClaimKey → Db → Result Body × Db
no_work k db = (err funds_failure, record db { ledger = opened })

route_replays_example :
    keyed_route quiet settlement keyed_request no_work (record before { claims = done ∷ [] })
    ≡ (to_response done, record before { claims = execute_all [] (done ∷ []) })
unfolding execute_all find_record
route_replays_example =
    route_replays quiet settlement keyed_request 7 no_work (record before { claims = done ∷ [] })
      read [] done refl refl refl refl

route_conflicts_example :
    keyed_route quiet settlement
      (record keyed_request { fingerprint = 78 })
      no_work
      (record before { claims = done ∷ [] })
    ≡ (error_response conflict_failure 31, record before { claims = execute_all [] (done ∷ []) })
unfolding execute_all find_record
route_conflicts_example =
    route_conflicts quiet settlement (record keyed_request { fingerprint = 78 }) 7 no_work
      (record before { claims = done ∷ [] }) read [] done refl refl refl refl

abbrev empty_bank : Db
empty_bank = record before { claims = [] }

-- Work that finds too little money.
abbrev poor_work : Option ClaimKey → Db → Result Body × Db
poor_work k db = (err funds_failure, db)

abbrev claimed : List ClaimRecord
claimed = new_claim transfer_key 77 10 ∷ []

won : claim_or_replay quiet (params_of keyed_request 7) [] ≡ (ok none, claimed)
unfolding claim_or_replay claim claim_loop try_claim insert_claim
won = refl

abbrev poor_known : KnownError
poor_known = record {
  code = insufficient_funds;
  message = "Source account has insufficient funds";
  status_code = 409;
}

stored : known_error funds_failure ≡ some poor_known
unfolding known_error domain_error_status
stored = refl

once : is_retryable_code (error_handler funds_failure 31).body.code ≡ false
unfolding error_handler known_error domain_error_status
once = refl

raised : ¬ FromFramework funds_failure
raised (inl e) = cc
raised (inr (s, e)) = cc

route_failure_kept_example :
    (r : ClaimRecord) × (find_record transfer_key
        (keyed_route quiet settlement keyed_request poor_work empty_bank).1.claims
      ≡ some r)
    × (r.status ≡ completed)
    × (r.request_fingerprint ≡ 77)
    × ((keyed_route quiet settlement keyed_request poor_work empty_bank).0 ≡ to_response r)
    × ((keyed_route quiet settlement keyed_request poor_work empty_bank).1.ledger ≡ funded)
unfolding find_record is_idempotency_error
route_failure_kept_example =
    route_failure_kept quiet settlement keyed_request 7 poor_work empty_bank read claimed
      funds_failure (record before { claims = claimed }) (new_claim transfer_key 77 10) won refl
      refl refl refl refl poor_known stored (omega arith) (omega arith)

refusal_settled_example :
    let after = keyed_route quiet settlement keyed_request poor_work empty_bank in
    let final = is_final_answer (error_of (error_handler funds_failure 31)) in
    (after.0 ≡ error_response funds_failure 31)
    × (((final ≡ true)
          × ((r : ClaimRecord) × (find_record transfer_key after.1.claims ≡ some r)
              × (r.status ≡ completed)
              × (after.0 ≡ to_response r)))
        ⊎ ((final ≡ false) × (find_record transfer_key after.1.claims ≡ none)))
unfolding find_record is_idempotency_error
refusal_settled_example =
    refusal_settled quiet settlement keyed_request 7 poor_work empty_bank claimed funds_failure
      (record before { claims = claimed }) (new_claim transfer_key 77 10) read won refl refl raised
      (inl once) refl (refl, tt) refl refl

-- A cursor in the clear.
abbrev decode_pair : Text → Option Position
decode_pair (a ∷ b ∷ []) = some (a, b)
decode_pair _ = none

pub codec : Codec
codec = record {
  encode = λ p. p.0 ∷ p.1 ∷ [];
  decode = decode_pair;
  decode-encode = λ p. refl;
  encode-nonempty = λ p e. absurd (cc e);
}

found : find_owned_by_id 1 100 funded ≡ some (account 1 100 (pos 1000))
unfolding find_owned_by_id
found = refl

abbrev third : Account
third = new_account 3 1 300 20

abbrev with_third : Ledger
with_third = record funded {
  accounts = account 1 100 (pos 1000) ∷ account 2 200 (pos 0) ∷ treasury (negsuc 999) ∷ third ∷ [];
}

opened_third : create 3 20 1 300 funded ≡ ok (third, with_third)
unfolding create
opened_third = refl

list_journal_entries_complete_example :
    read_pages
      (suc (length (entries_of 1 funded)))
      (λ cursor. list_journal_entries codec 1 100 none cursor funded)
      none
    ≡ ok (order_by_position entry_position (entries_of 1 funded))
list_journal_entries_complete_example =
    list_journal_entries_complete codec 1 100 none funded (account 1 100 (pos 1000)) refl refl refl
      (tt, tt)

run_clean_example : ((run funded).ok ≡ true) ↔ All (IsCached funded.journal) funded.accounts
run_clean_example =
    run_clean funded ((refl, (refl, tt)), ((refl, (refl, tt)), ((refl, (refl, tt)), tt)))
      (refl, (refl, tt))
