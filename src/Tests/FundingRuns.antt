-- ===== src/Tests/FundingRuns.antt =====
-- A funding of the sample's bank, under a key.
use pulse_ledger.Base.{◌+◌, ◌≡◌, ◌≢◌, refl, true, some, [], ◌∷◌}
use pulse_ledger.Base.Int.{pos, negsuc, ◌+ℤ◌, ◌-ℤ◌}
use pulse_ledger.Errors.{ok, err}
use pulse_ledger.Ledger.Money.{from_minor, in_supported_range}
use pulse_ledger.Ledger.Tables.{TransactionType, Transaction, find_account}
use pulse_ledger.Ledger.Posting.{validate_posting}
use pulse_ledger.Ledger.Post.{post_ledger_transaction, check_posting, apply_entries, delta}
use pulse_ledger.Responses.{funding_body}
use pulse_ledger.Idempotency.Records.{
  ClaimKey, ClaimRecord, completed, new_claim, find_record, complete_claim,
}
use pulse_ledger.Idempotency.Stable.{release_row, execute_all}
use pulse_ledger.Outbox.Repository.{insert}
use pulse_ledger.Ports.Transaction.{no_faults, with_transaction}
use pulse_ledger.Database.{Db}
use pulse_ledger.Funding.Store.{
  find_treasury, PostingFresh, PostingIdempotency, entry_args, post_with, insert_posting_event,
  complete_posting_claim, posting_work, store_post,
}
use pulse_ledger.Funding.Service.{
  FundAccountInput, post, funding_parties, funding_posting, to_result, fund_account,
}
use pulse_ledger.Funding.Effect.{fund_account_moves}
use pulse_ledger.Funding.Once.{posting_once}
use pulse_ledger.Tests.Sample.{account, treasury, funded}
use pulse_ledger.Tests.LedgerRuns.{funded-IsKeyed}

abbrev funding_key : ClaimKey
funding_key = record { principal_id = 1; key = 4; operation = TransactionType.funding }

abbrev bank : Db
bank = record { ledger = funded; claims = new_claim funding_key 55 6 ∷ []; outbox = [] }

abbrev fresh : PostingFresh
fresh = record { entry_id = λ n. 900 + n; event_id = 903; now = 9 }

abbrev input : FundAccountInput
input = record { account_id = 2; amount_minor = b'2' ∷ b'5' ∷ b'0' ∷ [] }

abbrev row : Transaction
row = record {
  id = 90;
  type = TransactionType.funding;
  reference = record { prefix = TransactionType.funding; of = 90 };
  currency = 1;
  created_at = 9;
}

parties : funding_parties input funded ≡ ok (250, account 2 200 (pos 0), treasury (negsuc 999))
unfolding funding_parties from_minor in_supported_range find_treasury
parties = refl

ran :
    (fund_account true no_faults (λ db. db) fresh 90 input (some funding_key) bank).result
    ≡ ok (to_result 250 2 row)
unfolding fund_account funding_parties from_minor in_supported_range find_treasury post
    validate_posting store_post with_transaction posting_work post_with entry_args
    post_ledger_transaction check_posting apply_entries delta ◌+ℤ◌ ◌-ℤ◌ complete_posting_claim
    complete_claim insert_posting_event insert
ran = refl

fund_account_moves_example :
    ((to_result 250 2 row).amount_minor ≡ 250)
    × ((to_result 250 2 row).funded_account_id ≡ input.account_id)
    × (find_account 2
          (fund_account true no_faults
            (λ db. db)
            fresh
            90
            input
            (some funding_key)
            bank).database.ledger.accounts
        ≡ some (account 2 200 (pos 0 +ℤ pos 250)))
    × (find_account 9
          (fund_account true no_faults
            (λ db. db)
            fresh
            90
            input
            (some funding_key)
            bank).database.ledger.accounts
        ≡ some (treasury (negsuc 999 -ℤ pos 250)))
fund_account_moves_example =
    fund_account_moves true no_faults (λ db. db) fresh 90 input (some funding_key) bank
      (to_result 250 2 row) 250 (account 2 200 (pos 0)) (treasury (negsuc 999)) parties ran
      (account 2 200 (pos 0)) (treasury (negsuc 999)) funded-IsKeyed refl refl

abbrev key_of_funding : PostingIdempotency
key_of_funding = record {
  id = funding_key;
  response_body = λ posted. funding_body (to_result 250 2 posted);
  response_status = 201;
}

abbrev after : Db
after =
    elim (posting_work true (funding_posting 90 250 (account 2 200 (pos 0)) (treasury (negsuc 999)))
      (some key_of_funding) fresh bank) [ ok (t, db) ↦ db | err e ↦ bank ]

posted :
    posting_work true
      (funding_posting 90 250 (account 2 200 (pos 0)) (treasury (negsuc 999)))
      (some key_of_funding)
      fresh
      bank
    ≡ ok (row, after)
unfolding posting_work post_with entry_args post_ledger_transaction check_posting apply_entries
    delta ◌+ℤ◌ ◌-ℤ◌ complete_posting_claim complete_claim insert_posting_event insert
posted = refl

-- The key's release is tried after the funding has committed.
posting_once_example :
    ((record' : ClaimRecord) × (find_record funding_key
          (execute_all (release_row funding_key ∷ []) after.claims)
        ≡ some record')
      × (record'.status ≡ completed)
      × (record'.response_body ≡ some (funding_body (to_result 250 2 row))))
    × ((t' : Transaction) (last : Db)
        → posting_work true
            (funding_posting 91 250 (account 2 200 (pos 0)) (treasury (negsuc 999)))
            (some key_of_funding)
            fresh
            (record after { claims = execute_all (release_row funding_key ∷ []) after.claims })
          ≢ ok (t', last))
posting_once_example =
    posting_once true (funding_posting 90 250 (account 2 200 (pos 0)) (treasury (negsuc 999)))
      key_of_funding fresh bank row after posted (refl, tt) true
      (funding_posting 91 250 (account 2 200 (pos 0)) (treasury (negsuc 999))) key_of_funding fresh
      (release_row funding_key ∷ [])
      (record after { claims = execute_all (release_row funding_key ∷ []) after.claims }) refl refl
