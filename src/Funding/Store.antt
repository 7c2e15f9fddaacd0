-- ===== src/Funding/Store.antt =====
-- `PostgresLedgerStore`, src/modules/ledger/ledger-repository.ts: the treasury of a currency, and
-- the posting with what commits beside it.
use pulse_ledger.Base.{
  ℕ, suc, ◌&&◌, Bool, true, false, not, Option, none, some, List, [], ◌∷◌, map, ◌==◌, find,
}
use pulse_ledger.Errors.{database_error, connection_failure, Result, ok, err, ◌>>=◌, ◌>>◌, throw_if}
use pulse_ledger.Ledger.Tables.{Account, Transaction, Ledger}
use pulse_ledger.Ledger.Posting.{PostingEntry, PostingInput}
use pulse_ledger.Ledger.Post.{EntryArg, PostArgs, post_ledger_transaction}
use pulse_ledger.Responses.{Body}
use pulse_ledger.Idempotency.Records.{ClaimKey, complete_claim}
use pulse_ledger.Idempotency.Claim.{in_progress_failure}
use pulse_ledger.Outbox.Events.{PayloadEntry, posting_payload, outbox_current_event_version}
use pulse_ledger.Outbox.Repository.{insert}
use pulse_ledger.Ports.Transaction.{
  Faults, committed, refused, answer_lost, returned, Outcome, with_transaction,
}
use pulse_ledger.Database.{Db}

-- `findTreasury`
unfoldable pub find_treasury : ℕ → Ledger → Option Account
find_treasury currency l =
    find (λ (a : Account). a.currency == currency && a.is_treasury) l.accounts

-- What `randomUUID()`, the columns' defaults and `now()` give to one posting; an entry's
-- identifier by its position.
pub record PostingFresh : Type 0 where
  pub entry_id : ℕ → ℕ
  pub event_id : ℕ
  pub now : ℕ

unfoldable pub entry_args : (ℕ → ℕ) → ℕ → List PostingEntry → List EntryArg
entry_args ids position [] = []
entry_args ids position (e ∷ es) =
    record {
      id = ids position;
      account_id = e.account_id;
      direction = e.direction;
      amount = e.amount;
    }
    ∷ entry_args ids (suc position) es

abbrev pub args_of : PostingInput → PostingFresh → PostArgs
args_of input fresh = record {
  id = input.id;
  type = input.type;
  reference = input.reference;
  entries = entry_args fresh.entry_id 0 input.entries;
  now = fresh.now;
}

-- `postWith`
unfoldable pub post_with : PostingInput → PostingFresh → Ledger → Result (Transaction × Ledger)
post_with input fresh l = post_ledger_transaction (args_of input fresh) l

-- `PostingIdempotency`
pub record PostingIdempotency : Type 0 where
  pub id : ClaimKey
  pub response_body : Transaction → Body
  pub response_status : ℕ

abbrev pub payload_entries : List PostingEntry → List PayloadEntry
payload_entries =
    map
      (λ e. record { account_id = e.account_id; amount_minor = e.amount; direction = e.direction })

-- The event of a posting, if the store was built with an outbox.
unfoldable pub insert_posting_event : Bool → PostingInput → Transaction → PostingFresh → Db → Db
insert_posting_event false input posted fresh db = db
insert_posting_event true input posted fresh db = record db {
  outbox =
      insert fresh.event_id fresh.now
        (record {
          aggregate_id = posted.id;
          aggregate_type = input.type;
          event_version = outbox_current_event_version;
          payload = posting_payload posted (payload_entries input.entries);
        })
        db.outbox;
}

-- The completion of the request's claim: exactly one row must change.
unfoldable pub complete_posting_claim : Option PostingIdempotency → Transaction → ℕ → Db → Result Db
complete_posting_claim none posted now db = ok db
complete_posting_claim (some i) posted now db =
    let (changed, claims) =
      complete_claim i.id i.response_status (i.response_body posted) now db.claims in
    throw_if (not (changed == 1)) in_progress_failure >> ok (record db { claims = claims })

-- The work that `post` runs in a transaction.
unfoldable pub posting_work :
    Bool → PostingInput → Option PostingIdempotency → PostingFresh → Db → Result (Transaction × Db)
posting_work with_outbox input idempotency fresh db = do
  (posted, ledger) ← post_with input fresh db.ledger
  completed ←
      complete_posting_claim idempotency posted fresh.now
        (insert_posting_event with_outbox input posted fresh (record db { ledger = ledger }))
  ok (posted, completed)

-- A statement outside a transaction: it takes effect as a whole or not at all, and its answer can
-- be lost.
unfoldable pub run_statement : Faults → Result (Transaction × Db) → Db → Outcome Transaction Db
run_statement f (err e) db = record { result = err e; database = db; connection = returned }
run_statement f (ok (posted, after)) db = elim f.commit [
  | committed ↦ record { result = ok posted; database = after; connection = returned }
  | refused e ↦ record { result = err (database_error e); database = db; connection = returned }
  | answer_lost ↦ record {
    result = err (database_error connection_failure);
    database = after;
    connection = returned;
  }
]

-- `post`: without an outbox and a claim it is the bare statement, whose work is the same.
unfoldable pub store_post :
    Bool
    → Faults
    → PostingInput
    → Option PostingIdempotency
    → PostingFresh
    → Db
    → Outcome Transaction Db
unfolding run_statement posting_work
store_post false f input none fresh db = run_statement f (posting_work false input none fresh db) db
store_post with_outbox f input idempotency fresh db =
    with_transaction f (posting_work with_outbox input idempotency fresh) db
