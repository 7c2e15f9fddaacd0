-- ===== src/Funding/Once.antt =====
-- One idempotency key, one funding.
use pulse_ledger.Base.{ℕ, ◌≡◌, ◌≢◌, refl, Bool, true, false, some, List, arith, count_rows}
use pulse_ledger.Errors.{ok}
use pulse_ledger.Ledger.Tables.{Transaction}
use pulse_ledger.Ledger.Posting.{PostingInput}
use pulse_ledger.Idempotency.Records.{ClaimRecord, completed, is_open, find_record, complete_claim}
use pulse_ledger.Idempotency.Keys.{IsKeyed, settled_no_open, complete_claim-IsKeyed}
use pulse_ledger.Idempotency.Stable.{
  Statement, execute_all, execute_all_stable, execute_all-IsKeyed,
}
use pulse_ledger.Idempotency.Settled.{find_settled}
use pulse_ledger.Database.{Db}
use pulse_ledger.Funding.Store.{
  PostingFresh, PostingIdempotency, complete_posting_claim, insert_posting_event, posting_work,
}
use pulse_ledger.Funding.Work.{posting_work-Committed}

complete_posting_claim-ok :
    (i : PostingIdempotency) (t : Transaction) (now : ℕ) (db db' : Db)
    → complete_posting_claim (some i) t now db ≡ ok db'
    → (count_rows (is_open i.id) db.claims ≡ 1)
      × (db'.claims ≡ (complete_claim i.id i.response_status (i.response_body t) now db.claims).1)
unfolding complete_posting_claim complete_claim
complete_posting_claim-ok i t now db db' h = (ground arith, ground arith)

insert_posting_event-claims :
    (ob : Bool) (input : PostingInput) (t : Transaction) (fresh : PostingFresh) (db : Db)
    → (insert_posting_event ob input t fresh db).claims ≡ db.claims
unfolding insert_posting_event
insert_posting_event-claims true input t fresh db = refl
insert_posting_event-claims false input t fresh db = refl

module _ (ob : Bool) (input : PostingInput) (i : PostingIdempotency) (fresh : PostingFresh)
    (db : Db) (t : Transaction) (db' : Db)
    (h : posting_work ob input (some i) fresh db ≡ ok (t, db')) where
  completion :
      (count_rows (is_open i.id) db.claims ≡ 1)
      × (db'.claims
          ≡ (complete_claim i.id i.response_status (i.response_body t) fresh.now db.claims).1)
  completion =
      let c = posting_work-Committed ob input (some i) fresh db t db' h in
      let (one, claims) = complete_posting_claim-ok i t fresh.now _ db' c.completed in
      let same = insert_posting_event-claims ob input t fresh (record db { ledger = c.posted }) in
      (rw same at one, rw same at claims)

module _ (ob : Bool) (input : PostingInput) (i : PostingIdempotency) (fresh : PostingFresh)
    (db : Db) (t : Transaction) (db' : Db)
    (h : posting_work ob input (some i) fresh db ≡ ok (t, db')) where
  -- Once a posting has committed under a key, no posting of any later request under that key
  -- commits, whatever the sessions' statements on the idempotency records in between (the
  -- retention sweep aside), and whatever else the database holds by then; and the key's record is
  -- completed with the response that the first posting gave.
  pub posting_once :
      IsKeyed db.claims
      → (ob' : Bool) (input' : PostingInput) (i' : PostingIdempotency) (fresh' : PostingFresh)
        (ss : List Statement) (later : Db)
      → i'.id ≡ i.id
      → later.claims ≡ execute_all ss db'.claims
      → ((record' : ClaimRecord) × (find_record i.id later.claims ≡ some record')
          × (record'.status ≡ completed)
          × (record'.response_body ≡ some (i.response_body t)))
        × ((t' : Transaction) (last : Db)
            → posting_work ob' input' (some i') fresh' later ≢ ok (t', last))
  posting_once keyed ob' input' i' fresh' ss later same_id same =
      let (one, claims) = completion ob input i fresh db t db' h in
      let (row, found, settled, status, body) =
        find_settled i.id i.response_status (i.response_body t) fresh.now db.claims keyed one in
      let found' : find_record i.id db'.claims ≡ some row = rw claims found in
      let keyed' : IsKeyed db'.claims = rw claims (
        complete_claim-IsKeyed i.id i.response_status (i.response_body t) fresh.now db.claims
          keyed) in
      let kept : find_record i.id (execute_all ss db'.claims) ≡ some row =
        execute_all_stable ss i.id row db'.claims settled found' in
      let closed : count_rows (is_open i.id) later.claims ≡ 0 = rw same (
        settled_no_open i.id (execute_all ss db'.claims) row
          (execute_all-IsKeyed ss db'.claims keyed') kept settled) in
      (
        (row, rw same kept, settled, body),
        λ t' last h'.
            omega
              (arith, closed, rw same_id at (completion ob' input' i' fresh' later t' last h').0),
      )
