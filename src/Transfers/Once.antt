-- ===== src/Transfers/Once.antt =====
-- One idempotency key, one transfer: the transaction that moves the money is the one that
-- completes the key's claim.
use pulse_ledger.Base.{
  ℕ, ◌≡◌, ◌≢◌, refl, Bool, true, false, some, List, [], ◌∷◌, ◌++◌, arith, count_rows,
}
use pulse_ledger.Errors.{ok}
use pulse_ledger.Ledger.Tables.{Transfer}
use pulse_ledger.Responses.{transfer_body}
use pulse_ledger.Idempotency.Records.{
  ClaimKey, ClaimRecord, completed, is_open, find_record, complete_claim,
}
use pulse_ledger.Idempotency.Keys.{IsKeyed, settled_no_open, complete_claim-IsKeyed}
use pulse_ledger.Idempotency.Stable.{
  Statement, execute_all, execute_all_stable, execute_all-IsKeyed,
}
use pulse_ledger.Idempotency.Settled.{find_settled}
use pulse_ledger.Database.{Db}
use pulse_ledger.Transfers.Repository.{Fresh, complete_transfer_claim, insert_event}
use pulse_ledger.Transfers.Service.{TransferRequest, claim_of, transfer_work}
use pulse_ledger.Transfers.Work.{Transferred, transfer_work-Transferred}

-- A claim that is completed changed exactly one row, and kept the other tables.
complete_transfer_claim-ok :
    (k : ClaimKey) (t : Transfer) (now : ℕ) (db db' : Db)
    → complete_transfer_claim (some k) t now db ≡ ok db'
    → (count_rows (is_open k) db.claims ≡ 1)
      × (db'.claims ≡ (complete_claim k 201 (transfer_body t) now db.claims).1)
      × (db'.outbox ≡ db.outbox)
unfolding complete_transfer_claim complete_claim
complete_transfer_claim-ok k t now db db' h = (ground arith, ground arith, ground arith)

insert_event-claims :
    (ob : Bool) (t : Transfer) (fresh : Fresh) (db : Db)
    → (insert_event ob t fresh db).claims ≡ db.claims
unfolding insert_event
insert_event-claims true t fresh db = refl
insert_event-claims false t fresh db = refl

module _ (ob : Bool) (r : TransferRequest) (fresh : Fresh) (k : ClaimKey) (db : Db) (t : Transfer)
    (db' : Db) (claimed : claim_of r ≡ some k) (h : transfer_work ob r fresh db ≡ ok (t, db')) where
  done : Transferred ob r fresh db t db'
  done = transfer_work-Transferred ob r fresh db t db' h

  pub completion :
      (count_rows (is_open k) db.claims ≡ 1)
      × (db'.claims ≡ (complete_claim k 201 (transfer_body t) fresh.now db.claims).1)
  completion =
      let stored : Db = record db {
        ledger = record done.posted { transfers = done.posted.transfers ++ t ∷ [] };
      } in
      let (one, claims, outbox) =
        complete_transfer_claim-ok k t fresh.now (insert_event ob t fresh stored) db'
          (rw (← claimed) done.completed) in
      let same = insert_event-claims ob t fresh stored in (rw same at one, rw same at claims)

module _ (ob : Bool) (r : TransferRequest) (fresh : Fresh) (k : ClaimKey) (db : Db) (t : Transfer)
    (db' : Db) (claimed : claim_of r ≡ some k) (h : transfer_work ob r fresh db ≡ ok (t, db')) where
  -- A transfer under an idempotency key commits together with the response of that key: the claim
  -- was open, and afterwards the key's record is completed, with status 201 and this transfer.
  pub transfer_work_completes :
      IsKeyed db.claims
      → (count_rows (is_open k) db.claims ≡ 1)
        × ((record' : ClaimRecord) × (find_record k db'.claims ≡ some record')
            × (record'.status ≡ completed)
            × (record'.response_status ≡ some 201)
            × (record'.response_body ≡ some (transfer_body t)))
  transfer_work_completes keyed = (
    (completion ob r fresh k db t db' claimed h).0,
    rw (completion ob r fresh k db t db' claimed h).1 (
        find_settled k 201 (transfer_body t) fresh.now db.claims keyed
          (completion ob r fresh k db t db' claimed h).0),
  )

  -- Once a transfer has committed under a key, no transaction of any later request under that key
  -- commits a transfer, whatever the sessions' statements on the idempotency records in between
  -- (the retention sweep aside), and whatever else the database holds by then.
  pub transfer_once :
      (ob' : Bool) (r' : TransferRequest) (fresh' : Fresh) (ss : List Statement) (later : Db)
      → IsKeyed db.claims
      → claim_of r' ≡ some k
      → later.claims ≡ execute_all ss db'.claims
      → (t' : Transfer) (last : Db) → transfer_work ob' r' fresh' later ≢ ok (t', last)
  transfer_once ob' r' fresh' ss later keyed claimed' same t' last h' =
      let (opened, (row, found, settled, status, body)) = transfer_work_completes keyed in
      let keyed' : IsKeyed db'.claims =
        rw (completion ob r fresh k db t db' claimed h).1
          (complete_claim-IsKeyed k 201 (transfer_body t) fresh.now db.claims keyed) in
      let closed : count_rows (is_open k) later.claims ≡ 0 = rw same (
        settled_no_open k (execute_all ss db'.claims) row (execute_all-IsKeyed ss db'.claims keyed')
          (execute_all_stable ss k row db'.claims settled found) settled) in
      omega (arith, closed, (completion ob' r' fresh' k later t' last claimed' h').0)
