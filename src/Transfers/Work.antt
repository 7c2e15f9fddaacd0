-- ===== src/Transfers/Work.antt =====
-- What a transfer's transaction has done when it succeeds.
use pulse_ledger.Base.{
  ℕ, ◌↔◌, ◌≡◌, refl, sym, ◌∙◌, Bool, true, false, Option, none, some, [], ◌∷◌, ◌++◌, arith, ◌==◌,
  same_option, Option-cases, inl, inr,
}
use pulse_ledger.Base.Int.{pos, ◌≤ℤ◌}
use pulse_ledger.Errors.{ok, Result-cases}
use pulse_ledger.Ledger.Tables.{
  Account, is_active, active, Transfer, Transaction, Ledger, find_account,
}
use pulse_ledger.Ledger.Post.{post_ledger_transaction}
use pulse_ledger.Ledger.Accounts.{find_account_id}
use pulse_ledger.Idempotency.Records.{ClaimKey}
use pulse_ledger.Database.{Db}
use pulse_ledger.Transfers.Domain.{deterministic_account_order}
use pulse_ledger.Transfers.Repository.{
  Fresh, PostTransferInput, lock_accounts, post_args, transfer_of, insert_transfer, insert_event,
  complete_transfer_claim, post_transfer,
}
use pulse_ledger.Transfers.Service.{TransferRequest, authorize, claim_of, transfer_work}
use pulse_ledger.Transfers.Lock.{find-lock_accounts}

-- What the locked rows must satisfy.
pub record Authorized (r : TransferRequest) (source destination : Account) : Type 0 where
  pub source_customer : source.is_treasury ≡ false
  pub destination_customer : destination.is_treasury ≡ false
  pub owner : same_option source.owner_principal_id (some r.principal_id) ≡ true
  pub source_active : source.status ≡ active
  pub destination_active : destination.status ≡ active
  pub currency : source.currency ≡ destination.currency
  pub funds : pos r.amount ≤ℤ source.balance_minor

active_of : (a : Account) → is_active a.status ≡ true → a.status ≡ active
active_of a h = ground arith

Authorized-authorize :
    (r : TransferRequest) (source destination : Account)
    → Authorized r source destination
    → authorize r source destination ≡ ok tt
unfolding authorize
Authorized-authorize r source destination a = ground (
  arith, a.source_customer, a.destination_customer, a.owner, a.source_active, a.destination_active,
  a.currency, a.funds,
)

authorize-ok :
    (r : TransferRequest) (source destination : Account)
    → authorize r source destination ≡ ok tt
    → Authorized r source destination
unfolding authorize
authorize-ok r source destination h = record {
  source_customer = ground arith;
  destination_customer = ground arith;
  owner = ground arith;
  source_active = ground arith;
  destination_active = ground arith;
  currency = ground arith;
  funds = ground arith;
}

-- The tests pass exactly if the source belongs to the caller and covers the amount, and both rows
-- are active customer accounts of one currency.
pub authorize-Authorized :
    (r : TransferRequest) (source destination : Account)
    → (authorize r source destination ≡ ok tt) ↔ Authorized r source destination
authorize-Authorized r source destination =
    (authorize-ok r source destination, Authorized-authorize r source destination)

abbrev pub input_of : TransferRequest → Account → PostTransferInput
input_of r source = record {
  amount_minor = r.amount;
  currency = source.currency;
  destination_account_id = r.destination_account_id;
  id = r.transfer_id;
  source_account_id = r.source_account_id;
  idempotency = claim_of r;
}

pub record Transferred (ob : Bool) (r : TransferRequest) (fresh : Fresh) (db : Db) (t : Transfer)
    (db' : Db) : Type 0 where
  pub source : Account
  pub destination : Account
  pub source_found : find_account r.source_account_id db.ledger.accounts ≡ some source
  pub destination_found :
      find_account r.destination_account_id db.ledger.accounts ≡ some destination
  pub authorized : Authorized r source destination
  pub row : Transaction
  pub posted : Ledger
  pub posting :
      post_ledger_transaction (post_args (input_of r source) fresh) db.ledger ≡ ok (row, posted)
  pub distinct : (r.source_account_id == r.destination_account_id) ≡ false
  pub transfer : t ≡ transfer_of (input_of r source) row
  pub ledger : db'.ledger ≡ record posted { transfers = posted.transfers ++ t ∷ [] }
  pub completed :
      complete_transfer_claim (claim_of r) t fresh.now (
        insert_event ob t fresh
          (record db { ledger = record posted { transfers = posted.transfers ++ t ∷ [] } }))
      ≡ ok db'

-- The completion of a claim writes no table but the idempotency records.
complete_ledger :
    (k : Option ClaimKey) (t : Transfer) (now : ℕ) (db db' : Db)
    → complete_transfer_claim k t now db ≡ ok db'
    → db'.ledger ≡ db.ledger
unfolding complete_transfer_claim
complete_ledger none t now db db' h = ground arith
complete_ledger (some k) t now db db' h = ground arith

insert_event-ledger :
    (ob : Bool) (t : Transfer) (fresh : Fresh) (db : Db)
    → (insert_event ob t fresh db).ledger ≡ db.ledger
unfolding insert_event
insert_event-ledger true t fresh db = refl
insert_event-ledger false t fresh db = refl

insert_transfer-ok :
    (t : Transfer) (l l' : Ledger)
    → insert_transfer t l ≡ ok l'
    → ((t.source_account_id == t.destination_account_id) ≡ false)
      × (l' ≡ record l { transfers = l.transfers ++ t ∷ [] })
unfolding insert_transfer
insert_transfer-ok t l l' h = (ground arith, ground arith)

-- The steps of a posting that succeeded.
pub record Steps (ob : Bool) (input : PostTransferInput) (fresh : Fresh) (db : Db) (t : Transfer)
    (db' : Db) : Type 0 where
  pub row : Transaction
  pub posted : Ledger
  pub ledger : Ledger
  pub posting : post_ledger_transaction (post_args input fresh) db.ledger ≡ ok (row, posted)
  pub stored : insert_transfer (transfer_of input row) posted ≡ ok ledger
  pub completed :
      complete_transfer_claim input.idempotency
        (transfer_of input row)
        fresh.now
        (insert_event ob (transfer_of input row) fresh (record db { ledger = ledger }))
      ≡ ok db'
  pub transfer : t ≡ transfer_of input row

module _ (ob : Bool) (input : PostTransferInput) (fresh : Fresh) (db : Db) (t : Transfer)
    (db' : Db) where
  pub post_transfer-Steps :
      post_transfer ob input fresh db ≡ ok (t, db') → Steps ob input fresh db t db'
  unfolding post_transfer
  post_transfer-Steps h =
      elim (Result-cases (post_ledger_transaction (post_args input fresh) db.ledger)) [
        | inr (e, no_posting) ↦ absurd (ground arith)
        | inl ((row, posted), posting) ↦
            elim (Result-cases (insert_transfer (transfer_of input row) posted)) [
              | inr (e, no_row) ↦ absurd (ground arith)
              | inl (ledger, stored) ↦
                  elim (Result-cases (
                    complete_transfer_claim input.idempotency (transfer_of input row) fresh.now (
                      insert_event ob (transfer_of input row) fresh
                        (record db { ledger = ledger })))) [
                          | inr (e, no_claim) ↦ absurd (ground arith)
                          | inl (done, completed) ↦ record {
                            row = row;
                            posted = posted;
                            ledger = ledger;
                            posting = posting;
                            stored = stored;
                            completed = ground arith;
                            transfer = ground arith;
                          }
                        ]
            ]
      ]

module _ (ob : Bool) (r : TransferRequest) (fresh : Fresh) (db : Db) (t : Transfer) (db' : Db) where
  transferred :
      (source destination : Account)
      → find_account r.source_account_id db.ledger.accounts ≡ some source
      → find_account r.destination_account_id db.ledger.accounts ≡ some destination
      → Authorized r source destination
      → Steps ob (input_of r source) fresh db t db'
      → Transferred ob r fresh db t db'
  transferred source destination fs fd a d =
      let kept =
        insert_transfer-ok (transfer_of (input_of r source) d.row) d.posted d.ledger d.stored in
      record {
        source = source;
        destination = destination;
        source_found = fs;
        destination_found = fd;
        authorized = a;
        row = d.row;
        posted = d.posted;
        posting = d.posting;
        distinct = kept.0;
        transfer = d.transfer;
        ledger =
            complete_ledger (claim_of r) (transfer_of (input_of r source) d.row) fresh.now _ db'
              d.completed
            ∙ insert_event-ledger ob (transfer_of (input_of r source) d.row) fresh _
            ∙ rw d.transfer kept.1;
        completed = rw (d.transfer, ← kept.1) d.completed;
      }

  -- A transfer's transaction that succeeds has found both accounts, passed every test, posted one
  -- ledger transaction, stored one transfer and completed the request's claim.
  pub transfer_work-Transferred :
      transfer_work ob r fresh db ≡ ok (t, db') → Transferred ob r fresh db t db'
  unfolding transfer_work
  transfer_work-Transferred h =
      let o = deterministic_account_order r.source_account_id r.destination_account_id in
      let (ls, ld) = find-lock_accounts r.source_account_id r.destination_account_id db.ledger in
      elim (Option-cases (find_account r.source_account_id (lock_accounts o db.ledger))) [
        | inl missing ↦ absurd (ground arith)
        | inr (source, fs) ↦
            elim (Option-cases
              (find_account r.destination_account_id (lock_accounts o db.ledger))) [
                | inl missing ↦ absurd (ground arith)
                | inr (destination, fd) ↦ elim (Result-cases (authorize r source destination)) [
                  | inr (e, refused) ↦ absurd (ground arith)
                  | inl (u, passed) ↦
                      transferred source destination (sym ls ∙ fs) (sym ld ∙ fd)
                        ((authorize-Authorized r source destination).0 (ground arith))
                        (post_transfer-Steps ob (input_of r source) fresh db t db' (
                          ground (
                            arith,
                            find_account_id r.source_account_id db.ledger.accounts source,
                            find_account_id r.destination_account_id db.ledger.accounts destination,
                          )))
                ]
              ]
      ]
