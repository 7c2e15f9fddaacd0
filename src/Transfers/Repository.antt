-- ===== src/Transfers/Repository.antt =====
-- `PostgresTransferTransaction`, src/modules/transfers/transfer-repository.ts: the statements of a
-- transfer on the database that its transaction sees.
use pulse_ledger.Base.{
  ℕ, Bool, true, false, not, ◌&&◌, ◌||◌, Option, none, some, List, [], ◌∷◌, ◌++◌, leb, ◌==◌,
  if◌then◌else◌, find, where_rows, any, same_option,
}
use pulse_ledger.Errors.{
  database_error, check_violation, unique_violation, Result, ok, ◌>>=◌, ◌>>◌, throw_if,
}
use pulse_ledger.Ledger.Tables.{
  Account, debit, credit, TransactionType, Reference, Transfer, Transaction, Ledger,
}
use pulse_ledger.Ledger.Post.{PostArgs, post_ledger_transaction}
use pulse_ledger.Responses.{transfer_body}
use pulse_ledger.Idempotency.Records.{ClaimKey, complete_claim}
use pulse_ledger.Idempotency.Claim.{in_progress_failure}
use pulse_ledger.Outbox.Events.{transfer_payload, outbox_current_event_version}
use pulse_ledger.Outbox.Repository.{insert}
use pulse_ledger.Database.{Db}

-- `ORDER BY id`, by insertion.
abbrev pub insert_by_id : Account → List Account → List Account
insert_by_id a [] = a ∷ []
insert_by_id a (x ∷ xs) =
    let rest = insert_by_id a xs in if leb a.id x.id then a ∷ x ∷ xs else x ∷ rest

abbrev pub order_by_id : List Account → List Account
order_by_id [] = []
order_by_id (a ∷ accounts) = insert_by_id a (order_by_id accounts)

-- `lockAccounts`
unfoldable pub lock_accounts : ℕ × ℕ → Ledger → List Account
lock_accounts (first, second) l =
    order_by_id (where_rows (λ a. a.id == first || a.id == second) l.accounts)

-- What `randomUUID()`, `gen_random_uuid()` and `now()` give to one attempt.
pub record Fresh : Type 0 where
  pub source_entry_id : ℕ
  pub destination_entry_id : ℕ
  pub event_id : ℕ
  pub now : ℕ

pub record PostTransferInput : Type 0 where
  pub amount_minor : ℕ
  pub currency : ℕ
  pub destination_account_id : ℕ
  pub id : ℕ
  pub source_account_id : ℕ
  pub idempotency : Option ClaimKey

abbrev pub transfer_reference : ℕ → Reference
transfer_reference id = record { prefix = TransactionType.transfer; of = id }

abbrev pub post_args : PostTransferInput → Fresh → PostArgs
post_args input fresh = record {
  id = input.id;
  type = TransactionType.transfer;
  reference = transfer_reference input.id;
  entries =
      record {
        id = fresh.source_entry_id;
        account_id = input.source_account_id;
        direction = credit;
        amount = input.amount_minor;
      }
      ∷ record {
        id = fresh.destination_entry_id;
        account_id = input.destination_account_id;
        direction = debit;
        amount = input.amount_minor;
      }
      ∷ [];
  now = fresh.now;
}

abbrev pub transfer_of : PostTransferInput → Transaction → Transfer
transfer_of input t = record {
  id = input.id;
  source_account_id = input.source_account_id;
  destination_account_id = input.destination_account_id;
  amount_minor = input.amount_minor;
  currency = input.currency;
  reference = transfer_reference input.id;
  created_at = t.created_at;
}

-- `INSERT INTO transfers`, with the table's key and checks. Its foreign keys name the accounts and
-- the transaction that the posting function has just found and written.
unfoldable pub insert_transfer : Transfer → Ledger → Result Ledger
insert_transfer t l = do
  throw_if (t.amount_minor == 0 || t.source_account_id == t.destination_account_id)
      (database_error check_violation)
  throw_if (any (λ (x : Transfer). x.id == t.id) l.transfers) (database_error unique_violation)
  ok (record l { transfers = l.transfers ++ t ∷ [] })

-- The event of a posted transfer, if the store was built with an outbox.
unfoldable pub insert_event : Bool → Transfer → Fresh → Db → Db
insert_event false t fresh db = db
insert_event true t fresh db = record db {
  outbox =
      insert fresh.event_id fresh.now
        (record {
          aggregate_id = t.id;
          aggregate_type = TransactionType.transfer;
          event_version = outbox_current_event_version;
          payload = transfer_payload t;
        })
        db.outbox;
}

-- The completion of the request's claim: exactly one row must change.
unfoldable pub complete_transfer_claim : Option ClaimKey → Transfer → ℕ → Db → Result Db
complete_transfer_claim none t now db = ok db
complete_transfer_claim (some k) t now db =
    let (changed, claims) = complete_claim k 201 (transfer_body t) now db.claims in
    throw_if (not (changed == 1)) in_progress_failure >> ok (record db { claims = claims })

-- `postTransfer`
unfoldable pub post_transfer : Bool → PostTransferInput → Fresh → Db → Result (Transfer × Db)
post_transfer with_outbox input fresh db = do
  (t, posted) ← post_ledger_transaction (post_args input fresh) db.ledger
  ledger ← insert_transfer (transfer_of input t) posted
  let evented = insert_event with_outbox (transfer_of input t) fresh (record db { ledger = ledger })
  completed ← complete_transfer_claim input.idempotency (transfer_of input t) fresh.now evented
  ok (transfer_of input t, completed)

-- A row of the `transfers` is visible to a principal that owns one of its two accounts.
abbrev pub is_participant : ℕ → Transfer → Account → Bool
is_participant principal t a =
    (a.id == t.source_account_id || a.id == t.destination_account_id)
    && same_option a.owner_principal_id (some principal)

-- `findVisibleById`: the join gives the transfer's reference and time, which the row has here.
unfoldable pub find_visible_by_id : ℕ → ℕ → Ledger → Option Transfer
find_visible_by_id id principal l =
    find (λ (t : Transfer). t.id == id && any (is_participant principal t) l.accounts) l.transfers
