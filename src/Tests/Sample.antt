-- ===== src/Tests/Sample.antt =====
-- A small bank: two customers' accounts and a treasury, a funding of 1000 and a transfer of 300
-- under an idempotency key.
use pulse_ledger.Base.{ℕ, true, false, none, some, [], ◌∷◌}
use pulse_ledger.Base.Int.{ℤ, pos, negsuc}
use pulse_ledger.Ledger.Tables.{
  Account, active, debit, credit, TransactionType, Transaction, Transfer, Ledger,
}
use pulse_ledger.Ledger.Post.{PostArgs}
use pulse_ledger.Idempotency.Records.{ClaimKey, new_claim}
use pulse_ledger.Database.{Db}
use pulse_ledger.Transfers.Repository.{Fresh}
use pulse_ledger.Transfers.Service.{TransferRequest}

abbrev pub account : ℕ → ℕ → ℤ → Account
account id owner balance = record {
  id = id;
  currency = 1;
  status = active;
  balance_minor = balance;
  is_treasury = false;
  owner_principal_id = some owner;
  created_at = 0;
}

abbrev pub treasury : ℤ → Account
treasury balance = record {
  id = 9;
  currency = 1;
  status = active;
  balance_minor = balance;
  is_treasury = true;
  owner_principal_id = none;
  created_at = 0;
}

abbrev pub opened : Ledger
opened = record {
  accounts = account 1 100 (pos 0) ∷ account 2 200 (pos 0) ∷ treasury (pos 0) ∷ [];
  transactions = [];
  journal = [];
  transfers = [];
}

abbrev pub funding_args : PostArgs
funding_args = record {
  id = 50;
  type = TransactionType.funding;
  reference = record { prefix = TransactionType.funding; of = 50 };
  entries =
      record { id = 501; account_id = 1; direction = debit; amount = 1000 }
      ∷ record { id = 502; account_id = 9; direction = credit; amount = 1000 }
      ∷ [];
  now = 5;
}

abbrev pub funding_row : Transaction
funding_row = record {
  id = 50;
  type = TransactionType.funding;
  reference = record { prefix = TransactionType.funding; of = 50 };
  currency = 1;
  created_at = 5;
}

abbrev pub funded : Ledger
funded = record {
  accounts = account 1 100 (pos 1000) ∷ account 2 200 (pos 0) ∷ treasury (negsuc 999) ∷ [];
  transactions = funding_row ∷ [];
  journal =
      record {
        id = 501;
        transaction_id = 50;
        account_id = 1;
        currency = 1;
        direction = debit;
        amount_minor = 1000;
        created_at = 5;
      }
      ∷ record {
        id = 502;
        transaction_id = 50;
        account_id = 9;
        currency = 1;
        direction = credit;
        amount_minor = 1000;
        created_at = 5;
      }
      ∷ [];
  transfers = [];
}

abbrev pub transfer_key : ClaimKey
transfer_key = record { principal_id = 100; key = 7; operation = TransactionType.transfer }

abbrev pub before : Db
before = record { ledger = funded; claims = new_claim transfer_key 77 6 ∷ []; outbox = [] }

abbrev pub request : TransferRequest
request = record {
  amount = 300;
  source_account_id = 1;
  destination_account_id = 2;
  principal_id = 100;
  transfer_id = 60;
  idempotency_key = some 7;
}

abbrev pub fresh : Fresh
fresh = record { source_entry_id = 601; destination_entry_id = 602; event_id = 603; now = 8 }

abbrev pub moved : Transfer
moved = record {
  id = 60;
  source_account_id = 1;
  destination_account_id = 2;
  amount_minor = 300;
  currency = 1;
  reference = record { prefix = TransactionType.transfer; of = 60 };
  created_at = 8;
}
