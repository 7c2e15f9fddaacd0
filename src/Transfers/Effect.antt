-- ===== src/Transfers/Effect.antt =====
-- What a committed transfer does to the accounts, to the outbox and to the request's claim.
use pulse_ledger.Base.{ℕ, ◌≡◌, ◌≢◌, ap, ◌∙◌, Bool, false, some, List, arith, ◌==◌, ==_refl, ==_comm}
use pulse_ledger.Base.Int.{ℤ, pos, ◌+ℤ◌, ◌-ℤ◌, int_laws, +ℤ_zero}
use pulse_ledger.Errors.{ok}
use pulse_ledger.Ledger.Tables.{Account, Transfer, Ledger, find_account}
use pulse_ledger.Ledger.Post.{delta, apply_entries}
use pulse_ledger.Ledger.Accounts.{moved_by, find_account-apply_entries}
use pulse_ledger.Ledger.Inversion.{Posted, post-Posted}
use pulse_ledger.Ledger.Keys.{IsKeyed, apply_entries-IsKeyed}
use pulse_ledger.Ledger.Consistent.{IsConsistent, post-IsConsistent}
use pulse_ledger.Ledger.Conservation.{total_balance, total_balance-post}
use pulse_ledger.Database.{Db}
use pulse_ledger.Ledger.Sums.{delta_unrequested}
use pulse_ledger.Transfers.Repository.{PostTransferInput, Fresh, post_args}
use pulse_ledger.Transfers.Service.{TransferRequest, transfer_work}
use pulse_ledger.Transfers.Work.{Authorized, Transferred, transfer_work-Transferred, input_of}

-- The two entries of a transfer, seen from its accounts and from any other.
delta_transfer :
    (i : PostTransferInput) (fresh : Fresh)
    → (i.source_account_id == i.destination_account_id) ≡ false
    → (delta i.source_account_id (post_args i fresh).entries ≡ pos 0 -ℤ pos i.amount_minor)
      × (delta i.destination_account_id (post_args i fresh).entries ≡ pos i.amount_minor)
unfolding delta
delta_transfer i fresh n = (
  rw (==_refl i.source_account_id, ==_comm i.destination_account_id i.source_account_id, n)
      (omega int_laws),
  rw (n, ==_refl i.destination_account_id) (omega int_laws),
)

delta_transfer_others :
    (k : ℕ) (i : PostTransferInput) (fresh : Fresh)
    → k ≢ i.source_account_id
    → k ≢ i.destination_account_id
    → delta k (post_args i fresh).entries ≡ pos 0
delta_transfer_others k i fresh ns nd =
    delta_unrequested k (post_args i fresh).entries (ground arith)

minus : (z : ℤ) (n : ℕ) → z +ℤ (pos 0 -ℤ pos n) ≡ z -ℤ pos n
minus z n = omega int_laws

-- The rows of `transfers` are no part of the invariant.
same_books :
    (l : Ledger) (ts : List Transfer) → IsConsistent l → IsConsistent (record l { transfers = ts })
same_books l ts v = record {
  cached = v.cached;
  covered = v.covered;
  linked = v.linked;
  balanced = v.balanced;
  positive = v.positive;
}

module _ (ob : Bool) (r : TransferRequest) (fresh : Fresh) (db : Db) (t : Transfer) (db' : Db)
    (h : transfer_work ob r fresh db ≡ ok (t, db')) where
  done : Transferred ob r fresh db t db'
  done = transfer_work-Transferred ob r fresh db t db' h

  posting : Posted (post_args (input_of r done.source) fresh) db.ledger done.row done.posted
  posting = post-Posted _ _ _ _ done.posting

  accounts_after :
      db'.ledger.accounts
      ≡ apply_entries (post_args (input_of r done.source) fresh).entries db.ledger.accounts
  accounts_after = rw done.ledger (rw posting.after)

  find_after :
      (k : ℕ) (a : Account)
      → find_account k db.ledger.accounts ≡ some a
      → find_account k db'.ledger.accounts
        ≡ some (moved_by (delta k (post_args (input_of r done.source) fresh).entries) a)
  find_after k a e = rw accounts_after (find_account-apply_entries k _ db.ledger.accounts a e)

  deltas :
      (delta r.source_account_id (post_args (input_of r done.source) fresh).entries
        ≡ pos 0 -ℤ pos r.amount)
      × (delta r.destination_account_id (post_args (input_of r done.source) fresh).entries
          ≡ pos r.amount)
  deltas = delta_transfer (input_of r done.source) fresh done.distinct

  -- A transfer that commits takes the amount from the source account and adds it to the
  -- destination account; both existed before, and nothing else of the two rows changes. The source
  -- belonged to the caller, held at least the amount, and both were active customer accounts in
  -- one currency.
  pub transfer_work_moves :
      (source : Account) × (destination : Account) × Authorized r source destination
      × (find_account r.source_account_id db.ledger.accounts ≡ some source)
      × (find_account r.destination_account_id db.ledger.accounts ≡ some destination)
      × (find_account r.source_account_id db'.ledger.accounts
          ≡ some (record source { balance_minor = source.balance_minor -ℤ pos r.amount }))
      × (find_account r.destination_account_id db'.ledger.accounts
          ≡ some (record destination { balance_minor = destination.balance_minor +ℤ pos r.amount }))
  transfer_work_moves = (
    done.source,
    done.destination,
    done.authorized,
    done.source_found,
    done.destination_found,
    find_after _ done.source done.source_found
        ∙ ap (λ z. some (record done.source { balance_minor = z }))
            (rw (deltas.0) (minus done.source.balance_minor r.amount)),
    find_after _ done.destination done.destination_found
        ∙ ap (λ z. some (record done.destination { balance_minor = z })) (rw (deltas.1)),
  )

  -- A transfer that commits changes no third account.
  pub transfer_work_others :
      (k : ℕ) (a : Account)
      → k ≢ r.source_account_id
      → k ≢ r.destination_account_id
      → find_account k db.ledger.accounts ≡ some a
      → find_account k db'.ledger.accounts ≡ some a
  transfer_work_others k a ns nd e =
      find_after k a e
      ∙ ap (λ z. some (record a { balance_minor = z }))
          (rw (delta_transfer_others k (input_of r done.source) fresh ns nd)
            (+ℤ_zero a.balance_minor))

  -- A transfer that commits keeps the ledger's invariant, the accounts' key, and the sum of all
  -- balances.
  pub transfer_work-IsConsistent :
      IsConsistent db.ledger
      → IsKeyed db.ledger.accounts
      → IsConsistent db'.ledger
        × IsKeyed db'.ledger.accounts
        × (total_balance db'.ledger.accounts ≡ total_balance db.ledger.accounts)
  transfer_work-IsConsistent v k = (
    rw done.ledger (same_books _ _ (post-IsConsistent _ _ _ _ done.posting v)),
    rw accounts_after (apply_entries-IsKeyed _ _ k),
    rw done.ledger (total_balance-post _ _ _ _ done.posting k),
  )
