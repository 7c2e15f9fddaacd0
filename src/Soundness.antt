-- ===== src/Soundness.antt =====
-- The invariant of the database that every request keeps: a consistent ledger whose accounts have
-- distinct identifiers, with a given sum of balances.
use pulse_ledger.Base.{◌≡◌}
use pulse_ledger.Base.Int.{ℤ}
use pulse_ledger.Ledger.Keys.{IsKeyed}
use pulse_ledger.Ledger.Consistent.{IsConsistent}
use pulse_ledger.Ledger.Conservation.{total_balance}
use pulse_ledger.Database.{Db}

pub record IsSound (total : ℤ) (db : Db) : Type 0 where
  pub consistent : IsConsistent db.ledger
  pub keyed : IsKeyed db.ledger.accounts
  pub total_kept : total_balance db.ledger.accounts ≡ total
