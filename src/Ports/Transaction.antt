-- ===== src/Ports/Transaction.antt =====
-- `withTransaction`, src/ports/transaction.ts, over a database whose state is a value. What the
-- network and the server do to the transaction is a parameter, `Faults`.
use mathlib.Core.Path.{subst}
use pulse_ledger.Base.{inl, inr, sym, Bool, true, false, ◌≡◌, ◌⊎◌, Option, none, some, arith, ◌≢◌}
use pulse_ledger.Errors.{
  Failure, database_error, SqlState, connection_failure, Result, ok, err, Result-cases,
}

-- How COMMIT ends: it takes effect; the server refuses it and rolls back; or it takes effect and
-- the connection is lost before the answer arrives.
pub data CommitOutcome : Type 0 where
  committed : CommitOutcome
  refused : SqlState → CommitOutcome
  answer_lost : CommitOutcome

pub record Faults : Type 0 where
  pub connect_fails : Option SqlState
  pub begin_fails : Option SqlState
  -- A statement of the work that the server fails, a serialization failure for one.
  pub work_fails : Option SqlState
  pub commit : CommitOutcome
  pub rollback_fails : Bool

abbrev pub no_faults : Faults
no_faults = record {
  connect_fails = none;
  begin_fails = none;
  work_fails = none;
  commit = committed;
  rollback_fails = false;
}

-- What became of the connection: `connection.release(brokenConnection)`.
pub data Release : Type 0 where
  never_connected returned destroyed : Release

pub record Outcome {ℓ κ} (A : Type ℓ) (S : Type κ) : Type (ℓ ⊔ κ) where
  pub result : Result A
  pub database : S
  pub connection : Release

-- The `catch` and the `finally`: the original failure is rethrown whatever ROLLBACK does, and a
-- connection whose ROLLBACK failed is released with the error.
abbrev pub rolled_back {ℓ κ} : {A : Type ℓ} {S : Type κ} → Faults → Failure → S → Outcome A S
rolled_back f e s = record {
  result = err e;
  database = s;
  connection = elim f.rollback_fails [ true ↦ destroyed | false ↦ returned ];
}

abbrev pub run_commit {ℓ κ} : {A : Type ℓ} {S : Type κ} → Faults → A → S → S → Outcome A S
run_commit f a before after = elim f.commit [
  | committed ↦ record { result = ok a; database = after; connection = returned }
  | refused e ↦ rolled_back f (database_error e) before
  | answer_lost ↦ rolled_back f (database_error connection_failure) after
]

abbrev pub run_work {ℓ κ} : {A : Type ℓ} {S : Type κ} → Faults → Result (A × S) → S → Outcome A S
run_work f (ok (a, after)) s = elim f.work_fails [
  | some e ↦ rolled_back f (database_error e) s
  | none ↦ run_commit f a s after
]
run_work f (err e) s = elim f.work_fails [
  | some e' ↦ rolled_back f (database_error e') s
  | none ↦ rolled_back f e s
]

-- `withTransaction`
unfoldable pub with_transaction {ℓ κ} :
    {A : Type ℓ} {S : Type κ} → Faults → (S → Result (A × S)) → S → Outcome A S
with_transaction f work s = elim f.connect_fails [
  | some e ↦ record { result = err (database_error e); database = s; connection = never_connected }
  | none ↦ elim f.begin_fails [
    | some e ↦ rolled_back f (database_error e) s
    | none ↦ run_work f (work s) s
  ]
]

module _ {ℓ κ} {A : Type ℓ} {S : Type κ} (f : Faults) (work : S → Result (A × S)) (s : S) where
  -- A transaction that returns a value has committed all of its work: the value and the database
  -- are those that the work gave.
  pub with_transaction-ok :
      (a : A)
      → (with_transaction f work s).result ≡ ok a
      → work s ≡ ok (a, (with_transaction f work s).database)
  unfolding with_transaction
  with_transaction-ok a h = ground arith

  -- A transaction that throws has written nothing, unless its COMMIT took effect and only the
  -- answer to it was lost.
  pub with_transaction-err :
      (e : Failure)
      → f.commit ≢ answer_lost
      → (with_transaction f work s).result ≡ err e
      → (with_transaction f work s).database ≡ s
  unfolding with_transaction
  with_transaction-err e n h = ground arith

  -- A failure of the work is the failure of the transaction, whether or not the ROLLBACK succeeds,
  -- and the connection is destroyed exactly when the ROLLBACK fails.
  pub with_transaction_original :
      (e : Failure)
      → f.connect_fails ≡ none
      → f.begin_fails ≡ none
      → f.work_fails ≡ none
      → work s ≡ err e
      → ((with_transaction f work s).result ≡ err e)
        × ((with_transaction f work s).connection
            ≡ elim f.rollback_fails [ true ↦ destroyed | false ↦ returned ])
  unfolding with_transaction
  with_transaction_original e c b w h = ground arith

  -- The database after a transaction is the one before it, or the one that its work gave.
  pub with_transaction_database :
      (a : A) (s' : S)
      → work s ≡ ok (a, s')
      → ((with_transaction f work s).database ≡ s) ⊎ ((with_transaction f work s).database ≡ s')
  unfolding with_transaction
  with_transaction_database a s' h = ground arith

  pub with_transaction_unchanged :
      (e : Failure) → work s ≡ err e → (with_transaction f work s).database ≡ s
  unfolding with_transaction
  with_transaction_unchanged e h = ground arith

-- What the database has before a transaction and after its work, it has after the transaction.
pub with_transaction_inv {ℓ κ ι} :
    {A : Type ℓ} {S : Type κ} (P : S → Type ι) (f : Faults) (work : S → Result (A × S)) (s : S)
    → P s
    → ((a : A) (s' : S) → work s ≡ ok (a, s') → P s')
    → P (with_transaction f work s).database
with_transaction_inv P f work s p w = elim (Result-cases (work s)) [
  | inr (e, h) ↦ subst P (sym (with_transaction_unchanged f work s e h)) p
  | inl ((a, s'), h) ↦ elim (with_transaction_database f work s a s' h) [
    | inl same ↦ subst P (sym same) p
    | inr done ↦ subst P (sym done) (w a s' h)
  ]
]
