-- ===== src/Tests/MigrationRuns.antt =====
-- Two migrations, the second of which loses the answer to its COMMIT.
use pulse_ledger.Base.{
  ℕ, ◌+◌, ◌*◌, ◌≤◌, ◌≡◌, Bool, true, false, none, List, [], ◌∷◌, arith, length, if◌then◌else◌,
  Bool-cases, inl, inr,
}
use pulse_ledger.Base.Decimal.{Text}
use pulse_ledger.Errors.{Result, ok}
use pulse_ledger.Ports.Transaction.{no_faults, answer_lost}
use pulse_ledger.Auth.Store.{same_text}
use pulse_ledger.Auth.Keys.{same_text_eq}
use pulse_ledger.Migrations.Runner.{Schema, MigrationFaults, no_migration_faults, run_migrations}
use pulse_ledger.Migrations.Resume.{IsDirectory, run_migrations_resumes}

-- `002_b.sql`, `001_a.sql`
abbrev later : Text
later = b'0' ∷ b'0' ∷ b'2' ∷ b'_' ∷ b'b' ∷ b'.' ∷ b's' ∷ b'q' ∷ b'l' ∷ []

abbrev earlier : Text
earlier = b'0' ∷ b'0' ∷ b'1' ∷ b'_' ∷ b'a' ∷ b'.' ∷ b's' ∷ b'q' ∷ b'l' ∷ []

abbrev files : List Text
files = later ∷ earlier ∷ []

files-IsDirectory : IsDirectory files
files-IsDirectory f = elim (Bool-cases (same_text f later)) [
  | inl y ↦ rw (same_text_eq f later y) (omega arith)
  | inr n ↦ rw n (omega (arith, one (same_text f earlier)))
]
  where
    one : (b : Bool) → (if b then 1 else 0) + 0 ≤ 1
    one true = omega arith
    one false = omega arith

abbrev run_sql : Text → ℕ → Result ℕ
run_sql file n = ok (n * 10 + length file)

abbrev fresh : Schema ℕ
fresh = record { migrations = none; rest = 1 }

abbrev interrupted : MigrationFaults
interrupted = record no_migration_faults {
  transactions = λ n. record no_faults { commit = answer_lost };
}

run_migrations_resumes_example :
    run_migrations run_sql no_migration_faults files
      (run_migrations run_sql interrupted files fresh).1
    ≡ run_migrations run_sql no_migration_faults files fresh
run_migrations_resumes_example =
    run_migrations_resumes run_sql interrupted files fresh files-IsDirectory
