-- ===== src/Migrations/Runner.antt =====
-- `runMigrations`, src/infrastructure/database/migrate.ts, by one process at a time. What the
-- statements of a file do to the schema is a parameter, since PostgreSQL runs them.
use pulse_ledger.Base.{
  ℕ, Bool, true, false, ◌&&◌, ◌||◌, Option, none, some, List, [], ◌∷◌, ◌++◌, leb, ltb, ◌==◌,
  if◌then◌else◌, length, where_rows, any,
}
use pulse_ledger.Base.Decimal.{Text, is_digit}
use pulse_ledger.Base.Order.{order_by}
use pulse_ledger.Errors.{
  Failure, database_error, unique_violation, Result, ok, err, ◌>>=◌, ◌>>◌, throw_if,
}
use pulse_ledger.Ports.Transaction.{Faults, no_faults, Outcome, with_transaction}
use pulse_ledger.Auth.Store.{same_text}

-- `.sql`
abbrev pub sql_ending : Text
sql_ending = b'.' ∷ b's' ∷ b'q' ∷ b'l' ∷ []

-- `[a-z0-9_]`
abbrev pub is_name_char : ℕ → Bool
is_name_char c = leb b'a' c && leb c b'z' || is_digit c || c == b'_'

-- `[a-z0-9_]*\.sql$`
abbrev pub ends_name : Text → Bool
ends_name [] = false
ends_name (c ∷ cs) =
    let rest = ends_name cs in same_text (c ∷ cs) sql_ending || is_name_char c && rest

-- `[a-z0-9_]+\.sql$`
abbrev pub is_name : Text → Bool
is_name [] = false
is_name (c ∷ cs) = is_name_char c && ends_name cs

-- `\d*_[a-z0-9_]+\.sql$`
abbrev pub continues_number : Text → Bool
continues_number [] = false
continues_number (c ∷ cs) =
    let rest = continues_number cs in if is_digit c then rest else c == b'_' && is_name cs

-- `migrationFilePattern.test(file)`
unfoldable pub is_migration_file : Text → Bool
is_migration_file [] = false
is_migration_file (c ∷ cs) = is_digit c && continues_number cs

-- The order of `sort()`, by code units.
abbrev pub leb_text : Text → Text → Bool
leb_text [] t = true
leb_text (c ∷ cs) [] = false
leb_text (c ∷ cs) (d ∷ ds) = let rest = leb_text cs ds in ltb c d || c == d && rest

unfoldable pub migration_files : List Text → List Text
unfolding is_migration_file
migration_files directory = order_by leb_text (where_rows is_migration_file directory)

-- The table `schema_migrations`, once it is there, and everything else.
pub record Schema (S : Type 0) : Type 0 where
  pub migrations : Option (List Text)
  pub rest : S

-- What fails: CREATE TABLE; the listing of the directory or the SELECT; the reading of a file,
-- numbered by the files behind it; and what happens to its transaction.
pub record MigrationFaults : Type 0 where
  pub create_fails : Option Failure
  pub list_fails : Option Failure
  pub read_fails : ℕ → Option Failure
  pub transactions : ℕ → Faults

abbrev pub no_migration_faults : MigrationFaults
no_migration_faults = record {
  create_fails = none;
  list_fails = none;
  read_fails = λ n. none;
  transactions = λ n. no_faults;
}

abbrev pub is_applied : Text → List Text → Bool
is_applied file names = any (λ n. same_text n file) names

abbrev pub or_no_names : Option (List Text) → List Text
or_no_names none = []
or_no_names (some names) = names

module _ {S : Type 0} (run_sql : Text → S → Result S) where
  abbrev pub names_of : Schema S → List Text
  names_of s = or_no_names s.migrations

  -- `CREATE TABLE IF NOT EXISTS`
  abbrev pub create_table : Schema S → Schema S
  create_table s = record s { migrations = some (names_of s) }

  -- The work of one file's transaction: its statements, and the row that says that it ran.
  unfoldable pub migrate_work : Text → Schema S → Result (Unit {0} × Schema S)
  migrate_work file s = do
    rest ← run_sql file s.rest
    throw_if (is_applied file (names_of s)) (database_error unique_violation)
    ok (tt, record { migrations = some (names_of s ++ file ∷ []); rest = rest })

  abbrev pub continued :
      Outcome (Unit {0}) (Schema S)
      → (Schema S → Result (Unit {0}) × Schema S)
      → Result (Unit {0}) × Schema S
  continued o later = elim o.result [ err e ↦ (err e, o.database) | ok done ↦ later o.database ]

  -- The loop over the files, with the names that were applied when it began.
  unfoldable pub migrate_all :
      MigrationFaults → List Text → List Text → Schema S → Result (Unit {0}) × Schema S
  unfolding migrate_work
  migrate_all x applied [] s = (ok tt, s)
  migrate_all x applied (file ∷ files) s =
      let skipped = migrate_all x applied files s in
      if is_applied file applied then skipped else elim (x.read_fails (length files)) [
        | some e ↦ (err e, s)
        | none ↦
            continued (with_transaction (x.transactions (length files)) (migrate_work file) s)
              (migrate_all x applied files)
      ]

  -- `runMigrations`
  unfoldable pub run_migrations :
      MigrationFaults → List Text → Schema S → Result (Unit {0}) × Schema S
  unfolding migration_files migrate_all
  run_migrations x directory s = elim x.create_fails [
    | some e ↦ (err e, s)
    | none ↦
        let created = create_table s in
        elim x.list_fails [
          | some e ↦ (err e, created)
          | none ↦ migrate_all x (names_of created) (migration_files directory) created
        ]
  ]
