-- ===== src/Migrations/Resume.antt =====
-- A run of the migrations that fails can be run again.
use pulse_ledger.Base.{
  ◌≤◌, ◌≡◌, refl, sym, ap, ◌∙◌, inl, inr, true, false, none, some, List, [], ◌∷◌, arith, length,
  where_rows, count_rows, any-append, Bool-cases, Option-cases,
}
use pulse_ledger.Base.Decimal.{Text}
use pulse_ledger.Base.Rows.{count-where}
use pulse_ledger.Base.Order.{count-order_by}
use pulse_ledger.Errors.{Failure, Result, ok, err, Result-cases}
use pulse_ledger.Ports.Transaction.{with_transaction}
use pulse_ledger.Auth.Store.{same_text}
use pulse_ledger.Auth.Keys.{same_text_refl}
use pulse_ledger.Migrations.Runner.{
  is_migration_file, leb_text, migration_files, Schema, MigrationFaults, no_migration_faults,
  is_applied, names_of, create_table, migrate_work, migrate_all, run_migrations,
}
use pulse_ledger.Migrations.Loop.{
  transaction_cases, quiet_transaction, Agree-append, work_names, migrate_all-Agree,
  migrate_all_keeps, migrate_all_created, IsApart, AreDistinct, Agree, Has,
}

module _ {S : Type 0} (run_sql : Text → S → Result S) where
  -- One round of the loop.
  module _ (x : MigrationFaults) (a : List Text) (f : Text) (files : List Text) (s : Schema S) where
    skipped :
        is_applied f a ≡ true
        → migrate_all run_sql x a (f ∷ files) s ≡ migrate_all run_sql x a files s
    unfolding migrate_all
    skipped y = rw (y, migrate_all) refl

    unread :
        (e : Failure)
        → is_applied f a ≡ false
        → x.read_fails (length files) ≡ some e
        → migrate_all run_sql x a (f ∷ files) s ≡ (err e, s)
    unfolding migrate_all
    unread e n k = rw (n, migrate_all) (rw k refl)

    refused :
        (e : Failure) (s' : Schema S)
        → is_applied f a ≡ false
        → x.read_fails (length files) ≡ none
        → (with_transaction (x.transactions (length files)) (migrate_work run_sql f) s).result
          ≡ err e
        → (with_transaction (x.transactions (length files)) (migrate_work run_sql f) s).database
          ≡ s'
        → migrate_all run_sql x a (f ∷ files) s ≡ (err e, s')
    unfolding migrate_all
    refused e s' n k r d = rw (n, migrate_all) (rw (k, r, d) refl)

    migrated :
        (done : Unit {0}) (s' : Schema S)
        → is_applied f a ≡ false
        → x.read_fails (length files) ≡ none
        → (with_transaction (x.transactions (length files)) (migrate_work run_sql f) s).result
          ≡ ok done
        → (with_transaction (x.transactions (length files)) (migrate_work run_sql f) s).database
          ≡ s'
        → migrate_all run_sql x a (f ∷ files) s ≡ migrate_all run_sql x a files s'
    unfolding migrate_all
    migrated done s' n k r d = rw (n, migrate_all) (rw (k, r, d) refl)

  -- The state of a run, from which the files are run again.
  abbrev again : List Text → Result (Unit {0}) × Schema S → Result (Unit {0}) × Schema S
  again files r = migrate_all run_sql no_migration_faults (names_of run_sql r.1) files r.1

  passed :
      (f : Text) (files : List Text) (r : Result (Unit {0}) × Schema S)
      → Has run_sql f r.1
      → again (f ∷ files) r ≡ again files r
  passed f files r = skipped no_migration_faults (names_of run_sql r.1) f files r.1

  work-Has :
      (f : Text) (s s' : Schema S) (done : Unit {0})
      → migrate_work run_sql f s ≡ ok (done, s')
      → Has run_sql f s'
  work-Has f s s' done w = rw (work_names run_sql f s s' done w) (
      any-append (λ x. same_text x f) (names_of run_sql s) (f ∷ [])
      ∙ ground (arith, same_text_refl f))

  resumed :
      (x : MigrationFaults) (a files : List Text) (s : Schema S)
      → AreDistinct files
      → Agree (names_of run_sql s) a files
      → again files (migrate_all run_sql x a files s)
        ≡ migrate_all run_sql no_migration_faults a files s
  unfolding migrate_all
  resumed x a [] s d h = refl
  resumed x a (f ∷ files) s (n, d) (k, h) = elim (Bool-cases (is_applied f a)) [
    | inl y ↦
        ap (again (f ∷ files)) (skipped x a f files s y)
        ∙ passed f files (migrate_all run_sql x a files s)
            (migrate_all_keeps run_sql x a files s f (k ∙ y))
        ∙ resumed x a files s d h
        ∙ sym (skipped no_migration_faults a f files s y)
    | inr m ↦ elim (Option-cases (x.read_fails (length files))) [
      | inr (e, u) ↦
          ap (again (f ∷ files)) (unread x a f files s e m u)
          ∙ migrate_all-Agree run_sql no_migration_faults (names_of run_sql s) a (f ∷ files) s
              (k, h)
      | inl u ↦
          elim (transaction_cases (x.transactions (length files)) (migrate_work run_sql f) s) [
            | inl (e, r, same) ↦
                ap (again (f ∷ files)) (refused x a f files s e s m u r same)
                ∙ migrate_all-Agree run_sql no_migration_faults (names_of run_sql s) a (f ∷ files) s
                    (k, h)
            | inr (done, s', w, left) ↦
                let there = work-Has f s s' done w in
                let agree : Agree (names_of run_sql s') a files =
                  rw (work_names run_sql f s s' done w)
                    (Agree-append f (names_of run_sql s) a files n h) in
                let quiet = quiet_transaction (migrate_work run_sql f) s s' done w in
                let target =
                  sym (migrated no_migration_faults a f files s done s' m refl quiet.0 quiet.1) in
                elim (Result-cases
                  (with_transaction (x.transactions (length files)) (migrate_work run_sql f)
                    s).result) [
                      | inl (done', r) ↦
                          ap (again (f ∷ files)) (migrated x a f files s done' s' m u r left)
                          ∙ passed f files (migrate_all run_sql x a files s')
                              (migrate_all_keeps run_sql x a files s' f there)
                          ∙ resumed x a files s' d agree
                          ∙ target
                      | inr (e, r) ↦
                          ap (again (f ∷ files)) (refused x a f files s e s' m u r left)
                          ∙ passed f files (err e, s') there
                          ∙ migrate_all-Agree run_sql no_migration_faults (names_of run_sql s') a
                              files s' agree
                          ∙ target
                    ]
          ]
    ]
  ]

-- A directory has no two files of one name.
abbrev pub IsDirectory : List Text → Type 0
IsDirectory files = (f : Text) → count_rows (same_text f) files ≤ 1

apart : (f : Text) (files : List Text) → count_rows (same_text f) files ≡ 0 → IsApart f files
apart f [] h = tt
apart f (x ∷ files) h = (ground arith, apart f files (ground arith))

distinct : (files : List Text) → IsDirectory files → AreDistinct files
distinct [] h = tt
distinct (f ∷ files) h =
    let none_more : count_rows (same_text f) files ≡ 0 = ground (arith, h f, same_text_refl f) in
    (apart f files none_more, distinct files (λ g. ground (arith, h g)))

migration_files-AreDistinct :
    (directory : List Text) → IsDirectory directory → AreDistinct (migration_files directory)
unfolding migration_files
migration_files-AreDistinct directory h = distinct (migration_files directory) (λ f. omega (
  arith,
  h f,
  count-order_by leb_text (same_text f) (where_rows is_migration_file directory),
  count-where (same_text f) is_migration_file directory,
))

Agree-refl : (a files : List Text) → Agree a a files
Agree-refl a [] = tt
Agree-refl a (f ∷ files) = (refl, Agree-refl a files)

-- A run of the migrations that fails anywhere, at a connection, a statement, a file or a COMMIT,
-- even one that took effect and whose answer was lost, is made good by running them again: the
-- second run, if nothing fails in it, ends with the result and the schema that a single run with no
-- failures would have had, if no two files have the same name.
pub run_migrations_resumes :
    {S : Type 0} (run_sql : Text → S → Result S) (x : MigrationFaults) (directory : List Text)
    (s : Schema S)
    → IsDirectory directory
    → run_migrations run_sql no_migration_faults directory (run_migrations run_sql x directory s).1
      ≡ run_migrations run_sql no_migration_faults directory s
unfolding run_migrations
run_migrations_resumes run_sql x directory s h = elim (Option-cases x.create_fails) [
  | inr (e, c) ↦ rw (c, run_migrations) refl
  | inl c ↦ elim (Option-cases x.list_fails) [
    | inr (e, l) ↦ rw (c, run_migrations) (rw l refl)
    | inl l ↦
        let files = migration_files directory in
        let created = create_table run_sql s in
        let r = migrate_all run_sql x (names_of run_sql s) files created in
        rw (c, run_migrations)
          (rw (l, migrate_all_created run_sql x (names_of run_sql s) files created refl)
            (resumed run_sql x (names_of run_sql s) files created
              (migration_files-AreDistinct directory h) (Agree-refl (names_of run_sql s) files)))
  ]
]
