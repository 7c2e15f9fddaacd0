-- ===== src/Migrations/Loop.antt =====
-- The loop over the migration files: what it depends on, and what it keeps.
use pulse_ledger.Base.{
  ◌≡◌, refl, ap, ◌∙◌, ◌⊎◌, inl, inr, Bool, true, false, Option, none, some, List, [], ◌∷◌, ◌++◌,
  arith, if◌then◌else◌, length, any-append, All, Bool-cases, Option-cases,
}
use pulse_ledger.Base.Decimal.{Text}
use pulse_ledger.Errors.{Failure, Result, ok, err, Result-cases}
use pulse_ledger.Ports.Transaction.{
  Faults, no_faults, Outcome, with_transaction, with_transaction-ok, with_transaction_database,
  with_transaction_unchanged, with_transaction_inv,
}
use pulse_ledger.Auth.Store.{same_text}
use pulse_ledger.Migrations.Runner.{
  Schema, MigrationFaults, is_applied, names_of, create_table, migrate_work, continued, migrate_all,
}

-- A transaction leaves what was there, and then it fails, or it leaves what its work gave.
pub transaction_cases :
    {A S : Type 0} (f : Faults) (work : S → Result (A × S)) (s : S)
    → ((e : Failure) × ((with_transaction f work s).result ≡ err e)
        × ((with_transaction f work s).database ≡ s))
      ⊎ ((a : A) × (s' : S) × (work s ≡ ok (a, s')) × ((with_transaction f work s).database ≡ s'))
transaction_cases f work s = elim (Result-cases (with_transaction f work s).result) [
  | inl (a, h) ↦ inr (a, _, with_transaction-ok f work s a h, refl)
  | inr (e, h) ↦ elim (Result-cases (work s)) [
    | inr (e', k) ↦ inl (e, h, with_transaction_unchanged f work s e' k)
    | inl ((a, s'), k) ↦ elim (with_transaction_database f work s a s' k) [
      | inl same ↦ inl (e, h, same)
      | inr done ↦ inr (a, s', k, done)
    ]
  ]
]

-- Where nothing fails, a transaction is its work.
pub quiet_transaction :
    {A S : Type 0} (work : S → Result (A × S)) (s s' : S) (a : A)
    → work s ≡ ok (a, s')
    → ((with_transaction no_faults work s).result ≡ ok a)
      × ((with_transaction no_faults work s).database ≡ s')
unfolding with_transaction
quiet_transaction work s s' a h = (ground (arith, h), ground (arith, h))

-- No file of the list has the name `file`.
abbrev pub IsApart : Text → List Text → Type 0
IsApart file files = All (λ f. same_text file f ≡ false) files

abbrev pub AreDistinct : List Text → Type 0
AreDistinct [] = Unit
AreDistinct (f ∷ fs) = IsApart f fs × AreDistinct fs

-- Two lists of names say the same of the files.
abbrev pub Agree : List Text → List Text → List Text → Type 0
Agree a b files = All (λ f. is_applied f a ≡ is_applied f b) files

pub Agree-append :
    (file : Text) (a b files : List Text)
    → IsApart file files
    → Agree a b files
    → Agree (a ++ file ∷ []) b files
Agree-append file a b [] n h = tt
Agree-append file a b (f ∷ files) (n, ns) (k, h) = (
  any-append (λ x. same_text x f) a (file ∷ []) ∙ rw n (ground (arith, k)),
  Agree-append file a b files ns h,
)

module _ {S : Type 0} (run_sql : Text → S → Result S) where
  pub work_names :
      (file : Text) (s s' : Schema S) (done : Unit {0})
      → migrate_work run_sql file s ≡ ok (done, s')
      → names_of run_sql s' ≡ names_of run_sql s ++ file ∷ []
  unfolding migrate_work
  work_names file s s' done h = elim (Result-cases (run_sql file s.rest)) [
    | inr (e, f) ↦ absurd (ground (arith, f))
    | inl (rest, f) ↦ elim (Bool-cases (is_applied file (names_of run_sql s))) [
      | inl y ↦ absurd (ground (arith, f))
      | inr n ↦ ground (arith, f)
    ]
  ]

  continued_same :
      (o : Outcome (Unit {0}) (Schema S)) (f g : Schema S → Result (Unit {0}) × Schema S)
      → ((s : Schema S) → f s ≡ g s)
      → continued run_sql o f ≡ continued run_sql o g
  continued_same o f g h = elim (Result-cases o.result) [
    | inl (done, k) ↦ rw k (h o.database)
    | inr (e, k) ↦ rw k refl
  ]

  abbrev tried :
      Bool
      → Option Failure
      → Schema S
      → Result (Unit {0}) × Schema S
      → Result (Unit {0}) × Schema S
      → Result (Unit {0}) × Schema S
  tried applied unread s skipped run =
      if applied then skipped else elim unread [ some e ↦ (err e, s) | none ↦ run ]

  pub migrate_all-Agree :
      (x : MigrationFaults) (a b files : List Text) (s : Schema S)
      → Agree a b files
      → migrate_all run_sql x a files s ≡ migrate_all run_sql x b files s
  unfolding migrate_all
  migrate_all-Agree x a b [] s h = refl
  migrate_all-Agree x a b (f ∷ files) s (k, h) =
      rw (k, migrate_all-Agree x a b files s h)
        (ap
          (tried (is_applied f b) (x.read_fails (length files)) s (migrate_all run_sql x b files s))
          (continued_same
            (with_transaction (x.transactions (length files)) (migrate_work run_sql f) s) _ _
            (λ s'. migrate_all-Agree x a b files s' h)))

  -- A name that is in the table stays there.
  abbrev pub Has : Text → Schema S → Type 0
  Has file s = is_applied file (names_of run_sql s) ≡ true

  work_keeps :
      (file f : Text) (s s' : Schema S) (done : Unit {0})
      → migrate_work run_sql f s ≡ ok (done, s')
      → Has file s
      → Has file s'
  work_keeps file f s s' done h k =
      rw (work_names f s s' done h)
        (any-append (λ x. same_text x file) (names_of run_sql s) (f ∷ []) ∙ rw k refl)

  -- What every file's work keeps, the loop keeps.
  module _ (P : Schema S → Type 0)
      (keeps : (f : Text) (s s' : Schema S) (done : Unit {0})
        → migrate_work run_sql f s ≡ ok (done, s')
        → P s
        → P s') where
    continued_inv :
        (o : Outcome (Unit {0}) (Schema S)) (later : Schema S → Result (Unit {0}) × Schema S)
        → ((s : Schema S) → P s → P (later s).1)
        → P o.database
        → P (continued run_sql o later).1
    continued_inv o later inv h = elim (Result-cases o.result) [
      | inl (done, k) ↦ rw k (inv o.database h)
      | inr (e, k) ↦ rw k h
    ]

    migrate_all_inv :
        (x : MigrationFaults) (a files : List Text) (s : Schema S)
        → P s
        → P (migrate_all run_sql x a files s).1
    unfolding migrate_all
    migrate_all_inv x a [] s h = h
    migrate_all_inv x a (f ∷ files) s h = elim (Bool-cases (is_applied f a)) [
      | inl y ↦ rw (y, migrate_all) (migrate_all_inv x a files s h)
      | inr n ↦ elim (Option-cases (x.read_fails (length files))) [
        | inr (e, k) ↦ rw (n, migrate_all) (rw k h)
        | inl k ↦
            rw (n, migrate_all)
              (rw k (
                continued_inv
                  (with_transaction (x.transactions (length files)) (migrate_work run_sql f) s)
                  (migrate_all run_sql x a files) (λ s' h'. migrate_all_inv x a files s' h')
                  (with_transaction_inv P (x.transactions (length files)) (migrate_work run_sql f) s
                    h (λ done s' w. keeps f s s' done w h))))
      ]
    ]

  pub migrate_all_keeps :
      (x : MigrationFaults) (a files : List Text) (s : Schema S) (file : Text)
      → Has file s
      → Has file (migrate_all run_sql x a files s).1
  migrate_all_keeps x a files s file =
      migrate_all_inv (Has file) (λ f s s' done. work_keeps file f s s' done) x a files s

  work_created :
      (f : Text) (s s' : Schema S) (done : Unit {0})
      → migrate_work run_sql f s ≡ ok (done, s')
      → create_table run_sql s' ≡ s'
  unfolding migrate_work
  work_created f s s' done h = elim (Result-cases (run_sql f s.rest)) [
    | inr (e, k) ↦ absurd (ground (arith, k))
    | inl (rest, k) ↦ elim (Bool-cases (is_applied f (names_of run_sql s))) [
      | inl y ↦ absurd (ground (arith, k))
      | inr n ↦ ground (arith, k)
    ]
  ]

  pub migrate_all_created :
      (x : MigrationFaults) (a files : List Text) (s : Schema S)
      → create_table run_sql s ≡ s
      → create_table run_sql (migrate_all run_sql x a files s).1
        ≡ (migrate_all run_sql x a files s).1
  migrate_all_created x a files s =
      migrate_all_inv (λ t. create_table run_sql t ≡ t)
        (λ f s s' done w h. work_created f s s' done w) x a files s
