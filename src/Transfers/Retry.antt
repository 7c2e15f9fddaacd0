-- ===== src/Transfers/Retry.antt =====
-- The retry loop of `create`: how often it tries, how long it waits, what it counts, and what it
-- leaves in the database.
use mathlib.Core.Path.{subst}
use pulse_ledger.Base.{
  ℕ, zero, suc, ◌+◌, ◌-◌, ◌*◌, ◌/◌, ◌^◌, ◌≤◌, ◌<◌, ◌≡◌, sym, ◌⊎◌, inl, inr, true, List, [], ◌∷◌,
  ◌++◌, min, arith, length, length-append,
}
use pulse_ledger.Base.Jitter.{jittered_bounds}
use pulse_ledger.Errors.{Failure, Result, ok, err, Result-cases}
use pulse_ledger.Ledger.Tables.{Transfer}
use pulse_ledger.Ports.Transaction.{Outcome}
use pulse_ledger.Database.{Db}
use pulse_ledger.Transfers.Domain.{exhausted_failure}
use pulse_ledger.Transfers.Service.{
  TransferMetrics, record_retry, is_retryable, retry_delay, Run, attempt_loop,
}

-- The delay before a retry is at most 50 milliseconds, and at least half of the capped exponential
-- delay, rounded down.
pub retry_delay_bounds :
    (base attempt r : ℕ)
    → r < 2 ^ 53
    → (min (base * 2 ^ (attempt - 1)) 50 / 2 ≤ retry_delay base attempt r)
      × (retry_delay base attempt r ≤ 50)
unfolding retry_delay
retry_delay_bounds base attempt r h =
    let b = jittered_bounds (min (base * 2 ^ (attempt - 1)) 50) r h in
    (omega (arith, b.0), omega (arith, b.1))

-- What the counters say after a run that began at `m`, with `left` attempts and `waits` delays.
abbrev pub Counted : Result Transfer → TransferMetrics → TransferMetrics → Type 0
Counted (ok t) m m' = (m'.completed ≡ m.completed + 1) × (m'.exhausted ≡ m.exhausted)
Counted (err e) m m' =
    (m'.completed ≡ m.completed)
    × ((m'.exhausted ≡ m.exhausted) ⊎ ((m'.exhausted ≡ m.exhausted + 1) × (e ≡ exhausted_failure)))

module _ (work : ℕ → Db → Outcome Transfer Db) (interference : ℕ → Db → Db) (delay : ℕ → ℕ) where
  abbrev loop : ℕ → ℕ → TransferMetrics → List ℕ → Db → Run
  loop = attempt_loop work interference delay

  -- The loop waits once for each retry that it counts, and fewer times than it has attempts.
  pub attempt_loop_retries :
      (left attempt : ℕ) (m : TransferMetrics) (delays : List ℕ) (db : Db)
      → let run = loop (suc left) attempt m delays db in
        (run.metrics.retries + length delays ≡ m.retries + length run.delays)
        × (length run.delays ≤ length delays + left)
  unfolding attempt_loop
  attempt_loop_retries zero attempt m delays db = ground arith
  attempt_loop_retries (suc left) attempt m delays db = ground (
    arith,
    length-append delays (delay attempt ∷ []),
    attempt_loop_retries left (attempt + 1) (record_retry m) (delays ++ delay attempt ∷ [])
        (work attempt (interference attempt db)).database,
  )

  -- A run counts one completed transfer if it returns one, and none if it throws; it counts an
  -- exhausted budget only with the error that says so.
  pub attempt_loop-Counted :
      (left attempt : ℕ) (m : TransferMetrics) (delays : List ℕ) (db : Db)
      → let run = loop (suc left) attempt m delays db in Counted run.result m run.metrics
  unfolding attempt_loop
  attempt_loop-Counted zero attempt m delays db = ground arith
  attempt_loop-Counted (suc left) attempt m delays db = ground (
    arith,
    attempt_loop-Counted left (attempt + 1) (record_retry m) (delays ++ delay attempt ∷ [])
        (work attempt (interference attempt db)).database,
  )

  -- If every attempt meets a serialization failure or a deadlock, the run ends after its last
  -- attempt with `TRANSFER_RETRY_EXHAUSTED`, having waited between any two attempts.
  pub attempt_loop_exhausted :
      (left attempt : ℕ) (m : TransferMetrics) (delays : List ℕ) (db : Db)
      → ((n : ℕ) (s : Db) → (e : Failure) × ((work n s).result ≡ err e) × (is_retryable e ≡ true))
      → let run = loop (suc left) attempt m delays db in
        (run.result ≡ err exhausted_failure)
        × (length run.delays ≡ length delays + left)
        × (run.metrics.exhausted ≡ m.exhausted + 1)
  unfolding attempt_loop
  attempt_loop_exhausted zero attempt m delays db h =
      let (e, f, r) = h attempt (interference attempt db) in ground arith
  attempt_loop_exhausted (suc left) attempt m delays db h =
      let (e, f, r) = h attempt (interference attempt db) in
      ground (
        arith,
        length-append delays (delay attempt ∷ []),
        attempt_loop_exhausted left (attempt + 1) (record_retry m) (delays ++ delay attempt ∷ [])
            (work attempt (interference attempt db)).database h,
      )

  abbrev again : ℕ → ℕ → TransferMetrics → List ℕ → Db → Run
  again left attempt m delays db =
      loop left (attempt + 1) (record_retry m) (delays ++ delay attempt ∷ [])
        (work attempt (interference attempt db)).database

  loop_step :
      (left attempt : ℕ) (m : TransferMetrics) (delays : List ℕ) (db : Db)
      → ((loop (suc left) attempt m delays db).database
          ≡ (work attempt (interference attempt db)).database)
        ⊎ ((loop (suc left) attempt m delays db).database
            ≡ (again left attempt m delays db).database)
  unfolding attempt_loop
  loop_step left attempt m delays db = ground arith

  loop_step_err :
      (left attempt : ℕ) (m : TransferMetrics) (delays : List ℕ) (db : Db) (e : Failure)
      → (loop (suc left) attempt m delays db).result ≡ err e
      → ((loop (suc left) attempt m delays db).database
          ≡ (work attempt (interference attempt db)).database)
        ⊎ (((loop (suc left) attempt m delays db).database
              ≡ (again left attempt m delays db).database)
            × ((again left attempt m delays db).result ≡ err e))
  unfolding attempt_loop
  loop_step_err left attempt m delays db e h = ground arith

  -- Whatever every session's work and every attempt's transaction keep, the run keeps.
  pub attempt_loop_inv {κ} :
      (P : Db → Type κ) (left attempt : ℕ) (m : TransferMetrics) (delays : List ℕ) (db : Db)
      → ((n : ℕ) (s : Db) → P s → P (interference n s))
      → ((n : ℕ) (s : Db) → P s → P (work n s).database)
      → P db
      → P (loop left attempt m delays db).database
  unfolding attempt_loop
  attempt_loop_inv P zero attempt m delays db hi hw p = p
  attempt_loop_inv P (suc left) attempt m delays db hi hw p =
      let now = hw attempt _ (hi attempt db p) in
      let later =
        attempt_loop_inv P left (attempt + 1) (record_retry m) (delays ++ delay attempt ∷ []) _ hi
          hw now in
      elim (loop_step left attempt m delays db) [
        | inl e ↦ subst P (sym e) now
        | inr e ↦ subst P (sym e) later
      ]

  -- A run that throws has written nothing of its own, if no attempt that throws has: a property
  -- of the database that the other sessions keep is kept.
  pub attempt_loop_err {κ} :
      (P : Db → Type κ) (left attempt : ℕ) (m : TransferMetrics) (delays : List ℕ) (db : Db)
      (e : Failure)
      → ((n : ℕ) (s : Db) → P s → P (interference n s))
      → ((n : ℕ) (s : Db) (f : Failure) → (work n s).result ≡ err f → (work n s).database ≡ s)
      → P db
      → (loop left attempt m delays db).result ≡ err e
      → P (loop left attempt m delays db).database
  unfolding attempt_loop
  attempt_loop_err P zero attempt m delays db e hi hw p h = p
  attempt_loop_err P (suc left) attempt m delays db e hi hw p h =
      elim (Result-cases (work attempt (interference attempt db)).result) [
        | inl (t, o) ↦ absurd (ground arith)
        | inr (f, o) ↦
            let now : P (work attempt (interference attempt db)).database =
              subst P (sym (hw attempt _ f o)) (hi attempt db p) in
            elim (loop_step_err left attempt m delays db e h) [
              | inl same ↦ subst P (sym same) now
              | inr (same, again) ↦ subst P (sym same) (
                  attempt_loop_err P left (attempt + 1) (record_retry m)
                    (delays ++ delay attempt ∷ []) _ e hi hw now again)
            ]
      ]
