-- ===== src/Transfers/Committed.antt =====
-- What a transfer request that succeeds has committed: the transaction of one of its attempts.
use pulse_ledger.Base.{
  ℕ, zero, suc, ◌+◌, ◌≡◌, refl, ◌∙◌, ◌⊎◌, inl, inr, Bool, true, some, List, [], ◌∷◌, ◌++◌, arith,
  update_rows, All, Bool-cases,
}
use pulse_ledger.Errors.{ok}
use pulse_ledger.Ledger.Tables.{Transfer, TransactionType}
use pulse_ledger.Responses.{Body, transfer_body}
use pulse_ledger.Ports.Transaction.{
  Outcome, with_transaction, with_transaction_inv, with_transaction-ok,
}
use pulse_ledger.Idempotency.Records.{
  ClaimKey, ClaimRecord, completed, same_key, is_open, settle, find_record, complete_claim,
}
use pulse_ledger.Idempotency.Keys.{IsKeyed, complete_claim-IsKeyed}
use pulse_ledger.Database.{Db}
use pulse_ledger.Transfers.Domain.{CreateTransferInput}
use pulse_ledger.Transfers.Repository.{Fresh}
use pulse_ledger.Transfers.Service.{
  TransferMetrics, record_retry, TransferRequest, TransferServiceOptions, Attempt, claim_of,
  transfer_work, attempt_loop, create_parsed, create, request_of, retry_delay,
}
use pulse_ledger.Transfers.Once.{completion, transfer_work_completes}
use pulse_ledger.Transfers.Safety.{create_cases}

module _ (work : ℕ → Db → Outcome Transfer Db) (interference : ℕ → Db → Db) (delay : ℕ → ℕ) where
  loop_step_ok :
      (left attempt : ℕ) (m : TransferMetrics) (delays : List ℕ) (db : Db) (t : Transfer)
      → (attempt_loop work interference delay (suc left) attempt m delays db).result ≡ ok t
      → let o = work attempt (interference attempt db) in
        let again =
          attempt_loop work interference delay left
            (attempt + 1)
            (record_retry m)
            (delays ++ delay attempt ∷ [])
            o.database in
        let run = attempt_loop work interference delay (suc left) attempt m delays db in
        ((o.result ≡ ok t) × (run.database ≡ o.database))
        ⊎ ((again.result ≡ ok t) × (run.database ≡ again.database))
  unfolding attempt_loop
  loop_step_ok left attempt m delays db t h = ground arith

  -- A run that returns a transfer returns that of an attempt, and leaves what that one left.
  attempt_loop-ok :
      (P : Db → Type 0) (left attempt : ℕ) (m : TransferMetrics) (delays : List ℕ) (db : Db)
      (t : Transfer)
      → ((n : ℕ) (s : Db) → P s → P (interference n s))
      → ((n : ℕ) (s : Db) → P s → P (work n s).database)
      → P db
      → (attempt_loop work interference delay left attempt m delays db).result ≡ ok t
      → (n : ℕ) × (s : Db) × P s
        × ((work n s).result ≡ ok t)
        × ((attempt_loop work interference delay left attempt m delays db).database
            ≡ (work n s).database)
  unfolding attempt_loop
  attempt_loop-ok P zero attempt m delays db t hi hw p h = absurd (ground arith)
  attempt_loop-ok P (suc left) attempt m delays db t hi hw p h =
      let before = hi attempt db p in
      elim (loop_step_ok left attempt m delays db t h) [
        | inl (r, d) ↦ (attempt, interference attempt db, before, r, d)
        | inr (r, d) ↦
            let (n, s, q, r', d') =
              attempt_loop-ok P left (attempt + 1) (record_retry m) (delays ++ delay attempt ∷ [])
                (work attempt (interference attempt db)).database t hi hw
                (hw attempt (interference attempt db) before) r in
            (n, s, q, r', d ∙ d')
      ]

-- The record of the key, if it is there, is that of a request with the fingerprint.
pub record IsHeld (k : ClaimKey) (fingerprint : ℕ) (db : Db) : Type 0 where
  pub keyed : IsKeyed db.claims
  pub held :
      All
        (λ (r : ClaimRecord). same_key r.id k ≡ true → r.request_fingerprint ≡ fingerprint)
        db.claims

held-settle :
    (k : ClaimKey) (fingerprint status : ℕ) (body : Body) (now : ℕ) (rows : List ClaimRecord)
    → All (λ (r : ClaimRecord). same_key r.id k ≡ true → r.request_fingerprint ≡ fingerprint) rows
    → All
        (λ (r : ClaimRecord). same_key r.id k ≡ true → r.request_fingerprint ≡ fingerprint)
        (update_rows (is_open k) (settle status body now) rows)
held-settle k fingerprint status body now [] h = tt
held-settle k fingerprint status body now (x ∷ rows) (p, h) = elim (Bool-cases (is_open k x)) [
  | inl y ↦ rw y (p, held-settle k fingerprint status body now rows h)
  | inr n ↦ rw n (p, held-settle k fingerprint status body now rows h)
]

found_held :
    (k : ClaimKey) (fingerprint : ℕ) (rows : List ClaimRecord) (r : ClaimRecord)
    → All (λ (x : ClaimRecord). same_key x.id k ≡ true → x.request_fingerprint ≡ fingerprint) rows
    → find_record k rows ≡ some r
    → r.request_fingerprint ≡ fingerprint
unfolding find_record
found_held k fingerprint [] r h f = cc
found_held k fingerprint (x ∷ rows) r (p, h) f = elim (Bool-cases (same_key x.id k)) [
  | inl y ↦ ground (arith, p y)
  | inr n ↦ ground (arith, found_held k fingerprint rows r h)
]

module _ (k : ClaimKey) (fingerprint : ℕ) (ob : Bool) (r : TransferRequest) (fresh : Fresh)
    (db : Db) (t : Transfer) (db' : Db) (claimed : claim_of r ≡ some k)
    (h : transfer_work ob r fresh db ≡ ok (t, db')) where
  transfer_work-IsHeld : IsHeld k fingerprint db → IsHeld k fingerprint db'
  unfolding complete_claim
  transfer_work-IsHeld v =
      let same = (completion ob r fresh k db t db' claimed h).1 in
      record {
        keyed =
            rw same (complete_claim-IsKeyed k 201 (transfer_body t) fresh.now db.claims v.keyed);
        held = rw same (held-settle k fingerprint 201 (transfer_body t) fresh.now db.claims v.held);
      }

-- The record that a transfer leaves under its key.
pub record IsPaid (k : ClaimKey) (fingerprint : ℕ) (t : Transfer) (db : Db) (r : ClaimRecord)
    : Type 0 where
  pub found : find_record k db.claims ≡ some r
  pub finished : r.status ≡ completed
  pub fingerprint_kept : r.request_fingerprint ≡ fingerprint
  pub status : r.response_status ≡ some 201
  pub body : r.response_body ≡ some (transfer_body t)

module _ (o : TransferServiceOptions) (attempts : ℕ → Attempt) (transfer_id : ℕ)
    (input : CreateTransferInput) (principal code fingerprint : ℕ) (m : TransferMetrics) (db : Db)
    (t : Transfer) where
  abbrev key : ClaimKey
  key = record { principal_id = principal; key = code; operation = TransactionType.transfer }

  work-IsPaid :
      (r : TransferRequest) (fresh : Fresh) (s s' : Db)
      → claim_of r ≡ some key
      → IsHeld key fingerprint s
      → transfer_work o.with_outbox r fresh s ≡ ok (t, s')
      → (row : ClaimRecord) × IsPaid key fingerprint t s' row
  work-IsPaid r fresh s s' claimed v h =
      let (one, (row, found, finished, status, body)) =
        transfer_work_completes o.with_outbox r fresh key s t s' claimed h v.keyed in
      let after = transfer_work-IsHeld key fingerprint o.with_outbox r fresh s t s' claimed h v in
      (
        row,
        record {
          found = found;
          finished = finished;
          fingerprint_kept = found_held key fingerprint s'.claims row after.held found;
          status = status;
          body = body;
        },
      )

  create_parsed-IsPaid :
      (r : TransferRequest)
      → claim_of r ≡ some key
      → ((n : ℕ) (s : Db)
          → IsHeld key fingerprint s
          → IsHeld key fingerprint ((attempts n).interference s))
      → IsHeld key fingerprint db
      → (create_parsed o attempts r m db).result ≡ ok t
      → (row : ClaimRecord) × IsPaid key fingerprint t
          (create_parsed o attempts r m db).database
          row
  unfolding create_parsed
  create_parsed-IsPaid r claimed others v h =
      let (n, s, w, made, left) =
        attempt_loop-ok
          (λ n s.
            with_transaction (attempts n).faults (transfer_work o.with_outbox r (attempts n).fresh)
              s)
          (λ n. (attempts n).interference)
          (λ n. retry_delay o.base_retry_delay_ms n (attempts n).jitter) (IsHeld key fingerprint)
          o.max_attempts 1 m [] db t others
          (λ n s w.
            with_transaction_inv (IsHeld key fingerprint) (attempts n).faults
              (transfer_work o.with_outbox r (attempts n).fresh) s w
              (λ t' s' h'.
                transfer_work-IsHeld key fingerprint o.with_outbox r (attempts n).fresh s t' s'
                  claimed h' w))
          v h in
      rw left (
        work-IsPaid r (attempts n).fresh s _ claimed w (
          with_transaction-ok (attempts n).faults (transfer_work o.with_outbox r (attempts n).fresh)
            s t made))

  -- A transfer request under a key that returns a transfer leaves the key's record completed with
  -- it, in whichever attempt it was made.
  pub create-IsPaid :
      ((n : ℕ) (s : Db)
        → IsHeld key fingerprint s
        → IsHeld key fingerprint ((attempts n).interference s))
      → IsHeld key fingerprint db
      → (create o attempts transfer_id input principal (some code) m db).result ≡ ok t
      → (row : ClaimRecord) × IsPaid key fingerprint t
          (create o attempts transfer_id input principal (some code) m db).database
          row
  create-IsPaid others v =
      create_cases
        (λ run. run.result ≡ ok t → (row : ClaimRecord) × IsPaid key fingerprint t run.database row)
        o attempts transfer_id input principal (some code) m db (λ e h. cc)
        (λ amount.
          create_parsed-IsPaid (request_of input amount principal transfer_id (some code)) refl
            others v)
