-- ===== src/Routes/Flow.antt =====
-- What the two routes share: the key is read and claimed, the work is run, and a failure settles
-- the claim. A header's text is its length and a number that stands for the text.
use pulse_ledger.Base.{ℕ, Bool, true, false, ◌||◌, Option, none, some, leb, ◌==◌, if◌then◌else◌}
use pulse_ledger.Errors.{
  Failure, app_error, domain_error, idempotency_error, validation_failed, Result, ok, err,
  replayable_failure, error_handler,
}
use pulse_ledger.Ledger.Tables.{TransactionType}
use pulse_ledger.Responses.{Body, error_body, StoredResponse}
use pulse_ledger.Idempotency.Records.{ClaimKey}
use pulse_ledger.Idempotency.Claim.{ClaimParams, Surroundings, claim_or_replay, settle_failure}
use pulse_ledger.Database.{Db}

pub record Header : Type 0 where
  pub size : ℕ
  pub code : ℕ

-- The three values of `idempotencyKeyFrom`: `undefined`, `null` and a key.
pub data KeyReading : Type 0 where
  no_key too_long : KeyReading
  a_key : ℕ → KeyReading

abbrev pub idempotency_key_max_length : ℕ
idempotency_key_max_length = 256

-- `idempotencyKeyFrom`; a header that is absent or repeated is `none`.
unfoldable pub idempotency_key_from : Option Header → KeyReading
idempotency_key_from none = no_key
idempotency_key_from (some h) =
    if h.size == 0
    then no_key
    else if leb h.size idempotency_key_max_length
    then a_key h.code
    else too_long

-- `error instanceof IdempotencyError`
unfoldable pub is_idempotency_error : Failure → Bool
is_idempotency_error (domain_error idempotency_error c m) = true
is_idempotency_error _ = false

abbrev pub error_response : Failure → ℕ → StoredResponse
error_response e rid = record {
  body = some (error_body (error_handler e rid).body);
  status = some (error_handler e rid).status;
}

abbrev pub answer : Result Body → ℕ → StoredResponse
answer (ok body) rid = record { body = some body; status = some 201 }
answer (err e) rid = error_response e rid

-- The settlement in the `catch`: whether its statement fails, which is logged, and its time.
pub record Settlement : Type 0 where
  pub fails : Bool
  pub now : ℕ

abbrev pub settle_claim : ClaimKey → Settlement → ℕ → Failure → Db → Db
settle_claim k s rid e db =
    if is_idempotency_error e || s.fails
    then db
    else record db { claims = settle_failure k (replayable_failure e rid) s.now db.claims }

abbrev pub after_work : ClaimKey → Settlement → ℕ → Result Body × Db → Db
after_work k s rid (ok body, db) = db
after_work k s rid (err e, db) = settle_claim k s rid e db

-- What the request brings: its identifier, the key's header, the fingerprint of its body, the
-- principal and the operation.
pub record KeyedRequest : Type 0 where
  pub request_id : ℕ
  pub header : Option Header
  pub fingerprint : ℕ
  pub principal_id : ℕ
  pub operation : TransactionType

abbrev pub stale_timeout_ms : ℕ
stale_timeout_ms = 30_000

abbrev pub params_of : KeyedRequest → ℕ → ClaimParams
params_of r code = record {
  id = record { principal_id = r.principal_id; key = code; operation = r.operation };
  fingerprint = r.fingerprint;
  stale_timeout = stale_timeout_ms;
}

abbrev pub key_failure : Failure
key_failure = app_error validation_failed 400 "Idempotency-Key must be 1-256 characters"

-- The handler: the response, and the database after it.
unfoldable pub keyed_route :
    (ℕ → Surroundings)
    → Settlement
    → KeyedRequest
    → (Option ClaimKey → Db → Result Body × Db)
    → Db
    → StoredResponse × Db
keyed_route around s r work db = elim (idempotency_key_from r.header) [
  | too_long ↦ (error_response key_failure r.request_id, db)
  | no_key ↦ let w = work none db in (answer w.0 r.request_id, w.1)
  | a_key code ↦
      let p = params_of r code in
      let c = claim_or_replay around p db.claims in
      let claimed = record db { claims = c.1 } in
      elim c.0 [
        | err e ↦ (error_response e r.request_id, claimed)
        | ok found ↦ elim found [
          | some response ↦ (response, claimed)
          | none ↦
              let w = work (some p.id) claimed in
              (answer w.0 r.request_id, after_work p.id s r.request_id w)
        ]
      ]
]
