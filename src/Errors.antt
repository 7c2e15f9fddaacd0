-- ===== src/Errors.antt =====
-- The errors of the service as values, and the responses they become: src/errors.ts, and the error
-- classes of the modules' *-domain.ts files.
pub mod Replay
use pulse_ledger.Base.{
  ◌⊎◌, inl, inr, ◌≡◌, refl, ℕ, String, ◌≤◌, ◌<◌, ◌≡◌, refl, Bool, true, false, ◌||◌, Option, none,
  some, ltb, leb, if◌then◌else◌,
}

-- Every public code, under the name it has in `domainErrorStatus` and in the `AppError` calls.
pub data ErrorCode : Type 0 where
  account_not_active account_not_found api_key_not_found currency_mismatch : ErrorCode
  email_not_verified idempotency_conflict idempotency_in_progress insufficient_funds : ErrorCode
  invalid_amount invalid_cursor invalid_posting mixed_currency_posting : ErrorCode
  principal_not_found self_transfer transfer_not_found transfer_retry_exhausted : ErrorCode
  treasury_not_found unauthorized unbalanced_posting : ErrorCode
  validation_failed request_rejected internal_error auth_provider_unavailable : ErrorCode

-- The class that an error is an instance of.
pub data ErrorClass : Type 0 where
  ledger_error transfer_error idempotency_error auth_error account_error : ErrorClass

-- The SQLSTATE of an error that PostgreSQL raises; `connection_failure` is a lost connection.
pub data SqlState : Type 0 where
  serialization_failure deadlock_detected : SqlState
  invalid_parameter foreign_key_violation check_violation unique_violation : SqlState
  numeric_out_of_range invalid_datetime connection_failure : SqlState

-- What a `catch` may catch.
pub data Failure : Type 0 where
  app_error : ErrorCode → ℕ → String → Failure
  domain_error : ErrorClass → ErrorCode → String → Failure
  database_error : SqlState → Failure
  schema_error : Failure
  framework_error : ℕ → Failure
  unexpected_error : String → Failure
  -- `IdentityAlreadyMapped`, which the authentication store throws and catches itself.
  identity_already_mapped : Failure

pub data Result {ℓ} (A : Type ℓ) : Type ℓ where
  ok : A → Result A
  err : Failure → Result A

-- `if (test) throw failure`
abbrev pub throw_if : Bool → Failure → Result (Unit {0})
throw_if true e = err e
throw_if false e = ok tt

-- `if (!row) throw failure`
abbrev pub or_throw {ℓ} : {A : Type ℓ} → Option A → Failure → Result A
or_throw none e = err e
or_throw (some a) e = ok a

-- An `await` that throws leaves the function.
infixl 5 ◌>>=◌ ◌>>◌
abbrev pub ◌>>=◌ {ℓ κ} : {S : Type ℓ} {T : Type κ} → Result S → (S → Result T) → Result T
err e >>= next = err e
ok a >>= next = next a

abbrev pub ◌>>◌ {ℓ} : {T : Type ℓ} → Result (Unit {0}) → Result T → Result T
err e >> next = err e
ok done >> next = next

pub record ErrorResponse : Type 0 where
  pub code : ErrorCode
  pub message : String
  pub request_id : ℕ

pub record ErrorReply : Type 0 where
  pub status : ℕ
  pub body : ErrorResponse

-- `domainErrorStatus`, as a lookup: `none` is a code that is no key of the table.
unfoldable pub domain_error_status : ErrorCode → Option ℕ
domain_error_status account_not_active = some 409
domain_error_status account_not_found = some 404
domain_error_status api_key_not_found = some 404
domain_error_status currency_mismatch = some 400
domain_error_status email_not_verified = some 403
domain_error_status idempotency_conflict = some 409
domain_error_status idempotency_in_progress = some 409
domain_error_status insufficient_funds = some 409
domain_error_status invalid_amount = some 400
domain_error_status invalid_cursor = some 400
domain_error_status invalid_posting = some 400
domain_error_status mixed_currency_posting = some 400
domain_error_status principal_not_found = some 404
domain_error_status self_transfer = some 400
domain_error_status transfer_not_found = some 404
domain_error_status transfer_retry_exhausted = some 503
domain_error_status treasury_not_found = some 500
domain_error_status unauthorized = some 401
domain_error_status unbalanced_posting = some 400
domain_error_status validation_failed = none
domain_error_status request_rejected = none
domain_error_status internal_error = none
domain_error_status auth_provider_unavailable = none

pub record KnownError : Type 0 where
  pub code : ErrorCode
  pub message : String
  pub status_code : ℕ

-- `knownError`
unfoldable pub known_error : Failure → Option KnownError
unfolding domain_error_status
known_error (app_error c s m) = some (record { code = c; message = m; status_code = s })
known_error (domain_error k c m) = elim (domain_error_status c) [
  | none ↦ none
  | some s ↦ some (record { code = c; message = m; status_code = s })
]
known_error (database_error s) = none
known_error schema_error = none
known_error (framework_error s) = none
known_error (unexpected_error m) = none
known_error identity_already_mapped = none

abbrev pub known_reply : KnownError → ℕ → ErrorReply
known_reply k rid = record {
  status = k.status_code;
  body = record { code = k.code; message = k.message; request_id = rid };
}

-- `replayableFailure`
unfoldable pub replayable_failure : Failure → ℕ → Option ErrorReply
unfolding known_error
replayable_failure e rid = elim (known_error e) [
  | none ↦ none
  | some k ↦
      if ltb k.status_code 400 || leb 500 k.status_code then none else some (known_reply k rid)
]

-- The last branch of `errorHandler`.
abbrev pub internal_reply : ℕ → ErrorReply
internal_reply rid = record {
  status = 500;
  body = record {
    code = internal_error;
    message = "An unexpected error occurred";
    request_id = rid;
  };
}

-- The part of `errorHandler` behind its first `return`.
unfoldable pub unknown_error_reply : Failure → ℕ → ErrorReply
unknown_error_reply schema_error rid = record {
  status = 400;
  body = record {
    code = validation_failed;
    message = "Request validation failed";
    request_id = rid;
  };
}
unknown_error_reply (framework_error s) rid =
    if ltb s 400 || leb 500 s then internal_reply rid else record {
      status = s;
      body = record {
        code = request_rejected;
        message = "The request could not be processed";
        request_id = rid;
      };
    }
unknown_error_reply _ rid = internal_reply rid

-- `errorHandler`
unfoldable pub error_handler : Failure → ℕ → ErrorReply
unfolding known_error unknown_error_reply
error_handler e rid = elim (known_error e) [
  | some k ↦ known_reply k rid
  | none ↦ unknown_error_reply e rid
]

-- To split on a computed result and keep the equation.
pub Result-cases {ℓ} :
    {A : Type ℓ} (m : Result A) → ((a : A) × (m ≡ ok a)) ⊎ ((e : Failure) × (m ≡ err e))
Result-cases (ok a) = inl (a, refl)
Result-cases (err e) = inr (e, refl)
