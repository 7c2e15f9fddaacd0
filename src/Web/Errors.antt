-- ===== src/Web/Errors.antt =====
-- `ApiError`, web/src/lib/api.ts: what the client makes of the server's refusals.
use pulse_ledger.Base.{
  ℕ, ◌≡◌, refl, ◌⊎◌, inl, inr, Bool, true, false, not, ◌&&◌, Option, some, arith, ltb, leb,
  Option-cases,
}
use pulse_ledger.Errors.{
  ErrorCode, idempotency_in_progress, transfer_retry_exhausted, Failure, app_error, domain_error,
  database_error, schema_error, framework_error, unexpected_error, identity_already_mapped,
  ErrorReply, known_error, replayable_failure, error_handler, unknown_error_reply,
}

-- `code`: one of the server's, `ROUTE_NOT_FOUND`, `HTTP_<status>` or `NETWORK_ERROR`.
pub data ClientCode : Type 0 where
  from_server : ErrorCode → ClientCode
  unknown_route http_status network_error : ClientCode

pub record ApiError : Type 0 where
  pub status : ℕ
  pub code : ClientCode
  pub request_id : Option ℕ

abbrev pub is_retryable_code : ErrorCode → Bool
is_retryable_code transfer_retry_exhausted = true
is_retryable_code idempotency_in_progress = true
is_retryable_code _ = false

-- `get retryable`
unfoldable pub retryable : ApiError → Bool
retryable e = elim e.code [
  | from_server c ↦ is_retryable_code c
  | unknown_route ↦ false
  | http_status ↦ false
  | network_error ↦ false
]

-- `get isFinalAnswer`
unfoldable pub is_final_answer : ApiError → Bool
unfolding retryable
is_final_answer e = leb 400 e.status && ltb e.status 500 && not (retryable e)

-- The error that `request` throws for a reply of the server's error handler.
abbrev pub error_of : ErrorReply → ApiError
error_of r = record {
  status = r.status;
  code = from_server r.body.code;
  request_id = some r.body.request_id;
}

abbrev pub FromFramework : Failure → Type 0
FromFramework e = (e ≡ schema_error) ⊎ ((s : ℕ) × (e ≡ framework_error s))

unknown_final :
    (e : Failure) (rid : ℕ)
    → is_final_answer (error_of (unknown_error_reply e rid)) ≡ true
    → FromFramework e
unfolding is_final_answer unknown_error_reply
unknown_final (app_error c s m) rid h = cc
unknown_final (domain_error k c m) rid h = cc
unknown_final (database_error s) rid h = cc
unknown_final schema_error rid h = inl refl
unknown_final (framework_error s) rid h = inr (s, refl)
unknown_final (unexpected_error m) rid h = cc
unknown_final identity_already_mapped rid h = cc

-- A failure that `replayable_failure` makes an answer of is the reply of the error handler, and for
-- the client a final answer, if its code is not one of the two that say to retry. Conversely, if
-- the reply of the error handler is a final answer, then it is what `replayable_failure` makes of
-- the failure, or the failure is Fastify's own.
pub is_final_answer-replayable :
    (e : Failure) (rid : ℕ)
    → ((reply : ErrorReply)
        → replayable_failure e rid ≡ some reply
        → (reply ≡ error_handler e rid)
          × (is_final_answer (error_of reply) ≡ not (is_retryable_code reply.body.code)))
      × (is_final_answer (error_of (error_handler e rid)) ≡ true
          → (replayable_failure e rid ≡ some (error_handler e rid)) ⊎ FromFramework e)
unfolding replayable_failure error_handler is_final_answer
is_final_answer-replayable e rid = elim (Option-cases (known_error e)) [
  | inl unknown ↦ (
    λ reply h. absurd (ground (arith, unknown)),
    λ h. inr (unknown_final e rid (ground (arith, unknown))),
  )
  | inr (k, known) ↦
      (λ reply h. (ground (arith, known), ground (arith, known)), λ h. inl (ground (arith, known)))
]
