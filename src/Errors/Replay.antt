-- ===== src/Errors/Replay.antt =====
-- Which failures become the stored answer of an idempotency key, and that the stored answer is the
-- one that the error handler sends.
use pulse_ledger.Base.{ℕ, ◌≤◌, ◌<◌, ◌≡◌, none, some, arith, ◌≢◌}
use pulse_ledger.Errors.{
  Failure, ErrorReply, KnownError, known_error, replayable_failure, error_handler,
}

-- A failure that is stored as a key's answer is stored as exactly the reply that the error handler
-- sends for it, and the status of that reply lies in 400–499.
pub replayable_failure-error_handler :
    (e : Failure) (rid : ℕ) (r : ErrorReply)
    → replayable_failure e rid ≡ some r
    → (error_handler e rid ≡ r) × (400 ≤ r.status) × (r.status < 500)
unfolding replayable_failure error_handler
replayable_failure-error_handler e rid r h = ground arith

-- A refusal that the service raises on purpose, with a status in 400–499, is stored as the reply of
-- the error handler.
pub replayable_failure-refusal :
    (e : Failure) (rid : ℕ) (known : KnownError)
    → known_error e ≡ some known
    → 400 ≤ known.status_code
    → known.status_code < 500
    → replayable_failure e rid ≡ some (error_handler e rid)
unfolding replayable_failure error_handler
replayable_failure-refusal e rid known k low high = ground arith

-- Conversely, an error that the service raises on purpose is stored whenever the error handler
-- answers it with a status in 400–499; so it is left unstored exactly when the handler's status
-- is outside that range.
pub replayable_failure-none :
    (e : Failure) (rid : ℕ)
    → known_error e ≢ none
    → replayable_failure e rid ≡ none
    → ¬ ((400 ≤ (error_handler e rid).status) × ((error_handler e rid).status < 500))
unfolding replayable_failure error_handler
replayable_failure-none e rid k h = ground arith
