-- ===== src/Auth/Service.antt =====
-- `AuthService`, src/modules/auth/auth-service.ts, and the two guards in src/infrastructure/http/.
-- SHA-256 and the provider's Unicode rules are the platform's: `hash` and `sanitize` stand for them.
use pulse_ledger.Base.{
  ℕ, not, ◌&&◌, Option, none, some, [], ◌∷◌, ◌++◌, ltb, ◌==◌, if◌then◌else◌, length, take,
}
use pulse_ledger.Base.Decimal.{Text}
use pulse_ledger.Errors.{
  Failure, app_error, domain_error, auth_error, unauthorized, email_not_verified,
  principal_not_found, api_key_not_found, Result, ok, err, ◌>>=◌, ◌>>◌, throw_if, or_throw,
}
use pulse_ledger.Ports.Transaction.{Faults}
use pulse_ledger.Auth.Store.{
  is_enabled, Principal, ApiKey, ExternalIdentity, AuthTables, same_text, find_principal_by_id,
  find_key_candidate_by_prefix, insert_api_key, revoke_api_key, find_principal_by_identity,
  create_principal_for_identity,
}

-- `pl_live_`
abbrev pub api_key_tag : Text
api_key_tag = b'p' ∷ b'l' ∷ b'_' ∷ b'l' ∷ b'i' ∷ b'v' ∷ b'e' ∷ b'_' ∷ []

abbrev pub api_key_prefix_length : ℕ
api_key_prefix_length = 12

-- `secret.startsWith(tag)`, with what follows the tag.
unfoldable pub strip_prefix : Text → Text → Option Text
strip_prefix [] secret = some secret
strip_prefix (c ∷ tag) [] = none
strip_prefix (c ∷ tag) (d ∷ secret) =
    let rest = strip_prefix tag secret in if c == d then rest else none

-- `apiKeyPrefixOf`
unfoldable pub api_key_prefix_of : Text → Option Text
api_key_prefix_of secret = elim (strip_prefix api_key_tag secret) [
  | none ↦ none
  | some body ↦
      if ltb (length body) api_key_prefix_length
      then none
      else some (take api_key_prefix_length body)
]

abbrev pub invalid_key : Failure
invalid_key = domain_error auth_error unauthorized "Invalid API key"

-- `authenticate`
unfoldable pub authenticate : (Text → ℕ) → Text → AuthTables → Result Principal
authenticate hash secret t = do
  prefix ← or_throw (api_key_prefix_of secret) invalid_key
  candidate ← or_throw (find_key_candidate_by_prefix prefix t) invalid_key
  throw_if (not (candidate.key_hash == hash secret)) invalid_key
  throw_if (not (is_enabled candidate.principal.status)) invalid_key
  ok candidate.principal

-- `generateApiKey` on the 43 characters that it draws, and `issueApiKey`.
unfoldable pub issue_api_key :
    (Text → ℕ) → ℕ → ℕ → Text → ℕ → AuthTables → Result ((ApiKey × Text) × AuthTables)
issue_api_key hash id now drawn principal_id t = do
  principal ←
      or_throw (find_principal_by_id principal_id t)
        (domain_error auth_error principal_not_found "Principal not found")
  let secret = api_key_tag ++ drawn
  (row, stored) ←
      insert_api_key id now principal_id (take api_key_prefix_length drawn) (hash secret) t
  ok ((row, secret), stored)

-- `revokeApiKey`
unfoldable pub revoke : ℕ → ℕ → AuthTables → Result (Unit {0} × AuthTables)
revoke id now t =
    let r = revoke_api_key id now t in
    if r.0
    then ok (tt, r.1)
    else err (domain_error auth_error api_key_not_found "API key not found")

abbrev pub name_of : (Option Text → ℕ → Option Text) → ExternalIdentity → Text
name_of sanitize i = elim (sanitize i.display_name 128) [
  | some name ↦ name
  | none ↦ elim (sanitize i.email 128) [ some email ↦ email | none ↦ take 128 i.subject_text ]
]

abbrev pub checked_principal : Result Principal → Result Principal
checked_principal (err e) = err e
checked_principal (ok p) =
    if is_enabled p.status
    then ok p
    else err (domain_error auth_error unauthorized "Invalid credentials")

-- `authenticateIdentity`; `between` is what other sessions commit after the lookup.
unfoldable pub authenticate_identity :
    (Option Text → ℕ → Option Text)
    → Faults
    → (AuthTables → AuthTables)
    → ℕ
    → ℕ
    → ExternalIdentity
    → AuthTables
    → Result Principal × AuthTables
authenticate_identity sanitize f between id now i t =
    if not i.email_verified
    then (
      err (
          domain_error auth_error email_not_verified "Verify your email address before signing in"),
      t,
    )
    else elim (find_principal_by_identity i.subject t) [
      | some p ↦ (checked_principal (ok p), t)
      | none ↦
          let o =
            create_principal_for_identity f id now (record i { email = sanitize i.email 320 })
              (name_of sanitize i) (between t) in
          (checked_principal o.result, o.database)
    ]

-- `requireAdminApiKey`: `timingSafeEqual` on buffers of one length is equality.
unfoldable pub require_admin_api_key : Text → Option Text → Result (Unit {0})
require_admin_api_key expected none = err (app_error unauthorized 401 "Missing admin API key")
require_admin_api_key expected (some []) = err (app_error unauthorized 401 "Missing admin API key")
require_admin_api_key expected (some (c ∷ cs)) =
    throw_if (not (length (c ∷ cs) == length expected && same_text (c ∷ cs) expected))
      (app_error unauthorized 401 "Invalid admin API key")
