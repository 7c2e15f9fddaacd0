-- ===== src/Http/Firebase.antt =====
-- `createFirebaseTokenVerifier`, src/infrastructure/http/firebase-id-token.ts. `jwtVerify` is the
-- package jose's; it is a parameter, with the checks that it documents as its law.
use pulse_ledger.Base.{
  ℕ, ◌+◌, ◌≤◌, ◌≡◌, refl, Bool, true, false, ◌||◌, Option, none, some, ◌⊎◌, List, [], ◌∷◌, ◌++◌,
  arith, leb, ltb, length, if◌then◌else◌, Bool-cases, inl, inr,
}
use pulse_ledger.Base.Decimal.{Text}
use pulse_ledger.Errors.{
  Failure, app_error, unauthorized, auth_provider_unavailable, Result, ok, err, Result-cases, ◌>>=◌,
  ◌>>◌, throw_if,
}
use pulse_ledger.Auth.Store.{ExternalIdentity}

-- A claim of the payload, as far as the verifier tells its value apart; a date is a number of seconds.
pub data Claim : Type 0 where
  number : ℕ → Claim
  text : Text → Claim
  truth : Claim
  anything_else : Claim

pub record JwtPayload : Type 0 where
  pub aud : List Text
  pub iss : Text
  pub iat : Claim
  pub auth_time : Claim
  pub sub : Claim
  pub name : Claim
  pub email : Claim
  pub email_verified : Claim

-- The options that the verifier passes; the list of required claims and the algorithm are fixed.
pub record JwtOptions : Type 0 where
  pub audience : Text
  pub issuer : Text
  pub clock_tolerance : ℕ

-- An error is one of `tokenErrorTypes`, or any other.
pub data JwtOutcome : Type 0 where
  verified : JwtPayload → JwtOutcome
  token_error : JwtOutcome
  other_error : JwtOutcome

-- The audience of a token, which is a text or an array of texts, has a text.
abbrev pub IsAmong : Text → List Text → Type 0
IsAmong t [] = ⊥
IsAmong t (x ∷ xs) = (x ≡ t) ⊎ IsAmong t xs

pub record Jose : Type 0 where
  pub jwt_verify : JwtOptions → Text → JwtOutcome
  pub checks_audience :
      (o : JwtOptions) (t : Text) (p : JwtPayload)
      → jwt_verify o t ≡ verified p
      → IsAmong o.audience p.aud
  pub checks_issuer :
      (o : JwtOptions) (t : Text) (p : JwtPayload) → jwt_verify o t ≡ verified p → p.iss ≡ o.issuer

abbrev pub max_subject_length : ℕ
max_subject_length = 128

abbrev pub default_clock_tolerance : ℕ
default_clock_tolerance = 5

-- `https://securetoken.google.com/`
abbrev pub issuer_base : Text
issuer_base =
    b'h' ∷ b't' ∷ b't' ∷ b'p' ∷ b's' ∷ b':' ∷ b'/' ∷ b'/' ∷ b's' ∷ b'e' ∷ b'c' ∷ b'u' ∷ b'r' ∷ b'e'
    ∷ b't' ∷ b'o' ∷ b'k' ∷ b'e' ∷ b'n' ∷ b'.' ∷ b'g' ∷ b'o' ∷ b'o' ∷ b'g' ∷ b'l' ∷ b'e' ∷ b'.'
    ∷ b'c' ∷ b'o' ∷ b'm' ∷ b'/' ∷ []

-- `firebase:`
abbrev pub provider_prefix : Text
provider_prefix = b'f' ∷ b'i' ∷ b'r' ∷ b'e' ∷ b'b' ∷ b'a' ∷ b's' ∷ b'e' ∷ b':' ∷ []

abbrev pub options_of : Text → JwtOptions
options_of project_id = record {
  audience = project_id;
  issuer = issuer_base ++ project_id;
  clock_tolerance = default_clock_tolerance;
}

abbrev pub invalid_token : Failure
invalid_token = app_error unauthorized 401 "Invalid or expired ID token"

abbrev pub keys_unavailable : Failure
keys_unavailable =
    app_error auth_provider_unavailable 503 "Identity provider keys are unavailable; retry shortly"

-- `typeof claim !== 'number' || claim > nowSeconds + clockTolerance`
abbrev pub is_not_past : ℕ → Claim → Bool
is_not_past now (number t) = ltb (now + default_clock_tolerance) t
is_not_past now (text s) = true
is_not_past now truth = true
is_not_past now anything_else = true

abbrev pub text_of : Claim → Option Text
text_of (text s) = some s
text_of (number n) = none
text_of truth = none
text_of anything_else = none

abbrev pub is_true : Claim → Bool
is_true truth = true
is_true (number n) = false
is_true (text s) = false
is_true anything_else = false

-- The checks on `payload.sub`.
abbrev pub read_subject : Claim → Result Text
read_subject (text s) =
    if leb (length s) 0 || ltb max_subject_length (length s) then err invalid_token else ok s
read_subject (number n) = err invalid_token
read_subject truth = err invalid_token
read_subject anything_else = err invalid_token

-- The subject is compared and nothing else: `code` gives its number.
abbrev pub identity_of : (Text → ℕ) → JwtPayload → Text → ExternalIdentity
identity_of code p subject = record {
  display_name = text_of p.name;
  email = text_of p.email;
  email_verified = is_true p.email_verified;
  subject = code subject;
  subject_text = provider_prefix ++ subject;
}

-- What follows `jwtVerify`.
unfoldable pub read_payload : (Text → ℕ) → ℕ → JwtPayload → Result ExternalIdentity
read_payload code now p = do
  throw_if (is_not_past now p.iat || is_not_past now p.auth_time) invalid_token
  subject ← read_subject p.sub
  ok (identity_of code p subject)

-- `verifyFirebaseToken`
unfoldable pub verify_firebase_token : Jose → (Text → ℕ) → Text → ℕ → Text → Result ExternalIdentity
unfolding read_payload
verify_firebase_token jose code project_id now token =
    elim (jose.jwt_verify (options_of project_id) token) [
      | token_error ↦ err invalid_token
      | other_error ↦ err keys_unavailable
      | verified p ↦ read_payload code now p
    ]

-- What an accepted token says.
pub record IsAccepted (code : Text → ℕ) (project_id : Text) (now : ℕ) (p : JwtPayload)
    (i : ExternalIdentity) : Type 0 where
  pub for_project : IsAmong project_id p.aud
  pub by_issuer : p.iss ≡ issuer_base ++ project_id
  pub issued : (t : ℕ) × (p.iat ≡ number t) × (t ≤ now + default_clock_tolerance)
  pub authenticated : (t : ℕ) × (p.auth_time ≡ number t) × (t ≤ now + default_clock_tolerance)
  pub subject :
      (s : Text) × (p.sub ≡ text s)
      × (1 ≤ length s)
      × (length s ≤ max_subject_length)
      × (i.subject ≡ code s)
  pub email_checked : i.email_verified ≡ is_true p.email_verified

past :
    (now : ℕ) (c : Claim)
    → is_not_past now c ≡ false
    → (t : ℕ) × (c ≡ number t) × (t ≤ now + default_clock_tolerance)
past now (number t) h = (t, refl, ground arith)
past now (text s) h = cc
past now truth h = cc
past now anything_else h = cc

subject_read :
    (c : Claim) (s : Text)
    → read_subject c ≡ ok s
    → (c ≡ text s) × (1 ≤ length s) × (length s ≤ max_subject_length)
subject_read (text s') s h = (ground arith, ground arith, ground arith)
subject_read (number n) s h = cc
subject_read truth s h = cc
subject_read anything_else s h = cc

read_payload-IsAccepted :
    (code : Text → ℕ) (project_id : Text) (now : ℕ) (p : JwtPayload) (i : ExternalIdentity)
    → IsAmong project_id p.aud
    → p.iss ≡ issuer_base ++ project_id
    → read_payload code now p ≡ ok i
    → IsAccepted code project_id now p i
unfolding read_payload
read_payload-IsAccepted code project_id now p i aud iss h =
    elim (Bool-cases (is_not_past now p.iat || is_not_past now p.auth_time)) [
      | inl y ↦ absurd (ground arith)
      | inr n ↦ elim (Result-cases (read_subject p.sub)) [
        | inr (e, f) ↦ absurd (ground arith)
        | inl (s, found) ↦
            let (is, low, high) = subject_read p.sub s found in
            record {
              for_project = aud;
              by_issuer = iss;
              issued = past now p.iat (ground arith);
              authenticated = past now p.auth_time (ground arith);
              subject = (s, is, low, high, ground arith);
              email_checked = ground arith;
            }
      ]
    ]

-- An ID token is accepted only if its audience has the configured project and its issuer is the
-- project's, it says that it was issued and authenticated no later than now (with the tolerance),
-- and it names a subject of 1 to 128 characters, which is the identity's; only a claim `true`
-- counts as a verified email. What jose checks of audience and issuer is its law.
pub verify_firebase_token-IsAccepted :
    (jose : Jose) (code : Text → ℕ) (project_id : Text) (now : ℕ) (token : Text)
    (i : ExternalIdentity)
    → verify_firebase_token jose code project_id now token ≡ ok i
    → (p : JwtPayload) × (jose.jwt_verify (options_of project_id) token ≡ verified p)
      × IsAccepted code project_id now p i
unfolding verify_firebase_token
verify_firebase_token-IsAccepted jose code project_id now token i h =
    outcome (jose.jwt_verify (options_of project_id) token) refl h
  where
    outcome :
        (o : JwtOutcome)
        → jose.jwt_verify (options_of project_id) token ≡ o
        → (elim o [
          | token_error ↦ err invalid_token
          | other_error ↦ err keys_unavailable
          | verified p ↦ read_payload code now p
        ])
          ≡ ok i
        → (p : JwtPayload) × (jose.jwt_verify (options_of project_id) token ≡ verified p)
          × IsAccepted code project_id now p i
    outcome token_error e h = cc
    outcome other_error e h = cc
    outcome (verified p) e h = (
      p,
      e,
      read_payload-IsAccepted code project_id now p i
          (jose.checks_audience (options_of project_id) token p e)
          (jose.checks_issuer (options_of project_id) token p e) h,
    )
