-- ===== src/Operations/Config.antt =====
-- `loadConfig`, src/config.ts. Of a variable that holds a number, the environment gives what
-- `Number` makes of it.
use pulse_ledger.Base.{
  ℕ, Bool, false, ◌&&◌, ◌||◌, Option, none, some, List, [], ◌∷◌, leb, ltb, ◌==◌, length, any,
  if◌then◌else◌,
}
use pulse_ledger.Base.Decimal.{Text, is_digit}
use pulse_ledger.Base.Trim.{is_white, trim_by}
use pulse_ledger.Errors.{Failure, unexpected_error, Result, ok, err, ◌>>=◌}
use pulse_ledger.Auth.Store.{same_text}
use pulse_ledger.Operations.Arguments.{JsNumber, positive_integer, or_invalid}

-- `process.env`
pub record Environment : Type 0 where
  pub database_url : Option Text
  pub admin_api_key : Option Text
  pub node_env : Option Text
  pub log_level : Option Text
  pub outbox_batch_size : Option JsNumber
  pub outbox_claim_lease_seconds : Option JsNumber
  pub outbox_max_attempts : Option JsNumber
  pub outbox_poll_interval_ms : Option JsNumber
  pub request_body_limit_bytes : Option JsNumber
  pub connection_timeout_ms : Option JsNumber
  pub keep_alive_timeout_ms : Option JsNumber
  pub request_timeout_ms : Option JsNumber
  pub firebase_project_id : Option Text
  pub host : Option Text
  pub port : Option JsNumber

pub data NodeEnvironment : Type 0 where
  development test production : NodeEnvironment

pub record OutboxConfig : Type 0 where
  pub batch_size : ℕ
  pub claim_lease_seconds : ℕ
  pub max_attempts : ℕ
  pub poll_interval_ms : ℕ

pub record RequestLimitsConfig : Type 0 where
  pub body_limit_bytes : ℕ
  pub connection_timeout_ms : ℕ
  pub keep_alive_timeout_ms : ℕ
  pub request_timeout_ms : ℕ

pub record AppConfig : Type 0 where
  pub admin_api_key : Text
  pub database_url : Text
  pub firebase_project_id : Option Text
  pub host : Text
  pub log_level : Text
  pub node_env : NodeEnvironment
  pub outbox : OutboxConfig
  pub port : ℕ
  pub request_limits : RequestLimitsConfig

abbrev pub development_word : Text
development_word = b'd' ∷ b'e' ∷ b'v' ∷ b'e' ∷ b'l' ∷ b'o' ∷ b'p' ∷ b'm' ∷ b'e' ∷ b'n' ∷ b't' ∷ []

abbrev pub test_word : Text
test_word = b't' ∷ b'e' ∷ b's' ∷ b't' ∷ []

abbrev pub production_word : Text
production_word = b'p' ∷ b'r' ∷ b'o' ∷ b'd' ∷ b'u' ∷ b'c' ∷ b't' ∷ b'i' ∷ b'o' ∷ b'n' ∷ []

-- The words in which `NODE_ENV` may be given.
unfoldable pub read_node_env : Option Text → Result NodeEnvironment
read_node_env none = ok development
read_node_env (some t) =
    if same_text t development_word
    then ok development
    else if same_text t test_word
    then ok test
    else if same_text t production_word
    then ok production
    else err (unexpected_error "NODE_ENV must be development, test, or production")

abbrev pub info_word : Text
info_word = b'i' ∷ b'n' ∷ b'f' ∷ b'o' ∷ []

abbrev pub valid_log_levels : List Text
valid_log_levels =
    (b'f' ∷ b'a' ∷ b't' ∷ b'a' ∷ b'l' ∷ [])
    ∷ (b'e' ∷ b'r' ∷ b'r' ∷ b'o' ∷ b'r' ∷ [])
    ∷ (b'w' ∷ b'a' ∷ b'r' ∷ b'n' ∷ [])
    ∷ info_word
    ∷ (b'd' ∷ b'e' ∷ b'b' ∷ b'u' ∷ b'g' ∷ [])
    ∷ (b't' ∷ b'r' ∷ b'a' ∷ b'c' ∷ b'e' ∷ [])
    ∷ (b's' ∷ b'i' ∷ b'l' ∷ b'e' ∷ b'n' ∷ b't' ∷ [])
    ∷ []

-- `0.0.0.0`
abbrev pub any_host : Text
any_host = b'0' ∷ b'.' ∷ b'0' ∷ b'.' ∷ b'0' ∷ b'.' ∷ b'0' ∷ []

abbrev pub is_valid_log_level : Text → Bool
is_valid_log_level t = any (λ l. same_text l t) valid_log_levels

abbrev pub minimum_admin_api_key_length : ℕ
minimum_admin_api_key_length = 16

-- `[a-z0-9-]*[a-z0-9]`
abbrev pub is_lower : ℕ → Bool
is_lower c = leb b'a' c && leb c b'z'

abbrev pub is_project_tail : Text → Bool
is_project_tail [] = false
is_project_tail (c ∷ []) = is_lower c || is_digit c
is_project_tail (c ∷ d ∷ cs) = (is_lower c || is_digit c || c == b'-') && is_project_tail (d ∷ cs)

-- `/^[a-z][a-z0-9-]{4,28}[a-z0-9]$/`
unfoldable pub is_project_id : Text → Bool
is_project_id [] = false
is_project_id (c ∷ cs) = is_lower c && is_project_tail cs && leb 5 (length cs) && leb (length cs) 29

-- `readPositiveInt`
unfoldable pub read_positive_int : Option JsNumber → ℕ → Result ℕ
unfolding positive_integer
read_positive_int none fallback = ok fallback
read_positive_int (some n) fallback = or_invalid (positive_integer n)

abbrev pub bad_port : Failure
bad_port = unexpected_error "PORT must be an integer between 1 and 65535"

abbrev pub in_port_range : Option ℕ → Result ℕ
in_port_range none = err bad_port
in_port_range (some n) = if ltb 65_535 n then err bad_port else ok n

-- `readPort`
unfoldable pub read_port : Option JsNumber → Result ℕ
read_port none = ok 3_000
read_port (some n) = in_port_range (positive_integer n)

-- A variable that must be there, of at least so many characters.
abbrev pub required : ℕ → Failure → Option Text → Result Text
required least e none = err e
required least e (some t) = if ltb (length t) least then err e else ok t

abbrev pub or_default {ℓ} : {A : Type ℓ} → Option A → A → A
or_default none a = a
or_default (some b) a = b

abbrev pub or_absent : Text → Option Text
or_absent [] = none
or_absent (c ∷ cs) = some (c ∷ cs)

-- `environment.FIREBASE_PROJECT_ID?.trim() || null`
abbrev pub trimmed : Option Text → Option Text
trimmed none = none
trimmed (some t) = or_absent (trim_by is_white t)

abbrev pub bad_project : Failure
bad_project = unexpected_error "FIREBASE_PROJECT_ID is not a valid Firebase project ID"

abbrev pub checked_project : Option Text → Result (Option Text)
checked_project none = ok none
checked_project (some t) = if is_project_id t then ok (some t) else err bad_project

unfoldable pub read_log_level : Option Text → Result Text
read_log_level raw =
    let level = or_default raw info_word in
    if is_valid_log_level level then ok level else err (unexpected_error "LOG_LEVEL is invalid")

unfoldable pub read_outbox : Environment → Result OutboxConfig
unfolding read_positive_int
read_outbox v = do
  batch_size ← read_positive_int v.outbox_batch_size 10
  claim_lease_seconds ← read_positive_int v.outbox_claim_lease_seconds 300
  max_attempts ← read_positive_int v.outbox_max_attempts 12
  poll_interval_ms ← read_positive_int v.outbox_poll_interval_ms 1_000
  ok (record {
    batch_size = batch_size;
    claim_lease_seconds = claim_lease_seconds;
    max_attempts = max_attempts;
    poll_interval_ms = poll_interval_ms;
  })

unfoldable pub read_limits : Environment → Result RequestLimitsConfig
unfolding read_positive_int
read_limits v = do
  body_limit_bytes ← read_positive_int v.request_body_limit_bytes 16_384
  connection_timeout_ms ← read_positive_int v.connection_timeout_ms 10_000
  keep_alive_timeout_ms ← read_positive_int v.keep_alive_timeout_ms 5_000
  request_timeout_ms ← read_positive_int v.request_timeout_ms 30_000
  ok (record {
    body_limit_bytes = body_limit_bytes;
    connection_timeout_ms = connection_timeout_ms;
    keep_alive_timeout_ms = keep_alive_timeout_ms;
    request_timeout_ms = request_timeout_ms;
  })

abbrev pub missing_database : Failure
missing_database = unexpected_error "DATABASE_URL is required"

abbrev pub missing_key : Failure
missing_key = unexpected_error "ADMIN_API_KEY is required and must be at least 16 characters"

-- `loadConfig`; the first check that fails throws.
unfoldable pub load_config : Environment → Result AppConfig
unfolding read_node_env read_log_level read_outbox read_limits read_port
load_config v = do
  database_url ← required 1 missing_database v.database_url
  admin_api_key ← required minimum_admin_api_key_length missing_key v.admin_api_key
  node_env ← read_node_env v.node_env
  log_level ← read_log_level v.log_level
  outbox ← read_outbox v
  request_limits ← read_limits v
  firebase_project_id ← checked_project (trimmed v.firebase_project_id)
  port ← read_port v.port
  ok (record {
    admin_api_key = admin_api_key;
    database_url = database_url;
    firebase_project_id = firebase_project_id;
    host = or_default v.host any_host;
    log_level = log_level;
    node_env = node_env;
    outbox = outbox;
    port = port;
    request_limits = request_limits;
  })
