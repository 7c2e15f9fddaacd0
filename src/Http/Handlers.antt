-- ===== src/Http/Handlers.antt =====
-- The handlers of the routes that src/app.ts registers, with the state that they read and write.
use pulse_ledger.Base.{ℕ, Bool, Option, none, some, if◌then◌else◌}
use pulse_ledger.Base.Decimal.{Text}
use pulse_ledger.Errors.{
  Failure, app_error, account_not_found, Result, ok, err, or_throw, error_handler,
}
use pulse_ledger.Ledger.Tables.{TransactionType, Ledger}
use pulse_ledger.Responses.{StoredResponse}
use pulse_ledger.Idempotency.Claim.{Surroundings}
use pulse_ledger.Ports.Transaction.{Faults}
use pulse_ledger.Database.{Db}
use pulse_ledger.Outbox.Repository.{stats}
use pulse_ledger.Pages.Cursor.{Codec}
use pulse_ledger.Accounts.Store.{create, find_owned_by_id, list_owned}
use pulse_ledger.Transfers.Service.{TransferServiceOptions, TransferMetrics, Attempt, find_by_id}
use pulse_ledger.Transfers.Domain.{CreateTransferInput}
use pulse_ledger.Funding.Service.{FundAccountInput}
use pulse_ledger.Funding.Store.{PostingFresh}
use pulse_ledger.Funding.Journal.{list_journal_entries}
use pulse_ledger.Routes.Flow.{Settlement, KeyedRequest}
use pulse_ledger.Routes.Money.{transfer_route, funding_route}
use pulse_ledger.Auth.Store.{ExternalIdentity, AuthTables}
use pulse_ledger.Auth.Store.{create_principal as insert_principal}
use pulse_ledger.Auth.Service.{issue_api_key, revoke}
use pulse_ledger.Reconciliation.Report.{run}
use pulse_ledger.Http.Metrics.{render_prometheus_metrics}
use pulse_ledger.Http.Requests.{
  PublicRoute, live, ready, CustomerRoute, list_accounts, create_account, get_account, list_entries,
  create_transfer, get_transfer, AdminRoute, fund, create_principal, issue_key, revoke_key,
  reconcile, read_metrics, scrape, Request, Content, error_content, nothing, stored_content,
  account_content, accounts_content, entries_content, transfer_content, principal_content,
  key_content, revoked_content, report_content, metrics_content, exposition_content, live_content,
  ready_content, unavailable_content, Reply,
}

-- `BuildAppOptions`, with what the services take from the platform; the verifier is absent where
-- Firebase is not configured.
pub record AppOptions : Type 0 where
  pub admin_api_key : Text
  pub firebase_token_verifier : Option (Text → Result ExternalIdentity)
  pub has_outbox_store : Bool
  pub administrator_principal_id : ℕ
  pub codec : Codec
  pub hash : Text → ℕ
  pub sanitize : Option Text → ℕ → Option Text

-- The tables that the requests read and write.
pub record Server : Type 0 where
  pub db : Db
  pub auth : AuthTables

-- What happens while a request is served: what the generators, the clocks and the counters give,
-- what goes wrong, and what other sessions commit in between. `query_fails` is the error of the
-- request's own statement outside a transaction, and `guard_fails` that of the guard's.
pub record Happening : Type 0 where
  pub guard_fails : Option Failure
  pub query_fails : Option Failure
  pub fresh_id : ℕ
  pub now : ℕ
  pub drawn : Text
  pub metrics : TransferMetrics
  pub attempts : ℕ → Attempt
  pub around : ℕ → Surroundings
  pub settlement : Settlement
  pub funding_faults : Faults
  pub funding_between : Db → Db
  pub posting_fresh : PostingFresh
  pub identity_faults : Faults
  pub identity_between : AuthTables → AuthTables
  pub identity_id : ℕ

-- A statement that fails throws.
abbrev pub query {ℓ} : {A : Type ℓ} → Option Failure → Result A → Result A
query none r = r
query (some e) r = err e

-- `errorHandler`, as a reply.
abbrev pub error_reply : Failure → ℕ → Reply
error_reply e rid = record {
  status = some (error_handler e rid).status;
  content = error_content (error_handler e rid).body;
}

-- A handler that returns its result, or throws.
abbrev pub reply_with {ℓ} : {A : Type ℓ} → (A → Content) → ℕ → ℕ → Result A → Reply
reply_with content status rid (ok a) = record { status = some status; content = content a }
reply_with content status rid (err e) = error_reply e rid

-- `reply.status(…).send(…)` of a response that was stored.
abbrev pub stored_reply : StoredResponse → Reply
stored_reply r = record {
  status = r.status;
  content = elim r.body [ none ↦ nothing | some b ↦ stored_content b ];
}

-- The handlers of src/modules/health/health-routes.ts.
unfoldable pub handle_public : AppOptions → Happening → PublicRoute → Server → Reply
handle_public o h live s = record { status = some 200; content = live_content }
handle_public o h ready s = elim h.query_fails [
  | some e ↦ record { status = some 503; content = unavailable_content }
  | none ↦ record {
    status = some 200;
    content = ready_content (if o.has_outbox_store then some (stats s.db.outbox) else none);
  }
]

abbrev pub with_ledger {ℓ} : {A : Type ℓ} → Server → Result (A × Ledger) → Server
with_ledger s (ok (a, l)) = record s { db = record s.db { ledger = l } }
with_ledger s (err e) = s

abbrev pub with_auth {ℓ} : {A : Type ℓ} → Server → Result (A × AuthTables) → Server
with_auth s (ok (a, t)) = record s { auth = t }
with_auth s (err e) = s

abbrev pub with_db : Server → StoredResponse × Db → Reply × Server
with_db s (r, db) = (stored_reply r, record s { db = db })

abbrev pub keyed_request : ℕ → Request → ℕ → KeyedRequest
keyed_request fingerprint r principal = record {
  request_id = r.request_id;
  header = r.idempotency_key;
  fingerprint = fingerprint;
  principal_id = principal;
  operation = TransactionType.transfer;
}

abbrev pub transfer_options : AppOptions → TransferServiceOptions
transfer_options o = record {
  base_retry_delay_ms = 2;
  max_attempts = 12;
  with_outbox = o.has_outbox_store;
}

abbrev pub missing_account : Failure
missing_account = app_error account_not_found 404 "Account not found"

-- The handlers of src/modules/accounts/account-routes.ts.
abbrev pub list_accounts_handler :
    AppOptions → Happening → Request → Option ℕ → Option Text → ℕ → Server → Reply × Server
list_accounts_handler o h r limit cursor owner s = (
  reply_with (λ p. accounts_content p.0 p.1) 200 r.request_id
      (query h.query_fails (list_owned o.codec owner limit cursor s.db.ledger)),
  s,
)

abbrev pub create_account_handler : Happening → Request → ℕ → ℕ → Server → Reply × Server
create_account_handler h r currency owner s =
    let made = query h.query_fails (create h.fresh_id h.now currency owner s.db.ledger) in
    (reply_with (λ p. account_content p.0) 201 r.request_id made, with_ledger s made)

abbrev pub get_account_handler : Happening → Request → ℕ → ℕ → Server → Reply × Server
get_account_handler h r id owner s = (
  reply_with account_content 200 r.request_id
      (query h.query_fails (or_throw (find_owned_by_id id owner s.db.ledger) missing_account)),
  s,
)

abbrev pub list_entries_handler :
    AppOptions → Happening → Request → ℕ → Option ℕ → Option Text → ℕ → Server → Reply × Server
list_entries_handler o h r id limit cursor owner s = (
  reply_with (λ p. entries_content p.0 p.1) 200 r.request_id
      (query h.query_fails (list_journal_entries o.codec id owner limit cursor s.db.ledger)),
  s,
)

-- The handlers of src/modules/transfers/transfer-routes.ts, in the reply that they send.
abbrev pub create_transfer_handler :
    AppOptions → Happening → Request → ℕ → CreateTransferInput → ℕ → Server → Reply × Server
create_transfer_handler o h r fingerprint input owner s = with_db s (
    transfer_route (transfer_options o) h.attempts h.fresh_id h.around h.settlement
      (keyed_request fingerprint r owner) input h.metrics s.db)

abbrev pub get_transfer_handler : Happening → Request → ℕ → ℕ → Server → Reply × Server
get_transfer_handler h r id owner s = (
  reply_with transfer_content 200 r.request_id
      (query h.query_fails (find_by_id id owner s.db.ledger)),
  s,
)

-- The handler of src/modules/ledger/ledger-routes.ts, in the reply that it sends.
abbrev pub fund_handler :
    AppOptions → Happening → Request → ℕ → FundAccountInput → Server → Reply × Server
fund_handler o h r fingerprint input s = with_db s (
    funding_route o.has_outbox_store h.funding_faults h.funding_between h.posting_fresh h.fresh_id
      h.around h.settlement (keyed_request fingerprint r o.administrator_principal_id) input s.db)

-- The handlers of src/modules/auth/auth-routes.ts.
abbrev pub create_principal_handler : Happening → Request → Text → Server → Reply × Server
create_principal_handler h r name s =
    let made = query h.query_fails (insert_principal h.fresh_id h.now name s.auth) in
    (reply_with (λ p. principal_content p.0) 201 r.request_id made, with_auth s made)

abbrev pub issue_key_handler : AppOptions → Happening → Request → ℕ → Server → Reply × Server
issue_key_handler o h r principal s =
    let made =
      query h.query_fails (issue_api_key o.hash h.fresh_id h.now h.drawn principal s.auth) in
    (reply_with (λ p. key_content p.0.0 p.0.1) 201 r.request_id made, with_auth s made)

abbrev pub revoke_key_handler : Happening → Request → ℕ → Server → Reply × Server
revoke_key_handler h r id s =
    let made = query h.query_fails (revoke id h.now s.auth) in
    (reply_with (λ p. revoked_content id) 200 r.request_id made, with_auth s made)

-- The handler of src/modules/reconciliation/reconciliation-routes.ts.
abbrev pub reconcile_handler : Happening → Request → Server → Reply × Server
reconcile_handler h r s =
    (reply_with report_content 200 r.request_id (query h.query_fails (ok (run s.db.ledger))), s)

-- The two handlers of src/app.ts that read the counters.
abbrev pub metrics_handler : Happening → Server → Reply × Server
metrics_handler h s = (record { status = some 200; content = metrics_content h.metrics }, s)

abbrev pub scrape_handler : AppOptions → Happening → Request → Server → Reply × Server
scrape_handler o h r s = (
  reply_with (λ outbox. exposition_content (render_prometheus_metrics h.metrics outbox)) 200
      r.request_id
      (if o.has_outbox_store then query h.query_fails (ok (some (stats s.db.outbox))) else ok none),
  s,
)

-- The routes behind the customers' guard, for the principal that it set.
unfoldable pub handle_customer :
    AppOptions → Happening → Request → CustomerRoute → ℕ → Server → Reply × Server
handle_customer o h r (list_accounts limit cursor) owner s =
    list_accounts_handler o h r limit cursor owner s
handle_customer o h r (create_account currency) owner s =
    create_account_handler h r currency owner s
handle_customer o h r (get_account id) owner s = get_account_handler h r id owner s
handle_customer o h r (list_entries id limit cursor) owner s =
    list_entries_handler o h r id limit cursor owner s
handle_customer o h r (create_transfer fingerprint input) owner s =
    create_transfer_handler o h r fingerprint input owner s
handle_customer o h r (get_transfer id) owner s = get_transfer_handler h r id owner s

-- The routes behind the administrators' guard.
unfoldable pub handle_admin :
    AppOptions → Happening → Request → AdminRoute → Server → Reply × Server
handle_admin o h r (fund fingerprint input) s = fund_handler o h r fingerprint input s
handle_admin o h r (create_principal name) s = create_principal_handler h r name s
handle_admin o h r (issue_key principal) s = issue_key_handler o h r principal s
handle_admin o h r (revoke_key id) s = revoke_key_handler h r id s
handle_admin o h r reconcile s = reconcile_handler h r s
handle_admin o h r read_metrics s = metrics_handler h s
handle_admin o h r scrape s = scrape_handler o h r s
