-- ===== src/Http/Requests.antt =====
-- The requests that Fastify hands to the guards and the handlers, and the replies: the paths of
-- the *-routes.ts files. Fastify has parsed the path, the query and the body; `valid` says whether
-- they pass the route's schema, which it checks behind the guard.
use pulse_ledger.Base.{ℕ, Bool, Option, none, some, List, leb, if◌then◌else◌}
use pulse_ledger.Base.Decimal.{Text}
use pulse_ledger.Errors.{ErrorResponse}
use pulse_ledger.Ledger.Tables.{Account, JournalEntry, Transfer}
use pulse_ledger.Responses.{Body}
use pulse_ledger.Outbox.Repository.{OutboxStats}
use pulse_ledger.Transfers.Domain.{CreateTransferInput}
use pulse_ledger.Transfers.Service.{TransferMetrics}
use pulse_ledger.Funding.Service.{FundAccountInput}
use pulse_ledger.Auth.Store.{Principal, ApiKey}
use pulse_ledger.Reconciliation.Report.{Report}
use pulse_ledger.Routes.Flow.{Header}

pub data PublicRoute : Type 0 where
  live ready : PublicRoute

-- A transfer's body comes with its fingerprint.
pub data CustomerRoute : Type 0 where
  list_accounts : Option ℕ → Option Text → CustomerRoute
  create_account : ℕ → CustomerRoute
  get_account : ℕ → CustomerRoute
  list_entries : ℕ → Option ℕ → Option Text → CustomerRoute
  create_transfer : ℕ → CreateTransferInput → CustomerRoute
  get_transfer : ℕ → CustomerRoute

pub data AdminRoute : Type 0 where
  fund : ℕ → FundAccountInput → AdminRoute
  create_principal : Text → AdminRoute
  issue_key : ℕ → AdminRoute
  revoke_key : ℕ → AdminRoute
  reconcile : AdminRoute
  read_metrics : AdminRoute
  scrape : AdminRoute

pub data Route : Type 0 where
  public_route : PublicRoute → Route
  customer_route : CustomerRoute → Route
  admin_route : AdminRoute → Route
  no_route : Route

pub record Request : Type 0 where
  pub request_id : ℕ
  pub authorization : Option Text
  pub admin_key : Option Text
  pub idempotency_key : Option Header
  pub valid : Bool
  pub route : Route

-- `genReqId`: the header's identifier if it is not too long, or else a random one.
unfoldable pub gen_req_id : Option Header → ℕ → ℕ
gen_req_id none random = random
gen_req_id (some h) random = if leb h.size 128 then h.code else random

-- What a reply carries; the text forms are Fastify's and the renderer's.
pub data Content : Type 0 where
  error_content : ErrorResponse → Content
  route_not_found : ℕ → Content
  nothing : Content
  stored_content : Body → Content
  account_content : Account → Content
  accounts_content : List Account → Option Text → Content
  entries_content : List JournalEntry → Option Text → Content
  transfer_content : Transfer → Content
  principal_content : Principal → Content
  key_content : ApiKey → Text → Content
  revoked_content : ℕ → Content
  report_content : Report → Content
  metrics_content : TransferMetrics → Content
  exposition_content : Text → Content
  live_content : Content
  ready_content : Option OutboxStats → Content
  unavailable_content : Content

-- The status is absent only where a stored response has none.
pub record Reply : Type 0 where
  pub status : Option ℕ
  pub content : Content
