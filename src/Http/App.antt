-- ===== src/Http/App.antt =====
-- `buildApp`, src/app.ts: which guard stands before which handler.
use pulse_ledger.Base.{Option, none, some, if◌then◌else◌}
use pulse_ledger.Base.Decimal.{Text}
use pulse_ledger.Errors.{Failure, schema_error, app_error, unauthorized, Result, ok, err}
use pulse_ledger.Auth.Store.{Principal, ExternalIdentity, AuthTables}
use pulse_ledger.Auth.Service.{
  api_key_tag, strip_prefix, authenticate, authenticate_identity, require_admin_api_key,
}
use pulse_ledger.Http.Bearer.{extract_bearer_token}
use pulse_ledger.Http.Requests.{
  CustomerRoute, AdminRoute, public_route, customer_route, admin_route, no_route, Request,
  route_not_found, Reply,
}
use pulse_ledger.Http.Handlers.{
  AppOptions, Server, Happening, query, error_reply, handle_public, handle_customer, handle_admin,
}

abbrev pub missing_authorization : Failure
missing_authorization = app_error unauthorized 401 "Missing or malformed Authorization header"

abbrev pub by_api_key : AppOptions → Happening → Text → AuthTables → Result Principal × AuthTables
by_api_key o h secret t = (query h.guard_fails (authenticate o.hash secret t), t)

abbrev pub by_identity :
    AppOptions → Happening → Result ExternalIdentity → AuthTables → Result Principal × AuthTables
by_identity o h (err e) t = (err e, t)
by_identity o h (ok i) t =
    authenticate_identity o.sanitize h.identity_faults h.identity_between h.identity_id h.now i t

-- The resolver that app.ts gives to the guard: two kinds of credential in one slot.
unfoldable pub resolve : AppOptions → Happening → Text → AuthTables → Result Principal × AuthTables
resolve o h secret t = elim (strip_prefix api_key_tag secret) [
  | some body ↦ by_api_key o h secret t
  | none ↦ elim o.firebase_token_verifier [
    | none ↦ by_api_key o h secret t
    | some verify ↦ by_identity o h (verify secret) t
  ]
]

-- `requireApiKey`
unfoldable pub require_api_key :
    AppOptions → Happening → Option Text → AuthTables → Result Principal × AuthTables
unfolding resolve
require_api_key o h authorization t = elim (extract_bearer_token authorization) [
  | none ↦ (err missing_authorization, t)
  | some secret ↦ resolve o h secret t
]

-- A request behind its guard: the schema is checked, and the handler runs.
abbrev pub behind_guard : Request → (Server → Reply × Server) → Server → Reply × Server
behind_guard r handler s = if r.valid then handler s else (error_reply schema_error r.request_id, s)

-- The stages that a hook can be added to: Fastify runs `onRequest` before it checks the schema, and
-- `preHandler` behind it.
pub data Hook : Type 0 where
  on_request pre_handler : Hook

-- A guard, and what it stands before.
abbrev pub guarded {ℓ} :
    {A : Type ℓ}
    → Request
    → (Server → Result A × Server)
    → (A → Server → Reply × Server)
    → Server
    → Reply × Server
guarded r guard next s =
    let g = guard s in elim g.0 [ err e ↦ (error_reply e r.request_id, g.1) | ok a ↦ next a g.1 ]

-- A request to a plugin whose guard was added to a stage.
abbrev pub run_stages {ℓ} :
    {A : Type ℓ}
    → Hook
    → Request
    → (Server → Result A × Server)
    → (A → Server → Reply × Server)
    → Server
    → Reply × Server
run_stages on_request r guard handler = guarded r guard (λ a. behind_guard r (handler a))
run_stages pre_handler r guard handler = behind_guard r (guarded r guard handler)

-- The stages that `addHook` is called with, for the customers' plugin and the administrator's.
abbrev pub customer_hook : Hook
customer_hook = on_request

abbrev pub admin_hook : Hook
admin_hook = on_request

-- The customers' plugin, on what its guard makes of the request.
abbrev pub serve_customer :
    AppOptions
    → Happening
    → Request
    → CustomerRoute
    → Result Principal × AuthTables
    → Server
    → Reply × Server
serve_customer o h r c g =
    run_stages customer_hook r (λ (s : Server). (g.0, record s { auth = g.1 }))
      (λ (p : Principal). handle_customer o h r c p.id)

-- The administrator's plugin.
abbrev pub serve_admin :
    AppOptions → Happening → Request → AdminRoute → Result (Unit {0}) → Server → Reply × Server
serve_admin o h r a g = run_stages admin_hook r (λ s. (g, s)) (λ done. handle_admin o h r a)

-- One request through the app.
unfoldable pub serve : AppOptions → Happening → Request → Server → Reply × Server
serve o h r s = elim r.route [
  | no_route ↦ (record { status = some 404; content = route_not_found r.request_id }, s)
  | public_route p ↦ (handle_public o h p s, s)
  | customer_route c ↦ serve_customer o h r c (require_api_key o h r.authorization s.auth) s
  | admin_route a ↦ serve_admin o h r a (require_admin_api_key o.admin_api_key r.admin_key) s
]
