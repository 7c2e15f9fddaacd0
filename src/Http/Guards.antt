-- ===== src/Http/Guards.antt =====
-- Who gets past the guards.
use pulse_ledger.Base.{
  ℕ, ◌≤◌, ◌≡◌, ◌≢◌, refl, ap, ◌∙◌, Bool, true, false, ◌&&◌, Option, none, some, [], ◌∷◌, ◌++◌,
  arith, ◌==◌, ==_refl, length, Bool-cases, Option-cases, ◌⊎◌, inl, inr,
}
use pulse_ledger.Base.Decimal.{Text}
use pulse_ledger.Errors.{
  Failure, app_error, unauthorized, Result, ok, err, Result-cases, error_handler, known_error,
  domain_error_status,
}
use pulse_ledger.Auth.Store.{
  Principal, enabled, ApiKey, AuthTables, same_text, find_principal_by_id,
}
use pulse_ledger.Auth.Service.{
  api_key_tag, api_key_prefix_length, strip_prefix, authenticate, issue_api_key,
  require_admin_api_key, invalid_key,
}
use pulse_ledger.Auth.Strangers.{IsUnknown, authenticate-stranger}
use pulse_ledger.Auth.Keys.{same_text_eq, issue-authenticate, issue_api_key-ok}
use pulse_ledger.Http.Bearer.{
  bearer_prefix, IsCredential, extract_bearer_token, extract_bearer_token-bearer,
}
use pulse_ledger.Http.Requests.{
  CustomerRoute, AdminRoute, customer_route, admin_route, Request, key_content, issue_key,
}
use pulse_ledger.Http.Handlers.{AppOptions, Server, Happening, query, handle_customer, handle_admin}
use pulse_ledger.Http.App.{
  missing_authorization, require_api_key, resolve, serve_customer, serve_admin, behind_guard, serve,
}

refused_admin :
    (expected : Text) (provided : Option Text)
    → provided ≢ some expected
    → (e : Failure) × (require_admin_api_key expected provided ≡ err e)
      × ((rid : ℕ) → (error_handler e rid).status ≡ 401)
unfolding require_admin_api_key error_handler
refused_admin expected none n = (_, refl, λ rid. refl)
refused_admin expected (some []) n = (_, refl, λ rid. refl)
refused_admin expected (some (c ∷ cs)) n =
    elim (Bool-cases (length (c ∷ cs) == length expected && same_text (c ∷ cs) expected)) [
      | inl y ↦ absurd (n (ap (λ t. some t) (same_text_eq (c ∷ cs) expected (ground arith))))
      | inr m ↦ (app_error unauthorized 401 "Invalid admin API key", rw m refl, λ rid. refl)
    ]

-- An administrative request without exactly the configured key is answered with status 401 and
-- changes nothing, whatever the route, whatever else it carries (a customer's credential, an
-- invalid body) and whatever happens meanwhile.
pub serve_admin_guarded :
    (o : AppOptions) (h : Happening) (r : Request) (s : Server) (a : AdminRoute)
    → r.route ≡ admin_route a
    → r.admin_key ≢ some o.admin_api_key
    → ((serve o h r s).0.status ≡ some 401) × ((serve o h r s).1 ≡ s)
unfolding serve
serve_admin_guarded o h r s a e n =
    let (f, refused, status) = refused_admin o.admin_api_key r.admin_key n in
    (
      rw (e, serve) (rw refused (ap (λ z. some z) (status r.request_id))),
      rw (e, serve) (rw refused refl),
    )

-- The header of a caller without a credential that the server knows: none at all, or one that is
-- looked up among the API keys and is the secret of no live key.
abbrev pub IsStranger : AppOptions → Option Text → AuthTables → Type 0
IsStranger o authorization t =
    (secret : Text)
    → extract_bearer_token authorization ≡ some secret
    → ((o.firebase_token_verifier ≡ none) ⊎ (strip_prefix api_key_tag secret ≢ none))
      × IsUnknown o.hash secret t

resolve-stranger :
    (o : AppOptions) (h : Happening) (secret : Text) (t : AuthTables)
    → h.guard_fails ≡ none
    → ((o.firebase_token_verifier ≡ none) ⊎ (strip_prefix api_key_tag secret ≢ none))
    → IsUnknown o.hash secret t
    → resolve o h secret t ≡ (err invalid_key, t)
unfolding resolve
resolve-stranger o h secret t works way unknown =
    let refused = authenticate-stranger o.hash secret t unknown in
    elim (Option-cases (strip_prefix api_key_tag secret)) [
      | inr (body, e) ↦ ground (arith, e, works, refused)
      | inl e ↦ elim way [
        | inl off ↦ ground (arith, e, off, works, refused)
        | inr shaped ↦ absurd (shaped e)
      ]
    ]

-- The guard refuses a stranger with a failure of status 401, and writes nothing.
require_api_key-stranger :
    (o : AppOptions) (h : Happening) (authorization : Option Text) (t : AuthTables)
    → h.guard_fails ≡ none
    → IsStranger o authorization t
    → (f : Failure) × (require_api_key o h authorization t ≡ (err f, t))
      × ((rid : ℕ) → (error_handler f rid).status ≡ 401)
unfolding require_api_key error_handler known_error domain_error_status
require_api_key-stranger o h authorization t works stranger =
    elim (Option-cases (extract_bearer_token authorization)) [
      | inl e ↦ (missing_authorization, ground (arith, e), λ rid. refl)
      | inr (secret, e) ↦
          let (way, unknown) = stranger secret e in
          (
            invalid_key,
            ground (arith, e, resolve-stranger o h secret t works way unknown),
            λ rid. refl,
          )
    ]

-- A customer's request without a credential, or with one that is the secret of no live API key, is
-- answered with status 401 and changes nothing, whatever the route, whether its body is valid or
-- not, and whatever else it carries, if the statements of the guard do not fail. A bearer that is
-- not shaped like an API key counts here only where Firebase is not configured.
pub serve_customer_guarded :
    (o : AppOptions) (h : Happening) (r : Request) (s : Server) (c : CustomerRoute)
    → r.route ≡ customer_route c
    → h.guard_fails ≡ none
    → IsStranger o r.authorization s.auth
    → ((serve o h r s).0.status ≡ some 401) × ((serve o h r s).1 ≡ s)
unfolding serve
serve_customer_guarded o h r s c e works stranger =
    let (f, refused, status) = require_api_key-stranger o h r.authorization s.auth works stranger in
    (
      rw (e, serve) (rw refused (ap (λ z. some z) (status r.request_id))),
      rw (e, serve) (rw refused refl),
    )

strip_prefix-append : (tag rest : Text) → strip_prefix tag (tag ++ rest) ≡ some rest
unfolding strip_prefix
strip_prefix-append [] rest = refl
strip_prefix-append (c ∷ tag) rest = rw (==_refl c, strip_prefix-append tag rest) refl

-- A bearer of the shape of an API key takes the API-key path, whether Firebase is configured or not.
resolve_api_key :
    (o : AppOptions) (h : Happening) (drawn : Text) (t : AuthTables)
    → resolve o h (api_key_tag ++ drawn) t
      ≡ (query h.guard_fails (authenticate o.hash (api_key_tag ++ drawn) t), t)
unfolding resolve
resolve_api_key o h drawn t = rw (strip_prefix-append api_key_tag drawn, resolve) refl

bearer_api_key :
    (o : AppOptions) (h : Happening) (drawn : Text) (t : AuthTables)
    → IsCredential (api_key_tag ++ drawn)
    → h.guard_fails ≡ none
    → require_api_key o h (some (bearer_prefix ++ api_key_tag ++ drawn)) t
      ≡ (authenticate o.hash (api_key_tag ++ drawn) t, t)
unfolding require_api_key
bearer_api_key o h drawn t c f =
    rw (extract_bearer_token-bearer (api_key_tag ++ drawn) c, require_api_key)
      (rw (resolve_api_key o h drawn t, f) refl)

serve-customer_route :
    (o : AppOptions) (h : Happening) (r : Request) (s : Server) (c : CustomerRoute)
    → r.route ≡ customer_route c
    → serve o h r s ≡ serve_customer o h r c (require_api_key o h r.authorization s.auth) s
unfolding serve
serve-customer_route o h r s c e = ground (arith, e)

-- A reply with a key comes from an issue that the store has made.
module _ (o : AppOptions) (h : Happening) (r : Request) (s : Server) (principal_id : ℕ)
    (row : ApiKey) (secret : Text) where
  handled_issue :
      (q : Option Failure)
      → h.query_fails ≡ q
      → (handle_admin o h r (issue_key principal_id) s).0.content ≡ key_content row secret
      → (t : AuthTables) × (issue_api_key o.hash h.fresh_id h.now h.drawn principal_id s.auth
          ≡ ok ((row, secret), t))
        × ((handle_admin o h r (issue_key principal_id) s).1 ≡ record s { auth = t })
  unfolding handle_admin
  handled_issue (some e) f k = absurd (cc (rw (f, handle_admin) at k))
  handled_issue none f k =
      elim (Result-cases (issue_api_key o.hash h.fresh_id h.now h.drawn principal_id s.auth)) [
        | inr (e, m) ↦ absurd (ground (arith, f, m))
        | inl (((row', secret'), t), m) ↦ (t, ground (arith, f, m), ground (arith, f, m))
      ]

  guarded_issue :
      (g : Result (Unit {0})) (b : Bool)
      → r.valid ≡ b
      → (serve_admin o h r (issue_key principal_id) g s).0.content ≡ key_content row secret
      → (t : AuthTables) × (issue_api_key o.hash h.fresh_id h.now h.drawn principal_id s.auth
          ≡ ok ((row, secret), t))
        × ((serve_admin o h r (issue_key principal_id) g s).1 ≡ record s { auth = t })
  guarded_issue (err e) b v k = absurd (cc k)
  guarded_issue (ok done) false v k = absurd (ground (arith, v))
  guarded_issue (ok done) true v k =
      let (t, made, after) = handled_issue h.query_fails refl (ground (arith, v)) in
      (t, made, ground (arith, v, after))

  served_issue :
      r.route ≡ admin_route (issue_key principal_id)
      → (serve o h r s).0.content ≡ key_content row secret
      → (t : AuthTables) × (issue_api_key o.hash h.fresh_id h.now h.drawn principal_id s.auth
          ≡ ok ((row, secret), t))
        × ((serve o h r s).1 ≡ record s { auth = t })
  unfolding serve
  served_issue e k =
      let (t, made, after) =
        guarded_issue (require_admin_api_key o.admin_api_key r.admin_key) r.valid refl
          (ground (arith, e)) in
      (t, made, ground (arith, e, after))

  -- The key that an administrator's request is answered with opens the customer routes at once: the
  -- next request that bears it is handled as its principal's, if that principal is not disabled and
  -- the drawn characters are as `generateApiKey` draws them, long enough and with no white space.
  pub issued_key_serves :
      (h' : Happening) (r' : Request) (c : CustomerRoute) (p : Principal)
      → r.route ≡ admin_route (issue_key principal_id)
      → (serve o h r s).0.content ≡ key_content row secret
      → r'.route ≡ customer_route c
      → r'.authorization ≡ some (bearer_prefix ++ secret)
      → h'.guard_fails ≡ none
      → api_key_prefix_length ≤ length h.drawn
      → IsCredential (api_key_tag ++ h.drawn)
      → find_principal_by_id principal_id s.auth ≡ some p
      → p.status ≡ enabled
      → serve o h' r' (serve o h r s).1
        ≡ behind_guard r' (handle_customer o h' r' c p.id) (serve o h r s).1
  issued_key_serves h' r' c p e k e' bearer steady long credential found active =
      let (t, made, after) = served_issue e k in
      let (inserted, same) =
        issue_api_key-ok o.hash h.fresh_id h.now h.drawn principal_id s.auth t row secret made in
      let authenticated =
        issue-authenticate o.hash h.fresh_id h.now h.drawn principal_id s.auth t row secret p made
          long found active in
      let guard : require_api_key o h' r'.authorization t ≡ (ok p, t) =
        rw (bearer, same)
          (bearer_api_key o h' h.drawn t credential steady
            ∙ ap (λ x. (x, t)) (rw (← same) authenticated)) in
      rw after (
        serve-customer_route o h' r' (record s { auth = t }) c e'
        ∙ ap (λ g. serve_customer o h' r' c g (record s { auth = t })) guard)
