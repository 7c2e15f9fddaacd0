-- ===== src/Web/Credentials.antt =====
-- What the client keeps of a credential, by what the server makes of it.
use pulse_ledger.Base.{ℕ, ◌≡◌, ◌≢◌, refl, sym, ◌∙◌, Option, none, some}
use pulse_ledger.Base.Decimal.{Text}
use pulse_ledger.Http.Requests.{AdminRoute, admin_route, Request}
use pulse_ledger.Http.Handlers.{AppOptions, Server, Happening}
use pulse_ledger.Http.App.{serve}
use pulse_ledger.Http.Guards.{serve_admin_guarded}
use pulse_ledger.Web.Errors.{ClientCode}
use pulse_ledger.Web.Calls.{Session, admin, headers, or_empty, answered, finish, write_credential}

some-injective : {a b : ℕ} → some a ≡ some b → a ≡ b
some-injective h = cc

some_text-injective : {a b : Text} → some a ≡ some b → a ≡ b
some_text-injective h = cc

finish-unauthorized {ℓ} :
    {A : Type ℓ} (code : Option ClientCode) (request_id : Option ℕ) (payload : A)
    (session : Session)
    → (finish admin none (answered 401 code request_id payload) session).1
      ≡ record session { admin_key = none }
unfolding finish write_credential
finish-unauthorized code request_id payload session = refl

-- The administrator's client with a stored key that is not the configured one: its request changes
-- nothing at the server, and whatever the body of the answer is, the client then has no
-- administrator's key, and its customer's key as before.
pub rejected_key_forgotten {ℓ} :
    {A : Type ℓ} (o : AppOptions) (h : Happening) (r : Request) (s : Server) (a : AdminRoute)
    (id_token : Option Text) (session : Session)
    → r.route ≡ admin_route a
    → r.admin_key ≡ (headers admin none id_token session).x_admin_api_key
    → or_empty session.admin_key ≢ o.admin_api_key
    → (status : ℕ) (code : Option ClientCode) (request_id : Option ℕ) (payload : A)
    → (serve o h r s).0.status ≡ some status
    → ((serve o h r s).1 ≡ s)
      × ((finish admin none (answered status code request_id payload) session).1
          ≡ record session { admin_key = none })
unfolding headers
rejected_key_forgotten o h r s a id_token session route key wrong status code rid payload e =
    let refused =
      serve_admin_guarded o h r s a route (λ same. wrong (some_text-injective (sym key ∙ same))) in
    let unauthorized = some-injective (sym e ∙ refused.0) in
    (refused.1, rw unauthorized (finish-unauthorized code rid payload session))
