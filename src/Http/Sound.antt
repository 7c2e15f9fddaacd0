-- ===== src/Http/Sound.antt =====
-- Every request keeps the ledger's invariant.
use pulse_ledger.Base.{
  Bool, if◌then◌else◌, ℕ, ◌≡◌, refl, true, false, ◌||◌, Option, none, some, List, [], ◌∷◌, ◌==◌,
  any, Bool-cases, inl, inr,
}
use pulse_ledger.Base.Int.{ℤ}
use pulse_ledger.Errors.{Failure, Result, ok, err, Result-cases}
use pulse_ledger.Ledger.Tables.{JournalEntry}
use pulse_ledger.Responses.{Body, StoredResponse}
use pulse_ledger.Idempotency.Records.{ClaimKey, ClaimRecord}
use pulse_ledger.Idempotency.Claim.{Surroundings, claim_or_replay}
use pulse_ledger.Database.{Db}
use pulse_ledger.Soundness.{IsSound}
use pulse_ledger.Accounts.Store.{create}
use pulse_ledger.Accounts.Opening.{create_account-IsSound}
use pulse_ledger.Transfers.Safety.{create-IsSound}
use pulse_ledger.Funding.Effect.{fund_account-IsSound}
use pulse_ledger.Routes.Flow.{
  Settlement, KeyedRequest, KeyReading, no_key, too_long, a_key, idempotency_key_from,
  is_idempotency_error, params_of, after_work, keyed_route,
}
use pulse_ledger.Ledger.Tables.{TransactionType}
use pulse_ledger.Routes.Money.{transfer_route, funding_route, key_code}
use pulse_ledger.Auth.Store.{Principal, AuthTables}
use pulse_ledger.Auth.Store.{create_principal as insert_principal}
use pulse_ledger.Auth.Service.{issue_api_key, revoke, require_admin_api_key}
use pulse_ledger.Http.Requests.{
  CustomerRoute, list_accounts, create_account, get_account, list_entries, create_transfer,
  get_transfer, AdminRoute, fund, create_principal, issue_key, revoke_key, reconcile, read_metrics,
  scrape, Route, public_route, customer_route, admin_route, no_route, Request, Reply,
}
use pulse_ledger.Http.Handlers.{
  AppOptions, Server, Happening, query, with_auth, keyed_request, transfer_options, handle_customer,
  handle_admin,
}
use pulse_ledger.Http.App.{require_api_key, serve_customer, serve_admin, serve}

claims-IsSound :
    (total : ℤ) (db : Db) (claims : List ClaimRecord)
    → IsSound total db
    → IsSound total (record db { claims = claims })
claims-IsSound total db claims v = record {
  consistent = v.consistent;
  keyed = v.keyed;
  total_kept = v.total_kept;
}

module _ (total : ℤ) (around : ℕ → Surroundings) (s : Settlement) (r : KeyedRequest)
    (work : Option ClaimKey → Db → Result Body × Db)
    (kept : (k : Option ClaimKey) (d : Db) → IsSound total d → IsSound total (work k d).1) where
  settled :
      (k : ClaimKey) (w : Result Body × Db)
      → IsSound total w.1
      → IsSound total (after_work k s r.request_id w)
  settled k (ok body, d) v = v
  settled k (err e, d) v = elim (Bool-cases (is_idempotency_error e || s.fails)) [
    | inl y ↦ rw y v
    | inr n ↦ rw n (claims-IsSound total d _ v)
  ]

  -- A keyed route keeps the invariant if its work does.
  pub keyed_route-IsSound :
      (db : Db) → IsSound total db → IsSound total (keyed_route around s r work db).1
  unfolding keyed_route
  keyed_route-IsSound db v = by_reading (idempotency_key_from r.header) refl
    where
      by_found :
          (code : ℕ) (found : Option StoredResponse)
          → idempotency_key_from r.header ≡ a_key code
          → (claim_or_replay around (params_of r code) db.claims).0 ≡ ok found
          → IsSound total (keyed_route around s r work db).1
      by_found code (some response) e f = rw (e, keyed_route) (rw f (claims-IsSound total db _ v))
      by_found code none e f =
          rw (e, keyed_route)
            (rw f (settled (params_of r code).id _ (kept _ _ (claims-IsSound total db _ v))))

      by_reading :
          (k : KeyReading)
          → idempotency_key_from r.header ≡ k
          → IsSound total (keyed_route around s r work db).1
      by_reading too_long e = rw (e, keyed_route) v
      by_reading no_key e = rw (e, keyed_route) (kept none db v)
      by_reading (a_key code) e =
          elim (Result-cases (claim_or_replay around (params_of r code) db.claims).0) [
            | inr (f, h) ↦ rw (e, keyed_route) (rw h (claims-IsSound total db _ v))
            | inl (found, h) ↦ by_found code found e h
          ]

-- What other sessions commit while the request runs keeps the invariant, and the identifier that
-- `randomUUID()` gives is no account's in the journal.
pub record IsOrderly (total : ℤ) (h : Happening) (db : Db) : Type 0 where
  pub transfers_between :
      (n : ℕ) (d : Db) → IsSound total d → IsSound total ((h.attempts n).interference d)
  pub fundings_between : (d : Db) → IsSound total d → IsSound total (h.funding_between d)
  pub unused : any (λ (j : JournalEntry). j.account_id == h.fresh_id) db.ledger.journal ≡ false

with_auth-IsSound :
    {A : Type 0} (total : ℤ) (s : Server) (made : Result (A × AuthTables))
    → IsSound total s.db
    → IsSound total (with_auth s made).db
with_auth-IsSound total s (ok (a, t)) v = v
with_auth-IsSound total s (err e) v = v

module _ (total : ℤ) (o : AppOptions) (h : Happening) (r : Request) (s : Server)
    (orderly : IsOrderly total h s.db) (v : IsSound total s.db) where
  handle_customer-IsSound :
      (c : CustomerRoute) (owner : ℕ) → IsSound total (handle_customer o h r c owner s).1.db
  unfolding handle_customer transfer_route
  handle_customer-IsSound (list_accounts limit cursor) owner = v
  handle_customer-IsSound (create_account currency) owner = made h.query_fails refl
    where
      made :
          (q : Option Failure)
          → h.query_fails ≡ q
          → IsSound total (handle_customer o h r (create_account currency) owner s).1.db
      made (some e) f = rw (f, handle_customer) v
      made none f = elim (Result-cases (create h.fresh_id h.now currency owner s.db.ledger)) [
        | inr (e, g) ↦ rw (f, handle_customer) (rw g v)
        | inl ((a, l), g) ↦
            rw (f, handle_customer)
              (rw g
                (create_account-IsSound total h.fresh_id h.now currency owner s.db l a g
                  orderly.unused v).0)
      ]
  handle_customer-IsSound (get_account id) owner = v
  handle_customer-IsSound (list_entries id limit cursor) owner = v
  handle_customer-IsSound (create_transfer fingerprint input) owner =
      keyed_route-IsSound total h.around h.settlement (keyed_request fingerprint r owner) _
        (λ k d sound.
          create-IsSound (transfer_options o) h.attempts h.fresh_id input owner (key_code k)
            h.metrics d total orderly.transfers_between sound)
        s.db v
  handle_customer-IsSound (get_transfer id) owner = v

  handle_admin-IsSound : (a : AdminRoute) → IsSound total (handle_admin o h r a s).1.db
  unfolding handle_admin funding_route
  handle_admin-IsSound (fund fingerprint input) =
      keyed_route-IsSound total h.around h.settlement
        (record (keyed_request fingerprint r o.administrator_principal_id) {
          operation = TransactionType.funding;
        })
        _
        (λ k d sound.
          fund_account-IsSound o.has_outbox_store h.funding_faults h.funding_between h.posting_fresh
            h.fresh_id input k d total orderly.fundings_between sound)
        s.db v
  handle_admin-IsSound (create_principal name) =
      with_auth-IsSound total s
        (query h.query_fails (insert_principal h.fresh_id h.now name s.auth)) v
  handle_admin-IsSound (issue_key principal) =
      with_auth-IsSound total s
        (query h.query_fails (issue_api_key o.hash h.fresh_id h.now h.drawn principal s.auth)) v
  handle_admin-IsSound (revoke_key id) =
      with_auth-IsSound total s (query h.query_fails (revoke id h.now s.auth)) v
  handle_admin-IsSound reconcile = v
  handle_admin-IsSound read_metrics = v
  handle_admin-IsSound scrape = v

either-IsSound :
    (total : ℤ) (b : Bool) (x y : Reply × Server)
    → IsSound total x.1.db
    → IsSound total y.1.db
    → IsSound total (if b then x else y).1.db
either-IsSound total true x y v w = v
either-IsSound total false x y v w = w

module _ (total : ℤ) (o : AppOptions) (h : Happening) (r : Request) (s : Server)
    (orderly : IsOrderly total h s.db) (v : IsSound total s.db) where
  serve_customer-IsSound :
      (c : CustomerRoute) (g : Result Principal × AuthTables)
      → IsSound total (serve_customer o h r c g s).1.db
  serve_customer-IsSound c (err e, t) = v
  serve_customer-IsSound c (ok p, t) =
      either-IsSound total r.valid _ _
        (handle_customer-IsSound total o h r (record s { auth = t }) orderly v c p.id) v

  serve_admin-IsSound :
      (a : AdminRoute) (g : Result (Unit {0})) → IsSound total (serve_admin o h r a g s).1.db
  serve_admin-IsSound a (err e) = v
  serve_admin-IsSound a (ok done) =
      either-IsSound total r.valid _ _ (handle_admin-IsSound total o h r s orderly v a) v

  serve-IsSound : IsSound total (serve o h r s).1.db
  unfolding serve
  serve-IsSound = by_route r.route refl
    where
      by_route : (q : Route) → r.route ≡ q → IsSound total (serve o h r s).1.db
      by_route no_route e = rw (e, serve) v
      by_route (public_route p) e = rw (e, serve) v
      by_route (customer_route c) e =
          rw (e, serve) (serve_customer-IsSound c (require_api_key o h r.authorization s.auth))
      by_route (admin_route a) e =
          rw (e, serve) (serve_admin-IsSound a (require_admin_api_key o.admin_api_key r.admin_key))

-- The requests that the server serves, one after the other, each with what happens meanwhile.
abbrev pub serve_all : AppOptions → List (Happening × Request) → Server → Server
serve_all o [] s = s
serve_all o ((h, r) ∷ rest) s = serve_all o rest (serve o h r s).1

abbrev pub AllOrderly : ℤ → AppOptions → List (Happening × Request) → Server → Type 0
AllOrderly total o [] s = Unit
AllOrderly total o ((h, r) ∷ rest) s =
    IsOrderly total h s.db × AllOrderly total o rest (serve o h r s).1

-- Whatever requests the server serves, with whatever credentials, faults and retries, the ledger
-- stays sound and the sum of all balances stays what it was, if what other sessions commit meanwhile
-- keeps that too and fresh identifiers are unused in the journal.
pub serve_all-IsSound :
    (total : ℤ) (o : AppOptions) (requests : List (Happening × Request)) (s : Server)
    → AllOrderly total o requests s
    → IsSound total s.db
    → IsSound total (serve_all o requests s).db
serve_all-IsSound total o [] s orderly v = v
serve_all-IsSound total o ((h, r) ∷ rest) s (here, later) v =
    serve_all-IsSound total o rest (serve o h r s).1 later (serve-IsSound total o h r s here v)
