-- ===== src/Tests/HttpRuns.antt =====
-- Requests through the app: an administrator issues a key, and a customer pays with it; and an ID
-- token that a stand-in for jose accepts.
use pulse_ledger.Base.{
  ℕ, ◌+◌, ◌≡◌, refl, sym, ap, ◌∙◌, inl, length, true, false, some, none, [], ◌∷◌, ◌++◌, any, All,
  arith,
}
use pulse_ledger.Base.Int.{ℤ}
use pulse_ledger.Base.Decimal.{Text}
use pulse_ledger.Errors.{error_handler, ok}
use pulse_ledger.Ledger.Conservation.{total_balance}
use pulse_ledger.Ports.Transaction.{no_faults}
use pulse_ledger.Soundness.{IsSound}
use pulse_ledger.Transfers.Domain.{CreateTransferInput}
use pulse_ledger.Auth.Store.{ExternalIdentity, find_principal_by_id, insert_api_key}
use pulse_ledger.Auth.Service.{api_key_tag, issue_api_key, require_admin_api_key}
use pulse_ledger.Http.Bearer.{is_space, bearer_prefix, extract_bearer_token, IsCredential}
use pulse_ledger.Http.Firebase.{
  number, text, truth, anything_else, JwtPayload, JwtOptions, JwtOutcome, verified, token_error,
  IsAmong, Jose, options_of, provider_prefix, read_payload, verify_firebase_token, IsAccepted,
  verify_firebase_token-IsAccepted,
}
use pulse_ledger.Http.Metrics.{render_label}
use pulse_ledger.Http.Exposition.{read_label, read_label-render_label}
use pulse_ledger.Http.Requests.{
  issue_key, create_transfer, scrape, admin_route, customer_route, Request, key_content,
}
use pulse_ledger.Http.Handlers.{AppOptions, Server, Happening, handle_customer, handle_admin}
use pulse_ledger.Http.App.{behind_guard, serve}
use pulse_ledger.Http.Guards.{
  serve_admin_guarded, serve_customer_guarded, IsStranger, issued_key_serves,
}
use pulse_ledger.Http.Sound.{IsOrderly, serve_all, serve_all-IsSound}
use pulse_ledger.Web.Calls.{Session, admin, headers, answered, finish}
use pulse_ledger.Web.Credentials.{rejected_key_forgotten}
use pulse_ledger.Tests.Sample.{funded, before}
use pulse_ledger.Tests.LedgerRuns.{funded-IsConsistent, funded-IsKeyed}
use pulse_ledger.Tests.AuthRuns.{drawn, caller, tables, with_key, hash, row, keep}
use pulse_ledger.Tests.RouteRuns.{quiet, settlement, codec}

abbrev admin_key : Text
admin_key = b'r' ∷ b'o' ∷ b'o' ∷ b't' ∷ []

abbrev options : AppOptions
options = record {
  admin_api_key = admin_key;
  firebase_token_verifier = none;
  has_outbox_store = true;
  administrator_principal_id = 1;
  codec = codec;
  hash = hash;
  sanitize = keep;
}

abbrev happening : Happening
happening = record {
  guard_fails = none;
  query_fails = none;
  fresh_id = 5;
  now = 2;
  drawn = drawn;
  metrics = record { completed = 0; exhausted = 0; retries = 0 };
  attempts = λ n. record {
    interference = λ db. db;
    faults = no_faults;
    fresh = record { source_entry_id = 701; destination_entry_id = 702; event_id = 703; now = 9 };
    jitter = 0;
  };
  around = quiet;
  settlement = settlement;
  funding_faults = no_faults;
  funding_between = λ db. db;
  posting_fresh = record { entry_id = λ n. 900 + n; event_id = 903; now = 9 };
  identity_faults = no_faults;
  identity_between = λ t. t;
  identity_id = 101;
}

abbrev server : Server
server = record { db = before; auth = tables }

abbrev issue_request : Request
issue_request = record {
  request_id = 31;
  authorization = none;
  admin_key = some admin_key;
  idempotency_key = none;
  valid = true;
  route = admin_route (issue_key 100);
}

abbrev input : CreateTransferInput
input = record {
  amount_minor = b'3' ∷ b'0' ∷ b'0' ∷ [];
  destination_account_id = 2;
  source_account_id = 1;
}

abbrev transfer_request : Request
transfer_request = record {
  request_id = 32;
  authorization = some (bearer_prefix ++ api_key_tag ++ drawn);
  admin_key = none;
  idempotency_key = none;
  valid = true;
  route = customer_route (create_transfer 77 input);
}

abbrev total : ℤ
total = total_balance funded.accounts

same_db : (serve options happening issue_request server).1.db ≡ before
unfolding serve handle_admin require_admin_api_key issue_api_key find_principal_by_id insert_api_key
same_db = refl

orderly : (s : Server) → s.db ≡ before → IsOrderly total happening s.db
orderly s e = record {
  transfers_between = λ n d v. v;
  fundings_between = λ d v. v;
  unused = rw e refl;
}

serve_all-IsSound_example :
    IsSound total
      (serve_all options
        ((happening, issue_request) ∷ (happening, transfer_request) ∷ [])
        server).db
serve_all-IsSound_example =
    serve_all-IsSound total options
      ((happening, issue_request) ∷ (happening, transfer_request) ∷ []) server
      (orderly server refl, (orderly (serve options happening issue_request server).1 same_db, tt))
      (record { consistent = funded-IsConsistent; keyed = funded-IsKeyed; total_kept = refl })

-- A customer's credential does not open an administrative route.
abbrev scraping : Request
scraping = record transfer_request { route = admin_route scrape }

serve_admin_guarded_example :
    ((serve options happening scraping server).0.status ≡ some 401)
    × ((serve options happening scraping server).1 ≡ server)
serve_admin_guarded_example =
    serve_admin_guarded options happening scraping server scrape refl (λ e. absurd (cc e))

-- A browser with a customer's key and a wrong administrator's key.
abbrev browser : Session
browser = record { customer_key = some (b'c' ∷ []); admin_key = some (b'w' ∷ []) }

abbrev guessing : Request
guessing = record scraping { admin_key = some (b'w' ∷ []) }

headers_sent : guessing.admin_key ≡ (headers admin none none browser).x_admin_api_key
unfolding headers
headers_sent = refl

answered_401 : (serve options happening guessing server).0.status ≡ some 401
unfolding serve require_admin_api_key error_handler
answered_401 = refl

rejected_key_forgotten_example :
    ((serve options happening guessing server).1 ≡ server)
    × ((finish {A = ℕ} admin none (answered 401 none none 0) browser).1
        ≡ record browser { admin_key = none })
rejected_key_forgotten_example =
    rejected_key_forgotten options happening guessing server scrape none browser refl headers_sent
      (λ e. absurd (cc e)) 401 none none 0 answered_401

-- A key that was never issued, and a body that the schema refuses.
abbrev guess : Text
guess = api_key_tag ++ drawn ++ b'x' ∷ []

abbrev unissued : Request
unissued = record transfer_request { authorization = some (bearer_prefix ++ guess); valid = false }

abbrev one_key : Server
one_key = record { db = before; auth = with_key }

guess_read : extract_bearer_token (some (bearer_prefix ++ guess)) ≡ some guess
unfolding extract_bearer_token
guess_read = refl

some_text-injective : {a b : Text} → some a ≡ some b → a ≡ b
some_text-injective h = cc

stranger : IsStranger options unissued.authorization with_key
stranger secret e =
    let same = some_text-injective (sym guess_read ∙ e) in
    (inl refl, (λ live q. absurd (omega (arith, q ∙ sym (ap length same))), tt))

serve_customer_guarded_example :
    ((serve options happening unissued one_key).0.status ≡ some 401)
    × ((serve options happening unissued one_key).1 ≡ one_key)
serve_customer_guarded_example =
    serve_customer_guarded options happening unissued one_key (create_transfer 77 input) refl refl
      stranger

issued :
    (serve options happening issue_request server).0.content
    ≡ key_content row (api_key_tag ++ drawn)
unfolding serve handle_admin require_admin_api_key issue_api_key find_principal_by_id insert_api_key
issued = refl

unspaced : (t : Text) → any is_space t ≡ false → All (λ c. is_space c ≡ false) t
unspaced [] h = tt
unspaced (c ∷ cs) h = (ground arith, unspaced cs (ground arith))

key-IsCredential : IsCredential (api_key_tag ++ drawn)
key-IsCredential = ((λ e. absurd (cc e)), unspaced (api_key_tag ++ drawn) refl)

looked_up : find_principal_by_id 100 tables ≡ some caller
unfolding find_principal_by_id
looked_up = refl

issued_key_serves_example :
    let after = (serve options happening issue_request server).1 in
    serve options happening transfer_request after
    ≡ behind_guard transfer_request
        (handle_customer options happening transfer_request (create_transfer 77 input) 100)
        after
issued_key_serves_example =
    issued_key_serves options happening issue_request server 100 row (api_key_tag ++ drawn)
      happening transfer_request (create_transfer 77 input) caller refl issued refl refl refl
      (omega arith) key-IsCredential looked_up refl

-- A stand-in for jose, that takes one token and says what the options ask for.
abbrev payload : JwtOptions → JwtPayload
payload o = record {
  aud = o.audience ∷ [];
  iss = o.issuer;
  iat = number 100;
  auth_time = number 104;
  sub = text (b'u' ∷ b'7' ∷ []);
  name = anything_else;
  email = text (b'e' ∷ []);
  email_verified = truth;
}

abbrev accept : JwtOptions → Text → JwtOutcome
accept o [] = token_error
accept o (c ∷ cs) = verified (payload o)

accepted : (o : JwtOptions) (t : Text) (p : JwtPayload) → accept o t ≡ verified p → payload o ≡ p
accepted o [] p h = cc
accepted o (c ∷ cs) p h = ground arith

among : (o : JwtOptions) (t : Text) (p : JwtPayload) → payload o ≡ p → IsAmong o.audience p.aud
among o t p e = rw (sym e) (inl refl)

jose : Jose
jose = record {
  jwt_verify = accept;
  checks_audience = λ o t p h. among o t p (accepted o t p h);
  checks_issuer = λ o t p h. ap (λ (q : JwtPayload). q.iss) (sym (accepted o t p h));
}

abbrev project : Text
project = b'p' ∷ b'l' ∷ []

abbrev visitor : ExternalIdentity
visitor = record {
  display_name = none;
  email = some (b'e' ∷ []);
  email_verified = true;
  subject = 2;
  subject_text = provider_prefix ++ b'u' ∷ b'7' ∷ [];
}

admitted : verify_firebase_token jose hash project 100 (b't' ∷ []) ≡ ok visitor
unfolding verify_firebase_token read_payload jose
admitted = refl

verify_firebase_token-IsAccepted_example :
    (p : JwtPayload) × (jose.jwt_verify (options_of project) (b't' ∷ []) ≡ verified p)
    × IsAccepted hash project 100 p visitor
verify_firebase_token-IsAccepted_example =
    verify_firebase_token-IsAccepted jose hash project 100 (b't' ∷ []) visitor admitted

-- A value with a quote, a backslash and a line end.
abbrev odd_value : Text
odd_value = 34 ∷ 92 ∷ 10 ∷ b'n' ∷ []

read_label-render_label_example :
    read_label (render_label (b'k' ∷ [], odd_value) ++ b'}' ∷ [])
    ≡ some ((b'k' ∷ [], odd_value), b'}' ∷ [])
read_label-render_label_example =
    read_label-render_label (b'k' ∷ []) odd_value (b'}' ∷ []) (refl, tt)
