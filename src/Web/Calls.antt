-- ===== src/Web/Calls.antt =====
-- `request` and the calls of `api`, web/src/lib/api.ts, with the credentials of
-- web/src/lib/session.ts. `fetch` is the browser's: its outcome is a value.
use pulse_ledger.Base.{
  ℕ, zero, suc, Bool, true, false, not, ◌&&◌, ◌||◌, Option, none, some, List, [], ◌∷◌, ◌++◌, leb,
  ltb, ◌==◌, if◌then◌else◌,
}
use pulse_ledger.Base.Decimal.{Text}
use pulse_ledger.Errors.{Result, ok, err, error_handler}
use pulse_ledger.Http.Bearer.{bearer_prefix}
use pulse_ledger.Web.Errors.{ClientCode, http_status, network_error, ApiError, error_of}

-- `sessionStorage`, in the two slots that the client uses.
pub record Session : Type 0 where
  pub customer_key : Option Text
  pub admin_key : Option Text

pub data Slot : Type 0 where
  customer_slot admin_slot : Slot

-- `readCredential`
unfoldable pub read_credential : Slot → Session → Option Text
read_credential customer_slot s = s.customer_key
read_credential admin_slot s = s.admin_key

-- `if (value) … else …`
abbrev pub truthy : Option Text → Option Text
truthy none = none
truthy (some []) = none
truthy (some (c ∷ cs)) = some (c ∷ cs)

-- `writeCredential`
unfoldable pub write_credential : Slot → Option Text → Session → Session
write_credential customer_slot value s = record s { customer_key = truthy value }
write_credential admin_slot value s = record s { admin_key = truthy value }

-- `Auth`, whose third value is `'none'`.
pub data Auth : Type 0 where
  customer admin public : Auth

-- The two headers that carry a credential.
pub record Headers : Type 0 where
  pub authorization : Option Text
  pub x_admin_api_key : Option Text

-- `a ?? b`
abbrev pub or_else {ℓ} : {A : Type ℓ} → Option A → Option A → Option A
or_else none b = b
or_else (some a) b = some a

abbrev pub or_empty : Option Text → Text
or_empty none = []
or_empty (some t) = t

-- The headers of a request; `id_token` is what Firebase gives for the signed-in user.
unfoldable pub headers : Auth → Option Text → Option Text → Session → Headers
unfolding read_credential
headers customer credential id_token s = record {
  authorization = some (
      bearer_prefix
      ++ or_empty (or_else (or_else credential (read_credential customer_slot s)) id_token));
  x_admin_api_key = none;
}
headers admin credential id_token s = record {
  authorization = none;
  x_admin_api_key = some (or_empty (or_else credential (read_credential admin_slot s)));
}
headers public credential id_token s = record { authorization = none; x_admin_api_key = none }

abbrev pub is_some {ℓ} : {A : Type ℓ} → Option A → Bool
is_some none = false
is_some (some a) = true

-- `usedApiKey`
unfoldable pub used_api_key : Auth → Option Text → Session → Bool
unfolding read_credential
used_api_key customer none s = is_some (read_credential customer_slot s)
used_api_key customer (some key) s = false
used_api_key admin credential s = false
used_api_key public credential s = false

-- What `fetch` comes to: no response, or a status with the error envelope's code and request
-- identifier, where the body has them, and the payload.
pub data Fetched {ℓ} (A : Type ℓ) : Type ℓ where
  unreachable : Fetched A
  answered : ℕ → Option ClientCode → Option ℕ → A → Fetched A

pub data Call {ℓ} (A : Type ℓ) : Type ℓ where
  returned : A → Call A
  threw : ApiError → Call A

abbrev pub is_ok_status : ℕ → Bool
is_ok_status s = leb 200 s && ltb s 300

abbrev pub code_or_status : Option ClientCode → ClientCode
code_or_status none = http_status
code_or_status (some c) = c

-- The slot that a rejected credential is dropped from.
abbrev pub slot_of : Auth → Slot
slot_of customer = customer_slot
slot_of admin = admin_slot
slot_of public = admin_slot

abbrev pub is_admin : Auth → Bool
is_admin customer = false
is_admin admin = true
is_admin public = false

-- `request`, behind `fetch`: what it returns or throws, and the session after it.
unfoldable pub finish {ℓ} :
    {A : Type ℓ} → Auth → Option Text → Fetched A → Session → Call A × Session
unfolding used_api_key write_credential
finish auth credential unreachable s =
    (threw (record { status = 0; code = network_error; request_id = none }), s)
finish auth credential (answered status code request_id payload) s =
    if is_ok_status status then (returned payload, s) else (
      threw (record { status = status; code = code_or_status code; request_id = request_id }),
      if status == 401
            && not (is_some credential)
            && (is_admin auth || used_api_key auth credential s)
          then write_credential (slot_of auth) none s
          else s,
    )

-- A reply of the server as the client receives it.
abbrev pub received {ℓ} : {A : Type ℓ} → ℕ → Result A → Call A
received rid (ok a) = returned a
received rid (err e) = threw (error_of (error_handler e rid))

abbrev pub is_unavailable : ApiError → Bool
is_unavailable e = e.status == 503

-- `ready`: `none` is the status `unavailable`.
unfoldable pub ready {ℓ} : {A : Type ℓ} → Call A → Call (Option A)
ready (returned a) = returned (some a)
ready (threw e) = if is_unavailable e then returned none else threw e

-- `accounts.push(...)`, where the later requests return.
abbrev pub joined {ℓ} : {A : Type ℓ} → List A → Call (List A) → Call (List A)
joined page (threw e) = threw e
joined page (returned rest) = returned (page ++ rest)

abbrev pub turned {ℓ} :
    {A : Type ℓ} → Call (List A × Option Text) → (Text → Call (List A)) → Call (List A)
turned (threw e) next = threw e
turned (returned (page, cursor)) next = elim (truthy cursor) [
  | none ↦ returned page
  | some c ↦ joined page (next c)
]

-- The loop of `listAccounts`, on the pages left.
unfoldable pub list_pages {ℓ} :
    {A : Type ℓ} → ℕ → (Option Text → Call (List A × Option Text)) → Option Text → Call (List A)
list_pages zero fetch cursor = returned []
list_pages (suc left) fetch cursor = turned (fetch cursor) (λ c. list_pages left fetch (some c))

abbrev pub max_pages : ℕ
max_pages = 50

-- `listAccounts`
unfoldable pub list_accounts {ℓ} :
    {A : Type ℓ} → (Option Text → Call (List A × Option Text)) → Call (List A)
unfolding list_pages
list_accounts fetch = list_pages max_pages fetch none
