-- ===== src/Auth/Keys.antt =====
-- An API key works from its issue to its revocation.
use pulse_ledger.Base.{
  ℕ, ◌≤◌, ◌≡◌, refl, true, false, ◌&&◌, ◌||◌, none, some, List, [], ◌∷◌, ◌++◌, arith, ◌==◌, ==_refl,
  find, any, update_rows, take, length, Bool-cases, Option-cases, inl, inr,
}
use pulse_ledger.Base.Decimal.{Text}
use pulse_ledger.Errors.{ok, err, Result-cases}
use pulse_ledger.Auth.Store.{
  Principal, enabled, ApiKey, AuthTables, is_live, new_key, revoked, same_text,
  find_principal_by_id, find_key_candidate_by_prefix, insert_api_key, revoke_api_key,
}
use pulse_ledger.Auth.Service.{
  api_key_tag, api_key_prefix_length, strip_prefix, api_key_prefix_of, invalid_key, authenticate,
  issue_api_key,
}

pub same_text_refl : (t : Text) → same_text t t ≡ true
same_text_refl [] = refl
same_text_refl (c ∷ cs) = rw (==_refl c) (same_text_refl cs)

pub same_text_eq : (a b : Text) → same_text a b ≡ true → a ≡ b
same_text_eq [] [] h = refl
same_text_eq [] (d ∷ ds) h = cc
same_text_eq (c ∷ cs) [] h = cc
same_text_eq (c ∷ cs) (d ∷ ds) h = ground (arith, same_text_eq cs ds)

prefix_of_issued :
    (drawn : Text)
    → api_key_prefix_length ≤ length drawn
    → api_key_prefix_of (api_key_tag ++ drawn) ≡ some (take api_key_prefix_length drawn)
unfolding api_key_prefix_of strip_prefix
prefix_of_issued drawn h = ground arith

find_issued :
    (id : ℕ) (row : ApiKey) (keys : List ApiKey)
    → any (λ (k : ApiKey). k.id == id || same_text k.key_prefix row.key_prefix) keys ≡ false
    → is_live row ≡ true
    → find (λ (k : ApiKey). same_text k.key_prefix row.key_prefix && is_live k) (keys ++ row ∷ [])
      ≡ some row
find_issued id row [] h live = ground (arith, same_text_refl row.key_prefix)
find_issued id row (k ∷ keys) h live = ground (arith, find_issued id row keys)

insert_api_key-ok :
    (id now principal_id : ℕ) (prefix : Text) (hash : ℕ) (t t' : AuthTables) (row : ApiKey)
    → insert_api_key id now principal_id prefix hash t ≡ ok (row, t')
    → (any (λ (k : ApiKey). k.id == id || same_text k.key_prefix prefix) t.keys ≡ false)
      × (row ≡ new_key id now principal_id prefix hash)
      × (t' ≡ record t { keys = t.keys ++ new_key id now principal_id prefix hash ∷ [] })
unfolding insert_api_key
insert_api_key-ok id now principal_id prefix hash t t' row h =
    (ground arith, ground arith, ground arith)

pub issue_api_key-ok :
    (hash : Text → ℕ) (id now : ℕ) (drawn : Text) (principal_id : ℕ) (t t' : AuthTables)
    (row : ApiKey) (secret : Text)
    → issue_api_key hash id now drawn principal_id t ≡ ok ((row, secret), t')
    → (insert_api_key id now principal_id
          (take api_key_prefix_length drawn)
          (hash (api_key_tag ++ drawn))
          t
        ≡ ok (row, t'))
      × (secret ≡ api_key_tag ++ drawn)
unfolding issue_api_key
issue_api_key-ok hash id now drawn principal_id t t' row secret h =
    elim (Option-cases (find_principal_by_id principal_id t)) [
      | inl missing ↦ absurd (ground arith)
      | inr (p, found) ↦
          elim (Result-cases (
            insert_api_key id now principal_id (take api_key_prefix_length drawn)
              (hash (api_key_tag ++ drawn)) t)) [
                | inr (e, refused) ↦ absurd (ground arith)
                | inl ((k, stored), done) ↦ (ground arith, ground arith)
              ]
    ]

module _ (hash : Text → ℕ) (id now : ℕ) (drawn : Text) (principal_id : ℕ) (t t' : AuthTables)
    (row : ApiKey) (secret : Text) (p : Principal) where
  -- The secret that issuing a key returns authenticates as the key's principal, if that principal
  -- is not disabled.
  pub issue-authenticate :
      issue_api_key hash id now drawn principal_id t ≡ ok ((row, secret), t')
      → api_key_prefix_length ≤ length drawn
      → find_principal_by_id principal_id t ≡ some p
      → p.status ≡ enabled
      → authenticate hash secret t' ≡ ok p
  unfolding authenticate find_key_candidate_by_prefix find_principal_by_id
  issue-authenticate h long found active =
      let (inserted, same) = issue_api_key-ok hash id now drawn principal_id t t' row secret h in
      let (fresh, new, after) =
        insert_api_key-ok id now principal_id (take api_key_prefix_length drawn)
          (hash (api_key_tag ++ drawn)) t t' row inserted in
      rw (same, after)
        (ground (
          arith,
          prefix_of_issued drawn long,
          find_issued id
              (new_key id now principal_id (take api_key_prefix_length drawn)
                (hash (api_key_tag ++ drawn)))
              t.keys fresh refl,
          found,
          active,
          ==_refl (hash (api_key_tag ++ drawn)),
        ))

-- No two keys share a prefix.
abbrev pub HasPrefixes : List ApiKey → Type 0
HasPrefixes [] = Unit
HasPrefixes (k ∷ keys) =
    (any (λ (x : ApiKey). same_text x.key_prefix k.key_prefix) keys ≡ false) × HasPrefixes keys

none_live :
    (id now : ℕ) (prefix : Text) (keys : List ApiKey)
    → any (λ (x : ApiKey). same_text x.key_prefix prefix) keys ≡ false
    → find
        (λ (x : ApiKey). same_text x.key_prefix prefix && is_live x)
        (update_rows (λ (x : ApiKey). x.id == id) (revoked now) keys)
      ≡ none
none_live id now prefix [] h = refl
none_live id now prefix (k ∷ keys) h = elim (Bool-cases (k.id == id)) [
  | inl y ↦ rw y (ground (arith, none_live id now prefix keys))
  | inr n ↦ rw n (ground (arith, none_live id now prefix keys))
]

found_prefix :
    (id : ℕ) (keys : List ApiKey) (k : ApiKey)
    → find (λ (x : ApiKey). x.id == id) keys ≡ some k
    → any (λ (x : ApiKey). same_text x.key_prefix k.key_prefix) keys ≡ true
found_prefix id [] k h = cc
found_prefix id (x ∷ keys) k h = elim (Bool-cases (x.id == id)) [
  | inl y ↦ ground (arith, same_text_refl k.key_prefix)
  | inr n ↦ ground (arith, found_prefix id keys k (rw n at h))
]

revoked_dead : (now : ℕ) (k : ApiKey) → is_live (revoked now k) ≡ false
revoked_dead now k = ground arith

locked :
    (id now : ℕ) (keys : List ApiKey) (k : ApiKey)
    → HasPrefixes keys
    → find (λ (x : ApiKey). x.id == id) keys ≡ some k
    → find
        (λ (x : ApiKey). same_text x.key_prefix k.key_prefix && is_live x)
        (update_rows (λ (x : ApiKey). x.id == id) (revoked now) keys)
      ≡ none
locked id now [] k q h = cc
locked id now (x ∷ keys) k (n, q) h = elim (Bool-cases (x.id == id)) [
  | inl y ↦
      let same : x ≡ k = ground arith in
      let gone : any (λ (z : ApiKey). same_text z.key_prefix k.key_prefix) keys ≡ false =
        rw same at n in
      rw y (ground (arith, revoked_dead now x, none_live id now k.key_prefix keys gone))
  | inr m ↦
      let rest : find (λ (z : ApiKey). z.id == id) keys ≡ some k = rw m at h in
      elim (Bool-cases (same_text x.key_prefix k.key_prefix)) [
        | inl shared ↦ absurd (
            ground
              (arith, found_prefix id keys k rest, same_text_eq x.key_prefix k.key_prefix shared))
        | inr apart ↦ rw m (ground (arith, apart, locked id now keys k q rest))
      ]
]

-- After a key's revocation no secret under its prefix authenticates, the issued one included.
pub revoke_locks_out :
    (hash : Text → ℕ) (id now : ℕ) (t : AuthTables) (k : ApiKey) (secret : Text)
    → HasPrefixes t.keys
    → find (λ (x : ApiKey). x.id == id) t.keys ≡ some k
    → api_key_prefix_of secret ≡ some k.key_prefix
    → authenticate hash secret (revoke_api_key id now t).1 ≡ err invalid_key
unfolding authenticate find_key_candidate_by_prefix revoke_api_key
revoke_locks_out hash id now t k secret q found prefix =
    ground (arith, prefix, locked id now t.keys k q found)
