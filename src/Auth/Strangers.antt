-- ===== src/Auth/Strangers.antt =====
-- A secret that is the secret of no live key is refused.
use pulse_ledger.Base.{
  ℕ, ◌≡◌, ◌≢◌, ap, ◌∙◌, true, ◌&&◌, some, List, [], ◌∷◌, arith, find, All, Bool-cases, Option-cases,
  inl, inr,
}
use pulse_ledger.Base.Decimal.{Text}
use pulse_ledger.Errors.{err}
use pulse_ledger.Auth.Store.{
  ApiKey, ApiKeyCandidate, AuthTables, is_live, same_text, find_principal_by_id,
  find_key_candidate_by_prefix,
}
use pulse_ledger.Auth.Service.{api_key_prefix_of, invalid_key, authenticate}

-- No live key has the hash of the secret.
abbrev pub IsUnknown : (Text → ℕ) → Text → AuthTables → Type 0
IsUnknown hash secret t = All (λ (k : ApiKey). is_live k ≡ true → k.key_hash ≢ hash secret) t.keys

some-injective : {a b : ApiKey} → some a ≡ some b → a ≡ b
some-injective h = cc

found_other :
    (prefix : Text) (hash : ℕ) (keys : List ApiKey) (k : ApiKey)
    → All (λ (x : ApiKey). is_live x ≡ true → x.key_hash ≢ hash) keys
    → find (λ (x : ApiKey). same_text x.key_prefix prefix && is_live x) keys ≡ some k
    → k.key_hash ≢ hash
found_other prefix hash [] k unknown h = cc
found_other prefix hash (x ∷ keys) k (n, unknown) h =
    elim (Bool-cases (same_text x.key_prefix prefix && is_live x)) [
      | inl y ↦
          let same : x ≡ k = some-injective (rw y at h) in
          λ q. n (ground (arith, y)) (ap (λ (z : ApiKey). z.key_hash) same ∙ q)
      | inr m ↦ found_other prefix hash keys k unknown (rw m at h)
    ]

candidate_other :
    (hash : Text → ℕ) (secret prefix : Text) (t : AuthTables) (c : ApiKeyCandidate)
    → IsUnknown hash secret t
    → find_key_candidate_by_prefix prefix t ≡ some c
    → c.key_hash ≢ hash secret
unfolding find_key_candidate_by_prefix
candidate_other hash secret prefix t c unknown h =
    elim (Option-cases (find (λ (x : ApiKey). same_text x.key_prefix prefix && is_live x) t.keys)) [
      | inl n ↦ absurd (ground (arith, n))
      | inr (k, e) ↦ elim (Option-cases (find_principal_by_id k.principal_id t)) [
        | inl n ↦ absurd (ground (arith, e, n))
        | inr (p, f) ↦
            let same : k.key_hash ≡ c.key_hash = ground (arith, e, f, h) in
            λ q. found_other prefix (hash secret) t.keys k unknown e (same ∙ q)
      ]
    ]

pub authenticate-stranger :
    (hash : Text → ℕ) (secret : Text) (t : AuthTables)
    → IsUnknown hash secret t
    → authenticate hash secret t ≡ err invalid_key
unfolding authenticate
authenticate-stranger hash secret t unknown = elim (Option-cases (api_key_prefix_of secret)) [
  | inl n ↦ ground (arith, n)
  | inr (prefix, e) ↦ elim (Option-cases (find_key_candidate_by_prefix prefix t)) [
    | inl n ↦ ground (arith, e, n)
    | inr (c, f) ↦ ground (arith, e, f, candidate_other hash secret prefix t c unknown f)
  ]
]
