-- ===== src/Auth/Store.antt =====
-- `PostgresAuthStore`, src/modules/auth/auth-repository.ts, on the tables `principals`, `api_keys`
-- and `principal_identities`. A hash and a subject are compared and nothing else: they are numbers.
use pulse_ledger.Base.{
  ℕ, Bool, true, false, not, ◌&&◌, ◌||◌, Option, none, some, List, [], ◌∷◌, ◌++◌, ltb, ◌==◌,
  if◌then◌else◌, find, any, count_rows, update_rows,
}
use pulse_ledger.Base.Decimal.{Text}
use pulse_ledger.Errors.{
  Failure, database_error, unique_violation, foreign_key_violation, unexpected_error,
  identity_already_mapped, Result, ok, err, ◌>>=◌, ◌>>◌, throw_if, or_throw,
}
use pulse_ledger.Ports.Transaction.{Faults, Outcome, with_transaction}

pub data PrincipalStatus : Type 0 where
  enabled disabled : PrincipalStatus

abbrev pub is_enabled : PrincipalStatus → Bool
is_enabled enabled = true
is_enabled disabled = false

pub record Principal : Type 0 where
  pub created_at : ℕ
  pub id : ℕ
  pub name : Text
  pub status : PrincipalStatus

abbrev pub same_text : Text → Text → Bool
same_text [] [] = true
same_text (c ∷ cs) (d ∷ ds) = c == d && same_text cs ds
same_text _ _ = false

-- A row of `api_keys`, and `ApiKeyRecord` without the hash.
pub record ApiKey : Type 0 where
  pub created_at : ℕ
  pub id : ℕ
  pub key_prefix : Text
  pub key_hash : ℕ
  pub principal_id : ℕ
  pub revoked_at : Option ℕ

-- `ExternalIdentity`; the provider is always `firebase`, and `subject_text` is the text of the
-- provider and the subject, with a colon between them.
pub record ExternalIdentity : Type 0 where
  pub display_name : Option Text
  pub email : Option Text
  pub email_verified : Bool
  pub subject : ℕ
  pub subject_text : Text

pub record IdentityMapping : Type 0 where
  pub subject : ℕ
  pub principal_id : ℕ
  pub email : Option Text

pub record AuthTables : Type 0 where
  pub principals : List Principal
  pub keys : List ApiKey
  pub identities : List IdentityMapping

abbrev pub new_principal : ℕ → ℕ → Text → Principal
new_principal id now name = record { created_at = now; id = id; name = name; status = enabled }

-- `createPrincipal`; the identifier and the time are the columns' defaults.
unfoldable pub create_principal : ℕ → ℕ → Text → AuthTables → Result (Principal × AuthTables)
create_principal id now name t = do
  throw_if (any (λ (p : Principal). p.id == id) t.principals) (database_error unique_violation)
  ok (
    new_principal id now name,
    record t { principals = t.principals ++ new_principal id now name ∷ [] },
  )

-- `findPrincipalById`
unfoldable pub find_principal_by_id : ℕ → AuthTables → Option Principal
find_principal_by_id id t = find (λ (p : Principal). p.id == id) t.principals

abbrev pub is_live : ApiKey → Bool
is_live k = elim k.revoked_at [ none ↦ true | some t ↦ false ]

pub record ApiKeyCandidate : Type 0 where
  pub key_hash : ℕ
  pub key_id : ℕ
  pub principal : Principal

-- `findKeyCandidateByPrefix`: the foreign key makes the join find the principal.
unfoldable pub find_key_candidate_by_prefix : Text → AuthTables → Option ApiKeyCandidate
unfolding find_principal_by_id
find_key_candidate_by_prefix prefix t =
    elim (find (λ (k : ApiKey). same_text k.key_prefix prefix && is_live k) t.keys) [
      | none ↦ none
      | some k ↦ elim (find_principal_by_id k.principal_id t) [
        | none ↦ none
        | some p ↦ some (record { key_hash = k.key_hash; key_id = k.id; principal = p })
      ]
    ]

abbrev pub new_key : ℕ → ℕ → ℕ → Text → ℕ → ApiKey
new_key id now principal_id prefix hash = record {
  created_at = now;
  id = id;
  key_prefix = prefix;
  key_hash = hash;
  principal_id = principal_id;
  revoked_at = none;
}

-- `insertApiKey`; a prefix is unique.
unfoldable pub insert_api_key : ℕ → ℕ → ℕ → Text → ℕ → AuthTables → Result (ApiKey × AuthTables)
insert_api_key id now principal_id prefix hash t = do
  throw_if (any (λ (k : ApiKey). k.id == id || same_text k.key_prefix prefix) t.keys)
      (database_error unique_violation)
  throw_if (not (any (λ (p : Principal). p.id == principal_id) t.principals))
      (database_error foreign_key_violation)
  let row = new_key id now principal_id prefix hash
  ok (row, record t { keys = t.keys ++ row ∷ [] })

-- `revokeApiKey`: `coalesce(revoked_at, now())` keeps the first time.
abbrev pub revoked : ℕ → ApiKey → ApiKey
revoked now k = record k { revoked_at = elim k.revoked_at [ none ↦ some now | some t ↦ some t ] }

unfoldable pub revoke_api_key : ℕ → ℕ → AuthTables → Bool × AuthTables
revoke_api_key id now t = (
  ltb 0 (count_rows (λ (k : ApiKey). k.id == id) t.keys),
  record t { keys = update_rows (λ (k : ApiKey). k.id == id) (revoked now) t.keys },
)

-- `findPrincipalByIdentity`
unfoldable pub find_principal_by_identity : ℕ → AuthTables → Option Principal
unfolding find_principal_by_id
find_principal_by_identity subject t =
    elim (find (λ (m : IdentityMapping). m.subject == subject) t.identities) [
      | none ↦ none
      | some m ↦ find_principal_by_id m.principal_id t
    ]

-- The transaction of `createPrincipalForIdentity`: a mapping that is there already makes it throw.
unfoldable pub map_identity :
    ℕ → ℕ → ExternalIdentity → Text → AuthTables → Result (Principal × AuthTables)
unfolding create_principal
map_identity id now identity name t = do
  (p, inserted) ← create_principal id now name t
  throw_if (any (λ (m : IdentityMapping). m.subject == identity.subject) inserted.identities)
      identity_already_mapped
  let row : IdentityMapping = record {
    subject = identity.subject;
    principal_id = p.id;
    email = identity.email;
  }
  ok (p, record inserted { identities = inserted.identities ++ row ∷ [] })

abbrev pub is_already_mapped : Failure → Bool
is_already_mapped identity_already_mapped = true
is_already_mapped _ = false

-- `createPrincipalForIdentity`
unfoldable pub create_principal_for_identity :
    Faults → ℕ → ℕ → ExternalIdentity → Text → AuthTables → Outcome Principal AuthTables
create_principal_for_identity f id now identity name t =
    let o = with_transaction f (map_identity id now identity name) t in
    record {
      result = elim o.result [
        | ok p ↦ ok p
        | err e ↦
            if is_already_mapped e
            then or_throw (find_principal_by_identity identity.subject o.database)
                (unexpected_error "identity mapping vanished after a conflicting insert")
            else err e
      ];
      database = o.database;
      connection = o.connection;
    }
