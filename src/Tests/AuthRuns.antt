-- ===== src/Tests/AuthRuns.antt =====
-- A key from its issue to its revocation, and a first sign-in.
use pulse_ledger.Base.{ℕ, ◌≡◌, refl, true, Option, some, none, [], ◌∷◌, ◌++◌, take, length}
use pulse_ledger.Base.Decimal.{Text}
use pulse_ledger.Errors.{ok, err}
use pulse_ledger.Ports.Transaction.{no_faults, with_transaction}
use pulse_ledger.Auth.Store.{
  Principal, enabled, ApiKey, AuthTables, ExternalIdentity, new_key, new_principal,
  find_principal_by_id, find_principal_by_identity, insert_api_key, revoke_api_key,
  create_principal, map_identity, create_principal_for_identity,
}
use pulse_ledger.Auth.Service.{
  api_key_tag, api_key_prefix_of, strip_prefix, invalid_key, authenticate, issue_api_key,
  authenticate_identity,
}
use pulse_ledger.Auth.Keys.{revoke_locks_out}
use pulse_ledger.Auth.Identities.{authenticate_identity_mapped}

-- The twelve characters `a` … `l`, and one more.
abbrev pub drawn : Text
drawn =
    b'a' ∷ b'b' ∷ b'c' ∷ b'd' ∷ b'e' ∷ b'f' ∷ b'g' ∷ b'h' ∷ b'i' ∷ b'j' ∷ b'k' ∷ b'l' ∷ b'm' ∷ []

abbrev pub caller : Principal
caller = new_principal 100 1 (b'A' ∷ [])

abbrev pub tables : AuthTables
tables = record { principals = caller ∷ []; keys = []; identities = [] }

abbrev pub hash : Text → ℕ
hash t = length t

abbrev pub row : ApiKey
row = new_key 5 2 100 (take 12 drawn) 21

abbrev pub with_key : AuthTables
with_key = record tables { keys = row ∷ [] }

issued : issue_api_key hash 5 2 drawn 100 tables ≡ ok ((row, api_key_tag ++ drawn), with_key)
unfolding issue_api_key find_principal_by_id insert_api_key
issued = refl

prefix : api_key_prefix_of (api_key_tag ++ drawn) ≡ some row.key_prefix
unfolding api_key_prefix_of strip_prefix
prefix = refl

revoke_locks_out_example :
    authenticate hash (api_key_tag ++ drawn) (revoke_api_key 5 9 with_key).1 ≡ err invalid_key
revoke_locks_out_example =
    revoke_locks_out hash 5 9 with_key row (api_key_tag ++ drawn) (refl, tt) refl prefix

abbrev identity : ExternalIdentity
identity = record {
  display_name = some (b'B' ∷ []);
  email = none;
  email_verified = true;
  subject = 42;
  subject_text = b'x' ∷ [];
}

abbrev pub keep : Option Text → ℕ → Option Text
keep t n = t

abbrev newcomer : Principal
newcomer = new_principal 101 3 (b'B' ∷ [])

signed_in : (authenticate_identity keep no_faults (λ t. t) 101 3 identity tables).0 ≡ ok newcomer
unfolding authenticate_identity find_principal_by_identity create_principal_for_identity
    with_transaction map_identity create_principal
signed_in = refl

authenticate_identity_mapped_example :
    (find_principal_by_identity 42
        (authenticate_identity keep no_faults (λ t. t) 101 3 identity tables).1
      ≡ some newcomer)
    × (newcomer.status ≡ enabled)
authenticate_identity_mapped_example =
    authenticate_identity_mapped keep no_faults (λ t. t) 101 3 identity tables newcomer signed_in
