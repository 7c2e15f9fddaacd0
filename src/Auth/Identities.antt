-- ===== src/Auth/Identities.antt =====
-- An external identity keeps the principal of its first sign-in.
use pulse_ledger.Base.{
  ℕ, ◌≡◌, refl, Bool, true, false, Option, some, List, [], ◌∷◌, ◌++◌, arith, ◌==◌, ==_refl, find,
  any, Bool-cases, Option-cases, inl, inr,
}
use pulse_ledger.Base.Decimal.{Text}
use pulse_ledger.Errors.{ok, Result-cases}
use pulse_ledger.Ports.Transaction.{Faults, with_transaction, with_transaction-ok}
use pulse_ledger.Auth.Store.{
  Principal, enabled, new_principal, ExternalIdentity, IdentityMapping, AuthTables,
  find_principal_by_id, find_principal_by_identity, create_principal, map_identity,
  create_principal_for_identity,
}
use pulse_ledger.Auth.Service.{name_of, authenticate_identity}

find-snoc {ℓ} :
    {A : Type ℓ} (p : A → Bool) (xs : List A) (x : A)
    → any p xs ≡ false
    → p x ≡ true
    → find p (xs ++ x ∷ []) ≡ some x
find-snoc p [] x h e = rw e refl
find-snoc p (y ∷ xs) x h e = ground (arith, find-snoc p xs x)

mapped :
    (id now : ℕ) (i : ExternalIdentity) (name : Text) (t t' : AuthTables) (p : Principal)
    → map_identity id now i name t ≡ ok (p, t')
    → find_principal_by_identity i.subject t' ≡ some p
unfolding map_identity create_principal find_principal_by_identity find_principal_by_id
mapped id now i name t t' p h =
    elim (Bool-cases (any (λ (q : Principal). q.id == id) t.principals)) [
      | inl taken ↦ absurd (ground arith)
      | inr free ↦
          elim (Bool-cases (any (λ (m : IdentityMapping). m.subject == i.subject) t.identities)) [
            | inl there ↦ absurd (ground arith)
            | inr new ↦ ground (
              arith,
              find-snoc (λ (q : Principal). q.id == id) t.principals (new_principal id now name)
                  free (==_refl id),
              find-snoc (λ (m : IdentityMapping). m.subject == i.subject) t.identities
                  (record { subject = i.subject; principal_id = id; email = i.email }) new
                  (==_refl i.subject),
            )
          ]
    ]

created :
    (f : Faults) (id now : ℕ) (i : ExternalIdentity) (name : Text) (t : AuthTables) (p : Principal)
    → (create_principal_for_identity f id now i name t).result ≡ ok p
    → find_principal_by_identity i.subject
        (create_principal_for_identity f id now i name t).database
      ≡ some p
unfolding create_principal_for_identity
created f id now i name t p h =
    elim (Result-cases (with_transaction f (map_identity id now i name) t).result) [
      | inl (q, done) ↦ ground (
        arith,
        mapped id now i name t (with_transaction f (map_identity id now i name) t).database q
            (with_transaction-ok f (map_identity id now i name) t q done),
      )
      | inr (e, failed) ↦
          elim (Option-cases (
            find_principal_by_identity i.subject
              (with_transaction f (map_identity id now i name) t).database)) [
                | inl vanished ↦ absurd (ground arith)
                | inr (q, found) ↦ ground arith
              ]
    ]

module _ (sanitize : Option Text → ℕ → Option Text) (f : Faults) (between : AuthTables → AuthTables)
    (id now : ℕ) (i : ExternalIdentity) (t : AuthTables) (p : Principal) where
  -- A sign-in that succeeds returns the principal that the identity is mapped to from then on, and
  -- it is not disabled: whether it was mapped before, is mapped by this sign-in, or was mapped by
  -- a concurrent sign-in that won.
  pub authenticate_identity_mapped :
      (authenticate_identity sanitize f between id now i t).0 ≡ ok p
      → (find_principal_by_identity i.subject
            (authenticate_identity sanitize f between id now i t).1
          ≡ some p)
        × (p.status ≡ enabled)
  unfolding authenticate_identity
  authenticate_identity_mapped h = elim (Option-cases (find_principal_by_identity i.subject t)) [
    | inr (q, found) ↦ (ground arith, ground arith)
    | inl new ↦
        let j = record i { email = sanitize i.email 320 } in
        let c = created f id now j (name_of sanitize i) (between t) in
        elim (Result-cases
          (create_principal_for_identity f id now j (name_of sanitize i) (between t)).result) [
            | inr (e, failed) ↦ absurd (ground arith)
            | inl (q, done) ↦ (ground (arith, c q done), ground (arith, done))
          ]
  ]
