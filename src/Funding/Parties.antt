-- ===== src/Funding/Parties.antt =====
-- What `fundAccount` reads before it posts: the amount, the account and the treasury, and the
-- posting that it makes of them.
use pulse_ledger.Base.{
  ℕ, ◌≡◌, Bool, true, false, ◌&&◌, some, List, [], ◌∷◌, arith, ◌==◌, ==_refl, ==_comm, any,
  Option-cases, Bool-cases, inl, inr, find,
}
use pulse_ledger.Base.Int.{pos, ◌-ℤ◌, int_laws}
use pulse_ledger.Errors.{ok, Result-cases}
use pulse_ledger.Ledger.Tables.{Account, active, Ledger, find_account}
use pulse_ledger.Ledger.Posting.{validate_posting}
use pulse_ledger.Ledger.Post.{delta}
use pulse_ledger.Ledger.Accounts.{find_account_id}
use pulse_ledger.Ledger.Keys.{IsKeyed}
use pulse_ledger.Ledger.Money.{text, from_minor}
use pulse_ledger.Funding.Store.{find_treasury, PostingFresh, entry_args, args_of}
use pulse_ledger.Funding.Service.{FundAccountInput, funding_parties, funding_posting}

-- The posting of a funding passes the service's own validation: two entries, one currency, equal
-- totals.
pub funding_posting_valid :
    (id amount : ℕ) (account treasury : Account)
    → validate_posting (funding_posting id amount account treasury) ≡ ok tt
unfolding validate_posting
funding_posting_valid id amount account treasury = ground arith

-- What `fundAccount` has read when it goes on to post.
pub record Parties (input : FundAccountInput) (l : Ledger) (amount : ℕ) (account treasury : Account)
    : Type 0 where
  pub amount_read : from_minor (text input.amount_minor) ≡ ok amount
  pub account_found : find_account input.account_id l.accounts ≡ some account
  pub customer : account.is_treasury ≡ false
  pub account_active : account.status ≡ active
  pub treasury_found : find_treasury account.currency l ≡ some treasury

pub funding_parties-Parties :
    (input : FundAccountInput) (l : Ledger) (amount : ℕ) (account treasury : Account)
    → funding_parties input l ≡ ok (amount, account, treasury)
    → Parties input l amount account treasury
unfolding funding_parties
funding_parties-Parties input l amount account treasury h =
    elim (Result-cases (from_minor (text input.amount_minor))) [
      | inr (e, n) ↦ absurd (ground arith)
      | inl (m, am) ↦ elim (Option-cases (find_account input.account_id l.accounts)) [
        | inl n ↦ absurd (ground arith)
        | inr (a, fa) ↦ elim (Option-cases (find_treasury a.currency l)) [
          | inl n ↦ absurd (ground arith)
          | inr (t, ft) ↦ record {
            amount_read = ground arith;
            account_found = ground arith;
            customer = ground arith;
            account_active = ground arith;
            treasury_found = ground arith;
          }
        ]
      ]
    ]

find_treasury-holds :
    (currency : ℕ) (l : Ledger) (t : Account)
    → find_treasury currency l ≡ some t
    → (t.is_treasury ≡ true) × (t.currency ≡ currency)
unfolding find_treasury
find_treasury-holds currency l t h = holds l.accounts h
  where
    holds :
        (accounts : List Account)
        → find (λ (a : Account). a.currency == currency && a.is_treasury) accounts ≡ some t
        → (t.is_treasury ≡ true) × (t.currency ≡ currency)
    holds [] h = cc
    holds (a ∷ accounts) h = ground (arith, holds accounts)

pub delta_funding :
    (id amount : ℕ) (account treasury : Account) (fresh : PostingFresh)
    → (account.id == treasury.id) ≡ false
    → (delta account.id (args_of (funding_posting id amount account treasury) fresh).entries
        ≡ pos amount)
      × (delta treasury.id (args_of (funding_posting id amount account treasury) fresh).entries
          ≡ pos 0 -ℤ pos amount)
unfolding delta entry_args
delta_funding id amount account treasury fresh n = (
  rw (==_refl account.id, ==_comm treasury.id account.id, n) (omega int_laws),
  rw (n, ==_refl treasury.id) (omega int_laws),
)

find-any_id :
    (p : Account → Bool) (accounts : List Account) (t : Account)
    → find p accounts ≡ some t
    → any (λ (b : Account). b.id == t.id) accounts ≡ true
find-any_id p [] t h = cc
find-any_id p (x ∷ accounts) t h = elim (Bool-cases (p x)) [
  | inl y ↦ ground (arith, ==_refl t.id)
  | inr n ↦ ground (arith, find-any_id p accounts t (rw n at h))
]

-- Under distinct identifiers, a row found by its key is the row that any other search finds under
-- that key.
find_account_unique :
    (k : ℕ) (p : Account → Bool) (accounts : List Account) (a t : Account)
    → IsKeyed accounts
    → find_account k accounts ≡ some a
    → find p accounts ≡ some t
    → t.id ≡ k
    → a ≡ t
find_account_unique k p [] a t q fa ft e = cc
find_account_unique k p (x ∷ accounts) a t (n, q) fa ft e = elim (Bool-cases (p x)) [
  | inl y ↦ ground (arith, ==_refl k)
  | inr m ↦
      let rest : find p accounts ≡ some t = rw m at ft in
      ground (arith, find-any_id p accounts t rest, find_account_unique k p accounts a t q)
]

pub Parties-distinct :
    (input : FundAccountInput) (l : Ledger) (amount : ℕ) (account treasury : Account)
    → IsKeyed l.accounts
    → Parties input l amount account treasury
    → (account.id == treasury.id) ≡ false
unfolding find_treasury
Parties-distinct input l amount account treasury keyed p =
    elim (Bool-cases (account.id == treasury.id)) [
      | inr n ↦ n
      | inl y ↦
          let same =
            find_account_unique input.account_id _ l.accounts account treasury keyed p.account_found
              p.treasury_found
              (ground
                (arith, find_account_id input.account_id l.accounts account p.account_found)) in
          absurd (
            ground (
              arith,
              same,
              p.customer,
              find_treasury-holds account.currency l treasury p.treasury_found,
            ))
    ]
