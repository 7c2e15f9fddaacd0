-- ===== src/Funding/Effect.antt =====
-- What a funding does: to the accounts and to the ledger's invariant.
use pulse_ledger.Base.{ℕ, ◌≡◌, refl, ap, ◌∙◌, Bool, Option, some, arith, inl, inr}
use pulse_ledger.Base.Int.{ℤ, pos, ◌+ℤ◌, ◌-ℤ◌, int_laws}
use pulse_ledger.Errors.{ok, Result-cases}
use pulse_ledger.Ledger.Tables.{Account, Transaction, find_account}
use pulse_ledger.Ledger.Post.{delta}
use pulse_ledger.Ledger.Accounts.{moved_by, find_account-apply_entries, find_account_id}
use pulse_ledger.Ledger.Inversion.{post-Posted}
use pulse_ledger.Ledger.Keys.{IsKeyed}
use pulse_ledger.Responses.{FundingResult}
use pulse_ledger.Idempotency.Records.{ClaimKey}
use pulse_ledger.Ports.Transaction.{Faults}
use pulse_ledger.Database.{Db}
use pulse_ledger.Soundness.{IsSound}
use pulse_ledger.Funding.Store.{PostingFresh, args_of, store_post}
use pulse_ledger.Funding.Service.{
  FundAccountInput, post, funding_parties, funding_posting, posting_idempotency, funding_outcome,
  fund_account, to_result,
}
use pulse_ledger.Funding.Work.{
  Committed, posting_work-Committed, ledger_after, Committed-IsSound, store_post-Committed,
  store_post-inv,
}
use pulse_ledger.Funding.Parties.{
  funding_posting_valid, funding_parties-Parties, delta_funding, Parties-distinct,
}

module _ (ob : Bool) (f : Faults) (between : Db → Db) (fresh : PostingFresh) (id : ℕ)
    (input : FundAccountInput) (key : Option ClaimKey) (db : Db) where
  fund_account_posts :
      (amount : ℕ) (account treasury : Account)
      → funding_parties input db.ledger ≡ ok (amount, account, treasury)
      → fund_account ob f between fresh id input key db
        ≡ funding_outcome amount account.id (
            store_post ob f
              (funding_posting id amount account treasury)
              (posting_idempotency amount account.id key)
              fresh
              (between db))
  unfolding fund_account post
  fund_account_posts amount account treasury found =
      rw (found, fund_account) (rw (funding_posting_valid id amount account treasury, post) refl)

  -- A funding, however its transaction fails, leaves the ledger sound and the sum of all balances
  -- as it was: what the customer gains, the treasury owes. Other sessions may commit sound work
  -- between its reads and its posting.
  pub fund_account-IsSound :
      (total : ℤ)
      → ((s : Db) → IsSound total s → IsSound total (between s))
      → IsSound total db
      → IsSound total (fund_account ob f between fresh id input key db).database
  unfolding fund_account
  fund_account-IsSound total others v = elim (Result-cases (funding_parties input db.ledger)) [
    | inr (e, n) ↦ rw (n, fund_account) v
    | inl ((amount, account, treasury), found) ↦
        let p = funding_posting id amount account treasury in
        let i = posting_idempotency amount account.id key in
        rw (fund_account_posts amount account treasury found) (
          store_post-inv (IsSound total) ob f p i fresh (between db) (others db v) (λ t db' h.
            Committed-IsSound ob p i fresh (between db) t db'
              (posting_work-Committed ob p i fresh (between db) t db' h) total (others db v)))
  ]

module _ (ob : Bool) (f : Faults) (between : Db → Db) (fresh : PostingFresh) (id : ℕ)
    (input : FundAccountInput) (key : Option ClaimKey) (db : Db) (result : FundingResult)
    (amount : ℕ) (account treasury : Account)
    (found : funding_parties input db.ledger ≡ ok (amount, account, treasury))
    (h : (fund_account ob f between fresh id input key db).result ≡ ok result) where
  -- A funding that returns has committed its posting on the database that it found after its
  -- reads.
  pub fund_account-Committed :
      (row : Transaction) × Committed ob
        (funding_posting id amount account treasury)
        (posting_idempotency amount account.id key)
        fresh
        (between db)
        row
        (fund_account ob f between fresh id input key db).database
      × (result ≡ to_result amount account.id row)
  fund_account-Committed =
      let p = funding_posting id amount account treasury in
      let i = posting_idempotency amount account.id key in
      let same =
        fund_account_posts ob f between fresh id input key db amount account treasury found in
      elim (Result-cases (store_post ob f p i fresh (between db)).result) [
        | inr (e, n) ↦ absurd (ground (arith, same))
        | inl (row, posted) ↦ (
          row,
          rw same (
              posting_work-Committed ob p i fresh (between db) row _
                (store_post-Committed ob f p i fresh (between db) row posted)),
          ground (arith, same),
        )
      ]

  moved_account :
      (k : ℕ) (a : Account)
      → find_account k (between db).ledger.accounts ≡ some a
      → find_account k (fund_account ob f between fresh id input key db).database.ledger.accounts
        ≡ some (
            moved_by
              (delta k (args_of (funding_posting id amount account treasury) fresh).entries)
              a)
  moved_account k a e =
      let (row, c, reply) = fund_account-Committed in
      rw (ledger_after ob _ _ fresh (between db) row _ c, (post-Posted _ _ _ _ c.posting).after)
        (find_account-apply_entries k _ (between db).ledger.accounts a e)

  -- A funding that returns has added the amount to the account and taken it from the treasury of
  -- the account's currency, whatever the two rows (`a` and `t`) had become between its reads and
  -- its posting; the reply names the amount and the account of the request.
  pub fund_account_moves :
      (a t : Account)
      → IsKeyed db.ledger.accounts
      → find_account account.id (between db).ledger.accounts ≡ some a
      → find_account treasury.id (between db).ledger.accounts ≡ some t
      → (result.amount_minor ≡ amount)
        × (result.funded_account_id ≡ input.account_id)
        × (find_account account.id
              (fund_account ob f between fresh id input key db).database.ledger.accounts
            ≡ some (record a { balance_minor = a.balance_minor +ℤ pos amount }))
        × (find_account treasury.id
              (fund_account ob f between fresh id input key db).database.ledger.accounts
            ≡ some (record t { balance_minor = t.balance_minor -ℤ pos amount }))
  fund_account_moves a t keyed fa ft =
      let p = funding_parties-Parties input db.ledger amount account treasury found in
      let n = Parties-distinct input db.ledger amount account treasury keyed p in
      let (row, c, reply) = fund_account-Committed in
      let (da, dt) = delta_funding id amount account treasury fresh n in
      (
        ap (λ (r : FundingResult). r.amount_minor) reply,
        ap (λ (r : FundingResult). r.funded_account_id) reply
            ∙ find_account_id input.account_id db.ledger.accounts account p.account_found,
        moved_account account.id a fa
            ∙ ap (λ z. some (record a { balance_minor = z })) (rw da refl),
        moved_account treasury.id t ft
            ∙ ap (λ z. some (record t { balance_minor = z })) (rw dt (omega int_laws)),
      )
