-- ===== src/Funding/Work.antt =====
-- What the posting of a funding has done when it succeeds, and what it leaves when it fails.
use mathlib.Core.Path.{subst}
use pulse_ledger.Base.{
  ℕ, ◌≡◌, refl, sym, ◌∙◌, Bool, true, false, Option, none, some, arith, ◌⊎◌, inl, inr,
}
use pulse_ledger.Base.Int.{ℤ}
use pulse_ledger.Errors.{ok, Result-cases}
use pulse_ledger.Ledger.Tables.{Transaction, Ledger}
use pulse_ledger.Ledger.Posting.{PostingInput}
use pulse_ledger.Ledger.Post.{post_ledger_transaction}
use pulse_ledger.Ledger.Inversion.{post-Posted}
use pulse_ledger.Ledger.Keys.{apply_entries-IsKeyed}
use pulse_ledger.Ledger.Consistent.{post-IsConsistent}
use pulse_ledger.Ledger.Conservation.{total_balance-post}
use pulse_ledger.Ports.Transaction.{Faults, with_transaction_inv, with_transaction-ok}
use pulse_ledger.Database.{Db}
use pulse_ledger.Soundness.{IsSound}
use pulse_ledger.Funding.Store.{
  PostingFresh, args_of, post_with, PostingIdempotency, insert_posting_event,
  complete_posting_claim, posting_work, run_statement, store_post,
}

-- What a posting's work has done when it succeeds.
pub record Committed (ob : Bool) (input : PostingInput) (i : Option PostingIdempotency)
    (fresh : PostingFresh) (db : Db) (t : Transaction) (db' : Db) : Type 0 where
  pub posted : Ledger
  pub posting : post_ledger_transaction (args_of input fresh) db.ledger ≡ ok (t, posted)
  pub completed :
      complete_posting_claim i t fresh.now
        (insert_posting_event ob input t fresh (record db { ledger = posted }))
      ≡ ok db'

module _ (ob : Bool) (input : PostingInput) (i : Option PostingIdempotency) (fresh : PostingFresh)
    (db : Db) (t : Transaction) (db' : Db) where
  pub posting_work-Committed :
      posting_work ob input i fresh db ≡ ok (t, db') → Committed ob input i fresh db t db'
  unfolding posting_work post_with
  posting_work-Committed h =
      elim (Result-cases (post_ledger_transaction (args_of input fresh) db.ledger)) [
        | inr (e, no_posting) ↦ absurd (ground arith)
        | inl ((row, posted), posting) ↦
            elim (Result-cases (
              complete_posting_claim i row fresh.now
                (insert_posting_event ob input row fresh (record db { ledger = posted })))) [
                  | inr (e, no_claim) ↦ absurd (ground arith)
                  | inl (done, completed) ↦ record {
                    posted = posted;
                    posting = ground arith;
                    completed = ground arith;
                  }
                ]
      ]

complete_ledger :
    (i : Option PostingIdempotency) (t : Transaction) (now : ℕ) (db db' : Db)
    → complete_posting_claim i t now db ≡ ok db'
    → db'.ledger ≡ db.ledger
unfolding complete_posting_claim
complete_ledger none t now db db' h = ground arith
complete_ledger (some i) t now db db' h = ground arith

insert_posting_event-ledger :
    (ob : Bool) (input : PostingInput) (t : Transaction) (fresh : PostingFresh) (db : Db)
    → (insert_posting_event ob input t fresh db).ledger ≡ db.ledger
unfolding insert_posting_event
insert_posting_event-ledger true input t fresh db = refl
insert_posting_event-ledger false input t fresh db = refl

module _ (ob : Bool) (input : PostingInput) (i : Option PostingIdempotency) (fresh : PostingFresh)
    (db : Db) (t : Transaction) (db' : Db) (d : Committed ob input i fresh db t db') where
  pub ledger_after : db'.ledger ≡ d.posted
  ledger_after =
      complete_ledger i t fresh.now _ db' d.completed
      ∙ insert_posting_event-ledger ob input t fresh _

  pub Committed-IsSound : (total : ℤ) → IsSound total db → IsSound total db'
  Committed-IsSound total v =
      let p = post-Posted _ _ _ _ d.posting in
      record {
        consistent = rw ledger_after (post-IsConsistent _ _ _ _ d.posting v.consistent);
        keyed = rw (ledger_after, p.after) (apply_entries-IsKeyed _ _ v.keyed);
        total_kept = rw ledger_after (total_balance-post _ _ _ _ d.posting v.keyed) ∙ v.total_kept;
      }

-- A successful `post` is a posting whose work was done, on the database that it found.
pub store_post-Committed :
    (ob : Bool) (f : Faults) (input : PostingInput) (i : Option PostingIdempotency)
    (fresh : PostingFresh) (db : Db) (t : Transaction)
    → (store_post ob f input i fresh db).result ≡ ok t
    → posting_work ob input i fresh db ≡ ok (t, (store_post ob f input i fresh db).database)
unfolding store_post run_statement
store_post-Committed true f input i fresh db t h =
    with_transaction-ok f (posting_work true input i fresh) db t h
store_post-Committed false f input (some k) fresh db t h =
    with_transaction-ok f (posting_work false input (some k) fresh) db t h
store_post-Committed false f input none fresh db t h =
    elim (Result-cases (posting_work false input none fresh db)) [
      | inr (e, w) ↦ absurd (ground arith)
      | inl ((posted, after), w) ↦ ground arith
    ]

pub store_post-inv :
    (P : Db → Type 0) (ob : Bool) (f : Faults) (input : PostingInput)
    (i : Option PostingIdempotency) (fresh : PostingFresh) (db : Db)
    → P db
    → ((t : Transaction) (db' : Db) → posting_work ob input i fresh db ≡ ok (t, db') → P db')
    → P (store_post ob f input i fresh db).database
unfolding store_post run_statement
store_post-inv P true f input i fresh db p w =
    with_transaction_inv P f (posting_work true input i fresh) db p w
store_post-inv P false f input (some k) fresh db p w =
    with_transaction_inv P f (posting_work false input (some k) fresh) db p w
store_post-inv P false f input none fresh db p w =
    elim (Result-cases (posting_work false input none fresh db)) [
      | inr (e, h) ↦ rw h p
      | inl ((posted, after), h) ↦ elim (bare f posted after db) [
        | inl same ↦ subst P (sym (rw h same)) p
        | inr done ↦ subst P (sym (rw h done)) (w posted after h)
      ]
    ]
  where
    bare :
        (f : Faults) (posted : Transaction) (after db : Db)
        → ((run_statement f (ok (posted, after)) db).database ≡ db)
          ⊎ ((run_statement f (ok (posted, after)) db).database ≡ after)
    bare f posted after db = ground arith
