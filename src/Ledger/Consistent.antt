-- ===== src/Ledger/Consistent.antt =====
-- The ledger's invariant: cached balances agree with the journal, no customer account is
-- overdrawn, and every transaction balances. `post_ledger_transaction` keeps it.
use mathlib.Core.Path.{subst}
use pulse_ledger.Base.{
  ℕ, ◌<◌, ◌≡◌, refl, sym, true, false, ◌&&◌, ◌||◌, List, [], ◌∷◌, ◌++◌, arith, ◌==◌, any, All,
  All-append, Bool-cases, inl, inr, if◌then◌else◌, any-append, ap, ◌∙◌,
}
use pulse_ledger.Base.Int.{◌+ℤ◌, +ℤ_zero}
use pulse_ledger.Errors.{ok}
use pulse_ledger.Ledger.Tables.{
  Account, debit, credit, Transaction, JournalEntry, Ledger, same_reference, Reference,
}
use pulse_ledger.Ledger.Post.{
  EntryArg, PostArgs, requested, delta, to_rows, apply_entries, overdrawn, post_ledger_transaction,
  journal_total, debit_total, credit_total, assert_balanced,
}
use pulse_ledger.Ledger.Sums.{
  computed, computed-append, computed-to_rows, delta_unrequested, journal_total-append,
  journal_total-to_rows, journal_total-to_rows_ne, journal_total_absent, journal_total_pos,
  positive_totals, to_rows_positive,
}
use pulse_ledger.Ledger.Inversion.{Posted, post-Posted}

-- The cached balance is the one recomputed from the journal.
abbrev pub IsCached : List JournalEntry → Account → Type 0
IsCached js a = a.balance_minor ≡ computed a.id js

abbrev pub IsLinked : List Transaction → JournalEntry → Type 0
IsLinked ts j = any (λ (t : Transaction). t.id == j.transaction_id) ts ≡ true

abbrev pub IsBalanced : List JournalEntry → Transaction → Type 0
IsBalanced js t = journal_total debit t.id js ≡ journal_total credit t.id js

pub record IsConsistent (l : Ledger) : Type 0 where
  pub cached : All (IsCached l.journal) l.accounts
  pub covered : All (λ a. overdrawn a ≡ false) l.accounts
  pub linked : All (IsLinked l.transactions) l.journal
  pub balanced : All (IsBalanced l.journal) l.transactions
  pub positive : All (λ j. 0 < j.amount_minor) l.journal

IsCached-after :
    (p : PostArgs) (c : ℕ) (js : List JournalEntry) (accounts : List Account)
    → All (IsCached js) accounts
    → All (IsCached (js ++ to_rows p c p.entries)) (apply_entries p.entries accounts)
unfolding apply_entries
IsCached-after p c js [] h = tt
IsCached-after p c js (a ∷ accounts) (e, h) = (head, IsCached-after p c js accounts h)
  where
    sums : computed a.id (js ++ to_rows p c p.entries) ≡ a.balance_minor +ℤ delta a.id p.entries
    sums = rw (computed-append, computed-to_rows, e)

    head : IsCached (js ++ to_rows p c p.entries) (
        if requested p.entries a
        then record a { balance_minor = a.balance_minor +ℤ delta a.id p.entries }
        else a)
    head = elim (Bool-cases (requested p.entries a)) [
      | inl y ↦ rw y (sym sums)
      | inr n ↦ rw n (sym (rw (delta_unrequested a.id p.entries n, +ℤ_zero) at sums))
    ]

covered_after :
    (es : List EntryArg) (accounts : List Account)
    → All (λ a. overdrawn a ≡ false) accounts
    → any (λ a. requested es a && overdrawn a) (apply_entries es accounts) ≡ false
    → All (λ a. overdrawn a ≡ false) (apply_entries es accounts)
unfolding apply_entries
covered_after es [] h n = tt
covered_after es (a ∷ accounts) (c, h) n = elim (Bool-cases (requested es a)) [
  | inl y ↦ ground (arith, covered_after es accounts h)
  | inr y ↦ ground (arith, covered_after es accounts h)
]

IsLinked-mono :
    (ts : List Transaction) (t : Transaction) (js : List JournalEntry)
    → All (IsLinked ts) js
    → All (IsLinked (ts ++ t ∷ [])) js
IsLinked-mono ts t [] h = tt
IsLinked-mono ts t (j ∷ js) (e, h) = (rw any-append (rw e), IsLinked-mono ts t js h)

IsLinked-rows :
    (p : PostArgs) (c : ℕ) (ts : List Transaction) (t : Transaction) (es : List EntryArg)
    → t.id ≡ p.id
    → All (IsLinked (ts ++ t ∷ [])) (to_rows p c es)
IsLinked-rows p c ts t [] e = tt
IsLinked-rows p c ts t (x ∷ es) e = (rw any-append (ground arith), IsLinked-rows p c ts t es e)

absent :
    (k : ℕ) (r : Reference) (ts : List Transaction) (js : List JournalEntry)
    → any (λ (t : Transaction). t.id == k || same_reference t.reference r) ts ≡ false
    → All (IsLinked ts) js
    → any (λ j. j.transaction_id == k) js ≡ false
absent k r ts [] n h = refl
absent k r ts (j ∷ js) n (e, h) =
    ground (arith, unmatched k j.transaction_id ts, absent k r ts js n h)
  where
    unmatched :
        (k m : ℕ) (ts : List Transaction)
        → any (λ (t : Transaction). t.id == k || same_reference t.reference r) ts ≡ false
        → any (λ (t : Transaction). t.id == m) ts ≡ true
        → (m == k) ≡ false
    unmatched k m [] n y = cc
    unmatched k m (t ∷ ts) n y = ground (arith, unmatched k m ts)

IsBalanced-old :
    (p : PostArgs) (c : ℕ) (js : List JournalEntry) (ts : List Transaction)
    → any (λ (t : Transaction). t.id == p.id || same_reference t.reference p.reference) ts ≡ false
    → All (IsBalanced js) ts
    → All (IsBalanced (js ++ to_rows p c p.entries)) ts
IsBalanced-old p c js [] n h = tt
IsBalanced-old p c js (t ∷ ts) n (e, h) = (
  omega (
    arith,
    e,
    journal_total-append debit t.id js (to_rows p c p.entries),
    journal_total-append credit t.id js (to_rows p c p.entries),
    journal_total-to_rows_ne debit t.id p c p.entries other,
    journal_total-to_rows_ne credit t.id p c p.entries other,
  ),
  IsBalanced-old p c js ts (ground arith) h,
)
  where
    other : (p.id == t.id) ≡ false
    other = ground arith

-- The totals of a posted transaction are those of its entries.
new_totals :
    (p : PostArgs) (l l' : Ledger) (t : Transaction)
    → Posted p l t l'
    → All (IsLinked l.transactions) l.journal
    → (journal_total debit p.id l'.journal ≡ debit_total p.entries)
      × (journal_total credit p.id l'.journal ≡ credit_total p.entries)
new_totals p l l' t d h = rw d.after (
    omega (
      arith,
      journal_total-append debit p.id l.journal (to_rows p t.currency p.entries),
      journal_total-append credit p.id l.journal (to_rows p t.currency p.entries),
      journal_total-to_rows p t.currency p.entries,
      journal_total_absent debit p.id l.journal gone,
      journal_total_absent credit p.id l.journal gone,
    ))
  where
    gone : any (λ j. j.transaction_id == p.id) l.journal ≡ false
    gone = absent p.id p.reference l.transactions l.journal d.fresh h

-- A successful posting keeps the ledger consistent: afterwards every cached balance is again the
-- one recomputed from the journal, no customer account is overdrawn, every journal entry has a
-- positive amount and belongs to a stored transaction, and every transaction's debits equal its
-- credits.
pub post-IsConsistent :
    (p : PostArgs) (l l' : Ledger) (t : Transaction)
    → post_ledger_transaction p l ≡ ok (t, l')
    → IsConsistent l
    → IsConsistent l'
post-IsConsistent p l l' t h v = subst IsConsistent (sym d.after) (record {
  cached = IsCached-after p t.currency l.journal l.accounts v.cached;
  covered = covered_after p.entries l.accounts v.covered d.covered;
  linked =
      All-append (IsLinked (l.transactions ++ t ∷ [])) l.journal (to_rows p t.currency p.entries)
        (IsLinked-mono l.transactions t l.journal v.linked)
        (IsLinked-rows p t.currency l.transactions t p.entries same_id);
  balanced =
      All-append (IsBalanced (l.journal ++ to_rows p t.currency p.entries)) l.transactions (t ∷ [])
        (IsBalanced-old p t.currency l.journal l.transactions d.fresh v.balanced) (new, tt);
  positive =
      All-append (λ j. 0 < j.amount_minor) l.journal (to_rows p t.currency p.entries) v.positive
        (to_rows_positive p t.currency p.entries d.checked.positive);
})
  where
    d : Posted p l t l'
    d = post-Posted p l l' t h

    same_id : t.id ≡ p.id
    same_id = ap (λ (x : Transaction). x.id) d.row

    totals :
        (journal_total debit p.id (l.journal ++ to_rows p t.currency p.entries)
          ≡ debit_total p.entries)
        × (journal_total credit p.id (l.journal ++ to_rows p t.currency p.entries)
            ≡ credit_total p.entries)
    totals = rw d.after at (new_totals p l l' t d v.linked)

    new : IsBalanced (l.journal ++ to_rows p t.currency p.entries) t
    new = rw same_id (totals.0 ∙ d.checked.balanced ∙ sym totals.1)

-- The trigger that checks a transaction at COMMIT accepts whatever the posting function wrote: the
-- call inside a transaction is never refused at its end.
pub assert_balanced-post :
    (p : PostArgs) (l l' : Ledger) (t : Transaction)
    → post_ledger_transaction p l ≡ ok (t, l')
    → IsConsistent l
    → assert_balanced p.id l' ≡ ok tt
unfolding assert_balanced
assert_balanced-post p l l' t h v = ground (
  arith,
  new_totals p l l' t d v.linked,
  d.checked.balanced,
  d.checked.two_entries,
  positive_totals p.entries d.checked.positive,
  journal_total_pos debit p.id l'.journal v'.positive,
  journal_total_pos credit p.id l'.journal v'.positive,
)
  where
    d : Posted p l t l'
    d = post-Posted p l l' t h

    v' : IsConsistent l'
    v' = post-IsConsistent p l l' t h v
