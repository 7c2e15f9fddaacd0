-- ===== src/Ledger/Sums.antt =====
-- Sums over postings and over the journal, and how a posting's inserts and updates change them.
use pulse_ledger.Base.{
  ℕ, ◌+◌, ◌<◌, ◌≡◌, refl, false, List, [], ◌∷◌, ◌++◌, arith, ◌==◌, if◌then◌else◌, contains, any,
  All, inl, inr, ◌⊎◌,
}
use pulse_ledger.Base.Int.{ℤ, pos, ◌+ℤ◌, int_laws, zero_+ℤ, +ℤ_assoc}
use pulse_ledger.Ledger.Tables.{Direction, debit, credit, JournalEntry}
use pulse_ledger.Ledger.Post.{
  EntryArg, PostArgs, account_ids, signed, delta, debit_total, credit_total, to_rows, journal_total,
  journal_count,
}

-- The balance of an account, recomputed from the journal: debits less credits.
unfoldable pub computed : ℕ → List JournalEntry → ℤ
computed k [] = pos 0
computed k (j ∷ js) =
    (if j.account_id == k then signed j.direction j.amount_minor else pos 0) +ℤ computed k js

pub computed-append :
    (k : ℕ) (xs ys : List JournalEntry) → computed k (xs ++ ys) ≡ computed k xs +ℤ computed k ys
unfolding computed
computed-append k [] ys = rw zero_+ℤ
computed-append k (x ∷ xs) ys = rw (computed-append k xs ys, +ℤ_assoc)

pub computed-to_rows :
    (k : ℕ) (p : PostArgs) (c : ℕ) (es : List EntryArg) → computed k (to_rows p c es) ≡ delta k es
unfolding computed delta
computed-to_rows k p c [] = refl
computed-to_rows k p c (e ∷ es) = rw (computed-to_rows k p c es)

-- An account that no entry names is not changed.
pub delta_unrequested :
    (k : ℕ) (es : List EntryArg) → contains k (account_ids es) ≡ false → delta k es ≡ pos 0
unfolding delta
delta_unrequested k [] h = refl
delta_unrequested k (e ∷ es) h = grind (int_laws, delta_unrequested k es)

-- The journal's totals for a transaction, over the rows of the posting and over all rows.
pub journal_total-append :
    (d : Direction) (k : ℕ) (xs ys : List JournalEntry)
    → journal_total d k (xs ++ ys) ≡ journal_total d k xs + journal_total d k ys
journal_total-append d k [] ys = omega arith
journal_total-append d k (x ∷ xs) ys = omega (arith, journal_total-append d k xs ys)

pub journal_total-to_rows :
    (p : PostArgs) (c : ℕ) (es : List EntryArg)
    → (journal_total debit p.id (to_rows p c es) ≡ debit_total es)
      × (journal_total credit p.id (to_rows p c es) ≡ credit_total es)
journal_total-to_rows p c [] = (refl, refl)
journal_total-to_rows p c (e ∷ es) = ground (arith, journal_total-to_rows p c es)

pub journal_total-to_rows_ne :
    (d : Direction) (k : ℕ) (p : PostArgs) (c : ℕ) (es : List EntryArg)
    → (p.id == k) ≡ false
    → journal_total d k (to_rows p c es) ≡ 0
journal_total-to_rows_ne d k p c [] h = refl
journal_total-to_rows_ne d k p c (e ∷ es) h = ground (arith, journal_total-to_rows_ne d k p c es)

-- A transaction with no row in the journal has no totals.
pub journal_total_absent :
    (d : Direction) (k : ℕ) (js : List JournalEntry)
    → any (λ j. j.transaction_id == k) js ≡ false
    → journal_total d k js ≡ 0
journal_total_absent d k [] h = refl
journal_total_absent d k (j ∷ js) h = ground (arith, journal_total_absent d k js)

-- Where every amount is positive, a direction has a row exactly when its total is positive.
pub journal_total_pos :
    (d : Direction) (k : ℕ) (js : List JournalEntry)
    → All (λ j. 0 < j.amount_minor) js
    → 0 < journal_total d k js
    → 0 < journal_count d k js
journal_total_pos d k [] h p = elim p [ ]
journal_total_pos d k (j ∷ js) h p = ground (arith, journal_total_pos d k js h.1)

pub positive_totals :
    (es : List EntryArg)
    → any (λ e. e.amount == 0) es ≡ false
    → (0 < debit_total es + credit_total es) ⊎ (es ≡ [])
positive_totals [] h = inr refl
positive_totals (e ∷ es) h = inl (ground arith)

pub to_rows_positive :
    (p : PostArgs) (c : ℕ) (es : List EntryArg)
    → any (λ e. e.amount == 0) es ≡ false
    → All (λ j. 0 < j.amount_minor) (to_rows p c es)
to_rows_positive p c [] h = tt
to_rows_positive p c (e ∷ es) h = (ground arith, to_rows_positive p c es (ground arith))
