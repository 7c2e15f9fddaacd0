-- ===== src/Reconciliation/Issues.antt =====
-- The number of issues in a list of report rows: `issues_of`, whatever the order of the rows.
use pulse_ledger.Base.{
  ℕ, ◌+◌, ◌≡◌, refl, ◌∙◌, none, some, List, [], ◌∷◌, ◌++◌, arith, leb, length, Bool-cases, inl, inr,
}
use pulse_ledger.Reconciliation.Report.{ReportRow, insert_row, order_rows, classify, issues_of}

abbrev pub issue_count : ReportRow → ℕ
issue_count r = elim (classify r) [ none ↦ 0 | some i ↦ 1 ]

pub length-issues_cons :
    (r : ReportRow) (rows : List ReportRow)
    → length (issues_of (r ∷ rows)) ≡ issue_count r + length (issues_of rows)
unfolding issues_of
length-issues_cons r rows = ground arith

pub no_issue : length (issues_of []) ≡ 0
unfolding issues_of
no_issue = refl

-- The number of issues does not depend on the order of the rows.
length-insert_row :
    (r : ReportRow) (rows : List ReportRow)
    → length (issues_of (insert_row r rows)) ≡ issue_count r + length (issues_of rows)
length-insert_row r [] = length-issues_cons r []
length-insert_row r (x ∷ rows) = elim (Bool-cases (leb r.account_id x.account_id)) [
  | inl y ↦ rw y (length-issues_cons r (x ∷ rows))
  | inr n ↦ rw n (
      rw
        (
          length-issues_cons x (insert_row r rows),
          length-insert_row r rows,
          length-issues_cons x rows,
        )
        (omega arith))
]

pub length-order_rows :
    (rows : List ReportRow) → length (issues_of (order_rows rows)) ≡ length (issues_of rows)
length-order_rows [] = refl
length-order_rows (r ∷ rows) =
    length-insert_row r (order_rows rows)
    ∙ rw (length-order_rows rows, length-issues_cons r rows) refl

pub length-issues_append :
    (xs ys : List ReportRow)
    → length (issues_of (xs ++ ys)) ≡ length (issues_of xs) + length (issues_of ys)
unfolding issues_of
length-issues_append [] ys = omega arith
length-issues_append (x ∷ xs) ys =
    rw (length-issues_cons x (xs ++ ys), length-issues_append xs ys, length-issues_cons x xs)
      (omega arith)
