-- ===== src/Pages.antt =====
-- Keyset pages, as `listJournalEntries` (src/modules/ledger/ledger-repository.ts) and `listOwned`
-- (src/modules/accounts/account-repository.ts) fetch them: the rows behind a cursor in the order
-- of (created_at, id), one more than the limit to see whether another page exists.
pub mod Ascending
pub mod Complete
pub mod Cursor
use pulse_ledger.Base.{
  ℕ, zero, suc, ◌+◌, Bool, true, ◌&&◌, ◌||◌, Option, none, some, List, [], ◌∷◌, ◌++◌, ltb, ◌==◌,
  if◌then◌else◌, length, take, where_rows,
}

-- `(created_at, id)`, the position of a row and the content of a cursor.
abbrev pub Position : Type 0
Position = ℕ × ℕ

abbrev pub precedes : Position → Position → Bool
precedes a b = ltb a.0 b.0 || a.0 == b.0 && ltb a.1 b.1

abbrev pub is_behind : Option Position → Position → Bool
is_behind none p = true
is_behind (some c) p = precedes c p

module _ {ℓ} {A : Type ℓ} (position : A → Position) where
  -- `ORDER BY created_at, id`, by insertion.
  abbrev pub insert_by_position : A → List A → List A
  insert_by_position a [] = a ∷ []
  insert_by_position a (x ∷ xs) =
      let rest = insert_by_position a xs in
      if precedes (position x) (position a) then x ∷ rest else a ∷ x ∷ xs

  abbrev pub order_by_position : List A → List A
  order_by_position [] = []
  order_by_position (a ∷ rows) = insert_by_position a (order_by_position rows)

  -- `rows.at(-1)`
  abbrev pub last_row : List A → Option A
  last_row [] = none
  last_row (x ∷ []) = some x
  last_row (x ∷ y ∷ ys) = last_row (y ∷ ys)

  -- The page and the next cursor that the fetched rows give.
  unfoldable pub page_of : ℕ → List A → List A × Option Position
  page_of limit fetched =
      if ltb limit (length fetched)
      then (
        take limit fetched,
        elim (last_row (take limit fetched)) [ none ↦ none | some r ↦ some (position r) ],
      )
      else (fetched, none)

  -- The query and what is made of its rows.
  unfoldable pub fetch_page : ℕ → Option Position → List A → List A × Option Position
  fetch_page limit cursor rows =
      page_of limit (
        take (suc limit) (where_rows (λ r. is_behind cursor (position r)) (order_by_position rows)))

  -- A page, and what the client reads next if there is a cursor.
  abbrev pub follow : List A × Option Position → (Position → List A) → List A
  follow (page, none) next = page
  follow (page, some c) next = page ++ next c

  -- What a client reads that follows the cursors, on fuel.
  unfoldable pub walk_pages : ℕ → ℕ → Option Position → List A → List A
  walk_pages zero limit cursor rows = []
  walk_pages (suc fuel) limit cursor rows =
      follow (fetch_page limit cursor rows) (λ c. walk_pages fuel limit (some c) rows)
