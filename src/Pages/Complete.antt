-- ===== src/Pages/Complete.antt =====
-- A client that follows the cursors reads every row exactly once, in order.
use pulse_ledger.Base.{
  ℕ, zero, suc, ◌+◌, ◌*◌, ◌≤◌, ◌<◌, length-take, ◌≡◌, refl, sym, ap, ◌∙◌, true, false, Option, none,
  some, List, [], ◌∷◌, ◌++◌, arith, ltb, length, take, where_rows, Bool-cases, inl, inr,
}
use pulse_ledger.Pages.{
  Position, is_behind, order_by_position, last_row, page_of, fetch_page, walk_pages, follow,
}
use pulse_ledger.Pages.Ascending.{
  IsAscending, IsKeyed, order_by_position-IsAscending, where_behind, length-order,
}

module _ {ℓ} {A : Type ℓ} (position : A → Position) where
  last_row-snoc : (xs : List A) (y : A) → last_row position (xs ++ y ∷ []) ≡ some y
  last_row-snoc [] y = refl
  last_row-snoc (x ∷ []) y = refl
  last_row-snoc (x ∷ z ∷ zs) y = last_row-snoc (z ∷ zs) y

  -- The rows of a page that is followed by another: all but `after` of the rows left, the last of
  -- which is `last`.
  record Split (limit : ℕ) (rest : List A) : Type ℓ where
    before : List A
    last : A
    after : List A
    whole : rest ≡ before ++ last ∷ after
    page : take limit (take (suc limit) rest) ≡ before ++ last ∷ []
    shorter : length after + limit ≡ length rest

  Split-page :
      (n : ℕ) (rest : List A)
      → ltb (suc n) (length (take (suc (suc n)) rest)) ≡ true
      → Split (suc n) rest
  Split-page n [] h = absurd (ground arith)
  Split-page zero (x ∷ xs) h = record {
    before = [];
    last = x;
    after = xs;
    whole = refl;
    page = refl;
    shorter = omega arith;
  }
  Split-page (suc n) (x ∷ xs) h =
      let s = Split-page n xs (ground arith) in
      record {
        before = x ∷ s.before;
        last = s.last;
        after = s.after;
        whole = ap (λ ys. x ∷ ys) s.whole;
        page = ap (λ ys. x ∷ ys) s.page;
        shorter = omega (arith, s.shorter);
      }

  last_page :
      (limit : ℕ) (rest : List A)
      → ltb limit (length (take (suc limit) rest)) ≡ false
      → take (suc limit) rest ≡ rest
  last_page limit [] h = ground arith
  last_page zero (x ∷ xs) h = absurd (ground arith)
  last_page (suc n) (x ∷ xs) h = ap (λ ys. x ∷ ys) (last_page n xs (ground arith))

  where_everything : (xs : List A) → where_rows (λ r. is_behind none (position r)) xs ≡ xs
  where_everything [] = refl
  where_everything (x ∷ xs) = ap (λ ys. x ∷ ys) (where_everything xs)

  append_assoc : (xs ys zs : List A) → (xs ++ ys) ++ zs ≡ xs ++ (ys ++ zs)
  append_assoc [] ys zs = refl
  append_assoc (x ∷ xs) ys zs = ap (λ l. x ∷ l) (append_assoc xs ys zs)

module _ {ℓ} {A : Type ℓ} (position : A → Position) (n : ℕ) (rows : List A)
    (ascending : IsAscending position (order_by_position position rows)) where
  fetch_last :
      (cursor : Option Position) (rest : List A)
      → where_rows (λ r. is_behind cursor (position r)) (order_by_position position rows) ≡ rest
      → ltb (suc n) (length (take (suc (suc n)) rest)) ≡ false
      → fetch_page position (suc n) cursor rows ≡ (rest, none)
  unfolding fetch_page page_of
  fetch_last cursor rest e h = rw e (rw (h, last_page position (suc n) rest h) refl)

  fetch_more :
      (cursor : Option Position) (rest : List A)
      → where_rows (λ r. is_behind cursor (position r)) (order_by_position position rows) ≡ rest
      → ltb (suc n) (length (take (suc (suc n)) rest)) ≡ true
      → (s : Split position (suc n) rest)
      → fetch_page position (suc n) cursor rows ≡ (s.before ++ s.last ∷ [], some (position s.last))
  unfolding fetch_page page_of
  fetch_more cursor rest e h s = rw e (rw (h, s.page, last_row-snoc position s.before s.last) refl)

  pages_left :
      (fuel : ℕ) {rest : List A} (s : Split position (suc n) rest)
      → ltb (suc n) (length (take (suc (suc n)) rest)) ≡ true
      → length rest ≤ suc fuel * suc n
      → (0 < fuel) × (length s.after ≤ fuel * suc n)
  pages_left zero {rest} s h f =
      absurd (ground (arith, s.shorter, f, length-take {ℓ} (suc (suc n)) rest))
  pages_left (suc fuel) s h f = (omega arith, grind (arith, s.shorter, f))

  walk :
      (fuel : ℕ) (cursor : Option Position) (before rest : List A)
      → 0 < fuel
      → length rest ≤ fuel * suc n
      → order_by_position position rows ≡ before ++ rest
      → where_rows (λ r. is_behind cursor (position r)) (order_by_position position rows) ≡ rest
      → walk_pages position fuel (suc n) cursor rows ≡ rest
  unfolding walk_pages
  walk zero cursor before rest some_left f o e = absurd (omega (arith, some_left))
  walk (suc fuel) cursor before rest some_left f o e =
      elim (Bool-cases (ltb (suc n) (length (take (suc (suc n)) rest)))) [
        | inr h ↦
            ap (λ q. follow position q (λ c. walk_pages position fuel (suc n) (some c) rows))
              (fetch_last cursor rest e h)
        | inl h ↦
            let s = Split-page position n rest h in
            let o' = o ∙ ap (λ ys. before ++ ys) s.whole in
            let left = before ++ s.before in
            let parts : order_by_position position rows ≡ left ++ s.last ∷ s.after =
              o' ∙ sym (append_assoc position before s.before (s.last ∷ s.after)) in
            ap (λ q. follow position q (λ c. walk_pages position fuel (suc n) (some c) rows))
              (fetch_more cursor rest e h s)
            ∙ ap (λ ys. (s.before ++ s.last ∷ []) ++ ys)
                (walk fuel (some (position s.last)) (left ++ s.last ∷ []) s.after
                  (pages_left fuel s h f).0 (pages_left fuel s h f).1
                  (parts ∙ sym (append_assoc position left (s.last ∷ []) s.after))
                  (rw parts (where_behind position left s.last s.after (rw parts at ascending))))
            ∙ append_assoc position s.before (s.last ∷ []) s.after
            ∙ sym s.whole
      ]

-- A client that starts without a cursor and follows the cursors reads every row of the table
-- exactly once, in the order of the positions, within as many requests as there are full pages.
pub walk_pages_enough {ℓ} :
    {A : Type ℓ} (position : A → Position) (fuel limit : ℕ) (rows : List A)
    → 0 < limit
    → 0 < fuel
    → length rows ≤ fuel * limit
    → IsKeyed position rows
    → walk_pages position fuel limit none rows ≡ order_by_position position rows
walk_pages_enough position fuel zero rows p q f keyed = absurd (omega (arith, p))
walk_pages_enough position fuel (suc n) rows p q f keyed =
    walk position n rows (order_by_position-IsAscending position rows keyed) fuel none []
      (order_by_position position rows) q (rw (length-order position rows) f) refl
      (where_everything position (order_by_position position rows))

-- A client that starts without a cursor and follows the cursors reads every row of the table
-- exactly once, in the order of the positions, and meets the last page within as many requests as
-- the table has rows, plus one; the limit is positive and no two rows share an identifier.
pub walk_pages_complete {ℓ} :
    {A : Type ℓ} (position : A → Position) (limit : ℕ) (rows : List A)
    → 0 < limit
    → IsKeyed position rows
    → walk_pages position (suc (length rows)) limit none rows ≡ order_by_position position rows
walk_pages_complete position limit rows p keyed =
    walk_pages_enough position (suc (length rows)) limit rows p (omega arith) (grind (arith, p))
      keyed
