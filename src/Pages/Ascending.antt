-- ===== src/Pages/Ascending.antt =====
-- The rows in the order of their positions: `order_by_position` is strictly ascending.
use pulse_ledger.Base.{
  suc, ◌≡◌, refl, ap, ◌∙◌, true, false, some, List, [], ◌∷◌, ◌++◌, arith, ◌==◌, length, where_rows,
  All, Bool-cases, inl, inr,
}
use pulse_ledger.Pages.{Position, precedes, is_behind, insert_by_position, order_by_position}

module _ {ℓ} {A : Type ℓ} (position : A → Position) where
  -- The rows stand in strictly ascending order.
  abbrev pub IsAscending : List A → Type 0
  IsAscending [] = Unit
  IsAscending (x ∷ xs) = All (λ y. precedes (position x) (position y) ≡ true) xs × IsAscending xs

  -- No two rows share a position: their identifiers differ.
  abbrev pub IsKeyed : List A → Type 0
  IsKeyed [] = Unit
  IsKeyed (x ∷ xs) = All (λ y. ((position x).1 == (position y).1) ≡ false) xs × IsKeyed xs

  All-behind :
      (a x : A) (xs : List A)
      → precedes (position a) (position x) ≡ true
      → All (λ y. precedes (position x) (position y) ≡ true) xs
      → All (λ y. precedes (position a) (position y) ≡ true) xs
  All-behind a x [] h v = tt
  All-behind a x (y ∷ ys) h (e, v) = (ground arith, All-behind a x ys h v)

  All-inserted :
      (a x : A) (xs : List A)
      → precedes (position x) (position a) ≡ true
      → All (λ y. precedes (position x) (position y) ≡ true) xs
      → All (λ y. precedes (position x) (position y) ≡ true) (insert_by_position position a xs)
  All-inserted a x [] h v = (h, tt)
  All-inserted a x (y ∷ ys) h (e, v) = elim (Bool-cases (precedes (position y) (position a))) [
    | inl p ↦ rw p (e, All-inserted a x ys h v)
    | inr n ↦ rw n (h, (e, v))
  ]

  insert_by_position-IsAscending :
      (a : A) (xs : List A)
      → All (λ y. ((position a).1 == (position y).1) ≡ false) xs
      → IsAscending xs
      → IsAscending (insert_by_position position a xs)
  insert_by_position-IsAscending a [] d v = (tt, tt)
  insert_by_position-IsAscending a (x ∷ xs) (n, d) (h, v) =
      elim (Bool-cases (precedes (position x) (position a))) [
        | inl p ↦ rw p (All-inserted a x xs p h, insert_by_position-IsAscending a xs d v)
        | inr q ↦
            let first : precedes (position a) (position x) ≡ true = ground arith in
            rw q ((first, All-behind a x xs first h), (h, v))
      ]

  All-ordered :
      (P : A → Type 0) (a : A) (xs : List A)
      → P a
      → All P xs
      → All P (insert_by_position position a xs)
  All-ordered P a [] p v = (p, tt)
  All-ordered P a (x ∷ xs) p (q, v) = elim (Bool-cases (precedes (position x) (position a))) [
    | inl y ↦ rw y (q, All-ordered P a xs p v)
    | inr n ↦ rw n (p, (q, v))
  ]

  All-order : (P : A → Type 0) (xs : List A) → All P xs → All P (order_by_position position xs)
  All-order P [] v = tt
  All-order P (x ∷ xs) (p, v) = All-ordered P x (order_by_position position xs) p (All-order P xs v)

  pub order_by_position-IsAscending :
      (rows : List A) → IsKeyed rows → IsAscending (order_by_position position rows)
  order_by_position-IsAscending [] k = tt
  order_by_position-IsAscending (a ∷ rows) (d, k) =
      insert_by_position-IsAscending a (order_by_position position rows) (All-order _ rows d)
        (order_by_position-IsAscending rows k)

  where-All :
      (c : Position) (xs : List A)
      → All (λ y. precedes c (position y) ≡ true) xs
      → where_rows (λ r. is_behind (some c) (position r)) xs ≡ xs
  where-All c [] v = refl
  where-All c (x ∷ xs) (e, v) = ground (arith, where-All c xs v)

  split_all : (P : A → Type 0) (xs : List A) (y : A) (zs : List A) → All P (xs ++ y ∷ zs) → P y
  split_all P [] y zs (p, v) = p
  split_all P (x ∷ xs) y zs (p, v) = split_all P xs y zs v

  -- Behind a row of an ascending list stand the rows that follow it.
  pub where_behind :
      (xs : List A) (y : A) (zs : List A)
      → IsAscending (xs ++ y ∷ zs)
      → where_rows (λ r. is_behind (some (position y)) (position r)) (xs ++ y ∷ zs) ≡ zs
  where_behind [] y zs (h, v) = ground (arith, where-All (position y) zs h)
  where_behind (x ∷ xs) y zs (h, v) = ground (
    arith,
    split_all (λ r. precedes (position x) (position r) ≡ true) xs y zs h,
    where_behind xs y zs v,
  )

  length-insert :
      (a : A) (xs : List A) → length (insert_by_position position a xs) ≡ suc (length xs)
  length-insert a [] = refl
  length-insert a (x ∷ xs) = ground (arith, length-insert a xs)

  pub length-order : (rows : List A) → length (order_by_position position rows) ≡ length rows
  length-order [] = refl
  length-order (a ∷ rows) =
      length-insert a (order_by_position position rows) ∙ ap suc (length-order rows)
