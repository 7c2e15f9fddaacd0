-- ===== src/Base/Order.antt =====
-- `ORDER BY`, by insertion: `before` says which of two rows may stand first.
use mathlib.Core.Path.{◌≡◌, refl}
use mathlib.Core.Logic.{inl, inr}
use mathlib.Core.Bool.{Bool}
use mathlib.Core.List.{List, [], ◌∷◌}
use native.Mathlib.Omega.{arith}
use pulse_ledger.Base.Tests.{if◌then◌else◌, Bool-cases}
use pulse_ledger.Base.Lists.{count_rows}

module _ {ℓ} {A : Type ℓ} (before : A → A → Bool) where
  abbrev pub insert_by : A → List A → List A
  insert_by e [] = e ∷ []
  insert_by e (x ∷ xs) = let rest = insert_by e xs in if before e x then e ∷ x ∷ xs else x ∷ rest

  abbrev pub order_by : List A → List A
  order_by [] = []
  order_by (e ∷ es) = insert_by e (order_by es)

  count-insert_by :
      (p : A → Bool) (e : A) (es : List A) → count_rows p (insert_by e es) ≡ count_rows p (e ∷ es)
  count-insert_by p e [] = refl
  count-insert_by p e (x ∷ es) = elim (Bool-cases (before e x)) [
    | inl y ↦ rw y refl
    | inr n ↦ rw n (omega (arith, count-insert_by p e es))
  ]

  -- An order keeps every row as often as it was there.
  pub count-order_by : (p : A → Bool) (es : List A) → count_rows p (order_by es) ≡ count_rows p es
  count-order_by p [] = refl
  count-order_by p (e ∷ es) = omega (arith, count-insert_by p e (order_by es), count-order_by p es)
