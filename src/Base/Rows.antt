-- ===== src/Base/Rows.antt =====
-- Counting, keeping and deleting the rows that meet a test.
use Prim.Native.Nat.{ℕ, zero, suc, ◌+◌, ◌≤◌}
use mathlib.Core.Path.{◌≡◌, refl, ap}
use mathlib.Core.Logic.{inl, inr}
use mathlib.Core.Bool.{Bool, true, not}
use mathlib.Core.List.{List, [], ◌∷◌}
use native.Mathlib.Omega.{arith}
use pulse_ledger.Base.Tests.{Bool-cases}
use pulse_ledger.Base.Lists.{length, take, where_rows, count_rows, All}

module _ {ℓ} {A : Type ℓ} where
  pub count-take : (p : A → Bool) (n : ℕ) (es : List A) → count_rows p (take n es) ≤ count_rows p es
  count-take p zero es = omega arith
  count-take p (suc n) [] = omega arith
  count-take p (suc n) (e ∷ es) = omega (arith, count-take p n es)

  pub count-where :
      (p q : A → Bool) (es : List A) → count_rows p (where_rows q es) ≤ count_rows p es
  count-where p q [] = omega arith
  count-where p q (e ∷ es) = elim (Bool-cases (q e)) [
    | inl y ↦ rw y (omega (arith, count-where p q es))
    | inr n ↦ rw n (omega (arith, count-where p q es))
  ]

  pub count-where_same : (p : A → Bool) (es : List A) → count_rows p es ≡ length (where_rows p es)
  count-where_same p [] = refl
  count-where_same p (e ∷ es) = elim (Bool-cases (p e)) [
    | inl y ↦ rw y (omega (arith, count-where_same p es))
    | inr n ↦ rw n (omega (arith, count-where_same p es))
  ]

  pub count_rows-All :
      (p : A → Bool) (ys : List A) → All (λ (e : A). p e ≡ true) ys → count_rows p ys ≡ length ys
  count_rows-All p [] h = refl
  count_rows-All p (e ∷ ys) (k, h) = rw k (omega (arith, count_rows-All p ys h))

  -- Rows that meet `q` only if they meet `p` are deleted.
  module _ (p q : A → Bool) where
    pub count-deleted :
        (es : List A)
        → All (λ (x : A). q x ≡ true → p x ≡ true) es
        → count_rows p es ≡ count_rows q es + count_rows p (where_rows (λ x. not (q x)) es)
    count-deleted [] h = refl
    count-deleted (e ∷ es) (k, h) = elim (Bool-cases (q e)) [
      | inl a ↦ rw (a, k a) (omega (arith, count-deleted es h))
      | inr a ↦ rw a (omega (arith, count-deleted es h))
    ]

    pub where-deleted :
        (es : List A)
        → All (λ (x : A). q x ≡ true → p x ≡ true) es
        → where_rows (λ x. not (p x)) (where_rows (λ x. not (q x)) es)
          ≡ where_rows (λ x. not (p x)) es
    where-deleted [] h = refl
    where-deleted (e ∷ es) (k, h) = elim (Bool-cases (q e)) [
      | inl a ↦ rw (a, k a) (where-deleted es h)
      | inr a ↦ elim (Bool-cases (p e)) [
        | inl b ↦ rw (a, b) (where-deleted es h)
        | inr b ↦ rw (a, b) (ap (λ ys. e ∷ ys) (where-deleted es h))
      ]
    ]

  pub length-deleted :
      (q : A → Bool) (es : List A)
      → length es ≡ count_rows q es + length (where_rows (λ x. not (q x)) es)
  length-deleted q [] = refl
  length-deleted q (e ∷ es) = elim (Bool-cases (q e)) [
    | inl a ↦ rw a (omega (arith, length-deleted q es))
    | inr a ↦ rw a (omega (arith, length-deleted q es))
  ]

  pub none_deleted :
      (p : A → Bool) (es : List A) → count_rows p es ≡ 0 → where_rows (λ x. not (p x)) es ≡ es
  none_deleted p [] h = refl
  none_deleted p (e ∷ es) h = elim (Bool-cases (p e)) [
    | inl a ↦ absurd (omega (arith, rw a at h))
    | inr a ↦ rw a (ap (λ ys. e ∷ ys) (none_deleted p es (omega (arith, rw a at h))))
  ]

module _ {ℓ κ} {A : Type ℓ} where
  pub All-where : (P : A → Type κ) (q : A → Bool) (es : List A) → All P es → All P (where_rows q es)
  All-where P q [] h = tt
  All-where P q (e ∷ es) (k, h) = elim (Bool-cases (q e)) [
    | inl a ↦ rw a (k, All-where P q es h)
    | inr a ↦ rw a (All-where P q es h)
  ]

  pub All-map : {P Q : A → Type κ} → ((x : A) → P x → Q x) → (es : List A) → All P es → All Q es
  All-map f [] h = tt
  All-map f (e ∷ es) (k, h) = (f e k, All-map f es h)
