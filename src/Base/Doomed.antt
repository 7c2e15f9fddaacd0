-- ===== src/Base/Doomed.antt =====
-- A DELETE of the rows of a table that a bounded, ordered subquery names: it deletes rows that meet
-- the subquery's test only, and as many of them as the bound allows.
use Prim.Native.Nat.{ℕ, suc, ◌+◌, ◌≤◌, ◌<◌, min}
use mathlib.Core.Path.{◌≡◌, refl, ◌∙◌, sym}
use mathlib.Core.Logic.{inl, inr}
use mathlib.Core.Bool.{Bool, true, false, not, ◌||◌}
use mathlib.Core.List.{List, [], ◌∷◌}
use native.Mathlib.Omega.{arith}
use mathlib.Core.Option.{Option, some}
use pulse_ledger.Base.Tests.{ltb, Bool-cases}
use pulse_ledger.Base.Lists.{length, take, where_rows, count_rows, any, All, length-take}
use pulse_ledger.Base.Rows.{
  count-take, count-where, count-where_same, count_rows-All, All-where, All-map, count-deleted,
  where-deleted, length-deleted, none_deleted,
}

any-count {ℓ} : {A : Type ℓ} (p : A → Bool) (es : List A) → any p es ≡ ltb 0 (count_rows p es)
any-count p [] = refl
any-count p (e ∷ es) = ground (arith, any-count p es)

module _ {ℓ} {A : Type ℓ} (same : A → A → Bool) where
  -- The rows share no key.
  abbrev pub IsDistinct : List A → Type 0
  IsDistinct [] = Unit
  IsDistinct (e ∷ es) = All (λ (x : A). same e x ≡ false) es × IsDistinct es

  pub where-IsDistinct : (q : A → Bool) (es : List A) → IsDistinct es → IsDistinct (where_rows q es)
  where-IsDistinct q [] h = tt
  where-IsDistinct q (e ∷ es) (f, h) = elim (Bool-cases (q e)) [
    | inl a ↦ rw a (All-where _ q es f, where-IsDistinct q es h)
    | inr a ↦ rw a (where-IsDistinct q es h)
  ]

-- What one DELETE of a purge loop does, whose result is `r`: it removes rows that meet the test
-- only, as many as the limit allows, and reports their number.
pub record Purged {ℓ} {A : Type ℓ} (same : A → A → Bool) (p : A → Bool) (n : ℕ) (rows : List A)
    (r : ℕ × List A) : Type ℓ where
  pub counted : count_rows p rows ≡ r.0 + count_rows p r.1
  pub kept : where_rows (λ x. not (p x)) r.1 ≡ where_rows (λ x. not (p x)) rows
  pub shorter : length rows ≡ r.0 + length r.1
  pub full : min n (count_rows p rows) ≤ r.0
  pub distinct_left : IsDistinct same r.1

some_pair {ℓ} :
    {A : Type ℓ} {a b : ℕ} {xs ys : List A}
    → a ≡ b
    → xs ≡ ys
    → ◌≡◌ {A = Option (ℕ × List A)} (some (a, xs)) (some (b, ys))
some_pair e f = rw (e, f) refl

module _ {ℓ} {A : Type ℓ} (same : A → A → Bool) (p : A → Bool) (n : ℕ) (rows : List A)
    (r : ℕ × List A) (b : Purged same p n rows r) (removed : ℕ) where
  -- A DELETE that reports fewer rows than its limit was the last.
  pub last_batch :
      ltb r.0 n ≡ true
      → ◌≡◌ {A = Option (ℕ × List A)}
          (some (removed + r.0, r.1))
          (some (removed + count_rows p rows, where_rows (λ x. not (p x)) rows))
  last_batch last =
      let left : count_rows p r.1 ≡ 0 = ground (arith, b.counted, b.full) in
      some_pair (omega (arith, left, b.counted)) (sym (none_deleted p r.1 left) ∙ b.kept)

  -- What the later DELETEs remove and keep is what is left of it.
  pub next_batch :
      ◌≡◌ {A = Option (ℕ × List A)}
        (some (removed + r.0 + count_rows p r.1, where_rows (λ x. not (p x)) r.1))
        (some (removed + count_rows p rows, where_rows (λ x. not (p x)) rows))
  next_batch = some_pair (omega (arith, b.counted)) b.kept

  pub fewer_rows :
      (fuel : ℕ) → 0 < n → ltb r.0 n ≡ false → length rows < suc fuel → length r.1 < fuel
  fewer_rows fuel positive more f = ground (arith, b.shorter)

module _ {ℓ} {A : Type ℓ} (same : A → A → Bool) (reflexive : (x : A) → same x x ≡ true)
    (symmetric : (x y : A) → same x y ≡ same y x) (p : A → Bool) where
  self_extend :
      (ys zs : List A)
      → All (λ (e : A). any (λ y. same y e) ys ≡ true) zs
      → (y : A) → All (λ (e : A). any (λ y. same y e) (y ∷ ys) ≡ true) zs
  self_extend ys [] h y = tt
  self_extend ys (z ∷ zs) (k, h) y = (ground arith, self_extend ys zs h y)

  any_self : (ys : List A) → All (λ (e : A). any (λ y. same y e) ys ≡ true) ys
  any_self [] = tt
  any_self (y ∷ ys) = (rw (reflexive y) refl, self_extend ys ys (any_self ys) y)

  distinct_any :
      (k : A) (es : List A) → All (λ (x : A). same k x ≡ false) es → any (λ y. same y k) es ≡ false
  distinct_any k [] h = refl
  distinct_any k (e ∷ es) (n, h) = rw (symmetric e k, n) (distinct_any k es h)

  any-where : (r : A → Bool) (es : List A) → any r (where_rows p es) ≡ true → any r es ≡ true
  any-where r es h =
      rw (any-count r es) (ground (arith, any-count r (where_rows p es), count-where r p es))

  only_extend :
      (e : A) (es ys : List A)
      → All (λ (x : A). same e x ≡ false) ys
      → All (λ (x : A). any (λ y. same y x) (where_rows p es) ≡ true → p x ≡ true) ys
      → All (λ (x : A). any (λ y. same y x) (where_rows p (e ∷ es)) ≡ true → p x ≡ true) ys
  only_extend e es [] f h = tt
  only_extend e es (y ∷ ys) (n, f) (k, h) = (
    (λ c. elim (Bool-cases (p e)) [
      | inl a ↦
          let c' : (same e y || any (λ z. same z y) (where_rows p es)) ≡ true = rw a at c in
          k (ground arith)
      | inr a ↦ k (rw a at c)
    ]),
    only_extend e es ys f h,
  )

  -- A row that shares its key with a row that meets the test meets it itself.
  only :
      (es : List A)
      → IsDistinct same es
      → All (λ (x : A). any (λ y. same y x) (where_rows p es) ≡ true → p x ≡ true) es
  only [] h = tt
  only (e ∷ es) (f, h) = (
    (λ c. elim (Bool-cases (p e)) [
      | inl a ↦ a
      | inr a ↦
          absurd (ground (arith, distinct_any e es f, any-where (λ y. same y e) es (rw a at c)))
    ]),
    only_extend e es es f (only es h),
  )

  module _ (order : List A → List A)
      (count-order : (r : A → Bool) (es : List A) → count_rows r (order es) ≡ count_rows r es)
      (n : ℕ) (rows : List A) (q : A → Bool)
      (named : (x : A) → q x ≡ any (λ y. same y x) (take n (order (where_rows p rows)))) where
    pub doomed_only : IsDistinct same rows → All (λ (x : A). q x ≡ true → p x ≡ true) rows
    doomed_only h =
        let expired = where_rows p rows in
        All-map
          (λ x k c. k (
            rw (any-count (λ y. same y x) expired) (
              ground (
                arith,
                named x,
                any-count (λ y. same y x) (take n (order expired)),
                count-take (λ y. same y x) n (order expired),
                count-order (λ y. same y x) expired,
              ))))
          rows (only rows h)

    length-order : (es : List A) → length (order es) ≡ length es
    length-order es = omega (
      arith,
      count-order (λ x. true) es,
      count_rows-All (λ x. true) (order es) (all_true (order es)),
      count_rows-All (λ x. true) es (all_true es),
    )
      where
        all_true : (xs : List A) → All (λ (x : A). true ≡ true) xs
        all_true [] = tt
        all_true (x ∷ xs) = (refl, all_true xs)

    -- The DELETE of the named rows, with the number of rows that it reports.
    pub delete-Purged :
        IsDistinct same rows
        → Purged same p n rows (count_rows q rows, where_rows (λ x. not (q x)) rows)
    delete-Purged h =
        let expired = where_rows p rows in
        let doomed = take n (order expired) in
        record {
          counted = count-deleted p q rows (doomed_only h);
          kept = where-deleted p q rows (doomed_only h);
          shorter = length-deleted q rows;
          full = omega (
            arith,
            count-where q p rows,
            count-order q expired,
            count-take q n (order expired),
            count_rows-All q doomed (All-map (λ x k. named x ∙ k) doomed (any_self doomed)),
            length-take n (order expired),
            length-order expired,
            count-where_same p rows,
          );
          distinct_left = where-IsDistinct same (λ x. not (q x)) rows h;
        }
