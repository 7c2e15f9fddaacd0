-- ===== src/Architecture/Header.antt =====
-- The imports at the head of a file, told without the program's own search, and that the scan of
-- scripts/check-architecture.ts reads them.
use pulse_ledger.Base.{
  ℕ, zero, suc, ◌+◌, ◌≡◌, ◌≢◌, inl, inr, refl, ap, ◌∙◌, true, false, not, none, some, List, [], ◌∷◌,
  ◌++◌, arith, length, ◌==◌, All, Bool-cases, Option-cases,
}
use pulse_ledger.Base.Decimal.{Text}
use pulse_ledger.Auth.Service.{strip_prefix}
use pulse_ledger.Architecture.Imports.{
  import_word, export_word, is_quote, is_clause, quoted, after_keyword, import_at, specifiers,
}
use pulse_ledger.Architecture.Clauses.{
  IsKeyword, Clause, IsSpecifier, no_quote_within, taken-all, left-all, is_import_clause-Clause,
}

-- The text of one import, with what follows it: a keyword, a clause, and a specifier between quotes.
abbrev pub import_text : Text → Text → ℕ → Text → ℕ → Text → Text
import_text k x q s r rest = k ++ (x ++ q ∷ (s ++ r ∷ rest))

some-injective : {a b : Text} → some a ≡ some b → a ≡ b
some-injective h = cc

none-some : {a : Text} → none ≡ some a → ⊥
none-some h = cc

-- No keyword starts a text.
abbrev pub IsPlain : Text → Type 0
IsPlain text = (k rest : Text) → IsKeyword k → text ≢ k ++ rest

-- A text and the specifiers of its first imports. Between two imports no keyword starts.
pub data Header : Text → List Text → Type 0 where
  done : (text : Text) → Header text []
  skip :
      (c : ℕ) (text : Text) (ss : List Text)
      → IsPlain (c ∷ text)
      → Header text ss
      → Header (c ∷ text) ss
  statement :
      (k x : Text) (q : ℕ) (s : Text) (r : ℕ) (rest : Text) (ss : List Text)
      → IsKeyword k
      → Clause x
      → is_quote q ≡ true
      → IsSpecifier s
      → is_quote r ≡ true
      → Header rest ss
      → Header (import_text k x q s r rest) (s ∷ ss)

strip_prefix-rest : (k text rest : Text) → strip_prefix k text ≡ some rest → text ≡ k ++ rest
unfolding strip_prefix
strip_prefix-rest [] text rest h = some-injective h
strip_prefix-rest (c ∷ k) [] rest h = cc
strip_prefix-rest (c ∷ k) (d ∷ text) rest h = elim (Bool-cases (c == d)) [
  | inl y ↦
      let tail : text ≡ k ++ rest = strip_prefix-rest k text rest (rw y at h) in
      let same : d ≡ c = ground (arith, y) in rw (same, tail) refl
  | inr n ↦ absurd (none-some (rw n at h))
]

after_keyword-plain : (text : Text) → IsPlain text → after_keyword text ≡ none
after_keyword-plain text plain = elim (Option-cases (strip_prefix import_word text)) [
  | inr (r, e) ↦ absurd (plain import_word r (inl refl) (strip_prefix-rest import_word text r e))
  | inl n ↦ elim (Option-cases (strip_prefix export_word text)) [
    | inr (r, e) ↦ absurd (plain export_word r (inr refl) (strip_prefix-rest export_word text r e))
    | inl m ↦ ground (arith, n, m)
  ]
]

after_keyword-read : (k text : Text) → IsKeyword k → after_keyword (k ++ text) ≡ some text
unfolding strip_prefix
after_keyword-read k text (inl e) = rw e refl
after_keyword-read k text (inr e) = rw e refl

quote-clause : (q : ℕ) → is_quote q ≡ true → is_clause q ≡ false
quote-clause q h = ground arith

unquoted : (s : Text) → All (λ d. is_quote d ≡ false) s → All (λ d. not (is_quote d) ≡ true) s
unquoted [] h = tt
unquoted (c ∷ s) (h, hs) = (rw h refl, unquoted s hs)

quoted-read :
    (q : ℕ) (s : Text) (r : ℕ) (rest : Text)
    → is_quote q ≡ true
    → IsSpecifier s
    → is_quote r ≡ true
    → quoted (q ∷ (s ++ r ∷ rest)) ≡ some s
quoted-read q [] r rest h g f = elim g [ ]
quoted-read q (c ∷ s) r rest h g f =
    let stops : not (is_quote r) ≡ false = rw f refl in
    let plain = unquoted (c ∷ s) g in
    rw (h, quoted)
      (rw (taken-all (λ d. not (is_quote d)) r rest stops (c ∷ s) plain)
        (rw (left-all (λ d. not (is_quote d)) r rest stops (c ∷ s) plain) refl))

import_at-read :
    (k x : Text) (q : ℕ) (s : Text) (r : ℕ) (rest : Text)
    → IsKeyword k
    → Clause x
    → is_quote q ≡ true
    → IsSpecifier s
    → is_quote r ≡ true
    → import_at (import_text k x q s r rest) ≡ some (s, length x + length s + 7)
unfolding import_at
import_at-read k x q s r rest kw cl h g f =
    let stops = quote-clause q h in
    let plain = no_quote_within x cl in
    rw (after_keyword-read k (x ++ q ∷ (s ++ r ∷ rest)) kw, import_at)
      (rw (left-all is_clause q (s ++ r ∷ rest) stops x plain) (
        rw (quoted-read q s r rest h g f) (
          rw (taken-all is_clause q (s ++ r ∷ rest) stops x plain)
            (rw (is_import_clause-Clause x cl) refl))))

specifiers-plain :
    (c : ℕ) (text : Text) → IsPlain (c ∷ text) → specifiers 0 (c ∷ text) ≡ specifiers 0 text
unfolding specifiers import_at
specifiers-plain c text plain = rw (after_keyword-plain (c ∷ text) plain, specifiers) refl

-- A statement with its first character: the scan reads it and skips the rest of it.
specifiers-matched :
    (c : ℕ) (text : Text) (s : Text) (n : ℕ)
    → import_at (c ∷ text) ≡ some (s, n)
    → specifiers 0 (c ∷ text) ≡ s ∷ specifiers n text
unfolding specifiers
specifiers-matched c text s n e = rw (e, specifiers) refl

specifiers-skip :
    (xs rest : Text) (n m : ℕ) → m ≡ length xs + n → specifiers m (xs ++ rest) ≡ specifiers n rest
unfolding specifiers
specifiers-skip [] rest n m e = let same : m ≡ n = omega (arith, e) in rw same refl
specifiers-skip (c ∷ xs) rest n zero e = absurd (omega (arith, e))
specifiers-skip (c ∷ xs) rest n (suc m) e = specifiers-skip xs rest n m (omega (arith, e))

skipped_statement :
    (t x : Text) (q : ℕ) (s : Text) (r : ℕ) (rest : Text)
    → length t ≡ 5
    → specifiers (length x + length s + 7) (t ++ (x ++ q ∷ (s ++ r ∷ rest))) ≡ specifiers 0 rest
skipped_statement t x q s r rest five =
    specifiers-skip t (x ++ q ∷ (s ++ r ∷ rest)) (length x + length s + 2) _ (omega (arith, five))
    ∙ specifiers-skip x (q ∷ (s ++ r ∷ rest)) (length s + 2) _ (omega arith)
    ∙ specifiers-skip (q ∷ []) (s ++ r ∷ rest) (length s + 1) _ (omega arith)
    ∙ specifiers-skip s (r ∷ rest) 1 _ (omega arith)
    ∙ specifiers-skip (r ∷ []) rest 0 _ (omega arith)

module _ (x : Text) (q : ℕ) (s : Text) (r : ℕ) (rest : Text) (clause : Clause x)
    (opens : is_quote q ≡ true) (named : IsSpecifier s) (closes : is_quote r ≡ true) where
  after_first :
      (c : ℕ) (t : Text)
      → IsKeyword (c ∷ t)
      → length t ≡ 5
      → specifiers 0 (import_text (c ∷ t) x q s r rest) ≡ s ∷ specifiers 0 rest
  after_first c t keyword five =
      specifiers-matched c (t ++ (x ++ q ∷ (s ++ r ∷ rest))) s (length x + length s + 7)
        (import_at-read (c ∷ t) x q s r rest keyword clause opens named closes)
      ∙ ap (λ u. s ∷ u) (skipped_statement t x q s r rest five)

  -- An import is read, and the scan goes on behind it.
  specifiers-import :
      (k : Text) → IsKeyword k → specifiers 0 (import_text k x q s r rest) ≡ s ∷ specifiers 0 rest
  specifiers-import k (inl e) =
      rw e (after_first b'i' (b'm' ∷ b'p' ∷ b'o' ∷ b'r' ∷ b't' ∷ []) (inl refl) refl)
  specifiers-import k (inr e) =
      rw e (after_first b'e' (b'x' ∷ b'p' ∷ b'o' ∷ b'r' ∷ b't' ∷ []) (inr refl) refl)

-- The scan of a text reads the imports at its head first.
pub specifiers-Header :
    (text : Text) (ss : List Text)
    → Header text ss
    → (others : List Text) × (specifiers 0 text ≡ ss ++ others)
specifiers-Header text ss (done t) = (specifiers 0 t, refl)
specifiers-Header text ss (skip c t us plain head) =
    let (others, e) = specifiers-Header t us head in (others, specifiers-plain c t plain ∙ e)
specifiers-Header text ss (statement k x q s r rest us kw cl h g f head) =
    let (others, e) = specifiers-Header rest us head in
    (others, specifiers-import x q s r rest cl h g f k kw ∙ ap (λ t. s ∷ t) e)
