-- ===== src/Architecture/Clauses.antt =====
-- What stands between an import's keyword and its specifier, told without the program's own search,
-- and that `importPattern` of scripts/check-architecture.ts finds it.
use pulse_ledger.Base.{
  ℕ, ◌≤◌, ◌≡◌, ◌⊎◌, refl, ap, ◌∙◌, Bool, true, false, ◌&&◌, ◌||◌, [], ◌∷◌, ◌++◌, arith, length,
  length-append, All, All-append,
}
use pulse_ledger.Base.Decimal.{Text}
use pulse_ledger.Base.Trim.{is_white, drop_spaces, drop_ending_spaces, keep_ending}
use pulse_ledger.Auth.Store.{same_text}
use pulse_ledger.Architecture.Paths.{ends_with}
use pulse_ledger.Architecture.Imports.{
  import_word, export_word, type_word, from_word, is_quote, is_clause, taken, left, begins_white,
  ends_white, is_padded, drop_last_four, is_import_clause,
}

abbrev pub IsKeyword : Text → Type 0
IsKeyword k = (k ≡ import_word) ⊎ (k ≡ export_word)

-- White space, and at least one character of it.
abbrev pub IsWhite : Text → Type 0
IsWhite [] = ⊥
IsWhite (c ∷ cs) = All (λ d. is_white d ≡ true) (c ∷ cs)

-- At least one character, and no quote and no semicolon.
abbrev pub IsBinding : Text → Type 0
IsBinding [] = ⊥
IsBinding (c ∷ cs) = All (λ d. is_clause d ≡ true) (c ∷ cs)

-- What stands between the keyword and the quote of an import: white space, `type`, or what is bound
-- and `from`.
pub data Clause : Text → Type 0 where
  bare : (w : Text) → IsWhite w → Clause w
  type_only : (w v : Text) → IsWhite w → IsWhite v → Clause (w ++ type_word ++ v)
  binding :
      (w x v u : Text)
      → IsWhite w
      → IsBinding x
      → IsWhite v
      → IsWhite u
      → Clause (w ++ x ++ v ++ from_word ++ u)

-- A specifier: at least one character, and no quote.
abbrev pub IsSpecifier : Text → Type 0
IsSpecifier [] = ⊥
IsSpecifier (c ∷ cs) = All (λ d. is_quote d ≡ false) (c ∷ cs)

white-clause : (c : ℕ) → is_white c ≡ true → is_clause c ≡ true
white-clause c h = ground arith

IsWhite-clause : (w : Text) → IsWhite w → All (λ d. is_clause d ≡ true) w
IsWhite-clause [] h = elim h [ ]
IsWhite-clause (c ∷ cs) (h, hs) = (white-clause c h, all cs hs)
  where
    all : (ds : Text) → All (λ d. is_white d ≡ true) ds → All (λ d. is_clause d ≡ true) ds
    all [] g = tt
    all (d ∷ ds) (g, gs) = (white-clause d g, all ds gs)

IsBinding-clause : (x : Text) → IsBinding x → All (λ d. is_clause d ≡ true) x
IsBinding-clause [] h = elim h [ ]
IsBinding-clause (c ∷ cs) h = h

pub no_quote_within : (x : Text) → Clause x → All (λ d. is_clause d ≡ true) x
no_quote_within x (bare w h) = IsWhite-clause w h
no_quote_within x (type_only w v h g) =
    All-append _ (w ++ type_word) v
      (All-append _ w type_word (IsWhite-clause w h) (refl, (refl, (refl, (refl, tt)))))
      (IsWhite-clause v g)
no_quote_within x (binding w y v u h b g f) =
    All-append _ (w ++ y ++ v ++ from_word) u
      (All-append _ (w ++ y ++ v) from_word
        (All-append _ (w ++ y) v (All-append _ w y (IsWhite-clause w h) (IsBinding-clause y b))
          (IsWhite-clause v g))
        (refl, (refl, (refl, (refl, tt)))))
      (IsWhite-clause u f)

module _ (p : ℕ → Bool) (q : ℕ) (rest : Text) (stops : p q ≡ false) where
  pub taken-all : (x : Text) → All (λ d. p d ≡ true) x → taken p (x ++ q ∷ rest) ≡ x
  taken-all [] h = rw stops refl
  taken-all (c ∷ cs) (h, hs) = rw (h, taken-all cs hs) refl

  pub left-all : (x : Text) → All (λ d. p d ≡ true) x → left p (x ++ q ∷ rest) ≡ q ∷ rest
  left-all [] h = rw stops refl
  left-all (c ∷ cs) (h, hs) = rw (h, left-all cs hs) refl

begins_white-append : (w y : Text) → IsWhite w → begins_white (w ++ y) ≡ true
begins_white-append [] y h = elim h [ ]
begins_white-append (c ∷ cs) y h = h.0

ends_white-all : (v : Text) → IsWhite v → ends_white v ≡ true
ends_white-all [] h = elim h [ ]
ends_white-all (c ∷ []) h = h.0
ends_white-all (c ∷ d ∷ cs) h = ends_white-all (d ∷ cs) h.1

ends_white-append : (y v : Text) → IsWhite v → ends_white (y ++ v) ≡ true
ends_white-append [] v h = ends_white-all v h
ends_white-append (c ∷ []) [] h = elim h [ ]
ends_white-append (c ∷ []) (d ∷ v) h = ends_white-all (d ∷ v) h
ends_white-append (c ∷ d ∷ y) v h = ends_white-append (d ∷ y) v h

dropped-white : (v : Text) → All (λ d. is_white d ≡ true) v → drop_ending_spaces is_white v ≡ []
dropped-white [] h = refl
dropped-white (c ∷ cs) (h, hs) = rw (dropped-white cs hs) (rw h refl)

dropped-append :
    (y v : Text) → IsWhite v → drop_ending_spaces is_white (y ++ v) ≡ drop_ending_spaces is_white y
dropped-append [] [] h = elim h [ ]
dropped-append [] (c ∷ cs) h = dropped-white (c ∷ cs) h
dropped-append (c ∷ y) v h = ap (keep_ending is_white c) (dropped-append y v h)

-- A text that ends in a word of letters loses nothing.
dropped-word :
    (y : Text) (a : ℕ) (m : Text)
    → drop_ending_spaces is_white (a ∷ m) ≡ a ∷ m
    → drop_ending_spaces is_white (y ++ a ∷ m) ≡ y ++ a ∷ m
dropped-word [] a m h = h
dropped-word (c ∷ []) a m h = ap (keep_ending is_white c) h
dropped-word (c ∷ d ∷ y) a m h = ap (keep_ending is_white c) (dropped-word (d ∷ y) a m h)

drop_spaces-append :
    (w : Text) (y : Text)
    → IsWhite w
    → drop_spaces is_white y ≡ y
    → drop_spaces is_white (w ++ y) ≡ y
drop_spaces-append [] y h e = elim h [ ]
drop_spaces-append (c ∷ []) y h e = rw (h.0) e
drop_spaces-append (c ∷ d ∷ cs) y h e = rw (h.0) (drop_spaces-append (d ∷ cs) y h.1 e)

ends_with-from : (y : Text) → ends_with from_word (y ++ from_word) ≡ true
unfolding ends_with
ends_with-from [] = refl
ends_with-from (c ∷ y) = ground (arith, ends_with-from y)

drop_last_four-from : (y : Text) → drop_last_four (y ++ from_word) ≡ y
drop_last_four-from [] = refl
drop_last_four-from (c ∷ []) = refl
drop_last_four-from (c ∷ d ∷ []) = refl
drop_last_four-from (c ∷ d ∷ e ∷ []) = refl
drop_last_four-from (c ∷ d ∷ e ∷ f ∷ []) = refl
drop_last_four-from (c ∷ d ∷ e ∷ f ∷ g ∷ y) =
    ap (λ t. c ∷ t) (drop_last_four-from (d ∷ e ∷ f ∷ g ∷ y))

padded : (w x v : Text) → IsWhite w → IsBinding x → IsWhite v → is_padded (w ++ x ++ v) ≡ true
padded [] x v h b g = elim h [ ]
padded (c ∷ w) [] v h b g = elim b [ ]
padded (c ∷ w) (d ∷ x) [] h b g = elim g [ ]
padded (c ∷ w) (d ∷ x) (e ∷ v) h b g =
    let ends = ends_white-append (c ∷ w ++ d ∷ x) (e ∷ v) g in
    let long : 3 ≤ length (c ∷ w ++ d ∷ x ++ e ∷ v) =
      omega (arith, length-append (c ∷ w ++ d ∷ x) (e ∷ v), length-append (c ∷ w) (d ∷ x)) in
    rw (h.0, ends) (ground (arith, long))

or-middle : (a b c : Bool) → b ≡ true → (a || b || c) ≡ true
or-middle a b c h = ground arith

or-last : (a b c d : Bool) → c ≡ true → d ≡ true → (a || b || c && d) ≡ true
or-last a b c d h g = ground arith

-- A text with white space at both ends, by what is left of it without the last white space.
by_body :
    (text body : Text)
    → begins_white text ≡ true
    → ends_white text ≡ true
    → drop_ending_spaces is_white text ≡ body
    → (same_text body []
        || same_text (drop_spaces is_white body) type_word
        || ends_with from_word body && is_padded (drop_last_four body))
      ≡ true
    → is_import_clause text ≡ true
unfolding is_import_clause
by_body text body begins ends e h = rw (begins, ends, e) h

begins_white-append2 : (w y z : Text) → IsWhite w → begins_white (w ++ y ++ z) ≡ true
begins_white-append2 [] y z h = elim h [ ]
begins_white-append2 (c ∷ cs) y z h = h.0

-- `importPattern` takes every clause.
pub is_import_clause-Clause : (x : Text) → Clause x → is_import_clause x ≡ true
is_import_clause-Clause x (bare [] h) = elim h [ ]
is_import_clause-Clause x (bare (c ∷ w) h) =
    by_body (c ∷ w) [] h.0 (ends_white-all (c ∷ w) h) (dropped-white (c ∷ w) h) refl
is_import_clause-Clause x (type_only w v h g) =
    by_body (w ++ type_word ++ v) (w ++ type_word) (begins_white-append2 w type_word v h)
      (ends_white-append (w ++ type_word) v g)
      (dropped-append (w ++ type_word) v g ∙ dropped-word w b't' (b'y' ∷ b'p' ∷ b'e' ∷ []) refl)
      (or-middle _ (same_text (drop_spaces is_white (w ++ type_word)) type_word) _
        (rw (drop_spaces-append w type_word h refl) refl))
is_import_clause-Clause x (binding [] y v u h b g f) = elim h [ ]
is_import_clause-Clause x (binding (c ∷ w) y v u h b g f) =
    let body = c ∷ w ++ y ++ v in
    by_body (body ++ from_word ++ u) (body ++ from_word) h.0
      (ends_white-append (body ++ from_word) u f)
      (dropped-append (body ++ from_word) u f
        ∙ dropped-word body b'f' (b'r' ∷ b'o' ∷ b'm' ∷ []) refl)
      (or-last (same_text (body ++ from_word) [])
        (same_text (drop_spaces is_white (body ++ from_word)) type_word)
        (ends_with from_word (body ++ from_word)) (is_padded (drop_last_four (body ++ from_word)))
        (ends_with-from body) (rw (drop_last_four-from body) (padded (c ∷ w) y v h b g)))
