-- ===== src/Base/Trim.antt =====
-- `text.trim()`, for a test of what counts as white space.
use pulse_ledger.Base.{
  ℕ, ◌≡◌, refl, Bool, false, ◌&&◌, ◌||◌, leb, ◌==◌, [], ◌∷◌, if◌then◌else◌, All,
}
use pulse_ledger.Base.Decimal.{Text}

-- `\s`, on UTF-16 code units.
abbrev pub is_white : ℕ → Bool
is_white c =
    leb 9 c && leb c 13
    || c == 32
    || c == 160
    || c == 0x1680
    || leb 0x2000 c && leb c 0x200a
    || c == 0x2028
    || c == 0x2029
    || c == 0x202f
    || c == 0x205f
    || c == 0x3000
    || c == 0xfeff

module _ (space : ℕ → Bool) where
  abbrev pub drop_spaces : Text → Text
  drop_spaces [] = []
  drop_spaces (c ∷ cs) = let rest = drop_spaces cs in if space c then rest else c ∷ cs

  abbrev pub keep_ending : ℕ → Text → Text
  keep_ending c [] = if space c then [] else c ∷ []
  keep_ending c (d ∷ rest) = c ∷ d ∷ rest

  abbrev pub drop_ending_spaces : Text → Text
  drop_ending_spaces [] = []
  drop_ending_spaces (c ∷ cs) = keep_ending c (drop_ending_spaces cs)

  unfoldable pub trim_by : Text → Text
  trim_by text = drop_ending_spaces (drop_spaces text)

  pub drop_ending_spaces-kept :
      (token : Text) → All (λ c. space c ≡ false) token → drop_ending_spaces token ≡ token
  drop_ending_spaces-kept [] h = refl
  drop_ending_spaces-kept (c ∷ []) (n, h) = rw n refl
  drop_ending_spaces-kept (c ∷ d ∷ cs) (n, h) = rw (drop_ending_spaces-kept (d ∷ cs) h) refl

  pub trim_by-kept : (token : Text) → All (λ c. space c ≡ false) token → trim_by token ≡ token
  unfolding trim_by
  trim_by-kept [] h = refl
  trim_by-kept (c ∷ cs) (n, h) = rw n (drop_ending_spaces-kept (c ∷ cs) (n, h))
