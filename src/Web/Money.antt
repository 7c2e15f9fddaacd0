-- ===== src/Web/Money.antt =====
-- `parseMajorToMinor`, web/src/lib/money.ts.
use pulse_ledger.Base.{
  ℕ, ◌+◌, ◌*◌, ◌≤◌, ◌<◌, ◌≡◌, refl, not, ◌&&◌, ◌||◌, Option, none, some, [], ◌∷◌, arith, ltb, ◌==◌,
  if◌then◌else◌, where_rows, Bool-cases, inl, inr,
}
use pulse_ledger.Base.Trim.{is_white}
use pulse_ledger.Base.Decimal.{Text, is_digit, all_digits, digits_value, to_decimal}
use pulse_ledger.Errors.{ok}
use pulse_ledger.Ledger.Money.{text, from_minor, from_minor-to_decimal, maximum_money_minor}

-- `input.replace(/[,\s]/g, '')`
abbrev pub cleaned : Text → Text
cleaned = where_rows (λ c. not (c == b',' || is_white c))

-- The text before the first point, and the text behind it, if there is a point.
abbrev pub at_point : Text → Text × Option Text
at_point [] = ([], none)
at_point (c ∷ cs) =
    let rest = at_point cs in if c == b'.' then ([], some cs) else (c ∷ rest.0, rest.1)

-- `(match[2] ?? '').padEnd(2, '0')`, on the texts that `\d{1,2}` matches; `none` is no match.
abbrev pub minor_digits : Option Text → Option Text
minor_digits none = some (b'0' ∷ b'0' ∷ [])
minor_digits (some []) = none
minor_digits (some (c ∷ [])) = if is_digit c then some (c ∷ b'0' ∷ []) else none
minor_digits (some (c ∷ d ∷ [])) = if is_digit c && is_digit d then some (c ∷ d ∷ []) else none
minor_digits (some (c ∷ d ∷ e ∷ cs)) = none

-- `^(\d+)` up to the point.
abbrev pub major_digits : Text → Option Text
major_digits [] = none
major_digits (c ∷ cs) = if all_digits (c ∷ cs) then some (c ∷ cs) else none

abbrev pub minor_value : Option Text → Option Text → Option ℕ
minor_value none m = none
minor_value (some major) none = none
minor_value (some major) (some minor) = some (digits_value 0 major * 100 + digits_value 0 minor)

abbrev pub positive_text : Option ℕ → Option Text
positive_text none = none
positive_text (some n) = if ltb 0 n then some (to_decimal n) else none

-- `parseMajorToMinor`
unfoldable pub parse_major_to_minor : Text → Option Text
parse_major_to_minor input =
    let parts = at_point (cleaned input) in
    positive_text (minor_value (major_digits parts.0) (minor_digits parts.1))

positive_text-some :
    (v : Option ℕ) (s : Text)
    → positive_text v ≡ some s
    → (n : ℕ) × (v ≡ some n) × (0 < n) × (s ≡ to_decimal n)
positive_text-some none s h = cc
positive_text-some (some n) s h = elim (Bool-cases (ltb 0 n)) [
  | inl y ↦ (n, refl, ground arith, ground arith)
  | inr m ↦ absurd (ground arith)
]

-- What the form takes out of a typed amount, the server reads as the same number of minor units:
-- the digits before the point times a hundred, and the two digits behind it, where a missing digit
-- counts as 0. It is positive, and the server accepts it if it is in the range of a `bigint`.
from_minor-parse :
    (input s : Text)
    → parse_major_to_minor input ≡ some s
    → (n : ℕ) × (minor_value
          (major_digits (at_point (cleaned input)).0)
          (minor_digits (at_point (cleaned input)).1)
        ≡ some n)
      × (0 < n)
      × (n ≤ maximum_money_minor → from_minor (text s) ≡ ok n)
unfolding parse_major_to_minor
from_minor-parse input s h =
    let (n, value, positive, same) = positive_text-some _ s h in
    (n, value, positive, λ small. rw same (from_minor-to_decimal n positive small))
