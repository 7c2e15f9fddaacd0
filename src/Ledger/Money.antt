-- ===== src/Ledger/Money.antt =====
-- `Money`, src/modules/ledger/ledger-domain.ts: an amount is a positive number of minor units in
-- the range of a PostgreSQL `bigint`.
use pulse_ledger.Base.{ℕ, String, ◌≤◌, ◌<◌, ◌≡◌, ◌||◌, arith, ltb, ◌==◌, if◌then◌else◌}
use pulse_ledger.Base.Int.{ℤ, pos, negsuc}
use pulse_ledger.Base.Decimal.{
  Text, is_positive_integer, digits_value, to_decimal, digits_value-to_decimal, to_decimal-positive,
}
use pulse_ledger.Errors.{Failure, domain_error, ledger_error, invalid_amount, Result, ok, err}

abbrev pub maximum_money_minor : ℕ
maximum_money_minor = 9_223_372_036_854_775_807

-- A value of TypeScript's `unknown`, as far as `Money.fromMinor` tells it apart.
pub data Unknown : Type 0 where
  text : Text → Unknown
  bigint : ℤ → Unknown
  other : Unknown

abbrev pub invalid_amount_failure : String → Failure
invalid_amount_failure m = domain_error ledger_error invalid_amount m

-- The range check, and the constructor behind it.
unfoldable pub in_supported_range : ℤ → Result ℕ
in_supported_range (pos n) =
    if n == 0 || ltb maximum_money_minor n
    then err (invalid_amount_failure "Amount is outside the supported range")
    else ok n
in_supported_range (negsuc n) = err (invalid_amount_failure "Amount is outside the supported range")

-- `Money.fromMinor`
unfoldable pub from_minor : Unknown → Result ℕ
unfolding in_supported_range
from_minor (text s) =
    if is_positive_integer s
    then in_supported_range (pos (digits_value 0 s))
    else err (invalid_amount_failure "Amount must be a positive integer string")
from_minor (bigint z) = in_supported_range z
from_minor other = err (invalid_amount_failure "Amount must be a positive integer string")

-- Whatever the value, an accepted amount is positive and fits a signed 64-bit integer.
pub from_minor_range :
    (v : Unknown) (m : ℕ) → from_minor v ≡ ok m → (0 < m) × (m ≤ maximum_money_minor)
unfolding from_minor
from_minor_range (text s) m h = ground arith
from_minor_range (bigint (pos n)) m h = ground arith
from_minor_range (bigint (negsuc n)) m h = ground arith
from_minor_range other m h = ground arith

-- The text of an accepted amount is read back as the same amount: `toString` and `fromMinor` are
-- inverse on the supported range.
pub from_minor-to_decimal :
    (m : ℕ) → 0 < m → m ≤ maximum_money_minor → from_minor (text (to_decimal m)) ≡ ok m
unfolding from_minor
from_minor-to_decimal m p h = rw (to_decimal-positive m p, digits_value-to_decimal m) (ground arith)
