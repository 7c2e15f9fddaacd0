-- ===== src/Base/Decimal.antt =====
-- `BigInt(text)` and `value.toString()` on decimal digits; a text is the list of its code units.
use pulse_ledger.Base.{
  ℕ, zero, suc, ◌+◌, ◌-◌, ◌*◌, ◌/◌, ◌%◌, ◌<◌, ◌≡◌, refl, Bool, true, false, ◌&&◌, List, [], ◌∷◌,
  ◌++◌, arith, ltb, leb,
}

abbrev pub Text : Type 0
Text = List ℕ

abbrev pub is_digit : ℕ → Bool
is_digit c = leb b'0' c && leb c b'9'

abbrev pub all_digits : Text → Bool
all_digits [] = true
all_digits (c ∷ cs) = is_digit c && all_digits cs

-- `/^[1-9][0-9]*$/`
abbrev pub is_positive_integer : Text → Bool
is_positive_integer [] = false
is_positive_integer (c ∷ cs) = leb b'1' c && leb c b'9' && all_digits cs

-- `BigInt(text)` for a text of decimal digits, read from the left.
abbrev pub digits_value : ℕ → Text → ℕ
digits_value acc [] = acc
digits_value acc (c ∷ cs) = digits_value (acc * 10 + (c - b'0')) cs

-- The digits of a number, the last one split off in each round; the fuel is above the number.
pub decimal_digits : ℕ → ℕ → Text
decimal_digits zero n = []
decimal_digits (suc fuel) n = elim (ltb n 10) [
  | true ↦ (b'0' + n) ∷ []
  | false ↦ decimal_digits fuel (n / 10) ++ (b'0' + n % 10) ∷ []
]

-- `value.toString()`
unfoldable pub to_decimal : ℕ → Text
unfolding decimal_digits
to_decimal n = decimal_digits (suc n) n

digits_value-snoc :
    (acc c : ℕ) (cs : Text)
    → digits_value acc (cs ++ c ∷ []) ≡ digits_value acc cs * 10 + (c - b'0')
digits_value-snoc acc c [] = refl
digits_value-snoc acc c (d ∷ cs) = digits_value-snoc (acc * 10 + (d - b'0')) c cs

digits_value-decimal_digits : (fuel n : ℕ) → n < fuel → digits_value 0 (decimal_digits fuel n) ≡ n
unfolding decimal_digits
digits_value-decimal_digits zero n h = elim h [ ]
digits_value-decimal_digits (suc fuel) n h = ground (
  arith,
  digits_value-snoc 0 (b'0' + n % 10) (decimal_digits fuel (n / 10)),
  digits_value-decimal_digits fuel (n / 10),
)

all_digits-snoc :
    (c : ℕ) (cs : Text)
    → all_digits cs ≡ true
    → is_digit c ≡ true
    → all_digits (cs ++ c ∷ []) ≡ true
all_digits-snoc c [] h d = ground arith
all_digits-snoc c (x ∷ cs) h d = ground (arith, all_digits-snoc c cs)

is_positive_integer-snoc :
    (c : ℕ) (cs : Text)
    → is_positive_integer cs ≡ true
    → is_digit c ≡ true
    → is_positive_integer (cs ++ c ∷ []) ≡ true
is_positive_integer-snoc c [] h d = ground arith
is_positive_integer-snoc c (x ∷ cs) h d = ground (arith, all_digits-snoc c cs)

decimal_digits-positive :
    (fuel n : ℕ) → n < fuel → 0 < n → is_positive_integer (decimal_digits fuel n) ≡ true
unfolding decimal_digits
decimal_digits-positive zero n h p = elim h [ ]
decimal_digits-positive (suc fuel) n h p = ground (
  arith,
  is_positive_integer-snoc (b'0' + n % 10) (decimal_digits fuel (n / 10)),
  decimal_digits-positive fuel (n / 10),
)

pub digits_value-to_decimal : (n : ℕ) → digits_value 0 (to_decimal n) ≡ n
unfolding to_decimal
digits_value-to_decimal n = digits_value-decimal_digits (suc n) n (omega arith)

pub to_decimal-positive : (n : ℕ) → 0 < n → is_positive_integer (to_decimal n) ≡ true
unfolding to_decimal
to_decimal-positive n p = decimal_digits-positive (suc n) n (omega arith) p
