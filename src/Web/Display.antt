-- ===== src/Web/Display.antt =====
-- `formatMinor`, web/src/lib/money.ts.
use pulse_ledger.Base.{
  ℕ, ◌-◌, ◌%◌, Bool, ◌&&◌, ◌||◌, [], ◌∷◌, ◌++◌, ltb, ◌==◌, if◌then◌else◌, length,
}
use pulse_ledger.Base.Decimal.{Text, digits_value, to_decimal}
use pulse_ledger.Auth.Store.{same_text}

-- `padStart(minorDigits + 1, '0')`
abbrev pub pad_start : Text → Text
pad_start [] = b'0' ∷ b'0' ∷ b'0' ∷ []
pad_start (a ∷ []) = b'0' ∷ b'0' ∷ a ∷ []
pad_start (a ∷ b ∷ []) = b'0' ∷ a ∷ b ∷ []
pad_start (a ∷ b ∷ c ∷ cs) = a ∷ b ∷ c ∷ cs

-- `digits.slice(0, -minorDigits)`
abbrev pub major_part : Text → Text
major_part (a ∷ b ∷ c ∷ cs) = a ∷ major_part (b ∷ c ∷ cs)
major_part _ = []

-- `digits.slice(-minorDigits)`
abbrev pub minor_part : Text → Text
minor_part [] = []
minor_part (a ∷ []) = a ∷ []
minor_part (a ∷ b ∷ []) = a ∷ b ∷ []
minor_part (a ∷ b ∷ c ∷ cs) = minor_part (b ∷ c ∷ cs)

-- The languages that amounts are grouped in.
pub data Locale : Type 0 where
  en_in en_us : Locale

-- A separator goes before the last so many digits: threes, and in India twos above the first three.
abbrev pub is_break : Locale → ℕ → Bool
is_break en_us n = ltb 0 n && n % 3 == 0
is_break en_in n = n == 3 || ltb 3 n && (n - 3) % 2 == 0

-- `toLocaleString(locale)`, on the digits of a whole number.
abbrev pub grouped : Locale → Text → Text
grouped l [] = []
grouped l (c ∷ cs) =
    let rest = grouped l cs in c ∷ (if is_break l (length cs) then b',' ∷ rest else rest)

abbrev pub inr_code : Text
inr_code = b'I' ∷ b'N' ∷ b'R' ∷ []

abbrev pub usd_code : Text
usd_code = b'U' ∷ b'S' ∷ b'D' ∷ []

abbrev pub locale_of : Text → Locale
locale_of currency = if same_text currency inr_code then en_in else en_us

-- `symbols[currency] ?? …`
abbrev pub symbol_of : Text → Text
symbol_of currency =
    if same_text currency inr_code
    then 0x20b9 ∷ []
    else if same_text currency usd_code
    then b'$' ∷ []
    else currency ++ 32 ∷ []

-- An amount without its sign, behind the symbol.
unfoldable pub format_digits : Text → Text → Text
format_digits digits currency =
    grouped (locale_of currency) (to_decimal (digits_value 0 (major_part (pad_start digits))))
    ++ b'.' ∷ minor_part (pad_start digits)

-- `formatMinor`, on a decimal text as the API sends it.
unfoldable pub format_minor : Text → Text → Text
unfolding format_digits
format_minor [] currency = symbol_of currency ++ format_digits [] currency
format_minor (c ∷ cs) currency =
    if c == b'-'
    then 0x2212 ∷ symbol_of currency ++ format_digits cs currency
    else symbol_of currency ++ format_digits (c ∷ cs) currency
