-- ===== src/Web/Displayed.antt =====
-- That the money forms read back what `formatMinor` of web/src/lib/money.ts displays.
use pulse_ledger.Base.{
  ℕ, zero, suc, ◌+◌, ◌-◌, ◌*◌, ◌≤◌, ◌<◌, ◌≡◌, ◌≢◌, refl, sym, ap, ◌∙◌, Bool, true, false, not, ◌||◌,
  Option, some, [], ◌∷◌, ◌++◌, arith, ltb, ◌==◌, if◌then◌else◌, length, &&-true,
}
use pulse_ledger.Base.Trim.{is_white}
use pulse_ledger.Base.Decimal.{
  Text, is_digit, all_digits, is_positive_integer, digits_value, to_decimal, to_decimal-positive,
  digits_value-to_decimal,
}
use pulse_ledger.Web.Money.{
  cleaned, at_point, minor_digits, major_digits, minor_value, positive_text, parse_major_to_minor,
}
use pulse_ledger.Web.Display.{
  pad_start, major_part, minor_part, Locale, is_break, grouped, locale_of, symbol_of, format_digits,
  format_minor,
}

digits_value-parts :
    (acc : ℕ) (t : Text)
    → 2 ≤ length t
    → digits_value acc t ≡ digits_value acc (major_part t) * 100 + digits_value 0 (minor_part t)
digits_value-parts acc [] h = ground arith
digits_value-parts acc (a ∷ []) h = ground arith
digits_value-parts acc (a ∷ b ∷ []) h = omega arith
digits_value-parts acc (a ∷ b ∷ c ∷ cs) h =
    digits_value-parts (acc * 10 + (a - b'0')) (b ∷ c ∷ cs) (omega arith)

minor_part-two :
    (t : Text)
    → 2 ≤ length t
    → all_digits t ≡ true
    → (c d : ℕ) × (minor_part t ≡ c ∷ d ∷ []) × (is_digit c ≡ true) × (is_digit d ≡ true)
minor_part-two [] h p = ground arith
minor_part-two (a ∷ []) h p = ground arith
minor_part-two (a ∷ b ∷ []) h p = (a, b, refl, ground arith, ground arith)
minor_part-two (a ∷ b ∷ c ∷ cs) h p = minor_part-two (b ∷ c ∷ cs) (omega arith) (ground arith)

pad_start-length : (t : Text) → 3 ≤ length (pad_start t)
pad_start-length [] = omega arith
pad_start-length (a ∷ []) = omega arith
pad_start-length (a ∷ b ∷ []) = omega arith
pad_start-length (a ∷ b ∷ c ∷ cs) = omega arith

pad_start-value : (t : Text) → digits_value 0 (pad_start t) ≡ digits_value 0 t
pad_start-value [] = omega arith
pad_start-value (a ∷ []) = omega arith
pad_start-value (a ∷ b ∷ []) = omega arith
pad_start-value (a ∷ b ∷ c ∷ cs) = refl

pad_start-digits : (t : Text) → all_digits t ≡ true → all_digits (pad_start t) ≡ true
pad_start-digits [] h = refl
pad_start-digits (a ∷ []) h = h
pad_start-digits (a ∷ b ∷ []) h = h
pad_start-digits (a ∷ b ∷ c ∷ cs) h = h

is_positive_integer-digits : (t : Text) → is_positive_integer t ≡ true → all_digits t ≡ true
is_positive_integer-digits [] h = refl
is_positive_integer-digits (c ∷ cs) h = ground arith

to_decimal-digits : (n : ℕ) → all_digits (to_decimal n) ≡ true
unfolding to_decimal
to_decimal-digits zero = refl
to_decimal-digits (suc n) =
    is_positive_integer-digits (to_decimal (suc n)) (to_decimal-positive (suc n) (omega arith))

digit-plain : (c : ℕ) → is_digit c ≡ true → not (c == b',' || is_white c) ≡ true
digit-plain c h = ground arith

digit-minus : (c : ℕ) → is_digit c ≡ true → (c == b'-') ≡ false
digit-minus c h = ground arith

digit-point : (c : ℕ) → is_digit c ≡ true → (c == b'.') ≡ false
digit-point c h = ground arith

cleaned-digit : (c : ℕ) (cs : Text) → is_digit c ≡ true → cleaned (c ∷ cs) ≡ c ∷ cleaned cs
cleaned-digit c cs h = rw (digit-plain c h) refl

cleaned-separator :
    (b : Bool) (cs rest : Text)
    → cleaned ((if b then b',' ∷ cs else cs) ++ rest) ≡ cleaned (cs ++ rest)
cleaned-separator true cs rest = refl
cleaned-separator false cs rest = refl

cleaned-grouped :
    (l : Locale) (ds rest : Text)
    → all_digits ds ≡ true
    → cleaned (grouped l ds ++ rest) ≡ ds ++ cleaned rest
cleaned-grouped l [] rest h = refl
cleaned-grouped l (c ∷ cs) rest h =
    let both = &&-true (is_digit c) (all_digits cs) h in
    cleaned-digit c ((if is_break l (length cs) then b',' ∷ grouped l cs else grouped l cs) ++ rest)
      both.0
    ∙ ap (λ t. c ∷ t)
        (cleaned-separator (is_break l (length cs)) (grouped l cs) rest
          ∙ cleaned-grouped l cs rest both.1)

at_point-digits :
    (ds rest : Text) → all_digits ds ≡ true → at_point (ds ++ b'.' ∷ rest) ≡ (ds, some rest)
at_point-digits [] rest h = refl
at_point-digits (c ∷ cs) rest h =
    let both = &&-true (is_digit c) (all_digits cs) h in
    rw (digit-point c both.0, at_point-digits cs rest both.1) refl

major_digits-kept : (ds : Text) → ds ≢ [] → all_digits ds ≡ true → major_digits ds ≡ some ds
major_digits-kept [] n h = absurd (n refl)
major_digits-kept (c ∷ cs) n h = rw h refl

ltb-true : (n : ℕ) → 0 < n → ltb 0 n ≡ true
ltb-true n p = ground arith

false-true {ℓ} : {A : Type ℓ} → false ≡ true → A
false-true h = cc

to_decimal-full : (n : ℕ) → to_decimal n ≢ []
unfolding to_decimal
to_decimal-full zero e = absurd (cc)
to_decimal-full (suc n) e =
    let positive = to_decimal-positive (suc n) (omega arith) in
    absurd (false-true (sym (ap is_positive_integer e) ∙ positive))

cleaned-fraction :
    (c d : ℕ)
    → is_digit c ≡ true
    → is_digit d ≡ true
    → cleaned (b'.' ∷ c ∷ d ∷ []) ≡ b'.' ∷ c ∷ d ∷ []
cleaned-fraction c d hc hd = rw (digit-plain c hc, digit-plain d hd) refl

at_point-displayed :
    (l : Locale) (ds : Text) (c d : ℕ)
    → all_digits ds ≡ true
    → is_digit c ≡ true
    → is_digit d ≡ true
    → at_point (cleaned (grouped l ds ++ b'.' ∷ c ∷ d ∷ [])) ≡ (ds, some (c ∷ d ∷ []))
at_point-displayed l ds c d h hc hd =
    ap at_point
      (cleaned-grouped l ds (b'.' ∷ c ∷ d ∷ []) h ∙ ap (λ t. ds ++ t) (cleaned-fraction c d hc hd))
    ∙ at_point-digits ds (c ∷ d ∷ []) h

minor_digits-two :
    (c d : ℕ)
    → is_digit c ≡ true
    → is_digit d ≡ true
    → minor_digits (some (c ∷ d ∷ [])) ≡ some (c ∷ d ∷ [])
minor_digits-two c d hc hd = rw (hc, hd) refl

value-of :
    (parts : Text × Option Text) (m c d : ℕ)
    → is_digit c ≡ true
    → is_digit d ≡ true
    → parts ≡ (to_decimal m, some (c ∷ d ∷ []))
    → minor_value (major_digits parts.0) (minor_digits parts.1)
      ≡ some (m * 100 + digits_value 0 (c ∷ d ∷ []))
value-of parts m c d hc hd e =
    ap (λ (p : Text × Option Text). minor_value (major_digits p.0) (minor_digits p.1)) e
    ∙ rw (major_digits-kept (to_decimal m) (to_decimal-full m) (to_decimal-digits m))
        (rw (minor_digits-two c d hc hd) (rw (digits_value-to_decimal m) refl))

parse-parts :
    (l : Locale) (m c d : ℕ)
    → is_digit c ≡ true
    → is_digit d ≡ true
    → parse_major_to_minor (grouped l (to_decimal m) ++ b'.' ∷ c ∷ d ∷ [])
      ≡ positive_text (some (m * 100 + digits_value 0 (c ∷ d ∷ [])))
unfolding parse_major_to_minor
parse-parts l m c d hc hd =
    ap positive_text
      (value-of _ m c d hc hd (at_point-displayed l (to_decimal m) c d (to_decimal-digits m) hc hd))

positive_text-of : (k n : ℕ) → k ≡ n → 0 < n → positive_text (some k) ≡ some (to_decimal n)
positive_text-of k n e p = rw (e, ltb-true n p) refl

parse-displayed :
    (l : Locale) (m n : ℕ) (fraction : Text)
    → 0 < n
    → m * 100 + digits_value 0 fraction ≡ n
    → (c d : ℕ) × (fraction ≡ c ∷ d ∷ []) × (is_digit c ≡ true) × (is_digit d ≡ true)
    → parse_major_to_minor (grouped l (to_decimal m) ++ b'.' ∷ fraction) ≡ some (to_decimal n)
parse-displayed l m n fraction p value (c, d, two, hc, hd) =
    ap (λ f. parse_major_to_minor (grouped l (to_decimal m) ++ b'.' ∷ f)) two
    ∙ parse-parts l m c d hc hd
    ∙ positive_text-of (m * 100 + digits_value 0 (c ∷ d ∷ [])) n
        (sym (ap (λ f. m * 100 + digits_value 0 f) two) ∙ value) p

parse_major_to_minor-format_digits :
    (n : ℕ) (currency : Text)
    → 0 < n
    → parse_major_to_minor (format_digits (to_decimal n) currency) ≡ some (to_decimal n)
unfolding format_digits
parse_major_to_minor-format_digits n currency p =
    let digits = to_decimal n in
    let long = pad_start-length digits in
    parse-displayed (locale_of currency) (digits_value 0 (major_part (pad_start digits))) n
      (minor_part (pad_start digits)) p
      (sym (digits_value-parts 0 (pad_start digits) (omega (arith, long)))
        ∙ pad_start-value digits
        ∙ digits_value-to_decimal n)
      (minor_part-two (pad_start digits) (omega (arith, long))
        (pad_start-digits digits (to_decimal-digits n)))

format_minor-digits :
    (t currency : Text)
    → all_digits t ≡ true
    → format_minor t currency ≡ symbol_of currency ++ format_digits t currency
unfolding format_minor
format_minor-digits [] currency h = refl
format_minor-digits (c ∷ cs) currency h =
    rw (digit-minus c (&&-true (is_digit c) (all_digits cs) h).0) refl

-- A positive amount of minor units is displayed as the symbol and a text that the money forms read
-- back as the same amount, and the negative amount as a minus sign before these two, whatever the
-- currency is and whichever way its digits are grouped.
pub format_minor-parse :
    (n : ℕ) (currency : Text)
    → 0 < n
    → (shown : Text) × (format_minor (to_decimal n) currency ≡ symbol_of currency ++ shown)
      × (format_minor (b'-' ∷ to_decimal n) currency ≡ 0x2212 ∷ symbol_of currency ++ shown)
      × (parse_major_to_minor shown ≡ some (to_decimal n))
unfolding format_minor
format_minor-parse n currency p = (
  format_digits (to_decimal n) currency,
  format_minor-digits (to_decimal n) currency (to_decimal-digits n),
  refl,
  parse_major_to_minor-format_digits n currency p,
)
