-- ===== src/Operations/Arguments.antt =====
-- The arguments of a command, and the positive integers that the commands and src/config.ts read.
use pulse_ledger.Base.{
  ℕ, ◌≤◌, ◌≡◌, refl, Bool, false, ◌||◌, Option, none, some, List, [], ◌∷◌, arith, ltb,
  if◌then◌else◌,
}
use pulse_ledger.Base.Int.{ℤ, pos, negsuc}
use pulse_ledger.Base.Decimal.{Text}
use pulse_ledger.Errors.{Failure, unexpected_error, Result, ok, err}
use pulse_ledger.Auth.Store.{same_text}

-- What `Number(text)` can be, as far as `Number.isInteger` tells it apart.
pub data JsNumber : Type 0 where
  integer : ℤ → JsNumber
  no_integer : JsNumber

-- A text with what `Number` makes of it, and the identifier that it stands for.
pub record Argument : Type 0 where
  pub text : Text
  pub number : JsNumber
  pub id : ℕ

-- `!Number.isInteger(value) || value < 1`, and the value otherwise.
unfoldable pub positive_integer : JsNumber → Option ℕ
positive_integer (integer (pos n)) = if ltb n 1 then none else some n
positive_integer (integer (negsuc n)) = none
positive_integer no_integer = none

pub positive_integer-pos : (n : JsNumber) (m : ℕ) → positive_integer n ≡ some m → 1 ≤ m
unfolding positive_integer
positive_integer-pos (integer (pos n)) m h = ground arith
positive_integer-pos (integer (negsuc n)) m h = cc
positive_integer-pos no_integer m h = cc

-- `args[args.indexOf(name) + 1]`: absent, the name without a value, or a value.
pub data Found : Type 0 where
  absent : Found
  bare : Found
  value : Argument → Found

abbrev pub following : List Argument → Found
following [] = bare
following (a ∷ rest) = value a

abbrev pub option_value : Text → List Argument → Found
option_value name [] = absent
option_value name (a ∷ rest) =
    let later = option_value name rest in if same_text a.text name then following rest else later

abbrev pub includes : Text → List Argument → Bool
includes name [] = false
includes name (a ∷ rest) = same_text a.text name || includes name rest

abbrev pub must_be_positive : Failure
must_be_positive = unexpected_error "must be a positive integer"

abbrev pub or_invalid : Option ℕ → Result ℕ
or_invalid none = err must_be_positive
or_invalid (some n) = ok n

-- `readOption`, and `readLimit`, with the name of the option as its text has it.
unfoldable pub read_option : List Argument → Text → ℕ → Result ℕ
unfolding positive_integer
read_option args name fallback = elim (option_value name args) [
  | absent ↦ ok fallback
  | bare ↦ err must_be_positive
  | value a ↦ or_invalid (positive_integer a.number)
]

-- An option that is read is a positive integer, if its fallback is.
pub read_option-pos :
    (args : List Argument) (name : Text) (fallback n : ℕ)
    → 1 ≤ fallback
    → read_option args name fallback ≡ ok n
    → 1 ≤ n
unfolding read_option
read_option-pos args name fallback n p h = by_found (option_value name args) h
  where
    by_found :
        (f : Found)
        → (elim f [
          | absent ↦ ok fallback
          | bare ↦ err must_be_positive
          | value a ↦ or_invalid (positive_integer a.number)
        ])
          ≡ ok n
        → 1 ≤ n
    by_found absent e = ground arith
    by_found bare e = cc
    by_found (value a) e = by_number (positive_integer a.number) refl e
      where
        by_number : (m : Option ℕ) → positive_integer a.number ≡ m → or_invalid m ≡ ok n → 1 ≤ n
        by_number none k z = cc
        by_number (some m) k z = ground (arith, positive_integer-pos a.number m k)
