-- ===== src/Architecture/Imports.antt =====
-- What a source file says: `importPattern` and `/\bstatusCode\b/` of scripts/check-architecture.ts.
use pulse_ledger.Base.{
  ℕ, zero, suc, ◌+◌, Bool, true, false, not, ◌&&◌, ◌||◌, Option, none, some, List, [], ◌∷◌, leb,
  ◌==◌, if◌then◌else◌, length,
}
use pulse_ledger.Base.Decimal.{Text, is_digit}
use pulse_ledger.Base.Trim.{is_white, drop_spaces, drop_ending_spaces}
use pulse_ledger.Auth.Store.{same_text}
use pulse_ledger.Auth.Service.{strip_prefix}
use pulse_ledger.Architecture.Paths.{ends_with}

-- `import`
abbrev pub import_word : Text
import_word = b'i' ∷ b'm' ∷ b'p' ∷ b'o' ∷ b'r' ∷ b't' ∷ []

-- `export`
abbrev pub export_word : Text
export_word = b'e' ∷ b'x' ∷ b'p' ∷ b'o' ∷ b'r' ∷ b't' ∷ []

-- `type`
abbrev pub type_word : Text
type_word = b't' ∷ b'y' ∷ b'p' ∷ b'e' ∷ []

-- `from`
abbrev pub from_word : Text
from_word = b'f' ∷ b'r' ∷ b'o' ∷ b'm' ∷ []

-- `statusCode`
abbrev pub status_code_word : Text
status_code_word = b's' ∷ b't' ∷ b'a' ∷ b't' ∷ b'u' ∷ b's' ∷ b'C' ∷ b'o' ∷ b'd' ∷ b'e' ∷ []

-- `\w`
abbrev pub is_word : ℕ → Bool
is_word c = is_digit c || leb b'A' c && leb c b'Z' || leb b'a' c && leb c b'z' || c == 95

-- The text goes on with a word character.
abbrev pub goes_on : Text → Bool
goes_on [] = false
goes_on (c ∷ cs) = is_word c

abbrev pub ends_there : Option Text → Bool
ends_there none = false
ends_there (some rest) = not (goes_on rest)

-- `/\bword\b/`; the first argument says whether a word character comes before.
unfoldable pub mentions : Bool → Text → Text → Bool
unfolding strip_prefix
mentions inside word [] = false
mentions inside word (c ∷ cs) =
    not inside && ends_there (strip_prefix word (c ∷ cs)) || mentions (is_word c) word cs

-- `['"]`
abbrev pub is_quote : ℕ → Bool
is_quote c = c == 39 || c == 34

-- `[^'";]`
abbrev pub is_clause : ℕ → Bool
is_clause c = not (is_quote c) && not (c == 59)

-- The longest beginning whose characters meet a test, and the rest.
module _ (p : ℕ → Bool) where
  abbrev pub taken : Text → Text
  taken [] = []
  taken (c ∷ cs) = let rest = taken cs in if p c then c ∷ rest else []

  abbrev pub left : Text → Text
  left [] = []
  left (c ∷ cs) = let rest = left cs in if p c then rest else c ∷ cs

abbrev pub begins_white : Text → Bool
begins_white [] = false
begins_white (c ∷ cs) = is_white c

abbrev pub ends_white : Text → Bool
ends_white [] = false
ends_white (c ∷ []) = is_white c
ends_white (c ∷ d ∷ cs) = ends_white (d ∷ cs)

-- At least three characters, white at both ends: `\s+[^'";]+?\s+`.
abbrev pub is_padded : Text → Bool
is_padded text = begins_white text && ends_white text && leb 3 (length text)

abbrev pub drop_last_four : Text → Text
drop_last_four (c ∷ d ∷ e ∷ f ∷ g ∷ cs) = c ∷ drop_last_four (d ∷ e ∷ f ∷ g ∷ cs)
drop_last_four _ = []

-- `\s+(?:type\s+)?(?:[^'";]+?\s+from\s+)?`, all of it: white space, with `type` and white space
-- after it, or a padded text that `from` and white space follow. A `type` before a padded text is
-- a part of that text.
unfoldable pub is_import_clause : Text → Bool
unfolding ends_with
is_import_clause text =
    let body = drop_ending_spaces is_white text in
    begins_white text
    && ends_white text
    && (same_text body []
        || same_text (drop_spaces is_white body) type_word
        || ends_with from_word body && is_padded (drop_last_four body))

-- `['"]([^'"]+)['"]` at the start of a text.
abbrev pub quoted : Text → Option Text
quoted [] = none
quoted (c ∷ cs) = elim (is_quote c) [
  | false ↦ none
  | true ↦ elim (taken (λ d. not (is_quote d)) cs) [
    | [] ↦ none
    | d ∷ ds ↦ elim (left (λ d. not (is_quote d)) cs) [ [] ↦ none | q ∷ rest ↦ some (d ∷ ds) ]
  ]
]

-- The keyword that a text starts with, as the text after it.
abbrev pub after_keyword : Text → Option Text
after_keyword text = elim (strip_prefix import_word text) [
  | some rest ↦ some rest
  | none ↦ strip_prefix export_word text
]

-- `importPattern` at the start of a text: the specifier, and how long the match is after its first
-- character.
unfoldable pub import_at : Text → Option (Text × ℕ)
unfolding strip_prefix is_import_clause
import_at text = elim (after_keyword text) [
  | none ↦ none
  | some rest ↦ elim (quoted (left is_clause rest)) [
    | none ↦ none
    | some specifier ↦
        if is_import_clause (taken is_clause rest)
        then some (specifier, length (taken is_clause rest) + length specifier + 7)
        else none
  ]
]

-- `contents.matchAll(importPattern)`, as the specifiers; the number is what is left of a match.
unfoldable pub specifiers : ℕ → Text → List Text
unfolding import_at
specifiers n [] = []
specifiers (suc n) (c ∷ cs) = specifiers n cs
specifiers zero (c ∷ cs) = elim (import_at (c ∷ cs)) [
  | none ↦ specifiers zero cs
  | some (specifier, n) ↦ specifier ∷ specifiers n cs
]
