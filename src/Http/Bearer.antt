-- ===== src/Http/Bearer.antt =====
-- `extractBearerToken`, src/infrastructure/http/api-key-auth.ts.
use pulse_ledger.Base.{
  ℕ, ◌≡◌, ◌≢◌, refl, Bool, true, false, not, ◌&&◌, ◌||◌, Option, none, some, [], ◌∷◌, ◌++◌, arith,
  leb, ◌==◌, if◌then◌else◌, All,
}
use pulse_ledger.Base.Decimal.{Text}
use pulse_ledger.Base.Trim.{trim_by, drop_ending_spaces-kept, trim_by-kept}
use pulse_ledger.Auth.Service.{strip_prefix}

-- The white space that a header's text, which is Latin-1, can hold.
abbrev pub is_space : ℕ → Bool
is_space c = leb 9 c && leb c 13 || c == 32 || c == 160

-- `text.trim()`
unfoldable pub trim : Text → Text
unfolding trim_by
trim = trim_by is_space

-- What `.` matches: no line terminator.
abbrev pub on_one_line : Text → Bool
on_one_line [] = true
on_one_line (c ∷ cs) = not (c == 10) && not (c == 13) && on_one_line cs

-- `text || null`
abbrev pub or_null : Text → Option Text
or_null [] = none
or_null (c ∷ cs) = some (c ∷ cs)

-- `Bearer `, with its space.
abbrev pub bearer_prefix : Text
bearer_prefix = b'B' ∷ b'e' ∷ b'a' ∷ b'r' ∷ b'e' ∷ b'r' ∷ 32 ∷ []

-- `match?.[1]?.trim() || null` on what follows the prefix.
abbrev pub bearer_group : Text → Option Text
bearer_group [] = none
bearer_group (c ∷ cs) = if on_one_line (c ∷ cs) then or_null (trim (c ∷ cs)) else none

-- `extractBearerToken`; a header that is absent or repeated is `none`.
unfoldable pub extract_bearer_token : Option Text → Option Text
unfolding trim strip_prefix
extract_bearer_token none = none
extract_bearer_token (some header) = elim (strip_prefix bearer_prefix (trim header)) [
  | none ↦ none
  | some group ↦ bearer_group group
]

-- A credential as the clients send it: no white space, and something there.
abbrev pub IsCredential : Text → Type 0
IsCredential token = (token ≢ []) × All (λ c. is_space c ≡ false) token

trim-kept : (token : Text) → All (λ c. is_space c ≡ false) token → trim token ≡ token
unfolding trim
trim-kept token h = trim_by-kept is_space token h

on_one_line-kept : (token : Text) → All (λ c. is_space c ≡ false) token → on_one_line token ≡ true
on_one_line-kept [] h = refl
on_one_line-kept (c ∷ cs) (n, h) = ground (arith, on_one_line-kept cs h)

trim-bearer :
    (c : ℕ) (cs : Text)
    → All (λ d. is_space d ≡ false) (c ∷ cs)
    → trim (bearer_prefix ++ c ∷ cs) ≡ bearer_prefix ++ c ∷ cs
unfolding trim trim_by
trim-bearer c cs h = rw (drop_ending_spaces-kept is_space (c ∷ cs) h) refl

group-kept :
    (c : ℕ) (cs : Text)
    → All (λ d. is_space d ≡ false) (c ∷ cs)
    → bearer_group (c ∷ cs) ≡ some (c ∷ cs)
group-kept c cs h = rw (on_one_line-kept (c ∷ cs) h, trim-kept (c ∷ cs) h) refl

-- The server takes out of `Bearer <credential>` exactly the credential that the client put in, if
-- it is not empty and has no white space.
pub extract_bearer_token-bearer :
    (token : Text)
    → IsCredential token
    → extract_bearer_token (some (bearer_prefix ++ token)) ≡ some token
unfolding extract_bearer_token strip_prefix
extract_bearer_token-bearer [] (n, h) = absurd (n refl)
extract_bearer_token-bearer (c ∷ cs) (n, h) =
    rw (trim-bearer c cs h, extract_bearer_token) (group-kept c cs h)
