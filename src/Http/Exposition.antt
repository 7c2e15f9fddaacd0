-- ===== src/Http/Exposition.antt =====
-- A scraper reads the labels of src/infrastructure/http/metrics.ts back.
use pulse_ledger.Base.{
  ℕ, ◌≡◌, refl, ap, Bool, true, false, Option, none, some, [], ◌∷◌, ◌++◌, arith, ◌==◌,
  if◌then◌else◌, All, Bool-cases, inl, inr,
}
use pulse_ledger.Base.Decimal.{Text}
use pulse_ledger.Http.Metrics.{escape, render_label}

-- A label's value as the exposition format has it, up to its closing quote: the value, and what
-- follows. The flag says that a backslash came before.
abbrev pub prefixed : ℕ → Option (Text × Text) → Option (Text × Text)
prefixed c none = none
prefixed c (some (value, rest)) = some (c ∷ value, rest)

abbrev pub unescaped : ℕ → ℕ
unescaped c = if c == b'n' then 10 else c

abbrev pub read_value : Bool → Text → Option (Text × Text)
read_value escaped [] = none
read_value true (c ∷ cs) = prefixed (unescaped c) (read_value false cs)
read_value false (c ∷ cs) =
    let plain = read_value false cs in
    let after = read_value true cs in
    if c == 34 then some ([], cs) else if c == 92 then after else prefixed c plain

-- A label: its key up to the equals sign, and its value.
abbrev pub keyed : Text → Option (Text × Text) → Option ((Text × Text) × Text)
keyed key none = none
keyed key (some (value, rest)) = some ((key, value), rest)

abbrev pub read_quoted : Text → Text → Option ((Text × Text) × Text)
read_quoted key [] = none
read_quoted key (c ∷ cs) = if c == 34 then keyed key (read_value false cs) else none

abbrev pub longer : ℕ → Option ((Text × Text) × Text) → Option ((Text × Text) × Text)
longer c none = none
longer c (some ((key, value), rest)) = some ((c ∷ key, value), rest)

abbrev pub read_label : Text → Option ((Text × Text) × Text)
read_label [] = none
read_label (c ∷ cs) =
    let more = read_label cs in if c == b'=' then read_quoted [] cs else longer c more

-- What `escape` makes of one character.
abbrev escaped_char : ℕ → Text
escaped_char c =
    if c == 92
    then 92 ∷ 92 ∷ []
    else if c == 34
    then 92 ∷ 34 ∷ []
    else if c == 10
    then 92 ∷ b'n' ∷ []
    else c ∷ []

escape-cons : (c : ℕ) (cs : Text) → escape (c ∷ cs) ≡ escaped_char c ++ escape cs
unfolding escape
escape-cons c cs = elim (Bool-cases (c == 92)) [
  | inl y ↦ rw y refl
  | inr n ↦ elim (Bool-cases (c == 34)) [
    | inl y ↦ rw (n, y) refl
    | inr m ↦ elim (Bool-cases (c == 10)) [ inl y ↦ rw (n, m, y) refl | inr k ↦ rw (n, m, k) refl ]
  ]
]

same : (c d : ℕ) → (c == d) ≡ true → c ≡ d
same c d h = ground arith

read_char :
    (c : ℕ) (x value rest : Text)
    → read_value false x ≡ some (value, rest)
    → read_value false (escaped_char c ++ x) ≡ some (c ∷ value, rest)
read_char c x value rest h = elim (Bool-cases (c == 92)) [
  | inl y ↦ rw (same c 92 y, h) refl
  | inr n ↦ elim (Bool-cases (c == 34)) [
    | inl y ↦ rw (same c 34 y, h) refl
    | inr m ↦ elim (Bool-cases (c == 10)) [
      | inl y ↦ rw (same c 10 y, h) refl
      | inr k ↦ rw (n, m, k) (rw (n, m, h) refl)
    ]
  ]
]

append_assoc : (xs ys zs : Text) → (xs ++ ys) ++ zs ≡ xs ++ (ys ++ zs)
append_assoc [] ys zs = refl
append_assoc (x ∷ xs) ys zs = ap (λ t. x ∷ t) (append_assoc xs ys zs)

read_value-escape :
    (value rest : Text) → read_value false (escape value ++ 34 ∷ rest) ≡ some (value, rest)
unfolding escape
read_value-escape [] rest = refl
read_value-escape (c ∷ cs) rest =
    rw (escape-cons c cs, append_assoc (escaped_char c) (escape cs) (34 ∷ rest))
      (read_char c (escape cs ++ 34 ∷ rest) cs rest (read_value-escape cs rest))

-- A scraper reads a rendered label back, whatever characters its value has, quotes, backslashes and
-- line ends among them, and whatever follows it, if the key has no equals sign.
pub read_label-render_label :
    (key value rest : Text)
    → All (λ c. (c == b'=') ≡ false) key
    → read_label (render_label (key, value) ++ rest) ≡ some ((key, value), rest)
unfolding render_label
read_label-render_label [] value rest h =
    rw (append_assoc (escape value) (34 ∷ []) rest, read_value-escape value rest) refl
read_label-render_label (c ∷ key) value rest (n, h) =
    rw (n, read_label-render_label key value rest h) refl
