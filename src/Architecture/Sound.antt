-- ===== src/Architecture/Sound.antt =====
-- What the check of scripts/check-architecture.ts promises of the files and imports that are there.
use pulse_ledger.Base.{◌≡◌, ◌≢◌, ◌⊎◌, Bool, true, false, some, List, [], ◌∷◌, ◌++◌, ◌==◌, All}
use pulse_ledger.Base.Decimal.{Text}
use pulse_ledger.Architecture.Paths.{FilePath, slash, relative_name, resolve_local_import}
use pulse_ledger.Architecture.Imports.{status_code_word, is_word, goes_on}
use pulse_ledger.Architecture.Rules.{source_folder}
use pulse_ledger.Architecture.Layers.{in_layer, domain}
use pulse_ledger.Architecture.Header.{Header}

-- The last character of a text is one of a word; the first argument says it of the text before.
abbrev pub ends_in_word : Bool → Text → Bool
ends_in_word inside [] = inside
ends_in_word inside (c ∷ cs) = ends_in_word (is_word c) cs

-- `statusCode` stands in a text, and is no part of a longer word there.
abbrev pub HasStatusCode : Text → Type 0
HasStatusCode contents =
    (before after : Text) × (contents ≡ before ++ (status_code_word ++ after))
    × (ends_in_word false before ≡ false)
    × (goes_on after ≡ false)

-- The name of a feature's folder.
abbrev pub IsName : Text → Type 0
IsName f = (f ≢ []) × All (λ c. (c == slash) ≡ false) f

abbrev pub modules_name : Text
modules_name = b'm' ∷ b'o' ∷ b'd' ∷ b'u' ∷ b'l' ∷ b'e' ∷ b's' ∷ []

-- A file of a feature lies, at any depth, in the feature's folder under `src/modules`.
abbrev pub InFeature : FilePath → FilePath → Text → Type 0
InFeature root path f =
    IsName f
    × ((file : Text) × (more : List Text) × (path
          ≡ root ++ source_folder ∷ modules_name ∷ f ∷ file ∷ more))

-- An import that leads from a feature to another one leads to a domain file.
abbrev pub IsApart : FilePath → FilePath → Text → Type 0
IsApart root path s =
    (f g : Text) (target : FilePath)
    → InFeature root path f
    → resolve_local_import path s ≡ some target
    → InFeature root target g
    → (f ≡ g) ⊎ (in_layer domain (relative_name root target) ≡ true)
