-- ===== src/Architecture/Paths.antt =====
-- Files, their names and where an import leads: the file helpers of scripts/check-architecture.ts.
use pulse_ledger.Base.{
  ℕ, Bool, true, false, ◌||◌, Option, none, some, List, [], ◌∷◌, ◌++◌, map, ◌==◌, if◌then◌else◌,
}
use pulse_ledger.Base.Decimal.{Text}
use pulse_ledger.Auth.Store.{same_text}
use pulse_ledger.Auth.Service.{strip_prefix}
use pulse_ledger.Http.Bearer.{or_null}

-- An absolute path, by its segments.
abbrev pub FilePath : Type 0
FilePath = List Text

-- `/`
abbrev pub slash : ℕ
slash = 47

-- `.`
abbrev pub same_directory : Text
same_directory = 46 ∷ []

-- `..`
abbrev pub parent_directory : Text
parent_directory = 46 ∷ 46 ∷ []

-- `.ts`
abbrev pub ts_ending : Text
ts_ending = 46 ∷ b't' ∷ b's' ∷ []

-- `.js`
abbrev pub js_ending : Text
js_ending = 46 ∷ b'j' ∷ b's' ∷ []

-- `src/modules/`
abbrev pub modules_folder : Text
modules_folder = b's' ∷ b'r' ∷ b'c' ∷ 47 ∷ b'm' ∷ b'o' ∷ b'd' ∷ b'u' ∷ b'l' ∷ b'e' ∷ b's' ∷ 47 ∷ []

abbrev pub is_some : Option Text → Bool
is_some none = false
is_some (some t) = true

-- `text.startsWith(prefix)`
unfoldable pub starts_with : Text → Text → Bool
unfolding strip_prefix
starts_with prefix text = is_some (strip_prefix prefix text)

-- `text.endsWith(ending)`
unfoldable pub ends_with : Text → Text → Bool
ends_with ending [] = same_text ending []
ends_with ending (c ∷ cs) = same_text ending (c ∷ cs) || ends_with ending cs

-- `text.slice(0, -3)`
abbrev pub drop_last_three : Text → Text
drop_last_three (c ∷ d ∷ e ∷ f ∷ cs) = c ∷ drop_last_three (d ∷ e ∷ f ∷ cs)
drop_last_three _ = []

abbrev pub before_first : ℕ → List Text → List Text
before_first c [] = (c ∷ []) ∷ []
before_first c (s ∷ ss) = (c ∷ s) ∷ ss

-- `text.split('/')`
unfoldable pub segments : Text → List Text
segments [] = [] ∷ []
segments (c ∷ cs) = let rest = segments cs in if c == slash then [] ∷ rest else before_first c rest

-- `segments.join('/')`
abbrev pub join_segments : List Text → Text
join_segments [] = []
join_segments (s ∷ []) = s
join_segments (s ∷ t ∷ ss) = s ++ slash ∷ join_segments (t ∷ ss)

-- `path.dirname(file)`
abbrev pub dirname : FilePath → FilePath
dirname [] = []
dirname (s ∷ []) = []
dirname (s ∷ t ∷ ss) = s ∷ dirname (t ∷ ss)

-- One segment of a relative path, from a directory.
abbrev pub enter : FilePath → Text → FilePath
enter directory s =
    if same_text s [] || same_text s same_directory
    then directory
    else if same_text s parent_directory
    then dirname directory
    else directory ++ s ∷ []

-- `path.resolve(directory, specifier)` for a relative specifier.
unfoldable pub resolve_path : FilePath → List Text → FilePath
resolve_path directory [] = directory
resolve_path directory (s ∷ ss) = resolve_path (enter directory s) ss

-- `path.relative(from, to)`
abbrev pub relative : FilePath → FilePath → List Text
relative [] to = to
relative (f ∷ fs) [] = map (λ s. parent_directory) (f ∷ fs)
relative (f ∷ fs) (t ∷ ts) =
    let rest = relative fs ts in
    if same_text f t then rest else map (λ s. parent_directory) (f ∷ fs) ++ t ∷ ts

-- A path that ends in `.js`, with `.ts` in its place; the ending lies in the last segment.
abbrev pub as_source : FilePath → FilePath
as_source [] = []
as_source (s ∷ []) = (if ends_with js_ending s then drop_last_three s ++ ts_ending else s) ∷ []
as_source (s ∷ t ∷ ss) = s ∷ as_source (t ∷ ss)

-- The text before the first `/`, if there is one.
abbrev pub before_slash : Text → Option Text
before_slash [] = none
before_slash (c ∷ cs) =
    if c == slash
    then some []
    else elim (before_slash cs) [ none ↦ none | some name ↦ some (c ∷ name) ]

abbrev pub first_group : Option Text → Option Text
first_group none = none
first_group (some name) = or_null name

-- `/^src\/modules\/([^/]+)\//`, on a relative name.
abbrev pub feature_group : Option Text → Option Text
feature_group none = none
feature_group (some rest) = first_group (before_slash rest)

module _ (root : FilePath) where
  -- `relativeName`
  unfoldable pub relative_name : FilePath → Text
  relative_name file = join_segments (relative root file)

  -- `featureName`
  unfoldable pub feature_name : FilePath → Option Text
  unfolding strip_prefix relative_name
  feature_name file = feature_group (strip_prefix modules_folder (relative_name file))

-- `resolveLocalImport`
unfoldable pub resolve_local_import : FilePath → Text → Option FilePath
unfolding starts_with resolve_path segments ends_with
resolve_local_import source specifier =
    if starts_with same_directory specifier
    then some (as_source (resolve_path (dirname source) (segments specifier)))
    else none

-- What a directory holds, in the order it is read.
pub data Entries : Type 0 where
  no_entries : Entries
  file_entry : Text → Text → Entries → Entries
  directory_entry : Text → Entries → Entries → Entries

-- A file: where it is, and its text.
pub record SourceFile : Type 0 where
  pub path : FilePath
  pub contents : Text

-- `sourceFiles`
unfoldable pub source_files : FilePath → Entries → List SourceFile
unfolding ends_with
source_files directory no_entries = []
source_files directory (file_entry name contents rest) =
    let others = source_files directory rest in
    if ends_with ts_ending name
    then record { path = directory ++ name ∷ []; contents = contents } ∷ others
    else others
source_files directory (directory_entry name inside rest) =
    source_files (directory ++ name ∷ []) inside ++ source_files directory rest
