-- ===== src/Architecture/Rules.antt =====
-- The rules of the layers and the command: scripts/check-architecture.ts.
use pulse_ledger.Base.{
  ℕ, Bool, true, false, not, ◌&&◌, ◌||◌, Option, none, some, List, [], ◌∷◌, ◌++◌, if◌then◌else◌,
  length,
}
use Prim.Native.String.{String}
use pulse_ledger.Base.Decimal.{Text}
use pulse_ledger.Auth.Store.{same_text}
use pulse_ledger.Architecture.Paths.{
  FilePath, Entries, SourceFile, is_some, starts_with, ends_with, relative_name, feature_name,
  resolve_local_import, source_files,
}
use pulse_ledger.Architecture.Imports.{mentions, status_code_word, specifiers}

-- `-domain.ts`
abbrev pub domain_ending : Text
domain_ending = 45 ∷ b'd' ∷ b'o' ∷ b'm' ∷ b'a' ∷ b'i' ∷ b'n' ∷ 46 ∷ b't' ∷ b's' ∷ []

-- `-routes.ts`
abbrev pub routes_ending : Text
routes_ending = 45 ∷ b'r' ∷ b'o' ∷ b'u' ∷ b't' ∷ b'e' ∷ b's' ∷ 46 ∷ b't' ∷ b's' ∷ []

-- `-repository.ts`
abbrev pub repository_ending : Text
repository_ending =
    45 ∷ b'r' ∷ b'e' ∷ b'p' ∷ b'o' ∷ b's' ∷ b'i' ∷ b't' ∷ b'o' ∷ b'r' ∷ b'y' ∷ 46 ∷ b't' ∷ b's' ∷ []

-- `-service.ts`
abbrev pub service_ending : Text
service_ending = 45 ∷ b's' ∷ b'e' ∷ b'r' ∷ b'v' ∷ b'i' ∷ b'c' ∷ b'e' ∷ 46 ∷ b't' ∷ b's' ∷ []

-- `src/infrastructure/`
abbrev pub infrastructure_folder : Text
infrastructure_folder =
    b's' ∷ b'r' ∷ b'c' ∷ 47 ∷ b'i' ∷ b'n' ∷ b'f' ∷ b'r' ∷ b'a' ∷ b's' ∷ b't' ∷ b'r' ∷ b'u' ∷ b'c'
    ∷ b't' ∷ b'u' ∷ b'r' ∷ b'e' ∷ 47 ∷ []

-- `src/ports/`
abbrev pub ports_folder : Text
ports_folder = b's' ∷ b'r' ∷ b'c' ∷ 47 ∷ b'p' ∷ b'o' ∷ b'r' ∷ b't' ∷ b's' ∷ 47 ∷ []

-- `src`
abbrev pub source_folder : Text
source_folder = b's' ∷ b'r' ∷ b'c' ∷ []

-- A violation: the file by its relative name, the specifier and the reason.
pub record Violation : Type 0 where
  pub source : Text
  pub specifier : Text
  pub reason : String

-- `a !== b`, on values that may be undefined.
abbrev pub differs : Option Text → Option Text → Bool
differs none none = false
differs (some a) (some b) = not (same_text a b)
differs _ _ = true

-- `a && b && a !== b`; the name of a feature is not empty.
abbrev pub both_differ : Option Text → Option Text → Bool
both_differ (some a) (some b) = not (same_text a b)
both_differ _ _ = false

abbrev pub is_resolved : Option FilePath → Bool
is_resolved none = false
is_resolved (some file) = true

-- `if (condition) record(violations, …)`
abbrev pub when : Bool → Violation → List Violation
when true v = v ∷ []
when false v = []

-- The rules on an import that leads to a file, by the names and the features of the two.
unfoldable pub check_names :
    (String → Violation) → Text → Text → Option Text → Option Text → List Violation
unfolding starts_with ends_with
check_names note name target feature target_feature =
    when
      (ends_with domain_ending name
        && (ends_with routes_ending target
            || ends_with repository_ending target
            || ends_with service_ending target))
      (note "domain code cannot depend on adapters or services")
    ++ when (starts_with infrastructure_folder name && is_some target_feature)
        (note "shared infrastructure cannot depend on a feature")
    ++ when (both_differ feature target_feature && not (ends_with domain_ending target))
        (note "features may depend only on another feature's public domain contract")
    ++ when
        (starts_with ports_folder name
          && (is_some target_feature || starts_with infrastructure_folder target))
        (note "shared ports cannot depend on features or infrastructure")
    ++ when
        (ends_with routes_ending name
          && (starts_with infrastructure_folder target
              || ends_with repository_ending target
              || ends_with service_ending target))
        (note
          "HTTP adapters must use domain/application ports, not concrete services or persistence")
    ++ when
        (ends_with service_ending name
          && (starts_with infrastructure_folder target
              || ends_with repository_ending target
              || ends_with routes_ending target))
        (note "application services must depend on ports, not concrete adapters")
    ++ when
        (ends_with repository_ending name
          && (ends_with routes_ending target || ends_with service_ending target))
        (note "persistence adapters cannot depend on HTTP adapters or services")

module _ (root : FilePath) where
  -- `record`
  unfoldable pub record_violation : FilePath → Text → String → Violation
  record_violation source specifier reason = record {
    source = relative_name root source;
    specifier = specifier;
    reason = reason;
  }

  -- The feature of a file that may not be there.
  abbrev pub target_feature_of : Option FilePath → Option Text
  target_feature_of none = none
  target_feature_of (some target) = feature_name root target

  -- What is recorded of an import, by where it leads.
  unfoldable pub check_target : FilePath → Text → Option FilePath → List Violation
  unfolding record_violation check_names
  check_target source specifier target =
      let name = relative_name root source in
      let note = record_violation source specifier in
      if ends_with domain_ending name
        && (not (is_resolved target)
            || differs (target_feature_of target) (feature_name root source))
      then note "domain code may only import within its own feature" ∷ []
      else elim target [
        | none ↦ []
        | some file ↦
            check_names note name (relative_name root file) (feature_name root source)
              (feature_name root file)
      ]

  -- One round of the loop over the imports of a file.
  unfoldable pub check_import : FilePath → Text → List Violation
  unfolding check_target
  check_import source specifier =
      check_target source specifier (resolve_local_import source specifier)

  -- The loop over the imports of a file.
  abbrev pub check_imports : FilePath → List Text → List Violation
  check_imports source [] = []
  check_imports source (s ∷ ss) = check_import source s ++ check_imports source ss

  -- One round of the loop over the files.
  unfoldable pub check_file : SourceFile → List Violation
  check_file file =
      when
        (ends_with domain_ending (relative_name root file.path)
          && mentions false status_code_word file.contents)
        (record_violation file.path status_code_word "domain code cannot own HTTP status semantics")
      ++ check_imports file.path (specifiers 0 file.contents)

  abbrev pub check_files : List SourceFile → List Violation
  check_files [] = []
  check_files (f ∷ fs) = check_file f ++ check_files fs

-- What the command prints, with its exit code.
pub data Verdict : Type 0 where
  boundary_violations : List Violation → Verdict
  boundaries_valid : ℕ → Verdict

abbrev pub exit_code : Verdict → ℕ
exit_code (boundary_violations vs) = 1
exit_code (boundaries_valid n) = 0

abbrev pub verdict : ℕ → List Violation → Verdict
verdict n [] = boundaries_valid n
verdict n (v ∷ vs) = boundary_violations (v ∷ vs)

-- The command, on what the source folder of a repository holds.
unfoldable pub check_architecture : FilePath → Entries → Verdict
check_architecture root entries =
    let files = source_files (root ++ source_folder ∷ []) entries in
    verdict (length files) (check_files root files)
