-- ===== src/Architecture/Layered.antt =====
-- That the command of scripts/check-architecture.ts accepts the trees whose files, as it finds
-- them, are layered, and no others.
use pulse_ledger.Base.{
  ◌≡◌, refl, sym, ℕ, Bool, true, false, ◌&&◌, ◌↔◌, inl, inr, Option, none, some, List, [], ◌∷◌,
  ◌++◌, arith, Bool-cases, All, length, if◌then◌else◌,
}
use pulse_ledger.Base.Decimal.{Text}
use pulse_ledger.Architecture.Paths.{
  FilePath, Entries, SourceFile, ends_with, relative_name, feature_name, resolve_local_import,
  source_files,
}
use pulse_ledger.Architecture.Imports.{mentions, status_code_word, specifiers}
use pulse_ledger.Architecture.Rules.{
  Violation, source_folder, check_target, check_names, differs, domain_ending, check_import,
  check_imports, check_file, check_files, verdict, exit_code, check_architecture, record_violation,
}
use pulse_ledger.Architecture.Layers.{
  in_layer, domain, MayImport, check_names-IsQuiet, IsQuiet-MayImport, MayImport-IsQuiet,
  differs-eq, and-intro, ++-empty, when-empty,
}

if_empty :
    (b : Bool) (v : Violation) (rest : List Violation)
    → ((if b then v ∷ [] else rest) ≡ []) ↔ ((b ≡ false) × (rest ≡ []))
if_empty true v rest = (λ h. cc, λ h. cc)
if_empty false v rest = (λ h. (refl, h), λ h. h.1)

some-injective {ℓ} : {A : Type ℓ} {a b : A} → some a ≡ some b → a ≡ b
some-injective h = cc

none-some {ℓ κ} : {A : Type ℓ} {B : Type κ} (a : A) → none ≡ some a → B
none-some a h = cc

module _ (root : FilePath) where
  -- An import, by where it leads: from a domain file it leads to a file of the same feature, and
  -- where it leads to a file, the layers of the two allow it.
  abbrev pub IsLayeredTarget : FilePath → Option FilePath → Type 0
  IsLayeredTarget source target =
      (in_layer domain (relative_name root source) ≡ true
        → (file : FilePath) × (target ≡ some file)
          × (feature_name root file ≡ feature_name root source))
      × ((file : FilePath)
          → target ≡ some file
          → MayImport (relative_name root source) (relative_name root file)
              (feature_name root source) (feature_name root file))

  abbrev pub IsLayeredImport : FilePath → Text → Type 0
  IsLayeredImport source specifier = IsLayeredTarget source (resolve_local_import source specifier)

  -- A file: a domain file names no HTTP status, and every import is allowed.
  abbrev pub IsLayered : SourceFile → Type 0
  IsLayered file =
      (in_layer domain (relative_name root file.path) ≡ true
        → mentions false status_code_word file.contents ≡ false)
      × All (IsLayeredImport file.path) (specifiers 0 file.contents)

  same_feature :
      (source file : FilePath)
      → (other : FilePath) × (some file ≡ some other)
        × (feature_name root other ≡ feature_name root source)
      → feature_name root file ≡ feature_name root source
  same_feature source file (other, e, f) = rw (some-injective e) f

  check_target-none :
      (source : FilePath) (specifier : Text)
      → (check_target root source specifier none ≡ [])
        ↔ (in_layer domain (relative_name root source) ≡ false)
  unfolding check_target in_layer
  check_target-none source specifier =
      elim (Bool-cases (ends_with domain_ending (relative_name root source))) [
        | inl d ↦ rw d (λ h. cc, λ h. cc)
        | inr d ↦ rw d (λ h. refl, λ h. refl)
      ]

  check_target-some :
      (source : FilePath) (specifier : Text) (file : FilePath)
      → (check_target root source specifier (some file) ≡ []) ↔ (
          ((in_layer domain (relative_name root source)
              && differs (feature_name root file) (feature_name root source))
            ≡ false)
          × (check_names
                (record_violation root source specifier)
                (relative_name root source)
                (relative_name root file)
                (feature_name root source)
                (feature_name root file)
              ≡ []))
  unfolding check_target in_layer
  check_target-some source specifier file = if_empty _ _ _

  check_target-IsLayeredTarget :
      (source : FilePath) (specifier : Text) (target : Option FilePath)
      → check_target root source specifier target ≡ []
      → IsLayeredTarget source target
  check_target-IsLayeredTarget source specifier none h =
      let d = (check_target-none source specifier).0 h in (λ p. ground (arith, d, p), λ file e. cc)
  check_target-IsLayeredTarget source specifier (some file) h =
      let both = (check_target-some source specifier file).0 h in
      let allowed = IsQuiet-MayImport _ _ _ _ ((check_names-IsQuiet _ _ _ _ _).0 both.1) in
      (
        λ p. (file, refl, (differs-eq _ _).0 (ground (arith, p, both.0))),
        λ other e. rw (sym (some-injective e)) allowed,
      )

  IsLayeredTarget-check_target :
      (source : FilePath) (specifier : Text) (target : Option FilePath)
      → IsLayeredTarget source target
      → check_target root source specifier target ≡ []
  IsLayeredTarget-check_target source specifier none h =
      (check_target-none source specifier).1
        (elim (Bool-cases (in_layer domain (relative_name root source))) [
          | inl d ↦ none-some (h.0 d).0 (h.0 d).1
          | inr d ↦ d
        ])
  IsLayeredTarget-check_target source specifier (some file) h =
      (check_target-some source specifier file).1 (
        and-intro _ _ (λ d. (differs-eq _ _).1 (same_feature source file (h.0 d))),
        (check_names-IsQuiet _ _ _ _ _).1 (MayImport-IsQuiet _ _ _ _ (h.1 file refl)),
      )

  check_imports-All :
      (source : FilePath) (specifiers : List Text)
      → (check_imports root source specifiers ≡ []) ↔ All (IsLayeredImport source) specifiers
  unfolding check_import
  check_imports-All source [] = (λ h. tt, λ h. refl)
  check_imports-All source (s ∷ ss) =
      let rest = check_imports-All source ss in
      let split = ++-empty (check_import root source s) (check_imports root source ss) in
      (
        λ h. (check_target-IsLayeredTarget source s _ (split.0 h).0, rest.0 (split.0 h).1),
        λ h. split.1 (IsLayeredTarget-check_target source s _ h.0, rest.1 h.1),
      )

  check_file-IsLayered : (file : SourceFile) → (check_file root file ≡ []) ↔ IsLayered file
  unfolding check_file in_layer
  check_file-IsLayered file =
      let imports = check_imports-All file.path (specifiers 0 file.contents) in
      (
        λ h.
            let both = (++-empty _ _).0 h in
            let quiet =
              (when-empty
                  (in_layer domain (relative_name root file.path)
                    && mentions false status_code_word file.contents)
                  _).0
                both.0 in
            (λ d. ground (arith, quiet, d), imports.0 both.1),
        λ h. (++-empty _ _).1 ((when-empty _ _).1 (and-intro _ _ h.0), imports.1 h.1),
      )

  check_files-All : (files : List SourceFile) → (check_files root files ≡ []) ↔ All IsLayered files
  check_files-All [] = (λ h. tt, λ h. refl)
  check_files-All (f ∷ fs) =
      let first = check_file-IsLayered f in
      let rest = check_files-All fs in
      let split = ++-empty (check_file root f) (check_files root fs) in
      (λ h. (first.0 (split.0 h).0, rest.0 (split.0 h).1), λ h. split.1 (first.1 h.0, rest.1 h.1))

verdict-valid : (n : ℕ) (vs : List Violation) → (exit_code (verdict n vs) ≡ 0) ↔ (vs ≡ [])
verdict-valid n [] = (λ h. refl, λ h. refl)
verdict-valid n (v ∷ vs) = (λ h. cc, λ h. cc)

-- The command exits with 0 exactly when every file that the walk finds under `src` is layered, by
-- the imports that the pattern finds in it.
pub check_architecture-IsLayered :
    (root : FilePath) (entries : Entries)
    → (exit_code (check_architecture root entries) ≡ 0)
      ↔ All (IsLayered root) (source_files (root ++ source_folder ∷ []) entries)
unfolding check_architecture
check_architecture-IsLayered root entries =
    let files = source_files (root ++ source_folder ∷ []) entries in
    let valid = verdict-valid (length files) (check_files root files) in
    let all = check_files-All root files in (λ h. all.0 (valid.0 h), λ h. valid.1 (all.1 h))
