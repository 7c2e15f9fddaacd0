-- ===== src/Architecture/Files.antt =====
-- The files of a source tree, told without the walk of scripts/check-architecture.ts, and that the
-- walk finds them.
use pulse_ledger.Base.{◌≡◌, refl, Bool, true, false, List, [], ◌∷◌, ◌++◌, arith, All, if◌then◌else◌}
use pulse_ledger.Base.Decimal.{Text}
use pulse_ledger.Architecture.Paths.{
  FilePath, Entries, file_entry, directory_entry, SourceFile, ts_ending, ends_with, source_files,
}

-- A `.ts` file of a directory, at any depth: its path and its text.
pub data IsFileAt : FilePath → Entries → FilePath → Text → Type 0 where
  here :
      (d : FilePath) (stem contents : Text) (rest : Entries)
      → IsFileAt d
          (file_entry (stem ++ ts_ending) contents rest)
          (d ++ (stem ++ ts_ending) ∷ [])
          contents
  beside_file :
      (d : FilePath) (name other : Text) (rest : Entries) (path : FilePath) (contents : Text)
      → IsFileAt d rest path contents
      → IsFileAt d (file_entry name other rest) path contents
  inside :
      (d : FilePath) (name : Text) (entries rest : Entries) (path : FilePath) (contents : Text)
      → IsFileAt (d ++ name ∷ []) entries path contents
      → IsFileAt d (directory_entry name entries rest) path contents
  beside_directory :
      (d : FilePath) (name : Text) (entries rest : Entries) (path : FilePath) (contents : Text)
      → IsFileAt d rest path contents
      → IsFileAt d (directory_entry name entries rest) path contents

ends_with-ts : (stem : Text) → ends_with ts_ending (stem ++ ts_ending) ≡ true
unfolding ends_with
ends_with-ts [] = refl
ends_with-ts (c ∷ stem) = ground (arith, ends_with-ts stem)

module _ {κ} (P : SourceFile → Type κ) where
  All-left : (xs ys : List SourceFile) → All P (xs ++ ys) → All P xs
  All-left [] ys h = tt
  All-left (x ∷ xs) ys (h, hs) = (h, All-left xs ys hs)

  All-right : (xs ys : List SourceFile) → All P (xs ++ ys) → All P ys
  All-right [] ys h = h
  All-right (x ∷ xs) ys (h, hs) = All-right xs ys hs

  All-first :
      (b : Bool) (x : SourceFile) (xs : List SourceFile)
      → b ≡ true
      → All P (if b then x ∷ xs else xs)
      → P x
  All-first true x xs e h = h.0
  All-first false x xs e h = absurd (cc e)

  All-beside :
      (b : Bool) (x : SourceFile) (xs : List SourceFile)
      → All P (if b then x ∷ xs else xs)
      → All P xs
  All-beside true x xs h = h.1
  All-beside false x xs h = h

  -- What holds of all files that the walk finds holds of each file that is there.
  pub source_files-all :
      (d : FilePath) (tree : Entries) (path : FilePath) (contents : Text)
      → IsFileAt d tree path contents
      → All P (source_files d tree)
      → P (record { path = path; contents = contents })
  unfolding source_files
  source_files-all d tree path contents (here d' stem c rest) h =
      All-first (ends_with ts_ending (stem ++ ts_ending)) _ (source_files d rest)
        (ends_with-ts stem) h
  source_files-all d tree path contents (beside_file d' name other rest p c at) h =
      source_files-all d rest path contents at (All-beside _ _ _ h)
  source_files-all d tree path contents (inside d' name es rest p c at) h =
      source_files-all (d ++ name ∷ []) es path contents at (All-left _ _ h)
  source_files-all d tree path contents (beside_directory d' name es rest p c at) h =
      source_files-all d rest path contents at
        (All-right (source_files (d ++ name ∷ []) es) (source_files d rest) h)
