-- ===== src/Tests/ArchitectureRuns.antt =====
-- Runs of the architecture check.
use pulse_ledger.Base.{ℕ, ◌≡◌, refl, [], ◌∷◌, ◌++◌}
use pulse_ledger.Base.Decimal.{Text}
use pulse_ledger.Architecture.Paths.{
  FilePath, Entries, file_entry, directory_entry, no_entries, source_files, relative_name,
  resolve_local_import, feature_name,
}
use pulse_ledger.Architecture.Imports.{specifiers, mentions}
use pulse_ledger.Architecture.Rules.{
  source_folder, check_architecture, exit_code, boundaries_valid, check_file, check_import,
}
use pulse_ledger.Architecture.Imports.{import_word, from_word}
use pulse_ledger.Architecture.Header.{Header, import_text}

abbrev domain_file : Text
domain_file = b't' ∷ 45 ∷ b'd' ∷ b'o' ∷ b'm' ∷ b'a' ∷ b'i' ∷ b'n' ∷ 46 ∷ b't' ∷ b's' ∷ []

abbrev routes_file : Text
routes_file = b't' ∷ 45 ∷ b'r' ∷ b'o' ∷ b'u' ∷ b't' ∷ b'e' ∷ b's' ∷ 46 ∷ b't' ∷ b's' ∷ []

abbrev service_file : Text
service_file = b't' ∷ 45 ∷ b's' ∷ b'e' ∷ b'r' ∷ b'v' ∷ b'i' ∷ b'c' ∷ b'e' ∷ 46 ∷ b't' ∷ b's' ∷ []

abbrev modules_name : Text
modules_name = b'm' ∷ b'o' ∷ b'd' ∷ b'u' ∷ b'l' ∷ b'e' ∷ b's' ∷ []

abbrev transfers_name : Text
transfers_name = b't' ∷ b'r' ∷ b'a' ∷ b'n' ∷ b's' ∷ b'f' ∷ b'e' ∷ b'r' ∷ b's' ∷ []

abbrev domain_import : Text
domain_import =
    b'i' ∷ b'm' ∷ b'p' ∷ b'o' ∷ b'r' ∷ b't' ∷ 32 ∷ 123 ∷ 32 ∷ b'A' ∷ 32 ∷ 125 ∷ 32 ∷ b'f' ∷ b'r'
    ∷ b'o' ∷ b'm' ∷ 32 ∷ 39 ∷ 46 ∷ 47 ∷ b't' ∷ 45 ∷ b'd' ∷ b'o' ∷ b'm' ∷ b'a' ∷ b'i' ∷ b'n' ∷ 46
    ∷ b'j' ∷ b's' ∷ 39 ∷ 59 ∷ []

abbrev service_import : Text
service_import =
    b'e' ∷ b'x' ∷ b'p' ∷ b'o' ∷ b'r' ∷ b't' ∷ 32 ∷ 42 ∷ 32 ∷ b'f' ∷ b'r' ∷ b'o' ∷ b'm' ∷ 32 ∷ 39
    ∷ 46 ∷ 47 ∷ b't' ∷ 45 ∷ b's' ∷ b'e' ∷ b'r' ∷ b'v' ∷ b'i' ∷ b'c' ∷ b'e' ∷ 46 ∷ b'j' ∷ b's' ∷ 39
    ∷ []

abbrev service_specifier : Text
service_specifier =
    46 ∷ 47 ∷ b't' ∷ 45 ∷ b's' ∷ b'e' ∷ b'r' ∷ b'v' ∷ b'i' ∷ b'c' ∷ b'e' ∷ 46 ∷ b'j' ∷ b's' ∷ []

abbrev status_code : Text
status_code =
    b'a' ∷ 46 ∷ b's' ∷ b't' ∷ b'a' ∷ b't' ∷ b'u' ∷ b's' ∷ b'C' ∷ b'o' ∷ b'd' ∷ b'e' ∷ 32 ∷ 61 ∷ 32
    ∷ b'1' ∷ []

abbrev home : FilePath
home = (b'r' ∷ []) ∷ []

-- One feature: its domain, its service and its routes, with the text of the domain and the routes.
abbrev tree : Text → Text → Entries
tree domain_text routes_text =
    directory_entry modules_name
      (directory_entry transfers_name
        (file_entry domain_file domain_text
          (file_entry routes_file routes_text (file_entry service_file domain_import no_entries)))
        no_entries)
      no_entries

service_import_read : specifiers 0 service_import ≡ service_specifier ∷ []
unfolding specifiers
service_import_read = refl

layered_tree : check_architecture home (tree [] domain_import) ≡ boundaries_valid 3
unfolding check_architecture source_files check_file relative_name mentions specifiers check_import
    resolve_local_import feature_name
layered_tree = refl

routes_import_service : exit_code (check_architecture home (tree [] service_import)) ≡ 1
unfolding check_architecture source_files check_file relative_name mentions specifiers check_import
    resolve_local_import feature_name
routes_import_service = refl

domain_status : exit_code (check_architecture home (tree status_code domain_import)) ≡ 1
unfolding check_architecture source_files check_file relative_name mentions
domain_status = refl

-- The routes' text: a line break, ` { A } ` bound from the domain, and a semicolon.
abbrev domain_specifier : Text
domain_specifier =
    46 ∷ 47 ∷ b't' ∷ 45 ∷ b'd' ∷ b'o' ∷ b'm' ∷ b'a' ∷ b'i' ∷ b'n' ∷ 46 ∷ b'j' ∷ b's' ∷ []

abbrev bound : Text
bound = 123 ∷ 32 ∷ b'A' ∷ 32 ∷ 125 ∷ []

abbrev one_space : Text
one_space = 32 ∷ []

abbrev bound_clause : Text
bound_clause = one_space ++ bound ++ one_space ++ from_word ++ one_space

abbrev statement_text : Text
statement_text = import_text import_word bound_clause 39 domain_specifier 39 (59 ∷ [])

abbrev routes_text : Text
routes_text = 10 ∷ statement_text

abbrev small_tree : Entries
small_tree = tree [] routes_text

abbrev first : Text → ℕ
first [] = 0
first (c ∷ cs) = c

abbrev routes_path : FilePath
routes_path = home ++ source_folder ∷ modules_name ∷ transfers_name ∷ routes_file ∷ []

abbrev routes_stem : Text
routes_stem = b't' ∷ 45 ∷ b'r' ∷ b'o' ∷ b'u' ∷ b't' ∷ b'e' ∷ b's' ∷ []

-- The folders, and what they hold.
abbrev source : FilePath
source = home ++ source_folder ∷ []

abbrev modules : FilePath
modules = source ++ modules_name ∷ []

abbrev transfers : FilePath
transfers = modules ++ transfers_name ∷ []

abbrev service : Entries
service = file_entry service_file domain_import no_entries

abbrev others : Entries
others = file_entry routes_file routes_text service

abbrev files : Entries
files = file_entry domain_file [] others

abbrev feature : Entries
feature = directory_entry transfers_name files no_entries
