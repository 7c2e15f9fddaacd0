-- ===== src/Accounts/Store.antt =====
-- `PostgresAccountStore` and `AccountService`, src/modules/accounts/account-repository.ts and
-- account-service.ts. The service passes everything on but the page limit and the cursor.
use pulse_ledger.Base.{
  ℕ, Bool, false, not, ◌&&◌, Option, none, some, List, [], ◌∷◌, ◌++◌, ltb, min, ◌==◌, if◌then◌else◌,
  find, where_rows, any, same_option,
}
use pulse_ledger.Base.Int.{pos}
use pulse_ledger.Base.Decimal.{Text}
use pulse_ledger.Errors.{
  Failure, domain_error, account_error, invalid_cursor, database_error, unique_violation, Result,
  ok, ◌>>◌, throw_if,
}
use pulse_ledger.Ledger.Tables.{Account, active, Ledger}
use pulse_ledger.Pages.{Position}
use pulse_ledger.Pages.Cursor.{Codec, serve_page}

abbrev pub owned_accounts_default_limit : ℕ
owned_accounts_default_limit = 100

abbrev pub owned_accounts_max_limit : ℕ
owned_accounts_max_limit = 100

-- The row that `INSERT INTO accounts` writes: the other columns have their defaults.
abbrev pub new_account : ℕ → ℕ → ℕ → ℕ → Account
new_account id currency owner now = record {
  id = id;
  currency = currency;
  status = active;
  balance_minor = pos 0;
  is_treasury = false;
  owner_principal_id = some owner;
  created_at = now;
}

-- `create`, with what `randomUUID()` and `now()` give.
unfoldable pub create : ℕ → ℕ → ℕ → ℕ → Ledger → Result (Account × Ledger)
create id now currency owner l = do
  throw_if (any (λ (a : Account). a.id == id) l.accounts) (database_error unique_violation)
  let row = new_account id currency owner now
  ok (row, record l { accounts = l.accounts ++ row ∷ [] })

abbrev pub is_owned : ℕ → Account → Bool
is_owned owner a = not a.is_treasury && same_option a.owner_principal_id (some owner)

-- `findOwnedById`
unfoldable pub find_owned_by_id : ℕ → ℕ → Ledger → Option Account
find_owned_by_id id owner l = find (λ (a : Account). a.id == id && is_owned owner a) l.accounts

abbrev pub position_of : Account → Position
position_of a = (a.created_at, a.id)

abbrev pub cursor_failure : Failure
cursor_failure = domain_error account_error invalid_cursor "Cursor is malformed"

-- The limit of `AccountService.listOwned`, on a limit that is absent or a natural number.
unfoldable pub owned_limit : Option ℕ → ℕ
owned_limit none = owned_accounts_default_limit
owned_limit (some n) =
    if ltb n 1 then owned_accounts_default_limit else min n owned_accounts_max_limit

-- `listOwned`
unfoldable pub list_owned :
    Codec → ℕ → Option ℕ → Option Text → Ledger → Result (List Account × Option Text)
list_owned codec owner limit cursor l =
    serve_page codec cursor_failure position_of (owned_limit limit) cursor
      (where_rows (is_owned owner) l.accounts)
