-- ===== src/Funding/Journal.antt =====
-- `listJournalEntries` of the store and of the service: the journal of an account, for its owner.
use pulse_ledger.Base.{
  ℕ, suc, ◌<◌, ◌≡◌, true, false, not, Option, none, some, List, [], arith, ◌==◌, same_option,
  where_rows, length,
}
use pulse_ledger.Base.Decimal.{Text}
use pulse_ledger.Errors.{
  Failure, domain_error, ledger_error, account_not_found, invalid_cursor, Result, ok, ◌>>=◌, ◌>>◌,
  throw_if, or_throw,
}
use pulse_ledger.Ledger.Tables.{Account, JournalEntry, Ledger, find_account}
use pulse_ledger.Pages.{Position, order_by_position}
use pulse_ledger.Pages.Ascending.{IsKeyed}
use pulse_ledger.Pages.Cursor.{Codec, serve_page, read_pages, read_pages_complete}
use pulse_ledger.Funding.Service.{resolve_limit}

abbrev pub entry_position : JournalEntry → Position
entry_position j = (j.created_at, j.id)

abbrev pub malformed_failure : Failure
malformed_failure = domain_error ledger_error invalid_cursor "Cursor is malformed"

abbrev pub hidden_failure : Failure
hidden_failure = domain_error ledger_error account_not_found "Account not found"

abbrev pub entries_of : ℕ → Ledger → List JournalEntry
entries_of account_id l = where_rows (λ (j : JournalEntry). j.account_id == account_id) l.journal

-- The service's method, with the store's query as `serve_page`.
unfoldable pub list_journal_entries :
    Codec → ℕ → ℕ → Option ℕ → Option Text → Ledger → Result (List JournalEntry × Option Text)
list_journal_entries codec account_id owner limit cursor l = do
  account ← or_throw (find_account account_id l.accounts) hidden_failure
  throw_if account.is_treasury hidden_failure
  throw_if (not (same_option account.owner_principal_id (some owner))) hidden_failure
  serve_page codec malformed_failure entry_position (resolve_limit limit) cursor
      (entries_of account_id l)

resolve_limit-pos : (limit : Option ℕ) → 0 < resolve_limit limit
unfolding resolve_limit
resolve_limit-pos none = omega arith
resolve_limit-pos (some n) = ground arith

-- The owner of a customer account who follows the cursors gets no error and reads every entry of
-- its journal exactly once, oldest first, whatever page size it asks for.
pub list_journal_entries_complete :
    (codec : Codec) (account_id owner : ℕ) (limit : Option ℕ) (l : Ledger) (account : Account)
    → find_account account_id l.accounts ≡ some account
    → account.is_treasury ≡ false
    → same_option account.owner_principal_id (some owner) ≡ true
    → IsKeyed entry_position (entries_of account_id l)
    → read_pages
        (suc (length (entries_of account_id l)))
        (λ cursor. list_journal_entries codec account_id owner limit cursor l)
        none
      ≡ ok (order_by_position entry_position (entries_of account_id l))
unfolding list_journal_entries
list_journal_entries_complete codec account_id owner limit l account found customer own keyed =
    rw (found, customer, own)
      (read_pages_complete codec malformed_failure entry_position (resolve_limit limit)
        (entries_of account_id l) (resolve_limit-pos limit) keyed)

-- A principal that does not own the account (nobody owns a treasury) gets, whatever page it asks
-- for, the answer that it would get if no account existed.
pub list_journal_entries_hidden :
    (codec : Codec) (account_id stranger : ℕ) (limit : Option ℕ) (cursor : Option Text) (l : Ledger)
    (account : Account)
    → find_account account_id l.accounts ≡ some account
    → same_option account.owner_principal_id (some stranger) ≡ false
    → list_journal_entries codec account_id stranger limit cursor l
      ≡ list_journal_entries codec account_id stranger limit cursor (record l { accounts = [] })
unfolding list_journal_entries
list_journal_entries_hidden codec account_id stranger limit cursor l account found other =
    rw found (ground arith)
