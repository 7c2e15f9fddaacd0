-- ===== src/Tests/WebRuns.antt =====
-- The web client: a typed amount, a refusal, a list of accounts and two presses of a button.
use pulse_ledger.Base.{◌≡◌, refl, false, some, none, List, [], ◌∷◌, ◌++◌, arith, where_rows}
use pulse_ledger.Base.Decimal.{Text, to_decimal}
use pulse_ledger.Pages.{order_by_position}
use pulse_ledger.Accounts.Store.{is_owned, position_of, list_owned}
use pulse_ledger.Web.Money.{parse_major_to_minor}
use pulse_ledger.Web.Display.{symbol_of, usd_code, format_minor}
use pulse_ledger.Web.Displayed.{format_minor-parse}
use pulse_ledger.Web.Errors.{ApiError, network_error, is_final_answer, retryable}
use pulse_ledger.Web.Calls.{returned, received, list_accounts}
use pulse_ledger.Web.Listing.{list_accounts_complete}
use pulse_ledger.Web.Intents.{
  Form, Event, edited, submitted, succeeded, failed, step, run, IsOnePerKey, AllAllowed,
  run-IsOnePerKey,
}
use pulse_ledger.Web.Forms.{SendFields, SendBody, other, send_body, send_cleared}
use pulse_ledger.Tests.Sample.{funded}
use pulse_ledger.Tests.LedgerRuns.{funded-IsKeyed}
use pulse_ledger.Tests.RouteRuns.{codec}

-- `1,234.5`
abbrev typed : Text
typed = b'1' ∷ b',' ∷ b'2' ∷ b'3' ∷ b'4' ∷ b'.' ∷ b'5' ∷ []

parsed : parse_major_to_minor typed ≡ some (b'1' ∷ b'2' ∷ b'3' ∷ b'4' ∷ b'5' ∷ b'0' ∷ [])
unfolding parse_major_to_minor to_decimal
parsed = refl

abbrev rupees : Text
rupees = b'I' ∷ b'N' ∷ b'R' ∷ []

-- `₹12,34,567.89`
displayed :
    format_minor (to_decimal 123456789) rupees
    ≡ 0x20b9 ∷ b'1' ∷ b'2' ∷ b',' ∷ b'3' ∷ b'4' ∷ b',' ∷ b'5' ∷ b'6' ∷ b'7' ∷ b'.' ∷ b'8' ∷ b'9'
      ∷ []
unfolding format_minor to_decimal
displayed = refl

-- `−$0.07`
displayed_small :
    format_minor (b'-' ∷ b'7' ∷ []) usd_code ≡ 0x2212 ∷ b'$' ∷ b'0' ∷ b'.' ∷ b'0' ∷ b'7' ∷ []
unfolding format_minor to_decimal
displayed_small = refl

format_minor-parse_example :
    (shown : Text) × (format_minor (to_decimal 123456789) rupees ≡ symbol_of rupees ++ shown)
    × (format_minor (b'-' ∷ to_decimal 123456789) rupees ≡ 0x2212 ∷ symbol_of rupees ++ shown)
    × (parse_major_to_minor shown ≡ some (to_decimal 123456789))
format_minor-parse_example = format_minor-parse 123456789 rupees (omega arith)

list_accounts_complete_example :
    list_accounts (λ cursor. received 3 (list_owned codec 100 none cursor funded))
    ≡ returned (order_by_position position_of (where_rows (is_owned 100) funded.accounts))
list_accounts_complete_example =
    list_accounts_complete codec 100 3 funded funded-IsKeyed (omega arith)

-- The user types an amount, presses, loses the connection, presses again, and is refused.
abbrev blank : SendFields
blank = record { mode = other; destination = b'2' ∷ []; amount = [] }

abbrev filled : SendFields
filled = record blank { amount = typed }

abbrev lost : ApiError
lost = record { status = 0; code = network_error; request_id = none }

abbrev form : Form {Fields = SendFields} {Body = SendBody} (send_body (b'1' ∷ [])) send_cleared
form = record { fields = blank; intent_key = 1; busy = false; sends = [] }

abbrev presses :
    List (Event {Fields = SendFields} {Body = SendBody} (send_body (b'1' ∷ [])) send_cleared)
presses = edited filled 2 ∷ submitted ∷ failed (some lost) 3 ∷ submitted ∷ succeeded 4 ∷ []

allowed : AllAllowed (send_body (b'1' ∷ [])) send_cleared presses form
unfolding step send_body parse_major_to_minor is_final_answer retryable
allowed = (
  tt,
  (
    tt,
    (
      (λ e. absurd (omega (arith, e)), tt),
      (tt, ((λ e. absurd (omega (arith, e)), (λ e. absurd (omega (arith, e)), tt)), tt)),
    ),
  ),
)

run-IsOnePerKey_example :
    IsOnePerKey
      (send_body (b'1' ∷ []))
      send_cleared
      (run (send_body (b'1' ∷ [])) send_cleared presses form).sends
run-IsOnePerKey_example =
    run-IsOnePerKey (send_body (b'1' ∷ [])) send_cleared presses form refl allowed
