-- ===== src/Web/Forms.antt =====
-- The two money forms: SendMoney of web/src/pages/AccountDetail.tsx and Fund of
-- web/src/pages/Admin.tsx.
use pulse_ledger.Base.{
  ◌≡◌, refl, Bool, true, false, not, ◌&&◌, Option, none, some, List, [], ◌∷◌, any, if◌then◌else◌,
  inl,
}
use pulse_ledger.Base.Decimal.{Text}
use pulse_ledger.Base.Trim.{is_white, trim_by}
use pulse_ledger.Auth.Store.{same_text}
use pulse_ledger.Web.Money.{parse_major_to_minor}
use pulse_ledger.Web.Intents.{Form, IsAllowed, adjusted}

pub data DestinationMode : Type 0 where
  own other : DestinationMode

pub record SendFields : Type 0 where
  pub mode : DestinationMode
  pub destination : Text
  pub amount : Text

-- The request that `createTransfer` is called with; the source is the account of the page.
pub record SendBody : Type 0 where
  pub source_account_id : Text
  pub destination_account_id : Text
  pub amount_minor : Text

abbrev pub is_empty : Text → Bool
is_empty [] = true
is_empty (c ∷ cs) = false

-- What `send` sends, if it does not return at once.
unfoldable pub send_body : Text → SendFields → Option SendBody
send_body source f = elim (parse_major_to_minor f.amount) [
  | none ↦ none
  | some amount ↦
      if is_empty f.destination
      then none
      else some (record {
        source_account_id = source;
        destination_account_id = trim_by is_white f.destination;
        amount_minor = amount;
      })
]

-- `setAmount('')`, after a success.
abbrev pub send_cleared : SendFields → SendFields
send_cleared f = record f { amount = [] }

abbrev pub is_own : DestinationMode → Bool
is_own own = true
is_own other = false

abbrev pub first_or_empty : List Text → Text
first_or_empty [] = []
first_or_empty (c ∷ cs) = c

-- The effect on the list of candidates: a destination that is none of them gives way to the first.
unfoldable pub choose_candidate : List Text → SendFields → SendFields
choose_candidate candidates f =
    if is_own f.mode && not (any (λ c. same_text c f.destination) candidates)
    then record f { destination = first_or_empty candidates }
    else f

pub record FundFields : Type 0 where
  pub account_id : Text
  pub amount : Text

pub record FundBody : Type 0 where
  pub account_id : Text
  pub amount_minor : Text

-- What `fund` sends, if it does not return at once.
unfoldable pub fund_body : FundFields → Option FundBody
fund_body f = elim (parse_major_to_minor f.amount) [
  | none ↦ none
  | some amount ↦
      some (record { account_id = trim_by is_white f.account_id; amount_minor = amount })
]

abbrev pub fund_cleared : FundFields → FundFields
fund_cleared f = f

-- A list of accounts that arrives keeps the request of the form, if it still holds the chosen
-- account, or if the user typed another's; so the effect is one that the keys allow.
pub choose_candidate-IsAllowed :
    (source : Text) (candidates : List Text)
    (f : Form {Fields = SendFields} {Body = SendBody} (send_body source) send_cleared)
    → is_own f.fields.mode && not (any (λ c. same_text c f.fields.destination) candidates) ≡ false
    → IsAllowed (send_body source) send_cleared (adjusted (choose_candidate candidates f.fields)) f
unfolding choose_candidate
choose_candidate-IsAllowed source candidates f kept = inl (rw kept refl)
