-- ===== src/Operations/Commands.antt =====
-- The outbox command: src/modules/outbox/outbox-cli.ts over src/modules/outbox/outbox-admin-service.ts.
use pulse_ledger.Base.{
  ℕ, ◌≡◌, refl, ap, ◌∙◌, All, true, false, ◌&&◌, Option, none, some, List, [], ◌∷◌, arith, ltb,
  ◌==◌, if◌then◌else◌, find, count_rows, Bool-cases, inl, inr,
}
use pulse_ledger.Base.Decimal.{Text}
use pulse_ledger.Errors.{Failure, unexpected_error, Result, ok, err, ◌>>=◌}
use pulse_ledger.Auth.Store.{same_text}
use pulse_ledger.Outbox.Events.{OutboxEvent, OutboxStatus, outbox_default_list_limit}
use pulse_ledger.Outbox.Repository.{
  is_parked, list_parked, count_parked, find_by_id, reset_event, replay, replay_all_parked,
}
use pulse_ledger.Outbox.Lifecycle.{replay_outcome, replay_refused}
use pulse_ledger.Base.Doomed.{IsDistinct}
use pulse_ledger.Outbox.Retention.{same_id}
use pulse_ledger.Operations.Arguments.{Argument, read_option}

abbrev pub list_word : Text
list_word = b'l' ∷ b'i' ∷ b's' ∷ b't' ∷ []

abbrev pub show_word : Text
show_word = b's' ∷ b'h' ∷ b'o' ∷ b'w' ∷ []

abbrev pub replay_word : Text
replay_word = b'r' ∷ b'e' ∷ b'p' ∷ b'l' ∷ b'a' ∷ b'y' ∷ []

-- `--all`, `--limit`
abbrev pub all_flag : Text
all_flag = b'-' ∷ b'-' ∷ b'a' ∷ b'l' ∷ b'l' ∷ []

abbrev pub limit_option : Text
limit_option = b'-' ∷ b'-' ∷ b'l' ∷ b'i' ∷ b'm' ∷ b'i' ∷ b't' ∷ []

-- What the command prints.
pub data Output : Type 0 where
  no_parked_events : Output
  parked_events : ℕ → List OutboxEvent → Output
  no_such_event : ℕ → Output
  the_event : OutboxEvent → Output
  all_returned : ℕ → Output
  returned : ℕ → Output
  not_parked : ℕ → OutboxStatus → Output
  usage : Output
  failed_with : Failure → Output

-- One run: its output, the exit code, and the table after it.
pub record Outcome : Type 0 where
  pub output : Output
  pub exit_code : ℕ
  pub rows : List OutboxEvent

abbrev pub outcome : Output → ℕ → List OutboxEvent → Outcome
outcome o code rows = record { output = o; exit_code = code; rows = rows }

-- `OutboxAdminService.listParked`
unfoldable pub admin_list_parked : ℕ → List OutboxEvent → List OutboxEvent
admin_list_parked limit rows = list_parked (if ltb limit 1 then 1 else limit) rows

abbrev pub list_output : List OutboxEvent → ℕ → Output
list_output [] total = no_parked_events
list_output (e ∷ es) total = parked_events total (e ∷ es)

unfoldable pub list_command : List Argument → List OutboxEvent → Result Outcome
unfolding admin_list_parked
list_command args rows = do
  limit ← read_option args limit_option outbox_default_list_limit
  ok (outcome (list_output (admin_list_parked limit rows) (count_parked rows)) 0 rows)

unfoldable pub show_command : List Argument → List OutboxEvent → Result Outcome
show_command [] rows = err (unexpected_error "show requires an event id")
show_command (a ∷ rest) rows = ok (elim (find_by_id a.id rows) [
  | none ↦ outcome (no_such_event a.id) 1 rows
  | some e ↦ outcome (the_event e) 0 rows
])

-- What is said when no parked event was found.
abbrev pub refusal : ℕ → List OutboxEvent → Option OutboxEvent → Outcome
refusal id rows none = outcome (no_such_event id) 1 rows
refusal id rows (some e) = outcome (not_parked id e.status) 1 rows

-- The replay of one event, and what is said when it was not parked.
unfoldable pub replay_one : ℕ → List OutboxEvent → Outcome
replay_one id rows =
    let r = replay id rows in
    if r.0 then outcome (returned id) 0 r.1 else refusal id r.1 (find_by_id id r.1)

unfoldable pub replay_command : List Argument → List OutboxEvent → Result Outcome
unfolding replay_one
replay_command [] rows = err (unexpected_error "replay requires an event id, or --all")
replay_command (a ∷ rest) rows =
    if same_text a.text all_flag
    then ok (let r = replay_all_parked rows in outcome (all_returned r.0) 0 r.1)
    else ok (replay_one a.id rows)

abbrev pub caught : List OutboxEvent → Result Outcome → Outcome
caught rows (ok o) = o
caught rows (err e) = outcome (failed_with e) 1 rows

-- The command on `process.argv.slice(2)`.
unfoldable pub outbox_command : List Argument → List OutboxEvent → Outcome
unfolding list_command show_command replay_command
outbox_command [] rows = outcome usage 1 rows
outbox_command (command ∷ args) rows =
    if same_text command.text list_word
    then caught rows (list_command args rows)
    else if same_text command.text show_word
    then caught rows (show_command args rows)
    else if same_text command.text replay_word
    then caught rows (replay_command args rows)
    else outcome usage 1 rows

none_counted :
    (id : ℕ) (rows : List OutboxEvent)
    → find (λ (e : OutboxEvent). e.id == id) rows ≡ none
    → count_rows (λ (e : OutboxEvent). e.id == id && is_parked e) rows ≡ 0
none_counted id [] h = refl
none_counted id (e ∷ rows) h = ground (arith, none_counted id rows)

absent_after :
    (id : ℕ) (x : OutboxEvent) (rows : List OutboxEvent)
    → All (λ (y : OutboxEvent). same_id x y ≡ false) rows
    → (x.id == id) ≡ true
    → find (λ (y : OutboxEvent). y.id == id) rows ≡ none
absent_after id x [] f y = refl
absent_after id x (z ∷ rows) (n, f) y = ground (arith, absent_after id x rows f y)

unparked_counted :
    (id : ℕ) (rows : List OutboxEvent) (e : OutboxEvent)
    → IsDistinct same_id rows
    → find (λ (x : OutboxEvent). x.id == id) rows ≡ some e
    → is_parked e ≡ false
    → count_rows (λ (x : OutboxEvent). x.id == id && is_parked x) rows ≡ 0
unparked_counted id [] e d h n = refl
unparked_counted id (x ∷ rows) e (f, d) h n = elim (Bool-cases (x.id == id)) [
  | inl y ↦ ground (arith, none_counted id rows, absent_after id x rows f y)
  | inr m ↦ ground (arith, unparked_counted id rows e d)
]

uncounted :
    (id : ℕ) (rows : List OutboxEvent)
    → count_rows (λ (e : OutboxEvent). e.id == id && is_parked e) rows ≡ 0
    → (replay id rows).0 ≡ false
unfolding replay
uncounted id rows h = ground arith

returned_one :
    (id : ℕ) (rows : List OutboxEvent) (e : OutboxEvent)
    → find_by_id id rows ≡ some e
    → is_parked e ≡ true
    → ((replay_one id rows).exit_code ≡ 0)
      × (find_by_id id (replay_one id rows).rows ≡ some (reset_event e))
unfolding replay_one
returned_one id rows e found parked =
    let (done, after) = replay_outcome id rows e found parked in
    (ground (arith, done), ground (arith, done, after))

refused_one :
    (id : ℕ) (rows : List OutboxEvent)
    → count_rows (λ (e : OutboxEvent). e.id == id && is_parked e) rows ≡ 0
    → replay_one id rows ≡ refusal id rows (find_by_id id rows)
unfolding replay_one
refused_one id rows h =
    let r = uncounted id rows h in
    ground (arith, r, ap (λ t. refusal id t (find_by_id id t)) (replay_refused id rows r))

-- The replay of one event: if it is parked, the exit code is 0 and the event is pending again with
-- no attempts counted; if it is not parked, or if there is no such event, the exit code is 1, the
-- output says which of the two it was, and the table is unchanged. No two events share an identifier.
replay_one_told :
    (id : ℕ) (rows : List OutboxEvent)
    → IsDistinct same_id rows
    → ((e : OutboxEvent)
        → find_by_id id rows ≡ some e
        → is_parked e ≡ true
        → ((replay_one id rows).exit_code ≡ 0)
          × (find_by_id id (replay_one id rows).rows ≡ some (reset_event e)))
      × ((e : OutboxEvent)
          → find_by_id id rows ≡ some e
          → is_parked e ≡ false
          → replay_one id rows ≡ outcome (not_parked id e.status) 1 rows)
      × (find_by_id id rows ≡ none → replay_one id rows ≡ outcome (no_such_event id) 1 rows)
unfolding find_by_id
replay_one_told id rows d = (
  λ e found parked. returned_one id rows e found parked,
  λ e found n.
      refused_one id rows (unparked_counted id rows e d found n) ∙ ap (refusal id rows) found,
  λ missing. refused_one id rows (none_counted id rows missing) ∙ ap (refusal id rows) missing,
)
