-- ===== src/Web/Listing.antt =====
-- The client lists every account that the server has for the caller.
use pulse_ledger.Base.{
  ℕ, zero, suc, ◌≤◌, ◌≡◌, ◌≢◌, refl, ap, ◌∙◌, Option, none, some, List, [], ◌∷◌, ◌++◌, arith,
  length, where_rows, inl, inr,
}
use pulse_ledger.Base.Decimal.{Text}
use pulse_ledger.Errors.{Result, ok, err, ◌>>=◌, Result-cases}
use pulse_ledger.Ledger.Tables.{Ledger}
use pulse_ledger.Ledger.Keys.{IsKeyed}
use pulse_ledger.Pages.{Position, fetch_page, order_by_position}
use pulse_ledger.Pages.Cursor.{Codec, read_pages, read_cursor, write_cursor, serve_page}
use pulse_ledger.Accounts.Store.{is_owned, position_of, cursor_failure, owned_limit, list_owned}
use pulse_ledger.Accounts.Ownership.{list_owned_enough}
use pulse_ledger.Web.Calls.{
  returned, received, truthy, joined, turned, max_pages, list_pages, list_accounts,
}

-- No cursor of the server is the empty text.
abbrev pub NamesPages {ℓ} : {A : Type ℓ} → (Option Text → Result (List A × Option Text)) → Type ℓ
NamesPages {A} serve =
    (c : Option Text) (p : List A × Option Text) → serve c ≡ ok p → truthy p.1 ≡ p.1

joined-received {ℓ} :
    {A : Type ℓ} (rid : ℕ) (page : List A) (r : Result (List A))
    → joined page (received rid r) ≡ received rid (r >>= λ rest. ok (page ++ rest))
joined-received rid page (ok rest) = refl
joined-received rid page (err e) = refl

list_pages-read_pages {ℓ} :
    {A : Type ℓ} (rid : ℕ) (serve : Option Text → Result (List A × Option Text))
    → NamesPages serve
    → (fuel : ℕ) (cursor : Option Text)
    → list_pages fuel (λ c. received rid (serve c)) cursor
      ≡ received rid (read_pages fuel serve cursor)
unfolding list_pages read_pages
list_pages-read_pages {A = A} rid serve n zero cursor = refl
list_pages-read_pages {A = A} rid serve n (suc fuel) cursor = elim (Result-cases (serve cursor)) [
  | inr (e, h) ↦ rw h refl
  | inl ((page, next), h) ↦ rw h (
      by_next page next (n cursor (page, next) h)
        (λ c. list_pages-read_pages rid serve n fuel (some c)))
]
  where
    by_next :
        (page : List A) (next : Option Text)
        → truthy next ≡ next
        → ((c : Text)
            → list_pages fuel (λ d. received rid (serve d)) (some c)
              ≡ received rid (read_pages fuel serve (some c)))
        → turned
            (returned (page, next))
            (λ c. list_pages fuel (λ d. received rid (serve d)) (some c))
          ≡ received rid (elim next [
            | none ↦ ok page
            | some c ↦ (read_pages fuel serve (some c) >>= λ rest. ok (page ++ rest))
          ])
    by_next page none t later = refl
    by_next page (some []) t later = cc
    by_next page (some (c ∷ cs)) t later =
        ap (joined page) (later (c ∷ cs))
        ∙ joined-received rid page (read_pages fuel serve (some (c ∷ cs)))

truthy-write :
    (codec : Codec) (q : Option Position) → truthy (write_cursor codec q) ≡ write_cursor codec q
truthy-write codec none = refl
truthy-write codec (some p) = by_text (codec.encode p) (codec.encode-nonempty p)
  where
    by_text : (t : Text) → t ≢ [] → truthy (some t) ≡ some t
    by_text [] n = absurd (n refl)
    by_text (c ∷ cs) n = refl

list_owned-NamesPages :
    (codec : Codec) (owner : ℕ) (limit : Option ℕ) (l : Ledger)
    → NamesPages (λ c. list_owned codec owner limit c l)
unfolding list_owned serve_page
list_owned-NamesPages codec owner limit l c p h =
    elim (Result-cases (read_cursor codec cursor_failure c)) [
      | inr (e, f) ↦ absurd (ground (arith, f))
      | inl (after, f) ↦
          let found =
            fetch_page position_of (owned_limit limit) after
              (where_rows (is_owned owner) l.accounts) in
          let same : p ≡ (found.0, write_cursor codec found.1) = ground (arith, f) in
          rw same (truthy-write codec found.1)
    ]

-- The client's list of accounts is never cut short: with up to 5000 accounts, the fifty pages that it
-- asks for at most, each request starting at the cursor of the last page, are all of the caller's
-- accounts, each exactly once, oldest first, and no page is refused.
pub list_accounts_complete :
    (codec : Codec) (owner rid : ℕ) (l : Ledger)
    → IsKeyed l.accounts
    → length (where_rows (is_owned owner) l.accounts) ≤ 5_000
    → list_accounts (λ cursor. received rid (list_owned codec owner none cursor l))
      ≡ returned (order_by_position position_of (where_rows (is_owned owner) l.accounts))
unfolding list_accounts
list_accounts_complete codec owner rid l keyed few =
    list_pages-read_pages rid (λ cursor. list_owned codec owner none cursor l)
      (list_owned-NamesPages codec owner none l) max_pages none
    ∙ ap (received rid) (list_owned_enough codec owner max_pages l keyed (omega arith) few)
