-- ===== src/Accounts/Ownership.antt =====
-- What a principal sees of the accounts.
use pulse_ledger.Base.{
  ℕ, suc, ◌<◌, ◌≤◌, ◌*◌, ◌≡◌, refl, Bool, false, ◌&&◌, Option, none, some, List, [], ◌∷◌, arith,
  ◌==◌, ==_iff, find, where_rows, length, Bool-cases, inl, inr, All, any,
}
use pulse_ledger.Errors.{ok}
use pulse_ledger.Ledger.Tables.{Account, Ledger}
use pulse_ledger.Ledger.Keys.{IsKeyed}
use pulse_ledger.Pages.{order_by_position}
use pulse_ledger.Pages.Ascending.{IsKeyed as HasKeys}
use pulse_ledger.Pages.Cursor.{Codec, read_pages, read_pages_complete, read_pages_enough}
use pulse_ledger.Accounts.Store.{
  is_owned, find_owned_by_id, position_of, cursor_failure, owned_limit, list_owned,
  owned_accounts_default_limit,
}

found_owned :
    (id owner : ℕ) (accounts : List Account) (a : Account)
    → find (λ (x : Account). x.id == id && is_owned owner x) accounts ≡ some a
    → (a.id ≡ id) × (a.is_treasury ≡ false) × (a.owner_principal_id ≡ some owner)
found_owned id owner [] a h = cc
found_owned id owner (x ∷ accounts) a h = ground (arith, found_owned id owner accounts a)

missing_other :
    (id owner other : ℕ) (accounts : List Account) (a : Account)
    → IsKeyed accounts
    → find (λ (x : Account). x.id == id && is_owned owner x) accounts ≡ some a
    → (owner == other) ≡ false
    → find (λ (x : Account). x.id == id && is_owned other x) accounts ≡ none
missing_other id owner other [] a q h n = cc
missing_other id owner other (x ∷ accounts) a (m, q) h n = elim (Bool-cases (x.id == id)) [
  | inl y ↦
      let gone : any (λ (b : Account). b.id == id) accounts ≡ false =
        rw ((==_iff x.id id).0 y) at m in
      ground (
        arith,
        missing_everywhere id other accounts gone,
        missing_everywhere id owner accounts gone,
      )
  | inr e ↦ ground (arith, missing_other id owner other accounts a q)
]
  where
    missing_everywhere :
        (k owner : ℕ) (xs : List Account)
        → any (λ (b : Account). b.id == k) xs ≡ false
        → find (λ (y : Account). y.id == k && is_owned owner y) xs ≡ none
    missing_everywhere k owner [] h = refl
    missing_everywhere k owner (y ∷ xs) h = ground (arith, missing_everywhere k owner xs)

-- `findOwnedById` returns the caller's own customer account of that identifier, and to every other
-- principal the very same identifier looks missing.
pub find_owned_by_id_private :
    (id owner : ℕ) (l : Ledger) (a : Account)
    → IsKeyed l.accounts
    → find_owned_by_id id owner l ≡ some a
    → (a.id ≡ id)
      × (a.is_treasury ≡ false)
      × (a.owner_principal_id ≡ some owner)
      × ((other : ℕ) → (owner == other) ≡ false → find_owned_by_id id other l ≡ none)
unfolding find_owned_by_id
find_owned_by_id_private id owner l a keyed h =
    let (i, t, o) = found_owned id owner l.accounts a h in
    (i, t, o, λ other n. missing_other id owner other l.accounts a keyed h n)

owned_limit-pos : (limit : Option ℕ) → 0 < owned_limit limit
unfolding owned_limit
owned_limit-pos none = omega arith
owned_limit-pos (some n) = ground arith

IsKeyed-where :
    (p : Account → Bool) (accounts : List Account)
    → IsKeyed accounts
    → HasKeys position_of (where_rows p accounts)
IsKeyed-where p [] h = tt
IsKeyed-where p (a ∷ accounts) (n, q) = elim (Bool-cases (p a)) [
  | inl y ↦ rw y (apart accounts n, IsKeyed-where p accounts q)
  | inr m ↦ rw m (IsKeyed-where p accounts q)
]
  where
    apart :
        (xs : List Account)
        → any (λ (b : Account). b.id == a.id) xs ≡ false
        → All (λ (b : Account). (a.id == b.id) ≡ false) (where_rows p xs)
    apart [] h = tt
    apart (x ∷ xs) h = elim (Bool-cases (p x)) [
      | inl y ↦ rw y (ground arith, apart xs (ground arith))
      | inr m ↦ rw m (apart xs (ground arith))
    ]

-- A client that lists a principal's accounts and follows the cursors gets no error and reads every
-- account of that principal exactly once, oldest first, whatever page size it asks for.
pub list_owned_complete :
    (codec : Codec) (owner : ℕ) (limit : Option ℕ) (l : Ledger)
    → IsKeyed l.accounts
    → let owned = where_rows (is_owned owner) l.accounts in
      read_pages (suc (length owned)) (λ cursor. list_owned codec owner limit cursor l) none
      ≡ ok (order_by_position position_of owned)
unfolding list_owned
list_owned_complete codec owner limit l keyed =
    read_pages_complete codec cursor_failure position_of (owned_limit limit)
      (where_rows (is_owned owner) l.accounts) (owned_limit-pos limit)
      (IsKeyed-where (is_owned owner) l.accounts keyed)

-- A client that asks for the default page reads a principal's accounts in `fuel` requests, if there
-- are no more than a hundred for each.
pub list_owned_enough :
    (codec : Codec) (owner fuel : ℕ) (l : Ledger)
    → IsKeyed l.accounts
    → 0 < fuel
    → length (where_rows (is_owned owner) l.accounts) ≤ fuel * owned_accounts_default_limit
    → read_pages fuel (λ cursor. list_owned codec owner none cursor l) none
      ≡ ok (order_by_position position_of (where_rows (is_owned owner) l.accounts))
unfolding list_owned owned_limit
list_owned_enough codec owner fuel l keyed q f =
    read_pages_enough codec cursor_failure position_of fuel owned_accounts_default_limit
      (where_rows (is_owned owner) l.accounts) (omega arith) q f
      (IsKeyed-where (is_owned owner) l.accounts keyed)
