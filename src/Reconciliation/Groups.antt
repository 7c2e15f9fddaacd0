-- ===== src/Reconciliation/Groups.antt =====
-- The groups of the journal by account and currency: `groups`, against the sums of the accounts.
use pulse_ledger.Base.{
  ℕ, ◌≡◌, refl, true, false, not, ◌&&◌, ◌||◌, List, [], ◌∷◌, arith, ◌==◌, where_rows, any, All,
  Bool-cases, inl, inr,
}
use pulse_ledger.Base.Int.{pos, zero_+ℤ}
use pulse_ledger.Ledger.Tables.{Account, JournalEntry}
use pulse_ledger.Ledger.Sums.{computed}
use pulse_ledger.Reconciliation.Report.{Group, groups, group_balance}

-- The foreign key of the journal on (account, currency), seen from an account and from the journal.
abbrev pub IsCurrencyOf : List JournalEntry → Account → Type 0
IsCurrencyOf js a =
    All (λ (j : JournalEntry). (not (j.account_id == a.id) || j.currency == a.currency) ≡ true) js

abbrev pub IsAccounted : List Account → JournalEntry → Type 0
IsAccounted accounts j = any (λ (a : Account). a.id == j.account_id) accounts ≡ true

pub group_balance-computed :
    (a : Account) (js : List JournalEntry)
    → IsCurrencyOf js a
    → group_balance a.id a.currency js ≡ computed a.id js
unfolding group_balance computed
group_balance-computed a [] h = refl
group_balance-computed a (j ∷ js) (e, h) = elim (Bool-cases (j.account_id == a.id)) [
  | inl y ↦
      let c : (j.currency == a.currency) ≡ true = ground arith in
      rw (y, c, group_balance-computed a js h) refl
  | inr n ↦ rw (n, group_balance-computed a js h) refl
]

-- A group that belongs to the account has the account's currency.
pub groups_currency :
    (a : Account) (js : List JournalEntry)
    → IsCurrencyOf js a
    → All
        (λ (g : Group). (not (g.account_id == a.id) || g.currency == a.currency) ≡ true)
        (groups js)
unfolding groups
groups_currency a [] h = tt
groups_currency a (j ∷ js) (e, h) =
    elim (Bool-cases
      (any (λ (g : Group). j.account_id == g.account_id && j.currency == g.currency) (groups js))) [
        | inl y ↦ rw y (groups_currency a js h)
        | inr n ↦ rw n (e, groups_currency a js h)
      ]

pub groups_accounted :
    (accounts : List Account) (js : List JournalEntry)
    → All (IsAccounted accounts) js
    → All (λ (g : Group). any (λ (a : Account). a.id == g.account_id) accounts ≡ true) (groups js)
unfolding groups
groups_accounted accounts [] h = tt
groups_accounted accounts (j ∷ js) (e, h) =
    elim (Bool-cases
      (any (λ (g : Group). j.account_id == g.account_id && j.currency == g.currency) (groups js))) [
        | inl y ↦ rw y (groups_accounted accounts js h)
        | inr n ↦ rw n (e, groups_accounted accounts js h)
      ]

-- An account without a group has no entry.
group_found :
    (k c : ℕ) (gs : List Group)
    → any (λ (g : Group). k == g.account_id && c == g.currency) gs ≡ true
    → any (λ (g : Group). g.account_id == k) gs ≡ true
group_found k c [] h = cc
group_found k c (g ∷ gs) h = ground (arith, group_found k c gs)

pub ungrouped :
    (k : ℕ) (js : List JournalEntry)
    → any (λ (g : Group). g.account_id == k) (groups js) ≡ false
    → computed k js ≡ pos 0
unfolding groups computed
ungrouped k [] h = refl
ungrouped k (j ∷ js) h =
    elim (Bool-cases
      (any (λ (g : Group). j.account_id == g.account_id && j.currency == g.currency) (groups js))) [
        | inl y ↦
            let rest : any (λ (g : Group). g.account_id == k) (groups js) ≡ false = rw y at h in
            let other : (j.account_id == k) ≡ false =
              ground (arith, group_found j.account_id j.currency (groups js) y) in
            rw other (rw (ungrouped k js rest) (zero_+ℤ (pos 0)))
        | inr n ↦
            let both : (j.account_id == k || any (λ (g : Group). g.account_id == k) (groups js))
                ≡ false =
              rw n at h in
            let other : (j.account_id == k) ≡ false = ground arith in
            rw other (rw (ungrouped k js (ground arith)) (zero_+ℤ (pos 0)))
      ]

pub none_where :
    (k : ℕ) (gs : List Group)
    → where_rows (λ (g : Group). g.account_id == k) gs ≡ []
    → any (λ (g : Group). g.account_id == k) gs ≡ false
none_where k [] h = refl
none_where k (g ∷ gs) h = ground (arith, none_where k gs)

pub where_currency :
    (a : Account) (gs : List Group)
    → All (λ (g : Group). (not (g.account_id == a.id) || g.currency == a.currency) ≡ true) gs
    → All
        (λ (g : Group). ((g.account_id == a.id) ≡ true) × ((g.currency == a.currency) ≡ true))
        (where_rows (λ (g : Group). g.account_id == a.id) gs)
where_currency a [] h = tt
where_currency a (g ∷ gs) (e, h) = elim (Bool-cases (g.account_id == a.id)) [
  | inl y ↦ rw y ((y, ground arith), where_currency a gs h)
  | inr n ↦ rw n (where_currency a gs h)
]
