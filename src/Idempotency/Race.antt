-- ===== src/Idempotency/Race.antt =====
-- Claims under interference: what a won claim is, and that a reclaim is won once.
use pulse_ledger.Base.{
  ℕ, ◌+◌, ◌≤◌, ◌≡◌, refl, ◌∙◌, Bool, true, false, none, some, List, [], ◌∷◌, arith, find,
  update_rows, Bool-cases, Option-cases, inl, inr,
}
use pulse_ledger.Errors.{ok}
use pulse_ledger.Idempotency.Records.{
  ClaimKey, same_key, in_progress, ClaimRecord, insert_claim, is_reclaimable, refresh, reclaim,
}
use pulse_ledger.Idempotency.Keys.{same_key_eq, has_key, has_key-update, IsKeyed}
use pulse_ledger.Idempotency.Claim.{ClaimParams, Surroundings, proceed, try_claim}

pub find_holds {ℓ} :
    {A : Type ℓ} (p : A → Bool) (xs : List A) (x : A) → find p xs ≡ some x → p x ≡ true
find_holds p [] x h = cc
find_holds p (y ∷ xs) x h = elim (Bool-cases (p y)) [
  | inl e ↦ ground arith
  | inr e ↦ find_holds p xs x (rw e at h)
]

no_key_none :
    (k : ClaimKey) (fingerprint clock stale : ℕ) (rows : List ClaimRecord)
    → has_key k rows ≡ false
    → find (is_reclaimable k fingerprint clock stale) rows ≡ none
no_key_none k fingerprint clock stale [] h = refl
no_key_none k fingerprint clock stale (r ∷ rows) h =
    ground (arith, no_key_none k fingerprint clock stale rows)

-- The claim is the record that the winner wrote: under its own key and fingerprint, unfinished,
-- and created at the time of the statement that won it.
pub record IsOwn (p : ClaimParams) (s : Surroundings) (row : ClaimRecord) : Type 0 where
  pub key : row.id ≡ p.id
  pub fingerprint : row.request_fingerprint ≡ p.fingerprint
  pub unfinished : row.status ≡ in_progress
  pub fresh : row.created_at ≡ s.now

refresh-IsOwn :
    (p : ClaimParams) (s : Surroundings) (r : ClaimRecord)
    → is_reclaimable p.id p.fingerprint s.clock p.stale_timeout r ≡ true
    → IsOwn p s (refresh s.now r)
refresh-IsOwn p s r h = record {
  key = same_key_eq r.id p.id (ground arith);
  fingerprint = ground arith;
  unfinished = ground arith;
  fresh = refl;
}

-- Whatever other sessions do between the statements, a request proceeds only with a claim of its
-- own, which its INSERT or its conditional UPDATE has just written.
pub try_claim_proceed :
    (p : ClaimParams) (s : Surroundings) (rows : List ClaimRecord) (row : ClaimRecord)
    → (try_claim p s rows).0 ≡ ok (some (proceed row))
    → IsOwn p s row
unfolding try_claim insert_claim reclaim
try_claim_proceed p s rows row h =
    elim (Option-cases (
      find (is_reclaimable p.id p.fingerprint s.clock p.stale_timeout)
        (s.after_find (s.after_insert rows)))) [
          | inl e ↦ ground arith
          | inr (r, e) ↦ ground (
            arith,
            refresh-IsOwn p s r (
                find_holds (is_reclaimable p.id p.fingerprint s.clock p.stale_timeout)
                  (s.after_find (s.after_insert rows)) r e),
          )
        ]

reclaimable-has_key :
    (k : ClaimKey) (fingerprint clock stale : ℕ) (rows : List ClaimRecord) (r : ClaimRecord)
    → find (is_reclaimable k fingerprint clock stale) rows ≡ some r
    → has_key k rows ≡ true
reclaimable-has_key k fingerprint clock stale [] r h = cc
reclaimable-has_key k fingerprint clock stale (x ∷ rows) r h =
    ground (arith, reclaimable-has_key k fingerprint clock stale rows r)

other_key :
    (x : ClaimRecord) (k : ClaimKey) (rows : List ClaimRecord)
    → has_key x.id rows ≡ false
    → has_key k rows ≡ true
    → same_key x.id k ≡ false
other_key x k rows n y = elim (Bool-cases (same_key x.id k)) [
  | inl same ↦ absurd (ground (arith, same_key_eq x.id k same))
  | inr other ↦ other
]

-- The rows of a won reclaim hold nothing that a claim with no later clock could reclaim.
reclaimed_fresh :
    (k : ClaimKey) (fingerprint clock stale now fingerprint' clock' stale' : ℕ)
    (rows : List ClaimRecord) (r : ClaimRecord)
    → IsKeyed rows
    → find (is_reclaimable k fingerprint clock stale) rows ≡ some r
    → clock' ≤ now + stale'
    → find
        (is_reclaimable k fingerprint' clock' stale')
        (update_rows (is_reclaimable k fingerprint clock stale) (refresh now) rows)
      ≡ none
reclaimed_fresh k fingerprint clock stale now fingerprint' clock' stale' [] r q e late = refl
reclaimed_fresh k fingerprint clock stale now fingerprint' clock' stale' (x ∷ rows) r (n, q) e
      late =
    elim (Bool-cases (is_reclaimable k fingerprint clock stale x)) [
      | inl y ↦
          let same : x.id ≡ k = same_key_eq x.id k (ground arith) in
          let gone : has_key k
                (update_rows (is_reclaimable k fingerprint clock stale) (refresh now) rows)
              ≡ false =
            has_key-update (is_reclaimable k fingerprint clock stale) (refresh now) (λ a. refl) k
              rows
            ∙ rw same at n in
          rw y (
            ground (
              arith,
              no_key_none k fingerprint' clock' stale'
                  (update_rows (is_reclaimable k fingerprint clock stale) (refresh now) rows) gone,
            ))
      | inr m ↦
          let rest : find (is_reclaimable k fingerprint clock stale) rows ≡ some r = rw m at e in
          rw m (
            ground (
              arith,
              other_key x k rows n (reclaimable-has_key k fingerprint clock stale rows r rest),
              reclaimed_fresh k fingerprint clock stale now fingerprint' clock' stale' rows r q rest
                  late,
            ))
    ]

-- A stale claim is taken over once: after a request has won the reclaim of a key, a second one
-- whose clock is not a whole stale timeout past the winner's statement wins nothing.
pub reclaim_exclusive :
    (k : ClaimKey) (fingerprint clock stale now fingerprint' clock' stale' now' : ℕ)
    (rows : List ClaimRecord) (row : ClaimRecord)
    → IsKeyed rows
    → (reclaim k fingerprint clock stale now rows).0 ≡ some row
    → clock' ≤ now + stale'
    → (reclaim k fingerprint' clock' stale' now' (reclaim k fingerprint clock stale now rows).1).0
      ≡ none
unfolding reclaim
reclaim_exclusive k fingerprint clock stale now fingerprint' clock' stale' now' rows row keyed h
      late =
    elim (Option-cases (find (is_reclaimable k fingerprint clock stale) rows)) [
      | inl e ↦ absurd (ground arith)
      | inr (r, e) ↦ ground (
        arith,
        reclaimed_fresh k fingerprint clock stale now fingerprint' clock' stale' rows r keyed e
            late,
      )
    ]
