-- ===== src/Audit/Dedup.antt =====
-- Deliveries are at least once; effects are at most once.
use pulse_ledger.Base.{
  ℕ, ◌≤◌, ◌≡◌, refl, Bool, true, false, List, [], ◌∷◌, arith, ◌==◌, contains, count_rows,
  count_rows-append, Bool-cases, inl, inr,
}
use pulse_ledger.Errors.{ok}
use pulse_ledger.Ports.Transaction.{with_transaction_inv, Faults, with_transaction-ok}
use pulse_ledger.Outbox.Events.{OutboxEvent}
use pulse_ledger.Audit.Consumer.{AuditEffect, AuditTables, consume_work, input_of, handle}

abbrev pub effects_of : ℕ → AuditTables → ℕ
effects_of k a = count_rows (λ (e : AuditEffect). e.event_id == k) a.effects

abbrev pub claims_of : ℕ → AuditTables → ℕ
claims_of k a = count_rows (λ x. x == k) a.inbox

-- Every event has as many effects as inbox rows, and at most one.
abbrev pub IsDeduplicated : AuditTables → Type 0
IsDeduplicated a = (k : ℕ) → (effects_of k a ≡ claims_of k a) × (claims_of k a ≤ 1)

pub count_contains : (k : ℕ) (xs : List ℕ) → contains k xs ≡ false → count_rows (λ x. x == k) xs ≡ 0
count_contains k [] h = refl
count_contains k (x ∷ xs) h = ground (arith, count_contains k xs)

contains_count : (k : ℕ) (xs : List ℕ) → contains k xs ≡ true → 1 ≤ count_rows (λ x. x == k) xs
contains_count k [] h = cc
contains_count k (x ∷ xs) h = ground (arith, contains_count k xs)

consume_work-IsDeduplicated :
    (input : AuditEffect) (a a' : AuditTables) (duplicate : Bool)
    → consume_work input a ≡ ok (duplicate, a')
    → IsDeduplicated a
    → IsDeduplicated a'
unfolding consume_work
consume_work-IsDeduplicated input a a' duplicate h v k =
    elim (Bool-cases (contains input.event_id a.inbox)) [
      | inl y ↦ ground (arith, v k)
      | inr n ↦ ground (
        arith,
        v k,
        count_contains input.event_id a.inbox n,
        count_rows-append (λ (e : AuditEffect). e.event_id == k) a.effects (input ∷ []),
      )
    ]

-- The events delivered, in the order of their deliveries, each with what happens to its
-- transaction; one event may be delivered any number of times.
unfoldable pub deliver_all : List (OutboxEvent × Faults) → AuditTables → AuditTables
deliver_all [] a = a
deliver_all ((e, f) ∷ rest) a = deliver_all rest (handle f e a).database

pub handle-IsDeduplicated :
    (f : Faults) (e : OutboxEvent) (a : AuditTables)
    → IsDeduplicated a
    → IsDeduplicated (handle f e a).database
unfolding handle
handle-IsDeduplicated f e a v =
    with_transaction_inv IsDeduplicated f (consume_work (input_of e)) a v
      (λ duplicate a' h. consume_work-IsDeduplicated (input_of e) a a' duplicate h v)

-- However often each event is delivered, and whatever happens to the deliveries' transactions,
-- every event has at most one audit effect, and one exactly if its inbox claim was committed.
pub deliver_all-IsDeduplicated :
    (ds : List (OutboxEvent × Faults)) (a : AuditTables)
    → IsDeduplicated a
    → IsDeduplicated (deliver_all ds a)
unfolding deliver_all
deliver_all-IsDeduplicated [] a v = v
deliver_all-IsDeduplicated ((e, f) ∷ ds) a v =
    deliver_all-IsDeduplicated ds (handle f e a).database (handle-IsDeduplicated f e a v)

consume_work_claims :
    (input : AuditEffect) (a a' : AuditTables) (duplicate : Bool)
    → consume_work input a ≡ ok (duplicate, a')
    → 1 ≤ claims_of input.event_id a'
unfolding consume_work
consume_work_claims input a a' duplicate h = elim (Bool-cases (contains input.event_id a.inbox)) [
  | inl y ↦ ground (arith, contains_count input.event_id a.inbox y)
  | inr n ↦ ground arith
]

-- A delivery that the handler reports as done has left exactly one effect of its event.
pub handle_effect :
    (f : Faults) (e : OutboxEvent) (a : AuditTables) (duplicate : Bool)
    → IsDeduplicated a
    → (handle f e a).result ≡ ok duplicate
    → effects_of e.id (handle f e a).database ≡ 1
unfolding handle
handle_effect f e a duplicate v h =
    let done = with_transaction-ok f (consume_work (input_of e)) a duplicate h in
    omega (
      arith,
      consume_work_claims (input_of e) a (handle f e a).database duplicate done,
      handle-IsDeduplicated f e a v e.id,
    )
