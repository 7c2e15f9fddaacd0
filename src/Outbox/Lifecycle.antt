-- ===== src/Outbox/Lifecycle.antt =====
-- The life cycle of an outbox event: what a claim, a failure and a replay make of it, and the
-- worker's single chain of polls.
use pulse_ledger.Base.{
  ℕ, ◌+◌, ◌*◌, ◌≡◌, refl, true, false, not, ◌&&◌, ◌||◌, some, List, [], ◌∷◌, arith, ltb, leb, ◌==◌,
  find, update_rows, count_rows, contains,
}
use pulse_ledger.Outbox.Events.{OutboxEvent}
use pulse_ledger.Outbox.Repository.{
  is_claimable, claim_event, is_parked, reset_event, find_by_id, replay,
}
use pulse_ledger.Outbox.Worker.{WorkerState, start, stop, timer_fires, poll_ends}

-- A claimed event is under a lease: it cannot be claimed again before the lease has run out, and
-- can from then on, if it is still in processing; its attempt has been counted.
pub claim_event_lease :
    (now lease later : ℕ) (locked : List ℕ) (e : OutboxEvent)
    → contains e.id locked ≡ false
    → ((claim_event now lease e).attempts ≡ e.attempts + 1)
      × (is_claimable later locked (claim_event now lease e) ≡ leb (now + lease * 1000) later)
claim_event_lease now lease later locked e n = (refl, rw n (ground arith))

-- A parked event is never claimed, at whatever time, until it is replayed; then it is claimable at
-- once, with no attempts counted and its last error kept.
parked_lifecycle :
    (now : ℕ) (locked : List ℕ) (e : OutboxEvent)
    → is_parked e ≡ true
    → contains e.id locked ≡ false
    → (is_claimable now locked e ≡ false)
      × (is_claimable now locked (reset_event e) ≡ true)
      × ((reset_event e).attempts ≡ 0)
      × ((reset_event e).last_error ≡ e.last_error)
parked_lifecycle now locked e p n = ground arith

none_updated :
    (id : ℕ) (rows : List OutboxEvent)
    → count_rows (λ e. e.id == id && is_parked e) rows ≡ 0
    → update_rows (λ e. e.id == id && is_parked e) reset_event rows ≡ rows
none_updated id [] c = refl
none_updated id (r ∷ rows) c = ground (arith, none_updated id rows)

find_updated :
    (id : ℕ) (rows : List OutboxEvent) (e : OutboxEvent)
    → find (λ x. x.id == id) rows ≡ some e
    → is_parked e ≡ true
    → (ltb 0 (count_rows (λ x. x.id == id && is_parked x) rows) ≡ true)
      × (find (λ x. x.id == id) (update_rows (λ x. x.id == id && is_parked x) reset_event rows)
          ≡ some (reset_event e))
find_updated id [] e h p = cc
find_updated id (r ∷ rows) e h p = ground (arith, find_updated id rows e)

-- `replay` of an event that is found and is parked reports success, and the event is then
-- pending again, with no attempts.
pub replay_outcome :
    (id : ℕ) (rows : List OutboxEvent) (e : OutboxEvent)
    → find_by_id id rows ≡ some e
    → is_parked e ≡ true
    → ((replay id rows).0 ≡ true) × (find_by_id id (replay id rows).1 ≡ some (reset_event e))
unfolding replay find_by_id
replay_outcome id rows e h p = find_updated id rows e h p

-- When `replay` reports that it found no parked event of that identifier, the table is unchanged.
pub replay_refused :
    (id : ℕ) (rows : List OutboxEvent) → (replay id rows).0 ≡ false → (replay id rows).1 ≡ rows
unfolding replay
replay_refused id rows h = none_updated id rows (ground arith)

-- The steps of a worker's life, in any order.
pub data WorkerStep : Type 0 where
  starts stops fires ends : WorkerStep

unfoldable pub worker_step : WorkerStep → WorkerState → WorkerState
worker_step starts = start
worker_step stops = stop
worker_step fires = timer_fires
worker_step ends = poll_ends

unfoldable pub worker_run : List WorkerStep → WorkerState → WorkerState
worker_run [] s = s
worker_run (x ∷ xs) s = worker_run xs (worker_step x s)

abbrev pub idle_worker : WorkerState
idle_worker = record { running = false; timer = false; in_flight = false }

-- One chain of polls at most, and none forgotten: a timer is set only while no poll is under way
-- and the worker runs; and a running worker has a poll scheduled or under way.
pub record IsChained (s : WorkerState) : Type 0 where
  pub single : (s.timer && s.in_flight) ≡ false
  pub armed : (not s.timer || s.running) ≡ true
  pub awake : (not s.running || s.timer || s.in_flight) ≡ true

worker_step-IsChained :
    (x : WorkerStep) (s : WorkerState) → IsChained s → IsChained (worker_step x s)
unfolding worker_step start stop timer_fires poll_ends
worker_step-IsChained starts s v = ground arith
worker_step-IsChained stops s v = ground arith
worker_step-IsChained fires s v = ground arith
worker_step-IsChained ends s v = ground arith

run-IsChained : (xs : List WorkerStep) (s : WorkerState) → IsChained s → IsChained (worker_run xs s)
unfolding worker_run
run-IsChained [] s v = v
run-IsChained (x ∷ xs) s v = run-IsChained xs (worker_step x s) (worker_step-IsChained x s v)

-- Whatever the order in which a worker is started, stopped, woken by its timer and told that its
-- poll has ended, it never has two polls at once or a poll and a timer, sets no timer when
-- stopped, and always has its next poll ahead or under way when running.
pub worker_run-IsChained : (xs : List WorkerStep) → IsChained (worker_run xs idle_worker)
worker_run-IsChained xs = run-IsChained xs idle_worker (ground arith)
