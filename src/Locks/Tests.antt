-- ===== src/Locks/Tests.antt =====
-- Threads of the program with concrete operations.
use end_to_end_smkex.Base.{arith, ℕ, zero, suc, ◌≡◌, refl, true, false, List, [], ◌∷◌, All}
use end_to_end_smkex.Locks.Threads.{Action, acquire, Threads, Run, stay, put}
use end_to_end_smkex.Locks.Order.{CanStep}
use end_to_end_smkex.Locks.Programs.{
  msg_lock, buddy_list_lock, user_pool_lock, db_conn_lock, is_recursive, with_lock, nothing, when,
  Operation, connects, removes, adds, hears, reports, syncs, program, all_of,
}
use end_to_end_smkex.Locks.Lawful.{at_start}
use end_to_end_smkex.Locks.Starts.{is_start, starts-no_deadlock}
use end_to_end_smkex.Locks.Reports.{is_report, reports-no_deadlock}
use end_to_end_smkex.Locks.Deadlock.{sync_and_report-deadlock}
use end_to_end_smkex.Locks.PoolUse.{
  leaves, idle, asking, changing, changed, apply, joins, using, nested, Shared, go, use_pool,
  call_next, call_back, ask, modify_pool, change, end_modify_pool, Reach, here, later, resting,
  use_pool-called,
}
use end_to_end_smkex.Utils.Callbacks.{add_pool_data}
use end_to_end_smkex.Locks.Nested.{modify_nested-waits}

-- One thread adds a message, and one hears of a buddy.
abbrev starting : ℕ → List Operation
starting zero = adds true true 1 true ∷ []
starting (suc zero) = hears true true true true 0 true ∷ removes ∷ []
starting _ = []

starting-is_start : (i : ℕ) → All (λ o. is_start o ≡ true) (starting i)
starting-is_start zero = (refl, tt)
starting-is_start (suc zero) = (refl, (refl, tt))
starting-is_start (suc (suc i)) = tt

starts-no_deadlock_example : CanStep is_recursive (at_start starting)
unfolding all_of program with_lock nothing when
starts-no_deadlock_example =
    starts-no_deadlock starting starting-is_start (at_start starting) stay 1
      (acquire buddy_list_lock) _ refl

-- PJSUA reports on messages in two threads, and a third removes messages.
abbrev reporting : ℕ → List Operation
reporting zero = reports true 1 0 true ∷ []
reporting (suc zero) = reports true 0 2 false ∷ reports false 0 0 false ∷ []
reporting (suc (suc zero)) = removes ∷ connects ∷ []
reporting _ = []

reporting-is_report : (i : ℕ) → All (λ o. is_report o ≡ true) (reporting i)
reporting-is_report zero = (refl, tt)
reporting-is_report (suc zero) = (refl, (refl, tt))
reporting-is_report (suc (suc zero)) = (refl, (refl, tt))
reporting-is_report (suc (suc (suc i))) = tt

reports-no_deadlock_example : CanStep is_recursive (at_start reporting)
unfolding all_of program with_lock nothing
reports-no_deadlock_example =
    reports-no_deadlock reporting reporting-is_report (at_start reporting) stay 2 (acquire msg_lock)
      _ refl

-- One thread adds the messages of the connectors, and one hears that a message was not sent.
abbrev circle : ℕ → List Operation
circle zero = syncs 2 ∷ []
circle (suc zero) = reports true 1 0 false ∷ []
circle _ = []

sync_and_report-deadlock_example :
    (x : List Action) × (y : List Action) × (s : Threads) × Run is_recursive (at_start circle) s
    × ((t : Threads)
        → Run is_recursive s t
        → (t.todo 0 ≡ acquire user_pool_lock ∷ x) × (t.todo 1 ≡ acquire db_conn_lock ∷ y))
sync_and_report-deadlock_example =
    sync_and_report-deadlock circle 0 1 refl 1 0 0 false [] [] refl refl

-- A thread adds the callback 7 to a pool of 5 and 6. Then another has called 5.
abbrev in_use : Shared
in_use = record {
  pool = 5 ∷ 6 ∷ 7 ∷ [];
  place =
      put
        (put
          (put (put (put (put (λ i. idle) 1 (asking (joins 7))) 1 (changing (joins 7))) 1 changed) 1
            idle)
          0 (using [] (5 ∷ 6 ∷ 7 ∷ [])))
        0 (using (5 ∷ []) (6 ∷ 7 ∷ []));
}

Reach-in_use : Reach (resting (5 ∷ 6 ∷ [])) in_use
unfolding put apply add_pool_data
Reach-in_use =
    later
      (later
        (later
          (later
            (later (later here (ask 1 (joins 7) refl))
              (modify_pool 1 (joins 7) refl (λ j. ground (arith))))
            (change 1 (joins 7) refl))
          (end_modify_pool 1 refl))
        (use_pool 0 refl (λ j. ground (arith))))
      (call_next 0 5 [] (6 ∷ 7 ∷ []) refl)

use_pool-called_example : (5 ∷ 6 ∷ 7 ∷ []) ≡ in_use.pool
unfolding put
use_pool-called_example =
    use_pool-called (5 ∷ 6 ∷ []) in_use Reach-in_use 0 (5 ∷ []) (6 ∷ 7 ∷ []) refl

-- The callback 6 then takes 5 off the pool, and another thread wants to add 8.
abbrev in_callback : Shared
in_callback = go 0 (nested (leaves 5) (5 ∷ []) (6 ∷ 7 ∷ [])) in_use

modify_nested-waits_example :
    ((go 1 (asking (joins 8)) in_callback).place 0 ≡ nested (leaves 5) (5 ∷ []) (6 ∷ 7 ∷ []))
    × ((go 1 (asking (joins 8)) in_callback).pool ≡ in_callback.pool)
unfolding put
modify_nested-waits_example =
    modify_nested-waits (5 ∷ 6 ∷ []) in_callback
      (later Reach-in_use (call_back 0 6 (leaves 5) (5 ∷ []) (7 ∷ []) refl)) 0 (leaves 5) (5 ∷ [])
      (6 ∷ 7 ∷ []) refl (go 1 (asking (joins 8)) in_callback) (later here (ask 1 (joins 8) refl))
