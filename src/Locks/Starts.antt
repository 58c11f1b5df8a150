-- ===== src/Locks/Starts.antt =====
-- The operations that start the engine (auto_resend/src/MpAutoResendEngine.cpp), in threads of their own.
use end_to_end_smkex.Base.{
  ℕ, ◌≤◌, ◌≡◌, Bool, true, false, List, ◌∷◌, All, if◌then◌else◌, ◌==◌, arith,
}
use end_to_end_smkex.Locks.Threads.{Action, Threads, Run}
use end_to_end_smkex.Locks.Order.{CanStep, in_order-no_deadlock}
use end_to_end_smkex.Locks.Programs.{
  msg_lock, started_lock, user_pool_lock, db_conn_lock, stack_lock, buddy_list_lock, is_recursive,
  with_lock, nothing, add_message_internal_locks, start_engine_locks, Operation, connects, removes,
  adds, enables, resends, hears, reports, syncs, program,
}
use end_to_end_smkex.Locks.Closed.{with_lock-InOrder, when-InOrder, both-InOrder}
use end_to_end_smkex.Locks.Lawful.{at_start, at_start-IsLawful}
use end_to_end_smkex.Locks.Families.{
  Any, Orders, leaf-Orders, send_message_locks-Orders, all_of-ordered, All-Orders,
}

-- The buddy list's lock comes first, then `startedLock_`, `userPoolLock_`, and the others.
abbrev rank_starts : ℕ → ℕ
rank_starts l =
    if l == buddy_list_lock
    then 0
    else if l == started_lock
    then 1
    else if l == user_pool_lock
    then 2
    else 3

-- The operations that start the engine, and those that lock on their own.
abbrev pub is_start : Operation → Bool
is_start (reports ends lost marked finds) = false
is_start (syncs messages) = false
is_start _ = true

start_engine_locks-Orders :
    (m : ℕ) (ready starts : Bool) (marked : ℕ) (finds : Bool)
    → m ≤ 1
    → Orders rank_starts Any m (start_engine_locks ready starts marked finds)
start_engine_locks-Orders m ready starts marked finds le =
    both-InOrder is_recursive rank_starts Any m (with_lock stack_lock nothing) _
      (leaf-Orders rank_starts Any m stack_lock (omega (arith, le)))
      (when-InOrder is_recursive rank_starts Any m ready _ (
        with_lock-InOrder is_recursive rank_starts Any Any m started_lock _ le (λ held u. tt)
          (when-InOrder is_recursive rank_starts Any 2 starts _ (
            send_message_locks-Orders rank_starts Any 2 marked finds (omega arith) (omega arith)
              (λ held u. tt) (leaf-Orders rank_starts Any 3 msg_lock (omega arith))))))

start-Orders : (o : Operation) → is_start o ≡ true → Orders rank_starts Any 0 (program o)
unfolding program
start-Orders connects h = leaf-Orders rank_starts Any 0 db_conn_lock (omega arith)
start-Orders removes h =
    both-InOrder is_recursive rank_starts Any 0 (with_lock msg_lock nothing)
      (with_lock user_pool_lock nothing) (leaf-Orders rank_starts Any 0 msg_lock (omega arith))
      (leaf-Orders rank_starts Any 0 user_pool_lock (omega arith))
start-Orders (adds ready starts marked finds) h =
    both-InOrder is_recursive rank_starts Any 0 add_message_internal_locks _
      (leaf-Orders rank_starts Any 0 user_pool_lock (omega arith))
      (start_engine_locks-Orders 0 ready starts marked finds (omega arith))
start-Orders (enables on ready starts marked finds) h =
    both-InOrder is_recursive rank_starts Any 0 (with_lock started_lock nothing) _
      (leaf-Orders rank_starts Any 0 started_lock (omega arith))
      (when-InOrder is_recursive rank_starts Any 0 on _
        (start_engine_locks-Orders 0 ready starts marked finds (omega arith)))
start-Orders (resends found ready starts marked finds) h =
    both-InOrder is_recursive rank_starts Any 0 (with_lock user_pool_lock nothing) _
      (leaf-Orders rank_starts Any 0 user_pool_lock (omega arith))
      (when-InOrder is_recursive rank_starts Any 0 found _
        (start_engine_locks-Orders 0 ready starts marked finds (omega arith)))
start-Orders (hears known online ready starts marked finds) h =
    with_lock-InOrder is_recursive rank_starts Any Any 0 buddy_list_lock _ (omega arith)
      (λ held u. tt)
      (when-InOrder is_recursive rank_starts Any 1 known _ (
        both-InOrder is_recursive rank_starts Any 1 (with_lock user_pool_lock nothing) _
          (leaf-Orders rank_starts Any 1 user_pool_lock (omega arith))
          (when-InOrder is_recursive rank_starts Any 1 online _
            (start_engine_locks-Orders 1 ready starts marked finds (omega arith)))))
start-Orders (reports ends lost marked finds) h = cc
start-Orders (syncs messages) h = cc

-- Any number of threads that each call the operations that start the engine, remove messages or add
-- connectors, in any order, never come to a standstill, however their steps are interleaved: while a
-- thread has something left to do, some thread can go on.
pub starts-no_deadlock :
    (ops : ℕ → List Operation)
    → ((i : ℕ) → All (λ o. is_start o ≡ true) (ops i))
    → (t : Threads) → Run is_recursive (at_start ops) t
    → (i : ℕ) (a : Action) (later : List Action) → t.todo i ≡ a ∷ later
    → CanStep is_recursive t
starts-no_deadlock ops only t r i a later e =
    in_order-no_deadlock is_recursive rank_starts 4 (at_start ops) t (at_start-IsLawful ops)
      (λ j.
        all_of-ordered rank_starts (ops j)
          (All-Orders rank_starts is_start start-Orders (ops j) (only j)))
      (λ k. ground arith) r i a later e
