-- ===== src/Locks/Reports.antt =====
-- The reports of PJSUA about messages (data_msg/src/MpMsgTransport.cpp,
-- auto_resend/src/MpAutoResendEngine.cpp), in threads of their own.
use end_to_end_smkex.Base.{
  ℕ, ◌≡◌, refl, Bool, true, false, List, ◌∷◌, All, if◌then◌else◌, ltb, arith,
}
use end_to_end_smkex.Locks.Threads.{Action, Threads, has, Run}
use end_to_end_smkex.Locks.Order.{CanStep, in_order-no_deadlock}
use end_to_end_smkex.Locks.Programs.{
  msg_lock, started_lock, user_pool_lock, db_conn_lock, is_recursive, with_lock, nothing, repeat,
  tell_connectors_locks, message_status_locks, Operation, connects, removes, adds, enables, resends,
  hears, reports, syncs, program,
}
use end_to_end_smkex.Locks.Closed.{
  nothing-InOrder, with_lock-InOrder, relock-InOrder, repeat-InOrder, when-InOrder, both-InOrder,
}
use end_to_end_smkex.Locks.Lawful.{at_start, at_start-IsLawful}
use end_to_end_smkex.Locks.Families.{
  Any, Orders, leaf-Orders, send_message_locks-Orders, all_of-ordered, All-Orders,
}

-- The locks are numbered in the order in which a report takes them.
abbrev rank_reports : ℕ → ℕ
rank_reports l = if ltb l 4 then l else 4

-- The reports of PJSUA about messages, and the operations that lock on their own.
abbrev pub is_report : Operation → Bool
is_report connects = true
is_report removes = true
is_report (reports ends lost marked finds) = true
is_report _ = false

-- `msgLock_` is held.
abbrev InTransfer : List ℕ → Type 0
InTransfer held = has msg_lock held ≡ true

in_transfer : (l : ℕ) (held : List ℕ) → InTransfer held → InTransfer (l ∷ held)
unfolding has
in_transfer l held u = ground (arith, u)

transfer_starts : (held : List ℕ) → InTransfer (msg_lock ∷ held)
unfolding has
transfer_starts held = refl

message_status_locks-Orders :
    (lost marked : ℕ) (finds : Bool)
    → Orders rank_reports InTransfer 1 (message_status_locks lost marked finds)
message_status_locks-Orders lost marked finds =
    both-InOrder is_recursive rank_reports InTransfer 1 tell_connectors_locks _
      (leaf-Orders rank_reports InTransfer 1 db_conn_lock (omega arith))
      (both-InOrder is_recursive rank_reports InTransfer 1
        (with_lock user_pool_lock (repeat lost tell_connectors_locks)) _
        (with_lock-InOrder is_recursive rank_reports InTransfer Any 1 user_pool_lock _ (omega arith)
          (λ held u. tt)
          (repeat-InOrder is_recursive rank_reports Any 3 lost _
            (leaf-Orders rank_reports Any 3 db_conn_lock (omega arith))))
        (with_lock-InOrder is_recursive rank_reports InTransfer InTransfer 1 started_lock _
          (omega arith) (in_transfer started_lock)
          (send_message_locks-Orders rank_reports InTransfer 2 marked finds (omega arith)
            (omega arith) (in_transfer user_pool_lock)
            (relock-InOrder is_recursive rank_reports InTransfer 3 msg_lock nothing refl
              (λ held u. u) (in_transfer msg_lock)
              (nothing-InOrder is_recursive rank_reports InTransfer 3)))))

report-Orders : (o : Operation) → is_report o ≡ true → Orders rank_reports Any 0 (program o)
unfolding program
report-Orders connects h = leaf-Orders rank_reports Any 0 db_conn_lock (omega arith)
report-Orders removes h =
    both-InOrder is_recursive rank_reports Any 0 (with_lock msg_lock nothing)
      (with_lock user_pool_lock nothing) (leaf-Orders rank_reports Any 0 msg_lock (omega arith))
      (leaf-Orders rank_reports Any 0 user_pool_lock (omega arith))
report-Orders (reports ends lost marked finds) h =
    with_lock-InOrder is_recursive rank_reports Any InTransfer 0 msg_lock _ (omega arith)
      (λ held u. transfer_starts held)
      (when-InOrder is_recursive rank_reports InTransfer 1 ends _
        (message_status_locks-Orders lost marked finds))
report-Orders (adds ready starts marked finds) h = cc
report-Orders (enables on ready starts marked finds) h = cc
report-Orders (resends found ready starts marked finds) h = cc
report-Orders (hears known online ready starts marked finds) h = cc
report-Orders (syncs messages) h = cc

-- Any number of threads in which PJSUA reports on messages, messages are removed or connectors added, in
-- any order, never come to a standstill, however their steps are interleaved: while a thread has
-- something left to do, some thread can go on.
pub reports-no_deadlock :
    (ops : ℕ → List Operation)
    → ((i : ℕ) → All (λ o. is_report o ≡ true) (ops i))
    → (t : Threads) → Run is_recursive (at_start ops) t
    → (i : ℕ) (a : Action) (later : List Action) → t.todo i ≡ a ∷ later
    → CanStep is_recursive t
reports-no_deadlock ops only t r i a later e =
    in_order-no_deadlock is_recursive rank_reports 5 (at_start ops) t (at_start-IsLawful ops)
      (λ j.
        all_of-ordered rank_reports (ops j)
          (All-Orders rank_reports is_report report-Orders (ops j) (only j)))
      (λ k. ground arith) r i a later e
