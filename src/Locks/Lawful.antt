-- ===== src/Locks/Lawful.antt =====
-- The operations of the engine and the transport (auto_resend/src/MpAutoResendEngine.cpp,
-- data_msg/src/MpMsgTransport.cpp) give back what they take.
use end_to_end_smkex.Base.{ℕ, ◌≡◌, refl, ◌∙◌, Bool, true, List, [], ◌∷◌, none}
use end_to_end_smkex.Locks.Threads.{Threads, has, lawful, IsLawful}
use end_to_end_smkex.Locks.Programs.{
  msg_lock, started_lock, user_pool_lock, db_conn_lock, stack_lock, buddy_list_lock, with_lock,
  nothing, repeat, when, tell_connectors_locks, add_message_internal_locks, transport_send_locks,
  send_message_locks, start_engine_locks, message_status_locks, Operation, connects, removes, adds,
  enables, resends, hears, reports, syncs, program, all_of,
}
use end_to_end_smkex.Locks.Closed.{
  IsClosed, nothing-IsClosed, with_lock-IsClosed, repeat-IsClosed, when-IsClosed, both-IsClosed,
}

leaf-IsClosed : (l : ℕ) → IsClosed (with_lock l nothing)
leaf-IsClosed l = with_lock-IsClosed l nothing nothing-IsClosed

send_message_locks-IsClosed :
    (marked : ℕ) (finds : Bool) → IsClosed (send_message_locks marked finds)
send_message_locks-IsClosed marked finds = with_lock-IsClosed user_pool_lock _ (
    both-IsClosed (repeat marked tell_connectors_locks) (when finds transport_send_locks)
      (repeat-IsClosed marked tell_connectors_locks (leaf-IsClosed db_conn_lock))
      (when-IsClosed finds transport_send_locks (leaf-IsClosed msg_lock)))

start_engine_locks-IsClosed :
    (ready starts : Bool) (marked : ℕ) (finds : Bool)
    → IsClosed (start_engine_locks ready starts marked finds)
start_engine_locks-IsClosed ready starts marked finds =
    both-IsClosed (with_lock stack_lock nothing) (when ready _) (leaf-IsClosed stack_lock) (
      when-IsClosed ready _ (
        with_lock-IsClosed started_lock _
          (when-IsClosed starts _ (send_message_locks-IsClosed marked finds))))

message_status_locks-IsClosed :
    (lost marked : ℕ) (finds : Bool) → IsClosed (message_status_locks lost marked finds)
message_status_locks-IsClosed lost marked finds =
    both-IsClosed tell_connectors_locks _ (leaf-IsClosed db_conn_lock) (
      both-IsClosed (with_lock user_pool_lock (repeat lost tell_connectors_locks)) _
        (with_lock-IsClosed user_pool_lock _ (repeat-IsClosed lost _ (leaf-IsClosed db_conn_lock)))
        (with_lock-IsClosed started_lock _ (send_message_locks-IsClosed marked finds)))

program-IsClosed : (o : Operation) → IsClosed (program o)
unfolding program
program-IsClosed connects = leaf-IsClosed db_conn_lock
program-IsClosed removes =
    both-IsClosed (with_lock msg_lock nothing) (with_lock user_pool_lock nothing)
      (leaf-IsClosed msg_lock) (leaf-IsClosed user_pool_lock)
program-IsClosed (adds ready starts marked finds) =
    both-IsClosed add_message_internal_locks _ (leaf-IsClosed user_pool_lock)
      (start_engine_locks-IsClosed ready starts marked finds)
program-IsClosed (enables on ready starts marked finds) =
    both-IsClosed (with_lock started_lock nothing) _ (leaf-IsClosed started_lock)
      (when-IsClosed on _ (start_engine_locks-IsClosed ready starts marked finds))
program-IsClosed (resends found ready starts marked finds) =
    both-IsClosed (with_lock user_pool_lock nothing) _ (leaf-IsClosed user_pool_lock)
      (when-IsClosed found _ (start_engine_locks-IsClosed ready starts marked finds))
program-IsClosed (hears known online ready starts marked finds) =
    with_lock-IsClosed buddy_list_lock _ (
      when-IsClosed known _ (
        both-IsClosed (with_lock user_pool_lock nothing) _ (leaf-IsClosed user_pool_lock)
          (when-IsClosed online _ (start_engine_locks-IsClosed ready starts marked finds))))
program-IsClosed (reports ends lost marked finds) =
    with_lock-IsClosed msg_lock _
      (when-IsClosed ends _ (message_status_locks-IsClosed lost marked finds))
program-IsClosed (syncs messages) =
    with_lock-IsClosed db_conn_lock _ (repeat-IsClosed messages _ (leaf-IsClosed user_pool_lock))

all_of-lawful : (os : List Operation) → lawful [] (all_of os) ≡ true
unfolding all_of lawful
all_of-lawful [] = refl
all_of-lawful (o ∷ os) = program-IsClosed o [] (all_of os) ∙ all_of-lawful os

-- No thread holds a lock, and each has its operations to do.
abbrev pub at_start : (ℕ → List Operation) → Threads
at_start ops = record { owner = λ l. none; held = λ i. []; todo = λ i. all_of (ops i) }

pub at_start-IsLawful : (ops : ℕ → List Operation) → IsLawful (at_start ops)
unfolding has
at_start-IsLawful ops = record {
  owned = λ l i o. cc;
  own = λ l i h. cc;
  lawfully = λ i. all_of-lawful (ops i);
}
