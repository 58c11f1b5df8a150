-- ===== src/Locks/Programs.antt =====
-- What the operations of `MpAutoResendEngine` (auto_resend/src/MpAutoResendEngine.cpp), `MpMsgTransport`
-- (data_msg/src/MpMsgTransport.cpp) and `MpBuddyList::buddy_state` (buddy/src/MpBuddyList.cpp) lock and
-- unlock, in order. What depends on the data is left open: how many messages a loop meets, and which
-- branch is taken.
use end_to_end_smkex.Base.{ℕ, zero, suc, Bool, true, false, List, [], ◌∷◌, if◌then◌else◌, ◌==◌}
use end_to_end_smkex.Locks.Threads.{Action, acquire, release}

-- `msgLock_`, `startedLock_`, `userPoolLock_` (its write side) and `dbConnLock_`, and `lock_` of the SIP
-- stack and of the buddy list
abbrev pub msg_lock : ℕ
msg_lock = 0

abbrev pub started_lock : ℕ
started_lock = 1

abbrev pub user_pool_lock : ℕ
user_pool_lock = 2

abbrev pub db_conn_lock : ℕ
db_conn_lock = 3

abbrev pub stack_lock : ℕ
stack_lock = 4

abbrev pub buddy_list_lock : ℕ
buddy_list_lock = 5

-- `MpLock` is recursive, `MpRWLock` is not.
abbrev pub is_recursive : ℕ → Bool
is_recursive l = if l == user_pool_lock then false else true

-- The actions of a call, before those that follow it.
abbrev pub Program : Type 0
Program = List Action → List Action

unfoldable pub with_lock : ℕ → Program → Program
with_lock l body later = acquire l ∷ body (release l ∷ later)

unfoldable pub nothing : Program
nothing later = later

unfoldable pub repeat : ℕ → Program → Program
repeat zero body later = later
repeat (suc n) body later = body (repeat n body later)

unfoldable pub when : Bool → Program → Program
when true body later = body later
when false body later = later

-- The loop over the connectors.
abbrev pub tell_connectors_locks : Program
tell_connectors_locks = with_lock db_conn_lock nothing

abbrev pub add_db_connector_locks : Program
add_db_connector_locks = with_lock db_conn_lock nothing

abbrev pub add_message_internal_locks : Program
add_message_internal_locks = with_lock user_pool_lock nothing

-- `messages` are stored in the connectors.
abbrev pub sync_with_db_connectors_locks : (messages : ℕ) → Program
sync_with_db_connectors_locks messages =
    with_lock db_conn_lock (repeat messages add_message_internal_locks)

-- `MpMsgTransport::sendMessage`
abbrev pub transport_send_locks : Program
transport_send_locks = with_lock msg_lock nothing

-- `marked` messages are in the dirty pools on the way, and a message is found or not.
abbrev pub send_message_locks : (marked : ℕ) (finds : Bool) → Program
send_message_locks marked finds =
    with_lock user_pool_lock
      (λ later. repeat marked tell_connectors_locks (when finds transport_send_locks later))

-- `starts` is whether the stack is started and the engine is not.
abbrev pub start_engine_locks : (ready starts : Bool) (marked : ℕ) (finds : Bool) → Program
start_engine_locks ready starts marked finds later =
    with_lock stack_lock nothing
      (when ready (with_lock started_lock (when starts (send_message_locks marked finds))) later)

-- `lost` is the number of messages in the pool of a message that was not sent, `marked` and `finds` are
-- those of the next send.
abbrev pub message_status_locks : (lost marked : ℕ) (finds : Bool) → Program
message_status_locks lost marked finds later = tell_connectors_locks (
    with_lock user_pool_lock (repeat lost tell_connectors_locks)
      (with_lock started_lock (send_message_locks marked finds) later))

-- `ends` is whether the transfer has come to its end with this report.
abbrev pub on_send_msg_done_locks : (ends : Bool) (lost marked : ℕ) (finds : Bool) → Program
on_send_msg_done_locks ends lost marked finds =
    with_lock msg_lock (when ends (message_status_locks lost marked finds))

-- `MpBuddyList::buddy_state` with the engine's `buddy_state2`.
abbrev pub buddy_state_locks :
    (known online ready starts : Bool) (marked : ℕ) (finds : Bool) → Program
buddy_state_locks known online ready starts marked finds = with_lock buddy_list_lock (
    when known (λ later.
      with_lock user_pool_lock nothing
        (when online (start_engine_locks ready starts marked finds) later)))

abbrev pub remove_messages_for_serial_locks : Program
remove_messages_for_serial_locks later =
    with_lock msg_lock nothing (with_lock user_pool_lock nothing later)

abbrev pub add_message_locks : (ready starts : Bool) (marked : ℕ) (finds : Bool) → Program
add_message_locks ready starts marked finds later =
    add_message_internal_locks (start_engine_locks ready starts marked finds later)

abbrev pub set_auto_resend_enabled_locks :
    (enables ready starts : Bool) (marked : ℕ) (finds : Bool) → Program
set_auto_resend_enabled_locks enables ready starts marked finds later =
    with_lock started_lock nothing
      (when enables (start_engine_locks ready starts marked finds) later)

abbrev pub resend_message_locks : (found ready starts : Bool) (marked : ℕ) (finds : Bool) → Program
resend_message_locks found ready starts marked finds later =
    with_lock user_pool_lock nothing
      (when found (start_engine_locks ready starts marked finds) later)

-- An operation with what its data decides.
pub data Operation : Type 0 where
  connects removes : Operation
  adds : (ready starts : Bool) (marked : ℕ) (finds : Bool) → Operation
  enables : (enables ready starts : Bool) (marked : ℕ) (finds : Bool) → Operation
  resends : (found ready starts : Bool) (marked : ℕ) (finds : Bool) → Operation
  hears : (known online ready starts : Bool) (marked : ℕ) (finds : Bool) → Operation
  reports : (ends : Bool) (lost marked : ℕ) (finds : Bool) → Operation
  syncs : (messages : ℕ) → Operation

unfoldable pub program : Operation → Program
program connects = add_db_connector_locks
program removes = remove_messages_for_serial_locks
program (adds ready starts marked finds) = add_message_locks ready starts marked finds
program (enables on ready starts marked finds) =
    set_auto_resend_enabled_locks on ready starts marked finds
program (resends found ready starts marked finds) =
    resend_message_locks found ready starts marked finds
program (hears known online ready starts marked finds) =
    buddy_state_locks known online ready starts marked finds
program (reports ends lost marked finds) = on_send_msg_done_locks ends lost marked finds
program (syncs messages) = sync_with_db_connectors_locks messages

unfoldable pub all_of : List Operation → List Action
all_of [] = []
all_of (o ∷ os) = program o (all_of os)
