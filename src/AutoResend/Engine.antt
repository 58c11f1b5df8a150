-- ===== src/AutoResend/Engine.antt =====
-- `MpAutoResendEngine` (auto_resend/include/MpAutoResendEngine.h,
-- auto_resend/src/MpAutoResendEngine.cpp), on one thread: its locks are left out.
pub mod Sift
pub mod Sort
pub mod Stable
pub mod Run
pub mod Offers
pub mod Indexed
pub mod Fair
pub mod Tending
pub mod Commands
pub mod Removal
use end_to_end_smkex.Base.{
  ℕ, zero, suc, ◌+◌, ◌*◌, Bool, true, false, not, List, [], ◌∷◌, ◌++◌, Option, none, some, length,
  map, if◌then◌else◌, ltb, ◌==◌, ℤ, MpString, str_eq, Map, find, update, insert, erase, Outcome,
  done, exited, fault, ◌>>=◌, or_fault,
}
use end_to_end_smkex.Utils.{MpStatus}
use end_to_end_smkex.AutoResend.Payload.{
  MpMsgType, MpMsgPayload, mark_as_processed, mark_as_unprocessed,
}
use end_to_end_smkex.AutoResend.Pool
use end_to_end_smkex.AutoResend.Pool.{MpMsgPool, int_max, new_pool, set_weight, mark_as_clean}

-- A database connector (`MpIDBConnector`): its message type and its `getMessages`.
pub record MpIdbConnector : Type 0 where
  pub connector_type : MpMsgType
  pub stored : List MpMsgPayload

-- What the engine calls: `MpIMsgTransport::sendMessage`, `removeMessageForSerial`, and
-- `MpIDBConnector::messageStatus`.
pub data Call : Type 0 where
  send : MpMsgPayload → Call
  remove_for_serial : MpString → Call
  notify : MpIdbConnector → MpMsgPayload → MpStatus → Call

-- `msg_transport` is whether the pointer is set; `sip_stack` is `none` for a null pointer, else
-- what `isSipStackStarted` returns. `calls` are the calls made, in order.
pub record MpAutoResendEngine : Type 0 where
  pub msg_transport : Bool
  pub sip_stack : Option Bool
  pub db_connectors : List MpIdbConnector
  pub user_pool : Map MpMsgPool
  pub priority : List MpString
  pub started : Bool
  pub auto_resend_enabled : Bool
  pub calls : List Call

unfoldable pub add_db_connector : Option MpIdbConnector → MpAutoResendEngine → MpAutoResendEngine
add_db_connector none e = e
add_db_connector (some c) e = record e { db_connectors = e.db_connectors ++ c ∷ [] }

-- `getMessageType() ==`
unfoldable pub same_type : MpMsgType → MpMsgType → Bool
same_type MpMsgType.message MpMsgType.message = true
same_type MpMsgType.invitation MpMsgType.invitation = true
same_type MpMsgType.invitation_delete MpMsgType.invitation_delete = true
same_type MpMsgType.invitation_response MpMsgType.invitation_response = true
same_type _ _ = false

-- The connectors of the message's type are told its status.
unfoldable pub notify_all : List MpIdbConnector → MpMsgPayload → MpStatus → List Call
notify_all [] m status = []
notify_all (c ∷ cs) m status =
    let rest = notify_all cs m status in
    if same_type c.connector_type m.message_type then notify c m status ∷ rest else rest

-- The loop of `markUserPoolProcessed`.
unfoldable pub notify_messages : List MpIdbConnector → List MpMsgPayload → List Call
notify_messages cs [] = []
notify_messages cs (m ∷ ms) =
    notify_all cs (mark_as_processed m) MpStatus.message_not_sent ++ notify_messages cs ms

-- `markUserPoolProcessed`: the pool that it leaves, and the calls that it makes.
unfoldable pub mark_user_pool_processed : List MpIdbConnector → MpMsgPool → MpMsgPool × List Call
mark_user_pool_processed cs p =
    if length p.messages == 0 then (p, []) else if p.weight == int_max then (p, []) else (
      set_weight int_max (record p { messages = map mark_as_processed p.messages }),
      notify_messages cs p.messages,
    )

unfoldable pub mark_user_pool_as_clean : (auto_resend_enabled : Bool) → MpMsgPool → MpMsgPool
mark_user_pool_as_clean auto_resend_enabled p =
    let clean = mark_as_clean (set_weight 0 p) in
    if not auto_resend_enabled
    then clean
    else record clean { messages = map mark_as_unprocessed clean.messages }

-- Writes a pool back through the iterator that `find` returned.
unfoldable pub put_pool : MpString → MpMsgPool → MpAutoResendEngine → MpAutoResendEngine
put_pool serial p e = record e { user_pool = update serial p e.user_pool }

unfoldable pub add_message_internal : MpMsgPayload → MpAutoResendEngine → MpAutoResendEngine
add_message_internal m e = elim (find m.user_serial e.user_pool) [
  | some p ↦
      put_pool m.user_serial (mark_user_pool_as_clean e.auto_resend_enabled (Pool.add_message m p))
        e
  | none ↦ record e {
    user_pool =
        insert m.user_serial (mark_user_pool_as_clean e.auto_resend_enabled (new_pool m))
          e.user_pool;
    priority = e.priority ++ m.user_serial ∷ [];
  }
]

-- `syncWithDBConnectors`
unfoldable pub add_messages : List MpMsgPayload → MpAutoResendEngine → MpAutoResendEngine
add_messages [] e = e
add_messages (m ∷ ms) e = add_messages ms (add_message_internal m e)

unfoldable pub sync_connectors : List MpIdbConnector → MpAutoResendEngine → MpAutoResendEngine
sync_connectors [] e = e
sync_connectors (c ∷ cs) e = sync_connectors cs (add_messages c.stored e)

unfoldable pub sync_with_db_connectors : MpAutoResendEngine → MpAutoResendEngine
sync_with_db_connectors e = sync_connectors e.db_connectors e

-- `weightSortCmp`: `end()` is dereferenced if a serial has no pool.
unfoldable pub weight_sort_cmp : Map MpMsgPool → MpString → MpString → Outcome Bool
weight_sort_cmp pools p1 p2 = do
  a ← or_fault (find p1 pools)
  b ← or_fault (find p2 pools)
  done (ltb b.weight a.weight)

-- One run of the inner loop from the entry `x` on: the entries, and whether it swapped.
unfoldable pub bubble : Map MpMsgPool → MpString → List MpString → Outcome (List MpString × Bool)
bubble pools x [] = done (x ∷ [], false)
bubble pools x (y ∷ ys) = do
  greater ← weight_sort_cmp pools x y
  (rest, swapped) ← bubble pools (if greater then x else y) ys
  done ((if greater then y else x) ∷ rest, if greater then true else swapped)

-- The `while` loop, for at most `n` runs.
unfoldable pub bubble_until_sorted :
    ℕ → Map MpMsgPool → MpString → List MpString → Outcome (List MpString)
bubble_until_sorted zero pools x xs = fault
bubble_until_sorted (suc n) pools x xs = do
  (sorted, swapped) ← bubble pools x xs
  if swapped
      then elim sorted [ [] ↦ fault | y ∷ ys ↦ bubble_until_sorted n pools y ys ]
      else done sorted

-- `sortMessages`; `length²` runs that swap are more than there can be.
unfoldable pub sort_messages : MpAutoResendEngine → Outcome MpAutoResendEngine
sort_messages e = elim e.priority [
  | [] ↦ done e
  | x ∷ xs ↦ do
    sorted ← bubble_until_sorted (suc (length e.priority * length e.priority)) e.user_pool x xs
    done (record e { priority = sorted })
]
