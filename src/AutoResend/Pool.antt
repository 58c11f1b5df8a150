-- ===== src/AutoResend/Pool.antt =====
-- `MpMsgPool` (auto_resend/include/MpMsgPool.h, auto_resend/src/MpMsgPool.cpp): the unsent messages
-- of one user. A message's buffer is a block of its length, which a copy leaves as it is.
use end_to_end_smkex.Base.{
  ℕ, zero, suc, ◌%◌, ◌^◌, Bool, true, false, not, ◌||◌, List, [], ◌∷◌, ◌++◌, Option, none, some,
  get_elem?, if◌then◌else◌, ltb, ℤ, pos, int_eq, Outcome, done, fault,
}
use end_to_end_smkex.Utils.Buffer.{empty}
use end_to_end_smkex.AutoResend.Payload.{
  MpMsgPayload, message, is_message, new_payload, mark_as_processed, mark_as_unprocessed,
}

abbrev pub int_max : ℕ
int_max = 2147483647

pub record MpMsgPool : Type 0 where
  pub messages : List MpMsgPayload
  pub weight : ℕ
  pub mutable_weight : Bool
  pub dirty : Bool

-- The constructor.
unfoldable pub new_pool : MpMsgPayload → MpMsgPool
new_pool m = record { messages = m ∷ []; weight = 1; mutable_weight = true; dirty = false }

unfoldable pub add_message : MpMsgPayload → MpMsgPool → MpMsgPool
add_message m p = record p { messages = p.messages ++ m ∷ [] }

-- `setWeight`: its `int` wraps around, and what is below 0 becomes 0.
unfoldable pub set_weight : ℕ → MpMsgPool → MpMsgPool
set_weight n p = let low = n % 2 ^ 32 in record p { weight = if ltb int_max low then 0 else low }

unfoldable pub mark_as_dirty : MpMsgPool → MpMsgPool
mark_as_dirty p = record p { dirty = true }

unfoldable pub mark_as_clean : MpMsgPool → MpMsgPool
mark_as_clean p = record p { dirty = false }

unfoldable pub is_pool_empty : MpMsgPool → Bool
is_pool_empty p = elim p.messages [ [] ↦ true | m ∷ ms ↦ false ]

-- The first message that the loop of `getMessage` returns.
unfoldable pub first_deliverable : List MpMsgPayload → Option MpMsgPayload
first_deliverable [] = none
first_deliverable (m ∷ ms) =
    let rest = first_deliverable ms in
    if not (is_message m.message_type) || not m.processed then some m else rest

-- `getMessage`: `front` of an empty queue is undefined; with no message to deliver it is a new one
-- without retries.
unfoldable pub get_message : Bool → MpMsgPool → Outcome MpMsgPayload
get_message auto_resend_enabled p =
    if auto_resend_enabled
    then elim p.messages [ [] ↦ fault | m ∷ ms ↦ done m ]
    else elim (first_deliverable p.messages) [
      | some m ↦ done m
      | none ↦ new_payload [] empty (pos 0) (pos 0) (pos 0) message false
    ]

unfoldable pub remove_first : ℤ → List MpMsgPayload → List MpMsgPayload
remove_first msg_id [] = []
remove_first msg_id (m ∷ ms) =
    let rest = remove_first msg_id ms in if int_eq m.uid msg_id then ms else m ∷ rest

unfoldable pub rm_message : ℤ → MpMsgPool → MpMsgPool
rm_message msg_id p = record p { messages = remove_first msg_id p.messages }

unfoldable pub has_uid : ℤ → List MpMsgPayload → Bool
has_uid msg_id [] = false
has_uid msg_id (m ∷ ms) = let rest = has_uid msg_id ms in if int_eq m.uid msg_id then true else rest

unfoldable pub is_message_added : ℤ → MpMsgPool → Bool
is_message_added msg_id p = has_uid msg_id p.messages

-- `getIndexForUID`; `none` is its -1.
unfoldable pub index_from : ℕ → ℤ → List MpMsgPayload → Option ℕ
index_from i msg_uid [] = none
index_from i msg_uid (m ∷ ms) =
    let rest = index_from (suc i) msg_uid ms in if int_eq m.uid msg_uid then some i else rest

unfoldable pub get_index_for_uid : ℤ → MpMsgPool → Option ℕ
get_index_for_uid msg_uid p = index_from 0 msg_uid p.messages

unfoldable pub get_processed_status_at : ℤ → MpMsgPool → Bool
get_processed_status_at msg_uid p = elim (get_index_for_uid msg_uid p) [
  | none ↦ false
  | some i ↦ elim (get_elem? p.messages i) [ none ↦ false | some m ↦ m.processed ]
]

-- A write through `messages_.at(index)`.
unfoldable pub modify_at : ℕ → (MpMsgPayload → MpMsgPayload) → List MpMsgPayload → List MpMsgPayload
modify_at i f [] = []
modify_at zero f (m ∷ ms) = f m ∷ ms
modify_at (suc i) f (m ∷ ms) = m ∷ modify_at i f ms

unfoldable pub mark_msg_as_unprocessed : ℤ → MpMsgPool → MpMsgPool
mark_msg_as_unprocessed msg_uid p = elim (get_index_for_uid msg_uid p) [
  | none ↦ p
  | some i ↦ record p { messages = modify_at i mark_as_unprocessed p.messages }
]

unfoldable pub mark_msg_as_processed : ℤ → MpMsgPool → MpMsgPool
mark_msg_as_processed msg_uid p = elim (get_index_for_uid msg_uid p) [
  | none ↦ p
  | some i ↦ record p { messages = modify_at i mark_as_processed p.messages }
]
