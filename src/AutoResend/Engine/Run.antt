-- ===== src/AutoResend/Engine/Run.antt =====
-- The sending, the callbacks and the commands of auto_resend/src/MpAutoResendEngine.cpp.
use end_to_end_smkex.Base.{
  ◌+◌, Bool, true, false, not, ◌&&◌, List, [], ◌∷◌, ◌++◌, none, some, if◌then◌else◌, ℤ, is_positive,
  MpString, str_eq, Map, find, update, erase, Outcome, done, exited, fault, ◌>>=◌,
}
use end_to_end_smkex.Utils.{MpStatus, is_message_sent}
use end_to_end_smkex.AutoResend.Payload.{MpMsgPayload}
use end_to_end_smkex.AutoResend.Pool.{
  MpMsgPool, set_weight, mark_as_clean, mark_as_dirty, is_pool_empty, get_message, rm_message,
  get_index_for_uid, get_processed_status_at, mark_msg_as_processed, mark_msg_as_unprocessed,
}
use end_to_end_smkex.AutoResend.Engine.{
  MpAutoResendEngine, send, remove_for_serial, mark_user_pool_processed, mark_user_pool_as_clean,
  notify_all, put_pool, add_message_internal, sort_messages,
}

-- `markUserPoolProcessed` on the pool of a serial.
unfoldable pub mark_processed : MpString → MpMsgPool → MpAutoResendEngine → MpAutoResendEngine
mark_processed serial p e =
    let (p', told) = mark_user_pool_processed e.db_connectors p in
    record e { user_pool = update serial p' e.user_pool; calls = e.calls ++ told }

-- `msgTransport_->sendMessage`
unfoldable pub hand_over : MpMsgPayload → MpAutoResendEngine → Outcome MpAutoResendEngine
hand_over m e =
    if e.msg_transport then done (record e { calls = e.calls ++ send m ∷ [] }) else fault

-- The loop of `sendMessage` over the serials, and its end when none has a message to send.
unfoldable pub send_first : List MpString → MpAutoResendEngine → Outcome MpAutoResendEngine
send_first [] e = done (record e { started = false })
send_first (serial ∷ serials) e = elim (find serial e.user_pool) [
  | none ↦ send_first serials e
  | some p ↦ elim (is_pool_empty p) [
    | true ↦ send_first serials e
    | false ↦ elim p.dirty [
      | true ↦ send_first serials (mark_processed serial p e)
      | false ↦ do
        m ← get_message e.auto_resend_enabled p
        elim (is_positive m.number_of_retries) [
          | true ↦ hand_over m e
          | false ↦ send_first serials e
        ]
    ]
  ]
]

unfoldable pub send_message : MpAutoResendEngine → Outcome MpAutoResendEngine
send_message e = do sorted ← sort_messages e; send_first sorted.priority sorted

-- `startEngine`: without a stack its `assert` ends the program.
unfoldable pub start_engine : MpAutoResendEngine → Outcome MpAutoResendEngine
start_engine e = elim e.sip_stack [
  | none ↦ exited
  | some stack_started ↦
      if not stack_started
      then done e
      else if e.started
      then done e
      else send_message (record e { started = true })
]

unfoldable pub add_message : MpMsgPayload → MpAutoResendEngine → Outcome MpAutoResendEngine
add_message m e = start_engine (add_message_internal m e)

-- The first occurrence of a serial leaves the list.
unfoldable pub remove_serial : MpString → List MpString → List MpString
remove_serial serial [] = []
remove_serial serial (k ∷ ks) =
    let rest = remove_serial serial ks in if str_eq k serial then ks else k ∷ rest

-- The part of `messageStatus` under the pool lock, on the pool of the message's serial.
unfoldable pub settle :
    MpMsgPayload → MpStatus → MpMsgPool → MpAutoResendEngine → MpAutoResendEngine
settle m status p₀ e =
    let p = mark_msg_as_processed m.uid p₀ in
    if is_message_sent status
    then (let p' = rm_message m.uid p in
        if is_pool_empty p'
        then record e {
          priority = remove_serial m.user_serial e.priority;
          user_pool = erase m.user_serial e.user_pool;
        }
        else put_pool m.user_serial (set_weight (p'.weight + 1) p') e)
    else mark_processed m.user_serial (mark_as_dirty p) e

unfoldable pub message_status :
    MpMsgPayload → MpStatus → MpAutoResendEngine → Outcome MpAutoResendEngine
message_status m status e =
    let e₁ = record e { calls = e.calls ++ notify_all e.db_connectors m status } in
    send_message
      (elim (find m.user_serial e₁.user_pool) [ none ↦ e₁ | some p ↦ settle m status p e₁ ])

-- `buddy_state2`: the buddy's serial, and whether its state is `MP_BUDDY_ONLINE`.
unfoldable pub buddy_state2 : MpString → Bool → MpAutoResendEngine → Outcome MpAutoResendEngine
buddy_state2 serial online e = elim (find serial e.user_pool) [
  | none ↦ done e
  | some p ↦
      if online
      then start_engine (put_pool serial (mark_user_pool_as_clean e.auto_resend_enabled p) e)
      else done e
]

unfoldable pub is_message_processing : MpString → ℤ → MpAutoResendEngine → Bool
is_message_processing serial uid e = elim (find serial e.user_pool) [
  | none ↦ false
  | some p ↦ not (get_processed_status_at uid p)
]

-- `removeMessagesForSerial`: without a transport its `assert` ends the program.
unfoldable pub remove_messages_for_serial :
    MpString → MpAutoResendEngine → Outcome MpAutoResendEngine
remove_messages_for_serial serial e =
    if e.msg_transport
    then done (record e {
      calls = e.calls ++ remove_for_serial serial ∷ [];
      user_pool = erase serial e.user_pool;
    })
    else exited

unfoldable pub set_auto_resend_enabled : Bool → MpAutoResendEngine → Outcome MpAutoResendEngine
set_auto_resend_enabled enabled e =
    let e' = record e { auto_resend_enabled = enabled } in
    if not e.auto_resend_enabled && enabled then start_engine e' else done e'

-- The last loop of `resendMessage`: weight 0 for the serial, one more for every other.
unfoldable pub prioritize : MpString → Map MpMsgPool → Map MpMsgPool
prioritize serial [] = []
prioritize serial ((k, p) ∷ pools) =
    (k, if str_eq k serial then set_weight 0 p else set_weight (p.weight + 1) p)
    ∷ prioritize serial pools

unfoldable pub resend_message :
    MpString → ℤ → MpAutoResendEngine → Outcome (Bool × MpAutoResendEngine)
resend_message serial msg_id e = elim (find serial e.user_pool) [
  | none ↦ done (false, e)
  | some p ↦ elim (get_index_for_uid msg_id p) [
    | none ↦ done (false, e)
    | some i ↦ do
      let p' = mark_as_clean (mark_msg_as_unprocessed msg_id p)
      let e₁ = put_pool serial p' e
      e₂ ← start_engine (record e₁ { user_pool = prioritize serial e₁.user_pool })
      done (true, e₂)
  ]
]
