-- ===== src/DataMsg/Transport.antt =====
-- `MpMsgTransport` (data_msg/include/MpMsgTransport.h, data_msg/src/MpMsgTransport.cpp): one message
-- at a time, sent again until it arrives or its retries are spent.
use end_to_end_smkex.Base.{
  Bool, not, ◌&&◌, List, [], ◌∷◌, ◌++◌, if◌then◌else◌, ℤ, pos, is_positive, is_zero, decrement,
  MpString, str_eq,
}
use end_to_end_smkex.Utils.{MpStatus, is_message_sent}
use end_to_end_smkex.Utils.Buffer.{MpBuffer}
use end_to_end_smkex.AutoResend.Payload.{MpMsgPayload}

-- What the transport calls: `sendMsg` of the SIP stack, and `messageStatus` of its notifier.
pub data Event : Type 0 where
  sip_message : MpString → MpBuffer → Event
  reported : MpMsgPayload → MpStatus → Event

-- `msg_notif` is whether the notifier is set. `events` are the calls made, in order.
pub record MpMsgTransport : Type 0 where
  pub msg_notif : Bool
  pub msg : MpMsgPayload
  pub counter : ℤ
  pub events : List Event

-- `sendMsg` of the current message.
unfoldable pub send_current : MpMsgTransport → MpMsgTransport
send_current t = record t { events = t.events ++ sip_message t.msg.user_serial t.msg.payload ∷ [] }

unfoldable pub send_message : MpMsgPayload → MpMsgTransport → MpMsgTransport
send_message m t =
    let t' = record t { msg = m; counter = m.number_of_retries } in
    if is_positive m.number_of_retries then send_current t' else t'

unfoldable pub set_msg_transport_notif : Bool → MpMsgTransport → MpMsgTransport
set_msg_transport_notif b t = record t { msg_notif = b }

-- The end of a message's transfer: its retries are zero, and the notifier is told if there is one.
unfoldable pub finish : MpStatus → MpMsgTransport → MpMsgTransport
finish status t =
    let spent = record t.msg { number_of_retries = pos 0 } in
    let t' = record t { msg = spent } in
    if t.msg_notif then record t' { events = t.events ++ reported spent status ∷ [] } else t'

unfoldable pub on_send_msg_done : MpStatus → MpMsgTransport → MpMsgTransport
on_send_msg_done status t =
    if is_zero t.msg.number_of_retries
    then t
    else (let t' = record t { counter = decrement t.counter } in
        if not (is_message_sent status) && is_positive t'.counter
        then send_current t'
        else finish status t')

unfoldable pub remove_message_for_serial : MpString → MpMsgTransport → MpMsgTransport
remove_message_for_serial serial t =
    if str_eq t.msg.user_serial serial
    then record t { msg = record t.msg { number_of_retries = pos 0 } }
    else t
