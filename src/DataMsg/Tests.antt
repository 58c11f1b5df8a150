-- ===== src/DataMsg/Tests.antt =====
-- Transfers at concrete inputs.
use end_to_end_smkex.Base.{suc, ◌+◌, ◌≤◌, ◌≡◌, refl, true, false, List, [], ◌∷◌, some, pos, arith}
use end_to_end_smkex.Utils.{MpStatus}
use end_to_end_smkex.AutoResend.Payload.{MpMsgPayload, message}
use end_to_end_smkex.DataMsg.Transport.{MpMsgTransport, send_message}
use end_to_end_smkex.DataMsg.Retries.{
  sip_count, report_count, on_all_done, send_message-tries, send_message-reported,
}

abbrev greeting : MpMsgPayload
greeting = record {
  user_serial = b'b' ∷ [];
  payload = record { payload = some (0 ∷ 7 ∷ []); len = 2 };
  uid = pos 1;
  number_of_retries = pos 3;
  xfer_status = pos 0;
  acc_id = pos 1;
  message_type = message;
  processed = false;
}

abbrev idle : MpMsgTransport
idle = record {
  msg_notif = true;
  msg = record greeting { number_of_retries = pos 0 };
  counter = pos 0;
  events = [];
}

abbrev failures : List MpStatus
failures = MpStatus.message_not_sent ∷ MpStatus.message_not_sent ∷ MpStatus.message_not_sent ∷ []

send_message-tries_example :
    (sip_count (on_all_done failures (send_message greeting idle)).events
      ≤ sip_count idle.events + 3)
    × (report_count (on_all_done failures (send_message greeting idle)).events
        ≤ suc (report_count idle.events))
send_message-tries_example = send_message-tries greeting 2 failures idle refl refl

send_message-reported_example :
    report_count (on_all_done failures (send_message greeting idle)).events
    ≡ suc (report_count idle.events)
send_message-reported_example =
    send_message-reported greeting 2 failures idle refl refl (omega arith)
