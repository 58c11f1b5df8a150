-- ===== src/Utils.antt =====
-- utils/: status codes, buffers, addresses and callback pools.
use end_to_end_smkex.Base.{ℕ, Bool, true, false}
pub mod Buffer
pub mod Callbacks
pub mod Addresses

-- `mp_status_t` (utils/include/MpStatus.h)
pub data MpStatus : Type 0 where
  success not_implemented_yet general_err sip_init_err sip_destroy_err input_err : MpStatus
  set_registration_err status_err answer_call reject_call ring_call : MpStatus
  message_sent message_not_sent : MpStatus

-- `MP_RING_CALL` is 180, so `MP_MESSAGE_SENT` is 181; no two names share a value.
unfoldable pub is_message_sent : MpStatus → Bool
is_message_sent message_sent = true
is_message_sent _ = false

unfoldable pub is_success : MpStatus → Bool
is_success success = true
is_success _ = false

-- The numbers of the names.
unfoldable pub mp_status_value : MpStatus → ℕ
mp_status_value success = 0
mp_status_value not_implemented_yet = 1
mp_status_value general_err = 2
mp_status_value sip_init_err = 3
mp_status_value sip_destroy_err = 4
mp_status_value input_err = 5
mp_status_value set_registration_err = 6
mp_status_value status_err = 7
mp_status_value answer_call = 200
mp_status_value reject_call = 486
mp_status_value ring_call = 180
mp_status_value message_sent = 181
mp_status_value message_not_sent = 182
