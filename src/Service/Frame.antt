-- ===== src/Service/Frame.antt =====
-- The operations that leave the SIP stack started or stopped as it is, and the buddies.
use end_to_end_smkex.Base.{ℕ, ℤ, Bool, arith}
use end_to_end_smkex.Utils.{MpStatus}
use end_to_end_smkex.Service.Pjsua.{Pjsua}
use end_to_end_smkex.Service.State.{MpService}
use end_to_end_smkex.Sip.Requests
use end_to_end_smkex.Sip.Callbacks.{on_reg_state, on_call_media_state, on_pager_status}
use end_to_end_smkex.Calls.Manager
use end_to_end_smkex.Calls.Frame.{Unmoved}
use end_to_end_smkex.Account.User.{registration_state}
use end_to_end_smkex.Account.User

module _ {W : Type 0} (p : Pjsua W) where
  pub set_online-Unmoved : (b : Bool) (s : MpService W) → Unmoved s (User.set_online p b s).1
  unfolding User.set_online Requests.set_online
  set_online-Unmoved b s = ground arith

  pub answer_call-Unmoved :
      (mode : MpStatus) (s : MpService W) → Unmoved s (Manager.answer_call p mode s).1
  unfolding Manager.answer_call Requests.answer_call Manager.set_last_answer_mode
  answer_call-Unmoved mode s = ground arith

  pub end_call-Unmoved : (s : MpService W) → Unmoved s (Manager.end_call p s).1
  unfolding Manager.end_call Requests.end_call Manager.set_last_answer_mode
  end_call-Unmoved s = ground arith

  pub reject_call-Unmoved : (s : MpService W) → Unmoved s (Manager.reject_call p s)
  unfolding Manager.reject_call Requests.reject_call
  reject_call-Unmoved s = ground arith

  pub set_rx_call_level-Unmoved :
      (b : Bool) (s : MpService W) → Unmoved s (Requests.set_rx_call_level p b s).1
  unfolding Requests.set_rx_call_level
  set_rx_call_level-Unmoved b s = ground arith

  pub un_hold_call-Unmoved : (s : MpService W) → Unmoved s (Manager.un_hold_call p s).1
  unfolding Manager.un_hold_call Requests.set_hold_call Requests.turn_on_sound_devices
  un_hold_call-Unmoved s = ground arith

  pub end_watchdog_call-Unmoved : (s : MpService W) → Unmoved s (Manager.end_watchdog_call p s)
  unfolding Manager.end_watchdog_call
  end_watchdog_call-Unmoved s = ground arith

  pub on_reg_state-Unmoved : (acc : ℤ) (s : MpService W) → Unmoved s (on_reg_state p acc s)
  unfolding on_reg_state registration_state
  on_reg_state-Unmoved acc s = ground arith

  pub on_call_media_state-Unmoved :
      (id : ℤ) (s : MpService W) → Unmoved s (on_call_media_state p id s)
  unfolding on_call_media_state
  on_call_media_state-Unmoved id s = ground arith

  pub on_pager_status-Unmoved : (code : ℕ) (s : MpService W) → Unmoved s (on_pager_status code s)
  unfolding on_pager_status
  on_pager_status-Unmoved code s = ground arith
