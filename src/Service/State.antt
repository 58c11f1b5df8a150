-- ===== src/Service/State.antt =====
-- The state of the services: `MpAccSettings` and `MpUserAccount`
-- (user_account/include/MpAccSettings.h, MpUserAccount.h), `MpSIPStack`
-- (sip_stack/include/MpSIPStack.h) and `MpCallManager` (call_manager/include/MpCallManager.h).
use end_to_end_smkex.Base.{
  ℕ, Bool, List, ◌∷◌, Option, none, [], true, false, ℤ, pos, negsuc, MpString,
}
use end_to_end_smkex.Buddy.BuddyList.{MpBuddyList}
use end_to_end_smkex.DataMsg.Manager.{MpMsgManager}
use end_to_end_smkex.DataMsg.Transport.{MpMsgTransport}

-- `mp_network_state_t`
pub data MpNetworkState : Type 0 where
  unreachable wifi gprs edge wcdma lte other_network : MpNetworkState

-- `port` is the number as it is printed; the code only prints it.
pub record MpAccSettings : Type 0 where
  pub server_address : MpString
  pub port : MpString
  pub user_name : MpString
  pub pjsip_log_level : ℕ
  pub network_state : MpNetworkState
  pub verify_server : Bool

-- `mp_online_state_t`
pub data MpOnlineState : Type 0 where
  online offline : MpOnlineState

-- A call of a callback's `registration_state`.
pub record RegistrationCall : Type 0 where
  pub callback : ℕ
  pub told : MpOnlineState

-- `lock_depth` is how often `lock_` is held. `reg_calls` are the calls made, in order.
pub record MpUserAccount : Type 0 where
  pub lock_depth : ℕ
  pub req_status : MpOnlineState
  pub acc_settings : MpAccSettings
  pub reg_cb : List ℕ
  pub reg_calls : List RegistrationCall

-- `on_hold` is the static member.
pub record MpSipStack : Type 0 where
  pub started : Bool
  pub acc_id : ℤ
  pub capture_device : ℤ
  pub playback_device : ℤ
  pub on_hold : Bool

-- The members of `MpICall`, with what they are given.
pub data CallNotice : Type 0 where
  callee_incoming : (caller_serial : MpString) → CallNotice
  caller_calling caller_early u_connecting u_confirmed u_disconnected : ℕ → CallNotice

pub record CallbackCall : Type 0 where
  pub callback : ℕ
  pub notice : CallNotice

-- `timer` is the handle of the timer, none if it is null. `calls_made` are the calls of callbacks.
pub record MpCallManager : Type 0 where
  pub call_id : ℤ
  pub last_answer_mode : ℕ
  pub call_cb : List ℕ
  pub timer : Option ℕ
  pub ena_watchdog : Bool
  pub calls_made : List CallbackCall

-- The singletons; `outside` is the state of PJSUA and of the application's objects.
pub record MpService (W : Type 0) : Type 0 where
  pub sip_stack : MpSipStack
  pub call_manager : MpCallManager
  pub user_account : MpUserAccount
  pub buddy_list : MpBuddyList
  pub data_msg : MpMsgManager
  pub msg_transport : MpMsgTransport
  pub outside : W

-- The constructors.
abbrev pub new_sip_stack : MpSipStack
new_sip_stack = record {
  started = false;
  acc_id = negsuc 0;
  capture_device = pos 0;
  playback_device = pos 0;
  on_hold = false;
}

abbrev pub new_call_manager : MpCallManager
new_call_manager = record {
  call_id = negsuc 0;
  last_answer_mode = 0;
  call_cb = [];
  timer = none;
  ena_watchdog = true;
  calls_made = [];
}

abbrev pub new_user_account : MpUserAccount
new_user_account = record {
  lock_depth = 0;
  req_status = offline;
  acc_settings = record {
    server_address = [];
    port = b'0' ∷ [];
    user_name = [];
    pjsip_log_level = 0;
    network_state = unreachable;
    verify_server = true;
  };
  reg_cb = [];
  reg_calls = [];
}

-- The results of a call that changes the state of PJSUA.
abbrev pub set_outside : {W : Type 0} → W → MpService W → MpService W
set_outside w s = record s { outside = w }
