-- ===== src/Service/Pjsua.antt =====
-- What the program calls of PJSUA and of the objects that its application registers. `W` is their
-- state. A Boolean result is whether the call returned `PJ_SUCCESS`; `acc_add` and `buddy_add` return
-- the new identifier, or none with an error.
use end_to_end_smkex.Base.{ℕ, Bool, List, Option, ℤ, MpString}

-- `pjsip_inv_state`; `other` is `PJSIP_INV_STATE_NULL` and `PJSIP_INV_STATE_INCOMING`.
pub data InvState : Type 0 where
  calling early connecting confirmed disconnected other : InvState

-- The fields of `pjsua_call_info` that the program reads.
pub record CallInfo : Type 0 where
  pub state : InvState
  pub last_status : ℕ
  pub remote_contact : MpString
  pub media_is_active : Bool
  pub conf_slot : ℤ

pub record Pjsua (W : Type 0) : Type 0 where
  pub create : W → Bool × W
  pub init : (log_level : ℕ) → W → Bool × W
  pub transport_create : (verify_server : Bool) → W → Bool × W
  pub start : W → Bool × W
  pub destroy : W → W
  pub destroy2 : W → Bool × W
  pub get_snd_dev : W → ℤ × ℤ
  pub set_snd_dev : (capture playback : ℤ) → W → W
  pub set_no_snd_dev : W → W
  pub acc_add : (id reg_uri : MpString) → W → Option ℤ × W
  pub acc_set_online_status : ℤ → Bool → W → Bool × W
  pub acc_set_registration : ℤ → Bool → W → Bool × W
  pub acc_status : ℤ → W → ℕ
  pub enum_codecs : W → Bool × List MpString
  pub codec_set_priority : MpString → ℕ → W → Bool × W
  pub buddy_add : (uri : MpString) → W → Option ℤ × W
  pub buddy_del : ℤ → W → Bool × W
  pub buddy_is_online : ℤ → W → Bool
  pub call_make_call : ℤ → MpString → W → Bool × W
  pub call_get_info : ℤ → W → Option CallInfo
  pub call_answer : ℤ → ℕ → W → Bool × W
  pub call_hangup : ℤ → ℕ → W → W
  pub call_hangup_all : W → W
  pub call_is_active : ℤ → W → Bool
  pub call_get_count : W → ℕ
  pub call_set_hold : ℤ → W → Bool × W
  pub call_unhold : ℤ → W → Bool × W
  pub conf_connect : (source sink : ℤ) → W → W
  pub conf_adjust_rx_level : ℕ → W → Bool × W
  pub im_send : ℤ → (to content : MpString) → W → Bool × W
  -- `MpICallTimer`, an object of the application
  pub start_timer : ℕ → (seconds : ℕ) → W → W
  pub stop_timer : ℕ → W → W
  pub timer_is_active : ℕ → W → Bool
  pub tick_timer : ℕ → W → W
