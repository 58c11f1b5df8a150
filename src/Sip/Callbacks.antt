-- ===== src/Sip/Callbacks.antt =====
-- What PJSUA calls (sip_stack/src/MpSIPStack.cpp): the registration, the presence of a buddy, a call's
-- media and state, and the messages.
use end_to_end_smkex.Base.{
  ℕ, Bool, true, false, ◌||◌, Option, none, some, ◌==◌, if◌then◌else◌, ℤ, pos, MpString, Outcome,
  done, ◌>>=◌,
}
use end_to_end_smkex.Utils.{
  success, status_err, ring_call, message_sent, message_not_sent, mp_status_value,
}
use end_to_end_smkex.Utils.Addresses.{get_serial_from_uri}
use end_to_end_smkex.Buddy.BuddyList.{buddy_state}
use end_to_end_smkex.DataMsg.Manager.{on_msg_received}
use end_to_end_smkex.DataMsg.Transport.{on_send_msg_done}
use end_to_end_smkex.Service.Pjsua.{Pjsua, CallInfo}
use end_to_end_smkex.Service.State.{MpService, set_outside}
use end_to_end_smkex.Calls.Manager.{on_call_state, on_incoming_call}
use end_to_end_smkex.Account.User.{registration_state}

-- `PJSIP_SC_OK`
abbrev pub sc_ok : ℕ
sc_ok = 200

module _ {W : Type 0} (p : Pjsua W) where
  unfoldable pub on_reg_state : ℤ → MpService W → MpService W
  on_reg_state acc_id s =
      let status = p.acc_status acc_id s.outside in
      registration_state (if (status == 200) || (status == 0) then success else status_err) s

  unfoldable pub on_buddy_state : ℤ → MpService W → MpService W
  on_buddy_state buddy_id s = record s {
    buddy_list = buddy_state buddy_id (p.buddy_is_online buddy_id s.outside) s.buddy_list;
  }

  abbrev pub set_on_hold : Bool → MpService W → MpService W
  set_on_hold b s = record s { sip_stack = record s.sip_stack { on_hold = b } }

  abbrev connect_media : CallInfo → MpService W → MpService W
  connect_media info s =
      if info.media_is_active
      then (let w = p.conf_connect info.conf_slot (pos 0) s.outside in
          set_on_hold false (set_outside (p.conf_connect (pos 0) info.conf_slot w) s))
      else set_on_hold true s

  unfoldable pub on_call_media_state : ℤ → MpService W → MpService W
  on_call_media_state call_id s = elim (p.call_get_info call_id s.outside) [
    | none ↦ s
    | some info ↦ connect_media info s
  ]

  unfoldable pub on_call_state_event : ℤ → MpService W → MpService W
  on_call_state_event call_id s = elim (p.call_get_info call_id s.outside) [
    | none ↦ s
    | some info ↦ on_call_state p call_id info.state info.last_status s
  ]

  -- The caller hears that the phone rings, after the call manager has heard of the call.
  unfoldable pub on_incoming_call_event :
      (answering : ℕ → Bool) → ℤ → MpService W → Outcome (MpService W)
  on_incoming_call_event answering call_id s = elim (p.call_get_info call_id s.outside) [
    | none ↦ done s
    | some info ↦ do
      caller ← get_serial_from_uri (some info.remote_contact)
      (let s' = on_incoming_call p answering call_id caller s in
          let (_, w) = p.call_answer call_id (mp_status_value ring_call) s'.outside in
          done (set_outside w s'))
  ]

module _ {W : Type 0} where
  unfoldable pub on_pager :
      (from : MpString) → Option MpString → ℕ → MpService W → Outcome (MpService W)
  on_pager from body body_len s = do
    d ← on_msg_received (some from) body body_len s.data_msg
    done (record s { data_msg = d })

  unfoldable pub on_pager_status : ℕ → MpService W → MpService W
  on_pager_status status s = record s {
    msg_transport =
        on_send_msg_done (if status == sc_ok then message_sent else message_not_sent)
          s.msg_transport;
  }
