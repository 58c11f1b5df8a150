-- ===== src/Sip/Requests.antt =====
-- What the program asks of PJSUA once it has started (sip_stack/src/MpSIPStack.cpp).
use end_to_end_smkex.Base.{
  ℕ, Bool, true, false, not, List, Option, none, some, ◌==◌, if◌then◌else◌, ℤ, pos, negsuc,
  MpString, Outcome, done, ◌>>=◌,
}
use end_to_end_smkex.Utils.{MpStatus, success, general_err, input_err, mp_status_value}
use end_to_end_smkex.Utils.Buffer.{bytes_from}
use end_to_end_smkex.Buddy.BuddyList.{MpBuddy, SipStack}
use end_to_end_smkex.Service.Pjsua.{Pjsua}
use end_to_end_smkex.Service.State.{MpAccSettings, MpSipStack, MpService, set_outside}
use end_to_end_smkex.Service.Addresses.{uri_of_serial, get_buddy_uri}

abbrev pub is_negative : ℤ → Bool
is_negative (pos n) = false
is_negative (negsuc n) = true

-- `status == PJ_SUCCESS ? MP_SUCCESS : MP_GENERAL_ERR`
abbrev pub of_pj : Bool → MpStatus
of_pj true = success
of_pj false = general_err

-- The end of a call of PJSUA in an operation on the services.
abbrev pub settle : {W : Type 0} → Bool × W → MpService W → MpStatus × MpService W
settle (ok, w) s = (of_pj ok, set_outside w s)

-- `PJSIP_SC_BUSY_HERE`
abbrev pub busy_here : ℕ
busy_here = 486

-- What `pjsua_buddy_add` leaves in the buddy.
abbrev pub subscribed : {W : Type 0} → MpBuddy → Option ℤ × W → MpStatus × ℤ × W
subscribed buddy (none, w) = (general_err, buddy.pjsua_id, w)
subscribed buddy (some id, w) = (success, id, w)

module _ {W : Type 0} (p : Pjsua W) where
  unfoldable pub subscribe : MpSipStack → MpAccSettings → MpBuddy → W → Outcome (MpStatus × ℤ × W)
  subscribe sip a buddy w =
      if not sip.started
      then done (general_err, buddy.pjsua_id, w)
      else (do uri ← get_buddy_uri buddy a; done (subscribed buddy (p.buddy_add uri w)))

  unfoldable pub unsubscribe : MpSipStack → ℤ → W → MpStatus × W
  unsubscribe sip id w =
      let (ok, w') = p.buddy_del id w in
      if not sip.started then (general_err, w) else (of_pj ok, w')

  -- `MpBuddyList::sipStack_`
  abbrev pub stack_for_buddies : MpSipStack → MpAccSettings → SipStack W
  stack_for_buddies sip a = record { subscribe = subscribe sip a; unsubscribe = unsubscribe sip }

  unfoldable pub call : MpString → MpService W → MpStatus × MpService W
  call uri s = settle (p.call_make_call s.sip_stack.acc_id uri s.outside) s

  unfoldable pub answer_call : ℤ → MpStatus → MpService W → MpStatus × MpService W
  answer_call call_id mode s = settle (p.call_answer call_id (mp_status_value mode) s.outside) s

  unfoldable pub end_call : MpService W → MpStatus × MpService W
  end_call s = (success, set_outside (p.call_hangup_all s.outside) s)

  unfoldable pub reject_call : ℤ → MpService W → MpService W
  reject_call call_id s = set_outside (p.call_hangup call_id busy_here s.outside) s

  unfoldable pub send_msg :
      Option MpString → Option (List ℕ) → ℕ → MpService W → Outcome (MpStatus × MpService W)
  send_msg none msg msg_len s = done (input_err, s)
  send_msg (some serial) none msg_len s = done (input_err, s)
  send_msg (some serial) (some msg) msg_len s = if msg_len == 0 then done (input_err, s) else (do
    uri ← uri_of_serial (some serial) s.user_account.acc_settings
    if is_negative s.sip_stack.acc_id then done (general_err, s) else (do
      content ← bytes_from (some msg) msg_len
      done (settle (p.im_send s.sip_stack.acc_id uri content s.outside) s)))

  unfoldable pub set_rx_call_level : Bool → MpService W → MpStatus × MpService W
  set_rx_call_level mute s = settle (p.conf_adjust_rx_level (if mute then 0 else 1) s.outside) s

  unfoldable pub set_hold_call : ℤ → Bool → MpService W → MpStatus × MpService W
  set_hold_call call_id hold s =
      settle (if hold then p.call_set_hold call_id s.outside else p.call_unhold call_id s.outside) s

  unfoldable pub set_capture_and_playback_devices : ℤ → ℤ → MpService W → MpService W
  set_capture_and_playback_devices capture playback s = record s {
    sip_stack = record s.sip_stack { capture_device = capture; playback_device = playback };
  }

  unfoldable pub turn_off_sound_devices : MpService W → MpService W
  turn_off_sound_devices s = set_outside (p.set_no_snd_dev s.outside) s

  unfoldable pub turn_on_sound_devices : MpService W → MpService W
  turn_on_sound_devices s =
      set_outside (p.set_snd_dev s.sip_stack.capture_device s.sip_stack.playback_device s.outside) s

  unfoldable pub set_online : Bool → MpService W → MpStatus × MpService W
  set_online online s =
      let id = s.sip_stack.acc_id in
      let (renewed, w) =
        if online then p.acc_set_registration id true s.outside else (true, s.outside) in
      if is_negative id
      then (general_err, s)
      else if not renewed
      then (general_err, set_outside w s)
      else settle (p.acc_set_online_status id online w) s
