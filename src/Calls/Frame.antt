-- ===== src/Calls/Frame.antt =====
-- The call manager leaves the SIP stack started or stopped as it is, and the buddies
-- (call_manager/src/MpCallManager.cpp).
use end_to_end_smkex.Base.{ℕ, ◌≡◌, refl, Bool, List, [], ◌∷◌, MpString, arith}
use end_to_end_smkex.Service.Pjsua.{
  Pjsua, InvState, calling, early, connecting, confirmed, disconnected, other,
}
use end_to_end_smkex.Service.State.{
  CallNotice, caller_calling, caller_early, u_connecting, u_confirmed, u_disconnected, MpService,
}
use end_to_end_smkex.Sip.Requests
use end_to_end_smkex.Calls.Manager.{
  set_last_answer_mode, set_call_id, notify_one, notify_all, execute_stop_timer, reinitialize_timer,
  handle_call_state, answer_call, tell_incoming, tell_all_incoming, on_call_state, on_incoming_call,
}
use end_to_end_smkex.Calls.Second.{CallEvent, incoming, changed, handle_event}

-- The stack stays started or stopped, and the buddies stay.
abbrev pub Unmoved : {W : Type 0} → (s s' : MpService W) → Type 0
Unmoved s s' = (s'.sip_stack.started ≡ s.sip_stack.started) × (s'.buddy_list ≡ s.buddy_list)

module _ {W : Type 0} (p : Pjsua W) (answering : ℕ → Bool) where
  notify_all-Unmoved :
      (notice : CallNotice) (cbs : List ℕ) (s : MpService W) → Unmoved s (notify_all notice cbs s)
  unfolding notify_all notify_one
  notify_all-Unmoved notice [] s = (refl, refl)
  notify_all-Unmoved notice (cb ∷ cbs) s = notify_all-Unmoved notice cbs (notify_one notice cb s)

  tell_all_incoming-Unmoved :
      (caller : MpString) (cbs : List ℕ) (s : MpService W)
      → Unmoved s (tell_all_incoming p answering caller cbs s)
  unfolding tell_all_incoming tell_incoming notify_one answer_call Requests.answer_call
      set_last_answer_mode
  tell_all_incoming-Unmoved caller [] s = (refl, refl)
  tell_all_incoming-Unmoved caller (cb ∷ cbs) s =
      ground (arith, tell_all_incoming-Unmoved caller cbs (tell_incoming p answering caller cb s))

  handle_call_state-Unmoved :
      (state : InvState) (status : ℕ) (cbs : List ℕ) (s : MpService W)
      → Unmoved s (handle_call_state p state status cbs s)
  unfolding handle_call_state execute_stop_timer reinitialize_timer set_last_answer_mode
  handle_call_state-Unmoved calling status cbs s =
      ground (arith, notify_all-Unmoved (caller_calling status) cbs (reinitialize_timer p s))
  handle_call_state-Unmoved early status cbs s =
      let s' = execute_stop_timer p (set_last_answer_mode 0 s) in
      ground (arith, notify_all-Unmoved (caller_early status) cbs s')
  handle_call_state-Unmoved connecting status cbs s =
      let s' = reinitialize_timer p (set_last_answer_mode 0 s) in
      ground (arith, notify_all-Unmoved (u_connecting status) cbs s')
  handle_call_state-Unmoved confirmed status cbs s =
      ground (arith, notify_all-Unmoved (u_confirmed status) cbs (execute_stop_timer p s))
  handle_call_state-Unmoved disconnected status cbs s =
      ground (arith, notify_all-Unmoved (u_disconnected status) cbs (execute_stop_timer p s))
  handle_call_state-Unmoved other status cbs s = (refl, refl)

  -- Whatever is told of a call, the stack and the buddies stay.
  pub handle_event-Unmoved :
      (e : CallEvent) (s : MpService W) → Unmoved s (handle_event p answering e s)
  unfolding handle_event on_call_state on_incoming_call set_call_id reinitialize_timer
      Requests.reject_call
  handle_event-Unmoved (incoming id caller) s =
      ground (arith, tell_all_incoming-Unmoved caller s.call_manager.call_cb (set_call_id id s))
  handle_event-Unmoved (changed id state status) s =
      ground
        (arith, handle_call_state-Unmoved state status s.call_manager.call_cb (set_call_id id s))
