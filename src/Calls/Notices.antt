-- ===== src/Calls/Notices.antt =====
-- What the callbacks hear of a call (call_manager/src/MpCallManager.cpp).
use end_to_end_smkex.Base.{
  ℕ, ◌≡◌, refl, sym, false, List, [], ◌∷◌, ◌++◌, append_assoc, append-nil, ℤ, arith,
}
use end_to_end_smkex.Service.Pjsua.{
  Pjsua, InvState, calling, early, connecting, confirmed, disconnected, other,
}
use end_to_end_smkex.Service.State.{
  CallNotice, caller_calling, caller_early, u_connecting, u_confirmed, u_disconnected, CallbackCall,
  MpService,
}
use end_to_end_smkex.Calls.Manager.{
  set_last_answer_mode, set_call_id, notify_one, notify_all, execute_stop_timer, reinitialize_timer,
  has_other_call, handle_call_state, on_call_state,
}

-- What every callback of a list hears, in order.
unfoldable pub heard : List ℕ → CallNotice → List CallbackCall
heard [] notice = []
heard (cb ∷ cbs) notice = record { callback = cb; notice = notice } ∷ heard cbs notice

-- The notices of a call's state; none for the states that are not handled.
unfoldable pub notices_of : InvState → ℕ → List ℕ → List CallbackCall
notices_of calling status cbs = heard cbs (caller_calling status)
notices_of early status cbs = heard cbs (caller_early status)
notices_of connecting status cbs = heard cbs (u_connecting status)
notices_of confirmed status cbs = heard cbs (u_confirmed status)
notices_of disconnected status cbs = heard cbs (u_disconnected status)
notices_of other status cbs = []

module _ {W : Type 0} where
  notify_all-heard :
      (notice : CallNotice) (cbs : List ℕ) (s : MpService W)
      → notify_all notice cbs s ≡ record s {
        call_manager = record s.call_manager {
          calls_made = s.call_manager.calls_made ++ heard cbs notice;
        };
      }
  unfolding notify_all heard notify_one
  notify_all-heard notice [] s = rw append-nil
  notify_all-heard notice (cb ∷ cbs) s = rw (notify_all-heard notice cbs, append_assoc)

module _ {W : Type 0} (p : Pjsua W) where
  handle_call_state-heard :
      (state : InvState) (status : ℕ) (cbs : List ℕ) (s : MpService W)
      → let m = (handle_call_state p state status cbs s).call_manager in
        (m.call_id ≡ s.call_manager.call_id)
        × (m.calls_made ≡ s.call_manager.calls_made ++ notices_of state status cbs)
        × (m.call_cb ≡ s.call_manager.call_cb)
  unfolding handle_call_state notices_of execute_stop_timer reinitialize_timer set_last_answer_mode
  handle_call_state-heard calling status cbs s =
      ground (arith, notify_all-heard (caller_calling status) cbs (reinitialize_timer p s))
  handle_call_state-heard early status cbs s = ground (
    arith,
    notify_all-heard (caller_early status) cbs (execute_stop_timer p (set_last_answer_mode 0 s)),
  )
  handle_call_state-heard connecting status cbs s = ground (
    arith,
    notify_all-heard (u_connecting status) cbs (reinitialize_timer p (set_last_answer_mode 0 s)),
  )
  handle_call_state-heard confirmed status cbs s =
      ground (arith, notify_all-heard (u_confirmed status) cbs (execute_stop_timer p s))
  handle_call_state-heard disconnected status cbs s =
      ground (arith, notify_all-heard (u_disconnected status) cbs (execute_stop_timer p s))
  handle_call_state-heard other status cbs s = (refl, sym (append-nil _), refl)

  -- A state of a call, when no other call is active, makes that call the current one, and every
  -- callback hears the notice of that state exactly once, in order; for a state that has no
  -- notice, none is called.
  pub on_call_state-heard :
      (call_id : ℤ) (state : InvState) (status : ℕ) (s : MpService W)
      → has_other_call p call_id s ≡ false
      → let m = (on_call_state p call_id state status s).call_manager in
        (m.call_id ≡ call_id)
        × (m.calls_made
            ≡ s.call_manager.calls_made ++ notices_of state status s.call_manager.call_cb)
        × (m.call_cb ≡ s.call_manager.call_cb)
  unfolding on_call_state set_call_id
  on_call_state-heard call_id state status s h =
      rw h (handle_call_state-heard state status s.call_manager.call_cb (set_call_id call_id s))
