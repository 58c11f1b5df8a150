-- ===== src/Calls/Answers.antt =====
-- An incoming call, and the callbacks that answer it (call_manager/src/MpCallManager.cpp,
-- call_manager/src/MpCall.cpp).
use end_to_end_smkex.Base.{
  ℕ, ap, ◌∙◌, refl, ◌≡◌, Bool, false, ◌||◌, List, [], ◌∷◌, ◌++◌, append_assoc, append-nil, ℤ,
  MpString, arith, if◌then◌else◌,
}
use end_to_end_smkex.Utils.{mp_status_value}
use end_to_end_smkex.Service.Pjsua.{Pjsua}
use end_to_end_smkex.Service.State.{callee_incoming, MpService, set_outside}
use end_to_end_smkex.Sip.Requests
use end_to_end_smkex.Calls.Manager.{
  set_call_id, set_last_answer_mode, notify_one, tell_incoming, tell_all_incoming, has_other_call,
  reinitialize_timer, on_incoming_call,
}
use end_to_end_smkex.Calls.Notices.{heard}

unfoldable pub any_answers : (answering : ℕ → Bool) → List ℕ → Bool
any_answers answering [] = false
any_answers answering (cb ∷ cbs) = answering cb || any_answers answering cbs

module _ {W : Type 0} (p : Pjsua W) (answering : ℕ → Bool) where
  -- What PJSUA is told for a call: every `MpCall` answers it once.
  unfoldable pub answered : ℤ → List ℕ → W → W
  answered id [] w = w
  answered id (cb ∷ cbs) w =
      answered id cbs (if answering cb then (p.call_answer id 200 w).1 else w)

  tell_incoming-heard :
      (caller : MpString) (cb : ℕ) (s : MpService W)
      → (tell_incoming p answering caller cb s).call_manager ≡ record s.call_manager {
        last_answer_mode = if answering cb then 200 else s.call_manager.last_answer_mode;
        calls_made =
            s.call_manager.calls_made
            ++ record { callback = cb; notice = callee_incoming caller } ∷ [];
      }
  unfolding tell_incoming notify_one Requests.answer_call mp_status_value set_last_answer_mode
  tell_incoming-heard caller cb s = ground arith

  tell_incoming-outside :
      (caller : MpString) (cb : ℕ) (s : MpService W)
      → (tell_incoming p answering caller cb s).outside ≡ (
          if answering cb
          then (p.call_answer s.call_manager.call_id 200 s.outside).1
          else s.outside)
  unfolding tell_incoming notify_one Requests.answer_call mp_status_value set_last_answer_mode
  tell_incoming-outside caller cb s = ground arith

  tell_all_incoming-outside :
      (caller : MpString) (cbs : List ℕ) (s : MpService W)
      → (tell_all_incoming p answering caller cbs s).outside
        ≡ answered s.call_manager.call_id cbs s.outside
  unfolding tell_all_incoming answered
  tell_all_incoming-outside caller [] s = refl
  tell_all_incoming-outside caller (cb ∷ cbs) s =
      let s' = tell_incoming p answering caller cb s in
      let same : s'.call_manager.call_id ≡ s.call_manager.call_id =
        ap (λ m. m.call_id) (tell_incoming-heard caller cb s) in
      tell_all_incoming-outside caller cbs s'
      ∙ ap (λ id. answered id cbs s'.outside) same
      ∙ ap (answered s.call_manager.call_id cbs) (tell_incoming-outside caller cb s)

  tell_all_incoming-heard :
      (caller : MpString) (cbs : List ℕ) (s : MpService W)
      → (tell_all_incoming p answering caller cbs s).call_manager ≡ record s.call_manager {
        last_answer_mode =
            if any_answers answering cbs then 200 else s.call_manager.last_answer_mode;
        calls_made = s.call_manager.calls_made ++ heard cbs (callee_incoming caller);
      }
  unfolding tell_all_incoming any_answers heard
  tell_all_incoming-heard caller [] s = rw append-nil
  tell_all_incoming-heard caller (cb ∷ cbs) s = ground (
    arith,
    tell_incoming-heard caller cb s,
    tell_all_incoming-heard caller cbs (tell_incoming p answering caller cb s),
    append_assoc s.call_manager.calls_made
        (record { callback = cb; notice = callee_incoming caller } ∷ [])
        (heard cbs (callee_incoming caller)),
  )

  -- An incoming call, when no other call is active, becomes the current one; every callback hears
  -- of it exactly once, in order; every `MpCall` among them answers it with 200, and the last answer
  -- is 200 if there is one, and stays if there is none. Then the timer is started, if it is set; it
  -- and the watchdog stay as they are set.
  pub on_incoming_call-heard :
      (call_id : ℤ) (caller : MpString) (s : MpService W)
      → has_other_call p call_id s ≡ false
      → let s' = on_incoming_call p answering call_id caller s in
        (s'.call_manager ≡ record s.call_manager {
          call_id = call_id;
          last_answer_mode =
              if any_answers answering s.call_manager.call_cb
              then 200
              else s.call_manager.last_answer_mode;
          calls_made =
              s.call_manager.calls_made ++ heard s.call_manager.call_cb (callee_incoming caller);
        })
        × (s'.outside
            ≡ (reinitialize_timer p
                (set_outside (answered call_id s.call_manager.call_cb s.outside) s)).outside)
  unfolding on_incoming_call set_call_id reinitialize_timer
  on_incoming_call-heard call_id caller s h =
      let cbs = s.call_manager.call_cb in
      let s₁ = set_call_id call_id s in
      let told = tell_all_incoming-heard caller cbs s₁ in
      (ground (arith, h, told), ground (arith, h, told, tell_all_incoming-outside caller cbs s₁))
