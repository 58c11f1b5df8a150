-- ===== src/Calls/Second.antt =====
-- Calls that come while another one is active (call_manager/src/MpCallManager.cpp).
use end_to_end_smkex.Base.{
  ℕ, ◌≡◌, refl, Bool, true, false, List, [], ◌∷◌, ℤ, negsuc, int_eq, MpString, All, arith,
}
use end_to_end_smkex.Service.Pjsua.{Pjsua, InvState}
use end_to_end_smkex.Service.State.{MpService, set_outside}
use end_to_end_smkex.Sip.Requests
use end_to_end_smkex.Sip.Requests.{busy_here}
use end_to_end_smkex.Calls.Manager.{has_other_call, on_call_state, on_incoming_call}

-- What the SIP stack tells the call manager.
pub data CallEvent : Type 0 where
  incoming : ℤ → (caller : MpString) → CallEvent
  changed : ℤ → InvState → (last_status : ℕ) → CallEvent

abbrev pub call_of : CallEvent → ℤ
call_of (incoming id caller) = id
call_of (changed id state status) = id

module _ {W : Type 0} (p : Pjsua W) (answering : ℕ → Bool) where
  unfoldable pub handle_event : CallEvent → MpService W → MpService W
  handle_event (incoming id caller) s = on_incoming_call p answering id caller s
  handle_event (changed id state status) s = on_call_state p id state status s

  unfoldable pub handle_events : List CallEvent → MpService W → MpService W
  handle_events [] s = s
  handle_events (e ∷ es) s = handle_events es (handle_event e s)

  -- Every call of the events is hung up as busy.
  unfoldable pub hang_up_all : List CallEvent → W → W
  hang_up_all [] w = w
  hang_up_all (e ∷ es) w = hang_up_all es (p.call_hangup (call_of e) busy_here w)

  handle_event-second :
      (e : CallEvent) (s : MpService W)
      → has_other_call p (call_of e) s ≡ true
      → handle_event e s ≡ set_outside (p.call_hangup (call_of e) busy_here s.outside) s
  unfolding handle_event on_incoming_call on_call_state Requests.reject_call
  handle_event-second (incoming id caller) s h = rw h
  handle_event-second (changed id state status) s h = rw h

  -- Whatever is told of other calls while the current call, whose identifier is not -1, is active,
  -- each of them is hung up as busy and nothing else happens: the call manager keeps its call, its
  -- timer, its watchdog and its answer, and no callback is called. Hanging up a call must leave
  -- the others active.
  pub handle_events-second :
      (id : ℤ) (es : List CallEvent) (s : MpService W)
      → ((other : ℤ) (w : W)
          → int_eq id other ≡ false
          → p.call_is_active id w ≡ true
          → p.call_is_active id (p.call_hangup other busy_here w) ≡ true)
      → int_eq id (negsuc 0) ≡ false
      → All (λ e. int_eq id (call_of e) ≡ false) es
      → s.call_manager.call_id ≡ id
      → p.call_is_active id s.outside ≡ true
      → handle_events es s ≡ set_outside (hang_up_all es s.outside) s
  unfolding handle_events hang_up_all has_other_call
  handle_events-second id [] s stays real others here live = refl
  handle_events-second id (e ∷ es) s stays real others here live =
      let w = p.call_hangup (call_of e) busy_here s.outside in
      let refused = handle_event-second e s (ground (arith, here, live, real, others)) in
      rw refused (
        handle_events-second id es (set_outside w s) stays real others.1 here
          (stays (call_of e) s.outside others.0 live))
