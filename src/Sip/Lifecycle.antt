-- ===== src/Sip/Lifecycle.antt =====
-- Starting and stopping the SIP stack (sip_stack/src/MpSIPStack.cpp).
use end_to_end_smkex.Base.{◌≡◌, true, false, Bool-cases, inl, inr, not, if◌then◌else◌, arith}
use end_to_end_smkex.Utils.{success, is_success}
use end_to_end_smkex.Buddy.BuddyList.{reset}
use end_to_end_smkex.Service.Pjsua.{Pjsua}
use end_to_end_smkex.Service.State.{MpAccSettings, MpSipStack, MpService, set_outside}
use end_to_end_smkex.Sip.Config.{set_sip_account_config}
use end_to_end_smkex.Sip.Stack.{stop_sip_stack, bring_online, start_pjsua, start_sip_stack}

-- What starting and stopping leave alone.
pub record Spares {W : Type 0} (s s' : MpService W) : Type 0 where
  pub same_calls : s'.call_manager ≡ s.call_manager
  pub same_account : s'.user_account ≡ s.user_account
  pub same_messages : s'.data_msg ≡ s.data_msg
  pub same_transport : s'.msg_transport ≡ s.msg_transport

module _ {W : Type 0} (p : Pjsua W) where
  set_sip_account_config-started :
      (a : MpAccSettings) (sip : MpSipStack) (w : W)
      → (set_sip_account_config p a sip w).1.started ≡ sip.started
  unfolding set_sip_account_config
  set_sip_account_config-started a sip w = ground arith

  bring_online-started :
      (a : MpAccSettings) (s : MpService W)
      → s.sip_stack.started ≡ false
      → let (status, s') = bring_online p a s in
        (s'.sip_stack.started ≡ is_success status) × (s'.buddy_list ≡ s.buddy_list) × Spares s s'
  unfolding bring_online is_success set_sip_account_config
  bring_online-started a s e = ground arith

  start_pjsua-started :
      (a : MpAccSettings) (s : MpService W)
      → s.sip_stack.started ≡ false
      → let (status, s') = start_pjsua p a s in
        (s'.sip_stack.started ≡ is_success status) × (s'.buddy_list ≡ s.buddy_list) × Spares s s'
  unfolding start_pjsua is_success
  start_pjsua-started a s e =
      let w₁ = (p.create s.outside).1 in
      let w₃ = (p.transport_create a.verify_server (p.init a.pjsip_log_level w₁).1).1 in
      ground (arith, bring_online-started a (set_outside (p.start w₃).1 s) e)

  -- Starting succeeds if and only if the stack has started afterwards. It changes the stack and PJSUA
  -- alone: the buddies, the calls, the account and the messages stay.
  pub start_sip_stack-started :
      (a : MpAccSettings) (s : MpService W)
      → let (status, s') = start_sip_stack p a s in
        (s'.sip_stack.started ≡ is_success status) × (s'.buddy_list ≡ s.buddy_list) × Spares s s'
  unfolding start_sip_stack stop_sip_stack is_success
  start_sip_stack-started a s = elim (Bool-cases s.sip_stack.started) [
    | inl e ↦ ground (arith, e)
    | inr e ↦ ground (arith, start_pjsua-started a s e)
  ]

  -- A stack that has started is not started again.
  pub start_sip_stack-again :
      (a : MpAccSettings) (s : MpService W)
      → s.sip_stack.started ≡ true
      → start_sip_stack p a s ≡ (success, s)
  unfolding start_sip_stack
  start_sip_stack-again a s e = ground arith

  -- A stack that is not started is not stopped again.
  pub stop_sip_stack-again :
      (s : MpService W) → s.sip_stack.started ≡ false → stop_sip_stack p s ≡ (success, s)
  unfolding stop_sip_stack
  stop_sip_stack-again s e = ground arith

  -- Stopping succeeds if and only if the stack is not started afterwards. The buddies of a stack that
  -- was started are forgotten, also when PJSUA reports an error and the stack stays started; the
  -- calls, the account and the messages stay.
  pub stop_sip_stack-stopped :
      (s : MpService W)
      → let (status, s') = stop_sip_stack p s in
        (not s'.sip_stack.started ≡ is_success status)
        × (s'.buddy_list ≡ (if s.sip_stack.started then reset s.buddy_list else s.buddy_list))
        × Spares s s'
  unfolding stop_sip_stack is_success
  stop_sip_stack-stopped s = ground arith
