-- ===== src/Sip/Stack.antt =====
-- `startSIPStack` and `stopSIPStack` (sip_stack/src/MpSIPStack.cpp).
use end_to_end_smkex.Base.{Bool, true, false, not, if◌then◌else◌}
use end_to_end_smkex.Utils.{MpStatus, success, sip_init_err, sip_destroy_err, is_success}
use end_to_end_smkex.Buddy.BuddyList.{reset}
use end_to_end_smkex.Service.Pjsua.{Pjsua}
use end_to_end_smkex.Service.State.{MpAccSettings, MpService, set_outside}
use end_to_end_smkex.Sip.Config.{set_sip_account_config, set_codecs_priorities}

module _ {W : Type 0} (p : Pjsua W) where
  unfoldable pub stop_sip_stack : MpService W → MpStatus × MpService W
  stop_sip_stack s =
      if not s.sip_stack.started
      then (success, s)
      else (let s₁ = record s { buddy_list = reset s.buddy_list } in
          let (ok, w) = p.destroy2 s₁.outside in
          let s₂ = set_outside w s₁ in
          if ok
          then (success, record s₂ { sip_stack = record s₂.sip_stack { started = false } })
          else (sip_destroy_err, s₂))

  -- From `pjsua_get_snd_dev` to the end.
  unfoldable pub bring_online : MpAccSettings → MpService W → MpStatus × MpService W
  bring_online a s =
      let (capture, playback) = p.get_snd_dev s.outside in
      let sip = record s.sip_stack { capture_device = capture; playback_device = playback } in
      let (added, sip₁, w₁) = set_sip_account_config p a sip s.outside in
      let s₁ = record s { sip_stack = sip₁; outside = w₁ } in
      if not added
      then (sip_init_err, s₁)
      else (let (shown, w₂) = p.acc_set_online_status sip₁.acc_id true w₁ in
          if not shown
          then (sip_init_err, set_outside w₂ s₁)
          else (let (set, w₃) = set_codecs_priorities p a.network_state w₂ in
              if not set then (sip_init_err, set_outside w₃ s₁) else (
                success,
                record s₁ { sip_stack = record sip₁ { started = true }; outside = w₃ },
              )))

  -- From `pjsua_create` on.
  unfoldable pub start_pjsua : MpAccSettings → MpService W → MpStatus × MpService W
  unfolding bring_online
  start_pjsua a s =
      let (created, w₁) = p.create s.outside in
      if not created
      then (sip_init_err, set_outside w₁ s)
      else (let (configured, w₂) = p.init a.pjsip_log_level w₁ in
          if not configured
          then (sip_init_err, set_outside w₂ s)
          else (let (connected, w₃) = p.transport_create a.verify_server w₂ in
              if not connected
              then (sip_init_err, set_outside w₃ s)
              else (let (running, w₄) = p.start w₃ in
                  if not running
                  then (sip_init_err, set_outside (p.destroy w₄) s)
                  else bring_online a (set_outside w₄ s))))

  unfoldable pub start_sip_stack : MpAccSettings → MpService W → MpStatus × MpService W
  unfolding stop_sip_stack start_pjsua
  start_sip_stack a s =
      if s.sip_stack.started
      then (success, s)
      else (let (status, s₁) = stop_sip_stack s in
          if not (is_success status) then (status, s₁) else start_pjsua a s₁)

  unfoldable pub is_sip_stack_started : MpService W → Bool
  is_sip_stack_started s = s.sip_stack.started
