-- ===== src/Calls/Manager.antt =====
-- `MpCallManager` (call_manager/src/MpCallManager.cpp), and `MpCall` (call_manager/src/MpCall.cpp), the
-- callback that answers.
use end_to_end_smkex.Base.{
  ℕ, Bool, true, false, not, ◌&&◌, List, [], ◌∷◌, ◌++◌, Option, none, some, if◌then◌else◌, ℤ,
  negsuc, int_eq, MpString, Outcome, done, ◌>>=◌, or_fault,
}
use end_to_end_smkex.Utils
use end_to_end_smkex.Utils.{MpStatus, mp_status_value}
use end_to_end_smkex.Utils.Callbacks.{add_pool_data, rm_pool_data}
use end_to_end_smkex.Service.Pjsua.{
  Pjsua, InvState, calling, early, connecting, confirmed, disconnected, other,
}
use end_to_end_smkex.Service.State.{
  CallNotice, callee_incoming, caller_calling, caller_early, u_connecting, u_confirmed,
  u_disconnected, MpCallManager, MpService, set_outside,
}
use end_to_end_smkex.Service.Addresses.{get_uri_in_list}
use end_to_end_smkex.Sip.Requests
use end_to_end_smkex.Sip.Requests.{
  call, set_rx_call_level, set_hold_call, set_capture_and_playback_devices, turn_on_sound_devices,
}

-- The seconds after which an unanswered call times out.
abbrev pub mp_call_timeout : ℕ
mp_call_timeout = 30

module _ {W : Type 0} where
  abbrev pub set_call_manager : MpCallManager → MpService W → MpService W
  set_call_manager m s = record s { call_manager = m }

  unfoldable pub add_call_cb : Option ℕ → MpService W → MpService W
  add_call_cb cb s =
      let m = s.call_manager in
      set_call_manager (record m { call_cb = add_pool_data cb m.call_cb }) s

  unfoldable pub rm_call_cb : Option ℕ → MpService W → MpService W
  rm_call_cb cb s =
      let m = s.call_manager in
      set_call_manager (record m { call_cb = rm_pool_data cb m.call_cb }) s

  unfoldable pub set_call_timer : Option ℕ → MpService W → MpService W
  set_call_timer timer s = set_call_manager (record s.call_manager { timer = timer }) s

  unfoldable pub set_do_callback : MpService W → MpService W
  set_do_callback s = set_call_manager (record s.call_manager { ena_watchdog = true }) s

  unfoldable pub set_call_id : ℤ → MpService W → MpService W
  set_call_id id s = set_call_manager (record s.call_manager { call_id = id }) s

  unfoldable pub set_last_answer_mode : ℕ → MpService W → MpService W
  set_last_answer_mode mode s =
      set_call_manager (record s.call_manager { last_answer_mode = mode }) s

  -- One callback is called.
  unfoldable pub notify_one : CallNotice → ℕ → MpService W → MpService W
  notify_one notice cb s =
      let m = s.call_manager in
      set_call_manager
        (record m { calls_made = m.calls_made ++ record { callback = cb; notice = notice } ∷ [] }) s

  unfoldable pub notify_all : CallNotice → List ℕ → MpService W → MpService W
  notify_all notice [] s = s
  notify_all notice (cb ∷ cbs) s = notify_all notice cbs (notify_one notice cb s)

module _ {W : Type 0} (p : Pjsua W) where
  abbrev stop_and_tick : ℕ → MpService W → MpService W
  stop_and_tick t s =
      let w = p.stop_timer t s.outside in
      set_outside (if p.timer_is_active t w then p.tick_timer t w else w) s

  unfoldable pub execute_stop_timer : MpService W → MpService W
  execute_stop_timer s = elim s.call_manager.timer [ none ↦ s | some t ↦ stop_and_tick t s ]

  abbrev start_or_tick : ℕ → MpService W → MpService W
  start_or_tick t s =
      let w = p.start_timer t mp_call_timeout s.outside in
      set_outside (if p.timer_is_active t w then w else p.tick_timer t w) s

  -- `executeStartTimer`, where the timer is set.
  unfoldable pub reinitialize_timer : MpService W → MpService W
  reinitialize_timer s = elim s.call_manager.timer [ none ↦ s | some t ↦ start_or_tick t s ]

  -- Whether another call is active.
  unfoldable pub has_other_call : ℤ → MpService W → Bool
  has_other_call call_id s =
      let id = s.call_manager.call_id in
      not (int_eq id call_id) && (not (int_eq id (negsuc 0)) && p.call_is_active id s.outside)

  -- The `switch` of `onCallState`.
  unfoldable pub handle_call_state : InvState → ℕ → List ℕ → MpService W → MpService W
  handle_call_state calling status cbs s =
      notify_all (caller_calling status) cbs (reinitialize_timer s)
  handle_call_state early status cbs s =
      notify_all (caller_early status) cbs (execute_stop_timer (set_last_answer_mode 0 s))
  handle_call_state connecting status cbs s =
      notify_all (u_connecting status) cbs (reinitialize_timer (set_last_answer_mode 0 s))
  handle_call_state confirmed status cbs s =
      notify_all (u_confirmed status) cbs (execute_stop_timer s)
  handle_call_state disconnected status cbs s =
      notify_all (u_disconnected status) cbs (execute_stop_timer s)
  handle_call_state other status cbs s = s

  unfoldable pub on_call_state : ℤ → InvState → ℕ → MpService W → MpService W
  on_call_state call_id state status s =
      if has_other_call call_id s
      then Requests.reject_call p call_id s
      else handle_call_state state status s.call_manager.call_cb (set_call_id call_id s)

  unfoldable pub answer_call : MpStatus → MpService W → MpStatus × MpService W
  answer_call mode s =
      Requests.answer_call p s.call_manager.call_id mode
        (set_last_answer_mode (mp_status_value mode) s)

  unfoldable pub end_call : MpService W → MpStatus × MpService W
  end_call s = Requests.end_call p (set_last_answer_mode (mp_status_value Utils.reject_call) s)

  unfoldable pub reject_call : MpService W → MpService W
  reject_call s =
      let id = s.call_manager.call_id in
      if p.call_is_active id s.outside then Requests.reject_call p id s else s

  -- An incoming call is told to one callback; those in `answering` are `MpCall`, which answers.
  unfoldable pub tell_incoming : (answering : ℕ → Bool) → MpString → ℕ → MpService W → MpService W
  unfolding answer_call
  tell_incoming answering caller cb s =
      let told = notify_one (callee_incoming caller) cb s in
      if answering cb then (answer_call Utils.answer_call told).1 else told

  unfoldable pub tell_all_incoming :
      (answering : ℕ → Bool) → MpString → List ℕ → MpService W → MpService W
  tell_all_incoming answering caller [] s = s
  tell_all_incoming answering caller (cb ∷ cbs) s =
      tell_all_incoming answering caller cbs (tell_incoming answering caller cb s)

  unfoldable pub on_incoming_call :
      (answering : ℕ → Bool) → ℤ → MpString → MpService W → MpService W
  on_incoming_call answering call_id caller s =
      if has_other_call call_id s
      then Requests.reject_call p call_id s
      else reinitialize_timer
          (tell_all_incoming answering caller s.call_manager.call_cb (set_call_id call_id s))

  unfoldable pub call_buddy : MpString → MpService W → Outcome (MpStatus × MpService W)
  call_buddy serial s = do uri ← get_uri_in_list serial s; done (call p uri s)

  unfoldable pub mute_call : MpService W → MpStatus × MpService W
  mute_call s = set_rx_call_level p true s

  unfoldable pub un_mute_call : MpService W → MpStatus × MpService W
  un_mute_call s = set_rx_call_level p false s

  -- `timer_->stopTimer()` is called on a null pointer too.
  unfoldable pub hold_call : MpService W → Outcome (MpStatus × MpService W)
  hold_call s =
      let (capture, playback) = p.get_snd_dev s.outside in
      let s₁ =
        if not (int_eq capture (negsuc 0)) && not (int_eq playback (negsuc 0))
        then set_capture_and_playback_devices p capture playback s
        else s in
      let (status, s₂) = set_hold_call p s₁.call_manager.call_id true s₁ in
      let s₃ = set_call_manager (record s₂.call_manager { ena_watchdog = false }) s₂ in
      do
        timer ← or_fault s₃.call_manager.timer
        done (status, set_outside (p.stop_timer timer s₃.outside) s₃)

  unfoldable pub un_hold_call : MpService W → MpStatus × MpService W
  un_hold_call s =
      let s₁ = turn_on_sound_devices p s in set_hold_call p s₁.call_manager.call_id false s₁

  unfoldable pub end_watchdog_call : MpService W → MpService W
  end_watchdog_call s = elim s.call_manager.timer [
    | none ↦ s
    | some t ↦
        if s.call_manager.ena_watchdog
        then set_outside (p.tick_timer t s.outside)
            (set_call_manager (record s.call_manager { ena_watchdog = false }) s)
        else s
  ]

  unfoldable pub get_active_call_count : MpService W → ℕ
  get_active_call_count s = p.call_get_count s.outside
