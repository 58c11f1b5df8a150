-- ===== src/Service/Runs.antt =====
-- The runs of the services over the calls of Service/Commands, and what holds between two of them.
use end_to_end_smkex.Base.{
  ◌≡◌, ◌≢◌, refl, ap, subst, ◌∙◌, Bool, false, List, [], ◌∷◌, some, All, inl, inr, Bool-cases,
  Option-cases, ℕ, ℤ, MpString, find, done, >>=-eq-done, arith,
}
use end_to_end_smkex.Utils.{MpStatus, general_err, is_success}
use end_to_end_smkex.Utils.Addresses.{get_uri_from_serial}
use end_to_end_smkex.Buddy.BuddyList
use end_to_end_smkex.Buddy.BuddyList.{
  SipStack, MpBuddy, MpBuddyList, serial_is_valid, keep_if_success,
}
use end_to_end_smkex.Buddy.Subscriptions.{add_buddy-success, add_buddy-failure}
use end_to_end_smkex.Buddy.Filed.{add_buddy-IsFiled}
use end_to_end_smkex.Service.Pjsua.{Pjsua}
use end_to_end_smkex.Service.State.{MpAccSettings, MpSipStack, MpService}
use end_to_end_smkex.Service.Addresses.{uri_of_serial, get_buddy_uri}
use end_to_end_smkex.Service.Commands.{Command, add_to_list, perform, perform_all}
use end_to_end_smkex.Service.Frame.{
  set_online-Unmoved, answer_call-Unmoved, end_call-Unmoved, reject_call-Unmoved,
  set_rx_call_level-Unmoved, un_hold_call-Unmoved, end_watchdog_call-Unmoved, on_reg_state-Unmoved,
  on_call_media_state-Unmoved, on_pager_status-Unmoved,
}
use end_to_end_smkex.Service.Sound.{
  IsSound, Unmoved-IsSound, login-IsSound, logout-IsSound, remove_from_list-IsSound,
  on_buddy_state-IsSound,
}
use end_to_end_smkex.Sip.Requests.{subscribe, subscribed, stack_for_buddies}
use end_to_end_smkex.Calls.Frame.{handle_event-Unmoved}

-- A buddy that is added has a serial.
abbrev pub IsNamed : Command → Type 0
IsNamed (Command.list_buddy buddy) = buddy.serial ≢ []
IsNamed _ = Unit

get_uri_from_serial-returns :
    (s address port : MpString)
    → s ≢ []
    → (uri : MpString) × (get_uri_from_serial (some s) address port ≡ done uri)
unfolding get_uri_from_serial
get_uri_from_serial-returns [] address port h = absurd (h refl)
get_uri_from_serial-returns (c ∷ cs) address port h = (_, refl)

module _ {W : Type 0} (p : Pjsua W) where
  subscribe-returns :
      (sip : MpSipStack) (a : MpAccSettings) (b : MpBuddy) (w : W)
      → b.serial ≢ []
      → (r : MpStatus × ℤ × W) × (subscribe p sip a b w ≡ done r)
  unfolding subscribe get_buddy_uri uri_of_serial
  subscribe-returns sip a b w h = elim (Bool-cases sip.started) [
    | inr off ↦ ((general_err, b.pjsua_id, w), rw off)
    | inl on ↦
        let (uri, e) = get_uri_from_serial-returns b.serial a.server_address a.port h in
        (subscribed b (p.buddy_add uri w), rw (on, e))
  ]

  subscribe-refused :
      (sip : MpSipStack) (a : MpAccSettings) (b : MpBuddy) (w : W)
      → sip.started ≡ false
      → subscribe p sip a b w ≡ done (general_err, b.pjsua_id, w)
  unfolding subscribe
  subscribe-refused sip a b w off = rw off

module _ {W : Type 0} (stack : SipStack W) where
  add_buddy-returns :
      (b : MpBuddy) (l : MpBuddyList) (w : W) (r : MpStatus × ℤ × W)
      → stack.subscribe b w ≡ done r
      → (out : MpStatus × MpBuddyList × W) × (BuddyList.add_buddy stack b l w ≡ done out)
  unfolding BuddyList.add_buddy
  add_buddy-returns b l w r e = elim (Bool-cases (serial_is_valid b.serial)) [
    | inr v ↦ ((general_err, l, w), rw v)
    | inl v ↦ elim (Option-cases (find b.serial l.buddy_list)) [
      | inl f ↦ (keep_if_success b l r, rw (v, f, e))
      | inr (c, f) ↦ ((general_err, l, w), rw (v, f))
    ]
  ]

module _ {W : Type 0} (p : Pjsua W) where
  pub add_to_list-returns :
      (b : MpBuddy) (s : MpService W)
      → b.serial ≢ []
      → (s' : MpService W) × (add_to_list p b s ≡ done s')
  unfolding add_to_list
  add_to_list-returns b s h =
      let a = s.user_account.acc_settings in
      let (r, e) = subscribe-returns p s.sip_stack a b s.outside h in
      let ((status, l, w), f) =
        add_buddy-returns (stack_for_buddies p s.sip_stack a) b s.buddy_list s.outside r e in
      (record s { buddy_list = l; outside = w }, rw f)

  -- A stack that is not started refuses every buddy.
  refused-keeps :
      (b : MpBuddy) (s : MpService W) {status : MpStatus} {l : MpBuddyList} {w : W}
      → BuddyList.add_buddy
          (stack_for_buddies p s.sip_stack s.user_account.acc_settings)
          b
          s.buddy_list
          s.outside
        ≡ done (status, l, w)
      → s.sip_stack.started ≡ false
      → l ≡ s.buddy_list
  unfolding is_success
  refused-keeps b s {status = status} e off =
      let a = s.user_account.acc_settings in
      let stack = stack_for_buddies p s.sip_stack a in
      elim (Bool-cases (is_success status)) [
        | inr ko ↦ add_buddy-failure stack b s.buddy_list s.outside e ko
        | inl ok ↦
            let (_, _, id, sub, _) = add_buddy-success stack b s.buddy_list s.outside [] e ok in
            let refused = subscribe-refused p s.sip_stack a b s.outside off in
            absurd (ground (arith, sub, refused, ok))
      ]

  add_to_list-IsSound :
      (b : MpBuddy) (s s' : MpService W) → add_to_list p b s ≡ done s' → IsSound s → IsSound s'
  unfolding add_to_list
  add_to_list-IsSound b s s' e h =
      let stack = stack_for_buddies p s.sip_stack s.user_account.acc_settings in
      let ((status, l, w), added, now) =
        >>=-eq-done (BuddyList.add_buddy stack b s.buddy_list s.outside) _ e in
      let sound : IsSound (record s { buddy_list = l; outside = w }) = record {
        forgotten = λ off.
            ap BuddyList.MpBuddyList.buddy_list (refused-keeps b s added off) ∙ h.forgotten off;
        filed = add_buddy-IsFiled stack b s.buddy_list s.outside added h.filed;
      } in
      subst IsSound (ground (arith, now)) sound

module _ {W : Type 0} (p : Pjsua W) (answering : ℕ → Bool) where
  perform-IsSound :
      (c : Command) (s : MpService W)
      → IsNamed c
      → IsSound s
      → (s' : MpService W) × (perform p answering c s ≡ done s') × IsSound s'
  unfolding perform
  perform-IsSound (Command.log_in settings) s n h = (_, refl, login-IsSound p settings s h)
  perform-IsSound Command.log_out s n h = (_, refl, logout-IsSound p s h)
  perform-IsSound (Command.go_online b) s n h =
      (_, refl, Unmoved-IsSound s _ (set_online-Unmoved p b s) h)
  perform-IsSound (Command.list_buddy buddy) s n h =
      let (s', e) = add_to_list-returns p buddy s n in (s', e, add_to_list-IsSound p buddy s s' e h)
  perform-IsSound (Command.remove_buddy serial) s n h =
      (_, refl, remove_from_list-IsSound p serial s h)
  perform-IsSound (Command.answer mode) s n h =
      (_, refl, Unmoved-IsSound s _ (answer_call-Unmoved p mode s) h)
  perform-IsSound Command.hang_up s n h = (_, refl, Unmoved-IsSound s _ (end_call-Unmoved p s) h)
  perform-IsSound Command.refuse s n h = (_, refl, Unmoved-IsSound s _ (reject_call-Unmoved p s) h)
  perform-IsSound (Command.mute b) s n h =
      (_, refl, Unmoved-IsSound s _ (set_rx_call_level-Unmoved p b s) h)
  perform-IsSound Command.take_up s n h =
      (_, refl, Unmoved-IsSound s _ (un_hold_call-Unmoved p s) h)
  perform-IsSound Command.watchdog s n h =
      (_, refl, Unmoved-IsSound s _ (end_watchdog_call-Unmoved p s) h)
  perform-IsSound (Command.registration_reported acc) s n h =
      (_, refl, Unmoved-IsSound s _ (on_reg_state-Unmoved p acc s) h)
  perform-IsSound (Command.buddy_reported id) s n h = (_, refl, on_buddy_state-IsSound p id s h)
  perform-IsSound (Command.media_reported id) s n h =
      (_, refl, Unmoved-IsSound s _ (on_call_media_state-Unmoved p id s) h)
  perform-IsSound (Command.call_reported e) s n h =
      (_, refl, Unmoved-IsSound s _ (handle_event-Unmoved p answering e s) h)
  perform-IsSound (Command.message_reported code) s n h =
      (_, refl, Unmoved-IsSound s _ (on_pager_status-Unmoved p code s) h)

  -- Any sequence of these calls returns, whatever PJSUA answers: `login`, `logout` and `setOnline`;
  -- `addBuddy` of a buddy with a serial, and `rmBuddy`; `answerCall`, `endCall`, `rejectCall`,
  -- `unHoldCall`, `endWatchdogCall` and `setRxCallLevel`, but not `holdCall`; and PJSUA's
  -- `on_reg_state`, `on_buddy_state`, `on_call_media_state` and `on_pager_status`, with the call
  -- manager's `on_incoming_call` and `on_call_state`. It keeps this: when the stack is not started no
  -- buddy is listed, and every buddy is listed under its own serial, which is valid.
  pub perform_all-IsSound :
      (cs : List Command) (s : MpService W)
      → All IsNamed cs
      → IsSound s
      → (s' : MpService W) × (perform_all p answering cs s ≡ done s') × IsSound s'
  unfolding perform_all
  perform_all-IsSound [] s n h = (s, refl, h)
  perform_all-IsSound (c ∷ cs) s (n, ns) h =
      let (s₁, e, h₁) = perform-IsSound c s n h in
      let (s', es, h') = perform_all-IsSound cs s₁ ns h₁ in (s', rw e es, h')
