-- ===== src/Service/Commands.antt =====
-- Calls of the application and of PJSUA on the services, one after the other. `holdCall`, `sendMsg`, the
-- call that the application makes, `on_pager` and the stack's own `on_incoming_call` are not among them.
use end_to_end_smkex.Base.{ℕ, Bool, List, [], ◌∷◌, ℤ, MpString, Outcome, done, ◌>>=◌}
use end_to_end_smkex.Utils.{MpStatus}
use end_to_end_smkex.Buddy.BuddyList.{MpBuddy, MpBuddyList}
use end_to_end_smkex.Buddy.BuddyList
use end_to_end_smkex.Service.Pjsua.{Pjsua}
use end_to_end_smkex.Service.State.{MpAccSettings, MpService}
use end_to_end_smkex.Sip.Requests
use end_to_end_smkex.Sip.Requests.{stack_for_buddies}
use end_to_end_smkex.Sip.Callbacks.{
  on_reg_state, on_buddy_state, on_call_media_state, on_pager_status,
}
use end_to_end_smkex.Calls.Manager
use end_to_end_smkex.Calls.Second.{CallEvent, handle_event}
use end_to_end_smkex.Account.User.{login, logout, set_online}

pub data Command : Type 0 where
  -- calls of the application
  log_in : MpAccSettings → Command
  log_out : Command
  go_online : Bool → Command
  list_buddy : MpBuddy → Command
  remove_buddy : (serial : MpString) → Command
  answer : MpStatus → Command
  hang_up : Command
  refuse : Command
  mute : Bool → Command
  take_up : Command
  watchdog : Command
  -- calls of PJSUA
  registration_reported : ℤ → Command
  buddy_reported : ℤ → Command
  media_reported : ℤ → Command
  call_reported : CallEvent → Command
  message_reported : ℕ → Command

module _ {W : Type 0} (p : Pjsua W) where
  -- `addBuddy`, with the SIP stack that the buddy list was given.
  unfoldable pub add_to_list : MpBuddy → MpService W → Outcome (MpService W)
  add_to_list buddy s = do
    (status, l, w) ←
        BuddyList.add_buddy (stack_for_buddies p s.sip_stack s.user_account.acc_settings) buddy
          s.buddy_list s.outside
    done (record s { buddy_list = l; outside = w })

  -- `rmBuddy`
  unfoldable pub remove_from_list : MpString → MpService W → MpService W
  remove_from_list serial s =
      let (status, l, w) =
        BuddyList.rm_buddy (stack_for_buddies p s.sip_stack s.user_account.acc_settings) serial
          s.buddy_list s.outside in
      record s { buddy_list = l; outside = w }

module _ {W : Type 0} (p : Pjsua W) (answering : ℕ → Bool) where
  unfoldable pub perform : Command → MpService W → Outcome (MpService W)
  perform (log_in settings) s = done (login p settings s).1
  perform log_out s = done (logout p s).1
  perform (go_online b) s = done (set_online p b s).1
  perform (list_buddy buddy) s = add_to_list p buddy s
  perform (remove_buddy serial) s = done (remove_from_list p serial s)
  perform (answer mode) s = done (Manager.answer_call p mode s).1
  perform hang_up s = done (Manager.end_call p s).1
  perform refuse s = done (Manager.reject_call p s)
  perform (mute b) s = done (Requests.set_rx_call_level p b s).1
  perform take_up s = done (Manager.un_hold_call p s).1
  perform watchdog s = done (Manager.end_watchdog_call p s)
  perform (registration_reported acc) s = done (on_reg_state p acc s)
  perform (buddy_reported id) s = done (on_buddy_state p id s)
  perform (media_reported id) s = done (on_call_media_state p id s)
  perform (call_reported e) s = done (handle_event p answering e s)
  perform (message_reported code) s = done (on_pager_status code s)

  unfoldable pub perform_all : List Command → MpService W → Outcome (MpService W)
  perform_all [] s = done s
  perform_all (c ∷ cs) s = perform c s >>= perform_all cs
