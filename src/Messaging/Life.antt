-- ===== src/Messaging/Life.antt =====
-- The joined services with the account and the buddies: `login`, `logout` (user_account/src/
-- MpUserAccount.cpp), `addBuddy` and `rmBuddy` (buddy/src/MpBuddyList.cpp).
use end_to_end_smkex.Base.{
  ℕ, ◌≡◌, ◌≢◌, refl, sym, ap, subst, ◌∙◌, true, pos, is_positive, ◌⊎◌, List, [], ◌∷◌, All, MpString,
  Outcome, done, ◌>>=◌, >>=-eq-done, arith,
}
use end_to_end_smkex.Buddy.BuddyList
use end_to_end_smkex.DataMsg.Transport.{MpMsgTransport}
use end_to_end_smkex.Sip.Requests.{stack_for_buddies}
use end_to_end_smkex.Buddy.BuddyList.{MpBuddy}
use end_to_end_smkex.Service.Pjsua.{Pjsua}
use end_to_end_smkex.Service.State.{MpAccSettings, MpService, online, offline}
use end_to_end_smkex.Service.Commands.{add_to_list, remove_from_list}
use end_to_end_smkex.Service.Runs.{add_to_list-returns}
use end_to_end_smkex.Sip.Lifecycle.{start_sip_stack-started, stop_sip_stack-stopped}
use end_to_end_smkex.Account.User.{login, logout, registration_state, set_req_status}
use end_to_end_smkex.Messaging.{Messaging, Command, run}
use end_to_end_smkex.Messaging.Sending.{IsKept}
use end_to_end_smkex.Messaging.Chain.{IsJoined}
use end_to_end_smkex.Messaging.Runs.{IsFit, Returns}
use end_to_end_smkex.Messaging.Single.{run-Returns}

-- What the application does to the account and the buddies, and every command on messages.
pub data Event : Type 0 where
  log_in : MpAccSettings → Event
  log_out : Event
  list_buddy : MpBuddy → Event
  remove_buddy : (serial : MpString) → Event
  act : Command → Event

abbrev pub serve : {W : Type 0} → MpService W → Messaging W → Messaging W
serve v s = record s { service = v }

-- What an event is given: a buddy with a serial, and messages that can be sent.
abbrev pub IsProper : Event → Type 0
IsProper (list_buddy b) = b.serial ≢ []
IsProper (act c) = IsFit c
IsProper _ = Unit

-- What the transport has: no message in transfer, or one that can be sent.
abbrev Current : MpMsgTransport → Type 0
Current t =
    (t.msg.number_of_retries ≡ pos 0)
    ⊎ (IsKept t.msg.user_serial t.msg × (is_positive t.msg.number_of_retries ≡ true))

module _ {W : Type 0} (p : Pjsua W) (engine_cb : ℕ) where
  unfoldable pub live : Event → Messaging W → Outcome (Messaging W)
  live (log_in settings) s = done (serve (login p settings s.service).1 s)
  live log_out s = done (serve (logout p s.service).1 s)
  live (list_buddy b) s = do v ← add_to_list p b s.service; done (serve v s)
  live (remove_buddy serial) s = done (serve (remove_from_list p serial s.service) s)
  live (act c) s = run p engine_cb c s

  unfoldable pub live_all : List Event → Messaging W → Outcome (Messaging W)
  live_all [] s = done s
  live_all (e ∷ es) s = live e s >>= live_all es

  -- A change of the services that leaves the transport alone.
  serve-IsJoined :
      (v : MpService W) (s : Messaging W)
      → v.msg_transport ≡ s.service.msg_transport
      → IsJoined s
      → IsJoined (serve v s)
  serve-IsJoined v s same j = record {
    well = record {
      ready = record {
        indexed = j.well.ready.indexed;
        transport = j.well.ready.transport;
        stack = (v.sip_stack.started, refl);
      };
      stores = j.well.stores;
      connectors = j.well.connectors;
    };
    no_calls = j.no_calls;
    no_events = ap (λ t. t.events) same ∙ j.no_events;
    listens = ap (λ t. t.msg_notif) same ∙ j.listens;
    current = subst Current (sym same) j.current;
    waits = λ off. ap (λ t. t.msg.number_of_retries) same ∙ j.waits off;
  }

  login-transport :
      (settings : MpAccSettings) (s : MpService W)
      → (login p settings s).1.msg_transport ≡ s.msg_transport
  unfolding login
  login-transport settings s =
      let (_, _, spares) = start_sip_stack-started p settings (set_req_status online s) in
      ground (arith, spares.same_transport)

  logout-transport : (s : MpService W) → (logout p s).1.msg_transport ≡ s.msg_transport
  unfolding logout registration_state
  logout-transport s =
      let (_, _, spares) = stop_sip_stack-stopped p (set_req_status offline s) in
      spares.same_transport

  add_to_list-transport :
      (b : MpBuddy) (s s' : MpService W)
      → add_to_list p b s ≡ done s'
      → s'.msg_transport ≡ s.msg_transport
  unfolding add_to_list
  add_to_list-transport b s s' e =
      let stack = stack_for_buddies p s.sip_stack s.user_account.acc_settings in
      let (r, _, now) = >>=-eq-done (BuddyList.add_buddy stack b s.buddy_list s.outside) _ e in
      ground (arith, now)

  live-Returns : (e : Event) (s : Messaging W) → IsProper e → IsJoined s → Returns (live e s)
  unfolding live remove_from_list
  live-Returns (log_in settings) s h j =
      (_, refl, serve-IsJoined _ s (login-transport settings s.service) j)
  live-Returns log_out s h j = (_, refl, serve-IsJoined _ s (logout-transport s.service) j)
  live-Returns (list_buddy b) s h j =
      let (v, e) = add_to_list-returns p b s.service h in
      (serve v s, ground (arith, e), serve-IsJoined v s (add_to_list-transport b s.service v e) j)
  live-Returns (remove_buddy serial) s h j = (_, refl, serve-IsJoined _ s refl j)
  live-Returns (act c) s h j = run-Returns p engine_cb c s j h

  pub live_all-Returns :
      (es : List Event) (s : Messaging W) → All IsProper es → IsJoined s → Returns (live_all es s)
  unfolding live_all
  live_all-Returns [] s hs j = (s, refl, j)
  live_all-Returns (e ∷ es) s (h, hs) j =
      let (s₁, out, j₁) = live-Returns e s h j in
      let (s₂, rest, j₂) = live_all-Returns es s₁ hs j₁ in (s₂, rw out rest, j₂)
