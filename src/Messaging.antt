-- ===== src/Messaging.antt =====
-- The services joined as the constructor of `MpBaseService` joins them (base_service/src/
-- MpBaseService.cpp): the auto resend engine calls the message transport, the transport calls the SIP
-- stack and the engine, and the reports of PJSUA come back through all of them (auto_resend/src/
-- MpAutoResendEngine.cpp, data_msg/src/MpMsgTransport.cpp, sip_stack/src/MpSIPStack.cpp,
-- buddy/src/MpBuddyList.cpp). A call is the last thing that its caller does before it gives its locks
-- back, so it is carried out after the caller's change of state.
pub mod Marks
pub mod Pools
pub mod Stores
pub mod Tells
pub mod Transfer
pub mod Silent
pub mod Acts
pub mod Sending
pub mod Chain
pub mod Runs
pub mod Single
pub mod Life
pub mod Start
pub mod Stalled
pub mod Stranded
pub mod Totals
pub mod Drain
pub mod Tests
use end_to_end_smkex.Base.{
  ℕ, Bool, true, false, List, [], ◌∷◌, ◌++◌, Option, some, ◌==◌, if◌then◌else◌, ℤ, MpString,
  Outcome, done, ◌>>=◌,
}
use end_to_end_smkex.Utils.{MpStatus}
use end_to_end_smkex.AutoResend.Payload.{MpMsgPayload}
use end_to_end_smkex.AutoResend.Engine.{
  Call, send, notify, remove_for_serial, MpIdbConnector, MpAutoResendEngine, add_db_connector,
  sync_with_db_connectors,
}
use end_to_end_smkex.AutoResend.Engine.Run.{
  add_message, message_status, buddy_state2, set_auto_resend_enabled, resend_message,
  remove_messages_for_serial,
}
use end_to_end_smkex.DataMsg.Transport
use end_to_end_smkex.DataMsg.Transport.{Event, sip_message, reported, MpMsgTransport}
use end_to_end_smkex.Buddy.BuddyList.{PresenceCall}
use end_to_end_smkex.Service.Pjsua.{Pjsua}
use end_to_end_smkex.Service.State.{MpService}
use end_to_end_smkex.Sip.Requests.{send_msg}
use end_to_end_smkex.Sip.Callbacks
use end_to_end_smkex.Sip.Callbacks.{on_buddy_state}

-- `told` are the calls of the connectors' `messageStatus`, in order. The lists `calls` of the engine,
-- `events` of the transport and `presence_calls` of the buddy list hold the calls to carry out.
pub record Messaging (W : Type 0) : Type 0 where
  pub service : MpService W
  pub engine : MpAutoResendEngine
  pub told : List Call

abbrev pub set_transport : {W : Type 0} → MpMsgTransport → MpService W → MpService W
set_transport t s = record s { msg_transport = t }

-- The engine as it finds the stack (`isSipStackStarted`).
abbrev pub engine_of : {W : Type 0} → Messaging W → MpAutoResendEngine
engine_of s = record s.engine { sip_stack = some s.service.sip_stack.started }

-- A connector is told the status of a message.
abbrev pub tell : {W : Type 0} → Call → Messaging W → Messaging W
tell c s = record s { told = s.told ++ c ∷ [] }

pub data Command : Type 0 where
  -- calls of the application
  connect : Option MpIdbConnector → Command
  sync : Command
  add : MpMsgPayload → Command
  resend : MpString → ℤ → Command
  enable : Bool → Command
  -- calls of PJSUA
  pager_reported : ℕ → Command
  presence_reported : ℤ → Command

module _ {W : Type 0} (p : Pjsua W) where
  -- The transport's calls of `sendMsg`; their results are not looked at. `MpMsgTransport::sendMessage`
  -- reports nothing.
  unfoldable pub send_out : List Event → MpService W → Outcome (MpService W)
  send_out [] s = done s
  send_out (sip_message serial payload ∷ es) s = do
    (status, s') ← send_msg p (some serial) payload.payload payload.len s
    send_out es s'
  send_out (reported m status ∷ es) s = send_out es s

  -- `MpMsgTransport::sendMessage`, from the engine
  unfoldable pub transmit : MpMsgPayload → MpService W → Outcome (MpService W)
  transmit m s =
      let t = Transport.send_message m s.msg_transport in
      send_out t.events (set_transport (record t { events = [] }) s)

  -- A call that the engine makes.
  unfoldable pub carry_out_call : Call → Messaging W → Outcome (Messaging W)
  carry_out_call (send m) s = do v ← transmit m s.service; done (record s { service = v })
  carry_out_call (remove_for_serial serial) s = done (record s {
    service =
        set_transport (Transport.remove_message_for_serial serial s.service.msg_transport)
          s.service;
  })
  carry_out_call (notify c m status) s = done (tell (notify c m status) s)

  unfoldable pub carry_out : List Call → Messaging W → Outcome (Messaging W)
  carry_out [] s = done s
  carry_out (c ∷ cs) s = carry_out_call c s >>= carry_out cs

  -- The engine's calls leave it and are carried out.
  abbrev pub make_calls : MpAutoResendEngine → Messaging W → Outcome (Messaging W)
  make_calls e s = carry_out e.calls (record s { engine = record e { calls = [] } })

  -- An operation of the engine and the calls that it makes.
  unfoldable pub use_engine :
      (MpAutoResendEngine → Outcome MpAutoResendEngine) → Messaging W → Outcome (Messaging W)
  use_engine op s = do e ← op (engine_of s); make_calls e s

  -- `onSendMsgDone`: the message is sent again, or the engine hears its status.
  unfoldable pub pass_on : List Event → Messaging W → Outcome (Messaging W)
  pass_on [] s = done s
  pass_on (sip_message serial payload ∷ es) s = do
    (status, v) ← send_msg p (some serial) payload.payload payload.len s.service
    pass_on es (record s { service = v })
  pass_on (reported m status ∷ es) s = use_engine (message_status m status) s >>= pass_on es

  -- `on_pager_status` of PJSUA
  unfoldable pub pager_status : ℕ → Messaging W → Outcome (Messaging W)
  pager_status code s =
      let v = Callbacks.on_pager_status code s.service in
      let t = v.msg_transport in
      pass_on t.events (record s { service = set_transport (record t { events = [] }) v })

  module _ (engine_cb : ℕ) where
    -- The callbacks of the presence list; those that are not the engine are the application's.
    unfoldable pub tell_presence : List PresenceCall → Messaging W → Outcome (Messaging W)
    tell_presence [] s = done s
    tell_presence (c ∷ cs) s =
        let heard = use_engine (buddy_state2 c.told.serial c.told.online) s in
        (if c.callback == engine_cb then heard else done s) >>= tell_presence cs

    -- `on_buddy_state` of PJSUA
    unfoldable pub on_presence : ℤ → Messaging W → Outcome (Messaging W)
    on_presence buddy_id s =
        let v = on_buddy_state p buddy_id s.service in
        let l = v.buddy_list in
        tell_presence l.presence_calls
          (record s { service = record v { buddy_list = record l { presence_calls = [] } } })

    unfoldable pub run : Command → Messaging W → Outcome (Messaging W)
    run (connect c) s = use_engine (λ e. done (add_db_connector c e)) s
    run sync s = use_engine (λ e. done (sync_with_db_connectors e)) s
    run (add m) s = use_engine (add_message m) s
    run (resend serial msg_id) s =
        use_engine (λ e. do (found, e') ← resend_message serial msg_id e; done e') s
    run (enable b) s = use_engine (set_auto_resend_enabled b) s
    run (pager_reported code) s = pager_status code s
    run (presence_reported id) s = on_presence id s

    unfoldable pub run_all : List Command → Messaging W → Outcome (Messaging W)
    run_all [] s = done s
    run_all (c ∷ cs) s = run c s >>= run_all cs

  -- `removeMessagesForSerial`
  unfoldable pub remove_messages : MpString → Messaging W → Outcome (Messaging W)
  remove_messages serial s = use_engine (remove_messages_for_serial serial) s
