-- ===== src/Messaging/Start.antt =====
-- The services as `MpBaseService` makes them (base_service/src/MpBaseService.cpp) from the constructors of
-- the engine (auto_resend/src/MpAutoResendEngine.cpp), the transport (data_msg/src/MpMsgTransport.cpp), the
-- buddy list (buddy/src/MpBuddyList.cpp) and the message manager (data_msg/src/MpMsgManager.cpp).
use end_to_end_smkex.Base.{
  ℕ, ◌≡◌, refl, true, false, List, [], ◌∷◌, none, some, All, pos, MpString, find, Outcome, done,
  ◌>>=◌, inl,
}
use end_to_end_smkex.Utils.Buffer
use end_to_end_smkex.Utils.Buffer.{empty}
use end_to_end_smkex.AutoResend.Payload.{message, is_message, new_payload, transport_payload}
use end_to_end_smkex.AutoResend.Engine.{MpAutoResendEngine}
use end_to_end_smkex.AutoResend.Engine.Sift.{count}
use end_to_end_smkex.AutoResend.Engine.Offers.{listed}
use end_to_end_smkex.Buddy.BuddyList.{MpBuddyList}
use end_to_end_smkex.DataMsg.Manager.{MpMsgManager}
use end_to_end_smkex.DataMsg.Transport.{MpMsgTransport, set_msg_transport_notif}
use end_to_end_smkex.Service.Pjsua.{Pjsua}
use end_to_end_smkex.Service.State.{new_sip_stack, new_call_manager, new_user_account}
use end_to_end_smkex.Messaging.{Messaging, set_transport}
use end_to_end_smkex.Messaging.Chain.{IsJoined}
use end_to_end_smkex.Messaging.Life.{Event, IsProper, live_all, live_all-Returns}

abbrev pub new_auto_resend : MpAutoResendEngine
new_auto_resend = record {
  msg_transport = false;
  sip_stack = none;
  db_connectors = [];
  user_pool = [];
  priority = [];
  started = false;
  auto_resend_enabled = false;
  calls = [];
}

-- "null"
abbrev null_serial : MpString
null_serial = b'n' ∷ b'u' ∷ b'l' ∷ b'l' ∷ []

unfoldable pub new_msg_transport : Outcome MpMsgTransport
unfolding new_payload transport_payload is_message Buffer.bytes_from Buffer.set_payload
new_msg_transport = do
  m ← new_payload null_serial empty (pos 0) (pos 0) (pos 0) message false
  done (record { msg_notif = false; msg = m; counter = pos 0; events = [] })

abbrev pub new_buddy_list : MpBuddyList
new_buddy_list = record { buddy_list = []; presence_cb = []; presence_calls = [] }

abbrev pub new_msg_manager : MpMsgManager
new_msg_manager = record { msg_cb = []; inv_cb = []; deliveries = [] }

-- `setMsgTransport`: the engine gets the transport, and the transport its notifier.
unfoldable pub set_msg_transport : {W : Type 0} → Messaging W → Messaging W
unfolding set_msg_transport_notif
set_msg_transport s = record s {
  engine = record s.engine { msg_transport = true };
  service = set_transport (set_msg_transport_notif true s.service.msg_transport) s.service;
}

-- `MpAutoResendEngine::setSIPStack`
unfoldable pub set_sip_stack : {W : Type 0} → Messaging W → Messaging W
set_sip_stack s = record s {
  engine = record s.engine { sip_stack = some s.service.sip_stack.started };
}

-- `MpBaseService()`, with the instances that its calls make; it gives the engine the presence list, which
-- the engine only keeps, and registers no callback there.
unfoldable pub new_base_service : {W : Type 0} → W → Outcome (Messaging W)
unfolding new_msg_transport set_msg_transport set_sip_stack
new_base_service w = do
  t ← new_msg_transport
  done (
      set_sip_stack (
        set_msg_transport (record {
          service = record {
            sip_stack = new_sip_stack;
            call_manager = new_call_manager;
            user_account = new_user_account;
            buddy_list = new_buddy_list;
            data_msg = new_msg_manager;
            msg_transport = t;
            outside = w;
          };
          engine = new_auto_resend;
          told = [];
        })))

new_base_service-IsJoined :
    {W : Type 0} (w : W) → (s : Messaging W) × (new_base_service w ≡ done s) × IsJoined s
unfolding new_base_service count listed find
new_base_service-IsJoined w = (
  _,
  refl,
  record {
    well = record {
      ready = record { indexed = λ k. refl; transport = refl; stack = (false, refl) };
      stores = λ k q there. cc;
      connectors = tt;
    };
    no_calls = refl;
    no_events = refl;
    listens = refl;
    current = inl refl;
    waits = λ off. refl;
  },
)

-- The services can be made, and from then on any sequence of these calls returns, and none of them ends
-- the program or is undefined: `login` and `logout`; `addBuddy` and `rmBuddy`; of the engine,
-- `addDBConnector`, `syncWithDBConnectors`, `addMessage`, `resendMessage` and `setAutoResendEnabled`,
-- but not `removeMessagesForSerial`; and PJSUA's `on_pager_status` and `on_buddy_state`, but no other
-- report of its. At the end, if the engine is stopped, no message is in transfer. The buddies that are
-- added have a serial, the messages that the application gives are for users with a name, and their
-- buffers are blocks of their lengths.
pub new_base_service-runs :
    {W : Type 0} (p : Pjsua W) (engine_cb : ℕ) (w : W) (es : List Event)
    → All IsProper es
    → (s : Messaging W) × (s' : Messaging W) × (new_base_service w ≡ done s)
      × (live_all p engine_cb es s ≡ done s')
      × (s'.engine.started ≡ false → s'.service.msg_transport.msg.number_of_retries ≡ pos 0)
new_base_service-runs p engine_cb w es proper =
    let (s, made, j) = new_base_service-IsJoined w in
    let (s', ends, j') = live_all-Returns p engine_cb es s proper j in (s, s', made, ends, j'.waits)
