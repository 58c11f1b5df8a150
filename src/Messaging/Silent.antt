-- ===== src/Messaging/Silent.antt =====
-- The changes of the pools that the engine makes (auto_resend/src/MpAutoResendEngine.cpp) without a call
-- that sends.
use end_to_end_smkex.Base.{◌≡◌, refl, ◌∙◌, List, [], ◌∷◌, MpString, arith}
use end_to_end_smkex.Utils.{MpStatus}
use end_to_end_smkex.AutoResend.Payload.{MpMsgPayload}
use end_to_end_smkex.AutoResend.Pool.{MpMsgPool, mark_msg_as_processed, mark_as_dirty}
use end_to_end_smkex.AutoResend.Engine.{
  MpIdbConnector, MpAutoResendEngine, add_db_connector, sync_with_db_connectors, sync_connectors,
  add_messages, add_message_internal, mark_user_pool_as_clean, put_pool, notify_all,
}
use end_to_end_smkex.AutoResend.Engine.Run.{
  add_message, settle, message_status, buddy_state2, set_auto_resend_enabled, prioritize,
  resend_message, send_message, start_engine,
}
use end_to_end_smkex.Messaging.Tells.{OnlyTells, mark_processed-OnlyTells}

-- What a change of the pools leaves as it was.
pub record Silent (e e' : MpAutoResendEngine) : Type 0 where
  pub same_calls : e'.calls ≡ e.calls
  pub same_started : e'.started ≡ e.started
  pub same_connectors : e'.db_connectors ≡ e.db_connectors

Silent-trans : {a b c : MpAutoResendEngine} → Silent a b → Silent b c → Silent a c
Silent-trans h k = record {
  same_calls = k.same_calls ∙ h.same_calls;
  same_started = k.same_started ∙ h.same_started;
  same_connectors = k.same_connectors ∙ h.same_connectors;
}

pub add_message_internal-Silent :
    (m : MpMsgPayload) (e : MpAutoResendEngine) → Silent e (add_message_internal m e)
unfolding add_message_internal put_pool
add_message_internal-Silent m e = record {
  same_calls = ground arith;
  same_started = ground arith;
  same_connectors = ground arith;
}

add_messages-Silent :
    (ms : List MpMsgPayload) (e : MpAutoResendEngine) → Silent e (add_messages ms e)
unfolding add_messages
add_messages-Silent [] e = record { same_calls = refl; same_started = refl; same_connectors = refl }
add_messages-Silent (m ∷ ms) e =
    Silent-trans (add_message_internal-Silent m e)
      (add_messages-Silent ms (add_message_internal m e))

pub sync_connectors-Silent :
    (cs : List MpIdbConnector) (e : MpAutoResendEngine) → Silent e (sync_connectors cs e)
unfolding sync_connectors
sync_connectors-Silent [] e = record {
  same_calls = refl;
  same_started = refl;
  same_connectors = refl;
}
sync_connectors-Silent (c ∷ cs) e =
    Silent-trans (add_messages-Silent c.stored e)
      (sync_connectors-Silent cs (add_messages c.stored e))

pub put_pool-Silent :
    (s : MpString) (q : MpMsgPool) (e : MpAutoResendEngine) → Silent e (put_pool s q e)
unfolding put_pool
put_pool-Silent s q e = record { same_calls = refl; same_started = refl; same_connectors = refl }

pub settle-keeps :
    (m : MpMsgPayload) (status : MpStatus) (q : MpMsgPool) (e : MpAutoResendEngine)
    → OnlyTells e.calls
    → OnlyTells (settle m status q e).calls
      × ((settle m status q e).started ≡ e.started)
      × ((settle m status q e).db_connectors ≡ e.db_connectors)
unfolding settle put_pool end_to_end_smkex.AutoResend.Engine.Run.mark_processed
settle-keeps m status q e h = ground (
  arith,
  mark_processed-OnlyTells m.user_serial (mark_as_dirty (mark_msg_as_processed m.uid q)) e h,
  h,
)
