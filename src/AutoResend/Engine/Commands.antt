-- ===== src/AutoResend/Engine/Commands.antt =====
-- The operations of `MpAutoResendEngine`, one after the other.
use end_to_end_smkex.Base.{
  ◌≡◌, refl, sym, ◌∙◌, Bool, true, not, ◌&&◌, List, [], ◌∷◌, ◌++◌, Option, none, some, MpString, ℤ,
  find, Outcome, done, arith, Bool-cases, Option-cases, inl, inr, ◌>>=◌,
}
use end_to_end_smkex.Utils.{MpStatus}
use end_to_end_smkex.AutoResend.Payload.{MpMsgPayload}
use end_to_end_smkex.AutoResend.Pool.{
  MpMsgPool, get_index_for_uid, mark_as_clean, mark_msg_as_unprocessed,
}
use end_to_end_smkex.AutoResend.Engine.{
  MpIdbConnector, mark_user_pool_as_clean, MpAutoResendEngine, put_pool, add_db_connector,
  add_messages, sync_connectors, sync_with_db_connectors, notify_all,
}
use end_to_end_smkex.AutoResend.Engine.Run.{
  send_message, start_engine, add_message, settle, message_status, buddy_state2,
  set_auto_resend_enabled, prioritize, resend_message,
}
use end_to_end_smkex.AutoResend.Engine.Fair.{IsReady, send_message-fair}
use end_to_end_smkex.AutoResend.Engine.Tending.{
  Tends, Tends-IsReady, put_pool-IsIndexed, listed-prioritize, add_message_internal-Tends,
  settle-Tends,
}

-- The calls that the other components make, `removeMessagesForSerial` aside.
pub data Command : Type 0 where
  connect : Option MpIdbConnector → Command
  sync : Command
  add : MpMsgPayload → Command
  report : MpMsgPayload → MpStatus → Command
  buddy_changed : MpString → Bool → Command
  enable : Bool → Command
  resend : MpString → ℤ → Command

unfoldable pub run : Command → MpAutoResendEngine → Outcome MpAutoResendEngine
run (connect c) e = done (add_db_connector c e)
run sync e = done (sync_with_db_connectors e)
run (add m) e = add_message m e
run (report m status) e = message_status m status e
run (buddy_changed serial online) e = buddy_state2 serial online e
run (enable b) e = set_auto_resend_enabled b e
run (resend serial msg_id) e = do (found, e') ← resend_message serial msg_id e; done e'

unfoldable pub run_all : List Command → MpAutoResendEngine → Outcome MpAutoResendEngine
run_all [] e = done e
run_all (c ∷ cs) e = do e' ← run c e; run_all cs e'

-- The operation returns, and the engine is ready then.
abbrev Returns : Outcome MpAutoResendEngine → Type 0
Returns o = (e' : MpAutoResendEngine) × (o ≡ done e') × IsReady e'

send_message-Returns : (e : MpAutoResendEngine) → IsReady e → Returns (send_message e)
send_message-Returns e ready =
    let (e', ends, ready', _) = send_message-fair e ready in (e', ends, ready')

start_engine-Returns : (e : MpAutoResendEngine) → IsReady e → Returns (start_engine e)
unfolding start_engine
start_engine-Returns e ready =
    let (b, stack) = ready.stack in
    let (e', ends, ready') =
      send_message-Returns (record e { started = true })
        (Tends-IsReady e (record e { started = true })
          (record { tended = λ h. h; same_transport = refl; same_stack = refl }) ready) in
    elim (Bool-cases (b && not e.started)) [
      | inl starts ↦ (e', ground (arith, starts, stack, ends), ready')
      | inr idle ↦ (e, ground (arith, idle, stack), ready)
    ]

add_messages-IsReady :
    (ms : List MpMsgPayload) (e : MpAutoResendEngine) → IsReady e → IsReady (add_messages ms e)
unfolding add_messages
add_messages-IsReady [] e ready = ready
add_messages-IsReady (m ∷ ms) e ready =
    add_messages-IsReady ms _ (Tends-IsReady e _ (add_message_internal-Tends m e) ready)

pub sync_connectors-IsReady :
    (cs : List MpIdbConnector) (e : MpAutoResendEngine) → IsReady e → IsReady (sync_connectors cs e)
unfolding sync_connectors
sync_connectors-IsReady [] e ready = ready
sync_connectors-IsReady (c ∷ cs) e ready =
    sync_connectors-IsReady cs _ (add_messages-IsReady c.stored e ready)

pub put_pool-Tends :
    (s : MpString) (p q : MpMsgPool) (e : MpAutoResendEngine)
    → find s e.user_pool ≡ some q
    → Tends e (put_pool s p e)
unfolding put_pool
put_pool-Tends s p q e there = record {
  tended = put_pool-IsIndexed s p q e there;
  same_transport = refl;
  same_stack = refl;
}

pub prioritize-Tends :
    (s : MpString) (e : MpAutoResendEngine)
    → Tends e (record e { user_pool = prioritize s e.user_pool })
prioritize-Tends s e = record {
  tended = λ h k. h k ∙ sym (listed-prioritize s k e.user_pool);
  same_transport = refl;
  same_stack = refl;
}

message_status-Returns :
    (m : MpMsgPayload) (status : MpStatus) (e : MpAutoResendEngine)
    → IsReady e
    → Returns (message_status m status e)
unfolding message_status
message_status-Returns m status e ready =
    let e₁ = record e { calls = e.calls ++ notify_all e.db_connectors m status } in
    let ready₁ =
      Tends-IsReady e e₁ (record { tended = λ h. h; same_transport = refl; same_stack = refl })
        ready in
    elim (Option-cases (find m.user_serial e.user_pool)) [
      | inl missing ↦ rw (message_status, missing) (send_message-Returns e₁ ready₁)
      | inr (p, there) ↦
          rw (message_status, there)
            (send_message-Returns (settle m status p e₁)
              (Tends-IsReady e₁ (settle m status p e₁) (settle-Tends m status p e₁ there) ready₁))
    ]

buddy_state2-Returns :
    (serial : MpString) (online : Bool) (e : MpAutoResendEngine)
    → IsReady e
    → Returns (buddy_state2 serial online e)
unfolding buddy_state2
buddy_state2-Returns serial online e ready = elim (Option-cases (find serial e.user_pool)) [
  | inl missing ↦ (e, ground (arith, missing), ready)
  | inr (p, there) ↦
      let e₁ = put_pool serial (mark_user_pool_as_clean e.auto_resend_enabled p) e in
      let (e', ends, ready') = start_engine-Returns e₁ (
        Tends-IsReady e e₁
          (put_pool-Tends serial (mark_user_pool_as_clean e.auto_resend_enabled p) p e there)
          ready) in
      elim (Bool-cases online) [
        | inl on ↦ (e', ground (arith, there, on, ends), ready')
        | inr off ↦ (e, ground (arith, there, off), ready)
      ]
]

set_auto_resend_enabled-Returns :
    (b : Bool) (e : MpAutoResendEngine) → IsReady e → Returns (set_auto_resend_enabled b e)
unfolding set_auto_resend_enabled
set_auto_resend_enabled-Returns b e ready =
    let e₁ = record e { auto_resend_enabled = b } in
    let ready₁ =
      Tends-IsReady e e₁ (record { tended = λ h. h; same_transport = refl; same_stack = refl })
        ready in
    elim (Bool-cases (not e.auto_resend_enabled && b)) [
      | inl starts ↦ rw (set_auto_resend_enabled, starts) (start_engine-Returns e₁ ready₁)
      | inr idle ↦ (e₁, ground (arith, idle), ready₁)
    ]

resend_message-Returns :
    (serial : MpString) (msg_id : ℤ) (e : MpAutoResendEngine)
    → IsReady e
    → Returns (run (resend serial msg_id) e)
unfolding run resend_message put_pool
resend_message-Returns serial msg_id e ready = elim (Option-cases (find serial e.user_pool)) [
  | inl missing ↦ (e, ground (arith, missing), ready)
  | inr (p, there) ↦ elim (Option-cases (get_index_for_uid msg_id p)) [
    | inl missing ↦ (e, ground (arith, there, missing), ready)
    | inr (i, found) ↦
        let e₁ = put_pool serial (mark_as_clean (mark_msg_as_unprocessed msg_id p)) e in
        let e₂ = record e₁ { user_pool = prioritize serial e₁.user_pool } in
        let ready₁ =
          Tends-IsReady e e₁
            (put_pool-Tends serial (mark_as_clean (mark_msg_as_unprocessed msg_id p)) p e there)
            ready in
        let (e', ends, ready') =
          start_engine-Returns e₂ (Tends-IsReady e₁ e₂ (prioritize-Tends serial e₁) ready₁) in
        (e', ground (arith, there, found, ends), ready')
  ]
]

run-Returns : (c : Command) (e : MpAutoResendEngine) → IsReady e → Returns (run c e)
unfolding run add_message add_db_connector sync_with_db_connectors
run-Returns (connect none) e ready = (e, refl, ready)
run-Returns (connect (some c)) e ready = (
  _,
  refl,
  Tends-IsReady e _ (record { tended = λ h. h; same_transport = refl; same_stack = refl }) ready,
)
run-Returns sync e ready = (_, refl, sync_connectors-IsReady e.db_connectors e ready)
run-Returns (add m) e ready =
    start_engine-Returns _ (Tends-IsReady e _ (add_message_internal-Tends m e) ready)
run-Returns (report m status) e ready = message_status-Returns m status e ready
run-Returns (buddy_changed serial online) e ready = buddy_state2-Returns serial online e ready
run-Returns (enable b) e ready = set_auto_resend_enabled-Returns b e ready
run-Returns (resend serial msg_id) e ready = resend_message-Returns serial msg_id e ready

-- On an engine with a transport and a stack whose priority list names each pool once and nothing
-- else, any sequence of its operations but `removeMessagesForSerial` returns, and leaves such an
-- engine.
pub run_all-IsReady :
    (commands : List Command) (e : MpAutoResendEngine)
    → IsReady e
    → (e' : MpAutoResendEngine) × (run_all commands e ≡ done e') × IsReady e'
unfolding run_all
run_all-IsReady [] e ready = (e, refl, ready)
run_all-IsReady (c ∷ cs) e ready =
    let (e₁, ends, ready₁) = run-Returns c e ready in
    let (e', rest, ready') = run_all-IsReady cs e₁ ready₁ in (e', rw (ends, rest), ready')
