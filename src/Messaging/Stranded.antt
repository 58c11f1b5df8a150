-- ===== src/Messaging/Stranded.antt =====
-- What follows `removeMessagesForSerial` (auto_resend/src/MpAutoResendEngine.cpp) while a message for the
-- serial is in transfer.
use end_to_end_smkex.Base.{
  ℕ, ◌≡◌, refl, ◌∙◌, true, List, [], ◌∷◌, none, some, ◌==◌, str_eq_refl, pos, erase, Outcome, done,
  ◌>>=◌, arith, Bool-cases, inl, inr,
}
use end_to_end_smkex.AutoResend.Engine.{
  MpAutoResendEngine, add_db_connector, sync_with_db_connectors,
}
use end_to_end_smkex.AutoResend.Engine.Run.{
  add_message, buddy_state2, set_auto_resend_enabled, resend_message, remove_messages_for_serial,
}
use end_to_end_smkex.Buddy.BuddyList.{PresenceCall}
use end_to_end_smkex.DataMsg.Transport.{remove_message_for_serial}
use end_to_end_smkex.Service.Pjsua.{Pjsua}
use end_to_end_smkex.Sip.Callbacks.{on_buddy_state}
use end_to_end_smkex.Messaging.{
  Messaging, set_transport, engine_of, use_engine, carry_out, carry_out_call, pager_status,
  tell_presence, on_presence, Command, connect, sync, add, resend, enable, pager_reported,
  presence_reported, run, run_all, remove_messages,
}
use end_to_end_smkex.Messaging.Chain.{IsIdle}
use end_to_end_smkex.Messaging.Runs.{pager_idle}
use end_to_end_smkex.Messaging.Silent.{sync_connectors-Silent}
use end_to_end_smkex.Messaging.Stalled.{
  Stalls, add_message-Stalls, buddy_state2-Stalls, set_auto_resend_enabled-Stalls,
  resend_message-Stalls, quiet-Stalls,
}

-- The engine is started, and there is no transfer whose report would make it send.
pub record IsStranded {W : Type 0} (s : Messaging W) : Type 0 where
  pub started : s.engine.started ≡ true
  pub idle : IsIdle s
  pub no_calls : s.engine.calls ≡ []
  pub no_events : s.service.msg_transport.events ≡ []

-- The call returns, gives nothing to PJSUA, and leaves the services stranded.
abbrev Idles : {W : Type 0} → Messaging W → Outcome (Messaging W) → Type 0
Idles {W} s o =
    (s' : Messaging W) × (o ≡ done s') × IsStranded s' × (s'.service.outside ≡ s.service.outside)

module _ {W : Type 0} (p : Pjsua W) where
  engine-Idles :
      (op : MpAutoResendEngine → Outcome MpAutoResendEngine) (s : Messaging W)
      → IsStranded s
      → Stalls (op (engine_of s))
      → Idles s (use_engine p op s)
  unfolding use_engine carry_out
  engine-Idles op s h (e, ends, on, none_made) = (
    record s { engine = record e { calls = [] } },
    ground (arith, ends, none_made),
    record { started = on; idle = h.idle; no_calls = refl; no_events = h.no_events },
    refl,
  )

  pager-Idles : (code : ℕ) (s : Messaging W) → IsStranded s → Idles s (pager_status p code s)
  pager-Idles code s h = (s, pager_idle p s h.no_events code h.idle, h, refl)

  -- The services after the removal for the serial of the message in transfer.
  abbrev pub removed : Messaging W → Messaging W
  removed s =
      let t = s.service.msg_transport in
      record s {
        service =
            set_transport (record t { msg = record t.msg { number_of_retries = pos 0 } }) s.service;
        engine = record (engine_of s) {
          user_pool = erase t.msg.user_serial s.engine.user_pool;
          calls = [];
        };
      }

  remove_messages-at :
      (s : Messaging W)
      → s.engine.msg_transport ≡ true
      → s.engine.calls ≡ []
      → remove_messages p s.service.msg_transport.msg.user_serial s ≡ done (removed s)
  unfolding remove_messages use_engine remove_messages_for_serial carry_out carry_out_call
      remove_message_for_serial
  remove_messages-at s transport none_made =
      ground (arith, transport, none_made, str_eq_refl s.service.msg_transport.msg.user_serial)

  module _ (engine_cb : ℕ) where
    tell_presence-Idles :
        (cs : List PresenceCall) (s : Messaging W)
        → IsStranded s
        → Idles s (tell_presence p engine_cb cs s)
    unfolding tell_presence
    tell_presence-Idles [] s h = (s, refl, h, refl)
    tell_presence-Idles (c ∷ cs) s h = elim (Bool-cases (c.callback == engine_cb)) [
      | inl own ↦
          let (s₁, out, h₁, same) = engine-Idles (buddy_state2 c.told.serial c.told.online) s h (
            buddy_state2-Stalls (engine_of s) s.service.sip_stack.started refl h.started h.no_calls
              c.told.serial c.told.online) in
          let (s₂, rest, h₂, same₂) = tell_presence-Idles cs s₁ h₁ in
          (s₂, rw (own, out) rest, h₂, same₂ ∙ same)
      | inr other ↦
          let (s₂, rest, h₂, same₂) = tell_presence-Idles cs s h in (s₂, rw other rest, h₂, same₂)
    ]

    run-Idles : (c : Command) (s : Messaging W) → IsStranded s → Idles s (run p engine_cb c s)
    unfolding run add_db_connector sync_with_db_connectors on_presence on_buddy_state
    run-Idles (connect none) s h =
        engine-Idles (λ e. done (add_db_connector none e)) s h
          (engine_of s, refl, h.started, h.no_calls)
    run-Idles (connect (some c)) s h =
        engine-Idles (λ e. done (add_db_connector (some c) e)) s h
          (add_db_connector (some c) (engine_of s), refl, h.started, h.no_calls)
    run-Idles sync s h =
        engine-Idles (λ e. done (sync_with_db_connectors e)) s h
          (quiet-Stalls (engine_of s) s.service.sip_stack.started refl h.started h.no_calls
            (sync_with_db_connectors (engine_of s))
            (sync_connectors-Silent s.engine.db_connectors (engine_of s)))
    run-Idles (add m) s h =
        engine-Idles (add_message m) s h
          (add_message-Stalls (engine_of s) s.service.sip_stack.started refl h.started h.no_calls m)
    run-Idles (resend serial msg_id) s h =
        engine-Idles (λ e. do (found, e') ← resend_message serial msg_id e; done e') s h
          (resend_message-Stalls (engine_of s) s.service.sip_stack.started refl h.started h.no_calls
            serial msg_id)
    run-Idles (enable b) s h = engine-Idles (set_auto_resend_enabled b) s h (
        set_auto_resend_enabled-Stalls (engine_of s) s.service.sip_stack.started refl h.started
          h.no_calls b)
    run-Idles (pager_reported code) s h = pager-Idles code s h
    run-Idles (presence_reported id) s h =
        let v = on_buddy_state p id s.service in
        let l = v.buddy_list in
        tell_presence-Idles l.presence_calls
          (record s { service = record v { buddy_list = record l { presence_calls = [] } } })
          (record {
            started = h.started;
            idle = h.idle;
            no_calls = h.no_calls;
            no_events = h.no_events;
          })

    run_all-Idles :
        (cs : List Command) (s : Messaging W) → IsStranded s → Idles s (run_all p engine_cb cs s)
    unfolding run_all
    run_all-Idles [] s h = (s, refl, h, refl)
    run_all-Idles (c ∷ cs) s h =
        let (s₁, out, h₁, same) = run-Idles c s h in
        let (s₂, rest, h₂, same₂) = run_all-Idles cs s₁ h₁ in (s₂, rw out rest, h₂, same₂ ∙ same)

    -- Once `removeMessagesForSerial` has been called for the serial of the message in transfer, while
    -- the engine is started, nothing is given to PJSUA any more and the engine stays started, whatever
    -- the application calls of the engine (a further removal aside) and whatever PJSUA reports of
    -- messages and buddies.
    pub remove_messages-strands :
        (cs : List Command) (s : Messaging W)
        → s.engine.started ≡ true
        → s.engine.msg_transport ≡ true
        → s.engine.calls ≡ []
        → s.service.msg_transport.events ≡ []
        → (s₁ : Messaging W) × (s₂ : Messaging W) × (remove_messages p
              s.service.msg_transport.msg.user_serial s
            ≡ done s₁)
          × (run_all p engine_cb cs s₁ ≡ done s₂)
          × (s₂.engine.started ≡ true)
          × (s₂.service.outside ≡ s.service.outside)
    remove_messages-strands cs s started transport none_made no_events =
        let (s₂, rest, h, same) =
          run_all-Idles cs (removed s)
            (record { started = started; idle = refl; no_calls = refl; no_events = no_events }) in
        (removed s, s₂, remove_messages-at s transport none_made, rest, h.started, same)
