-- ===== src/Messaging/Acts.antt =====
-- What the operations of the engine (auto_resend/src/MpAutoResendEngine.cpp) do and call, with only
-- messages of a kind in its pools.
use end_to_end_smkex.Base.{
  ◌≡◌, refl, sym, subst, ◌∙◌, Bool, true, false, not, ◌&&◌, [], ◌∷◌, ◌++◌, Option, none, some, All,
  MpString, ℤ, find, done, ◌>>=◌, arith, Bool-cases, Option-cases, inl, inr,
}
use end_to_end_smkex.Utils.{MpStatus}
use end_to_end_smkex.AutoResend.Payload.{MpMsgPayload}
use end_to_end_smkex.AutoResend.Pool.{mark_msg_as_unprocessed, mark_as_clean, get_index_for_uid}
use end_to_end_smkex.AutoResend.Engine.{
  MpIdbConnector, MpAutoResendEngine, add_db_connector, sync_with_db_connectors, sync_connectors,
  add_message_internal, mark_user_pool_as_clean, put_pool, notify_all,
}
use end_to_end_smkex.AutoResend.Engine.Run.{
  add_message, settle, message_status, buddy_state2, set_auto_resend_enabled, prioritize,
  resend_message, start_engine,
}
use end_to_end_smkex.AutoResend.Engine.Tending.{
  Tends, Tends-IsReady, add_message_internal-Tends, settle-Tends,
}
use end_to_end_smkex.AutoResend.Engine.Commands.{
  sync_connectors-IsReady, put_pool-Tends, prioritize-Tends,
}
use end_to_end_smkex.Messaging.Stores.{
  IsStable, Stores, add_message_internal-Stores, sync_connectors-Stores, put_clean-Stores,
  resend-Stores, settle-Stores,
}
use end_to_end_smkex.Messaging.Transfer.{IsWell, quiet, Acts, send_message-Acts, start_engine-Acts}
use end_to_end_smkex.Messaging.Tells.{OnlyTells, is_notify, notify_all-OnlyTells}
use end_to_end_smkex.Messaging.Pools.{All-append}
use end_to_end_smkex.Messaging.Silent.{
  Silent, add_message_internal-Silent, sync_connectors-Silent, put_pool-Silent, settle-keeps,
}

module _ (P : MpString → MpMsgPayload → Type 0) (stable : IsStable P) where
  IsWell-of :
      (e e' : MpAutoResendEngine)
      → Tends e e'
      → Stores P e'
      → e'.db_connectors ≡ e.db_connectors
      → IsWell P e
      → IsWell P e'
  IsWell-of e e' tends stores same well = record {
    ready = Tends-IsReady e e' tends well.ready;
    stores = stores;
    connectors =
        subst (All (λ c. All (λ m. P m.user_serial m) c.stored)) (sym same) well.connectors;
  }

  module _ (e : MpAutoResendEngine) (well : IsWell P e) (made : e.calls ≡ []) where
    nothing : OnlyTells e.calls
    nothing = subst OnlyTells (sym made) tt

    pub connect-Acts :
        (c : Option MpIdbConnector)
        → ((d : MpIdbConnector) → c ≡ some d → All (λ m. P m.user_serial m) d.stored)
        → Acts P (e.started ≡ false) false e (done (add_db_connector c e))
    unfolding add_db_connector
    connect-Acts none h = (e, refl, well, quiet refl nothing refl)
    connect-Acts (some d) h = (
      record e { db_connectors = e.db_connectors ++ d ∷ [] },
      refl,
      record {
        ready = record {
          indexed = well.ready.indexed;
          transport = well.ready.transport;
          stack = well.ready.stack;
        };
        stores = well.stores;
        connectors =
            All-append (λ c. All (λ m. P m.user_serial m) c.stored) e.db_connectors (d ∷ [])
              well.connectors (h d refl, tt);
      },
      quiet refl nothing refl,
    )

    pub sync-Acts : Acts P (e.started ≡ false) false e (done (sync_with_db_connectors e))
    unfolding sync_with_db_connectors
    sync-Acts =
        let e' = sync_connectors e.db_connectors e in
        let silent = sync_connectors-Silent e.db_connectors e in
        (
          e',
          refl,
          record {
            ready = sync_connectors-IsReady e.db_connectors e well.ready;
            stores = sync_connectors-Stores P stable e.db_connectors e well.connectors well.stores;
            connectors =
                subst (All (λ c. All (λ m. P m.user_serial m) c.stored))
                  (sym silent.same_connectors) well.connectors;
          },
          quiet refl (subst OnlyTells (sym (silent.same_calls ∙ made)) tt) silent.same_started,
        )

    -- `startEngine` after a change of the pools.
    start_after :
        (e₁ : MpAutoResendEngine)
        → Tends e e₁
        → Silent e e₁
        → Stores P e₁
        → Acts P (e.started ≡ false) false e (start_engine e₁)
    start_after e₁ tends silent stores =
        start_engine-Acts P stable e e₁ (IsWell-of e e₁ tends stores silent.same_connectors well)
          (silent.same_calls ∙ made) silent.same_started

    pub add_message-Acts :
        (m : MpMsgPayload)
        → P m.user_serial m
        → Acts P (e.started ≡ false) false e (add_message m e)
    unfolding add_message
    add_message-Acts m hm =
        start_after (add_message_internal m e) (add_message_internal-Tends m e)
          (add_message_internal-Silent m e)
          (add_message_internal-Stores P stable m e hm well.stores)

    pub buddy_state2-Acts :
        (serial : MpString) (online : Bool)
        → Acts P (e.started ≡ false) false e (buddy_state2 serial online e)
    unfolding buddy_state2
    buddy_state2-Acts serial online = elim (Option-cases (find serial e.user_pool)) [
      | inl missing ↦ (e, ground (arith, missing), well, quiet refl nothing refl)
      | inr (q, there) ↦
          let clean = mark_user_pool_as_clean e.auto_resend_enabled q in
          let started =
            start_after (put_pool serial clean e) (put_pool-Tends serial clean q e there)
              (put_pool-Silent serial clean e)
              (put_clean-Stores P stable serial q e there well.stores) in
          elim (Bool-cases online) [
            | inl on ↦ rw (buddy_state2, there, on) started
            | inr off ↦ (e, ground (arith, there, off), well, quiet refl nothing refl)
          ]
    ]

    pub set_auto_resend_enabled-Acts :
        (b : Bool) → Acts P (e.started ≡ false) false e (set_auto_resend_enabled b e)
    unfolding set_auto_resend_enabled
    set_auto_resend_enabled-Acts b =
        let e₁ = record e { auto_resend_enabled = b } in
        let tends : Tends e e₁ = record {
          tended = λ h. h;
          same_transport = refl;
          same_stack = refl;
        } in
        let silent : Silent e e₁ = record {
          same_calls = refl;
          same_started = refl;
          same_connectors = refl;
        } in
        elim (Bool-cases (not e.auto_resend_enabled && b)) [
          | inl starts ↦
              rw (set_auto_resend_enabled, starts) (start_after e₁ tends silent well.stores)
          | inr idle ↦ (
            e₁,
            ground (arith, idle),
            IsWell-of e e₁ tends well.stores refl well,
            quiet refl nothing refl,
          )
        ]

    pub resend_message-Acts :
        (serial : MpString) (msg_id : ℤ)
        → Acts P
            (e.started ≡ false)
            false
            e
            (do (found, e') ← resend_message serial msg_id e; done e')
    unfolding resend_message put_pool
    resend_message-Acts serial msg_id = elim (Option-cases (find serial e.user_pool)) [
      | inl missing ↦ (e, ground (arith, missing), well, quiet refl nothing refl)
      | inr (q, there) ↦ elim (Option-cases (get_index_for_uid msg_id q)) [
        | inl missing ↦ (e, ground (arith, there, missing), well, quiet refl nothing refl)
        | inr (i, found) ↦
            let q' = mark_as_clean (mark_msg_as_unprocessed msg_id q) in
            let e₁ = put_pool serial q' e in
            let e₂ = record e₁ { user_pool = prioritize serial e₁.user_pool } in
            let once = put_pool-Tends serial q' q e there in
            let twice = prioritize-Tends serial e₁ in
            let (e', ends, well', effect) =
              start_after e₂
                (record {
                  tended = λ h. twice.tended (once.tended h);
                  same_transport = refl;
                  same_stack = refl;
                })
                (record { same_calls = refl; same_started = refl; same_connectors = refl })
                (resend-Stores P stable serial msg_id q e there well.stores) in
            (e', ground (arith, there, found, ends), well', effect)
      ]
    ]

    -- The report of a message's status to an engine that is started.
    pub message_status-Acts :
        (m : MpMsgPayload) (status : MpStatus)
        → e.started ≡ true
        → Acts P Unit true e (message_status m status e)
    unfolding message_status
    message_status-Acts m status started =
        let e₁ = record e { calls = e.calls ++ notify_all e.db_connectors m status } in
        let tells : OnlyTells e₁.calls =
          All-append (λ c. is_notify c ≡ true) e.calls (notify_all e.db_connectors m status) nothing
            (notify_all-OnlyTells e.db_connectors m status) in
        let well₁ =
          IsWell-of e e₁ (record { tended = λ h. h; same_transport = refl; same_stack = refl })
            well.stores refl well in
        elim (Option-cases (find m.user_serial e.user_pool)) [
          | inl missing ↦
              rw (message_status, missing)
                (send_message-Acts P stable Unit true e e₁ tt well₁ tells started)
          | inr (q, there) ↦
              let (tells₂, same, connectors) = settle-keeps m status q e₁ tells in
              rw (message_status, there)
                (send_message-Acts P stable Unit true e (settle m status q e₁) tt
                  (IsWell-of e₁ (settle m status q e₁) (settle-Tends m status q e₁ there)
                    (settle-Stores P stable m status q e₁ there well₁.stores) connectors well₁)
                  tells₂ (same ∙ started))
        ]
