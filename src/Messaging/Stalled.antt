-- ===== src/Messaging/Stalled.antt =====
-- The operations of an engine that is started already (auto_resend/src/MpAutoResendEngine.cpp).
use end_to_end_smkex.Base.{
  ◌≡◌, refl, ◌∙◌, Bool, true, not, ◌&&◌, [], some, MpString, ℤ, find, Outcome, done, ◌>>=◌, arith,
  Bool-cases, Option-cases, inl, inr,
}
use end_to_end_smkex.AutoResend.Payload.{MpMsgPayload}
use end_to_end_smkex.AutoResend.Pool.{
  MpMsgPool, get_index_for_uid, mark_as_clean, mark_msg_as_unprocessed,
}
use end_to_end_smkex.AutoResend.Engine.{
  MpAutoResendEngine, add_message_internal, put_pool, mark_user_pool_as_clean,
}
use end_to_end_smkex.AutoResend.Engine.Run.{
  start_engine, add_message, buddy_state2, set_auto_resend_enabled, prioritize, resend_message,
}
use end_to_end_smkex.Messaging.Silent.{Silent, add_message_internal-Silent}

-- The operation makes no call and leaves the engine started.
abbrev pub Stalls : Outcome MpAutoResendEngine → Type 0
Stalls o = (e' : MpAutoResendEngine) × (o ≡ done e') × (e'.started ≡ true) × (e'.calls ≡ [])

module _ (e : MpAutoResendEngine) (b : Bool) (stack : e.sip_stack ≡ some b)
    (started : e.started ≡ true) (none_made : e.calls ≡ []) where
  start_engine-Stalls :
      (e₁ : MpAutoResendEngine)
      → e₁.sip_stack ≡ e.sip_stack
      → Silent e e₁
      → Stalls (start_engine e₁)
  unfolding start_engine
  start_engine-Stalls e₁ same silent =
      let on : e₁.started ≡ true = silent.same_started ∙ started in
      (e₁, ground (arith, same, stack, on), on, silent.same_calls ∙ none_made)

  pub add_message-Stalls : (m : MpMsgPayload) → Stalls (add_message m e)
  unfolding add_message add_message_internal put_pool
  add_message-Stalls m =
      start_engine-Stalls (add_message_internal m e) (ground arith)
        (add_message_internal-Silent m e)

  pool-Stalls : (serial : MpString) (q : MpMsgPool) → Stalls (start_engine (put_pool serial q e))
  unfolding put_pool
  pool-Stalls serial q =
      start_engine-Stalls (put_pool serial q e) refl
        (record { same_calls = refl; same_started = refl; same_connectors = refl })

  pub buddy_state2-Stalls :
      (serial : MpString) (online : Bool) → Stalls (buddy_state2 serial online e)
  unfolding buddy_state2
  buddy_state2-Stalls serial online = elim (Option-cases (find serial e.user_pool)) [
    | inl missing ↦ (e, ground (arith, missing), started, none_made)
    | inr (q, there) ↦ elim (Bool-cases online) [
      | inl on ↦
          rw (buddy_state2, there, on)
            (pool-Stalls serial (mark_user_pool_as_clean e.auto_resend_enabled q))
      | inr off ↦ (e, ground (arith, there, off), started, none_made)
    ]
  ]

  pub set_auto_resend_enabled-Stalls : (v : Bool) → Stalls (set_auto_resend_enabled v e)
  unfolding set_auto_resend_enabled
  set_auto_resend_enabled-Stalls v =
      let e₁ = record e { auto_resend_enabled = v } in
      elim (Bool-cases (not e.auto_resend_enabled && v)) [
        | inl starts ↦
            rw (set_auto_resend_enabled, starts)
              (start_engine-Stalls e₁ refl
                (record { same_calls = refl; same_started = refl; same_connectors = refl }))
        | inr no_start ↦ (e₁, ground (arith, no_start), started, none_made)
      ]

  pub resend_message-Stalls :
      (serial : MpString) (msg_id : ℤ)
      → Stalls (do (found, e') ← resend_message serial msg_id e; done e')
  unfolding resend_message put_pool
  resend_message-Stalls serial msg_id = elim (Option-cases (find serial e.user_pool)) [
    | inl missing ↦ (e, ground (arith, missing), started, none_made)
    | inr (q, there) ↦ elim (Option-cases (get_index_for_uid msg_id q)) [
      | inl missing ↦ (e, ground (arith, there, missing), started, none_made)
      | inr (i, found) ↦
          let e₁ = put_pool serial (mark_as_clean (mark_msg_as_unprocessed msg_id q)) e in
          let (e', ends, on, calls) =
            start_engine-Stalls (record e₁ { user_pool = prioritize serial e₁.user_pool }) refl
              (record { same_calls = refl; same_started = refl; same_connectors = refl }) in
          (e', ground (arith, there, found, ends), on, calls)
    ]
  ]

  pub quiet-Stalls : (e' : MpAutoResendEngine) → Silent e e' → Stalls (done e')
  quiet-Stalls e' silent = (e', refl, silent.same_started ∙ started, silent.same_calls ∙ none_made)
