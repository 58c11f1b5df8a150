-- ===== src/Messaging/Totals.antt =====
-- How many messages the pools of the engine hold (auto_resend/src/MpAutoResendEngine.cpp).
use end_to_end_smkex.Base.{
  ℕ, zero, suc, ◌+◌, ◌≤◌, ◌≡◌, refl, ap, ◌∙◌, true, List, [], ◌∷◌, ◌++◌, map, some, length,
  MpString, ℤ, Map, find, update, erase, done, arith, Bool-cases, Option-cases, inl, inr,
}
use end_to_end_smkex.Utils.{MpStatus, is_message_sent}
use end_to_end_smkex.AutoResend.Payload.{MpMsgPayload, mark_as_processed}
use end_to_end_smkex.AutoResend.Pool.{
  MpMsgPool, has_uid, remove_first, rm_message, modify_at, mark_msg_as_processed, get_index_for_uid,
  is_pool_empty, set_weight,
}
use end_to_end_smkex.AutoResend.Engine.{
  MpIdbConnector, MpAutoResendEngine, mark_user_pool_processed, put_pool, notify_all,
}
use end_to_end_smkex.AutoResend.Engine.Run.{mark_processed, settle, send_message, message_status}
use end_to_end_smkex.AutoResend.Engine.Sort.{sort_messages-sorts}
use end_to_end_smkex.AutoResend.Engine.Indexed.{IsIndexed-IsListed}
use end_to_end_smkex.AutoResend.Engine.Fair.{IsReady}
use end_to_end_smkex.AutoResend.Engine.Tending.{Tends-IsReady, settle-Tends}
use end_to_end_smkex.Messaging.Marks.{Marks, here, mark, Ends, stops, hands, send_first-Ends}
use end_to_end_smkex.Messaging.Transfer.{IsHeld}

-- The messages of all pools.
unfoldable pub total : Map MpMsgPool → ℕ
total [] = 0
total ((k, q) ∷ pools) = length q.messages + total pools

total-update :
    (s : MpString) (q r : MpMsgPool) (pools : Map MpMsgPool)
    → find s pools ≡ some r
    → total (update s q pools) + length r.messages ≡ total pools + length q.messages
unfolding total find update
total-update s q r [] there = cc
total-update s q r ((j, p) ∷ pools) there = ground (arith, total-update s q r pools)

total-erase-le : (s : MpString) (pools : Map MpMsgPool) → total (erase s pools) ≤ total pools
unfolding total erase
total-erase-le s [] = omega arith
total-erase-le s ((j, p) ∷ pools) = ground (arith, total-erase-le s pools)

total-erase :
    (s : MpString) (r : MpMsgPool) (pools : Map MpMsgPool)
    → find s pools ≡ some r
    → total (erase s pools) + length r.messages ≤ total pools
unfolding total find erase
total-erase s r [] there = cc
total-erase s r ((j, p) ∷ pools) there =
    ground (arith, total-erase s r pools, total-erase-le s pools)

length-map :
    (f : MpMsgPayload → MpMsgPayload) (ms : List MpMsgPayload) → length (map f ms) ≡ length ms
length-map f [] = refl
length-map f (m ∷ ms) = omega (arith, length-map f ms)

length-mark_user_pool_processed :
    (cs : List MpIdbConnector) (q : MpMsgPool)
    → length (mark_user_pool_processed cs q).0.messages ≡ length q.messages
unfolding mark_user_pool_processed set_weight
length-mark_user_pool_processed cs q = ground (arith, length-map mark_as_processed q.messages)

total-mark_processed :
    (s : MpString) (q r : MpMsgPool) (e : MpAutoResendEngine)
    → find s e.user_pool ≡ some r
    → length q.messages ≡ length r.messages
    → total (mark_processed s q e).user_pool ≡ total e.user_pool
unfolding mark_processed
total-mark_processed s q r e there same = omega (
  arith,
  total-update s (mark_user_pool_processed e.db_connectors q).0 r e.user_pool there,
  length-mark_user_pool_processed e.db_connectors q,
  same,
)

total-Marks : {e' e : MpAutoResendEngine} → Marks e' e → total e'.user_pool ≡ total e.user_pool
total-Marks here = refl
total-Marks {e} (mark serial q there d ms) =
    total-Marks ms ∙ total-mark_processed serial q q e there refl

total-Ends : (e e' : MpAutoResendEngine) → Ends e e' → total e'.user_pool ≡ total e.user_pool
total-Ends e e' (stops e₁ ms eq) = ap (λ x. total x.user_pool) eq ∙ total-Marks ms
total-Ends e e' (hands e₁ k q m ms found got y eq) = ap (λ x. total x.user_pool) eq ∙ total-Marks ms

send_message-total :
    (e e' : MpAutoResendEngine)
    → IsReady e
    → send_message e ≡ done e'
    → total e'.user_pool ≡ total e.user_pool
unfolding send_message
send_message-total e e' ready ends =
    let (xs, sorts, _, _, _) = sort_messages-sorts e (IsIndexed-IsListed e ready.indexed) in
    total-Ends (record e { priority = xs }) e'
      (send_first-Ends xs (record e { priority = xs }) e' (ground (arith, sorts, ends)))

length-remove_first :
    (uid : ℤ) (ms : List MpMsgPayload)
    → has_uid uid ms ≡ true
    → length (remove_first uid ms) + 1 ≡ length ms
unfolding has_uid remove_first
length-remove_first uid [] h = cc
length-remove_first uid (m ∷ ms) h = ground (arith, length-remove_first uid ms)

modify_at-processed :
    (i : ℕ) (uid : ℤ) (ms : List MpMsgPayload)
    → (length (modify_at i mark_as_processed ms) ≡ length ms)
      × (has_uid uid (modify_at i mark_as_processed ms) ≡ has_uid uid ms)
unfolding modify_at has_uid mark_as_processed
modify_at-processed i uid [] = (refl, refl)
modify_at-processed zero uid (m ∷ ms) = (refl, refl)
modify_at-processed (suc i) uid (m ∷ ms) = ground (arith, modify_at-processed i uid ms)

mark_msg_as_processed-kept :
    (uid : ℤ) (q : MpMsgPool)
    → (length (mark_msg_as_processed uid q).messages ≡ length q.messages)
      × (has_uid uid (mark_msg_as_processed uid q).messages ≡ has_uid uid q.messages)
unfolding mark_msg_as_processed
mark_msg_as_processed-kept uid q = elim (Option-cases (get_index_for_uid uid q)) [
  | inl missing ↦ ground (arith, missing)
  | inr (i, found) ↦ ground (arith, found, modify_at-processed i uid q.messages)
]

settle-total :
    (m : MpMsgPayload) (status : MpStatus) (q : MpMsgPool) (e : MpAutoResendEngine)
    → find m.user_serial e.user_pool ≡ some q
    → has_uid m.uid q.messages ≡ true
    → is_message_sent status ≡ true
    → total (settle m status q e).user_pool + 1 ≤ total e.user_pool
unfolding settle put_pool rm_message set_weight
settle-total m status q e there held sent =
    let p = rm_message m.uid (mark_msg_as_processed m.uid q) in
    let (same, holds) = mark_msg_as_processed-kept m.uid q in
    let less : length p.messages + 1 ≡ length q.messages =
      length-remove_first m.uid (mark_msg_as_processed m.uid q).messages (holds ∙ held) ∙ same in
    elim (Bool-cases (is_pool_empty p)) [
      | inl last ↦
          rw (settle, sent, last)
            (omega (arith, total-erase m.user_serial q e.user_pool there, less))
      | inr more ↦
          rw (settle, sent, more)
            (omega (
              arith,
              total-update m.user_serial (set_weight (p.weight + 1) p) q e.user_pool there,
              less,
            ))
    ]

-- The report that a message of a pool was sent takes it out of the pool.
pub message_status-total :
    (m : MpMsgPayload) (status : MpStatus) (e e' : MpAutoResendEngine)
    → IsReady e
    → IsHeld m m.user_serial e
    → is_message_sent status ≡ true
    → message_status m status e ≡ done e'
    → total e'.user_pool + 1 ≤ total e.user_pool
unfolding message_status
message_status-total m status e e' ready (q, there, held) sent ends =
    let e₁ = record e { calls = e.calls ++ notify_all e.db_connectors m status } in
    let ready₁ =
      Tends-IsReady e e₁ (record { tended = λ h. h; same_transport = refl; same_stack = refl })
        ready in
    omega (
      arith,
      settle-total m status q e₁ there held sent,
      send_message-total (settle m status q e₁) e'
          (Tends-IsReady e₁ (settle m status q e₁) (settle-Tends m status q e₁ there) ready₁)
          (ground (arith, there, ends)),
    )
