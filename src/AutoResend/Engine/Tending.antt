-- ===== src/AutoResend/Engine/Tending.antt =====
-- The changes that auto_resend/src/MpAutoResendEngine.cpp makes to the pools and the priority list.
use end_to_end_smkex.Base.{
  ◌+◌, ◌-◌, ◌≡◌, refl, sym, ◌∙◌, List, [], ◌∷◌, ◌++◌, none, some, if◌then◌else◌, MpString, str_eq,
  str_eq_iff, Map, find, insert, update, erase, find-insert, find-update, find-erase, arith,
  Bool-cases, Option-cases, inl, inr,
}
use end_to_end_smkex.Utils.{MpStatus, is_message_sent}
use end_to_end_smkex.AutoResend.Payload.{MpMsgPayload}
use end_to_end_smkex.AutoResend.Pool
use end_to_end_smkex.AutoResend.Pool.{
  MpMsgPool, rm_message, mark_msg_as_processed, mark_as_dirty, is_pool_empty, new_pool,
  get_index_for_uid, set_weight,
}
use end_to_end_smkex.AutoResend.Engine.{
  mark_user_pool_as_clean, mark_user_pool_processed, MpAutoResendEngine, put_pool,
  add_message_internal,
}
use end_to_end_smkex.AutoResend.Engine.Sift.{count}
use end_to_end_smkex.AutoResend.Engine.Run.{mark_processed, remove_serial, settle, prioritize}
use end_to_end_smkex.AutoResend.Engine.Offers.{listed}
use end_to_end_smkex.AutoResend.Engine.Indexed.{IsIndexed}
use end_to_end_smkex.AutoResend.Engine.Fair.{IsReady}

count-append : (k : MpString) (xs ys : List MpString) → count k (xs ++ ys) ≡ count k xs + count k ys
unfolding count
count-append k [] ys = omega arith
count-append k (x ∷ xs) ys = omega (arith, count-append k xs ys)

listed-update :
    (s k : MpString) (p q : MpMsgPool) (pools : Map MpMsgPool)
    → find s pools ≡ some q
    → listed k (update s p pools) ≡ listed k pools
unfolding listed
listed-update s k p q pools there =
    ground (arith, find-update s k p q pools there, str_eq_iff s k, there)

pub listed-prioritize :
    (s k : MpString) (pools : Map MpMsgPool) → listed k (prioritize s pools) ≡ listed k pools
unfolding listed prioritize find
listed-prioritize s k [] = refl
listed-prioritize s k ((j, p) ∷ pools) = ground (arith, listed-prioritize s k pools)

count-remove_serial :
    (s k : MpString) (xs : List MpString)
    → count k (remove_serial s xs) ≡ (if str_eq s k then count k xs - 1 else count k xs)
unfolding count remove_serial
count-remove_serial s k [] = ground arith
count-remove_serial s k (x ∷ xs) =
    ground (arith, count-remove_serial s k xs, str_eq_iff x s, str_eq_iff s k, str_eq_iff x k)

pub put_pool-IsIndexed :
    (s : MpString) (p q : MpMsgPool) (e : MpAutoResendEngine)
    → find s e.user_pool ≡ some q
    → IsIndexed e
    → IsIndexed (put_pool s p e)
unfolding put_pool
put_pool-IsIndexed s p q e there h k = h k ∙ sym (listed-update s k p q e.user_pool there)

-- A serial without a pool gets one, at the end of the priority list.
new_pool-IsIndexed :
    (s : MpString) (p : MpMsgPool) (e : MpAutoResendEngine)
    → find s e.user_pool ≡ none
    → IsIndexed e
    → IsIndexed (record e { user_pool = insert s p e.user_pool; priority = e.priority ++ s ∷ [] })
unfolding listed count
new_pool-IsIndexed s p e missing h k = ground (
  arith,
  count-append k e.priority (s ∷ []),
  find-insert s k p e.user_pool missing,
  h k,
  h s,
  str_eq_iff s k,
  missing,
)

add_message_internal-IsIndexed :
    (m : MpMsgPayload) (e : MpAutoResendEngine) → IsIndexed e → IsIndexed (add_message_internal m e)
unfolding add_message_internal
add_message_internal-IsIndexed m e h = elim (Option-cases (find m.user_serial e.user_pool)) [
  | inl missing ↦
      rw (add_message_internal, missing)
        (new_pool-IsIndexed m.user_serial
          (mark_user_pool_as_clean e.auto_resend_enabled (new_pool m)) e missing h)
  | inr (p, there) ↦
      rw (add_message_internal, there)
        (put_pool-IsIndexed m.user_serial
          (mark_user_pool_as_clean e.auto_resend_enabled (Pool.add_message m p)) p e there h)
]

-- What an operation on the pools does not touch.
pub record Tends (e e' : MpAutoResendEngine) : Type 0 where
  pub tended : IsIndexed e → IsIndexed e'
  pub same_transport : e'.msg_transport ≡ e.msg_transport
  pub same_stack : e'.sip_stack ≡ e.sip_stack

pub Tends-IsReady : (e e' : MpAutoResendEngine) → Tends e e' → IsReady e → IsReady e'
Tends-IsReady e e' t ready = record {
  indexed = t.tended ready.indexed;
  transport = t.same_transport ∙ ready.transport;
  stack = (ready.stack.0, t.same_stack ∙ ready.stack.1);
}

pub add_message_internal-Tends :
    (m : MpMsgPayload) (e : MpAutoResendEngine) → Tends e (add_message_internal m e)
unfolding add_message_internal put_pool
add_message_internal-Tends m e = record {
  tended = add_message_internal-IsIndexed m e;
  same_transport = ground arith;
  same_stack = ground arith;
}

-- A serial loses its pool and its place in the priority list.
erase-IsIndexed :
    (s : MpString) (p : MpMsgPool) (e : MpAutoResendEngine)
    → find s e.user_pool ≡ some p
    → IsIndexed e
    → IsIndexed
        (record e { priority = remove_serial s e.priority; user_pool = erase s e.user_pool })
unfolding listed
erase-IsIndexed s p e there h k = ground (
  arith,
  count-remove_serial s k e.priority,
  find-erase s k e.user_pool,
  h k,
  str_eq_iff s k,
  there,
)

mark_processed-IsIndexed :
    (s : MpString) (p q : MpMsgPool) (e : MpAutoResendEngine)
    → find s e.user_pool ≡ some q
    → IsIndexed e
    → IsIndexed (mark_processed s p e)
unfolding mark_processed
mark_processed-IsIndexed s p q e there h k =
    h k ∙ sym (listed-update s k (mark_user_pool_processed e.db_connectors p).0 q e.user_pool there)

module _ (m : MpMsgPayload) (status : MpStatus) (p : MpMsgPool) (e : MpAutoResendEngine) where
  abbrev remaining : MpMsgPool
  remaining = rm_message m.uid (mark_msg_as_processed m.uid p)

  settle-IsIndexed :
      find m.user_serial e.user_pool ≡ some p → IsIndexed e → IsIndexed (settle m status p e)
  unfolding settle
  settle-IsIndexed there h = elim (Bool-cases (is_message_sent status)) [
    | inl sent ↦ elim (Bool-cases (is_pool_empty remaining)) [
      | inl last ↦ rw (settle, sent, last) (erase-IsIndexed m.user_serial p e there h)
      | inr more ↦
          rw (settle, sent, more)
            (put_pool-IsIndexed m.user_serial (set_weight (remaining.weight + 1) remaining) p e
              there h)
    ]
    | inr failed ↦
        rw (settle, failed)
          (mark_processed-IsIndexed m.user_serial (mark_as_dirty (mark_msg_as_processed m.uid p)) p
            e there h)
  ]

  pub settle-Tends : find m.user_serial e.user_pool ≡ some p → Tends e (settle m status p e)
  unfolding settle mark_processed put_pool
  settle-Tends there = record {
    tended = settle-IsIndexed there;
    same_transport = ground arith;
    same_stack = ground arith;
  }
