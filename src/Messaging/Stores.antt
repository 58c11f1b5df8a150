-- ===== src/Messaging/Stores.antt =====
-- What holds of every message in the pools of the engine (auto_resend/src/MpAutoResendEngine.cpp) is
-- kept by the changes that the engine makes to them.
use end_to_end_smkex.Base.{
  ◌+◌, ◌≡◌, subst, Bool, List, [], ◌∷◌, Option, none, some, All, MpString, ℤ, if◌then◌else◌, str_eq,
  str_eq_iff, Map, find, insert, update, erase, find-insert, find-update, find-erase, arith,
  Bool-cases, Option-cases, inl, inr,
}
use end_to_end_smkex.Utils.{MpStatus, is_message_sent}
use end_to_end_smkex.AutoResend.Payload.{MpMsgPayload, mark_as_processed, mark_as_unprocessed}
use end_to_end_smkex.AutoResend.Pool
use end_to_end_smkex.AutoResend.Pool.{
  MpMsgPool, modify_at, remove_first, rm_message, mark_msg_as_processed, mark_msg_as_unprocessed,
  mark_as_dirty, mark_as_clean, is_pool_empty, new_pool, get_index_for_uid, set_weight,
}
use end_to_end_smkex.AutoResend.Engine.{
  MpIdbConnector, MpAutoResendEngine, mark_user_pool_as_clean, mark_user_pool_processed, put_pool,
  add_message_internal, add_messages, sync_connectors,
}
use end_to_end_smkex.AutoResend.Engine.Run.{mark_processed, settle, prioritize}
use end_to_end_smkex.Messaging.Marks.{Marks, here, mark}
use end_to_end_smkex.Messaging.Pools.{
  All-append, All-map, All-modify_at, All-remove_first, find-prioritize,
}

-- A property of a message in the pool of a serial that does not depend on whether it is processed.
pub record IsStable (P : MpString → MpMsgPayload → Type 0) : Type 0 where
  pub processed : (k : MpString) (m : MpMsgPayload) → P k m → P k (mark_as_processed m)
  pub unprocessed : (k : MpString) (m : MpMsgPayload) → P k m → P k (mark_as_unprocessed m)

module _ (P : MpString → MpMsgPayload → Type 0) where
  abbrev pub Holds : MpString → MpMsgPool → Type 0
  Holds k q = All (P k) q.messages

  abbrev pub StoresIn : Map MpMsgPool → Type 0
  StoresIn pools = (k : MpString) (q : MpMsgPool) → find k pools ≡ some q → Holds k q

  abbrev pub Stores : MpAutoResendEngine → Type 0
  Stores e = StoresIn e.user_pool

  -- What a change of one entry's pool leaves to find.
  StoresIn-one :
      (s : MpString) (r : Option MpMsgPool) (pools pools' : Map MpMsgPool)
      → ((j : MpString) → find j pools' ≡ (if str_eq s j then r else find j pools))
      → ((q : MpMsgPool) → r ≡ some q → Holds s q)
      → StoresIn pools
      → StoresIn pools'
  StoresIn-one s r pools pools' finds new old k q there = elim (Bool-cases (str_eq s k)) [
    | inl same ↦
        subst (λ j. Holds j q) ((str_eq_iff s k).0 same)
          (new q (ground (arith, finds k, same, there)))
    | inr other ↦ old k q (ground (arith, finds k, other, there))
  ]

  StoresIn-update :
      (s : MpString) (q r : MpMsgPool) (pools : Map MpMsgPool)
      → find s pools ≡ some r
      → (Holds s r → Holds s q)
      → StoresIn pools
      → StoresIn (update s q pools)
  StoresIn-update s q r pools there new old =
      StoresIn-one s (some q) pools (update s q pools) (λ j. find-update s j q r pools there)
        (λ q' same. let eq : q ≡ q' = cc in subst (Holds s) eq (new (old s r there))) old

  StoresIn-insert :
      (s : MpString) (q : MpMsgPool) (pools : Map MpMsgPool)
      → find s pools ≡ none
      → Holds s q
      → StoresIn pools
      → StoresIn (insert s q pools)
  StoresIn-insert s q pools missing new old =
      StoresIn-one s (some q) pools (insert s q pools) (λ j. find-insert s j q pools missing)
        (λ q' same. let eq : q ≡ q' = cc in subst (Holds s) eq new) old

  StoresIn-erase :
      (s : MpString) (pools : Map MpMsgPool) → StoresIn pools → StoresIn (erase s pools)
  StoresIn-erase s pools old =
      StoresIn-one s none pools (erase s pools) (λ j. find-erase s j pools) (λ q' no. cc) old

  module _ (stable : IsStable P) where
    Holds-processed :
        (cs : List MpIdbConnector) (k : MpString) (q : MpMsgPool)
        → Holds k q
        → Holds k (mark_user_pool_processed cs q).0
    unfolding mark_user_pool_processed set_weight
    Holds-processed cs k q h =
        ground (arith, All-map (P k) mark_as_processed (stable.processed k) q.messages h, h)

    Holds-clean :
        (b : Bool) (k : MpString) (q : MpMsgPool)
        → Holds k q
        → Holds k (mark_user_pool_as_clean b q)
    unfolding mark_user_pool_as_clean mark_as_clean set_weight
    Holds-clean b k q h =
        ground (arith, All-map (P k) mark_as_unprocessed (stable.unprocessed k) q.messages h, h)

    Holds-mark_msg_as_processed :
        (uid : ℤ) (k : MpString) (q : MpMsgPool) → Holds k q → Holds k (mark_msg_as_processed uid q)
    unfolding mark_msg_as_processed
    Holds-mark_msg_as_processed uid k q h = elim (Option-cases (get_index_for_uid uid q)) [
      | inl missing ↦ rw (mark_msg_as_processed, missing) h
      | inr (i, found) ↦
          rw (mark_msg_as_processed, found)
            (All-modify_at (P k) mark_as_processed (stable.processed k) i q.messages h)
    ]

    Holds-mark_msg_as_unprocessed :
        (uid : ℤ) (k : MpString) (q : MpMsgPool)
        → Holds k q
        → Holds k (mark_msg_as_unprocessed uid q)
    unfolding mark_msg_as_unprocessed
    Holds-mark_msg_as_unprocessed uid k q h = elim (Option-cases (get_index_for_uid uid q)) [
      | inl missing ↦ rw (mark_msg_as_unprocessed, missing) h
      | inr (i, found) ↦
          rw (mark_msg_as_unprocessed, found)
            (All-modify_at (P k) mark_as_unprocessed (stable.unprocessed k) i q.messages h)
    ]

    mark_processed-Stores :
        (s : MpString) (q r : MpMsgPool) (e : MpAutoResendEngine)
        → find s e.user_pool ≡ some r
        → (Holds s r → Holds s q)
        → Stores e
        → Stores (mark_processed s q e)
    unfolding mark_processed
    mark_processed-Stores s q r e there new old =
        StoresIn-update s (mark_user_pool_processed e.db_connectors q).0 r e.user_pool there
          (λ h. Holds-processed e.db_connectors s q (new h)) old

    pub Marks-Stores : {e' e : MpAutoResendEngine} → Marks e' e → Stores e → Stores e'
    Marks-Stores here h = h
    Marks-Stores {e} (mark serial q there d ms) h =
        Marks-Stores ms (mark_processed-Stores serial q q e there (λ x. x) h)

    pub add_message_internal-Stores :
        (m : MpMsgPayload) (e : MpAutoResendEngine)
        → P m.user_serial m
        → Stores e
        → Stores (add_message_internal m e)
    unfolding add_message_internal put_pool new_pool Pool.add_message
    add_message_internal-Stores m e hm h = elim (Option-cases (find m.user_serial e.user_pool)) [
      | inl missing ↦
          rw (add_message_internal, missing)
            (StoresIn-insert m.user_serial
              (mark_user_pool_as_clean e.auto_resend_enabled (new_pool m)) e.user_pool missing
              (Holds-clean e.auto_resend_enabled m.user_serial (new_pool m) (hm, tt)) h)
      | inr (q, there) ↦
          rw (add_message_internal, there)
            (StoresIn-update m.user_serial
              (mark_user_pool_as_clean e.auto_resend_enabled (Pool.add_message m q)) q e.user_pool
              there
              (λ hq.
                Holds-clean e.auto_resend_enabled m.user_serial (Pool.add_message m q)
                  (All-append (P m.user_serial) q.messages (m ∷ []) hq (hm, tt)))
              h)
    ]

    pub add_messages-Stores :
        (ms : List MpMsgPayload) (e : MpAutoResendEngine)
        → All (λ m. P m.user_serial m) ms
        → Stores e
        → Stores (add_messages ms e)
    unfolding add_messages
    add_messages-Stores [] e hms h = h
    add_messages-Stores (m ∷ ms) e (hm, hms) h =
        add_messages-Stores ms (add_message_internal m e) hms (add_message_internal-Stores m e hm h)

    pub sync_connectors-Stores :
        (cs : List MpIdbConnector) (e : MpAutoResendEngine)
        → All (λ c. All (λ m. P m.user_serial m) c.stored) cs
        → Stores e
        → Stores (sync_connectors cs e)
    unfolding sync_connectors
    sync_connectors-Stores [] e hcs h = h
    sync_connectors-Stores (c ∷ cs) e (hc, hcs) h =
        sync_connectors-Stores cs (add_messages c.stored e) hcs
          (add_messages-Stores c.stored e hc h)

    pub put_clean-Stores :
        (s : MpString) (q : MpMsgPool) (e : MpAutoResendEngine)
        → find s e.user_pool ≡ some q
        → Stores e
        → Stores (put_pool s (mark_user_pool_as_clean e.auto_resend_enabled q) e)
    unfolding put_pool
    put_clean-Stores s q e there h =
        StoresIn-update s (mark_user_pool_as_clean e.auto_resend_enabled q) q e.user_pool there
          (Holds-clean e.auto_resend_enabled s q) h

    StoresIn-prioritize :
        (s : MpString) (pools : Map MpMsgPool) → StoresIn pools → StoresIn (prioritize s pools)
    StoresIn-prioritize s pools h k q there =
        let (r, found, same) = find-prioritize s k q pools there in
        subst (All (P k)) same (h k r found)

    pub resend-Stores :
        (s : MpString) (uid : ℤ) (q : MpMsgPool) (e : MpAutoResendEngine)
        → find s e.user_pool ≡ some q
        → Stores e
        → StoresIn
            (prioritize s (put_pool s (mark_as_clean (mark_msg_as_unprocessed uid q)) e).user_pool)
    unfolding put_pool mark_as_clean
    resend-Stores s uid q e there h = StoresIn-prioritize s _ (
        StoresIn-update s (mark_as_clean (mark_msg_as_unprocessed uid q)) q e.user_pool there
          (Holds-mark_msg_as_unprocessed uid s q) h)

    pub settle-Stores :
        (m : MpMsgPayload) (status : MpStatus) (q : MpMsgPool) (e : MpAutoResendEngine)
        → find m.user_serial e.user_pool ≡ some q
        → Stores e
        → Stores (settle m status q e)
    unfolding settle put_pool rm_message mark_as_dirty set_weight
    settle-Stores m status q e there h =
        let p = mark_msg_as_processed m.uid q in
        let less : Holds m.user_serial q → Holds m.user_serial (rm_message m.uid p) = λ hq.
          All-remove_first (P m.user_serial) m.uid p.messages
            (Holds-mark_msg_as_processed m.uid m.user_serial q hq) in
        elim (Bool-cases (is_message_sent status)) [
          | inl sent ↦ elim (Bool-cases (is_pool_empty (rm_message m.uid p))) [
            | inl last ↦ rw (settle, sent, last) (StoresIn-erase m.user_serial e.user_pool h)
            | inr more ↦
                rw (settle, sent, more)
                  (StoresIn-update m.user_serial
                    (set_weight ((rm_message m.uid p).weight + 1) (rm_message m.uid p)) q
                    e.user_pool there less h)
          ]
          | inr failed ↦
              rw (settle, failed)
                (mark_processed-Stores m.user_serial (mark_as_dirty p) q e there
                  (Holds-mark_msg_as_processed m.uid m.user_serial q) h)
        ]
