-- ===== src/Messaging/Tells.antt =====
-- What the loop of `sendMessage` (auto_resend/src/MpAutoResendEngine.cpp) tells the connectors on its
-- way, and the message that it takes from a pool.
use end_to_end_smkex.Base.{
  ◌≡◌, refl, subst, ◌∙◌, Bool, true, false, not, List, [], ◌∷◌, some, All, is_positive, int_eq_refl,
  MpString, done, arith, Bool-cases, Option-cases, List-cases, ◌||◌, inl, inr,
}
use end_to_end_smkex.Utils.{MpStatus}
use end_to_end_smkex.AutoResend.Payload.{MpMsgPayload, is_message, mark_as_processed}
use end_to_end_smkex.AutoResend.Pool.{MpMsgPool, has_uid, first_deliverable, get_message}
use end_to_end_smkex.AutoResend.Engine.{
  Call, notify, MpIdbConnector, MpAutoResendEngine, mark_user_pool_processed, notify_all,
  notify_messages,
}
use end_to_end_smkex.AutoResend.Engine.Run.{mark_processed}
use end_to_end_smkex.AutoResend.Engine.Offers.{blank_payload, offer, mark_processed-Passes}
use end_to_end_smkex.Messaging.Marks.{Marks, here, mark}
use end_to_end_smkex.Messaging.Pools.{All-append, All-weaken}

unfoldable pub is_notify : Call → Bool
is_notify (notify c m status) = true
is_notify _ = false

abbrev pub OnlyTells : List Call → Type 0
OnlyTells cs = All (λ c. is_notify c ≡ true) cs

pub notify_all-OnlyTells :
    (cs : List MpIdbConnector) (m : MpMsgPayload) (status : MpStatus)
    → OnlyTells (notify_all cs m status)
unfolding notify_all is_notify
notify_all-OnlyTells [] m status = tt
notify_all-OnlyTells (c ∷ cs) m status = ground (arith, notify_all-OnlyTells cs m status)

notify_messages-OnlyTells :
    (cs : List MpIdbConnector) (ms : List MpMsgPayload) → OnlyTells (notify_messages cs ms)
unfolding notify_messages
notify_messages-OnlyTells cs [] = tt
notify_messages-OnlyTells cs (m ∷ ms) =
    All-append (λ c. is_notify c ≡ true)
      (notify_all cs (mark_as_processed m) MpStatus.message_not_sent) (notify_messages cs ms)
      (notify_all-OnlyTells cs (mark_as_processed m) MpStatus.message_not_sent)
      (notify_messages-OnlyTells cs ms)

pub mark_processed-OnlyTells :
    (s : MpString) (q : MpMsgPool) (e : MpAutoResendEngine)
    → OnlyTells e.calls
    → OnlyTells (mark_processed s q e).calls
unfolding mark_processed mark_user_pool_processed
mark_processed-OnlyTells s q e h =
    All-append (λ c. is_notify c ≡ true) e.calls (mark_user_pool_processed e.db_connectors q).1 h
      (ground (arith, notify_messages-OnlyTells e.db_connectors q.messages))

-- What the marking of pools leaves as it was.
pub record Marked (e' e : MpAutoResendEngine) : Type 0 where
  pub tells : OnlyTells e.calls → OnlyTells e'.calls
  pub started : e'.started ≡ e.started
  pub connectors : e'.db_connectors ≡ e.db_connectors
  pub offers : (k : MpString) → offer k e' ≡ offer k e

pub Marks-Marked : {e' e : MpAutoResendEngine} → Marks e' e → Marked e' e
unfolding mark_processed
Marks-Marked here = record { tells = λ h. h; started = refl; connectors = refl; offers = λ k. refl }
Marks-Marked {e} (mark serial q there d ms) =
    let later = Marks-Marked ms in
    record {
      tells = λ h. later.tells (mark_processed-OnlyTells serial q e h);
      started = later.started;
      connectors = later.connectors;
      offers = λ k. later.offers k ∙ (mark_processed-Passes serial q e there d).same_offers k;
    }

pub offer-started :
    (k : MpString) (e : MpAutoResendEngine) → offer k (record e { started = false }) ≡ offer k e
unfolding offer
offer-started k e = refl

has_uid-own : (ms : List MpMsgPayload) → All (λ m. has_uid m.uid ms ≡ true) ms
unfolding has_uid
has_uid-own [] = tt
has_uid-own (m ∷ ms) = (
  ground (arith, int_eq_refl m.uid),
  All-weaken (λ x. has_uid x.uid ms ≡ true) (λ x. has_uid x.uid (m ∷ ms) ≡ true)
      (λ x h. ground (arith, h)) ms (has_uid-own ms),
)

module _ (P : MpString → MpMsgPayload → Type 0) where
  first_deliverable-All :
      (k : MpString) (m : MpMsgPayload) (ms : List MpMsgPayload)
      → All (P k) ms
      → first_deliverable ms ≡ some m
      → P k m
  unfolding first_deliverable
  first_deliverable-All k m [] h found = cc
  first_deliverable-All k m (x ∷ xs) (hx, hs) found =
      elim (Bool-cases (not (is_message x.message_type) || not x.processed)) [
        | inl this ↦ let same : x ≡ m = ground (arith, this, found) in subst (P k) same hx
        | inr later ↦ first_deliverable-All k m xs hs (ground (arith, later, found))
      ]

  -- A message with retries that a pool gives is one of its messages.
  pub get_message-All :
      (b : Bool) (k : MpString) (m : MpMsgPayload) (q : MpMsgPool)
      → All (P k) q.messages
      → get_message b q ≡ done m
      → is_positive m.number_of_retries ≡ true
      → P k m
  unfolding get_message
  get_message-All true k m q h got y = elim (List-cases q.messages) [
    | inl none_left ↦ absurd (ground (arith, none_left, got))
    | inr (x, xs, shape) ↦
        let same : x ≡ m = ground (arith, shape, got) in
        subst (P k) same (subst (All (P k)) shape h).0
  ]
  get_message-All false k m q h got y = elim (Option-cases (first_deliverable q.messages)) [
    | inl none_left ↦ absurd (ground (arith, none_left, got, y, blank_payload.1, blank_payload.2))
    | inr (x, found) ↦
        let same : x ≡ m = ground (arith, found, got) in
        subst (P k) same (first_deliverable-All k x q.messages h found)
  ]

pub get_message-held :
    (b : Bool) (k : MpString) (m : MpMsgPayload) (q : MpMsgPool)
    → get_message b q ≡ done m
    → is_positive m.number_of_retries ≡ true
    → has_uid m.uid q.messages ≡ true
get_message-held b k m q got y =
    get_message-All (λ j x. has_uid x.uid q.messages ≡ true) b k m q (has_uid-own q.messages) got y
