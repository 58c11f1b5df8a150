-- ===== src/AutoResend/Engine/Offers.antt =====
-- Which message `sendMessage` of auto_resend/src/MpAutoResendEngine.cpp picks.
use end_to_end_smkex.Base.{
  ℕ, ◌≡◌, refl, ap, ◌∙◌, Bool, true, false, List, [], ◌∷◌, ◌++◌, Option, none, some, append-nil,
  if◌then◌else◌, is_positive, pos, MpString, str_eq_iff, Map, find, find-update, done, arith,
  Bool-cases, Option-cases, Outcome-cases, inl, inr, ◌⊎◌,
}
use end_to_end_smkex.Utils.{MpStatus}
use end_to_end_smkex.Utils.Buffer
use end_to_end_smkex.Utils.Buffer.{empty}
use end_to_end_smkex.AutoResend.Payload.{
  MpMsgPayload, new_payload, transport_payload, is_message, message, mark_as_processed,
}
use end_to_end_smkex.AutoResend.Pool.{MpMsgPool, is_pool_empty, get_message, set_weight}
use end_to_end_smkex.AutoResend.Engine.{
  Call, send, notify, remove_for_serial, MpIdbConnector, MpAutoResendEngine,
  mark_user_pool_processed, notify_all, notify_messages,
}
use end_to_end_smkex.AutoResend.Engine.Run.{mark_processed, hand_over, send_first}

-- The messages among the calls that went to the transport.
unfoldable pub sends : List Call → List MpMsgPayload
sends [] = []
sends (send m ∷ cs) = m ∷ sends cs
sends (notify c m status ∷ cs) = sends cs
sends (remove_for_serial serial ∷ cs) = sends cs

-- The message that a pool has to send: none from a pool that is empty or dirty, or if the message
-- has no retries left.
unfoldable pub pool_offer : Bool → MpMsgPool → Option MpMsgPayload
pool_offer auto_resend_enabled p =
    if is_pool_empty p
    then none
    else if p.dirty
    then none
    else elim (get_message auto_resend_enabled p) [
      | done m ↦ if is_positive m.number_of_retries then some m else none
      | _ ↦ none
    ]

unfoldable pub offer : MpString → MpAutoResendEngine → Option MpMsgPayload
offer serial e = elim (find serial e.user_pool) [
  | none ↦ none
  | some p ↦ pool_offer e.auto_resend_enabled p
]

-- 1 if the serial has a pool, else 0.
unfoldable pub listed : MpString → Map MpMsgPool → ℕ
listed k pools = elim (find k pools) [ none ↦ 0 | some p ↦ 1 ]

pub sends-append : (cs ds : List Call) → sends (cs ++ ds) ≡ sends cs ++ sends ds
unfolding sends
sends-append [] ds = refl
sends-append (send m ∷ cs) ds = ap (λ l. m ∷ l) (sends-append cs ds)
sends-append (notify c m status ∷ cs) ds = sends-append cs ds
sends-append (remove_for_serial serial ∷ cs) ds = sends-append cs ds

sends-notify_all :
    (cs : List MpIdbConnector) (m : MpMsgPayload) (status : MpStatus)
    → sends (notify_all cs m status) ≡ []
unfolding sends notify_all
sends-notify_all [] m status = refl
sends-notify_all (c ∷ cs) m status = ground (arith, sends-notify_all cs m status)

sends-notify_messages :
    (cs : List MpIdbConnector) (ms : List MpMsgPayload) → sends (notify_messages cs ms) ≡ []
unfolding sends notify_messages
sends-notify_messages cs [] = refl
sends-notify_messages cs (m ∷ ms) =
    sends-append (notify_all cs (mark_as_processed m) MpStatus.message_not_sent)
      (notify_messages cs ms)
    ∙ rw (
      sends-notify_all cs (mark_as_processed m) MpStatus.message_not_sent,
      sends-notify_messages cs ms,
    )

-- The message that `getMessage` makes up has no retries.
pub blank_payload :
    (m : MpMsgPayload) × (new_payload [] empty (pos 0) (pos 0) (pos 0) message false ≡ done m)
    × (is_positive m.number_of_retries ≡ false)
unfolding new_payload transport_payload is_message Buffer.bytes_from Buffer.set_payload
blank_payload = (_, refl, refl)

pub get_message-done :
    (b : Bool) (p : MpMsgPool)
    → is_pool_empty p ≡ false
    → (m : MpMsgPayload) × (get_message b p ≡ done m)
unfolding get_message is_pool_empty
get_message-done b p h = elim (Outcome-cases (get_message b p)) [
  | inl returns ↦ returns
  | inr ends ↦ absurd (ground (arith, ends, blank_payload.1, h))
]

-- What marking a dirty pool as processed leaves as it was.
pub record Passes (e e₁ : MpAutoResendEngine) : Type 0 where
  pub same_offers : (k : MpString) → offer k e₁ ≡ offer k e
  pub same_listed : (k : MpString) → listed k e₁.user_pool ≡ listed k e.user_pool
  pub same_priority : e₁.priority ≡ e.priority
  pub same_sends : sends e₁.calls ≡ sends e.calls
  pub same_transport : e₁.msg_transport ≡ e.msg_transport
  pub same_stack : e₁.sip_stack ≡ e.sip_stack
  pub same_started : e₁.started ≡ e.started

Passes-refl : (e : MpAutoResendEngine) → Passes e e
Passes-refl e = record {
  same_offers = λ k. refl;
  same_listed = λ k. refl;
  same_priority = refl;
  same_sends = refl;
  same_transport = refl;
  same_stack = refl;
  same_started = refl;
}

mark_user_pool_processed-lem :
    (cs : List MpIdbConnector) (p : MpMsgPool)
    → ((mark_user_pool_processed cs p).0.dirty ≡ p.dirty)
      × (sends (mark_user_pool_processed cs p).1 ≡ [])
unfolding mark_user_pool_processed set_weight sends
mark_user_pool_processed-lem cs p = ground (arith, sends-notify_messages cs p.messages)

pub mark_processed-Passes :
    (serial : MpString) (p : MpMsgPool) (e : MpAutoResendEngine)
    → find serial e.user_pool ≡ some p
    → p.dirty ≡ true
    → Passes e (mark_processed serial p e)
unfolding mark_processed offer listed pool_offer
mark_processed-Passes serial p e there dirty =
    let p' = (mark_user_pool_processed e.db_connectors p).0 in
    let (d, s) = mark_user_pool_processed-lem e.db_connectors p in
    record {
      same_offers = λ k. ground (
        arith,
        find-update serial k p' p e.user_pool there,
        d,
        dirty,
        there,
        str_eq_iff serial k,
      );
      same_listed = λ k.
          ground (arith, find-update serial k p' p e.user_pool there, there, str_eq_iff serial k);
      same_priority = refl;
      same_sends =
          sends-append e.calls (mark_user_pool_processed e.db_connectors p).1
          ∙ ap (λ l. sends e.calls ++ l) s
          ∙ append-nil (sends e.calls);
      same_transport = refl;
      same_stack = refl;
      same_started = refl;
    }

module _ (serial : MpString) (serials : List MpString) (e : MpAutoResendEngine) (p : MpMsgPool)
    (m : MpMsgPayload) (there : find serial e.user_pool ≡ some p) (holds : is_pool_empty p ≡ false)
    (clean : p.dirty ≡ false) (got : get_message e.auto_resend_enabled p ≡ done m) where
  offer-clean :
      is_positive m.number_of_retries ≡ true
      → (offer serial e ≡ some m) × (send_first (serial ∷ serials) e ≡ hand_over m e)
  unfolding send_first offer pool_offer
  offer-clean y =
      (ground (arith, there, holds, clean, got, y), ground (arith, there, holds, clean, got, y))

  offer-spent :
      is_positive m.number_of_retries ≡ false
      → (offer serial e ≡ none) × (send_first (serial ∷ serials) e ≡ send_first serials e)
  unfolding send_first offer pool_offer
  offer-spent r =
      (ground (arith, there, holds, clean, got, r), ground (arith, there, holds, clean, got, r))

-- One step of the loop: the serial's offer is sent, or the loop goes on past it.
pub send_first-cases :
    (serial : MpString) (serials : List MpString) (e : MpAutoResendEngine)
    → ((m : MpMsgPayload) × (offer serial e ≡ some m)
        × (send_first (serial ∷ serials) e ≡ hand_over m e))
      ⊎ ((offer serial e ≡ none)
          × ((e₁ : MpAutoResendEngine) × (send_first (serial ∷ serials) e ≡ send_first serials e₁)
              × Passes e e₁))
unfolding send_first offer pool_offer
send_first-cases serial serials e = elim (Option-cases (find serial e.user_pool)) [
  | inl missing ↦ inr (ground (arith, missing), (e, ground (arith, missing), Passes-refl e))
  | inr (p, there) ↦ elim (Bool-cases (is_pool_empty p)) [
    | inl y ↦ inr (ground (arith, there, y), (e, ground (arith, there, y), Passes-refl e))
    | inr n ↦ elim (Bool-cases p.dirty) [
      | inl d ↦ inr (
        ground (arith, there, n, d),
        (
          mark_processed serial p e,
          ground (arith, there, n, d),
          mark_processed-Passes serial p e there d,
        ),
      )
      | inr c ↦
          let (m, got) = get_message-done e.auto_resend_enabled p n in
          elim (Bool-cases (is_positive m.number_of_retries)) [
            | inl y ↦
                let (offered, sent) = offer-clean serial serials e p m there n c got y in
                inl (m, offered, sent)
            | inr r ↦
                let (no_offer, past) = offer-spent serial serials e p m there n c got r in
                inr (no_offer, (e, past, Passes-refl e))
          ]
    ]
  ]
]
