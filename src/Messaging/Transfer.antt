-- ===== src/Messaging/Transfer.antt =====
-- What a send of the engine does (`sendMessage` and `startEngine` of auto_resend/src/
-- MpAutoResendEngine.cpp): it only tells connectors, and stops the engine or hands over one message of
-- its pools.
use end_to_end_smkex.Base.{
  ◌≡◌, refl, sym, ap, subst, ◌∙◌, Bool, true, false, not, ◌&&◌, List, [], ◌∷◌, ◌++◌, none, some,
  All, is_positive, MpString, find, Outcome, done, arith, Bool-cases, inl, inr,
}
use end_to_end_smkex.AutoResend.Payload.{MpMsgPayload}
use end_to_end_smkex.AutoResend.Pool.{MpMsgPool, has_uid}
use end_to_end_smkex.AutoResend.Engine.{Call, send, MpAutoResendEngine}
use end_to_end_smkex.AutoResend.Engine.Run.{send_first, send_message, start_engine}
use end_to_end_smkex.AutoResend.Engine.Offers.{offer}
use end_to_end_smkex.AutoResend.Engine.Sort.{sort_messages-sorts}
use end_to_end_smkex.AutoResend.Engine.Indexed.{IsIndexed-IsListed}
use end_to_end_smkex.AutoResend.Engine.Fair.{IsReady, offer-priority, send_message-fair}
use end_to_end_smkex.Messaging.Marks.{Ends, stops, hands, send_first-Ends}
use end_to_end_smkex.Messaging.Stores.{IsStable, Stores, Marks-Stores}
use end_to_end_smkex.Messaging.Tells.{
  OnlyTells, Marks-Marked, offer-started, get_message-All, get_message-held,
}

-- The pool of the serial has a message with the message's identifier.
abbrev pub IsHeld : MpMsgPayload → MpString → MpAutoResendEngine → Type 0
IsHeld m k e = (q : MpMsgPool) × (find k e.user_pool ≡ some q) × (has_uid m.uid q.messages ≡ true)

module _ (P : MpString → MpMsgPayload → Type 0) where
  -- The engine is ready, and its pools and its connectors hold only messages with the property.
  pub record IsWell (e : MpAutoResendEngine) : Type 0 where
    pub ready : IsReady e
    pub stores : Stores P e
    pub connectors : All (λ c. All (λ m. P m.user_serial m) c.stored) e.db_connectors

  -- How an operation ends that has made no call before; it does more than tell connectors only if
  -- `idle` holds, and does so if it is forced to.
  pub data Effect (idle : Type 0) (forced : Bool) (e e' : MpAutoResendEngine) : Type 0 where
    quiet : forced ≡ false → OnlyTells e'.calls → e'.started ≡ e.started → Effect idle forced e e'
    stopped :
        idle
        → OnlyTells e'.calls
        → e'.started ≡ false
        → ((k : MpString) → offer k e' ≡ none)
        → Effect idle forced e e'
    sent :
        idle
        → (k : MpString) (m : MpMsgPayload) (ns : List Call) → e'.calls ≡ ns ++ send m ∷ []
        → OnlyTells ns
        → P k m
        → is_positive m.number_of_retries ≡ true
        → e'.started ≡ true
        → IsHeld m k e'
        → Effect idle forced e e'

  abbrev pub Acts : Type 0 → Bool → MpAutoResendEngine → Outcome MpAutoResendEngine → Type 0
  Acts idle forced e o =
      (e' : MpAutoResendEngine) × (o ≡ done e') × IsWell e' × Effect idle forced e e'

  module _ (stable : IsStable P) where
    Ends-Effect :
        (idle : Type 0) (forced : Bool) (e e₀ e' : MpAutoResendEngine)
        → idle
        → OnlyTells e₀.calls
        → e₀.started ≡ true
        → Stores P e₀
        → (e'.started ≡ false → (k : MpString) → offer k e₀ ≡ none)
        → Ends e₀ e'
        → Stores P e' × (e'.db_connectors ≡ e₀.db_connectors) × Effect idle forced e e'
    Ends-Effect idle forced e e₀ e' i tells started stores none_left (stops e₁ ms eq) =
        let marked = Marks-Marked ms in
        (
          subst (Stores P) (sym eq) (Marks-Stores P stable ms stores),
          ap (λ x. x.db_connectors) eq ∙ marked.connectors,
          stopped i (subst (λ x. OnlyTells x.calls) (sym eq) (marked.tells tells))
              (ap (λ x. x.started) eq)
              (λ k.
                ap (offer k) eq
                ∙ offer-started k e₁
                ∙ marked.offers k
                ∙ none_left (ap (λ x. x.started) eq) k),
        )
    Ends-Effect idle forced e e₀ e' i tells started stores none_left
          (hands e₁ k q m ms found got y eq) =
        let marked = Marks-Marked ms in
        let stores₁ = Marks-Stores P stable ms stores in
        (
          subst (Stores P) (sym eq) stores₁,
          ap (λ x. x.db_connectors) eq ∙ marked.connectors,
          sent i k m e₁.calls (ap (λ x. x.calls) eq) (marked.tells tells)
              (get_message-All P e₁.auto_resend_enabled k m q (stores₁ k q found) got y) y
              (ap (λ x. x.started) eq ∙ marked.started ∙ started)
              (
                q,
                ap (λ x. find k x.user_pool) eq ∙ found,
                get_message-held e₁.auto_resend_enabled k m q got y,
              ),
        )

    -- A send by an engine that is started.
    pub send_message-Acts :
        (idle : Type 0) (forced : Bool) (e₀ e : MpAutoResendEngine)
        → idle
        → IsWell e
        → OnlyTells e.calls
        → e.started ≡ true
        → Acts idle forced e₀ (send_message e)
    unfolding send_message
    send_message-Acts idle forced e₀ e i well tells started =
        let (e', ends, ready', fair) = send_message-fair e well.ready in
        let (xs, sorts, _, _, _) =
          sort_messages-sorts e (IsIndexed-IsListed e well.ready.indexed) in
        let loop : send_first xs (record e { priority = xs }) ≡ done e' =
          ground (arith, sorts, ends) in
        let none_left : e'.started ≡ false
            → (k : MpString) → offer k (record e { priority = xs }) ≡ none =
          λ off k. elim fair [
            | inl (nothing, _, _) ↦ offer-priority k xs e ∙ nothing k
            | inr (_, _, _, _, same_started, _) ↦
                absurd (ground (arith, off, same_started, started))
          ] in
        let (stores', same, effect) =
          Ends-Effect idle forced e₀ (record e { priority = xs }) e' i tells started well.stores
            none_left (send_first-Ends xs (record e { priority = xs }) e' loop) in
        (
          e',
          ends,
          record {
            ready = ready';
            stores = stores';
            connectors =
                subst (All (λ c. All (λ m. P m.user_serial m) c.stored)) (sym same) well.connectors;
          },
          effect,
        )

    -- `startEngine` sends only if the engine was stopped.
    pub start_engine-Acts :
        (e₀ e : MpAutoResendEngine)
        → IsWell e
        → e.calls ≡ []
        → e.started ≡ e₀.started
        → Acts (e₀.started ≡ false) false e₀ (start_engine e)
    unfolding start_engine
    start_engine-Acts e₀ e well none_made same =
        let (b, stack) = well.ready.stack in
        let nothing : OnlyTells e.calls = subst OnlyTells (sym none_made) tt in
        elim (Bool-cases (b && not e.started)) [
          | inl starts ↦
              let (e', ends, well', effect) =
                send_message-Acts (e₀.started ≡ false) false e₀ (record e { started = true })
                  (ground (arith, starts, same))
                  (record {
                    ready = record {
                      indexed = well.ready.indexed;
                      transport = well.ready.transport;
                      stack = well.ready.stack;
                    };
                    stores = well.stores;
                    connectors = well.connectors;
                  })
                  nothing refl in
              (e', ground (arith, starts, stack, ends), well', effect)
          | inr off ↦ (e, ground (arith, off, stack), well, quiet refl nothing same)
        ]
