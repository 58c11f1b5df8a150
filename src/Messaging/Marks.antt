-- ===== src/Messaging/Marks.antt =====
-- How the loop of `sendMessage` (auto_resend/src/MpAutoResendEngine.cpp) gets to its end: it marks the
-- messages of dirty pools as processed, and then stops the engine or hands over a message.
use end_to_end_smkex.Base.{
  ◌≡◌, true, false, List, [], ◌∷◌, ◌++◌, some, is_positive, MpString, find, done, arith, Bool-cases,
  Option-cases, inl, inr,
}
use end_to_end_smkex.AutoResend.Payload.{MpMsgPayload}
use end_to_end_smkex.AutoResend.Pool.{MpMsgPool, is_pool_empty, get_message}
use end_to_end_smkex.AutoResend.Engine.{MpAutoResendEngine, send}
use end_to_end_smkex.AutoResend.Engine.Offers.{get_message-done}
use end_to_end_smkex.AutoResend.Engine.Run.{mark_processed, hand_over, send_first}

-- From the second engine, the marking of some dirty pools leads to the first.
pub data Marks (e' : MpAutoResendEngine) : MpAutoResendEngine → Type 0 where
  here : Marks e' e'
  mark :
      {e : MpAutoResendEngine} (serial : MpString) (q : MpMsgPool)
      → find serial e.user_pool ≡ some q
      → q.dirty ≡ true
      → Marks e' (mark_processed serial q e)
      → Marks e' e

pub data Ends (e e' : MpAutoResendEngine) : Type 0 where
  stops : (e₁ : MpAutoResendEngine) → Marks e₁ e → e' ≡ record e₁ { started = false } → Ends e e'
  hands :
      (e₁ : MpAutoResendEngine) (k : MpString) (q : MpMsgPool) (m : MpMsgPayload)
      → Marks e₁ e
      → find k e₁.user_pool ≡ some q
      → get_message e₁.auto_resend_enabled q ≡ done m
      → is_positive m.number_of_retries ≡ true
      → e' ≡ record e₁ { calls = e₁.calls ++ send m ∷ [] }
      → Ends e e'

Ends-mark :
    (serial : MpString) (q : MpMsgPool) (e e' : MpAutoResendEngine)
    → find serial e.user_pool ≡ some q
    → q.dirty ≡ true
    → Ends (mark_processed serial q e) e'
    → Ends e e'
Ends-mark serial q e e' there d (stops e₁ ms eq) = stops e₁ (mark serial q there d ms) eq
Ends-mark serial q e e' there d (hands e₁ k r m ms found got y eq) =
    hands e₁ k r m (mark serial q there d ms) found got y eq

hand_over-eq :
    (m : MpMsgPayload) (e e' : MpAutoResendEngine)
    → hand_over m e ≡ done e'
    → e' ≡ record e { calls = e.calls ++ send m ∷ [] }
unfolding hand_over
hand_over-eq m e e' h = ground arith

pub send_first-Ends :
    (ks : List MpString) (e e' : MpAutoResendEngine) → send_first ks e ≡ done e' → Ends e e'
unfolding send_first
send_first-Ends [] e e' h = stops e here (ground arith)
send_first-Ends (k ∷ ks) e e' h = elim (Option-cases (find k e.user_pool)) [
  | inl missing ↦ send_first-Ends ks e e' (ground (arith, missing))
  | inr (q, there) ↦ elim (Bool-cases (is_pool_empty q)) [
    | inl y ↦ send_first-Ends ks e e' (ground (arith, there, y))
    | inr n ↦ elim (Bool-cases q.dirty) [
      | inl d ↦
          Ends-mark k q e e' there d
            (send_first-Ends ks (mark_processed k q e) e' (ground (arith, there, n, d)))
      | inr c ↦
          let (m, got) = get_message-done e.auto_resend_enabled q n in
          elim (Bool-cases (is_positive m.number_of_retries)) [
            | inl y ↦
                hands e k q m here there got y
                  (hand_over-eq m e e' (ground (arith, there, n, c, got, y)))
            | inr r ↦ send_first-Ends ks e e' (ground (arith, there, n, c, got, r))
          ]
    ]
  ]
]
