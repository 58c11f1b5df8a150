-- ===== src/Messaging/Drain.antt =====
-- The joined services (base_service/src/MpBaseService.cpp) while every message arrives: each report sends
-- the next message, until there is none.
use end_to_end_smkex.Base.{
  ℕ, zero, suc, ◌+◌, ◌≤◌, ◌≡◌, refl, ap, ◌∙◌, true, false, [], none, find, is_positive, decrement,
  pos, MpString, Outcome, done, ◌>>=◌, arith, inl, inr, ◌⊎◌,
}
use end_to_end_smkex.Utils.{is_message_sent}
use end_to_end_smkex.AutoResend.Engine.{MpAutoResendEngine}
use end_to_end_smkex.AutoResend.Engine.Run.{message_status}
use end_to_end_smkex.AutoResend.Engine.Offers.{offer}
use end_to_end_smkex.DataMsg.Transport.{MpMsgTransport, finish, on_send_msg_done}
use end_to_end_smkex.Service.Pjsua.{Pjsua}
use end_to_end_smkex.Sip.Callbacks.{sc_ok}
use end_to_end_smkex.Messaging.{Messaging, engine_of, pager_status}
use end_to_end_smkex.Messaging.Transfer.{IsHeld}
use end_to_end_smkex.Messaging.Acts.{message_status-Acts}
use end_to_end_smkex.Messaging.Chain.{IsJoined, Done, kept, halted, taken_over, use_engine-Done}
use end_to_end_smkex.Messaging.Sending.{IsKept, IsKept-IsStable}
use end_to_end_smkex.Messaging.Runs.{
  status_of, pager_idle, ended, ended-IsJoined, pager_ends, busy-started,
}
use end_to_end_smkex.Messaging.Totals.{total, message_status-total}

-- The engine has stopped, and no pool has a message to send.
abbrev pub IsOver : {W : Type 0} → Messaging W → Type 0
IsOver s = (s.engine.started ≡ false) × ((k : MpString) → offer k s.engine ≡ none)

-- A message of one of the pools is in transfer.
abbrev pub IsServing : {W : Type 0} → Messaging W → Type 0
IsServing s =
    (is_positive s.service.msg_transport.msg.number_of_retries ≡ true)
    × IsHeld s.service.msg_transport.msg s.service.msg_transport.msg.user_serial s.engine

on_send_msg_done-sent :
    (t : MpMsgTransport)
    → is_positive t.msg.number_of_retries ≡ true
    → on_send_msg_done (status_of sc_ok) t
      ≡ finish (status_of sc_ok) (record t { counter = decrement t.counter })
unfolding on_send_msg_done is_message_sent
on_send_msg_done-sent t h = ground (arith, h)

status_of-sent : is_message_sent (status_of sc_ok) ≡ true
unfolding is_message_sent
status_of-sent = refl

offer-engine :
    (k : MpString) (e : MpAutoResendEngine) → offer k (record e { calls = [] }) ≡ offer k e
unfolding offer
offer-engine k e = refl

module _ {W : Type 0} (p : Pjsua W) where
  Done-goes_on :
      (s : Messaging W) (e : MpAutoResendEngine) (s' : Messaging W)
      → Done p true s e s'
      → (total s'.engine.user_pool ≡ total e.user_pool) × (IsOver s' ⊎ IsServing s')
  Done-goes_on s e _ (kept told calm same) = cc
  Done-goes_on s e _ (halted told idle off nothing) =
      (refl, inl (off, λ k. offer-engine k e ∙ nothing k))
  Done-goes_on s e _ (taken_over k m told w idle keeps y on (q, there, held)) =
      (refl, inr (y, (q, ap (λ j. find j e.user_pool) keeps.own ∙ there, held)))

  -- PJSUA reports that the message in transfer was sent.
  sent-goes_on :
      (s : Messaging W)
      → IsJoined s
      → IsServing s
      → (s' : Messaging W) × (pager_status p sc_ok s ≡ done s')
        × IsJoined s'
        × (total s'.engine.user_pool + 1 ≤ total s.engine.user_pool)
        × (IsOver s' ⊎ IsServing s')
  sent-goes_on s j (busy, held) =
      let t = s.service.msg_transport in
      let z = decrement t.counter in
      let m = record t.msg { number_of_retries = pos 0 } in
      let j' = ended-IsJoined p s j z in
      let (s', e, ends, out, joined, d) =
        use_engine-Done p Unit true (message_status m (status_of sc_ok)) (ended p s j z) j'
          (message_status-Acts IsKept IsKept-IsStable (engine_of (ended p s j z)) j'.well
            j'.no_calls m (status_of sc_ok) (busy-started p s j busy))
          (λ u. refl) in
      let (same, next) = Done-goes_on (ended p s j z) e s' d in
      let fewer : total e.user_pool + 1 ≤ total s.engine.user_pool =
        message_status-total m (status_of sc_ok) (engine_of (ended p s j z)) e j'.well.ready held
          status_of-sent ends in
      (
        s',
        pager_ends p s j sc_ok z (on_send_msg_done-sent t busy) ∙ out,
        joined,
        omega (arith, fewer, same),
        next,
      )

  -- `n` reports of PJSUA that a message was sent.
  unfoldable pub all_sent : ℕ → Messaging W → Outcome (Messaging W)
  all_sent zero s = done s
  all_sent (suc n) s = pager_status p sc_ok s >>= all_sent n

  over-stays : (n : ℕ) (s : Messaging W) → IsJoined s → IsOver s → all_sent n s ≡ done s
  unfolding all_sent
  over-stays zero s j over = refl
  over-stays (suc n) s j (off, nothing) =
      rw (pager_idle p s j.no_events sc_ok (j.waits off)) (over-stays n s j (off, nothing))

  -- With a message of a pool in transfer, as many reports that a message was sent as the pools hold
  -- messages, or more, stop the engine with no message to send.
  pub all_sent-drains :
      (n : ℕ) (s : Messaging W)
      → IsJoined s
      → IsServing s
      → total s.engine.user_pool ≤ n
      → (s' : Messaging W) × (all_sent n s ≡ done s') × IsJoined s' × IsOver s'
  unfolding all_sent
  all_sent-drains zero s j serving few =
      let (s', out, joined, fewer, next) = sent-goes_on s j serving in
      absurd (omega (arith, few, fewer))
  all_sent-drains (suc n) s j serving few =
      let (s₁, out, j₁, fewer, next) = sent-goes_on s j serving in
      elim next [
        | inl over ↦ (s₁, rw out (over-stays n s₁ j₁ over), j₁, over)
        | inr serving₁ ↦
            let (s₂, rest, j₂, over) =
              all_sent-drains n s₁ j₁ serving₁ (omega (arith, few, fewer)) in
            (s₂, rw out rest, j₂, over)
      ]
