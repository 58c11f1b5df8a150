-- ===== src/AutoResend/Engine/Fair.antt =====
-- `sendMessage` of auto_resend/src/MpAutoResendEngine.cpp, whole.
use end_to_end_smkex.Base.{
  ◌≤◌, ◌≡◌, refl, sym, ap, subst, ◌∙◌, Bool, true, false, List, [], ◌∷◌, ◌++◌, none, some, All,
  MpString, str_eq, str_eq_iff, Map, done, arith, Bool-cases, Option-cases, inl, inr, ◌⊎◌,
}
use end_to_end_smkex.AutoResend.Payload.{MpMsgPayload}
use end_to_end_smkex.AutoResend.Pool.{MpMsgPool}
use end_to_end_smkex.AutoResend.Engine.{MpAutoResendEngine, sort_messages}
use end_to_end_smkex.AutoResend.Engine.Sift.{weight_of, IsSortedBy, count}
use end_to_end_smkex.AutoResend.Engine.Sort.{sort_messages-sorts}
use end_to_end_smkex.AutoResend.Engine.Run.{send_first, send_message}
use end_to_end_smkex.AutoResend.Engine.Offers.{sends, offer, listed}
use end_to_end_smkex.AutoResend.Engine.Indexed.{
  IsIndexed, IsIndexed-IsListed, Outcomes, IsSortedOn, send_first-outcome,
}

All-count {κ} :
    (P : MpString → Type κ) (k : MpString) (xs : List MpString) → All P xs → 1 ≤ count k xs → P k
unfolding count
All-count P k [] h many = absurd (omega arith)
All-count P k (x ∷ xs) (hx, hs) many = elim (Bool-cases (str_eq x k)) [
  | inl y ↦ subst P ((str_eq_iff x k).0 y) hx
  | inr n ↦ All-count P k xs hs (ground (arith, n))
]

IsSortedBy-IsSortedOn :
    (pools : Map MpMsgPool) (xs : List MpString)
    → IsSortedBy pools xs
    → IsSortedOn (weight_of pools) xs
IsSortedBy-IsSortedOn pools [] s = tt
IsSortedBy-IsSortedOn pools (x ∷ []) s = tt
IsSortedBy-IsSortedOn pools (x ∷ y ∷ ys) (le, s) = (le, IsSortedBy-IsSortedOn pools (y ∷ ys) s)

offer-unlisted :
    (k : MpString) (e : MpAutoResendEngine) (m : MpMsgPayload)
    → offer k e ≡ some m
    → listed k e.user_pool ≡ 1
unfolding offer listed
offer-unlisted k e m o = ground arith

pub offer-priority :
    (k : MpString) (xs : List MpString) (e : MpAutoResendEngine)
    → offer k (record e { priority = xs }) ≡ offer k e
unfolding offer
offer-priority k xs e = refl

-- A send ends in one of two ways: it stops the engine since no serial has an offer, or it sends the
-- offer of a serial whose pool is lightest among those with an offer.
abbrev pub FairlySent : (e e' : MpAutoResendEngine) → Type 0
FairlySent e e' =
    (((k : MpString) → offer k e ≡ none) × (e'.started ≡ false) × (sends e'.calls ≡ sends e.calls))
    ⊎ ((k : MpString) × (m : MpMsgPayload) × (offer k e ≡ some m)
        × (sends e'.calls ≡ sends e.calls ++ m ∷ [])
        × (e'.started ≡ e.started)
        × ((j : MpString) (n : MpMsgPayload)
            → offer j e ≡ some n
            → weight_of e.user_pool k ≤ weight_of e.user_pool j))

Outcomes-FairlySent :
    (xs : List MpString) (e e' : MpAutoResendEngine)
    → ((k : MpString) → count k xs ≡ listed k e.user_pool)
    → Outcomes (weight_of e.user_pool) xs (record e { priority = xs }) e'
    → FairlySent e e'
unfolding offer
Outcomes-FairlySent xs e e' h (inl (nothing, stopped, same)) = inl (
  (λ k. elim (Option-cases (offer k e)) [
    | inl spent ↦ spent
    | inr (m, o) ↦
        All-count (λ j. offer j (record e { priority = xs }) ≡ none) k xs nothing
          (omega (arith, h k, offer-unlisted k e m o))
  ]),
  stopped,
  same,
)
Outcomes-FairlySent xs e e' h (inr (k, m, offered, sent, running, light)) = inr (
  k,
  m,
  sym (offer-priority k xs e) ∙ offered,
  sent,
  running,
  λ j n o.
      All-count
        (λ i.
          (l : MpMsgPayload)
          → offer i (record e { priority = xs }) ≡ some l
          → weight_of e.user_pool k ≤ weight_of e.user_pool i)
        j xs light (omega (arith, h j, offer-unlisted j e n o)) n (offer-priority j xs e ∙ o),
)

send_message-of :
    (e e' : MpAutoResendEngine) (xs : List MpString)
    → sort_messages e ≡ done (record e { priority = xs })
    → send_first xs (record e { priority = xs }) ≡ done e'
    → send_message e ≡ done e'
unfolding send_message
send_message-of e e' xs sorts ends = rw (sorts, ends)

-- What the engine's lists and pointers need for a send to return.
pub record IsReady (e : MpAutoResendEngine) : Type 0 where
  pub indexed : IsIndexed e
  pub transport : e.msg_transport ≡ true
  pub stack : (b : Bool) × (e.sip_stack ≡ some b)

-- On an engine with a transport and a stack whose priority list names each pool once and nothing else, a send
-- returns, and leaves such an engine. It sends at most one message, the offer of a serial whose pool
-- is lightest among those with an offer (a pool that is clean and whose message has retries left);
-- if there is no offer it sends nothing and stops the engine.
pub send_message-fair :
    (e : MpAutoResendEngine)
    → IsReady e
    → (e' : MpAutoResendEngine) × (send_message e ≡ done e') × IsReady e' × FairlySent e e'
send_message-fair e ready =
    let h = ready.indexed in
    let (xs, sorts, sorted, _, counts) = sort_messages-sorts e (IsIndexed-IsListed e h) in
    let (e', ends, outcome, keeps) =
      send_first-outcome (weight_of e.user_pool) xs (record e { priority = xs }) ready.transport
        (IsSortedBy-IsSortedOn e.user_pool xs sorted) in
    (
      e',
      send_message-of e e' xs sorts ends,
      record {
        indexed =
            λ k. ap (count k) keeps.kept_priority ∙ counts k ∙ h k ∙ sym (keeps.kept_listed k);
        transport = keeps.kept_transport ∙ ready.transport;
        stack = (ready.stack.0, keeps.kept_stack ∙ ready.stack.1);
      },
      Outcomes-FairlySent xs e e' (λ k. counts k ∙ h k) outcome,
    )
