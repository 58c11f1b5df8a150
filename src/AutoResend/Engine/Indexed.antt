-- ===== src/AutoResend/Engine/Indexed.antt =====
-- The priority list and the pools of `MpAutoResendEngine` name the same serials, and what
-- `sendMessage` does then.
use end_to_end_smkex.Base.{
  ℕ, ◌≤◌, ◌≡◌, refl, sym, ap, ◌∙◌, true, false, List, [], ◌∷◌, ◌++◌, none, some, All, MpString,
  str_eq_refl, Map, find, done, arith, Option-cases, inl, inr, ◌⊎◌,
}
use end_to_end_smkex.AutoResend.Payload.{MpMsgPayload}
use end_to_end_smkex.AutoResend.Pool.{MpMsgPool}
use end_to_end_smkex.AutoResend.Engine.{send, MpAutoResendEngine}
use end_to_end_smkex.AutoResend.Engine.Sift.{IsListed, count}
use end_to_end_smkex.AutoResend.Engine.Run.{hand_over, send_first}
use end_to_end_smkex.AutoResend.Engine.Offers.{
  sends, sends-append, offer, listed, Passes, send_first-cases,
}

-- Every serial stands in the priority list once if it has a pool, and not at all if it has none.
abbrev pub IsIndexed : MpAutoResendEngine → Type 0
IsIndexed e = (k : MpString) → count k e.priority ≡ listed k e.user_pool

listed-IsListed :
    (pools : Map MpMsgPool) (xs : List MpString)
    → ((k : MpString) → 1 ≤ count k xs → listed k pools ≡ 1)
    → All (IsListed pools) xs
unfolding listed count
listed-IsListed pools [] h = tt
listed-IsListed pools (x ∷ xs) h =
    let here = h x (ground (arith, str_eq_refl x)) in
    (
      elim (Option-cases (find x pools)) [
        | inl missing ↦ absurd (ground (arith, missing, here))
        | inr there ↦ there
      ],
      listed-IsListed pools xs (λ k many. h k (omega (arith, many))),
    )

listed-le : (k : MpString) (pools : Map MpMsgPool) → listed k pools ≤ 1
unfolding listed
listed-le k pools = ground arith

pub IsIndexed-IsListed :
    (e : MpAutoResendEngine) → IsIndexed e → All (IsListed e.user_pool) e.priority
IsIndexed-IsListed e h =
    listed-IsListed e.user_pool e.priority (λ k many. omega (arith, h k, listed-le k e.user_pool))

-- How the loop of `sendMessage` ends on serials sorted by the weights `weight`: it stops the engine
-- since no serial has an offer, or it sends the offer of a serial that no other with an offer
-- precedes.
abbrev pub Outcomes : (MpString → ℕ) → List MpString → (e e' : MpAutoResendEngine) → Type 0
Outcomes weight ks e e' =
    (All (λ k. offer k e ≡ none) ks × (e'.started ≡ false) × (sends e'.calls ≡ sends e.calls))
    ⊎ ((k : MpString) × (m : MpMsgPayload) × (offer k e ≡ some m)
        × (sends e'.calls ≡ sends e.calls ++ m ∷ [])
        × (e'.started ≡ e.started)
        × All (λ j. (n : MpMsgPayload) → offer j e ≡ some n → weight k ≤ weight j) ks)

-- What the loop leaves as it was.
pub record Keeps (e e' : MpAutoResendEngine) : Type 0 where
  pub kept_priority : e'.priority ≡ e.priority
  pub kept_listed : (k : MpString) → listed k e'.user_pool ≡ listed k e.user_pool
  pub kept_transport : e'.msg_transport ≡ e.msg_transport
  pub kept_stack : e'.sip_stack ≡ e.sip_stack

abbrev pub IsSortedOn : (MpString → ℕ) → List MpString → Type 0
IsSortedOn weight [] = Unit
IsSortedOn weight (x ∷ []) = Unit
IsSortedOn weight (x ∷ y ∷ ys) = (weight x ≤ weight y) × IsSortedOn weight (y ∷ ys)

first-lightest :
    (weight : MpString → ℕ) (e : MpAutoResendEngine) (b : ℕ) (xs : List MpString) (x : MpString)
    → b ≤ weight x
    → IsSortedOn weight (x ∷ xs)
    → All (λ j. (n : MpMsgPayload) → offer j e ≡ some n → b ≤ weight j) (x ∷ xs)
first-lightest weight e b [] x h s = (λ n o. h, tt)
first-lightest weight e b (y ∷ ys) x h (le, s) =
    (λ n o. h, first-lightest weight e b ys y (omega (arith, h, le)) s)

IsSortedOn-tail :
    (weight : MpString → ℕ) (x : MpString) (xs : List MpString)
    → IsSortedOn weight (x ∷ xs)
    → IsSortedOn weight xs
IsSortedOn-tail weight x [] s = tt
IsSortedOn-tail weight x (y ∷ ys) (le, s) = s

hand_over-done :
    (m : MpMsgPayload) (e : MpAutoResendEngine)
    → e.msg_transport ≡ true
    → hand_over m e ≡ done (record e { calls = e.calls ++ send m ∷ [] })
unfolding hand_over
hand_over-done m e h = rw h

pub All-map {ℓ κ} :
    {A : Type ℓ} (P Q : A → Type κ) (xs : List A) → ((a : A) → P a → Q a) → All P xs → All Q xs
All-map P Q [] f h = tt
All-map P Q (x ∷ xs) f (hx, hs) = (f x hx, All-map P Q xs f hs)

-- Going past a serial without an offer.
past :
    (weight : MpString → ℕ) (x : MpString) (xs : List MpString) (e e₁ e' : MpAutoResendEngine)
    → Passes e e₁
    → offer x e ≡ none
    → Outcomes weight xs e₁ e'
    → Outcomes weight (x ∷ xs) e e'
past weight x xs e e₁ e' p spent (inl (nothing, stopped, same)) = inl (
  (spent, All-map _ _ xs (λ k o. sym (p.same_offers k) ∙ o) nothing),
  stopped,
  same ∙ p.same_sends,
)
past weight x xs e e₁ e' p spent (inr (k, m, offered, sent, running, light)) = inr (
  k,
  m,
  sym (p.same_offers k) ∙ offered,
  sent ∙ ap (λ l. l ++ m ∷ []) p.same_sends,
  running ∙ p.same_started,
  (λ n o. absurd (cc (o, spent)), All-map _ _ xs (λ j f n o. f n (p.same_offers j ∙ o)) light),
)

-- The loop returns.
pub send_first-outcome :
    (weight : MpString → ℕ) (ks : List MpString) (e : MpAutoResendEngine)
    → e.msg_transport ≡ true
    → IsSortedOn weight ks
    → (e' : MpAutoResendEngine) × (send_first ks e ≡ done e') × Outcomes weight ks e e' × Keeps e e'
unfolding send_first sends
send_first-outcome weight [] e h s = (
  record e { started = false },
  refl,
  inl (tt, refl, refl),
  record {
    kept_priority = refl;
    kept_listed = λ k. refl;
    kept_transport = refl;
    kept_stack = refl;
  },
)
send_first-outcome weight (x ∷ xs) e h s = elim (send_first-cases x xs e) [
  | inl (m, offered, step) ↦ (
    record e { calls = e.calls ++ send m ∷ [] },
    step ∙ hand_over-done m e h,
    inr (
      x,
      m,
      offered,
      sends-append e.calls (send m ∷ []),
      refl,
      first-lightest weight e (weight x) xs x (omega arith) s,
    ),
    record {
      kept_priority = refl;
      kept_listed = λ k. refl;
      kept_transport = refl;
      kept_stack = refl;
    },
  )
  | inr (spent, (e₁, step, p)) ↦
      let (e', ends, outcome, keeps) =
        send_first-outcome weight xs e₁ (p.same_transport ∙ h) (IsSortedOn-tail weight x xs s) in
      (
        e',
        step ∙ ends,
        past weight x xs e e₁ e' p spent outcome,
        record {
          kept_priority = keeps.kept_priority ∙ p.same_priority;
          kept_listed = λ k. keeps.kept_listed k ∙ p.same_listed k;
          kept_transport = keeps.kept_transport ∙ p.same_transport;
          kept_stack = keeps.kept_stack ∙ p.same_stack;
        },
      )
]
