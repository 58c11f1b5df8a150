-- ===== src/Messaging/Pools.antt =====
-- What holds of all the messages of a pool (auto_resend/src/MpMsgPool.cpp).
use end_to_end_smkex.Base.{
  ℕ, zero, suc, ◌≡◌, List, [], ◌∷◌, ◌++◌, map, some, All, MpString, ℤ, int_eq, str_eq, Map, find,
  arith, Bool-cases, inl, inr,
}
use end_to_end_smkex.AutoResend.Payload.{MpMsgPayload}
use end_to_end_smkex.AutoResend.Pool.{MpMsgPool, modify_at, remove_first, set_weight}
use end_to_end_smkex.AutoResend.Engine.Run.{prioritize}

pub All-append {ℓ κ} :
    {A : Type ℓ} (P : A → Type κ) (xs ys : List A) → All P xs → All P ys → All P (xs ++ ys)
All-append P [] ys h k = k
All-append P (x ∷ xs) ys (hx, hs) k = (hx, All-append P xs ys hs k)

pub All-map {ℓ κ} :
    {A : Type ℓ} (P : A → Type κ) (f : A → A)
    → ((x : A) → P x → P (f x))
    → (xs : List A) → All P xs
    → All P (map f xs)
All-map P f keep [] h = tt
All-map P f keep (x ∷ xs) (hx, hs) = (keep x hx, All-map P f keep xs hs)

pub All-modify_at {κ} :
    (P : MpMsgPayload → Type κ) (f : MpMsgPayload → MpMsgPayload)
    → ((m : MpMsgPayload) → P m → P (f m))
    → (i : ℕ) (ms : List MpMsgPayload) → All P ms
    → All P (modify_at i f ms)
unfolding modify_at
All-modify_at P f keep i [] h = tt
All-modify_at P f keep zero (m ∷ ms) (hm, hs) = (keep m hm, hs)
All-modify_at P f keep (suc i) (m ∷ ms) (hm, hs) = (hm, All-modify_at P f keep i ms hs)

pub All-remove_first {κ} :
    (P : MpMsgPayload → Type κ) (uid : ℤ) (ms : List MpMsgPayload)
    → All P ms
    → All P (remove_first uid ms)
unfolding remove_first
All-remove_first P uid [] h = tt
All-remove_first P uid (m ∷ ms) (hm, hs) = elim (Bool-cases (int_eq m.uid uid)) [
  | inl y ↦ rw (remove_first, y) hs
  | inr n ↦ rw (remove_first, n) (hm, All-remove_first P uid ms hs)
]

pub find-prioritize :
    (s k : MpString) (q : MpMsgPool) (pools : Map MpMsgPool)
    → find k (prioritize s pools) ≡ some q
    → (r : MpMsgPool) × (find k pools ≡ some r) × (r.messages ≡ q.messages)
unfolding prioritize find set_weight
find-prioritize s k q [] h = cc
find-prioritize s k q ((j, r) ∷ pools) h = elim (Bool-cases (str_eq j k)) [
  | inl first ↦ (r, ground (arith, first), ground (arith, first, h))
  | inr past ↦
      let (t, found, same) = find-prioritize s k q pools (ground (arith, past, h)) in
      (t, ground (arith, past, found), same)
]

pub All-weaken {ℓ κ μ} :
    {A : Type ℓ} (P : A → Type κ) (Q : A → Type μ)
    → ((x : A) → P x → Q x)
    → (xs : List A) → All P xs
    → All Q xs
All-weaken P Q f [] h = tt
All-weaken P Q f (x ∷ xs) (hx, hs) = (f x hx, All-weaken P Q f xs hs)
