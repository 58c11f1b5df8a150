-- ===== src/AutoResend/Engine/Sort.antt =====
-- The sort of the serials by weight, in auto_resend/src/MpAutoResendEngine.cpp.
use end_to_end_smkex.Base.{
  ℕ, zero, suc, ◌*◌, ◌≤◌, ◌<◌, ◌≡◌, refl, sym, ap, subst, ◌∙◌, true, List, [], ◌∷◌, length, All,
  MpString, Map, done, arith, Bool-cases, List-cases, inl, inr,
}
use native.Mathlib.Nat.{mul-suc, suc-mul}
use end_to_end_smkex.AutoResend.Pool.{MpMsgPool}
use end_to_end_smkex.AutoResend.Engine.{
  MpAutoResendEngine, bubble, bubble_until_sorted, sort_messages,
}
use end_to_end_smkex.AutoResend.Engine.Sift.{
  IsListed, IsSortedBy, count, lighter, inversions, sift, bubble-sift, count-sift, All-sift,
  length-sift, inversions-sift, sift-still,
}

module _ (pools : Map MpMsgPool) where
  pub again :
      (n : ℕ) (x : MpString) (ys : List MpString) (z : MpString) (zs : List MpString)
      → (sift pools x ys).0 ≡ z ∷ zs
      → (sift pools x ys).1 ≡ true
      → bubble pools x ys ≡ done (sift pools x ys)
      → bubble_until_sorted (suc n) pools x ys ≡ bubble_until_sorted n pools z zs
  unfolding bubble_until_sorted
  again n x ys z zs e f run = rw (run, f, e)

  -- The loop ends after at most as many runs that swap as there are inversions, on a sorted list
  -- with the same serials.
  bubble_until_sorted-sorts :
      (n : ℕ) (x : MpString) (ys : List MpString)
      → inversions pools (x ∷ ys) < n
      → IsListed pools x
      → All (IsListed pools) ys
      → (zs : List MpString) × (bubble_until_sorted n pools x ys ≡ done zs)
        × IsSortedBy pools zs
        × All (IsListed pools) zs
        × ((k : MpString) → count k zs ≡ count k (x ∷ ys))
  unfolding bubble_until_sorted
  bubble_until_sorted-sorts zero x ys h hx hs = absurd (omega arith)
  bubble_until_sorted-sorts (suc n) x ys h hx hs =
      let run = bubble-sift pools x ys hx hs in
      elim (Bool-cases (sift pools x ys).1) [
        | inl f ↦ elim (List-cases (sift pools x ys).0) [
          | inl e ↦ absurd (omega (arith, ap length e, length-sift pools x ys))
          | inr (z, zs, e) ↦
              let less = inversions-sift pools x ys f in
              let (hz, hzs) = subst (All (IsListed pools)) e (All-sift pools x ys hx hs) in
              let small = subst (λ l. inversions pools l < n) e (omega (arith, less)) in
              let (out, ends, sorted, listed, counts) =
                bubble_until_sorted-sorts n z zs small hz hzs in
              (
                out,
                again n x ys z zs e f run ∙ ends,
                sorted,
                listed,
                λ k. counts k ∙ ap (count k) (sym e) ∙ count-sift pools k x ys,
              )
        ]
        | inr f ↦
            let (same, sorted) = sift-still pools x ys f in
            (x ∷ ys, ground (arith, run, f, same), sorted, (hx, hs), λ k. refl)
      ]

  lighter-le : (x : MpString) (ys : List MpString) → lighter pools x ys ≤ length ys
  unfolding lighter
  lighter-le x [] = omega arith
  lighter-le x (y ∷ ys) = ground (arith, lighter-le x ys)

  inversions-le : (xs : List MpString) → inversions pools xs ≤ length xs * length xs
  unfolding inversions
  inversions-le [] = omega arith
  inversions-le (x ∷ xs) = omega (
    arith,
    lighter-le x xs,
    inversions-le xs,
    mul-suc (suc (length xs)) (length xs),
    suc-mul (length xs) (length xs),
  )

sort_messages-of :
    (e : MpAutoResendEngine) (x : MpString) (xs out : List MpString)
    → e.priority ≡ x ∷ xs
    → bubble_until_sorted (suc (length e.priority * length e.priority)) e.user_pool x xs ≡ done out
    → sort_messages e ≡ done (record e { priority = out })
unfolding sort_messages
sort_messages-of e x xs out there ends = ground arith

-- If every serial of the priority list has a pool, the sort returns: it changes the priority list
-- alone, whose weights then go up, and which holds each serial as often as before.
pub sort_messages-sorts :
    (e : MpAutoResendEngine)
    → All (IsListed e.user_pool) e.priority
    → (xs : List MpString) × (sort_messages e ≡ done (record e { priority = xs }))
      × IsSortedBy e.user_pool xs
      × All (IsListed e.user_pool) xs
      × ((k : MpString) → count k xs ≡ count k e.priority)
unfolding sort_messages
sort_messages-sorts e h = elim (List-cases e.priority) [
  | inl none_left ↦ (e.priority, ground (arith, none_left), ground (arith, none_left), h, λ k. refl)
  | inr (x, xs, there) ↦
      let (hx, hxs) = subst (All (IsListed e.user_pool)) there h in
      let few =
        subst (λ l. inversions e.user_pool l < suc (length e.priority * length e.priority)) there
          (omega (arith, inversions-le e.user_pool e.priority)) in
      let (out, ends, sorted, listed, counts) =
        bubble_until_sorted-sorts e.user_pool (suc (length e.priority * length e.priority)) x xs few
          hx hxs in
      (
        out,
        sort_messages-of e x xs out there ends,
        sorted,
        listed,
        λ k. counts k ∙ ap (count k) (sym there),
      )
]
