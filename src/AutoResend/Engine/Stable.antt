-- ===== src/AutoResend/Engine/Stable.antt =====
-- The sort of auto_resend/src/MpAutoResendEngine.cpp against insertion sort.
use end_to_end_smkex.Base.{
  ℕ, zero, suc, ◌*◌, ◌≡◌, refl, sym, ap, subst, ◌∙◌, true, List, [], ◌∷◌, length, All,
  if◌then◌else◌, ltb, MpString, Map, done, arith, Bool-cases, List-cases, inl, inr,
}
use end_to_end_smkex.AutoResend.Pool.{MpMsgPool}
use end_to_end_smkex.AutoResend.Engine.{MpAutoResendEngine, bubble_until_sorted, sort_messages}
use end_to_end_smkex.AutoResend.Engine.Sift.{
  weight_of, IsListed, IsSortedBy, sift, bubble-sift, All-sift, length-sift,
}
use end_to_end_smkex.AutoResend.Engine.Sort.{again, sort_messages-sorts}

module _ (pools : Map MpMsgPool) where
  -- A serial goes in front of the first one that is not lighter.
  unfoldable pub insert_by_weight : MpString → List MpString → List MpString
  insert_by_weight x [] = x ∷ []
  insert_by_weight x (y ∷ ys) =
      let rest = insert_by_weight x ys in
      if ltb (weight_of pools y) (weight_of pools x) then y ∷ rest else x ∷ y ∷ ys

  unfoldable pub insertion_sort : List MpString → List MpString
  insertion_sort [] = []
  insertion_sort (x ∷ xs) = insert_by_weight x (insertion_sort xs)

  insert_by_weight_comm :
      (x y : MpString) (zs : List MpString)
      → ltb (weight_of pools y) (weight_of pools x) ≡ true
      → insert_by_weight y (insert_by_weight x zs) ≡ insert_by_weight x (insert_by_weight y zs)
  unfolding insert_by_weight
  insert_by_weight_comm x y [] h = ground (arith, h)
  insert_by_weight_comm x y (z ∷ zs) h = ground (arith, h, insert_by_weight_comm x y zs h)

  insertion_sort-sift :
      (x : MpString) (ys : List MpString)
      → insertion_sort (sift pools x ys).0 ≡ insertion_sort (x ∷ ys)
  unfolding sift insertion_sort
  insertion_sort-sift x [] = refl
  insertion_sort-sift x (y ∷ ys) = elim (Bool-cases (ltb (weight_of pools y) (weight_of pools x))) [
    | inl b ↦ rw (b, insertion_sort-sift x ys) (insert_by_weight_comm x y (insertion_sort ys) b)
    | inr b ↦ rw b (ap (insert_by_weight x) (insertion_sort-sift y ys))
  ]

  insertion_sort_of_sorted : (xs : List MpString) → IsSortedBy pools xs → insertion_sort xs ≡ xs
  unfolding insertion_sort insert_by_weight
  insertion_sort_of_sorted [] h = refl
  insertion_sort_of_sorted (x ∷ []) h = refl
  insertion_sort_of_sorted (x ∷ y ∷ ys) h =
      rw (insertion_sort_of_sorted (y ∷ ys) h.1) (ground (arith, h.0))

  bubble_until_sorted-insertion_sort :
      (n : ℕ) (x : MpString) (ys zs : List MpString)
      → IsListed pools x
      → All (IsListed pools) ys
      → bubble_until_sorted n pools x ys ≡ done zs
      → insertion_sort zs ≡ insertion_sort (x ∷ ys)
  unfolding bubble_until_sorted
  bubble_until_sorted-insertion_sort zero x ys zs hx hs e = cc
  bubble_until_sorted-insertion_sort (suc n) x ys zs hx hs e =
      let run = bubble-sift pools x ys hx hs in
      elim (Bool-cases (sift pools x ys).1) [
        | inl f ↦ elim (List-cases (sift pools x ys).0) [
          | inl g ↦ absurd (omega (arith, ap length g, length-sift pools x ys))
          | inr (w, ws, g) ↦
              let (hw, hws) = subst (All (IsListed pools)) g (All-sift pools x ys hx hs) in
              let rest =
                bubble_until_sorted-insertion_sort n w ws zs hw hws
                  (sym (again pools n x ys w ws g f run) ∙ e) in
              rest ∙ ap insertion_sort (sym g) ∙ insertion_sort-sift x ys
        ]
        | inr f ↦
            let ends : (sift pools x ys).0 ≡ zs = ground (arith, e, run, f) in
            ap insertion_sort (sym ends) ∙ insertion_sort-sift x ys
      ]

sort_messages-bubbles :
    (e : MpAutoResendEngine) (x : MpString) (xs out : List MpString)
    → e.priority ≡ x ∷ xs
    → sort_messages e ≡ done (record e { priority = out })
    → bubble_until_sorted (suc (length e.priority * length e.priority)) e.user_pool x xs ≡ done out
unfolding sort_messages
sort_messages-bubbles e x xs out there ends = grind arith

sort_messages_of_nothing :
    (e : MpAutoResendEngine) (out : List MpString)
    → e.priority ≡ []
    → sort_messages e ≡ done (record e { priority = out })
    → out ≡ insertion_sort e.user_pool e.priority
unfolding sort_messages insertion_sort
sort_messages_of_nothing e out nothing ends = ground arith

-- If every serial of the priority list has a pool, the sort leaves the list as insertion sort by
-- weight does, which puts a serial in front of the first that is not lighter.
pub sort_messages-insertion_sort :
    (e : MpAutoResendEngine)
    → All (IsListed e.user_pool) e.priority
    → sort_messages e ≡ done (record e { priority = insertion_sort e.user_pool e.priority })
sort_messages-insertion_sort e h =
    let (out, ends, sorted, _, _) = sort_messages-sorts e h in
    let same : out ≡ insertion_sort e.user_pool e.priority = elim (List-cases e.priority) [
      | inl nothing ↦ sort_messages_of_nothing e out nothing ends
      | inr (x, xs, there) ↦
          let (hx, hxs) = subst (All (IsListed e.user_pool)) there h in
          sym (insertion_sort_of_sorted e.user_pool out sorted)
          ∙ bubble_until_sorted-insertion_sort e.user_pool _ x xs out hx hxs
              (sort_messages-bubbles e x xs out there ends)
          ∙ ap (insertion_sort e.user_pool) (sym there)
    ] in
    ends ∙ ap (λ l. done (record e { priority = l })) same
