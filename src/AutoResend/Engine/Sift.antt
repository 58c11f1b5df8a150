-- ===== src/AutoResend/Engine/Sift.antt =====
-- One run of the sort in auto_resend/src/MpAutoResendEngine.cpp.
use end_to_end_smkex.Base.{
  ℕ, suc, ◌+◌, ◌≤◌, ◌<◌, ◌≡◌, refl, Bool, true, false, List, [], ◌∷◌, none, some, length, All,
  if◌then◌else◌, ltb, MpString, str_eq, Map, find, done, arith, Bool-cases, inl, inr,
}
use end_to_end_smkex.AutoResend.Pool.{MpMsgPool}
use end_to_end_smkex.AutoResend.Engine.{weight_sort_cmp, bubble}

-- The weight of a serial's pool; 0 if there is none.
unfoldable pub weight_of : Map MpMsgPool → MpString → ℕ
weight_of pools k = elim (find k pools) [ none ↦ 0 | some p ↦ p.weight ]

-- The serial has a pool.
abbrev pub IsListed : Map MpMsgPool → MpString → Type 0
IsListed pools k = (p : MpMsgPool) × (find k pools ≡ some p)

-- The weights of the pools do not go down along the list.
abbrev pub IsSortedBy : Map MpMsgPool → List MpString → Type 0
IsSortedBy pools [] = Unit
IsSortedBy pools (x ∷ []) = Unit
IsSortedBy pools (x ∷ y ∷ ys) = (weight_of pools x ≤ weight_of pools y) × IsSortedBy pools (y ∷ ys)

-- How often a serial stands in a list.
unfoldable pub count : MpString → List MpString → ℕ
count k [] = 0
count k (x ∷ xs) = (if str_eq x k then 1 else 0) + count k xs

-- How many entries are lighter than `x`, and how many pairs are out of order.
unfoldable pub lighter : Map MpMsgPool → MpString → List MpString → ℕ
lighter pools x [] = 0
lighter pools x (y ∷ ys) =
    (if ltb (weight_of pools y) (weight_of pools x) then 1 else 0) + lighter pools x ys

unfoldable pub inversions : Map MpMsgPool → List MpString → ℕ
inversions pools [] = 0
inversions pools (x ∷ xs) = lighter pools x xs + inversions pools xs

weight_sort_cmp-listed :
    (pools : Map MpMsgPool) (x y : MpString)
    → IsListed pools x
    → IsListed pools y
    → weight_sort_cmp pools x y ≡ done (ltb (weight_of pools y) (weight_of pools x))
unfolding weight_sort_cmp weight_of
weight_sort_cmp-listed pools x y (p, e) (q, f) = ground (arith, e, f)

-- The inner loop on serials that have pools, as a function.
unfoldable pub sift : Map MpMsgPool → MpString → List MpString → List MpString × Bool
sift pools x [] = (x ∷ [], false)
sift pools x (y ∷ ys) =
    let greater = ltb (weight_of pools y) (weight_of pools x) in
    let r = sift pools (if greater then x else y) ys in
    ((if greater then y else x) ∷ r.0, if greater then true else r.1)

pub bubble-sift :
    (pools : Map MpMsgPool) (x : MpString) (ys : List MpString)
    → IsListed pools x
    → All (IsListed pools) ys
    → bubble pools x ys ≡ done (sift pools x ys)
unfolding bubble sift
bubble-sift pools x [] hx hs = refl
bubble-sift pools x (y ∷ ys) hx (hy, hs) =
    let cmp = weight_sort_cmp-listed pools x y hx hy in
    elim (Bool-cases (ltb (weight_of pools y) (weight_of pools x))) [
      | inl b ↦ rw (cmp, b, bubble-sift pools x ys hx hs)
      | inr b ↦ rw (cmp, b, bubble-sift pools y ys hy hs)
    ]

module _ (pools : Map MpMsgPool) where
  pub lighter-sift :
      (z x : MpString) (ys : List MpString)
      → lighter pools z (sift pools x ys).0 ≡ lighter pools z (x ∷ ys)
  unfolding sift lighter
  lighter-sift z x [] = refl
  lighter-sift z x (y ∷ ys) = elim (Bool-cases (ltb (weight_of pools y) (weight_of pools x))) [
    | inl b ↦ rw b (omega (arith, lighter-sift z x ys))
    | inr b ↦ rw b (omega (arith, lighter-sift z y ys))
  ]

  pub count-sift :
      (z x : MpString) (ys : List MpString) → count z (sift pools x ys).0 ≡ count z (x ∷ ys)
  unfolding sift count
  count-sift z x [] = refl
  count-sift z x (y ∷ ys) = elim (Bool-cases (ltb (weight_of pools y) (weight_of pools x))) [
    | inl b ↦ rw b (omega (arith, count-sift z x ys))
    | inr b ↦ rw b (omega (arith, count-sift z y ys))
  ]

  pub All-sift :
      (x : MpString) (ys : List MpString)
      → IsListed pools x
      → All (IsListed pools) ys
      → All (IsListed pools) (sift pools x ys).0
  unfolding sift
  All-sift x [] hx hs = (hx, tt)
  All-sift x (y ∷ ys) hx (hy, hs) =
      elim (Bool-cases (ltb (weight_of pools y) (weight_of pools x))) [
        | inl b ↦ rw b (hy, All-sift x ys hx hs)
        | inr b ↦ rw b (hx, All-sift y ys hy hs)
      ]

  pub length-sift :
      (x : MpString) (ys : List MpString) → length (sift pools x ys).0 ≡ suc (length ys)
  unfolding sift
  length-sift x [] = refl
  length-sift x (y ∷ ys) = elim (Bool-cases (ltb (weight_of pools y) (weight_of pools x))) [
    | inl b ↦ rw b (omega (arith, length-sift x ys))
    | inr b ↦ rw b (omega (arith, length-sift y ys))
  ]

  pub inversions-sift_le :
      (x : MpString) (ys : List MpString)
      → inversions pools (sift pools x ys).0 ≤ inversions pools (x ∷ ys)
  unfolding sift inversions lighter
  inversions-sift_le x [] = omega arith
  inversions-sift_le x (y ∷ ys) = elim (Bool-cases (ltb (weight_of pools y) (weight_of pools x))) [
    | inl b ↦
        let same = lighter-sift y x ys in
        let rest = inversions-sift_le x ys in rw b (ground (arith, b, same, rest))
    | inr b ↦
        let same = lighter-sift x y ys in
        let rest = inversions-sift_le y ys in rw b (ground (arith, b, same, rest))
  ]

  -- Each run that swaps removes an inversion.
  pub inversions-sift :
      (x : MpString) (ys : List MpString)
      → (sift pools x ys).1 ≡ true
      → inversions pools (sift pools x ys).0 < inversions pools (x ∷ ys)
  unfolding sift inversions lighter
  inversions-sift x [] s = cc
  inversions-sift x (y ∷ ys) s = elim (Bool-cases (ltb (weight_of pools y) (weight_of pools x))) [
    | inl b ↦
        let same = lighter-sift y x ys in
        let rest = inversions-sift_le x ys in rw b (ground (arith, b, same, rest))
    | inr b ↦
        let same = lighter-sift x y ys in
        let rest = inversions-sift y ys (ground (arith, b, s)) in
        rw b (ground (arith, b, same, rest))
  ]

  -- A run that swaps nothing has met a sorted list.
  pub sift-still :
      (x : MpString) (ys : List MpString)
      → (sift pools x ys).1 ≡ false
      → ((sift pools x ys).0 ≡ x ∷ ys) × IsSortedBy pools (x ∷ ys)
  unfolding sift
  sift-still x [] s = (refl, tt)
  sift-still x (y ∷ ys) s = elim (Bool-cases (ltb (weight_of pools y) (weight_of pools x))) [
    | inl b ↦ absurd (ground (arith, b, s))
    | inr b ↦
        let (same, sorted) = sift-still y ys (ground (arith, b, s)) in
        (rw (b, same), (ground (arith, b), sorted))
  ]
