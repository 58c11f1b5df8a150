-- ===== src/Base/Lists.antt =====
-- Lists measured and indexed by native numbers, under the library's names.
use Prim.Native.Nat.{ℕ, zero, suc, ◌+◌, ◌-◌, ◌≤◌, ◌<◌}
use mathlib.Core.Path.{◌≡◌, refl, ap}
use mathlib.Core.List.{List, [], ◌∷◌, ◌++◌}
use mathlib.Core.Option.{Option, none, some}
use native.Mathlib.Omega.{arith}

module _ {ℓ} {A : Type ℓ} where
  abbrev pub length : List A → ℕ
  length [] = 0
  length (x ∷ xs) = suc (length xs)

  abbrev pub get_elem? : List A → ℕ → Option A
  get_elem? [] i = none
  get_elem? (x ∷ xs) zero = some x
  get_elem? (x ∷ xs) (suc i) = get_elem? xs i

  abbrev pub drop : ℕ → List A → List A
  drop zero xs = xs
  drop (suc n) [] = []
  drop (suc n) (x ∷ xs) = drop n xs

  abbrev pub replicate : ℕ → A → List A
  replicate zero a = []
  replicate (suc n) a = a ∷ replicate n a

  pub length-append : (xs ys : List A) → length (xs ++ ys) ≡ length xs + length ys
  length-append [] ys = omega arith
  length-append (x ∷ xs) ys = omega (arith, length-append xs ys)

  pub drop-append : (xs ys : List A) → drop (length xs) (xs ++ ys) ≡ ys
  drop-append [] ys = refl
  drop-append (x ∷ xs) ys = drop-append xs ys

  pub length-drop : (n : ℕ) (xs : List A) → length (drop n xs) ≡ length xs - n
  length-drop zero xs = omega arith
  length-drop (suc n) [] = omega arith
  length-drop (suc n) (x ∷ xs) = omega (arith, length-drop n xs)

  -- The first `n` entries, or `none` if there are not so many.
  abbrev pub prefix? : ℕ → List A → Option (List A)
  prefix? zero xs = some []
  prefix? (suc n) [] = none
  prefix? (suc n) (x ∷ xs) = elim (prefix? n xs) [ none ↦ none | some ys ↦ some (x ∷ ys) ]

  pub prefix?-append : (xs ys : List A) → prefix? (length xs) (xs ++ ys) ≡ some xs
  prefix?-append [] ys = refl
  prefix?-append (x ∷ xs) ys = ground (arith, prefix?-append xs ys)

  pub prefix?-all : (xs : List A) → prefix? (length xs) xs ≡ some xs
  prefix?-all [] = refl
  prefix?-all (x ∷ xs) = ground (arith, prefix?-all xs)

  pub prefix?-fits :
      (n : ℕ) (xs : List A)
      → n ≤ length xs
      → (ys : List A) × (prefix? n xs ≡ some ys) × (length ys ≡ n)
  prefix?-fits zero xs h = ([], refl, refl)
  prefix?-fits (suc n) [] h = absurd (omega arith)
  prefix?-fits (suc n) (x ∷ xs) h =
      let (ys, e, f) = prefix?-fits n xs (omega arith) in (x ∷ ys, rw e, ap suc f)

  pub prefix?-short : (n : ℕ) (xs : List A) → length xs < n → prefix? n xs ≡ none
  prefix?-short zero xs h = absurd (omega arith)
  prefix?-short (suc n) [] h = refl
  prefix?-short (suc n) (x ∷ xs) h = rw (prefix?-short n xs (omega arith))

pub length-prefix? {ℓ} :
    {A : Type ℓ} (n : ℕ) (xs ys : List A) → prefix? n xs ≡ some ys → length ys ≡ n
length-prefix? zero xs ys e = ground arith
length-prefix? (suc n) [] ys e = cc
length-prefix? (suc n) (x ∷ xs) ys e = grind (arith, length-prefix? n xs)

-- Every entry satisfies `P`.
abbrev pub All {ℓ κ} : {A : Type ℓ} → (A → Type κ) → List A → Type κ
All P [] = Unit
All P (x ∷ xs) = P x × All P xs

pub All-append {ℓ κ} :
    {A : Type ℓ} (P : A → Type κ) (xs ys : List A) → All P xs → All P ys → All P (xs ++ ys)
All-append P [] ys hx hy = hy
All-append P (x ∷ xs) ys hx hy = (hx.0, All-append P xs ys hx.1 hy)
