-- ===== src/Base/Bytes.antt =====
-- Integers in memory, on a little-endian host, and reads through a pointer into a block.
use Prim.Native.Nat.{ℕ, zero, suc, ◌+◌, ◌*◌, ◌/◌, ◌%◌, ◌^◌, ◌<◌}
use mathlib.Core.Path.{◌≡◌, refl, ap}
use mathlib.Core.List.{List, [], ◌∷◌, ◌++◌, append_assoc}
use mathlib.Core.Option.{Option, none, some}
use Prim.Native.Nat.add
use native.Mathlib.Nat.{pow-suc}
use native.Mathlib.Omega.{arith}
use end_to_end_smkex.Base.Tests.{◌==◌, if◌then◌else◌}
use end_to_end_smkex.Base.Lists.{length, drop, drop-append, prefix?, prefix?-append}
use end_to_end_smkex.Base.Exits.{Outcome, done, or_fault}

-- The `n` bytes of the number `v`, the lowest first.
unfoldable pub le_bytes : ℕ → ℕ → List ℕ
le_bytes zero v = []
le_bytes (suc n) v = (v % 256) ∷ le_bytes n (v / 256)

unfoldable pub le_value : List ℕ → ℕ
le_value [] = 0
le_value (b ∷ bs) = b + 256 * le_value bs

pub length-le_bytes : (n v : ℕ) → length (le_bytes n v) ≡ n
unfolding le_bytes
length-le_bytes zero v = refl
length-le_bytes (suc n) v = ap suc (length-le_bytes n (v / 256))

pub le_value-le_bytes : (n v : ℕ) → v < 256 ^ n → le_value (le_bytes n v) ≡ v
unfolding le_bytes le_value
le_value-le_bytes zero v h = omega arith
le_value-le_bytes (suc n) v h =
    omega (arith, pow-suc 256 n, le_value-le_bytes n (v / 256) (omega (arith, pow-suc 256 n)))

-- The bytes of a C string, up to its first NUL; `none` if the block has no NUL.
unfoldable pub c_str : List ℕ → Option (List ℕ)
c_str [] = none
c_str (b ∷ bs) =
    let rest = c_str bs in
    if b == 0 then some [] else elim rest [ none ↦ none | some s ↦ some (b ∷ s) ]

-- `n` bytes at offset `i` of a block.
unfoldable pub peek : List ℕ → ℕ → ℕ → Outcome (List ℕ)
peek block i n = or_fault (prefix? n (drop i block))

-- A read finds the bytes that stand there.
pub peek-append :
    (xs ys zs : List ℕ) (i n : ℕ)
    → length xs ≡ i
    → length ys ≡ n
    → peek (xs ++ ys ++ zs) i n ≡ done ys
unfolding peek
peek-append xs ys zs i n e f = rw (← e, ← f, append_assoc, drop-append, prefix?-append) refl

drop-skip {ℓ} :
    {A : Type ℓ} (xs ys : List A) (i j : ℕ) → i ≡ length xs + j → drop i (xs ++ ys) ≡ drop j ys
drop-skip [] ys i j e = rw (e, add.zero)
drop-skip (x ∷ xs) ys zero j e = absurd (omega arith)
drop-skip (x ∷ xs) ys (suc i) j e = drop-skip xs ys i j (omega arith)

-- A read behind the block's first part is a read of the rest.
pub peek-skip : (xs ys : List ℕ) (i j n : ℕ) → i ≡ length xs + j → peek (xs ++ ys) i n ≡ peek ys j n
unfolding peek
peek-skip xs ys i j n e = rw (drop-skip xs ys i j e)

pub peek-here : (xs ys : List ℕ) (n : ℕ) → length xs ≡ n → peek (xs ++ ys) 0 n ≡ done xs
unfolding peek
peek-here xs ys n e = rw (← e, prefix?-append)
