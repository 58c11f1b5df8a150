-- ===== src/Base/Maps.antt =====
-- `std::map<MpString, V>`: an association list in the order of its keys.
use mathlib.Core.Path.{◌≡◌, refl}
use mathlib.Core.Option.{Option, none, some}
use mathlib.Core.List.{List, [], ◌∷◌}
use native.Mathlib.Omega.{arith}
use end_to_end_smkex.Base.Tests.{if◌then◌else◌}
use end_to_end_smkex.Base.Text.{MpString, str_eq, str_lt, str_eq_iff}

abbrev pub Map {ℓ} : Type ℓ → Type ℓ
Map V = List (MpString × V)

module _ {ℓ} {V : Type ℓ} where
  -- `find`; `none` is `end()`.
  unfoldable pub find : MpString → Map V → Option V
  find k [] = none
  find k ((j, v) ∷ m) = if str_eq j k then some v else find k m

  -- A new entry, before the first greater key.
  unfoldable pub insert_new : MpString → V → Map V → Map V
  insert_new k v [] = (k, v) ∷ []
  insert_new k v ((j, w) ∷ m) =
      let rest = insert_new k v m in if str_lt k j then (k, v) ∷ (j, w) ∷ m else (j, w) ∷ rest

  -- `insert(std::pair(k, v))` leaves the map alone if the key is there.
  unfoldable pub insert : MpString → V → Map V → Map V
  unfolding find insert_new
  insert k v m = elim (find k m) [ none ↦ insert_new k v m | some w ↦ m ]

  -- A change of the entry that `find` returned, through its iterator.
  unfoldable pub update : MpString → V → Map V → Map V
  update k v [] = []
  update k v ((j, w) ∷ m) =
      let rest = update k v m in if str_eq j k then (j, v) ∷ m else (j, w) ∷ rest

  -- `erase` of the entry with the key.
  unfoldable pub erase : MpString → Map V → Map V
  erase k [] = []
  erase k ((j, w) ∷ m) = let rest = erase k m in if str_eq j k then rest else (j, w) ∷ rest

  find-insert_new :
      (k j : MpString) (v : V) (m : Map V)
      → find k m ≡ none
      → find j (insert_new k v m) ≡ (if str_eq k j then some v else find j m)
  unfolding find insert_new
  find-insert_new k j v [] h = refl
  find-insert_new k j v ((i, w) ∷ m) h =
      ground (arith, str_eq_iff i k, str_eq_iff i j, str_eq_iff k j, find-insert_new k j v m)

  pub find-insert :
      (k j : MpString) (v : V) (m : Map V)
      → find k m ≡ none
      → find j (insert k v m) ≡ (if str_eq k j then some v else find j m)
  unfolding insert
  find-insert k j v m h = ground (arith, find-insert_new k j v m h)

  pub insert-present : (k : MpString) (v w : V) (m : Map V) → find k m ≡ some w → insert k v m ≡ m
  unfolding insert
  insert-present k v w m h = ground arith

  pub find-update :
      (k j : MpString) (v w : V) (m : Map V)
      → find k m ≡ some w
      → find j (update k v m) ≡ (if str_eq k j then some v else find j m)
  unfolding find update
  find-update k j v w [] h = ground arith
  find-update k j v w ((i, u) ∷ m) h =
      ground (arith, str_eq_iff i k, str_eq_iff i j, str_eq_iff k j, find-update k j v w m)

  pub find-erase :
      (k j : MpString) (m : Map V) → find j (erase k m) ≡ (if str_eq k j then none else find j m)
  unfolding find erase
  find-erase k j [] = ground arith
  find-erase k j ((i, u) ∷ m) =
      ground (arith, str_eq_iff i k, str_eq_iff i j, str_eq_iff k j, find-erase k j m)
