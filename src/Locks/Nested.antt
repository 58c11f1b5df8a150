-- ===== src/Locks/Nested.antt =====
-- A callback of a pool that adds a callback to the pool, or removes one, while the pool is in use
-- (utils/include/MpPool.h).
use end_to_end_smkex.Base.{ℕ, ◌≡◌, refl, ◌∙◌, List, arith}
use end_to_end_smkex.Locks.Threads.{put}
use end_to_end_smkex.Locks.PoolUse.{
  Change, nested, Shared, Move, use_pool, call_next, call_back, end_use_pool, ask, modify_pool,
  modify_nested, change, end_modify_pool, Reach, here, later, resting, resting-IsGuarded, IsGuarded,
  Reach-IsGuarded,
}

module _ (i : ℕ) (c : Change) (called waiting : List ℕ) where
  abbrev IsNested : Shared → Type 0
  IsNested s = s.place i ≡ nested c called waiting

  Move-IsNested :
      (s t : Shared) → IsGuarded s → IsNested s → Move s t → IsNested t × (t.pool ≡ s.pool)
  unfolding put
  Move-IsNested s _ h n (use_pool j e free) = ground (arith, e, n)
  Move-IsNested s _ h n (call_next j cb x y e) = ground (arith, e, n)
  Move-IsNested s _ h n (call_back j cb d x y e) = ground (arith, e, n)
  Move-IsNested s _ h n (end_use_pool j x e) = ground (arith, e, n)
  Move-IsNested s _ h n (ask j d e) = ground (arith, e, n)
  Move-IsNested s _ h n (modify_pool j d e free) = ground (arith, e, n)
  Move-IsNested s _ h n (modify_nested j d x y e free) = ground (arith, e, free j)
  Move-IsNested s _ h n (change j d e) = ground (arith, e, n, h.alone j i)
  Move-IsNested s _ h n (end_modify_pool j e) = ground (arith, e, n)

  Reach-IsNested :
      (s t : Shared) → IsGuarded s → IsNested s → Reach s t → IsNested t × (t.pool ≡ s.pool)
  Reach-IsNested s _ h n here = (n, refl)
  Reach-IsNested s _ h n (later {t} r m) =
      let before = Reach-IsNested s t h n r in
      let after = Move-IsNested t _ (Reach-IsGuarded s t h r) before.0 m in
      (after.0, after.1 ∙ before.1)

-- A thread of which a callback adds a callback to the pool that the thread uses, or removes one, waits
-- for ever, and the pool changes no more, whatever the threads did before, since no thread used or
-- changed the pool, and whatever they do next.
pub modify_nested-waits :
    (pool : List ℕ) (s : Shared)
    → Reach (resting pool) s
    → (i : ℕ) (c : Change) (called waiting : List ℕ) → s.place i ≡ nested c called waiting
    → (t : Shared) → Reach s t
    → (t.place i ≡ nested c called waiting) × (t.pool ≡ s.pool)
modify_nested-waits pool s r i c called waiting n t =
    Reach-IsNested i c called waiting s t (Reach-IsGuarded _ _ (resting-IsGuarded pool) r) n
