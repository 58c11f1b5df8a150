-- ===== src/Locks/PoolUse.antt =====
-- `MpPool` (utils/include/MpPool.h) between threads, under `MpRWLock` (utils/src/MpRWLock.cpp): threads that
-- call every callback of the pool, and threads that add or remove one.
use end_to_end_smkex.Base.{
  ℕ, ◌≡◌, refl, sym, ap, ◌∙◌, Bool, true, false, ◌||◌, List, [], ◌∷◌, ◌++◌, some, append_assoc,
  arith,
}
use end_to_end_smkex.Utils.Callbacks.{add_pool_data, rm_pool_data}
use end_to_end_smkex.Locks.Threads.{put}

-- A call of `addPoolData` or `rmPoolData`.
pub data Change : Type 0 where
  joins leaves : ℕ → Change

unfoldable pub apply : Change → List ℕ → List ℕ
apply (joins cb) pool = add_pool_data (some cb) pool
apply (leaves cb) pool = rm_pool_data (some cb) pool

-- Where a thread stands. A user, from `usePool` to `endUsePool`, has called the callbacks of `called` and has those of `waiting` to
-- call; in `nested` a callback that it calls waits for the lock in `modifyPool`.
pub data Place : Type 0 where
  idle : Place
  using : (called waiting : List ℕ) → Place
  nested : Change → (called waiting : List ℕ) → Place
  asking changing : Change → Place
  changed : Place

-- It holds the read side.
abbrev pub reads : Place → Bool
reads (using called waiting) = true
reads (nested c called waiting) = true
reads _ = false

-- It holds the write side.
abbrev pub writes : Place → Bool
writes (changing c) = true
writes changed = true
writes _ = false

-- `pool_`, and where each thread stands.
pub record Shared : Type 0 where
  pub pool : List ℕ
  pub place : ℕ → Place

-- `rLock` waits while a thread holds the write side, `wLock` while one holds either.
abbrev pub CanRead : Shared → Type 0
CanRead s = (j : ℕ) → writes (s.place j) ≡ false

abbrev pub CanWrite : Shared → Type 0
CanWrite s = (j : ℕ) → (reads (s.place j) || writes (s.place j)) ≡ false

abbrev pub go : ℕ → Place → Shared → Shared
go i p s = record s { place = put s.place i p }

-- One step of one thread.
pub data Move (s : Shared) : Shared → Type 0 where
  use_pool : (i : ℕ) → s.place i ≡ idle → CanRead s → Move s (go i (using [] s.pool) s)
  call_next :
      (i cb : ℕ) (called waiting : List ℕ)
      → s.place i ≡ using called (cb ∷ waiting)
      → Move s (go i (using (called ++ cb ∷ []) waiting) s)
  call_back :
      (i cb : ℕ) (c : Change) (called waiting : List ℕ)
      → s.place i ≡ using called (cb ∷ waiting)
      → Move s (go i (nested c called (cb ∷ waiting)) s)
  end_use_pool : (i : ℕ) (called : List ℕ) → s.place i ≡ using called [] → Move s (go i idle s)
  ask : (i : ℕ) (c : Change) → s.place i ≡ idle → Move s (go i (asking c) s)
  modify_pool :
      (i : ℕ) (c : Change) → s.place i ≡ asking c → CanWrite s → Move s (go i (changing c) s)
  modify_nested :
      (i : ℕ) (c : Change) (called waiting : List ℕ)
      → s.place i ≡ nested c called waiting
      → CanWrite s
      → Move s (go i (changing c) s)
  change :
      (i : ℕ) (c : Change)
      → s.place i ≡ changing c
      → Move s (record { pool = apply c s.pool; place = put s.place i changed })
  end_modify_pool : (i : ℕ) → s.place i ≡ changed → Move s (go i idle s)

-- Any number of steps.
pub data Reach (s : Shared) : Shared → Type 0 where
  here : Reach s s
  later : {t u : Shared} → Reach s t → Move t u → Reach s u

-- Every thread is idle.
abbrev pub resting : List ℕ → Shared
resting pool = record { pool = pool; place = λ i. idle }

-- What a user has called and has to call_next is the pool.
unfoldable pub seen : Place → List ℕ → List ℕ
seen (using called waiting) pool = called ++ waiting
seen (nested c called waiting) pool = called ++ waiting
seen _ pool = pool

pub record IsGuarded (s : Shared) : Type 0 where
  -- one who writes is alone
  pub alone :
      (i j : ℕ)
      → writes (s.place i) ≡ true
      → (reads (s.place j) || writes (s.place j)) ≡ true
      → i ≡ j
  pub sees : (i : ℕ) → seen (s.place i) s.pool ≡ s.pool

seen-quiet : (p : Place) → reads p ≡ false → (pool : List ℕ) → seen p pool ≡ pool
unfolding seen
seen-quiet idle e pool = refl
seen-quiet (using called waiting) e pool = cc
seen-quiet (nested c called waiting) e pool = cc
seen-quiet (asking c) e pool = refl
seen-quiet (changing c) e pool = refl
seen-quiet changed e pool = refl

pub resting-IsGuarded : (pool : List ℕ) → IsGuarded (resting pool)
unfolding seen
resting-IsGuarded pool = record { alone = λ i j w h. cc; sees = λ i. refl }

pub Move-IsGuarded : (s t : Shared) → IsGuarded s → Move s t → IsGuarded t
unfolding put seen
Move-IsGuarded s _ h (use_pool i e free) = record {
  alone = λ k l w r. ground (arith, e, free k, free l, h.alone k l, w, r);
  sees = λ k. ground (arith, h.sees k);
}
Move-IsGuarded s _ h (call_next i cb called waiting e) = record {
  alone = λ k l w r. ground (arith, e, h.alone k l, h.alone k i, w, r);
  sees = λ k. ground (arith, h.sees k, e, append_assoc called (cb ∷ []) waiting);
}
Move-IsGuarded s _ h (call_back i cb c called waiting e) = record {
  alone = λ k l w r. ground (arith, e, h.alone k l, h.alone k i, w, r);
  sees = λ k. ground (arith, h.sees k, e);
}
Move-IsGuarded s _ h (end_use_pool i called e) = record {
  alone = λ k l w r. ground (arith, e, h.alone k l, w, r);
  sees = λ k. ground (arith, h.sees k);
}
Move-IsGuarded s _ h (ask i c e) = record {
  alone = λ k l w r. ground (arith, e, h.alone k l, w, r);
  sees = λ k. ground (arith, h.sees k);
}
Move-IsGuarded s _ h (modify_pool i c e free) = record {
  alone = λ k l w r. ground (arith, e, free k, free l, w, r);
  sees = λ k. ground (arith, h.sees k);
}
Move-IsGuarded s _ h (modify_nested i c called waiting e free) = record {
  alone = λ k l w r. ground (arith, e, free k, free l, w, r);
  sees = λ k. ground (arith, h.sees k);
}
Move-IsGuarded s _ h (change i c e) = record {
  alone = λ k l w r. ground (arith, e, h.alone k l, h.alone i l, h.alone k i, w, r);
  sees = λ k. ground (arith, e, h.alone i k, seen-quiet (s.place k));
}
Move-IsGuarded s _ h (end_modify_pool i e) = record {
  alone = λ k l w r. ground (arith, e, h.alone k l, w, r);
  sees = λ k. ground (arith, h.sees k);
}

pub Reach-IsGuarded : (s t : Shared) → IsGuarded s → Reach s t → IsGuarded t
Reach-IsGuarded s _ h here = h
Reach-IsGuarded s _ h (later r m) = Move-IsGuarded _ _ (Reach-IsGuarded s _ h r) m

-- While a thread uses the pool, the callbacks that it has called, and then those that it has still to
-- call_next, are the callbacks of the pool, each once and in order, whatever the threads did since no
-- thread used or changed the pool.
pub use_pool-called :
    (pool : List ℕ) (s : Shared)
    → Reach (resting pool) s
    → (i : ℕ) (called waiting : List ℕ) → s.place i ≡ using called waiting
    → called ++ waiting ≡ s.pool
unfolding seen
use_pool-called pool s r i called waiting e =
    sym (ap (λ p. seen p s.pool) e) ∙ (Reach-IsGuarded _ _ (resting-IsGuarded pool) r).sees i
