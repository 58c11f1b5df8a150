-- ===== src/Locks/Threads.antt =====
-- `MpLock` (utils/src/MpLock.cpp, a recursive mutex) and the write side of `MpRWLock`
-- (utils/src/MpRWLock.cpp) between threads, one step of one thread at a time.
use end_to_end_smkex.Base.{
  ℕ, ◌≡◌, Bool, true, false, ◌&&◌, ◌||◌, List, [], ◌∷◌, Option, none, some, if◌then◌else◌, ◌==◌,
  ltb,
}

-- `lock` or `wLock`, and `unlock` or `wUnlock`, of the lock with the number.
pub data Action : Type 0 where
  acquire release : ℕ → Action

-- `owner` is the thread that holds a lock. A thread holds the locks of `held`, one entry for each time
-- that it took the lock, and has the actions of `todo` to do.
pub record Threads : Type 0 where
  pub owner : ℕ → Option ℕ
  pub held : ℕ → List ℕ
  pub todo : ℕ → List Action

unfoldable pub put : {A : Type 0} → (ℕ → A) → ℕ → A → ℕ → A
put f i x j = if i == j then x else f j

unfoldable pub has : ℕ → List ℕ → Bool
has l [] = false
has l (k ∷ ks) = let rest = has l ks in if k == l then true else rest

unfoldable pub drop_one : ℕ → List ℕ → List ℕ
drop_one l [] = []
drop_one l (k ∷ ks) = let rest = drop_one l ks in if k == l then ks else k ∷ rest

-- The owners once a lock has been given back: `still` is whether its owner holds it still.
unfoldable pub given_back : ℕ → (still : Bool) → (ℕ → Option ℕ) → ℕ → Option ℕ
given_back l still owner k = if still then owner k else if l == k then none else owner k

-- The thread `i` has done its first action.
abbrev pub moved : ℕ → List ℕ → List Action → (ℕ → Option ℕ) → Threads → Threads
moved i held todo owner s = record {
  owner = owner;
  held = put s.held i held;
  todo = put s.todo i todo;
}

-- `recursive` tells the recursive locks. A lock that is held is free again when its owner has given it
-- back as often as it took it.
pub data Step (recursive : ℕ → Bool) (s : Threads) : Threads → Type 0 where
  take :
      (i l : ℕ) (later : List Action)
      → s.todo i ≡ acquire l ∷ later
      → s.owner l ≡ none
      → Step recursive s (moved i (l ∷ s.held i) later (put s.owner l (some i)) s)
  retake :
      (i l : ℕ) (later : List Action)
      → s.todo i ≡ acquire l ∷ later
      → s.owner l ≡ some i
      → recursive l ≡ true
      → Step recursive s (moved i (l ∷ s.held i) later s.owner s)
  give :
      (i l : ℕ) (later : List Action)
      → s.todo i ≡ release l ∷ later
      → Step recursive s (
          moved i
            (drop_one l (s.held i))
            later
            (given_back l (has l (drop_one l (s.held i))) s.owner)
            s)

pub data Run (recursive : ℕ → Bool) (s : Threads) : Threads → Type 0 where
  stay : Run recursive s s
  step : {t u : Threads} → Run recursive s t → Step recursive t u → Run recursive s u

-- The actions give back only locks that are held then, and in the end all of them.
unfoldable pub lawful : List ℕ → List Action → Bool
lawful held [] = elim held [ [] ↦ true | l ∷ ls ↦ false ]
lawful held (acquire l ∷ later) = lawful (l ∷ held) later
lawful held (release l ∷ later) = let rest = lawful (drop_one l held) later in has l held && rest

-- Every lock of the list has a rank below the bound.
unfoldable pub all_below : (ℕ → ℕ) → (bound : ℕ) → List ℕ → Bool
all_below rank bound [] = true
all_below rank bound (k ∷ ks) = let rest = all_below rank bound ks in ltb (rank k) bound && rest

-- A lock is taken only if its rank is above those of the locks held, or as a recursive lock again.
unfoldable pub ordered : (ℕ → Bool) → (ℕ → ℕ) → List ℕ → List Action → Bool
ordered recursive rank held [] = true
ordered recursive rank held (acquire l ∷ later) =
    let rest = ordered recursive rank (l ∷ held) later in
    ((recursive l && has l held) || all_below rank (rank l) held) && rest
ordered recursive rank held (release l ∷ later) = ordered recursive rank (drop_one l held) later

-- The owners are those who hold the locks, and the threads are lawful.
pub record IsLawful (s : Threads) : Type 0 where
  pub owned : (l i : ℕ) → s.owner l ≡ some i → has l (s.held i) ≡ true
  pub own : (l i : ℕ) → has l (s.held i) ≡ true → s.owner l ≡ some i
  pub lawfully : (i : ℕ) → lawful (s.held i) (s.todo i) ≡ true
