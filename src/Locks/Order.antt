-- ===== src/Locks/Order.antt =====
-- Threads that take the locks in one order do not wait for each other in a circle (utils/src/MpLock.cpp,
-- utils/src/MpRWLock.cpp).
use end_to_end_smkex.Base.{
  ℕ, zero, suc, ◌+◌, ◌≤◌, ◌<◌, ◌≡◌, refl, sym, ap, subst, ◌∙◌, Bool, true, false, ◌&&◌, List, [],
  ◌∷◌, ◌==◌, arith, Bool-cases, Option-cases, List-cases, inl, inr, ◌⊎◌,
}
use end_to_end_smkex.Locks.Threads.{
  Action, acquire, release, Threads, put, given_back, has, drop_one, Step, take, retake, give, Run,
  stay, step, lawful, all_below, ordered, IsLawful,
}

has-drop_one : (l k : ℕ) (ks : List ℕ) → (l == k) ≡ false → has k (drop_one l ks) ≡ has k ks
unfolding has drop_one
has-drop_one l k [] other = refl
has-drop_one l k (x ∷ xs) other = ground (arith, has-drop_one l k xs other)

has-drop_one-le : (l k : ℕ) (ks : List ℕ) → has k (drop_one l ks) ≡ true → has k ks ≡ true
unfolding has drop_one
has-drop_one-le l k [] h = h
has-drop_one-le l k (x ∷ xs) h = ground (arith, has-drop_one-le l k xs)

pub release-held :
    (held : List ℕ) (l : ℕ) (later : List Action)
    → lawful held (release l ∷ later) ≡ true
    → has l held ≡ true
unfolding lawful
release-held held l later h = ground (arith, h)

-- A step keeps the owners and the locks in agreement, and every thread lawful.
pub Step-IsLawful :
    (recursive : ℕ → Bool) (s t : Threads) → IsLawful s → Step recursive s t → IsLawful t
unfolding put has given_back lawful
Step-IsLawful recursive s _ h (take i l later e free) = record {
  owned = λ k j o. ground (arith, h.owned k j, o);
  own = λ k j o. ground (arith, h.own k j, h.own k i, o, free);
  lawfully = λ j. ground (arith, h.lawfully j, h.lawfully i, e);
}
Step-IsLawful recursive s _ h (retake i l later e mine re) = record {
  owned = λ k j o. ground (arith, h.owned k j, o);
  own = λ k j o. ground (arith, h.own k j, h.own k i, o, mine);
  lawfully = λ j. ground (arith, h.lawfully j, h.lawfully i, e);
}
Step-IsLawful recursive s _ h (give i l later e) =
    let holds : has l (s.held i) ≡ true =
      release-held (s.held i) l later
        (ap (λ todo. lawful (s.held i) todo) (sym e) ∙ h.lawfully i) in
    let mine = h.own l i holds in
    record {
      owned = λ k j o. ground (arith, h.owned k j, o, has-drop_one l k (s.held i));
      own = λ k j o. ground (arith, h.own k j, h.own k i, mine, o, has-drop_one-le l k (s.held i));
      lawfully = λ j. ground (arith, h.lawfully j, h.lawfully i, e);
    }

pub Run-IsLawful :
    (recursive : ℕ → Bool) (s t : Threads) → IsLawful s → Run recursive s t → IsLawful t
Run-IsLawful recursive s _ h stay = h
Run-IsLawful recursive s _ h (step {t} r one) =
    Step-IsLawful recursive t _ (Run-IsLawful recursive s t h r) one

-- Every thread takes the locks in the order of their ranks.
abbrev pub IsOrdered : (ℕ → Bool) → (ℕ → ℕ) → Threads → Type 0
IsOrdered recursive rank s = (i : ℕ) → ordered recursive rank (s.held i) (s.todo i) ≡ true

Step-IsOrdered :
    (recursive : ℕ → Bool) (rank : ℕ → ℕ) (s t : Threads)
    → IsOrdered recursive rank s
    → Step recursive s t
    → IsOrdered recursive rank t
unfolding put ordered
Step-IsOrdered recursive rank s _ h (take i l later e free) j = ground (arith, h j, h i, e)
Step-IsOrdered recursive rank s _ h (retake i l later e mine re) j = ground (arith, h j, h i, e)
Step-IsOrdered recursive rank s _ h (give i l later e) j = ground (arith, h j, h i, e)

Run-IsOrdered :
    (recursive : ℕ → Bool) (rank : ℕ → ℕ) (s t : Threads)
    → IsOrdered recursive rank s
    → Run recursive s t
    → IsOrdered recursive rank t
Run-IsOrdered recursive rank s _ h stay = h
Run-IsOrdered recursive rank s _ h (step {t} r one) =
    Step-IsOrdered recursive rank t _ (Run-IsOrdered recursive rank s t h r) one

pub all_below-has :
    (rank : ℕ → ℕ) (bound k : ℕ) (held : List ℕ)
    → all_below rank bound held ≡ true
    → has k held ≡ true
    → rank k < bound
unfolding all_below has
all_below-has rank bound k [] below holds = cc
all_below-has rank bound k (x ∷ xs) below holds = elim (Bool-cases (x == k)) [
  | inl same ↦
      let eq : x ≡ k = ground (arith, same) in
      subst (λ y. rank y < bound) eq (ground (arith, below))
  | inr other ↦ all_below-has rank bound k xs (ground (arith, below)) (ground (arith, other, holds))
]

Action-cases : (a : Action) → ((l : ℕ) × (a ≡ acquire l)) ⊎ ((l : ℕ) × (a ≡ release l))
Action-cases (acquire l) = inl (l, refl)
Action-cases (release l) = inr (l, refl)

abbrev pub CanStep : (ℕ → Bool) → Threads → Type 0
CanStep recursive s = (t : Threads) × Step recursive s t

module _ (recursive : ℕ → Bool) (rank : ℕ → ℕ) (s : Threads) (lawfully : IsLawful s)
    (in_order : IsOrdered recursive rank s) where
  holder-acts :
      (j l : ℕ)
      → has l (s.held j) ≡ true
      → (a : Action) × (later : List Action) × (s.todo j ≡ a ∷ later)
  unfolding lawful has
  holder-acts j l holds = elim (List-cases (s.todo j)) [
    | inl finished ↦ absurd (ground (arith, finished, holds, lawfully.lawfully j))
    | inr (a, later, e) ↦ (a, later, e)
  ]

  -- A thread that waits for a lock waits for one that can go on, or for one that waits for a lock of a
  -- higher rank.
  waiting-CanStep :
      (n b i l : ℕ) (later : List Action)
      → ((k : ℕ) → rank k < b)
      → b ≤ rank l + n
      → s.todo i ≡ acquire l ∷ later
      → CanStep recursive s
  unfolding ordered
  waiting-CanStep zero b i l later bound near e = absurd (omega (arith, bound l, near))
  waiting-CanStep (suc n) b i l later bound near e = elim (Option-cases (s.owner l)) [
    | inl free ↦ (_, take i l later e free)
    | inr (j, owned) ↦
        let holds = lawfully.owned l j owned in
        let (a, later', e') = holder-acts j l holds in
        elim (Action-cases a) [
          | inr (k, is) ↦ (_, give j k later' (e' ∙ ap (λ x. x ∷ later') is))
          | inl (k, is) ↦
              let next = e' ∙ ap (λ x. x ∷ later') is in
              elim (Bool-cases (recursive k && has k (s.held j))) [
                | inl again ↦ (
                  _,
                  retake j k later' next (lawfully.own k j (ground (arith, again)))
                      (ground (arith, again)),
                )
                | inr fresh ↦
                    let above : all_below rank (rank k) (s.held j) ≡ true =
                      ground (arith, in_order j, next, fresh) in
                    let higher = all_below-has rank (rank k) l (s.held j) above holds in
                    waiting-CanStep n b j k later' bound (omega (arith, higher, near)) next
              ]
        ]
  ]

-- Threads that give back what they take, and take the locks in the order of ranks that have a bound, do not
-- come to a standstill: in every state that they reach in which some thread has something left to do,
-- some thread can go on.
pub in_order-no_deadlock :
    (recursive : ℕ → Bool) (rank : ℕ → ℕ) (b : ℕ) (s t : Threads)
    → IsLawful s
    → IsOrdered recursive rank s
    → ((k : ℕ) → rank k < b)
    → Run recursive s t
    → (i : ℕ) (a : Action) (later : List Action) → t.todo i ≡ a ∷ later
    → CanStep recursive t
in_order-no_deadlock recursive rank b s t lawfully in_order bound r i (release l) later e =
    (_, give i l later e)
in_order-no_deadlock recursive rank b s t lawfully in_order bound r i (acquire l) later e =
    waiting-CanStep recursive rank t (Run-IsLawful recursive s t lawfully r)
      (Run-IsOrdered recursive rank s t in_order r) b b i l later bound (omega arith) e
