-- ===== src/Locks/Deadlock.antt =====
-- `syncWithDBConnectors` and a report of a failed message (auto_resend/src/MpAutoResendEngine.cpp) take
-- `dbConnLock_` and `userPoolLock_` in opposite orders.
use end_to_end_smkex.Base.{
  ℕ, suc, ◌≡◌, refl, sym, ap, ◌∙◌, Bool, true, false, List, ◌∷◌, some, ◌==◌, arith,
}
use end_to_end_smkex.Locks.Threads.{
  Action, acquire, release, Threads, put, given_back, has, drop_one, moved, Step, take, retake,
  give, Run, stay, step, lawful, IsLawful,
}
use end_to_end_smkex.Locks.Order.{Step-IsLawful, Run-IsLawful, release-held}
use end_to_end_smkex.Locks.Programs.{
  msg_lock, started_lock, user_pool_lock, db_conn_lock, is_recursive, with_lock, nothing, repeat,
  when, tell_connectors_locks, add_message_internal_locks, send_message_locks, Operation, reports,
  syncs, program, all_of,
}
use end_to_end_smkex.Locks.Lawful.{at_start, at_start-IsLawful}

module _ (i j : ℕ) (distinct : (i == j) ≡ false) (x y : List Action) where
  -- Each of the two threads waits for the lock that the other holds.
  record IsStuck (s : Threads) : Type 0 where
    lawfully : IsLawful s
    db_taken : s.owner db_conn_lock ≡ some i
    pool_taken : s.owner user_pool_lock ≡ some j
    i_waits : s.todo i ≡ acquire user_pool_lock ∷ x
    j_waits : s.todo j ≡ acquire db_conn_lock ∷ y

  Step-IsStuck : (s t : Threads) → IsStuck s → Step is_recursive s t → IsStuck t
  unfolding put given_back
  Step-IsStuck s _ h (take k l later e free) = record {
    lawfully = Step-IsLawful is_recursive s _ h.lawfully (take k l later e free);
    db_taken = ground (arith, free, h.db_taken);
    pool_taken = ground (arith, free, h.pool_taken);
    i_waits = ground (arith, e, free, h.pool_taken, h.i_waits);
    j_waits = ground (arith, e, free, h.db_taken, h.j_waits);
  }
  Step-IsStuck s _ h (retake k l later e mine re) = record {
    lawfully = Step-IsLawful is_recursive s _ h.lawfully (retake k l later e mine re);
    db_taken = h.db_taken;
    pool_taken = h.pool_taken;
    i_waits = ground (arith, e, mine, h.pool_taken, h.i_waits, distinct);
    j_waits = ground (arith, e, mine, h.db_taken, h.j_waits, distinct);
  }
  Step-IsStuck s _ h (give k l later e) =
      let holds =
        release-held (s.held k) l later
          (ap (λ todo. lawful (s.held k) todo) (sym e) ∙ h.lawfully.lawfully k) in
      let mine = h.lawfully.own l k holds in
      record {
        lawfully = Step-IsLawful is_recursive s _ h.lawfully (give k l later e);
        db_taken = ground (arith, e, mine, h.db_taken, h.i_waits);
        pool_taken = ground (arith, e, mine, h.pool_taken, h.j_waits);
        i_waits = ground (arith, e, h.i_waits);
        j_waits = ground (arith, e, h.j_waits);
      }

  Run-IsStuck : (s t : Threads) → IsStuck s → Run is_recursive s t → IsStuck t
  Run-IsStuck s _ h stay = h
  Run-IsStuck s _ h (step {t} r one) = Step-IsStuck t _ (Run-IsStuck s t h r) one

-- The thread has taken the lock, or given it back.
abbrev took : ℕ → ℕ → List Action → Threads → Threads
took i l later s = moved i (l ∷ s.held i) later (put s.owner l (some i)) s

abbrev gave : ℕ → ℕ → List Action → Threads → Threads
gave i l later s =
    moved i (drop_one l (s.held i)) later (given_back l (has l (drop_one l (s.held i))) s.owner) s

module _ (ops : ℕ → List Operation) (i j : ℕ) (distinct : (i == j) ≡ false) where
  -- A thread that syncs with messages to add, and one in which PJSUA reports the end of a message that
  -- was not sent, in threads of their own, can come to a state in which they wait for each other, and
  -- do so in every state after it, whatever the other threads do.
  pub sync_and_report-deadlock :
      (messages lost marked : ℕ) (finds : Bool) (os ps : List Operation)
      → ops i ≡ syncs (suc messages) ∷ os
      → ops j ≡ reports true (suc lost) marked finds ∷ ps
      → (x : List Action) × (y : List Action) × (s : Threads) × Run is_recursive (at_start ops) s
        × ((t : Threads)
            → Run is_recursive s t
            → (t.todo i ≡ acquire user_pool_lock ∷ x) × (t.todo j ≡ acquire db_conn_lock ∷ y))
  unfolding all_of program with_lock nothing repeat when put given_back has drop_one
  sync_and_report-deadlock messages lost marked finds os ps oi oj =
      let s₀ = at_start ops in
      let own : s₀.todo j ≡ program (reports true (suc lost) marked finds) (all_of ps) =
        ap all_of oj in
      let own_i : s₀.todo i ≡ program (syncs (suc messages)) (all_of os) = ap all_of oi in
      let z = repeat lost tell_connectors_locks (
        release user_pool_lock
        ∷ with_lock started_lock (send_message_locks marked finds)
            (release msg_lock ∷ all_of ps)) in
      let y = release db_conn_lock ∷ z in
      let in_pool = acquire user_pool_lock ∷ acquire db_conn_lock ∷ y in
      let s₁ = took j msg_lock (acquire db_conn_lock ∷ release db_conn_lock ∷ in_pool) s₀ in
      let s₂ = took j db_conn_lock (release db_conn_lock ∷ in_pool) s₁ in
      let s₃ = gave j db_conn_lock in_pool s₂ in
      let s₄ = took j user_pool_lock (acquire db_conn_lock ∷ y) s₃ in
      let x =
        release user_pool_lock
        ∷ repeat messages add_message_internal_locks (release db_conn_lock ∷ all_of os) in
      let s₅ = took i db_conn_lock (acquire user_pool_lock ∷ x) s₄ in
      let r₁ : Run is_recursive s₀ s₁ = step stay (take j msg_lock _ own refl) in
      let r₂ : Run is_recursive s₀ s₂ =
        step r₁ (take j db_conn_lock _ (ground arith) (ground arith)) in
      let r₃ : Run is_recursive s₀ s₃ = step r₂ (give j db_conn_lock _ (ground arith)) in
      let r₄ : Run is_recursive s₀ s₄ =
        step r₃ (take j user_pool_lock _ (ground arith) (ground arith)) in
      let r₅ : Run is_recursive s₀ s₅ =
        step r₄ (take i db_conn_lock _ (ground (arith, distinct, own_i)) (ground arith)) in
      let stuck : IsStuck i j distinct x y s₅ = record {
        lawfully = Run-IsLawful is_recursive s₀ s₅ (at_start-IsLawful ops) r₅;
        db_taken = ground arith;
        pool_taken = ground arith;
        i_waits = ground arith;
        j_waits = ground (arith, distinct);
      } in
      (
        x,
        y,
        s₅,
        r₅,
        λ t r. let h = Run-IsStuck i j distinct x y s₅ t stuck r in (h.i_waits, h.j_waits),
      )
