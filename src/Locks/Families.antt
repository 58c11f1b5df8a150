-- ===== src/Locks/Families.antt =====
-- The order in which a list of operations takes the locks (auto_resend/src/MpAutoResendEngine.cpp,
-- data_msg/src/MpMsgTransport.cpp).
use end_to_end_smkex.Base.{ℕ, suc, ◌≤◌, ◌<◌, ◌≡◌, refl, ◌∙◌, Bool, true, List, [], ◌∷◌, All, arith}
use end_to_end_smkex.Locks.Threads.{ordered, all_below}
use end_to_end_smkex.Locks.Programs.{
  user_pool_lock, db_conn_lock, is_recursive, Program, with_lock, nothing, repeat, when,
  tell_connectors_locks, transport_send_locks, send_message_locks, Operation, program, all_of,
}
use end_to_end_smkex.Locks.Closed.{
  InOrder, nothing-InOrder, with_lock-InOrder, repeat-InOrder, when-InOrder, both-InOrder,
}

-- The locks that are held say nothing.
abbrev pub Any : List ℕ → Type 0
Any held = Unit

module _ (rank : ℕ → ℕ) where
  abbrev pub Orders : (List ℕ → Type 0) → ℕ → Program → Type 0
  Orders = InOrder is_recursive rank

  pub leaf-Orders :
      (Under : List ℕ → Type 0) (m l : ℕ) → m ≤ rank l → Orders Under m (with_lock l nothing)
  leaf-Orders Under m l le =
      with_lock-InOrder is_recursive rank Under Any m l nothing le (λ held u. tt)
        (nothing-InOrder is_recursive rank Any (suc (rank l)))

  pub send_message_locks-Orders :
      (Under : List ℕ → Type 0) (m marked : ℕ) (finds : Bool)
      → m ≤ rank user_pool_lock
      → rank user_pool_lock < rank db_conn_lock
      → ((held : List ℕ) → Under held → Under (user_pool_lock ∷ held))
      → Orders Under (suc (rank user_pool_lock)) transport_send_locks
      → Orders Under m (send_message_locks marked finds)
  send_message_locks-Orders Under m marked finds le lt keeps sends =
      with_lock-InOrder is_recursive rank Under Under m user_pool_lock _ le keeps (
        both-InOrder is_recursive rank Under (suc (rank user_pool_lock))
          (repeat marked tell_connectors_locks) (when finds transport_send_locks)
          (repeat-InOrder is_recursive rank Under (suc (rank user_pool_lock)) marked
            tell_connectors_locks
            (leaf-Orders Under (suc (rank user_pool_lock)) db_conn_lock (omega (arith, lt))))
          (when-InOrder is_recursive rank Under (suc (rank user_pool_lock)) finds
            transport_send_locks sends))

  pub all_of-ordered :
      (os : List Operation)
      → All (λ o. Orders Any 0 (program o)) os
      → ordered is_recursive rank [] (all_of os) ≡ true
  unfolding all_of ordered all_below
  all_of-ordered [] h = refl
  all_of-ordered (o ∷ os) (ho, hos) = ho [] (all_of os) tt refl ∙ all_of-ordered os hos

pub All-Orders :
    (rank : ℕ → ℕ) (kind : Operation → Bool)
    → ((o : Operation) → kind o ≡ true → Orders rank Any 0 (program o))
    → (os : List Operation) → All (λ o. kind o ≡ true) os
    → All (λ o. Orders rank Any 0 (program o)) os
All-Orders rank kind f [] h = tt
All-Orders rank kind f (o ∷ os) (ho, hos) = (f o ho, All-Orders rank kind f os hos)
