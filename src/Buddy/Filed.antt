-- ===== src/Buddy/Filed.antt =====
-- Every buddy stands in the list under its own serial (buddy/src/MpBuddyList.cpp).
use end_to_end_smkex.Base.{
  ℤ, ◌≡◌, refl, sym, subst, Bool, true, [], ◌∷◌, some, Option-cases, Bool-cases, inl, inr, int_eq,
  MpString, Map, str_eq, str_lt, find, insert, insert_new, erase, All, arith, done, >>=-eq-done,
}
use end_to_end_smkex.Utils.{MpStatus, is_success}
use end_to_end_smkex.Buddy.BuddyList.{
  MpBuddy, SipStack, MpBuddyList, serial_is_valid, add_buddy, rm_buddy, set_state_of, buddy_state,
}
use end_to_end_smkex.Buddy.Subscriptions.{
  keep_if_success-success, add_buddy-subscribe, add_buddy-failure,
}

abbrev pub IsOwn : MpString × MpBuddy → Type 0
IsOwn (k, b) = (b.serial ≡ k) × (serial_is_valid k ≡ true)

abbrev pub IsFiled : MpBuddyList → Type 0
IsFiled l = All IsOwn l.buddy_list

insert_new-IsOwn :
    (k : MpString) (b : MpBuddy) (m : Map MpBuddy)
    → IsOwn (k, b)
    → All IsOwn m
    → All IsOwn (insert_new k b m)
unfolding insert_new
insert_new-IsOwn k b [] h hs = (h, tt)
insert_new-IsOwn k b ((j, c) ∷ m) h (hc, hs) = elim (Bool-cases (str_lt k j)) [
  | inl lt ↦ rw lt (h, (hc, hs))
  | inr ge ↦ rw ge (hc, insert_new-IsOwn k b m h hs)
]

insert-IsOwn :
    (k : MpString) (b : MpBuddy) (m : Map MpBuddy)
    → IsOwn (k, b)
    → All IsOwn m
    → All IsOwn (insert k b m)
unfolding insert
insert-IsOwn k b m h hs = elim (Option-cases (find k m)) [
  | inl e ↦ rw (insert, e) (insert_new-IsOwn k b m h hs)
  | inr (c, e) ↦ rw (insert, e) hs
]

erase-IsOwn : (k : MpString) (m : Map MpBuddy) → All IsOwn m → All IsOwn (erase k m)
unfolding erase
erase-IsOwn k [] hs = tt
erase-IsOwn k ((j, c) ∷ m) (hc, hs) = elim (Bool-cases (str_eq j k)) [
  | inl e ↦ rw e (erase-IsOwn k m hs)
  | inr e ↦ rw e (hc, erase-IsOwn k m hs)
]

set_state_of-IsOwn :
    (id : ℤ) (online : Bool) (m : Map MpBuddy) {b : MpBuddy} {m' : Map MpBuddy}
    → set_state_of id online m ≡ some (b, m')
    → All IsOwn m
    → All IsOwn m'
unfolding set_state_of
set_state_of-IsOwn id online [] e hs = cc
set_state_of-IsOwn id online ((k, c) ∷ m) {m' = m'} e (hc, hs) =
    elim (Bool-cases (int_eq c.pjsua_id id)) [
      | inl f ↦
          let now : (k, record c { online = online }) ∷ m ≡ m' = ground (arith, e, f) in
          subst (All IsOwn) now (hc, hs)
      | inr f ↦ elim (Option-cases (set_state_of id online m)) [
        | inl g ↦ absurd (ground (arith, e, f, g))
        | inr (r, g) ↦
            let now : (k, c) ∷ r.1 ≡ m' = ground (arith, e, f, g) in
            subst (All IsOwn) now (hc, set_state_of-IsOwn id online m g hs)
      ]
    ]

-- A report of PJSUA keeps the list filed.
pub buddy_state-IsFiled :
    (id : ℤ) (online : Bool) (l : MpBuddyList) → IsFiled l → IsFiled (buddy_state id online l)
unfolding buddy_state
buddy_state-IsFiled id online l h = elim (Option-cases (set_state_of id online l.buddy_list)) [
  | inl e ↦ rw (buddy_state, e) h
  | inr (r, e) ↦ rw (buddy_state, e) (set_state_of-IsOwn id online l.buddy_list e h)
]

module _ {W : Type 0} (stack : SipStack W) where
  -- Adding a buddy keeps the list filed.
  pub add_buddy-IsFiled :
      (buddy : MpBuddy) (l : MpBuddyList) (w : W) {status : MpStatus} {l' : MpBuddyList} {w' : W}
      → add_buddy stack buddy l w ≡ done (status, l', w')
      → IsFiled l
      → IsFiled l'
  add_buddy-IsFiled buddy l w {status = status} e h = elim (Bool-cases (is_success status)) [
    | inl ok ↦
        let (valid, _, kept) = add_buddy-subscribe stack buddy l w e ok in
        let (r, _, eq) = >>=-eq-done (stack.subscribe buddy w) _ kept in
        let (_, inserted) = keep_if_success-success buddy l r eq ok in
        let entry = record buddy { pjsua_id = r.1 } in
        subst (All IsOwn) (sym inserted)
          (insert-IsOwn buddy.serial entry l.buddy_list (refl, valid) h)
    | inr ko ↦ subst IsFiled (sym (add_buddy-failure stack buddy l w e ko)) h
  ]

  -- Removing one keeps it too.
  pub rm_buddy-IsFiled :
      (serial : MpString) (l : MpBuddyList) (w : W)
      → IsFiled l
      → IsFiled (rm_buddy stack serial l w).1
  unfolding rm_buddy
  rm_buddy-IsFiled serial l w h = elim (Option-cases (find serial l.buddy_list)) [
    | inl e ↦ rw (rm_buddy, e) h
    | inr (b, e) ↦ elim (Bool-cases (is_success (stack.unsubscribe b.pjsua_id w).0)) [
      | inl ok ↦ rw (rm_buddy, e, ok) (erase-IsOwn serial l.buddy_list h)
      | inr ko ↦ rw (rm_buddy, e, ko) h
    ]
  ]
