-- ===== src/Buddy/Subscriptions.antt =====
-- Adding a buddy (buddy/src/MpBuddyList.cpp).
use end_to_end_smkex.Base.{
  ◌≡◌, ap, ℤ, true, false, none, some, MpString, str_eq, find, insert, find-insert, arith,
  if◌then◌else◌, Outcome, done, ◌>>=◌, >>=-eq-done, ◌∙◌,
}
use end_to_end_smkex.Utils.{MpStatus, is_success}
use end_to_end_smkex.Buddy.BuddyList.{
  MpBuddy, SipStack, MpBuddyList, serial_is_valid, keep_if_success, add_buddy,
}

pub keep_if_success-success :
    {W : Type 0} (buddy : MpBuddy) (l : MpBuddyList) (r : MpStatus × ℤ × W) {status : MpStatus}
    {l' : MpBuddyList} {w' : W}
    → done (keep_if_success buddy l r) ≡ done (status, l', w')
    → is_success status ≡ true
    → (r ≡ (status, r.1, w'))
      × (l'.buddy_list ≡ insert buddy.serial (record buddy { pjsua_id = r.1 }) l.buddy_list)
unfolding keep_if_success is_success
keep_if_success-success buddy l (st, id, w) e f = ground arith

module _ {W : Type 0} (stack : SipStack W) (buddy : MpBuddy) (l : MpBuddyList) (w : W) where
  abbrev pub subscription : Outcome (MpStatus × MpBuddyList × W)
  subscription = stack.subscribe buddy w >>= λ r. done (keep_if_success buddy l r)

  -- A success comes from a call of the stack, for a buddy that is valid and new.
  pub add_buddy-subscribe :
      {status : MpStatus} {l' : MpBuddyList} {w' : W}
      → add_buddy stack buddy l w ≡ done (status, l', w')
      → is_success status ≡ true
      → (serial_is_valid buddy.serial ≡ true)
        × (find buddy.serial l.buddy_list ≡ none)
        × (subscription ≡ done (status, l', w'))
  unfolding add_buddy is_success
  add_buddy-subscribe e f = grind arith

  -- A buddy that was added has a valid serial that was not in the list; it is in the list now with
  -- the identifier that the stack gave it, and no other entry has changed.
  pub add_buddy-success :
      {status : MpStatus} {l' : MpBuddyList} {w' : W} (j : MpString)
      → add_buddy stack buddy l w ≡ done (status, l', w')
      → is_success status ≡ true
      → (serial_is_valid buddy.serial ≡ true)
        × (find buddy.serial l.buddy_list ≡ none)
        × (id : ℤ) × (stack.subscribe buddy w ≡ done (status, id, w'))
        × (find j l'.buddy_list ≡ (
            if str_eq buddy.serial j
            then some (record buddy { pjsua_id = id })
            else find j l.buddy_list))
  add_buddy-success j e f =
      let (valid, missing, kept) = add_buddy-subscribe e f in
      let (r, sub, eq) = >>=-eq-done (stack.subscribe buddy w) _ kept in
      let (result, inserted) = keep_if_success-success buddy l r eq f in
      (
        valid,
        missing,
        r.1,
        sub ∙ ap done result,
        ap (find j) inserted
            ∙ find-insert buddy.serial j (record buddy { pjsua_id = r.1 }) l.buddy_list missing,
      )

  -- A buddy that could not be added leaves the list as it was.
  pub add_buddy-failure :
      {status : MpStatus} {l' : MpBuddyList} {w' : W}
      → add_buddy stack buddy l w ≡ done (status, l', w')
      → is_success status ≡ false
      → l' ≡ l
  unfolding add_buddy is_success keep_if_success
  add_buddy-failure e f = ground arith
