-- ===== src/Buddy/Directory.antt =====
-- The buddy list as a directory from serials to buddies (buddy/src/MpBuddyList.cpp).
use mathlib.Core.Path.{fun_ext}
use end_to_end_smkex.Base
use end_to_end_smkex.Base.{
  ℤ, ◌≡◌, refl, ap, ◌∙◌, Bool, true, false, not, List, [], ◌∷◌, Option, none, some, Option-cases,
  Bool-cases, inl, inr, MpString, str_eq, find, insert, erase, find-insert, find-erase, arith,
  if◌then◌else◌, Outcome, done, exited, fault, ◌>>=◌,
}
use end_to_end_smkex.Utils.{MpStatus, success, general_err, is_success}
use end_to_end_smkex.Buddy.BuddyList.{
  MpBuddy, SipStack, MpBuddyList, serial_is_valid, keep_if_success, add_buddy, rm_buddy, reset,
}

pub data Request : Type 0 where
  add : MpBuddy → Request
  remove : MpString → Request
  clear : Request

-- A directory is a function; it forgets how the map is kept, and its callbacks.
abbrev pub Directory : Type 0
Directory = MpString → Option MpBuddy

abbrev pub directory_of : MpBuddyList → Directory
directory_of l k = find k l.buddy_list

abbrev pub set_entry : MpString → Option MpBuddy → Directory → Directory
set_entry k entry f j = if str_eq k j then entry else f j

-- What a call that returns a status returns.
abbrev pub returns : {L W : Type 0} → Outcome (MpStatus × L × W) → Outcome (Option MpStatus × L × W)
returns m = m >>= λ r. done (some r.0, r.1, r.2)

module _ {W : Type 0} (stack : SipStack W) where
  -- What a request asks of a directory.
  unfoldable pub enter_if_success :
      MpBuddy → Directory → MpStatus × ℤ × W → MpStatus × Directory × W
  enter_if_success buddy f (status, id, w) =
      if is_success status
      then (status, set_entry buddy.serial (some (record buddy { pjsua_id = id })) f, w)
      else (status, f, w)

  unfoldable pub add_entry : MpBuddy → Directory → W → Outcome (MpStatus × Directory × W)
  add_entry buddy f w =
      if not (serial_is_valid buddy.serial)
      then done (general_err, f, w)
      else elim (f buddy.serial) [
        | some b ↦ done (general_err, f, w)
        | none ↦ stack.subscribe buddy w >>= λ r. done (enter_if_success buddy f r)
      ]

  unfoldable pub remove_entry : MpString → Directory → W → MpStatus × Directory × W
  remove_entry serial f w = elim (f serial) [
    | none ↦ (success, f, w)
    | some b ↦
        let (status, w') = stack.unsubscribe b.pjsua_id w in
        if is_success status then (status, set_entry serial none f, w') else (status, f, w')
  ]

  -- Adding and removing return a status. Clearing returns nothing; it forgets the buddies, and every
  -- subscription of theirs stays with the stack.
  unfoldable pub answer : Request → Directory → W → Outcome (Option MpStatus × Directory × W)
  answer (add buddy) f w = returns (add_entry buddy f w)
  answer (remove serial) f w = returns (done (remove_entry serial f w))
  answer clear f w = done (none, λ k. none, w)

  -- The same requests of the buddy list.
  unfoldable pub handle : Request → MpBuddyList → W → Outcome (Option MpStatus × MpBuddyList × W)
  handle (add buddy) l w = returns (add_buddy stack buddy l w)
  handle (remove serial) l w = returns (done (rm_buddy stack serial l w))
  handle clear l w = done (none, reset l, w)

  -- The requests in order, with what each returns.
  unfoldable pub answer_all :
      List Request → Directory → W → Outcome (List (Option MpStatus) × Directory × W)
  answer_all [] f w = done ([], f, w)
  answer_all (r ∷ rs) f w =
      answer r f w >>= λ a. answer_all rs a.1 a.2 >>= λ b. done (a.0 ∷ b.0, b.1, b.2)

  unfoldable pub handle_all :
      List Request → MpBuddyList → W → Outcome (List (Option MpStatus) × MpBuddyList × W)
  handle_all [] l w = done ([], l, w)
  handle_all (r ∷ rs) l w =
      handle r l w >>= λ a. handle_all rs a.1 a.2 >>= λ b. done (a.0 ∷ b.0, b.1, b.2)

  abbrev pub seen {ℓ} : {A : Type ℓ} → Outcome (A × MpBuddyList × W) → Outcome (A × Directory × W)
  seen (done (a, l, w)) = done (a, directory_of l, w)
  seen exited = exited
  seen fault = fault

  keep_if_success-seen :
      (buddy : MpBuddy) (l : MpBuddyList) (r : MpStatus × ℤ × W)
      → find buddy.serial l.buddy_list ≡ none
      → seen (done (keep_if_success buddy l r)) ≡ done (enter_if_success buddy (directory_of l) r)
  unfolding keep_if_success enter_if_success
  keep_if_success-seen buddy l (status, id, w) e = elim (Bool-cases (is_success status)) [
    | inl ok ↦ rw ok (
        ap (λ f. done (status, f, w))
          (fun_ext λ j. find-insert buddy.serial j (record buddy { pjsua_id = id }) l.buddy_list e))
    | inr ko ↦ rw ko
  ]

  subscribed-seen :
      (buddy : MpBuddy) (l : MpBuddyList) (m : Outcome (MpStatus × ℤ × W))
      → find buddy.serial l.buddy_list ≡ none
      → seen (m >>= λ r. done (keep_if_success buddy l r))
        ≡ (m >>= λ r. done (enter_if_success buddy (directory_of l) r))
  subscribed-seen buddy l (done r) e = keep_if_success-seen buddy l r e
  subscribed-seen buddy l exited e = refl
  subscribed-seen buddy l fault e = refl

  add_buddy-seen :
      (buddy : MpBuddy) (l : MpBuddyList) (w : W)
      → seen (add_buddy stack buddy l w) ≡ add_entry buddy (directory_of l) w
  unfolding add_buddy add_entry
  add_buddy-seen buddy l w = elim (Bool-cases (serial_is_valid buddy.serial)) [
    | inr v ↦ rw v
    | inl v ↦ elim (Option-cases (find buddy.serial l.buddy_list)) [
      | inl e ↦ rw (v, e) (subscribed-seen buddy l (stack.subscribe buddy w) e)
      | inr (b, e) ↦ rw (v, e)
    ]
  ]

  rm_buddy-seen :
      (serial : MpString) (l : MpBuddyList) (w : W)
      → seen (done (rm_buddy stack serial l w)) ≡ done (remove_entry serial (directory_of l) w)
  unfolding rm_buddy remove_entry
  rm_buddy-seen serial l w = elim (Option-cases (find serial l.buddy_list)) [
    | inl e ↦ rw (rm_buddy, remove_entry, e)
    | inr (b, e) ↦ elim (Bool-cases (is_success (stack.unsubscribe b.pjsua_id w).0)) [
      | inl ok ↦
          rw (rm_buddy, remove_entry, e, ok)
            (ap
              (λ f.
                done ((stack.unsubscribe b.pjsua_id w).0, f, (stack.unsubscribe b.pjsua_id w).1))
              (fun_ext λ j. find-erase serial j l.buddy_list))
      | inr ko ↦ rw (rm_buddy, remove_entry, e, ko)
    ]
  ]

  returns-seen : (m : Outcome (MpStatus × MpBuddyList × W)) → seen (returns m) ≡ returns (seen m)
  returns-seen (done r) = refl
  returns-seen exited = refl
  returns-seen fault = refl

  -- One request does to the list what it does to the directory.
  handle-seen :
      (r : Request) (l : MpBuddyList) (w : W) → seen (handle r l w) ≡ answer r (directory_of l) w
  unfolding handle answer reset Base.find
  handle-seen (add buddy) l w =
      returns-seen (add_buddy stack buddy l w) ∙ ap returns (add_buddy-seen buddy l w)
  handle-seen (remove serial) l w =
      returns-seen (done (rm_buddy stack serial l w)) ∙ ap returns (rm_buddy-seen serial l w)
  handle-seen clear l w = refl

  cons-seen :
      (status : Option MpStatus) (m : Outcome (List (Option MpStatus) × MpBuddyList × W))
      → seen (m >>= λ b. done (status ∷ b.0, b.1, b.2))
        ≡ (seen m >>= λ b. done (status ∷ b.0, b.1, b.2))
  cons-seen status (done r) = refl
  cons-seen status exited = refl
  cons-seen status fault = refl

  after-seen :
      (rs : List Request) (m : Outcome (Option MpStatus × MpBuddyList × W))
      → ((l : MpBuddyList) (w : W) → seen (handle_all rs l w) ≡ answer_all rs (directory_of l) w)
      → seen (m >>= λ a. handle_all rs a.1 a.2 >>= λ b. done (a.0 ∷ b.0, b.1, b.2))
        ≡ (seen m >>= λ a. answer_all rs a.1 a.2 >>= λ b. done (a.0 ∷ b.0, b.1, b.2))
  after-seen rs (done (status, l, w)) h =
      cons-seen status (handle_all rs l w)
      ∙ ap (λ m. m >>= λ b. done (status ∷ b.0, b.1, b.2)) (h l w)
  after-seen rs exited h = refl
  after-seen rs fault h = refl

  -- Any sequence of requests to add and remove buddies and to forget all of them returns what the same
  -- requests return of a directory that is a plain function from serials to buddies, ends as they do,
  -- leaves a list that reads as the directory they leave, and makes the same calls of the stack. Forgetting
  -- all buddies makes none, so their subscriptions stay.
  pub handle_all-refines :
      (rs : List Request) (l : MpBuddyList) (w : W)
      → seen (handle_all rs l w) ≡ answer_all rs (directory_of l) w
  unfolding handle_all answer_all
  handle_all-refines [] l w = refl
  handle_all-refines (r ∷ rs) l w =
      after-seen rs (handle r l w) (handle_all-refines rs)
      ∙ ap (λ m. m >>= λ a. answer_all rs a.1 a.2 >>= λ b. done (a.0 ∷ b.0, b.1, b.2))
          (handle-seen r l w)
