-- ===== src/Buddy/Tests.antt =====
-- Buddies at concrete inputs.
use end_to_end_smkex.Base
use end_to_end_smkex.Base.{
  ℕ, ◌≡◌, refl, true, false, List, [], ◌∷◌, none, some, ◌+◌, done, ℤ, pos, negsuc, str_eq, find,
  if◌then◌else◌,
}
use end_to_end_smkex.Utils.{success, is_success}
use end_to_end_smkex.Buddy.BuddyList.{
  MpBuddy, SipStack, MpBuddyList, is_alnum, serial_is_valid, keep_if_success, add_buddy,
}
use end_to_end_smkex.Buddy.Directory.{
  Request, add, remove, clear, directory_of, seen, handle_all, answer_all, handle_all-refines,
}

-- A stack that counts the calls made of it.
abbrev willing : SipStack ℕ
willing = record {
  subscribe = λ b n. done (success, pos 7, n + 1);
  unsubscribe = λ id n. (success, n + 1);
}

abbrev bob : MpBuddy
bob = record { serial = b'b' ∷ []; online = false; pjsua_id = negsuc 0 }

abbrev stranger : MpBuddy
stranger = record bob { serial = b'@' ∷ [] }

abbrev nobody : MpBuddyList
nobody = record { buddy_list = []; presence_cb = []; presence_calls = [] }

abbrev only_bob : MpBuddyList
only_bob = record nobody { buddy_list = (bob.serial, record bob { pjsua_id = pos 7 }) ∷ [] }

bob-added : add_buddy willing bob nobody 0 ≡ done (success, only_bob, 1)
unfolding add_buddy serial_is_valid is_alnum is_success Base.find keep_if_success Base.insert
    Base.insert_new
bob-added = refl

success-true : is_success success ≡ true
unfolding is_success
success-true = refl

-- One buddy comes, one is refused, the first goes and comes again, and all are forgotten.
abbrev requests : List Request
requests = add bob ∷ add stranger ∷ remove (b'b' ∷ []) ∷ add bob ∷ clear ∷ []

handle_all-refines_example :
    seen willing (handle_all willing requests nobody 0)
    ≡ answer_all willing requests (directory_of nobody) 0
handle_all-refines_example = handle_all-refines willing requests nobody 0
