-- ===== src/Service/Addresses.antt =====
-- The address of a buddy (buddy/src/MpBuddy.cpp, buddy/src/MpBuddyList.cpp).
use end_to_end_smkex.Base.{[], Option, none, some, MpString, Outcome, done, find}
use end_to_end_smkex.Utils.Addresses.{get_uri_from_serial}
use end_to_end_smkex.Buddy.BuddyList.{MpBuddy}
use end_to_end_smkex.Service.State.{MpAccSettings, MpService}

-- `MpUtils::getUriFromSerial` with the account's server.
unfoldable pub uri_of_serial : Option MpString → MpAccSettings → Outcome MpString
uri_of_serial serial a = get_uri_from_serial serial a.server_address a.port

-- `MpBuddy::getBuddyUri`
unfoldable pub get_buddy_uri : MpBuddy → MpAccSettings → Outcome MpString
unfolding uri_of_serial
get_buddy_uri buddy a = uri_of_serial (some buddy.serial) a

-- `MpBuddyList::getBuddyUri`
unfoldable pub get_uri_in_list : {W : Type 0} → MpString → MpService W → Outcome MpString
unfolding get_buddy_uri
get_uri_in_list serial s = elim (find serial s.buddy_list.buddy_list) [
  | none ↦ done []
  | some b ↦ get_buddy_uri b s.user_account.acc_settings
]
