-- ===== src/Buddy/BuddyList.antt =====
-- `MpBuddy` and `MpBuddyList` (buddy/include/MpBuddy.h, buddy/src/MpBuddy.cpp,
-- buddy/include/MpBuddyList.h, buddy/src/MpBuddyList.cpp), on one thread.
use end_to_end_smkex.Base.{
  ℕ, Bool, true, false, not, ◌&&◌, ◌||◌, List, [], ◌∷◌, ◌++◌, Option, none, some, leb, ◌==◌,
  if◌then◌else◌, ℤ, negsuc, int_eq, MpString, Map, find, insert, erase, Outcome, done, ◌>>=◌,
}
use end_to_end_smkex.Utils.{MpStatus, success, general_err, is_success}
use end_to_end_smkex.Utils.Callbacks.{add_pool_data, rm_pool_data}

pub record MpBuddy : Type 0 where
  pub serial : MpString
  pub online : Bool
  pub pjsua_id : ℤ

-- The constructor.
unfoldable pub new_buddy : MpString → MpBuddy
new_buddy serial = record { serial = serial; online = false; pjsua_id = negsuc 0 }

-- The stack (`MpISIPStack`), with its state `W`: `subscribe` returns its status and the identifier
-- that the buddy has then.
pub record SipStack (W : Type 0) : Type 0 where
  pub subscribe : MpBuddy → W → Outcome (MpStatus × ℤ × W)
  pub unsubscribe : ℤ → W → MpStatus × W

-- A call of `buddy_state` and `buddy_state2` on a callback.
pub record PresenceCall : Type 0 where
  pub callback : ℕ
  pub told : MpBuddy

pub record MpBuddyList : Type 0 where
  pub buddy_list : Map MpBuddy
  pub presence_cb : List ℕ
  pub presence_calls : List PresenceCall

-- `isalnum` in the C locale.
unfoldable pub is_alnum : ℕ → Bool
is_alnum c =
    (leb b'0' c && leb c b'9') || ((leb b'A' c && leb c b'Z') || (leb b'a' c && leb c b'z'))

unfoldable pub serial_is_valid : MpString → Bool
serial_is_valid [] = true
serial_is_valid (c ∷ cs) =
    let rest = serial_is_valid cs in if is_alnum c then rest else if c == b'_' then rest else false

unfoldable pub keep_if_success :
    {W : Type 0} → MpBuddy → MpBuddyList → MpStatus × ℤ × W → MpStatus × MpBuddyList × W
keep_if_success buddy l (status, id, w) =
    let entry = record buddy { pjsua_id = id } in
    if is_success status
    then (status, record l { buddy_list = insert buddy.serial entry l.buddy_list }, w)
    else (status, l, w)

module _ {W : Type 0} (stack : SipStack W) where
  unfoldable pub add_buddy : MpBuddy → MpBuddyList → W → Outcome (MpStatus × MpBuddyList × W)
  unfolding keep_if_success
  add_buddy buddy l w =
      if not (serial_is_valid buddy.serial)
      then done (general_err, l, w)
      else elim (find buddy.serial l.buddy_list) [
        | some b ↦ done (general_err, l, w)
        | none ↦ do r ← stack.subscribe buddy w; done (keep_if_success buddy l r)
      ]

  unfoldable pub rm_buddy : MpString → MpBuddyList → W → MpStatus × MpBuddyList × W
  rm_buddy serial l w = elim (find serial l.buddy_list) [
    | none ↦ (success, l, w)
    | some b ↦
        let (status, w') = stack.unsubscribe b.pjsua_id w in
        if is_success status
        then (status, record l { buddy_list = erase serial l.buddy_list }, w')
        else (status, l, w')
  ]

-- The first entry with the identifier, with its new state; none if there is no such entry.
unfoldable pub set_state_of : ℤ → Bool → Map MpBuddy → Option (MpBuddy × Map MpBuddy)
set_state_of id online [] = none
set_state_of id online ((k, b) ∷ m) =
    let rest = set_state_of id online m in
    if int_eq b.pjsua_id id
    then (let b' = record b { online = online } in some (b', (k, b') ∷ m))
    else elim rest [ none ↦ none | some r ↦ some (r.0, (k, b) ∷ r.1) ]

unfoldable pub call_all : List ℕ → MpBuddy → List PresenceCall
call_all [] b = []
call_all (cb ∷ cbs) b = record { callback = cb; told = b } ∷ call_all cbs b

-- `buddy_state`; `online` is whether PJSUA reports the buddy as online.
unfoldable pub buddy_state : ℤ → Bool → MpBuddyList → MpBuddyList
buddy_state id online l = elim (set_state_of id online l.buddy_list) [
  | none ↦ l
  | some r ↦ record l {
    buddy_list = r.1;
    presence_calls = l.presence_calls ++ call_all l.presence_cb r.0;
  }
]

unfoldable pub add_presence_cb : Option ℕ → MpBuddyList → MpBuddyList
add_presence_cb cb l = record l { presence_cb = add_pool_data cb l.presence_cb }

unfoldable pub rm_presence_cb : Option ℕ → MpBuddyList → MpBuddyList
rm_presence_cb cb l = record l { presence_cb = rm_pool_data cb l.presence_cb }

unfoldable pub get_buddy : MpString → MpBuddyList → MpBuddy
get_buddy serial l = elim (find serial l.buddy_list) [ none ↦ new_buddy [] | some b ↦ b ]

unfoldable pub is_user_online : MpString → MpBuddyList → Bool
is_user_online serial l = elim (find serial l.buddy_list) [ none ↦ false | some b ↦ b.online ]

unfoldable pub reset : MpBuddyList → MpBuddyList
reset l = record l { buddy_list = [] }
