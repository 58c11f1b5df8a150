-- ===== src/AutoResend/Tests.antt =====
-- The engine at concrete inputs.
use end_to_end_smkex.Base
use end_to_end_smkex.Base.{
  ℕ, ◌+◌, ◌^◌, ◌≤◌, ◌≡◌, refl, Bool, true, false, List, [], ◌∷◌, ◌++◌, Option, none, some, All,
  MpString, ℤ, pos, length, str_eq, str_eq_iff, find, Outcome, done, fault, arith, if◌then◌else◌,
}
use end_to_end_smkex.Utils.{MpStatus}
use end_to_end_smkex.AutoResend.Payload.{MpMsgPayload, message}
use end_to_end_smkex.AutoResend.Pool.{MpMsgPool}
use end_to_end_smkex.AutoResend.Engine.{MpAutoResendEngine, sort_messages}
use end_to_end_smkex.AutoResend.Engine.Sift.{IsListed, IsSortedBy, count}
use end_to_end_smkex.AutoResend.Engine.Sort.{sort_messages-sorts}
use end_to_end_smkex.AutoResend.Engine.Stable.{insertion_sort, sort_messages-insertion_sort}
use end_to_end_smkex.AutoResend.Engine.Run.{send_message, remove_messages_for_serial}
use end_to_end_smkex.AutoResend.Engine.Offers.{listed}
use end_to_end_smkex.AutoResend.Engine.Fair.{IsReady, FairlySent, send_message-fair}
use end_to_end_smkex.AutoResend.Engine.Commands.{
  Command, add, report, resend, enable, run_all, run_all-IsReady,
}
use end_to_end_smkex.AutoResend.Engine.Removal.{remove_messages_for_serial-breaks_send}

abbrev bob : MpString
bob = b'b' ∷ []

abbrev carol : MpString
carol = b'c' ∷ []

abbrev message_to : MpString → MpMsgPayload
message_to serial = record {
  user_serial = serial;
  payload = record { payload = some (0 ∷ 7 ∷ []); len = 2 };
  uid = pos 1;
  number_of_retries = pos 5;
  xfer_status = pos 0;
  acc_id = pos 1;
  message_type = message;
  processed = false;
}

abbrev pool_of : MpString → ℕ → MpMsgPool
pool_of serial weight = record {
  messages = message_to serial ∷ [];
  weight = weight;
  mutable_weight = true;
  dirty = false;
}

abbrev busy : MpAutoResendEngine
busy = record {
  msg_transport = true;
  sip_stack = some true;
  db_connectors = [];
  user_pool = (bob, pool_of bob 3) ∷ (carol, pool_of carol 1) ∷ [];
  priority = bob ∷ carol ∷ [];
  started = true;
  auto_resend_enabled = false;
  calls = [];
}

busy-indexed : (k : MpString) → count k busy.priority ≡ listed k busy.user_pool
unfolding count listed Base.find
busy-indexed k = ground (arith, str_eq_iff bob k, str_eq_iff carol k)

busy-IsReady : IsReady busy
busy-IsReady = record { indexed = busy-indexed; transport = refl; stack = (true, refl) }

bob-listed : find bob busy.user_pool ≡ some (pool_of bob 3)
unfolding Base.find Base.str_eq
bob-listed = refl

carol-listed : find carol busy.user_pool ≡ some (pool_of carol 1)
unfolding Base.find Base.str_eq
carol-listed = refl

bob-carol : str_eq bob carol ≡ false
unfolding Base.str_eq
bob-carol = refl

send_message-fair_example :
    (e' : MpAutoResendEngine) × (send_message busy ≡ done e') × IsReady e' × FairlySent busy e'
send_message-fair_example = send_message-fair busy busy-IsReady

sort_messages-sorts_example :
    (xs : List MpString) × (sort_messages busy ≡ done (record busy { priority = xs }))
    × IsSortedBy busy.user_pool xs
    × All (IsListed busy.user_pool) xs
    × ((k : MpString) → count k xs ≡ count k busy.priority)
sort_messages-sorts_example =
    sort_messages-sorts busy ((pool_of bob 3, bob-listed), ((pool_of carol 1, carol-listed), tt))

sort_messages-insertion_sort_example :
    sort_messages busy
    ≡ done (record busy { priority = insertion_sort busy.user_pool busy.priority })
sort_messages-insertion_sort_example =
    sort_messages-insertion_sort busy
      ((pool_of bob 3, bob-listed), ((pool_of carol 1, carol-listed), tt))

abbrev commands : List Command
commands =
    add (message_to carol)
    ∷ report (message_to bob) MpStatus.message_sent
    ∷ resend carol (pos 1)
    ∷ enable true
    ∷ []

run_all-IsReady_example : (e' : MpAutoResendEngine) × (run_all commands busy ≡ done e') × IsReady e'
run_all-IsReady_example = run_all-IsReady commands busy busy-IsReady

abbrev without_bob : MpAutoResendEngine
without_bob = record busy {
  user_pool = (carol, pool_of carol 1) ∷ [];
  calls = [] ++ end_to_end_smkex.AutoResend.Engine.remove_for_serial bob ∷ [];
}

bob-removed : remove_messages_for_serial bob busy ≡ done without_bob
unfolding remove_messages_for_serial Base.erase Base.str_eq
bob-removed = refl

remove_messages_for_serial-breaks_send_example : send_message without_bob ≡ fault
remove_messages_for_serial-breaks_send_example =
    remove_messages_for_serial-breaks_send busy without_bob bob carol (pool_of bob 3)
      (pool_of carol 1) busy-indexed bob-listed carol-listed bob-carol bob-removed
