-- ===== src/Smkex/Tests.antt =====
-- The key exchange at concrete inputs.
use end_to_end_smkex.Base
use end_to_end_smkex.Base.{
  ℕ, suc, ◌+◌, ◌≡◌, refl, Bool, true, false, List, [], ◌∷◌, ◌++◌, Option, none, some, MpString, Map,
  length, replicate, find, drop, Outcome, done, exited, fault, inl, inr, ◌⊎◌,
}
use end_to_end_smkex.Record.{
  SmkexT4mRecord, handshake_nonce, handshake_nonce_h, type_of_byte, print_c_str, copy_of,
  get_record_from_serial, print_type, print_record,
}
use end_to_end_smkex.Smkex.Env.{Env, malloc}
use end_to_end_smkex.Smkex.Session.{
  SmkexSessionInfo, State, World, wait_key_nonce_h_dest, wait_nonce2_h_init, connected, memcpy,
  print_key, get_session_info,
}
use end_to_end_smkex.Smkex.Hash.{strncmp_ne, calculate_h, verify_h}
use end_to_end_smkex.Smkex.Init.{put_session}
use end_to_end_smkex.Smkex.Handlers.{
  conclude, store_nonce, handle_nonce, handle_stored_nonce_h, handle_nonce_h,
}
use end_to_end_smkex.Smkex.Process.{
  store, dispatch, session_for, process_record, process_smkex_message_sip,
}
use end_to_end_smkex.Smkex.Transition.{Next}
use end_to_end_smkex.Smkex.Step.{status_of}
use end_to_end_smkex.Smkex.Received.{
  process_smkex_message_sip-Next, process_smkex_message_sip-connected,
  process_smkex_message_sip-others,
}

-- A point is the second of its octets, a shared secret the sum of a key's number and a point.
abbrev second : List ℕ → Option ℕ
second (a ∷ b ∷ bs) = some b
second _ = none

abbrev pub test_env : Env
test_env = record {
  can_alloc = λ n. true;
  fresh = λ n. replicate n 0;
  rand_bytes = λ i n. some (replicate n (i + 1));
  generate_key = λ i. some i;
  public_octets = λ key. 4 ∷ (key + 1) ∷ 0 ∷ [];
  oct2point = λ octets. second octets;
  ecdh_secret = λ key point. some ((key + point) ∷ []);
  hmac_sha256 = λ key bytes. replicate 32 (length key + length bytes);
  sha256 = λ bytes. replicate 32 (length bytes + 1);
}

abbrev pub alice : MpString
alice = b'a' ∷ []

abbrev pub bob : MpString
bob = b'b' ∷ []

abbrev pub carol : MpString
carol = b'c' ∷ []

abbrev pub session_at : State → SmkexSessionInfo
session_at st = record {
  i_am_session_initiator = false;
  status = st;
  local_nonce = 1 ∷ 1 ∷ 1 ∷ 1 ∷ 1 ∷ 1 ∷ 1 ∷ 0 ∷ [];
  local_nonce2 = 2 ∷ 2 ∷ 2 ∷ 2 ∷ 2 ∷ 2 ∷ 2 ∷ 0 ∷ [];
  local_nonce_length = 8;
  remote_nonce = 3 ∷ 3 ∷ 3 ∷ 3 ∷ 3 ∷ 3 ∷ 3 ∷ 0 ∷ [];
  remote_nonce_length = 8;
  local_pub_key = 4 ∷ 1 ∷ 0 ∷ [];
  local_pub_key_length = some 3;
  remote_pub_key = 4 ∷ 2 ∷ 0 ∷ [];
  remote_pub_key_length = 3;
  remote_pub_key_len = some 3;
  session_key = replicate 64 0;
  session_key_len = 64;
  received_nonce_h_value = none;
  received_nonce_h_value_len = none;
  ec_key = 0;
  error_computing_keys = false;
}

abbrev pub world_with : Map SmkexSessionInfo → World
world_with keychain = record {
  keychain = keychain;
  myself = alice;
  clock = 5;
  draws = 0;
  keys_made = 1;
  sent = [];
}

-- Alice, connected with Bob, and starting with Carol.
abbrev pub linked : World
linked = world_with ((bob, session_at connected) ∷ (carol, session_at wait_key_nonce_h_dest) ∷ [])

abbrev pub from_bob : SmkexT4mRecord
from_bob = record {
  version = 1;
  timestamp = 5;
  dest_len = 2;
  dest = b'a' ∷ 0 ∷ [];
  sender_len = 2;
  sender = b'b' ∷ 0 ∷ [];
  type = handshake_nonce;
  length_ = 8;
  body = 9 ∷ 9 ∷ 9 ∷ 9 ∷ 9 ∷ 9 ∷ 9 ∷ 0 ∷ [];
}

-- The message that carries the record, with the byte in front that the payload adds.
abbrev pub nonce_message : List ℕ
nonce_message =
    0 ∷ 1 ∷ 5 ∷ 0 ∷ 0 ∷ 0 ∷ 0 ∷ 0 ∷ 0 ∷ 0 ∷ 2 ∷ 0 ∷ b'a' ∷ 0 ∷ 2 ∷ 0 ∷ b'b' ∷ 0 ∷ 1 ∷ 8 ∷ 0 ∷ 9 ∷ 9
    ∷ 9 ∷ 9 ∷ 9 ∷ 9 ∷ 9 ∷ 0 ∷ []

nonce_message-parsed :
    get_record_from_serial test_env.can_alloc (drop 1 nonce_message) ≡ done (some from_bob)
unfolding get_record_from_serial Base.peek Base.le_value Base.c_str type_of_byte print_c_str copy_of
nonce_message-parsed = refl

-- What a call that returns leaves.
abbrev pub returned {ℓ} : {A : Type ℓ} → A → Outcome A → A
returned default (done a) = a
returned default exited = default
returned default fault = default

abbrev nonce_processed : World
nonce_processed =
    (returned (true, linked) (process_smkex_message_sip test_env nonce_message bob linked)).1

nonce_message-done :
    process_smkex_message_sip test_env nonce_message bob linked ≡ done (true, nonce_processed)
unfolding process_smkex_message_sip process_record print_record print_c_str print_type session_for
    get_session_info print_key dispatch store handle_nonce store_nonce memcpy put_session
    get_record_from_serial Base.peek Base.le_value Base.c_str Base.find Base.update Base.str_eq
    type_of_byte copy_of
nonce_message-done = refl

process_smkex_message_sip-Next_example :
    (s' : SmkexSessionInfo) × (find bob nonce_processed.keychain ≡ some s')
    × Next handshake_nonce (status_of bob linked) s'.status
process_smkex_message_sip-Next_example =
    process_smkex_message_sip-Next test_env nonce_message bob from_bob linked nonce_processed
      nonce_message-parsed nonce_message-done

bob-carol : Base.str_eq bob carol ≡ false
unfolding Base.str_eq
bob-carol = refl

process_smkex_message_sip-others_example :
    find carol nonce_processed.keychain ≡ find carol linked.keychain
process_smkex_message_sip-others_example =
    process_smkex_message_sip-others test_env nonce_message bob carol from_bob linked
      nonce_processed nonce_message-parsed nonce_message-done bob-carol

-- Alice waits for Bob's last message; its digest is not the one that she computes.
abbrev waiting : World
waiting = world_with ((bob, session_at wait_nonce2_h_init) ∷ [])

abbrev digest_from_bob : SmkexT4mRecord
digest_from_bob = record from_bob {
  type = handshake_nonce_h;
  length_ = 40;
  body = 3 ∷ 3 ∷ 3 ∷ 3 ∷ 3 ∷ 3 ∷ 3 ∷ 0 ∷ replicate 32 77;
}

abbrev digest_message : List ℕ
digest_message =
    0
    ∷ 1
    ∷ 5
    ∷ 0
    ∷ 0
    ∷ 0
    ∷ 0
    ∷ 0
    ∷ 0
    ∷ 0
    ∷ 2
    ∷ 0
    ∷ b'a'
    ∷ 0
    ∷ 2
    ∷ 0
    ∷ b'b'
    ∷ 0
    ∷ 2
    ∷ 40
    ∷ 0
    ∷ 3
    ∷ 3
    ∷ 3
    ∷ 3
    ∷ 3
    ∷ 3
    ∷ 3
    ∷ 0
    ∷ replicate 32 77

abbrev digest_processed : World
digest_processed =
    (returned (true, waiting) (process_smkex_message_sip test_env digest_message bob waiting)).1

abbrev pub linked_session : SmkexSessionInfo
linked_session = record (session_at connected) {
  remote_nonce = 3 ∷ 3 ∷ 3 ∷ 3 ∷ 3 ∷ 3 ∷ 3 ∷ 0 ∷ [];
  received_nonce_h_value = some (3 ∷ 3 ∷ 3 ∷ 3 ∷ 3 ∷ 3 ∷ 3 ∷ 0 ∷ replicate 32 77);
  received_nonce_h_value_len = some 40;
}

digest_message-parsed :
    get_record_from_serial test_env.can_alloc (drop 1 digest_message) ≡ done (some digest_from_bob)
unfolding get_record_from_serial Base.peek Base.le_value Base.c_str type_of_byte print_c_str copy_of
digest_message-parsed = refl

digest_message-done :
    process_smkex_message_sip test_env digest_message bob waiting ≡ done (true, digest_processed)
unfolding process_smkex_message_sip process_record print_record print_c_str print_type session_for
    get_session_info print_key dispatch store handle_nonce_h handle_stored_nonce_h store_nonce
    memcpy put_session conclude verify_h calculate_h strncmp_ne malloc get_record_from_serial
    Base.peek Base.le_value Base.c_str Base.find Base.update Base.str_eq type_of_byte copy_of
digest_message-done = refl

digest_message-found : find bob digest_processed.keychain ≡ some linked_session
unfolding process_smkex_message_sip process_record print_record print_c_str print_type session_for
    get_session_info print_key dispatch store handle_nonce_h handle_stored_nonce_h store_nonce
    memcpy put_session conclude verify_h calculate_h strncmp_ne malloc get_record_from_serial
    Base.peek Base.le_value Base.c_str Base.find Base.update Base.str_eq type_of_byte copy_of
digest_message-found = refl

process_smkex_message_sip-connected_example :
    (status_of bob waiting ≡ connected) ⊎ (verify_h test_env linked_session ≡ done true)
process_smkex_message_sip-connected_example =
    process_smkex_message_sip-connected test_env digest_message bob linked_session digest_from_bob
      waiting digest_processed digest_message-parsed digest_message-done digest_message-found refl
