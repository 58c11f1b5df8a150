-- ===== src/Smkex/Cases.antt =====
-- Sending, verifying and deriving keys at concrete inputs.
use end_to_end_smkex.Base
use end_to_end_smkex.Base.{
  ℕ, suc, ◌+◌, ◌≡◌, refl, ap, ◌≤◌, ◌<◌, arith, str_eq, c_str, Bool, true, false, List, [], ◌∷◌,
  ◌++◌, Option, none, some, MpString, Map, length, replicate, find, drop, Outcome, done, exited,
  fault, inl, inr, ◌⊎◌, if◌then◌else◌,
}
use end_to_end_smkex.Utils.Buffer
use end_to_end_smkex.AutoResend.Payload.{MpMsgPayload, is_message, transport_payload, new_payload}
use end_to_end_smkex.Record.{
  SmkexT4mRecord, handshake_key, handshake_nonce, byte_of_type, print_c_str, copy_of,
  get_smkex_t4m_record2, serialize_smkex_t4m_record, print_type, print_record,
}
use end_to_end_smkex.Smkex.Env.{malloc}
use end_to_end_smkex.Smkex.Session.{
  SmkexSessionInfo, World, not_connected, wait_nonce_h_dest, wait_nonce_init, wait_key_nonce_h_dest,
  connected, print_key, get_session_info, make_nonce,
}
use end_to_end_smkex.Smkex.Hash.{calculate_h, verify_h}
use end_to_end_smkex.Smkex.Send.{send_key_or_nonce, send_record}
use end_to_end_smkex.Smkex.Init.{
  put_session, is_wait_key_nonce_h_dest, init_old_session, init_session,
}
use end_to_end_smkex.Smkex.Process.{process_record, on_msg_received}
use end_to_end_smkex.Service.Sample.{sample, settings-IsReadable, fresh, busy}
use end_to_end_smkex.Smkex.Journey.{Arrives, send_record-Arrives}
use end_to_end_smkex.Smkex.Release.{Pointers, destroy, destroy-frees_twice}
use end_to_end_smkex.Smkex.Wire.{Carries}
use end_to_end_smkex.Smkex.Verify.{text_of, verify_h-inverted}
use end_to_end_smkex.Smkex.Agreement.{IsEcdh, derived, handle_key-agrees}
use end_to_end_smkex.Smkex.Handlers.{handle_key}
use end_to_end_smkex.Smkex.Early.{init_session-nonce_first}
use end_to_end_smkex.Smkex.Start.{init_session-unknown_buddy, init_session-sends_two}
use end_to_end_smkex.Smkex.Faults.{on_msg_received-exact_block, process_record-short_key}
use end_to_end_smkex.Smkex.Session.{nonce_len, session_nonce_length}
use end_to_end_smkex.Smkex.Tests.{
  test_env, alice, bob, session_at, linked, from_bob, nonce_message, linked_session, returned,
}

abbrev digest : List ℕ
digest = replicate 32 19

linked_session-digest :
    calculate_h test_env linked_session.local_pub_key linked_session.local_nonce
      linked_session.remote_pub_key linked_session.remote_nonce nonce_len 3
    ≡ done (some digest)
unfolding calculate_h malloc Base.c_str
linked_session-digest = refl

abbrev from_peer : List ℕ
from_peer = 3 ∷ 3 ∷ 3 ∷ 3 ∷ 3 ∷ 3 ∷ 3 ∷ 0 ∷ replicate 32 77

verify_h-inverted_example :
    verify_h test_env linked_session
    ≡ done
        (if str_eq (text_of 32 digest) (text_of 32 (drop nonce_len from_peer)) then false else true)
verify_h-inverted_example =
    verify_h-inverted test_env linked_session 3 digest from_peer refl linked_session-digest refl
      (omega arith)

abbrev matched_session : SmkexSessionInfo
matched_session = record linked_session {
  received_nonce_h_value = some ((3 ∷ 3 ∷ 3 ∷ 3 ∷ 3 ∷ 3 ∷ 3 ∷ 0 ∷ []) ++ digest);
}

abbrev peer_session : SmkexSessionInfo
peer_session = record (session_at connected) {
  ec_key = 1;
  local_pub_key = 4 ∷ 2 ∷ 0 ∷ [];
  remote_pub_key = 4 ∷ 1 ∷ 0 ∷ [];
}

bob-linked : find bob linked.keychain ≡ some (session_at connected)
unfolding Base.find Base.str_eq
bob-linked = refl

alice-unknown : find alice linked.keychain ≡ none
unfolding Base.find Base.str_eq
alice-unknown = refl

connected-idle : is_wait_key_nonce_h_dest connected ≡ false
unfolding is_wait_key_nonce_h_dest
connected-idle = refl

init_session-unknown_buddy_example : ¬ (init_session test_env alice linked ≡ done linked)
init_session-unknown_buddy_example =
    init_session-unknown_buddy test_env alice linked linked alice-unknown

abbrev restarted : World
restarted = returned linked (init_session test_env bob linked)

restarted-done : init_session test_env bob linked ≡ done restarted
unfolding init_session init_old_session malloc make_nonce get_session_info is_wait_key_nonce_h_dest
    send_record send_key_or_nonce get_smkex_t4m_record2 copy_of print_record print_c_str print_type
    serialize_smkex_t4m_record byte_of_type print_key put_session new_payload transport_payload
    is_message Buffer.of_bytes Buffer.bytes_from Buffer.set_payload Base.le_bytes Base.c_str
    Base.find Base.update Base.str_eq
restarted-done = refl

init_session-sends_two_example :
    (nonce : List ℕ) × (key_message : MpMsgPayload) × (nonce_message : MpMsgPayload)
    × (test_env.rand_bytes 0 session_nonce_length ≡ some nonce)
    × (restarted.sent ≡ ([] ++ key_message ∷ []) ++ nonce_message ∷ [])
    × Carries test_env bob alice handshake_key 3 (4 ∷ 1 ∷ 0 ∷ []) key_message
    × Carries test_env bob alice handshake_nonce session_nonce_length nonce nonce_message
init_session-sends_two_example =
    init_session-sends_two test_env (λ n. refl) bob (session_at connected) 3 linked restarted
      bob-linked connected-idle refl (omega arith) (omega arith) (omega arith) (omega arith)
      restarted-done

init_session-nonce_first_example :
    ¬ (process_record test_env from_bob bob restarted ≡ done (true, restarted))
init_session-nonce_first_example =
    init_session-nonce_first test_env from_bob bob linked restarted (true, restarted)
      (λ s e. ground (arith, bob-linked, e)) refl restarted-done

on_msg_received-exact_block_example :
    ¬ (on_msg_received test_env bob nonce_message 29 linked ≡ done linked)
on_msg_received-exact_block_example =
    on_msg_received-exact_block test_env bob nonce_message 29 linked linked refl

process_record-short_key_example : ¬ (
    process_record test_env (record from_bob { type = handshake_key }) bob linked
    ≡ done (true, linked))
process_record-short_key_example =
    process_record-short_key test_env (record from_bob { type = handshake_key }) bob
      (session_at connected) linked (true, linked) bob-linked refl refl (omega arith)

abbrev key_sent : World
key_sent = returned linked (send_record test_env true bob handshake_key 3 (4 ∷ 1 ∷ 0 ∷ []) 1 linked)

key_sent-done :
    send_record test_env true bob handshake_key 3 (4 ∷ 1 ∷ 0 ∷ []) 1 linked ≡ done key_sent
unfolding send_record send_key_or_nonce get_smkex_t4m_record2 copy_of print_record print_c_str
    print_type serialize_smkex_t4m_record byte_of_type print_key new_payload transport_payload
    is_message Buffer.of_bytes Buffer.bytes_from Buffer.set_payload Base.le_bytes Base.c_str
key_sent-done = refl

abbrev test_env-IsEcdh : IsEcdh test_env
test_env-IsEcdh = record {
  point_of = λ key. key + 1;
  secret = λ own other. (own + (other + 1)) ∷ [];
  decodes = λ key. refl;
  shares = λ own other. refl;
  commutes = λ own other. ap (λ x. x ∷ []) (omega arith);
  mac_full = λ key bytes. refl;
}

abbrev key_record : List ℕ → SmkexT4mRecord
key_record key = record from_bob { type = handshake_key; length_ = 3; body = key }

handle_key-agrees_example :
    (a' : SmkexSessionInfo) × (b' : SmkexSessionInfo) × (handle_key test_env wait_key_nonce_h_dest
        peer_session
        (key_record (4 ∷ 1 ∷ 0 ∷ []))
        alice
        linked
      ≡ done (a', linked))
    × (handle_key test_env not_connected
          (session_at not_connected)
          (key_record (4 ∷ 2 ∷ 0 ∷ []))
          bob
          linked
        ≡ done (b', key_sent))
    × (a'.session_key ≡ b'.session_key)
    × (a'.session_key ≡ derived test_env (2 ∷ []))
    × (a'.status ≡ wait_nonce_h_dest)
    × (b'.status ≡ wait_nonce_init)
handle_key-agrees_example =
    handle_key-agrees test_env test_env-IsEcdh peer_session (session_at not_connected)
      (key_record (4 ∷ 2 ∷ 0 ∷ [])) (key_record (4 ∷ 1 ∷ 0 ∷ [])) 3 bob alice linked linked key_sent
      (refl, refl, refl) (refl, refl, refl) (omega arith) refl refl key_sent-done

send_record-Arrives_example :
    (m : MpMsgPayload) × (key_sent.sent ≡ linked.sent ++ m ∷ [])
    × Arrives sample test_env busy fresh bob alice handshake_key 3 (4 ∷ 1 ∷ 0 ∷ []) m
send_record-Arrives_example =
    send_record-Arrives sample test_env busy fresh (λ n. refl) true b'b' [] handshake_key 3
      (4 ∷ 1 ∷ 0 ∷ []) 1 linked key_sent (omega arith) (omega arith) (omega arith) (omega arith) tt
      settings-IsReadable refl key_sent-done

-- A session with a session key and a nonce.
abbrev keyed : Pointers
keyed = record {
  dh = none;
  local_nonce = some 16;
  local_pub_key = none;
  session_key = some 32;
  iv = none;
  local_priv_key = none;
  remote_pub_key = none;
  remote_nonce = none;
  local_nonce2 = none;
  received_nonce_h_value = none;
  ec_local_pub_key = none;
  ec_key = none;
  ec_group = none;
}

destroy-frees_twice_example : destroy keyed (λ b. true) ≡ fault
destroy-frees_twice_example = destroy-frees_twice keyed 32 (λ b. true) refl
