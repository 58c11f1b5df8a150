-- ===== src/Smkex/Handlers.antt =====
-- The cases of `processSmkexMessageSip` (smkex/src/Smkex.cpp), by the record's type and the session's
-- status. A handler returns the session and the world that it leaves.
use end_to_end_smkex.Base.{
  true, some, prefix?, if◌then◌else◌, MpString, Outcome, done, ◌>>=◌, or_fault,
}
use end_to_end_smkex.Record.{SmkexT4mRecord, handshake_key}
use end_to_end_smkex.Smkex.Env.{Env, malloc}
use end_to_end_smkex.Smkex.Session.{
  SmkexSessionInfo, State, World, nonce_len, pub_key_len, not_connected, wait_key_nonce_h_dest,
  wait_nonce_h_dest, wait_key_dest, wait_nonce_init, wait_key_init, wait_nonce2_h_init, connected,
  memcpy, print_key, compute_and_store_session_key,
}
use end_to_end_smkex.Smkex.Hash.{verify_h}
use end_to_end_smkex.Smkex.Send.{send_record, send_alert, send_nonce_h}

abbrev pub Handled : Type 0
Handled = Outcome (SmkexSessionInfo × World)

module _ (env : Env) where
  -- The end of a handshake: `verifyH` decides between `connected` and an alert.
  unfoldable pub conclude : SmkexSessionInfo → MpString → World → Handled
  conclude s buddy w = do
    verified ← verify_h env s
    if verified
        then done (record s { status = connected }, w)
        else (do w' ← send_alert env buddy w; done (record s { status = not_connected }, w'))

  -- The session key, and its print.
  unfoldable pub renew_session_key : SmkexSessionInfo → Outcome SmkexSessionInfo
  renew_session_key s = do
    s' ← compute_and_store_session_key env s
    _ ← print_key s'.session_key s'.session_key_len
    done s'

  -- The remote key of a record, copied into the block that is there.
  unfoldable pub store_remote_key : SmkexSessionInfo → SmkexT4mRecord → Outcome SmkexSessionInfo
  store_remote_key s rec = do
    key ← memcpy s.remote_pub_key rec.body rec.length_
    done (record s {
      remote_pub_key = key;
      remote_pub_key_length = rec.length_;
      remote_pub_key_len = some rec.length_;
    })

  unfoldable pub handle_key : State → SmkexSessionInfo → SmkexT4mRecord → MpString → World → Handled
  handle_key not_connected s rec buddy w = do
    _ ← malloc env rec.length_
    key ← or_fault (prefix? rec.length_ rec.body)
    s₁ ← renew_session_key (record s {
      remote_pub_key = key;
      remote_pub_key_length = rec.length_;
      remote_pub_key_len = some rec.length_;
    })
    n ← or_fault s₁.local_pub_key_length
    w₁ ← send_record env true buddy handshake_key n s₁.local_pub_key 1 w
    done (record s₁ { status = wait_nonce_init }, w₁)
  handle_key wait_key_nonce_h_dest s rec buddy w = do
    s₁ ← store_remote_key s rec
    s₂ ← renew_session_key s₁
    done (record s₂ { status = wait_nonce_h_dest }, w)
  handle_key wait_key_dest s rec buddy w = do
    s₁ ← store_remote_key s rec
    s₂ ← renew_session_key s₁
    (_, w₁) ← send_nonce_h env s₂ buddy w
    conclude s₂ buddy w₁
  handle_key connected s rec buddy w = do
    key ← memcpy s.remote_pub_key rec.body pub_key_len
    done (record s { remote_pub_key = key; status = wait_nonce_init }, w)
  handle_key wait_nonce_h_dest s rec buddy w = done (s, w)
  handle_key wait_nonce_init s rec buddy w = done (s, w)
  handle_key wait_key_init s rec buddy w = done (s, w)
  handle_key wait_nonce2_h_init s rec buddy w = done (s, w)

  -- The remote nonce of a record.
  unfoldable pub store_nonce : SmkexSessionInfo → SmkexT4mRecord → Outcome SmkexSessionInfo
  store_nonce s rec = do
    nonce ← memcpy s.remote_nonce rec.body nonce_len
    done (record s { remote_nonce = nonce })

  -- A nonce that comes out of turn.
  unfoldable pub reject_nonce : SmkexSessionInfo → MpString → World → Handled
  reject_nonce s buddy w = do
    w' ← send_alert env buddy w
    done (record s { status = not_connected }, w')

  unfoldable pub handle_nonce :
      State → SmkexSessionInfo → SmkexT4mRecord → MpString → World → Handled
  handle_nonce wait_nonce_init s rec buddy w = do
    s₁ ← store_nonce s rec
    (_, w₁) ← send_nonce_h env s₁ buddy w
    done (record s₁ { status = wait_nonce2_h_init }, w₁)
  handle_nonce wait_key_nonce_h_dest s rec buddy w = do
    s₁ ← store_nonce s rec
    block ← or_fault s₁.received_nonce_h_value
    received ← memcpy block rec.body rec.length_
    done (record s₁ { received_nonce_h_value = some received; status = wait_key_dest }, w)
  handle_nonce connected s rec buddy w = do
    s₁ ← store_nonce s rec
    done (record s₁ { status = wait_key_init }, w)
  handle_nonce not_connected s rec buddy w = reject_nonce s buddy w
  handle_nonce wait_nonce_h_dest s rec buddy w = reject_nonce s buddy w
  handle_nonce wait_key_dest s rec buddy w = reject_nonce s buddy w
  handle_nonce wait_key_init s rec buddy w = reject_nonce s buddy w
  handle_nonce wait_nonce2_h_init s rec buddy w = reject_nonce s buddy w

  -- A nonce with a digest, behind its copy into `receivedNonceHValue`.
  unfoldable pub handle_stored_nonce_h :
      State → SmkexSessionInfo → SmkexT4mRecord → MpString → World → Handled
  handle_stored_nonce_h wait_key_nonce_h_dest s rec buddy w = do
    s₁ ← store_nonce s rec
    done (s₁, w)
  handle_stored_nonce_h wait_nonce_h_dest s rec buddy w = do
    (_, w₁) ← send_nonce_h env s buddy w
    s₁ ← store_nonce s rec
    conclude s₁ buddy w₁
  handle_stored_nonce_h wait_nonce2_h_init s rec buddy w = do
    s₁ ← store_nonce s rec
    conclude s₁ buddy w
  handle_stored_nonce_h not_connected s rec buddy w = done (s, w)
  handle_stored_nonce_h wait_key_dest s rec buddy w = done (s, w)
  handle_stored_nonce_h wait_nonce_init s rec buddy w = done (s, w)
  handle_stored_nonce_h wait_key_init s rec buddy w = done (s, w)
  handle_stored_nonce_h connected s rec buddy w = done (s, w)

  unfoldable pub handle_nonce_h : SmkexSessionInfo → SmkexT4mRecord → MpString → World → Handled
  handle_nonce_h s rec buddy w = do
    received ← or_fault (prefix? rec.length_ rec.body)
    handle_stored_nonce_h s.status
        (record s {
          received_nonce_h_value = some received;
          received_nonce_h_value_len = some rec.length_;
        })
        rec buddy w
