-- ===== src/Smkex/Send.antt =====
-- The messages of smkex/src/Smkex.cpp: `sendKeyOrNonce`, `sendAlert`, `sendNonceH`.
use end_to_end_smkex.Base.{
  ℕ, pos, ◌+◌, ◌%◌, ◌^◌, Bool, true, false, List, [], ◌∷◌, ◌++◌, Option, none, some, length,
  prefix?, ◌==◌, if◌then◌else◌, MpString, Outcome, done, ◌>>=◌, or_fault,
}
use end_to_end_smkex.AutoResend.Payload.{message, new_payload}
use end_to_end_smkex.Utils.Buffer
use end_to_end_smkex.Record.{
  SmkexT4mType, alert, handshake_nonce_h, smkex_t4m_protocol_version, get_smkex_t4m_record2,
  serialize_smkex_t4m_record, print_record,
}
use end_to_end_smkex.Smkex.Env.{Env, malloc}
use end_to_end_smkex.Smkex.Session.{SmkexSessionInfo, World, nonce_len, print_key}
use end_to_end_smkex.Smkex.Hash.{calculate_h}

-- `sendKeyOrNonce`: the bytes go to the engine as one message, with UID 1 and 5 retries, whatever
-- the channel. A null pointer sends nothing.
unfoldable pub send_key_or_nonce :
    Option (List ℕ) → ℕ → MpString → (chan : ℕ) → World → Outcome World
send_key_or_nonce none n buddy chan w = done w
send_key_or_nonce (some block) n buddy chan w = do
  _ ← print_key block n
  p ← Buffer.of_bytes (some block) n
  m ← new_payload buddy p (pos 1) (pos 5) (pos 1) message false
  done (record w { sent = w.sent ++ m ∷ [] })

module _ (env : Env) where
  -- A record from this client, printed or not, serialised and sent.
  unfoldable pub send_record :
      (printed : Bool) → MpString → SmkexT4mType → ℕ → List ℕ → (chan : ℕ) → World → Outcome World
  send_record printed buddy type n from chan w = do
    made ←
        get_smkex_t4m_record2 env.can_alloc w.clock 0 buddy w.myself type smkex_t4m_protocol_version
          (n % 2 ^ 16) from
    rec ← or_fault made
    _ ← (if printed then print_record rec else done tt)
    out ← serialize_smkex_t4m_record env.can_alloc rec
    elim out [
      | none ↦ send_key_or_nonce none 0 buddy chan w
      | some o ↦ send_key_or_nonce (some o.serial) o.len buddy chan w
    ]

  unfoldable pub send_alert : MpString → World → Outcome World
  send_alert buddy w = send_record true buddy alert 2 (b'a' ∷ 0 ∷ []) 1 w

  -- `sendNonceH`: both branches on the initiator make the same call. The nonce that is sent is
  -- `local_nonce`, the one in the digest `local_nonce2`.
  unfoldable pub send_nonce_h : SmkexSessionInfo → MpString → World → Outcome (Bool × World)
  send_nonce_h s buddy w = do
    key_len ← or_fault s.remote_pub_key_len
    h ←
        calculate_h env s.remote_pub_key s.remote_nonce s.local_pub_key s.local_nonce2 nonce_len
          key_len
    elim h [
      | none ↦ done (false, w)
      | some digest ↦ if length digest == 0 then done (false, w) else (do
        _ ← print_key s.local_nonce nonce_len
        _ ← malloc env (nonce_len + length digest)
        nonce ← or_fault (prefix? nonce_len s.local_nonce)
        w' ←
            send_record true buddy handshake_nonce_h (nonce_len + length digest) (nonce ++ digest) 2
              w
        done (true, w'))
    ]
