-- ===== src/Smkex/Session.antt =====
-- `SmkexSessionInfo` (smkex/include/SmkexSessionInfo.h, smkex/src/SmkexSessionInfo.cpp), the key pair
-- and the key derivation of smkex/src/crypto.cpp, and the keychain of smkex/src/Smkex.cpp. The
-- sessions are reached through the keychain alone, so it holds them by value.
use end_to_end_smkex.Base.{
  ℕ, ◌+◌, Bool, true, false, List, ◌++◌, Option, none, some, length, drop, prefix?, replicate, ◌==◌,
  if◌then◌else◌, MpString, Map, find, insert, le_bytes, Outcome, done, exited, fault, ◌>>=◌,
  or_fault,
}
use end_to_end_smkex.AutoResend.Payload.{MpMsgPayload}
use end_to_end_smkex.Smkex.Env.{Env, malloc}

-- `Smkex::state`
pub data State : Type 0 where
  not_connected wait_key_nonce_h_dest wait_nonce_h_dest wait_key_dest : State
  wait_nonce_init wait_key_init wait_nonce2_h_init connected : State

abbrev pub nonce_len : ℕ
nonce_len = 8

abbrev pub pub_key_len : ℕ
pub_key_len = 256

abbrev pub session_nonce_length : ℕ
session_nonce_length = 8

-- A block is the list of its bytes. A length is `none` until it is first written, and so is the
-- pointer `received_nonce_h_value`.
pub record SmkexSessionInfo : Type 0 where
  pub i_am_session_initiator : Bool
  pub status : State
  pub local_nonce : List ℕ
  pub local_nonce2 : List ℕ
  pub local_nonce_length : ℕ
  pub remote_nonce : List ℕ
  pub remote_nonce_length : ℕ
  pub local_pub_key : List ℕ
  pub local_pub_key_length : Option ℕ
  pub remote_pub_key : List ℕ
  pub remote_pub_key_length : ℕ
  pub remote_pub_key_len : Option ℕ
  pub session_key : List ℕ
  pub session_key_len : ℕ
  pub received_nonce_h_value : Option (List ℕ)
  pub received_nonce_h_value_len : Option ℕ
  pub ec_key : ℕ
  pub error_computing_keys : Bool

-- The static members of `Smkex`, with what the handlers use of the world: the time, how many draws
-- and keys were made, and the messages handed to `MpAutoResendEngine::addMessage`, in order.
pub record World : Type 0 where
  pub keychain : Map SmkexSessionInfo
  pub myself : MpString
  pub clock : ℕ
  pub draws : ℕ
  pub keys_made : ℕ
  pub sent : List MpMsgPayload

-- `memcpy(dst, src, n)`
unfoldable pub memcpy : (dst src : List ℕ) → ℕ → Outcome (List ℕ)
memcpy dst src n = do
  bytes ← or_fault (prefix? n src)
  _ ← or_fault (prefix? n dst)
  done (bytes ++ drop n dst)

-- `print_key` reads `n` bytes.
unfoldable pub print_key : List ℕ → ℕ → Outcome (Unit {0})
print_key key n = do _ ← or_fault (prefix? n key); done tt

unfoldable pub set_client_id : MpString → World → World
set_client_id id w = record w { myself = id }

unfoldable pub has_session_info : MpString → World → Bool
has_session_info buddy w = elim (find buddy w.keychain) [ none ↦ false | some s ↦ true ]

unfoldable pub get_session_info : MpString → World → Option SmkexSessionInfo
get_session_info buddy w = find buddy w.keychain

-- `addSessionInfo`: the session, and whether to force it in. The result is always 1.
unfoldable pub add_session_info : MpString → SmkexSessionInfo → Bool → World → World
add_session_info buddy s force w =
    if force
    then record w { keychain = insert buddy s w.keychain }
    else if has_session_info buddy w
    then w
    else record w { keychain = insert buddy s w.keychain }

module _ (env : Env) where
  -- `makeNonce`: `RAND_bytes`, and `exit(1)` if it fails.
  unfoldable pub make_nonce : World → Outcome (List ℕ × World)
  make_nonce w = elim (env.rand_bytes w.draws session_nonce_length) [
    | none ↦ exited
    | some nonce ↦ done (nonce, record w { draws = w.draws + 1 })
  ]

  -- `__new_key_pair`; its null pointer is used as a key.
  unfoldable pub new_key_pair : World → Outcome (ℕ × World)
  new_key_pair w = elim (env.generate_key w.keys_made) [
    | none ↦ fault
    | some key ↦ done (key, record w { keys_made = w.keys_made + 1 })
  ]

  -- The constructor.
  unfoldable pub new_session : World → Outcome (SmkexSessionInfo × World)
  new_session w = do
    (key, w₁) ← new_key_pair w
    let octets = env.public_octets key
    let size = length octets
    _ ← malloc env size
    remote_key ← malloc env size
    remote_nonce ← malloc env nonce_len
    _ ← malloc env 64
    (nonce, w₂) ← make_nonce w₁
    (nonce2, w₃) ← make_nonce w₂
    done (
      record {
        i_am_session_initiator = false;
        status = not_connected;
        local_nonce = nonce;
        local_nonce2 = nonce2;
        local_nonce_length = nonce_len;
        remote_nonce = remote_nonce;
        remote_nonce_length = nonce_len;
        local_pub_key = octets;
        local_pub_key_length = if size == 0 then none else some size;
        remote_pub_key = remote_key;
        remote_pub_key_length = size;
        remote_pub_key_len = none;
        session_key = replicate 64 0;
        session_key_len = 64;
        received_nonce_h_value = none;
        received_nonce_h_value_len = none;
        ec_key = key;
        error_computing_keys = size == 0;
      },
      w₃,
    )

  -- `nist_800_kdf`: two MACs of the secret, over the counters 0 and 1.
  unfoldable pub nist_800_kdf : List ℕ → List ℕ
  nist_800_kdf secret =
      env.hmac_sha256 secret (le_bytes 4 0) ++ env.hmac_sha256 secret (le_bytes 4 1)

  -- `computeAndStoreSessionKey`, which returns 1 whenever it returns. `ECDH_compute_key` leaves the
  -- block alone if it fails.
  unfoldable pub compute_and_store_session_key : SmkexSessionInfo → Outcome SmkexSessionInfo
  compute_and_store_session_key s = do
    n ← or_fault s.remote_pub_key_len
    _ ← print_key s.remote_pub_key n
    octets ← or_fault (prefix? n s.remote_pub_key)
    elim (env.oct2point octets) [
      | none ↦ exited
      | some point ↦ elim (env.ecdh_secret s.ec_key point) [
        | none ↦ done s
        | some secret ↦ do
          let key = nist_800_kdf secret
          block ← memcpy s.session_key key (length key)
          done (record s { session_key = block })
      ]
    ]
