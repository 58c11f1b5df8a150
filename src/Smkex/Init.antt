-- ===== src/Smkex/Init.antt =====
-- `initSession` of smkex/src/Smkex.cpp.
use end_to_end_smkex.Base.{
  ℕ, Bool, true, false, List, none, some, if◌then◌else◌, MpString, update, Outcome, done, ◌>>=◌,
  or_fault,
}
use end_to_end_smkex.Record.{handshake_key, handshake_nonce, handshake}
use end_to_end_smkex.Smkex.Env.{Env, malloc}
use end_to_end_smkex.Smkex.Session.{
  SmkexSessionInfo, State, World, session_nonce_length, wait_key_nonce_h_dest, print_key,
  get_session_info, add_session_info, new_session, make_nonce,
}
use end_to_end_smkex.Smkex.Send.{send_key_or_nonce, send_record}

-- The writes through the pointer in the keychain.
unfoldable pub put_session : MpString → SmkexSessionInfo → World → World
put_session buddy s w = record w { keychain = update buddy s w.keychain }

-- `status == waitKeyNonceHDest`
unfoldable pub is_wait_key_nonce_h_dest : State → Bool
is_wait_key_nonce_h_dest wait_key_nonce_h_dest = true
is_wait_key_nonce_h_dest _ = false

module _ (env : Env) where
  -- `initSession` of a buddy with no session.
  unfoldable pub init_new_session : List ℕ → MpString → World → Outcome World
  init_new_session nonce buddy w = do
    (s₀, w₁) ← new_session env w
    let s = record s₀ {
      i_am_session_initiator = true;
      local_nonce = nonce;
      local_nonce_length = session_nonce_length;
    }
    let w₂ = add_session_info buddy s true w₁
    n ← or_fault s.local_pub_key_length
    _ ← print_key s.local_pub_key n
    w₃ ← send_record env true buddy handshake n s.local_pub_key 1 w₂
    w₄ ← send_key_or_nonce (some s.local_nonce) s.local_nonce_length buddy 2 w₃
    done (put_session buddy (record s { status = wait_key_nonce_h_dest }) w₄)

  -- `initSession` of a buddy with a session.
  unfoldable pub init_old_session : List ℕ → MpString → SmkexSessionInfo → World → Outcome World
  init_old_session nonce buddy s₀ w =
      let s = record s₀ { i_am_session_initiator = true } in
      if is_wait_key_nonce_h_dest s.status then done (put_session buddy s w) else (do
        let s₁ = record s { local_nonce = nonce; local_nonce_length = session_nonce_length }
        n ← or_fault s₁.local_pub_key_length
        w₁ ← send_record env true buddy handshake_key n s₁.local_pub_key 1 w
        w₂ ← send_record env false buddy handshake_nonce s₁.local_nonce_length s₁.local_nonce 1 w₁
        done (put_session buddy (record s₁ { status = wait_key_nonce_h_dest }) w₂))

  unfoldable pub init_session : MpString → World → Outcome World
  init_session buddy w = do
    _ ← malloc env session_nonce_length
    (nonce, w₁) ← make_nonce env w
    w₂ ← elim (get_session_info buddy w₁) [
      | none ↦ init_new_session nonce buddy w₁
      | some s ↦ init_old_session nonce buddy s w₁
    ]
    s ← or_fault (get_session_info buddy w₂)
    _ ← print_key s.local_nonce session_nonce_length
    done w₂
