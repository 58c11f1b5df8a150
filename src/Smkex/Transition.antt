-- ===== src/Smkex/Transition.antt =====
-- The states that a record may lead to, and what a handler leaves alone.
use end_to_end_smkex.Base.{◌≡◌, refl, Bool, true, MpString, done, arith, ◌⊎◌}
use end_to_end_smkex.Record.{
  SmkexT4mType, SmkexT4mRecord, handshake_key, handshake_nonce, handshake_nonce_h, alert,
}
use end_to_end_smkex.Smkex.Env.{Env}
use end_to_end_smkex.Smkex.Session.{
  SmkexSessionInfo, State, World, not_connected, wait_key_nonce_h_dest, wait_nonce_h_dest,
  wait_key_dest, wait_nonce_init, wait_key_init, wait_nonce2_h_init, connected,
}
use end_to_end_smkex.Smkex.Hash.{verify_h}
use end_to_end_smkex.Smkex.Send.{send_nonce_h}
use end_to_end_smkex.Smkex.Handlers.{
  conclude, handle_key, store_nonce, reject_nonce, handle_nonce, handle_stored_nonce_h,
  handle_nonce_h,
}
use end_to_end_smkex.Smkex.Keeps.{send_record-keychain, send_alert-keychain}

-- The table of the protocol: where a record of the type may lead from each state.
abbrev pub Next : SmkexT4mType → State → State → Type 0
Next handshake_key not_connected t = t ≡ wait_nonce_init
Next handshake_key wait_key_nonce_h_dest t = t ≡ wait_nonce_h_dest
Next handshake_key wait_key_dest t = (t ≡ connected) ⊎ (t ≡ not_connected)
Next handshake_key connected t = t ≡ wait_nonce_init
Next handshake_key s t = t ≡ s
Next handshake_nonce wait_nonce_init t = t ≡ wait_nonce2_h_init
Next handshake_nonce wait_key_nonce_h_dest t = t ≡ wait_key_dest
Next handshake_nonce connected t = t ≡ wait_key_init
Next handshake_nonce s t = t ≡ not_connected
Next handshake_nonce_h wait_nonce_h_dest t = (t ≡ connected) ⊎ (t ≡ not_connected)
Next handshake_nonce_h wait_nonce2_h_init t = (t ≡ connected) ⊎ (t ≡ not_connected)
Next handshake_nonce_h s t = t ≡ s
Next alert s t = (t ≡ not_connected) ⊎ (t ≡ wait_key_nonce_h_dest)
Next type s t = t ≡ s

-- How a handler at the state `st` may end: along the table, with the keychain as it was, and
-- newly connected only behind a `verifyH` that returned true.
pub record Ends (env : Env) (type : SmkexT4mType) (st : State) (w : World) (s' : SmkexSessionInfo)
    (w' : World) : Type 0 where
  pub next : Next type st s'.status
  pub same_keychain : w'.keychain ≡ w.keychain
  pub verified : s'.status ≡ connected → (st ≡ connected) ⊎ (verify_h env s' ≡ done true)

module _ (env : Env) where
  verify_h-status :
      (s : SmkexSessionInfo) (t : State) → verify_h env (record s { status = t }) ≡ verify_h env s
  unfolding verify_h
  verify_h-status s t = refl

  pub send_nonce_h-keychain :
      (s : SmkexSessionInfo) (buddy : MpString) (w : World) (r : Bool × World)
      → send_nonce_h env s buddy w ≡ done r
      → r.1.keychain ≡ w.keychain
  unfolding send_nonce_h
  send_nonce_h-keychain s buddy w r e = grind (arith, send_record-keychain)

  -- The two ways in which a handshake ends.
  conclude-cases :
      (s : SmkexSessionInfo) (buddy : MpString) (w : World) (s' : SmkexSessionInfo) (w' : World)
      → conclude env s buddy w ≡ done (s', w')
      → (w'.keychain ≡ w.keychain)
        × (((s'.status ≡ connected) × (verify_h env s' ≡ done true)) ⊎ (s'.status ≡ not_connected))
  unfolding conclude
  conclude-cases s buddy w s' w' e = grind (arith, verify_h-status, send_alert-keychain)

  pub handle_key-Ends :
      (st : State) (s : SmkexSessionInfo) (rec : SmkexT4mRecord) (buddy : MpString) (w : World)
      (s' : SmkexSessionInfo) (w' : World)
      → s.status ≡ st
      → handle_key env st s rec buddy w ≡ done (s', w')
      → Ends env handshake_key st w s' w'
  unfolding handle_key
  handle_key-Ends not_connected s rec buddy w s' w' a e = grind (arith, send_record-keychain)
  handle_key-Ends wait_key_dest s rec buddy w s' w' a e =
      grind (arith, send_nonce_h-keychain, conclude-cases)
  handle_key-Ends _ s rec buddy w s' w' a e = grind (arith, send_nonce_h-keychain, conclude-cases)

  pub handle_nonce-Ends :
      (st : State) (s : SmkexSessionInfo) (rec : SmkexT4mRecord) (buddy : MpString) (w : World)
      (s' : SmkexSessionInfo) (w' : World)
      → handle_nonce env st s rec buddy w ≡ done (s', w')
      → Ends env handshake_nonce st w s' w'
  unfolding handle_nonce reject_nonce
  handle_nonce-Ends wait_nonce_init s rec buddy w s' w' e = grind (arith, send_nonce_h-keychain)
  handle_nonce-Ends _ s rec buddy w s' w' e =
      grind (arith, send_nonce_h-keychain, send_alert-keychain)

  handle_stored_nonce_h-Ends :
      (st : State) (s : SmkexSessionInfo) (rec : SmkexT4mRecord) (buddy : MpString) (w : World)
      (s' : SmkexSessionInfo) (w' : World)
      → s.status ≡ st
      → handle_stored_nonce_h env st s rec buddy w ≡ done (s', w')
      → Ends env handshake_nonce_h st w s' w'
  unfolding handle_stored_nonce_h store_nonce
  handle_stored_nonce_h-Ends wait_nonce_h_dest s rec buddy w s' w' a e =
      grind (arith, send_nonce_h-keychain, conclude-cases)
  handle_stored_nonce_h-Ends _ s rec buddy w s' w' a e = grind (arith, conclude-cases)

  pub handle_nonce_h-Ends :
      (s : SmkexSessionInfo) (rec : SmkexT4mRecord) (buddy : MpString) (w : World)
      (s' : SmkexSessionInfo) (w' : World)
      → handle_nonce_h env s rec buddy w ≡ done (s', w')
      → Ends env handshake_nonce_h s.status w s' w'
  unfolding handle_nonce_h
  handle_nonce_h-Ends s rec buddy w s' w' e = grind (arith, handle_stored_nonce_h-Ends)
