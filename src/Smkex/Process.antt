-- ===== src/Smkex/Process.antt =====
-- `processSmkexMessageSip` and `onMsgReceived` of smkex/src/Smkex.cpp.
use end_to_end_smkex.Base.{
  ℕ, ◌+◌, Bool, true, false, List, none, some, drop, prefix?, if◌then◌else◌, MpString, Outcome,
  done, exited, ◌>>=◌, or_fault,
}
use end_to_end_smkex.Record.{
  SmkexT4mType, SmkexT4mRecord, handshake_key, handshake_nonce, handshake_nonce_h, handshake_h,
  alert, application_data, handshake, unnamed, get_record_from_serial, print_record,
}
use end_to_end_smkex.Smkex.Env.{Env, malloc}
use end_to_end_smkex.Smkex.Session.{
  SmkexSessionInfo, World, not_connected, print_key, get_session_info, add_session_info,
  new_session,
}
use end_to_end_smkex.Smkex.Init.{put_session, init_session}
use end_to_end_smkex.Smkex.Handlers.{Handled, handle_key, handle_nonce, handle_nonce_h}

module _ (env : Env) where
  -- Writes back what a handler did to the session.
  unfoldable pub store : MpString → Handled → Outcome World
  store buddy handled = do (s, w) ← handled; done (put_session buddy s w)

  -- The `switch` on the record's type.
  unfoldable pub dispatch :
      SmkexT4mType → SmkexSessionInfo → SmkexT4mRecord → MpString → World → Outcome World
  dispatch handshake_key s rec buddy w = store buddy (handle_key env s.status s rec buddy w)
  dispatch handshake_nonce s rec buddy w = store buddy (handle_nonce env s.status s rec buddy w)
  dispatch handshake_nonce_h s rec buddy w = store buddy (handle_nonce_h env s rec buddy w)
  dispatch handshake_h s rec buddy w = exited
  dispatch alert s rec buddy w =
      let w' = put_session buddy (record s { status = not_connected }) w in
      if s.i_am_session_initiator then init_session env buddy w' else done w'
  dispatch application_data s rec buddy w = done w
  dispatch handshake s rec buddy w = done w
  dispatch (unnamed b) s rec buddy w = done w

  -- The session of the sender, made if there is none.
  unfoldable pub session_for : MpString → World → Handled
  session_for buddy w = elim (get_session_info buddy w) [
    | some s ↦ do n ← or_fault s.local_pub_key_length; _ ← print_key s.local_pub_key n; done (s, w)
    | none ↦ do
      (s₀, w₁) ← new_session env w
      let s = record s₀ { i_am_session_initiator = false }
      done (s, add_session_info buddy s true w₁)
  ]

  -- What follows the parse: the print, the session and the `switch`.
  unfoldable pub process_record : SmkexT4mRecord → MpString → World → Outcome (Bool × World)
  process_record rec buddy w = do
    _ ← print_record rec
    (s, w₁) ← session_for buddy w
    w₂ ← dispatch rec.type s rec buddy w₁
    done (true, w₂)

  -- `processSmkexMessageSip`; the flag is its result, 1 or 0.
  unfoldable pub process_smkex_message_sip : List ℕ → MpString → World → Outcome (Bool × World)
  process_smkex_message_sip msg buddy w = do
    parsed ← get_record_from_serial env.can_alloc (drop 1 msg)
    elim parsed [ none ↦ done (false, w) | some rec ↦ process_record rec buddy w ]

  -- `onMsgReceived`: `msg` is the block behind the pointer.
  unfoldable pub on_msg_received : MpString → List ℕ → ℕ → World → Outcome World
  on_msg_received serial msg msg_len w = do
    _ ← or_fault (prefix? msg_len msg)
    block ← malloc env (msg_len + 1)
    copied ← or_fault (prefix? (msg_len + 1) msg)
    parsed ← get_record_from_serial env.can_alloc (drop 1 msg)
    rec ← or_fault parsed
    _ ← print_record rec
    (_, w') ← process_smkex_message_sip copied serial w
    done w'
