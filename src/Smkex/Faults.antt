-- ===== src/Smkex/Faults.antt =====
-- Reads and writes of smkex/src/Smkex.cpp that leave their blocks.
use end_to_end_smkex.Base.{
  ℕ, ◌+◌, ◌<◌, ◌≡◌, Bool, List, some, MpString, length, prefix?-short, find, done, fault, arith,
}
use end_to_end_smkex.Record.{SmkexT4mRecord, handshake_key}
use end_to_end_smkex.Smkex.Env.{Env, malloc}
use end_to_end_smkex.Smkex.Session.{
  SmkexSessionInfo, World, connected, pub_key_len, memcpy, get_session_info,
}
use end_to_end_smkex.Smkex.Handlers.{handle_key}
use end_to_end_smkex.Smkex.Process.{store, dispatch, session_for, process_record, on_msg_received}

memcpy-short : (dst src : List ℕ) (n : ℕ) → length src < n → memcpy dst src n ≡ fault
unfolding memcpy
memcpy-short dst src n h = rw (prefix?-short n src h)

module _ (env : Env) where
  -- `onMsgReceived` never returns on a message in a block of exactly its length: it copies one byte
  -- more than the message has.
  pub on_msg_received-exact_block :
      (serial : MpString) (msg : List ℕ) (msg_len : ℕ) (w w' : World)
      → length msg ≡ msg_len
      → ¬ (on_msg_received env serial msg msg_len w ≡ done w')
  unfolding on_msg_received malloc
  on_msg_received-exact_block serial msg msg_len w w' size e =
      let short = prefix?-short (msg_len + 1) msg (omega arith) in grind (arith, short)

  -- A key record with less than `PUB_KEY_LEN` bytes, from a buddy whose session is connected, is never
  -- processed to the end: `memcpy` takes 256 bytes from the record all the same.
  pub process_record-short_key :
      (rec : SmkexT4mRecord) (buddy : MpString) (s : SmkexSessionInfo) (w : World)
      (w' : Bool × World)
      → find buddy w.keychain ≡ some s
      → s.status ≡ connected
      → rec.type ≡ handshake_key
      → length rec.body < pub_key_len
      → ¬ (process_record env rec buddy w ≡ done w')
  unfolding process_record session_for get_session_info dispatch store handle_key
  process_record-short_key rec buddy s w w' there c typed short e =
      let stop = memcpy-short s.remote_pub_key rec.body pub_key_len short in grind (arith, stop)
