-- ===== src/DataMsg/Manager.antt =====
-- `MpMsgManager` (data_msg/include/MpMsgManager.h, data_msg/src/MpMsgManager.cpp).
use end_to_end_smkex.Base.{
  ℕ, List, [], ◌∷◌, ◌++◌, Option, none, some, MpString, Outcome, done, ◌>>=◌,
}
use end_to_end_smkex.Utils.{MpStatus, success, general_err}
use end_to_end_smkex.Utils.Buffer
use end_to_end_smkex.Utils.Buffer.{MpBuffer}
use end_to_end_smkex.Utils.Callbacks.{add_pool_data, rm_pool_data}
use end_to_end_smkex.Utils.Addresses.{get_serial_from_uri}

-- A call of a callback's `onMsgReceived`.
pub record Delivery : Type 0 where
  pub callback : ℕ
  pub from : MpString
  pub content : MpBuffer

pub record MpMsgManager : Type 0 where
  pub msg_cb : List ℕ
  pub inv_cb : List ℕ
  pub deliveries : List Delivery

unfoldable pub add_msg_cb : Option ℕ → MpMsgManager → MpStatus × MpMsgManager
add_msg_cb none d = (general_err, d)
add_msg_cb (some cb) d = (success, record d { msg_cb = add_pool_data (some cb) d.msg_cb })

unfoldable pub rm_msg_cb : Option ℕ → MpMsgManager → MpStatus × MpMsgManager
rm_msg_cb none d = (general_err, d)
rm_msg_cb (some cb) d = (success, record d { msg_cb = rm_pool_data (some cb) d.msg_cb })

unfoldable pub add_inv_cb : Option ℕ → MpMsgManager → MpStatus × MpMsgManager
add_inv_cb none d = (general_err, d)
add_inv_cb (some cb) d = (success, record d { inv_cb = add_pool_data (some cb) d.inv_cb })

unfoldable pub rm_inv_cb : Option ℕ → MpMsgManager → MpStatus × MpMsgManager
rm_inv_cb none d = (general_err, d)
rm_inv_cb (some cb) d = (success, record d { inv_cb = rm_pool_data (some cb) d.inv_cb })

unfoldable pub deliver_all : List ℕ → MpString → MpBuffer → List Delivery
deliver_all [] from content = []
deliver_all (cb ∷ cbs) from content =
    record { callback = cb; from = from; content = content } ∷ deliver_all cbs from content

-- `onMsgReceived`: the sender's address, and the body with its length.
unfoldable pub on_msg_received :
    Option MpString → Option (List ℕ) → ℕ → MpMsgManager → Outcome MpMsgManager
on_msg_received from_uri msg_body msg_body_len d = do
  msg ← Buffer.of_bytes msg_body msg_body_len
  serial ← get_serial_from_uri from_uri
  done (record d { deliveries = d.deliveries ++ deliver_all d.msg_cb serial msg })
