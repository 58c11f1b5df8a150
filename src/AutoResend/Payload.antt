-- ===== src/AutoResend/Payload.antt =====
-- `MpMsgPayload` (auto_resend/include/MpMsgPayload.h, auto_resend/src/MpMsgPayload.cpp).
use end_to_end_smkex.Base.{
  ℕ, suc, ℤ, pos, prefix?-all, suc_ne_zero, ◌+◌, ◌%◌, ◌^◌, ◌<◌, ◌≡◌, refl, Bool, true, false, List,
  ◌∷◌, some, arith, length, ◌==◌, if◌then◌else◌, MpString, Outcome, done, fault, ◌>>=◌,
}
use end_to_end_smkex.Utils.Buffer.{MpBuffer}
use native.Mathlib.Numerals.{add-one}
use end_to_end_smkex.Utils.Buffer

-- `mp_msg_type_t`
pub data MpMsgType : Type 0 where
  message invitation invitation_delete invitation_response : MpMsgType

unfoldable pub is_message : MpMsgType → Bool
is_message message = true
is_message _ = false

-- `payload` has the message's type in front.
pub record MpMsgPayload : Type 0 where
  pub user_serial : MpString
  pub payload : MpBuffer
  pub uid : ℤ
  pub number_of_retries : ℤ
  pub xfer_status : ℤ
  pub acc_id : ℤ
  pub message_type : MpMsgType
  pub processed : Bool

-- `setPayload`: the block for the transport, with one byte in front for the type. At a length of
-- 2^32 - 1 the new block has no byte, and the write of the type is out of range.
unfoldable pub transport_payload : MpMsgType → MpBuffer → Outcome MpBuffer
unfolding is_message Buffer.bytes_from Buffer.set_payload
transport_payload t p =
    let n = (p.len + 1) % 2 ^ 32 in
    if n == 0 then fault else (do
      bytes ← Buffer.bytes_from p.payload p.len
      Buffer.set_payload Buffer.empty (some ((if is_message t then 0 else 1) ∷ bytes)) n)

-- The constructor.
unfoldable pub new_payload :
    (user_serial : MpString) (payload : MpBuffer) (uid number_of_retries acc_id : ℤ)
    (message_type : MpMsgType) (processed : Bool)
    → Outcome MpMsgPayload
unfolding transport_payload
new_payload user_serial payload uid number_of_retries acc_id message_type processed = do
  p ← transport_payload message_type payload
  done (record {
    user_serial = user_serial;
    payload = p;
    uid = uid;
    number_of_retries = number_of_retries;
    xfer_status = pos 0;
    acc_id = acc_id;
    message_type = message_type;
    processed = processed;
  })

-- `copyMsgPayload`: the copy constructor and `operator=`.
unfoldable pub copy : MpMsgPayload → Outcome MpMsgPayload
unfolding Buffer.copy
copy m = do p ← Buffer.copy m.payload; done (record m { payload = p })

unfoldable pub mark_as_processed : MpMsgPayload → MpMsgPayload
mark_as_processed m = record m { processed = true }

unfoldable pub mark_as_unprocessed : MpMsgPayload → MpMsgPayload
mark_as_unprocessed m = record m { processed = false }

-- A message for `n` bytes carries them behind one byte for its type.
pub new_payload-bytes :
    (serial : MpString) (block : List ℕ) (uid retries acc : ℤ) (t : MpMsgType) (b : Bool)
    → length block + 1 < 2 ^ 32
    → (m : MpMsgPayload) × (new_payload serial
          (record { payload = some block; len = length block })
          uid
          retries
          acc
          t
          b
        ≡ done m)
      × (m.payload ≡ record {
        payload = some ((if is_message t then 0 else 1) ∷ block);
        len = length block + 1;
      })
      × (m.user_serial ≡ serial)
unfolding new_payload
new_payload-bytes serial block uid retries acc t b h =
    let e : (length block + 1) % 2 ^ 32 ≡ suc (length block) = omega arith in
    (
      record {
        user_serial = serial;
        payload = record {
          payload = some ((if is_message t then 0 else 1) ∷ block);
          len = suc (length block);
        };
        uid = uid;
        number_of_retries = retries;
        xfer_status = pos 0;
        acc_id = acc;
        message_type = t;
        processed = b;
      },
      rw (e, prefix?-all block, suc_ne_zero, prefix?-all ((if is_message t then 0 else 1) ∷ block)),
      rw add-one,
      refl,
    )
