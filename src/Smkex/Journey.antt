-- ===== src/Smkex/Journey.antt =====
-- A record of the key exchange on its way to the peer: smkex/src/Smkex.cpp,
-- auto_resend/src/MpMsgPayload.cpp, sip_stack/src/MpSIPStack.cpp, data_msg/src/MpMsgManager.cpp.
use end_to_end_smkex.Base.{
  ℕ, ◌+◌, ◌^◌, ◌<◌, ◌≡◌, refl, sym, subst, ap, ◌∙◌, Bool, true, false, List, [], ◌∷◌, ◌++◌, some,
  MpString, length, drop, prefix?, ◌==◌, done, arith,
}
use end_to_end_smkex.Utils.Addresses.{get_serial_from_uri, get_uri_from_serial}
use end_to_end_smkex.AutoResend.Payload.{MpMsgPayload}
use end_to_end_smkex.DataMsg.Manager.{deliver_all}
use end_to_end_smkex.Record.{SmkexT4mType, SmkexT4mRecord, get_record_from_serial}
use end_to_end_smkex.Record.Layout.{IsTypeByte}
use end_to_end_smkex.Service.Pjsua.{Pjsua}
use end_to_end_smkex.Service.State.{MpService}
use end_to_end_smkex.Service.Addresses.{uri_of_serial}
use end_to_end_smkex.Sip.Config.{account_id}
use end_to_end_smkex.Sip.Requests.{is_negative, settle, send_msg}
use end_to_end_smkex.Sip.Callbacks.{on_pager}
use end_to_end_smkex.Sip.Delivery.{IsReadable, on_pager-from_account, send_msg-addressed}
use end_to_end_smkex.Smkex.Env.{Env}
use end_to_end_smkex.Smkex.Session.{World}
use end_to_end_smkex.Smkex.Send.{send_record}
use end_to_end_smkex.Smkex.Wire.{Carries, send_record-Carries}

-- The identifier of a user's account on the server of the services' own account.
abbrev pub address_of : {W : Type 0} → MpString → MpService W → MpString
address_of user s = account_id (record s.user_account.acc_settings { user_name = user })

uri_of_serial-address :
    {W : Type 0} (c : ℕ) (cs : MpString) (s : MpService W)
    → uri_of_serial (some (c ∷ cs)) s.user_account.acc_settings ≡ done (address_of (c ∷ cs) s)
unfolding uri_of_serial get_uri_from_serial account_id
uri_of_serial-address c cs s = refl

-- The sender's services `s`, where the message `m` is for `buddy`, and the receiver's services `r`.
pub record Arrives {W V : Type 0} (p : Pjsua W) (env : Env) (s : MpService W) (r : MpService V)
    (buddy me : MpString) (type : SmkexT4mType) (n : ℕ) (from : List ℕ) (m : MpMsgPayload)
    : Type 0 where
  pub block : List ℕ
  pub rec : SmkexT4mRecord
  -- it goes out whole, to the address of the buddy's account on the same server
  pub sent :
      send_msg p (some m.user_serial) m.payload.payload m.payload.len s
      ≡ done (settle (p.im_send s.sip_stack.acc_id (address_of buddy s) block s.outside) s)
  pub addressed : get_serial_from_uri (some (address_of buddy s)) ≡ done buddy
  -- under the sender's account, it comes whole to every callback of the receiver, from its user
  pub received :
      on_pager (account_id s.user_account.acc_settings) (some block) (length block) r
      ≡ done (record r {
        data_msg = record r.data_msg {
          deliveries =
              r.data_msg.deliveries
              ++ deliver_all r.data_msg.msg_cb s.user_account.acc_settings.user_name
                  (record { payload = some block; len = length block });
        };
      })
  -- `getRecordFromSerial` makes a record of the type of its bytes, from `me`, with the bytes `from`
  pub parsed : get_record_from_serial env.can_alloc (drop 1 block) ≡ done (some rec)
  pub typed : rec.type ≡ type
  pub from_me : rec.sender ≡ me ++ 0 ∷ []
  pub body : prefix? n from ≡ some rec.body

module _ {W V : Type 0} (p : Pjsua W) (env : Env) (s : MpService W) (r : MpService V) where
  Carries-Arrives :
      (c : ℕ) (cs me : MpString) (type : SmkexT4mType) (n : ℕ) (from : List ℕ) (m : MpMsgPayload)
      → Carries env (c ∷ cs) me type n from m
      → IsReadable s.user_account.acc_settings
      → is_negative s.sip_stack.acc_id ≡ false
      → length (c ∷ cs) + 4 < 2 ^ 64
      → Arrives p env s r (c ∷ cs) me type n from m
  Carries-Arrives c cs me type n from m h readable id short =
      let full : (length h.block == 0) ≡ false =
        subst (λ b. (length b == 0) ≡ false) (sym h.headed) (ground arith) in
      let (addressed, out) =
        send_msg-addressed p c cs h.block s (address_of (c ∷ cs) s) id full short
          readable.address_plain readable.port_plain (uri_of_serial-address c cs s) in
      record {
        block = h.block;
        rec = h.rec;
        sent =
            ap (λ k. send_msg p (some k) m.payload.payload m.payload.len s) h.to_buddy
            ∙ ap (λ b. send_msg p (some (c ∷ cs)) b.payload b.len s) h.bytes
            ∙ out;
        addressed = addressed;
        received = on_pager-from_account s.user_account.acc_settings h.block r readable;
        parsed = h.parsed;
        typed = h.typed;
        from_me = h.from_me;
        body = h.body;
      }

  -- A record that is sent with memory becomes one message for the buddy; handed to the SIP stack, it
  -- goes out whole to the buddy's account on the same server; under the sender's account it comes to
  -- every callback of the receiver, from the sender's user; and `getRecordFromSerial`, applied to the
  -- bytes behind the first, returns a record of the type, from the sender, with the `n` bytes. What the
  -- callbacks do with the message is not part of this. The buddy has a name, the sender has an account
  -- whose address can be read back, and the names, the time, the length and the type fit their fields.
  pub send_record-Arrives :
      (memory : (n : ℕ) → env.can_alloc n ≡ true) (printed : Bool) (c : ℕ) (cs : MpString)
      (type : SmkexT4mType) (n : ℕ) (from : List ℕ) (chan : ℕ) (w w' : World)
      → length (c ∷ cs) + 1 < 2 ^ 16
      → length w.myself + 1 < 2 ^ 16
      → w.clock < 2 ^ 64
      → n < 2 ^ 16
      → IsTypeByte type
      → IsReadable s.user_account.acc_settings
      → is_negative s.sip_stack.acc_id ≡ false
      → send_record env printed (c ∷ cs) type n from chan w ≡ done w'
      → (m : MpMsgPayload) × (w'.sent ≡ w.sent ++ m ∷ [])
        × Arrives p env s r (c ∷ cs) w.myself type n from m
  send_record-Arrives memory printed c cs type n from chan w w' hb hm hc hn ht readable id e =
      let (m, handed, carries) =
        send_record-Carries env memory printed (c ∷ cs) type n from chan w w' hb hm hc hn ht e in
      (m, handed, Carries-Arrives c cs w.myself type n from m carries readable id (omega arith))
