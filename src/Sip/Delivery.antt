-- ===== src/Sip/Delivery.antt =====
-- A message on its way from one account to another: the address it is sent to, and the sender that the
-- receiver sees (sip_stack/src/MpSIPStack.cpp, data_msg/src/MpMsgManager.cpp, utils/src/MpUtils.cpp).
use end_to_end_smkex.Base.{
  ℕ, sym, subst, ◌∙◌, ◌+◌, ◌^◌, ◌<◌, ◌≡◌, refl, false, ◌∷◌, ◌++◌, none, some, length, MpString,
  done, ◌==◌, ap, arith, prefix?-all,
}
use end_to_end_smkex.Utils.Buffer
use end_to_end_smkex.Utils.Buffer.{bytes_from}
use end_to_end_smkex.Utils.Addresses.{
  rfind_char, get_serial_from_uri, get_uri_from_serial, get_serial_from_uri-get_uri_from_serial,
}
use end_to_end_smkex.DataMsg.Manager.{deliver_all, on_msg_received}
use end_to_end_smkex.Service.Pjsua.{Pjsua}
use end_to_end_smkex.Service.State.{MpAccSettings, MpService}
use end_to_end_smkex.Service.Addresses.{uri_of_serial}
use end_to_end_smkex.Sip.Config.{account_id}
use end_to_end_smkex.Sip.Requests.{is_negative, settle, send_msg}
use end_to_end_smkex.Sip.Callbacks.{on_pager}

-- Settings whose addresses can be read back: the user's name is short and not empty, and neither the
-- server's address nor the port contains an `@`.
pub record IsReadable (a : MpAccSettings) : Type 0 where
  pub first : ℕ
  pub others : MpString
  pub named : a.user_name ≡ first ∷ others
  pub short : length a.user_name + 4 < 2 ^ 64
  pub address_plain : rfind_char b'@' a.server_address ≡ none
  pub port_plain : rfind_char b'@' a.port ≡ none

get_serial_from_uri-account_id :
    (a : MpAccSettings)
    → IsReadable a
    → get_serial_from_uri (some (account_id a)) ≡ done a.user_name
unfolding account_id get_uri_from_serial
get_serial_from_uri-account_id a h =
    let made : get_uri_from_serial (some (h.first ∷ h.others)) a.server_address a.port
        ≡ done (account_id a) =
      rw h.named refl in
    let short : length (h.first ∷ h.others) + 4 < 2 ^ 64 =
      subst (λ n. length n + 4 < 2 ^ 64) h.named h.short in
    get_serial_from_uri-get_uri_from_serial h.first h.others a.server_address a.port (account_id a)
      short h.address_plain h.port_plain made
    ∙ ap done (sym h.named)

-- A message from an account, under the identifier that the account was configured with, is delivered
-- whole to every registered callback, and from the user of that account.
pub on_pager-from_account :
    {W : Type 0} (a : MpAccSettings) (body : MpString) (s : MpService W)
    → IsReadable a
    → on_pager (account_id a) (some body) (length body) s
      ≡ done (record s {
        data_msg = record s.data_msg {
          deliveries =
              s.data_msg.deliveries
              ++ deliver_all s.data_msg.msg_cb a.user_name
                  (record { payload = some body; len = length body });
        };
      })
unfolding on_pager on_msg_received bytes_from Buffer.of_bytes
on_pager-from_account a body s h =
    ground (arith, prefix?-all body, get_serial_from_uri-account_id a h)

module _ {W : Type 0} (p : Pjsua W) where
  -- A message for a serial goes out whole, to an address from which the serial is read back, if there
  -- is an account and the message is not empty.
  pub send_msg-addressed :
      (c : ℕ) (cs msg : MpString) (s : MpService W) (uri : MpString)
      → is_negative s.sip_stack.acc_id ≡ false
      → (length msg == 0) ≡ false
      → length (c ∷ cs) + 4 < 2 ^ 64
      → rfind_char b'@' s.user_account.acc_settings.server_address ≡ none
      → rfind_char b'@' s.user_account.acc_settings.port ≡ none
      → uri_of_serial (some (c ∷ cs)) s.user_account.acc_settings ≡ done uri
      → (get_serial_from_uri (some uri) ≡ done (c ∷ cs))
        × (send_msg p (some (c ∷ cs)) (some msg) (length msg) s
            ≡ done (settle (p.im_send s.sip_stack.acc_id uri msg s.outside) s))
  unfolding send_msg uri_of_serial bytes_from
  send_msg-addressed c cs msg s uri h n short ha hp made = (
    get_serial_from_uri-get_uri_from_serial c cs _ _ uri short ha hp made,
    ground (arith, h, n, made, prefix?-all msg),
  )
