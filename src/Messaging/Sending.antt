-- ===== src/Messaging/Sending.antt =====
-- A message on its way from the engine to the SIP stack (data_msg/src/MpMsgTransport.cpp,
-- sip_stack/src/MpSIPStack.cpp).
use end_to_end_smkex.Base.{
  ℕ, ◌≡◌, refl, ap, ◌∙◌, true, List, [], ◌∷◌, some, length, is_positive, ◌==◌, MpString, done,
  arith, Bool-cases, inl, inr, prefix?-all,
}
use end_to_end_smkex.Utils.{MpStatus, input_err, general_err}
use end_to_end_smkex.Utils.Buffer.{bytes_from}
use end_to_end_smkex.Utils.Addresses.{get_uri_from_serial}
use end_to_end_smkex.AutoResend.Payload.{MpMsgPayload, mark_as_processed, mark_as_unprocessed}
use end_to_end_smkex.DataMsg.Transport
use end_to_end_smkex.DataMsg.Transport.{MpMsgTransport}
use end_to_end_smkex.Service.Pjsua.{Pjsua}
use end_to_end_smkex.Service.State.{MpAccSettings, MpService, set_outside}
use end_to_end_smkex.Service.Addresses.{uri_of_serial}
use end_to_end_smkex.Sip.Requests.{of_pj, is_negative, send_msg}
use end_to_end_smkex.Messaging.{set_transport, send_out, transmit}
use end_to_end_smkex.Messaging.Stores.{IsStable}

-- A message in the pool of its own user's serial that can be sent: the user has a name, and the message's
-- buffer is a block of its length.
pub record IsKept (k : MpString) (m : MpMsgPayload) : Type 0 where
  pub own : m.user_serial ≡ k
  pub first : ℕ
  pub others : MpString
  pub named : m.user_serial ≡ first ∷ others
  pub block : List ℕ
  pub whole : m.payload ≡ record { payload = some block; len = length block }

pub IsKept-IsStable : IsStable IsKept
unfolding mark_as_processed mark_as_unprocessed
IsKept-IsStable = record {
  processed = λ k m h. record {
    own = h.own;
    first = h.first;
    others = h.others;
    named = h.named;
    block = h.block;
    whole = h.whole;
  };
  unprocessed = λ k m h. record {
    own = h.own;
    first = h.first;
    others = h.others;
    named = h.named;
    block = h.block;
    whole = h.whole;
  };
}

-- The transport once it has taken a message over.
abbrev pub taken : MpMsgPayload → MpMsgTransport → MpMsgTransport
taken m t = record t { msg = m; counter = m.number_of_retries; events = [] }

module _ {W : Type 0} (p : Pjsua W) where
  uri_of_serial-named :
      (c : ℕ) (cs : MpString) (a : MpAccSettings)
      → (uri : MpString) × (uri_of_serial (some (c ∷ cs)) a ≡ done uri)
  unfolding uri_of_serial get_uri_from_serial
  uri_of_serial-named c cs a = (_, refl)

  named_send :
      (c : ℕ) (cs block : MpString) (s : MpService W)
      → (status : MpStatus) × (w : W) × (send_msg p (some (c ∷ cs)) (some block) (length block) s
          ≡ done (status, set_outside w s))
  unfolding send_msg bytes_from
  named_send c cs block s =
      let (uri, made) = uri_of_serial-named c cs s.user_account.acc_settings in
      let (ok, w) = p.im_send s.sip_stack.acc_id uri block s.outside in
      elim (Bool-cases (length block == 0)) [
        | inl empty ↦ (input_err, s.outside, ground (arith, empty))
        | inr full ↦ elim (Bool-cases (is_negative s.sip_stack.acc_id)) [
          | inl no_account ↦ (general_err, s.outside, ground (arith, full, made, no_account))
          | inr account ↦ (of_pj ok, w, ground (arith, full, made, account, prefix?-all block))
        ]
      ]

  -- A message that can be sent is given to the stack.
  pub send_msg-returns :
      (k : MpString) (m : MpMsgPayload) (s : MpService W)
      → IsKept k m
      → (status : MpStatus) × (w : W) × (send_msg p
            (some m.user_serial)
            m.payload.payload
            m.payload.len
            s
          ≡ done (status, set_outside w s))
  send_msg-returns k m s h =
      let (status, w, e) = named_send h.first h.others h.block s in
      (
        status,
        w,
        ap (λ n. send_msg p (some n) m.payload.payload m.payload.len s) h.named
            ∙ ap (λ b. send_msg p (some (h.first ∷ h.others)) b.payload b.len s) h.whole
            ∙ e,
      )

  pub transmit-returns :
      (k : MpString) (m : MpMsgPayload) (s : MpService W)
      → IsKept k m
      → is_positive m.number_of_retries ≡ true
      → s.msg_transport.events ≡ []
      → (w : W) × (transmit p m s
          ≡ done (set_outside w (set_transport (taken m s.msg_transport) s)))
  unfolding transmit Transport.send_message Transport.send_current send_out
  transmit-returns k m s h y none_left =
      let (status, w, e) = send_msg-returns k m (set_transport (taken m s.msg_transport) s) h in
      (w, ground (arith, y, none_left, e))
