-- ===== src/Messaging/Runs.antt =====
-- Runs of the joined services: what the application and PJSUA do, one call after the other.
use end_to_end_smkex.Base.{
  ℕ, ◌≡◌, refl, sym, ap, ◌∙◌, true, not, ◌&&◌, [], some, All, is_positive, decrement, ◌==◌,
  if◌then◌else◌, ℤ, pos, Outcome, done, exited, fault, ◌>>=◌, arith, Bool-cases, inl, inr, ◌⊎◌,
}
use end_to_end_smkex.Utils.{MpStatus, message_sent, message_not_sent, is_message_sent}
use end_to_end_smkex.AutoResend.Engine.{MpIdbConnector}
use end_to_end_smkex.AutoResend.Engine.Run.{message_status}
use end_to_end_smkex.DataMsg.Transport.{MpMsgTransport, send_current, finish, on_send_msg_done}
use end_to_end_smkex.Service.Pjsua.{Pjsua}
use end_to_end_smkex.Service.State.{set_outside}
use end_to_end_smkex.Sip.Callbacks
use end_to_end_smkex.Sip.Callbacks.{sc_ok, on_buddy_state}
use end_to_end_smkex.Messaging.{
  Messaging, set_transport, engine_of, use_engine, pass_on, pager_status, Command, connect, add,
}
use end_to_end_smkex.Messaging.Acts.{message_status-Acts}
use end_to_end_smkex.Messaging.Chain.{IsIdle, IsJoined, use_engine-Done}
use end_to_end_smkex.Messaging.Sending.{IsKept, IsKept-IsStable, send_msg-returns}

-- What the commands are given: messages that can be sent.
abbrev pub IsFit : Command → Type 0
IsFit (connect c) = (d : MpIdbConnector) → c ≡ some d → All (λ m. IsKept m.user_serial m) d.stored
IsFit (add m) = IsKept m.user_serial m
IsFit _ = Unit

-- The call returns, and leaves the services joined.
abbrev pub Returns : {W : Type 0} → Outcome (Messaging W) → Type 0
Returns {W} o = (s' : Messaging W) × (o ≡ done s') × IsJoined s'

-- The code that PJSUA reports, as the transport hears it.
abbrev pub status_of : ℕ → MpStatus
status_of code = if code == sc_ok then message_sent else message_not_sent

on_send_msg_done-idle :
    (status : MpStatus) (t : MpMsgTransport)
    → t.msg.number_of_retries ≡ pos 0
    → on_send_msg_done status t ≡ t
unfolding on_send_msg_done
on_send_msg_done-idle status t h = ground (arith, h)

-- A transfer goes on, or comes to its end.
on_send_msg_done-busy :
    (status : MpStatus) (t : MpMsgTransport)
    → is_positive t.msg.number_of_retries ≡ true
    → (on_send_msg_done status t ≡ send_current (record t { counter = decrement t.counter }))
      ⊎ (on_send_msg_done status t ≡ finish status (record t { counter = decrement t.counter }))
unfolding on_send_msg_done
on_send_msg_done-busy status t h =
    elim (Bool-cases (not (is_message_sent status) && is_positive (decrement t.counter))) [
      | inl again ↦ inl (ground (arith, again, h))
      | inr ends ↦ inr (ground (arith, ends, h))
    ]

module _ {W : Type 0} (p : Pjsua W) where
  -- The services with the transport as a report of PJSUA leaves it.
  abbrev with_transport : MpMsgTransport → Messaging W → Messaging W
  with_transport t s = record s { service = set_transport (record t { events = [] }) s.service }

  pager_status-at :
      (code : ℕ) (t : MpMsgTransport) (s : Messaging W)
      → on_send_msg_done (status_of code) s.service.msg_transport ≡ t
      → pager_status p code s ≡ pass_on p t.events (with_transport t s)
  unfolding pager_status Callbacks.on_pager_status
  pager_status-at code t s e = ap (λ u. pass_on p u.events (with_transport u s)) e

  pass_on-none : (o : Outcome (Messaging W)) → (o >>= pass_on p []) ≡ o
  unfolding pass_on
  pass_on-none (done s) = refl
  pass_on-none exited = refl
  pass_on-none fault = refl

  -- A report for no transfer changes nothing.
  pub pager_idle :
      (s : Messaging W)
      → s.service.msg_transport.events ≡ []
      → (code : ℕ) → IsIdle s
      → pager_status p code s ≡ done s
  unfolding pass_on
  pager_idle s no_events code idle =
      let t = s.service.msg_transport in
      pager_status-at code t s (on_send_msg_done-idle (status_of code) t idle)
      ∙ ap (λ es. pass_on p es (with_transport t s)) no_events
      ∙ ap (λ es. done (record s { service = set_transport (record t { events = es }) s.service }))
          (sym no_events)

  module _ (s : Messaging W) (j : IsJoined s) where
    abbrev transport : MpMsgTransport
    transport = s.service.msg_transport

    again-Returns :
        (code : ℕ) (z : ℤ)
        → IsKept transport.msg.user_serial transport.msg
        → is_positive transport.msg.number_of_retries ≡ true
        → on_send_msg_done (status_of code) transport
          ≡ send_current (record transport { counter = z })
        → Returns (pager_status p code s)
    unfolding pass_on send_current
    again-Returns code z keeps y e =
        let next = record transport { counter = z; events = [] } in
        let (status, w, out) =
          send_msg-returns p transport.msg.user_serial transport.msg (set_transport next s.service)
            keeps in
        (
          record s { service = set_outside w (set_transport next s.service) },
          pager_status-at code (send_current (record transport { counter = z })) s e
              ∙ rw (j.no_events, out),
          record {
            well = j.well;
            no_calls = j.no_calls;
            no_events = refl;
            listens = j.listens;
            current = j.current;
            waits = j.waits;
          },
        )

    -- The transport once a message's transfer has ended.
    abbrev pub ended : ℤ → Messaging W
    ended z =
        with_transport
          (record transport {
            msg = record transport.msg { number_of_retries = pos 0 };
            counter = z;
          })
          s

    pub ended-IsJoined : (z : ℤ) → IsJoined (ended z)
    ended-IsJoined z = record {
      well = j.well;
      no_calls = j.no_calls;
      no_events = refl;
      listens = j.listens;
      current = inl refl;
      waits = λ off. refl;
    }

    pub pager_ends :
        (code : ℕ) (z : ℤ)
        → on_send_msg_done (status_of code) transport
          ≡ finish (status_of code) (record transport { counter = z })
        → pager_status p code s
          ≡ use_engine p
              (message_status (record transport.msg { number_of_retries = pos 0 }) (status_of code))
              (ended z)
    unfolding pass_on finish
    pager_ends code z e =
        pager_status-at code (finish (status_of code) (record transport { counter = z })) s e
        ∙ rw (j.listens, j.no_events) (pass_on-none _)

    pub busy-started : is_positive transport.msg.number_of_retries ≡ true → s.engine.started ≡ true
    busy-started y = elim (Bool-cases s.engine.started) [
      | inl on ↦ on
      | inr off ↦ absurd (ground (arith, y, j.waits off))
    ]

    -- A report of PJSUA: there is nothing to report, the message is sent again, or the engine hears of it.
    pub pager-Returns : (code : ℕ) → Returns (pager_status p code s)
    pager-Returns code = elim j.current [
      | inl idle ↦ (s, pager_idle s j.no_events code idle, j)
      | inr (keeps, y) ↦ elim (on_send_msg_done-busy (status_of code) transport y) [
        | inl again ↦ again-Returns code (decrement transport.counter) keeps y again
        | inr ends ↦
            let z = decrement transport.counter in
            let m = record transport.msg { number_of_retries = pos 0 } in
            let j' = ended-IsJoined z in
            let (s', e, _, out, joined, _) =
              use_engine-Done p Unit true (message_status m (status_of code)) (ended z) j'
                (message_status-Acts IsKept IsKept-IsStable (engine_of (ended z)) j'.well
                  j'.no_calls m (status_of code) (busy-started y))
                (λ u. refl) in
            (s', pager_ends code z ends ∙ out, joined)
      ]
    ]
