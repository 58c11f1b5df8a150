-- ===== src/Messaging/Chain.antt =====
-- The state that the services stay in when they are joined as in base_service/src/MpBaseService.cpp, and
-- the calls of the engine in it.
use end_to_end_smkex.Base.{
  ◌≡◌, refl, sym, ap, subst, ◌∙◌, Bool, true, false, List, [], ◌∷◌, ◌++◌, none, some, is_positive,
  MpString, pos, Outcome, done, arith, inr, ◌⊎◌, append-nil,
}
use end_to_end_smkex.AutoResend.Payload.{MpMsgPayload}
use end_to_end_smkex.AutoResend.Engine.{Call, send, notify, MpAutoResendEngine}
use end_to_end_smkex.AutoResend.Engine.Offers.{offer}
use end_to_end_smkex.Service.Pjsua.{Pjsua}
use end_to_end_smkex.Service.State.{set_outside}
use end_to_end_smkex.Messaging.{
  Messaging, set_transport, carry_out_call, carry_out, engine_of, use_engine,
}
use end_to_end_smkex.Messaging.Transfer.{IsHeld, IsWell, quiet, stopped, sent, Acts}
use end_to_end_smkex.Messaging.Tells.{is_notify, OnlyTells}
use end_to_end_smkex.Messaging.Sending.{IsKept, taken, transmit-returns}

abbrev pub IsIdle : {W : Type 0} → Messaging W → Type 0
IsIdle s = s.service.msg_transport.msg.number_of_retries ≡ pos 0

-- The engine's pools and connectors are in order, no call is left to carry out, the transport tells
-- the engine, and no message is in transfer while the engine is stopped.
pub record IsJoined {W : Type 0} (s : Messaging W) : Type 0 where
  pub well : IsWell IsKept (engine_of s)
  pub no_calls : s.engine.calls ≡ []
  pub no_events : s.service.msg_transport.events ≡ []
  pub listens : s.service.msg_transport.msg_notif ≡ true
  pub current :
      IsIdle s
      ⊎ (IsKept s.service.msg_transport.msg.user_serial s.service.msg_transport.msg
          × (is_positive s.service.msg_transport.msg.number_of_retries ≡ true))
  pub waits : s.engine.started ≡ false → IsIdle s

module _ {W : Type 0} (p : Pjsua W) where
  carry_out-tells :
      (ns cs : List Call) (s : Messaging W)
      → OnlyTells ns
      → (told : List Call) × (carry_out p (ns ++ cs) s ≡ carry_out p cs (record s { told = told }))
  unfolding carry_out carry_out_call is_notify
  carry_out-tells [] cs s h = (s.told, refl)
  carry_out-tells (notify c m status ∷ ns) cs s (_, h) =
      carry_out-tells ns cs (record s { told = s.told ++ notify c m status ∷ [] }) h
  carry_out-tells (send m ∷ ns) cs s (no_tell, h) = cc
  carry_out-tells (end_to_end_smkex.AutoResend.Engine.remove_for_serial k ∷ ns) cs s (no_tell, h) =
      cc

  only_tells :
      (ns : List Call) (s : Messaging W)
      → OnlyTells ns
      → (told : List Call) × (carry_out p ns s ≡ done (record s { told = told }))
  unfolding carry_out
  only_tells ns s h =
      let (told, e) = carry_out-tells ns [] s h in
      (told, ap (λ l. carry_out p l s) (sym (append-nil ns)) ∙ e)

  last_send :
      (ns : List Call) (k : MpString) (m : MpMsgPayload) (s : Messaging W)
      → OnlyTells ns
      → IsKept k m
      → is_positive m.number_of_retries ≡ true
      → s.service.msg_transport.events ≡ []
      → (told : List Call) × (w : W) × (carry_out p (ns ++ send m ∷ []) s
          ≡ done (record s {
            told = told;
            service = set_outside w (set_transport (taken m s.service.msg_transport) s.service);
          }))
  unfolding carry_out carry_out_call
  last_send ns k m s h kept y no_events =
      let (told, e) = carry_out-tells ns (send m ∷ []) s h in
      let (w, out) = transmit-returns p k m s.service kept y no_events in
      (told, w, e ∙ ground (arith, out))

  -- How the joined services are after an operation of the engine that leaves it as `e`: the transport
  -- is as it was, or it was idle and has taken a message over that the engine keeps, or the engine has
  -- stopped with no message to send. A forced operation does one of the last two.
  pub data Done (forced : Bool) (s : Messaging W) (e : MpAutoResendEngine)
      : Messaging W → Type 0 where
    kept :
        (told : List Call)
        → forced ≡ false
        → e.started ≡ s.engine.started
        → Done forced s e (record s { engine = record e { calls = [] }; told = told })
    halted :
        (told : List Call)
        → IsIdle s
        → e.started ≡ false
        → ((k : MpString) → offer k e ≡ none)
        → Done forced s e (record s { engine = record e { calls = [] }; told = told })
    taken_over :
        (k : MpString) (m : MpMsgPayload) (told : List Call) (w : W)
        → IsIdle s
        → IsKept k m
        → is_positive m.number_of_retries ≡ true
        → e.started ≡ true
        → IsHeld m k e
        → Done forced s e (record s {
          engine = record e { calls = [] };
          told = told;
          service = set_outside w (set_transport (taken m s.service.msg_transport) s.service);
        })

  IsWell-after :
      (e : MpAutoResendEngine) (b : Bool)
      → IsWell IsKept e
      → IsWell IsKept (record e { calls = []; sip_stack = some b })
  IsWell-after e b well = record {
    ready = record {
      indexed = well.ready.indexed;
      transport = well.ready.transport;
      stack = (b, refl);
    };
    stores = well.stores;
    connectors = well.connectors;
  }

  kept-IsJoined :
      (s : Messaging W) (e : MpAutoResendEngine) (told : List Call)
      → IsJoined s
      → IsWell IsKept e
      → (e.started ≡ false → IsIdle s)
      → IsJoined (record s { engine = record e { calls = [] }; told = told })
  kept-IsJoined s e told j well waits = record {
    well = IsWell-after e s.service.sip_stack.started well;
    no_calls = refl;
    no_events = j.no_events;
    listens = j.listens;
    current = j.current;
    waits = waits;
  }

  -- An operation of the engine returns, and leaves the services joined.
  pub use_engine-Done :
      (idle : Type 0) (forced : Bool) (op : MpAutoResendEngine → Outcome MpAutoResendEngine)
      (s : Messaging W)
      → IsJoined s
      → Acts IsKept idle forced (engine_of s) (op (engine_of s))
      → (idle → IsIdle s)
      → (s' : Messaging W) × (e : MpAutoResendEngine) × (op (engine_of s) ≡ done e)
        × (use_engine p op s ≡ done s')
        × IsJoined s'
        × Done forced s e s'
  unfolding use_engine
  use_engine-Done idle forced op s j (e, ends, well, quiet calm tells same) i =
      let (told, out) = only_tells e.calls (record s { engine = record e { calls = [] } }) tells in
      (
        _,
        e,
        ends,
        rw (use_engine, ends) out,
        kept-IsJoined s e told j well (λ off. j.waits (sym same ∙ off)),
        kept told calm same,
      )
  use_engine-Done idle forced op s j (e, ends, well, stopped h tells off nothing) i =
      let (told, out) = only_tells e.calls (record s { engine = record e { calls = [] } }) tells in
      (
        _,
        e,
        ends,
        rw (use_engine, ends) out,
        kept-IsJoined s e told j well (λ off. i h),
        halted told (i h) off nothing,
      )
  use_engine-Done idle forced op s j (e, ends, well, sent h k m ns made tells keeps y on held) i =
      let (told, w, out) =
        last_send ns k m (record s { engine = record e { calls = [] } }) tells keeps y
          j.no_events in
      (
        _,
        e,
        ends,
        rw (use_engine, ends, made) out,
        record {
          well = IsWell-after e s.service.sip_stack.started well;
          no_calls = refl;
          no_events = refl;
          listens = j.listens;
          current = inr (subst (λ k'. IsKept k' m) (sym keeps.own) keeps, y);
          waits = λ off. absurd (ground (arith, off, on));
        },
        taken_over k m told w (i h) keeps y on held,
      )
