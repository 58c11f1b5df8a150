-- ===== src/Messaging/Single.antt =====
-- Runs of the joined services (base_service/src/MpBaseService.cpp): they return, and no message that is
-- in transfer gives way to another.
use end_to_end_smkex.Base.{
  ℕ, ◌≡◌, refl, sym, ap, ◌∙◌, Bool, true, false, List, [], ◌∷◌, All, is_positive, ◌==◌, ℤ, Outcome,
  done, ◌>>=◌, arith, Bool-cases, inl, inr, ◌⊎◌,
}
use end_to_end_smkex.AutoResend.Engine.{
  MpAutoResendEngine, add_db_connector, sync_with_db_connectors,
}
use end_to_end_smkex.AutoResend.Engine.Run.{
  add_message, buddy_state2, set_auto_resend_enabled, resend_message,
}
use end_to_end_smkex.Buddy.BuddyList.{PresenceCall}
use end_to_end_smkex.Service.Pjsua.{Pjsua}
use end_to_end_smkex.Sip.Callbacks.{on_buddy_state}
use end_to_end_smkex.Messaging.{
  Messaging, engine_of, use_engine, tell_presence, on_presence, Command, connect, sync, add, resend,
  enable, pager_reported, presence_reported, run, run_all,
}
use end_to_end_smkex.Messaging.Transfer.{Acts}
use end_to_end_smkex.Messaging.Acts.{
  connect-Acts, sync-Acts, add_message-Acts, buddy_state2-Acts, set_auto_resend_enabled-Acts,
  resend_message-Acts,
}
use end_to_end_smkex.Messaging.Chain.{
  IsIdle, IsJoined, Done, kept, halted, taken_over, use_engine-Done,
}
use end_to_end_smkex.Messaging.Sending.{IsKept, IsKept-IsStable}
use end_to_end_smkex.Messaging.Runs.{IsFit, Returns, pager-Returns}

-- A message in transfer stays there.
abbrev pub Spares : {W : Type 0} → Messaging W → Messaging W → Type 0
Spares s s' = IsIdle s ⊎ (s'.service.msg_transport ≡ s.service.msg_transport)

-- Anything but a report of PJSUA about a message.
abbrev pub is_no_report : Command → Bool
is_no_report (pager_reported code) = false
is_no_report _ = true

reported_code : (c : Command) → is_no_report c ≡ false → (code : ℕ) × (c ≡ pager_reported code)
reported_code (pager_reported code) h = (code, refl)
reported_code (connect c) h = cc
reported_code sync h = cc
reported_code (add m) h = cc
reported_code (resend serial msg_id) h = cc
reported_code (enable b) h = cc
reported_code (presence_reported id) h = cc

Spares-trans : {W : Type 0} (a b c : Messaging W) → Spares a b → Spares b c → Spares a c
Spares-trans a b c (inl i) k = inl i
Spares-trans a b c (inr e) (inl i) = inl (ap (λ t. t.msg.number_of_retries) (sym e) ∙ i)
Spares-trans a b c (inr e) (inr f) = inr (f ∙ e)

-- The call returns, leaves the services joined, and spares a message in transfer.
abbrev Goes : {W : Type 0} → Messaging W → Outcome (Messaging W) → Type 0
Goes {W} s o = (s' : Messaging W) × (o ≡ done s') × IsJoined s' × Spares s s'

module _ {W : Type 0} (p : Pjsua W) (engine_cb : ℕ) where
  Done-Spares :
      (s : Messaging W) (e : MpAutoResendEngine) (s' : Messaging W)
      → Done p false s e s'
      → Spares s s'
  Done-Spares s e _ (kept told calm same) = inr refl
  Done-Spares s e _ (halted told idle off nothing) = inr refl
  Done-Spares s e _ (taken_over k m told w idle keeps y on held) = inl idle

  engine-Goes :
      (op : MpAutoResendEngine → Outcome MpAutoResendEngine) (s : Messaging W)
      → IsJoined s
      → Acts IsKept (s.engine.started ≡ false) false (engine_of s) (op (engine_of s))
      → Goes s (use_engine p op s)
  engine-Goes op s j acts =
      let (s', e, _, out, joined, d) =
        use_engine-Done p (s.engine.started ≡ false) false op s j acts j.waits in
      (s', out, joined, Done-Spares s e s' d)

  tell_presence-Goes :
      (cs : List PresenceCall) (s : Messaging W)
      → IsJoined s
      → Goes s (tell_presence p engine_cb cs s)
  unfolding tell_presence
  tell_presence-Goes [] s j = (s, refl, j, inr refl)
  tell_presence-Goes (c ∷ cs) s j = elim (Bool-cases (c.callback == engine_cb)) [
    | inl own ↦
        let (s₁, out, j₁, spares) = engine-Goes (buddy_state2 c.told.serial c.told.online) s j (
          buddy_state2-Acts IsKept IsKept-IsStable (engine_of s) j.well j.no_calls c.told.serial
            c.told.online) in
        let (s₂, rest, j₂, spares₂) = tell_presence-Goes cs s₁ j₁ in
        (s₂, rw (own, out) rest, j₂, Spares-trans s s₁ s₂ spares spares₂)
    | inr other ↦
        let (s₂, rest, j₂, spares₂) = tell_presence-Goes cs s j in (s₂, rw other rest, j₂, spares₂)
  ]

  presence-Goes : (id : ℤ) (s : Messaging W) → IsJoined s → Goes s (on_presence p engine_cb id s)
  unfolding on_presence on_buddy_state
  presence-Goes id s j =
      let v = on_buddy_state p id s.service in
      let l = v.buddy_list in
      tell_presence-Goes l.presence_calls
        (record s { service = record v { buddy_list = record l { presence_calls = [] } } })
        (record {
          well = j.well;
          no_calls = j.no_calls;
          no_events = j.no_events;
          listens = j.listens;
          current = j.current;
          waits = j.waits;
        })

  run-Goes :
      (c : Command) (s : Messaging W)
      → IsJoined s
      → IsFit c
      → is_no_report c ≡ true
      → Goes s (run p engine_cb c s)
  unfolding run
  run-Goes (connect c) s j fit no_report =
      engine-Goes (λ e. done (add_db_connector c e)) s j
        (connect-Acts IsKept IsKept-IsStable (engine_of s) j.well j.no_calls c fit)
  run-Goes sync s j fit no_report =
      engine-Goes (λ e. done (sync_with_db_connectors e)) s j
        (sync-Acts IsKept IsKept-IsStable (engine_of s) j.well j.no_calls)
  run-Goes (add m) s j fit no_report =
      engine-Goes (add_message m) s j
        (add_message-Acts IsKept IsKept-IsStable (engine_of s) j.well j.no_calls m fit)
  run-Goes (resend serial msg_id) s j fit no_report =
      engine-Goes (λ e. do (found, e') ← resend_message serial msg_id e; done e') s j
        (resend_message-Acts IsKept IsKept-IsStable (engine_of s) j.well j.no_calls serial msg_id)
  run-Goes (enable b) s j fit no_report =
      engine-Goes (set_auto_resend_enabled b) s j
        (set_auto_resend_enabled-Acts IsKept IsKept-IsStable (engine_of s) j.well j.no_calls b)
  run-Goes (presence_reported id) s j fit no_report = presence-Goes id s j
  run-Goes (pager_reported code) s j fit no_report = cc

  pub run-Returns :
      (c : Command) (s : Messaging W) → IsJoined s → IsFit c → Returns (run p engine_cb c s)
  unfolding run
  run-Returns c s j fit = elim (Bool-cases (is_no_report c)) [
    | inl other ↦ let (s', out, joined, _) = run-Goes c s j fit other in (s', out, joined)
    | inr report ↦
        let (code, is) = reported_code c report in
        let (s', out, joined) = pager-Returns p s j code in
        (s', ap (λ d. run p engine_cb d s) is ∙ out, joined)
  ]

  -- From joined services, any sequence of calls of the application (`removeMessagesForSerial` aside) and
  -- reports of PJSUA returns, and leaves the services joined: so no message is in transfer while the
  -- engine is stopped. The messages that the application gives are for users with a name, and their
  -- buffers are blocks of their lengths.
  pub run_all-IsJoined :
      (cs : List Command) (s : Messaging W)
      → IsJoined s
      → All IsFit cs
      → (s' : Messaging W) × (run_all p engine_cb cs s ≡ done s') × IsJoined s'
  unfolding run_all
  run_all-IsJoined [] s j fits = (s, refl, j)
  run_all-IsJoined (c ∷ cs) s j (fit, fits) =
      let (s₁, out, j₁) = run-Returns c s j fit in
      let (s₂, rest, j₂) = run_all-IsJoined cs s₁ j₁ fits in (s₂, rw out rest, j₂)

  -- A message in transfer is not displaced: whatever the application calls of the engine
  -- (`removeMessagesForSerial` aside) and whatever PJSUA reports of the buddies, the transport, once a
  -- message is in transfer, has the same message and count until PJSUA reports on a message.
  pub run_all-spares :
      (cs : List Command) (s : Messaging W)
      → IsJoined s
      → All IsFit cs
      → All (λ c. is_no_report c ≡ true) cs
      → is_positive s.service.msg_transport.msg.number_of_retries ≡ true
      → (s' : Messaging W) × (run_all p engine_cb cs s ≡ done s')
        × (s'.service.msg_transport ≡ s.service.msg_transport)
  unfolding run_all
  run_all-spares [] s j fits quiets busy = (s, refl, refl)
  run_all-spares (c ∷ cs) s j (fit, fits) (no_report, quiets) busy =
      let (s₁, out, j₁, spares) = run-Goes c s j fit no_report in
      elim spares [
        | inl idle ↦ absurd (ground (arith, busy, idle))
        | inr same ↦
            let (s₂, rest, same₂) =
              run_all-spares cs s₁ j₁ fits quiets
                (ap (λ t. is_positive t.msg.number_of_retries) same ∙ busy) in
            (s₂, rw out rest, same₂ ∙ same)
      ]
