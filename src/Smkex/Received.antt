-- ===== src/Smkex/Received.antt =====
-- What a received message does, whole: the state machine of `processSmkexMessageSip`.
use end_to_end_smkex.Base.{
  ℕ, ◌≡◌, refl, subst, true, false, List, some, MpString, Outcome, done, exited, fault, arith, ◌⊎◌,
  inl, inr, find, Option-cases, Bool-cases, ◌>>=◌, >>=-eq-done, str_eq, str_eq_refl, drop,
}
use end_to_end_smkex.Record.{
  SmkexT4mType, handshake_key, handshake_nonce, handshake_nonce_h, handshake_h, alert,
  application_data, handshake, unnamed, SmkexT4mRecord, print_record, get_record_from_serial,
}
use end_to_end_smkex.Smkex.Env.{Env}
use end_to_end_smkex.Smkex.Session.{
  SmkexSessionInfo, World, not_connected, connected, get_session_info,
}
use end_to_end_smkex.Smkex.Hash.{verify_h}
use end_to_end_smkex.Smkex.Init.{init_session, put_session}
use end_to_end_smkex.Smkex.Process.{
  dispatch, session_for, process_record, process_smkex_message_sip, store,
}
use end_to_end_smkex.Smkex.Transition.{
  Next, Ends, handle_key-Ends, handle_nonce-Ends, handle_nonce_h-Ends,
}
use end_to_end_smkex.Smkex.Step.{
  status_of, session_for-status, session_for-keychain, put_session-found, dispatch-Steps,
}

-- A record that is processed goes through these steps.
record Goes (env : Env) (rec : SmkexT4mRecord) (buddy : MpString) (w w' : World) : Type 0 where
  session : SmkexSessionInfo
  between : World
  started : session_for env buddy w ≡ done (session, between)
  dispatched : dispatch env rec.type session rec buddy between ≡ done w'

process_record-Goes :
    (env : Env) (rec : SmkexT4mRecord) (buddy : MpString) (w w' : World)
    → process_record env rec buddy w ≡ done (true, w')
    → Goes env rec buddy w w'
unfolding process_record
process_record-Goes env rec buddy w w' e =
    let (_, _, e₁) =
      >>=-eq-done (print_record rec)
        (λ _. do
          (s, w₁) ← session_for env buddy w
          w₂ ← dispatch env rec.type s rec buddy w₁
          done (true, w₂))
        e in
    let ((s, w₁), started, e₂) =
      >>=-eq-done (session_for env buddy w)
        (λ r. do w₂ ← dispatch env rec.type r.0 rec buddy r.1; done (true, w₂)) e₁ in
    let (w₂, dispatched, e₃) =
      >>=-eq-done (dispatch env rec.type s rec buddy w₁) (λ w₂. done (true, w₂)) e₂ in
    record {
      session = s;
      between = w₁;
      started = started;
      dispatched = ground (arith, dispatched, e₃);
    }

module _ (env : Env) where
  init_session-found :
      (buddy : MpString) (w w' : World)
      → init_session env buddy w ≡ done w'
      → (s : SmkexSessionInfo) × (find buddy w'.keychain ≡ some s)
  unfolding init_session get_session_info
  init_session-found buddy w w' e = elim (Option-cases (find buddy w'.keychain)) [
    | inl missing ↦ absurd (ground arith)
    | inr there ↦ there
  ]

  store-found :
      (buddy : MpString) (s : SmkexSessionInfo) (type : SmkexT4mType)
      (handled : Outcome (SmkexSessionInfo × World)) (w w' : World)
      → find buddy w.keychain ≡ some s
      → ((t : SmkexSessionInfo) (v : World) → handled ≡ done (t, v) → Ends env type s.status w t v)
      → store env buddy handled ≡ done w'
      → (s' : SmkexSessionInfo) × (find buddy w'.keychain ≡ some s')
  unfolding store
  store-found buddy s type (done (t, v)) w w' there ends e =
      let same : find buddy v.keychain ≡ some s = rw (ends t v refl).same_keychain there in
      (t, ground (arith, put_session-found buddy s t v same))
  store-found buddy s type exited w w' there ends e = cc
  store-found buddy s type fault w w' there ends e = cc

  dispatch-found :
      (type : SmkexT4mType) (buddy : MpString) (rec : SmkexT4mRecord) (s : SmkexSessionInfo)
      (w w' : World)
      → find buddy w.keychain ≡ some s
      → dispatch env type s rec buddy w ≡ done w'
      → (s' : SmkexSessionInfo) × (find buddy w'.keychain ≡ some s')
  unfolding dispatch
  dispatch-found handshake_key buddy rec s w w' there e =
      store-found buddy s _ _ w w' there
        (λ t v. handle_key-Ends env s.status s rec buddy w t v refl) e
  dispatch-found handshake_nonce buddy rec s w w' there e =
      store-found buddy s _ _ w w' there (λ t v. handle_nonce-Ends env s.status s rec buddy w t v) e
  dispatch-found handshake_nonce_h buddy rec s w w' there e =
      store-found buddy s _ _ w w' there (λ t v. handle_nonce_h-Ends env s rec buddy w t v) e
  dispatch-found handshake_h buddy rec s w w' there e = cc
  dispatch-found alert buddy rec s w w' there e = elim (Bool-cases s.i_am_session_initiator) [
    | inl first ↦
        init_session-found buddy (put_session buddy (record s { status = not_connected }) w) w'
          (ground arith)
    | inr second ↦
        let s₀ = record s { status = not_connected } in
        (s₀, ground (arith, put_session-found buddy s s₀ w there))
  ]
  dispatch-found application_data buddy rec s w w' there e = (s, ground arith)
  dispatch-found handshake buddy rec s w w' there e = (s, ground arith)
  dispatch-found (unnamed b) buddy rec s w w' there e = (s, ground arith)

  -- A processed record leaves the sender a session, and steps it from the one before.
  record Processed (type : SmkexT4mType) (buddy : MpString) (w w' : World) : Type 0 where
    now : SmkexSessionInfo
    found : find buddy w'.keychain ≡ some now
    next : Next type (status_of buddy w) now.status
    verified :
        now.status ≡ connected → (status_of buddy w ≡ connected) ⊎ (verify_h env now ≡ done true)
    others : (j : MpString) → str_eq buddy j ≡ false → find j w'.keychain ≡ find j w.keychain

  process_record-Processed :
      (rec : SmkexT4mRecord) (buddy : MpString) (w w' : World)
      → process_record env rec buddy w ≡ done (true, w')
      → Processed rec.type buddy w w'
  process_record-Processed rec buddy w w' e =
      let g = process_record-Goes env rec buddy w w' e in
      let there : find buddy g.between.keychain ≡ some g.session =
        ground (arith, session_for-keychain env buddy buddy w _ _ g.started, str_eq_refl buddy) in
      let (s', found) =
        dispatch-found rec.type buddy rec g.session g.between w' there g.dispatched in
      let steps =
        dispatch-Steps env rec.type buddy rec g.session s' _ w' there g.dispatched found in
      let status = session_for-status env buddy w _ _ g.started in
      record {
        now = s';
        found = found;
        next = subst (λ t. Next rec.type t s'.status) status steps.next;
        verified =
            subst (λ t. s'.status ≡ connected → (t ≡ connected) ⊎ (verify_h env s' ≡ done true))
              status steps.verified;
        others = λ j ne.
            ground (arith, steps.others j ne, session_for-keychain env buddy j w _ _ g.started);
      }

  message-Processed :
      (msg : List ℕ) (buddy : MpString) (rec : SmkexT4mRecord) (w w' : World)
      → get_record_from_serial env.can_alloc (drop 1 msg) ≡ done (some rec)
      → process_smkex_message_sip env msg buddy w ≡ done (true, w')
      → Processed rec.type buddy w w'
  unfolding process_smkex_message_sip
  message-Processed msg buddy rec w w' parsed e =
      process_record-Processed rec buddy w w' (ground arith)

-- A processed message moves the sender's session along the protocol's table: from the status it had
-- (`not_connected` if there was no session) to one that the record's type allows.
pub process_smkex_message_sip-Next :
    (env : Env) (msg : List ℕ) (buddy : MpString) (rec : SmkexT4mRecord) (w w' : World)
    → get_record_from_serial env.can_alloc (drop 1 msg) ≡ done (some rec)
    → process_smkex_message_sip env msg buddy w ≡ done (true, w')
    → (s' : SmkexSessionInfo) × (find buddy w'.keychain ≡ some s')
      × Next rec.type (status_of buddy w) s'.status
process_smkex_message_sip-Next env msg buddy rec w w' parsed e =
    let p = message-Processed env msg buddy rec w w' parsed e in (p.now, p.found, p.next)

-- After a processed message the sender's session is connected only if it was before, or if `verifyH`
-- returned true on it.
pub process_smkex_message_sip-connected :
    (env : Env) (msg : List ℕ) (buddy : MpString) (s' : SmkexSessionInfo) (rec : SmkexT4mRecord)
    (w w' : World)
    → get_record_from_serial env.can_alloc (drop 1 msg) ≡ done (some rec)
    → process_smkex_message_sip env msg buddy w ≡ done (true, w')
    → find buddy w'.keychain ≡ some s'
    → s'.status ≡ connected
    → (status_of buddy w ≡ connected) ⊎ (verify_h env s' ≡ done true)
process_smkex_message_sip-connected env msg buddy s' rec w w' parsed e found c =
    let p = message-Processed env msg buddy rec w w' parsed e in
    let same : p.now ≡ s' = ground (arith, p.found) in
    subst
      (λ s. s.status ≡ connected → (status_of buddy w ≡ connected) ⊎ (verify_h env s ≡ done true))
      same p.verified c

-- A processed message leaves the sessions of all other buddies as they are.
pub process_smkex_message_sip-others :
    (env : Env) (msg : List ℕ) (buddy j : MpString) (rec : SmkexT4mRecord) (w w' : World)
    → get_record_from_serial env.can_alloc (drop 1 msg) ≡ done (some rec)
    → process_smkex_message_sip env msg buddy w ≡ done (true, w')
    → str_eq buddy j ≡ false
    → find j w'.keychain ≡ find j w.keychain
process_smkex_message_sip-others env msg buddy j rec w w' parsed e ne =
    (message-Processed env msg buddy rec w w' parsed e).others j ne
