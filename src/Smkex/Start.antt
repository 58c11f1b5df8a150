-- ===== src/Smkex/Start.antt =====
-- What `initSession` of smkex/src/Smkex.cpp starts.
use end_to_end_smkex.Base.{
  ℕ, ◌+◌, ◌^◌, ◌%◌, ◌<◌, ◌≡◌, ap, sym, ◌∙◌, subst, Bool, true, false, List, [], ◌∷◌, ◌++◌, none,
  some, MpString, length, find, done, arith, Option-cases, Outcome-cases, inl, inr,
}
use end_to_end_smkex.AutoResend.Payload.{MpMsgPayload}
use end_to_end_smkex.Record.{
  SmkexT4mType, SmkexT4mRecord, handshake, handshake_key, handshake_nonce,
  smkex_t4m_protocol_version, print_record, print_type, get_smkex_t4m_record2,
}
use end_to_end_smkex.Record.Made.{get_smkex_t4m_record2-type}
use end_to_end_smkex.Smkex.Env.{Env}
use end_to_end_smkex.Smkex.Session.{
  SmkexSessionInfo, World, get_session_info, make_nonce, session_nonce_length,
}
use end_to_end_smkex.Smkex.Send.{send_key_or_nonce, send_record}
use end_to_end_smkex.Smkex.Init.{
  init_session, init_new_session, init_old_session, put_session, is_wait_key_nonce_h_dest,
}
use end_to_end_smkex.Smkex.Wire.{Carries, send_record-Carries}

-- A record of type `handshake` cannot be printed.
print_record-handshake : (r : SmkexT4mRecord) → r.type ≡ handshake → ¬ (print_record r ≡ done tt)
unfolding print_record print_type
print_record-handshake r h e = ground arith

module _ (env : Env) where
  -- A record of type `handshake` is never sent.
  send_record-handshake :
      (buddy : MpString) (n : ℕ) (from : List ℕ) (chan : ℕ) (w w' : World)
      → ¬ (send_record env true buddy handshake n from chan w ≡ done w')
  unfolding send_record
  send_record-handshake buddy n from chan w w' e =
      let made =
        get_smkex_t4m_record2 env.can_alloc w.clock 0 buddy w.myself handshake
          smkex_t4m_protocol_version (n % 2 ^ 16) from in
      elim (Outcome-cases made) [
        | inl (some rec, p) ↦
            let typed = get_smkex_t4m_record2-type _ _ _ _ _ _ _ _ _ rec p in
            let out = print_record-handshake rec typed in absurd (grind (arith, p, out))
        | inl (none, p) ↦ absurd (ground (arith, p))
        | inr ends ↦ absurd (ground (arith, ends))
      ]

  init_new_session-never :
      (nonce : List ℕ) (buddy : MpString) (w w' : World)
      → ¬ (init_new_session env nonce buddy w ≡ done w')
  unfolding init_new_session
  init_new_session-never nonce buddy w w' e = grind (arith, send_record-handshake)

  -- Starting a key exchange with a buddy that has no session never returns.
  init_session-unknown :
      (buddy : MpString) (w w' : World)
      → find buddy w.keychain ≡ none
      → ¬ (init_session env buddy w ≡ done w')
  unfolding init_session get_session_info make_nonce
  init_session-unknown buddy w w' unknown e = grind (arith, init_new_session-never)

  send_record-same :
      (printed : Bool) (buddy : MpString) (type : SmkexT4mType) (n : ℕ) (from : List ℕ) (chan : ℕ)
      (w w' : World)
      → send_record env printed buddy type n from chan w ≡ done w'
      → (w'.clock ≡ w.clock) × (w'.myself ≡ w.myself)
  unfolding send_record send_key_or_nonce
  send_record-same printed buddy type n from chan w w' e = grind arith

  -- The two sends of a key exchange that starts again, with the worlds between them.
  record Sends (nonce : List ℕ) (buddy : MpString) (s : SmkexSessionInfo) (n : ℕ) (w w' : World)
      : Type 0 where
    between : World
    after : World
    key_sent : send_record env true buddy handshake_key n s.local_pub_key 1 w ≡ done between
    nonce_sent :
        send_record env false buddy handshake_nonce session_nonce_length nonce 1 between
        ≡ done after
    same_sent : w'.sent ≡ after.sent

  init_old_session-Sends :
      (nonce : List ℕ) (buddy : MpString) (s : SmkexSessionInfo) (n : ℕ) (w w' : World)
      → is_wait_key_nonce_h_dest s.status ≡ false
      → s.local_pub_key_length ≡ some n
      → init_old_session env nonce buddy s w ≡ done w'
      → Sends nonce buddy s n w w'
  unfolding init_old_session put_session
  init_old_session-Sends nonce buddy s n w w' idle size e =
      elim (Outcome-cases (send_record env true buddy handshake_key n s.local_pub_key 1 w)) [
        | inl (w₁, p) ↦
            elim (Outcome-cases
              (send_record env false buddy handshake_nonce session_nonce_length nonce 1 w₁)) [
                | inl (w₂, q) ↦ record {
                  between = w₁;
                  after = w₂;
                  key_sent = p;
                  nonce_sent = q;
                  same_sent = ground (arith, p, q);
                }
                | inr ends ↦ absurd (ground (arith, p, ends))
              ]
        | inr ends ↦ absurd (ground (arith, ends))
      ]

  init_session-Sends :
      (buddy : MpString) (s : SmkexSessionInfo) (n : ℕ) (w w' : World)
      → find buddy w.keychain ≡ some s
      → is_wait_key_nonce_h_dest s.status ≡ false
      → s.local_pub_key_length ≡ some n
      → init_session env buddy w ≡ done w'
      → (nonce : List ℕ) × (env.rand_bytes w.draws session_nonce_length ≡ some nonce)
        × Sends nonce buddy s n (record w { draws = w.draws + 1 }) w'
  unfolding init_session get_session_info make_nonce
  init_session-Sends buddy s n w w' there idle size e =
      elim (Option-cases (env.rand_bytes w.draws session_nonce_length)) [
        | inl nothing ↦ absurd (ground (arith, nothing))
        | inr (nonce, p) ↦ (
          nonce,
          p,
          init_old_session-Sends nonce buddy s n (record w { draws = w.draws + 1 }) w' idle size
              (grind (arith, p)),
        )
      ]

-- Starting a key exchange with a buddy that has no session never returns, whatever the environment:
-- the first record has the type `handshake`, at which printing a record ends the program.
pub init_session-unknown_buddy :
    (env : Env) (buddy : MpString) (w w' : World)
    → find buddy w.keychain ≡ none
    → ¬ (init_session env buddy w ≡ done w')
init_session-unknown_buddy env buddy w w' unknown = init_session-unknown env buddy w w' unknown

-- Starting a key exchange with a known buddy whose answer is not awaited, with memory, hands the
-- engine exactly two messages: the first carries the public key in a `handshake_key` record, the
-- second the nonce that was just drawn in a `handshake_nonce` record. The names are shorter than
-- 2^16 - 1, the time and the key's length fit their fields.
pub init_session-sends_two :
    (env : Env) (memory : (n : ℕ) → env.can_alloc n ≡ true) (buddy : MpString)
    (s : SmkexSessionInfo) (n : ℕ) (w w' : World)
    → find buddy w.keychain ≡ some s
    → is_wait_key_nonce_h_dest s.status ≡ false
    → s.local_pub_key_length ≡ some n
    → length buddy + 1 < 2 ^ 16
    → length w.myself + 1 < 2 ^ 16
    → w.clock < 2 ^ 64
    → n < 2 ^ 16
    → init_session env buddy w ≡ done w'
    → (nonce : List ℕ) × (key_message : MpMsgPayload) × (nonce_message : MpMsgPayload)
      × (env.rand_bytes w.draws session_nonce_length ≡ some nonce)
      × (w'.sent ≡ (w.sent ++ key_message ∷ []) ++ nonce_message ∷ [])
      × Carries env buddy w.myself handshake_key n s.local_pub_key key_message
      × Carries env buddy w.myself handshake_nonce session_nonce_length nonce nonce_message
init_session-sends_two env memory buddy s n w w' there idle size hb hm hc hn e =
    let (nonce, drawn, sends) = init_session-Sends env buddy s n w w' there idle size e in
    let w₀ = record w { draws = w.draws + 1 } in
    let (m₁, sent₁, c₁) =
      send_record-Carries env memory true buddy handshake_key n s.local_pub_key 1 w₀ sends.between
        hb hm hc hn tt sends.key_sent in
    let (clock, me) =
      send_record-same env true buddy handshake_key n s.local_pub_key 1 w₀ sends.between
        sends.key_sent in
    let (m₂, sent₂, c₂) =
      send_record-Carries env memory false buddy handshake_nonce session_nonce_length nonce 1
        sends.between sends.after hb (subst (λ x. length x + 1 < 2 ^ 16) (sym me) hm)
        (omega (arith, clock)) (omega arith) tt sends.nonce_sent in
    (
      nonce,
      m₁,
      m₂,
      drawn,
      sends.same_sent ∙ sent₂ ∙ ap (λ x. x ++ m₂ ∷ []) sent₁,
      c₁,
      subst (λ x. Carries env buddy x handshake_nonce session_nonce_length nonce m₂) me c₂,
    )
