-- ===== src/Smkex/Early.antt =====
-- A nonce that comes before the digest, after `initSession` (smkex/src/Smkex.cpp).
use end_to_end_smkex.Base.{
  ℕ, ◌+◌, ◌≡◌, refl, subst, ap, ◌∙◌, Bool, true, false, List, none, some, MpString, find,
  find-update, str_eq_refl, done, arith, Outcome-cases, Option-cases, Bool-cases, inl, inr,
  if◌then◌else◌,
}
use end_to_end_smkex.Record.{SmkexT4mRecord, handshake_key, handshake_nonce}
use end_to_end_smkex.Smkex.Env.{Env}
use end_to_end_smkex.Smkex.Session.{
  SmkexSessionInfo, State, World, wait_key_nonce_h_dest, get_session_info, make_nonce,
  session_nonce_length,
}
use end_to_end_smkex.Smkex.Send.{send_record}
use end_to_end_smkex.Smkex.Init.{
  init_session, init_old_session, put_session, is_wait_key_nonce_h_dest,
}
use end_to_end_smkex.Smkex.Keeps.{send_record-keychain}
use end_to_end_smkex.Smkex.Start.{init_session-unknown_buddy}
use end_to_end_smkex.Smkex.Handlers.{handle_nonce, store_nonce}
use end_to_end_smkex.Smkex.Process.{store, dispatch, session_for, process_record}

-- A session with the buddy that waits, with the block that `s` has for a nonce and a digest.
record Waits (buddy : MpString) (s : SmkexSessionInfo) (w : World) : Type 0 where
  session : SmkexSessionInfo
  there : find buddy w.keychain ≡ some session
  waits : session.status ≡ wait_key_nonce_h_dest
  same_block : session.received_nonce_h_value ≡ s.received_nonce_h_value

put_session-found :
    (buddy : MpString) (s s' : SmkexSessionInfo) (w : World)
    → find buddy w.keychain ≡ some s
    → find buddy (put_session buddy s' w).keychain ≡ some s'
unfolding put_session
put_session-found buddy s s' w there =
    find-update buddy buddy s' s w.keychain there
    ∙ ap (λ b. if b then some s' else find buddy w.keychain) (str_eq_refl buddy)

put_session-Waits :
    (buddy : MpString) (s s' : SmkexSessionInfo) (w : World)
    → find buddy w.keychain ≡ some s
    → s'.status ≡ wait_key_nonce_h_dest
    → s'.received_nonce_h_value ≡ s.received_nonce_h_value
    → Waits buddy s (put_session buddy s' w)
put_session-Waits buddy s s' w there waits same = record {
  session = s';
  there = put_session-found buddy s s' w there;
  waits = waits;
  same_block = same;
}

status-waits : (st : State) → is_wait_key_nonce_h_dest st ≡ true → st ≡ wait_key_nonce_h_dest
unfolding is_wait_key_nonce_h_dest
status-waits st e = ground arith

module _ (env : Env) where
  init_old_session-Waits :
      (nonce : List ℕ) (buddy : MpString) (s : SmkexSessionInfo) (w w' : World)
      → find buddy w.keychain ≡ some s
      → init_old_session env nonce buddy s w ≡ done w'
      → Waits buddy s w'
  unfolding init_old_session
  init_old_session-Waits nonce buddy s w w' there e =
      elim (Bool-cases (is_wait_key_nonce_h_dest s.status)) [
        | inl on ↦ subst (Waits buddy s) (ground (arith, on)) (
            put_session-Waits buddy s (record s { i_am_session_initiator = true }) w there
              (status-waits s.status on) refl)
        | inr off ↦ elim (Option-cases s.local_pub_key_length) [
          | inl unset ↦ absurd (ground (arith, off, unset))
          | inr (n, size) ↦
              elim (Outcome-cases
                (send_record env true buddy handshake_key n s.local_pub_key 1 w)) [
                  | inr ends ↦ absurd (ground (arith, off, size, ends))
                  | inl (w₁, p) ↦
                      elim (Outcome-cases (
                        send_record env false buddy handshake_nonce session_nonce_length nonce 1
                          w₁)) [
                            | inr ends ↦ absurd (ground (arith, off, size, p, ends))
                            | inl (w₂, q) ↦
                                let same =
                                  send_record-keychain env _ _ _ _ _ _ w₁ w₂ q
                                  ∙ send_record-keychain env _ _ _ _ _ _ w w₁ p in
                                subst (Waits buddy s) (ground (arith, off, size, p, q)) (
                                  put_session-Waits buddy s
                                    (record s {
                                      i_am_session_initiator = true;
                                      local_nonce = nonce;
                                      local_nonce_length = session_nonce_length;
                                      status = wait_key_nonce_h_dest;
                                    })
                                    w₂ (ap (find buddy) same ∙ there) refl refl)
                          ]
                ]
        ]
      ]

  init_session-Waits :
      (buddy : MpString) (s : SmkexSessionInfo) (w w' : World)
      → find buddy w.keychain ≡ some s
      → init_session env buddy w ≡ done w'
      → Waits buddy s w'
  unfolding init_session get_session_info make_nonce
  init_session-Waits buddy s w w' there e =
      elim (Option-cases (env.rand_bytes w.draws session_nonce_length)) [
        | inl nothing ↦ absurd (ground (arith, nothing))
        | inr (nonce, p) ↦
            init_old_session-Waits nonce buddy s (record w { draws = w.draws + 1 }) w' there
              (grind (arith, p))
      ]

  process_record-unset :
      (rec : SmkexT4mRecord) (buddy : MpString) (s : SmkexSessionInfo) (w : World)
      (w' : Bool × World)
      → find buddy w.keychain ≡ some s
      → s.status ≡ wait_key_nonce_h_dest
      → rec.type ≡ handshake_nonce
      → s.received_nonce_h_value ≡ none
      → ¬ (process_record env rec buddy w ≡ done w')
  unfolding process_record session_for get_session_info dispatch store handle_nonce store_nonce
  process_record-unset rec buddy s w w' there waits typed unset e = grind (arith)

-- When `initSession` has returned, and the buddy's session had received no nonce with a digest before, a
-- nonce record from the buddy is never processed to the end, whatever it holds, in whichever state the
-- session was: it is copied through a pointer that was never set.
pub init_session-nonce_first :
    (env : Env) (rec : SmkexT4mRecord) (buddy : MpString) (w w' : World) (r : Bool × World)
    → ((s : SmkexSessionInfo) → find buddy w.keychain ≡ some s → s.received_nonce_h_value ≡ none)
    → rec.type ≡ handshake_nonce
    → init_session env buddy w ≡ done w'
    → ¬ (process_record env rec buddy w' ≡ done r)
init_session-nonce_first env rec buddy w w' r unset typed e =
    elim (Option-cases (find buddy w.keychain)) [
      | inl unknown ↦ absurd (init_session-unknown_buddy env buddy w w' unknown e)
      | inr (s, there) ↦
          let h = init_session-Waits env buddy s w w' there e in
          process_record-unset env rec buddy h.session w' r h.there h.waits typed
            (h.same_block ∙ unset s there)
    ]
