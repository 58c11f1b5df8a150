-- ===== src/Smkex/Step.antt =====
-- What one received record does to the keychain.
use end_to_end_smkex.Base.{
  ℕ, ◌≡◌, refl, subst, true, false, List, none, some, MpString, Outcome, done, exited, fault, arith,
  ◌⊎◌, inl, inr, find, find-insert, find-update, str_eq, str_eq_refl, str_eq_iff, if◌then◌else◌,
  Bool-cases,
}
use end_to_end_smkex.Record.{
  SmkexT4mType, SmkexT4mRecord, handshake_key, handshake_nonce, handshake_nonce_h, handshake_h,
  alert, application_data, handshake, unnamed,
}
use end_to_end_smkex.Smkex.Env.{Env}
use end_to_end_smkex.Smkex.Session.{
  SmkexSessionInfo, State, World, not_connected, wait_key_nonce_h_dest, connected, get_session_info,
  add_session_info, new_session, new_key_pair, make_nonce,
}
use end_to_end_smkex.Smkex.Hash.{verify_h}
use end_to_end_smkex.Smkex.Init.{
  put_session, init_session, init_old_session, is_wait_key_nonce_h_dest,
}
use end_to_end_smkex.Smkex.Process.{store, dispatch, session_for}
use end_to_end_smkex.Smkex.Keeps.{send_record-keychain}
use end_to_end_smkex.Smkex.Transition.{
  Next, Ends, handle_key-Ends, handle_nonce-Ends, handle_nonce_h-Ends,
}

-- The status of a buddy's session; one that is not there is made in the first state.
unfoldable pub status_of : MpString → World → State
status_of buddy w = elim (get_session_info buddy w) [ none ↦ not_connected | some s ↦ s.status ]

pub put_session-keychain :
    (buddy j : MpString) (s s' : SmkexSessionInfo) (w : World)
    → find buddy w.keychain ≡ some s
    → find j (put_session buddy s' w).keychain
      ≡ (if str_eq buddy j then some s' else find j w.keychain)
unfolding put_session
put_session-keychain buddy j s s' w e = find-update buddy j s' s w.keychain e

pub put_session-found :
    (buddy : MpString) (s s' : SmkexSessionInfo) (w : World)
    → find buddy w.keychain ≡ some s
    → find buddy (put_session buddy s' w).keychain ≡ some s'
put_session-found buddy s s' w e =
    ground (arith, put_session-keychain buddy buddy s s' w e, str_eq_refl buddy)

module _ (env : Env) where
  make_nonce-keychain :
      (w : World) (r : List ℕ × World) → make_nonce env w ≡ done r → r.1.keychain ≡ w.keychain
  unfolding make_nonce
  make_nonce-keychain w r e = ground arith

  new_key_pair-keychain :
      (w : World) (r : ℕ × World) → new_key_pair env w ≡ done r → r.1.keychain ≡ w.keychain
  unfolding new_key_pair
  new_key_pair-keychain w r e = ground arith

  new_session_lem :
      (w : World) (r : SmkexSessionInfo × World)
      → new_session env w ≡ done r
      → (r.1.keychain ≡ w.keychain) × (r.0.status ≡ not_connected)
  unfolding new_session
  new_session_lem w r e = grind (arith, make_nonce-keychain, new_key_pair-keychain)

  -- The session that a handler starts from: the buddy's, or a new one in the first state.
  pub session_for-status :
      (buddy : MpString) (w : World) (s : SmkexSessionInfo) (w₁ : World)
      → session_for env buddy w ≡ done (s, w₁)
      → s.status ≡ status_of buddy w
  unfolding session_for status_of
  session_for-status buddy w s w₁ e = grind (arith, new_session_lem)

  pub session_for-keychain :
      (buddy j : MpString) (w : World) (s : SmkexSessionInfo) (w₁ : World)
      → session_for env buddy w ≡ done (s, w₁)
      → find j w₁.keychain ≡ (if str_eq buddy j then some s else find j w.keychain)
  unfolding session_for get_session_info add_session_info
  session_for-keychain buddy j w s w₁ e =
      grind (arith, new_session_lem, find-insert, str_eq_iff buddy j)

  init_old_session-status :
      (nonce : List ℕ) (buddy : MpString) (s s' : SmkexSessionInfo) (w w' : World)
      → find buddy w.keychain ≡ some s
      → init_old_session env nonce buddy s w ≡ done w'
      → find buddy w'.keychain ≡ some s'
      → s'.status ≡ wait_key_nonce_h_dest
  unfolding init_old_session is_wait_key_nonce_h_dest
  init_old_session-status nonce buddy s s' w w' there e e' =
      elim (Bool-cases (is_wait_key_nonce_h_dest s.status)) [
        | inl y ↦ grind (arith, put_session-found)
        | inr n ↦ grind (arith, put_session-found, send_record-keychain)
      ]

  init_old_session-others :
      (nonce : List ℕ) (buddy j : MpString) (s : SmkexSessionInfo) (w w' : World)
      → find buddy w.keychain ≡ some s
      → init_old_session env nonce buddy s w ≡ done w'
      → str_eq buddy j ≡ false
      → find j w'.keychain ≡ find j w.keychain
  unfolding init_old_session
  init_old_session-others nonce buddy j s w w' there e ne =
      grind (arith, put_session-keychain, send_record-keychain)

  -- A key exchange started anew waits for the answer.
  pub init_session-status :
      (buddy : MpString) (s s' : SmkexSessionInfo) (w w' : World)
      → find buddy w.keychain ≡ some s
      → init_session env buddy w ≡ done w'
      → find buddy w'.keychain ≡ some s'
      → s'.status ≡ wait_key_nonce_h_dest
  unfolding init_session get_session_info
  init_session-status buddy s s' w w' there e e' =
      grind (arith, init_old_session-status, make_nonce-keychain)

  init_session-others :
      (buddy j : MpString) (s : SmkexSessionInfo) (w w' : World)
      → find buddy w.keychain ≡ some s
      → init_session env buddy w ≡ done w'
      → str_eq buddy j ≡ false
      → find j w'.keychain ≡ find j w.keychain
  unfolding init_session get_session_info
  init_session-others buddy j s w w' there e ne =
      grind (arith, init_old_session-others, make_nonce-keychain)

  -- What a record may do to the buddy's session `s`, which is `s'` then, and to the others.
  pub record Steps (type : SmkexT4mType) (buddy : MpString) (s s' : SmkexSessionInfo) (w w' : World)
      : Type 0 where
    pub next : Next type s.status s'.status
    pub verified : s'.status ≡ connected → (s.status ≡ connected) ⊎ (verify_h env s' ≡ done true)
    pub others : (j : MpString) → str_eq buddy j ≡ false → find j w'.keychain ≡ find j w.keychain

  -- A handler's end, written back.
  store-Steps :
      (type : SmkexT4mType) (buddy : MpString) (s s' : SmkexSessionInfo)
      (handled : Outcome (SmkexSessionInfo × World)) (w w' : World)
      → find buddy w.keychain ≡ some s
      → ((t : SmkexSessionInfo) (v : World) → handled ≡ done (t, v) → Ends env type s.status w t v)
      → store env buddy handled ≡ done w'
      → find buddy w'.keychain ≡ some s'
      → Steps type buddy s s' w w'
  unfolding store
  store-Steps type buddy s s' (done (t, v)) w w' there ends e e' =
      let end = ends t v refl in
      let same : find buddy v.keychain ≡ some s = rw end.same_keychain there in
      let now : t ≡ s' = ground (arith, put_session-found buddy s t v same) in
      record {
        next = subst (λ u. Next type s.status u.status) now end.next;
        verified =
            subst
              (λ u. u.status ≡ connected → (s.status ≡ connected) ⊎ (verify_h env u ≡ done true))
              now end.verified;
        others = λ j ne. ground (arith, put_session-keychain buddy j s t v same, end.same_keychain);
      }
  store-Steps type buddy s s' exited w w' there ends e e' = cc
  store-Steps type buddy s s' fault w w' there ends e e' = cc

  -- A record that changes nothing; its type keeps every state.
  idle-Steps :
      (type : SmkexT4mType) (buddy : MpString) (s s' : SmkexSessionInfo) (w w' : World)
      → find buddy w.keychain ≡ some s
      → w ≡ w'
      → find buddy w'.keychain ≡ some s'
      → Next type s.status s.status
      → Steps type buddy s s' w w'
  idle-Steps type buddy s s' w w' there same e' stays =
      let now : s ≡ s' = ground arith in
      record {
        next = subst (λ u. Next type s.status u.status) now stays;
        verified = λ c. inl (ground arith);
        others = λ j ne. ground arith;
      }

  alert-Steps :
      (buddy : MpString) (rec : SmkexT4mRecord) (s s' : SmkexSessionInfo) (w w' : World)
      → find buddy w.keychain ≡ some s
      → dispatch env alert s rec buddy w ≡ done w'
      → find buddy w'.keychain ≡ some s'
      → Steps alert buddy s s' w w'
  unfolding dispatch
  alert-Steps buddy rec s s' w w' there e e' =
      let s₀ = record s { status = not_connected } in
      let w₀ = put_session buddy s₀ w in
      let found : find buddy w₀.keychain ≡ some s₀ = put_session-found buddy s s₀ w there in
      elim (Bool-cases s.i_am_session_initiator) [
        | inl first ↦
            let again : init_session env buddy w₀ ≡ done w' = ground arith in
            let waits = init_session-status buddy s₀ s' w₀ w' found again e' in
            record {
              next = inr waits;
              verified = λ c. absurd (cc (c, waits));
              others = λ j ne. ground (
                arith,
                init_session-others buddy j s₀ w₀ w' found again ne,
                put_session-keychain buddy j s s₀ w there,
              );
            }
        | inr second ↦
            let same : w₀ ≡ w' = ground arith in
            let now : s₀ ≡ s' = ground arith in
            record {
              next = inl (ground arith);
              verified = λ c. ground arith;
              others = λ j ne. ground (arith, put_session-keychain buddy j s s₀ w there);
            }
      ]

  pub dispatch-Steps :
      (type : SmkexT4mType) (buddy : MpString) (rec : SmkexT4mRecord) (s s' : SmkexSessionInfo)
      (w w' : World)
      → find buddy w.keychain ≡ some s
      → dispatch env type s rec buddy w ≡ done w'
      → find buddy w'.keychain ≡ some s'
      → Steps type buddy s s' w w'
  unfolding dispatch
  dispatch-Steps handshake_key buddy rec s s' w w' there e e' =
      store-Steps _ buddy s s' _ w w' there
        (λ t v. handle_key-Ends env s.status s rec buddy w t v refl) e e'
  dispatch-Steps handshake_nonce buddy rec s s' w w' there e e' =
      store-Steps _ buddy s s' _ w w' there
        (λ t v. handle_nonce-Ends env s.status s rec buddy w t v) e e'
  dispatch-Steps handshake_nonce_h buddy rec s s' w w' there e e' =
      store-Steps _ buddy s s' _ w w' there (λ t v. handle_nonce_h-Ends env s rec buddy w t v) e e'
  dispatch-Steps handshake_h buddy rec s s' w w' there e e' = cc
  dispatch-Steps alert buddy rec s s' w w' there e e' = alert-Steps buddy rec s s' w w' there e e'
  dispatch-Steps application_data buddy rec s s' w w' there e e' =
      idle-Steps _ buddy s s' w w' there (cc) e' refl
  dispatch-Steps handshake buddy rec s s' w w' there e e' =
      idle-Steps _ buddy s s' w w' there (cc) e' refl
  dispatch-Steps (unnamed b) buddy rec s s' w w' there e e' =
      idle-Steps _ buddy s s' w w' there (cc) e' refl
