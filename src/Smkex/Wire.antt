-- ===== src/Smkex/Wire.antt =====
-- What smkex/src/Smkex.cpp puts on the wire.
use end_to_end_smkex.Base.{
  ℕ, suc, ◌∙◌, refl, ◌+◌, ◌^◌, ◌%◌, ◌<◌, ◌≡◌, ap, subst, Bool, true, false, List, [], ◌∷◌, ◌++◌,
  none, some, MpString, length, prefix?, prefix?-all, drop, done, arith, pos, Outcome-cases,
  append-nil, inl, inr,
}
use end_to_end_smkex.AutoResend.Payload.{
  MpMsgPayload, message, is_message, new_payload, new_payload-bytes,
}
use end_to_end_smkex.Utils.Buffer
use end_to_end_smkex.Utils.Buffer.{MpBuffer}
use end_to_end_smkex.Record.{
  SmkexT4mType, SmkexT4mRecord, smkex_t4m_protocol_version, get_smkex_t4m_record2,
  serialize_smkex_t4m_record, get_record_from_serial,
}
use end_to_end_smkex.Record.Layout.{IsTypeByte}
use end_to_end_smkex.Record.Made.{get_smkex_t4m_record2-parsed}
use end_to_end_smkex.Smkex.Env.{Env}
use end_to_end_smkex.Smkex.Session.{World}
use end_to_end_smkex.Smkex.Send.{send_key_or_nonce, send_record}

sent-of-made :
    (block : List ℕ) (n : ℕ) (buddy : MpString) (chan : ℕ) (w w' : World) (m : MpMsgPayload)
    → length block ≡ n
    → new_payload buddy
        (record { payload = some block; len = length block })
        (pos 1)
        (pos 5)
        (pos 1)
        message
        false
      ≡ done m
    → send_key_or_nonce (some block) n buddy chan w ≡ done w'
    → w'.sent ≡ w.sent ++ m ∷ []
unfolding send_key_or_nonce Buffer.of_bytes Buffer.bytes_from
sent-of-made block n buddy chan w w' m size made e =
    let all = prefix?-all block in ground (arith, all, made, size)

-- The message that the engine is given for a block of `n` bytes.
send_key_or_nonce-sent :
    (block : List ℕ) (n : ℕ) (buddy : MpString) (chan : ℕ) (w w' : World)
    → length block ≡ n
    → n + 1 < 2 ^ 32
    → send_key_or_nonce (some block) n buddy chan w ≡ done w'
    → (m : MpMsgPayload) × (w'.sent ≡ w.sent ++ m ∷ [])
      × (m.user_serial ≡ buddy)
      × (m.payload ≡ record { payload = some (0 ∷ block); len = suc (length block) })
unfolding is_message
send_key_or_nonce-sent block n buddy chan w w' size small e =
    let (m, made, bytes, serial) =
      new_payload-bytes buddy block (pos 1) (pos 5) (pos 1) message false (omega arith) in
    (
      m,
      sent-of-made block n buddy chan w w' m size made e,
      serial,
      bytes ∙ ap (λ k. record { payload = some (0 ∷ block); len = k }) (omega arith),
    )

-- The message to `buddy` whose block is a zero byte and then the serial form of a record: the peer's
-- parser, skipping that byte, reads back a record of the type, from `me`, with the `n` bytes.
pub record Carries (env : Env) (buddy me : MpString) (type : SmkexT4mType) (n : ℕ) (from : List ℕ)
    (m : MpMsgPayload) : Type 0 where
  pub rec : SmkexT4mRecord
  pub block : List ℕ
  pub to_buddy : m.user_serial ≡ buddy
  pub bytes : m.payload ≡ record { payload = some block; len = length block }
  pub headed : block ≡ 0 ∷ drop 1 block
  pub parsed : get_record_from_serial env.can_alloc (drop 1 block) ≡ done (some rec)
  pub typed : rec.type ≡ type
  pub from_me : rec.sender ≡ me ++ 0 ∷ []
  pub body : prefix? n from ≡ some rec.body

module _ (env : Env) where
  -- What is sent is the serial form of the record that was made.
  send_record-made :
      (printed : Bool) (buddy : MpString) (type : SmkexT4mType) (n : ℕ) (from : List ℕ) (chan : ℕ)
      (w w' : World)
      → send_record env printed buddy type n from chan w ≡ done w'
      → (rec : SmkexT4mRecord) × (get_smkex_t4m_record2 env.can_alloc w.clock 0 buddy w.myself type
            smkex_t4m_protocol_version
            (n % 2 ^ 16)
            from
          ≡ done (some rec))
        × ((out : record { len : ℕ; serial : List ℕ })
            → serialize_smkex_t4m_record env.can_alloc rec ≡ done (some out)
            → send_key_or_nonce (some out.serial) out.len buddy chan w ≡ done w')
  unfolding send_record
  send_record-made printed buddy type n from chan w w' e =
      let made =
        get_smkex_t4m_record2 env.can_alloc w.clock 0 buddy w.myself type smkex_t4m_protocol_version
          (n % 2 ^ 16) from in
      elim (Outcome-cases made) [
        | inl (some rec, p) ↦ (rec, p, λ out q. grind (arith, p, q))
        | inl (none, p) ↦ absurd (ground (arith, p))
        | inr ends ↦ absurd (ground (arith, ends))
      ]

  -- A record that is sent with memory reaches the engine as one message to the buddy that carries it.
  -- The two names are shorter than 2^16 - 1, the time, the length and the type fit their fields.
  pub send_record-Carries :
      (memory : (n : ℕ) → env.can_alloc n ≡ true) (printed : Bool) (buddy : MpString)
      (type : SmkexT4mType) (n : ℕ) (from : List ℕ) (chan : ℕ) (w w' : World)
      → length buddy + 1 < 2 ^ 16
      → length w.myself + 1 < 2 ^ 16
      → w.clock < 2 ^ 64
      → n < 2 ^ 16
      → IsTypeByte type
      → send_record env printed buddy type n from chan w ≡ done w'
      → (m : MpMsgPayload) × (w'.sent ≡ w.sent ++ m ∷ []) × Carries env buddy w.myself type n from m
  send_record-Carries memory printed buddy type n from chan w w' hb hm hc hn ht e =
      let (rec, made, sends) = send_record-made printed buddy type n from chan w w' e in
      let small : n % 2 ^ 16 ≡ n = omega arith in
      let (out, s, size, total, p, _, from_me, typed, body) =
        get_smkex_t4m_record2-parsed env.can_alloc memory w.clock 0 buddy w.myself type
          smkex_t4m_protocol_version n from rec [] hb hm hc (omega arith) (omega arith) hn ht
          (subst
            (λ k.
              get_smkex_t4m_record2 env.can_alloc w.clock 0 buddy w.myself type
                smkex_t4m_protocol_version k from
              ≡ done (some rec))
            small made) in
      let (m, handed, to_buddy, bytes) =
        send_key_or_nonce-sent out.serial out.len buddy chan w w' size (omega arith)
          (sends out s) in
      (
        m,
        handed,
        record {
          rec = rec;
          block = 0 ∷ out.serial;
          to_buddy = to_buddy;
          bytes = bytes;
          headed = refl;
          parsed =
              subst (λ z. get_record_from_serial env.can_alloc z ≡ done (some rec))
                (append-nil out.serial) p;
          typed = typed;
          from_me = from_me;
          body = body;
        },
      )
