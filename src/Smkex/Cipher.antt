-- ===== src/Smkex/Cipher.antt =====
-- The ciphers of smkex/src/crypto.cpp, AES-256 in GCM mode, over OpenSSL's EVP functions as a
-- parameter. The blocks that the caller gives for the output are large enough.
use end_to_end_smkex.Base.{
  ℕ, ◌-◌, ◌%◌, ◌^◌, Bool, true, false, ◌&&◌, List, ◌++◌, Option, none, some, drop, prefix?, ◌==◌,
  ltb, if◌then◌else◌, ℤ, pos, negsuc, Outcome, done, exited, fault, or_fault, ◌>>=◌,
}

-- The calls of OpenSSL on a context `C` for `EVP_aes_256_gcm`. `none` is an error, or for
-- `ctx_new` a null pointer. The blocks are the pointers that it is given.
pub record Evp (C : Type 0) : Type 0 where
  pub ctx_new : Option C
  pub cipher_init : (encrypt : Bool) → C → C
  pub key_length : C → ℕ
  pub iv_length : C → ℕ
  pub set_key : (key iv : List ℕ) → C → C
  pub cipher_update : (block : List ℕ) → (len : ℤ) → C → Option (List ℕ × C)
  pub cipher_final : C → Option (List ℕ × C)
  pub get_tag : (len : ℕ) → C → Option (List ℕ)
  pub set_tag : List ℕ → C → C

abbrev pub session_key_length : ℕ
session_key_length = 32

abbrev pub session_iv_length : ℕ
session_iv_length = 12

abbrev pub session_tag_length : ℕ
session_tag_length = 16

-- A `size_t` given as an `int`.
unfoldable pub to_int : ℕ → ℤ
to_int n = let m = n % 2 ^ 32 in if ltb m (2 ^ 31) then pos m else negsuc (2 ^ 32 - 1 - m)

module _ {C : Type 0} (evp : Evp C) where
  -- A new context with its key, up to the last `EVP_CipherInit_ex`, which reads as many bytes of the two
  -- blocks as the cipher takes; `OPENSSL_assert` ends the program.
  unfoldable pub new_cipher : (encrypt : Bool) → (key iv : List ℕ) → Outcome C
  new_cipher encrypt key iv = elim evp.ctx_new [
    | none ↦ exited
    | some ctx ↦
        let ready = evp.cipher_init encrypt ctx in
        if (evp.key_length ready == session_key_length)
          && (evp.iv_length ready == session_iv_length)
        then (do
          key_bytes ← or_fault (prefix? session_key_length key)
          iv_bytes ← or_fault (prefix? session_iv_length iv)
          done (evp.set_key key_bytes iv_bytes ready))
        else exited
  ]

  abbrev append_tag : List ℕ → C → Option (List ℕ)
  append_tag out ctx = elim (evp.get_tag session_tag_length ctx) [
    | none ↦ none
    | some tag ↦ some (out ++ tag)
  ]

  -- `EVP_CipherUpdate` and `EVP_CipherFinal_ex`: what they write, and the context after them.
  unfoldable pub run_cipher : List ℕ → ℕ → C → Option (List ℕ × C)
  run_cipher block len ctx = elim (evp.cipher_update block (to_int len) ctx) [
    | none ↦ none
    | some (out, ctx₁) ↦ elim (evp.cipher_final ctx₁) [
      | none ↦ none
      | some (end, ctx₂) ↦ some (out ++ end, ctx₂)
    ]
  ]

  -- `mp_aesgcm_encrypt`: `none` is -1, else the bytes of `ctext`; `*clen` is how many there are.
  unfoldable pub mp_aesgcm_encrypt :
      (ptext : List ℕ) (plen : ℕ) (key iv : List ℕ) → Outcome (Option (List ℕ))
  unfolding new_cipher run_cipher
  mp_aesgcm_encrypt ptext plen key iv = do
    ctx ← new_cipher true key iv
    done (elim (run_cipher ptext plen ctx) [ none ↦ none | some (out, end) ↦ append_tag out end ])

  -- `mp_aesgcm_decrypt`: the tag is the last 16 bytes; a shorter text is read before its first byte.
  unfoldable pub mp_aesgcm_decrypt :
      (ctext : List ℕ) (clen : ℕ) (key iv : List ℕ) → Outcome (Option (List ℕ))
  unfolding new_cipher run_cipher
  mp_aesgcm_decrypt ctext clen key iv = do
    ctx ← new_cipher false key iv
    if ltb clen session_tag_length then fault else (do
      tag ← or_fault (prefix? session_tag_length (drop (clen - session_tag_length) ctext))
      done (elim (run_cipher ctext (clen - session_tag_length) (evp.set_tag tag ctx)) [
        | none ↦ none
        | some (out, end) ↦ some out
      ]))
