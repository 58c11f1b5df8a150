-- ===== src/Smkex/Sealed.antt =====
-- Decrypting what was encrypted (smkex/src/crypto.cpp).
use mathlib.Core.Path.{ap₂}
use end_to_end_smkex.Base.{
  ℕ, ◌+◌, ◌-◌, ◌^◌, ◌<◌, ◌≤◌, ◌≡◌, ap, ◌∙◌, subst, Bool, true, false, List, [], ◌++◌, append-nil,
  some, length, drop, prefix?, prefix?-all, prefix?-fits, prefix?-append, drop-append,
  length-append, ltb, pos, done, arith,
}
use end_to_end_smkex.Smkex.Cipher.{
  Evp, to_int, session_key_length, session_iv_length, session_tag_length, new_cipher, run_cipher,
  mp_aesgcm_encrypt, mp_aesgcm_decrypt,
}

-- A key of AES-256 and an initialisation vector of the default length of GCM.
pub record SessionKey : Type 0 where
  pub key : List ℕ
  pub iv : List ℕ
  pub key_full : length key ≡ session_key_length
  pub iv_full : length iv ≡ session_iv_length

-- What OpenSSL documents of GCM for such keys and texts whose length is an `int`: a text is encrypted in
-- one call, to as many bytes, with a tag of 16 bytes at the end; decryption inverts it under the same
-- key and vector, and its end accepts the same tag.
pub record IsGcm {C : Type 0} (evp : Evp C) : Type 0 where
  pub ctx : C
  pub made : evp.ctx_new ≡ some ctx
  pub key_long : (b : Bool) → evp.key_length (evp.cipher_init b ctx) ≡ session_key_length
  pub iv_long : (b : Bool) → evp.iv_length (evp.cipher_init b ctx) ≡ session_iv_length
  pub encrypted : (k : SessionKey) (text : List ℕ) → List ℕ
  pub tag_of : (k : SessionKey) (text : List ℕ) → List ℕ
  pub length_encrypted : (k : SessionKey) (text : List ℕ) → length (encrypted k text) ≡ length text
  pub length_tag : (k : SessionKey) (text : List ℕ) → length (tag_of k text) ≡ session_tag_length
  pub after_update : (k : SessionKey) (text : List ℕ) → C
  pub after_final : (k : SessionKey) (text : List ℕ) → C
  pub before_check : (k : SessionKey) (text tag : List ℕ) → C
  pub after_check : (k : SessionKey) (text : List ℕ) → C
  pub encrypts :
      (k : SessionKey) (block text : List ℕ) (n : ℕ)
      → n < 2 ^ 31
      → prefix? n block ≡ some text
      → evp.cipher_update block (pos n) (evp.set_key k.key k.iv (evp.cipher_init true ctx))
        ≡ some (encrypted k text, after_update k text)
  pub ends :
      (k : SessionKey) (text : List ℕ)
      → length text < 2 ^ 31
      → evp.cipher_final (after_update k text) ≡ some ([], after_final k text)
  pub tags :
      (k : SessionKey) (text : List ℕ)
      → length text < 2 ^ 31
      → evp.get_tag session_tag_length (after_final k text) ≡ some (tag_of k text)
  pub decrypts :
      (k : SessionKey) (block text tag : List ℕ) (n : ℕ)
      → n < 2 ^ 31
      → length tag ≡ session_tag_length
      → prefix? n block ≡ some (encrypted k text)
      → evp.cipher_update block
          (pos n)
          (evp.set_tag tag (evp.set_key k.key k.iv (evp.cipher_init false ctx)))
        ≡ some (text, before_check k text tag)
  pub accepts :
      (k : SessionKey) (text : List ℕ)
      → length text < 2 ^ 31
      → evp.cipher_final (before_check k text (tag_of k text)) ≡ some ([], after_check k text)

to_int-small : (n : ℕ) → n < 2 ^ 31 → to_int n ≡ pos n
unfolding to_int
to_int-small n h = ground arith

-- A key and a vector at the start of two blocks.
module _ {C : Type 0} (evp : Evp C) (gcm : IsGcm evp) (k : SessionKey) (key iv text : List ℕ)
    (key_there : prefix? session_key_length key ≡ some k.key)
    (iv_there : prefix? session_iv_length iv ≡ some k.iv) where
  new_cipher-ready :
      (b : Bool)
      → new_cipher evp b key iv ≡ done (evp.set_key k.key k.iv (evp.cipher_init b gcm.ctx))
  unfolding new_cipher
  new_cipher-ready b = rw (gcm.made, gcm.key_long b, gcm.iv_long b, key_there, iv_there)

  run_cipher-encrypts :
      length text < 2 ^ 31
      → run_cipher evp text (length text) (evp.set_key k.key k.iv (evp.cipher_init true gcm.ctx))
        ≡ some (gcm.encrypted k text, gcm.after_final k text)
  unfolding run_cipher
  run_cipher-encrypts short = ground (
    arith,
    to_int-small (length text) short,
    gcm.encrypts k text text (length text) short (prefix?-all text),
    gcm.ends k text short,
    append-nil (gcm.encrypted k text),
  )

  run_cipher-decrypts :
      length text < 2 ^ 31
      → let tag = gcm.tag_of k text in
        run_cipher evp
          (gcm.encrypted k text ++ tag)
          (length text)
          (evp.set_tag tag (evp.set_key k.key k.iv (evp.cipher_init false gcm.ctx)))
        ≡ some (text, gcm.after_check k text)
  unfolding run_cipher
  run_cipher-decrypts short =
      let cut : prefix? (length text) (gcm.encrypted k text ++ gcm.tag_of k text)
          ≡ some (gcm.encrypted k text) =
        subst
          (λ n. prefix? n (gcm.encrypted k text ++ gcm.tag_of k text) ≡ some (gcm.encrypted k text))
          (gcm.length_encrypted k text)
          (prefix?-append (gcm.encrypted k text) (gcm.tag_of k text)) in
      ground (
        arith,
        to_int-small (length text) short,
        gcm.decrypts k _ text (gcm.tag_of k text) (length text) short (gcm.length_tag k text) cut,
        gcm.accepts k text short,
        append-nil text,
      )

  encrypt-text :
      length text < 2 ^ 31
      → mp_aesgcm_encrypt evp text (length text) key iv
        ≡ done (some (gcm.encrypted k text ++ gcm.tag_of k text))
  unfolding mp_aesgcm_encrypt
  encrypt-text short =
      ground (arith, new_cipher-ready true, run_cipher-encrypts short, gcm.tags k text short)

  length-sealed :
      length (gcm.encrypted k text ++ gcm.tag_of k text) ≡ length text + session_tag_length
  length-sealed =
      length-append (gcm.encrypted k text) (gcm.tag_of k text)
      ∙ ap₂ ◌+◌ (gcm.length_encrypted k text) (gcm.length_tag k text)

  last-tag :
      prefix? session_tag_length (drop (length text) (gcm.encrypted k text ++ gcm.tag_of k text))
      ≡ some (gcm.tag_of k text)
  last-tag =
      let e = gcm.encrypted k text in
      let tag = gcm.tag_of k text in
      ap (prefix? session_tag_length)
        (subst (λ n. drop n (e ++ tag) ≡ tag) (gcm.length_encrypted k text) (drop-append e tag))
      ∙ subst (λ n. prefix? n tag ≡ some tag) (gcm.length_tag k text) (prefix?-all tag)

  decrypt-text :
      length text < 2 ^ 31
      → let sealed = gcm.encrypted k text ++ gcm.tag_of k text in
        mp_aesgcm_decrypt evp sealed (length sealed) key iv ≡ done (some text)
  unfolding mp_aesgcm_decrypt
  decrypt-text short =
      let e = gcm.encrypted k text in
      let tag = gcm.tag_of k text in
      let last : prefix? session_tag_length (drop (length text) (e ++ tag)) ≡ some tag = last-tag in
      let size : length (e ++ tag) - session_tag_length ≡ length text =
        omega (arith, length-sealed) in
      let long : ltb (length (e ++ tag)) session_tag_length ≡ false =
        ground (arith, length-sealed) in
      ground (arith, new_cipher-ready false, run_cipher-decrypts short, last, size, long)

  sealed-opens :
      length text < 2 ^ 31
      → (sealed : List ℕ) × (mp_aesgcm_encrypt evp text (length text) key iv ≡ done (some sealed))
        × (length sealed ≡ length text + session_tag_length)
        × (mp_aesgcm_decrypt evp sealed (length sealed) key iv ≡ done (some text))
  sealed-opens short = (_, encrypt-text short, length-sealed, decrypt-text short)

-- With a cipher that does what OpenSSL documents of GCM, and blocks of at least 32 bytes for the key
-- and 12 for the vector, a text shorter than 2^31 bytes is encrypted without an error, to 16 bytes
-- more than it has, and decrypting those under the same key and vector gives the text back.
pub mp_aesgcm_decrypt-mp_aesgcm_encrypt :
    {C : Type 0} (evp : Evp C) (gcm : IsGcm evp) (key iv text : List ℕ)
    → session_key_length ≤ length key
    → session_iv_length ≤ length iv
    → length text < 2 ^ 31
    → (sealed : List ℕ) × (mp_aesgcm_encrypt evp text (length text) key iv ≡ done (some sealed))
      × (length sealed ≡ length text + session_tag_length)
      × (mp_aesgcm_decrypt evp sealed (length sealed) key iv ≡ done (some text))
mp_aesgcm_decrypt-mp_aesgcm_encrypt evp gcm key iv text key_room iv_room =
    let (k, key_there, key_full) = prefix?-fits session_key_length key key_room in
    let (v, iv_there, iv_full) = prefix?-fits session_iv_length iv iv_room in
    let session : SessionKey = record { key = k; iv = v; key_full = key_full; iv_full = iv_full } in
    sealed-opens evp gcm session key iv text key_there iv_there
