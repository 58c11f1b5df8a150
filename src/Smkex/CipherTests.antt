-- ===== src/Smkex/CipherTests.antt =====
-- A text encrypted and decrypted, with a cipher that leaves it as it is and a tag of zeros.
use end_to_end_smkex.Base.{
  ℕ, ◌+◌, ◌≡◌, refl, ap, Bool, true, List, [], ◌∷◌, Option, none, some, length, prefix?, replicate,
  ℤ, pos, negsuc, done, arith,
}
use end_to_end_smkex.Smkex.Cipher.{Evp, session_tag_length, mp_aesgcm_encrypt, mp_aesgcm_decrypt}
use end_to_end_smkex.Smkex.Sealed.{IsGcm, mp_aesgcm_decrypt-mp_aesgcm_encrypt}

abbrev zeros : List ℕ
zeros = 0 ∷ 0 ∷ 0 ∷ 0 ∷ 0 ∷ 0 ∷ 0 ∷ 0 ∷ 0 ∷ 0 ∷ 0 ∷ 0 ∷ 0 ∷ 0 ∷ 0 ∷ 0 ∷ []

abbrev with_context : Option (List ℕ) → Option (List ℕ × Bool)
with_context none = none
with_context (some text) = some (text, true)

abbrev update_plain : List ℕ → ℤ → Option (List ℕ × Bool)
update_plain block (pos n) = with_context (prefix? n block)
update_plain block (negsuc n) = none

abbrev plain : Evp Bool
plain = record {
  ctx_new = some true;
  cipher_init = λ encrypt c. c;
  key_length = λ c. 32;
  iv_length = λ c. 12;
  set_key = λ key iv c. c;
  cipher_update = λ block len c. update_plain block len;
  cipher_final = λ c. some ([], c);
  get_tag = λ len c. some zeros;
  set_tag = λ tag c. c;
}

abbrev plain-IsGcm : IsGcm plain
plain-IsGcm = record {
  ctx = true;
  made = refl;
  key_long = λ b. refl;
  iv_long = λ b. refl;
  encrypted = λ k text. text;
  tag_of = λ k text. zeros;
  length_encrypted = λ k text. refl;
  length_tag = λ k text. refl;
  after_update = λ k text. true;
  after_final = λ k text. true;
  before_check = λ k text tag. true;
  after_check = λ k text. true;
  encrypts = λ k block text n _ e. ap with_context e;
  ends = λ k text _. refl;
  tags = λ k text _. refl;
  decrypts = λ k block text tag n _ _ e. ap with_context e;
  accepts = λ k text _. refl;
}

mp_aesgcm_decrypt-mp_aesgcm_encrypt_example :
    (sealed : List ℕ) × (mp_aesgcm_encrypt plain (7 ∷ 0 ∷ 9 ∷ []) 3 (replicate 32 5) zeros
      ≡ done (some sealed))
    × (length sealed ≡ 3 + session_tag_length)
    × (mp_aesgcm_decrypt plain sealed (length sealed) (replicate 32 5) zeros
        ≡ done (some (7 ∷ 0 ∷ 9 ∷ [])))
mp_aesgcm_decrypt-mp_aesgcm_encrypt_example =
    mp_aesgcm_decrypt-mp_aesgcm_encrypt plain plain-IsGcm (replicate 32 5) zeros (7 ∷ 0 ∷ 9 ∷ [])
      (omega arith) (omega arith) (omega arith)
