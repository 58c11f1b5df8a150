-- ===== src/Smkex/Verify.antt =====
-- What `verifyH` of smkex/src/Smkex.cpp compares, and what it answers.
use end_to_end_smkex.Base.{
  ℕ, zero, suc, ◌+◌, ◌≤◌, ◌≡◌, refl, true, false, List, [], ◌∷◌, some, length, drop, ◌==◌,
  if◌then◌else◌, done, arith, str_eq, prefix?-fits, length-drop,
}
use end_to_end_smkex.Smkex.Env.{Env}
use end_to_end_smkex.Smkex.Session.{SmkexSessionInfo, nonce_len}
use end_to_end_smkex.Smkex.Hash.{strncmp_ne, calculate_h, verify_h}

-- The text of at most `n` bytes at the start of a block: what stands before the first NUL.
unfoldable pub text_of : ℕ → List ℕ → List ℕ
text_of zero a = []
text_of (suc n) [] = []
text_of (suc n) (x ∷ a) = let rest = text_of n a in if x == 0 then [] else x ∷ rest

-- Over blocks that are long enough, `strncmp` tells the texts apart.
strncmp_ne-text_of :
    (n : ℕ) (a b : List ℕ)
    → n ≤ length a
    → n ≤ length b
    → strncmp_ne a b n ≡ done (if str_eq (text_of n a) (text_of n b) then false else true)
unfolding strncmp_ne text_of str_eq
strncmp_ne-text_of zero a b p q = refl
strncmp_ne-text_of (suc n) [] b p q = absurd (omega arith)
strncmp_ne-text_of (suc n) (x ∷ a) [] p q = absurd (omega arith)
strncmp_ne-text_of (suc n) (x ∷ a) (y ∷ b) p q =
    let ih = strncmp_ne-text_of n a b (omega arith) (omega arith) in ground (arith, ih)

-- On a session whose digest can be computed, over its own nonce and key and the peer's, and whose
-- received block has room for a nonce and a digest, `verifyH` returns, and it returns false exactly
-- when the text of the computed digest (its bytes up to the first NUL) is the text of the received
-- one: it accepts what does not match.
pub verify_h-inverted :
    (env : Env) (s : SmkexSessionInfo) (key_len : ℕ) (digest received : List ℕ)
    → s.remote_pub_key_len ≡ some key_len
    → calculate_h env s.local_pub_key s.local_nonce s.remote_pub_key s.remote_nonce nonce_len
        key_len
      ≡ done (some digest)
    → s.received_nonce_h_value ≡ some received
    → nonce_len + length digest ≤ length received
    → verify_h env s
      ≡ done (
          if str_eq
            (text_of (length digest) digest)
            (text_of (length digest) (drop nonce_len received))
          then false
          else true)
unfolding verify_h
verify_h-inverted env s key_len digest received remote computed kept room =
    let (nonce, fits, _) = prefix?-fits nonce_len received (omega arith) in
    rw (
      remote,
      computed,
      kept,
      fits,
      strncmp_ne-text_of (length digest) digest (drop nonce_len received) (omega arith)
          (omega (arith, length-drop nonce_len received)),
    )
