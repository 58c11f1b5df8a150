-- ===== src/Smkex/Hash.antt =====
-- `calculateH` and `verifyH` of smkex/src/Smkex.cpp.
use end_to_end_smkex.Base.{
  ℕ, zero, suc, Bool, true, false, List, [], ◌∷◌, ◌++◌, Option, none, some, length, drop, prefix?,
  ◌==◌, if◌then◌else◌, c_str, Outcome, done, fault, ◌>>=◌, or_fault,
}
use end_to_end_smkex.Smkex.Env.{Env, malloc}
use end_to_end_smkex.Smkex.Session.{SmkexSessionInfo, nonce_len}

-- `strncmp(a, b, n) != 0`: the bytes are compared up to the first difference or the first NUL.
unfoldable pub strncmp_ne : (a b : List ℕ) → ℕ → Outcome Bool
strncmp_ne a b zero = done false
strncmp_ne [] b (suc n) = fault
strncmp_ne (x ∷ a) [] (suc n) = fault
strncmp_ne (x ∷ a) (y ∷ b) (suc n) =
    let rest = strncmp_ne a b n in
    if x == y then (if x == 0 then done false else rest) else done true

-- EVP_MAX_MD_SIZE
abbrev evp_max_md_size : ℕ
evp_max_md_size = 64

module _ (env : Env) where
  -- The digest over the two nonces and keys, each up to its first NUL (`strlen`); `none` is a null
  -- pointer with length 0.
  unfoldable pub calculate_h :
      (key1 nonce1 key2 nonce2 : List ℕ) (nonce_length key_length : ℕ) → Outcome (Option (List ℕ))
  calculate_h key1 nonce1 key2 nonce2 nonce_length key_length =
      if nonce_length == 0 then done none else if key_length == 0 then done none else (do
        _ ← malloc env evp_max_md_size
        n1 ← or_fault (c_str nonce1)
        k1 ← or_fault (c_str key1)
        n2 ← or_fault (c_str nonce2)
        k2 ← or_fault (c_str key2)
        done (some (env.sha256 (n1 ++ (k1 ++ (n2 ++ k2))))))

  unfoldable pub verify_h : SmkexSessionInfo → Outcome Bool
  verify_h s = do
    key_len ← or_fault s.remote_pub_key_len
    h ← calculate_h s.local_pub_key s.local_nonce s.remote_pub_key s.remote_nonce nonce_len key_len
    digest ← or_fault h
    received ← or_fault s.received_nonce_h_value
    _ ← or_fault (prefix? nonce_len received)
    strncmp_ne digest (drop nonce_len received) (length digest)
