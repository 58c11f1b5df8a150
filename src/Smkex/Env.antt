-- ===== src/Smkex/Env.antt =====
-- What smkex/ calls and does not implement: the C library and OpenSSL. Keys and points of the curve
-- are handles.
use end_to_end_smkex.Base.{ℕ, Bool, List, Option, Outcome, done, fault, if◌then◌else◌}

pub record Env : Type 0 where
  -- `malloc` of so many bytes gives a block, and the bytes that a new block holds.
  pub can_alloc : ℕ → Bool
  pub fresh : ℕ → List ℕ
  -- The n-th call of `RAND_bytes` for so many bytes; `none` is its return value 0.
  pub rand_bytes : ℕ → ℕ → Option (List ℕ)
  -- The n-th `EC_KEY_generate_key`; `none` is a failure.
  pub generate_key : ℕ → Option ℕ
  -- `EC_POINT_point2oct` of a pair's public key, uncompressed.
  pub public_octets : ℕ → List ℕ
  -- `EC_POINT_oct2point`; `none` is its return value 0.
  pub oct2point : List ℕ → Option ℕ
  -- The secret that `ECDH_compute_key` hands to its KDF, from a key pair and a point.
  pub ecdh_secret : ℕ → ℕ → Option (List ℕ)
  -- `HMAC(EVP_sha256(), key, data)`, and the digest of `EVP_sha256()`.
  pub hmac_sha256 : List ℕ → List ℕ → List ℕ
  pub sha256 : List ℕ → List ℕ

-- A `malloc` whose result is used without a test: a null pointer is used as a block.
unfoldable pub malloc : Env → ℕ → Outcome (List ℕ)
malloc env n = if env.can_alloc n then done (env.fresh n) else fault
