-- ===== src/Smkex/Agreement.antt =====
-- The session key that the two sides of a handshake derive from each other's key record
-- (smkex/src/Smkex.cpp, smkex/src/crypto.cpp).
use end_to_end_smkex.Base.{
  ℕ, ◌≤◌, ◌≡◌, refl, sym, subst, ap, ◌∙◌, true, List, [], ◌∷◌, ◌++◌, some, length, drop, prefix?,
  prefix?-all, prefix?-fits, length-prefix?, prefix?-append, append-nil, length-append, le_bytes,
  MpString, done, arith,
}
use end_to_end_smkex.Record.{SmkexT4mRecord, handshake_key}
use end_to_end_smkex.Smkex.Env.{Env, malloc}
use end_to_end_smkex.Smkex.Session.{
  SmkexSessionInfo, World, not_connected, wait_key_nonce_h_dest, wait_nonce_h_dest, wait_nonce_init,
  memcpy, print_key, nist_800_kdf, compute_and_store_session_key,
}
use end_to_end_smkex.Smkex.Send.{send_record}
use end_to_end_smkex.Smkex.Handlers.{renew_session_key, store_remote_key, handle_key}

-- What OpenSSL documents of Diffie-Hellman on a curve and of HMAC with SHA-256: the octets of a pair's
-- public key decode to its point, a pair and a point give a secret, which is the same for either pair
-- with the other's point, and a MAC has 32 bytes.
pub record IsEcdh (env : Env) : Type 0 where
  pub point_of : ℕ → ℕ
  pub secret : (own other : ℕ) → List ℕ
  pub decodes : (key : ℕ) → env.oct2point (env.public_octets key) ≡ some (point_of key)
  pub shares : (own other : ℕ) → env.ecdh_secret own (point_of other) ≡ some (secret own other)
  pub commutes : (own other : ℕ) → secret own other ≡ secret other own
  pub mac_full : (key bytes : List ℕ) → length (env.hmac_sha256 key bytes) ≡ 32

-- The key of 64 bytes that belongs to a secret: its MACs of the numbers 0 and 1, of four bytes each.
abbrev pub derived : Env → List ℕ → List ℕ
derived env secret =
    env.hmac_sha256 secret (0 ∷ 0 ∷ 0 ∷ 0 ∷ []) ++ env.hmac_sha256 secret (1 ∷ 0 ∷ 0 ∷ 0 ∷ [])

nist_800_kdf-derived : (env : Env) (secret : List ℕ) → nist_800_kdf env secret ≡ derived env secret
unfolding nist_800_kdf le_bytes
nist_800_kdf-derived env secret = refl

drop-all {ℓ} : {A : Type ℓ} (xs : List A) → drop (length xs) xs ≡ []
drop-all [] = refl
drop-all (x ∷ xs) = drop-all xs

-- A copy of the first `n` bytes of a block into one with room for them.
memcpy-room :
    (dst src bytes : List ℕ) (n : ℕ)
    → prefix? n src ≡ some bytes
    → n ≤ length dst
    → memcpy dst src n ≡ done (bytes ++ drop n dst)
unfolding memcpy
memcpy-room dst src bytes n there room =
    let (old, fits, _) = prefix?-fits n dst room in rw (there, fits)

-- A copy that fills the block replaces it.
memcpy-full : (dst src : List ℕ) → length dst ≡ length src → memcpy dst src (length src) ≡ done src
memcpy-full dst src e =
    let gone : drop (length src) dst ≡ [] = subst (λ n. drop n dst ≡ []) e (drop-all dst) in
    memcpy-room dst src src (length src) (prefix?-all src) (omega arith)
    ∙ ap (λ x. done (src ++ x)) gone
    ∙ ap done (append-nil src)

-- A record with a peer's key, and a session with a block for the session key.
abbrev pub CanDerive : Env → SmkexT4mRecord → ℕ → SmkexSessionInfo → Type 0
CanDerive env rec peer s =
    (prefix? rec.length_ rec.body ≡ some (env.public_octets peer))
    × (length s.session_key ≡ 64)
    × (s.session_key_len ≡ 64)

module _ (env : Env) (ecdh : IsEcdh env) where
  length-derived : (secret : List ℕ) → length (derived env secret) ≡ 64
  length-derived secret = omega (
    arith,
    length-append (env.hmac_sha256 secret (0 ∷ 0 ∷ 0 ∷ 0 ∷ []))
        (env.hmac_sha256 secret (1 ∷ 0 ∷ 0 ∷ 0 ∷ [])),
    ecdh.mac_full secret (0 ∷ 0 ∷ 0 ∷ 0 ∷ []),
    ecdh.mac_full secret (1 ∷ 0 ∷ 0 ∷ 0 ∷ []),
  )

  -- A session that holds the octets of a peer's key, and has room for a session key, derives it.
  renew_session_key-derived :
      (s : SmkexSessionInfo) (n peer : ℕ)
      → s.remote_pub_key_len ≡ some n
      → prefix? n s.remote_pub_key ≡ some (env.public_octets peer)
      → length s.session_key ≡ 64
      → s.session_key_len ≡ 64
      → renew_session_key env s
        ≡ done (record s { session_key = derived env (ecdh.secret s.ec_key peer) })
  unfolding renew_session_key compute_and_store_session_key print_key
  renew_session_key-derived s n peer known key room size =
      let secret = ecdh.secret s.ec_key peer in
      let whole : prefix? s.session_key_len (derived env secret) ≡ some (derived env secret) =
        subst (λ m. prefix? m (derived env secret) ≡ some (derived env secret))
          (length-derived secret ∙ sym size) (prefix?-all (derived env secret)) in
      let full =
        memcpy-full s.session_key (derived env secret) (room ∙ sym (length-derived secret)) in
      ground (
        arith,
        ecdh.decodes peer,
        ecdh.shares s.ec_key peer,
        nist_800_kdf-derived env secret,
        full,
        whole,
      )

  handle_key-first :
      (s : SmkexSessionInfo) (rec : SmkexT4mRecord) (peer : ℕ) (buddy : MpString) (w : World)
      → CanDerive env rec peer s
      → rec.length_ ≤ length s.remote_pub_key
      → (s' : SmkexSessionInfo) × (handle_key env wait_key_nonce_h_dest s rec buddy w
          ≡ done (s', w))
        × (s'.session_key ≡ derived env (ecdh.secret s.ec_key peer))
        × (s'.status ≡ wait_nonce_h_dest)
  unfolding handle_key store_remote_key
  handle_key-first s rec peer buddy w (there, room, size) fits =
      let octets = env.public_octets peer in
      let block = octets ++ drop rec.length_ s.remote_pub_key in
      let copied = memcpy-room s.remote_pub_key rec.body octets rec.length_ there fits in
      let held : prefix? rec.length_ block ≡ some octets =
        subst (λ m. prefix? m block ≡ some octets)
          (length-prefix? rec.length_ rec.body octets there)
          (prefix?-append octets (drop rec.length_ s.remote_pub_key)) in
      let s₁ : SmkexSessionInfo = record s {
        remote_pub_key = block;
        remote_pub_key_length = rec.length_;
        remote_pub_key_len = some rec.length_;
      } in
      let renewed = renew_session_key-derived s₁ rec.length_ peer refl held room size in
      (
        record s₁ {
          session_key = derived env (ecdh.secret s.ec_key peer);
          status = wait_nonce_h_dest;
        },
        rw (copied, renewed),
        refl,
        refl,
      )

  handle_key-second :
      (s : SmkexSessionInfo) (n : ℕ) (rec : SmkexT4mRecord) (peer : ℕ) (buddy : MpString)
      (w w' : World)
      → CanDerive env rec peer s
      → env.can_alloc rec.length_ ≡ true
      → s.local_pub_key_length ≡ some n
      → send_record env true buddy handshake_key n s.local_pub_key 1 w ≡ done w'
      → (s' : SmkexSessionInfo) × (handle_key env not_connected s rec buddy w ≡ done (s', w'))
        × (s'.session_key ≡ derived env (ecdh.secret s.ec_key peer))
        × (s'.status ≡ wait_nonce_init)
  unfolding handle_key malloc
  handle_key-second s n rec peer buddy w w' (there, room, size) memory own sent =
      let octets = env.public_octets peer in
      let held : prefix? rec.length_ octets ≡ some octets =
        subst (λ m. prefix? m octets ≡ some octets)
          (length-prefix? rec.length_ rec.body octets there) (prefix?-all octets) in
      let s₁ : SmkexSessionInfo = record s {
        remote_pub_key = octets;
        remote_pub_key_length = rec.length_;
        remote_pub_key_len = some rec.length_;
      } in
      let renewed = renew_session_key-derived s₁ rec.length_ peer refl held room size in
      (
        record s₁ {
          session_key = derived env (ecdh.secret s.ec_key peer);
          status = wait_nonce_init;
        },
        rw (memory, there, renewed, own, sent),
        refl,
        refl,
      )

-- An initiator that waits for key, nonce and digest, and a responder that is not connected, each handle
-- the record with the other's public key. Both handlers return, the initiator then waits for the digest
-- and the responder for the nonce, and both have the same session key: the MACs, under their
-- Diffie-Hellman secret, of the numbers 0 and 1, of four bytes each. Both have a block of 64 bytes for it,
-- the initiator's block for the remote key has room for the record's, the responder has memory for it,
-- and its own key record is sent.
pub handle_key-agrees :
    (env : Env) (ecdh : IsEcdh env) (a b : SmkexSessionInfo) (rec_a rec_b : SmkexT4mRecord) (n : ℕ)
    (to_a to_b : MpString) (u w w' : World)
    → CanDerive env rec_b b.ec_key a
    → CanDerive env rec_a a.ec_key b
    → rec_b.length_ ≤ length a.remote_pub_key
    → env.can_alloc rec_a.length_ ≡ true
    → b.local_pub_key_length ≡ some n
    → send_record env true to_a handshake_key n b.local_pub_key 1 w ≡ done w'
    → (a' : SmkexSessionInfo) × (b' : SmkexSessionInfo) × (handle_key env wait_key_nonce_h_dest a
          rec_b to_b u
        ≡ done (a', u))
      × (handle_key env not_connected b rec_a to_a w ≡ done (b', w'))
      × (a'.session_key ≡ b'.session_key)
      × (a'.session_key ≡ derived env (ecdh.secret a.ec_key b.ec_key))
      × (a'.status ≡ wait_nonce_h_dest)
      × (b'.status ≡ wait_nonce_init)
handle_key-agrees env ecdh a b rec_a rec_b n to_a to_b u w w' key_b key_a fits memory own sent =
    let (a', out_a, derived_a, status_a) =
      handle_key-first env ecdh a rec_b b.ec_key to_b u key_b fits in
    let (b', out_b, derived_b, status_b) =
      handle_key-second env ecdh b n rec_a a.ec_key to_a w w' key_a memory own sent in
    let same = ap (derived env) (ecdh.commutes a.ec_key b.ec_key) in
    (a', b', out_a, out_b, derived_a ∙ same ∙ sym derived_b, derived_a, status_a, status_b)
