-- ===== src/Smkex/Release.antt =====
-- The destructor of smkex/src/SmkexSessionInfo.cpp: which blocks it frees. A pointer is an address, none
-- if it is null.
use end_to_end_smkex.Base.{
  ℕ, ◌≡◌, Bool, false, Bool-cases, inl, inr, List, [], ◌∷◌, ◌++◌, Option, none, some, ◌==◌,
  if◌then◌else◌, Outcome, done, fault, ◌>>=◌, arith,
}

-- The pointers of a session.
pub record Pointers : Type 0 where
  pub dh : Option ℕ
  pub local_nonce : Option ℕ
  pub local_pub_key : Option ℕ
  pub session_key : Option ℕ
  pub iv : Option ℕ
  pub local_priv_key : Option ℕ
  pub remote_pub_key : Option ℕ
  pub remote_nonce : Option ℕ
  pub local_nonce2 : Option ℕ
  pub received_nonce_h_value : Option ℕ
  pub ec_local_pub_key : Option ℕ
  pub ec_key : Option ℕ
  pub ec_group : Option ℕ

-- The addresses that have a block.
abbrev pub Heap : Type 0
Heap = ℕ → Bool

-- `free`; a block that is not there cannot be freed.
unfoldable pub free : Option ℕ → Heap → Outcome Heap
free none h = done h
free (some a) h = if h a then done (λ b. if a == b then false else h b) else fault

-- `if (test != 0) free(block)`, for a test and a block after the other.
unfoldable pub free_all : List (Option ℕ × Option ℕ) → Heap → Outcome Heap
unfolding free
free_all [] h = done h
free_all ((none, block) ∷ rest) h = free_all rest h
free_all ((some test, block) ∷ rest) h = do h' ← free block h; free_all rest h'

-- What the destructor tests and frees.
unfoldable pub released : Pointers → List (Option ℕ × Option ℕ)
released s =
    (s.dh, s.dh)
    ∷ (s.local_nonce, s.local_nonce)
    ∷ (s.local_pub_key, s.local_pub_key)
    ∷ (s.session_key, s.session_key)
    ∷ (s.iv, none)
    ∷ (s.local_priv_key, s.local_priv_key)
    ∷ (s.remote_pub_key, s.remote_pub_key)
    ∷ (s.remote_nonce, s.remote_nonce)
    ∷ (s.local_nonce2, s.local_nonce2)
    ∷ (s.session_key, s.session_key)
    ∷ (s.received_nonce_h_value, s.session_key)
    ∷ (s.ec_local_pub_key, s.session_key)
    ∷ (s.ec_key, s.session_key)
    ∷ (s.ec_group, s.session_key)
    ∷ []

unfoldable pub destroy : Pointers → Heap → Outcome Heap
destroy s h = free_all (released s) h

free_all-missing :
    (a : ℕ) (xs ys : List (Option ℕ × Option ℕ)) (h : Heap)
    → h a ≡ false
    → free_all (xs ++ (some a, some a) ∷ ys) h ≡ fault
unfolding free_all
free_all-missing a [] ys h e = rw e
free_all-missing a ((none, block) ∷ xs) ys h e = free_all-missing a xs ys h e
free_all-missing a ((some t, none) ∷ xs) ys h e = free_all-missing a xs ys h e
free_all-missing a ((some t, some b) ∷ xs) ys h e = elim (Bool-cases (h b)) [
  | inl f ↦ rw f (free_all-missing a xs ys _ (ground (arith, e)))
  | inr f ↦ rw f
]

free_all-twice :
    (a : ℕ) (xs ys zs : List (Option ℕ × Option ℕ)) (h : Heap)
    → free_all (xs ++ (some a, some a) ∷ (ys ++ (some a, some a) ∷ zs)) h ≡ fault
unfolding free_all
free_all-twice a [] ys zs h = elim (Bool-cases (h a)) [
  | inl f ↦ rw f (free_all-missing a ys zs _ (ground arith))
  | inr f ↦ rw f
]
free_all-twice a ((none, block) ∷ xs) ys zs h = free_all-twice a xs ys zs h
free_all-twice a ((some t, none) ∷ xs) ys zs h = free_all-twice a xs ys zs h
free_all-twice a ((some t, some b) ∷ xs) ys zs h = elim (Bool-cases (h b)) [
  | inl f ↦ rw f (free_all-twice a xs ys zs _)
  | inr f ↦ rw f
]

-- Destroying a session that has a session key is undefined, whatever else it holds and whatever
-- memory is live: it frees the key again after it has freed it.
pub destroy-frees_twice :
    (s : Pointers) (a : ℕ) (h : Heap) → s.session_key ≡ some a → destroy s h ≡ fault
unfolding destroy released
destroy-frees_twice s a h e = rw e (
    free_all-twice a
      ((s.dh, s.dh) ∷ (s.local_nonce, s.local_nonce) ∷ (s.local_pub_key, s.local_pub_key) ∷ [])
      ((s.iv, none)
        ∷ (s.local_priv_key, s.local_priv_key)
        ∷ (s.remote_pub_key, s.remote_pub_key)
        ∷ (s.remote_nonce, s.remote_nonce)
        ∷ (s.local_nonce2, s.local_nonce2)
        ∷ [])
      _ h)
