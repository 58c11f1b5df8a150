-- ===== src/Record/Made.antt =====
-- The records that `getSmkexT4mRecord2` (smkex/src/smkexrecord.cpp) makes.
use end_to_end_smkex.Base.{
  ℕ, zero, suc, ◌+◌, ◌^◌, ◌<◌, ◌≡◌, refl, ap, Bool, true, List, [], ◌∷◌, ◌++◌, some, arith, length,
  length-append, prefix?, length-prefix?, prefix?-all, done, c_str, MpString, if◌then◌else◌, ◌==◌,
  subst, ◌%◌,
}
use end_to_end_smkex.Record.{
  SmkexT4mType, SmkexT4mRecord, copy_of, get_smkex_t4m_record2, serialize_smkex_t4m_record,
  get_record_from_serial,
}
use end_to_end_smkex.Record.Layout.{IsTypeByte, IsRecord}
use end_to_end_smkex.Record.RoundTrip.{parse-serialize}

-- A block that ends in a NUL is a C string.
c_str-ends : (s : MpString) → (t : List ℕ) × (c_str (s ++ 0 ∷ []) ≡ some t)
unfolding c_str
c_str-ends [] = ([], refl)
c_str-ends (zero ∷ s) = ([], refl)
c_str-ends (suc b ∷ s) = let (t, e) = c_str-ends s in (suc b ∷ t, ground (arith, e))

copy_of-bytes :
    (can_alloc : ℕ → Bool) (from : List ℕ) (n : ℕ) (b : List ℕ)
    → copy_of can_alloc from n ≡ done (some b)
    → prefix? n from ≡ some b
unfolding copy_of
copy_of-bytes can_alloc from n b e = ground arith

-- A name that is shorter than 2^16 - 1 is copied whole, with its NUL.
copy_of-name :
    (can_alloc : ℕ → Bool) (s : MpString) (b : List ℕ)
    → length s + 1 < 2 ^ 16
    → copy_of can_alloc (s ++ 0 ∷ []) ((length s + 1) % 2 ^ 16) ≡ done (some b)
    → b ≡ s ++ 0 ∷ []
copy_of-name can_alloc s b short e =
    let all = prefix?-all (s ++ 0 ∷ []) in
    let size : (length s + 1) % 2 ^ 16 ≡ length (s ++ 0 ∷ []) =
      omega (arith, length-append s (0 ∷ [])) in
    let copied = copy_of-bytes can_alloc (s ++ 0 ∷ []) _ b e in
    let copied' = subst (λ n. prefix? n (s ++ 0 ∷ []) ≡ some b) size copied in
    ground (arith, all, copied')

-- What a record holds of the arguments it is made from.
record Made (now timestamp : ℕ) (dest exp : MpString) (type : SmkexT4mType) (version len : ℕ)
    (from : List ℕ) (r : SmkexT4mRecord) : Type 0 where
  pub made_version : r.version ≡ version
  pub made_timestamp : r.timestamp ≡ (if timestamp == 0 then now else timestamp)
  pub made_dest_len : r.dest_len ≡ length dest + 1
  pub made_dest : r.dest ≡ dest ++ 0 ∷ []
  pub made_sender_len : r.sender_len ≡ length exp + 1
  pub made_sender : r.sender ≡ exp ++ 0 ∷ []
  pub made_type : r.type ≡ type
  pub made_length : r.length_ ≡ len
  pub made_body : prefix? len from ≡ some r.body

get_smkex_t4m_record2-Made :
    (can_alloc : ℕ → Bool) (now timestamp : ℕ) (dest exp : MpString) (type : SmkexT4mType)
    (version len : ℕ) (from : List ℕ) (r : SmkexT4mRecord)
    → length dest + 1 < 2 ^ 16
    → length exp + 1 < 2 ^ 16
    → get_smkex_t4m_record2 can_alloc now timestamp dest exp type version len from ≡ done (some r)
    → Made now timestamp dest exp type version len from r
unfolding get_smkex_t4m_record2
get_smkex_t4m_record2-Made can_alloc now timestamp dest exp type version len from r hd he e =
    grind (arith, copy_of-name, copy_of-bytes)

Made-IsRecord :
    (now timestamp : ℕ) (dest exp : MpString) (type : SmkexT4mType) (version len : ℕ)
    (from : List ℕ) (r : SmkexT4mRecord)
    → Made now timestamp dest exp type version len from r
    → length dest + 1 < 2 ^ 16
    → length exp + 1 < 2 ^ 16
    → now < 2 ^ 64
    → timestamp < 2 ^ 64
    → version < 2 ^ 8
    → len < 2 ^ 16
    → IsTypeByte type
    → IsRecord r
Made-IsRecord now timestamp dest exp type version len from r m hd he hn ht hv hl hy = record {
  version_fits = omega (arith, m.made_version);
  timestamp_fits = ground (arith, m.made_timestamp);
  dest_fits = omega (arith, m.made_dest_len);
  dest_block = omega (arith, ap length m.made_dest, m.made_dest_len, length-append dest (0 ∷ []));
  dest_ends = rw m.made_dest (c_str-ends dest);
  sender_fits = omega (arith, m.made_sender_len);
  sender_block =
      omega (arith, ap length m.made_sender, m.made_sender_len, length-append exp (0 ∷ []));
  sender_ends = rw m.made_sender (c_str-ends exp);
  type_fits = rw m.made_type hy;
  length_fits = omega (arith, m.made_length);
  body_block = omega (arith, length-prefix? len from r.body m.made_body, m.made_length);
}

serialize-len :
    (can_alloc : ℕ → Bool) (r : SmkexT4mRecord) (out : record { len : ℕ; serial : List ℕ })
    → serialize_smkex_t4m_record can_alloc r ≡ done (some out)
    → out.len ≡ 16 + r.dest_len + r.sender_len + r.length_
unfolding serialize_smkex_t4m_record
serialize-len can_alloc r out e = ground arith

-- A record made from names shorter than 2^16 - 1 bytes, a time, a version, a length and a type that
-- fit their fields, reaches the peer: with memory its serial form, with anything behind it, parses
-- to a record with the names as C strings, the type, and the bytes that it was made from.
pub get_smkex_t4m_record2-parsed :
    (can_alloc : ℕ → Bool) (memory : (n : ℕ) → can_alloc n ≡ true) (now timestamp : ℕ)
    (dest exp : MpString) (type : SmkexT4mType) (version len : ℕ) (from : List ℕ)
    (r : SmkexT4mRecord) (rest : List ℕ)
    → length dest + 1 < 2 ^ 16
    → length exp + 1 < 2 ^ 16
    → now < 2 ^ 64
    → timestamp < 2 ^ 64
    → version < 2 ^ 8
    → len < 2 ^ 16
    → IsTypeByte type
    → get_smkex_t4m_record2 can_alloc now timestamp dest exp type version len from ≡ done (some r)
    → (out : record { len : ℕ; serial : List ℕ }) × (serialize_smkex_t4m_record can_alloc r
        ≡ done (some out))
      × (length out.serial ≡ out.len)
      × (out.len ≡ 18 + length dest + length exp + len)
      × (get_record_from_serial can_alloc (out.serial ++ rest) ≡ done (some r))
      × (r.dest ≡ dest ++ 0 ∷ [])
      × (r.sender ≡ exp ++ 0 ∷ [])
      × (r.type ≡ type)
      × (prefix? len from ≡ some r.body)
get_smkex_t4m_record2-parsed can_alloc memory now timestamp dest exp type version len from r rest hd
      he hn ht hv hl hy e =
    let m =
      get_smkex_t4m_record2-Made can_alloc now timestamp dest exp type version len from r hd he e in
    let w = Made-IsRecord _ _ _ _ _ _ _ _ r m hd he hn ht hv hl hy in
    let (out, s, size, p) = parse-serialize can_alloc memory r w rest in
    (
      out,
      s,
      size,
      omega (
        arith,
        serialize-len can_alloc r out s,
        m.made_dest_len,
        m.made_sender_len,
        m.made_length,
      ),
      p,
      m.made_dest,
      m.made_sender,
      m.made_type,
      m.made_body,
    )

pub get_smkex_t4m_record2-type :
    (can_alloc : ℕ → Bool) (now timestamp : ℕ) (dest exp : MpString) (type : SmkexT4mType)
    (version len : ℕ) (from : List ℕ) (r : SmkexT4mRecord)
    → get_smkex_t4m_record2 can_alloc now timestamp dest exp type version len from ≡ done (some r)
    → r.type ≡ type
unfolding get_smkex_t4m_record2
get_smkex_t4m_record2-type can_alloc now timestamp dest exp type version len from r e = ground arith
