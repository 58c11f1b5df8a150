-- ===== src/Record/Layout.antt =====
-- Where a well-formed record's fields stand in its serial form.

use end_to_end_smkex.Base.{
  ℕ, ◌+◌, ◌^◌, ◌≤◌, ◌<◌, ◌≡◌, ap, ◌∙◌, List, [], ◌++◌, some, arith, append_assoc, append-nil,
  length, length-append, prefix?, prefix?-all, done, le_bytes, peek, peek-skip, peek-here,
  length-le_bytes, c_str,
}
use end_to_end_smkex.Record.{SmkexT4mType, SmkexT4mRecord, byte_of_type, type_of_byte}

-- A value that a variable of the enumeration's type can have.
abbrev pub IsTypeByte : SmkexT4mType → Type 0
IsTypeByte (SmkexT4mType.unnamed b) = (7 ≤ b) × (b < 256)
IsTypeByte t = Unit {0}

pub byte_of_type-lt : (t : SmkexT4mType) → IsTypeByte t → byte_of_type t < 256
unfolding byte_of_type
byte_of_type-lt t h = ground arith

pub type_of_byte-byte_of_type :
    (t : SmkexT4mType) → IsTypeByte t → type_of_byte (byte_of_type t) ≡ t
unfolding type_of_byte byte_of_type
type_of_byte-byte_of_type t h = ground arith

-- The fields fit their widths, the blocks have the lengths announced for them, and the two names
-- end in a NUL.
pub record IsRecord (r : SmkexT4mRecord) : Type 0 where
  pub version_fits : r.version < 2 ^ 8
  pub timestamp_fits : r.timestamp < 2 ^ 64
  pub dest_fits : r.dest_len < 2 ^ 16
  pub dest_block : length r.dest ≡ r.dest_len
  pub dest_ends : (s : List ℕ) × (c_str r.dest ≡ some s)
  pub sender_fits : r.sender_len < 2 ^ 16
  pub sender_block : length r.sender ≡ r.sender_len
  pub sender_ends : (s : List ℕ) × (c_str r.sender ≡ some s)
  pub type_fits : IsTypeByte r.type
  pub length_fits : r.length_ < 2 ^ 16
  pub body_block : length r.body ≡ r.length_

pub prefix?-whole : (n : ℕ) (xs : List ℕ) → length xs ≡ n → prefix? n xs ≡ some xs
prefix?-whole n xs e = rw (← e) (prefix?-all xs)

-- The bytes of a record from each field on, with what stands behind them in memory.
module _ (r : SmkexT4mRecord) (rest : List ℕ) where
  abbrev from_length : List ℕ
  from_length = le_bytes 2 r.length_ ++ (r.body ++ rest)

  abbrev from_type : List ℕ
  from_type = le_bytes 1 (byte_of_type r.type) ++ from_length

  abbrev from_sender : List ℕ
  from_sender = r.sender ++ from_type

  abbrev from_sender_len : List ℕ
  from_sender_len = le_bytes 2 r.sender_len ++ from_sender

  abbrev from_dest : List ℕ
  from_dest = r.dest ++ from_sender_len

  abbrev from_dest_len : List ℕ
  from_dest_len = le_bytes 2 r.dest_len ++ from_dest

  abbrev from_timestamp : List ℕ
  from_timestamp = le_bytes 8 r.timestamp ++ from_dest_len

  abbrev pub layout : List ℕ
  layout = le_bytes 1 r.version ++ from_timestamp

  -- Reads at the offsets that the parser computes.
  module _ (w : IsRecord r) where
    skip_to_dest : (j n : ℕ) → peek layout (11 + j) n ≡ peek from_dest j n
    skip_to_dest j n =
        peek-skip (le_bytes 1 r.version) _ (11 + j) (10 + j) n
          (omega (arith, length-le_bytes 1 r.version))
        ∙ peek-skip (le_bytes 8 r.timestamp) _ (10 + j) (2 + j) n
            (omega (arith, length-le_bytes 8 r.timestamp))
        ∙ peek-skip (le_bytes 2 r.dest_len) _ (2 + j) j n
            (omega (arith, length-le_bytes 2 r.dest_len))

    skip_to_type :
        (i j n : ℕ)
        → i ≡ 11 + r.dest_len + 2 + r.sender_len + j
        → peek layout i n ≡ peek from_type j n
    skip_to_type i j n e =
        ap (λ k. peek layout k n) (omega arith)
        ∙ skip_to_dest (r.dest_len + (2 + (r.sender_len + j))) n
        ∙ peek-skip r.dest _ _ (2 + (r.sender_len + j)) n (omega (arith, w.dest_block))
        ∙ peek-skip _ _ _ (r.sender_len + j) n (omega (arith, length-le_bytes 2 r.sender_len))
        ∙ peek-skip r.sender _ _ j n (omega (arith, w.sender_block))

    pub peek_version : peek layout 0 1 ≡ done (le_bytes 1 r.version)
    peek_version = peek-here _ _ 1 (length-le_bytes 1 r.version)

    pub peek_timestamp : peek layout 1 8 ≡ done (le_bytes 8 r.timestamp)
    peek_timestamp =
        peek-skip _ _ 1 0 8 (omega (arith, length-le_bytes 1 r.version))
        ∙ peek-here _ _ 8 (length-le_bytes 8 r.timestamp)

    pub peek_dest_len : peek layout 9 2 ≡ done (le_bytes 2 r.dest_len)
    peek_dest_len =
        peek-skip _ _ 9 8 2 (omega (arith, length-le_bytes 1 r.version))
        ∙ peek-skip _ _ 8 0 2 (omega (arith, length-le_bytes 8 r.timestamp))
        ∙ peek-here _ _ 2 (length-le_bytes 2 r.dest_len)

    pub peek_dest : peek layout 11 r.dest_len ≡ done r.dest
    peek_dest = skip_to_dest 0 r.dest_len ∙ peek-here r.dest _ _ w.dest_block

    pub peek_sender_len : peek layout (11 + r.dest_len) 2 ≡ done (le_bytes 2 r.sender_len)
    peek_sender_len =
        skip_to_dest r.dest_len 2
        ∙ peek-skip r.dest _ r.dest_len 0 2 (omega (arith, w.dest_block))
        ∙ peek-here _ _ 2 (length-le_bytes 2 r.sender_len)

    pub peek_sender : peek layout (11 + r.dest_len + 2) r.sender_len ≡ done r.sender
    peek_sender =
        ap (λ k. peek layout k r.sender_len) (omega arith)
        ∙ skip_to_dest (r.dest_len + 2) r.sender_len
        ∙ peek-skip r.dest _ _ 2 r.sender_len (omega (arith, w.dest_block))
        ∙ peek-skip _ _ 2 0 r.sender_len (omega (arith, length-le_bytes 2 r.sender_len))
        ∙ peek-here r.sender _ _ w.sender_block

    pub peek_type :
        peek layout (11 + r.dest_len + 2 + r.sender_len) 1 ≡ done (le_bytes 1 (byte_of_type r.type))
    peek_type =
        skip_to_type _ 0 1 (omega arith) ∙ peek-here _ _ 1 (length-le_bytes 1 (byte_of_type r.type))

    pub peek_length :
        peek layout (11 + r.dest_len + 2 + r.sender_len + 1) 2 ≡ done (le_bytes 2 r.length_)
    peek_length =
        skip_to_type _ 1 2 (omega arith)
        ∙ peek-skip _ _ 1 0 2 (omega (arith, length-le_bytes 1 (byte_of_type r.type)))
        ∙ peek-here _ _ 2 (length-le_bytes 2 r.length_)

    pub peek_body : peek layout (11 + r.dest_len + 2 + r.sender_len + 3) r.length_ ≡ done r.body
    peek_body =
        skip_to_type _ 3 r.length_ (omega arith)
        ∙ peek-skip _ _ 3 2 r.length_ (omega (arith, length-le_bytes 1 (byte_of_type r.type)))
        ∙ peek-skip _ _ 2 0 r.length_ (omega (arith, length-le_bytes 2 r.length_))
        ∙ peek-here r.body _ _ w.body_block

pub layout-append : (r : SmkexT4mRecord) (rest : List ℕ) → layout r [] ++ rest ≡ layout r rest
layout-append r rest = simp (append_assoc, append-nil)

pub length-layout :
    (r : SmkexT4mRecord)
    → IsRecord r
    → length (layout r []) ≡ 16 + r.dest_len + r.sender_len + r.length_
length-layout r w = omega (
  arith,
  length-append (le_bytes 1 r.version) (from_timestamp r []),
  length-append (le_bytes 8 r.timestamp) (from_dest_len r []),
  length-append (le_bytes 2 r.dest_len) (from_dest r []),
  length-append r.dest (from_sender_len r []),
  length-append (le_bytes 2 r.sender_len) (from_sender r []),
  length-append r.sender (from_type r []),
  length-append (le_bytes 1 (byte_of_type r.type)) (from_length r []),
  length-append (le_bytes 2 r.length_) (r.body ++ []),
  length-append r.body [],
  length-le_bytes,
)
