-- ===== src/Record.antt =====
-- smkex/include/smkexrecord.h and smkex/src/smkexrecord.cpp: the records that the protocol
-- exchanges. A `malloc`ed block is the list of its bytes, `none` a null pointer.
mod Tests
pub mod Layout
pub mod RoundTrip
pub mod Made
pub mod Raw
use end_to_end_smkex.Base.{
  ℕ, ◌+◌, ◌%◌, ◌^◌, ◌<◌, ◌≡◌, Bool, List, [], ◌∷◌, ◌++◌, Option, none, some, length, prefix?, ◌==◌,
  if◌then◌else◌, MpString, Outcome, done, exited, fault, ◌>>=◌, or_fault, le_bytes, le_value, peek,
  c_str,
}

-- `unnamed` is a byte that the enumeration gives no name.
pub data SmkexT4mType : Type 0 where
  handshake_key handshake_nonce handshake_nonce_h handshake_h : SmkexT4mType
  alert application_data handshake : SmkexT4mType
  unnamed : ℕ → SmkexT4mType

unfoldable pub byte_of_type : SmkexT4mType → ℕ
byte_of_type handshake_key = 0
byte_of_type handshake_nonce = 1
byte_of_type handshake_nonce_h = 2
byte_of_type handshake_h = 3
byte_of_type alert = 4
byte_of_type application_data = 5
byte_of_type handshake = 6
byte_of_type (unnamed b) = b

-- `(SMKEX_T4M_Type) *(uint8_t *)`
unfoldable pub type_of_byte : ℕ → SmkexT4mType
type_of_byte b =
    if b == 0
    then handshake_key
    else if b == 1
    then handshake_nonce
    else if b == 2
    then handshake_nonce_h
    else if b == 3
    then handshake_h
    else if b == 4
    then alert
    else if b == 5
    then application_data
    else if b == 6
    then handshake
    else unnamed b

-- `timestamp` is the bit pattern of the `int64_t`; `body` is the source's `data`.
pub record SmkexT4mRecord : Type 0 where
  pub version : ℕ
  pub timestamp : ℕ
  pub dest_len : ℕ
  pub dest : List ℕ
  pub sender_len : ℕ
  pub sender : List ℕ
  pub type : SmkexT4mType
  pub length_ : ℕ
  pub body : List ℕ

abbrev pub smkex_t4m_protocol_version : ℕ
smkex_t4m_protocol_version = 1

-- `cout << p` and `string(p)` at a `char *` read up to the NUL.
unfoldable pub print_c_str : List ℕ → Outcome (Unit {0})
unfolding c_str
print_c_str block = elim (c_str block) [ none ↦ fault | some s ↦ done tt ]

-- `malloc` succeeds at the sizes for which `can_alloc` holds.
module _ (can_alloc : ℕ → Bool) where
  -- `memcpy` of `n` bytes into a new block of that size.
  unfoldable pub copy_of : List ℕ → ℕ → Outcome (Option (List ℕ))
  copy_of from n =
      if can_alloc n then (do bytes ← or_fault (prefix? n from); done (some bytes)) else done none

  -- `now` is `time(NULL)`.
  unfoldable pub get_smkex_t4m_record2 :
      (now timestamp : ℕ) (dest exp : MpString)
      → SmkexT4mType
      → (version len : ℕ) (from : List ℕ) → Outcome (Option SmkexT4mRecord)
  unfolding copy_of
  get_smkex_t4m_record2 now timestamp dest exp type version len from =
      let stamp = if timestamp == 0 then now else timestamp in
      let dest_len = (length dest + 1) % 2 ^ 16 in
      let sender_len = (length exp + 1) % 2 ^ 16 in
      do
        d ← copy_of (dest ++ 0 ∷ []) dest_len
        elim d [
          | none ↦ done none
          | some dest_bytes ↦ do
            s ← copy_of (exp ++ 0 ∷ []) sender_len
            elim s [
              | none ↦ done none
              | some sender_bytes ↦ do
                b ← copy_of from len
                elim b [
                  | none ↦ done none
                  | some body ↦ done (
                      some (record {
                        version = version;
                        timestamp = stamp;
                        dest_len = dest_len;
                        dest = dest_bytes;
                        sender_len = sender_len;
                        sender = sender_bytes;
                        type = type;
                        length_ = len;
                        body = body;
                      }))
                ]
            ]
        ]

  -- The serial form with the length that is announced for it; `none` is a failed `malloc`.
  unfoldable pub serialize_smkex_t4m_record :
      SmkexT4mRecord → Outcome (Option (record { len : ℕ; serial : List ℕ }))
  serialize_smkex_t4m_record rec =
      let len = 16 + rec.dest_len + rec.sender_len + rec.length_ in
      if can_alloc len
      then (do
        dest ← or_fault (prefix? rec.dest_len rec.dest)
        sender ← or_fault (prefix? rec.sender_len rec.sender)
        body ← or_fault (prefix? rec.length_ rec.body)
        done (
            some (record {
              len = len;
              serial =
                  le_bytes 1 rec.version
                  ++ (le_bytes 8 rec.timestamp
                      ++ (le_bytes 2 rec.dest_len
                          ++ (dest
                              ++ (le_bytes 2 rec.sender_len
                                  ++ (sender
                                      ++ (le_bytes 1 (byte_of_type rec.type)
                                          ++ (le_bytes 2 rec.length_ ++ body)))))));
            })))
      else done none

  -- The pointer reads of the parser; its output reads `dest` and `sender` as C strings.
  unfoldable pub get_record_from_serial : List ℕ → Outcome (Option SmkexT4mRecord)
  unfolding copy_of print_c_str
  get_record_from_serial serial = do
    version ← peek serial 0 1
    timestamp ← peek serial 1 8
    dest_len_bytes ← peek serial 9 2
    let dl = le_value dest_len_bytes
    if can_alloc dl
        then (do
          dest ← peek serial 11 dl
          _ ← print_c_str dest
          sender_len_bytes ← peek serial (11 + dl) 2
          let sl = le_value sender_len_bytes
          if can_alloc sl
              then (do
                sender ← peek serial (11 + dl + 2) sl
                _ ← print_c_str sender
                type_byte ← peek serial (11 + dl + 2 + sl) 1
                length_bytes ← peek serial (11 + dl + 2 + sl + 1) 2
                let n = le_value length_bytes
                if can_alloc n
                    then (do
                      body ← peek serial (11 + dl + 2 + sl + 3) n
                      done (
                          some (record {
                            version = le_value version;
                            timestamp = le_value timestamp;
                            dest_len = dl;
                            dest = dest;
                            sender_len = sl;
                            sender = sender;
                            type = type_of_byte (le_value type_byte);
                            length_ = n;
                            body = body;
                          })))
                    else done none)
              else done none)
        else done none

-- The types that `printRecord` knows; at any other it ends the program.
unfoldable pub print_type : SmkexT4mType → Outcome (Unit {0})
print_type handshake_h = done tt
print_type handshake_key = done tt
print_type handshake_nonce = done tt
print_type handshake_nonce_h = done tt
print_type application_data = done tt
print_type alert = done tt
print_type handshake = exited
print_type (unnamed b) = exited

unfoldable pub print_record : SmkexT4mRecord → Outcome (Unit {0})
unfolding print_c_str print_type
print_record r = do
  _ ← print_c_str r.dest
  _ ← or_fault (prefix? r.sender_len r.sender)
  _ ← print_c_str r.sender
  _ ← print_type r.type
  _ ← or_fault (prefix? r.length_ r.body)
  done tt
