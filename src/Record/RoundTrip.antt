-- ===== src/Record/RoundTrip.antt =====
-- Serialising a record and parsing it back.
use end_to_end_smkex.Base.{
  ℕ, ◌+◌, ◌≡◌, ap, ◌∙◌, Bool, true, List, [], ◌++◌, some, append-nil, length, done, le_bytes,
  le_value-le_bytes, c_str,
}
use end_to_end_smkex.Record.{
  SmkexT4mRecord, byte_of_type, print_c_str, serialize_smkex_t4m_record, get_record_from_serial,
}
use end_to_end_smkex.Record.Layout.{
  layout, layout-append, length-layout, prefix?-whole, IsRecord, byte_of_type-lt,
  type_of_byte-byte_of_type, peek_version, peek_timestamp, peek_dest_len, peek_dest,
  peek_sender_len, peek_sender, peek_type, peek_length, peek_body,
}

-- The record of the serial form, with the length announced for it.
abbrev serialized : SmkexT4mRecord → record { len : ℕ; serial : List ℕ }
serialized r = record { len = 16 + r.dest_len + r.sender_len + r.length_; serial = layout_of r }
  where
    layout_of : SmkexT4mRecord → List ℕ
    layout_of q =
        le_bytes 1 q.version
        ++ (le_bytes 8 q.timestamp
            ++ (le_bytes 2 q.dest_len
                ++ (q.dest
                    ++ (le_bytes 2 q.sender_len
                        ++ (q.sender
                            ++ (le_bytes 1 (byte_of_type q.type)
                                ++ (le_bytes 2 q.length_ ++ q.body)))))))

serialized-layout : (r : SmkexT4mRecord) → (serialized r).serial ≡ layout r []
serialized-layout r = simp append-nil

print_c_str-done :
    (block : List ℕ) → (s : List ℕ) × (c_str block ≡ some s) → print_c_str block ≡ done tt
unfolding print_c_str
print_c_str-done block (s, e) = rw (e, print_c_str)

module _ (can_alloc : ℕ → Bool) (memory : (n : ℕ) → can_alloc n ≡ true) (r : SmkexT4mRecord)
    (w : IsRecord r) where
  serialize-eq-serialized : serialize_smkex_t4m_record can_alloc r ≡ done (some (serialized r))
  unfolding serialize_smkex_t4m_record
  serialize-eq-serialized = rw (
    memory (16 + r.dest_len + r.sender_len + r.length_),
    prefix?-whole _ _ w.dest_block,
    prefix?-whole _ _ w.sender_block,
    prefix?-whole _ _ w.body_block,
  )

  parse-layout : (rest : List ℕ) → get_record_from_serial can_alloc (layout r rest) ≡ done (some r)
  unfolding get_record_from_serial
  parse-layout rest = rw (
    peek_version r rest w,
    peek_timestamp r rest w,
    peek_dest_len r rest w,
    le_value-le_bytes 2 r.dest_len w.dest_fits,
    memory r.dest_len,
    peek_dest r rest w,
    print_c_str-done r.dest w.dest_ends,
    peek_sender_len r rest w,
    le_value-le_bytes 2 r.sender_len w.sender_fits,
    memory r.sender_len,
    peek_sender r rest w,
    print_c_str-done r.sender w.sender_ends,
    peek_type r rest w,
    peek_length r rest w,
    le_value-le_bytes 2 r.length_ w.length_fits,
    memory r.length_,
    peek_body r rest w,
    le_value-le_bytes 1 r.version w.version_fits,
    le_value-le_bytes 8 r.timestamp w.timestamp_fits,
    le_value-le_bytes 1 (byte_of_type r.type) (byte_of_type-lt r.type w.type_fits),
    type_of_byte-byte_of_type r.type w.type_fits,
  )

-- A record survives the wire: with memory, serialising a well-formed record succeeds, fills exactly
-- the announced length, and parsing the bytes, whatever stands behind them, gives the record back.
pub parse-serialize :
    (can_alloc : ℕ → Bool) (memory : (n : ℕ) → can_alloc n ≡ true) (r : SmkexT4mRecord)
    (w : IsRecord r) (rest : List ℕ)
    → (out : record { len : ℕ; serial : List ℕ }) × (serialize_smkex_t4m_record can_alloc r
        ≡ done (some out))
      × (length out.serial ≡ out.len)
      × (get_record_from_serial can_alloc (out.serial ++ rest) ≡ done (some r))
parse-serialize can_alloc memory r w rest = (
  serialized r,
  serialize-eq-serialized can_alloc memory r w,
  ap length (serialized-layout r) ∙ length-layout r w,
  rw (serialized-layout r, layout-append r rest) (parse-layout can_alloc memory r w rest),
)
