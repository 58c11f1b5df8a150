-- ===== src/Record/Tests.antt =====
-- A record made, sent and parsed at a concrete input.
use end_to_end_smkex.Base
use end_to_end_smkex.Base.{
  ℕ, ◌+◌, ◌≡◌, refl, Bool, true, List, [], ◌∷◌, ◌++◌, Option, some, MpString, length, prefix?,
  Outcome, done, arith,
}
use end_to_end_smkex.Record.{
  SmkexT4mRecord, handshake_nonce, copy_of, get_smkex_t4m_record2, serialize_smkex_t4m_record,
  get_record_from_serial,
}
use end_to_end_smkex.Record.Layout.{IsRecord}
use end_to_end_smkex.Record.RoundTrip.{parse-serialize}
use end_to_end_smkex.Record.Made.{get_smkex_t4m_record2-parsed}

abbrev sample : SmkexT4mRecord
sample = record {
  version = 1;
  timestamp = 1539000000;
  dest_len = 4;
  dest = b'b' ∷ b'o' ∷ b'b' ∷ 0 ∷ [];
  sender_len = 2;
  sender = b'a' ∷ 0 ∷ [];
  type = handshake_nonce;
  length_ = 3;
  body = 7 ∷ 0 ∷ 255 ∷ [];
}

sample-IsRecord : IsRecord sample
unfolding Base.c_str
sample-IsRecord = record {
  version_fits = omega arith;
  timestamp_fits = omega arith;
  dest_fits = omega arith;
  dest_block = refl;
  dest_ends = (b'b' ∷ b'o' ∷ b'b' ∷ [], refl);
  sender_fits = omega arith;
  sender_block = refl;
  sender_ends = (b'a' ∷ [], refl);
  type_fits = tt;
  length_fits = omega arith;
  body_block = refl;
}

abbrev memory : ℕ → Bool
memory n = true

parse-serialize_example :
    (out : record { len : ℕ; serial : List ℕ }) × (serialize_smkex_t4m_record memory sample
      ≡ done (some out))
    × (length out.serial ≡ out.len)
    × (get_record_from_serial memory (out.serial ++ 1 ∷ 2 ∷ []) ≡ done (some sample))
parse-serialize_example = parse-serialize memory (λ n. refl) sample sample-IsRecord (1 ∷ 2 ∷ [])

sample-made :
    get_smkex_t4m_record2 memory 1539000000 0
      (b'b' ∷ b'o' ∷ b'b' ∷ [])
      (b'a' ∷ [])
      handshake_nonce
      1
      3
      (7 ∷ 0 ∷ 255 ∷ 9 ∷ [])
    ≡ done (some sample)
unfolding get_smkex_t4m_record2 copy_of
sample-made = refl

get_smkex_t4m_record2-parsed_example :
    (out : record { len : ℕ; serial : List ℕ }) × (serialize_smkex_t4m_record memory sample
      ≡ done (some out))
    × (length out.serial ≡ out.len)
    × (out.len ≡ 25)
    × (get_record_from_serial memory (out.serial ++ []) ≡ done (some sample))
    × (sample.dest ≡ (b'b' ∷ b'o' ∷ b'b' ∷ []) ++ 0 ∷ [])
    × (sample.sender ≡ (b'a' ∷ []) ++ 0 ∷ [])
    × (sample.type ≡ handshake_nonce)
    × (prefix? 3 (7 ∷ 0 ∷ 255 ∷ 9 ∷ []) ≡ some sample.body)
get_smkex_t4m_record2-parsed_example =
    get_smkex_t4m_record2-parsed memory (λ n. refl) 1539000000 0 (b'b' ∷ b'o' ∷ b'b' ∷ [])
      (b'a' ∷ []) handshake_nonce 1 3 (7 ∷ 0 ∷ 255 ∷ 9 ∷ []) sample [] (omega arith) (omega arith)
      (omega arith) (omega arith) (omega arith) (omega arith) tt sample-made
