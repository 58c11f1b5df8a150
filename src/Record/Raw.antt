-- ===== src/Record/Raw.antt =====
-- `getSmkexT4mRecord` (smkex/src/smkexrecord.cpp), which takes the names as blocks with their lengths.
use end_to_end_smkex.Base.{
  ℕ, ◌+◌, ◌%◌, ◌^◌, ◌≡◌, refl, Bool, List, [], ◌∷◌, ◌++◌, Option, none, some, MpString, length,
  ◌==◌, if◌then◌else◌, Outcome, done, ◌>>=◌,
}
use end_to_end_smkex.Record.{SmkexT4mType, SmkexT4mRecord, copy_of, get_smkex_t4m_record2}

module _ (can_alloc : ℕ → Bool) where
  -- `now` is `time(NULL)`.
  unfoldable pub get_smkex_t4m_record :
      (now timestamp dest_len : ℕ) (dest : List ℕ) (exp_len : ℕ) (exp : List ℕ)
      → SmkexT4mType
      → (version len : ℕ) (from : List ℕ) → Outcome (Option SmkexT4mRecord)
  unfolding copy_of
  get_smkex_t4m_record now timestamp dest_len dest exp_len exp type version len from = do
    d ← copy_of can_alloc dest dest_len
    elim d [
      | none ↦ done none
      | some dest_bytes ↦ do
        s ← copy_of can_alloc exp exp_len
        elim s [
          | none ↦ done none
          | some sender_bytes ↦ do
            b ← copy_of can_alloc from len
            elim b [
              | none ↦ done none
              | some body ↦ done (
                  some (record {
                    version = version;
                    timestamp = if timestamp == 0 then now else timestamp;
                    dest_len = dest_len;
                    dest = dest_bytes;
                    sender_len = exp_len;
                    sender = sender_bytes;
                    type = type;
                    length_ = len;
                    body = body;
                  }))
            ]
        ]
    ]

  -- `getSmkexT4mRecord2` is `getSmkexT4mRecord` on the names as C strings, with their lengths as
  -- `uint16_t`.
  get_smkex_t4m_record2-eq-get_smkex_t4m_record :
      (now timestamp : ℕ) (dest exp : MpString) (type : SmkexT4mType) (version len : ℕ)
      (from : List ℕ)
      → get_smkex_t4m_record2 can_alloc now timestamp dest exp type version len from
        ≡ get_smkex_t4m_record now timestamp
            ((length dest + 1) % 2 ^ 16)
            (dest ++ 0 ∷ [])
            ((length exp + 1) % 2 ^ 16)
            (exp ++ 0 ∷ [])
            type
            version
            len
            from
  unfolding get_smkex_t4m_record2 get_smkex_t4m_record
  get_smkex_t4m_record2-eq-get_smkex_t4m_record now timestamp dest exp type version len from = refl
