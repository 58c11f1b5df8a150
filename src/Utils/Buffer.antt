-- ===== src/Utils/Buffer.antt =====
-- `MpBuffer` (utils/include/MpBuffer.h, utils/src/MpBuffer.cpp): a block and its length.
use end_to_end_smkex.Base.{
  ℕ, Bool, not, List, [], Option, none, some, prefix?, ◌==◌, if◌then◌else◌, str_eq, Outcome, done,
  fault, ◌>>=◌, or_fault,
}

-- `none` is a null pointer; every other block has `len` bytes.
pub record MpBuffer : Type 0 where
  pub payload : Option (List ℕ)
  pub len : ℕ

-- `MpBuffer()`
abbrev pub empty : MpBuffer
empty = record { payload = none; len = 0 }

-- A `memcpy` of `n` bytes from a pointer; no byte is read from a null pointer.
unfoldable pub bytes_from : Option (List ℕ) → ℕ → Outcome (List ℕ)
bytes_from none n = if n == 0 then done [] else fault
bytes_from (some block) n = or_fault (prefix? n block)

-- `MpBuffer(payload, len)`
unfoldable pub of_bytes : Option (List ℕ) → ℕ → Outcome MpBuffer
unfolding bytes_from
of_bytes p n = do bytes ← bytes_from p n; done (record { payload = some bytes; len = n })

-- The copy constructor and `operator=` on another buffer.
unfoldable pub copy : MpBuffer → Outcome MpBuffer
unfolding of_bytes
copy b = of_bytes b.payload b.len

-- `setPayload`: a null pointer or an empty block leaves the buffer as it is.
unfoldable pub set_payload : MpBuffer → Option (List ℕ) → ℕ → Outcome MpBuffer
set_payload b none n = done b
set_payload b (some block) n =
    if n == 0
    then done b
    else (do bytes ← or_fault (prefix? n block); done (record { payload = some bytes; len = n }))

-- `operator==`: `memcmp` over the left length.
unfoldable pub eq : MpBuffer → MpBuffer → Outcome Bool
unfolding bytes_from
eq a b = do x ← bytes_from a.payload a.len; y ← bytes_from b.payload a.len; done (str_eq x y)

unfoldable pub ne : MpBuffer → MpBuffer → Outcome Bool
unfolding eq
ne a b = do e ← eq a b; done (not e)
