-- ===== src/Utils/Addresses.antt =====
-- The addresses of utils/src/MpUtils.cpp. An error returns a null pointer as a string, which C++
-- leaves undefined.
use end_to_end_smkex.Base.{
  ℕ, zero, suc, ◌+◌, ◌-◌, ◌%◌, ◌^◌, ◌<◌, ◌≡◌, refl, ap, Bool, true, false, [], ◌∷◌, ◌++◌, Option,
  none, some, length, drop, ◌==◌, if◌then◌else◌, MpString, Outcome, done, fault, ◌>>=◌, or_fault,
  arith,
}

abbrev pub sip_schema : MpString
sip_schema = b's' ∷ b'i' ∷ b'p' ∷ b':' ∷ []

abbrev pub sip_transport : MpString
sip_transport =
    b';' ∷ b't' ∷ b'r' ∷ b'a' ∷ b'n' ∷ b's' ∷ b'p' ∷ b'o' ∷ b'r' ∷ b't' ∷ b'=' ∷ b't' ∷ b'l' ∷ b's'
    ∷ []

unfoldable pub starts_with : (prefix s : MpString) → Bool
starts_with [] s = true
starts_with (p ∷ ps) [] = false
starts_with (p ∷ ps) (c ∷ cs) = let rest = starts_with ps cs in if p == c then rest else false

-- `find`; `none` is `npos`.
unfoldable pub find_text : (text s : MpString) → Option ℕ
find_text text [] = if starts_with text [] then some 0 else none
find_text text (c ∷ cs) =
    let rest = find_text text cs in
    if starts_with text (c ∷ cs) then some 0 else elim rest [ none ↦ none | some i ↦ some (suc i) ]

-- `rfind` of one character.
unfoldable pub rfind_char : ℕ → MpString → Option ℕ
rfind_char c [] = none
rfind_char c (x ∷ xs) = elim (rfind_char c xs) [
  | some i ↦ some (suc i)
  | none ↦ if x == c then some 0 else none
]

unfoldable pub take_at_most : ℕ → MpString → MpString
take_at_most zero s = []
take_at_most (suc n) [] = []
take_at_most (suc n) (c ∷ cs) = c ∷ take_at_most n cs

-- The length given to `substr` is a `size_t`.
unfoldable pub get_serial_from_uri : Option MpString → Outcome MpString
get_serial_from_uri none = fault
get_serial_from_uri (some []) = fault
get_serial_from_uri (some (c ∷ cs)) = do
  beg ← or_fault (find_text sip_schema (c ∷ cs))
  end ← or_fault (rfind_char b'@' (c ∷ cs))
  done (take_at_most ((end + 2 ^ 64 - (beg + 4)) % 2 ^ 64) (drop (beg + 4) (c ∷ cs)))

-- `port` is the number as it is printed.
unfoldable pub get_uri_from_serial : Option MpString → (address port : MpString) → Outcome MpString
get_uri_from_serial none address port = fault
get_uri_from_serial (some []) address port = fault
get_uri_from_serial (some (c ∷ cs)) address port =
    done (sip_schema ++ ((c ∷ cs) ++ b'@' ∷ (address ++ b':' ∷ (port ++ sip_transport))))

rfind_char-none-append :
    (c : ℕ) (xs ys : MpString)
    → rfind_char c xs ≡ none
    → rfind_char c ys ≡ none
    → rfind_char c (xs ++ ys) ≡ none
unfolding rfind_char
rfind_char-none-append c [] ys hx hy = hy
rfind_char-none-append c (x ∷ xs) ys hx hy = grind (arith, rfind_char-none-append c xs ys)

rfind_char-last :
    (c : ℕ) (xs ys : MpString)
    → rfind_char c ys ≡ none
    → rfind_char c (xs ++ c ∷ ys) ≡ some (length xs)
unfolding rfind_char
rfind_char-last c [] ys h = ground (arith, h)
rfind_char-last c (x ∷ xs) ys h = rw (rfind_char-last c xs ys h)

take_at_most-append : (xs ys : MpString) → take_at_most (length xs) (xs ++ ys) ≡ xs
unfolding take_at_most
take_at_most-append [] ys = refl
take_at_most-append (x ∷ xs) ys = ap (λ l. x ∷ l) (take_at_most-append xs ys)

parse-tail :
    (c : ℕ) (cs ys : MpString)
    → length (c ∷ cs) + 4 < 2 ^ 64
    → rfind_char b'@' ys ≡ none
    → get_serial_from_uri (some (sip_schema ++ ((c ∷ cs) ++ b'@' ∷ ys))) ≡ done (c ∷ cs)
unfolding get_serial_from_uri find_text starts_with
parse-tail c cs ys short h =
    let at = rfind_char-last b'@' (sip_schema ++ (c ∷ cs)) ys h in
    let size : (suc (suc (suc (suc (suc (length cs))))) + 2 ^ 64 - 4) % 2 ^ 64 ≡ length (c ∷ cs) =
      omega arith in
    rw (at, size, take_at_most-append (c ∷ cs) (b'@' ∷ ys))

-- The serial of an address that was made from it is the serial, if it is not empty and shorter than
-- 2^64 - 4, and neither the server's address nor the port contains an `@`.
pub get_serial_from_uri-get_uri_from_serial :
    (c : ℕ) (cs address port uri : MpString)
    → length (c ∷ cs) + 4 < 2 ^ 64
    → rfind_char b'@' address ≡ none
    → rfind_char b'@' port ≡ none
    → get_uri_from_serial (some (c ∷ cs)) address port ≡ done uri
    → get_serial_from_uri (some uri) ≡ done (c ∷ cs)
unfolding get_uri_from_serial rfind_char
get_serial_from_uri-get_uri_from_serial c cs address port uri short ha hp made =
    let rest = b':' ∷ (port ++ sip_transport) in
    let no_at : rfind_char b'@' rest ≡ none =
      rfind_char-none-append b'@' (b':' ∷ port) sip_transport (ground (arith, hp)) refl in
    let tail = rfind_char-none-append b'@' address rest ha no_at in
    ground (arith, made, parse-tail c cs (address ++ rest) short tail)
