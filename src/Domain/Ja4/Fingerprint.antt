-- ===== src/Domain/Ja4/Fingerprint.antt =====
-- internal/domain/ja4.go. A string is its bytes; `crypto/sha256` is a parameter; `slices.Sorted` is
-- an insertion sort, which gives the same list.
use socktrail.Base.{
  ℕ, ◌+◌, ◌/◌, ◌%◌, min, max, bit_and, Bool, false, not, ◌&&◌, ◌||◌, List, [], ◌∷◌, ◌++◌, Bytes,
  length, take, ltb, leb, ◌==◌, if◌then◌else◌,
}
use socktrail.Domain.Tls.Hello.{Ja4Fields}

-- `slices.DeleteFunc` of what fails the test.
unfoldable pub keep : (ℕ → Bool) → List ℕ → List ℕ
keep p [] = []
keep p (v ∷ vs) = if p v then v ∷ keep p vs else keep p vs

-- `slices.Contains(values, 0)`
unfoldable pub contains_zero : List ℕ → Bool
contains_zero [] = false
contains_zero (v ∷ vs) = v == 0 || contains_zero vs

unfoldable pub insert : ℕ → List ℕ → List ℕ
insert v [] = v ∷ []
insert v (w ∷ ws) = if leb v w then v ∷ w ∷ ws else w ∷ insert v ws

unfoldable pub sorted : List ℕ → List ℕ
sorted [] = []
sorted (v ∷ vs) = insert v (sorted vs)

unfoldable pub maximum : List ℕ → ℕ
maximum [] = 0
maximum (v ∷ vs) = max v (maximum vs)

-- `isGREASE`
unfoldable pub is_grease : ℕ → Bool
is_grease v = bit_and v 0x0f0f == 0x0a0a && v / 256 == bit_and v 0xff

-- `withoutGREASE`
unfoldable pub without_grease : List ℕ → List ℕ
unfolding keep is_grease
without_grease values = keep (λ v. not (is_grease v)) values

-- `ja4Version`
unfoldable pub ja4_version : ℕ → Bytes
ja4_version v =
    if v == 0x0304
    then 49 ∷ 51 ∷ []
    else if v == 0x0303
    then 49 ∷ 50 ∷ []
    else if v == 0x0302
    then 49 ∷ 49 ∷ []
    else if v == 0x0301
    then 49 ∷ 48 ∷ []
    else if v == 0x0300
    then 115 ∷ 51 ∷ []
    else if v == 0x0002
    then 115 ∷ 50 ∷ []
    else if v == 0xfeff
    then 100 ∷ 49 ∷ []
    else if v == 0xfefd
    then 100 ∷ 50 ∷ []
    else if v == 0xfefc
    then 100 ∷ 51 ∷ []
    else 48 ∷ 48 ∷ []

-- `alphanumeric`
unfoldable pub alphanumeric : ℕ → Bool
alphanumeric b = (leb 48 b && leb b 57) || (leb 65 b && leb b 90) || (leb 97 b && leb b 122)

unfoldable pub hex_digit : ℕ → ℕ
hex_digit d = if ltb d 10 then 48 + d else 87 + d

unfoldable pub last_of : ℕ → Bytes → ℕ
last_of b [] = b
last_of b (c ∷ cs) = last_of c cs

-- `ja4ALPN`; of the hex form of both bytes it keeps the first and the last digit.
unfoldable pub ja4_alpn : Bytes → Bytes
ja4_alpn [] = 48 ∷ 48 ∷ []
ja4_alpn (first ∷ rest) =
    let last = last_of first rest in
    if alphanumeric first && alphanumeric last
    then first ∷ last ∷ []
    else hex_digit (first / 16) ∷ hex_digit (last % 16) ∷ []

-- `%04x` of a 16-bit number.
unfoldable pub hex4 : ℕ → Bytes
hex4 v =
    hex_digit (v / 4096)
    ∷ hex_digit (v / 256 % 16)
    ∷ hex_digit (v / 16 % 16)
    ∷ hex_digit (v % 16)
    ∷ []

-- `hexList`
unfoldable pub hex_list : List ℕ → Bytes
hex_list [] = []
hex_list (v ∷ []) = hex4 v
hex_list (v ∷ w ∷ ws) = hex4 v ++ (44 ∷ hex_list (w ∷ ws))

-- `hex.EncodeToString`
unfoldable pub hex : Bytes → Bytes
hex [] = []
hex (b ∷ bs) = hex_digit (b / 16) ∷ hex_digit (b % 16) ∷ hex bs

-- `%02d` of a number below 100.
unfoldable pub two_digits : ℕ → Bytes
two_digits n = (48 + n / 10) ∷ (48 + n % 10) ∷ []

abbrev pub twelve_zeros : Bytes
twelve_zeros = 48 ∷ 48 ∷ 48 ∷ 48 ∷ 48 ∷ 48 ∷ 48 ∷ 48 ∷ 48 ∷ 48 ∷ 48 ∷ 48 ∷ []

module _ (sum256 : Bytes → Bytes) where
  -- `ja4Hash`
  unfoldable pub ja4_hash : Bytes → Bytes
  ja4_hash s = hex (take 6 (sum256 s))

  -- The three parts of a fingerprint.
  unfoldable pub first_part : ℕ → Ja4Fields → List ℕ → List ℕ → Bytes
  first_part transport f ciphers extensions =
      let versions = without_grease f.versions in
      let version = if length versions == 0 then f.version else maximum versions in
      let sni = if contains_zero extensions then 100 else 105 in
      transport
      ∷ (ja4_version version
          ++ (sni
              ∷ (two_digits (min (length ciphers) 99)
                  ++ (two_digits (min (length extensions) 99) ++ ja4_alpn f.alpn))))

  unfoldable pub second_part : List ℕ → Bytes
  second_part ciphers =
      if length ciphers == 0 then twelve_zeros else ja4_hash (hex_list (sorted ciphers))

  unfoldable pub third_part : List ℕ → List ℕ → Bytes
  third_part extensions signatures =
      let hashed = keep (λ e. not (e == 0 || e == 16)) extensions in
      let list = hex_list (sorted hashed) in
      if length hashed == 0
      then twelve_zeros
      else if length signatures == 0
      then ja4_hash list
      else ja4_hash (list ++ (95 ∷ hex_list signatures))

  -- `fingerprint`
  unfoldable pub fingerprint : ℕ → Ja4Fields → Bytes
  unfolding first_part second_part third_part
  fingerprint transport f =
      let ciphers = without_grease f.ciphers in
      let extensions = without_grease f.extensions in
      first_part transport f ciphers extensions
      ++ (95 ∷ (second_part ciphers ++ (95 ∷ third_part extensions (without_grease f.signatures))))
