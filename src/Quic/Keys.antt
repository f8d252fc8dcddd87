-- ===== src/Quic/Keys.antt =====
-- internal/quicinitial/initial.go, deriveClientKeys, expandLabel and packetNumber. The packages
-- crypto/hkdf, crypto/aes and crypto/cipher are an interface.
use socktrail.Base.{
  ℕ, ◌+◌, ◌-◌, ◌/◌, ◌%◌, ◌^◌, ◌*◌, ◌≡◌, Bool, true, false, ◌&&◌, ◌||◌, [], ◌∷◌, ◌++◌, Bytes, length,
  take, ltb, leb, ◌==◌, if◌then◌else◌, Res, ok, err, ◌>>=◌, ◌≤◌, Runs, Yields, codes, put_be16,
}
use socktrail.Quic.Wire.{version1, version2}

-- What the code uses of the cryptographic packages: errors are returned, a block of the cipher has
-- 16 bytes, and an AEAD of `cipher.NewGCM` takes a nonce of 12 bytes. Nothing is assumed of
-- `Encrypt` on a sample shorter than a block, or of `Open` on another nonce: both panic there.
pub record Primitives : Type 1 where
  pub Block : Type 0
  pub Aead : Type 0
  -- `hkdf.Extract(sha256.New, secret, salt)`
  pub extract : Bytes → Bytes → Res Bytes
  -- `hkdf.Expand(sha256.New, secret, info, length)`
  pub expand : Bytes → Bytes → ℕ → Res Bytes
  -- `aes.NewCipher` and `cipher.NewGCM`
  pub new_cipher : Bytes → Res Block
  pub new_gcm : Block → Res Aead
  -- `hp.Encrypt(mask[:], sample)`
  pub encrypt : Block → Bytes → Res Bytes
  -- `aead.Open(nil, nonce, ciphertext, header)`
  pub open_sealed : Aead → Bytes → Bytes → Bytes → Res Bytes
  pub extract_runs : (secret salt : Bytes) → Runs (extract secret salt)
  pub expand_runs : (secret info : Bytes) (n : ℕ) → Runs (expand secret info n)
  pub new_cipher_runs : (key : Bytes) → Runs (new_cipher key)
  pub new_gcm_runs : (block : Block) → Runs (new_gcm block)
  pub encrypt_length :
      (block : Block) (sample : Bytes)
      → 16 ≤ length sample
      → Yields (λ mask. length mask ≡ 16) (encrypt block sample)
  pub open_sealed_runs :
      (aead : Aead) (nonce content header : Bytes)
      → length nonce ≡ 12
      → Runs (open_sealed aead nonce content header)

abbrev pub v1_salt : Bytes
v1_salt =
    0x38 ∷ 0x76 ∷ 0x2c ∷ 0xf7 ∷ 0xf5 ∷ 0x59 ∷ 0x34 ∷ 0xb3 ∷ 0x4d ∷ 0x17 ∷ 0x9a ∷ 0xe6 ∷ 0xa4 ∷ 0xc8
    ∷ 0x0c ∷ 0xad ∷ 0xcc ∷ 0xbb ∷ 0x7f ∷ 0x0a ∷ []

abbrev pub v2_salt : Bytes
v2_salt =
    0x0d ∷ 0xed ∷ 0xe3 ∷ 0xde ∷ 0xf7 ∷ 0x00 ∷ 0xa6 ∷ 0xdb ∷ 0x81 ∷ 0x93 ∷ 0x81 ∷ 0xbe ∷ 0x6e ∷ 0x26
    ∷ 0x9d ∷ 0xcb ∷ 0xf9 ∷ 0xbd ∷ 0x2e ∷ 0xd9 ∷ []

-- `copy(iv[:], b)` for a fresh array of 12 bytes.
unfoldable pub array12 : Bytes → Bytes
array12 b = take 12 (b ++ (0 ∷ 0 ∷ 0 ∷ 0 ∷ 0 ∷ 0 ∷ 0 ∷ 0 ∷ 0 ∷ 0 ∷ 0 ∷ 0 ∷ []))

-- `packetNumber`, from the fields `hasPN` and `largestPN`.
unfoldable pub packet_number : Bool → ℕ → ℕ → ℕ → ℕ
packet_number false largest truncated size = truncated
packet_number true largest truncated size =
    let window = 2 ^ (size * 8) in
    let expected = largest + 1 in
    let candidate = expected - expected % window + truncated in
    if leb (candidate + window / 2) expected && ltb (candidate + window) (2 ^ 62)
    then candidate + window
    else if ltb (expected + window / 2) candidate && leb window candidate
    then candidate - window
    else candidate

module _ (P : Primitives) where
  open P use {Block, Aead, extract, expand, new_cipher, new_gcm, encrypt, open_sealed}

  -- `initialKeys`
  pub record InitialKeys : Type 0 where
    pub aead : Aead
    pub hp : Block
    pub iv : Bytes

  -- `expandLabel`; a label is ASCII, with fewer than 250 characters.
  unfoldable pub expand_label : Bytes → Bytes → ℕ → Res Bytes
  expand_label secret label size =
      let full_label = codes "tls13 " ++ label in
      if ltb 255 (length full_label) || ltb 65535 size
      then err "invalid HKDF label"
      else expand secret (put_be16 size ++ (length full_label % 256 ∷ full_label ++ (0 ∷ []))) size

  -- `deriveClientKeys` behind the choice of the salt.
  unfoldable pub derive_with : Bytes → Bytes → Bytes → Res InitialKeys
  unfolding expand_label array12
  derive_with salt label_prefix dcid = do
    secret ← extract dcid salt
    client ← expand_label secret (codes "client in") 32
    key ← expand_label client (label_prefix ++ codes "key") 16
    iv ← expand_label client (label_prefix ++ codes "iv") 12
    hp_key ← expand_label client (label_prefix ++ codes "hp") 16
    block ← new_cipher key
    aead ← new_gcm block
    hp ← new_cipher hp_key
    ok (record { aead = aead; hp = hp; iv = array12 iv })

  unfoldable pub derive_client_keys : ℕ → Bytes → Res InitialKeys
  unfolding derive_with
  derive_client_keys version dcid =
      if version == version1
      then derive_with v1_salt (codes "quic ") dcid
      else if version == version2
      then derive_with v2_salt (codes "quicv2 ") dcid
      else err "unsupported QUIC version"
