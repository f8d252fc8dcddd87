-- ===== src/Quic/Safety/Keys.antt =====
-- internal/quicinitial/initial.go: the key derivation and the masks.
use socktrail.Base.{
  ℕ, zero, suc, ◌+◌, ◌-◌, ◌*◌, ◌/◌, ◌%◌, ◌^◌, ◌≤◌, ◌<◌, ◌≡◌, refl, ap, inl, inr, bit_xor, [], ◌∷◌,
  ◌++◌, Bytes, length, length-append, length-take, index_ok, at, arith, Bool-cases, ◌==◌, Res,
  ◌>>=◌, Ensures, Ensures-bind, Runs, codes, put_be16,
}
use socktrail.Quic.Keys.{
  Primitives, InitialKeys, array12, expand_label, derive_with, derive_client_keys, v1_salt, v2_salt,
}
use socktrail.Quic.Tracker.{put_byte, unmask, xor_number}

pub length-put_byte : (i v : ℕ) (b : Bytes) → length (put_byte i v b) ≡ length b
unfolding put_byte
length-put_byte i v [] = refl
length-put_byte zero v (x ∷ xs) = refl
length-put_byte (suc i) v (x ∷ xs) = ap suc (length-put_byte i v xs)

pub unmask-Runs :
    (n i pn_offset : ℕ) (mask header : Bytes) (truncated : ℕ)
    → pn_offset + i + n ≤ length header
    → i + n < length mask
    → Runs (unmask n i pn_offset mask header truncated)
unfolding unmask
unmask-Runs zero i pn_offset mask header truncated h k = tt
unmask-Runs (suc n) i pn_offset mask header truncated h k =
    let y = bit_xor (at header (pn_offset + i)) (at mask (i + 1)) in
    rw (index_ok header (pn_offset + i) (omega arith), index_ok mask (i + 1) (omega arith))
      (unmask-Runs n (i + 1) pn_offset mask (put_byte (pn_offset + i) y header)
        (truncated * 256 + y) (omega (arith, h, length-put_byte (pn_offset + i) y header))
        (omega (arith, k)))

-- The nonce keeps its length.
pub xor_number-length :
    (n i pn size : ℕ) (nonce : Bytes)
    → length nonce ≡ size
    → 4 + i + n ≤ size
    → Ensures (λ r. length r ≡ size) (xor_number n i pn nonce)
unfolding xor_number
xor_number-length zero i pn size nonce e h = e
xor_number-length (suc n) i pn size nonce e h =
    let y = bit_xor (at nonce (4 + i)) (pn / 2 ^ (56 - 8 * i) % 256) in
    rw (index_ok nonce (4 + i) (omega (arith, e, h))) (
      xor_number-length n (i + 1) pn size (put_byte (4 + i) y nonce)
        (omega (arith, e, length-put_byte (4 + i) y nonce)) (omega (arith, h)))

module _ (P : Primitives) where
  open P use {
    Block, Aead, extract, expand, new_cipher, new_gcm, encrypt, open_sealed, extract_runs,
    expand_runs, new_cipher_runs, new_gcm_runs, encrypt_length, open_sealed_runs,
  }

  unfoldable pub HasIv : InitialKeys P → Type 0
  HasIv keys = length keys.iv ≡ 12

  expand_label-Runs : (secret label : Bytes) (n : ℕ) → Runs (expand_label P secret label n)
  unfolding expand_label
  expand_label-Runs secret label n =
      let full_label = codes "tls13 " ++ label in
      ground (
        arith,
        expand_runs secret (put_be16 n ++ (length full_label % 256 ∷ full_label ++ (0 ∷ []))) n,
      )

  -- A step of a chain that cannot panic.
  pub and_then :
      {A : Type 0} {B : Type 0} (Q : B → Type 0) (m : Res A) (f : A → Res B)
      → Runs m
      → ((a : A) → Ensures Q (f a))
      → Ensures Q (m >>= f)
  and_then Q m f h k = Ensures-bind (λ _. Unit {0}) Q m f h (λ a _. k a)

  array12-length : (b : Bytes) → length (array12 b) ≡ 12
  unfolding array12
  array12-length b =
      let zeros : Bytes = 0 ∷ 0 ∷ 0 ∷ 0 ∷ 0 ∷ 0 ∷ 0 ∷ 0 ∷ 0 ∷ 0 ∷ 0 ∷ 0 ∷ [] in
      omega (arith, length-take 12 (b ++ zeros), length-append b zeros)

  derive_with-HasIv : (salt prefix dcid : Bytes) → Ensures HasIv (derive_with P salt prefix dcid)
  unfolding derive_with HasIv
  derive_with-HasIv salt prefix dcid = and_then HasIv _ _ (extract_runs dcid salt) (λ secret.
      and_then HasIv _ _ (expand_label-Runs secret (codes "client in") 32) (λ client.
        and_then HasIv _ _ (expand_label-Runs client (prefix ++ codes "key") 16) (λ key.
          and_then HasIv _ _ (expand_label-Runs client (prefix ++ codes "iv") 12) (λ iv.
            and_then HasIv _ _ (expand_label-Runs client (prefix ++ codes "hp") 16) (λ hp_key.
              and_then HasIv _ _ (new_cipher_runs key) (λ block.
                and_then HasIv _ _ (new_gcm_runs block) (λ aead.
                  and_then HasIv _ _ (new_cipher_runs hp_key) (λ hp. array12-length iv))))))))

  pub derive-HasIv :
      (version : ℕ) (dcid : Bytes) → Ensures HasIv (derive_client_keys P version dcid)
  unfolding derive_client_keys
  derive-HasIv version dcid =
      let one = derive_with-HasIv v1_salt (codes "quic ") dcid in
      let two = derive_with-HasIv v2_salt (codes "quicv2 ") dcid in
      elim (Bool-cases (version == 1)) [
        | inl y ↦ rw y one
        | inr n ↦
            rw n (elim (Bool-cases (version == 0x6b3343cf)) [ inl y ↦ rw y two | inr n ↦ rw n tt ])
      ]
