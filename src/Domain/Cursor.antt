-- ===== src/Domain/Cursor.antt =====
-- internal/domain/tls.go, cursor: bytes taken from the front of a message.
use socktrail.Base.{
  ℕ, ◌+◌, ◌-◌, ◌≤◌, ◌≡◌, String, Bytes, length, length-take, length-drop, drop, ltb, if◌then◌else◌,
  arith, index_ok, be16_ok, slice_ok, Res, ok, err, panic, ◌>>=◌, Ensures, Ensures-bind, index,
  slice, be16,
}

pub record Cursor : Type 0 where
  pub bytes : Bytes
  pub off : ℕ

unfoldable pub take_bytes : ℕ → Cursor → Res (Bytes × Cursor)
take_bytes n c =
    if ltb (length c.bytes) (c.off + n)
    then err "truncated TLS handshake message"
    else do part ← slice c.bytes c.off (c.off + n); ok (part, record c { off = c.off + n })

unfoldable pub take_uint8 : Cursor → Res (ℕ × Cursor)
unfolding take_bytes
take_uint8 c = do (part, c') ← take_bytes 1 c; b ← index part 0; ok (b, c')

unfoldable pub take_uint16 : Cursor → Res (ℕ × Cursor)
unfolding take_bytes
take_uint16 c = do (part, c') ← take_bytes 2 c; v ← be16 part 0; ok (v, c')

-- `if err != nil { return …, fmt.Errorf(reason) }`
abbrev pub relabel {ℓ} : {A : Type ℓ} → String → Res A → Res A
relabel reason (ok a) = ok a
relabel reason (err e) = err reason
relabel reason panic = panic

-- The cursor moved on by `n`, within its data.
pub record Moved (n : ℕ) (c c' : Cursor) : Type 0 where
  pub same_bytes : c'.bytes ≡ c.bytes
  pub moved : c'.off ≡ c.off + n
  pub inside : c'.off ≤ length c'.bytes

pub take_bytes-Moved :
    (n : ℕ) (c : Cursor) → Ensures (λ r. (length r.0 ≡ n) × Moved n c r.1) (take_bytes n c)
unfolding take_bytes
take_bytes-Moved n c = ground (
  arith,
  slice_ok c.bytes c.off (c.off + n),
  length-take (c.off + n - c.off) (drop c.off c.bytes),
  length-drop c.off c.bytes,
)

pub take_uint8-Moved : (c : Cursor) → Ensures (λ r. Moved 1 c r.1) (take_uint8 c)
unfolding take_uint8
take_uint8-Moved c =
    Ensures-bind (λ r. (length r.0 ≡ 1) × Moved 1 c r.1) (λ r. Moved 1 c r.1) (take_bytes 1 c) _
      (take_bytes-Moved 1 c) (λ (part, c') (size, moved). ground (arith, index_ok part 0))

pub take_uint16-Moved : (c : Cursor) → Ensures (λ r. Moved 2 c r.1) (take_uint16 c)
unfolding take_uint16
take_uint16-Moved c =
    Ensures-bind (λ r. (length r.0 ≡ 2) × Moved 2 c r.1) (λ r. Moved 2 c r.1) (take_bytes 2 c) _
      (take_bytes-Moved 2 c) (λ (part, c') (size, moved). ground (arith, be16_ok part 0))

pub Ensures-relabel {ℓ} :
    {A : Type ℓ} (P : A → Type 0) (reason : String) (m : Res A)
    → Ensures P m
    → Ensures P (relabel reason m)
Ensures-relabel P reason (ok a) h = h
Ensures-relabel P reason (err e) h = tt
Ensures-relabel P reason panic h = h
