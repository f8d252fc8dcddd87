-- ===== src/Quic/Frames.antt =====
-- internal/quicinitial/initial.go, frames: the frames of a decrypted Initial packet. An offset is a
-- number that the readers of variable-length integers move on.
use socktrail.Base.{
  ℕ, zero, suc, ◌+◌, ◌-◌, ◌*◌, ◌||◌, Option, none, some, Bytes, String, length, ltb, leb, ◌==◌,
  if◌then◌else◌, Res, ok, err, panic, ◌>>=◌, slice,
}
use socktrail.Quic.Wire.{read_varint}
use socktrail.Quic.Crypto.{CryptoStream, PartOrder, add_crypto}

-- The value that was read, or the error.
unfoldable pub expect : String → Option (ℕ × ℕ) → Res (ℕ × ℕ)
expect e none = err e
expect e (some r) = ok r

-- A loop that reads `n` integers and drops them: the offset behind them.
unfoldable pub skip_varints : ℕ → String → Bytes → ℕ → Res ℕ
unfolding expect
skip_varints zero e plain offset = ok offset
skip_varints (suc n) e plain offset = do
  found ← read_varint plain offset
  r ← expect e found
  skip_varints n e plain r.1

-- The body of an ACK frame of the given kind.
unfoldable pub ack_frame : Bytes → ℕ → ℕ → Res ℕ
unfolding skip_varints
ack_frame plain kind offset = do
  acknowledged ← skip_varints 2 "truncated QUIC ACK" plain offset
  found ← read_varint plain acknowledged
  ranges ← expect "invalid QUIC ACK ranges" found
  if ltb 256 ranges.0 then err "invalid QUIC ACK ranges" else do
    first ← skip_varints 1 "truncated QUIC ACK" plain ranges.1
    rest ← skip_varints (ranges.0 * 2) "truncated QUIC ACK ranges" plain first
    if kind == 3 then skip_varints 3 "truncated QUIC ACK ECN" plain rest else ok rest

-- A length and the offset behind it; the bytes that it counts have to be there.
unfoldable pub frame_length : String → Bytes → ℕ → Res (ℕ × ℕ)
unfolding expect
frame_length e plain offset = do
  found ← read_varint plain offset
  size ← expect e found
  if ltb (length plain - size.1) size.0 then err e else ok size

-- The body of a CONNECTION_CLOSE frame.
unfoldable pub close_frame : Bytes → ℕ → ℕ → Res ℕ
unfolding skip_varints frame_length
close_frame plain kind offset = do
  fields ← skip_varints (if kind == 0x1c then 2 else 1) "truncated QUIC close" plain offset
  reason ← frame_length "truncated QUIC close reason" plain fields
  ok (reason.1 + reason.0)

module _ (R : PartOrder) where
  -- The body of a CRYPTO frame.
  unfoldable pub crypto_frame : Bytes → ℕ → CryptoStream → Res (ℕ × CryptoStream)
  unfolding frame_length
  crypto_frame plain offset t = do
    found ← read_varint plain offset
    start ← expect "truncated QUIC CRYPTO offset" found
    size ← frame_length "truncated QUIC CRYPTO data" plain start.1
    content ← slice plain size.1 (size.1 + size.0)
    t' ← add_crypto R start.0 content t
    ok (size.1 + size.0, t')

  -- One turn of the loop behind the frame type: the offset and the stream that it leaves.
  unfoldable pub frame : Bytes → ℕ → ℕ → CryptoStream → Res (ℕ × CryptoStream)
  unfolding ack_frame crypto_frame close_frame
  frame plain kind offset t =
      if kind == 0 || kind == 1
      then ok (offset, t)
      else if kind == 2 || kind == 3
      then (do next ← ack_frame plain kind offset; ok (next, t))
      else if kind == 6
      then crypto_frame plain offset t
      else if kind == 0x1c || kind == 0x1d
      then (do next ← close_frame plain kind offset; ok (next, t))
      else err "unsupported QUIC Initial frame"

  -- `frames`. Every turn moves the offset on; running out of turns is a panic here.
  unfoldable pub frames_loop : ℕ → Bytes → ℕ → CryptoStream → Res CryptoStream
  unfolding frame expect
  frames_loop zero plain offset t = panic
  frames_loop (suc turns) plain offset t = if leb (length plain) offset then ok t else do
    found ← read_varint plain offset
    kind ← expect "truncated QUIC Initial frame type" found
    next ← frame plain kind.0 kind.1 t
    frames_loop turns plain next.0 next.1

  unfoldable pub frames : Bytes → CryptoStream → Res CryptoStream
  unfolding frames_loop
  frames plain t = frames_loop (suc (length plain)) plain 0 t
