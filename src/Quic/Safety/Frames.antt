-- ===== src/Quic/Safety/Frames.antt =====
-- internal/quicinitial/initial.go: frames on any decrypted bytes.
use socktrail.Base.{
  ℕ, zero, suc, ◌+◌, ◌-◌, ◌*◌, ◌≤◌, ◌<◌, inl, inr, ◌||◌, String, Option, none, some, Bytes, length,
  take, drop, slice_ok, arith, Bool-cases, ltb, leb, ◌==◌, if◌then◌else◌, Res, ok, ◌>>=◌,
  Yields-Ensures, Ensures, Ensures-bind, Ensures-weaken,
}
use socktrail.Quic.Wire.{read_varint}
use socktrail.Quic.Crypto.{CryptoStream, PartOrder, add_crypto}
use socktrail.Quic.Frames.{
  expect, skip_varints, ack_frame, frame_length, close_frame, crypto_frame, frame, frames_loop,
  frames,
}
use socktrail.Quic.Safety.Wire.{Moves, read_varint-Moves}
use socktrail.Quic.Safety.Stream.{IsBounded}
use socktrail.Quic.Safety.Crypto.{add_crypto-IsBounded}

-- An offset in the packet, not before `offset`.
abbrev Stays : Bytes → ℕ → ℕ → Type 0
Stays plain offset next = (offset ≤ next) × (next ≤ length plain)

-- Reading an integer, and failing where there is none.
read-bind :
    {A : Type 0} (Q : A → Type 0) (e : String) (plain : Bytes) (offset : ℕ) (f : ℕ × ℕ → Res A)
    → ((r : ℕ × ℕ) → offset < r.1 → r.1 ≤ length plain → Ensures Q (f r))
    → Ensures Q (do found ← read_varint plain offset; r ← expect e found; f r)
unfolding expect
read-bind Q e plain offset f k =
    Ensures-bind (Moves plain offset) Q (read_varint plain offset) (λ found. expect e found >>= f)
      (Yields-Ensures (Moves plain offset) (read_varint plain offset)
        (read_varint-Moves plain offset))
      go
  where
    go : (found : Option (ℕ × ℕ)) → Moves plain offset found → Ensures Q (expect e found >>= f)
    go none m = tt
    go (some r) m = k r m.0 m.1

skip_varints-Stays :
    (n : ℕ) (e : String) (plain : Bytes) (offset : ℕ)
    → offset ≤ length plain
    → Ensures (Stays plain offset) (skip_varints n e plain offset)
unfolding skip_varints
skip_varints-Stays zero e plain offset h = (omega arith, h)
skip_varints-Stays (suc n) e plain offset h =
    read-bind (Stays plain offset) e plain offset (λ r. skip_varints n e plain r.1)
      (λ r l m.
        Ensures-weaken (Stays plain r.1) (Stays plain offset) (skip_varints n e plain r.1)
          (skip_varints-Stays n e plain r.1 m) (λ next w. (omega (arith, w.0, l), w.1)))

-- `skip_varints` before something else.
skip-bind :
    {A : Type 0} (Q : A → Type 0) (n : ℕ) (e : String) (plain : Bytes) (offset : ℕ) (f : ℕ → Res A)
    → offset ≤ length plain
    → ((next : ℕ) → offset ≤ next → next ≤ length plain → Ensures Q (f next))
    → Ensures Q (skip_varints n e plain offset >>= f)
skip-bind Q n e plain offset f h k =
    Ensures-bind (Stays plain offset) Q (skip_varints n e plain offset) f
      (skip_varints-Stays n e plain offset h) (λ next w. k next w.0 w.1)

ack_frame-Stays :
    (plain : Bytes) (kind offset : ℕ)
    → offset ≤ length plain
    → Ensures (Stays plain offset) (ack_frame plain kind offset)
unfolding ack_frame
ack_frame-Stays plain kind offset h =
    skip-bind (Stays plain offset) 2 "truncated QUIC ACK" plain offset _ h (λ acknowledged a a'.
      read-bind (Stays plain offset) "invalid QUIC ACK ranges" plain acknowledged _ (λ ranges b b'.
        elim (Bool-cases (ltb 256 ranges.0)) [
          | inl y ↦ rw y tt
          | inr n ↦ rw n (
              skip-bind (Stays plain offset) 1 "truncated QUIC ACK" plain ranges.1 _ b'
                (λ first c c'.
                  skip-bind (Stays plain offset) (ranges.0 * 2) "truncated QUIC ACK ranges" plain
                    first _ c' (λ rest d d'. counts rest (omega (arith, a, b, c, d)) d')))
        ]))
  where
    counts :
        (rest : ℕ)
        → offset ≤ rest
        → rest ≤ length plain
        → Ensures
            (Stays plain offset)
            (if kind == 3 then skip_varints 3 "truncated QUIC ACK ECN" plain rest else ok rest)
    counts rest d d' =
        let more =
          Ensures-weaken (Stays plain rest) (Stays plain offset)
            (skip_varints 3 "truncated QUIC ACK ECN" plain rest)
            (skip_varints-Stays 3 "truncated QUIC ACK ECN" plain rest d')
            (λ next w. (omega (arith, w.0, d), w.1)) in
        elim (Bool-cases (kind == 3)) [ inl y ↦ rw y more | inr n ↦ rw n (d, d') ]

-- A length and what it counts lie in the packet.
frame_length-Fits :
    (e : String) (plain : Bytes) (offset : ℕ)
    → Ensures
        (λ size. (offset < size.1) × (size.1 + size.0 ≤ length plain))
        (frame_length e plain offset)
unfolding frame_length
frame_length-Fits e plain offset =
    read-bind (λ size. (offset < size.1) × (size.1 + size.0 ≤ length plain)) e plain offset _
      (λ size l m. elim (Bool-cases (ltb (length plain - size.1) size.0)) [
        | inl y ↦ rw y tt
        | inr n ↦ rw n (l, ground (arith, n, m))
      ])

close_frame-Stays :
    (plain : Bytes) (kind offset : ℕ)
    → offset ≤ length plain
    → Ensures (Stays plain offset) (close_frame plain kind offset)
unfolding close_frame
close_frame-Stays plain kind offset h =
    skip-bind (Stays plain offset) (if kind == 0x1c then 2 else 1) "truncated QUIC close" plain
      offset _ h
      (λ fields a a'.
        Ensures-bind (λ size. (fields < size.1) × (size.1 + size.0 ≤ length plain))
          (Stays plain offset) (frame_length "truncated QUIC close reason" plain fields) _
          (frame_length-Fits "truncated QUIC close reason" plain fields)
          (λ reason w. (omega (arith, a, w.0), w.1)))

module _ (R : PartOrder) (plain : Bytes) where
  -- A turn that goes well.
  Turns : ℕ → ℕ × CryptoStream → Type 0
  Turns offset next = (Stays plain offset next.0) × IsBounded next.1

  crypto_frame-Turns :
      (offset : ℕ) (t : CryptoStream)
      → IsBounded t
      → Ensures (Turns offset) (crypto_frame R plain offset t)
  unfolding crypto_frame Turns
  crypto_frame-Turns offset t b =
      read-bind (Turns offset) "truncated QUIC CRYPTO offset" plain offset _ (λ start a a'.
        Ensures-bind (λ size. (start.1 < size.1) × (size.1 + size.0 ≤ length plain)) (Turns offset)
          (frame_length "truncated QUIC CRYPTO data" plain start.1) _
          (frame_length-Fits "truncated QUIC CRYPTO data" plain start.1)
          (λ size w.
            let content = take (size.1 + size.0 - size.1) (drop size.1 plain) in
            rw (slice_ok plain size.1 (size.1 + size.0) (omega arith) w.1) (
              Ensures-bind IsBounded (Turns offset) (add_crypto R start.0 content t) _
                (add_crypto-IsBounded R start.0 content t b)
                (λ t' k. ((omega (arith, a, w.0), w.1), k)))))

  frame-Turns :
      (kind offset : ℕ) (t : CryptoStream)
      → offset ≤ length plain
      → IsBounded t
      → Ensures (Turns offset) (frame R plain kind offset t)
  unfolding frame Turns
  frame-Turns kind offset t h b =
      let ack =
        Ensures-bind (Stays plain offset) (Turns offset) (ack_frame plain kind offset)
          (λ next. ok (next, t)) (ack_frame-Stays plain kind offset h) (λ next w. (w, b)) in
      let close =
        Ensures-bind (Stays plain offset) (Turns offset) (close_frame plain kind offset)
          (λ next. ok (next, t)) (close_frame-Stays plain kind offset h) (λ next w. (w, b)) in
      let crypto = crypto_frame-Turns offset t b in
      elim (Bool-cases (kind == 0 || kind == 1)) [
        | inl y ↦ rw y ((omega arith, h), b)
        | inr n ↦ rw n (elim (Bool-cases (kind == 2 || kind == 3)) [
          | inl y ↦ rw y ack
          | inr n ↦ rw n (elim (Bool-cases (kind == 6)) [
            | inl y ↦ rw y crypto
            | inr n ↦ rw n (elim (Bool-cases (kind == 0x1c || kind == 0x1d)) [
              | inl y ↦ rw y close
              | inr n ↦ rw n tt
            ])
          ])
        ])
      ]

  frames_loop-IsBounded :
      (turns offset : ℕ) (t : CryptoStream)
      → length plain < turns + offset
      → offset ≤ length plain
      → IsBounded t
      → Ensures IsBounded (frames_loop R turns plain offset t)
  unfolding frames_loop Turns
  frames_loop-IsBounded zero offset t h l b = absurd (omega (arith, h, l))
  frames_loop-IsBounded (suc turns) offset t h l b = elim (Bool-cases (leb (length plain) offset)) [
    | inl y ↦ rw y b
    | inr n ↦ rw n (
        read-bind IsBounded "truncated QUIC Initial frame type" plain offset _ (λ kind a a'.
          Ensures-bind (Turns kind.1) IsBounded (frame R plain kind.0 kind.1 t) _
            (frame-Turns kind.0 kind.1 t a' b)
            (λ next w.
              frames_loop-IsBounded turns next.0 next.1 (omega (arith, h, a, w.0.0)) w.0.1 w.1)))
  ]

  -- The frames of any decrypted packet are read without a panic, in at most as many turns as it has
  -- bytes, and a stream within its limits stays within them.
  pub frames-IsBounded : (t : CryptoStream) → IsBounded t → Ensures IsBounded (frames R plain t)
  unfolding frames
  frames-IsBounded t b =
      frames_loop-IsBounded (suc (length plain)) 0 t (omega arith) (omega arith) b
