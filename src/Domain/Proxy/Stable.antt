-- ===== src/Domain/Proxy/Stable.antt =====
-- internal/domain/stream.go: socks5Handshake on bytes that go on.
use socktrail.Base.{
  ℕ, zero, suc, ◌+◌, ◌-◌, ◌≤◌, ◌<◌, ◌≡◌, refl, [], ◌∷◌, ◌++◌, Bytes, length, length-append,
  length-drop, take, drop, arith, Res, ok, err, panic, index, slice, index_ok, slice_ok, at,
  get_or-append_left,
}
use socktrail.Domain.Proxy.Socks.{
  Verdict, more, refused, taken, socks5_target, socks5_request, socks5_login, socks5_handshake,
}

-- `later` is what more bytes say; only a wait can still turn into something else.
abbrev pub Settled : Res Verdict → Res Verdict → Type 0
Settled (ok more) later = Unit {0}
Settled (ok refused) later = later ≡ ok refused
Settled (ok (taken used t)) later = later ≡ ok (taken used t)
Settled (err e) later = ⊥
Settled panic later = ⊥

drop-append : (n : ℕ) (b c : Bytes) → n ≤ length b → drop n (b ++ c) ≡ drop n b ++ c
drop-append zero b c h = refl
drop-append (suc n) [] c h = absurd (omega arith)
drop-append (suc n) (x ∷ b) c h = drop-append n b c (omega arith)

take-append : (n : ℕ) (b c : Bytes) → n ≤ length b → take n (b ++ c) ≡ take n b
take-append zero b c h = refl
take-append (suc n) [] c h = absurd (omega arith)
take-append (suc n) (x ∷ b) c h = rw (take-append n b c (omega arith)) refl

module _ (b c : Bytes) where
  index-append : (i : ℕ) → i < length b → index (b ++ c) i ≡ ok (at b i)
  index-append i h =
      rw (← get_or-append_left b c i 0 h)
        (index_ok (b ++ c) i (omega (arith, h, length-append b c)))

  slice-append :
      (i j : ℕ) → i ≤ j → j ≤ length b → slice (b ++ c) i j ≡ ok (take (j - i) (drop i b))
  slice-append i j h k =
      let part = drop-append i b c (omega arith) in
      rw (slice_ok (b ++ c) i j h (omega (arith, k, length-append b c)), part)
        (rw (take-append (j - i) (drop i b) c (omega (arith, k, length-drop i b))) refl)

  socks5_target-Settled :
      (kind offset : ℕ) → Settled (socks5_target b kind offset) (socks5_target (b ++ c) kind offset)
  unfolding socks5_target
  socks5_target-Settled kind offset =
      let size = at b offset in
      ground (
        arith,
        length-append b c,
        slice_ok b offset (offset + 4),
        slice_ok b offset (offset + 16),
        index_ok b offset,
        slice_ok b (offset + 1) (offset + 1 + size),
        slice-append offset (offset + 4),
        slice-append offset (offset + 16),
        index-append offset,
        slice-append (offset + 1) (offset + 1 + size),
      )

  socks5_request-Settled :
      (offset : ℕ) → Settled (socks5_request b offset) (socks5_request (b ++ c) offset)
  unfolding socks5_request
  socks5_request-Settled offset = ground (
    arith,
    length-append b c,
    index_ok b offset,
    index_ok b (offset + 1),
    index_ok b (offset + 2),
    index_ok b (offset + 3),
    index-append offset,
    index-append (offset + 1),
    index-append (offset + 2),
    index-append (offset + 3),
    socks5_target-Settled (at b (offset + 3)) (offset + 4),
  )

  socks5_login-Settled :
      (offset : ℕ) → Settled (socks5_login b offset) (socks5_login (b ++ c) offset)
  unfolding socks5_login
  socks5_login-Settled offset =
      let behind = offset + (2 + at b (offset + 1)) in
      ground (
        arith,
        length-append b c,
        index_ok b (offset + 1),
        index_ok b behind,
        index-append (offset + 1),
        index-append behind,
        socks5_request-Settled (behind + (1 + at b behind)),
      )

  -- A SOCKS5 handshake is read as it arrives: once the first bytes are refused, or taken as a request
  -- with its target, bytes that come behind them change nothing.
  pub socks5_handshake-Settled : Settled (socks5_handshake b) (socks5_handshake (b ++ c))
  unfolding socks5_handshake
  socks5_handshake-Settled =
      let offset = 2 + at b 1 in
      ground (
        arith,
        length-append b c,
        index_ok b 0,
        index_ok b 1,
        index_ok b offset,
        index-append 0,
        index-append 1,
        index-append offset,
        socks5_login-Settled offset,
        socks5_request-Settled offset,
      )
