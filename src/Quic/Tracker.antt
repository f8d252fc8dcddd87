-- ===== src/Quic/Tracker.antt =====
-- internal/quicinitial/initial.go, Tracker: open, Add, Fail and Tick. Times are counts of
-- nanoseconds; the zero `first` is `none`.
use socktrail.Base.{
  ℕ, zero, suc, ◌+◌, ◌-◌, ◌/◌, ◌%◌, ◌^◌, ◌*◌, bit_and, bit_xor, Bool, true, false, not, ◌&&◌, ◌||◌,
  String, [], ◌∷◌, Option, none, some, Bytes, length, ltb, ◌==◌, if◌then◌else◌, Res, ok, err, panic,
  ◌>>=◌, index, slice, slice_from, equal, is_some,
}
use socktrail.Quic.Wire.{LongPacket, split_long_packet}
use socktrail.Quic.Crypto.{CryptoStream, PartOrder, empty_stream, client_hello}
use socktrail.Quic.Frames.{frames}
use socktrail.Quic.Keys.{Primitives, InitialKeys, derive_client_keys, packet_number}

-- `b[i] = v`, for an index in range.
unfoldable pub put_byte : ℕ → ℕ → Bytes → Bytes
put_byte i v [] = []
put_byte zero v (x ∷ xs) = v ∷ xs
put_byte (suc i) v (x ∷ xs) = x ∷ put_byte i v xs

-- The loop over the bytes of the packet number: the header, and the number.
unfoldable pub unmask : ℕ → ℕ → ℕ → Bytes → Bytes → ℕ → Res (Bytes × ℕ)
unfolding put_byte
unmask zero i pn_offset mask header truncated = ok (header, truncated)
unmask (suc n) i pn_offset mask header truncated = do
  x ← index header (pn_offset + i)
  m ← index mask (i + 1)
  let y = bit_xor x m
  unmask n (i + 1) pn_offset mask (put_byte (pn_offset + i) y header) (truncated * 256 + y)

-- The loop over the nonce, from byte `4 + i` on.
unfoldable pub xor_number : ℕ → ℕ → ℕ → Bytes → Res Bytes
unfolding put_byte
xor_number zero i pn nonce = ok nonce
xor_number (suc n) i pn nonce = do
  x ← index nonce (4 + i)
  xor_number n (i + 1) pn (put_byte (4 + i) (bit_xor x (pn / 2 ^ (56 - 8 * i) % 256)) nonce)

-- What `Add` returns.
pub record Answer : Type 0 where
  pub hello : Option Bytes
  pub authenticated : Bool
  pub error : Option String

-- `s == ""`
unfoldable pub is_blank : String → Bool
is_blank String.[] = true
is_blank (String.◌∷◌ c s) = false

-- An error is handled, and a panic is passed on.
unfoldable pub handle {ℓ κ} :
    {A : Type ℓ} {B : Type κ} → Res A → (String → Res B) → (A → Res B) → Res B
handle (ok a) f g = g a
handle (err e) f g = f e
handle panic f g = panic

module _ (P : Primitives) where
  open P use {encrypt, open_sealed}

  pub record Tracker : Type 0 where
    pub version : ℕ
    pub dcid : Bytes
    pub keys : Option (InitialKeys P)
    pub largest_pn : ℕ
    pub has_pn : Bool
    pub stream : CryptoStream
    pub first : Option ℕ
    pub last : ℕ
    pub done : Bool
    pub failure : String

  abbrev pub new_tracker : Tracker
  new_tracker = record {
    version = 0;
    dcid = [];
    keys = none;
    largest_pn = 0;
    has_pn = false;
    stream = empty_stream;
    first = none;
    last = 0;
    done = false;
    failure = "";
  }

  -- `Fail`
  unfoldable pub fail : String → Tracker → Tracker
  fail reason t =
      if t.done
      then t
      else record t { done = true; failure = reason; dcid = []; stream = empty_stream }

  -- `Tick`
  unfoldable pub tick : ℕ → Tracker → Tracker
  unfolding fail
  tick now t =
      if is_some t.first && not t.done && ltb (10 * 10 ^ 9) (now - t.last)
      then fail "QUIC ClientHello gap timeout" t
      else t

  -- The keys in use; there are none before the first packet.
  unfoldable pub current_keys : Option (InitialKeys P) → Res (InitialKeys P)
  current_keys none = panic
  current_keys (some keys) = ok keys

  -- The tracker behind a packet with a new connection ID that was decrypted.
  unfoldable pub adopt : Bool → LongPacket → InitialKeys P → Tracker → Tracker
  adopt false packet keys t = t
  adopt true packet keys t = record t {
    version = packet.version;
    dcid = packet.dcid;
    keys = some keys;
    has_pn = false;
    largest_pn = 0;
    stream = empty_stream;
    first = none;
    last = 0;
  }

  -- `open` behind the mask of the header protection.
  unfoldable pub open_masked :
      Bool → InitialKeys P → LongPacket → Tracker → Bytes → Res (Bytes × ℕ × Tracker)
  unfolding unmask xor_number adopt packet_number put_byte
  open_masked changed keys packet t mask = do
    start ← index packet.raw 0
    m ← index mask 0
    let opened = bit_xor start (bit_and m 0x0f)
    let pn_length = opened % 4 + 1
    if ltb (length packet.raw - packet.pn_offset) (pn_length + 16)
        then err "short QUIC Initial"
        else do
          masked ← slice packet.raw 0 (packet.pn_offset + pn_length)
          plain_header ← unmask pn_length 0 packet.pn_offset mask (put_byte 0 opened masked) 0
          let pn =
              if changed
              then plain_header.1
              else packet_number t.has_pn t.largest_pn plain_header.1 pn_length
          nonce ← xor_number 8 0 pn keys.iv
          sealed ← slice_from packet.raw (packet.pn_offset + pn_length)
          plain ← open_sealed keys.aead nonce sealed plain_header.0
          ok (plain, pn, adopt changed packet keys t)

  -- `open` behind the choice of the keys.
  unfoldable pub open_with : Bool → InitialKeys P → LongPacket → Tracker → Res (Bytes × ℕ × Tracker)
  unfolding open_masked
  open_with changed keys packet t =
      if ltb (length packet.raw - packet.pn_offset) 20
      then err "short QUIC header protection sample"
      else do
        sample ← slice packet.raw (packet.pn_offset + 4) (packet.pn_offset + 20)
        mask ← encrypt keys.hp sample
        open_masked changed keys packet t mask

  -- `open`
  unfoldable pub open_packet : LongPacket → Tracker → Res (Bytes × ℕ × Tracker)
  unfolding open_with current_keys
  open_packet packet t =
      let changed = not (packet.version == t.version) || not (equal packet.dcid t.dcid) in
      do
        keys ←
            if changed then derive_client_keys P packet.version packet.dcid else current_keys t.keys
        open_with changed keys packet t

  -- The tracker behind an authenticated packet, before its frames are read.
  unfoldable pub seen : ℕ → ℕ → Tracker → Tracker
  seen now pn t =
      let newest = not t.has_pn || ltb t.largest_pn pn in
      record t {
        first = if is_some t.first then t.first else some now;
        last = now;
        largest_pn = if newest then pn else t.largest_pn;
        has_pn = if newest then true else t.has_pn;
      }

  unfoldable pub failed : String → Tracker → Res (Tracker × Answer)
  unfolding fail
  failed e t = ok (fail e t, record { hello = none; authenticated = true; error = some e })

  -- The ClientHello is complete.
  unfoldable pub finished : Bytes → Tracker → Res (Tracker × Answer)
  finished hello t = ok (
    record t { done = true; dcid = []; stream = empty_stream },
    record { hello = some hello; authenticated = true; error = none },
  )

  module _ (R : PartOrder) where
    -- The frames of a packet, and what `Add` does behind them; `next` is the rest of its loop.
    unfoldable pub read_packet :
        Bytes → Tracker → (Tracker → Res (Tracker × Answer)) → Res (Tracker × Answer)
    unfolding failed finished handle
    read_packet plain t next =
        handle (frames R plain t.stream) (λ e. failed e t)
          (λ stream.
            handle (client_hello stream) (λ e. failed e t)
              (λ found. elim found [
                | none ↦ next (record t { stream = stream })
                | some hello ↦ finished hello t
              ]))

    -- A turn of the loop of `Add` behind `splitLongPacket`; `next` is the rest of the loop.
    unfoldable pub add_packet :
        Bytes
        → ℕ
        → Bool
        → Tracker
        → (Bytes → Bool → Tracker → Res (Tracker × Answer))
        → Option (LongPacket × ℕ)
        → Res (Tracker × Answer)
    unfolding handle seen read_packet open_packet
    add_packet datagram now authenticated t next none =
        ok (t, record { hello = none; authenticated = authenticated; error = none })
    add_packet datagram now authenticated t next (some (packet, consumed)) = do
      rest ← slice_from datagram consumed
      if not packet.initial
          then next rest authenticated t
          else handle (open_packet packet t) (λ e. next rest authenticated t)
              (λ opened.
                read_packet opened.0 (seen now opened.1 opened.2) (λ t'. next rest true t'))

    -- The loop of `Add`. Every turn takes bytes; running out of turns is a panic here.
    unfoldable pub add_loop : ℕ → Bytes → ℕ → Bool → Tracker → Res (Tracker × Answer)
    unfolding add_packet
    add_loop zero datagram now authenticated t = panic
    add_loop (suc turns) datagram now authenticated t =
        if length datagram == 0
        then ok (t, record { hello = none; authenticated = authenticated; error = none })
        else do
          split ← split_long_packet datagram
          add_packet datagram now authenticated t (λ rest a t'. add_loop turns rest now a t') split

    -- `Add`
    unfoldable pub add : Bytes → ℕ → Tracker → Res (Tracker × Answer)
    unfolding add_loop is_blank
    add datagram now t =
        if t.done || not (is_blank t.failure) || ltb 65536 (length datagram)
        then ok (t, record { hello = none; authenticated = false; error = none })
        else add_loop (suc (length datagram)) datagram now false t
