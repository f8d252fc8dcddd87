-- ===== src/Quic/Safety/Tracker.antt =====
-- internal/quicinitial/initial.go: Add, Fail and Tick on any datagram.
use socktrail.Base.{
  is_some, ℕ, zero, suc, ◌+◌, ◌-◌, ◌%◌, ◌≤◌, ◌<◌, ◌≡◌, refl, inl, inr, bit_and, bit_xor, Bool, true,
  false, not, ◌||◌, String, Option, none, some, Bytes, length, length-take, length-drop, take, drop,
  index_ok, at, slice_ok, slice_from_ok, arith, Bool-cases, ltb, ◌==◌, if◌then◌else◌, Res, ok, err,
  panic, Yields, Yields-bind, Ensures, Ensures-bind, Yields-Ensures, equal,
}
use socktrail.Quic.Wire.{LongPacket, split_long_packet}
use socktrail.Quic.Crypto.{CryptoStream, PartOrder, empty_stream, client_hello}
use socktrail.Quic.Frames.{frames}
use socktrail.Quic.Keys.{Primitives, InitialKeys, derive_client_keys, packet_number}
use socktrail.Quic.Tracker.{
  Tracker, Answer, put_byte, unmask, xor_number, handle, fail, tick, current_keys, adopt,
  open_masked, open_with, open_packet, seen, failed, finished, read_packet, add_packet, add_loop,
  add, is_blank, new_tracker,
}
use socktrail.Quic.Safety.Wire.{Splits, split_long_packet-Splits}
use socktrail.Quic.Safety.Stream.{IsBounded}
use socktrail.Quic.Safety.Crypto.{Complete, IsHello, client_hello-Complete}
use socktrail.Quic.Safety.Frames.{frames-IsBounded}
use socktrail.Quic.Safety.Keys.{
  length-put_byte, unmask-Runs, xor_number-length, HasIv, and_then, derive-HasIv,
}

module _ (P : Primitives) where
  open P use {encrypt, open_sealed, encrypt_length, open_sealed_runs}

  -- There are keys once a packet was decrypted.
  abbrev pub IsKeyed : Option (InitialKeys P) → ℕ → Type 0
  IsKeyed none version = version ≡ 0
  IsKeyed (some keys) version = HasIv P keys

  pub record IsSound (t : Tracker P) : Type 0 where
    pub keyed : IsKeyed t.keys t.version
    pub bounded : IsBounded t.stream

  empty-IsBounded : IsBounded empty_stream
  empty-IsBounded = record {
    crypto = omega arith;
    count = omega arith;
    pending = refl;
    limit = omega arith;
    parts_end = tt;
  }

  adopt-IsSound :
      (changed : Bool) (packet : LongPacket) (keys : InitialKeys P) (t : Tracker P)
      → HasIv P keys
      → IsSound t
      → IsSound (adopt P changed packet keys t)
  unfolding adopt
  adopt-IsSound false packet keys t h s = s
  adopt-IsSound true packet keys t h s = record { keyed = h; bounded = empty-IsBounded }

  open_masked-IsSound :
      (changed : Bool) (keys : InitialKeys P) (packet : LongPacket) (t : Tracker P) (mask : Bytes)
      → packet.pn_offset + 20 ≤ length packet.raw
      → length mask ≡ 16
      → HasIv P keys
      → IsSound t
      → Ensures (λ r. IsSound r.2) (open_masked P changed keys packet t mask)
  unfolding open_masked HasIv
  open_masked-IsSound changed keys packet t mask room wide h s =
      let raw = packet.raw in
      let offset = packet.pn_offset in
      let opened = bit_xor (at raw 0) (bit_and (at mask 0) 0x0f) in
      let size = opened % 4 + 1 in
      rw (index_ok raw 0 (omega (arith, room)), index_ok mask 0 (omega (arith, wide)))
        (elim (Bool-cases (ltb (length raw - offset) (size + 16))) [
          | inl y ↦ rw y tt
          | inr m ↦
              let header = put_byte 0 opened (take (offset + size - 0) (drop 0 raw)) in
              let long : offset + size ≤ length raw = ground (arith, m) in
              let kept = length-put_byte 0 opened (take (offset + size - 0) (drop 0 raw)) in
              let cut = length-take (offset + size - 0) (drop 0 raw) in
              let all = length-drop 0 raw in
              rw
                (
                  m,
                  slice_ok raw 0 (offset + size) (omega arith) long,
                  slice_from_ok raw (offset + size) long,
                )
                (and_then P (λ r. IsSound r.2) (unmask size 0 offset mask header 0) _
                  (unmask-Runs size 0 offset mask header 0 (omega (arith, kept, cut, all, long))
                    (omega (arith, wide)))
                  (λ plain_header.
                    let pn =
                      if changed
                      then plain_header.1
                      else packet_number t.has_pn t.largest_pn plain_header.1 size in
                    Ensures-bind (λ nonce. length nonce ≡ 12) (λ r. IsSound r.2)
                      (xor_number 8 0 pn keys.iv) _
                      (xor_number-length 8 0 pn 12 keys.iv h (omega arith))
                      (λ nonce twelve.
                        and_then P (λ r. IsSound r.2)
                          (open_sealed keys.aead nonce (drop (offset + size) raw) plain_header.0) _
                          (open_sealed_runs keys.aead nonce (drop (offset + size) raw)
                            plain_header.0 twelve)
                          (λ plain. adopt-IsSound changed packet keys t h s))))
        ])

  open_with-IsSound :
      (changed : Bool) (keys : InitialKeys P) (packet : LongPacket) (t : Tracker P)
      → HasIv P keys
      → IsSound t
      → Ensures (λ r. IsSound r.2) (open_with P changed keys packet t)
  unfolding open_with
  open_with-IsSound changed keys packet t h s =
      let raw = packet.raw in
      let offset = packet.pn_offset in
      elim (Bool-cases (ltb (length raw - offset) 20)) [
        | inl y ↦ rw y tt
        | inr n ↦
            let room : offset + 20 ≤ length raw = ground (arith, n) in
            let size = offset + 20 - (offset + 4) in
            let sample = take size (drop (offset + 4) raw) in
            let cut = length-take size (drop (offset + 4) raw) in
            let block : 16 ≤ length sample =
              omega (arith, room, cut, length-drop (offset + 4) raw) in
            rw (n, slice_ok raw (offset + 4) (offset + 20) (omega arith) room)
              (Ensures-bind (λ mask. length mask ≡ 16) (λ r. IsSound r.2) (encrypt keys.hp sample) _
                (Yields-Ensures _ (encrypt keys.hp sample) (encrypt_length keys.hp sample block))
                (λ mask wide. open_masked-IsSound changed keys packet t mask room wide h s))
      ]

  current_keys-HasIv :
      (keys : Option (InitialKeys P)) (version : ℕ)
      → IsKeyed keys version
      → 0 < version
      → Ensures (HasIv P) (current_keys P keys)
  unfolding current_keys
  current_keys-HasIv none version k h = absurd (omega (arith, k, h))
  current_keys-HasIv (some keys) version k h = k

  open_packet-IsSound :
      (packet : LongPacket) (t : Tracker P)
      → 0 < packet.version
      → IsSound t
      → Ensures (λ r. IsSound r.2) (open_packet P packet t)
  unfolding open_packet
  open_packet-IsSound packet t h s =
      let same = packet.version == t.version in
      let changed = not same || not (equal packet.dcid t.dcid) in
      Ensures-bind (HasIv P) (λ r. IsSound r.2)
        (if changed then derive_client_keys P packet.version packet.dcid else current_keys P t.keys)
        _
        (elim (Bool-cases changed) [
          | inl y ↦ rw y (derive-HasIv P packet.version packet.dcid)
          | inr n ↦ rw n (current_keys-HasIv t.keys t.version s.keyed (ground (arith, n, h)))
        ])
        (λ keys k. open_with-IsSound changed keys packet t k s)

  seen-IsSound : (now pn : ℕ) (t : Tracker P) → IsSound t → IsSound (seen P now pn t)
  unfolding seen
  seen-IsSound now pn t s = record { keyed = s.keyed; bounded = s.bounded }

  pub new-IsSound : IsSound (new_tracker P)
  new-IsSound = record { keyed = refl; bounded = empty-IsBounded }

  choose-IsSound :
      (b : Bool) (t u : Tracker P) → IsSound t → IsSound u → IsSound (if b then t else u)
  choose-IsSound true t u s r = s
  choose-IsSound false t u s r = r

  pub fail-IsSound : (reason : String) (t : Tracker P) → IsSound t → IsSound (fail P reason t)
  unfolding fail
  fail-IsSound reason t s =
      choose-IsSound t.done t _ s (record { keyed = s.keyed; bounded = empty-IsBounded })

  pub tick-IsSound : (now : ℕ) (t : Tracker P) → IsSound t → IsSound (tick P now t)
  unfolding tick
  tick-IsSound now t s = choose-IsSound _ _ t (fail-IsSound "QUIC ClientHello gap timeout" t s) s

  -- What a call of `Add` leaves: a message that it hands over is a whole ClientHello, and the tracker
  -- is done behind it.
  pub record Outcome (r : Tracker P × Answer) : Type 0 where
    pub sound : IsSound r.0
    pub whole : Complete r.1.hello
    pub over : is_some r.1.hello ≡ true → r.0.done ≡ true

  failed-Outcome : (e : String) (t : Tracker P) → IsSound t → Yields Outcome (failed P e t)
  unfolding failed
  failed-Outcome e t s = record {
    sound = fail-IsSound e t s;
    whole = tt;
    over = λ e. absurd (cc e);
  }

  finished-Outcome :
      (hello : Bytes) (t : Tracker P)
      → IsHello hello
      → IsSound t
      → Yields Outcome (finished P hello t)
  unfolding finished
  finished-Outcome hello t h s = record {
    sound = record { keyed = s.keyed; bounded = empty-IsBounded };
    whole = h;
    over = λ _. refl;
  }

  handle-Yields :
      {A : Type 0} {B : Type 0} (K : A → Type 0) (Q : B → Type 0) (m : Res A) (f : String → Res B)
      (g : A → Res B)
      → Ensures K m
      → ((e : String) → Yields Q (f e))
      → ((a : A) → K a → Yields Q (g a))
      → Yields Q (handle m f g)
  unfolding handle
  handle-Yields K Q (ok a) f g h k l = l a h
  handle-Yields K Q (err e) f g h k l = k e
  handle-Yields K Q panic f g h k l = absurd h

  module _ (R : PartOrder) where
    read_packet-Outcome :
        (plain : Bytes) (t : Tracker P) (next : Tracker P → Res (Tracker P × Answer))
        → IsSound t
        → ((t' : Tracker P) → IsSound t' → Yields Outcome (next t'))
        → Yields Outcome (read_packet P R plain t next)
    unfolding read_packet
    read_packet-Outcome plain t next s k =
        handle-Yields IsBounded Outcome (frames R plain t.stream) _ _
          (frames-IsBounded R plain t.stream s.bounded) (λ e. failed-Outcome e t s)
          (λ stream b.
            handle-Yields Complete Outcome (client_hello stream) _ _ (client_hello-Complete stream)
              (λ e. failed-Outcome e t s) (found stream b))
      where
        found :
            (stream : CryptoStream)
            → IsBounded stream
            → (m : Option Bytes) → Complete m
            → Yields Outcome (elim m [
              | none ↦ next (record t { stream = stream })
              | some hello ↦ finished P hello t
            ])
        found stream b none c =
            k (record t { stream = stream }) (record { keyed = s.keyed; bounded = b })
        found stream b (some hello) c = finished-Outcome hello t c s

    add_packet-Outcome :
        (datagram : Bytes) (now : ℕ) (authenticated : Bool) (t : Tracker P)
        (next : Bytes → Bool → Tracker P → Res (Tracker P × Answer))
        (found : Option (LongPacket × ℕ))
        → IsSound t
        → Splits datagram found
        → ((rest : Bytes) (a : Bool) (t' : Tracker P)
            → length rest < length datagram
            → IsSound t'
            → Yields Outcome (next rest a t'))
        → Yields Outcome (add_packet P R datagram now authenticated t next found)
    unfolding add_packet
    add_packet-Outcome datagram now authenticated t next none s front k = record {
      sound = s;
      whole = tt;
      over = λ e. absurd (cc e);
    }
    add_packet-Outcome datagram now authenticated t next (some (packet, consumed)) s front k =
        let rest = drop consumed datagram in
        let less : length rest < length datagram =
          omega (arith, front.taken, front.inside, length-drop consumed datagram) in
        rw (slice_from_ok datagram consumed front.inside) (elim (Bool-cases (not packet.initial)) [
          | inl y ↦ rw y (k rest authenticated t less s)
          | inr m ↦ rw m (
              handle-Yields (λ r. IsSound r.2) Outcome (open_packet P packet t) _ _
                (open_packet-IsSound packet t front.known s) (λ e. k rest authenticated t less s)
                (λ opened o.
                  read_packet-Outcome opened.0 (seen P now opened.1 opened.2) _
                    (seen-IsSound now opened.1 opened.2 o) (λ t' s'. k rest true t' less s')))
        ])

    add_loop-Outcome :
        (turns : ℕ) (datagram : Bytes) (now : ℕ) (authenticated : Bool) (t : Tracker P)
        → length datagram < turns
        → IsSound t
        → Yields Outcome (add_loop P R turns datagram now authenticated t)
    unfolding add_loop
    add_loop-Outcome zero datagram now authenticated t h s = absurd (omega arith)
    add_loop-Outcome (suc turns) datagram now authenticated t h s =
        elim (Bool-cases (length datagram == 0)) [
          | inl y ↦ rw y (record { sound = s; whole = tt; over = λ e. absurd (cc e) })
          | inr n ↦ rw n (
              Yields-bind (Splits datagram) Outcome (split_long_packet datagram) _
                (split_long_packet-Splits datagram)
                (λ found front.
                  add_packet-Outcome datagram now authenticated t
                    (λ rest a t'. add_loop P R turns rest now a t') found s front
                    (λ rest a t' less s'.
                      add_loop-Outcome turns rest now a t' (omega (arith, h, less)) s')))
        ]

    -- On any datagram and a sound tracker, `Add` ends without a panic and keeps the tracker sound: keys
    -- once a version is adopted, and a CRYPTO stream within its limits. The cipher is assumed to answer
    -- on a sample of 16 bytes or more, the AEAD on a nonce of 12, and the other primitives always. A
    -- message that it hands over is a whole ClientHello, and the tracker is done behind it.
    pub add-Outcome :
        (datagram : Bytes) (now : ℕ) (t : Tracker P)
        → IsSound t
        → Yields Outcome (add P R datagram now t)
    unfolding add
    add-Outcome datagram now t s =
        elim (Bool-cases (t.done || not (is_blank t.failure) || ltb 65536 (length datagram))) [
          | inl y ↦ rw y (record { sound = s; whole = tt; over = λ e. absurd (cc e) })
          | inr n ↦
              rw n (add_loop-Outcome (suc (length datagram)) datagram now false t (omega arith) s)
        ]
