-- ===== src/Pcapng/Limit.antt =====
-- internal/pcapng/writer.go: the size limit of a recording.
use socktrail.Base.{
  ℕ, ◌+◌, ◌%◌, ◌^◌, ◌≤◌, ◌<◌, ◌≡◌, refl, String, List, [], ◌∷◌, Option, none, some, Bytes, length,
  length-append, arith, put_le32,
}
use socktrail.Pcapng.Blocks.{length-packet_body, length-interface_body}
use socktrail.Pcapng.Writer.{
  section_header, interface_description, enhanced_packet, Sink, Writer, block_bytes, section_body,
  interface_body, packet_body, written, block, and_then, describe, new, packet,
}

-- How many bytes an `io.Writer` holds: a call of `Write` adds the count that it returns, and never
-- more than it was given.
pub record Holds (O : Sink) : Type 0 where
  pub held : O.State → ℕ
  pub grows : (out : O.State) (b : Bytes) → held (O.write out b).0 ≡ held out + (O.write out b).1
  pub honest : (out : O.State) (b : Bytes) → (O.write out b).1 ≤ length b

-- The recording behind the first `start` bytes of its output is within the limit, and the writer
-- counts it exactly.
pub record Within {O : Sink} (H : Holds O) (limit start : ℕ) (w : Writer O.State) : Type 0 where
  pub limited : w.max_bytes ≡ limit
  pub counted : H.held w.out ≡ start + w.bytes
  pub kept : H.held w.out ≤ start + limit

module _ (O : Sink) (H : Holds O) (limit start : ℕ) (some_limit : 0 < limit)
    (fits : limit + 2 ^ 32 ≤ 2 ^ 64) where
  open O use {State, write}
  open H use {held, grows, honest}

  written-Within :
      (kind : ℕ) (body : Bytes) (w : Writer State) (size : ℕ) (answer : State × ℕ × Option String)
      → Within H limit start w
      → length body + 12 ≡ size
      → w.bytes + size ≤ limit
      → answer.1 ≤ size
      → held answer.0 ≡ held w.out + answer.1
      → Within H limit start (written O w (block_bytes kind body) answer).0
  unfolding written
  written-Within kind body w size (out, n, none) h hs hl ha hg =
      ground (arith, h.limited, h.counted)
  written-Within kind body w size (out, n, some e) h hs hl ha hg =
      ground (arith, h.limited, h.counted)

  block-Within :
      (kind : ℕ) (body : Bytes) (w : Writer State)
      → length body + 12 < 2 ^ 32
      → Within H limit start w
      → Within H limit start (block O kind body w).0
  unfolding block block_bytes
  block-Within kind body w hb h = ground (
    arith,
    written-Within kind body w (length body + 12) (write w.out (block_bytes kind body)) h refl,
    honest w.out (block_bytes kind body),
    grows w.out (block_bytes kind body),
    h.limited,
    h.counted,
    h.kept,
    length-append body (put_le32 ((length body + 12) % 2 ^ 32)),
  )

  and_then-Within :
      (p : Writer State × Option String) (next : Writer State → Writer State × Option String)
      → Within H limit start p.0
      → ((w : Writer State) → Within H limit start w → Within H limit start (next w).0)
      → Within H limit start (and_then O p next).0
  unfolding and_then
  and_then-Within (w, none) next h go = go w h
  and_then-Within (w, some e) next h go = h

  describe-Within :
      (names : List Bytes) (w : Writer State)
      → Within H limit start w
      → Within H limit start (describe O names w).0
  unfolding describe
  describe-Within [] w h = h
  describe-Within (name ∷ names) w h = ground (
    arith,
    length-interface_body name,
    describe-Within names,
    and_then-Within (block O interface_description (interface_body name) w) (describe O names),
    block-Within interface_description (interface_body name) w,
  )

  -- `New` on an output of `start` bytes adds at most `limit` bytes to it, errors included, and counts
  -- them exactly, where a write adds the bytes that it claims, at most those that it was given, and the
  -- limit leaves 2 ^ 32 below 2 ^ 64.
  pub new-Within :
      (out : State) (names : List Bytes)
      → held out ≡ start
      → Within H limit start (new O out names limit).0
  unfolding new section_body and_then
  new-Within out names empty =
      let w : Writer State = record {
        out = out;
        max_bytes = limit;
        bytes = 0;
        packets = 0;
        interfaces = 0;
      } in
      let first : Within H limit start w = record {
        limited = refl;
        counted = omega arith;
        kept = omega arith;
      } in
      ground (
        arith,
        first,
        and_then-Within (block O section_header section_body w) (describe O names)
            (block-Within section_header section_body w (omega arith) first)
            (λ w' h. describe-Within names w' h),
      )

  -- `Packet` keeps what has been added to an output of `start` bytes within `limit` bytes, errors
  -- included, and counts it exactly, where a write adds the bytes that it claims, at most those that it
  -- was given, and the limit leaves 2 ^ 32 below 2 ^ 64.
  pub packet-Within :
      (id : ℕ) (frame : Bytes) (wire_length stamp : ℕ) (comment : Bytes) (w : Writer State)
      → Within H limit start w
      → Within H limit start (packet O id frame wire_length stamp comment w).0
  unfolding packet and_then
  packet-Within id frame wire_length stamp comment w h = ground (
    arith,
    block-Within enhanced_packet (packet_body id frame wire_length stamp comment) w,
    length-packet_body id wire_length stamp frame comment,
  )
