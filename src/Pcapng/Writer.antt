-- ===== src/Pcapng/Writer.antt =====
-- internal/pcapng/writer.go. Each method returns the writer that it leaves and the error that it
-- returns. A time is its Unix microseconds as the uint64 that is stored; a string is its bytes; the
-- length on the wire is not negative.
use socktrail.Base.{
  ℕ, ◌+◌, ◌-◌, ◌/◌, ◌%◌, ◌^◌, max, not, ◌&&◌, ◌||◌, String, List, [], ◌∷◌, ◌++◌, Option, none, some,
  Bytes, length, replicate, ltb, leb, ◌==◌, if◌then◌else◌, put_le16, put_le32,
}

abbrev pub section_header : ℕ
section_header = 0x0a0d0d0a

abbrev pub interface_description : ℕ
interface_description = 1

abbrev pub enhanced_packet : ℕ
enhanced_packet = 6

abbrev pub ethernet_link_type : ℕ
ethernet_link_type = 1

abbrev pub max_snap_length : ℕ
max_snap_length = 65536

-- An `io.Writer`: what a call of `Write` leaves, the count that it returns, and its error.
pub record Sink : Type 1 where
  pub State : Type 0
  pub write : State → Bytes → State × ℕ × Option String

pub record Writer (S : Type 0) : Type 0 where
  pub out : S
  pub max_bytes : ℕ
  pub bytes : ℕ
  pub packets : ℕ
  pub interfaces : ℕ

-- `appendPadded(nil, data)`: zeros up to a multiple of four.
unfoldable pub padded : Bytes → Bytes
padded body = body ++ replicate ((4 - length body % 4) % 4) 0

-- `appendOption(nil, kind, value)`
unfoldable pub option_bytes : ℕ → Bytes → Bytes
option_bytes kind value = put_le16 kind ++ (put_le16 (length value) ++ padded value)

-- The bytes that `block` writes.
unfoldable pub block_bytes : ℕ → Bytes → Bytes
block_bytes kind body =
    let size = (length body + 12) % 2 ^ 32 in
    put_le32 kind ++ (put_le32 size ++ (body ++ put_le32 size))

-- The bodies of the three kinds of blocks.
unfoldable pub section_body : Bytes
section_body = put_le32 0x1a2b3c4d ++ (put_le16 1 ++ (put_le16 0 ++ replicate 8 255))

unfoldable pub interface_body : Bytes → Bytes
interface_body name =
    put_le16 ethernet_link_type
    ++ (put_le16 0
        ++ (put_le32 max_snap_length
            ++ (option_bytes 2 name ++ (option_bytes 9 (6 ∷ []) ++ option_bytes 0 []))))

-- The options of a packet: its comment, if there is one.
unfoldable pub comment_options : Bytes → Bytes
comment_options [] = []
comment_options (c ∷ cs) = option_bytes 1 (c ∷ cs) ++ option_bytes 0 []

unfoldable pub packet_body : ℕ → Bytes → ℕ → ℕ → Bytes → Bytes
packet_body id frame wire_length stamp comment =
    put_le32 id
    ++ (put_le32 (stamp / 2 ^ 32)
        ++ (put_le32 stamp
            ++ (put_le32 (length frame)
                ++ (put_le32 (max wire_length (length frame))
                    ++ (padded frame ++ comment_options comment)))))

module _ (O : Sink) where
  open O use {State, write}

  -- What `block` does with the answer of `Write`.
  unfoldable pub written :
      Writer State → Bytes → State × ℕ × Option String → Writer State × Option String
  written w block (out, n, e) =
      let w' = record w { out = out; bytes = (w.bytes + n) % 2 ^ 64 } in
      elim e [
        | some reason ↦ (w', some reason)
        | none ↦ if not (n == length block) then (w', some "short write") else (w', none)
      ]

  -- `block`
  unfoldable pub block : ℕ → Bytes → Writer State → Writer State × Option String
  block kind body w =
      if not (length body % 4 == 0)
      then (w, some "PCAPNG block body is not aligned")
      else if ltb 0 w.max_bytes
          && ltb w.max_bytes ((w.bytes + (length body + 12) % 2 ^ 32) % 2 ^ 64)
      then (w, some "PCAPNG size limit reached")
      else written w (block_bytes kind body) (write w.out (block_bytes kind body))

  -- Goes on where no error was returned.
  unfoldable pub and_then :
      Writer State × Option String
      → (Writer State → Writer State × Option String)
      → Writer State × Option String
  and_then (w, none) next = next w
  and_then (w, some e) next = (w, some e)

  -- The loop of `New` over the interface names.
  unfoldable pub describe : List Bytes → Writer State → Writer State × Option String
  describe [] w = (w, none)
  describe (name ∷ names) w =
      if ltb 65535 (length name)
      then (w, some "PCAPNG interface name is too long")
      else and_then (block interface_description (interface_body name) w) (describe names)

  -- `New`
  unfoldable pub new : State → List Bytes → ℕ → Writer State × Option String
  new out names max_bytes =
      let w : Writer State = record {
        out = out;
        max_bytes = max_bytes;
        bytes = 0;
        packets = 0;
        interfaces = 0;
      } in
      if length names == 0
      then (w, some "PCAPNG needs at least one interface")
      else if ltb (2 ^ 32 - 1) (length names)
      then (w, some "too many PCAPNG interfaces")
      else and_then (and_then (block section_header section_body w) (describe names))
          (λ w'. (record w' { interfaces = length names }, none))

  -- `Packet`
  unfoldable pub packet : ℕ → Bytes → ℕ → ℕ → Bytes → Writer State → Writer State × Option String
  packet id frame wire_length stamp comment w =
      if leb w.interfaces id
      then (w, some "invalid PCAPNG interface")
      else if length frame == 0 || ltb max_snap_length (length frame)
      then (w, some "invalid captured frame length")
      else if ltb (2 ^ 32 - 1) wire_length
      then (w, some "invalid wire length")
      else if ltb 65535 (length comment)
      then (w, some "PCAPNG comment is too long")
      else and_then (block enhanced_packet (packet_body id frame wire_length stamp comment) w)
          (λ w'. (record w' { packets = (w'.packets + 1) % 2 ^ 64 }, none))
