-- ===== src/Pcapng/Reader.antt =====
-- internal/pcapng/reader.go. The input is its bytes. What the callback was called with comes back
-- beside the result, since it was called even if an error follows.
use socktrail.Base.{
  ℕ, zero, suc, ◌+◌, ◌-◌, ◌*◌, ◌/◌, ◌%◌, ◌^◌, Bool, true, false, not, ◌&&◌, ◌||◌, String, List, [],
  ◌∷◌, ◌++◌, Option, none, some, Bytes, length, get_elem?, ltb, ◌==◌, if◌then◌else◌, Res, ok, err,
  panic, ◌>>=◌, slice, slice_from, le16, le32,
}
use socktrail.Pcapng.Writer.{
  section_header, interface_description, enhanced_packet, ethernet_link_type, max_snap_length,
}

pub record RecordedPacket : Type 0 where
  pub interface : Bytes
  pub frame : Bytes
  pub wire_len : ℕ
  pub at : ℕ
  pub comment : Bytes

-- `(size + 3) &^ 3`
abbrev pub round_up : ℕ → ℕ
round_up size = (size + 3) / 4 * 4

-- `readOptions`, with the options that it visits. An error discards them, as both callers do. Each
-- round takes four bytes at least, so as many rounds as there are bytes are enough.
unfoldable pub read_options_loop : ℕ → Bytes → Res (List (ℕ × Bytes))
read_options_loop rounds [] = ok []
read_options_loop zero (b ∷ bs) = panic
read_options_loop (suc rounds) (b ∷ bs) =
    let body = b ∷ bs in
    let go = (do
      kind ← le16 body 0
      size ← le16 body 2
      rest ← slice_from body 4
      if ltb (length rest) (round_up size)
          then err "invalid PCAPNG option length"
          else if kind == 0
          then if not (size == 0) then err "invalid PCAPNG option end" else ok []
          else do
            value ← slice rest 0 size
            next ← slice_from rest (round_up size)
            others ← read_options_loop rounds next
            ok ((kind, value) ∷ others)) in
    if ltb (length body) 4 then err "short PCAPNG option" else go

unfoldable pub read_options : Bytes → Res (List (ℕ × Bytes))
unfolding read_options_loop
read_options body = read_options_loop (length body) body

-- What the visitors make of the options: the name and the resolution, and the comment.
unfoldable pub name_of : Bytes → List (ℕ × Bytes) → Bytes
name_of name [] = name
name_of name ((kind, value) ∷ os) = name_of (if kind == 2 then value else name) os

-- `if len(value) == 1 { resolution = value[0] }`
unfoldable pub single_byte : ℕ → Bytes → ℕ
single_byte resolution (r ∷ []) = r
single_byte resolution _ = resolution

unfoldable pub resolution_of : ℕ → List (ℕ × Bytes) → ℕ
unfolding single_byte
resolution_of resolution [] = resolution
resolution_of resolution ((kind, value) ∷ os) =
    resolution_of (if kind == 9 then single_byte resolution value else resolution) os

unfoldable pub comment_of : Bytes → List (ℕ × Bytes) → Bytes
comment_of comment [] = comment
comment_of comment ((kind, value) ∷ os) = comment_of (if kind == 1 then value else comment) os

-- What is kept between blocks.
pub record Progress : Type 0 where
  pub names : List Bytes
  pub seen_section : Bool

unfoldable pub read_section : Bytes → Progress → Res Progress
read_section body s =
    if s.seen_section || ltb (length body) 16 then err "unsupported PCAPNG section" else do
      magic ← le32 body 0
      if not (magic == 0x1a2b3c4d)
          then err "unsupported PCAPNG section"
          else ok (record s { seen_section = true })

unfoldable pub read_interface : Bytes → Progress → Res Progress
read_interface body s =
    if not s.seen_section || ltb (length body) 8 then err "unsupported PCAPNG interface" else do
      link ← le16 body 0
      if not (link == ethernet_link_type) then err "unsupported PCAPNG interface" else do
        tail ← slice_from body 8
        options ← read_options tail
        if length (name_of [] options) == 0 || not (resolution_of 6 options == 6)
            then err "PCAPNG interface needs a name and microsecond timestamps"
            else ok (record s { names = s.names ++ (name_of [] options ∷ []) })

-- A packet whose lengths are good, on a known interface.
unfoldable pub read_frame : Bytes → Bytes → ℕ → ℕ → Res RecordedPacket
read_frame body name captured wire = do
  tail ← slice_from body (20 + round_up captured)
  options ← read_options tail
  high ← le32 body 4
  low ← le32 body 8
  if ltb (2 ^ 63 - 1) (high * 2 ^ 32 + low) then err "invalid PCAPNG timestamp" else do
    frame ← slice body 20 (20 + captured)
    ok (record {
      interface = name;
      frame = frame;
      wire_len = wire;
      at = high * 2 ^ 32 + low;
      comment = comment_of [] options;
    })

unfoldable pub read_packet : Bytes → Progress → Res RecordedPacket
read_packet body s =
    if not s.seen_section || ltb (length body) 20 then err "invalid PCAPNG packet block" else do
      id ← le32 body 0
      captured ← le32 body 12
      wire ← le32 body 16
      if captured == 0
            || ltb max_snap_length captured
            || ltb wire captured
            || ltb (length body) (20 + round_up captured)
          then err "invalid PCAPNG packet length or interface"
          else elim (get_elem? s.names id) [
            | none ↦ err "invalid PCAPNG packet length or interface"
            | some name ↦ read_frame body name captured wire
          ]

-- What one block does: the progress, and the packet that the callback is given.
unfoldable pub read_block : ℕ → Bytes → Progress → Res (Progress × Option RecordedPacket)
read_block kind body s =
    if not s.seen_section && not (kind == section_header)
    then err "PCAPNG section header is missing"
    else if kind == section_header
    then (do t ← read_section body s; ok (t, none))
    else if kind == interface_description
    then (do t ← read_interface body s; ok (t, none))
    else if kind == enhanced_packet
    then (do p ← read_packet body s; ok (s, some p))
    else ok (s, none)

-- The next block of the input: `none` at its end, else its kind, its body and what follows it.
unfoldable pub next_block : Bytes → Res (Option (ℕ × Bytes × Bytes))
next_block [] = ok none
next_block (b ∷ bs) =
    let input = b ∷ bs in
    if ltb (length input) 8 then err "read PCAPNG block header" else do
      kind ← le32 input 0
      size ← le32 input 4
      if ltb size 12 || not (size % 4 == 0) || ltb (2 ^ 20) size
          then err "invalid PCAPNG block length"
          else if ltb (length input) size
          then err "read PCAPNG block"
          else do
            trailer ← le32 input (size - 4)
            if not (trailer == size) then err "PCAPNG block length mismatch" else do
              body ← slice input 8 (size - 4)
              rest ← slice_from input size
              ok (some (kind, body, rest))

-- The packets that the callback was given, and how reading ended.
pub record Outcome : Type 0 where
  pub visited : List RecordedPacket
  pub end : Res (Unit {0})

module _ (visit : RecordedPacket → Option String) where
  -- The loop of `Read`; each block takes twelve bytes at least.
  unfoldable pub read_loop : ℕ → Bytes → Progress → Outcome
  read_loop zero input s = record { visited = []; end = err "out of rounds" }
  read_loop (suc rounds) input s = elim (next_block input) [
    | panic ↦ record { visited = []; end = panic }
    | err e ↦ record { visited = []; end = err e }
    | ok none ↦ record {
      visited = [];
      end = if s.seen_section then ok tt else err "empty PCAPNG file";
    }
    | ok (some (kind, body, rest)) ↦ elim (read_block kind body s) [
      | panic ↦ record { visited = []; end = panic }
      | err e ↦ record { visited = []; end = err e }
      | ok (t, none) ↦ read_loop rounds rest t
      | ok (t, some p) ↦ elim (visit p) [
        | some e ↦ record { visited = p ∷ []; end = err e }
        | none ↦ let later = read_loop rounds rest t in record later { visited = p ∷ later.visited }
      ]
    ]
  ]

  -- `Read`
  unfoldable pub read : Bytes → Outcome
  read input = read_loop (suc (length input)) input (record { names = []; seen_section = false })
