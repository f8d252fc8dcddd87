-- ===== src/Pcapng/Blocks.antt =====
-- internal/pcapng: the body of each kind of block, written and read.
use socktrail.Base.{
  ℕ, ◌+◌, ◌/◌, ◌%◌, ◌^◌, ◌≤◌, ◌<◌, max, ◌≡◌, ◌≢◌, refl, ap, ◌∙◌, true, false, List, [], ◌∷◌, ◌++◌,
  none, some, Bytes, length, length-append, get_elem?, arith, ok, index, slice, slice_from, le16,
  le32, put_le16, put_le32, le32-append, le16-put_le16, le32-put_le32, le32-put_le32_mod,
  slice-append, slice_from-append,
}
use socktrail.Pcapng.Writer.{
  section_header, interface_description, enhanced_packet, max_snap_length, padded, option_bytes,
  section_body, interface_body, comment_options, packet_body,
}
use socktrail.Pcapng.Reader.{
  round_up, read_options, name_of, resolution_of, comment_of, single_byte, read_section,
  read_interface, read_frame, read_packet, read_block,
}
use socktrail.Pcapng.Options.{
  length-padded, padded-append, read_options_nil, read_options-interface, read_options-comment,
}

pub read_block-section :
    (names : List Bytes)
    → read_block section_header section_body (record { names = names; seen_section = false })
      ≡ ok (record { names = names; seen_section = true }, none)
unfolding read_block read_section section_body le32 le16 index
read_block-section names = refl

pub read_block-interface :
    (name : Bytes) (names : List Bytes)
    → length name < 65536
    → name ≢ []
    → read_block interface_description
        (interface_body name)
        (record { names = names; seen_section = true })
      ≡ ok (record { names = names ++ (name ∷ []); seen_section = true }, none)
unfolding read_block read_interface interface_body name_of resolution_of single_byte
read_block-interface name names h ne =
    let options = option_bytes 2 name ++ (option_bytes 9 (6 ∷ []) ++ option_bytes 0 []) in
    let head = put_le16 1 ++ (put_le16 0 ++ put_le32 max_snap_length) in
    let body = head ++ options in
    let link_read : le16 body 0 ≡ ok 1 = le16-put_le16 1 _ (omega arith) in
    let tail_read : slice_from body 8 ≡ ok options = slice_from-append head options 8 refl in
    ground (arith, link_read, tail_read, read_options-interface name h)

-- The options behind a frame.
read_options-comment_options :
    (comment : Bytes)
    → length comment < 65536
    → (options : List (ℕ × Bytes)) × (read_options (comment_options comment) ≡ ok options)
      × (comment_of [] options ≡ comment)
unfolding comment_options comment_of
read_options-comment_options [] h = ([], read_options_nil, refl)
read_options-comment_options (c ∷ cs) h = ((1, c ∷ cs) ∷ [], read_options-comment (c ∷ cs) h, refl)

pub length-interface_body : (name : Bytes) → length (interface_body name) ≤ length name + 40
unfolding interface_body option_bytes padded
length-interface_body name = omega (
  arith,
  length-append (padded name) (option_bytes 9 (6 ∷ []) ++ option_bytes 0 []),
  length-padded name,
)

length-comment_options : (comment : Bytes) → length (comment_options comment) ≤ length comment + 11
unfolding comment_options option_bytes padded
length-comment_options [] = omega arith
length-comment_options (c ∷ cs) =
    omega (arith, length-append (padded (c ∷ cs)) (option_bytes 0 []), length-padded (c ∷ cs))

module _ (id wire_length stamp : ℕ) (frame comment : Bytes) where
  abbrev numbers : Bytes
  numbers =
      put_le32 id
      ++ (put_le32 (stamp / 2 ^ 32)
          ++ (put_le32 stamp
              ++ (put_le32 (length frame) ++ put_le32 (max wire_length (length frame)))))

  abbrev body : Bytes
  body = packet_body id frame wire_length stamp comment

  body_size : length body ≡ 20 + round_up (length frame) + length (comment_options comment)
  unfolding packet_body
  body_size =
      omega (arith, length-append (padded frame) (comment_options comment), length-padded frame)

  pub length-packet_body : length body ≤ length frame + length comment + 34
  length-packet_body = omega (arith, body_size, length-comment_options comment)

  module _ (id_word : id < 2 ^ 32) (stamp_word : stamp < 2 ^ 63) where
    id_read : le32 body 0 ≡ ok id
    unfolding packet_body
    id_read = le32-put_le32 id _ id_word

    high_read : le32 body 4 ≡ ok (stamp / 2 ^ 32)
    unfolding packet_body
    high_read =
        le32-append (put_le32 id) _ 4 0 refl ∙ le32-put_le32 (stamp / 2 ^ 32) _ (omega arith)

    low_read : le32 body 8 ≡ ok (stamp % 2 ^ 32)
    unfolding packet_body
    low_read =
        le32-append (put_le32 id ++ put_le32 (stamp / 2 ^ 32)) _ 8 0 refl
        ∙ le32-put_le32_mod stamp _

  module _ (frame_short : length frame ≤ max_snap_length) (wire_word : wire_length < 2 ^ 32) where
    captured_read : le32 body 12 ≡ ok (length frame)
    unfolding packet_body
    captured_read =
        le32-append (put_le32 id ++ (put_le32 (stamp / 2 ^ 32) ++ put_le32 stamp)) _ 12 0 refl
        ∙ le32-put_le32 (length frame) _ (omega arith)

    wire_read : le32 body 16 ≡ ok (max wire_length (length frame))
    unfolding packet_body
    wire_read =
        le32-append
          (put_le32 id
            ++ (put_le32 (stamp / 2 ^ 32) ++ (put_le32 stamp ++ put_le32 (length frame))))
          _ 16 0 refl
        ∙ le32-put_le32 (max wire_length (length frame)) _ (omega arith)

  frame_read : slice body 20 (20 + length frame) ≡ ok frame
  unfolding packet_body
  frame_read =
      ap (λ x. slice (numbers ++ x) 20 (20 + length frame))
        (padded-append frame (comment_options comment))
      ∙ slice-append numbers frame _ 20 (20 + length frame) refl (omega arith)

  tail_read : slice_from body (20 + round_up (length frame)) ≡ ok (comment_options comment)
  unfolding packet_body
  tail_read =
      slice_from-append (numbers ++ padded frame) (comment_options comment) _
        (omega (arith, length-padded frame, length-append numbers (padded frame)))

  pub read_block-packet :
      (names : List Bytes) (name : Bytes)
      → get_elem? names id ≡ some name
      → id < 2 ^ 32
      → wire_length < 2 ^ 32
      → stamp < 2 ^ 63
      → 0 < length frame
      → length frame ≤ max_snap_length
      → length comment < 65536
      → read_block enhanced_packet
          (packet_body id frame wire_length stamp comment)
          (record { names = names; seen_section = true })
        ≡ ok (
          record { names = names; seen_section = true },
          some (record {
            interface = name;
            frame = frame;
            wire_len = max wire_length (length frame);
            at = stamp;
            comment = comment;
          }),
        )
  unfolding read_block read_packet read_frame
  read_block-packet names name found hi hw hs lo up hc =
      let (options, options_read, comment_eq) = read_options-comment_options comment hc in
      ground (
        arith,
        body_size,
        id_read hi hs,
        high_read hi hs,
        low_read hi hs,
        captured_read up hw,
        wire_read up hw,
        frame_read,
        tail_read,
        options_read,
        comment_eq,
        found,
      )
