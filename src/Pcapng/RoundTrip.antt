-- ===== src/Pcapng/RoundTrip.antt =====
-- internal/pcapng: a recording, written and read.
use socktrail.Base.{
  ℕ, zero, suc, ◌+◌, ◌-◌, ◌^◌, ◌≤◌, ◌<◌, max, ◌≡◌, ◌≢◌, refl, sym, ap, ◌∙◌, subst, true, false,
  String, List, [], ◌∷◌, ◌++◌, map, append_assoc, append-nil, Option, none, some, Bytes, length,
  length-append, All, get_or, get_elem?, arith, ok,
}
use socktrail.Pcapng.Writer.{
  section_header, interface_description, enhanced_packet, Writer, block_bytes, section_body,
  interface_body, packet_body, new, and_then,
}
use socktrail.Pcapng.Reader.{Progress, RecordedPacket, next_block, read_block, read_loop, read}
use socktrail.Pcapng.Options.{next_block-block_bytes}
use socktrail.Pcapng.Blocks.{
  read_block-section, read_block-interface, read_block-packet, length-packet_body,
  length-interface_body,
}
use socktrail.Pcapng.Written.{
  buffer, Entry, packet_block, name_block, blocks, packets, Recordable, Nameable, and_then-none,
  packets-Recordable, new-Nameable,
}

-- The callback that never stops the reader.
abbrev pub go_on : RecordedPacket → Option String
go_on p = none

-- The packet that an entry stands for, of an interface of these names.
abbrev pub recorded : List Bytes → Entry → RecordedPacket
recorded names e = record {
  interface = get_or names e.id [];
  frame = e.frame;
  wire_len = max e.wire_length (length e.frame);
  at = e.stamp;
  comment = e.comment;
}

abbrev pub TimeFits : Entry → Type 0
TimeFits e = e.stamp < 2 ^ 63

abbrev pub IsNamed : Bytes → Type 0
IsNamed name = name ≢ []

get_elem?-get_or :
    (names : List Bytes) (i : ℕ) → i < length names → get_elem? names i ≡ some (get_or names i [])
get_elem?-get_or [] i h = absurd (omega arith)
get_elem?-get_or (name ∷ names) zero h = refl
get_elem?-get_or (name ∷ names) (suc i) h = get_elem?-get_or names i (omega arith)

length-blocks :
    {A : Type 0}
    → (f : A → Bytes) (xs : List A) → ((x : A) → 0 < length (f x))
    → length xs ≤ length (blocks f xs)
unfolding blocks
length-blocks f [] h = omega arith
length-blocks f (x ∷ xs) h =
    omega (arith, length-append (f x) (blocks f xs), h x, length-blocks f xs h)

-- One round on a block that hands over no packet, and on one that does.
read_loop-quiet :
    (rounds kind : ℕ) (input body rest : Bytes) (s t : Progress)
    → next_block input ≡ ok (some (kind, body, rest))
    → read_block kind body s ≡ ok (t, none)
    → read_loop go_on (suc rounds) input s ≡ read_loop go_on rounds rest t
unfolding read_loop
read_loop-quiet rounds kind input body rest s t h h' = rw (h, h', read_loop) refl

read_loop-packet :
    (rounds kind : ℕ) (input body rest : Bytes) (s t : Progress) (p : RecordedPacket)
    → next_block input ≡ ok (some (kind, body, rest))
    → read_block kind body s ≡ ok (t, some p)
    → read_loop go_on (suc rounds) input s ≡ record {
      visited = p ∷ (read_loop go_on rounds rest t).visited;
      end = (read_loop go_on rounds rest t).end;
    }
unfolding read_loop
read_loop-packet rounds kind input body rest s t p h h' = rw (h, h', read_loop) refl

read_loop-packets :
    (names : List Bytes)
    → length names < 2 ^ 32
    → (es : List Entry) (rounds : ℕ) → All (Recordable (length names)) es
    → All TimeFits es
    → length es < rounds
    → read_loop go_on rounds
        (blocks packet_block es)
        (record { names = names; seen_section = true })
      ≡ record { visited = map (recorded names) es; end = ok tt }
unfolding blocks read_loop next_block
read_loop-packets names hn [] (suc rounds) good fits h = refl
read_loop-packets names hn [] zero good fits h = absurd (omega arith)
read_loop-packets names hn (e ∷ es) zero good fits h = absurd (omega arith)
read_loop-packets names hn (e ∷ es) (suc rounds) (g, good) (t, fits) h =
    let s : Progress = record { names = names; seen_section = true } in
    let body = packet_body e.id e.frame e.wire_length e.stamp e.comment in
    read_loop-packet rounds enhanced_packet (blocks packet_block (e ∷ es)) body
      (blocks packet_block es) s s (recorded names e)
      (next_block-block_bytes enhanced_packet body (blocks packet_block es) (omega arith)
        g.body_aligned
        (omega (
          arith,
          g.short_frame,
          g.short_comment,
          length-packet_body e.id e.wire_length e.stamp e.frame e.comment,
        )))
      (read_block-packet e.id e.wire_length e.stamp e.frame e.comment names (get_or names e.id [])
        (get_elem?-get_or names e.id g.known) (omega (arith, g.known)) g.wire_word t g.some_frame
        g.short_frame g.short_comment)
    ∙ ap (λ o. record { visited = recorded names e ∷ o.visited; end = o.end })
        (read_loop-packets names hn es rounds good fits (omega arith))

read_loop-names :
    (names known : List Bytes) (rest : Bytes) (n rounds : ℕ)
    → n ≡ length names + rounds
    → All Nameable names
    → All IsNamed names
    → read_loop go_on n
        (blocks name_block names ++ rest)
        (record { names = known; seen_section = true })
      ≡ read_loop go_on rounds rest (record { names = known ++ names; seen_section = true })
unfolding blocks
read_loop-names [] known rest n rounds h good named =
    rw (append-nil known) (
      ap (λ k. read_loop go_on k rest (record { names = known; seen_section = true }))
        (omega arith))
read_loop-names (name ∷ names) known rest zero rounds h good named = absurd (omega arith)
read_loop-names (name ∷ names) known rest (suc n) rounds h (g, good) (ne, named) =
    let tail = blocks name_block names ++ rest in
    let input = name_block name ++ tail in
    let s : Progress = record { names = known; seen_section = true } in
    let t : Progress = record { names = known ++ (name ∷ []); seen_section = true } in
    ap (λ x. read_loop go_on (suc n) x s)
      (append_assoc (name_block name) (blocks name_block names) rest)
    ∙ read_loop-quiet n interface_description input (interface_body name) tail s t
        (next_block-block_bytes interface_description (interface_body name) tail (omega arith)
          g.name_aligned (omega (arith, g.short, length-interface_body name)))
        (read_block-interface name known g.short ne)
    ∙ read_loop-names names (known ++ (name ∷ [])) rest n rounds (omega arith) good named
    ∙ ap (λ ns. read_loop go_on rounds rest (record { names = ns; seen_section = true }))
        (append_assoc known (name ∷ []) names)

-- A recorder of these interfaces that is given these packets.
abbrev pub record_all : List Bytes → ℕ → List Entry → Writer Bytes × Option String
record_all names max_bytes es = and_then buffer (new buffer [] names max_bytes) (packets es)

read_loop-section :
    (n : ℕ) (rest : Bytes)
    → read_loop go_on
        (suc n)
        (block_bytes section_header section_body ++ rest)
        (record { names = []; seen_section = false })
      ≡ read_loop go_on n rest (record { names = []; seen_section = true })
unfolding section_body
read_loop-section n rest =
    let s : Progress = record { names = []; seen_section = false } in
    let t : Progress = record { names = []; seen_section = true } in
    read_loop-quiet n section_header (block_bytes section_header section_body ++ rest) section_body
      rest s t
      (next_block-block_bytes section_header section_body rest (omega arith) refl (omega arith))
      (read_block-section [])

-- Each block has a byte at least, and the section's has two.
length-blocks_recorded :
    (names : List Bytes) (es : List Entry)
    → 2 + (length names + length es)
      ≤ length (
          (block_bytes section_header section_body ++ blocks name_block names)
          ++ blocks packet_block es)
unfolding block_bytes
length-blocks_recorded names es = omega (
  arith,
  length-append (block_bytes section_header section_body ++ blocks name_block names)
      (blocks packet_block es),
  length-append (block_bytes section_header section_body) (blocks name_block names),
  length-blocks name_block names (λ x. omega arith),
  length-blocks packet_block es (λ x. omega arith),
)

-- A recording that was written without an error, of interfaces that have names and packets whose
-- times fit 63 bits, is read back to its end: the callback is given every packet, with its
-- interface's name, its bytes, its length on the wire, its time and its comment.
pub read-record_all :
    (names : List Bytes) (max_bytes : ℕ) (es : List Entry)
    → All IsNamed names
    → All TimeFits es
    → (record_all names max_bytes es).1 ≡ none
    → read go_on (record_all names max_bytes es).0.out
      ≡ record { visited = map (recorded names) es; end = ok tt }
unfolding read
read-record_all names max_bytes es named fits quiet =
    let w = new buffer [] names max_bytes in
    let (new_quiet, goes_on) = and_then-none w (packets es) quiet in
    let (nameable, few, w_out, w_interfaces) = new-Nameable names max_bytes new_quiet in
    let (recordable, out_eq) = packets-Recordable es w.0 (ap (λ p. p.1) (sym goes_on) ∙ quiet) in
    let section = block_bytes section_header section_body in
    let names_out = blocks name_block names in
    let tail = blocks packet_block es in
    let whole : (record_all names max_bytes es).0.out ≡ (section ++ names_out) ++ tail =
      ap (λ p. p.0.out) goes_on ∙ out_eq ∙ ap (λ out. out ++ tail) w_out in
    let input = (section ++ names_out) ++ tail in
    let n = length input in
    ap (read go_on) whole
    ∙ ap (λ x. read_loop go_on (suc n) x (record { names = []; seen_section = false }))
        (append_assoc section names_out tail)
    ∙ read_loop-section n (names_out ++ tail)
    ∙ read_loop-names names [] tail n (n - length names)
        (omega (arith, length-blocks_recorded names es)) nameable named
    ∙ read_loop-packets names few es (n - length names)
        (subst (λ k. All (Recordable k) es) w_interfaces recordable) fits
        (omega (arith, length-blocks_recorded names es))
