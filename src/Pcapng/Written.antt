-- ===== src/Pcapng/Written.antt =====
-- internal/pcapng: what a writer that returned no error has written.
use socktrail.Base.{
  ℕ, subst, ◌%◌, ◌^◌, ◌≤◌, ◌<◌, ◌≡◌, refl, sym, ap, ◌∙◌, false, String, List, [], ◌∷◌, ◌++◌,
  append_assoc, append-nil, Option, none, some, Bytes, length, All, ltb, arith,
}
use socktrail.Pcapng.Writer.{
  section_header, interface_description, enhanced_packet, max_snap_length, Sink, Writer,
  block_bytes, section_body, interface_body, packet_body, written, block, and_then, describe, new,
  packet,
}

-- A file that takes every byte.
abbrev pub buffer : Sink
buffer = record { State = Bytes; write = λ out b. (out ++ b, length b, none) }

-- The arguments of one call of `Packet`.
pub record Entry : Type 0 where
  pub id : ℕ
  pub frame : Bytes
  pub wire_length : ℕ
  pub stamp : ℕ
  pub comment : Bytes

abbrev pub packet_block : Entry → Bytes
packet_block e =
    block_bytes enhanced_packet (packet_body e.id e.frame e.wire_length e.stamp e.comment)

unfoldable pub blocks : {A : Type 0} → (A → Bytes) → List A → Bytes
blocks f [] = []
blocks f (x ∷ xs) = f x ++ blocks f xs

abbrev pub name_block : Bytes → Bytes
name_block name = block_bytes interface_description (interface_body name)

-- One call of `Packet` after another, up to the first error.
unfoldable pub packets : List Entry → Writer Bytes → Writer Bytes × Option String
packets [] w = (w, none)
packets (e ∷ es) w =
    and_then buffer (packet buffer e.id e.frame e.wire_length e.stamp e.comment w) (packets es)

pub and_then-none :
    (p : Writer Bytes × Option String) (next : Writer Bytes → Writer Bytes × Option String)
    → (and_then buffer p next).1 ≡ none
    → (p.1 ≡ none) × (and_then buffer p next ≡ next p.0)
unfolding and_then
and_then-none (w, none) next h = (refl, refl)
and_then-none (w, some e) next h = absurd (cc)

-- A block that was written without an error was aligned, and stands behind what was there.
pub record Appends (kind : ℕ) (body : Bytes) (w w' : Writer Bytes) : Type 0 where
  pub aligned : length body % 4 ≡ 0
  pub out_eq : w'.out ≡ w.out ++ block_bytes kind body
  pub same : w'.interfaces ≡ w.interfaces

block-Appends :
    (kind : ℕ) (body : Bytes) (w : Writer Bytes)
    → (block buffer kind body w).1 ≡ none
    → Appends kind body w (block buffer kind body w).0
unfolding block written
block-Appends kind body w h = ground arith

-- What `Packet` and `New` check.
pub record Recordable (interfaces : ℕ) (e : Entry) : Type 0 where
  pub known : e.id < interfaces
  pub some_frame : 0 < length e.frame
  pub short_frame : length e.frame ≤ max_snap_length
  pub wire_word : e.wire_length < 2 ^ 32
  pub short_comment : length e.comment < 65536
  pub body_aligned : length (packet_body e.id e.frame e.wire_length e.stamp e.comment) % 4 ≡ 0

packet-Recordable :
    (e : Entry) (w : Writer Bytes)
    → (packet buffer e.id e.frame e.wire_length e.stamp e.comment w).1 ≡ none
    → Recordable w.interfaces e
      × ((packet buffer e.id e.frame e.wire_length e.stamp e.comment w).0.out
          ≡ w.out ++ packet_block e)
      × ((packet buffer e.id e.frame e.wire_length e.stamp e.comment w).0.interfaces ≡ w.interfaces)
unfolding packet and_then
packet-Recordable e w h = ground (
  arith,
  block-Appends enhanced_packet (packet_body e.id e.frame e.wire_length e.stamp e.comment) w,
)

pub packets-Recordable :
    (es : List Entry) (w : Writer Bytes)
    → (packets es w).1 ≡ none
    → All (Recordable w.interfaces) es × ((packets es w).0.out ≡ w.out ++ blocks packet_block es)
unfolding packets blocks
packets-Recordable [] w h = (tt, sym (append-nil w.out))
packets-Recordable (e ∷ es) w h =
    let first = packet buffer e.id e.frame e.wire_length e.stamp e.comment w in
    let (quiet, goes_on) = and_then-none first (packets es) h in
    let (good, out_eq, same) = packet-Recordable e w quiet in
    let (all_good, out_eq') = packets-Recordable es first.0 (ap (λ p. p.1) (sym goes_on) ∙ h) in
    (
      (good, subst (λ n. All (Recordable n) es) same all_good),
      ap (λ p. p.0.out) goes_on
          ∙ out_eq'
          ∙ ap (λ out. out ++ blocks packet_block es) out_eq
          ∙ append_assoc w.out (packet_block e) (blocks packet_block es),
    )

-- A name that the writer takes.
pub record Nameable (name : Bytes) : Type 0 where
  pub short : length name < 65536
  pub name_aligned : length (interface_body name) % 4 ≡ 0

describe-Nameable :
    (names : List Bytes) (w : Writer Bytes)
    → (describe buffer names w).1 ≡ none
    → All Nameable names × ((describe buffer names w).0.out ≡ w.out ++ blocks name_block names)
unfolding describe blocks
describe-Nameable [] w h = (tt, sym (append-nil w.out))
describe-Nameable (name ∷ names) w h =
    let first = block buffer interface_description (interface_body name) w in
    let fits : ltb 65535 (length name) ≡ false = ground arith in
    let step : describe buffer (name ∷ names) w ≡ and_then buffer first (describe buffer names) =
      rw fits refl in
    let (quiet, goes_on) =
      and_then-none first (describe buffer names) (ap (λ p. p.1) (sym step) ∙ h) in
    let whole = step ∙ goes_on in
    let a = block-Appends interface_description (interface_body name) w quiet in
    let (all_good, out_eq) = describe-Nameable names first.0 (ap (λ p. p.1) (sym whole) ∙ h) in
    (
      (record { short = ground (arith, fits); name_aligned = a.aligned }, all_good),
      ap (λ p. p.0.out) whole
          ∙ out_eq
          ∙ ap (λ out. out ++ blocks name_block names) a.out_eq
          ∙ append_assoc w.out (name_block name) (blocks name_block names),
    )

-- What `New` leaves when it returns no error.
pub new-Nameable :
    (names : List Bytes) (max_bytes : ℕ)
    → (new buffer [] names max_bytes).1 ≡ none
    → All Nameable names
      × (length names < 2 ^ 32)
      × ((new buffer [] names max_bytes).0.out
          ≡ block_bytes section_header section_body ++ blocks name_block names)
      × ((new buffer [] names max_bytes).0.interfaces ≡ length names)
unfolding new and_then
new-Nameable names max_bytes h =
    let w : Writer Bytes = record {
      out = [];
      max_bytes = max_bytes;
      bytes = 0;
      packets = 0;
      interfaces = 0;
    } in
    let first = block buffer section_header section_body w in
    ground (arith, block-Appends section_header section_body w, describe-Nameable names first.0)
