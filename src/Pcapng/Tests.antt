-- ===== src/Pcapng/Tests.antt =====
-- A recording of two packets, and the theorems at it.
use socktrail.Base.{
  List, ◌^◌, ◌+◌, ◌≡◌, refl, ◌∷◌, [], none, ok, Bytes, arith, map, length, length-append, replicate,
}
use socktrail.Pcapng.Writer.{
  padded, option_bytes, block_bytes, section_body, interface_body, comment_options, packet_body,
  written, block, and_then, describe, new, packet,
}
use socktrail.Pcapng.Reader.{read}
use socktrail.Pcapng.Written.{buffer, Entry, packets}
use socktrail.Pcapng.RoundTrip.{go_on, recorded, record_all, read-record_all}
use socktrail.Pcapng.Limit.{Holds, Within, new-Within, packet-Within}

abbrev names : List Bytes
names = (101 ∷ 49 ∷ []) ∷ (108 ∷ 111 ∷ []) ∷ []

abbrev entries : List Entry
entries =
    (record {
      id = 1;
      frame = 1 ∷ 2 ∷ 3 ∷ 4 ∷ 5 ∷ [];
      wire_length = 9;
      stamp = 2 ^ 40 + 3;
      comment = [];
    })
    ∷ (record { id = 0; frame = 7 ∷ []; wire_length = 0; stamp = 8; comment = 104 ∷ 105 ∷ [] })
    ∷ []

record_all-entries : (record_all names 4000 entries).1 ≡ none
unfolding new packet packets and_then describe block written block_bytes section_body interface_body
    comment_options packet_body option_bytes padded
record_all-entries = refl

read-record_all_example :
    read go_on (record_all names 4000 entries).0.out
    ≡ record { visited = map (recorded names) entries; end = ok tt }
read-record_all_example =
    read-record_all names 4000 entries (λ e. absurd (cc), (λ e. absurd (cc), tt))
      (omega arith, (omega arith, tt)) record_all-entries

abbrev buffer_size : Holds buffer
buffer_size = record {
  held = length;
  grows = λ out b. length-append out b;
  honest = λ out b. omega arith;
}

new-Within_example : Within buffer_size 100 0 (new buffer [] names 100).0
new-Within_example = new-Within buffer buffer_size 100 0 (omega arith) (omega arith) [] names refl

packet-Within_example :
    Within buffer_size 100 3
      (packet buffer 1 (7 ∷ 8 ∷ []) 60 5 [] (record {
        out = replicate 71 0;
        max_bytes = 100;
        bytes = 68;
        packets = 0;
        interfaces = 2;
      })).0
packet-Within_example =
    packet-Within buffer buffer_size 100 3 (omega arith) (omega arith) 1 (7 ∷ 8 ∷ []) 60 5 []
      (record { out = replicate 71 0; max_bytes = 100; bytes = 68; packets = 0; interfaces = 2 })
      (record { limited = refl; counted = refl; kept = omega arith })
