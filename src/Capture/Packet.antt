-- ===== src/Capture/Packet.antt =====
-- internal/capture/packet.go: the constants, and the record that decoding fills in.
use socktrail.Base.{ℕ, Bool, false, [], ◌∷◌, ◌-◌, ◌+◌, ◌*◌, Bytes}

-- `netip.Addr`: the zero value, four bytes, or sixteen bytes.
pub data Addr : Type 0 where
  no_addr : Addr
  ipv4 : Bytes → Addr
  ipv6 : Bytes → Addr

-- `netip.AddrPort`
pub record AddrPort : Type 0 where
  pub addr : Addr
  pub port : ℕ

abbrev pub no_addr_port : AddrPort
no_addr_port = record { addr = no_addr; port = 0 }

abbrev pub ethernet_header : ℕ
ethernet_header = 14

abbrev pub ether_type_ipv4 : ℕ
ether_type_ipv4 = 0x0800

abbrev pub ether_type_arp : ℕ
ether_type_arp = 0x0806

abbrev pub ether_type_ipv6 : ℕ
ether_type_ipv6 = 0x86dd

abbrev pub ether_type_vlan : ℕ
ether_type_vlan = 0x8100

abbrev pub ether_type_qinq : ℕ
ether_type_qinq = 0x88a8

abbrev pub ether_type_pppoe : ℕ
ether_type_pppoe = 0x8864

abbrev pub ether_type_llc : ℕ
ether_type_llc = 1

abbrev pub max_tcp_payload : ℕ
max_tcp_payload = 16 * 1024

abbrev pub snap_length : ℕ
snap_length = max_tcp_payload + 256

abbrev pub ip_snap_length : ℕ
ip_snap_length = snap_length - 22

-- `Interface`, `Frame`, `FrameLen` and `CapturedAt` are left out: the socket reader sets them, and
-- decoding neither reads nor writes them.
pub record Packet : Type 0 where
  pub source : AddrPort
  pub destination : AddrPort
  pub protocol : ℕ
  pub ip_bytes : ℕ
  pub ether_type : ℕ
  pub arp_op : ℕ
  pub hardware_addr : Bytes
  pub tcp_seq : ℕ
  pub tcp_ack : ℕ
  pub payload : Bytes
  pub payload_len : ℕ
  pub payload_truncated : Bool
  pub outgoing : Bool
  pub truncated : Bool
  pub has_ports : Bool
  pub syn : Bool
  pub ack : Bool
  pub fin : Bool
  pub rst : Bool
  pub fragmented : Bool
  pub fragment_id : ℕ
  pub fragment_offset : ℕ
  pub icmp_type : ℕ
  pub icmp_code : ℕ
  pub icmp_id : ℕ
  pub icmp_seq : ℕ
  pub icmp_has_echo : Bool
  pub icmp_value : ℕ
  pub icmp_target : Addr
  pub quoted_protocol : ℕ
  pub quoted_source : AddrPort
  pub quoted_destination : AddrPort

-- `Packet{}`
abbrev pub empty_packet : Packet
empty_packet = record {
  source = no_addr_port;
  destination = no_addr_port;
  protocol = 0;
  ip_bytes = 0;
  ether_type = 0;
  arp_op = 0;
  hardware_addr = 0 ∷ 0 ∷ 0 ∷ 0 ∷ 0 ∷ 0 ∷ [];
  tcp_seq = 0;
  tcp_ack = 0;
  payload = [];
  payload_len = 0;
  payload_truncated = false;
  outgoing = false;
  truncated = false;
  has_ports = false;
  syn = false;
  ack = false;
  fin = false;
  rst = false;
  fragmented = false;
  fragment_id = 0;
  fragment_offset = 0;
  icmp_type = 0;
  icmp_code = 0;
  icmp_id = 0;
  icmp_seq = 0;
  icmp_has_echo = false;
  icmp_value = 0;
  icmp_target = no_addr;
  quoted_protocol = 0;
  quoted_source = no_addr_port;
  quoted_destination = no_addr_port;
}
