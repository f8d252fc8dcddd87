-- ===== src/Lib.antt =====
-- socktrail reads packets from Linux interfaces, groups them into flows, and finds out which process
-- and which domain name each flow belongs to. This library models the parts of it that read bytes
-- from the network or from a file, and proves what makes them correct.
--
-- internal/capture/packet.go decodes each frame into a packet with its addresses, ports and payload.
-- Of a TCP connection's first payloads, internal/domain/stream.go puts one direction back in order
-- and feeds a parser; internal/domain/tls.go is the parser of a TLS ClientHello, whose fields
-- internal/domain/ja4.go turns into a fingerprint. internal/domain/dns.go reads DNS answers and
-- remembers them, as a hint for connections that tell no name. internal/domain/tls_server.go reads the
-- start of the server's reply. internal/quicinitial/initial.go opens the client's Initial packets of
-- QUIC and puts the ClientHello in them together, which internal/domain/quic.go turns into evidence.
-- internal/appproto/detect.go names the protocol of a payload. internal/pcapng writes captured frames
-- to a file and reads them back. internal/app/trend.go keeps a sample a second for each row of a table.
--
-- The files, by directory:
--   Base       lists and tests on native numbers; the outcome of Go code (a value, an error or a
--              panic); byte slices with indexing, slicing and integers in either byte order.
--   Capture    packet.go. Packet, Quoted, Transport and Network hold its functions, under their names
--              (decodeTransport is decode_transport); Safety and Frames hold the proofs.
--   Domain     Hostname: validHostname, normalizeName (stream.go) and printable (tls.go); Cursor: the
--              cursor of tls.go; Address: netip.Addr.Unmap on the bytes of an address; Tls: Hello
--              (parseClientHello, parseSNI, parseALPN) and Records (tlsParser.feed), with proofs in
--              Printable and Fragments; Ja4: ja4.go; Dns: Message and Cache for dns.go, with proofs in
--              Safety and Bounds.
--   Domain/Stream  Stream of stream.go: State, Ops (New, Add, AddSegment, drain, push, Fail); Pick,
--              Rounds, Accounting, Delivery and Panic hold the proofs.
--   Domain/Server  tls_server.go: Der (derElement), Certificate (certificateNames), Hello
--              (parseServerHello, tlsVersionName), Flight (serverFlight and AddServer) and Alert; Names,
--              Reading, Feeding, Reassembly, Delivery and AddServer hold the proofs. Domain/Quic: quic.go.
--   Domain/Proxy  socks5Handshake and socks4Request (Socks), proxyV2Header and proxyV2Authority (Header)
--              of stream.go; Bounds, Stable and Authority hold the proofs.
--   Quic       initial.go: Wire (readVarint, splitLongPacket), Crypto (addCrypto, pullParts,
--              clientHello), Frames, Keys (deriveClientKeys, expandLabel, packetNumber) and Tracker (open,
--              Add, Fail, Tick). Pieces, Pull, Prefix and Complete are about pieces in any order, Safety
--              about any bytes at all, Number about packet numbers, Once about sequences of calls.
--   AppProto   detect.go: Fields, Tcp and Udp; Safety and Direction hold the proofs.
--   Pcapng     Writer and Reader for writer.go and reader.go; Options, Blocks, Written, RoundTrip and
--              Limit hold the proofs.
--   App        Trend: the ring of samples of internal/app/trend.go; History: its proofs.
--
-- A slice is the list of its bytes, a string is its bytes, and an index or a slice out of range is the
-- outcome panic. A method with a pointer receiver takes the state and returns the one that it leaves.
-- A map is an association list; where Go visits a map in any order, the order is a parameter
-- (Domain/Stream, Domain/Server, Quic) or makes no difference. Times are numbers.
-- SHA-256, HKDF, AES and GCM, an io.Writer and the parser behind a stream are parameters.
--
-- A loop recurs on fuel: one round more than there are bytes, since each round takes a byte at
-- least; the loops over a map get one round more than it has parts.
-- The rounds given are enough. Where they would run out the model panics, or, in the loop over the
-- blocks of Pcapng/Reader, ends with an error.
--
-- Not modelled: Stream.Tick and the parsers of HTTP, HTTP/2 and version 1 of the PROXY
-- protocol, the rest of internal/app, the eBPF probes and the sockets, which are mostly calls of the
-- system; process and address lookups; configuration and packaging.
pub mod Base
pub mod Capture
pub mod Domain
pub mod Pcapng
pub mod App
pub mod AppProto
pub mod Quic
