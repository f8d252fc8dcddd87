-- ===== src/AppProto/Fields.antt =====
-- internal/appproto/detect.go: the result, and the signatures that the detectors share.
use socktrail.Base.{
  ℕ, ◌/◌, bit_and, Bool, true, false, not, ◌&&◌, ◌||◌, String, List, [], ◌∷◌, Option, none, some,
  Bytes, length, take, ltb, leb, ◌==◌, if◌then◌else◌, Res, ok, ◌>>=◌, index, slice, slice_from,
  be16, be32, codes, equal, has_prefix, has_suffix, contains, cut_before,
}

-- `Detection`; `none` for the zero value.
pub record Detection : Type 0 where
  pub name : String
  pub source : String

-- `if check { return detected(name, source) }`, with what follows.
unfoldable pub detect : String → String → Res Bool → Res (Option Detection) → Res (Option Detection)
detect name source check rest = do
  hit ← check
  if hit then ok (some (record { name = name; source = source })) else rest

-- `if name := f(); name != "" { return detected(name, source) }`, with what follows.
unfoldable pub detect_name :
    String → Res (Option String) → Res (Option Detection) → Res (Option Detection)
detect_name source found rest = do
  name ← found
  elim name [ some n ↦ ok (some (record { name = n; source = source })) | none ↦ rest ]

-- `eitherPort`
unfoldable pub either_port : ℕ → ℕ → ℕ → Bool
either_port source destination port = source == port || destination == port

-- `bytes.Equal(b[i:j], text)`
unfoldable pub slice_equal : Bytes → ℕ → ℕ → Bytes → Res Bool
slice_equal b i j text = do part ← slice b i j; ok (equal part text)

-- `httpRequest`
unfoldable pub http_request_of : List Bytes → Bytes → Bool
http_request_of [] payload = false
http_request_of (method ∷ methods) payload =
    let later = http_request_of methods payload in
    if has_prefix payload method && contains (take 256 payload) (codes " HTTP/1.")
    then true
    else later

unfoldable pub http_request : Bytes → Bool
unfolding http_request_of
http_request payload =
    http_request_of
      (codes "GET "
        ∷ codes "POST "
        ∷ codes "PUT "
        ∷ codes "HEAD "
        ∷ codes "DELETE "
        ∷ codes "PATCH "
        ∷ codes "OPTIONS "
        ∷ codes "CONNECT "
        ∷ [])
      payload

-- `dnsMessage`
unfoldable pub dns_message : Bytes → Res Bool
dns_message payload = if ltb (length payload) 12 then ok false else do
  flags ← index payload 2
  code ← index payload 3
  if not (bit_and flags 0x78 == 0) || not (bit_and code 0x40 == 0) then ok false else do
    questions ← be16 payload 4
    answers ← be16 payload 6
    ok (leb questions 10 && (ltb 0 questions || ltb 0 answers))

-- `openVPNReset`
unfoldable pub open_vpn_reset : ℕ → Bool
open_vpn_reset first = let opcode = first / 8 in opcode == 7 || opcode == 8 || opcode == 10

-- `kerberosTag`
unfoldable pub kerberos_tag : ℕ → Bool
kerberos_tag tag = (leb 0x6a tag && leb tag 0x6f) || tag == 0x7e

-- `rpcCall`, behind the record marker.
unfoldable pub rpc_program : ℕ → Option String
rpc_program program =
    if program == 100003
    then some "NFS"
    else if program == 100000
    then some "RPC portmapper"
    else if program == 100005
    then some "NFS mount"
    else if program == 100021
    then some "NFS lock"
    else none

unfoldable pub rpc_message : Bytes → Res (Option String)
unfolding rpc_program
rpc_message payload = if ltb (length payload) 24 then ok none else do
  message_type ← be32 payload 4
  version ← be32 payload 8
  if not (message_type == 0) || not (version == 2)
      then ok none
      else do program ← be32 payload 12; ok (rpc_program program)

-- `rpcCall`
unfoldable pub rpc_call : Bytes → Bool → Res (Option String)
unfolding rpc_message
rpc_call payload false = rpc_message payload
rpc_call payload true =
    if ltb (length payload) 4 then ok none else do rest ← slice_from payload 4; rpc_message rest

-- `textProtocol` on the line.
unfoldable pub text_line : Bytes → Option String
text_line line =
    if has_prefix line (codes "SIP/2.0 ")
      || (has_suffix line (codes " SIP/2.0") && contains line (codes " sip:"))
    then some "SIP"
    else if has_prefix line (codes "RTSP/1.")
        || (contains line (codes " rtsp://") && contains line (codes " RTSP/1."))
    then some "RTSP"
    else none

-- `textProtocol`
unfoldable pub text_protocol : Bytes → Res (Option String)
unfolding text_line
text_protocol payload = if length payload == 0 then ok none else do
  first ← index payload 0
  if ltb first b'A' || ltb b'Z' first
      then ok none
      else ok (text_line (cut_before (codes "\r\n") (take 256 payload)))
