-- ===== src/AppProto/Safety/Fields.antt =====
-- internal/appproto/detect.go: the bounds of the signatures that TCP and UDP share.
use socktrail.Base.{
  ℕ, ◌≤◌, Bool, true, false, String, Option, Bytes, length, drop, arith, Res, Runs, index_ok,
  slice_ok, slice_from_ok, be16_ok, be32_ok,
}
use socktrail.AppProto.Fields.{
  Detection, detect, detect_name, slice_equal, dns_message, rpc_message, rpc_call, text_protocol,
}

pub detect-Runs :
    (name source : String) (check : Res Bool) (rest : Res (Option Detection))
    → Runs check
    → Runs rest
    → Runs (detect name source check rest)
unfolding detect
detect-Runs name source check rest h k = ground (arith, h, k)

pub detect_name-Runs :
    (source : String) (found : Res (Option String)) (rest : Res (Option Detection))
    → Runs found
    → Runs rest
    → Runs (detect_name source found rest)
unfolding detect_name
detect_name-Runs source found rest h k = ground (arith, h, k)

pub slice_equal-Runs :
    (b : Bytes) (i j : ℕ) (text : Bytes) → i ≤ j → j ≤ length b → Runs (slice_equal b i j text)
unfolding slice_equal
slice_equal-Runs b i j text h k = ground (arith, slice_ok b i j)

pub dns_message-Runs : (payload : Bytes) → Runs (dns_message payload)
unfolding dns_message
dns_message-Runs payload =
    ground (arith, index_ok payload 2, index_ok payload 3, be16_ok payload 4, be16_ok payload 6)

rpc_message-Runs : (payload : Bytes) → Runs (rpc_message payload)
unfolding rpc_message
rpc_message-Runs payload = ground (arith, be32_ok payload 4, be32_ok payload 8, be32_ok payload 12)

pub rpc_call-Runs : (payload : Bytes) (stream : Bool) → Runs (rpc_call payload stream)
unfolding rpc_call
rpc_call-Runs payload false = rpc_message-Runs payload
rpc_call-Runs payload true =
    ground (arith, slice_from_ok payload 4, rpc_message-Runs (drop 4 payload))

pub text_protocol-Runs : (payload : Bytes) → Runs (text_protocol payload)
unfolding text_protocol
text_protocol-Runs payload = ground (arith, index_ok payload 0)
