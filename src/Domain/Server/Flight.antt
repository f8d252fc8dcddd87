-- ===== src/Domain/Server/Flight.antt =====
-- internal/domain/tls_server.go, serverFlight: stop, feed, messages and add, and the stream's
-- AddServer and Alert. The methods write through pointers; here they return what they leave. A run-time
-- panic is `panic`, and a returned error stands beside the state that it leaves.
use socktrail.Base.{
  ℕ, zero, suc, ◌+◌, ◌-◌, ◌*◌, ◌^◌, Bool, true, false, not, ◌&&◌, ◌||◌, String, List, [], ◌∷◌, ◌++◌,
  Option, none, some, Bytes, length, ltb, leb, ◌==◌, if◌then◌else◌, Res, ok, err, panic, ◌>>=◌,
  index, slice, slice_from, be16, be24, is_some,
}
use socktrail.Domain.Stream.State.{
  max_pending_parts, diff32, add32, ahead, back, back_lt, Segment, lookup, put, RangeOrder,
}
use socktrail.Domain.Server.Certificate.{certificate_names}
use socktrail.Domain.Server.Hello.{Chosen, parse_server_hello, tls_version_name}

abbrev pub max_server_flight : ℕ
max_server_flight = 64 * 1024

-- `serverFlight`; the zero time is `none`.
pub record Flight : Type 0 where
  pub expected : ℕ
  pub started : Bool
  pub done : Bool
  pub record_bytes : Bytes
  pub handshake : Bytes
  pub pending : List Segment
  pub pending_bytes : ℕ
  pub gap_since : Option ℕ

-- What the code reads and writes of the client's evidence and its parser.
pub record Evidence : Type 0 where
  pub is_tls : Bool
  pub client_done : Bool
  pub no_handshake : Bool
  pub sni : Bytes
  pub tls_version : Bytes
  pub server_alpn : Bytes
  pub certificate : List Bytes
  pub alert : Bytes

-- The state that is left, and the error that is returned.
pub record Outcome : Type 0 where
  pub flight : Flight
  pub evidence : Evidence
  pub error : Option String

unfoldable pub stop : Flight → Flight
stop f = record f {
  done = true;
  record_bytes = [];
  handshake = [];
  pending = [];
  pending_bytes = 0;
}

unfoldable pub answer : Flight → Evidence → Res Outcome
answer f e = ok (record { flight = f; evidence = e; error = none })

unfoldable pub refuse : String → Flight → Evidence → Res Outcome
refuse reason f e = ok (record { flight = f; evidence = e; error = some reason })

-- A Certificate message.
unfoldable pub certificate_message : Bytes → Flight → Evidence → Res Outcome
unfolding stop answer
certificate_message body f e = if ltb (length body) 6 then answer f e else do
  leaf ← be24 body 3
  if ltb (length body) (6 + leaf) then answer f e else do
    certificate ← slice body 6 (6 + leaf)
    names ← certificate_names certificate
    answer (stop f) (record e { certificate = names })

-- A ServerHello that was parsed, or its error; `next` is the rest of the loop.
unfoldable pub hello_message :
    ℕ → Flight → Evidence → (Flight → Evidence → Res Outcome) → Res Chosen → Res Outcome
unfolding stop answer refuse
hello_message size f e next panic = panic
hello_message size f e next (err reason) = refuse reason f e
hello_message size f e next (ok chosen) = do
  rest ← slice_from f.handshake (4 + size)
  let e' = record e { tls_version = tls_version_name chosen.version; server_alpn = chosen.alpn }
  if leb 0x0304 chosen.version || not (length e.sni == 0)
      then answer (stop (record f { handshake = rest })) e'
      else next (record f { handshake = rest }) e'

-- The loop of `messages`; every turn that goes on takes a message of at least four bytes.
unfoldable pub messages_loop : ℕ → Flight → Evidence → Res Outcome
unfolding certificate_message hello_message
messages_loop zero f e = panic
messages_loop (suc turns) f e = if ltb (length f.handshake) 4 || f.done then answer f e else do
  kind ← index f.handshake 0
  body ← slice_from f.handshake 4
  size ← be24 f.handshake 1
  if kind == 11
      then certificate_message body f e
      else if ltb (length body) size
      then answer f e
      else if kind == 2
      then (do
        hello ← slice body 0 size
        hello_message size f e (λ f' e'. messages_loop turns f' e') (parse_server_hello hello))
      else answer (stop f) e

-- `messages`
unfoldable pub messages : Flight → Evidence → Res Outcome
unfolding messages_loop
messages f e = messages_loop (suc (length f.handshake)) f e

-- The loop of `feed` behind a record; it ends at an error.
unfoldable pub behind_record : (Flight → Evidence → Res Outcome) → Outcome → Res Outcome
behind_record next r = if is_some r.error then ok r else next r.flight r.evidence

-- A record that is whole.
unfoldable pub whole_record :
    ℕ → ℕ → Flight → Evidence → (Flight → Evidence → Res Outcome) → Res Outcome
unfolding messages behind_record stop answer refuse
whole_record kind size f e next =
    if not (kind == 22)
    then answer (stop f) e
    else if ltb max_server_flight (length f.handshake + size)
    then refuse "TLS server flight size limit" f e
    else do
      part ← slice f.record_bytes 5 (5 + size)
      rest ← slice_from f.record_bytes (5 + size)
      r ← messages (record f { handshake = f.handshake ++ part; record_bytes = rest }) e
      behind_record next r

-- The loop of `feed`; every turn that goes on takes a record.
unfoldable pub feed_loop : ℕ → Flight → Evidence → Res Outcome
unfolding whole_record
feed_loop zero f e = panic
feed_loop (suc turns) f e = if ltb (length f.record_bytes) 5 || f.done then answer f e else do
  kind ← index f.record_bytes 0
  size ← be16 f.record_bytes 3
  major ← index f.record_bytes 1
  if not (major == 3) || size == 0 || ltb 18432 size
      then refuse "invalid TLS record" f e
      else if ltb (length f.record_bytes) (5 + size)
      then answer f e
      else whole_record kind size f e (λ f' e'. feed_loop turns f' e')

-- `feed`
unfoldable pub feed : Bytes → Flight → Evidence → Res Outcome
unfolding feed_loop refuse
feed b f e =
    if ltb max_server_flight (length f.record_bytes + length b)
    then refuse "TLS server flight size limit" f e
    else feed_loop (suc (length (f.record_bytes ++ b)))
        (record f { record_bytes = f.record_bytes ++ b }) e

-- `add` behind the trimming of what was there before.
unfoldable pub add_new : Bytes → Bool → Flight → Evidence → Res (Flight × Evidence)
unfolding feed stop
add_new b truncated f e = do
  r ← feed b (record f { expected = add32 f.expected (length b) }) e
  ok (if is_some r.error || truncated then (stop r.flight, r.evidence) else (r.flight, r.evidence))

-- `payload[-d:]`, where `int(-d)` is negative for the least int32.
unfoldable pub add_behind : Bytes → Bool → Flight → Evidence → Option ℕ → Res (Flight × Evidence)
unfolding add_new
add_behind b truncated f e none = panic
add_behind b truncated f e (some k) = do rest ← slice_from b k; add_new rest truncated f e

-- `add`
unfoldable pub add : ℕ → Bytes → Bool → Flight → Evidence → Res (Flight × Evidence)
unfolding add_behind
add seq b truncated f e =
    let d = diff32 seq f.expected in
    if leb (2 ^ 31) d
    then (if not (back_lt (back d) (length b))
        then ok (f, e)
        else add_behind b truncated f e (back d))
    else add_new b truncated f e

-- The first segment held back that does not start ahead of `expected`, and the others.
unfoldable pub take_ready : ℕ → List Segment → Option (Segment × List Segment)
take_ready expected [] = none
take_ready expected (g ∷ gs) =
    let later = take_ready expected gs in
    if not (ahead (diff32 g.seq expected))
    then some (g, gs)
    else elim later [ none ↦ none | some r ↦ some (r.0, g ∷ r.1) ]

module _ (R : RangeOrder) where
  open R use {arrange}

  -- The loop that delivers what was held back; every turn takes a segment.
  unfoldable pub deliver_loop : ℕ → Flight → Evidence → Res (Flight × Evidence)
  unfolding add take_ready
  deliver_loop zero f e = panic
  deliver_loop (suc turns) f e =
      if f.done then ok (f, e) else elim (take_ready f.expected (arrange f.pending)) [
        | none ↦ ok (f, e)
        | some r ↦ do
          (f', e') ←
              add r.0.seq r.0.payload false
                (record f { pending = r.1; pending_bytes = f.pending_bytes - length r.0.payload }) e
          deliver_loop turns f' e'
      ]

  -- A segment ahead of a gap. The map `pending` is nil as long as `gap_since` is `none`.
  unfoldable pub hold : ℕ → ℕ → Bytes → ℕ → Flight → Flight
  unfolding stop put lookup
  hold now seq b size f =
      let old = lookup seq f.pending in
      if ltb (length b) size
        || leb max_pending_parts (length f.pending)
        || ltb max_server_flight (f.pending_bytes + length b)
      then stop f
      else if ltb (length old) (length b)
      then record f {
        pending = put seq b f.pending;
        pending_bytes = f.pending_bytes + (length b - length old);
        gap_since = if is_some f.gap_since then f.gap_since else some now;
      }
      else f

  -- `AddServer` on a flight that has started.
  unfoldable pub add_started : ℕ → ℕ → Bytes → ℕ → Flight → Evidence → Res (Flight × Evidence)
  unfolding hold add deliver_loop
  add_started now seq b size f e =
      if ahead (diff32 seq f.expected) then ok (hold now seq b size f, e) else do
        (f1, e1) ← add seq b (ltb (length b) size) f e
        (f2, e2) ← deliver_loop (suc (length f1.pending)) f1 e1
        ok (if ltb 0 (length f2.pending) then record f2 { gap_since = some now } else f2, e2)

  -- `AddServer`; `now` is what `time.Now` returns.
  unfoldable pub add_server : ℕ → ℕ → Bytes → ℕ → Flight → Evidence → Res (Flight × Evidence)
  unfolding add_started
  add_server now seq b size f e =
      if f.done || length b == 0 || not e.is_tls || not e.client_done || e.no_handshake
      then ok (f, e)
      else if f.started
      then add_started now seq b size f e
      else if ltb (length b) 2
      then ok (f, e)
      else do
        kind ← index b 0
        major ← index b 1
        if (not (kind == 22) && not (kind == 21)) || not (major == 3)
            then ok (f, e)
            else add_started now seq b size (record f { started = true; expected = seq }) e
