-- ===== src/Domain/Stream/Ops.antt =====
-- internal/domain/stream.go: `New`, `Fail`, `Add`, `AddSegment`, `drain` and `push`. The methods
-- write through `*s`; here they return the stream that they leave. `now` is what `time.Now` returns.
use socktrail.Base.{
  ℕ, zero, suc, ◌+◌, ◌-◌, ◌^◌, Bool, true, false, not, ◌&&◌, ◌||◌, String, List, [], ◌∷◌, Option,
  none, some, Bytes, length, ltb, leb, ◌==◌, if◌then◌else◌, Res, ok, panic, ◌>>=◌, slice_from,
}
use socktrail.Domain.Stream.State.{
  max_pending_bytes, max_pending_parts, diff32, add32, ahead, back, back_lt, Segment, lookup, put,
  RangeOrder, Parser, Stream,
}

-- `New`, with the parser's zero value.
unfoldable pub new : {S : Type 0} → S → ℕ → ℕ → Stream S
new parser initial_seq now = record {
  parser = parser;
  pending = [];
  last_progress = now;
  gap_since = none;
  pending_bytes = 0;
  expected = initial_seq;
  failed = false;
}

-- The segment that the loop of `drain` chose, the entries that it leaves, and their bytes.
pub record Picked : Type 0 where
  pub chosen : Option Segment
  pub kept : List Segment
  pub bytes : ℕ

-- `d <= 0 && int(-d) < len(segment)`
abbrev pub deliverable : ℕ → Segment → Bool
deliverable expected g =
    let d = diff32 g.seq expected in not (ahead d) && back_lt (back d) (length g.payload)

-- `d < 0 && int(-d) >= len(segment)`
abbrev pub stale : ℕ → Segment → Bool
stale expected g =
    let d = diff32 g.seq expected in leb (2 ^ 31) d && not (back_lt (back d) (length g.payload))

-- The loop over `pending`, in the order of the list: it ends at the first segment that can be
-- delivered, and deletes what lies wholly before `expected` on the way.
unfoldable pub pick : ℕ → List Segment → ℕ → Picked
pick expected [] bytes = record { chosen = none; kept = []; bytes = bytes }
pick expected (g ∷ gs) bytes =
    let without = pick expected gs (bytes - length g.payload) in
    let later = pick expected gs bytes in
    if deliverable expected g
    then record { chosen = some g; kept = gs; bytes = bytes }
    else if stale expected g
    then without
    else record later { kept = g ∷ later.kept }

module _ (P : Parser) (R : RangeOrder) where
  open P use {State, feed, skip, finished, abandon}
  open R use {arrange}

  -- `Fail`
  unfoldable pub fail : String → Stream State → Stream State
  fail reason s = if s.failed || finished s.parser then s else record s {
    failed = true;
    parser = abandon reason s.parser;
    pending = [];
    pending_bytes = 0;
  }

  -- What `push` does once the parser has answered.
  unfoldable pub pushed : Stream State → Option String → Stream State
  unfolding fail
  pushed s (some e) = fail e s
  pushed s none = if finished s.parser then record s { pending = []; pending_bytes = 0 } else s

  unfoldable pub push : ℕ → Bytes → Stream State → Stream State
  push now payload s =
      let (q, e) = feed s.parser payload in
      pushed
        (record s {
          expected = add32 s.expected (length payload);
          last_progress = now;
          gap_since = if ltb 0 s.pending_bytes then some now else s.gap_since;
          parser = q;
        })
        e

  -- What `drain` pushes of the chosen segment, by the distance that it starts before `expected`.
  unfoldable pub push_part : ℕ → Bytes → Option ℕ → Stream State → Res (Stream State)
  push_part now payload none s = panic
  push_part now payload (some k) s = do part ← slice_from payload k; ok (push now part s)

  -- `drain` once it has looked through `pending`: the stream, and whether the loop goes on.
  unfoldable pub drain_chosen :
      ℕ → Stream State → List Segment → ℕ → Option Segment → Res (Stream State × Bool)
  drain_chosen now s kept bytes none = ok (
    record s {
      pending = kept;
      pending_bytes = bytes;
      gap_since = if bytes == 0 then none else s.gap_since;
    },
    false,
  )
  drain_chosen now s kept bytes (some g) = do
    t ←
        push_part now g.payload (back (diff32 g.seq s.expected))
          (record s { pending = kept; pending_bytes = bytes - length g.payload })
    ok (t, true)

  unfoldable pub drain_round : ℕ → Stream State → Res (Stream State × Bool)
  drain_round now s =
      let r = pick s.expected (arrange s.pending) s.pending_bytes in
      drain_chosen now s r.kept r.bytes r.chosen

  -- `drain`; every round takes a segment, so `suc (length pending)` rounds are enough.
  unfoldable pub drain_loop : ℕ → ℕ → Stream State → Res (Stream State)
  drain_loop zero now s = panic
  drain_loop (suc rounds) now s =
      let round = (do
        (t, more) ← drain_round now s
        elim more [ true ↦ drain_loop rounds now t | false ↦ ok t ]) in
      if s.failed then ok s else round

  unfoldable pub drain : ℕ → Stream State → Res (Stream State)
  drain now s = drain_loop (suc (length s.pending)) now s

  -- `Add` of a segment that starts ahead of what is expected.
  unfoldable pub hold : ℕ → ℕ → Bytes → Stream State → Stream State
  hold now seq payload s =
      let started = record s {
        gap_since = elim s.gap_since [ none ↦ some now | some t ↦ some t ];
      } in
      let old = lookup seq s.pending in
      if leb max_pending_parts (length s.pending)
        || ltb max_pending_bytes (s.pending_bytes + length payload)
      then fail "TCP reassembly limit" started
      else if leb (length payload) (length old)
      then started
      else record started {
        pending = put seq payload s.pending;
        pending_bytes = s.pending_bytes - length old + length payload;
      }

  -- `Add` of a segment that starts at or before what is expected, by the distance back.
  unfoldable pub deliver : ℕ → Bytes → Option ℕ → Stream State → Res (Stream State)
  deliver now payload none s = panic
  deliver now payload (some k) s =
      if leb (length payload) k
      then ok s
      else do part ← slice_from payload k; drain now (push now part s)

  -- `Add`
  unfoldable pub add : ℕ → ℕ → Bytes → Stream State → Res (Stream State)
  add now seq payload s =
      if s.failed || finished s.parser || length payload == 0
      then ok s
      else if ahead (diff32 seq s.expected)
      then ok (hold now seq payload s)
      else deliver now payload (back (diff32 seq s.expected)) s

  -- `AddSegment` behind its guards: the captured prefix, then the gap behind it.
  unfoldable pub skip_tail : ℕ → ℕ → Stream State → Res (Stream State)
  skip_tail now missing s =
      if s.failed || finished s.parser
      then ok s
      else let (q, e) = skip s.parser missing in
        let t = record s { parser = q } in
        elim e [
          | some reason ↦ ok (fail reason t)
          | none ↦ drain now (record t { expected = add32 s.expected missing })
        ]

  -- `AddSegment`; `wire` is the length on the wire.
  unfoldable pub add_segment : ℕ → ℕ → Bytes → ℕ → Stream State → Res (Stream State)
  add_segment now seq prefix wire s =
      if leb wire (length prefix)
      then add now seq prefix s
      else if s.failed || finished s.parser || not (ahead (diff32 (add32 seq wire) s.expected))
      then ok s
      else if not (seq == s.expected)
      then ok (fail "TCP payload capture truncated" s)
      else skip_tail now (wire - length prefix)
          (if ltb 0 (length prefix) then push now prefix s else s)
