-- ===== src/Domain/Stream/Delivery.antt =====
-- internal/domain/stream.go: what the parser is fed, by segments in any order.
use socktrail.Base.{
  ℕ, zero, suc, ◌+◌, ◌-◌, ◌≤◌, ◌<◌, ◌^◌, ◌%◌, ◌≡◌, inl, inr, refl, sym, ap, subst, ◌∙◌, Bool, true,
  false, ◌||◌, String, List, [], ◌∷◌, ◌++◌, Option, none, some, Bytes, length, take, drop,
  length-drop, drop-take, drop-drop, take-append-take, All, leb, ltb, arith, tests, ltb→lt, ◌==◌,
  Bool-cases, Res, ok, ◌>>=◌, Ensures, Ensures-bind, Ensures-weaken, slice_from_ok,
}
use socktrail.Domain.Stream.State.{
  diff32, ahead, back, back_lt, max_pending_parts, max_pending_bytes, lookup, Segment, RangeOrder,
  Parser, Stream,
}
use socktrail.Domain.Stream.Ops.{
  pick, deliverable, new, fail, pushed, push, push_part, drain_chosen, drain_round, drain_loop,
  drain, hold, deliver, add,
}
use socktrail.Domain.Stream.Pick.{All-perm, OfChosen, pick-All, pick-deliverable}
use socktrail.Domain.Stream.Accounting.{put-All}
use socktrail.Domain.Stream.Rounds.{Fewer, drain_round-Fewer}

module _ (P : Parser) where
  open P use {State, feed}

  -- `q` is the parser after it was fed these bytes, in some chunks, from `start` on.
  pub data Fed (start : State) : State → Bytes → Type 0 where
    unfed : Fed start start []
    then_fed :
        {p : State} {bytes : Bytes}
        → Fed start p bytes
        → (part : Bytes) → Fed start (feed p part).0 (bytes ++ part)

-- The stream as it was sent: its first sequence number and its bytes.
pub record Sent : Type 0 where
  pub first : ℕ
  pub bytes : Bytes
  pub short : length bytes < 2 ^ 31
  pub word : first < 2 ^ 32

-- The bytes of the stream from `k` on, under their sequence number.
pub record IsPiece (sent : Sent) (g : Segment) : Type 0 where
  pub start : ℕ
  pub seq_eq : g.seq ≡ (sent.first + start) % 2 ^ 32
  pub inside : start + length g.payload ≤ length sent.bytes
  pub payload_eq : g.payload ≡ take (length g.payload) (drop start sent.bytes)

module _ (P : Parser) (start : P.State) (sent : Sent) where
  -- The parser has been fed the first `done` bytes of the stream, and no other.
  pub record HasFed (done : ℕ) (s : Stream P.State) : Type 0 where
    pub expected_eq : s.expected ≡ (sent.first + done) % 2 ^ 32
    pub reached : done ≤ length sent.bytes
    pub pieces : All (IsPiece sent) s.pending
    pub fed : s.failed ≡ false → Fed P start s.parser (take done sent.bytes)

  -- At least `done` bytes have been fed.
  abbrev pub HasFedFrom : ℕ → Stream P.State → Type 0
  HasFedFrom done s = (more : ℕ) × (done ≤ more) × HasFed more s

-- A piece from `start`, with what lies before `done` cut off, is the piece from `done`.
piece_part :
    (sent : Sent) (g : Segment) (p : IsPiece sent g) (done : ℕ)
    → p.start ≤ done
    → drop (done - p.start) g.payload
      ≡ take (length g.payload - (done - p.start)) (drop done sent.bytes)
piece_part sent g p done h =
    ap (drop (done - p.start)) p.payload_eq
    ∙ drop-take (done - p.start) (length g.payload) (drop p.start sent.bytes)
    ∙ ap (take (length g.payload - (done - p.start)))
        (drop-drop (done - p.start) p.start sent.bytes ∙ ap (λ k. drop k sent.bytes) sum_eq)
  where
    sum_eq : p.start + (done - p.start) ≡ done
    sum_eq = omega arith

-- A segment that is not ahead starts `k` bytes back, `k` below 2 ^ 31.
back_of :
    (sent : Sent) (g : Segment) (p : IsPiece sent g) (done expected : ℕ)
    → expected ≡ (sent.first + done) % 2 ^ 32
    → done ≤ length sent.bytes
    → ahead (diff32 g.seq expected) ≡ false
    → (p.start ≤ done) × (back (diff32 g.seq expected) ≡ some (done - p.start))
back_of sent g p done expected e h n = ground (arith, p.seq_eq, p.inside, sent.short, sent.word)

module _ (P : Parser) (R : RangeOrder) (start : P.State) (sent : Sent) where
  open P use {State, feed, finished}
  open R use {arrange, arrange_perm}

  fail-HasFed :
      (done : ℕ) (reason : String) (s : Stream State)
      → HasFed P start sent done s
      → HasFed P start sent done (fail P R reason s)
  unfolding fail
  fail-HasFed done reason s v = elim (Bool-cases (s.failed || finished s.parser)) [
    | inl y ↦ rw y v
    | inr n ↦ rw n (record {
      expected_eq = v.expected_eq;
      reached = v.reached;
      pieces = tt;
      fed = λ e. absurd (cc e);
    })
  ]

  pushed-HasFed :
      (done : ℕ) (s : Stream State) (e : Option String)
      → HasFed P start sent done s
      → HasFed P start sent done (pushed P R s e)
  unfolding pushed
  pushed-HasFed done s (some e) v = fail-HasFed done e s v
  pushed-HasFed done s none v = elim (Bool-cases (finished s.parser)) [
    | inl y ↦
        rw y (record { expected_eq = v.expected_eq; reached = v.reached; pieces = tt; fed = v.fed })
    | inr n ↦ rw n v
  ]

  push-HasFed :
      (done now : ℕ) (part : Bytes) (s : Stream State)
      → HasFed P start sent done s
      → done + length part ≤ length sent.bytes
      → part ≡ take (length part) (drop done sent.bytes)
      → HasFed P start sent (done + length part) (push P R now part s)
  unfolding push
  push-HasFed done now part s v h e = pushed-HasFed (done + length part) _ _ (record {
    expected_eq = omega (arith, v.expected_eq);
    reached = h;
    pieces = v.pieces;
    fed = λ alive. subst (Fed P start (feed s.parser part).0) whole (then_fed (v.fed alive) part);
  })
    where
      whole : take done sent.bytes ++ part ≡ take (done + length part) sent.bytes
      whole = ap (λ x. take done sent.bytes ++ x) e ∙ take-append-take done (length part) sent.bytes

  -- Pushing what a piece has from `done` on.
  push_part-HasFed :
      (done now : ℕ) (g : Segment) (p : IsPiece sent g) (s : Stream State)
      → HasFed P start sent done s
      → p.start ≤ done
      → done - p.start < length g.payload
      → HasFedFrom P start sent done (push P R now (drop (done - p.start) g.payload) s)
  push_part-HasFed done now g p s v h k =
      let part = drop (done - p.start) g.payload in
      let part_eq = piece_part sent g p done h in
      let size : length part ≡ length g.payload - (done - p.start) =
        length-drop (done - p.start) g.payload in
      (
        done + length part,
        omega arith,
        push-HasFed done now part s v (omega (arith, size, p.inside))
            (part_eq ∙ ap (λ n. take n (drop done sent.bytes)) (sym size)),
      )

  -- `push_part` at a segment that the loop chose, or that `Add` was given, when it is not ahead.
  push_part-HasFedFrom :
      (done now : ℕ) (g : Segment) (p : IsPiece sent g) (s : Stream State)
      → HasFed P start sent done s
      → ahead (diff32 g.seq s.expected) ≡ false
      → back_lt (back (diff32 g.seq s.expected)) (length g.payload) ≡ true
      → Ensures
          (HasFedFrom P start sent done)
          (push_part P R now g.payload (back (diff32 g.seq s.expected)) s)
  unfolding push_part
  push_part-HasFedFrom done now g p s v n lt =
      let (h, e) = back_of sent g p done s.expected v.expected_eq v.reached n in
      let near : done - p.start < length g.payload = ltb→lt _ _ (rw e at lt) in
      rw (e, slice_from_ok g.payload (done - p.start) (omega arith))
        (push_part-HasFed done now g p s v h near)

  drain_round-HasFedFrom :
      (done now : ℕ) (s : Stream State)
      → HasFed P start sent done s
      → Ensures (λ r. HasFedFrom P start sent done r.0) (drain_round P R now s)
  unfolding drain_round
  drain_round-HasFedFrom done now s v =
      let gs = arrange s.pending in
      let r = pick s.expected gs s.pending_bytes in
      let near =
        pick-All (IsPiece sent) s.expected gs s.pending_bytes
          (All-perm (IsPiece sent) (arrange_perm s.pending) v.pieces) in
      go r.kept r.bytes r.chosen near.0 near.1 (pick-deliverable s.expected gs s.pending_bytes)
    where
      go :
          (kept : List Segment) (bytes : ℕ) (c : Option Segment)
          → All (IsPiece sent) kept
          → OfChosen (IsPiece sent) c
          → OfChosen (λ g. deliverable s.expected g ≡ true) c
          → Ensures (λ r. HasFedFrom P start sent done r.0) (drain_chosen P R now s kept bytes c)
      go kept bytes none k w d =
          unfold drain_chosen in
          (
            done,
            omega arith,
            record { expected_eq = v.expected_eq; reached = v.reached; pieces = k; fed = v.fed },
          )
      go kept bytes (some g) k w d =
          unfold drain_chosen in
          Ensures-bind (HasFedFrom P start sent done) (λ r. HasFedFrom P start sent done r.0) _ _
            (push_part-HasFedFrom done now g w _
              (record { expected_eq = v.expected_eq; reached = v.reached; pieces = k; fed = v.fed })
              (ground arith) (ground arith))
            (λ t f. f)

  HasFedFrom-trans :
      (done : ℕ) (s : Stream State) (f : HasFedFrom P start sent done s) (m : Res (Stream State))
      → Ensures (HasFedFrom P start sent f.0) m
      → Ensures (HasFedFrom P start sent done) m
  HasFedFrom-trans done s f m h =
      Ensures-weaken (HasFedFrom P start sent f.0) (HasFedFrom P start sent done) m h
        (λ t k. (k.0, omega (arith, f.1, k.1), k.2))

  drain_loop-HasFedFrom :
      (rounds done now : ℕ) (s : Stream State)
      → length s.pending < rounds
      → HasFed P start sent done s
      → Ensures (HasFedFrom P start sent done) (drain_loop P R rounds now s)
  unfolding drain_loop
  drain_loop-HasFedFrom zero done now s left v = absurd (omega arith)
  drain_loop-HasFedFrom (suc rounds) done now s left v = elim (Bool-cases s.failed) [
    | inl y ↦ simp y (done, omega arith, v)
    | inr n ↦ simp n (
        Ensures-bind (λ r. HasFedFrom P start sent done r.0 × Fewer P R (length s.pending) r)
          (HasFedFrom P start sent done) (drain_round P R now s) _
          (drain_round-Fewer P R _ now s (drain_round-HasFedFrom done now s v))
          (λ r k. after (drain_loop-HasFedFrom rounds) r k.0 (λ e. omega (arith, left, k.1 e))))
  ]
    where
      after :
          ((d n : ℕ) (t : Stream State)
            → length t.pending < rounds
            → HasFed P start sent d t
            → Ensures (HasFedFrom P start sent d) (drain_loop P R rounds n t))
          → (r : Stream State × Bool) → HasFedFrom P start sent done r.0
          → (r.1 ≡ true → length r.0.pending < rounds)
          → Ensures
              (HasFedFrom P start sent done)
              (elim r.1 [ true ↦ drain_loop P R rounds now r.0 | false ↦ ok r.0 ])
      after loop (t, true) f l = HasFedFrom-trans done t f _ (loop f.0 now t (l refl) f.2)
      after loop (t, false) f l = f

  hold-HasFed :
      (done now : ℕ) (g : Segment) (s : Stream State)
      → IsPiece sent g
      → HasFed P start sent done s
      → HasFed P start sent done (hold P R now g.seq g.payload s)
  unfolding hold
  hold-HasFed done now g s p v =
      elim (Bool-cases (
        leb max_pending_parts (length s.pending)
        || ltb max_pending_bytes (s.pending_bytes + length g.payload))) [
          | inl y ↦ simp y (
              fail-HasFed done _ _ (record {
                expected_eq = v.expected_eq;
                reached = v.reached;
                pieces = v.pieces;
                fed = v.fed;
              }))
          | inr n ↦ elim (Bool-cases (leb (length g.payload) (length (lookup g.seq s.pending)))) [
            | inl y ↦
                simp (n, y)
                  (record {
                    expected_eq = v.expected_eq;
                    reached = v.reached;
                    pieces = v.pieces;
                    fed = v.fed;
                  })
            | inr n' ↦
                simp (n, n')
                  (record {
                    expected_eq = v.expected_eq;
                    reached = v.reached;
                    pieces = put-All (IsPiece sent) g.seq g.payload s.pending p v.pieces;
                    fed = v.fed;
                  })
          ]
        ]

  deliver-HasFed :
      (done now : ℕ) (g : Segment) (p : IsPiece sent g) (s : Stream State)
      → HasFed P start sent done s
      → p.start ≤ done
      → Ensures (HasFedFrom P start sent done) (deliver P R now g.payload (some (done - p.start)) s)
  unfolding deliver drain
  deliver-HasFed done now g p s v h = elim (Bool-cases (leb (length g.payload) (done - p.start))) [
    | inl y ↦ rw y (done, omega arith, v)
    | inr n ↦
        rw (n, slice_from_ok g.payload (done - p.start) (omega tests))
          (let f = push_part-HasFed done now g p s v h (omega tests) in
            let t = push P R now (drop (done - p.start) g.payload) s in
            HasFedFrom-trans done t f _
              (drain_loop-HasFedFrom (suc (length t.pending)) f.0 now t (omega arith) f.2))
  ]

  -- Adding a piece of the stream does not panic, and what the parser has been fed stays a prefix of
  -- the stream, no shorter than before.
  pub add-HasFed :
      (done now : ℕ) (g : Segment) (s : Stream State)
      → IsPiece sent g
      → HasFed P start sent done s
      → Ensures (HasFedFrom P start sent done) (add P R now g.seq g.payload s)
  unfolding add
  add-HasFed done now g s p v =
      elim (Bool-cases (s.failed || finished s.parser || length g.payload == 0)) [
        | inl y ↦ simp y (done, omega arith, v)
        | inr n ↦ elim (Bool-cases (ahead (diff32 g.seq s.expected))) [
          | inl y ↦ simp (n, y) (done, omega arith, hold-HasFed done now g s p v)
          | inr n' ↦
              let (h, e) = back_of sent g p done s.expected v.expected_eq v.reached n' in
              simp (n, n', e) (deliver-HasFed done now g p s v h)
        ]
      ]

  -- `Add` of one segment after another, each at its time.
  unfoldable pub add_all : List (ℕ × Segment) → Stream State → Res (Stream State)
  add_all [] s = ok s
  add_all ((now, g) ∷ gs) s = do t ← add P R now g.seq g.payload s; add_all gs t

  add_all-HasFed :
      (gs : List (ℕ × Segment)) (done : ℕ) (s : Stream State)
      → All (λ g. IsPiece sent g.1) gs
      → HasFed P start sent done s
      → Ensures (HasFedFrom P start sent done) (add_all gs s)
  unfolding add_all
  add_all-HasFed [] done s h v = (done, omega arith, v)
  add_all-HasFed ((now, g) ∷ gs) done s (p, h) v =
      Ensures-bind (HasFedFrom P start sent done) (HasFedFrom P start sent done) _ _
        (add-HasFed done now g s p v)
        (λ t f. HasFedFrom-trans done t f _ (add_all-HasFed gs f.0 t h f.2))

  -- Pieces of a stream below 2 GiB, added to a new `Stream` in any order, repeated and overlapping:
  -- nothing panics, and unless reassembly fails the parser is fed exactly a prefix of the stream.
  pub add_all-new :
      (gs : List (ℕ × Segment)) (now : ℕ)
      → All (λ g. IsPiece sent g.1) gs
      → Ensures
          (λ s. s.failed ≡ false → (done : ℕ) × Fed P start s.parser (take done sent.bytes))
          (add_all gs (new start sent.first now))
  unfolding new
  add_all-new gs now h =
      Ensures-weaken (HasFedFrom P start sent 0) _ (add_all gs _)
        (add_all-HasFed gs 0 _ h (record {
          expected_eq = omega (arith, sent.word);
          reached = omega arith;
          pieces = tt;
          fed = λ _. unfed;
        }))
        (λ s f alive. (f.0, f.2.fed alive))
