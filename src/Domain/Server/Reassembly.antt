-- ===== src/Domain/Server/Reassembly.antt =====
-- internal/domain/tls_server.go: add, and the invariant of a flight.
use socktrail.Base.{
  ℕ, ◌+◌, ◌-◌, ◌^◌, ◌≤◌, ◌<◌, ◌≡◌, refl, sym, ap, ◌∙◌, inl, inr, Bool, true, false, ◌||◌, [], Bytes,
  length, All, arith, Bool-cases, Yields, Yields-bind, is_some,
}
use socktrail.Domain.Stream.State.{max_pending_parts, add32}
use socktrail.Domain.Stream.Pick.{total}
use socktrail.Domain.Stream.Accounting.{Ahead, InWindow, InWindow-advance, All-map}
use socktrail.Domain.Server.Feeding.{Clean, Holding, Fed, feed-Fed}
use socktrail.Domain.Server.Flight.{
  Flight, Evidence, Outcome, max_server_flight, stop, feed, add_new,
}

-- While segments are delivered: the limits and the count hold, and no segment is 2 ^ 31 or more bytes
-- away.
pub record Loops (parts : ℕ) (f : Flight) : Type 0 where
  pub bounded : f.expected < 2 ^ 32
  pub begun : f.started ≡ true
  pub counted : f.pending_bytes ≡ total f.pending
  pub limit : f.pending_bytes ≤ max_server_flight
  pub left : length f.pending ≤ parts
  pub window : All (InWindow (2 ^ 31 - 1 - f.pending_bytes) f.expected) f.pending
  pub dead : f.done ≡ true → f.pending ≡ []
  pub records : length f.record_bytes ≤ max_server_flight
  pub handshake : length f.handshake ≤ max_server_flight

-- Between two calls: the limits and the count hold, every segment held back starts ahead of
-- `expected`, and there is none before the start or behind the end.
pub record IsFlight (f : Flight) : Type 0 where
  pub bounded : f.expected < 2 ^ 32
  pub counted : f.pending_bytes ≡ total f.pending
  pub limit : f.pending_bytes ≤ max_server_flight
  pub count : length f.pending ≤ max_pending_parts
  pub waiting : All (Ahead f.expected) f.pending
  pub idle : f.started ≡ false → f.pending ≡ []
  pub dead : f.done ≡ true → f.pending ≡ []
  pub records : length f.record_bytes ≤ max_server_flight
  pub handshake : length f.handshake ≤ max_server_flight

unfoldable pub LoopsClean : ℕ → Flight × Evidence → Type 0
LoopsClean parts r = Loops parts r.0 × Clean r.1

-- With nothing held back.
empty-Loops :
    (parts : ℕ) (f : Flight)
    → f.expected < 2 ^ 32
    → f.started ≡ true
    → f.pending ≡ []
    → f.pending_bytes ≡ 0
    → length f.record_bytes ≤ max_server_flight
    → length f.handshake ≤ max_server_flight
    → Loops parts f
empty-Loops parts f h b p z r s = record {
  bounded = h;
  begun = b;
  counted = omega (arith, ap total p, z);
  limit = omega (arith, z);
  left = omega (arith, ap length p);
  window = rw p tt;
  dead = λ _. p;
  records = r;
  handshake = s;
}

-- What lets a part of `b` bytes be added: segments within `n` bytes behind `expected`.
pub record Room (n parts : ℕ) (b : Bytes) (f : Flight) : Type 0 where
  pub bounded : f.expected < 2 ^ 32
  pub begun : f.started ≡ true
  pub counted : f.pending_bytes ≡ total f.pending
  pub limit : f.pending_bytes ≤ max_server_flight
  pub left : length f.pending ≤ parts
  pub window : All (InWindow n f.expected) f.pending
  pub dead : f.done ≡ true → f.pending ≡ []
  pub records : length f.record_bytes ≤ max_server_flight
  pub handshake : length f.handshake ≤ max_server_flight
  pub room : (m : ℕ) → m ≤ length b → m ≤ max_server_flight → n + m + f.pending_bytes < 2 ^ 31

pub add_new-LoopsClean :
    (n parts : ℕ) (b : Bytes) (truncated : Bool) (f : Flight) (e : Evidence)
    → Room n parts b f
    → Clean e
    → Yields (LoopsClean parts) (add_new b truncated f e)
unfolding add_new LoopsClean
add_new-LoopsClean n parts b truncated f e v c =
    let g : Flight = record f { expected = add32 f.expected (length b) } in
    Yields-bind (Fed g b) (LoopsClean parts) (feed b g e) _ (feed-Fed b g e v.records v.handshake c)
      (λ r q. elim (Bool-cases (is_some r.error || truncated)) [
        | inl y ↦ rw y (
          empty-Loops parts (stop r.flight) (omega (arith, q.expected)) (q.begun ∙ v.begun) refl
              refl (omega arith) (omega arith),
          q.clean,
        )
        | inr m ↦ rw m (went_on r q (ground (arith, m)) q.holding, q.clean)
      ])
  where
    went_on :
        (r : Outcome)
        → Fed (record f { expected = add32 f.expected (length b) }) b r
        → is_some r.error ≡ false
        → Holding (record f { expected = add32 f.expected (length b) }) r.flight
        → Loops parts r.flight
    went_on r q m (inr s) =
        empty-Loops parts r.flight (omega (arith, q.expected)) (q.begun ∙ v.begun) s.1 s.2 q.records
          q.handshake
    went_on r q m (inl s) =
        let n' = 2 ^ 31 - 1 - f.pending_bytes in
        let moved : All (InWindow n' (add32 f.expected (length b))) f.pending =
          All-map (InWindow n f.expected) (InWindow n' (add32 f.expected (length b))) f.pending
            (λ g w.
              InWindow-advance n (length b) n' f.expected g v.bounded
                (omega (arith, v.room (length b) (omega arith) (q.small m))) (omega arith) w)
            v.window in
        record {
          bounded = omega (arith, q.expected);
          begun = q.begun ∙ v.begun;
          counted = s.1 ∙ v.counted ∙ sym (ap total s.0);
          limit = omega (arith, s.1, v.limit);
          left = omega (arith, v.left, ap length s.0);
          window = rw (s.0, s.1, q.expected) moved;
          dead = λ d. s.0 ∙ v.dead (sym s.2 ∙ d);
          records = q.records;
          handshake = q.handshake;
        }
