-- ===== src/Domain/Server/AddServer.antt =====
-- internal/domain/tls_server.go, AddServer: what it leaves, and when it panics.
use socktrail.Base.{
  ℕ, suc, ◌+◌, ◌^◌, ◌<◌, ◌≡◌, ◌≢◌, ◌↔◌, refl, sym, ap, ◌∙◌, inl, inr, Bool, true, false, not, ◌&&◌,
  ◌||◌, some, Bytes, length, ltb, leb, ◌==◌, if◌then◌else◌, All, arith, Bool-cases, panic, Yields,
  Yields-bind, index_ok, at,
}
use socktrail.Domain.Stream.State.{max_pending_parts, diff32, ahead, lookup, RangeOrder}
use socktrail.Domain.Stream.Pick.{total}
use socktrail.Domain.Stream.Accounting.{Ahead, InWindow, All-map, put-total, lookup-le, put-All}
use socktrail.Domain.Server.Feeding.{Clean}
use socktrail.Domain.Server.Reassembly.{Loops, Room, IsFlight, LoopsClean}
use socktrail.Domain.Server.Flight.{
  Flight, Evidence, max_server_flight, stop, add_behind, add, deliver_loop, hold, add_started,
  add_server,
}
use socktrail.Domain.Server.Delivery.{
  Loops-weaken, add-LoopsClean, Yields-if, Settles, deliver_loop-Settles,
}

stopped-IsFlight : (f : Flight) → f.expected < 2 ^ 32 → IsFlight (stop f)
unfolding stop
stopped-IsFlight f h = record {
  bounded = h;
  counted = refl;
  limit = omega arith;
  count = omega arith;
  waiting = tt;
  idle = λ _. refl;
  dead = λ _. refl;
  records = omega arith;
  handshake = omega arith;
}

-- A flight that keeps what the loop leaves.
settled-IsFlight :
    (g f : Flight)
    → Loops max_pending_parts f
    → All (Ahead f.expected) f.pending
    → g.expected ≡ f.expected
    → g.started ≡ f.started
    → g.done ≡ f.done
    → g.pending ≡ f.pending
    → g.pending_bytes ≡ f.pending_bytes
    → g.record_bytes ≡ f.record_bytes
    → g.handshake ≡ f.handshake
    → IsFlight g
settled-IsFlight g f v w a b c d e x y = record {
  bounded = omega (arith, a, v.bounded);
  counted = omega (arith, e, v.counted, ap total d);
  limit = omega (arith, e, v.limit);
  count = omega (arith, v.left, ap length d);
  waiting = rw (a, d) w;
  idle = λ i. absurd (cc (i, b, v.begun));
  dead = λ i. d ∙ v.dead (sym c ∙ i);
  records = omega (arith, v.records, ap length x);
  handshake = omega (arith, v.handshake, ap length y);
}

started-Room :
    (b : Bytes) (f : Flight) → IsFlight f → f.started ≡ true → Room 0 max_pending_parts b f
started-Room b f v begun = record {
  bounded = v.bounded;
  begun = begun;
  counted = v.counted;
  limit = v.limit;
  left = v.count;
  window =
      All-map (Ahead f.expected) (InWindow 0 f.expected) f.pending (λ g w. inl (ground (arith, w)))
        v.waiting;
  dead = v.dead;
  records = v.records;
  handshake = v.handshake;
  room = λ m l l'. omega (arith, v.limit, l');
}

-- The first segment of the reply.
begun-IsFlight :
    (seq : ℕ) (f : Flight)
    → IsFlight f
    → seq < 2 ^ 32
    → f.started ≡ false
    → IsFlight (record f { started = true; expected = seq })
begun-IsFlight seq f v word m =
    let none_held = v.idle m in
    record {
      bounded = word;
      counted = v.counted;
      limit = v.limit;
      count = v.count;
      waiting = rw none_held tt;
      idle = λ i. none_held;
      dead = v.dead;
      records = v.records;
      handshake = v.handshake;
    }

module _ (R : RangeOrder) where
  -- A segment ahead of a gap is kept or the flight stops.
  hold-IsFlight :
      (now seq : ℕ) (b : Bytes) (size : ℕ) (f : Flight)
      → IsFlight f
      → f.started ≡ true
      → f.done ≡ false
      → ahead (diff32 seq f.expected) ≡ true
      → IsFlight (hold R now seq b size f)
  unfolding hold
  hold-IsFlight now seq b size f v begun open_still a =
      let old = lookup seq f.pending in
      let sizes = put-total seq b f.pending in
      let before = lookup-le seq f.pending in
      elim (Bool-cases (
        ltb (length b) size
        || leb max_pending_parts (length f.pending)
        || ltb max_server_flight (f.pending_bytes + length b))) [
          | inl y ↦ rw y (stopped-IsFlight f v.bounded)
          | inr n ↦ rw n (elim (Bool-cases (ltb (length old) (length b))) [
            | inl y ↦ rw y (record {
              bounded = v.bounded;
              counted = ground (arith, y, sizes.0, v.counted, before);
              limit = ground (arith, n);
              count = ground (arith, n, sizes.1);
              waiting = put-All (Ahead f.expected) seq b f.pending a v.waiting;
              idle = λ e. absurd (cc (e, begun));
              dead = λ e. absurd (cc (e, open_still));
              records = v.records;
              handshake = v.handshake;
            })
            | inr m ↦ rw m v
          ])
        ]

  -- What a call leaves.
  pub record Leaves (r : Flight × Evidence) : Type 0 where
    pub flight : IsFlight r.0
    pub clean : Clean r.1

  settled-Leaves :
      (late : Bool) (now : ℕ) (f : Flight) (e : Evidence)
      → Settles (f, e)
      → Leaves (if late then record f { gap_since = some now } else f, e)
  settled-Leaves true now f e s = record {
    flight =
        settled-IsFlight (record f { gap_since = some now }) f s.loops s.waiting refl refl refl refl
          refl refl refl;
    clean = s.clean;
  }
  settled-Leaves false now f e s = record {
    flight = settled-IsFlight f f s.loops s.waiting refl refl refl refl refl refl refl;
    clean = s.clean;
  }

  add_started-Leaves :
      (now seq : ℕ) (b : Bytes) (size : ℕ) (f : Flight) (e : Evidence)
      → IsFlight f
      → Clean e
      → f.started ≡ true
      → f.done ≡ false
      → diff32 seq f.expected ≢ 2 ^ 31
      → Yields Leaves (add_started R now seq b size f e)
  unfolding add_started LoopsClean
  add_started-Leaves now seq b size f e v c begun open_still ne =
      elim (Bool-cases (ahead (diff32 seq f.expected))) [
        | inl y ↦
            rw y
              (record { flight = hold-IsFlight now seq b size f v begun open_still y; clean = c })
        | inr n ↦ rw n (
            Yields-bind (LoopsClean max_pending_parts) Leaves (add seq b (ltb (length b) size) f e)
              _
              (add-LoopsClean 0 max_pending_parts seq b (ltb (length b) size) f e
                (started-Room b f v begun) c (omega (arith, v.limit)) ne)
              (λ (f1, e1) q.
                Yields-bind Settles Leaves (deliver_loop R (suc (length f1.pending)) f1 e1) _
                  (deliver_loop-Settles R (length f1.pending) f1 e1
                    (Loops-weaken max_pending_parts (length f1.pending) f1 (omega arith) q.0)
                    q.0.left q.1)
                  (λ (f2, e2) s. settled-Leaves (ltb 0 (length f2.pending)) now f2 e2 s)))
      ]

  -- On a flight within its limits and a segment that does not start 2 ^ 31 bytes before the next
  -- expected byte, AddServer ends without a panic, keeps the limits and the exact count of what is held
  -- back, every segment of it ahead of the next expected byte, and keeps the certificate names, eight
  -- at most, and the protocol of the server printable.
  pub add_server-Leaves :
      (now seq : ℕ) (b : Bytes) (size : ℕ) (f : Flight) (e : Evidence)
      → IsFlight f
      → Clean e
      → seq < 2 ^ 32
      → (f.started ≡ true → diff32 seq f.expected ≢ 2 ^ 31)
      → Yields Leaves (add_server R now seq b size f e)
  unfolding add_server
  add_server-Leaves now seq b size f e v c word ne =
      let unchanged : Leaves (f, e) = record { flight = v; clean = c } in
      let g : Flight = record f { started = true; expected = seq } in
      elim (Bool-cases
        (f.done || length b == 0 || not e.is_tls || not e.client_done || e.no_handshake)) [
          | inl y ↦ rw y unchanged
          | inr n ↦ rw n (
              let open_still : f.done ≡ false = ground (arith, n) in
              Yields-if Leaves f.started _ _
                (λ y. add_started-Leaves now seq b size f e v c y open_still (ne y))
                (λ m. elim (Bool-cases (ltb (length b) 2)) [
                  | inl y ↦ rw y unchanged
                  | inr k ↦
                      rw (k, index_ok b 0 (ground (arith, k)), index_ok b 1 (ground (arith, k)))
                        (elim (Bool-cases
                          ((not (at b 0 == 22) && not (at b 0 == 21)) || not (at b 1 == 3))) [
                            | inl y ↦ rw y unchanged
                            | inr j ↦ rw j (
                                add_started-Leaves now seq b size g e
                                  (begun-IsFlight seq f v word m) c refl open_still
                                  (λ x. ground (arith, x, word)))
                          ])
                ]))
        ]

  add_server_far :
      (now seq : ℕ) (b : Bytes) (size : ℕ) (f : Flight) (e : Evidence)
      → (f.done || length b == 0 || not e.is_tls || not e.client_done || e.no_handshake) ≡ false
      → f.started ≡ true
      → diff32 seq f.expected ≡ 2 ^ 31
      → add_server R now seq b size f e ≡ panic
  unfolding add_server add_started add add_behind
  add_server_far now seq b size f e active begun x = ground (arith, active, begun, x)

  -- On a flight that is being read, AddServer panics just where the segment starts 2 ^ 31 bytes before
  -- the next expected byte.
  pub add_server_panic_iff :
      (now seq : ℕ) (b : Bytes) (size : ℕ) (f : Flight) (e : Evidence)
      → IsFlight f
      → Clean e
      → seq < 2 ^ 32
      → (f.done || length b == 0 || not e.is_tls || not e.client_done || e.no_handshake) ≡ false
      → f.started ≡ true
      → (add_server R now seq b size f e ≡ panic) ↔ (diff32 seq f.expected ≡ 2 ^ 31)
  add_server_panic_iff now seq b size f e v c word active begun = (
    λ p. elim (Bool-cases (diff32 seq f.expected == 2 ^ 31)) [
      | inl y ↦ ground (arith, y)
      | inr n ↦
          absurd
            (rw p at (add_server-Leaves now seq b size f e v c word (λ _ x. ground (arith, n, x))))
    ],
    add_server_far now seq b size f e active begun,
  )
