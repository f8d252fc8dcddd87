-- ===== src/Domain/Stream/Accounting.antt =====
-- internal/domain/stream.go: the segments held back, their limits and their count.
use socktrail.Base.{
  length-perm, ℕ, zero, suc, ◌+◌, ◌-◌, ◌≤◌, ◌<◌, ◌^◌, ◌%◌, ◌≡◌, ◌≢◌, ◌⊎◌, inl, inr, refl, Bool,
  true, false, ◌||◌, String, List, [], ◌∷◌, Option, none, some, Bytes, length, drop, length-drop,
  All, leb, ltb, arith, tests, ◌==◌, Bool-cases, ok, Ensures, Ensures-bind, slice_from_ok,
}
use socktrail.Domain.Stream.State.{
  max_pending_bytes, max_pending_parts, diff32, ahead, back, back_lt, Segment, lookup, put,
  RangeOrder, Parser, Stream,
}
use socktrail.Domain.Stream.Ops.{
  deliverable, fail, pushed, push, push_part, drain_chosen, drain_round, drain_loop, drain, hold,
  deliver, add,
}
use socktrail.Domain.Stream.Pick.{
  total, chosen_bytes, chosen_count, All-perm, total-perm, pick-Counts, pick-le, OfChosen, pick-All,
  pick-deliverable, NonEmpty, pick-none-ahead,
}

-- The segments held back: their bytes counted, both limits kept, none of them empty.
pub record Held (pending : List Segment) (pending_bytes : ℕ) : Type 0 where
  pub counted : pending_bytes ≡ total pending
  pub bytes_bound : pending_bytes ≤ max_pending_bytes
  pub parts_bound : length pending ≤ max_pending_parts
  pub non_empty : All NonEmpty pending

pub Held-nil : Held [] 0
Held-nil = record {
  counted = refl;
  bytes_bound = omega arith;
  parts_bound = omega arith;
  non_empty = tt;
}

abbrev pub Ahead : ℕ → Segment → Type 0
Ahead expected g = ahead (diff32 g.seq expected) ≡ true

-- Between two calls: the limits and the count hold, `expected` is a uint32, and unless reassembly
-- has failed every segment held back starts ahead of `expected`: none could be delivered.
pub record IsSettled {S : Type 0} (s : Stream S) : Type 0 where
  pub held : Held s.pending s.pending_bytes
  pub bounded : s.expected < 2 ^ 32
  pub waiting : All (Ahead s.expected) s.pending
  pub dead : s.failed ≡ true → s.pending ≡ []

-- At most `n` bytes before `expected`, or less than 2 ^ 31 ahead of it.
abbrev pub InWindow : ℕ → ℕ → Segment → Type 0
InWindow n expected g = (diff32 g.seq expected < 2 ^ 31) ⊎ (2 ^ 32 ≤ diff32 g.seq expected + n)

-- Inside `drain`: the limits and the count hold, and no segment is 2 ^ 31 or more bytes away.
record LoopInv {S : Type 0} (parts : ℕ) (s : Stream S) : Type 0 where
  held : Held s.pending s.pending_bytes
  bounded : s.expected < 2 ^ 32
  window : All (InWindow (2 ^ 31 - 1 - s.pending_bytes) s.expected) s.pending
  left : length s.pending ≤ parts
  dead : s.failed ≡ true → s.pending ≡ []

pub InWindow-advance :
    (n m n' expected : ℕ) (g : Segment)
    → expected < 2 ^ 32
    → n + m ≤ n'
    → n' < 2 ^ 31
    → InWindow n expected g
    → InWindow n' ((expected + m) % 2 ^ 32) g
InWindow-advance n m n' expected g h k l w = ground arith

pub All-map :
    {A : Type 0} (Q Q' : A → Type 0) (xs : List A) → ((a : A) → Q a → Q' a) → All Q xs → All Q' xs
All-map Q Q' [] f h = tt
All-map Q Q' (x ∷ xs) f (h, hs) = (f x h, All-map Q Q' xs f hs)

pub put-total :
    (seq : ℕ) (payload : Bytes) (gs : List Segment)
    → (total (put seq payload gs) + length (lookup seq gs) ≡ total gs + length payload)
      × (length (put seq payload gs) ≤ length gs + 1)
unfolding put lookup
put-total seq payload [] = (omega arith, omega arith)
put-total seq payload (g ∷ gs) = ground (arith, put-total seq payload gs)

pub lookup-le : (seq : ℕ) (gs : List Segment) → length (lookup seq gs) ≤ total gs
unfolding lookup
lookup-le seq [] = omega arith
lookup-le seq (g ∷ gs) = ground (arith, lookup-le seq gs)

pub put-All :
    (Q : Segment → Type 0) (seq : ℕ) (payload : Bytes) (gs : List Segment)
    → Q (record { seq = seq; payload = payload })
    → All Q gs
    → All Q (put seq payload gs)
unfolding put
put-All Q seq payload [] q h = (q, tt)
put-All Q seq payload (g ∷ gs) q (h, hs) = elim (Bool-cases (g.seq == seq)) [
  | inl y ↦ rw y (q, hs)
  | inr n ↦ rw n (h, put-All Q seq payload gs q hs)
]

module _ (P : Parser) (R : RangeOrder) where
  open P use {State, feed, finished}
  open R use {arrange, arrange_perm}

  -- With nothing held back.
  cleared-LoopInv :
      (parts : ℕ) (s : Stream State)
      → s.pending ≡ []
      → s.pending_bytes ≡ 0
      → s.expected < 2 ^ 32
      → LoopInv parts s
  cleared-LoopInv parts s e e' h = record {
    held = rw (e, e') Held-nil;
    bounded = h;
    window = rw e tt;
    left = rw e (omega arith);
    dead = λ _. e;
  }

  fail-LoopInv :
      (parts : ℕ) (reason : String) (s : Stream State)
      → LoopInv parts s
      → LoopInv parts (fail P R reason s)
  unfolding fail
  fail-LoopInv parts reason s v = elim (Bool-cases (s.failed || finished s.parser)) [
    | inl y ↦ rw y v
    | inr n ↦ rw n (cleared-LoopInv parts _ refl refl v.bounded)
  ]

  pushed-LoopInv :
      (parts : ℕ) (s : Stream State) (e : Option String)
      → LoopInv parts s
      → LoopInv parts (pushed P R s e)
  unfolding pushed
  pushed-LoopInv parts s (some e) v = fail-LoopInv parts e s v
  pushed-LoopInv parts s none v = elim (Bool-cases (finished s.parser)) [
    | inl y ↦ rw y (cleared-LoopInv parts _ refl refl v.bounded)
    | inr n ↦ rw n v
  ]

  push-LoopInv :
      (n parts now : ℕ) (payload : Bytes) (s : Stream State)
      → Held s.pending s.pending_bytes
      → s.expected < 2 ^ 32
      → All (InWindow n s.expected) s.pending
      → length s.pending ≤ parts
      → n + length payload + s.pending_bytes < 2 ^ 31
      → s.failed ≡ false
      → LoopInv parts (push P R now payload s)
  unfolding push
  push-LoopInv n parts now payload s held bounded window left room alive =
      let n' = 2 ^ 31 - 1 - s.pending_bytes in
      pushed-LoopInv parts _ _ (record {
        held = held;
        bounded = omega arith;
        window =
            All-map (InWindow n s.expected) (InWindow n' ((s.expected + length payload) % 2 ^ 32))
              s.pending
              (λ g w.
                InWindow-advance n (length payload) n' s.expected g bounded (omega arith)
                  (omega arith) w)
              window;
        left = left;
        dead = λ e. absurd (cc e);
      })

  push_part-LoopInv :
      (n parts now : ℕ) (payload : Bytes) (d : Option ℕ) (s : Stream State)
      → Held s.pending s.pending_bytes
      → s.expected < 2 ^ 32
      → All (InWindow n s.expected) s.pending
      → length s.pending ≤ parts
      → n + length payload + s.pending_bytes < 2 ^ 31
      → s.failed ≡ false
      → d ≢ none
      → back_lt d (length payload) ≡ true
      → Ensures (LoopInv parts) (push_part P R now payload d s)
  unfolding push_part
  push_part-LoopInv n parts now payload none s held bounded window left room alive ne lt =
      absurd (ne refl)
  push_part-LoopInv n parts now payload (some k) s held bounded window left room alive ne lt =
      rw (slice_from_ok payload k (omega tests)) (
        push-LoopInv n parts now (drop k payload) s held bounded window left
          (omega (arith, length-drop k payload)) alive)

  -- After a round that goes on there are fewer segments; after one that ends it is settled.
  RoundPost : ℕ → Stream State × Bool → Type 0
  RoundPost parts (t, true) = LoopInv (parts - 1) t × (0 < parts)
  RoundPost parts (t, false) = IsSettled t

  drain_chosen-RoundPost :
      (parts now : ℕ) (s : Stream State) (kept : List Segment) (bytes : ℕ) (c : Option Segment)
      → LoopInv parts s
      → s.failed ≡ false
      → bytes ≡ total kept + chosen_bytes c
      → bytes ≤ s.pending_bytes
      → length kept + chosen_count c ≤ length s.pending
      → All NonEmpty kept
      → All (InWindow (2 ^ 31 - 1 - s.pending_bytes) s.expected) kept
      → OfChosen (InWindow (2 ^ 31 - 1 - s.pending_bytes) s.expected) c
      → OfChosen (λ g. deliverable s.expected g ≡ true) c
      → (c ≡ none → All (Ahead s.expected) kept)
      → Ensures (RoundPost parts) (drain_chosen P R now s kept bytes c)
  unfolding drain_chosen RoundPost
  drain_chosen-RoundPost parts now s kept bytes none v alive total_eq le count ne window w d
        ahead' =
      record {
        held = record {
          counted = omega arith;
          bytes_bound = omega (arith, v.held.bytes_bound);
          parts_bound = omega (arith, v.held.parts_bound);
          non_empty = ne;
        };
        bounded = v.bounded;
        waiting = ahead' refl;
        dead = λ e. absurd (cc e);
      }
  drain_chosen-RoundPost parts now s kept bytes (some g) v alive total_eq le count ne window w d
        ahead' =
      Ensures-bind (LoopInv (parts - 1)) (RoundPost parts) _ _
        (push_part-LoopInv (2 ^ 31 - 1 - s.pending_bytes) (parts - 1) now g.payload
          (back (diff32 g.seq s.expected)) _ held v.bounded window (omega (arith, v.left))
          (omega (arith, v.held.bytes_bound)) alive (λ e. not_least e) reaches)
        (λ t k. (k, omega (arith, v.left)))
    where
      held : Held kept (bytes - length g.payload)
      held = record {
        counted = omega arith;
        bytes_bound = omega (arith, v.held.bytes_bound);
        parts_bound = omega (arith, v.held.parts_bound);
        non_empty = ne;
      }

      not_least : back (diff32 g.seq s.expected) ≢ none
      not_least = ground arith

      reaches : back_lt (back (diff32 g.seq s.expected)) (length g.payload) ≡ true
      reaches = ground arith

  drain_round-RoundPost :
      (parts now : ℕ) (s : Stream State)
      → LoopInv parts s
      → s.failed ≡ false
      → Ensures (RoundPost parts) (drain_round P R now s)
  unfolding drain_round
  drain_round-RoundPost parts now s v alive =
      let order = arrange_perm s.pending in
      let gs = arrange s.pending in
      let far = InWindow (2 ^ 31 - 1 - s.pending_bytes) s.expected in
      let counts =
        pick-Counts s.expected gs 0 s.pending_bytes
          (omega (arith, v.held.counted, total-perm order)) in
      let whole = All-perm NonEmpty order v.held.non_empty in
      let near = pick-All far s.expected gs s.pending_bytes (All-perm far order v.window) in
      drain_chosen-RoundPost parts now s _ _ _ v alive (omega (arith, counts.bytes_eq))
        (pick-le s.expected gs s.pending_bytes) (omega (arith, counts.parts_le, length-perm order))
        (pick-All NonEmpty s.expected gs s.pending_bytes whole).0 near.0 near.1
        (pick-deliverable s.expected gs s.pending_bytes)
        (pick-none-ahead s.expected gs s.pending_bytes whole)

  IsSettled-nil : (parts : ℕ) (s : Stream State) → LoopInv parts s → s.pending ≡ [] → IsSettled s
  IsSettled-nil parts s v e = record {
    held = v.held;
    bounded = v.bounded;
    waiting = rw e tt;
    dead = λ _. e;
  }

  -- The rounds suffice: the loop ends with the stream settled.
  drain_loop-IsSettled :
      (rounds parts now : ℕ) (s : Stream State)
      → LoopInv parts s
      → parts < rounds
      → Ensures IsSettled (drain_loop P R rounds now s)
  unfolding drain_loop
  drain_loop-IsSettled zero parts now s v h = absurd (omega arith)
  drain_loop-IsSettled (suc rounds) parts now s v h = elim (Bool-cases s.failed) [
    | inl y ↦ simp y (IsSettled-nil parts s v (v.dead y))
    | inr n ↦ simp n (
        Ensures-bind (RoundPost parts) IsSettled (drain_round P R now s) _
          (drain_round-RoundPost parts now s v n)
          (after (drain_loop-IsSettled rounds (parts - 1) now)))
  ]
    where
      after :
          ((t : Stream State)
            → LoopInv (parts - 1) t
            → parts - 1 < rounds
            → Ensures IsSettled (drain_loop P R rounds now t))
          → (r : Stream State × Bool) → RoundPost parts r
          → Ensures IsSettled (elim r.1 [ true ↦ drain_loop P R rounds now r.0 | false ↦ ok r.0 ])
      after loop (t, true) k = unfold RoundPost in loop t k.0 (omega arith)
      after loop (t, false) k = unfold RoundPost in k

  -- The entry that `Add` writes keeps the count, and the limits by its test.
  put-Held :
      (seq : ℕ) (payload : Bytes) (gs : List Segment) (bytes : ℕ)
      → Held gs bytes
      → 0 < length payload
      → length gs < max_pending_parts
      → bytes + length payload ≤ max_pending_bytes
      → Held (put seq payload gs) (bytes - length (lookup seq gs) + length payload)
  put-Held seq payload gs bytes v h parts room =
      let (sum_eq, count) = put-total seq payload gs in
      record {
        counted = omega (arith, v.counted, lookup-le seq gs);
        bytes_bound = omega arith;
        parts_bound = omega arith;
        non_empty = put-All NonEmpty seq payload gs h v.non_empty;
      }

  hold-IsSettled :
      (now seq : ℕ) (payload : Bytes) (s : Stream State)
      → IsSettled s
      → (s.failed || finished s.parser) ≡ false
      → 0 < length payload
      → ahead (diff32 seq s.expected) ≡ true
      → IsSettled (hold P R now seq payload s)
  unfolding hold fail
  hold-IsSettled now seq payload s v live h a =
      elim (Bool-cases (
        leb max_pending_parts (length s.pending)
        || ltb max_pending_bytes (s.pending_bytes + length payload))) [
          | inl y ↦
              simp (y, live)
                (record { held = Held-nil; bounded = v.bounded; waiting = tt; dead = λ _. refl })
          | inr n ↦ elim (Bool-cases (leb (length payload) (length (lookup seq s.pending)))) [
            | inl y ↦
                simp (n, y)
                  (record {
                    held = v.held;
                    bounded = v.bounded;
                    waiting = v.waiting;
                    dead = v.dead;
                  })
            | inr n' ↦
                simp (n, n')
                  (record {
                    held =
                        put-Held seq payload s.pending s.pending_bytes v.held h (ground arith)
                          (ground arith);
                    bounded = v.bounded;
                    waiting = put-All (Ahead s.expected) seq payload s.pending a v.waiting;
                    dead = λ e. absurd (ground arith);
                  })
          ]
        ]

  drain-IsSettled :
      (parts now : ℕ) (s : Stream State) → LoopInv parts s → Ensures IsSettled (drain P R now s)
  unfolding drain
  drain-IsSettled parts now s v =
      drain_loop-IsSettled (suc (length s.pending)) (length s.pending) now s
        (record {
          held = v.held;
          bounded = v.bounded;
          window = v.window;
          left = omega arith;
          dead = v.dead;
        })
        (omega arith)

  Ahead-InWindow : (expected : ℕ) (g : Segment) → Ahead expected g → InWindow 0 expected g
  Ahead-InWindow expected g a = ground arith

  deliver-IsSettled :
      (now : ℕ) (payload : Bytes) (d : Option ℕ) (s : Stream State)
      → IsSettled s
      → s.failed ≡ false
      → length payload < 2 ^ 30
      → d ≢ none
      → Ensures IsSettled (deliver P R now payload d s)
  unfolding deliver
  deliver-IsSettled now payload none s v alive h ne = absurd (ne refl)
  deliver-IsSettled now payload (some k) s v alive h ne =
      elim (Bool-cases (leb (length payload) k)) [
        | inl y ↦ rw y v
        | inr n ↦
            rw (n, slice_from_ok payload k (omega tests))
              (drain-IsSettled (length s.pending) now _ (
                push-LoopInv 0 (length s.pending) now (drop k payload) s v.held v.bounded
                  (All-map (Ahead s.expected) (InWindow 0 s.expected) s.pending
                    (Ahead-InWindow s.expected) v.waiting)
                  (omega arith) (omega (arith, length-drop k payload, v.held.bytes_bound)) alive))
      ]

  -- `Add` keeps the stream settled, and does not panic unless the segment starts exactly 2 ^ 31
  -- bytes from what is expected.
  pub add-IsSettled :
      (now seq : ℕ) (payload : Bytes) (s : Stream State)
      → IsSettled s
      → length payload < 2 ^ 30
      → diff32 seq s.expected ≢ 2 ^ 31
      → Ensures IsSettled (add P R now seq payload s)
  unfolding add
  add-IsSettled now seq payload s v h ne =
      elim (Bool-cases (s.failed || finished s.parser || length payload == 0)) [
        | inl y ↦ simp y v
        | inr n ↦ elim (Bool-cases (ahead (diff32 seq s.expected))) [
          | inl y ↦ simp (n, y) (hold-IsSettled now seq payload s v (ground arith) (ground arith) y)
          | inr n' ↦
              simp (n, n')
                (deliver-IsSettled now payload (back (diff32 seq s.expected)) s v (ground arith) h
                  (ground arith))
        ]
      ]
