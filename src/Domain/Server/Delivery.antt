-- ===== src/Domain/Server/Delivery.antt =====
-- internal/domain/tls_server.go, AddServer: the loop that delivers what was held back.
use mathlib.Core.List.{Permᴰ}
use mathlib.Core.List.Permᴰ
use socktrail.Base.{
  ℕ, zero, suc, ◌+◌, ◌-◌, ◌^◌, ◌≤◌, ◌<◌, ◌≡◌, ◌≢◌, refl, inl, inr, Bool, true, false, List, [], ◌∷◌,
  Option, none, some, Bytes, length, length-drop, length-perm, drop, leb, if◌then◌else◌, All, arith,
  Bool-cases, Res, ok, ◌>>=◌, Yields, Yields-bind, slice_from_ok,
}
use socktrail.Domain.Stream.State.{
  max_pending_parts, diff32, ahead, back, back_lt, Segment, RangeOrder,
}
use socktrail.Domain.Stream.Pick.{All-perm, total-perm}
use socktrail.Domain.Stream.Accounting.{Ahead, InWindow, All-map}
use socktrail.Domain.Server.Feeding.{Clean}
use socktrail.Domain.Server.Reassembly.{Loops, Room, LoopsClean, add_new-LoopsClean}
use socktrail.Domain.Server.Flight.{Flight, Evidence, add_behind, add, take_ready, deliver_loop}

Room-Loops :
    (n parts : ℕ) (b : Bytes) (f : Flight)
    → Room n parts b f
    → n + f.pending_bytes < 2 ^ 31
    → Loops parts f
Room-Loops n parts b f v h = record {
  bounded = v.bounded;
  begun = v.begun;
  counted = v.counted;
  limit = v.limit;
  left = v.left;
  window =
      All-map (InWindow n f.expected) (InWindow (2 ^ 31 - 1 - f.pending_bytes) f.expected) f.pending
        (λ g w. InWindow-wider n (2 ^ 31 - 1 - f.pending_bytes) f.expected g (omega (arith, h)) w)
        v.window;
  dead = v.dead;
  records = v.records;
  handshake = v.handshake;
}
  where
    InWindow-wider :
        (n n' expected : ℕ) (g : Segment) → n ≤ n' → InWindow n expected g → InWindow n' expected g
    InWindow-wider n n' expected g l w = ground arith

Room-drop : (n parts k : ℕ) (b : Bytes) (f : Flight) → Room n parts b f → Room n parts (drop k b) f
Room-drop n parts k b f v = record {
  bounded = v.bounded;
  begun = v.begun;
  counted = v.counted;
  limit = v.limit;
  left = v.left;
  window = v.window;
  dead = v.dead;
  records = v.records;
  handshake = v.handshake;
  room = λ m l l'. v.room m (omega (arith, l, length-drop k b)) l';
}

back_lt-drop :
    (d : ℕ) (b : Bytes)
    → back_lt (back d) (length b) ≡ true
    → d ≢ 2 ^ 31
    → (k : ℕ) × (back d ≡ some k) × (k ≤ length b)
back_lt-drop d b h ne = behind (back d) refl h
  where
    behind :
        (o : Option ℕ)
        → back d ≡ o
        → back_lt o (length b) ≡ true
        → (k : ℕ) × (back d ≡ some k) × (k ≤ length b)
    behind none e l = absurd (ne (ground (arith, e)))
    behind (some k) e l = (k, e, ground (arith, l))

-- A segment that does not start 2 ^ 31 bytes away.
pub add-LoopsClean :
    (n parts seq : ℕ) (b : Bytes) (truncated : Bool) (f : Flight) (e : Evidence)
    → Room n parts b f
    → Clean e
    → n + f.pending_bytes < 2 ^ 31
    → diff32 seq f.expected ≢ 2 ^ 31
    → Yields (LoopsClean parts) (add seq b truncated f e)
unfolding add add_behind LoopsClean
add-LoopsClean n parts seq b truncated f e v c h ne =
    let d = diff32 seq f.expected in
    elim (Bool-cases (leb (2 ^ 31) d)) [
      | inl y ↦ rw y (elim (Bool-cases (back_lt (back d) (length b))) [
        | inl y' ↦
            let (k, e', l) = back_lt-drop d b y' ne in
            rw (y', e', slice_from_ok b k l)
              (add_new-LoopsClean n parts (drop k b) truncated f e (Room-drop n parts k b f v) c)
        | inr n' ↦ rw n' (Room-Loops n parts b f v h, c)
      ])
      | inr m ↦ rw m (add_new-LoopsClean n parts b truncated f e v c)
    ]

-- What `take_ready` finds among the segments.
abbrev Takes : ℕ → List Segment → Option (Segment × List Segment) → Type 0
Takes expected gs none = All (Ahead expected) gs
Takes expected gs (some r) = (ahead (diff32 r.0.seq expected) ≡ false) × Permᴰ gs (r.0 ∷ r.1)

take_ready-Takes : (expected : ℕ) (gs : List Segment) → Takes expected gs (take_ready expected gs)
unfolding take_ready
take_ready-Takes expected [] = tt
take_ready-Takes expected (g ∷ gs) = elim (Bool-cases (ahead (diff32 g.seq expected))) [
  | inr n ↦ rw n (n, Permᴰ.refl (g ∷ gs))
  | inl y ↦ rw y (later (take_ready expected gs) y (take_ready-Takes expected gs))
]
  where
    later :
        (o : Option (Segment × List Segment))
        → ahead (diff32 g.seq expected) ≡ true
        → Takes expected gs o
        → Takes expected (g ∷ gs) (elim o [ none ↦ none | some r ↦ some (r.0, g ∷ r.1) ])
    later none y t = (y, t)
    later (some r) y t = (t.0, Permᴰ.trans (Permᴰ.cons refl t.1) (Permᴰ.swap refl refl))

-- A segment within the window that is not ahead is less than 2 ^ 31 bytes behind.
ready-near :
    (n expected : ℕ) (g : Segment)
    → n < 2 ^ 31
    → InWindow n expected g
    → ahead (diff32 g.seq expected) ≡ false
    → diff32 g.seq expected ≢ 2 ^ 31
ready-near n expected g h w a = λ e. ground (arith, e)

-- What the loop that delivers leaves.
pub record Settles (r : Flight × Evidence) : Type 0 where
  pub loops : Loops max_pending_parts r.0
  pub clean : Clean r.1
  pub waiting : All (Ahead r.0.expected) r.0.pending

pub Loops-weaken :
    (parts parts' : ℕ) (f : Flight) → length f.pending ≤ parts' → Loops parts f → Loops parts' f
Loops-weaken parts parts' f h v = record {
  bounded = v.bounded;
  begun = v.begun;
  counted = v.counted;
  limit = v.limit;
  left = h;
  window = v.window;
  dead = v.dead;
  records = v.records;
  handshake = v.handshake;
}

abbrev before : ℕ → ℕ
before zero = zero
before (suc n) = n

pub Yields-if :
    {A : Type 0} (Q : A → Type 0) (b : Bool) (m k : Res A)
    → (b ≡ true → Yields Q m)
    → (b ≡ false → Yields Q k)
    → Yields Q (if b then m else k)
Yields-if Q true m k h h' = h refl
Yields-if Q false m k h h' = h' refl

over_Settles :
    (parts : ℕ) (f : Flight) (e : Evidence)
    → Loops parts f
    → parts ≤ max_pending_parts
    → Clean e
    → f.done ≡ true
    → Settles (f, e)
over_Settles parts f e v l c y =
    let none_left : f.pending ≡ [] = v.dead y in
    record {
      loops = Loops-weaken parts max_pending_parts f (omega (arith, v.left, l)) v;
      clean = c;
      waiting = rw none_left tt;
    }

module _ (R : RangeOrder) where
  open R use {arrange, arrange_perm}

  deliver_next :
      (turns : ℕ) (f : Flight) (e : Evidence) (o : Option (Segment × List Segment))
      → Loops turns f
      → turns ≤ max_pending_parts
      → f.done ≡ false
      → Clean e
      → Takes f.expected (arrange f.pending) o
      → ((g : Flight) (e' : Evidence)
          → 0 < turns
          → Loops (before turns) g
          → Clean e'
          → Yields Settles (deliver_loop R turns g e'))
      → Yields Settles (elim o [
        | none ↦ ok (f, e)
        | some r ↦ do
          (f', e') ←
              add r.0.seq r.0.payload false
                (record f { pending = r.1; pending_bytes = f.pending_bytes - length r.0.payload })
                e
          deliver_loop R turns f' e'
      ])
  unfolding LoopsClean
  deliver_next turns f e none v l open_still c t go = record {
    loops = Loops-weaken turns max_pending_parts f (omega (arith, v.left, l)) v;
    clean = c;
    waiting = All-perm (Ahead f.expected) (Permᴰ.symm (arrange_perm f.pending)) t;
  }
  deliver_next zero f e (some r) v l open_still c (a, p) go =
      let sizes = length-perm (Permᴰ.trans (Permᴰ.symm (arrange_perm f.pending)) p) in
      absurd (omega (arith, v.left, sizes))
  deliver_next (suc parts) f e (some r) v l open_still c (a, p) go =
      let perm = Permᴰ.trans (Permᴰ.symm (arrange_perm f.pending)) p in
      let n = 2 ^ 31 - 1 - f.pending_bytes in
      let sizes = length-perm perm in
      let bytes = total-perm perm in
      let windows : All (InWindow n f.expected) (r.0 ∷ r.1) =
        All-perm (InWindow n f.expected) (Permᴰ.symm perm) v.window in
      let g : Flight = record f {
        pending = r.1;
        pending_bytes = f.pending_bytes - length r.0.payload;
      } in
      Yields-bind (LoopsClean parts) Settles (add r.0.seq r.0.payload false g e) _
        (add-LoopsClean n parts r.0.seq r.0.payload false g e
          (record {
            bounded = v.bounded;
            begun = v.begun;
            counted = omega (arith, v.counted, bytes);
            limit = omega (arith, v.limit);
            left = omega (arith, v.left, sizes);
            window = windows.1;
            dead = λ d. absurd (cc (d, open_still));
            records = v.records;
            handshake = v.handshake;
            room = λ m k k'. omega (arith, v.counted, bytes, v.limit, k);
          })
          c (omega (arith, v.limit)) (ready-near n f.expected r.0 (omega arith) windows.0 a))
        (λ (f', e') q. go f' e' (omega arith) q.0 q.1)

  pub deliver_loop-Settles :
      (parts : ℕ) (f : Flight) (e : Evidence)
      → Loops parts f
      → parts ≤ max_pending_parts
      → Clean e
      → Yields Settles (deliver_loop R (suc parts) f e)
  unfolding deliver_loop
  deliver_loop-Settles zero f e v l c =
      Yields-if Settles f.done (ok (f, e)) _ (λ y. over_Settles zero f e v l c y)
        (λ n.
          deliver_next zero f e _ v l n c (take_ready-Takes f.expected (arrange f.pending))
            (λ g e' z w c'. absurd (omega (arith, z))))
  deliver_loop-Settles (suc parts) f e v l c =
      Yields-if Settles f.done (ok (f, e)) _ (λ y. over_Settles (suc parts) f e v l c y)
        (λ n.
          deliver_next (suc parts) f e _ v l n c (take_ready-Takes f.expected (arrange f.pending))
            (λ g e' z w c'. deliver_loop-Settles parts g e' w (omega (arith, l)) c'))
