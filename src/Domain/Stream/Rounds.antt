-- ===== src/Domain/Stream/Rounds.antt =====
-- internal/domain/stream.go: every round of `drain` that goes on takes a segment out of `pending`.
use socktrail.Base.{
  length-perm, ℕ, ◌+◌, ◌-◌, ◌≤◌, ◌<◌, ◌≡◌, Bool, true, List, [], ◌∷◌, Option, none, some, Bytes,
  length, arith, Res, ok, err, panic, ◌>>=◌, Ensures, slice_from,
}
use socktrail.Domain.Stream.State.{diff32, back, Segment, RangeOrder, Parser, Stream}
use socktrail.Domain.Stream.Ops.{pick, fail, pushed, push, push_part, drain_chosen, drain_round}
use socktrail.Domain.Stream.Pick.{chosen_count}

-- If there is a value, it is such a value.
unfoldable Whenever : {A : Type 0} → (A → Type 0) → Res A → Type 0
Whenever K (ok a) = K a
Whenever K (err e) = Unit
Whenever K panic = Unit

module _ {A : Type 0} where
  Whenever-bind :
      {B : Type 0} (K : B → Type 0) (m : Res A) (f : A → Res B)
      → ((a : A) → Whenever K (f a))
      → Whenever K (m >>= f)
  unfolding Whenever
  Whenever-bind K (ok a) f k = k a
  Whenever-bind K (err e) f k = tt
  Whenever-bind K panic f k = tt

  Whenever-map :
      {B : Type 0} (Q : A → Type 0) (K : B → Type 0) (m : Res A) (f : A → B)
      → Whenever Q m
      → ((a : A) → Q a → K (f a))
      → Whenever K (m >>= λ a. ok (f a))
  unfolding Whenever
  Whenever-map Q K (ok a) f h k = k a h
  Whenever-map Q K (err e) f h k = tt
  Whenever-map Q K panic f h k = tt

  Whenever-also :
      (Q K : A → Type 0) (m : Res A) → Ensures Q m → Whenever K m → Ensures (λ a. Q a × K a) m
  unfolding Whenever
  Whenever-also Q K (ok a) h k = (h, k)
  Whenever-also Q K (err e) h k = tt
  Whenever-also Q K panic h k = absurd h

pick-kept :
    (expected : ℕ) (gs : List Segment) (bytes : ℕ)
    → length (pick expected gs bytes).kept + chosen_count (pick expected gs bytes).chosen
      ≤ length gs
unfolding pick
pick-kept expected [] bytes = omega arith
pick-kept expected (g ∷ gs) bytes =
    ground (arith, pick-kept expected gs (bytes - length g.payload), pick-kept expected gs bytes)

module _ (P : Parser) (R : RangeOrder) where
  open P use {State}
  open R use {arrange, arrange_perm}

  push-pending :
      (now : ℕ) (payload : Bytes) (s : Stream State)
      → length (push P R now payload s).pending ≤ length s.pending
  unfolding push pushed fail
  push-pending now payload s = ground arith

  push_part-pending :
      (now : ℕ) (payload : Bytes) (k : Option ℕ) (s : Stream State)
      → Whenever (λ t. length t.pending ≤ length s.pending) (push_part P R now payload k s)
  unfolding push_part Whenever
  push_part-pending now payload none s = tt
  push_part-pending now payload (some k) s =
      Whenever-bind (λ t. length t.pending ≤ length s.pending) (slice_from payload k) _
        (λ part. push-pending now part s)

  -- Fewer than `n` segments are left if the loop goes on.
  abbrev pub Fewer : ℕ → Stream State × Bool → Type 0
  Fewer n r = r.1 ≡ true → length r.0.pending < n

  drain_chosen-Fewer :
      (n now : ℕ) (s : Stream State) (kept : List Segment) (bytes : ℕ) (c : Option Segment)
      → length kept + chosen_count c ≤ n
      → Whenever (Fewer n) (drain_chosen P R now s kept bytes c)
  unfolding drain_chosen Whenever
  drain_chosen-Fewer n now s kept bytes none h = λ e. absurd (cc e)
  drain_chosen-Fewer n now s kept bytes (some g) h =
      let t = record s { pending = kept; pending_bytes = bytes - length g.payload } in
      Whenever-map (λ u. length u.pending ≤ length kept) (Fewer n)
        (push_part P R now g.payload (back (diff32 g.seq s.expected)) t) (λ u. (u, true))
        (push_part-pending now g.payload (back (diff32 g.seq s.expected)) t)
        (λ u k _. omega (arith, h, k))

  -- A round that answers leaves fewer segments behind than it found, if the loop goes on.
  pub drain_round-Fewer :
      (Q : Stream State × Bool → Type 0) (now : ℕ) (s : Stream State)
      → Ensures Q (drain_round P R now s)
      → Ensures (λ r. Q r × Fewer (length s.pending) r) (drain_round P R now s)
  unfolding drain_round
  drain_round-Fewer Q now s q =
      let gs = arrange s.pending in
      let r = pick s.expected gs s.pending_bytes in
      Whenever-also Q (Fewer (length s.pending)) _ q (
        drain_chosen-Fewer (length s.pending) now s r.kept r.bytes r.chosen (
          omega
            (arith, pick-kept s.expected gs s.pending_bytes, length-perm (arrange_perm s.pending))))
