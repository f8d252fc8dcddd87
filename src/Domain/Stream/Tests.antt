-- ===== src/Domain/Stream/Tests.antt =====
-- Runs of reassembly with a parser that records what it is fed, and the theorems at these inputs.
use mathlib.Core.List.Permᴰ
use socktrail.Base.{
  ℕ, ◌+◌, ◌^◌, ◌≡◌, ◌↔◌, ◌||◌, refl, false, [], ◌∷◌, ◌++◌, none, Bytes, length, take, ◌==◌, ok,
  panic, Ensures, slice_from, arith,
}
use socktrail.Domain.Stream.State.{diff32, Segment, lookup, put, RangeOrder, Parser, Stream}
use socktrail.Domain.Stream.Ops.{
  new, pick, fail, pushed, push, push_part, drain_chosen, drain_round, drain_loop, drain, hold,
  deliver, add,
}
use socktrail.Domain.Stream.Accounting.{Held-nil, IsSettled, add-IsSettled}
use socktrail.Domain.Stream.Delivery.{Sent, Fed, add_all, add_all-new}
use socktrail.Domain.Stream.Panic.{add_panic_iff}

-- It never finishes and never fails.
abbrev recorder : Parser
recorder = record {
  State = Bytes;
  feed = λ fed part. (fed ++ part, none);
  skip = λ fed n. (fed, none);
  finished = λ _. false;
  abandon = λ _ fed. fed;
}

abbrev in_order : RangeOrder
in_order = record { arrange = λ gs. gs; arrange_perm = Permᴰ.refl }

abbrev fresh : Stream Bytes
fresh = new [] 100 5

abbrev sent : Sent
sent = record { first = 100; bytes = 1 ∷ 2 ∷ 3 ∷ 4 ∷ []; short = omega arith; word = omega arith }

abbrev late : Segment
late = record { seq = 102; payload = 3 ∷ 4 ∷ [] }

abbrev early : Segment
early = record { seq = 100; payload = 1 ∷ 2 ∷ 3 ∷ [] }

-- The second segment first, then one that overlaps it.
out_of_order :
    add_all recorder in_order [] sent ((7, late) ∷ (8, early) ∷ []) fresh
    ≡ ok (record {
      parser = 1 ∷ 2 ∷ 3 ∷ 4 ∷ [];
      pending = [];
      last_progress = 8;
      gap_since = none;
      pending_bytes = 0;
      expected = 104;
      failed = false;
    })
unfolding add_all new add drain drain_loop deliver hold push pushed fail drain_round drain_chosen
    push_part pick put lookup slice_from
out_of_order = refl

fresh-IsSettled : IsSettled fresh
unfolding new
fresh-IsSettled = record { held = Held-nil; bounded = omega arith; waiting = tt; dead = λ _. refl }

add-IsSettled_example : Ensures IsSettled (add recorder in_order 6 102 (3 ∷ 4 ∷ []) fresh)
add-IsSettled_example =
    add-IsSettled recorder in_order 6 102 (3 ∷ 4 ∷ []) fresh fresh-IsSettled (omega arith)
      (unfold new in omega arith)

add_all-new_example :
    Ensures
      (λ s.
        s.failed ≡ false → (done : ℕ) × Fed recorder [] s.parser (take done (1 ∷ 2 ∷ 3 ∷ 4 ∷ [])))
      (add_all recorder in_order [] sent ((7, late) ∷ (8, early) ∷ []) (new [] 100 5))
add_all-new_example = add_all-new recorder in_order [] sent ((7, late) ∷ (8, early) ∷ []) 5 (
  record { start = 2; seq_eq = refl; inside = omega arith; payload_eq = refl },
  (record { start = 0; seq_eq = refl; inside = omega arith; payload_eq = refl }, tt),
)

add_panic_iff_example : (add recorder in_order 6 (100 + 2 ^ 31) (1 ∷ []) fresh ≡ panic) ↔ (
    ((fresh.failed || false || length {A = ℕ} (1 ∷ []) == 0) ≡ false)
    × (diff32 (100 + 2 ^ 31) fresh.expected ≡ 2 ^ 31))
add_panic_iff_example =
    add_panic_iff recorder in_order 6 (100 + 2 ^ 31) (1 ∷ []) fresh fresh-IsSettled (omega arith)
