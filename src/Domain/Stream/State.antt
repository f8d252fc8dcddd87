-- ===== src/Domain/Stream/State.antt =====
-- internal/domain/stream.go: sequence numbers, the segments held back, and the `Stream`.
use mathlib.Core.List.{Permᴰ}
use socktrail.Base.{
  ℕ, ◌+◌, ◌-◌, ◌*◌, ◌%◌, ◌^◌, Bool, true, ◌&&◌, String, List, [], ◌∷◌, Option, none, some, Bytes,
  ltb, ◌==◌, if◌then◌else◌,
}

abbrev pub max_pending_bytes : ℕ
max_pending_bytes = 64 * 1024

abbrev pub max_pending_parts : ℕ
max_pending_parts = 64

-- `a - b` of two uint32s; as an int32 it is positive below 2 ^ 31, and negative from there on.
abbrev pub diff32 : ℕ → ℕ → ℕ
diff32 a b = (a + 2 ^ 32 - b) % 2 ^ 32

abbrev pub add32 : ℕ → ℕ → ℕ
add32 a n = (a + n) % 2 ^ 32

-- `int32(d) > 0`
abbrev pub ahead : ℕ → Bool
ahead d = ltb 0 d && ltb d (2 ^ 31)

-- `int(-d)` for an int32 `d <= 0`. The negation of the least int32 is itself, so the result is
-- negative there: `none`.
abbrev pub back : ℕ → Option ℕ
back d = if d == 0 then some 0 else if d == 2 ^ 31 then none else some (2 ^ 32 - d)

-- `int(-d) < n`
abbrev pub back_lt : Option ℕ → ℕ → Bool
back_lt none n = true
back_lt (some k) n = ltb k n

-- An entry of the map `pending`.
pub record Segment : Type 0 where
  pub seq : ℕ
  pub payload : Bytes

-- `pending[seq]`, which is empty for a missing key.
unfoldable pub lookup : ℕ → List Segment → Bytes
lookup seq [] = []
lookup seq (g ∷ gs) = if g.seq == seq then g.payload else lookup seq gs

-- `pending[seq] = payload`
unfoldable pub put : ℕ → Bytes → List Segment → List Segment
put seq payload [] = record { seq = seq; payload = payload } ∷ []
put seq payload (g ∷ gs) =
    let rest = put seq payload gs in
    if g.seq == seq then record { seq = seq; payload = payload } ∷ gs else g ∷ rest

-- The order in which `range` visits a map is Go's choice: some permutation of the entries.
pub record RangeOrder : Type 0 where
  pub arrange : List Segment → List Segment
  pub arrange_perm : (gs : List Segment) → Permᴰ (arrange gs) gs

-- What reassembly uses of `parser`: each method with the state that it leaves and the error that it
-- returns. `abandon` is what `Fail` writes to it.
pub record Parser : Type 1 where
  pub State : Type 0
  pub feed : State → Bytes → State × Option String
  pub skip : State → ℕ → State × Option String
  pub finished : State → Bool
  pub abandon : String → State → State

-- The fields that reassembly reads and writes. Times are nanoseconds, and `none` the zero time.
pub record Stream (S : Type 0) : Type 0 where
  pub parser : S
  pub pending : List Segment
  pub last_progress : ℕ
  pub gap_since : Option ℕ
  pub pending_bytes : ℕ
  pub expected : ℕ
  pub failed : Bool
