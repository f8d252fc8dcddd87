-- ===== src/Domain/Stream/Panic.antt =====
-- internal/domain/stream.go: `overlap := int(-diff)` where the negation of an int32 wraps.
use socktrail.Base.{
  ℕ, ◌<◌, ◌^◌, ◌≡◌, ◌↔◌, inl, inr, false, ◌||◌, Bytes, length, arith, ◌==◌, Bool-cases, panic,
  Ensures-ne-panic,
}
use socktrail.Domain.Stream.State.{diff32, RangeOrder, Parser, Stream}
use socktrail.Domain.Stream.Ops.{deliver, add}
use socktrail.Domain.Stream.Accounting.{IsSettled, add-IsSettled}

module _ (P : Parser) (R : RangeOrder) where
  open P use {State, finished}

  -- On a settled stream and a payload below 1 GiB, `Add` panics exactly when it looks at the segment
  -- at all and the segment starts 2 ^ 31 bytes from what is expected.
  pub add_panic_iff :
      (now seq : ℕ) (payload : Bytes) (s : Stream State)
      → IsSettled s
      → length payload < 2 ^ 30
      → (add P R now seq payload s ≡ panic) ↔ (
          ((s.failed || finished s.parser || length payload == 0) ≡ false)
          × (diff32 seq s.expected ≡ 2 ^ 31))
  unfolding add deliver
  add_panic_iff now seq payload s v h = (forth, back')
    where
      forth :
          add P R now seq payload s ≡ panic
          → ((s.failed || finished s.parser || length payload == 0) ≡ false)
            × (diff32 seq s.expected ≡ 2 ^ 31)
      forth e = elim (Bool-cases (s.failed || finished s.parser || length payload == 0)) [
        | inl y ↦ absurd (cc (simp y at e))
        | inr n ↦ elim (Bool-cases (diff32 seq s.expected == 2 ^ 31)) [
          | inl y ↦ (n, ground arith)
          | inr n' ↦ absurd (
              Ensures-ne-panic IsSettled (add P R now seq payload s)
                (add-IsSettled P R now seq payload s v h (ground arith)) e)
        ]
      ]

      back' :
          ((s.failed || finished s.parser || length payload == 0) ≡ false)
            × (diff32 seq s.expected ≡ 2 ^ 31)
          → add P R now seq payload s ≡ panic
      back' (n, e) = simp (n, e)
