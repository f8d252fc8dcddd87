-- ===== src/Quic/Once.antt =====
-- internal/quicinitial/initial.go: every sequence of calls of Add, Tick and Fail.
use socktrail.Base.{
  ℕ, ◌≤◌, ◌≡◌, refl, Bool, true, false, String, List, [], ◌∷◌, Option, none, some, Bytes, length,
  All, arith, is_some, ok, Yields-Ensures, Ensures_ok, Bool-cases, inl, inr, if◌then◌else◌,
}
use socktrail.Quic.Crypto.{PartOrder}
use socktrail.Quic.Keys.{Primitives}
use socktrail.Quic.Tracker.{Tracker, Answer, fail, tick, add, new_tracker}
use socktrail.Quic.Safety.Crypto.{IsHello, Complete}
use socktrail.Quic.Safety.Tracker.{
  IsSound, Outcome, add-Outcome, fail-IsSound, tick-IsSound, new-IsSound,
}

-- The messages, the last one first.
abbrev pub emit : Option Bytes → List Bytes → List Bytes
emit none ms = ms
emit (some m) ms = m ∷ ms

module _ (P : Primitives) (R : PartOrder) where
  -- One call, with the message that it hands over.
  pub data Step : Tracker P → Option Bytes → Tracker P → Type 0 where
    adds :
        (datagram : Bytes) (now : ℕ) (t : Tracker P) (r : Tracker P × Answer)
        → add P R datagram now t ≡ ok r
        → Step t r.1.hello r.0
    ticks : (now : ℕ) (t : Tracker P) → Step t none (tick P now t)
    fails : (reason : String) (t : Tracker P) → Step t none (fail P reason t)

  -- The calls on a new tracker.
  pub data Run : List Bytes → Tracker P → Type 0 where
    start : Run [] (new_tracker P)
    more :
        (ms : List Bytes) (t u : Tracker P) (m : Option Bytes)
        → Run ms t
        → Step t m u
        → Run (emit m ms) u

  -- What a call does to a sound tracker.
  record Kept (t : Tracker P) (m : Option Bytes) (u : Tracker P) : Type 0 where
    sound : IsSound P u
    whole : Complete m
    over : is_some m ≡ true → u.done ≡ true
    final : t.done ≡ true → (u.done ≡ true) × (m ≡ none)

  add-final :
      (datagram : Bytes) (now : ℕ) (t : Tracker P) (r : Tracker P × Answer)
      → t.done ≡ true
      → add P R datagram now t ≡ ok r
      → (r.0.done ≡ true) × (r.1.hello ≡ none)
  unfolding add
  add-final datagram now t r d e = ground (arith, d, e)

  fixed :
      (b : Bool) (t u : Tracker P)
      → t.done ≡ true
      → u.done ≡ true
      → (if b then t else u).done ≡ true
  fixed true t u d e = d
  fixed false t u d e = e

  fail-final : (reason : String) (t : Tracker P) → t.done ≡ true → (fail P reason t).done ≡ true
  unfolding fail
  fail-final reason t d = fixed t.done t _ d refl

  tick-final : (now : ℕ) (t : Tracker P) → t.done ≡ true → (tick P now t).done ≡ true
  unfolding tick
  tick-final now t d = fixed _ _ t (fail-final "QUIC ClientHello gap timeout" t d) d

  Step-Kept :
      (t : Tracker P) (m : Option Bytes) (u : Tracker P) → Step t m u → IsSound P t → Kept t m u
  Step-Kept t m u (adds datagram now t' r e) s =
      let o =
        Ensures_ok (Outcome P) (add P R datagram now t')
          (Yields-Ensures (Outcome P) (add P R datagram now t') (add-Outcome P R datagram now t' s))
          e in
      record {
        sound = o.sound;
        whole = o.whole;
        over = o.over;
        final = λ d. add-final datagram now t' r d e;
      }
  Step-Kept t m u (ticks now t') s = record {
    sound = tick-IsSound P now t' s;
    whole = tt;
    over = λ e. absurd (cc e);
    final = λ d. (tick-final now t' d, refl);
  }
  Step-Kept t m u (fails reason t') s = record {
    sound = fail-IsSound P reason t' s;
    whole = tt;
    over = λ e. absurd (cc e);
    final = λ d. (fail-final reason t' d, refl);
  }

  -- What holds behind a sequence of calls.
  pub record Reached (ms : List Bytes) (t : Tracker P) : Type 0 where
    pub sound : IsSound P t
    pub at_most_one : length ms ≤ 1
    pub whole : All IsHello ms
    pub open_before : t.done ≡ false → length ms ≡ 0

  Reached-more :
      (ms : List Bytes) (t u : Tracker P) (m : Option Bytes)
      → Reached ms t
      → Kept t m u
      → Reached (emit m ms) u
  Reached-more ms t u none r k = record {
    sound = k.sound;
    at_most_one = r.at_most_one;
    whole = r.whole;
    open_before = λ e. elim (Bool-cases t.done) [
      | inl y ↦ absurd (cc (e, (k.final y).0))
      | inr n ↦ r.open_before n
    ];
  }
  Reached-more ms t u (some m) r k = record {
    sound = k.sound;
    at_most_one = elim (Bool-cases t.done) [
      | inl y ↦ absurd (let bad : some m ≡ none = (k.final y).1 in cc bad)
      | inr n ↦ omega (arith, r.open_before n)
    ];
    whole = (k.whole, r.whole);
    open_before = λ e. absurd (cc (e, k.over refl));
  }

  -- Whatever the sequence of calls on a new tracker, it hands over at most one message, which is a
  -- whole ClientHello, and keeps within its limits.
  pub Run-Reached : (ms : List Bytes) (t : Tracker P) → Run ms t → Reached ms t
  Run-Reached ms t start = record {
    sound = new-IsSound P;
    at_most_one = omega arith;
    whole = tt;
    open_before = λ _. refl;
  }
  Run-Reached ms t (more ns u v m r s) =
      let before = Run-Reached ns u r in
      Reached-more ns u v m before (Step-Kept u m v s before.sound)
