-- ===== src/Base/Results.antt =====
-- The outcome of Go code: a value, a returned error, or a run-time panic.
use Prim.Native.String.{String}
use mathlib.Core.Path.{◌≡◌}
use mathlib.Core.Logic.{◌≢◌}

-- `err` carries the text of the error value; `panic` is an index or a slice out of range.
pub data Res {ℓ} (A : Type ℓ) : Type ℓ where
  ok : A → Res A
  err : String → Res A
  panic : Res A

infixl 5 ◌>>=◌ ◌>>◌
abbrev pub ◌>>=◌ {ℓ κ} : {A : Type ℓ} {B : Type κ} → Res A → (A → Res B) → Res B
ok a >>= f = f a
err e >>= f = err e
panic >>= f = panic

abbrev pub ◌>>◌ {ℓ} : {B : Type ℓ} → Res (Unit {0}) → Res B → Res B
m >> k = m >>= λ _. k

-- The code does not panic, and a value that it returns satisfies `P`.
abbrev pub Ensures {ℓ} : {A : Type ℓ} → (A → Type 0) → Res A → Type 0
Ensures P (ok a) = P a
Ensures P (err e) = Unit {0}
Ensures P panic = ⊥

-- The code returns a value, which satisfies `P`.
abbrev pub Yields {ℓ} : {A : Type ℓ} → (A → Type 0) → Res A → Type 0
Yields P (ok a) = P a
Yields P (err e) = ⊥
Yields P panic = ⊥

module _ {ℓ κ} {A : Type ℓ} {B : Type κ} where
  pub Yields-bind :
      (P : A → Type 0) (Q : B → Type 0) (m : Res A) (f : A → Res B)
      → Yields P m
      → ((a : A) → P a → Yields Q (f a))
      → Yields Q (m >>= f)
  Yields-bind P Q (ok a) f h k = k a h
  Yields-bind P Q (err e) f h k = absurd h
  Yields-bind P Q panic f h k = absurd h

  pub Ensures-bind :
      (P : A → Type 0) (Q : B → Type 0) (m : Res A) (f : A → Res B)
      → Ensures P m
      → ((a : A) → P a → Ensures Q (f a))
      → Ensures Q (m >>= f)
  Ensures-bind P Q (ok a) f h k = k a h
  Ensures-bind P Q (err e) f h k = tt
  Ensures-bind P Q panic f h k = h

module _ {ℓ} {A : Type ℓ} where
  pub Yields-weaken :
      (P : A → Type 0) (Q : A → Type 0) (m : Res A)
      → Yields P m
      → ((a : A) → P a → Q a)
      → Yields Q m
  Yields-weaken P Q (ok a) h k = k a h
  Yields-weaken P Q (err e) h k = absurd h
  Yields-weaken P Q panic h k = absurd h

  pub Yields-Ensures : (P : A → Type 0) (m : Res A) → Yields P m → Ensures P m
  Yields-Ensures P (ok a) h = h
  Yields-Ensures P (err e) h = absurd h
  Yields-Ensures P panic h = absurd h

  pub Ensures-ne-panic : (P : A → Type 0) (m : Res A) → Ensures P m → m ≢ panic
  Ensures-ne-panic P (ok a) h = λ e. cc
  Ensures-ne-panic P (err a) h = λ e. cc
  Ensures-ne-panic P panic h = absurd h

  pub Ensures-weaken :
      (P : A → Type 0) (Q : A → Type 0) (m : Res A)
      → Ensures P m
      → ((a : A) → P a → Q a)
      → Ensures Q m
  Ensures-weaken P Q (ok a) h k = k a h
  Ensures-weaken P Q (err e) h k = tt
  Ensures-weaken P Q panic h k = h

  pub Ensures_ok : (P : A → Type 0) (m : Res A) {a : A} → Ensures P m → m ≡ ok a → P a
  Ensures_ok P m h e = rw e at h
