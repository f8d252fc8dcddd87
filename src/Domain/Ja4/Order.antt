-- ===== src/Domain/Ja4/Order.antt =====
-- internal/domain/ja4.go: the fingerprint, GREASE values and the order of lists.
use socktrail.Base.{
  ℕ, ◌≡◌, refl, ◌∙◌, Bool, true, false, not, ◌||◌, List, [], ◌∷◌, Bytes, length-perm, ◌==◌, arith,
  Bool-cases, inl, inr,
}
use mathlib.Core.List.{Permᴰ}
use mathlib.Core.List.Permᴰ
use socktrail.Domain.Tls.Hello.{Ja4Fields}
use socktrail.Domain.Ja4.Fingerprint.{
  keep, contains_zero, insert, sorted, without_grease, first_part, second_part, third_part,
  fingerprint,
}

insert-insert : (v w : ℕ) (xs : List ℕ) → insert v (insert w xs) ≡ insert w (insert v xs)
unfolding insert
insert-insert v w [] = grind arith
insert-insert v w (x ∷ xs) = grind (arith, insert-insert v w xs)

or_swap : (a b c : Bool) → a || (b || c) ≡ b || (a || c)
or_swap true true c = refl
or_swap true false c = refl
or_swap false true c = refl
or_swap false false c = refl

keep_swap : (p : ℕ → Bool) (v w : ℕ) (l : List ℕ) → Permᴰ (keep p (v ∷ w ∷ l)) (keep p (w ∷ v ∷ l))
unfolding keep
keep_swap p v w l = elim (Bool-cases (p v)) [
  | inl y ↦ elim (Bool-cases (p w)) [
    | inl y' ↦ rw (y, y') (Permᴰ.swap refl refl)
    | inr n' ↦ rw (y, n') (Permᴰ.refl _)
  ]
  | inr n ↦ elim (Bool-cases (p w)) [
    | inl y' ↦ rw (n, y') (Permᴰ.refl _)
    | inr n' ↦ rw (n, n') (Permᴰ.refl _)
  ]
]

sorted-perm : {xs ys : List ℕ} → Permᴰ xs ys → sorted xs ≡ sorted ys
unfolding sorted
sorted-perm Permᴰ.nil = refl
sorted-perm (Permᴰ.cons e p) = rw (e, sorted-perm p) refl
sorted-perm (Permᴰ.swap {a} {b} {a'} {b'} {l} e e') = rw (e, e') (insert-insert b' a' (sorted l))
sorted-perm (Permᴰ.trans p q) = sorted-perm p ∙ sorted-perm q

contains_zero-perm : {xs ys : List ℕ} → Permᴰ xs ys → contains_zero xs ≡ contains_zero ys
unfolding contains_zero
contains_zero-perm Permᴰ.nil = refl
contains_zero-perm (Permᴰ.cons e p) = rw (e, contains_zero-perm p) refl
contains_zero-perm (Permᴰ.swap {a} {b} {a'} {b'} {l} e e') =
    rw (e, e') (or_swap (b' == 0) (a' == 0) (contains_zero l))
contains_zero-perm (Permᴰ.trans p q) = contains_zero-perm p ∙ contains_zero-perm q

keep-perm : (p : ℕ → Bool) {xs ys : List ℕ} → Permᴰ xs ys → Permᴰ (keep p xs) (keep p ys)
unfolding keep
keep-perm p Permᴰ.nil = Permᴰ.nil
keep-perm p (Permᴰ.cons {a} {b} e d) = elim (Bool-cases (p b)) [
  | inl y ↦ rw (e, y) (Permᴰ.cons refl (keep-perm p d))
  | inr n ↦ rw (e, n) (keep-perm p d)
]
keep-perm p (Permᴰ.swap {a} {b} {a'} {b'} {l} e e') = rw (e, e') (keep_swap p b' a' l)
keep-perm p (Permᴰ.trans d d') = Permᴰ.trans (keep-perm p d) (keep-perm p d')

-- A fingerprint is made of what is left without GREASE, of the cipher suites and the extensions in
-- any order: two hellos that differ in those respects only have the same fingerprint.
pub fingerprint-perm :
    (sum256 : Bytes → Bytes) (transport : ℕ) (f g : Ja4Fields)
    → Permᴰ (without_grease f.ciphers) (without_grease g.ciphers)
    → Permᴰ (without_grease f.extensions) (without_grease g.extensions)
    → without_grease f.versions ≡ without_grease g.versions
    → without_grease f.signatures ≡ without_grease g.signatures
    → f.version ≡ g.version
    → f.alpn ≡ g.alpn
    → fingerprint sum256 transport f ≡ fingerprint sum256 transport g
unfolding fingerprint first_part second_part third_part
fingerprint-perm sum256 transport f g ciphers extensions versions signatures version alpn =
    let hashed = keep-perm (λ e. not (e == 0 || e == 16)) extensions in
    rw
      (
        length-perm ciphers,
        sorted-perm ciphers,
        length-perm extensions,
        contains_zero-perm extensions,
        length-perm hashed,
        sorted-perm hashed,
        versions,
        signatures,
        version,
        alpn,
      )
      refl
