-- ===== src/Domain/Server/Names.antt =====
-- internal/domain/tls_server.go, certificateNames: what a certificate's names can be.
use socktrail.Base.{
  ℕ, zero, suc, ◌+◌, ◌≤◌, ◌<◌, ◌≡◌, inl, inr, Bool, true, not, ◌&&◌, ◌||◌, List, [], ◌∷◌, ◌++◌,
  Option, none, some, Bytes, length, length-append, leb, ◌==◌, if◌then◌else◌, All, All-append,
  arith, Bool-cases, Res, ◌>>=◌, Yields, Yields-bind, equal,
}
use socktrail.Domain.Hostname.{
  IsPrintable, valid_hostname, normalize_name, valid_hostname-IsPrintable,
  normalize_name-IsPrintable,
}
use socktrail.Domain.Server.Der.{Element, der_element, Within, der_element-Within}
use socktrail.Domain.Server.Certificate.{
  max_certificate_names, oid_common_name, oid_subject_alt_name, content_of, field, field_loop,
  general_name, general_loop, octet_names, behind_flag, alt_names, extension_value, extension_turn,
  extension_names, common_name, attribute_name, subject_turn, subject_names, field_names,
  behind_version, tbs_names, outer_names, certificate_names,
}

-- At most eight names, of printable characters.
pub record Named (names : List Bytes) : Type 0 where
  pub few : length names ≤ max_certificate_names
  pub printable : All (All IsPrintable) names

-- A loop that goes on behind an element of `b`.
Continues : Bytes → (Bytes → List Bytes → Res (List Bytes)) → Type 0
Continues b next =
    (rest : Bytes) (ns : List Bytes)
    → length rest < length b
    → Named ns
    → Yields Named (next rest ns)

-- Reading an element and going on.
der-bind :
    {B : Type 0} (Q : B → Type 0) (b : Bytes) (f : Option Element → Res B)
    → ((e : Option Element) → Within b e → Yields Q (f e))
    → Yields Q (der_element b >>= f)
der-bind Q b f k = Yields-bind (Within b) Q (der_element b) f (der_element-Within b) k

-- One more name, where there is room for it.
Named-add :
    (use_it : Bool) (names : List Bytes) (name : Bytes)
    → length names < max_certificate_names
    → Named names
    → Named (if use_it && valid_hostname name then names ++ (normalize_name name ∷ []) else names)
Named-add use_it names name h n = elim (Bool-cases (use_it && valid_hostname name)) [
  | inl y ↦ rw y (record {
    few = omega (arith, h, length-append names (normalize_name name ∷ []));
    printable =
        let valid : valid_hostname name ≡ true = ground (arith, y) in
        All-append (All IsPrintable) names (normalize_name name ∷ []) n.printable
          (normalize_name-IsPrintable name (valid_hostname-IsPrintable name valid), tt);
  })
  | inr m ↦ rw m n
]

general_name-Named :
    (b : Bytes) (names : List Bytes) (next : Bytes → List Bytes → Res (List Bytes))
    (e : Option Element)
    → length names < max_certificate_names
    → Named names
    → Within b e
    → Continues b next
    → Yields Named (general_name names next e)
unfolding general_name Continues
general_name-Named b names next none h n w k = n
general_name-Named b names next (some e) h n w k =
    k e.rest _ (omega (arith, w)) (Named-add (e.tag == 0x82) names e.content h n)

general_loop-Named :
    (turns : ℕ) (general : Bytes) (names : List Bytes)
    → length general < turns
    → Named names
    → Yields Named (general_loop turns general names)
unfolding general_loop Continues
general_loop-Named zero general names h n = absurd (omega arith)
general_loop-Named (suc turns) general names h n =
    elim (Bool-cases (length general == 0 || leb max_certificate_names (length names))) [
      | inl y ↦ rw y n
      | inr m ↦ rw m (
          der-bind Named general _ (λ e w.
            general_name-Named general names (λ rest ns. general_loop turns rest ns) e
              (ground (arith, m)) n w
              (λ rest ns less n'. general_loop-Named turns rest ns (omega (arith, h, less)) n')))
    ]

octet_names-Named :
    (names : List Bytes) (e : Option Element) → Named names → Yields Named (octet_names names e)
unfolding octet_names
octet_names-Named names none n = n
octet_names-Named names (some e) n =
    general_loop-Named (suc (length e.content)) e.content names (omega arith) n

-- What goes on with any names.
Passes : (List Bytes → Res (List Bytes)) → Type 0
Passes next = (ns : List Bytes) → Named ns → Yields Named (next ns)

alt_names-Named :
    (names : List Bytes) (next : List Bytes → Res (List Bytes)) (e : Option Element)
    → Named names
    → Passes next
    → Yields Named (alt_names names next e)
unfolding alt_names Passes
alt_names-Named names next none n k = n
alt_names-Named names next (some e) n k = elim (Bool-cases (not (e.tag == 0x04))) [
  | inl y ↦ rw y n
  | inr m ↦ rw m (
      der-bind Named e.content _ (λ general w.
        Yields-bind Named Named (octet_names names general) next (octet_names-Named names general n)
          k))
]

behind_flag-Yields : (e : Option Element) → Yields (λ _. Unit {0}) (behind_flag e)
unfolding behind_flag
behind_flag-Yields none = tt
behind_flag-Yields (some e) = ground (arith, der_element-Within e.rest)

extension_value-Named :
    (names : List Bytes) (next : List Bytes → Res (List Bytes)) (e : Option Element)
    → Named names
    → Passes next
    → Yields Named (extension_value names next e)
unfolding extension_value Passes
extension_value-Named names next none n k = k names n
extension_value-Named names next (some e) n k =
    elim (Bool-cases (not (equal e.content oid_subject_alt_name))) [
      | inl y ↦ rw y (k names n)
      | inr m ↦ rw m (
          der-bind Named e.rest _ (λ first w.
            Yields-bind (λ _. Unit {0}) Named (behind_flag first) _ (behind_flag-Yields first)
              (λ octets _. alt_names-Named names next octets n k)))
    ]

extension_turn-Named :
    (b : Bytes) (names : List Bytes) (next : Bytes → List Bytes → Res (List Bytes))
    (e : Option Element)
    → Named names
    → Within b e
    → Continues b next
    → Yields Named (extension_turn names next e)
unfolding extension_turn Continues Passes
extension_turn-Named b names next none n w k = n
extension_turn-Named b names next (some e) n w k = der-bind Named e.content _ (λ parts _.
    extension_value-Named names (λ ns. next e.rest ns) parts n
      (λ ns n'. k e.rest ns (omega (arith, w)) n'))

extension_names-Named :
    (turns : ℕ) (list : Bytes) (names : List Bytes)
    → length list < turns
    → Named names
    → Yields Named (extension_names turns list names)
unfolding extension_names Continues
extension_names-Named zero list names h n = absurd (omega arith)
extension_names-Named (suc turns) list names h n = elim (Bool-cases (length list == 0)) [
  | inl y ↦ rw y n
  | inr m ↦ rw m (
      der-bind Named list _ (λ e w.
        extension_turn-Named list names (λ rest ns. extension_names turns rest ns) e n w
          (λ rest ns less n'. extension_names-Named turns rest ns (omega (arith, h, less)) n')))
]

common_name-Named :
    (names : List Bytes) (e : Option Element)
    → length names < max_certificate_names
    → Named names
    → Named (common_name names e)
unfolding common_name
common_name-Named names none h n = n
common_name-Named names (some e) h n = Named-add true names e.content h n

attribute_name-Named :
    (names : List Bytes) (e : Option Element)
    → length names < max_certificate_names
    → Named names
    → Yields Named (attribute_name names e)
unfolding attribute_name
attribute_name-Named names none h n = n
attribute_name-Named names (some e) h n =
    elim (Bool-cases (not (equal e.content oid_common_name))) [
      | inl y ↦ rw y n
      | inr m ↦ rw m (der-bind Named e.rest _ (λ value _. common_name-Named names value h n))
    ]

subject_turn-Named :
    (b : Bytes) (names : List Bytes) (next : Bytes → List Bytes → Res (List Bytes))
    (e : Option Element)
    → length names < max_certificate_names
    → Named names
    → Within b e
    → Continues b next
    → Yields Named (subject_turn names next e)
unfolding subject_turn Continues
subject_turn-Named b names next none h n w k = n
subject_turn-Named b names next (some e) h n w k = der-bind Named e.content _ (λ attribute _.
    der-bind Named (content_of attribute) _ (λ parts _.
      Yields-bind Named Named (attribute_name names parts) _ (attribute_name-Named names parts h n)
        (λ ns n'. k e.rest ns (omega (arith, w)) n')))

subject_names-Named :
    (turns : ℕ) (subject : Bytes) (names : List Bytes)
    → length subject < turns
    → Named names
    → Yields Named (subject_names turns subject names)
unfolding subject_names Continues
subject_names-Named zero subject names h n = absurd (omega arith)
subject_names-Named (suc turns) subject names h n =
    elim (Bool-cases (not (length names == 0) || length subject == 0)) [
      | inl y ↦ rw y n
      | inr m ↦ rw m (
          der-bind Named subject _ (λ e w.
            subject_turn-Named subject names (λ rest ns. subject_names turns rest ns) e
              (ground (arith, m)) n w
              (λ rest ns less n'. subject_names-Named turns rest ns (omega (arith, h, less)) n')))
    ]

field-Yields :
    (b : Bytes) (i : ℕ) (subject extensions : Bytes)
    (next : Bytes → Bytes → Bytes → Res (Option (Bytes × Bytes))) (e : Option Element)
    → Within b e
    → ((rest s x : Bytes) → length rest < length b → Yields (λ _. Unit {0}) (next rest s x))
    → Yields (λ _. Unit {0}) (field i subject extensions next e)
unfolding field
field-Yields b i subject extensions next none w k = tt
field-Yields b i subject extensions next (some e) w k =
    let less : length e.rest < length b = omega (arith, w) in
    elim (Bool-cases (i == 4)) [
      | inl y ↦ rw y (k e.rest e.content extensions less)
      | inr n ↦ rw n (elim (Bool-cases (e.tag == 0xa3)) [
        | inl y ↦ rw y (k e.rest subject e.content less)
        | inr n ↦ rw n (k e.rest subject extensions less)
      ])
    ]

field_loop-Yields :
    (turns i : ℕ) (tbs subject extensions : Bytes)
    → length tbs < turns
    → Yields (λ _. Unit {0}) (field_loop turns i tbs subject extensions)
unfolding field_loop
field_loop-Yields zero i tbs subject extensions h = absurd (omega arith)
field_loop-Yields (suc turns) i tbs subject extensions h = elim (Bool-cases (length tbs == 0)) [
  | inl y ↦ rw y tt
  | inr n ↦ rw n (
      der-bind (λ _. Unit {0}) tbs _
        (λ e w.
          field-Yields tbs i subject extensions (λ rest s x. field_loop turns (i + 1) rest s x) e w
            (λ rest s x less. field_loop-Yields turns (i + 1) rest s x (omega (arith, h, less)))))
]

no_names : Named []
no_names = record { few = omega arith; printable = tt }

field_names-Named : (fields : Option (Bytes × Bytes)) → Yields Named (field_names fields)
unfolding field_names
field_names-Named none = no_names
field_names-Named (some (subject, extensions)) = der-bind Named extensions _ (λ list _.
    Yields-bind Named Named (extension_names (suc (length (content_of list))) (content_of list) [])
      _
      (extension_names-Named (suc (length (content_of list))) (content_of list) [] (omega arith)
        no_names)
      (λ names n. subject_names-Named (suc (length subject)) subject names (omega arith) n))

tbs_names-Named : (e : Option Element) → Yields Named (tbs_names e)
unfolding tbs_names
tbs_names-Named none = no_names
tbs_names-Named (some e) = der-bind Named e.content _ (λ version _.
    let tbs = behind_version e.content version in
    Yields-bind (λ _. Unit {0}) Named (field_loop (suc (length tbs)) 0 tbs [] []) field_names
      (field_loop-Yields (suc (length tbs)) 0 tbs [] [] (omega arith))
      (λ fields _. field_names-Named fields))

outer_names-Named : (e : Option Element) → Yields Named (outer_names e)
unfolding outer_names
outer_names-Named none = no_names
outer_names-Named (some e) = der-bind Named e.content _ (λ tbs _. tbs_names-Named tbs)

-- Whatever the bytes of a certificate, reading its names ends without a panic, and gives at most
-- eight names, of printable characters only.
pub certificate_names-Named : (certificate : Bytes) → Yields Named (certificate_names certificate)
unfolding certificate_names
certificate_names-Named certificate =
    der-bind Named certificate _ (λ outer _. outer_names-Named outer)
