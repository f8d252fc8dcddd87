-- ===== src/Domain/Server/Reading.antt =====
-- internal/domain/tls_server.go: parseServerHello on any bytes.
use socktrail.Base.{
  ℕ, zero, suc, ◌+◌, ◌-◌, ◌≤◌, ◌<◌, ◌≡◌, ◌∙◌, inl, inr, not, List, [], ◌∷◌, Bytes, length, leb,
  ◌==◌, All, arith, Bool-cases, ok, Ensures, Ensures-bind, be16_ok,
}
use socktrail.Domain.Cursor.{
  Cursor, take_bytes, take_uint8, take_uint16, relabel, Moved, take_bytes-Moved, take_uint8-Moved,
  take_uint16-Moved, Ensures-relabel,
}
use socktrail.Domain.Hostname.{IsPrintable}
use socktrail.Domain.Tls.Hello.{parse_alpn}
use socktrail.Domain.Tls.Printable.{parse_alpn-IsPrintable}
use socktrail.Domain.Server.Hello.{
  Chosen, single, server_extension, server_entry, server_extensions, server_tail,
  parse_server_hello,
}

-- The protocol is printable.
unfoldable pub IsChosen : Chosen → Type 0
IsChosen chosen = All IsPrintable chosen.alpn

single-IsPrintable :
    (ps : List Bytes) (alpn : Bytes)
    → All (All IsPrintable) ps
    → All IsPrintable alpn
    → All IsPrintable (single ps alpn)
unfolding single
single-IsPrintable [] alpn h k = k
single-IsPrintable (p ∷ []) alpn h k = h.0
single-IsPrintable (p ∷ q ∷ ps) alpn h k = k

server_extension-IsChosen :
    (kind : ℕ) (body : Bytes) (chosen : Chosen)
    → IsChosen chosen
    → Ensures IsChosen (server_extension kind body chosen)
unfolding server_extension IsChosen
server_extension-IsChosen kind body chosen h =
    let protocols =
      Ensures-bind (All (All IsPrintable)) IsChosen (parse_alpn body)
        (λ ps. ok (record chosen { alpn = single ps chosen.alpn })) (parse_alpn-IsPrintable body)
        (λ ps k. single-IsPrintable ps chosen.alpn k h) in
    elim (Bool-cases (kind == 43)) [
      | inl y ↦ rw y (elim (Bool-cases (not (length body == 2))) [
        | inl y' ↦ rw y' tt
        | inr n' ↦ rw (n', be16_ok body 0 (ground (arith, n'))) h
      ])
      | inr n ↦
          rw n (elim (Bool-cases (kind == 16)) [ inl y' ↦ rw y' protocols | inr n' ↦ rw n' h ])
    ]

-- A cursor that moved on in the same bytes.
record Further (c c' : Cursor) : Type 0 where
  same : c'.bytes ≡ c.bytes
  further : c.off < c'.off
  within : c'.off ≤ length c'.bytes

server_entry-Further :
    (c : Cursor) (chosen : Chosen)
    → IsChosen chosen
    → Ensures (λ r. Further c r.0 × IsChosen r.1) (server_entry c chosen)
unfolding server_entry
server_entry-Further c chosen h =
    Ensures-bind _ _ (take_uint16 c) _ (take_uint16-Moved c) (λ (kind, c1) m1.
      Ensures-bind _ _ (take_uint16 c1) _ (take_uint16-Moved c1) (λ (size, c2) m2.
        Ensures-bind _ _ (take_bytes size c2) _ (take_bytes-Moved size c2) (λ (body, c3) m3.
          Ensures-bind IsChosen _ (server_extension kind body chosen) _
            (server_extension-IsChosen kind body chosen h)
            (λ chosen' h'. (
              record {
                same = m3.1.same_bytes ∙ m2.same_bytes ∙ m1.same_bytes;
                further = ground (arith, m1, m2, m3);
                within = m3.1.inside;
              },
              h',
            )))))

server_extensions-IsChosen :
    (turns : ℕ) (c : Cursor) (chosen : Chosen)
    → c.off ≤ length c.bytes
    → length c.bytes - c.off < turns
    → IsChosen chosen
    → Ensures IsChosen (server_extensions turns c chosen)
unfolding server_extensions
server_extensions-IsChosen zero c chosen inside h k = absurd (omega arith)
server_extensions-IsChosen (suc turns) c chosen inside h k =
    elim (Bool-cases (leb (length c.bytes) c.off)) [
      | inl y ↦ rw y k
      | inr n ↦ rw n (
          Ensures-bind _ _ (server_entry c chosen) _ (server_entry-Further c chosen k)
            (λ (c', chosen') (f, k').
              server_extensions-IsChosen turns c' chosen' f.within
                (ground (arith, f.same, f.further, f.within)) k'))
    ]

server_tail-IsChosen : (legacy : ℕ) (c : Cursor) → Ensures IsChosen (server_tail legacy c)
unfolding server_tail IsChosen
server_tail-IsChosen legacy c = elim (Bool-cases (c.off == length c.bytes)) [
  | inl y ↦ rw y tt
  | inr n ↦ rw n (
      Ensures-bind (λ r. Moved 2 c r.1) IsChosen (take_uint16 c) _ (take_uint16-Moved c)
        (λ (size, c1) m1.
          Ensures-bind (λ r. (length r.0 ≡ size) × Moved size c1 r.1) IsChosen
            (relabel "invalid TLS extensions length" (take_bytes size c1)) _
            (Ensures-relabel (λ r. (length r.0 ≡ size) × Moved size c1 r.1)
              "invalid TLS extensions length" (take_bytes size c1) (take_bytes-Moved size c1))
            (λ (extensions, c2) m2. elim (Bool-cases (not (c2.off == length c2.bytes))) [
              | inl y ↦ rw y tt
              | inr n ↦ rw n (
                  server_extensions-IsChosen (suc (length extensions))
                    (record { bytes = extensions; off = 0 })
                    (record { version = legacy; alpn = [] }) (omega arith) (omega arith) tt)
            ])))
]

-- Reading a ServerHello never panics, and a protocol that it names is printable.
pub parse_server_hello-IsChosen : (b : Bytes) → Ensures IsChosen (parse_server_hello b)
unfolding parse_server_hello
parse_server_hello-IsChosen b =
    Ensures-bind _ _ (take_uint16 _) _ (take_uint16-Moved _) (λ (legacy, c1) m1.
      Ensures-bind _ _ (take_bytes 32 c1) _ (take_bytes-Moved 32 c1) (λ (random, c2) m2.
        Ensures-bind _ _ (take_uint8 c2) _ (take_uint8-Moved c2) (λ (session, c3) m3.
          Ensures-bind _ _ (take_bytes (session + 3) c3) _ (take_bytes-Moved (session + 3) c3)
            (λ (chosen, c4) m4. server_tail-IsChosen legacy c4))))
