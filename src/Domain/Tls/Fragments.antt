-- ===== src/Domain/Tls/Fragments.antt =====
-- internal/domain/tls.go, tlsParser.feed: bytes cut into segments, and the bounds of reading them.
use socktrail.Base.{
  ℕ, zero, suc, ◌+◌, ◌-◌, ◌*◌, ◌≤◌, ◌<◌, ◌≡◌, refl, sym, ap, ◌∙◌, true, false, [], ◌++◌,
  append_assoc, Option, none, some, Bytes, length, drop, length-append, length-drop,
  get_or-append_left, take-append_left, drop-append_left, arith, Bool-cases, inl, inr,
  if◌then◌else◌, Res, ok, err, panic, ◌>>=◌, Ensures, Ensures-bind, Ensures-weaken, All, be24_at,
  index_ok, slice_ok, slice_from_ok, be16_ok, be24_ok, be16_at,
}
use socktrail.Domain.Hostname.{IsPrintable}
use socktrail.Domain.Tls.Hello.{HelloFields, parse_client_hello}
use socktrail.Domain.Tls.Printable.{PrintableHello, parse_client_hello-PrintableHello}
use socktrail.Domain.Tls.Records.{
  max_client_hello, Evidence, TlsParser, next_record, hello_message, evidence_of, with_message,
  with_record, feed_loop, feed,
}

-- The three outcomes of looking for a record, on bytes that go on.
module _ (b more : Bytes) where
  abbrev Extends : Res (Option (Bytes × Bytes)) → Type 0
  Extends panic = ⊥
  Extends (err e) = next_record (b ++ more) ≡ err e
  Extends (ok none) = Unit {0}
  Extends (ok (some (part, rest))) =
      (next_record (b ++ more) ≡ ok (some (part, rest ++ more))) × (length rest < length b)

  next_record-Extends : Extends (next_record b)
  unfolding next_record
  next_record-Extends =
      let size = be16_at b 3 in
      ground (
        arith,
        index_ok b 0,
        index_ok b 1,
        be16_ok b 3,
        index_ok (b ++ more) 0,
        index_ok (b ++ more) 1,
        be16_ok (b ++ more) 3,
        slice_ok b 5 (5 + size),
        slice_ok (b ++ more) 5 (5 + size),
        slice_from_ok b (5 + size),
        slice_from_ok (b ++ more) (5 + size),
        get_or-append_left b more 0 0,
        get_or-append_left b more 1 0,
        get_or-append_left b more 3 0,
        get_or-append_left b more 4 0,
        drop-append_left 5 b more,
        drop-append_left (5 + size) b more,
        take-append_left (5 + size - 5) (drop 5 b) more,
        length-append b more,
        length-drop 5 b,
        length-drop (5 + size) b,
      )

bind-cong :
    {A B : Type 0} (m : Res A) (f g : A → Res B) → ((a : A) → f a ≡ g a) → (m >>= f) ≡ (m >>= g)
bind-cong (ok a) f g h = h a
bind-cong (err e) f g h = refl
bind-cong panic f g h = refl

-- The parser with more bytes behind those that it holds.
abbrev held : TlsParser → Bytes → TlsParser
held p more = record p { record_bytes = p.record_bytes ++ more }

abbrev moved : TlsParser → Bytes → Bytes → TlsParser
moved p part rest = record p { record_bytes = rest; handshake = p.handshake ++ part }

module _ (sum256 : Bytes → Bytes) where
  abbrev loop : ℕ → TlsParser → Res TlsParser
  loop = feed_loop sum256

  with_message-cong :
      (f g : TlsParser → Res TlsParser) (p : TlsParser) (message : Option Bytes)
      → f p ≡ g p
      → with_message sum256 f p message ≡ with_message sum256 g p message
  unfolding with_message
  with_message-cong f g p none h = h
  with_message-cong f g p (some message) h = refl

  with_record-cong :
      (f g : TlsParser → Res TlsParser) (p : TlsParser) (found : Res (Option (Bytes × Bytes)))
      → Extends p.record_bytes [] found
      → ((q : TlsParser) → length q.record_bytes < length p.record_bytes → f q ≡ g q)
      → (found >>= with_record sum256 f p) ≡ (found >>= with_record sum256 g p)
  unfolding with_record
  with_record-cong f g p panic x h = refl
  with_record-cong f g p (err e) x h = refl
  with_record-cong f g p (ok none) x h = refl
  with_record-cong f g p (ok (some (part, rest))) (x, shorter) h =
      bind-cong (hello_message (p.handshake ++ part)) _ _ (λ message.
        with_message-cong f g (moved p part rest) message (h (moved p part rest) shorter))

  -- Enough rounds are as good as more.
  feed_loop-rounds :
      (n m : ℕ) (p : TlsParser)
      → length p.record_bytes < n
      → length p.record_bytes < m
      → loop n p ≡ loop m p
  unfolding feed_loop
  feed_loop-rounds zero m p h k = absurd (omega arith)
  feed_loop-rounds (suc n) zero p h k = absurd (omega arith)
  feed_loop-rounds (suc n) (suc m) p h k =
      with_record-cong (loop n) (loop m) p (next_record p.record_bytes)
        (next_record-Extends p.record_bytes [])
        (λ q shorter. feed_loop-rounds n m q (omega arith) (omega arith))

  -- What a later call of `feed` does with what an earlier one has left.
  abbrev resume : Bytes → TlsParser → Res TlsParser
  resume more q =
      if q.done then ok q else loop (suc (length (q.record_bytes ++ more))) (held q more)

  hello-resume :
      (hello : Res HelloFields) (f g : HelloFields → Res TlsParser) (more : Bytes)
      → ((h : HelloFields) → f h ≡ (g h >>= resume more))
      → (hello >>= f) ≡ ((hello >>= g) >>= resume more)
  hello-resume (ok h) f g more k = k h
  hello-resume (err e) f g more k = refl
  hello-resume panic f g more k = refl

  message-resume :
      (f g : TlsParser → Res TlsParser) (p : TlsParser) (more : Bytes)
      (message : Res (Option Bytes))
      → f (held p more) ≡ (g p >>= resume more)
      → (message >>= with_message sum256 f (held p more))
        ≡ ((message >>= with_message sum256 g p) >>= resume more)
  unfolding with_message
  message-resume f g p more panic h = refl
  message-resume f g p more (err e) h = refl
  message-resume f g p more (ok none) h = h
  message-resume f g p more (ok (some message)) h =
      hello-resume (parse_client_hello message) _ _ more (λ hello. refl)

  record-resume :
      (n m : ℕ) (p : TlsParser) (more : Bytes) (found : Res (Option (Bytes × Bytes)))
      → p.done ≡ false
      → length (p.record_bytes ++ more) < suc m
      → Extends p.record_bytes more found
      → ((q : TlsParser)
          → q.done ≡ false
          → length q.record_bytes < length p.record_bytes
          → loop m (held q more) ≡ (loop n q >>= resume more))
      → loop (suc m) (held p more) ≡ ((found >>= with_record sum256 (loop n) p) >>= resume more)
  unfolding feed_loop with_record
  record-resume n m p more panic d k x h = absurd x
  record-resume n m p more (err e) d k x h = rw x refl
  record-resume n m p more (ok none) d k x h =
      feed_loop-rounds (suc m) (suc (length (p.record_bytes ++ more))) (held p more) k (omega arith)
      ∙ ap (λ t. if t then ok p else loop (suc (length (p.record_bytes ++ more))) (held p more))
          (sym d)
  record-resume n m p more (ok (some (part, rest))) d k (x, shorter) h = rw x (
      message-resume (loop m) (loop n) (moved p part rest) more
        (hello_message (p.handshake ++ part)) (h (moved p part rest) d shorter))

  feed_loop-resume :
      (n m : ℕ) (p : TlsParser) (more : Bytes)
      → p.done ≡ false
      → length p.record_bytes < n
      → length (p.record_bytes ++ more) < m
      → loop m (held p more) ≡ (loop n p >>= resume more)
  unfolding feed_loop
  feed_loop-resume zero m p more d h k = absurd (omega arith)
  feed_loop-resume (suc n) zero p more d h k = absurd (omega arith)
  feed_loop-resume (suc n) (suc m) p more d h k =
      record-resume n m p more (next_record p.record_bytes) d k
        (next_record-Extends p.record_bytes more)
        (λ q d' shorter.
          feed_loop-resume n m q more d' (omega arith)
            (omega (arith, length-append q.record_bytes more, length-append p.record_bytes more)))

  hello_message-Any : (b : Bytes) → Ensures (λ m. Unit {0}) (hello_message b)
  unfolding hello_message
  hello_message-Any b = ground (arith, index_ok b 0, be24_ok b 1, slice_ok b 4 (4 + be24_at b 1))

  module _ (Q : Evidence → Type 0)
      (told : (hello : HelloFields) → PrintableHello hello → Q (evidence_of sum256 hello)) where
    -- What is held gets shorter, and the evidence stays good.
    abbrev Kept : TlsParser → TlsParser → Type 0
    Kept p q = (length q.record_bytes ≤ length p.record_bytes) × Q q.evidence

    with_message-Kept :
        (f : TlsParser → Res TlsParser) (p q : TlsParser) (message : Option Bytes)
        → Ensures (Kept p) (f q)
        → Ensures (Kept p) (with_message sum256 f q message)
    unfolding with_message
    with_message-Kept f p q none h = h
    with_message-Kept f p q (some message) h =
        Ensures-bind PrintableHello (Kept p) (parse_client_hello message) _
          (parse_client_hello-PrintableHello message) (λ hello good. (omega arith, told hello good))

    with_record-Kept :
        (f : TlsParser → Res TlsParser) (p : TlsParser) (found : Res (Option (Bytes × Bytes)))
        → Q p.evidence
        → Extends p.record_bytes [] found
        → ((q : TlsParser)
            → length q.record_bytes < length p.record_bytes
            → Q q.evidence
            → Ensures (Kept q) (f q))
        → Ensures (Kept p) (found >>= with_record sum256 f p)
    unfolding with_record
    with_record-Kept f p panic k x h = x
    with_record-Kept f p (err e) k x h = tt
    with_record-Kept f p (ok none) k x h = (omega arith, k)
    with_record-Kept f p (ok (some (part, rest))) k (x, shorter) h =
        let q = moved p part rest in
        Ensures-bind (λ m. Unit {0}) (Kept p) (hello_message (p.handshake ++ part)) _
          (hello_message-Any (p.handshake ++ part))
          (λ message t. with_message-Kept f p q message (
            Ensures-weaken (Kept q) (Kept p) (f q) (h q shorter k)
              (λ r (l, k'). (omega arith, k'))))

    pub feed_loop-Kept :
        (n : ℕ) (p : TlsParser)
        → length p.record_bytes < n
        → Q p.evidence
        → Ensures (Kept p) (loop n p)
    unfolding feed_loop
    feed_loop-Kept zero p h k = absurd (omega arith)
    feed_loop-Kept (suc n) p h k =
        with_record-Kept (loop n) p (next_record p.record_bytes) k
          (next_record-Extends p.record_bytes [])
          (λ q shorter k'. feed_loop-Kept n q (omega arith) k')

bind-cong_on :
    {A B : Type 0} (P : A → Type 0) (m : Res A) (f g : A → Res B)
    → Ensures P m
    → ((a : A) → P a → f a ≡ g a)
    → (m >>= f) ≡ (m >>= g)
bind-cong_on P (ok a) f g h k = k a h
bind-cong_on P (err e) f g h k = refl
bind-cong_on P panic f g h k = refl

module _ (sum256 : Bytes → Bytes) where
  feed-done : (bytes : Bytes) (p : TlsParser) → p.done ≡ true → feed sum256 bytes p ≡ ok p
  unfolding feed
  feed-done bytes p h = ground (arith, h)

  feed-live :
      (bytes : Bytes) (p : TlsParser)
      → p.done ≡ false
      → length p.record_bytes + length bytes ≤ max_client_hello + 2 * 18432
      → feed sum256 bytes p
        ≡ feed_loop sum256 (suc (length (p.record_bytes ++ bytes))) (held p bytes)
  unfolding feed
  feed-live bytes p h k = ground (arith, h)

  feed-resume :
      (more : Bytes) (q : TlsParser)
      → length q.record_bytes + length more ≤ max_client_hello + 2 * 18432
      → resume sum256 more q ≡ feed sum256 more q
  unfolding feed
  feed-resume more q h = ground arith

  -- Bytes that come in two segments are read as in one, errors and the evidence included, as long as
  -- they keep to the size limit.
  pub feed-append :
      (first second : Bytes) (p : TlsParser)
      → length p.record_bytes + length (first ++ second) ≤ max_client_hello + 2 * 18432
      → feed sum256 (first ++ second) p ≡ (feed sum256 first p >>= feed sum256 second)
  feed-append first second p h = elim (Bool-cases p.done) [
    | inl y ↦
        feed-done (first ++ second) p y
        ∙ sym (ap (λ m. m >>= feed sum256 second) (feed-done first p y) ∙ feed-done second p y)
    | inr n ↦
        let sizes = length-append first second in
        let sizes' = length-append p.record_bytes first in
        let q = held p first in
        let found = feed_loop sum256 (suc (length q.record_bytes)) q in
        feed-live (first ++ second) p n h
        ∙ ap (λ b. feed_loop sum256 (suc (length b)) (record p { record_bytes = b }))
            (sym (append_assoc p.record_bytes first second))
        ∙ feed_loop-resume sum256 (suc (length q.record_bytes))
            (suc (length (q.record_bytes ++ second))) q second n (omega arith) (omega arith)
        ∙ bind-cong_on (λ r. (length r.record_bytes ≤ length q.record_bytes) × Unit {0}) found _ _
            (feed_loop-Kept sum256 (λ e. Unit {0}) (λ hello good. tt) (suc (length q.record_bytes))
              q (omega arith) tt)
            (λ r (shorter, t). feed-resume second r (omega (arith, sizes, sizes')))
        ∙ ap (λ m. m >>= feed sum256 second) (sym (feed-live first p n (omega (arith, sizes))))
  ]

  -- The names in the evidence hold nothing but printable characters.
  abbrev pub PrintableEvidence : Evidence → Type 0
  PrintableEvidence e = All IsPrintable e.sni × All (All IsPrintable) e.alpn

  -- No segment makes `feed` panic or run out of rounds, and the names in the evidence stay printable.
  pub feed-PrintableEvidence :
      (bytes : Bytes) (p : TlsParser)
      → PrintableEvidence p.evidence
      → Ensures (λ q. PrintableEvidence q.evidence) (feed sum256 bytes p)
  unfolding feed
  feed-PrintableEvidence bytes p h =
      let q = held p bytes in
      let looped : Ensures (λ r. PrintableEvidence r.evidence)
          (feed_loop sum256 (suc (length q.record_bytes)) q) =
        Ensures-weaken _ _ (feed_loop sum256 (suc (length q.record_bytes)) q)
          (feed_loop-Kept sum256 PrintableEvidence
            (λ hello good. unfold evidence_of in (good.sni_printable, good.alpn_printable))
            (suc (length q.record_bytes)) q (omega arith) h)
          (λ r (l, k). k) in
      ground (arith, looped, h)
