-- ===== src/Domain/Server/Feeding.antt =====
-- internal/domain/tls_server.go, feed and messages: what they leave of the flight and the evidence.
use socktrail.Base.{
  ℕ, zero, suc, ◌+◌, ◌-◌, ◌≤◌, ◌<◌, ◌≡◌, refl, ◌∙◌, ◌⊎◌, inl, inr, true, false, not, ◌||◌, String,
  [], ◌++◌, Option, none, some, Bytes, length, length-append, length-take, length-drop, take, drop,
  ltb, leb, ◌==◌, All, arith, Bool-cases, Res, ok, err, panic, Yields, Yields-bind, Yields-weaken,
  Ensures, index_ok, slice_ok, slice_from_ok, be16_ok, be24_ok, be16_at, be24_at, at, is_some,
}
use socktrail.Domain.Hostname.{IsPrintable}
use socktrail.Domain.Server.Certificate.{certificate_names}
use socktrail.Domain.Server.Names.{Named, certificate_names-Named}
use socktrail.Domain.Server.Hello.{Chosen, tls_version_name}
use socktrail.Domain.Server.Reading.{IsChosen, parse_server_hello-IsChosen}
use socktrail.Domain.Server.Flight.{
  Flight, Evidence, Outcome, max_server_flight, stop, answer, refuse, certificate_message,
  hello_message, messages_loop, messages, behind_record, whole_record, feed_loop, feed,
}

-- Names and a protocol that can be shown.
pub record Clean (e : Evidence) : Type 0 where
  pub names : Named e.certificate
  pub protocol : All IsPrintable e.server_alpn

-- What is held back is untouched, or the flight has stopped and holds nothing back.
abbrev pub Holding : Flight → Flight → Type 0
Holding f g =
    ((g.pending ≡ f.pending) × (g.pending_bytes ≡ f.pending_bytes) × (g.done ≡ f.done))
    ⊎ ((g.done ≡ true) × (g.pending ≡ []) × (g.pending_bytes ≡ 0))

-- What reading leaves.
pub record Reads (f : Flight) (r : Outcome) : Type 0 where
  pub expected : r.flight.expected ≡ f.expected
  pub begun : r.flight.started ≡ f.started
  pub holding : Holding f r.flight
  pub over : f.done ≡ true → r.flight.done ≡ true
  pub records : length r.flight.record_bytes ≤ length f.record_bytes
  pub handshake : length r.flight.handshake ≤ max_server_flight
  pub clean : Clean r.evidence

Holding-trans :
    (f g h : Flight) → Holding f g → Holding g h → (g.done ≡ true → h.done ≡ true) → Holding f h
Holding-trans f g h (inl a) (inl b) k = inl (b.0 ∙ a.0, b.1 ∙ a.1, b.2 ∙ a.2)
Holding-trans f g h (inl a) (inr b) k = inr b
Holding-trans f g h (inr a) (inl b) k = inr (k a.0, b.0 ∙ a.1, b.1 ∙ a.2)
Holding-trans f g h (inr a) (inr b) k = inr b

-- Reading on, behind `g`.
Reads-behind :
    (f g : Flight) (r : Outcome)
    → g.expected ≡ f.expected
    → g.started ≡ f.started
    → Holding f g
    → (f.done ≡ true → g.done ≡ true)
    → length g.record_bytes ≤ length f.record_bytes
    → Reads g r
    → Reads f r
Reads-behind f g r same begun holding over less h = record {
  expected = h.expected ∙ same;
  begun = h.begun ∙ begun;
  holding = Holding-trans f g r.flight holding h.holding h.over;
  over = λ d. h.over (over d);
  records = omega (arith, h.records, less);
  handshake = h.handshake;
  clean = h.clean;
}

-- Nothing more is read.
Reads-here :
    (f : Flight) (e : Evidence) (error : Option String)
    → length f.handshake ≤ max_server_flight
    → Clean e
    → Reads f (record { flight = f; evidence = e; error = error })
Reads-here f e error h c = record {
  expected = refl;
  begun = refl;
  holding = inl (refl, refl, refl);
  over = λ d. d;
  records = omega arith;
  handshake = h;
  clean = c;
}

Reads-stop : (f : Flight) (e : Evidence) → Clean e → Yields (Reads f) (answer (stop f) e)
unfolding answer stop
Reads-stop f e c = record {
  expected = refl;
  begun = refl;
  holding = inr (refl, refl, refl);
  over = λ d. refl;
  records = omega arith;
  handshake = omega arith;
  clean = c;
}

certificate_message-Reads :
    (body : Bytes) (f : Flight) (e : Evidence)
    → length f.handshake ≤ max_server_flight
    → Clean e
    → Yields (Reads f) (certificate_message body f e)
unfolding certificate_message answer
certificate_message-Reads body f e h c =
    let here = Reads-here f e none h c in
    let leaf = be24_at body 3 in
    elim (Bool-cases (ltb (length body) 6)) [
      | inl y ↦ rw y here
      | inr n ↦
          rw (n, be24_ok body 3 (ground (arith, n)))
            (elim (Bool-cases (ltb (length body) (6 + leaf))) [
              | inl y ↦ rw y here
              | inr m ↦
                  rw (m, slice_ok body 6 (6 + leaf) (omega arith) (ground (arith, m)))
                    (Yields-bind Named (Reads f)
                      (certificate_names (take (6 + leaf - 6) (drop 6 body))) _
                      (certificate_names-Named (take (6 + leaf - 6) (drop 6 body)))
                      (λ names n.
                        Reads-stop f (record e { certificate = names })
                          (record { names = n; protocol = c.protocol })))
            ])
    ]

-- The rest of the loop of `messages`, on a shorter handshake.
GoesOn : Flight → (Flight → Evidence → Res Outcome) → Type 0
GoesOn f next =
    (rest : Bytes) (e : Evidence)
    → length rest < length f.handshake
    → Clean e
    → Yields (Reads (record f { handshake = rest })) (next (record f { handshake = rest }) e)

hello_message-Reads :
    (size : ℕ) (f : Flight) (e : Evidence) (next : Flight → Evidence → Res Outcome) (m : Res Chosen)
    → 4 + size ≤ length f.handshake
    → length f.handshake ≤ max_server_flight
    → Clean e
    → Ensures IsChosen m
    → GoesOn f next
    → Yields (Reads f) (hello_message size f e next m)
unfolding hello_message GoesOn refuse IsChosen
hello_message-Reads size f e next panic h l c k go = absurd k
hello_message-Reads size f e next (err reason) h l c k go = Reads-here f e (some reason) l c
hello_message-Reads size f e next (ok chosen) h l c k go =
    let rest = drop (4 + size) f.handshake in
    let less : length rest < length f.handshake =
      omega (arith, length-drop (4 + size) f.handshake, h) in
    let g : Flight = record f { handshake = rest } in
    let e' : Evidence = record e {
      tls_version = tls_version_name chosen.version;
      server_alpn = chosen.alpn;
    } in
    let c' : Clean e' = record { names = c.names; protocol = k } in
    let shift : (m : Res Outcome) → Yields (Reads g) m → Yields (Reads f) m = λ m y.
      Yields-weaken (Reads g) (Reads f) m y
        (λ r q. Reads-behind f g r refl refl (inl (refl, refl, refl)) (λ d. d) (omega arith) q) in
    rw (slice_from_ok f.handshake (4 + size) h)
      (elim (Bool-cases (leb 0x0304 chosen.version || not (length e.sni == 0))) [
        | inl y ↦ rw y (shift (answer (stop g) e') (Reads-stop g e' c'))
        | inr n ↦ rw n (shift (next g e') (go rest e' less c'))
      ])

messages_loop-Reads :
    (turns : ℕ) (f : Flight) (e : Evidence)
    → length f.handshake < turns
    → length f.handshake ≤ max_server_flight
    → Clean e
    → Yields (Reads f) (messages_loop turns f e)
unfolding messages_loop answer GoesOn
messages_loop-Reads zero f e h l c = absurd (omega arith)
messages_loop-Reads (suc turns) f e h l c =
    let here = Reads-here f e none l c in
    let body = drop 4 f.handshake in
    let size = be24_at f.handshake 1 in
    let shorter = length-drop 4 f.handshake in
    elim (Bool-cases (ltb (length f.handshake) 4 || f.done)) [
      | inl y ↦ rw y here
      | inr n ↦
          let long : 4 ≤ length f.handshake = ground (arith, n) in
          rw
            (
              n,
              index_ok f.handshake 0 (omega (arith, long)),
              slice_from_ok f.handshake 4 long,
              be24_ok f.handshake 1 long,
            )
            (elim (Bool-cases (at f.handshake 0 == 11)) [
              | inl y ↦ rw y (certificate_message-Reads body f e l c)
              | inr n1 ↦ rw n1 (elim (Bool-cases (ltb (length body) size)) [
                | inl y ↦ rw y here
                | inr n2 ↦
                    let fits : size ≤ length body = ground (arith, n2) in
                    rw n2 (elim (Bool-cases (at f.handshake 0 == 2)) [
                      | inl y ↦
                          rw (y, slice_ok body 0 size (omega arith) fits)
                            (hello_message-Reads size f e (λ f' e'. messages_loop turns f' e') _
                              (omega (arith, fits, shorter, long)) l c
                              (parse_server_hello-IsChosen (take (size - 0) (drop 0 body)))
                              (λ rest e' less c'.
                                messages_loop-Reads turns (record f { handshake = rest }) e'
                                  (omega (arith, less, h)) (omega (arith, less, l)) c'))
                      | inr n3 ↦ rw n3 (Reads-stop f e c)
                    ])
              ])
            ])
    ]

-- The rest of the loop of `feed`, with fewer bytes of records.
FeedsOn : Flight → (Flight → Evidence → Res Outcome) → Type 0
FeedsOn f next =
    (g : Flight) (e : Evidence)
    → length g.record_bytes < length f.record_bytes
    → length g.handshake ≤ max_server_flight
    → Clean e
    → Yields (Reads g) (next g e)

behind_record-Reads :
    (f g : Flight) (next : Flight → Evidence → Res Outcome) (r : Outcome)
    → length g.record_bytes < length f.record_bytes
    → Reads g r
    → FeedsOn f next
    → Yields (Reads g) (behind_record next r)
unfolding behind_record FeedsOn
behind_record-Reads f g next r less q go = elim (Bool-cases (is_some r.error)) [
  | inl y ↦ rw y q
  | inr n ↦ rw n (
      Yields-weaken (Reads r.flight) (Reads g) (next r.flight r.evidence)
        (go r.flight r.evidence (omega (arith, q.records, less)) q.handshake q.clean)
        (λ s w. Reads-behind g r.flight s q.expected q.begun q.holding q.over q.records w))
]

whole_record-Reads :
    (kind size : ℕ) (f : Flight) (e : Evidence) (next : Flight → Evidence → Res Outcome)
    → 5 + size ≤ length f.record_bytes
    → length f.handshake ≤ max_server_flight
    → Clean e
    → FeedsOn f next
    → Yields (Reads f) (whole_record kind size f e next)
unfolding whole_record refuse messages
whole_record-Reads kind size f e next fits l c go =
    let part = take (5 + size - 5) (drop 5 f.record_bytes) in
    let rest = drop (5 + size) f.record_bytes in
    let g : Flight = record f { handshake = f.handshake ++ part; record_bytes = rest } in
    let longer = length-append f.handshake part in
    let added = length-take (5 + size - 5) (drop 5 f.record_bytes) in
    let less : length rest < length f.record_bytes =
      omega (arith, length-drop (5 + size) f.record_bytes, fits) in
    elim (Bool-cases (not (kind == 22))) [
      | inl y ↦ rw y (Reads-stop f e c)
      | inr n ↦ rw n (elim (Bool-cases (ltb max_server_flight (length f.handshake + size))) [
        | inl y ↦ rw y (Reads-here f e (some "TLS server flight size limit") l c)
        | inr m ↦
            let bound : length g.handshake ≤ max_server_flight = ground (arith, m, longer, added) in
            rw
              (
                m,
                slice_ok f.record_bytes 5 (5 + size) (omega arith) fits,
                slice_from_ok f.record_bytes (5 + size) fits,
              )
              (Yields-bind (Reads g) (Reads f) (messages_loop (suc (length g.handshake)) g e)
                (behind_record next)
                (messages_loop-Reads (suc (length g.handshake)) g e (omega arith) bound c)
                (λ r q.
                  Yields-weaken (Reads g) (Reads f) (behind_record next r)
                    (behind_record-Reads f g next r less q go)
                    (λ s w.
                      Reads-behind f g s refl refl (inl (refl, refl, refl)) (λ d. d)
                        (omega (arith, less)) w)))
      ])
    ]

feed_loop-Reads :
    (turns : ℕ) (f : Flight) (e : Evidence)
    → length f.record_bytes < turns
    → length f.handshake ≤ max_server_flight
    → Clean e
    → Yields (Reads f) (feed_loop turns f e)
unfolding feed_loop answer refuse FeedsOn
feed_loop-Reads zero f e h l c = absurd (omega arith)
feed_loop-Reads (suc turns) f e h l c =
    let size = be16_at f.record_bytes 3 in
    elim (Bool-cases (ltb (length f.record_bytes) 5 || f.done)) [
      | inl y ↦ rw y (Reads-here f e none l c)
      | inr n ↦
          let long : 5 ≤ length f.record_bytes = ground (arith, n) in
          rw
            (
              n,
              index_ok f.record_bytes 0 (omega (arith, long)),
              be16_ok f.record_bytes 3 long,
              index_ok f.record_bytes 1 (omega (arith, long)),
            )
            (elim (Bool-cases (not (at f.record_bytes 1 == 3) || size == 0 || ltb 18432 size)) [
              | inl y ↦ rw y (Reads-here f e (some "invalid TLS record") l c)
              | inr n1 ↦ rw n1 (elim (Bool-cases (ltb (length f.record_bytes) (5 + size))) [
                | inl y ↦ rw y (Reads-here f e none l c)
                | inr n2 ↦ rw n2 (
                    whole_record-Reads (at f.record_bytes 0) size f e
                      (λ f' e'. feed_loop turns f' e') (ground (arith, n2)) l c
                      (λ g e' less l' c'.
                        feed_loop-Reads turns g e' (omega (arith, less, h)) l' c'))
              ])
            ])
    ]

-- What `feed` leaves; bytes that it takes are within the limit.
pub record Fed (f : Flight) (b : Bytes) (r : Outcome) : Type 0 where
  pub expected : r.flight.expected ≡ f.expected
  pub begun : r.flight.started ≡ f.started
  pub holding : Holding f r.flight
  pub records : length r.flight.record_bytes ≤ max_server_flight
  pub handshake : length r.flight.handshake ≤ max_server_flight
  pub clean : Clean r.evidence
  pub small : is_some r.error ≡ false → length b ≤ max_server_flight

-- Reading a part of the flight gives an answer: the loops of feed and messages end, and what is kept
-- of the records and the messages stays within the limit.
pub feed-Fed :
    (b : Bytes) (f : Flight) (e : Evidence)
    → length f.record_bytes ≤ max_server_flight
    → length f.handshake ≤ max_server_flight
    → Clean e
    → Yields (Fed f b) (feed b f e)
unfolding feed refuse
feed-Fed b f e k l c =
    let g : Flight = record f { record_bytes = f.record_bytes ++ b } in
    let longer = length-append f.record_bytes b in
    elim (Bool-cases (ltb max_server_flight (length f.record_bytes + length b))) [
      | inl y ↦ rw y (record {
        expected = refl;
        begun = refl;
        holding = inl (refl, refl, refl);
        records = k;
        handshake = l;
        clean = c;
        small = λ e. absurd (cc e);
      })
      | inr n ↦ rw n (
          Yields-weaken (Reads g) (Fed f b) (feed_loop (suc (length g.record_bytes)) g e)
            (feed_loop-Reads (suc (length g.record_bytes)) g e (omega arith) l c)
            (λ r q. record {
              expected = q.expected;
              begun = q.begun;
              holding = q.holding;
              records = ground (arith, q.records, longer, n);
              handshake = q.handshake;
              clean = q.clean;
              small = λ _. ground (arith, n);
            }))
    ]
