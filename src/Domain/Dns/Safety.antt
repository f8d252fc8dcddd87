-- ===== src/Domain/Dns/Safety.antt =====
-- internal/domain/dns.go: the bounds of reading a message.
use socktrail.Base.{
  ℕ, zero, suc, ◌+◌, ◌-◌, ◌≤◌, ◌<◌, ◌≡◌, ◌⊎◌, inl, inr, List, [], ◌∷◌, ◌++◌, Option, none, some,
  Bytes, length, All, All-append, ltb, if◌then◌else◌, arith, Bool-cases, Res, Ensures, Ensures-bind,
  index_ok, slice_ok, be16_ok, be32_ok, at, be16_at, take, drop, length-take, length-drop,
}
use socktrail.Domain.Hostname.{IsPrintable, valid_hostname-IsPrintable, normalize_name-IsPrintable}
use socktrail.Domain.Address.{unmapped}
use socktrail.Domain.Dns.Message.{
  DnsAnswer, question_loop, checked_name, question_name, skip_loop, skip_name, address_of,
  answer_body, answer_loop, answers_behind, answer_section, dns_answer_records,
}

-- An IPv4 or an IPv6 address.
abbrev pub HasAddress : DnsAnswer → Type 0
HasAddress r = (length r.address ≡ 4) ⊎ (length r.address ≡ 16)

-- What an answer section yields: a printable name, and addresses of either length.
abbrev pub GoodAnswers : Bytes × List DnsAnswer → Type 0
GoodAnswers r = All IsPrintable r.0 × All HasAddress r.1

unmapped-HasAddress :
    (a : Bytes) → length a ≡ 16 → (length (unmapped a) ≡ 4) ⊎ (length (unmapped a) ≡ 16)
unfolding unmapped
unmapped-HasAddress a h = ground (arith, length-drop 12 a)

module _ (msg : Bytes) where
  Named : Option (Bytes × ℕ) → Type 0
  Named none = Unit {0}
  Named (some (name, offset)) = All IsPrintable name

  question_loop-Any :
      (rounds offset : ℕ) (name : Bytes)
      → length msg - offset < rounds
      → Ensures (λ r. Unit {0}) (question_loop msg rounds offset name)
  unfolding question_loop
  question_loop-Any zero offset name h = absurd (omega arith)
  question_loop-Any (suc rounds) offset name h =
      let size = at msg offset in
      let label = take (offset + 1 + size - (offset + 1)) (drop (offset + 1) msg) in
      ground (
        arith,
        index_ok msg offset,
        slice_ok msg (offset + 1) (offset + 1 + size),
        question_loop-Any rounds (offset + 1 + size)
            ((if ltb 0 (length name) then name ++ (46 ∷ []) else name) ++ label),
      )

  checked_name-Named : (found : Option (Bytes × ℕ)) → Named (checked_name msg found)
  unfolding checked_name Named
  checked_name-Named none = tt
  checked_name-Named (some (name, offset)) =
      ground (arith, valid_hostname-IsPrintable name, normalize_name-IsPrintable name)

  question_name-Named : (offset : ℕ) → Ensures Named (question_name msg offset)
  unfolding question_name
  question_name-Named offset =
      Ensures-bind (λ r. Unit {0}) Named (question_loop msg (suc (length msg)) offset []) _
        (question_loop-Any (suc (length msg)) offset [] (omega arith))
        (λ found t. checked_name-Named found)

  skip_loop-Any :
      (rounds offset : ℕ)
      → length msg - offset < rounds
      → Ensures (λ r. Unit {0}) (skip_loop msg rounds offset)
  unfolding skip_loop
  skip_loop-Any zero offset h = absurd (omega arith)
  skip_loop-Any (suc rounds) offset h =
      ground (arith, index_ok msg offset, skip_loop-Any rounds (offset + 1 + at msg offset))

  address_of-HasAddress :
      (class record_type size ttl offset : ℕ)
      → offset + size ≤ length msg
      → Ensures (All HasAddress) (address_of msg class record_type size ttl offset)
  unfolding address_of
  address_of-HasAddress class record_type size ttl offset h = ground (
    arith,
    slice_ok msg offset (offset + 4),
    slice_ok msg offset (offset + 16),
    length-take (offset + 4 - offset) (drop offset msg),
    length-take (offset + 16 - offset) (drop offset msg),
    length-drop offset msg,
    unmapped-HasAddress (take (offset + 16 - offset) (drop offset msg)),
  )

  answer_body-HasAddress :
      (continue : ℕ → List DnsAnswer → Res (List DnsAnswer)) (addrs : List DnsAnswer)
      (behind : Option ℕ)
      → All HasAddress addrs
      → ((offset : ℕ) (more : List DnsAnswer)
          → All HasAddress more
          → Ensures (All HasAddress) (continue offset more))
      → Ensures (All HasAddress) (answer_body msg continue addrs behind)
  unfolding answer_body
  answer_body-HasAddress continue addrs none h k = h
  answer_body-HasAddress continue addrs (some offset) h k =
      elim (Bool-cases (ltb (length msg) (offset + 10))) [
        | inl y ↦ rw y h
        | inr n ↦
            let room : offset + 10 ≤ length msg = ground (arith, n) in
            let size = be16_at msg (offset + 8) in
            rw
              (
                n,
                be16_ok msg offset (omega arith),
                be16_ok msg (offset + 2) (omega arith),
                be32_ok msg (offset + 4) (omega arith),
                be16_ok msg (offset + 8) (omega arith),
              )
              (elim (Bool-cases (ltb (length msg) (offset + 10 + size))) [
                | inl y ↦ rw y h
                | inr n' ↦ rw n' (
                    Ensures-bind (All HasAddress) (All HasAddress)
                      (address_of msg _ _ size _ (offset + 10)) _
                      (address_of-HasAddress _ _ size _ (offset + 10) (ground (arith, n')))
                      (λ found good.
                        k (offset + 10 + size) (addrs ++ found)
                          (All-append HasAddress addrs found h good)))
              ])
      ]

  answer_loop-HasAddress :
      (answers offset : ℕ) (addrs : List DnsAnswer)
      → All HasAddress addrs
      → Ensures (All HasAddress) (answer_loop msg answers offset addrs)
  unfolding answer_loop skip_name
  answer_loop-HasAddress zero offset addrs h = h
  answer_loop-HasAddress (suc answers) offset addrs h =
      Ensures-bind (λ r. Unit {0}) (All HasAddress) (skip_loop msg (suc (length msg)) offset) _
        (skip_loop-Any (suc (length msg)) offset (omega arith))
        (λ behind t.
          answer_body-HasAddress (answer_loop msg answers) addrs behind h
            (λ o more good. answer_loop-HasAddress answers o more good))

  answers_behind-GoodAnswers :
      (answers : ℕ) (question : Option (Bytes × ℕ))
      → Named question
      → Ensures GoodAnswers (answers_behind msg answers question)
  unfolding answers_behind Named
  answers_behind-GoodAnswers answers none h = (tt, tt)
  answers_behind-GoodAnswers answers (some (name, offset)) h =
      ground (arith, be16_ok msg offset, answer_loop-HasAddress answers (offset + 4) [])

  answer_section-GoodAnswers : 12 ≤ length msg → Ensures GoodAnswers (answer_section msg)
  unfolding answer_section
  answer_section-GoodAnswers h = rw (be16_ok msg 6 (omega arith)) (
      Ensures-bind Named GoodAnswers (question_name msg 12) _ (question_name-Named 12)
        (λ question named. answers_behind-GoodAnswers (be16_at msg 6) question named))

  -- On every message DNSAnswerRecords returns without a panic and within its rounds; the name that it
  -- returns is printable and each address has four or sixteen bytes.
  pub dns_answer_records-GoodAnswers : Ensures GoodAnswers (dns_answer_records msg)
  unfolding dns_answer_records
  dns_answer_records-GoodAnswers =
      ground (arith, index_ok msg 2, index_ok msg 3, be16_ok msg 4, answer_section-GoodAnswers)
