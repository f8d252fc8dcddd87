-- ===== src/Domain/Dns/Message.antt =====
-- internal/domain/dns.go, DNSAnswerRecords, DNSQuestion, questionName and skipName. An address is its
-- bytes, a time to live is in seconds. A loop over a name takes a byte a round at least; running out
-- of rounds is a panic here.
use socktrail.Base.{
  ℕ, zero, suc, ◌+◌, bit_and, not, ◌&&◌, ◌||◌, List, [], ◌∷◌, ◌++◌, Option, none, some, Bytes,
  length, ltb, leb, ◌==◌, if◌then◌else◌, Res, ok, panic, ◌>>=◌, index, slice, be16, be32, map,
}
use socktrail.Domain.Address.{unmapped}
use socktrail.Domain.Hostname.{valid_hostname, normalize_name}

pub record DnsAnswer : Type 0 where
  pub address : Bytes
  pub ttl : ℕ

module _ (msg : Bytes) where
  -- The loop of `questionName`: the name and what follows it.
  unfoldable pub question_loop : ℕ → ℕ → Bytes → Res (Option (Bytes × ℕ))
  question_loop zero offset name = panic
  question_loop (suc rounds) offset name = if leb (length msg) offset then ok none else do
    size ← index msg offset
    if size == 0
        then ok (some (name, offset + 1))
        else if ltb 63 size || ltb (length msg) (offset + 1 + size)
        then ok none
        else do
          label ← slice msg (offset + 1) (offset + 1 + size)
          question_loop rounds (offset + 1 + size)
              ((if ltb 0 (length name) then name ++ (46 ∷ []) else name) ++ label)

  unfoldable pub checked_name : Option (Bytes × ℕ) → Option (Bytes × ℕ)
  checked_name none = none
  checked_name (some (name, offset)) =
      if not (valid_hostname name) then none else some (normalize_name name, offset)

  -- `questionName`
  unfoldable pub question_name : ℕ → Res (Option (Bytes × ℕ))
  unfolding question_loop checked_name
  question_name offset = do
    found ← question_loop (suc (length msg)) offset []
    ok (checked_name found)

  unfoldable pub skip_loop : ℕ → ℕ → Res (Option ℕ)
  skip_loop zero offset = panic
  skip_loop (suc rounds) offset = if leb (length msg) offset then ok none else do
    size ← index msg offset
    if size == 0
        then ok (some (offset + 1))
        else if bit_and size 0xc0 == 0xc0
        then (if leb (offset + 2) (length msg) then ok (some (offset + 2)) else ok none)
        else if ltb 63 size
        then ok none
        else skip_loop rounds (offset + 1 + size)

  -- `skipName`
  unfoldable pub skip_name : ℕ → Res (Option ℕ)
  unfolding skip_loop
  skip_name offset = skip_loop (suc (length msg)) offset

  -- The `switch` on a record's class, type and length; `offset` is behind its header.
  unfoldable pub address_of : ℕ → ℕ → ℕ → ℕ → ℕ → Res (List DnsAnswer)
  address_of class record_type size ttl offset =
      if class == 1 && (record_type == 1 && size == 4)
      then (do a ← slice msg offset (offset + 4); ok (record { address = a; ttl = ttl } ∷ []))
      else if class == 1 && (record_type == 28 && size == 16)
      then (do
        a ← slice msg offset (offset + 16)
        ok (record { address = unmapped a; ttl = ttl } ∷ []))
      else ok []

  -- One answer behind its name, and what the loop goes on with.
  unfoldable pub answer_body :
      (ℕ → List DnsAnswer → Res (List DnsAnswer)) → List DnsAnswer → Option ℕ → Res (List DnsAnswer)
  answer_body continue addrs none = ok addrs
  answer_body continue addrs (some offset) = if ltb (length msg) (offset + 10) then ok addrs else do
    record_type ← be16 msg offset
    class ← be16 msg (offset + 2)
    ttl ← be32 msg (offset + 4)
    size ← be16 msg (offset + 8)
    if ltb (length msg) (offset + 10 + size) then ok addrs else do
      found ← address_of class record_type size ttl (offset + 10)
      continue (offset + 10 + size) (addrs ++ found)

  -- `for range answers`
  unfoldable pub answer_loop : ℕ → ℕ → List DnsAnswer → Res (List DnsAnswer)
  unfolding answer_body
  answer_loop zero offset addrs = ok addrs
  answer_loop (suc answers) offset addrs = do
    behind ← skip_name offset
    answer_body (answer_loop answers) addrs behind

  unfoldable pub answers_behind : ℕ → Option (Bytes × ℕ) → Res (Bytes × List DnsAnswer)
  unfolding answer_loop
  answers_behind answers none = ok ([], [])
  answers_behind answers (some (name, offset)) =
      if ltb (length msg) (offset + 4) then ok ([], []) else do
        question_type ← be16 msg offset
        if not (question_type == 1) && not (question_type == 28)
            then ok ([], [])
            else do addrs ← answer_loop answers (offset + 4) []; ok (name, addrs)

  unfoldable pub answer_section : Res (Bytes × List DnsAnswer)
  unfolding answers_behind question_name
  answer_section = do
    answers ← be16 msg 6
    question ← question_name 12
    answers_behind answers question

  -- `DNSAnswerRecords`
  unfoldable pub dns_answer_records : Res (Bytes × List DnsAnswer)
  unfolding answer_section
  dns_answer_records = if ltb (length msg) 12 then ok ([], []) else do
    flags ← index msg 2
    code ← index msg 3
    questions ← be16 msg 4
    if bit_and flags 0x80 == 0 || (not (bit_and code 0x0f == 0) || not (questions == 1))
        then ok ([], [])
        else answer_section

  unfoldable pub question_behind : Option (Bytes × ℕ) → Res (Option (Bytes × ℕ))
  question_behind none = ok none
  question_behind (some (name, offset)) =
      if ltb (length msg) (offset + 2)
      then ok none
      else do question_type ← be16 msg offset; ok (some (name, question_type))

  -- `DNSQuestion`
  unfoldable pub dns_question : Res (Option (Bytes × ℕ))
  unfolding question_behind question_name
  dns_question = if ltb (length msg) 12 then ok none else do
    questions ← be16 msg 4
    if questions == 0 then ok none else do question ← question_name 12; question_behind question

-- `DNSAnswers`
unfoldable pub dns_answers : Bytes → Res (Bytes × List Bytes)
dns_answers msg = do
  (name, records) ← dns_answer_records msg
  ok (name, map (λ (r : DnsAnswer). r.address) records)
