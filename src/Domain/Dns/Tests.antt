-- ===== src/Domain/Dns/Tests.antt =====
-- An answer for a.b, and the theorems about DNS at it.
use socktrail.Base.{◌≡◌, refl, true, [], ◌∷◌, Bytes, arith, ok, Ensures, index, slice, be16, be32}
use socktrail.Domain.Hostname.{
  valid_hostname, all_hostname, normalize_name, is_space, trim_left, trim_right, trim_dot, to_lower,
}
use socktrail.Domain.Address.{all_zero, unmapped}
use socktrail.Domain.Dns.Message.{
  DnsAnswer, question_loop, checked_name, question_name, skip_loop, skip_name, address_of,
  answer_body, answer_loop, answers_behind, answer_section, dns_answer_records,
}
use socktrail.Domain.Dns.Safety.{GoodAnswers, dns_answer_records-GoodAnswers}
use socktrail.Domain.Dns.Cache.{
  DnsCache, same, find, has_name, known_of, observe_records, lookup, expire,
}
use socktrail.Domain.Dns.Bounds.{IsBounded, observe-expire-IsBounded, lookup-observe_records}

abbrev message : Bytes
message =
    0 ∷ 1 ∷ 0x80 ∷ 0 ∷ 0 ∷ 1 ∷ 0 ∷ 1 ∷ 0 ∷ 0 ∷ 0 ∷ 0 ∷ 1 ∷ 97 ∷ 1 ∷ 98 ∷ 0 ∷ 0 ∷ 1 ∷ 0 ∷ 1 ∷ 0xc0
    ∷ 12 ∷ 0 ∷ 1 ∷ 0 ∷ 1 ∷ 0 ∷ 0 ∷ 0 ∷ 60 ∷ 0 ∷ 4 ∷ 10 ∷ 0 ∷ 0 ∷ 7 ∷ []

abbrev answer : DnsAnswer
answer = record { address = 10 ∷ 0 ∷ 0 ∷ 7 ∷ []; ttl = 60 }

dns_answer_records-message : dns_answer_records message ≡ ok (97 ∷ 46 ∷ 98 ∷ [], answer ∷ [])
unfolding dns_answer_records answer_section answers_behind answer_loop answer_body address_of
    skip_name skip_loop question_name question_loop checked_name valid_hostname all_hostname index
    slice be16 be32 normalize_name trim_left trim_right trim_dot to_lower is_space
dns_answer_records-message = refl

dns_answer_records-GoodAnswers_example : Ensures GoodAnswers (dns_answer_records message)
dns_answer_records-GoodAnswers_example = dns_answer_records-GoodAnswers message

-- A cache that knows another name of the address.
abbrev cache : DnsCache
cache = (10 ∷ 0 ∷ 0 ∷ 7 ∷ [], record { name = 120 ∷ []; first = 5; last = 6 } ∷ []) ∷ []

cache-IsBounded : IsBounded cache
cache-IsBounded = record {
  few_addresses = omega arith;
  few_names = ((omega arith, omega arith), tt);
}

observe-expire-IsBounded_example :
    IsBounded (observe_records (97 ∷ 46 ∷ 98 ∷ []) (answer ∷ []) 9 cache)
    × IsBounded (expire 9 cache)
observe-expire-IsBounded_example =
    observe-expire-IsBounded (97 ∷ 46 ∷ 98 ∷ []) (answer ∷ []) 9 cache cache-IsBounded

-- The address in its IPv4-mapped form.
abbrev mapped : Bytes
mapped = 0 ∷ 0 ∷ 0 ∷ 0 ∷ 0 ∷ 0 ∷ 0 ∷ 0 ∷ 0 ∷ 0 ∷ 255 ∷ 255 ∷ 10 ∷ 0 ∷ 0 ∷ 7 ∷ []

lookup-observe_records_example :
    lookup mapped 8 true (observe_records (97 ∷ 46 ∷ 98 ∷ []) (answer ∷ []) 9 cache)
    ≡ 97 ∷ 46 ∷ 98 ∷ []
unfolding find same known_of has_name unmapped all_zero
lookup-observe_records_example =
    lookup-observe_records (97 ∷ 46 ∷ 98 ∷ []) mapped answer 8 9 true cache refl (omega arith)
      (omega arith, tt) refl (omega arith)
